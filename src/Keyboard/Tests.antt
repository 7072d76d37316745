-- ===== src/Keyboard/Tests.antt =====
-- Runs of os/keyboard.c.
use lumin.Prelude.{◌≡◌, refl, true, false, update}
use lumin.Keyboard.{Keyboard, keyboard_handler, char_of, special_key, is_upper}

-- A keyboard at rest, with `a` in the last place of the ring.
abbrev resting : Keyboard
resting = record {
  shift_pressed = true;
  ctrl_pressed = false;
  caps_locked = false;
  extended = false;
  keybuf = update (λ i. 0) 255 97;
  keybuf_head = 0;
  keybuf_tail = 255;
}

-- With shift, the space bar and the return key put nothing in.
shift_space : keyboard_handler 0x39 resting ≡ resting
unfolding keyboard_handler char_of is_upper
shift_space = refl

shift_return : keyboard_handler 0x1C resting ≡ resting
unfolding keyboard_handler char_of is_upper
shift_return = refl

-- The right control key comes with a prefix, and the key after it is lost.
right_control :
    keyboard_handler 0x2E (keyboard_handler 0x1D (keyboard_handler 0xE0 resting))
    ≡ record resting { ctrl_pressed = true }
unfolding keyboard_handler char_of is_upper special_key
right_control = refl
