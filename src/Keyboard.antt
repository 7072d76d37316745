-- ===== src/Keyboard.antt =====
-- The keyboard of os/keyboard.c: scan codes become characters in a ring of 256 bytes.
-- A scan code is what the handler reads from port 0x60. A `char` is a byte, `int` flags are Booleans.
pub mod Keys
pub mod Queue
mod Tests
use lumin.Prelude.{
  ℕ, zero, suc, ◌+◌, ◌%◌, Bool, true, false, not, ◌&&◌, ◌||◌, Option, none, some, List, [], ◌∷◌,
  get_or, ltb, leb, ◌==◌, if◌then◌else◌, update,
}

abbrev pub keybuf_size : ℕ
keybuf_size = 256

-- The static variables of the handler.
pub record Keyboard : Type 0 where
  pub shift_pressed : Bool
  pub ctrl_pressed : Bool
  pub caps_locked : Bool
  pub extended : Bool
  pub keybuf : ℕ → ℕ
  pub keybuf_head : ℕ
  pub keybuf_tail : ℕ

-- 0 where the array has no character.
abbrev pub keymap : List ℕ
keymap =
    0 ∷ 0 ∷ 49 ∷ 50 ∷ 51 ∷ 52 ∷ 53 ∷ 54 ∷ 55 ∷ 56 ∷ 57 ∷ 48 ∷ 45 ∷ 61 ∷ 0 ∷ 0 ∷ 113 ∷ 119 ∷ 101
    ∷ 114 ∷ 116 ∷ 121 ∷ 117 ∷ 105 ∷ 111 ∷ 112 ∷ 91 ∷ 93 ∷ 10 ∷ 0 ∷ 97 ∷ 115 ∷ 100 ∷ 102 ∷ 103 ∷ 104
    ∷ 106 ∷ 107 ∷ 108 ∷ 59 ∷ 39 ∷ 96 ∷ 0 ∷ 92 ∷ 122 ∷ 120 ∷ 99 ∷ 118 ∷ 98 ∷ 110 ∷ 109 ∷ 44 ∷ 46 ∷ 47
    ∷ 0 ∷ 42 ∷ 0 ∷ 32 ∷ []

abbrev pub keymap_shift : List ℕ
keymap_shift =
    0 ∷ 0 ∷ 33 ∷ 64 ∷ 35 ∷ 36 ∷ 37 ∷ 94 ∷ 38 ∷ 42 ∷ 40 ∷ 41 ∷ 95 ∷ 43 ∷ 0 ∷ 0 ∷ 81 ∷ 87 ∷ 69 ∷ 82
    ∷ 84 ∷ 89 ∷ 85 ∷ 73 ∷ 79 ∷ 80 ∷ 123 ∷ 125 ∷ 0 ∷ 0 ∷ 65 ∷ 83 ∷ 68 ∷ 70 ∷ 71 ∷ 72 ∷ 74 ∷ 75 ∷ 76
    ∷ 58 ∷ 34 ∷ 126 ∷ 0 ∷ 124 ∷ 90 ∷ 88 ∷ 67 ∷ 86 ∷ 66 ∷ 78 ∷ 77 ∷ 60 ∷ 62 ∷ 63 ∷ []

pub keyboard_init : Keyboard → Keyboard
keyboard_init k = record k { keybuf_head = 0; keybuf_tail = 0 }

-- A character is put into the ring, or dropped when there is no room.
pub put_key : ℕ → Keyboard → Keyboard
put_key c k =
    let next = (k.keybuf_head + 1) % keybuf_size in
    if next == k.keybuf_tail
    then k
    else record k { keybuf = update k.keybuf k.keybuf_head c; keybuf_head = next }

-- The key behind the prefix 0xE0, 0 for none.
pub special_key : ℕ → ℕ
special_key scancode =
    if scancode == 0x48
    then 0x80
    else if scancode == 0x50
    then 0x81
    else if scancode == 0x4B
    then 0x82
    else if scancode == 0x4D
    then 0x83
    else (if scancode == 0x47
        then 0x84
        else (if scancode == 0x4F then 0x85 else (if scancode == 0x53 then 0x86 else 0)))

abbrev pub between : ℕ → ℕ → ℕ → Bool
between lo x hi = leb lo x && leb x hi

-- `upper`.
pub is_upper : ℕ → Keyboard → Bool
is_upper scancode k =
    if (k.caps_locked && between 0x10 scancode 0x32)
      && (between 0x10 scancode 0x19 || between 0x1E scancode 0x26 || between 0x2C scancode 0x32)
    then not k.shift_pressed
    else k.shift_pressed

-- With control, a letter is cut to 5 bits.
abbrev pub control : Bool → ℕ → ℕ
control pressed c =
    let c' = if pressed && between 97 c 122 then c % 32 else c in
    if pressed && between 65 c' 90 then c' % 32 else c'

pub char_of : ℕ → Keyboard → ℕ
char_of scancode k =
    if scancode == 0x0E
    then 8
    else control k.ctrl_pressed
        (get_or (if is_upper scancode k then keymap_shift else keymap) scancode 0)

-- A key that is pressed, when no prefix came before it.
abbrev pub press : ℕ → Keyboard → Keyboard
press c k = if c == 0 then k else put_key c k

pub keyboard_handler : ℕ → Keyboard → Keyboard
keyboard_handler scancode k =
    if scancode == 0x2A || scancode == 0x36
    then record k { shift_pressed = true }
    else if scancode == 0xAA || scancode == 0xB6
    then record k { shift_pressed = false }
    else if scancode == 0x1D
    then record k { ctrl_pressed = true }
    else if scancode == 0x9D
    then record k { ctrl_pressed = false }
    else if scancode == 0x3A
    then record k { caps_locked = not k.caps_locked }
    else if scancode == 0xE0
    then record k { extended = true }
    else if k.extended
    then if leb 0x80 scancode
      then record k { extended = false }
      else press (special_key scancode) (record k { extended = false })
    else (if leb 0x80 scancode then k else press (char_of scancode k) k)

pub keyboard_avail : Keyboard → Bool
keyboard_avail k = not (k.keybuf_tail == k.keybuf_head)

-- `none` is the result -1.
pub keyboard_dequeue : Keyboard → Option ℕ × Keyboard
keyboard_dequeue k = if k.keybuf_tail == k.keybuf_head then (none, k) else (
  some (k.keybuf k.keybuf_tail),
  record k { keybuf_tail = (k.keybuf_tail + 1) % keybuf_size },
)

-- How a stretch of `keyboard_chr_read` ends: with the bytes that were asked for, or waiting for an
-- interrupt with those that were there.
pub data ChrRead : Type 0 where
  chr_read : List ℕ → Keyboard → ChrRead
  chr_waits : List ℕ → Keyboard → ChrRead

abbrev pub with_key : ℕ → ChrRead → ChrRead
with_key c (chr_read cs k) = chr_read (c ∷ cs) k
with_key c (chr_waits cs k) = chr_waits (c ∷ cs) k

-- What follows a call of `keyboard_dequeue`.
abbrev pub got_key : Option ℕ → Keyboard → ChrRead → ChrRead
got_key none k rest = chr_waits [] k
got_key (some c) k rest = with_key c rest

pub keyboard_chr_read : ℕ → Keyboard → ChrRead
keyboard_chr_read zero k = chr_read [] k
keyboard_chr_read (suc count) k =
    let rest = keyboard_chr_read count ((keyboard_dequeue k).1) in
    if keyboard_avail k then got_key ((keyboard_dequeue k).0) k rest else chr_waits [] k
