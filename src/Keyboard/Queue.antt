-- ===== src/Keyboard/Queue.antt =====
-- The ring of os/keyboard.c as a queue of at most 255 characters.
use lumin.Prelude.{
  ℕ, zero, suc, ◌+◌, ◌%◌, ◌≤◌, ◌<◌, ◌≡◌, refl, ap, ◌∙◌, true, false, not, ◌||◌, none, some, List,
  [], ◌∷◌, ◌++◌, arith, leb, ◌==◌, if◌then◌else◌, length, take, drop, if_true, if_false,
}
use lumin.Keyboard.Keys.{arrow, typed}
use lumin.Keyboard.{
  Keyboard, keybuf_size, char_of, special_key, keyboard_avail, keyboard_dequeue, ChrRead, chr_read,
  chr_waits, with_key, keyboard_chr_read,
}

-- From the place `t` round to `h` the ring holds `xs`.
abbrev pub Round : (ℕ → ℕ) → ℕ → ℕ → List ℕ → Type 0
Round f t h [] = h ≡ t
Round f t h (x ∷ xs) = (f t ≡ x) × Round f ((t + 1) % keybuf_size) h xs

-- The keyboard holds the characters `xs`, first in first.
pub record HoldsKeys (xs : List ℕ) (k : Keyboard) : Type 0 where
  pub ring : Round k.keybuf k.keybuf_tail k.keybuf_head xs
  pub tail : k.keybuf_tail < keybuf_size
  pub fits : length xs < keybuf_size

Round-length :
    (f : ℕ → ℕ) (t h : ℕ) (xs : List ℕ)
    → t < keybuf_size
    → Round f t h xs
    → h ≡ (t + length xs) % keybuf_size
Round-length f t h [] lt r = omega (arith, r)
Round-length f t h (x ∷ xs) lt r =
    omega (arith, Round-length f ((t + 1) % keybuf_size) h xs (omega arith) (r.1))

-- A character more, if there is room.
abbrev pub queued : ℕ → List ℕ → List ℕ
queued c xs = if leb 255 (length xs) then xs else xs ++ c ∷ []

-- The character that the handler puts in at a scan code, 0 for none.
key_of : ℕ → Keyboard → ℕ
key_of scancode k =
    if leb 0x80 scancode
    then 0
    else if scancode == 0x2A || scancode == 0x36 || scancode == 0x1D || scancode == 0x3A
    then 0
    else (if k.extended then special_key scancode else char_of scancode k)

abbrev pub pressed : ℕ → List ℕ → List ℕ
pressed c xs = if c == 0 then xs else queued c xs

-- What a scan code stands for on a US keyboard, 0 for none: no character when a key is released or is a
-- modifier, else the arrow behind a prefix, and else what is typed with the flags as they are.
unfoldable pub meaning : ℕ → Keyboard → ℕ
meaning scancode k =
    if leb 0x80 scancode
      || scancode == 0x2A
      || scancode == 0x36
      || scancode == 0x1D
      || scancode == 0x3A
    then 0
    else if k.extended
    then arrow scancode
    else typed k.caps_locked k.shift_pressed k.ctrl_pressed scancode

-- The ring without its first character.
abbrev popped : Keyboard → Keyboard
popped k = record k { keybuf_tail = (k.keybuf_tail + 1) % keybuf_size }

dequeue_none :
    (k : Keyboard) → HoldsKeys [] k → (keyboard_avail k ≡ false) × (keyboard_dequeue k ≡ (none, k))
unfolding keyboard_avail keyboard_dequeue
dequeue_none k h =
    let here : (k.keybuf_tail == k.keybuf_head) ≡ true = ground (arith, h.ring) in
    (ap not here, if_true _ _ here)

dequeue_some :
    (x : ℕ) (xs : List ℕ) (k : Keyboard)
    → HoldsKeys (x ∷ xs) k
    → (keyboard_avail k ≡ true)
      × (keyboard_dequeue k ≡ (some x, popped k))
      × HoldsKeys xs (popped k)
unfolding keyboard_avail keyboard_dequeue
dequeue_some x xs k h =
    let far = Round-length k.keybuf k.keybuf_tail k.keybuf_head (x ∷ xs) h.tail h.ring in
    let apart : (k.keybuf_tail == k.keybuf_head) ≡ false = ground (arith, far, h.fits, h.tail) in
    (
      ap not apart,
      if_false _ _ apart ∙ ap (λ (c : ℕ). (some c, popped k)) (h.ring.0),
      record { ring = h.ring.1; tail = omega arith; fits = omega (arith, h.fits) },
    )

-- How `keyboard_chr_read` answers with the characters `xs` in the ring.
abbrev pub Reads : ℕ → List ℕ → ChrRead → Type 0
Reads count xs (chr_read cs k) =
    (count ≤ length xs) × (cs ≡ take count xs) × HoldsKeys (drop count xs) k
Reads count xs (chr_waits cs k) = (length xs < count) × (cs ≡ xs) × HoldsKeys [] k

Reads-with_key :
    (count x : ℕ) (xs : List ℕ) (r : ChrRead)
    → Reads count xs r
    → Reads (suc count) (x ∷ xs) (with_key x r)
Reads-with_key count x xs (chr_read cs k) h =
    (omega (arith, h.0), ap (λ (ys : List ℕ). x ∷ ys) (h.1), h.2)
Reads-with_key count x xs (chr_waits cs k) h =
    (omega (arith, h.0), ap (λ (ys : List ℕ). x ∷ ys) (h.1), h.2)

-- When the ring holds the characters `xs`, `keyboard_chr_read` gives as many of them as are asked
-- for, the first first, and leaves the others; or, when there are fewer, it waits with all of them
-- and an empty ring.
pub keyboard_chr_read-Reads :
    (count : ℕ) (xs : List ℕ) (k : Keyboard)
    → HoldsKeys xs k
    → Reads count xs (keyboard_chr_read count k)
unfolding keyboard_chr_read
keyboard_chr_read-Reads zero xs k h = (omega arith, refl, h)
keyboard_chr_read-Reads (suc count) [] k h =
    let (quiet, none_there) = dequeue_none k h in rw (quiet) (omega arith, refl, h)
keyboard_chr_read-Reads (suc count) (x ∷ xs) k h =
    let (avail, got, rest) = dequeue_some x xs k h in
    rw (avail, got) (Reads-with_key count x xs _ (keyboard_chr_read-Reads count xs (popped k) rest))
