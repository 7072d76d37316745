-- ===== src/Keyboard/Keys.antt =====
-- The keys of a US keyboard by their scan codes, as an independent description of what
-- `keyboard_handler` of os/keyboard.c puts into its ring.
use lumin.Prelude.{
  ℕ, zero, suc, ◌+◌, ◌-◌, ◌<◌, ◌≡◌, refl, ap, ◌∙◌, inl, inr, Bool, true, false, not, ◌&&◌, ◌||◌,
  Bool-cases, List, [], ◌∷◌, arith, get_or, leb, ltb, ◌==◌, if◌then◌else◌, if_cases, ==→eq, ◌%◌,
}
use lumin.Keyboard.{
  keybuf_size, press, put_key, Keyboard, char_of, is_upper, special_key, keyboard_handler,
}

-- `f` where the keys of a row begin at the scan code `first`, 0 outside it.
abbrev row : ℕ → List ℕ → ℕ → ℕ
row first keys scancode = if ltb scancode first then 0 else get_or keys (scancode - first) 0

-- The rows q to p, a to l and z to m.
abbrev pub letter : ℕ → ℕ
letter scancode =
    row 16 (113 ∷ 119 ∷ 101 ∷ 114 ∷ 116 ∷ 121 ∷ 117 ∷ 105 ∷ 111 ∷ 112 ∷ []) scancode
    + row 30 (97 ∷ 115 ∷ 100 ∷ 102 ∷ 103 ∷ 104 ∷ 106 ∷ 107 ∷ 108 ∷ []) scancode
    + row 44 (122 ∷ 120 ∷ 99 ∷ 118 ∷ 98 ∷ 110 ∷ 109 ∷ []) scancode

-- The keys 1 to =, the brackets, ; to `, the backslash, and , to /.
abbrev pub sign : ℕ → ℕ
sign scancode =
    row 2 (49 ∷ 50 ∷ 51 ∷ 52 ∷ 53 ∷ 54 ∷ 55 ∷ 56 ∷ 57 ∷ 48 ∷ 45 ∷ 61 ∷ []) scancode
    + row 26 (91 ∷ 93 ∷ []) scancode
    + row 39 (59 ∷ 39 ∷ 96 ∷ []) scancode
    + row 43 (92 ∷ []) scancode
    + row 51 (44 ∷ 46 ∷ 47 ∷ []) scancode

-- The same keys with shift: ! to +, the braces, : to ~, the bar, and < to ?.
abbrev pub shifted_sign : ℕ → ℕ
shifted_sign scancode =
    row 2 (33 ∷ 64 ∷ 35 ∷ 36 ∷ 37 ∷ 94 ∷ 38 ∷ 42 ∷ 40 ∷ 41 ∷ 95 ∷ 43 ∷ []) scancode
    + row 26 (123 ∷ 125 ∷ []) scancode
    + row 39 (58 ∷ 34 ∷ 126 ∷ []) scancode
    + row 43 (124 ∷ []) scancode
    + row 51 (60 ∷ 62 ∷ 63 ∷ []) scancode

-- The return key, the star of the number pad and the space bar, which give nothing with shift.
abbrev pub unshifted : ℕ → ℕ
unshifted scancode =
    row 28 (10 ∷ []) scancode + row 55 (42 ∷ []) scancode + row 57 (32 ∷ []) scancode

abbrev pub differ : Bool → Bool → Bool
differ true b = not b
differ false b = b

-- Without a prefix. Control makes 1 to 26 of the letters; without it shift makes capitals, and caps lock
-- turns that round. Shift alone counts for the other keys. Backspace is always 8.
abbrev pub typed : Bool → Bool → Bool → ℕ → ℕ
typed caps shift ctrl scancode =
    if scancode == 14
    then 8
    else if ltb 0 (letter scancode)
    then (if ctrl
        then letter scancode - 96
        else (if differ caps shift then letter scancode - 32 else letter scancode))
    else (if shift then shifted_sign scancode else sign scancode + unshifted scancode)

-- Behind the prefix 0xE0: up, down, left, right, home, end and delete are 0x80 to 0x86.
abbrev pub arrow : ℕ → ℕ
arrow scancode =
    row 71 (0x84 ∷ 0x80 ∷ []) scancode
    + row 75 (0x82 ∷ []) scancode
    + row 77 (0x83 ∷ []) scancode
    + row 79 (0x85 ∷ 0x81 ∷ []) scancode
    + row 83 (0x86 ∷ []) scancode

-- `p` holds of all numbers below `n`.
abbrev all_below : ℕ → (ℕ → Bool) → Bool
all_below zero p = true
all_below (suc n) p = p n && all_below n p

all_below-lem : (n i : ℕ) (p : ℕ → Bool) → all_below n p ≡ true → i < n → p i ≡ true
all_below-lem zero i p h l = absurd (omega arith)
all_below-lem (suc n) i p h l = elim (Bool-cases (i == n)) [
  | inl last ↦ let same : i ≡ n = ground arith in ap p same ∙ (ground (arith, h))
  | inr before ↦ all_below-lem n i p (ground (arith, h)) (ground arith)
]

abbrev flags : Bool → Bool → Bool → Keyboard
flags caps shift ctrl = record {
  shift_pressed = shift;
  ctrl_pressed = ctrl;
  caps_locked = caps;
  extended = false;
  keybuf = λ i. 0;
  keybuf_head = 0;
  keybuf_tail = 0;
}

abbrev agrees : Bool → Bool → Bool → ℕ → Bool
agrees caps shift ctrl scancode =
    char_of scancode (flags caps shift ctrl) == typed caps shift ctrl scancode

all_agree : (caps shift ctrl : Bool) → all_below 128 (agrees caps shift ctrl) ≡ true
unfolding char_of is_upper
all_agree true true true = refl
all_agree true true false = refl
all_agree true false true = refl
all_agree true false false = refl
all_agree false true true = refl
all_agree false true false = refl
all_agree false false true = refl
all_agree false false false = refl

pub char_of-typed :
    (scancode : ℕ) (k : Keyboard)
    → scancode < 128
    → char_of scancode k ≡ typed k.caps_locked k.shift_pressed k.ctrl_pressed scancode
unfolding char_of is_upper
char_of-typed scancode k lt =
    let same =
      all_below-lem 128 scancode (agrees k.caps_locked k.shift_pressed k.ctrl_pressed)
        (all_agree k.caps_locked k.shift_pressed k.ctrl_pressed) lt in
    ==→eq (char_of scancode k) (typed k.caps_locked k.shift_pressed k.ctrl_pressed scancode) same

all_arrows : all_below 128 (λ c. special_key c == arrow c) ≡ true
unfolding special_key
all_arrows = refl

pub special_key-arrow : (scancode : ℕ) → scancode < 128 → special_key scancode ≡ arrow scancode
special_key-arrow scancode lt =
    ==→eq (special_key scancode) (arrow scancode)
      (all_below-lem 128 scancode (λ c. special_key c == arrow c) all_arrows lt)

-- Shift, control and caps lock, pressed or released.
abbrev pub is_modifier : ℕ → Bool
is_modifier c =
    c == 0x2A || c == 0x36 || c == 0xAA || c == 0xB6 || c == 0x1D || c == 0x9D || c == 0x3A

-- What a scan code does to the flags. It ends a prefix, but for the codes of the modifiers.
abbrev pub Flags : ℕ → Keyboard → Keyboard → Type 0
Flags c k l =
    (l.shift_pressed
      ≡ (c == 0x2A || c == 0x36 || (k.shift_pressed && not (c == 0xAA || c == 0xB6))))
    × (l.ctrl_pressed ≡ (c == 0x1D || (k.ctrl_pressed && not (c == 0x9D))))
    × (l.caps_locked ≡ (if c == 0x3A then not k.caps_locked else k.caps_locked))
    × (l.extended ≡ (c == 0xE0 || (k.extended && is_modifier c)))

Flags-press : (c x : ℕ) (k l : Keyboard) → Flags c k l → Flags c k (press x l)
unfolding put_key
Flags-press c x k l h =
    if_cases (Flags c k) (x == 0) (λ e. h)
      (λ e.
        if_cases (Flags c k) ((l.keybuf_head + 1) % keybuf_size == l.keybuf_tail) (λ full. h)
          (λ room. h))

pub keyboard_handler-Flags : (c : ℕ) (k : Keyboard) → Flags c k (keyboard_handler c k)
unfolding keyboard_handler
keyboard_handler-Flags c k =
    let P = Flags c k in
    if_cases P (c == 0x2A || c == 0x36) (λ e. ground arith)
      λ n1.
        if_cases P (c == 0xAA || c == 0xB6) (λ e. ground arith)
          λ n2.
            if_cases P (c == 0x1D) (λ e. ground arith)
              λ n3.
                if_cases P (c == 0x9D) (λ e. ground arith)
                  λ n4.
                    if_cases P (c == 0x3A) (λ e. ground arith)
                      λ n5.
                        if_cases P (c == 0xE0) (λ e. ground arith)
                          λ n6.
                            let still : Flags c k (record k { extended = false }) = ground arith in
                            if_cases P k.extended
                              (λ prefixed.
                                if_cases P (leb 0x80 c) (λ up. still)
                                  (λ down. Flags-press c _ k _ still))
                              (λ alone.
                                let plain : Flags c k k = ground arith in
                                if_cases P (leb 0x80 c) (λ up. plain)
                                  (λ down. Flags-press c _ k _ plain))
