-- ===== src/Fat32/Names.antt =====
-- The names of directory entries of kernel/fs/fat32.c. A C string is the list of its characters, all
-- of them above 0; `room` is one less than the size of the buffer that a function fills.
use lumin.Prelude.{
  ℕ, zero, suc, ◌+◌, ◌*◌, ◌/◌, ◌%◌, ◌≤◌, ◌≡◌, ◌↔◌, refl, sym, ap, ◌∙◌, inl, inr, Bool, true, false,
  ◌&&◌, ◌||◌, List, [], ◌∷◌, ◌++◌, map, arith, leb, ◌==◌, if◌then◌else◌, length, take, drop, All,
  Bool-cases, if_true, if_false, ==→eq, ==-refl,
}

-- `fat_checksum`, from the sum so far.
unfoldable pub checksum_loop : ℕ → List ℕ → ℕ
checksum_loop sum [] = sum
checksum_loop sum (c ∷ cs) = checksum_loop ((sum / 2 + sum * 128 + c) % 256) cs

unfoldable pub fat_checksum : List ℕ → ℕ
fat_checksum shortname = checksum_loop 0 (take 11 shortname)

unfoldable pub lfn_to_ascii : List ℕ → ℕ → List ℕ
lfn_to_ascii [] room = []
lfn_to_ascii (c ∷ cs) zero = []
lfn_to_ascii (c ∷ cs) (suc room) =
    let rest = lfn_to_ascii cs room in
    if c == 0xFFFF || c == 0xFFFE
    then []
    else (if leb 0x20 c && leb c 0x7E then c ∷ rest else (if c == 0 then [] else 63 ∷ rest))

-- The first argument is the length of the output.
pub ascii_to_utf16 : ℕ → List ℕ → List ℕ
ascii_to_utf16 zero text = []
ascii_to_utf16 (suc out_len) [] = 0xFFFF ∷ ascii_to_utf16 out_len []
ascii_to_utf16 (suc out_len) (c ∷ cs) = c % 256 ∷ ascii_to_utf16 out_len cs

-- A capital letter becomes a small one.
unfoldable pub lower_case : ℕ → ℕ
lower_case c = if leb 65 c && leb c 90 then c + 0x20 else c

-- The characters of a padded field, up to a space or a NUL.
unfoldable pub field_chars : List ℕ → List ℕ
field_chars [] = []
field_chars (c ∷ cs) =
    let rest = field_chars cs in if c == 0 || c == 32 then [] else lower_case c ∷ rest

abbrev pub has_ext : List ℕ → Bool
has_ext [] = false
has_ext (c ∷ cs) = true

-- `name.ext` out of the eleven characters of an entry.
unfoldable pub parse_short_name : List ℕ → ℕ → List ℕ
parse_short_name name11 room =
    let base = field_chars (take 8 name11) in
    let ext = field_chars (take 3 (drop 8 name11)) in
    take room (if has_ext ext then base ++ 46 ∷ ext else base)

-- `true` is the result 0.
unfoldable pub strcmp_ci : List ℕ → List ℕ → Bool
strcmp_ci [] [] = true
strcmp_ci [] (b ∷ bs) = false
strcmp_ci (a ∷ rest) [] = false
strcmp_ci (a ∷ rest) (b ∷ bs) =
    let more = strcmp_ci rest bs in if lower_case a == lower_case b then more else false

-- A character that a long name keeps.
abbrev pub IsPrintable : ℕ → Type 0
IsPrintable c = (32 ≤ c) × (c ≤ 126)

padding_lem : (out_len room : ℕ) → lfn_to_ascii (ascii_to_utf16 out_len []) room ≡ []
unfolding lfn_to_ascii ascii_to_utf16
padding_lem zero room = refl
padding_lem (suc out_len) zero = refl
padding_lem (suc out_len) (suc room) = refl

-- A text of characters from 32 to 126 that fits into the output and into the buffer it is read into
-- comes back from `lfn_to_ascii` as `ascii_to_utf16` was given it, whatever room is left behind it.
pub lfn_to_ascii-ascii_to_utf16 :
    (text : List ℕ) (out_len room : ℕ)
    → All IsPrintable text
    → length text ≤ out_len
    → length text ≤ room
    → lfn_to_ascii (ascii_to_utf16 out_len text) room ≡ text
unfolding lfn_to_ascii ascii_to_utf16
lfn_to_ascii-ascii_to_utf16 [] out_len room printable fits enough = padding_lem out_len room
lfn_to_ascii-ascii_to_utf16 (c ∷ cs) zero room printable fits enough = absurd (omega (arith, fits))
lfn_to_ascii-ascii_to_utf16 (c ∷ cs) (suc out_len) zero printable fits enough =
    absurd (omega (arith, enough))
lfn_to_ascii-ascii_to_utf16 (c ∷ cs) (suc out_len) (suc room) ((low, high), others) fits enough =
    let n = c % 256 in
    let ordinary : (n == 0xFFFF || n == 0xFFFE) ≡ false = ground (arith, low, high) in
    let kept : (leb 0x20 n && leb n 0x7E) ≡ true = ground (arith, low, high) in
    let same : n ≡ c = omega (arith, high) in
    if_false _ _ ordinary
    ∙ if_true _ _ kept
    ∙ ap (λ (x : ℕ). x ∷ lfn_to_ascii (ascii_to_utf16 out_len cs) room) same
    ∙ ap (λ (xs : List ℕ). c ∷ xs)
        (lfn_to_ascii-ascii_to_utf16 cs out_len room others (omega (arith, fits))
          (omega (arith, enough)))

abbrev first_of : List ℕ → ℕ
first_of [] = 0
first_of (x ∷ xs) = x

abbrev rest_of : List ℕ → List ℕ
rest_of [] = []
rest_of (x ∷ xs) = xs

strcmp_ci_same : (a b : List ℕ) → map lower_case a ≡ map lower_case b → strcmp_ci a b ≡ true
unfolding strcmp_ci
strcmp_ci_same [] [] h = refl
strcmp_ci_same [] (y ∷ ys) h = ground (arith, h)
strcmp_ci_same (x ∷ xs) [] h = ground (arith, h)
strcmp_ci_same (x ∷ xs) (y ∷ ys) h =
    let same : lower_case x ≡ lower_case y = ap first_of h in
    let others : map lower_case xs ≡ map lower_case ys = ap rest_of h in
    let equal : (lower_case x == lower_case y) ≡ true =
      ap (λ (n : ℕ). n == lower_case y) same ∙ ==-refl (lower_case y) in
    if_true _ _ equal ∙ strcmp_ci_same xs ys others

strcmp_ci-true : (a b : List ℕ) → strcmp_ci a b ≡ true → map lower_case a ≡ map lower_case b
unfolding strcmp_ci
strcmp_ci-true [] [] h = refl
strcmp_ci-true [] (y ∷ ys) h = ground (arith, h)
strcmp_ci-true (x ∷ xs) [] h = ground (arith, h)
strcmp_ci-true (x ∷ xs) (y ∷ ys) h = elim (Bool-cases (lower_case x == lower_case y)) [
  | inl same ↦
      let others : strcmp_ci xs ys ≡ true = sym (if_true _ _ same) ∙ h in
      ap (λ (n : ℕ). n ∷ map lower_case xs) (==→eq _ _ same)
      ∙ ap (λ (l : List ℕ). lower_case y ∷ l) (strcmp_ci-true xs ys others)
  | inr other ↦ let never : false ≡ true = sym (if_false _ _ other) ∙ h in ground (arith, never)
]

-- `strcmp_ci` gives 0 exactly for two names that are equal once their capital letters are made
-- small.
strcmp_ci-lower_case :
    (a b : List ℕ) → (strcmp_ci a b ≡ true) ↔ (map lower_case a ≡ map lower_case b)
strcmp_ci-lower_case a b = (strcmp_ci-true a b, strcmp_ci_same a b)
