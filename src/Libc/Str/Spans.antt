-- ===== src/Libc/Str/Spans.antt =====
-- `strspn`, `strcspn` and `strstr`.
use lumin.Prelude.{
  ℕ, zero, suc, ◌+◌, ◌<◌, ◌≡◌, refl, ◌∙◌, ap, inl, inr, ◌&&◌, Bool, some, List, [], ◌∷◌, arith,
  ne→==, length, ◌==◌, true, false, if◌then◌else◌, Bool-cases, has,
}
use lumin.Libc.Mem.{Memory}
use lumin.Libc.Str.{in_set, span_loop, agrees, strspn, strcspn, match_at, strstr, strstr_loop}
use lumin.Libc.Str.Strings.{IsStr}

in_set-has :
    (fuel set c : ℕ) (m : Memory) (cs : List ℕ)
    → IsStr m set cs
    → length cs < fuel
    → in_set fuel set c m ≡ some (has c cs)
unfolding in_set
in_set-has zero set c m cs h f = absurd (omega arith)
in_set-has (suc fuel) set c m [] h f = rw h refl
in_set-has (suc fuel) set c m (x ∷ cs) (b, ne, h) f =
    rw (b, ne→== x 0 ne)
      (elim (Bool-cases (c == x)) [
        | inl hit ↦ rw hit refl
        | inr miss ↦ rw miss (in_set-has fuel (set + 1) c m cs h (omega arith))
      ])

-- How many bytes at the front are in the set `cs`, or, for `want` false, are not.
abbrev pub span : Bool → List ℕ → List ℕ → ℕ
span want cs [] = 0
span want cs (x ∷ xs) = if agrees (has x cs) want then suc (span want cs xs) else 0

span_loop-span :
    (fuel : ℕ) (want : Bool) (s n set : ℕ) (m : Memory) (xs cs : List ℕ)
    → IsStr m (s + n) xs
    → IsStr m set cs
    → length xs + length cs < fuel
    → span_loop fuel want s n set m ≡ some (n + span want cs xs)
unfolding span_loop
span_loop-span zero want s n set m xs cs h k f = absurd (omega arith)
span_loop-span (suc fuel) want s n set m [] cs h k f =
    let e : n ≡ n + 0 = omega arith in rw h (ap some e)
span_loop-span (suc fuel) want s n set m (x ∷ xs) cs (b, ne, h) k f =
    let e : n ≡ n + 0 = omega arith in
    let at : s + n + 1 ≡ s + (n + 1) = omega arith in
    let sum : n + 1 + span want cs xs ≡ n + suc (span want cs xs) = omega arith in
    rw (b, ne→== x 0 ne, in_set-has (suc fuel) set x m cs k (omega arith))
      (elim (Bool-cases (agrees (has x cs) want)) [
        | inl on ↦ rw on (
            span_loop-span fuel want s (n + 1) set m xs cs (rw at at h) k (omega arith)
            ∙ ap some sum)
        | inr off ↦ rw off (ap some e)
      ])

-- On two strings, with fuel for both, `strspn` ends with the length of the longest beginning of `xs`
-- all of whose bytes are in `cs`, and `strcspn` with that of the longest with no byte in `cs`.
pub strspn-strcspn-span :
    (fuel s set : ℕ) (m : Memory) (xs cs : List ℕ)
    → IsStr m s xs
    → IsStr m set cs
    → length xs + length cs < fuel
    → (strspn fuel s set m ≡ some (span true cs xs))
      × (strcspn fuel s set m ≡ some (span false cs xs))
unfolding strspn strcspn
strspn-strcspn-span fuel s set m xs cs h k f =
    let at : s ≡ s + 0 = omega arith in
    let sum : (n : ℕ) → 0 + n ≡ n = λ n. omega arith in
    (
      span_loop-span fuel true s 0 set m xs cs (rw at at h) k f ∙ ap some (sum _),
      span_loop-span fuel false s 0 set m xs cs (rw at at h) k f ∙ ap some (sum _),
    )

-- The list begins with the needle.
abbrev pub starts_with : List ℕ → List ℕ → Bool
starts_with xs [] = true
starts_with [] (y ∷ ys) = false
starts_with (x ∷ xs) (y ∷ ys) = (x == y) && starts_with xs ys

match_at-starts_with :
    (fuel h n : ℕ) (m : Memory) (xs ys : List ℕ)
    → IsStr m h xs
    → IsStr m n ys
    → length ys < fuel
    → match_at fuel h n m ≡ some (starts_with xs ys)
unfolding match_at
match_at-starts_with zero h n m xs ys p q f = absurd (omega arith)
match_at-starts_with (suc fuel) h n m [] [] p q f = rw (p, q) refl
match_at-starts_with (suc fuel) h n m [] (y ∷ ys) p (b, ne, q) f = rw (p, b, ne→== y 0 ne) refl
match_at-starts_with (suc fuel) h n m (x ∷ xs) [] (b, ne, p) q f = rw (b, q, ne→== x 0 ne) refl
match_at-starts_with (suc fuel) h n m (x ∷ xs) (y ∷ ys) (b, ne, p) (b', ne', q) f =
    rw (b, b', ne→== x 0 ne, ne→== y 0 ne')
      (elim (Bool-cases (x == y)) [
        | inl same ↦ rw same (match_at-starts_with fuel (h + 1) (n + 1) m xs ys p q (omega arith))
        | inr differ ↦ rw differ refl
      ])

-- The address of the first place where the needle stands, 0 for none, of a list that lies at `h`.
abbrev pub find_at : ℕ → List ℕ → List ℕ → ℕ
find_at h [] ys = 0
find_at h (x ∷ xs) ys = if starts_with (x ∷ xs) ys then h else find_at (h + 1) xs ys

strstr_loop-find_at :
    (fuel h n : ℕ) (m : Memory) (xs ys : List ℕ)
    → IsStr m h xs
    → IsStr m n ys
    → length xs + length ys < fuel
    → strstr_loop fuel h n m ≡ some (find_at h xs ys)
unfolding strstr_loop
strstr_loop-find_at zero h n m xs ys p q f = absurd (omega arith)
strstr_loop-find_at (suc fuel) h n m [] ys p q f = rw p refl
strstr_loop-find_at (suc fuel) h n m (x ∷ xs) ys (b, ne, p) q f =
    rw
      (
        match_at-starts_with (suc fuel) h n m (x ∷ xs) ys (b, ne, p) q (omega arith),
        b,
        ne→== x 0 ne,
      )
      (elim (Bool-cases (starts_with (x ∷ xs) ys)) [
        | inl hit ↦ rw hit refl
        | inr miss ↦ rw miss (strstr_loop-find_at fuel (h + 1) n m xs ys p q (omega arith))
      ])

-- On two strings, with fuel for both, `strstr` ends with the address of the first place where the
-- needle stands in the haystack, with NULL if there is none, and with the haystack for an empty needle.
pub strstr-find_at :
    (fuel h n : ℕ) (m : Memory) (xs ys : List ℕ)
    → IsStr m h xs
    → IsStr m n ys
    → length xs + length ys < fuel
    → strstr fuel h n m ≡ some (if length ys == 0 then h else find_at h xs ys)
unfolding strstr
strstr-find_at fuel h n m xs [] p q f = rw q refl
strstr-find_at fuel h n m xs (y ∷ ys) p (b, ne, q) f =
    let some_needle : (suc (length ys) == 0) ≡ false = ground arith in
    rw (b, ne→== y 0 ne, some_needle) (strstr_loop-find_at fuel h n m xs (y ∷ ys) p (b, ne, q) f)
