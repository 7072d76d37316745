-- ===== src/Libc/Str/Compare.antt =====
-- `strcmp` and the order of strings.
use lumin.Prelude.{
  ℕ, zero, suc, ◌+◌, ◌<◌, ◌≡◌, refl, sym, ◌∙◌, ap, ◌↔◌, inl, inr, some, List, [], ◌∷◌, arith, ne→==,
  ==→eq, ==-refl, length, ◌==◌, false, if◌then◌else◌, Bool-cases,
}
use lumin.Prelude.Int.{ℤ, pos, sub_ℕ}
use lumin.Libc.Mem.{Memory}
use lumin.Libc.Str.{strcmp}
use lumin.Libc.Str.Strings.{IsStr}

-- The difference of the first bytes that differ, where the end of a list counts as 0.
abbrev pub compare_bytes : List ℕ → List ℕ → ℤ
compare_bytes [] [] = pos 0
compare_bytes [] (y ∷ ys) = sub_ℕ 0 y
compare_bytes (x ∷ xs) [] = sub_ℕ x 0
compare_bytes (x ∷ xs) (y ∷ ys) = if x == y then compare_bytes xs ys else sub_ℕ x y

-- On two strings, of which the first has fewer bytes than there is fuel, `strcmp` ends with the
-- difference of the first bytes in which they differ, and with 0 if there are none.
pub strcmp-compare_bytes :
    (fuel a b : ℕ) (m : Memory) (xs ys : List ℕ)
    → IsStr m a xs
    → IsStr m b ys
    → length xs < fuel
    → strcmp fuel a b m ≡ some (compare_bytes xs ys)
unfolding strcmp
strcmp-compare_bytes zero a b m xs ys h k f = absurd (omega arith)
strcmp-compare_bytes (suc fuel) a b m [] [] h k f = rw (h, k) refl
strcmp-compare_bytes (suc fuel) a b m [] (y ∷ ys) h (e, ne, k) f = rw (h, e) refl
strcmp-compare_bytes (suc fuel) a b m (x ∷ xs) [] (e, ne, h) k f = rw (e, k, ne→== x 0 ne) refl
strcmp-compare_bytes (suc fuel) a b m (x ∷ xs) (y ∷ ys) (e, ne, h) (e', ne', k) f =
    rw (e, e', ne→== x 0 ne, ne→== y 0 ne')
      (elim (Bool-cases (x == y)) [
        | inl same ↦ rw same (strcmp-compare_bytes fuel (a + 1) (b + 1) m xs ys h k (omega arith))
        | inr differ ↦ rw differ refl
      ])

sub_zero : (a b : ℕ) → sub_ℕ a b ≡ pos 0 → a ≡ b
sub_zero a b h = ground arith

compare_bytes_refl : (xs : List ℕ) → compare_bytes xs xs ≡ pos 0
compare_bytes_refl [] = refl
compare_bytes_refl (x ∷ xs) = rw (==-refl x) (compare_bytes_refl xs)

compare_bytes-zero :
    (a b : ℕ) (m : Memory) (xs ys : List ℕ)
    → IsStr m a xs
    → IsStr m b ys
    → compare_bytes xs ys ≡ pos 0
    → xs ≡ ys
compare_bytes-zero a b m [] [] h k e = refl
compare_bytes-zero a b m [] (y ∷ ys) h (q, ne, k) e = absurd (ne (omega (arith, sub_zero 0 y e)))
compare_bytes-zero a b m (x ∷ xs) [] (q, ne, h) k e = absurd (ne (sub_zero x 0 e))
compare_bytes-zero a b m (x ∷ xs) (y ∷ ys) (q, ne, h) (q', ne', k) e = elim (Bool-cases (x == y)) [
  | inl same ↦
      let rest = compare_bytes-zero (a + 1) (b + 1) m xs ys h k (rw same at e) in
      let front : x ≡ y = ==→eq x y same in cc
  | inr differ ↦ let front = sub_zero x y (rw differ at e) in absurd (unequal front differ)
]
  where
    unequal : x ≡ y → (x == y) ≡ false → ⊥
    unequal e f = ground arith

-- On two strings `strcmp` ends with 0 exactly when they are the same.
pub strcmp-zero :
    (fuel a b : ℕ) (m : Memory) (xs ys : List ℕ)
    → IsStr m a xs
    → IsStr m b ys
    → length xs < fuel
    → (strcmp fuel a b m ≡ some (pos 0)) ↔ (xs ≡ ys)
strcmp-zero fuel a b m xs ys h k f =
    let run = strcmp-compare_bytes fuel a b m xs ys h k f in
    (
      λ e. compare_bytes-zero a b m xs ys h k (same_result (sym run ∙ e)),
      λ e. run ∙ ap some (rw (← e) (compare_bytes_refl xs)),
    )
  where
    same_result : {u v : ℤ} → some u ≡ some v → u ≡ v
    same_result e = cc
