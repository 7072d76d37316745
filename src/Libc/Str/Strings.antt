-- ===== src/Libc/Str/Strings.antt =====
-- What a string in memory is, and the length of one.
use lumin.Prelude.{
  ℕ, zero, suc, ◌+◌, ◌<◌, ◌≡◌, ◌∙◌, ap, ◌≢◌, some, List, [], ◌∷◌, arith, ne→==, length,
}
use lumin.Libc.Mem.{Memory}
use lumin.Libc.Str.{strlen, strlen_loop}

-- From `p` on the memory holds the bytes `xs`, none of them NUL, and then a NUL.
abbrev pub IsStr : Memory → ℕ → List ℕ → Type 0
IsStr m p [] = m p ≡ 0
IsStr m p (x ∷ xs) = (m p ≡ x) × (x ≢ 0) × IsStr m (p + 1) xs

strlen_loop-length :
    (fuel s n : ℕ) (m : Memory) (xs : List ℕ)
    → IsStr m (s + n) xs
    → length xs < fuel
    → strlen_loop fuel s n m ≡ some (n + length xs)
unfolding strlen_loop
strlen_loop-length zero s n m xs h f = absurd (omega arith)
strlen_loop-length (suc fuel) s n m [] h f = let e : n ≡ n + 0 = omega arith in rw h (ap some e)
strlen_loop-length (suc fuel) s n m (x ∷ xs) (e, ne, h) f =
    let at : s + n + 1 ≡ s + (n + 1) = omega arith in
    let sum : n + 1 + length xs ≡ n + suc (length xs) = omega arith in
    rw (e, ne→== x 0 ne)
      (strlen_loop-length fuel s (n + 1) m xs (rw at at h) (omega arith) ∙ ap some sum)

-- On a string of fewer bytes than it has fuel `strlen` ends with their number.
pub strlen-length :
    (fuel s : ℕ) (m : Memory) (xs : List ℕ)
    → IsStr m s xs
    → length xs < fuel
    → strlen fuel s m ≡ some (length xs)
unfolding strlen
strlen-length fuel s m xs h f =
    let at : s ≡ s + 0 = omega arith in
    let sum : 0 + length xs ≡ length xs = omega arith in
    strlen_loop-length fuel s 0 m xs (rw at at h) f ∙ ap some sum
