-- ===== src/Fat32/Files/Spans.antt =====
-- Runs of bytes: what a copy loop writes.
use lumin.Prelude.{ℕ, zero, suc, ◌+◌, ◌<◌, ◌≡◌, refl, ap, ◌∙◌, arith, List, ◌∷◌, ◌++◌}
use lumin.Fat32.Files.{span}

-- Runs that agree in each place are equal.
pub span_agrees :
    (f g : ℕ → ℕ) (a b n : ℕ) → ((i : ℕ) → i < n → f (a + i) ≡ g (b + i)) → span f a n ≡ span g b n
span_agrees f g a b zero h = refl
span_agrees f g a b (suc n) h =
    let head : f a ≡ g b = ap f (omega arith) ∙ h 0 (omega arith) ∙ ap g (omega arith) in
    let tail =
      span_agrees f g (a + 1) (b + 1) n
        λ i lt. ap f (omega arith) ∙ h (i + 1) (omega (arith, lt)) ∙ ap g (omega arith) in
    ap (λ (x : ℕ). x ∷ span f (a + 1) n) head ∙ ap (λ (xs : List ℕ). g b ∷ xs) tail

pub span_split : (f : ℕ → ℕ) (a k m n : ℕ) → k ≡ m + n → span f a k ≡ span f a m ++ span f (a + m) n
span_split f a k zero n h =
    ap (span f a) (omega (arith, h)) ∙ ap (λ (x : ℕ). span f x n) (omega arith)
span_split f a k (suc m) n h =
    let tail : span f (a + 1) (m + n) ≡ span f (a + 1) m ++ span f (a + suc m) n =
      span_split f (a + 1) (m + n) m n refl
      ∙ ap (λ (x : ℕ). span f (a + 1) m ++ span f x n) (omega arith) in
    let whole : k ≡ suc (m + n) = omega (arith, h) in
    ap (span f a) whole ∙ ap (λ (xs : List ℕ). f a ∷ xs) tail
