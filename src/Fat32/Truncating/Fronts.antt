-- ===== src/Fat32/Truncating/Fronts.antt =====
-- The front of a chain of clusters and what comes behind it, for `fat32_truncate` of
-- kernel/fs/fat32.c.
use lumin.Prelude.{
  ℕ, zero, suc, ◌≤◌, ◌≡◌, ◌≢◌, sym, ap, ◌∙◌, inl, inr, true, false, arith, List, [], ◌∷◌, ◌==◌,
  Bool-cases, has, length, take, drop, ==→eq,
}
use lumin.Fat32.{fat32_eoc}
use lumin.Fat32.Chains.{Chain, Chain-apart, has_apart}

-- The cluster `n` of `xs`, from 1 on, with `p` for the one before the first.
abbrev pub last_kept : ℕ → ℕ → List ℕ → ℕ
last_kept p zero xs = p
last_kept p (suc n) [] = p
last_kept p (suc n) (x ∷ xs) = last_kept x n xs

pub has-last_kept : (x n : ℕ) (xs : List ℕ) → has (last_kept x n xs) (take (suc n) (x ∷ xs)) ≡ true
has-last_kept x zero xs = ground arith
has-last_kept x (suc n) [] = ground arith
has-last_kept x (suc n) (y ∷ ys) = ground (arith, has-last_kept y n ys)

pub has-take : (e n : ℕ) (xs : List ℕ) → has e (take n xs) ≡ true → has e xs ≡ true
has-take e zero xs h = ground (arith, h)
has-take e (suc n) [] h = h
has-take e (suc n) (x ∷ xs) h = elim (Bool-cases (e == x)) [
  | inl here ↦ ground (arith, here)
  | inr there ↦ ground (arith, has-take e n xs (ground (arith, h, there)))
]

pub has-drop : (e n : ℕ) (xs : List ℕ) → has e xs ≡ false → has e (drop n xs) ≡ false
has-drop e zero xs h = h
has-drop e (suc n) [] h = h
has-drop e (suc n) (x ∷ xs) h = has-drop e n xs (ground (arith, h))

pub drop-has : (e n : ℕ) (xs : List ℕ) → has e (drop n xs) ≡ true → has e xs ≡ true
drop-has e n xs h = elim (Bool-cases (has e xs)) [
  | inl there ↦ there
  | inr nowhere ↦ ground (arith, h, has-drop e n xs nowhere)
]

pub drop_short : (n : ℕ) (xs : List ℕ) → length (drop n xs) ≤ length xs
drop_short zero xs = omega arith
drop_short (suc n) [] = omega arith
drop_short (suc n) (x ∷ xs) = omega (arith, drop_short n xs)

-- No cluster of the front of a chain comes again behind it.
pub Chain-split :
    (next : ℕ → ℕ) (c e n : ℕ) (xs : List ℕ)
    → Chain next c xs
    → has e (take n xs) ≡ true
    → has e (drop n xs) ≡ false
Chain-split next c e zero xs chain h = ground (arith, h)
Chain-split next c e (suc n) [] chain h = ground (arith, h)
Chain-split next c e (suc n) (x ∷ xs) (same, link, rest) h = elim (Bool-cases (e == x)) [
  | inl here ↦
      let is_c : c ≡ e = same ∙ sym (==→eq _ _ here) in
      has-drop e n xs (ap (λ (k : ℕ). has k xs) (sym is_c) ∙ Chain-apart next c xs link rest)
  | inr there ↦ Chain-split next (next c) e n xs rest (ground (arith, h, there))
]

-- The front of a chain, once its last cluster ends it.
pub Chain-cut :
    (f g : ℕ → ℕ) (c x n : ℕ) (xs : List ℕ)
    → Chain f c (x ∷ xs)
    → n ≤ length xs
    → ((e : ℕ) → has e (take (suc n) (x ∷ xs)) ≡ true → e ≢ last_kept x n xs → g e ≡ f e)
    → fat32_eoc ≤ g (last_kept x n xs)
    → Chain g c (take (suc n) (x ∷ xs))
Chain-cut f g c x zero xs (same, link, rest) le kept ends = (same, link, rw (same) ends)
Chain-cut f g c x (suc n) [] chain le kept ends = absurd (omega (arith, le))
Chain-cut f g c x (suc n) (y ∷ ys) (same, link, rest) le kept ends =
    let apart : x ≢ last_kept y n ys = λ e.
      has_apart _ c (y ∷ ys) (has-take _ (suc n) (y ∷ ys) (has-last_kept y n ys))
        (Chain-apart f c (y ∷ ys) link rest) (sym e ∙ sym same) in
    let here : g c ≡ f c = ap g same ∙ kept x (ground arith) apart ∙ ap f (sym same) in
    (
      same,
      link,
      rw (here) (
          Chain-cut f g (f c) y n ys rest (omega (arith, le)) (λ e h. kept e (ground (arith, h)))
            ends),
    )
