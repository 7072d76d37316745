-- ===== src/Fat32/Chains.antt =====
-- The chain of a file's clusters: `fat_free_chain`, `fat_chain_last` and `fat_extend_chain` of
-- kernel/fs/fat32.c.
use lumin.Prelude.{
  ℕ, zero, suc, ◌<◌, ◌≤◌, ◌≡◌, refl, sym, ap, ◌∙◌, ◌≢◌, inl, inr, true, false, some, arith, ◌==◌,
  if◌then◌else◌, Bool-cases, ==→eq, List, [], ◌∷◌, length, has,
}
use lumin.Fat32.{Disk, Fs, fat_mod, fat32_eoc, is_link, fat_next_cluster, fat_free_chain}
use lumin.Fat32.Links.{Works, IsFs, fat_set_cluster_lem, Sets-other}

-- `xs` are the clusters that the links `next` give from `c` to the end of a chain.
abbrev pub Chain : (ℕ → ℕ) → ℕ → List ℕ → Type 0
Chain next c [] = fat32_eoc ≤ c
Chain next c (x ∷ xs) = (c ≡ x) × (is_link c ≡ true) × Chain next (next c) xs

-- Every cluster of a chain is a link.
pub Chain-links :
    (next : ℕ → ℕ) (c a : ℕ) (xs : List ℕ) → Chain next c xs → has a xs ≡ true → is_link a ≡ true
Chain-links next c a [] chain h = ground (arith, h)
Chain-links next c a (x ∷ xs) (same, link, rest) h = elim (Bool-cases (a == x)) [
  | inl here ↦ let back : a ≡ c = ==→eq _ _ here ∙ sym same in rw (back) link
  | inr there ↦ Chain-links next (next c) a xs rest (ground (arith, h, there))
]

-- Two chains along the same links are as long.
Chain-unique :
    (next : ℕ → ℕ) (c : ℕ) (xs ys : List ℕ)
    → Chain next c xs
    → Chain next c ys
    → length xs ≡ length ys
Chain-unique next c [] [] h k = refl
Chain-unique next c [] (y ∷ ys) h k = ground (arith, h, k)
Chain-unique next c (x ∷ xs) [] h k = ground (arith, h, k)
Chain-unique next c (x ∷ xs) (y ∷ ys) h k = ap suc (Chain-unique next (next c) xs ys (h.2) (k.2))

-- A cluster of a chain begins a chain that is no longer.
Chain-from :
    (next : ℕ → ℕ) (c a : ℕ) (xs : List ℕ)
    → Chain next c xs
    → has a xs ≡ true
    → (ys : List ℕ) × Chain next a ys × (length ys ≤ length xs)
Chain-from next c a [] chain h = ground (arith, h)
Chain-from next c a (x ∷ xs) (same, link, rest) h = elim (Bool-cases (a == x)) [
  | inl here ↦
      let back : a ≡ c = ==→eq _ _ here ∙ sym same in
      (x ∷ xs, rw (back) (same, link, rest), omega arith)
  | inr there ↦
      let (ys, chain, le) = Chain-from next (next c) a xs rest (ground (arith, h, there)) in
      (ys, chain, omega (arith, le))
]

-- No cluster comes twice.
pub Chain-apart :
    (next : ℕ → ℕ) (c : ℕ) (xs : List ℕ)
    → is_link c ≡ true
    → Chain next (next c) xs
    → has c xs ≡ false
Chain-apart next c xs link rest = elim (Bool-cases (has c xs)) [
  | inl again ↦
      let (ys, chain, le) = Chain-from next (next c) c xs rest again in
      let same = Chain-unique next c (c ∷ xs) ys (refl, link, rest) chain in
      absurd (omega (arith, same, le))
  | inr once ↦ once
]

pub has_apart : (a b : ℕ) (xs : List ℕ) → has a xs ≡ true → has b xs ≡ false → a ≢ b
has_apart a b xs h k same = ground (arith, h, sym (ap (λ (n : ℕ). has n xs) same ∙ k))

-- Links that differ in a cluster outside the chain give the same chain.
pub Chain-agrees :
    (f g : ℕ → ℕ) (c : ℕ) (xs : List ℕ)
    → ((e : ℕ) → has e xs ≡ true → g e ≡ f e)
    → Chain f c xs
    → Chain g c xs
Chain-agrees f g c [] h chain = chain
Chain-agrees f g c (x ∷ xs) h (same, link, rest) =
    let here : g c ≡ f c = h c (ground (arith, same)) in
    (
      same,
      link,
      rw (here) (Chain-agrees f g (f c) xs (λ e in_rest. h e (ground (arith, in_rest))) rest),
    )

module _ (disk : Disk) (w : Works disk) {fs : Fs} (m : IsFs fs) where
  open disk use {State, read, write}

  -- `xs` are the clusters of the chain that begins at `c`.
  abbrev pub Holds : State → ℕ → List ℕ → Type 0
  Holds d c xs = Chain (λ e. fat_next_cluster disk fs e d) c xs

  abbrev pub Frees : List ℕ → State → State → Type 0
  Frees xs d d' =
      (e : ℕ)
      → e < fat_mod
      → fat_next_cluster disk fs e d' ≡ (if has e xs then 0 else fat_next_cluster disk fs e d)

  pub link_small : (c : ℕ) → is_link c ≡ true → c < fat_mod
  link_small c h = ground (arith, h)

  freed_step :
      (c x e : ℕ) (xs : List ℕ) (old new : ℕ)
      → c ≡ x
      → new ≡ (if e == c then 0 else old)
      → (if has e xs then 0 else new) ≡ (if has e (x ∷ xs) then 0 else old)
  freed_step c x e xs old new same h = ground (arith, same, h)

  -- On a volume within the bounds of `IsFs` whose disk works, with the clusters `xs` on the chain
  -- from `c` and more fuel than these, `fat_free_chain` ends: the entries of the chain's clusters
  -- are free, and no other entry has changed.
  pub fat_free_chain_lem :
      (xs : List ℕ) (fuel c : ℕ) (d : State)
      → Holds d c xs
      → length xs < fuel
      → (d' : State) × (fat_free_chain disk fuel fs c d ≡ some d') × Frees xs d d'
  unfolding fat_free_chain
  fat_free_chain_lem xs zero c d chain n = absurd (omega (arith, n))
  fat_free_chain_lem [] (suc fuel) c d chain n =
      let stop : is_link c ≡ false = ground (arith, chain) in (d, rw (stop) refl, λ e he. refl)
  fat_free_chain_lem (x ∷ xs) (suc fuel) c d (same, link, rest) n =
      let (d1, done, sets) = fat_set_cluster_lem disk w m c 0 d (link_small c link) in
      let next : ℕ → ℕ = λ e. fat_next_cluster disk fs e d in
      let apart = Chain-apart next c xs link rest in
      let chain =
        Chain-agrees next (λ e. fat_next_cluster disk fs e d1) (next c) xs
          (λ e h.
            Sets-other disk w m c 0 e d d1 sets (link_small e (Chain-links next _ e xs rest h))
              (has_apart e c xs h apart))
          rest in
      let (d', frees, entries) = fat_free_chain_lem xs fuel (next c) d1 chain (omega (arith, n)) in
      (
        d',
        rw (link, done) frees,
        λ e he. entries e he ∙ freed_step c x e xs (next e) _ same (sets e he),
      )
