-- ===== src/Fat32/Writing/Longer.antt =====
-- The growth of a chain in `fat32_write_file` of kernel/fs/fat32.c.
use lumin.Prelude.{
  ℕ, zero, suc, ◌+◌, ◌<◌, ◌≡◌, ◌⊎◌, refl, sym, ap, ◌∙◌, inl, inr, true, false, ◌||◌, Option, some,
  arith, List, [], ◌∷◌, ◌++◌, leb, ◌==◌, if◌then◌else◌, if_true, if_false, has, All, length,
  length-append, has-append_false,
}
use mathlib.Core.Path.{subst}
use lumin.Fat32.{Disk, Fs, fat_mod, fat32_eoc, is_link, fat_next_cluster, fat_extend_chain}
use lumin.Fat32.Links.{Works}
use lumin.Fat32.Alloc.{Full}
use lumin.Fat32.Chains.{Holds}
use lumin.Fat32.Extend.{last_of, has-last_of, Extends, fat_extend_chain_lem}
use lumin.Fat32.Files.Reading.{IsCluster}
use lumin.Fat32.Writing.{Growth, full, has_grown, chain_extended, suc_of, chain_count, grow}
use lumin.Fat32.Writing.Clusters.{IsTabled}

append_one : (q : ℕ) (xs ys : List ℕ) → (xs ++ q ∷ []) ++ ys ≡ xs ++ q ∷ ys
append_one q [] ys = refl
append_one q (x ∷ xs) ys = ap (λ (l : List ℕ). x ∷ l) (append_one q xs ys)

module _ (disk : Disk) (w : Works disk) {fs : Fs} {total : ℕ} (v : IsTabled fs total) where
  open disk use {State}

  pub chain_count_lem :
      (fuel c : ℕ) (xs : List ℕ) (d : State)
      → Holds disk w v.system d c xs
      → length xs < fuel
      → chain_count disk fuel fs c d ≡ some (length xs)
  unfolding chain_count
  chain_count_lem zero c xs d chain n = absurd (omega (arith, n))
  chain_count_lem (suc fuel) c [] d chain n =
      let over : is_link c ≡ false = ground (arith, chain) in if_false _ _ over
  chain_count_lem (suc fuel) c (x ∷ xs) d (same, link, rest) n =
      if_true _ _ link ∙ ap suc_of (chain_count_lem fuel _ xs d rest (omega (arith, n)))

  -- The free clusters `ys` now follow the clusters `xs` of the chain from `c`.
  pub record Grows (c : ℕ) (xs ys : List ℕ) (d d' : State) : Type 0 where
    pub longer : Holds disk w v.system d' c (xs ++ ys)
    pub inside : All (IsCluster fs) ys
    pub others :
        (e : ℕ)
        → e < fat_mod
        → has e (xs ++ ys) ≡ false
        → fat_next_cluster disk fs e d' ≡ fat_next_cluster disk fs e d

  Grows-cons :
      (c x q : ℕ) (xs ys : List ℕ) (d d1 d2 : State)
      → Extends disk w v.system d c (last_of x xs) (x ∷ xs) q d1
      → Grows c (x ∷ xs ++ q ∷ []) ys d1 d2
      → Grows c (x ∷ xs) (q ∷ ys) d d2
  Grows-cons c x q xs ys d d1 d2 e g =
      let whole : (x ∷ xs ++ q ∷ []) ++ ys ≡ x ∷ xs ++ q ∷ ys = append_one q (x ∷ xs) ys in
      record {
        longer = subst (Holds disk w v.system d2 c) whole g.longer;
        inside = (e.inside, g.inside);
        others = λ y small out.
            let (out_xs, out_ys) = has-append_false y (x ∷ xs) (q ∷ ys) out in
            g.others y small (ap (has y) whole ∙ out)
            ∙ e.others y small (λ same. ground (arith, same, out_ys))
                (λ same.
                  ground (arith, out_xs, has-last_of x xs, ap (λ (k : ℕ). has k (x ∷ xs)) same));
      }

  -- How a growth by `left` clusters ends: with all of them, or with fewer and no free entry.
  abbrev pub Growing : ℕ → ℕ → List ℕ → State → Growth State → Type 0
  Growing left c xs d r =
      (ys : List ℕ) × (d' : State) × Grows c xs ys d d'
      × (((r ≡ has_grown c d') × (length ys ≡ left))
          ⊎ ((r ≡ full c d') × (length ys < left) × Full disk w v.system d' 0))

  grow_step :
      (left fuel c q : ℕ) (d d1 : State)
      → is_link c ≡ true
      → fat_extend_chain disk fuel fs c d ≡ some (q, d1)
      → grow disk fuel (suc left) fs c d
        ≡ (if leb fat32_eoc q then full c d1 else grow disk fuel left fs c d1)
  unfolding grow
  grow_step left fuel c q d d1 link did =
      let some_chain : (c == 0 || leb fat32_eoc c) ≡ false = ground (arith, link) in
      if_false _ _ some_chain
      ∙ ap (λ (o : Option (ℕ × State)). chain_extended disk c o (grow disk fuel left fs c)) did

  grow_more :
      (left fuel c x q : ℕ) (xs : List ℕ) (d d1 : State)
      → Extends disk w v.system d c (last_of x xs) (x ∷ xs) q d1
      → grow disk fuel (suc left) fs c d
        ≡ (if leb fat32_eoc q then full c d1 else grow disk fuel left fs c d1)
      → Growing left c (x ∷ xs ++ q ∷ []) d1 (grow disk fuel left fs c d1)
      → Growing (suc left) c (x ∷ xs) d (grow disk fuel (suc left) fs c d)
  grow_more left fuel c x q xs d d1 e step (ys, d2, g, how) =
      let small : leb fat32_eoc q ≡ false = ground (arith, e.inside, v.system.clusters) in
      let goes = step ∙ if_false _ _ small in
      (
        q ∷ ys,
        d2,
        Grows-cons c x q xs ys d d1 d2 e g,
        elim how [
          | inl (done, all) ↦ inl (goes ∙ done, ap suc all)
          | inr (stops, fewer, none_free) ↦ inr (goes ∙ stops, omega (arith, fewer), none_free)
        ],
      )

  append_nil : (l : List ℕ) → l ++ [] ≡ l
  append_nil [] = refl
  append_nil (y ∷ l) = ap (λ (k : List ℕ). y ∷ k) (append_nil l)

  Grows-none : (c : ℕ) (xs : List ℕ) (d : State) → Holds disk w v.system d c xs → Grows c xs [] d d
  Grows-none c xs d chain = record {
    longer = subst (Holds disk w v.system d c) (sym (append_nil xs)) chain;
    inside = tt;
    others = λ e small out. refl;
  }

  pub grow_lem :
      (left fuel c x : ℕ) (xs : List ℕ) (d : State)
      → Holds disk w v.system d c (x ∷ xs)
      → length xs + left < fuel
      → Growing left c (x ∷ xs) d (grow disk fuel left fs c d)
  unfolding grow
  grow_lem zero fuel c x xs d chain n = ([], d, Grows-none c (x ∷ xs) d chain, inl (refl, refl))
  grow_lem (suc left) fuel c x xs d chain n =
      let (q, d1, did, how) =
        fat_extend_chain_lem disk w v.system fuel c x xs d chain (omega (arith, n)) in
      let step = grow_step left fuel c q d d1 chain.1 did in
      elim how [
        | inl e ↦ grow_more left fuel c x q xs d d1 e step (
            grow_lem left fuel c x (xs ++ q ∷ []) d1 e.longer
              (omega (arith, n, length-append xs (q ∷ []))))
        | inr (is_eoc, same, none_free) ↦
            let over : leb fat32_eoc q ≡ true = ground (arith, is_eoc) in
            (
              [],
              d1,
              subst (Grows c (x ∷ xs) [] d) (sym same) (Grows-none c (x ∷ xs) d chain),
              inr (
                step ∙ if_true _ _ over,
                omega arith,
                subst (λ e. Full disk w v.system e 0) (sym same) none_free,
              ),
            )
      ]
