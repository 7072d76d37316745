-- ===== src/Fat32/Extend.antt =====
-- A cluster more at the end of a chain: `fat_chain_last` and `fat_extend_chain` of
-- kernel/fs/fat32.c.
use lumin.Prelude.{
  ℕ, zero, suc, ◌+◌, ◌%◌, ◌<◌, ◌≤◌, ◌≡◌, refl, sym, ap, ◌∙◌, ◌≢◌, ◌⊎◌, inl, inr, true, false,
  Option, some, arith, leb, ◌==◌, if◌then◌else◌, Bool-cases, ==→eq, List, [], ◌∷◌, ◌++◌, length,
  has,
}
use lumin.Fat32.{
  Disk, Fs, fat_mod, fat32_eoc, is_link, fat_next_cluster, last_loop, fat_chain_last, link_new,
  fat_extend_chain, fat_alloc_cluster,
}
use lumin.Fat32.Links.{Works, IsFs, Sets, fat_set_cluster_lem, Sets-self, Sets-other}
use lumin.Fat32.Alloc.{Takes, Full, Allocates, fat_alloc_cluster_lem}
use lumin.Fat32.Chains.{Chain, Holds, Chain-apart, Chain-links, has_apart, link_small}

-- The last of `x ∷ xs`.
abbrev pub last_of : ℕ → List ℕ → ℕ
last_of x [] = x
last_of x (y ∷ ys) = last_of y ys

pub has-last_of : (x : ℕ) (xs : List ℕ) → has (last_of x xs) (x ∷ xs) ≡ true
has-last_of x [] = ground arith
has-last_of x (y ∷ ys) = ground (arith, has-last_of y ys)

Chain-start : (next : ℕ → ℕ) (c : ℕ) (xs : List ℕ) → Chain next c xs → c ≢ 0
Chain-start next c [] chain is_zero = ground (arith, chain, is_zero)
Chain-start next c (x ∷ xs) (same, link, rest) is_zero = ground (arith, link, is_zero)

-- No cluster of a chain is free.
Chain-nonzero :
    (next : ℕ → ℕ) (c a : ℕ) (xs : List ℕ) → Chain next c xs → has a xs ≡ true → next a ≢ 0
Chain-nonzero next c a [] chain h is_zero = ground (arith, h)
Chain-nonzero next c a (x ∷ xs) (same, link, rest) h is_zero = elim (Bool-cases (a == x)) [
  | inl here ↦ Chain-start next (next c) xs rest (ap next (same ∙ (sym (==→eq _ _ here))) ∙ is_zero)
  | inr there ↦ Chain-nonzero next (next c) a xs rest (ground (arith, h, there)) is_zero
]

-- The last cluster of a chain is linked to `q`, and `q` ends the chain.
Chain-append :
    (f g : ℕ → ℕ) (c x q : ℕ) (xs : List ℕ)
    → Chain f c (x ∷ xs)
    → ((e : ℕ) → has e (x ∷ xs) ≡ true → e ≢ last_of x xs → g e ≡ f e)
    → g (last_of x xs) ≡ q
    → is_link q ≡ true
    → fat32_eoc ≤ g q
    → Chain g c ((x ∷ xs) ++ (q ∷ []))
Chain-append f g c x q [] (same, link, rest) kept linked q_link ends =
    let to_q : g c ≡ q = ap g same ∙ linked in
    (same, link, (to_q, rw (to_q) q_link, rw (to_q) ends))
Chain-append f g c x q (y ∷ ys) (same, link, rest) kept linked q_link ends =
    let apart : x ≢ last_of y ys = λ e.
      has_apart _ c (y ∷ ys) (has-last_of y ys) (Chain-apart f c (y ∷ ys) link rest)
        (sym e ∙ sym same) in
    let here : g c ≡ f c = ap g same ∙ kept x (ground arith) apart ∙ ap f (sym same) in
    (
      same,
      link,
      rw (here) (
          Chain-append f g (f c) y q ys rest (λ e h. kept e (ground (arith, h))) linked q_link
            ends),
    )

module _ (disk : Disk) (w : Works disk) {fs : Fs} (m : IsFs fs) where
  open disk use {State, read, write}

  last_loop_lem :
      (fuel c x : ℕ) (xs : List ℕ) (d : State)
      → Holds disk w m d c (x ∷ xs)
      → length xs < fuel
      → last_loop disk fuel fs c d ≡ some (last_of x xs)
  unfolding last_loop
  last_loop_lem zero c x xs d chain n = absurd (omega (arith, n))
  last_loop_lem (suc fuel) c x [] d (same, link, rest) n =
      let stop : is_link (fat_next_cluster disk fs c d) ≡ false = ground (arith, rest) in
      rw (stop) (ap some same)
  last_loop_lem (suc fuel) c x (y ∷ ys) d (same, link, rest) n =
      rw (rest.1) (last_loop_lem fuel (fat_next_cluster disk fs c d) y ys d rest (omega (arith, n)))

  pub fat_chain_last_lem :
      (fuel c x : ℕ) (xs : List ℕ) (d : State)
      → Holds disk w m d c (x ∷ xs)
      → length xs < fuel
      → fat_chain_last disk fuel fs c d ≡ some (last_of x xs)
  unfolding fat_chain_last
  fat_chain_last_lem fuel c x xs d chain n = rw (chain.1) (last_loop_lem fuel c x xs d chain n)

  -- The free cluster `q` is now the last of the chain `xs` from `c`, and other chains are unchanged.
  pub record Extends (d : State) (c last : ℕ) (xs : List ℕ) (q : ℕ) (d' : State) : Type 0 where
    pub usable : 2 ≤ q
    pub inside : q < fs.total_clusters + 2
    pub was_free : fat_next_cluster disk fs q d ≡ 0
    pub longer : Holds disk w m d' c (xs ++ (q ∷ []))
    pub others :
        (e : ℕ)
        → e < fat_mod
        → e ≢ q
        → e ≢ last
        → fat_next_cluster disk fs e d' ≡ fat_next_cluster disk fs e d

  -- The last cluster is linked to the one that the allocation gave.
  extended :
      (c x q : ℕ) (xs : List ℕ) (d d1 d2 : State)
      → Holds disk w m d c (x ∷ xs)
      → Takes disk w m d 0 q d1
      → Sets disk w m (last_of x xs) q d1 d2
      → Extends d c (last_of x xs) (x ∷ xs) q d2
  extended c x q xs d d1 d2 chain takes sets =
      let last = last_of x xs in
      let next : State → ℕ → ℕ = λ d e. fat_next_cluster disk fs e d in
      let small : (e : ℕ) → has e (x ∷ xs) ≡ true → e < fat_mod =
        λ e h. link_small disk w m e (Chain-links (next d) c e (x ∷ xs) chain h) in
      let not_q : (e : ℕ) → has e (x ∷ xs) ≡ true → e ≢ q = λ e h same.
        Chain-nonzero (next d) c e (x ∷ xs) chain h (ap (next d) same ∙ takes.was_free) in
      let q_small : q < fat_mod = omega (arith, takes.inside, m.clusters) in
      let others : (e : ℕ) → e < fat_mod → e ≢ q → e ≢ last → next d2 e ≡ next d e =
        λ e h ne_q ne_last.
          Sets-other disk w m last q e d1 d2 sets h ne_last
          ∙ Sets-other disk w m q fat32_eoc e d d1 takes.sets h ne_q in
      let last_in = has-last_of x xs in
      let ends : next d2 q ≡ fat32_eoc =
        Sets-other disk w m last q q d1 d2 sets q_small (λ e. not_q last last_in (sym e))
        ∙ Sets-self disk w m q fat32_eoc d d1 takes.sets q_small in
      record {
        usable = takes.usable;
        inside = takes.inside;
        was_free = takes.was_free;
        longer =
            Chain-append (next d) (next d2) c x q xs chain (λ e h. others e (small e h) (not_q e h))
              (Sets-self disk w m last q d1 d2 sets (small last last_in))
              (ground (arith, takes.usable, takes.inside, m.clusters)) (rw (ends) (omega arith));
        others = others;
      }

  -- What an extension of the chain `x ∷ xs` from `c` gives.
  abbrev pub Extension : State → ℕ → ℕ → List ℕ → Option (ℕ × State) → Type 0
  Extension d c x xs r =
      (q : ℕ) × (d' : State) × (r ≡ some (q, d'))
      × (Extends d c (last_of x xs) (x ∷ xs) q d'
          ⊎ ((q ≡ fat32_eoc) × (d' ≡ d) × Full disk w m d 0))

  link_new_lem :
      (c x : ℕ) (xs : List ℕ) (d : State) (r : ℕ × State)
      → Holds disk w m d c (x ∷ xs)
      → Allocates disk w m d 0 r
      → Extension d c x xs (some (link_new disk fs (last_of x xs) r))
  link_new_lem c x xs d (q, d1) chain (inl takes) =
      let last = last_of x xs in
      let last_link =
        Chain-links (λ e. fat_next_cluster disk fs e d) c last (x ∷ xs) chain (has-last_of x xs) in
      let (d2, done, sets) =
        fat_set_cluster_lem disk w m last q d1 (link_small disk w m last last_link) in
      let below : leb fat32_eoc q ≡ false = ground (arith, takes.inside, m.clusters) in
      let value : q % fat_mod ≡ q = omega (arith, takes.inside, m.clusters) in
      let to_q : Sets disk w m last q d1 d2 = λ e he.
        sets e he ∙ ap (λ (v : ℕ). if e == last then v else fat_next_cluster disk fs e d1) value in
      (q, d2, rw (below, last_link, done) refl, inl (extended c x q xs d d1 d2 chain takes to_q))
  link_new_lem c x xs d r chain (inr (none_left, full)) = (
    fat32_eoc,
    d,
    ap (λ (p : ℕ × State). some (link_new disk fs (last_of x xs) p)) none_left,
    inr (refl, refl, full),
  )

  -- On a volume with sectors of 512 bytes, a table that begins by sector 1024, at most 0x0FFFFFF6
  -- clusters and at most 2 ^ 21 sectors of table (`IsFs`, whose last two bounds `fat32_mount` does
  -- not check), whose disk works, with a chain of one or more clusters from `c` and as much fuel as
  -- it has clusters, `fat_extend_chain` ends: either it returns a cluster that was free, the chain
  -- from `c` is the old one with that cluster at its end, and the entries of all but this and the
  -- last cluster are unchanged; or it returns `FAT32_EOC`, the disk is unchanged and no entry is
  -- free.
  pub fat_extend_chain_lem :
      (fuel c x : ℕ) (xs : List ℕ) (d : State)
      → Holds disk w m d c (x ∷ xs)
      → length xs < fuel
      → Extension d c x xs (fat_extend_chain disk fuel fs c d)
  unfolding fat_extend_chain
  fat_extend_chain_lem fuel c x xs d chain n =
      rw (fat_chain_last_lem fuel c x xs d chain n) (
        link_new_lem c x xs d (fat_alloc_cluster disk fs d) chain
          (fat_alloc_cluster_lem disk w m d))
