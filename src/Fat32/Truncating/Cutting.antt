-- ===== src/Fat32/Truncating/Cutting.antt =====
-- What `fat32_truncate` of kernel/fs/fat32.c makes of a chain of clusters.
use lumin.Prelude.{
  ℕ, zero, suc, ◌+◌, ◌-◌, ◌*◌, ◌/◌, ◌%◌, ◌^◌, ◌<◌, ◌≤◌, ◌≡◌, refl, sym, ap, ◌∙◌, inl, inr, true,
  false, Option, some, arith, List, [], ◌∷◌, leb, ltb, ◌==◌, if◌then◌else◌, Bool-cases, ltb→lt,
  if_true, if_false, has, length, take, drop,
}
use mathlib.Core.Path.{subst}
use native.Mathlib.Nat.{div-lt_iff_lt-mul}
use lumin.Fat32.{
  Disk, Fs, u32_mod, fat_mod, fat32_eoc, is_link, fat_next_cluster, fat_set_cluster, fat_free_chain,
  or_else,
}
use lumin.Fat32.Links.{Works, IsFs, Sets, Sets-self, Sets-other, fat_set_cluster_lem}
use lumin.Fat32.Volume.{IsVolume}
use lumin.Fat32.Chains.{Holds, Frees, Chain-links, fat_free_chain_lem, has_apart, link_small}
use lumin.Fat32.Files.{cluster_size}
use lumin.Fat32.Truncating.{cut_to, keep_loop, after_free, cut_after, fat32_truncate}
use lumin.Fat32.Truncating.Fronts.{
  last_kept, has-last_kept, has-take, has-drop, drop-has, drop_short, Chain-split, Chain-cut,
}

module _ (disk : Disk) (w : Works disk) {fs : Fs} {total : ℕ} (v : IsVolume fs total)
    (m : IsFs fs) where
  open disk use {State}

  -- The first `n` of the clusters `xs` are the chain from `c` now, and the others are free.
  pub record Cut (xs : List ℕ) (n c : ℕ) (d d' : State) : Type 0 where
    pub shorter : Holds disk w m d' c (take n xs)
    pub free_now : (e : ℕ) → has e (drop n xs) ≡ true → fat_next_cluster disk fs e d' ≡ 0
    pub others :
        (e : ℕ)
        → e < fat_mod
        → has e xs ≡ false
        → fat_next_cluster disk fs e d' ≡ fat_next_cluster disk fs e d

  keep_loop_lem :
      (n prev c : ℕ) (xs : List ℕ) (d : State)
      → Holds disk w m d c xs
      → n ≤ length xs
      → (c' : ℕ) × (keep_loop disk n fs prev c d ≡ some (last_kept prev n xs, c'))
        × Holds disk w m d c' (drop n xs)
  unfolding keep_loop
  keep_loop_lem zero prev c xs d chain le = (c, refl, chain)
  keep_loop_lem (suc n) prev c [] d chain le = absurd (omega (arith, le))
  keep_loop_lem (suc n) prev c (x ∷ xs) d (same, link, rest) le =
      let (c', kept, chain) =
        keep_loop_lem n c (fat_next_cluster disk fs c d) xs d rest (omega (arith, le)) in
      (c', if_true _ _ link ∙ kept ∙ ap (λ (k : ℕ). some (last_kept k n xs, c')) same, chain)

  cut_result :
      (fuel c size new_size last c' : ℕ) (d d1 d2 : State)
      → new_size < u32_mod
      → fat_free_chain disk fuel fs c' d ≡ some d1
      → is_link last ≡ true
      → fat_set_cluster disk fs last fat32_eoc d1 ≡ some d2
      → cut_after disk fuel fs c size new_size d (some (last, c')) ≡ cut_to c new_size d2
  cut_result fuel c size new_size last c' d d1 d2 small did_free link did_set =
      ap
        (λ (o : Option State). after_free disk o (λ d'. cut_to c (new_size % u32_mod) (
          if is_link last
          then or_else disk (fat_set_cluster disk fs last fat32_eoc d') d'
          else d')))
        did_free
      ∙ ap (cut_to c (new_size % u32_mod))
          (if_true _ _ link ∙ ap (λ (o : Option State). or_else disk o d1) did_set)
      ∙ ap (λ (k : ℕ). cut_to c k d2) (omega (arith, small))

  -- The tail of a chain is after_free, and then the cluster before it becomes the last one.
  Cut-chain :
      (c x n : ℕ) (xs : List ℕ) (d d1 d2 : State)
      → Holds disk w m d c (x ∷ xs)
      → n ≤ length xs
      → Frees disk w m (drop n xs) d d1
      → Sets disk w m (last_kept x n xs) fat32_eoc d1 d2
      → Cut (x ∷ xs) (suc n) c d d2
  Cut-chain c x n xs d d1 d2 chain le frees sets =
      let next : State → ℕ → ℕ = λ d e. fat_next_cluster disk fs e d in
      let last = last_kept x n xs in
      let last_in = has-last_kept x n xs in
      let small : (e : ℕ) → has e (x ∷ xs) ≡ true → e < fat_mod =
        λ e h. link_small disk w m e (Chain-links (next d) c e (x ∷ xs) chain h) in
      let last_small = small last (has-take last (suc n) (x ∷ xs) last_in) in
      let split = λ (e : ℕ). Chain-split (next d) c e (suc n) (x ∷ xs) chain in
      let ends : next d2 last ≡ fat32_eoc =
        Sets-self disk w m last fat32_eoc d1 d2 sets last_small in
      let free_rest : (e : ℕ) → has e (drop n xs) ≡ true → next d1 e ≡ 0 =
        λ e h. frees e (small e (ground (arith, has-drop e n xs, h))) ∙ if_true _ _ h in
      record {
        shorter =
            Chain-cut (next d) (next d2) c x n xs chain le
              (λ e h ne.
                let e_small = small e (has-take e (suc n) (x ∷ xs) h) in
                Sets-other disk w m last fat32_eoc e d1 d2 sets e_small ne
                ∙ frees e e_small
                ∙ if_false _ _ (split e h))
              (rw (ends) (omega arith));
        free_now = λ e h.
            let behind : has e (x ∷ xs) ≡ true = ground (arith, drop-has e n xs h) in
            Sets-other disk w m last fat32_eoc e d1 d2 sets (small e behind)
              (has_apart e last (drop n xs) h (split last last_in))
            ∙ free_rest e h;
        others = λ e e_small out.
            Sets-other disk w m last fat32_eoc e d1 d2 sets e_small (λ same. ground (
              arith,
              out,
              has-take last (suc n) (x ∷ xs) last_in,
              ap (λ (k : ℕ). has k (x ∷ xs)) same,
            ))
            ∙ frees e e_small
            ∙ if_false _ _ (has-drop e n xs (ground (arith, out)));
      }

  -- On a volume as `fat32_mount` makes it, within the bounds of `IsFs`, whose disk works, for a
  -- file whose chain has room for its size and fewer clusters than there is fuel, `fat32_truncate`
  -- to a smaller size that is not 0 succeeds: the chain keeps as many of its clusters as the new
  -- size needs, the entries of its other clusters are free, and those of other files are unchanged.
  pub fat32_truncate-Cut :
      (fuel c size new_size : ℕ) (xs : List ℕ) (d : State)
      → Holds disk w m d c xs
      → length xs < fuel
      → size ≤ length xs * (512 * fs.sectors_per_cluster)
      → size < u32_mod
      → 1 ≤ new_size
      → new_size < size
      → (d' : State) × (fat32_truncate disk fuel fs c size new_size d ≡ cut_to c new_size d')
        × Cut xs
            ((new_size + 512 * fs.sectors_per_cluster - 1) / (512 * fs.sectors_per_cluster))
            c
            d
            d'
  unfolding fat32_truncate cluster_size
  fat32_truncate-Cut fuel c size new_size [] d chain enough covers small some_left less =
      absurd (omega (arith, covers, less))
  fat32_truncate-Cut fuel c size new_size (x ∷ xs) d chain enough covers small some_left less =
      let csize = 512 * fs.sectors_per_cluster in
      let a = new_size + csize - 1 in
      let k = a / csize in
      let positive : 0 < csize = omega (arith, v.some_sectors) in
      let bytes : fs.bytes_per_sector * fs.sectors_per_cluster % u32_mod ≡ csize =
        ap (λ (b : ℕ). b * fs.sectors_per_cluster % u32_mod) v.sector_size
        ∙ omega (arith, v.few_sectors) in
      let few : k < suc (suc (length xs)) =
        (div-lt_iff_lt-mul positive).1 (omega (arith, covers, less, positive)) in
      let some_kept : 1 ≤ k = elim (Bool-cases (ltb k 1)) [
        | inl under ↦
            absurd (omega (arith, (div-lt_iff_lt-mul positive).0 (ltb→lt k 1 under), some_left))
        | inr over ↦ ground (arith, over)
      ] in
      let no_wrap : k < u32_mod =
        (div-lt_iff_lt-mul positive).1 (omega (arith, small, less, positive)) in
      let keep : a % 2 ^ 64 / csize % u32_mod ≡ k =
        let plain : a % 2 ^ 64 ≡ a = omega (arith, small, less, v.few_sectors) in
        ap (λ (y : ℕ). y / csize % u32_mod) plain ∙ omega (arith, no_wrap) in
      let n = k - 1 in
      let is_k : k ≡ suc n = omega (arith, some_kept) in
      let last = last_kept x n xs in
      let (c', kept, from) =
        keep_loop_lem (suc n) 0 c (x ∷ xs) d chain (omega (arith, few, some_kept)) in
      let (d1, did_free, frees) =
        fat_free_chain_lem disk w m (drop n xs) fuel c' d from
          (omega (arith, drop_short n xs, enough)) in
      let link =
        Chain-links (λ e. fat_next_cluster disk fs e d) c last (x ∷ xs) chain
          (has-take last (suc n) (x ∷ xs) (has-last_kept x n xs)) in
      let (d2, did_set, sets) =
        fat_set_cluster_lem disk w m last fat32_eoc d1 (link_small disk w m last link) in
      let after = cut_after disk fuel fs c size new_size d in
      (
        d2,
        if_false {q = leb size new_size} _ _ (ground (arith, less))
            ∙ if_false {q = new_size == 0} _ _ (ground (arith, some_left))
            ∙ ap
                (λ (b : ℕ).
                  after (keep_loop disk ((new_size + b - 1) % 2 ^ 64 / b % u32_mod) fs 0 c d))
                bytes
            ∙ ap (λ (j : ℕ). after (keep_loop disk j fs 0 c d)) (keep ∙ is_k)
            ∙ ap after kept
            ∙ cut_result fuel c size new_size last c' d d1 d2 (omega (arith, small, less)) did_free
                link did_set,
        subst (λ j. Cut (x ∷ xs) j c d d2) (sym is_k)
            (Cut-chain c x n xs d d1 d2 chain (omega (arith, few, some_kept)) frees sets),
      )
