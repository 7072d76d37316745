-- ===== src/Fat32/Writing/Runs.antt =====
-- The clusters that `fat32_write_file` of kernel/fs/fat32.c goes through.
use lumin.Prelude.{
  ℕ, zero, suc, ◌+◌, ◌-◌, ◌*◌, ◌<◌, ◌≤◌, ◌≡◌, refl, sym, ap, ◌∙◌, inl, inr, true, false, ◌&&◌, some,
  arith, List, [], ◌∷◌, min, ltb, Bool-cases, if_true, if_false, has, All, length, drop,
}
use lumin.Prelude.Int.{as_int}
use mathlib.Core.Path.{subst}
use lumin.Fat32.{Disk, Fs, is_link, fat_next_cluster}
use lumin.Fat32.Links.{Works}
use lumin.Fat32.Chains.{Chain, Chain-apart}
use lumin.Fat32.Volume.{first_sector, first_sector-inside}
use lumin.Fat32.Files.Reading.{IsCluster}
use lumin.Fat32.Writing.{writes, Wrote, wrote_cluster, write_clusters, seek_cluster}
use lumin.Fat32.Writing.Sectors.{write_sectors_lem}
use lumin.Fat32.Writing.Clusters.{IsTabled, next_same, InArea, Puts-SameTable}
use lumin.Fat32.Writing.Contents.{
  Changes, Changes-none, Changes-cons, Changes-skip, Chain-InArea, Chain-same,
}

module _ (disk : Disk) (w : Works disk) {fs : Fs} {total : ℕ} (v : IsTabled fs total) where
  open disk use {State, read}

  -- `xs` are the clusters of the chain from `c`, all of them in the volume.
  pub record IsFile (d : State) (c : ℕ) (xs : List ℕ) : Type 0 where
    pub chain : Chain (λ e. fat_next_cluster disk fs e d) c xs
    pub inside : All (IsCluster fs) xs

  pub write_clusters_lem :
      (fuel cluster size c start remaining done : ℕ) (xs : List ℕ) (buf : ℕ → ℕ) (d : State)
      → IsFile d c xs
      → length xs < fuel
      → start ≤ 512 * fs.sectors_per_cluster
      → start + remaining ≤ length xs * (512 * fs.sectors_per_cluster)
      → (d' : State) × (write_clusters disk fuel fs cluster size c start remaining done buf d
          ≡ writes (as_int (done + remaining)) cluster size d')
        × Changes disk w v xs start remaining done buf d d'
  unfolding write_clusters
  write_clusters_lem zero cluster size c start remaining done xs buf d f n le fits =
      absurd (omega (arith, n))
  write_clusters_lem (suc fuel) cluster size c start remaining done [] buf d f n le fits =
      let none_left : 0 ≡ remaining = omega (arith, fits) in
      let over : (is_link c && ltb 0 remaining) ≡ false = ground (arith, none_left) in
      (
        d,
        if_false _ _ over
            ∙ ap (λ (k : ℕ). writes (as_int k) cluster size d) (omega (arith, none_left)),
        subst (λ k. Changes disk w v [] start k done buf d d) none_left
            (Changes-none disk w v [] start done buf d),
      )
  write_clusters_lem (suc fuel) cluster size c start remaining done (x ∷ xs) buf d f n le fits =
      let next = λ (e : ℕ). fat_next_cluster disk fs e d in
      let (same, link, rest) = f.chain in
      let in_c : InArea disk v c = (ground (arith, link), omega (arith, f.inside.0, same)) in
      let m = min (512 * fs.sectors_per_cluster - start) remaining in
      let first = first_sector fs c in
      elim (Bool-cases (ltb 0 remaining)) [
        | inl more ↦
            let goes : (is_link c && ltb 0 remaining) ≡ true = ground (arith, link, more) in
            let (after, end) = first_sector-inside fs total c v.volume in_c.0 in_c.1 in
            let (d1, wrote, puts) =
              write_sectors_lem disk w (fs.sectors_per_cluster + 1) fs first start remaining done
                buf d v.volume.sector_size v.volume.few_sectors (omega (arith, end, v.volume.small))
                le (omega arith) (λ some_left. omega arith) m refl in
            let fit : start + m ≤ 512 * fs.sectors_per_cluster = omega (arith, le) in
            let table = Puts-SameTable disk v c start m done buf d d1 in_c fit puts in
            let chain = Chain-same disk w v d d1 (next c) xs table f.inside.1 rest in
            let (d', wrote_rest, changes) =
              write_clusters_lem fuel cluster size (next c) 0 (remaining - m) (done + m) xs buf d1
                (record { chain = chain; inside = f.inside.1 }) (omega (arith, n)) (omega arith)
                (omega (arith, fits, le)) in
            (
              d',
              if_true _ _ goes
                  ∙ ap
                      (λ (r : Wrote State).
                        wrote_cluster disk cluster size r (λ done' remaining' d''.
                          write_clusters disk fuel fs cluster size (fat_next_cluster disk fs c d'')
                            0 remaining' done' buf d''))
                      wrote
                  ∙ ap
                      (λ (e : ℕ).
                        write_clusters disk fuel fs cluster size e 0 (remaining - m) (done + m) buf
                          d1)
                      (next_same disk v d d1 c table in_c.1)
                  ∙ wrote_rest
                  ∙ ap (λ (k : ℕ). writes (as_int k) cluster size d') (omega arith),
              subst (λ y. Changes disk w v (y ∷ xs) start remaining done buf d d') same
                  (Changes-cons disk w v c start m remaining done xs buf d d1 d' in_c
                    (Chain-apart next c xs link rest)
                    (λ y h. Chain-InArea disk w v next (next c) y xs rest f.inside.1 h) refl le puts
                    changes),
            )
        | inr none_more ↦
            let none_left : 0 ≡ remaining = ground (arith, none_more) in
            let over : (is_link c && ltb 0 remaining) ≡ false = ground (arith, none_left) in
            (
              d,
              if_false _ _ over
                  ∙ ap (λ (k : ℕ). writes (as_int k) cluster size d) (omega (arith, none_left)),
              subst (λ k. Changes disk w v (x ∷ xs) start k done buf d d) none_left
                  (Changes-none disk w v (x ∷ xs) start done buf d),
            )
      ]

  -- The cluster that the write begins in, and what a write from there on changes in the file.
  pub seek_cluster_lem :
      (n c : ℕ) (xs : List ℕ) (d : State)
      → IsFile d c xs
      → n < length xs
      → (c' : ℕ) × (seek_cluster disk n fs c d ≡ some c')
        × IsFile d c' (drop n xs)
        × (length (drop n xs) ≡ length xs - n)
        × ((start count done : ℕ) (buf : ℕ → ℕ) (d' : State)
            → Changes disk w v (drop n xs) start count done buf d d'
            → Changes disk w v xs (n * (512 * fs.sectors_per_cluster) + start) count done buf d d')
  unfolding seek_cluster
  seek_cluster_lem zero c xs d f lt = (
    c,
    refl,
    f,
    omega arith,
    λ start count done buf d' h.
        subst (λ k. Changes disk w v xs k count done buf d d') (omega arith) h,
  )
  seek_cluster_lem (suc n) c [] d f lt = absurd (omega (arith, lt))
  seek_cluster_lem (suc n) c (x ∷ xs) d f lt =
      let next = λ (e : ℕ). fat_next_cluster disk fs e d in
      let (same, link, rest) = f.chain in
      let (c', sought, f', len, lifts) =
        seek_cluster_lem n (next c) xs d (record { chain = rest; inside = f.inside.1 })
          (omega (arith, lt)) in
      let in_x : InArea disk v x = (ground (arith, same, link), f.inside.0) in
      let apart : has x xs ≡ false =
        ap (λ (y : ℕ). has y xs) (sym same) ∙ Chain-apart next c xs link rest in
      (
        c',
        if_true _ _ link ∙ sought,
        f',
        len ∙ omega arith,
        λ start count done buf d' h.
            subst (λ k. Changes disk w v (x ∷ xs) k count done buf d d') (omega arith)
              (Changes-skip disk w v x _ count done xs buf d d' in_x apart
                (lifts start count done buf d' h)),
      )
