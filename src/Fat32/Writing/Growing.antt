-- ===== src/Fat32/Writing/Growing.antt =====
-- `fat32_write_file` of kernel/fs/fat32.c past the end of a file: its chain grows first.
use lumin.Prelude.{
  ℕ, suc, ◌+◌, ◌-◌, ◌*◌, ◌/◌, ◌%◌, ◌^◌, ◌<◌, ◌≤◌, ◌≡◌, ◌⊎◌, ap, ◌∙◌, inl, inr, true, Option, some,
  arith, List, [], ◌∷◌, ◌++◌, ltb, ◌==◌, if_true, if_false, All, length, length-append,
}
use lumin.Prelude.Int.{as_int}
use native.Mathlib.Nat.{lt-div-mul-add, mul-le-mul_right}
use lumin.Fat32.{Disk, Fs, u32_mod}
use lumin.Fat32.Links.{Works}
use lumin.Fat32.Alloc.{Full}
use lumin.Fat32.Chains.{Holds}
use lumin.Fat32.Files.Reading.{IsCluster}
use lumin.Fat32.Files.{cluster_size}
use lumin.Fat32.Writing.{
  Growth, WriteResult, fails, writes, chain_count, grow, grow_from, write_at, after_growth,
  fat32_write_file,
}
use lumin.Fat32.Writing.Clusters.{IsTabled}
use lumin.Fat32.Writing.Contents.{Changes}
use lumin.Fat32.Writing.Runs.{IsFile}
use lumin.Fat32.Writing.Overwriting.{write_at_lem}
use lumin.Fat32.Writing.Longer.{Grows, chain_count_lem, grow_lem}

module _ (disk : Disk) (w : Works disk) {fs : Fs} {total : ℕ} (v : IsTabled fs total) where
  open disk use {State}

  -- How many clusters a file of so many bytes needs.
  abbrev pub clusters_for : ℕ → ℕ
  clusters_for size = (size + 512 * fs.sectors_per_cluster - 1) / (512 * fs.sectors_per_cluster)

  -- What the call does past the end of a file with the clusters `xs`.
  to_growth :
      (fuel c size offset count : ℕ) (xs : List ℕ) (buf : ℕ → ℕ) (d : State)
      → Holds disk w v.system d c xs
      → length xs < fuel
      → 1 ≤ count
      → size < offset + count
      → offset + count < u32_mod
      → fat32_write_file disk fuel fs c size offset count buf d
        ≡ after_growth disk size
            (grow disk fuel (clusters_for (offset + count) - length xs) fs c d)
            (λ c' d'. write_at disk fuel fs c' (offset + count) offset count buf d')
  unfolding fat32_write_file cluster_size
  to_growth fuel c size offset count xs buf d chain n some_bytes past small =
      let csize = 512 * fs.sectors_per_cluster in
      let bytes : fs.bytes_per_sector * fs.sectors_per_cluster % u32_mod ≡ csize =
        ap (λ (b : ℕ). b * fs.sectors_per_cluster % u32_mod) v.volume.sector_size
        ∙ omega (arith, v.volume.few_sectors) in
      let plain : (offset + count) % 2 ^ 64 ≡ offset + count = omega (arith, small) in
      let no_wrap : (offset + count + csize - 1) % 2 ^ 64 ≡ offset + count + csize - 1 =
        omega (arith, small, v.volume.few_sectors) in
      let more : ltb size ((offset + count) % 2 ^ 64) ≡ true = ground (arith, plain, past) in
      let rest : ℕ → ℕ → State → WriteResult State =
        λ e c' d'. write_at disk fuel fs c' e offset count buf d' in
      let from : ℕ → Option ℕ → ℕ → WriteResult State =
        λ needed o e. after_growth disk size (grow_from disk fuel fs c needed d o) (rest e) in
      if_false {q = count == 0} _ _ (ground (arith, some_bytes))
      ∙ if_true _ _ more
      ∙ ap
          (λ (e : ℕ).
            let b = fs.bytes_per_sector * fs.sectors_per_cluster % u32_mod in
            from ((e + b - 1) % 2 ^ 64 / b) (chain_count disk fuel fs c d) (e % u32_mod))
          plain
      ∙ ap
          (λ (b : ℕ).
            from ((offset + count + b - 1) % 2 ^ 64 / b) (chain_count disk fuel fs c d)
              ((offset + count) % u32_mod))
          bytes
      ∙ ap (λ (a : ℕ). from (a / csize) (chain_count disk fuel fs c d) ((offset + count) % u32_mod))
          no_wrap
      ∙ ap (λ (o : Option ℕ). from (clusters_for (offset + count)) o ((offset + count) % u32_mod))
          (chain_count_lem disk w v fuel c xs d chain n)
      ∙ ap (from (clusters_for (offset + count)) (some (length xs))) (omega (arith, small))

  All-append :
      (xs ys : List ℕ)
      → All (IsCluster fs) xs
      → All (IsCluster fs) ys
      → All (IsCluster fs) (xs ++ ys)
  All-append [] ys h k = k
  All-append (x ∷ xs) ys h k = (h.0, All-append xs ys h.1 k)

  -- On a volume as `fat32_mount` makes it whose disk works, which also has at most 0x0FFFFFF6
  -- clusters, at most 2 ^ 21 sectors of table and an entry in the table for each cluster, none of
  -- which `fat32_mount` checks: `fat32_write_file` of one or more bytes past the end of a file that
  -- has a chain in the volume, up to an offset of 32 bits and given more fuel than the clusters
  -- before and those that the new end needs, ends in one of two ways. Either the chain is followed
  -- by as many clusters as the new end needs, the size is the new end, all bytes are written, the
  -- result is their number as an `int`, and the table and all bytes of clusters but those of the
  -- range are as the growth left them; or it returns -1 with the size as it was, after fewer
  -- clusters, when no entry of the table is free.
  pub fat32_write_file-Grows :
      (fuel c x size offset count : ℕ) (xs : List ℕ) (buf : ℕ → ℕ) (d : State)
      → IsFile disk w v d c (x ∷ xs)
      → length xs + clusters_for (offset + count) + 1 < fuel
      → 1 ≤ count
      → size < offset + count
      → offset + count < u32_mod
      → (ys : List ℕ) × (d1 : State) × Grows disk w v c (x ∷ xs) ys d d1
        × (((d' : State) × (fat32_write_file disk fuel fs c size offset count buf d
                ≡ writes (as_int count) c (offset + count) d')
              × (length ys ≡ clusters_for (offset + count) - length (x ∷ xs))
              × Changes disk w v ((x ∷ xs) ++ ys) offset count 0 buf d1 d')
            ⊎ ((fat32_write_file disk fuel fs c size offset count buf d ≡ fails c size d1)
                × (length ys < clusters_for (offset + count) - length (x ∷ xs))
                × Full disk w v.system d1 0))
  fat32_write_file-Grows fuel c x size offset count xs buf d f n some_bytes past small =
      let csize = 512 * fs.sectors_per_cluster in
      let end = offset + count in
      let k = clusters_for end in
      let positive : 0 < csize = omega (arith, v.volume.some_sectors) in
      let enough_room : end ≤ k * csize =
        omega (arith, lt-div-mul-add {a = end + csize - 1} positive, positive) in
      let (ys, d1, g, how) =
        grow_lem disk w v (k - suc (length xs)) fuel c x xs d f.chain (omega (arith, n)) in
      let starts =
        to_growth fuel c size offset count (x ∷ xs) buf d f.chain (omega (arith, n)) some_bytes past
          small in
      let rest : ℕ → State → WriteResult State =
        λ c' d'. write_at disk fuel fs c' end offset count buf d' in
      (
        ys,
        d1,
        g,
        elim how [
          | inl (done, all) ↦
              let len = length-append (x ∷ xs) ys in
              let room = mul-le-mul_right csize (at_least (x ∷ xs) ys k all) in
              let (d', wrote, changes) =
                write_at_lem disk w v fuel c end offset count (x ∷ xs ++ ys) buf d1
                  (record { chain = g.longer; inside = All-append (x ∷ xs) ys f.inside g.inside })
                  (omega (arith, len, all, n)) (omega (arith, room, enough_room, some_bytes))
                  (omega (arith, room, enough_room)) (omega (arith, small)) in
              inl (
                d',
                starts ∙ ap (λ (r : Growth State). after_growth disk size r rest) done ∙ wrote,
                all,
                changes,
              )
          | inr (stops, fewer, none_free) ↦ inr (
            starts ∙ ap (λ (r : Growth State). after_growth disk size r rest) stops,
            fewer,
            none_free,
          )
        ],
      )
    where
      at_least : (xs ys : List ℕ) (k : ℕ) → length ys ≡ k - length xs → k ≤ length (xs ++ ys)
      at_least xs ys k h = omega (arith, h, length-append xs ys)
