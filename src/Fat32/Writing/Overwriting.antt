-- ===== src/Fat32/Writing/Overwriting.antt =====
-- `fat32_write_file` of kernel/fs/fat32.c inside a file, and `fat32_read_file` after it.
use lumin.Prelude.{
  ℕ, ◌+◌, ◌-◌, ◌*◌, ◌/◌, ◌%◌, ◌^◌, ◌<◌, ◌≤◌, ◌≡◌, ap, ◌∙◌, inl, inr, false, Option, arith, List,
  min, ltb, ◌==◌, Bool-cases, if_true, if_false, length, drop,
}
use lumin.Prelude.Int.{as_int}
use mathlib.Core.Path.{subst}
use native.Mathlib.Nat.{div-add-mod', div-lt_iff_lt-mul, mod-lt, div-le_self, mul_comm, mul-sub}
use lumin.Fat32.{Disk, Fs, u32_mod}
use lumin.Fat32.Links.{Works}
use lumin.Fat32.Files.{cluster_size, gives, span, fat32_read_file}
use lumin.Fat32.Files.Spans.{span_agrees}
use lumin.Fat32.Files.Reading.{file_byte, fat32_read_file_lem}
use lumin.Fat32.Writing.{writes, seek_cluster, write_from, write_at, fat32_write_file}
use lumin.Fat32.Writing.Device.{written}
use lumin.Fat32.Writing.Clusters.{IsTabled}
use lumin.Fat32.Writing.Contents.{Changes, Changes-none, Chain-same}
use lumin.Fat32.Writing.Runs.{IsFile, write_clusters_lem, seek_cluster_lem}

module _ (disk : Disk) (w : Works disk) {fs : Fs} {total : ℕ} (v : IsTabled fs total) where
  open disk use {State, read}

  pub write_at_lem :
      (fuel c size offset count : ℕ) (xs : List ℕ) (buf : ℕ → ℕ) (d : State)
      → IsFile disk w v d c xs
      → length xs < fuel
      → offset < length xs * (512 * fs.sectors_per_cluster)
      → offset + count ≤ length xs * (512 * fs.sectors_per_cluster)
      → offset < u32_mod
      → (d' : State) × (write_at disk fuel fs c size offset count buf d
          ≡ writes (as_int count) c size d')
        × Changes disk w v xs offset count 0 buf d d'
  unfolding write_at cluster_size
  write_at_lem fuel c size offset count xs buf d f n before fits small =
      let csize = 512 * fs.sectors_per_cluster in
      let i = offset / csize in
      let bytes : fs.bytes_per_sector * fs.sectors_per_cluster % u32_mod ≡ csize =
        ap (λ (b : ℕ). b * fs.sectors_per_cluster % u32_mod) v.volume.sector_size
        ∙ omega (arith, v.volume.few_sectors) in
      let parts = div-add-mod' offset csize in
      let positive : 0 < csize = omega (arith, v.volume.some_sectors) in
      let index : i % u32_mod ≡ i = omega (arith, div-le_self offset csize, small) in
      let within : i < length xs = (div-lt_iff_lt-mul positive).1 before in
      let (c', sought, f', len, lifts) = seek_cluster_lem disk w v i c xs d f within in
      let left : (length xs - i) * csize ≡ length xs * csize - i * csize =
        mul_comm _ csize ∙ mul-sub csize (length xs) i ∙ omega arith in
      let (d', wrote, changes) =
        write_clusters_lem disk w v fuel c size c' (offset % csize) count 0 (drop i xs) buf d f'
          (omega (arith, n, len)) (omega (arith, mod-lt offset positive))
          (omega (arith, fits, parts, left, ap (λ (k : ℕ). k * csize) len)) in
      (
        d',
        ap
              (λ (b : ℕ).
                write_from disk fuel fs c size (seek_cluster disk (offset / b % u32_mod) fs c d)
                  (offset % b) count buf d)
              bytes
            ∙ ap
                (λ (k : ℕ).
                  write_from disk fuel fs c size (seek_cluster disk k fs c d) (offset % csize) count
                    buf d)
                index
            ∙ ap (λ (o : Option ℕ). write_from disk fuel fs c size o (offset % csize) count buf d)
                sought
            ∙ wrote
            ∙ ap (λ (k : ℕ). writes (as_int k) c size d') (omega arith),
        subst (λ k. Changes disk w v xs k count 0 buf d d') parts
            (lifts (offset % csize) count 0 buf d' changes),
      )

  -- On a volume as `fat32_mount` makes it, within the bounds of `IsFs`, whose disk works and whose
  -- table has an entry for each cluster, with a file whose chain lies in the volume, is long enough
  -- for its size and has fewer clusters than there is fuel, `fat32_write_file` of a range inside
  -- the size writes all of it, returns the number of the bytes as an `int`, and leaves the first
  -- cluster and the size: the bytes of the range are those of the buffer, and no other byte of the
  -- file, no byte of another cluster and no sector before the data area changes.
  pub fat32_write_file-Changes :
      (fuel c size offset count : ℕ) (xs : List ℕ) (buf : ℕ → ℕ) (d : State)
      → IsFile disk w v d c xs
      → length xs < fuel
      → size ≤ length xs * (512 * fs.sectors_per_cluster)
      → size < u32_mod
      → offset + count ≤ size
      → (d' : State) × (fat32_write_file disk fuel fs c size offset count buf d
          ≡ writes (as_int count) c size d')
        × Changes disk w v xs offset count 0 buf d d'
  unfolding fat32_write_file
  fat32_write_file-Changes fuel c size offset count xs buf d f n covers small within =
      elim (Bool-cases (count == 0)) [
        | inl nothing ↦
            let zero_asked : 0 ≡ count = ground (arith, nothing) in
            (
              d,
              if_true _ _ nothing ∙ ap (λ (k : ℕ). writes (as_int k) c size d) zero_asked,
              subst (λ k. Changes disk w v xs offset k 0 buf d d) zero_asked
                  (Changes-none disk w v xs offset 0 buf d),
            )
        | inr some_bytes ↦
            let no_growth : ltb size ((offset + count) % 2 ^ 64) ≡ false =
              ground (arith, within, small) in
            let (d', wrote, changes) =
              write_at_lem fuel c size offset count xs buf d f n
                (ground (arith, some_bytes, within, covers)) (omega (arith, within, covers))
                (omega (arith, within, small)) in
            (d', if_false _ _ some_bytes ∙ if_false _ _ no_growth ∙ wrote, changes)
      ]

  -- On a volume as `fat32_mount` makes it, within the bounds of `IsFs`, whose disk works and whose
  -- table has an entry for each cluster, with a file whose chain lies in the volume, is long enough
  -- for its size and has fewer clusters than there is fuel, `fat32_write_file` of a range inside
  -- the size writes all of it and returns the number of the bytes as an `int`, and
  -- `fat32_read_file` after it gives, for each range whose end does not wrap, the bytes that the
  -- file had before with those of the buffer over them.
  pub fat32_read_file-fat32_write_file :
      (fuel c size offset count : ℕ) (xs : List ℕ) (buf : ℕ → ℕ) (d : State)
      → IsFile disk w v d c xs
      → length xs < fuel
      → size ≤ length xs * (512 * fs.sectors_per_cluster)
      → size < u32_mod
      → offset + count ≤ size
      → (d' : State) × (fat32_write_file disk fuel fs c size offset count buf d
          ≡ writes (as_int count) c size d')
        × ((from asked : ℕ)
            → from + asked < 2 ^ 64
            → fat32_read_file disk fuel fs c size from asked d'
              ≡ gives (
                  span
                    (λ k. written offset count 0 buf k (file_byte disk fs d xs k))
                    from
                    (min asked (size - from))))
  fat32_read_file-fat32_write_file fuel c size offset count xs buf d f n covers small within =
      let (d', wrote, changes) =
        fat32_write_file-Changes fuel c size offset count xs buf d f n covers small within in
      (
        d',
        wrote,
        λ from asked no_wrap.
            fat32_read_file_lem disk w v.volume fuel c size from asked xs d'
              (Chain-same disk w v d d' c xs changes.table f.inside f.chain) f.inside n covers small
              no_wrap
            ∙ ap gives (
                span_agrees (file_byte disk fs d' xs)
                  (λ k. written offset count 0 buf k (file_byte disk fs d xs k)) from from
                  (min asked (size - from))
                  λ i lt. changes.bytes (from + i) (omega (arith, lt, covers))),
      )
