-- ===== src/Fat32/Files/Reading.antt =====
-- The bytes of a file in its chain of clusters, which `fat32_read_file` of kernel/fs/fat32.c gives.
use lumin.Prelude.{
  ℕ, zero, suc, ◌+◌, ◌-◌, ◌*◌, ◌/◌, ◌%◌, ◌^◌, ◌<◌, ◌≤◌, ◌≡◌, refl, sym, ap, ◌∙◌, inl, inr, true,
  false, ◌&&◌, Option, some, arith, List, [], ◌∷◌, ◌++◌, min, ltb, leb, ◌==◌, if◌then◌else◌,
  Bool-cases, if_true, if_false, if_cases, length, drop, All,
}
use lumin.Prelude.Int.{as_int}
use native.Mathlib.Nat.{div-add-mod', div-lt_iff_lt-mul, mod-lt, div-le_self, mul_comm, mul-sub}
use lumin.Fat32.{Disk, Fs, u32_mod, is_link, fat_next_cluster}
use lumin.Fat32.Links.{Works}
use lumin.Fat32.Chains.{Chain}
use lumin.Fat32.Volume.{IsVolume, first_sector, first_sector-inside}
use lumin.Fat32.Files.{
  length-span, read_code, Part, ReadResult, gives, gives_after, after_part, span, cluster_size,
  read_clusters, skip_clusters, read_from, fat32_read_file,
}
use lumin.Fat32.Files.Spans.{span_agrees, span_split}
use lumin.Fat32.Files.Sectors.{cluster_byte, read_sectors_lem}

-- The byte `k` of a file whose clusters are `xs`.
abbrev pub file_byte : (disk : Disk) → Fs → disk.State → List ℕ → ℕ → ℕ
file_byte disk fs d [] k = 0
file_byte disk fs d (x ∷ xs) k =
    if ltb k (512 * fs.sectors_per_cluster)
    then cluster_byte disk d (first_sector fs x) k
    else file_byte disk fs d xs (k - 512 * fs.sectors_per_cluster)

-- A cluster number of the volume.
abbrev pub IsCluster : Fs → ℕ → Type 0
IsCluster fs c = c < fs.total_clusters + 2

module _ (disk : Disk) (w : Works disk) {fs : Fs} {total : ℕ} (v : IsVolume fs total) where
  open disk use {State, read}

  -- The bytes of the first cluster, and of the others.
  file_split :
      (c x start remaining m : ℕ) (xs : List ℕ) (d : State)
      → c ≡ x
      → start ≤ 512 * fs.sectors_per_cluster
      → m ≡ min (512 * fs.sectors_per_cluster - start) remaining
      → span (cluster_byte disk d (first_sector fs c)) start m
          ++ span (file_byte disk fs d xs) 0 (remaining - m)
        ≡ span (file_byte disk fs d (x ∷ xs)) start remaining
  file_split c x start remaining m xs d same le is_m =
      let whole = file_byte disk fs d (x ∷ xs) in
      let bytes = cluster_byte disk d (first_sector fs c) in
      let others = file_byte disk fs d xs in
      let here : span bytes start m ≡ span whole start m =
        span_agrees bytes whole start start m λ i lt.
          let below : ltb (start + i) (512 * fs.sectors_per_cluster) ≡ true =
            ground (arith, lt, is_m) in
          ap (λ (n : ℕ). cluster_byte disk d (first_sector fs n) (start + i)) same
          ∙ sym (if_true _ _ below) in
      let there : span others 0 (remaining - m) ≡ span whole (start + m) (remaining - m) =
        span_agrees others whole 0 (start + m) (remaining - m) λ i lt.
          let above : ltb (start + m + i) (512 * fs.sectors_per_cluster) ≡ false =
            ground (arith, lt, is_m, le) in
          let index : 0 + i ≡ start + m + i - 512 * fs.sectors_per_cluster =
            omega (arith, lt, is_m, le) in
          ap others index ∙ sym (if_false _ _ above) in
      ap (λ (bs : List ℕ). bs ++ span others 0 (remaining - m)) here
      ∙ ap (λ (bs : List ℕ). span whole start m ++ bs) there
      ∙ sym (span_split whole start remaining m (remaining - m) (omega (arith, is_m)))

  read_clusters_lem :
      (fuel c start remaining : ℕ) (xs : List ℕ) (d : State)
      → Chain (λ e. fat_next_cluster disk fs e d) c xs
      → All (IsCluster fs) xs
      → length xs < fuel
      → start ≤ 512 * fs.sectors_per_cluster
      → start + remaining ≤ length xs * (512 * fs.sectors_per_cluster)
      → read_clusters disk fuel fs c start remaining d
        ≡ gives (span (file_byte disk fs d xs) start remaining)
  unfolding read_clusters
  read_clusters_lem zero c start remaining xs d chain inside n le fits = absurd (omega (arith, n))
  read_clusters_lem (suc fuel) c start remaining [] d chain inside n le fits =
      let ends : (is_link c && ltb 0 remaining) ≡ false = ground (arith, chain) in
      let none_left : 0 ≡ remaining = omega (arith, fits) in
      if_false _ _ ends ∙ ap (λ (k : ℕ). gives (span (file_byte disk fs d []) start k)) none_left
  read_clusters_lem (suc fuel) c start remaining (x ∷ xs) d (same, link, rest) (here, inside) n le
        fits =
      let csize = 512 * fs.sectors_per_cluster in
      let m = min (csize - start) remaining in
      let first = first_sector fs c in
      elim (Bool-cases (ltb 0 remaining)) [
        | inl more ↦
            let (after, end) =
              first_sector-inside fs total c v (ground (arith, link)) (omega (arith, same, here)) in
            let goes : (is_link c && ltb 0 remaining) ≡ true = ground (arith, link, more) in
            if_true _ _ goes
            ∙ ap
                (λ (p : Part).
                  after_part p
                    (λ left. read_clusters disk fuel fs (fat_next_cluster disk fs c d) 0 left d))
                (read_sectors_lem disk w (fs.sectors_per_cluster + 1) fs first start remaining d
                  v.sector_size v.few_sectors (omega (arith, end, v.small)) le (omega arith)
                  (λ some_left. omega arith) m refl)
            ∙ ap (gives_after (span (cluster_byte disk d first) start m)) (
                read_clusters_lem fuel (fat_next_cluster disk fs c d) 0 (remaining - m) xs d rest
                  inside (omega (arith, n)) (omega arith) (omega (arith, fits, le)))
            ∙ ap gives (file_split c x start remaining m xs d same le refl)
        | inr done ↦
            let ends : (is_link c && ltb 0 remaining) ≡ false = ground (arith, done) in
            let none_left : 0 ≡ remaining = ground (arith, done) in
            if_false _ _ ends
            ∙ ap (λ (k : ℕ). gives (span (file_byte disk fs d (x ∷ xs)) start k)) none_left
      ]

  skip_clusters_lem :
      (n c : ℕ) (xs : List ℕ) (d : State)
      → Chain (λ e. fat_next_cluster disk fs e d) c xs
      → n < length xs
      → (c' : ℕ) × (skip_clusters disk n fs c d ≡ some c')
        × Chain (λ e. fat_next_cluster disk fs e d) c' (drop n xs)
  unfolding skip_clusters
  skip_clusters_lem zero c xs d chain lt = (c, refl, chain)
  skip_clusters_lem (suc n) c [] d chain lt = absurd (omega (arith, lt))
  skip_clusters_lem (suc n) c (x ∷ []) d chain lt = absurd (omega (arith, lt))
  skip_clusters_lem (suc n) c (x ∷ y ∷ ys) d (same, link, rest) lt =
      let (c', found, chain) =
        skip_clusters_lem n (fat_next_cluster disk fs c d) (y ∷ ys) d rest (omega (arith, lt)) in
      (c', if_true _ _ (rest.1) ∙ found, chain)

  drop_byte :
      (n k : ℕ) (xs : List ℕ) (d : State)
      → file_byte disk fs d (drop n xs) k
        ≡ file_byte disk fs d xs (n * (512 * fs.sectors_per_cluster) + k)
  drop_byte zero k xs d = ap (file_byte disk fs d xs) (omega arith)
  drop_byte (suc n) k [] d = refl
  drop_byte (suc n) k (x ∷ xs) d =
      let csize = 512 * fs.sectors_per_cluster in
      let above : ltb (suc n * csize + k) csize ≡ false = ground arith in
      let index : n * csize + k ≡ suc n * csize + k - csize = omega arith in
      drop_byte n k xs d ∙ ap (file_byte disk fs d xs) index ∙ sym (if_false _ _ above)

  length-drop : (n : ℕ) (xs : List ℕ) → length (drop n xs) ≡ length xs - n
  length-drop zero xs = omega arith
  length-drop (suc n) [] = omega arith
  length-drop (suc n) (x ∷ xs) = length-drop n xs ∙ omega arith

  drop-All : (n : ℕ) (xs : List ℕ) → All (IsCluster fs) xs → All (IsCluster fs) (drop n xs)
  drop-All zero xs h = h
  drop-All (suc n) [] h = h
  drop-All (suc n) (x ∷ xs) h = drop-All n xs (h.1)

  -- What is read from `offset` on, once the count of bytes is known.
  read_from_lem :
      (fuel c offset n : ℕ) (xs : List ℕ) (d : State)
      → Chain (λ e. fat_next_cluster disk fs e d) c xs
      → All (IsCluster fs) xs
      → length xs < fuel
      → offset < length xs * (512 * fs.sectors_per_cluster)
      → offset + n ≤ length xs * (512 * fs.sectors_per_cluster)
      → read_from disk fuel fs
          (skip_clusters disk (offset / (512 * fs.sectors_per_cluster)) fs c d)
          (offset % (512 * fs.sectors_per_cluster))
          n
          d
        ≡ gives (span (file_byte disk fs d xs) offset n)
  read_from_lem fuel c offset n xs d chain inside enough before fits =
      let csize = 512 * fs.sectors_per_cluster in
      let i = offset / csize in
      let parts = div-add-mod' offset csize in
      let positive : 0 < csize = omega (arith, v.some_sectors) in
      let within : i < length xs = (div-lt_iff_lt-mul positive).1 before in
      let (c', found, from) = skip_clusters_lem i c xs d chain within in
      let left : length (drop i xs) * csize ≡ length xs * csize - i * csize =
        ap (λ (k : ℕ). k * csize) (length-drop i xs)
        ∙ mul_comm _ csize
        ∙ mul-sub csize (length xs) i
        ∙ omega arith in
      ap (λ (o : Option ℕ). read_from disk fuel fs o (offset % csize) n d) found
      ∙ read_clusters_lem fuel c' (offset % csize) n (drop i xs) d from (drop-All i xs inside)
          (omega (arith, length-drop i xs, enough)) (omega (arith, mod-lt offset positive))
          (omega (arith, fits, parts, left))
      ∙ ap gives (
          span_agrees (file_byte disk fs d (drop i xs)) (file_byte disk fs d xs) (offset % csize)
            offset n
            λ k lt.
              drop_byte i (offset % csize + k) xs d
              ∙ ap (file_byte disk fs d xs) (omega (arith, parts)))

  -- The rest of the call when there is something to read.
  read_rest :
      (fuel c size offset count : ℕ) (xs : List ℕ) (d : State)
      → Chain (λ e. fat_next_cluster disk fs e d) c xs
      → All (IsCluster fs) xs
      → length xs < fuel
      → size ≤ length xs * (512 * fs.sectors_per_cluster)
      → size < u32_mod
      → offset < size
      → offset + count < 2 ^ 64
      → read_from disk fuel fs
          (skip_clusters disk (offset / cluster_size fs % u32_mod) fs c d)
          (offset % cluster_size fs)
          (if ltb size ((offset + count) % 2 ^ 64) then size - offset else count)
          d
        ≡ gives (span (file_byte disk fs d xs) offset (min count (size - offset)))
  unfolding cluster_size
  read_rest fuel c size offset count xs d chain inside enough covers small before no_wrap =
      let csize = 512 * fs.sectors_per_cluster in
      let n = min count (size - offset) in
      let bytes : fs.bytes_per_sector * fs.sectors_per_cluster % u32_mod ≡ csize =
        ap (λ (b : ℕ). b * fs.sectors_per_cluster % u32_mod) v.sector_size
        ∙ omega (arith, v.few_sectors) in
      let asked : (if ltb size ((offset + count) % 2 ^ 64) then size - offset else count) ≡ n =
        ground (arith, no_wrap) in
      let index : offset / csize % u32_mod ≡ offset / csize =
        omega (arith, div-le_self offset csize, before, small) in
      let result : ℕ → ℕ → ReadResult = λ b n.
        read_from disk fuel fs (skip_clusters disk (offset / b % u32_mod) fs c d) (offset % b) n
          d in
      ap
        (λ (b : ℕ).
          result b (if ltb size ((offset + count) % 2 ^ 64) then size - offset else count))
        bytes
      ∙ ap (result csize) asked
      ∙ ap (λ (i : ℕ). read_from disk fuel fs (skip_clusters disk i fs c d) (offset % csize) n d)
          index
      ∙ read_from_lem fuel c offset n xs d chain inside enough (omega (arith, before, covers))
          (omega (arith, before, covers))

  -- On a volume as `fat32_mount` makes it whose disk works, with the file's chain inside the
  -- volume, long enough for its size, and more fuel than it has clusters, and with no wrap of the
  -- offset plus the count, `fat32_read_file` gives the bytes of the file from the offset on, as
  -- many as are asked for and lie before the size.
  pub fat32_read_file_lem :
      (fuel c size offset count : ℕ) (xs : List ℕ) (d : State)
      → Chain (λ e. fat_next_cluster disk fs e d) c xs
      → All (IsCluster fs) xs
      → length xs < fuel
      → size ≤ length xs * (512 * fs.sectors_per_cluster)
      → size < u32_mod
      → offset + count < 2 ^ 64
      → fat32_read_file disk fuel fs c size offset count d
        ≡ gives (span (file_byte disk fs d xs) offset (min count (size - offset)))
  unfolding fat32_read_file
  fat32_read_file_lem fuel c size offset count xs d chain inside enough covers small no_wrap =
      let P : ReadResult → Type 0 =
        λ o. o ≡ gives (span (file_byte disk fs d xs) offset (min count (size - offset))) in
      if_cases P (count == 0)
        (λ none_asked.
          let zero_asked : 0 ≡ min count (size - offset) = ground (arith, none_asked) in
          ap (λ (k : ℕ). gives (span (file_byte disk fs d xs) offset k)) zero_asked)
        (λ asked.
          if_cases P (leb size offset)
            (λ past.
              let zero_left : 0 ≡ min count (size - offset) = ground (arith, past) in
              ap (λ (k : ℕ). gives (span (file_byte disk fs d xs) offset k)) zero_left)
            (λ before.
              read_rest fuel c size offset count xs d chain inside enough covers small
                (ground (arith, before)) no_wrap))

  -- The call then returns the number of these bytes as an `int`, which is negative or too small from
  -- 2 ^ 31 bytes on.
  pub read_code-fat32_read_file :
      (fuel c size offset count : ℕ) (xs : List ℕ) (d : State)
      → Chain (λ e. fat_next_cluster disk fs e d) c xs
      → All (IsCluster fs) xs
      → length xs < fuel
      → size ≤ length xs * (512 * fs.sectors_per_cluster)
      → size < u32_mod
      → offset + count < 2 ^ 64
      → read_code (fat32_read_file disk fuel fs c size offset count d)
        ≡ some (as_int (min count (size - offset)))
  read_code-fat32_read_file fuel c size offset count xs d chain inside enough covers small no_wrap =
      ap read_code
        (fat32_read_file_lem fuel c size offset count xs d chain inside enough covers small no_wrap)
      ∙ ap (λ (k : ℕ). some (as_int k))
          (length-span (file_byte disk fs d xs) offset (min count (size - offset)))
