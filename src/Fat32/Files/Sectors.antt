-- ===== src/Fat32/Files/Sectors.antt =====
-- The bytes of one cluster, which `fat32_read_file` of kernel/fs/fat32.c reads sector by sector.
use lumin.Prelude.{
  ℕ, zero, suc, ◌+◌, ◌-◌, ◌*◌, ◌/◌, ◌%◌, ◌<◌, ◌≤◌, ◌≡◌, refl, sym, ap, ◌∙◌, inl, inr, true, ◌&&◌,
  Option, none, some, arith, List, [], ◌++◌, min, ltb, if◌then◌else◌, Bool-cases, if_true, if_false,
}
use lumin.Fat32.{Disk, Sector, Fs, u32_mod}
use lumin.Fat32.Links.{Works}
use lumin.Fat32.Files.{Part, passed, part_after, copy_sector, span, cluster_size, read_sectors}
use lumin.Fat32.Files.Spans.{span_agrees, span_split}

-- A byte of a sector.
abbrev pub byte_in : Option Sector → ℕ → ℕ
byte_in none p = 0
byte_in (some b) p = b p

-- The byte `k` of the cluster whose first sector is `first`.
abbrev pub cluster_byte : (disk : Disk) → disk.State → ℕ → ℕ → ℕ
cluster_byte disk d first k = byte_in (disk.read d (first + k / 512)) (k % 512)

module _ (disk : Disk) (w : Works disk) where
  open disk use {State, read}

  copy_sector-span :
      (d : State) (first start chunk : ℕ) (rest : Part)
      → chunk ≤ 512 - start % 512
      → copy_sector (read d (first + start / 512)) (start % 512) chunk rest
        ≡ part_after (span (cluster_byte disk d first) start chunk) rest
  copy_sector-span d first start chunk rest h =
      let (b, here) = w.reads d (first + start / 512) in
      let same : (i : ℕ) → i < chunk → b (start % 512 + i) ≡ cluster_byte disk d first (start + i) =
        λ i lt.
          ap b (omega (arith, h, lt))
          ∙ ap (λ (o : Option Sector). byte_in o ((start + i) % 512)) (sym here)
          ∙ ap (λ (s : ℕ). byte_in (read d s) ((start + i) % 512)) (omega (arith, h, lt)) in
      ap (λ (o : Option Sector). copy_sector o (start % 512) chunk rest) here
      ∙ ap (λ (bytes : List ℕ). part_after bytes rest)
          (span_agrees b (cluster_byte disk d first) (start % 512) start chunk same)

  -- The sectors of a cluster of 512 bytes to the sector, and a step of the loop on them.
  sector_step : ℕ → Fs → ℕ → ℕ → ℕ → State → ℕ → ℕ → Part
  sector_step fuel fs first start remaining d bps size =
      let chunk = min (bps - start % bps) remaining in
      if ltb start size && ltb 0 remaining
      then copy_sector (read d ((first + start / bps) % u32_mod)) (start % bps) chunk
          (read_sectors disk fuel fs first ((start + chunk) % u32_mod) (remaining - chunk) d)
      else passed [] remaining

  read_sectors-sector_step :
      (fuel : ℕ) (fs : Fs) (first start remaining : ℕ) (d : State)
      → fs.bytes_per_sector ≡ 512
      → fs.sectors_per_cluster ≤ 128
      → read_sectors disk (suc fuel) fs first start remaining d
        ≡ sector_step fuel fs first start remaining d 512 (512 * fs.sectors_per_cluster)
  unfolding read_sectors sector_step cluster_size
  read_sectors-sector_step fuel fs first start remaining d bytes few =
      ap
        (λ (bps : ℕ).
          sector_step fuel fs first start remaining d bps (bps * fs.sectors_per_cluster % u32_mod))
        bytes
      ∙ ap (sector_step fuel fs first start remaining d 512) (omega (arith, few))

  -- The bytes from `start` on that lie in the cluster, as far as they are asked for.
  pub read_sectors_lem :
      (fuel : ℕ) (fs : Fs) (first start remaining : ℕ) (d : State)
      → fs.bytes_per_sector ≡ 512
      → fs.sectors_per_cluster ≤ 128
      → first + fs.sectors_per_cluster < u32_mod
      → start ≤ 512 * fs.sectors_per_cluster
      → 1 ≤ fuel
      → (0 < remaining → fs.sectors_per_cluster < start / 512 + fuel)
      → (n : ℕ) → n ≡ min (512 * fs.sectors_per_cluster - start) remaining
      → read_sectors disk fuel fs first start remaining d
        ≡ passed (span (cluster_byte disk d first) start n) (remaining - n)
  unfolding sector_step
  read_sectors_lem zero fs first start remaining d bytes few end le some_fuel more n is_n =
      absurd (omega (arith, some_fuel))
  read_sectors_lem (suc fuel) fs first start remaining d bytes few end le some_fuel more n is_n =
      let chunk = min (512 - start % 512) remaining in
      let rest_n = min (512 * fs.sectors_per_cluster - (start + chunk)) (remaining - chunk) in
      let room : (ltb start (512 * fs.sectors_per_cluster) && ltb 0 remaining) ≡ true
          → (start < 512 * fs.sectors_per_cluster) × (0 < remaining) =
        λ goes. ground (arith, goes) in
      read_sectors-sector_step fuel fs first start remaining d bytes few
      ∙ elim (Bool-cases (ltb start (512 * fs.sectors_per_cluster) && ltb 0 remaining)) [
        | inl goes ↦
            if_true _ _ goes
            ∙ ap
                (λ (s : ℕ). copy_sector (read d s) (start % 512) chunk (
                  read_sectors disk fuel fs first ((start + chunk) % u32_mod) (remaining - chunk)
                    d))
                (omega (arith, end, room goes))
            ∙ copy_sector-span d first start chunk _ (omega arith)
            ∙ ap (part_after (span (cluster_byte disk d first) start chunk)) (
                ap (λ (s : ℕ). read_sectors disk fuel fs first s (remaining - chunk) d)
                  (omega (arith, few, le))
                ∙ read_sectors_lem fuel fs first (start + chunk) (remaining - chunk) d bytes few end
                    (omega (arith, room goes)) (omega (arith, more, room goes, le))
                    (λ left. omega (arith, more, room goes, le, left)) rest_n refl)
            ∙ ap
                (λ (k : ℕ).
                  passed
                    (span (cluster_byte disk d first) start chunk
                      ++ span (cluster_byte disk d first) (start + chunk) rest_n)
                    k)
                (omega (arith, is_n, room goes))
            ∙ ap (λ (bs : List ℕ). passed bs (remaining - n))
                (sym (
                  span_split (cluster_byte disk d first) start n chunk rest_n
                    (omega (arith, is_n, room goes))))
        | inr ends ↦
            let none_left : n ≡ 0 = ground (arith, ends, is_n) in
            if_false _ _ ends
            ∙ ap (passed []) (omega (arith, none_left))
            ∙ ap (λ (k : ℕ). passed (span (cluster_byte disk d first) start k) (remaining - n))
                (sym none_left)
      ]
