-- ===== src/Fat32/Files.antt =====
-- The bytes of a file: `fat32_read_file` of kernel/fs/fat32.c. The buffer that is filled is the list
-- of the bytes that are written to it, in their order.
pub mod Spans
pub mod Sectors
pub mod Reading
use lumin.Prelude.{
  ◌≡◌, refl, ap, length, ℕ, zero, suc, ◌+◌, ◌-◌, ◌*◌, ◌/◌, ◌%◌, ◌^◌, Bool, ◌&&◌, Option, none, some,
  List, [], ◌∷◌, ◌++◌, min, ltb, leb, ◌==◌, if◌then◌else◌,
}
use lumin.Prelude.Int.{ℤ, minus_one, as_int}
use lumin.Fat32.{Disk, Sector, Fs, u32_mod, is_link, fat_next_cluster}
use lumin.Fat32.Volume.{first_sector}

-- `f a`, …, `f (a + n - 1)`.
abbrev pub span : (ℕ → ℕ) → ℕ → ℕ → List ℕ
span f a zero = []
span f a (suc n) = f a ∷ span f (a + 1) n

-- How the loop on the sectors of one cluster ends: a sector could not be read, or so many bytes
-- remain. A loop takes fuel, and `unfinished` says that it ran out.
pub data Part : Type 0 where
  unfinished : Part
  stopped : List ℕ → Part
  passed : List ℕ → ℕ → Part

abbrev pub part_after : List ℕ → Part → Part
part_after bytes unfinished = unfinished
part_after bytes (stopped more) = stopped (bytes ++ more)
part_after bytes (passed more remaining) = passed (bytes ++ more) remaining

-- The result of the call: -1, or the bytes that were read, whose number it returns as an `int`.
pub data ReadResult : Type 0 where
  no_fuel : ReadResult
  fails : ReadResult
  gives : List ℕ → ReadResult

-- The `int` that the call returns.
abbrev pub read_code : ReadResult → Option ℤ
read_code no_fuel = none
read_code fails = some minus_one
read_code (gives bytes) = some (as_int (length bytes))

pub length-span : (f : ℕ → ℕ) (a n : ℕ) → length (span f a n) ≡ n
length-span f a zero = refl
length-span f a (suc n) = ap (λ (k : ℕ). suc k) (length-span f (a + 1) n)

abbrev pub gives_after : List ℕ → ReadResult → ReadResult
gives_after bytes no_fuel = no_fuel
gives_after bytes fails = fails
gives_after bytes (gives more) = gives (bytes ++ more)

-- What follows the loop on a cluster's sectors.
abbrev pub after_part : Part → (ℕ → ReadResult) → ReadResult
after_part unfinished rest = no_fuel
after_part (stopped bytes) rest = gives bytes
after_part (passed bytes remaining) rest = gives_after bytes (rest remaining)

unfoldable pub cluster_size : Fs → ℕ
cluster_size fs = fs.bytes_per_sector * fs.sectors_per_cluster % u32_mod

-- The bytes that are copied from a sector before the rest of the loop.
abbrev pub copy_sector : Option Sector → ℕ → ℕ → Part → Part
copy_sector none byte_in_sector chunk rest = stopped []
copy_sector (some b) byte_in_sector chunk rest = part_after (span b byte_in_sector chunk) rest

module _ (disk : Disk) where
  open disk use {State, read}

  -- `while (start_byte_in_cluster < cluster_size && remaining > 0)`.
  pub read_sectors : ℕ → Fs → ℕ → ℕ → ℕ → State → Part
  read_sectors zero fs first start remaining d = unfinished
  read_sectors (suc fuel) fs first start remaining d =
      let chunk = min (fs.bytes_per_sector - start % fs.bytes_per_sector) remaining in
      let rest = read_sectors fuel fs first ((start + chunk) % u32_mod) (remaining - chunk) d in
      if ltb start (cluster_size fs) && ltb 0 remaining
      then copy_sector (read d ((first + start / fs.bytes_per_sector) % u32_mod))
          (start % fs.bytes_per_sector) chunk rest
      else passed [] remaining

  -- `while (cl >= 2 && cl < FAT32_EOC && remaining > 0)`; the inner loop takes at most one step for
  -- each sector of the cluster.
  pub read_clusters : ℕ → Fs → ℕ → ℕ → ℕ → State → ReadResult
  read_clusters zero fs cl start remaining d = no_fuel
  read_clusters (suc fuel) fs cl start remaining d =
      let rest : ℕ → ReadResult =
        λ left. read_clusters fuel fs (fat_next_cluster disk fs cl d) 0 left d in
      if is_link cl && ltb 0 remaining
      then after_part
          (read_sectors (fs.sectors_per_cluster + 1) fs (first_sector fs cl) start remaining d) rest
      else gives []

  -- `for (uint32_t i = 0; i < start_cluster_idx; i++)`; `none` is the result -1.
  pub skip_clusters : ℕ → Fs → ℕ → State → Option ℕ
  skip_clusters zero fs cl d = some cl
  skip_clusters (suc n) fs cl d =
      let next = fat_next_cluster disk fs cl d in
      let rest = skip_clusters n fs next d in if is_link next then rest else none

  abbrev pub read_from : ℕ → Fs → Option ℕ → ℕ → ℕ → State → ReadResult
  read_from fuel fs none start remaining d = fails
  read_from fuel fs (some cl) start remaining d = read_clusters fuel fs cl start remaining d

  pub fat32_read_file : ℕ → Fs → ℕ → ℕ → ℕ → ℕ → State → ReadResult
  fat32_read_file fuel fs cluster size offset count d =
      if count == 0
      then gives []
      else if leb size offset
      then gives []
      else read_from fuel fs (skip_clusters (offset / cluster_size fs % u32_mod) fs cluster d)
          (offset % cluster_size fs)
          (if ltb size ((offset + count) % 2 ^ 64) then size - offset else count) d
