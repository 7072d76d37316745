-- ===== src/Fat32/Writing.antt =====
-- `fat32_write_file` of kernel/fs/fat32.c. The caller's buffer is the function of its bytes.
pub mod Device
pub mod Sectors
pub mod Clusters
pub mod Contents
pub mod Runs
pub mod Overwriting
pub mod Longer
pub mod Growing
mod Tests
use lumin.Prelude.{
  ℕ, zero, suc, ◌+◌, ◌-◌, ◌*◌, ◌/◌, ◌%◌, ◌^◌, Bool, not, ◌&&◌, ◌||◌, Option, none, some, min, ltb,
  leb, ◌==◌, if◌then◌else◌,
}
use lumin.Prelude.Int.{ℤ, pos, as_int}
use lumin.Fat32.{
  Disk, Sector, Fs, u32_mod, fat32_eoc, is_link, fat_next_cluster, fat_alloc_cluster,
  fat_extend_chain,
}
use lumin.Fat32.Volume.{first_sector}
use lumin.Fat32.Files.{cluster_size}

-- `tmp[byte_in + i] = buf[done + i]` for `i` below `chunk`.
unfoldable pub patch : Sector → ℕ → ℕ → (ℕ → ℕ) → ℕ → Sector
patch b byte_in chunk buf done p =
    if leb byte_in p && ltb p (byte_in + chunk) then buf (done + (p - byte_in)) else b p

-- The bytes from `done` on as a sector.
abbrev pub buffer_sector : (ℕ → ℕ) → ℕ → Sector
buffer_sector buf done p = buf (done + p)

-- How the loop on the sectors of one cluster ends: a transfer failed, or it got to its end; with
-- the counts of bytes that are done and that remain. A loop takes fuel.
pub data Wrote (S : Type 0) : Type 0 where
  unfinished : Wrote S
  stopped : ℕ → S → Wrote S
  passed : ℕ → ℕ → S → Wrote S

-- What a call gives: `fails` is the -1 of its own tests, and both others have `*cluster`, `*size` and the
-- disk; `writes` has the count that `return (int)done` gives, which is negative from 2 ^ 31 bytes on.
pub data WriteResult (S : Type 0) : Type 0 where
  no_fuel : WriteResult S
  fails : ℕ → ℕ → S → WriteResult S
  writes : ℤ → ℕ → ℕ → S → WriteResult S

-- The file after it has has_grown: its first cluster and its size, or -1.
pub data Growth (S : Type 0) : Type 0 where
  starved : Growth S
  full : ℕ → S → Growth S
  has_grown : ℕ → S → Growth S

abbrev suc_of : Option ℕ → Option ℕ
suc_of none = none
suc_of (some n) = some (suc n)

module _ (disk : Disk) where
  open disk use {State, read, write}

  -- What follows a `block_write`.
  abbrev pub after_block_write : ℕ → State → Option State → (State → Wrote State) → Wrote State
  after_block_write done d none rest = stopped done d
  after_block_write done d (some d') rest = rest d'

  -- A part of a sector is written over what was read of it.
  abbrev pub merge_sector :
      ℕ → ℕ → ℕ → ℕ → (ℕ → ℕ) → State → Option Sector → (State → Wrote State) → Wrote State
  merge_sector sector byte_in chunk done buf d none rest = stopped done d
  merge_sector sector byte_in chunk done buf d (some b) rest =
      after_block_write done d (write d sector (patch b byte_in chunk buf done)) rest

  -- `while (start_byte < cluster_size && remaining > 0)`. Of whole sectors, `cnt` is 1 at each step.
  pub write_sectors : ℕ → Fs → ℕ → ℕ → ℕ → ℕ → (ℕ → ℕ) → State → Wrote State
  write_sectors zero fs first start remaining done buf d = unfinished
  write_sectors (suc fuel) fs first start remaining done buf d =
      let bps = fs.bytes_per_sector in
      let byte_in = start % bps in
      let sector = (first + start / bps) % u32_mod in
      let rest : ℕ → State → Wrote State =
        λ n. write_sectors fuel fs first ((start + n) % u32_mod) (remaining - n) (done + n) buf in
      let chunk = min (bps - byte_in) remaining in
      if ltb start (cluster_size fs) && ltb 0 remaining
      then (if not (byte_in == 0) || ltb remaining bps && byte_in == 0
          then merge_sector sector byte_in chunk done buf d (read d sector) (rest chunk)
          else after_block_write done d (write d sector (buffer_sector buf done))
              (rest (min bps remaining)))
      else passed done remaining d

  abbrev pub wrote_cluster :
      ℕ → ℕ → Wrote State → (ℕ → ℕ → State → WriteResult State) → WriteResult State
  wrote_cluster cluster size unfinished rest = no_fuel
  wrote_cluster cluster size (stopped done d) rest = writes (as_int done) cluster size d
  wrote_cluster cluster size (passed done remaining d) rest = rest done remaining d

  -- `while (cl >= 2 && cl < FAT32_EOC && remaining > 0)`, of a file at `cluster` with `size` bytes.
  pub write_clusters : ℕ → Fs → ℕ → ℕ → ℕ → ℕ → ℕ → ℕ → (ℕ → ℕ) → State → WriteResult State
  write_clusters zero fs cluster size cl start remaining done buf d = no_fuel
  write_clusters (suc fuel) fs cluster size cl start remaining done buf d =
      if is_link cl && ltb 0 remaining
      then wrote_cluster cluster size
          (write_sectors (fs.sectors_per_cluster + 1) fs (first_sector fs cl) start remaining done
            buf d)
          (λ done' remaining' d'.
            write_clusters fuel fs cluster size (fat_next_cluster disk fs cl d') 0 remaining' done'
              buf d')
      else writes (as_int done) cluster size d

  -- `for (uint32_t i = 0; i < start_cluster_idx; i++)`; `none` is the result -1.
  pub seek_cluster : ℕ → Fs → ℕ → State → Option ℕ
  seek_cluster zero fs cl d = some cl
  seek_cluster (suc n) fs cl d =
      let rest = seek_cluster n fs (fat_next_cluster disk fs cl d) d in
      if is_link cl then rest else none

  -- `cur_count`, from the first cluster on.
  pub chain_count : ℕ → Fs → ℕ → State → Option ℕ
  chain_count zero fs cur d = none
  chain_count (suc fuel) fs cur d =
      let rest = chain_count fuel fs (fat_next_cluster disk fs cur d) d in
      if is_link cur then suc_of rest else some 0

  abbrev pub allocated : ℕ × State → (ℕ → State → Growth State) → Growth State
  allocated (new_cl, d) rest = if leb fat32_eoc new_cl then full new_cl d else rest new_cl d

  abbrev pub chain_extended : ℕ → Option (ℕ × State) → (State → Growth State) → Growth State
  chain_extended cluster none rest = starved
  chain_extended cluster (some (new_cl, d)) rest =
      if leb fat32_eoc new_cl then full cluster d else rest d

  -- `while (cur_count < needed_clusters)`, in as many steps as clusters are missing.
  pub grow : ℕ → ℕ → Fs → ℕ → State → Growth State
  grow fuel zero fs cluster d = has_grown cluster d
  grow fuel (suc left) fs cluster d =
      if cluster == 0 || leb fat32_eoc cluster
      then allocated (fat_alloc_cluster disk fs d) (grow fuel left fs)
      else chain_extended cluster (fat_extend_chain disk fuel fs cluster d)
          (grow fuel left fs cluster)

  abbrev pub grow_from : ℕ → Fs → ℕ → ℕ → State → Option ℕ → Growth State
  grow_from fuel fs cluster needed d none = starved
  grow_from fuel fs cluster needed d (some cur_count) = grow fuel (needed - cur_count) fs cluster d

  abbrev pub write_from : ℕ → Fs → ℕ → ℕ → Option ℕ → ℕ → ℕ → (ℕ → ℕ) → State → WriteResult State
  write_from fuel fs cluster size none start count buf d = fails cluster size d
  write_from fuel fs cluster size (some cl) start count buf d =
      write_clusters fuel fs cluster size cl start count 0 buf d

  -- What follows the growth, with the size that the file has then.
  pub write_at : ℕ → Fs → ℕ → ℕ → ℕ → ℕ → (ℕ → ℕ) → State → WriteResult State
  write_at fuel fs cluster size offset count buf d =
      write_from fuel fs cluster size
        (seek_cluster (offset / cluster_size fs % u32_mod) fs cluster d) (offset % cluster_size fs)
        count buf d

  abbrev pub after_growth : ℕ → Growth State → (ℕ → State → WriteResult State) → WriteResult State
  after_growth size starved rest = no_fuel
  after_growth size (full cluster d) rest = fails cluster size d
  after_growth size (has_grown cluster d) rest = rest cluster d

  pub fat32_write_file : ℕ → Fs → ℕ → ℕ → ℕ → ℕ → (ℕ → ℕ) → State → WriteResult State
  fat32_write_file fuel fs cluster size offset count buf d =
      let end = (offset + count) % 2 ^ 64 in
      let needed = (end + cluster_size fs - 1) % 2 ^ 64 / cluster_size fs in
      if count == 0
      then writes (pos 0) cluster size d
      else if ltb size end
      then after_growth size (grow_from fuel fs cluster needed d (chain_count fuel fs cluster d))
          (λ cluster' d'. write_at fuel fs cluster' (end % u32_mod) offset count buf d')
      else write_at fuel fs cluster size offset count buf d
