-- ===== src/Fat32.antt =====
-- The file allocation table of kernel/fs/fat32.c: a linked list of clusters for each file.
-- A disk is what `block_read` and `block_write` do to one sector of 512 bytes, `none` for an error;
-- the `|` of bytes shifted apart is their sum. `uint32_t` wraps at 2 ^ 32.
pub mod Bytes
pub mod Links
pub mod Alloc
pub mod Chains
pub mod Extend
pub mod Volume
pub mod FsInfo
pub mod Files
pub mod Names
pub mod Dirs
pub mod Writing
pub mod Truncating
pub mod LongNames
pub mod BuildNames
pub mod Tests
use lumin.Prelude.{
  ℕ, zero, suc, ◌+◌, ◌-◌, ◌*◌, ◌/◌, ◌%◌, ◌^◌, Bool, ◌&&◌, Option, none, some, ltb, leb, ◌==◌,
  if◌then◌else◌, update,
}

abbrev pub Sector : Type 0
Sector = ℕ → ℕ

-- The block device that a file system is mounted from.
pub record Disk : Type 1 where
  pub State : Type 0
  pub read : State → ℕ → Option Sector
  pub write : State → ℕ → Sector → Option State

abbrev pub u32_mod : ℕ
u32_mod = 2 ^ 32

abbrev pub fat32_eoc : ℕ
fat32_eoc = 0x0FFFFFF8

-- FAT_MASK + 1: `x & FAT_MASK` is `x % fat_mod`.
abbrev pub fat_mod : ℕ
fat_mod = 0x10000000

-- `struct fat32_fs`, with the fields of the BPB that are used once it is mounted.
pub record Fs : Type 0 where
  pub bytes_per_sector : ℕ
  pub sectors_per_cluster : ℕ
  pub fs_info_sector : ℕ
  pub fat_start : ℕ
  pub data_start : ℕ
  pub sectors_per_fat : ℕ
  pub total_clusters : ℕ
  pub root_cluster : ℕ

abbrev pub rd32 : Sector → ℕ → ℕ
rd32 b p = b p + b (p + 1) * 2 ^ 8 + b (p + 2) * 2 ^ 16 + b (p + 3) * 2 ^ 24

abbrev pub wr32 : Sector → ℕ → ℕ → Sector
wr32 b p v =
    update
      (update (update (update b p (v % 256)) (p + 1) (v / 2 ^ 8 % 256)) (p + 2) (v / 2 ^ 16 % 256))
      (p + 3) (v / 2 ^ 24 % 256)

-- `fat_sector` and `byte_off`.
pub fat_sector : Fs → ℕ → ℕ
fat_sector fs cluster = (fs.fat_start + cluster * 4 % u32_mod / fs.bytes_per_sector) % u32_mod

pub byte_off : Fs → ℕ → ℕ
byte_off fs cluster = cluster * 4 % u32_mod % fs.bytes_per_sector

-- `cluster >= 2 && cluster < FAT32_EOC`.
abbrev pub is_link : ℕ → Bool
is_link cluster = leb 2 cluster && ltb cluster fat32_eoc

-- How the search in one sector of the table ends: on to the next one, no cluster, or this one.
pub data Search (S : Type 0) : Type 0 where
  go_on : Search S
  fails : Search S
  finds : ℕ → S → Search S

-- The entry at a byte of the sector that was read.
abbrev pub fat_entry : ℕ → Option Sector → ℕ
fat_entry byte_off none = fat32_eoc
fat_entry byte_off (some b) = rd32 b byte_off % fat_mod

-- `(old & ~FAT_MASK) | (value & FAT_MASK)`.
abbrev pub masked : ℕ → ℕ → ℕ
masked old value = old / fat_mod * fat_mod + value % fat_mod

module _ (disk : Disk) where
  open disk use {State, read, write}

  pub fat_next_cluster : Fs → ℕ → State → ℕ
  fat_next_cluster fs cluster d = fat_entry (byte_off fs cluster) (read d (fat_sector fs cluster))

  -- The entry at a byte of the sector that was read gets a new value; `none` is the result -1.
  abbrev pub put_at : ℕ → ℕ → ℕ → State → Option Sector → Option State
  put_at sector byte_off value d none = none
  put_at sector byte_off value d (some b) =
      write d sector (wr32 b byte_off (masked (rd32 b byte_off) value))

  pub fat_set_cluster : Fs → ℕ → ℕ → State → Option State
  fat_set_cluster fs cluster value d =
      put_at (fat_sector fs cluster) (byte_off fs cluster) value d (read d (fat_sector fs cluster))

  -- A free cluster, once its sector has been written.
  abbrev pub found_at : ℕ → Option State → Search State
  found_at cluster none = fails
  found_at cluster (some d') = finds cluster d'

  -- The entries `i`, …, `i + left - 1` of the sector `s` of the table, whose content is `b`.
  pub search_sector : Fs → ℕ → ℕ → ℕ → Sector → State → Search State
  search_sector fs zero i s b d = go_on
  search_sector fs (suc left) i s b d =
      let rest = search_sector fs left (i + 1) s b d in
      let cluster = (s * (fs.bytes_per_sector / 4) + i) % u32_mod in
      if ltb cluster 2
      then rest
      else if leb ((fs.total_clusters + 2) % u32_mod) cluster
      then fails
      else if rd32 b (4 * i) % fat_mod == 0
      then found_at cluster (write d ((fs.fat_start + s) % u32_mod) (wr32 b (4 * i) fat32_eoc))
      else rest

  -- What follows the search of a sector: with `go_on`, the rest of the table.
  abbrev pub searched : State → ℕ × State → Search State → ℕ × State
  searched d rest go_on = rest
  searched d rest fails = (fat32_eoc, d)
  searched d rest (finds cluster d') = (cluster, d')

  abbrev pub alloc_in : Fs → ℕ → State → ℕ × State → Option Sector → ℕ × State
  unfolding search_sector
  alloc_in fs s d rest none = (fat32_eoc, d)
  alloc_in fs s d rest (some b) =
      searched d rest (search_sector fs (fs.bytes_per_sector / 4) 0 s b d)

  -- The sectors `s`, …, `s + left - 1` of the table.
  pub alloc_loop : Fs → ℕ → ℕ → State → ℕ × State
  unfolding search_sector
  alloc_loop fs zero s d = (fat32_eoc, d)
  alloc_loop fs (suc left) s d =
      alloc_in fs s d (alloc_loop fs left (s + 1) d) (read d ((fs.fat_start + s) % u32_mod))

  pub fat_alloc_cluster : Fs → State → ℕ × State
  unfolding alloc_loop
  fat_alloc_cluster fs d = alloc_loop fs fs.sectors_per_fat 0 d

  -- The state after a call whose result is not looked at.
  abbrev pub or_else : Option State → State → State
  or_else none d = d
  or_else (some d') d = d'

  -- A loop along a chain takes fuel, and `none` means that it ran out.
  pub fat_free_chain : ℕ → Fs → ℕ → State → Option State
  fat_free_chain zero fs cluster d = none
  fat_free_chain (suc fuel) fs cluster d =
      let rest =
        fat_free_chain fuel fs (fat_next_cluster fs cluster d)
          (or_else (fat_set_cluster fs cluster 0 d) d) in
      if is_link cluster then rest else some d

  -- `while ((next = fat_next_cluster(fs, cluster)) >= 2 && next < FAT32_EOC) cluster = next;`
  pub last_loop : ℕ → Fs → ℕ → State → Option ℕ
  last_loop zero fs cluster d = none
  last_loop (suc fuel) fs cluster d =
      let rest = last_loop fuel fs (fat_next_cluster fs cluster d) d in
      if is_link (fat_next_cluster fs cluster d) then rest else some cluster

  pub fat_chain_last : ℕ → Fs → ℕ → State → Option ℕ
  unfolding last_loop
  fat_chain_last fuel fs cluster d = if is_link cluster then last_loop fuel fs cluster d else some 0

  -- The end of `fat_extend_chain`, with the last cluster and what the allocation gave.
  abbrev pub link_new : Fs → ℕ → ℕ × State → ℕ × State
  link_new fs last (new_cl, d) =
      if leb fat32_eoc new_cl
      then (fat32_eoc, d)
      else (if is_link last
          then (new_cl, or_else (fat_set_cluster fs last new_cl d) d)
          else (new_cl, d))

  abbrev pub extend_after : Fs → Option ℕ → ℕ × State → Option (ℕ × State)
  extend_after fs none allocated = none
  extend_after fs (some last) allocated = some (link_new fs last allocated)

  pub fat_extend_chain : ℕ → Fs → ℕ → State → Option (ℕ × State)
  fat_extend_chain fuel fs cluster d =
      extend_after fs (fat_chain_last fuel fs cluster d) (fat_alloc_cluster fs d)
