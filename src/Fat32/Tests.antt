-- ===== src/Fat32/Tests.antt =====
-- A volume in memory with two chains, and the theorems of kernel/fs/fat32.c at it.
use lumin.Prelude.{
  ℕ, Bool, true, false, ◌+◌, ◌%◌, ◌<◌, ◌≡◌, refl, some, arith, ◌==◌, if◌then◌else◌, [], ◌∷◌,
}
use lumin.Fat32.{
  Disk, Sector, Fs, fat32_eoc, wr32, fat_sector, byte_off, fat_next_cluster, fat_alloc_cluster,
  fat_free_chain, fat_chain_last, last_loop, fat_extend_chain,
}
use lumin.Fat32.Links.{Works, IsFs}
use lumin.Fat32.Alloc.{Allocates, fat_alloc_cluster_lem}
use lumin.Fat32.Chains.{Holds, Frees, fat_free_chain_lem}
use lumin.Fat32.Extend.{Extension, fat_extend_chain_lem}
use lumin.Fat32.Volume.{
  IsVolume, is_pow2, total_sectors, fat_end, mounted, refuse_if, mount_from, fat32_mount,
  fat32_mount-IsVolume, first_sector,
}
use lumin.Fat32.FsInfo.{fsi_sector, fat_write_fsinfo, fat32_read_fsinfo, fat32_read_fsinfo-write}
use lumin.Fat32.Files.{gives, fat32_read_file}
use lumin.Fat32.Names.{
  checksum_loop, fat_checksum, lfn_to_ascii, lower_case, field_chars, parse_short_name,
}
use lumin.Fat32.LongNames.{LfnPart, Scan, collect_lfn}
use lumin.Fat32.Files.Reading.{fat32_read_file_lem}

some_if : (q : Bool) (a b : Sector) → some (if q then a else b) ≡ (if q then some a else some b)
some_if true a b = refl
some_if false a b = refl

-- A disk in memory.
abbrev pub memory : Disk
memory = record {
  State = ℕ → Sector;
  read = λ d s. some (d s);
  write = λ d s b. some (λ t. if t == s then b else d t);
}

pub memory_works : Works memory
memory_works = record {
  reads = λ d s. (d s, refl);
  writes = λ d s b. ((λ t. if t == s then b else d t), refl, λ t. some_if (t == s) b (d t));
}

abbrev pub volume : Fs
volume = record {
  bytes_per_sector = 512;
  sectors_per_cluster = 1;
  fs_info_sector = 1;
  fat_start = 32;
  data_start = 33;
  sectors_per_fat = 1;
  total_clusters = 4;
  root_cluster = 2;
}

pub volume-IsFs : IsFs volume
volume-IsFs = record {
  sector_size = refl;
  start = omega arith;
  clusters = omega arith;
  table = omega arith;
}

-- The clusters 2 and 3 are a chain, and the others are free.
abbrev pub table : Sector
table = wr32 (wr32 (λ p. 0) 8 3) 12 fat32_eoc

abbrev content : ℕ → Sector
content s = if s == 32 then table else (if s == 33 then (λ p. p % 256) else (λ p. (p + 7) % 256))

content_chain : Holds memory memory_works volume-IsFs content 2 (2 ∷ 3 ∷ [])
unfolding fat_next_cluster fat_sector byte_off
content_chain = (refl, refl, (refl, refl, omega arith))

fat_alloc_cluster_lem_example :
    Allocates memory memory_works volume-IsFs content 0 (fat_alloc_cluster memory volume content)
fat_alloc_cluster_lem_example = fat_alloc_cluster_lem memory memory_works volume-IsFs content

fat_free_chain_lem_example :
    (d' : ℕ → Sector) × (fat_free_chain memory 3 volume 2 content ≡ some d')
    × Frees memory memory_works volume-IsFs (2 ∷ 3 ∷ []) content d'
fat_free_chain_lem_example =
    fat_free_chain_lem memory memory_works volume-IsFs (2 ∷ 3 ∷ []) 3 2 content content_chain
      (omega arith)

fat_extend_chain_lem_example :
    Extension memory memory_works volume-IsFs content 2 2
      (3 ∷ [])
      (fat_extend_chain memory 2 volume 2 content)
fat_extend_chain_lem_example =
    fat_extend_chain_lem memory memory_works volume-IsFs 2 2 2 (3 ∷ []) content content_chain
      (omega arith)

-- The table has the entries 3 and `FAT32_EOC`: 4 is the lowest free cluster, and 3 the last of the chain.
alloc_run : (fat_alloc_cluster memory volume content).0 ≡ 4
unfolding fat_alloc_cluster
alloc_run = refl

last_run : fat_chain_last memory 2 volume 2 content ≡ some 3
unfolding fat_chain_last last_loop fat_next_cluster fat_sector byte_off
last_run = refl

-- The boot sector of a volume of 37 sectors.
abbrev boot : Sector
boot p =
    if p == 510
    then 0x55
    else if p == 511
    then 0xAA
    else if p == 36
    then 1
    else if p == 12
    then 2
    else if p == 13
    then 1
    else if p == 14
    then 32
    else if p == 16
    then 1
    else (if p == 44 then 2 else (if p == 48 then 1 else (if p == 19 then 37 else 0)))

abbrev booted : ℕ → Sector
booted s = if s == 0 then boot else content s

booted_fs : fat32_mount memory booted ≡ some volume
unfolding fat32_mount mount_from refuse_if is_pow2 total_sectors fat_end mounted
booted_fs = refl

boot_bytes : (p : ℕ) → boot p < 256
boot_bytes p = ground arith

pub volume-IsVolume : IsVolume volume 37
volume-IsVolume = record {
  sector_size = refl;
  some_sectors = omega arith;
  few_sectors = omega arith;
  reserved = omega arith;
  start = omega arith;
  root = omega arith;
  area = omega arith;
  small = omega arith;
}

fat32_mount-IsVolume_example : IsVolume volume (total_sectors boot)
fat32_mount-IsVolume_example =
    fat32_mount-IsVolume memory booted boot volume refl boot_bytes booted_fs

-- A count of free clusters with its signatures.
abbrev info : Sector
info = wr32 (wr32 (wr32 (wr32 (λ p. 0) 0 0x41615252) 484 0x61417272) 488 2) 492 4

abbrev informed : ℕ → Sector
informed s = if s == 1 then info else content s

informed_counts : fat32_read_fsinfo memory volume informed ≡ some (2, 4)
unfolding fat32_read_fsinfo fsi_sector
informed_counts = refl

fat32_read_fsinfo-write_example :
    (d' : ℕ → Sector) × (fat_write_fsinfo memory volume 1 0xFFFFFFFF informed ≡ some d')
    × (fat32_read_fsinfo memory volume d' ≡ some (1, 4))
fat32_read_fsinfo-write_example =
    fat32_read_fsinfo-write memory memory_works volume 1 0xFFFFFFFF 2 4 informed (omega arith)
      (omega arith) informed_counts

fat32_read_file_lem_example :
    fat32_read_file memory 3 volume 2 600 510 4 content ≡ gives (510 % 256 ∷ 511 % 256 ∷ 7 ∷ 8 ∷ [])
unfolding first_sector
fat32_read_file_lem_example =
    fat32_read_file_lem memory memory_works volume-IsVolume 3 2 600 510 4 (2 ∷ 3 ∷ []) content
      content_chain (omega arith, (omega arith, tt)) (omega arith) (omega arith) (omega arith)
      (omega arith)

-- README.MD, padded.
readme_run :
    parse_short_name (82 ∷ 69 ∷ 65 ∷ 68 ∷ 77 ∷ 69 ∷ 32 ∷ 32 ∷ 77 ∷ 68 ∷ 32 ∷ []) 12
    ≡ 114 ∷ 101 ∷ 97 ∷ 100 ∷ 109 ∷ 101 ∷ 46 ∷ 109 ∷ 100 ∷ []
unfolding parse_short_name field_chars lower_case
readme_run = refl

checksum_run : fat_checksum (82 ∷ 69 ∷ 65 ∷ 68 ∷ 77 ∷ 69 ∷ 32 ∷ 32 ∷ 77 ∷ 68 ∷ 32 ∷ []) ≡ 243
unfolding fat_checksum checksum_loop
checksum_run = refl

-- A name in two parts.
abbrev two_parts : ℕ → LfnPart
two_parts k = record { seq = if k == 2 then 66 else k; checksum = 243; name = 97 ∷ 98 ∷ [] }

abbrev no_parts : Scan
no_parts = record { lfn_buf = λ i. two_parts 0; lfn_count = 0; lfn_seq = 0; lfn_checksum = 0 }

collect_run : collect_lfn 2 0 two_parts 255 ≡ 97 ∷ 98 ∷ 97 ∷ 98 ∷ []
unfolding collect_lfn lfn_to_ascii
collect_run = refl
