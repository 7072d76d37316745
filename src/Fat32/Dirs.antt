-- ===== src/Fat32/Dirs.antt =====
-- The scan of a directory of kernel/fs/fat32.c: `scan_sector`, `fat32_read_dir` and `fat32_lookup`.
-- A C string is the list of its characters. The loops on the sectors of a cluster and on the
-- clusters of a chain, which the functions share, take what is done to a sector as an argument.
pub mod Entries
pub mod Chained
pub mod Listing
pub mod Names
mod Tests
use lumin.Prelude.{
  ℕ, zero, suc, ◌+◌, ◌*◌, ◌/◌, ◌%◌, ◌^◌, Bool, true, false, ◌&&◌, ◌||◌, Option, none, some, List,
  [], ◌∷◌, arith, ltb, leb, ◌==◌, if◌then◌else◌,
}
use lumin.Fat32.{Disk, Sector, Fs, u32_mod, is_link, fat_next_cluster, rd32}
use lumin.Fat32.Volume.{first_sector}
use lumin.Fat32.Names.{fat_checksum, parse_short_name, strcmp_ci}
use lumin.Fat32.LongNames.{LfnPart, Scan, reset_lfn, add_lfn_entry, collect_lfn}

-- One of the 32-byte entries of a sector, with where it stands: `buf + i * 32`.
pub record Slot : Type 0 where
  pub sector : ℕ
  pub offset : ℕ
  pub bytes : Sector

-- The fields of `struct fat32_dent`.
abbrev chars : Sector → ℕ → ℕ → List ℕ
chars b p zero = []
chars b p (suc n) = b p ∷ chars b (p + 1) n

pub dent_name : Slot → List ℕ
dent_name s = chars s.bytes s.offset 11

abbrev pub first_byte : Slot → ℕ
first_byte s = s.bytes s.offset

abbrev pub dent_attr : Slot → ℕ
dent_attr s = s.bytes (s.offset + 11)

-- `((uint32_t)de->cluster_hi << 16) | de->cluster_lo`.
pub dent_cluster : Slot → ℕ
dent_cluster s =
    s.bytes (s.offset + 26)
    + s.bytes (s.offset + 27) * 2 ^ 8
    + s.bytes (s.offset + 20) * 2 ^ 16
    + s.bytes (s.offset + 21) * 2 ^ 24

pub dent_size : Slot → ℕ
dent_size s = rd32 s.bytes (s.offset + 28)

-- `de->attr & ATTR_DIRECTORY` and `de->attr & ATTR_VOLUME_ID`.
pub is_directory : Slot → Bool
is_directory s = dent_attr s / 16 % 2 == 1

abbrev pub is_volume_id : Slot → Bool
is_volume_id s = dent_attr s / 8 % 2 == 1

-- The same bytes as a part of a long name.
abbrev units : Sector → ℕ → ℕ → List ℕ → List ℕ
units b p zero rest = rest
units b p (suc n) rest = (b p + b (p + 1) * 2 ^ 8) ∷ units b (p + 2) n rest

pub as_part : Slot → LfnPart
as_part s =
    let b = s.bytes in
    let p = s.offset in
    record {
      seq = b p;
      checksum = b (p + 13);
      name = units b (p + 1) 5 (units b (p + 14) 6 (units b (p + 28) 2 []));
    }

-- The entries `i`, …, `i + left - 1` of a sector.
abbrev pub slots : ℕ → ℕ → ℕ → Sector → List Slot
slots zero i sector b = []
slots (suc left) i sector b =
    record { sector = sector; offset = i * 32; bytes = b } ∷ slots left (i + 1) sector b

-- `struct fat_scan_state` but for `found`, which is set only where the scan returns.
pub record DirScan : Type 0 where
  pub lfn : Scan
  pub visible_count : ℕ

abbrev pub forget : DirScan → DirScan
forget st = record st { lfn = reset_lfn st.lfn }

abbrev pub collect : Slot → DirScan → DirScan
collect s st = record st { lfn = (add_lfn_entry (as_part s) st.lfn).1 }

-- How a scan of some entries ends: on to the next ones, with the end of the directory or an error,
-- or with a result.
pub data Pass (A : Type 0) : Type 0 where
  more : DirScan → Pass A
  ends : Pass A
  gives : A → Pass A

abbrev pub scan_then : {A : Type 0} → Pass A → (DirScan → Pass A) → Pass A
scan_then (more st) rest = rest st
scan_then ends rest = ends
scan_then (gives a) rest = gives a

-- The result of a call: -1, or what it found. A loop along a chain takes fuel.
pub data Found (A : Type 0) : Type 0 where
  no_fuel : Found A
  missing : Found A
  found : A → Found A

abbrev pub found_or : {A : Type 0} → Pass A → (DirScan → Found A) → Found A
found_or (more st) rest = rest st
found_or ends rest = missing
found_or (gives a) rest = found a

-- `enum vfs_inode_type`, as far as a directory names it, and `struct vfs_dentry`.
pub data EntryType : Type 0 where
  file : EntryType
  dir : EntryType

pub record Dentry : Type 0 where
  pub name : List ℕ
  pub ino : ℕ
  pub type : EntryType
  pub size : ℕ

-- Whether the parts that were collected name the entry.
pub use_lfn : Slot → Scan → Bool
use_lfn s st =
    ltb 0 st.lfn_count && st.lfn_seq == 1 && fat_checksum (dent_name s) == st.lfn_checksum

-- VFS_NAME_MAX - 1
abbrev pub name_room : ℕ
name_room = 255

pub entry_name : Slot → Scan → List ℕ
entry_name s st =
    if use_lfn s st
    then collect_lfn st.lfn_count 0 st.lfn_buf name_room
    else parse_short_name (dent_name s) name_room

abbrev pub dentry_of : Slot → Scan → Dentry
dentry_of s st = record {
  name = entry_name s st;
  ino = dent_cluster s;
  type = if is_directory s then dir else file;
  size = dent_size s;
}

-- The loop of `scan_sector` on the entries of the buffer.
pub scan_slots : ℕ → List Slot → DirScan → Pass Dentry
scan_slots target [] st = more st
scan_slots target (s ∷ rest) st =
    if first_byte s == 0
    then ends
    else if first_byte s == 0xE5
    then scan_slots target rest (forget st)
    else if dent_attr s == 0x0F
    then scan_slots target rest (collect s st)
    else if is_volume_id s
    then scan_slots target rest (forget st)
    else if st.visible_count == target
    then gives (dentry_of s st.lfn)
    else scan_slots target rest
        (record { lfn = reset_lfn st.lfn; visible_count = (st.visible_count + 1) % u32_mod })

-- What `fat32_lookup` gives through its last five arguments.
pub record Place : Type 0 where
  pub out_cluster : ℕ
  pub out_size : ℕ
  pub out_dir : Bool
  pub out_sector : ℕ
  pub out_offset : ℕ

abbrev pub place_of : Slot → Place
place_of s = record {
  out_cluster = dent_cluster s;
  out_size = dent_size s;
  out_dir = is_directory s;
  out_sector = s.sector;
  out_offset = s.offset;
}

-- `match`: by the long name, and then by the short one in a buffer of 13 bytes.
pub matches : List ℕ → Slot → Scan → Bool
matches name s st =
    (use_lfn s st
      && leb st.lfn_seq st.lfn_count
      && strcmp_ci name (collect_lfn st.lfn_count 0 st.lfn_buf name_room))
    || strcmp_ci name (parse_short_name (dent_name s) 12)

-- The loop of `fat32_lookup` on the entries of the buffer.
pub lookup_slots : List ℕ → List Slot → DirScan → Pass Place
lookup_slots name [] st = more st
lookup_slots name (s ∷ rest) st =
    if first_byte s == 0
    then ends
    else if first_byte s == 0xE5
    then lookup_slots name rest (forget st)
    else if dent_attr s == 0x0F
    then lookup_slots name rest (collect s st)
    else if is_volume_id s
    then lookup_slots name rest (forget st)
    else if matches name s st.lfn
    then gives (place_of s)
    else lookup_slots name rest (forget st)

module _ {A : Type 0} where
  -- What is done to the sector that was read, with the result -1 if it was not.
  abbrev pub on_sector : (List Slot → DirScan → Pass A) → ℕ → Option Sector → DirScan → Pass A
  on_sector scan sector none st = ends
  on_sector scan sector (some b) st = scan (slots 16 0 sector b) st

  -- `for (uint32_t s = 0; s < sectors_per_cluster; s++)`.
  pub each_sector : (ℕ → DirScan → Pass A) → ℕ → ℕ → ℕ → DirScan → Pass A
  each_sector body zero first s st = more st
  each_sector body (suc left) first s st =
      scan_then (body ((first + s) % u32_mod) st) (each_sector body left first (s + 1))

  module _ (disk : Disk) where
    open disk use {State, read}

    -- `while (cl >= 2 && cl < FAT32_EOC)`.
    pub each_cluster : ℕ → Fs → (List Slot → DirScan → Pass A) → ℕ → State → DirScan → Found A
    each_cluster zero fs scan cl d st = no_fuel
    each_cluster (suc fuel) fs scan cl d st =
        if is_link cl
        then found_or
            (each_sector (λ sector. on_sector scan sector (read d sector)) fs.sectors_per_cluster
              (first_sector fs cl) 0 st)
            (each_cluster fuel fs scan (fat_next_cluster disk fs cl d) d)
        else missing

-- The scan state that a call begins with.
abbrev no_part : LfnPart
no_part = record { seq = 0; checksum = 0; name = [] }

abbrev pub scan_start : DirScan
scan_start = record {
  lfn = record { lfn_buf = λ i. no_part; lfn_count = 0; lfn_seq = 0; lfn_checksum = 0 };
  visible_count = 0;
}

module _ (disk : Disk) where
  open disk use {State}

  pub fat32_read_dir : ℕ → Fs → ℕ → ℕ → State → Found Dentry
  fat32_read_dir fuel fs cluster index d =
      each_cluster disk fuel fs (scan_slots index) cluster d scan_start

  -- A name that is null or empty is not looked for.
  pub fat32_lookup : ℕ → Fs → ℕ → List ℕ → State → Found Place
  fat32_lookup fuel fs cluster [] d = missing
  fat32_lookup fuel fs cluster (c ∷ cs) d =
      each_cluster disk fuel fs (lookup_slots (c ∷ cs)) cluster d scan_start
