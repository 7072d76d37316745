-- ===== src/Fat32/Dirs/Tests.antt =====
-- A directory in memory, and the theorems on the scan of directories of kernel/fs/fat32.c at it.
use lumin.Prelude.{
  ℕ, zero, suc, All, ◌≤◌, ◌≡◌, refl, arith, ◌==◌, if◌then◌else◌, List, [], ◌∷◌, ◌++◌, replicate,
  get_or, false,
}
use lumin.Fat32.{Sector, fat_sector, byte_off, fat_next_cluster}
use lumin.Fat32.Chains.{Chain}
use lumin.Fat32.Volume.{first_sector}
use lumin.Fat32.Names.{lower_case, field_chars, parse_short_name, strcmp_ci, IsPrintable}
use lumin.Fat32.LongNames.{reset_lfn}
use lumin.Fat32.BuildNames.{entries_needed, by_seq, collected, collect_lfn-build_lfn_entries}
use lumin.Fat32.LongNames.{add_down}
use lumin.Fat32.Dirs.{
  scan_start, dent_name, dent_cluster, dent_size, is_directory, use_lfn, entry_name, matches,
  Dentry, file, Place, found, fat32_read_dir, fat32_lookup,
}
use lumin.Fat32.Dirs.Listing.{fat32_read_dir-listed, fat32_lookup-first_match}
use lumin.Fat32.Dirs.Names.{fat32_lookup-fat32_read_dir}
use lumin.Fat32.Tests.{memory, volume, table}

-- A deleted entry and the file A.TXT with 7 bytes in the cluster 4.
abbrev root_bytes : List ℕ
root_bytes =
    (229 ∷ replicate 31 0)
    ++ (65 ∷ replicate 7 32)
    ++ (84 ∷ 88 ∷ 84 ∷ 32 ∷ replicate 14 0)
    ++ (4 ∷ 0 ∷ 7 ∷ [])

abbrev root : ℕ → Sector
root s = if s == 32 then table else (if s == 33 then (λ p. get_or root_bytes p 0) else (λ p. 0))

root-Chain : Chain (λ e. fat_next_cluster memory volume e root) 2 (2 ∷ 3 ∷ [])
unfolding fat_next_cluster fat_sector byte_off
root-Chain = (refl, refl, (refl, refl, omega arith))

abbrev a_txt : List ℕ
a_txt = 97 ∷ 46 ∷ 116 ∷ 120 ∷ 116 ∷ []

abbrev a_dentry : Dentry
a_dentry = record { name = a_txt; ino = 4; type = file; size = 7 }

fat32_read_dir-listed_example : fat32_read_dir memory 3 volume 2 0 root ≡ found a_dentry
unfolding first_sector dent_name dent_cluster dent_size is_directory use_lfn entry_name
    parse_short_name field_chars lower_case reset_lfn
fat32_read_dir-listed_example =
    fat32_read_dir-listed memory volume 2 (2 ∷ 3 ∷ []) root 3 0 root-Chain (omega arith)
      (omega arith)

fat32_lookup-first_match_example :
    fat32_lookup memory 3 volume 2 (65 ∷ 46 ∷ 84 ∷ 88 ∷ 116 ∷ []) root
    ≡ found (record {
      out_cluster = 4;
      out_size = 7;
      out_dir = false;
      out_sector = 33;
      out_offset = 32;
    })
unfolding first_sector dent_name dent_cluster dent_size is_directory use_lfn matches
    parse_short_name field_chars lower_case reset_lfn strcmp_ci
fat32_lookup-first_match_example =
    fat32_lookup-first_match memory volume 2 (2 ∷ 3 ∷ []) root 3 (65 ∷ 46 ∷ 84 ∷ 88 ∷ 116 ∷ [])
      root-Chain (omega arith) (λ e. ground (arith, e))

fat32_lookup-fat32_read_dir_example :
    (j : ℕ) × (de' : Dentry) × (p : Place) × (j ≤ 0)
    × (fat32_read_dir memory 3 volume 2 j root ≡ found de')
    × (fat32_lookup memory 3 volume 2 a_txt root ≡ found p)
    × (p.out_cluster ≡ de'.ino)
    × (p.out_size ≡ de'.size)
fat32_lookup-fat32_read_dir_example =
    fat32_lookup-fat32_read_dir memory volume 2 3 0 (2 ∷ 3 ∷ []) root a_dentry root-Chain
      (omega arith) (omega arith) fat32_read_dir-listed_example (λ e. ground (arith, e))

-- 14 characters: the last one comes first.
abbrev long_text : List ℕ
long_text = replicate 13 97 ++ (98 ∷ [])

long_text-IsPrintable : All IsPrintable long_text
long_text-IsPrintable = replicate-IsPrintable 13
  where
    replicate-IsPrintable : (n : ℕ) → All IsPrintable (replicate n 97 ++ (98 ∷ []))
    replicate-IsPrintable zero = ((omega arith, omega arith), tt)
    replicate-IsPrintable (suc n) = ((omega arith, omega arith), replicate-IsPrintable n)

collect_lfn-build_lfn_entries_example :
    collected (add_down (by_seq long_text 5) 2 scan_start.lfn) 255 ≡ 98 ∷ replicate 13 97
unfolding entries_needed
collect_lfn-build_lfn_entries_example =
    collect_lfn-build_lfn_entries long_text 5 255 scan_start.lfn long_text-IsPrintable (omega arith)
      (omega arith) (omega arith)
