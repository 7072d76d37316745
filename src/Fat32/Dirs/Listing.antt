-- ===== src/Fat32/Dirs/Listing.antt =====
-- `fat32_read_dir` and `fat32_lookup` of kernel/fs/fat32.c: what a directory holds, by index and by
-- name.
use lumin.Prelude.{ℕ, ◌<◌, ◌≢◌, ◌≡◌, refl, ap, ◌∙◌, List, [], ◌∷◌, arith, length, get_elem?}
use lumin.Fat32.{Disk, Fs, u32_mod, fat_next_cluster}
use lumin.Fat32.Chains.{Chain}
use lumin.Fat32.Dirs.{scan_start, scan_slots, lookup_slots, fat32_read_dir, fat32_lookup}
use lumin.Fat32.Dirs.Entries.{
  Shown, entries, listed, first_match, scan_slots-entries, lookup_slots-entries,
}
use lumin.Fat32.Dirs.Chained.{
  dir_slots, scan_slots-IsPass, lookup_slots-IsPass, each_cluster-dir_slots,
}

-- The entries of the directory whose clusters are `xs`.
abbrev pub dir_entries : (disk : Disk) → Fs → disk.State → List ℕ → List Shown
dir_entries disk fs d xs = entries (dir_slots disk fs d xs) scan_start.lfn

module _ (disk : Disk) (fs : Fs) (c : ℕ) (xs : List ℕ) (d : disk.State) where
  -- On a directory whose chain of clusters ends within the fuel, for an index of 32 bits,
  -- `fat32_read_dir` ends, and it gives the entry at the index among those of the whole directory
  -- that are not deleted, not parts of a long name and not labels, up to the end mark or the first
  -- sector that cannot be read, each with its long name where the checksum fits; it fails when
  -- there is none.
  pub fat32_read_dir-listed :
      (fuel index : ℕ)
      → Chain (λ e. fat_next_cluster disk fs e d) c xs
      → length xs < fuel
      → index < u32_mod
      → fat32_read_dir disk fuel fs c index d ≡ listed (get_elem? (dir_entries disk fs d xs) index)
  unfolding fat32_read_dir
  fat32_read_dir-listed fuel index chain enough small =
      each_cluster-dir_slots disk (scan_slots index) (scan_slots-IsPass index) fuel c fs xs d
        scan_start chain enough
      ∙ scan_slots-entries index (dir_slots disk fs d xs) scan_start small (omega arith)
      ∙ ap (λ (k : ℕ). listed (get_elem? (dir_entries disk fs d xs) k)) (omega arith)

  -- On a directory whose chain of clusters ends within the fuel, `fat32_lookup` of a name that is
  -- not empty ends, and it gives the cluster, the size, the kind and the place of the first entry
  -- that the name matches by its long or by its short name, in either case of the letters; it fails
  -- when there is none.
  pub fat32_lookup-first_match :
      (fuel : ℕ) (name : List ℕ)
      → Chain (λ e. fat_next_cluster disk fs e d) c xs
      → length xs < fuel
      → name ≢ []
      → fat32_lookup disk fuel fs c name d ≡ first_match name (dir_entries disk fs d xs)
  unfolding fat32_lookup
  fat32_lookup-first_match fuel [] chain enough some_name = absurd (some_name refl)
  fat32_lookup-first_match fuel (x ∷ rest) chain enough some_name =
      each_cluster-dir_slots disk (lookup_slots (x ∷ rest)) (lookup_slots-IsPass (x ∷ rest)) fuel c
        fs xs d scan_start chain enough
      ∙ lookup_slots-entries (x ∷ rest) (dir_slots disk fs d xs) scan_start
