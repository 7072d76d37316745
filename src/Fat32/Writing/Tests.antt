-- ===== src/Fat32/Writing/Tests.antt =====
-- A file in memory, and the theorems on the writing of files of kernel/fs/fat32.c at it.
use lumin.Prelude.{
  ℕ, ◌+◌, ◌^◌, ◌<◌, ◌≡◌, ◌⊎◌, List, ◌++◌, length, refl, min, arith, ◌==◌, if◌then◌else◌, ◌-◌, [],
  ◌∷◌,
}
use lumin.Prelude.Int.{pos}
use lumin.Fat32.{Sector, fat_sector, byte_off, fat_next_cluster}
use lumin.Fat32.Files.{gives, span, fat32_read_file}
use lumin.Fat32.Files.Reading.{file_byte}
use lumin.Fat32.Writing.{fails, writes, fat32_write_file}
use lumin.Fat32.Writing.Device.{written}
use lumin.Fat32.Writing.Clusters.{IsTabled}
use lumin.Fat32.Writing.Contents.{Changes}
use lumin.Fat32.Writing.Runs.{IsFile}
use lumin.Fat32.Writing.Overwriting.{fat32_write_file-Changes, fat32_read_file-fat32_write_file}
use lumin.Fat32.Writing.Longer.{Grows}
use lumin.Fat32.Writing.Growing.{fat32_write_file-Grows}
use lumin.Fat32.Truncating.{cut_to, fat32_truncate}
use lumin.Fat32.Truncating.Cutting.{Cut, fat32_truncate-Cut}
use lumin.Fat32.Alloc.{Full}
use lumin.Fat32.Tests.{memory, memory_works, volume, volume-IsVolume, volume-IsFs, table}

volume-IsTabled : IsTabled volume 37
volume-IsTabled = record {
  volume = volume-IsVolume;
  system = volume-IsFs;
  table_covers = omega arith;
}

abbrev blank : ℕ → Sector
blank s = if s == 32 then table else (λ p. 0)

blank-IsFile : IsFile memory memory_works volume-IsTabled blank 2 (2 ∷ 3 ∷ [])
unfolding fat_next_cluster fat_sector byte_off
blank-IsFile = record {
  chain = (refl, refl, (refl, refl, omega arith));
  inside = (omega arith, (omega arith, tt));
}

abbrev bytes : ℕ → ℕ
bytes i = i + 1

fat32_write_file-Changes_example :
    (d' : ℕ → Sector) × (fat32_write_file memory 3 volume 2 700 510 4 bytes blank
      ≡ writes (pos 4) 2 700 d')
    × Changes memory memory_works volume-IsTabled (2 ∷ 3 ∷ []) 510 4 0 bytes blank d'
fat32_write_file-Changes_example =
    fat32_write_file-Changes memory memory_works volume-IsTabled 3 2 700 510 4 (2 ∷ 3 ∷ []) bytes
      blank blank-IsFile (omega arith) (omega arith) (omega arith) (omega arith)

fat32_read_file-fat32_write_file_example :
    (d' : ℕ → Sector) × (fat32_write_file memory 3 volume 2 700 510 4 bytes blank
      ≡ writes (pos 4) 2 700 d')
    × ((from asked : ℕ)
        → from + asked < 2 ^ 64
        → fat32_read_file memory 3 volume 2 700 from asked d'
          ≡ gives (
              span
                (λ k. written 510 4 0 bytes k (file_byte memory volume blank (2 ∷ 3 ∷ []) k))
                from
                (min asked (700 - from))))
fat32_read_file-fat32_write_file_example =
    fat32_read_file-fat32_write_file memory memory_works volume-IsTabled 3 2 700 510 4 (2 ∷ 3 ∷ [])
      bytes blank blank-IsFile (omega arith) (omega arith) (omega arith) (omega arith)

fat32_write_file-Grows_example :
    (ys : List ℕ) × (d1 : ℕ → Sector) × Grows memory memory_works volume-IsTabled 2
      (2 ∷ 3 ∷ [])
      ys
      blank
      d1
    × (((d' : ℕ → Sector) × (fat32_write_file memory 6 volume 2 700 1000 100 bytes blank
            ≡ writes (pos 100) 2 1100 d')
          × (length ys ≡ 1)
          × Changes memory memory_works volume-IsTabled ((2 ∷ 3 ∷ []) ++ ys) 1000 100 0 bytes d1 d')
        ⊎ ((fat32_write_file memory 6 volume 2 700 1000 100 bytes blank ≡ fails 2 700 d1)
            × (length ys < 1)
            × Full memory memory_works volume-IsFs d1 0))
fat32_write_file-Grows_example =
    fat32_write_file-Grows memory memory_works volume-IsTabled 6 2 2 700 1000 100 (3 ∷ []) bytes
      blank blank-IsFile (omega arith) (omega arith) (omega arith) (omega arith)

fat32_truncate-Cut_example :
    (d' : ℕ → Sector) × (fat32_truncate memory 3 volume 2 700 100 blank ≡ cut_to 2 100 d')
    × Cut memory memory_works volume-IsVolume volume-IsFs (2 ∷ 3 ∷ []) 1 2 blank d'
fat32_truncate-Cut_example =
    fat32_truncate-Cut memory memory_works volume-IsVolume volume-IsFs 3 2 700 100 (2 ∷ 3 ∷ [])
      blank blank-IsFile.chain (omega arith) (omega arith) (omega arith) (omega arith) (omega arith)
