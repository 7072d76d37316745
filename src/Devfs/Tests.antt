-- ===== src/Devfs/Tests.antt =====
-- A device of two sectors, and the theorems on device files of kernel/fs/vfs.c at it.
use lumin.Prelude.{ℕ, ◌+◌, ◌≡◌, refl, arith, ◌%◌, [], ◌∷◌}
use lumin.Prelude.Int.{pos}
use lumin.Fat32.{Sector}
use lumin.Fat32.Tests.{memory, memory_works}
use lumin.Devfs.{Geometry, gives, wrote, devfs_blk_read, devfs_blk_write}
use lumin.Devfs.Reading.{IsDevice}
use lumin.Devfs.Writing.{Writes, devfs_blk_write-Writes, devfs_blk_read-devfs_blk_write}

abbrev small_disk : Geometry
small_disk = record { sector_size = 512; sector_count = 2 }

small_disk-IsDevice : IsDevice small_disk
small_disk-IsDevice = record { size = refl; small = omega arith }

abbrev counting : ℕ → Sector
counting s p = (s + p) % 256

abbrev ones : ℕ → ℕ
ones i = 1

devfs_blk_write-Writes_example :
    Writes memory memory_works 510 4 0 ones counting
      (devfs_blk_write memory 9 small_disk 510 4 ones counting)
devfs_blk_write-Writes_example =
    devfs_blk_write-Writes memory memory_works 9 510 4 small_disk ones counting small_disk-IsDevice
      (omega arith) (omega arith)

devfs_blk_read-devfs_blk_write_example :
    (d' : ℕ → Sector) × (devfs_blk_write memory 9 small_disk 1022 4 ones counting
      ≡ wrote (pos 2) d')
    × (devfs_blk_read memory 9 small_disk 1022 4 d' ≡ gives (1 ∷ 1 ∷ []))
devfs_blk_read-devfs_blk_write_example =
    devfs_blk_read-devfs_blk_write memory memory_works 9 1022 4 small_disk ones counting
      small_disk-IsDevice (omega arith) (omega arith)
