-- ===== src/Devfs.antt =====
-- The device files of kernel/fs/vfs.c: reads and writes of a block device by its bytes. The device
-- is the disk of Fat32, by its sectors; a `uint64_t` wraps at 2 ^ 64.
pub mod Reading
pub mod Writing
mod Tests
use lumin.Prelude.{
  length, ℕ, zero, suc, ◌+◌, ◌-◌, ◌*◌, ◌/◌, ◌%◌, ◌^◌, Option, none, some, List, [], ◌++◌, min, ltb,
  leb, ◌==◌, if◌then◌else◌,
}
use lumin.Prelude.Int.{minus_one, ℤ, as_int}
use lumin.Fat32.{Disk, Sector}
use lumin.Fat32.Files.{span}
use lumin.Fat32.Writing.{patch, buffer_sector}

-- The fields of `struct block_device` that the calls use.
pub record Geometry : Type 0 where
  pub sector_size : ℕ
  pub sector_count : ℕ

-- `sector_count * sector_size - offset`.
abbrev pub bytes_left : Geometry → ℕ → ℕ
bytes_left g offset = (g.sector_count * g.sector_size % 2 ^ 64 + 2 ^ 64 - offset) % 2 ^ 64

-- `size`, but no more than what is left of the device.
unfoldable pub limited : Geometry → ℕ → ℕ → ℕ
limited g offset size = if ltb (bytes_left g offset) size then bytes_left g offset else size

-- The result of a read: -1, or the bytes that were read, whose number the call returns as an `int`. A loop
-- takes fuel.
pub data BlkRead : Type 0 where
  no_fuel : BlkRead
  fails : BlkRead
  gives : List ℕ → BlkRead

-- The `int` that the call returns.
abbrev pub blk_read_code : BlkRead → Option ℤ
blk_read_code no_fuel = none
blk_read_code fails = some minus_one
blk_read_code (gives bytes) = some (as_int (length bytes))

abbrev pub then_bytes : List ℕ → BlkRead → BlkRead
then_bytes bytes no_fuel = no_fuel
then_bytes bytes fails = fails
then_bytes bytes (gives more) = gives (bytes ++ more)

-- The result of a write: -1, or the count that `return (int)done` gives, with the disk.
pub data BlkWrite (S : Type 0) : Type 0 where
  starved : BlkWrite S
  refused : BlkWrite S
  wrote : ℤ → S → BlkWrite S

module _ (disk : Disk) where
  open disk use {State, read, write}

  -- The bytes that are copy_from from a sector; with nothing read, the call ends.
  abbrev pub copy_from : Option Sector → ℕ → ℕ → BlkRead → BlkRead
  copy_from none from chunk rest = gives []
  copy_from (some b) from chunk rest = then_bytes (span b from chunk) rest

  -- `if (to_read)`: the last sector.
  pub read_tail : Geometry → ℕ → ℕ → State → BlkRead
  read_tail g sector to_read d =
      if to_read == 0 then gives [] else copy_from (read d sector) 0 to_read (gives [])

  -- `while (to_read >= bdev->sector_size)`, and the last sector.
  pub read_whole : ℕ → Geometry → ℕ → ℕ → State → BlkRead
  read_whole zero g sector to_read d = no_fuel
  read_whole (suc fuel) g sector to_read d =
      let rest = read_whole fuel g (sector + 1) (to_read - g.sector_size) d in
      if leb g.sector_size to_read
      then copy_from (read d sector) 0 g.sector_size rest
      else read_tail g sector to_read d

  -- `if (byte_off)`: the end of the first sector.
  abbrev pub read_head : Option Sector → ℕ → ℕ → BlkRead → BlkRead
  read_head none byte_off chunk rest = fails
  read_head (some b) byte_off chunk rest = then_bytes (span b byte_off chunk) rest

  pub devfs_blk_read : ℕ → Geometry → ℕ → ℕ → State → BlkRead
  devfs_blk_read fuel g offset size d =
      let sector = offset / g.sector_size in
      let byte_off = offset % g.sector_size in
      let to_read = limited g offset size in
      let chunk = min (g.sector_size - byte_off) to_read in
      if leb g.sector_count sector
      then fails
      else if byte_off == 0
      then read_whole fuel g sector to_read d
      else read_head (read d sector) byte_off chunk
          (read_whole fuel g (sector + 1) (to_read - chunk) d)

  -- What follows a `block_write`, when so many bytes count as done if it fails.
  abbrev pub after_write : ℕ → State → Option State → (State → BlkWrite State) → BlkWrite State
  after_write done d none rest = wrote (as_int done) d
  after_write done d (some d') rest = rest d'

  -- A sector that is read and written in part. The bytes count as done before they are written.
  abbrev pub after_read :
      ℕ
      → ℕ
      → ℕ
      → ℕ
      → (ℕ → ℕ)
      → State
      → BlkWrite State
      → Option Sector
      → (State → BlkWrite State)
      → BlkWrite State
  after_read sector from chunk done buf d failed none rest = failed
  after_read sector from chunk done buf d failed (some b) rest =
      after_write (done + chunk) d (write d sector (patch b from chunk buf done)) rest

  pub write_tail : Geometry → ℕ → ℕ → ℕ → (ℕ → ℕ) → State → BlkWrite State
  write_tail g sector to_write done buf d =
      if to_write == 0
      then wrote (as_int done) d
      else after_read sector 0 to_write done buf d (wrote (as_int done) d) (read d sector)
          (wrote (as_int (done + to_write)))

  -- `while (to_write >= bdev->sector_size)`, and the last sector.
  pub write_whole : ℕ → Geometry → ℕ → ℕ → ℕ → (ℕ → ℕ) → State → BlkWrite State
  write_whole zero g sector to_write done buf d = starved
  write_whole (suc fuel) g sector to_write done buf d =
      if leb g.sector_size to_write
      then after_write done d (write d sector (buffer_sector buf done))
          (write_whole fuel g (sector + 1) (to_write - g.sector_size) (done + g.sector_size) buf)
      else write_tail g sector to_write done buf d

  pub devfs_blk_write : ℕ → Geometry → ℕ → ℕ → (ℕ → ℕ) → State → BlkWrite State
  devfs_blk_write fuel g offset size buf d =
      let sector = offset / g.sector_size in
      let byte_off = offset % g.sector_size in
      let to_write = limited g offset size in
      let chunk = min (g.sector_size - byte_off) to_write in
      if leb g.sector_count sector
      then refused
      else if byte_off == 0
      then write_whole fuel g sector to_write 0 buf d
      else after_read sector byte_off chunk 0 buf d refused (read d sector)
          (write_whole fuel g (sector + 1) (to_write - chunk) chunk buf)
