-- ===== src/Block.antt =====
-- The block layer, kernel/block/block.c: registered devices and the partitions of an MBR.
-- A device is named by a number, its address; NULL is `none`. What a driver does to a transfer is the
-- function in `ops`; a transfer that fails, with a code that is not 0, is `none`.
pub mod Transfers
pub mod Mbr
pub mod Table
pub mod Parts
mod Tests
use lumin.Prelude.{
  ℕ, zero, suc, ◌+◌, ◌-◌, ◌*◌, ◌/◌, ◌%◌, ◌^◌, Bool, true, false, not, ◌&&◌, ◌||◌, Option, none,
  some, List, [], ◌∷◌, ◌++◌, ltb, leb, ◌==◌, if◌then◌else◌, update, length, get_elem?, get_or,
}

abbrev pub max_devs : ℕ
max_devs = 16

abbrev pub max_parts : ℕ
max_parts = 16

abbrev pub name_max : ℕ
name_max = 16

abbrev pub u64_mod : ℕ
u64_mod = 2 ^ 64

-- `read` and `write` of a driver: sector, count, and the data of a write.
pub record Driver : Type 0 where
  pub read : Option (ℕ → ℕ → Option (List ℕ))
  pub write : Option (ℕ → ℕ → List ℕ → Option (Unit {0}))

-- `ops`: NULL, those of a driver, or `part_ops`.
pub data Ops : Type 0 where
  no_ops : Ops
  driver_ops : Driver → Ops
  part_ops : Ops

-- `struct partition`, less its device.
pub record Partition : Type 0 where
  pub index : ℕ
  pub kind : ℕ
  pub bootable : Bool
  pub start_lba : ℕ
  pub sector_count : ℕ
  pub parent : Option ℕ

-- `struct block_device`; `part` is what `private` points at for a partition.
pub record Device : Type 0 where
  pub name : List ℕ
  pub sector_count : ℕ
  pub sector_size : ℕ
  pub registered : Bool
  pub ops : Ops
  pub part : Option Partition

-- `devices` up to `device_count`, and the devices that they point at.
pub record Blocks : Type 0 where
  pub devices : List ℕ
  pub device : ℕ → Device

abbrev has_read : Ops → Bool
has_read no_ops = false
has_read (driver_ops d) = elim d.read [ none ↦ false | some f ↦ true ]
has_read part_ops = true

-- `sector + count > limit`, as a 64-bit sum.
abbrev pub beyond : ℕ → ℕ → ℕ → Bool
beyond sector count limit = ltb limit ((sector + count) % u64_mod)

-- `dev->ops->read`, where `go` is `block_read`.
driver_read :
    (Option ℕ → ℕ → ℕ → Option (List ℕ)) → Ops → Option Partition → ℕ → ℕ → Option (List ℕ)
driver_read go no_ops part sector count = none
driver_read go (driver_ops d) part sector count = elim d.read [
  | none ↦ none
  | some f ↦ f sector count
]
driver_read go part_ops none sector count = none
driver_read go part_ops (some p) sector count =
    if beyond sector count p.sector_count
    then none
    else go p.parent ((p.start_lba + sector) % u64_mod) count

-- `block_read` and `part_read` call one another: the fuel bounds how deep partitions are nested.
pub block_read : ℕ → Blocks → Option ℕ → ℕ → ℕ → Option (List ℕ)
unfolding driver_read
block_read zero b dev sector count = none
block_read (suc fuel) b none sector count = none
block_read (suc fuel) b (some i) sector count =
    if not (b.device i).registered
    then none
    else if beyond sector count (b.device i).sector_count
    then none
    else driver_read (block_read fuel b) (b.device i).ops (b.device i).part sector count

driver_write :
    (Option ℕ → ℕ → ℕ → List ℕ → Option (Unit {0}))
    → Ops
    → Option Partition
    → ℕ
    → ℕ
    → List ℕ
    → Option (Unit {0})
driver_write go no_ops part sector count bytes = none
driver_write go (driver_ops d) part sector count bytes = elim d.write [
  | none ↦ none
  | some f ↦ f sector count bytes
]
driver_write go part_ops none sector count bytes = none
driver_write go part_ops (some p) sector count bytes =
    if beyond sector count p.sector_count
    then none
    else go p.parent ((p.start_lba + sector) % u64_mod) count bytes

pub block_write : ℕ → Blocks → Option ℕ → ℕ → ℕ → List ℕ → Option (Unit {0})
unfolding driver_write
block_write zero b dev sector count bytes = none
block_write (suc fuel) b none sector count bytes = none
block_write (suc fuel) b (some i) sector count bytes =
    if not (b.device i).registered
    then none
    else if beyond sector count (b.device i).sector_count
    then none
    else driver_write (block_write fuel b) (b.device i).ops (b.device i).part sector count bytes

pub init : Blocks → Blocks
init b = record b { devices = [] }

abbrev pub set_registered : Bool → ℕ → Blocks → Blocks
set_registered v i b = record b {
  device = update b.device i (record (b.device i) { registered = v });
}

-- `false` is the result -1, after which nothing has changed.
pub register : Option ℕ → Blocks → Bool × Blocks
register none b = (false, b)
register (some i) b =
    if leb max_devs (length b.devices)
    then (false, b)
    else if (b.device i).registered
        || (not (has_read (b.device i).ops) || ((b.device i).sector_size == 0))
    then (false, b)
    else (true, record (set_registered true i b) { devices = b.devices ++ i ∷ [] })

abbrev push : ℕ → Option (List ℕ) → Option (List ℕ)
push j none = none
push j (some l) = some (j ∷ l)

-- The list without its first `i`, if it has one: the loops of `block_unregister`.
pub remove : ℕ → List ℕ → Option (List ℕ)
remove i [] = none
remove i (j ∷ js) = if j == i then some js else push j (remove i js)

pub unregister : Option ℕ → Blocks → Bool × Blocks
unfolding remove
unregister none b = (false, b)
unregister (some i) b =
    if not (b.device i).registered then (false, b) else elim (remove i b.devices) [
      | none ↦ (false, b)
      | some l ↦ (true, record (set_registered false i b) { devices = l })
    ]

-- `none` is NULL. A negative index is out of range too.
pub get : ℕ → Blocks → Option ℕ
get index b = get_elem? b.devices index

-- The little-endian number of `k` bytes at `p`.
abbrev pub read_le : ℕ → ℕ → List ℕ → ℕ
read_le zero p buf = 0
read_le (suc k) p buf = get_or buf p 0 + 256 * read_le k (p + 1) buf

-- `m->parts[i]` of the MBR in `buf`: 16 bytes from 446 + 16 * i on.
abbrev pub entry_at : ℕ → ℕ
entry_at i = 446 + 16 * i

abbrev pub entry_kind : ℕ → List ℕ → ℕ
entry_kind i buf = get_or buf (entry_at i + 4) 0

abbrev pub entry_lba : ℕ → List ℕ → ℕ
entry_lba i buf = read_le 4 (entry_at i + 8) buf

abbrev pub entry_count : ℕ → List ℕ → ℕ
entry_count i buf = read_le 4 (entry_at i + 12) buf

-- The entry is skipped.
abbrev pub is_unusable : ℕ → ℕ → List ℕ → Bool
is_unusable i limit buf =
    ((entry_kind i buf == 0) || ((entry_lba i buf == 0) || (entry_count i buf == 0)))
    || ltb limit ((entry_lba i buf + entry_count i buf) % u64_mod)

abbrev pub partition : ℕ → ℕ → List ℕ → Partition
partition i dev buf = record {
  index = i + 1;
  kind = entry_kind i buf;
  bootable = leb 128 (get_or buf (entry_at i) 0);
  start_lba = entry_lba i buf;
  sector_count = entry_count i buf;
  parent = some dev;
}

-- `for (; i < 4 && count < max_parts; i++)`, where `room` is `max_parts - count`.
parse_loop : ℕ → ℕ → ℕ → ℕ → ℕ → List ℕ → List Partition
parse_loop zero i room dev limit buf = []
parse_loop (suc left) i zero dev limit buf = []
parse_loop (suc left) i (suc room) dev limit buf =
    if is_unusable i limit buf
    then parse_loop left (i + 1) (suc room) dev limit buf
    else partition i dev buf ∷ parse_loop left (i + 1) room dev limit buf

-- What `block_parse_mbr` puts in `parts`; `none` is the result -1.
pub parse_mbr : ℕ → Blocks → Option ℕ → ℕ → Option (List Partition)
unfolding block_read parse_loop
parse_mbr fuel b none room = none
parse_mbr fuel b (some dev) room =
    if ltb room 1 then none else elim (block_read fuel b (some dev) 0 1) [
      | none ↦ none
      | some buf ↦
          if read_le 2 510 buf == 0xAA55
          then some (parse_loop 4 0 room dev (b.device dev).sector_count buf)
          else none
    ]
