-- ===== src/Block/Tests.antt =====
-- Runs of kernel/block/block.c on one disk and one partition of it.
use lumin.Prelude.{
  ℕ, zero, suc, Bool-cases, inl, inr, ◌≤◌, ◌≡◌, refl, Bool, true, false, none, some, List, [], ◌∷◌,
  ◌++◌, arith, ltb, ◌==◌, if◌then◌else◌, All, replicate,
}
use lumin.Block.{
  Blocks, Device, Driver, driver_ops, part_ops, Partition, block_read, block_write, init, get,
  register, parse_mbr,
}
use lumin.Block.Transfers.{IsDisk, IsPart, part_read-within}
use lumin.Block.Mbr.{Within, AreBytes, parse_mbr-Within}
use lumin.Block.Table.{IsTable}

-- The first sector: one partition of type 131, of 100 sectors from sector 8 on.
abbrev mbr : List ℕ
mbr =
    replicate 450 0
    ++ 131 ∷ 0 ∷ 0 ∷ 0 ∷ 8 ∷ 0 ∷ 0 ∷ 0 ∷ 100 ∷ 0 ∷ 0 ∷ 0 ∷ replicate 48 0
    ++ 85 ∷ 170 ∷ []

-- A driver that delivers that sector whatever it is asked for.
abbrev drive : Driver
drive = record { read = some (λ sector count. some mbr); write = none }

abbrev hd0 : Device
hd0 = record {
  name = [];
  sector_count = 1000;
  sector_size = 512;
  registered = true;
  ops = driver_ops drive;
  part = none;
}

abbrev half : Partition
half = record {
  index = 1;
  kind = 131;
  bootable = false;
  start_lba = 8;
  sector_count = 100;
  parent = some 0;
}

abbrev half_device : Device
half_device = record {
  name = [];
  sector_count = 100;
  sector_size = 512;
  registered = true;
  ops = part_ops;
  part = some half;
}

abbrev absent : Device
absent = record hd0 { registered = false }

-- Device 0 is the disk, device 1 the partition; the others are not registered.
abbrev machine : Blocks
machine = record {
  devices = 0 ∷ 1 ∷ [];
  device = λ i. if i == 0 then hd0 else (if i == 1 then half_device else absent);
}

hd0-IsDisk : IsDisk machine 0 drive (λ sector count. some mbr)
hd0-IsDisk = record { registered = refl; ops = refl; read = refl }

half-IsPart : IsPart machine 1 0 half
half-IsPart = record { registered = refl; ops = refl; part = refl; parent = refl; size = refl }

part_read-within_example : block_read 2 machine (some 1) 90 20 ≡ none
part_read-within_example =
    part_read-within 0 1 0 90 20 machine half half-IsPart hd0-IsDisk (omega arith) (omega arith)
      (omega arith)

machine-IsTable : IsTable machine
machine-IsTable = record { once = λ i. ground arith; bounded = omega arith }

register_two : (register (some 2) machine).0 ≡ true
unfolding register
register_two = refl

abbrev all_bytes : List ℕ → Bool
all_bytes [] = true
all_bytes (x ∷ xs) = if ltb x 256 then all_bytes xs else false

all_bytes-AreBytes : (l : List ℕ) → all_bytes l ≡ true → AreBytes l
all_bytes-AreBytes [] h i = omega arith
all_bytes-AreBytes (x ∷ xs) h zero = ground arith
all_bytes-AreBytes (x ∷ xs) h (suc i) = elim (Bool-cases (ltb x 256)) [
  | inl small ↦ all_bytes-AreBytes xs (rw small at h) i
  | inr big ↦ let never = rw big at h in cc
]

read_mbr : block_read 1 machine (some 0) 0 1 ≡ some mbr
unfolding block_read
read_mbr = refl

parse_half : parse_mbr 1 machine (some 0) 16 ≡ some (half ∷ [])
unfolding parse_mbr
parse_half = refl

parse_mbr-Within_example : All (Within 0 1000) (half ∷ []) × (1 ≤ 16) × (1 ≤ 4)
parse_mbr-Within_example =
    parse_mbr-Within 1 0 16 machine mbr (half ∷ []) read_mbr (all_bytes-AreBytes mbr refl)
      parse_half

-- A driver without `write`, the first device, and no devices.
write_none : block_write 1 machine (some 0) 0 1 mbr ≡ none
unfolding block_write
write_none = refl

get_first : get 0 machine ≡ some 0
unfolding get
get_first = refl

init_none : (init machine).devices ≡ []
unfolding init
init_none = refl
