-- ===== src/Block/Parts/Runs.antt =====
-- A run of `block_register_partitions` of kernel/block/block.c.
use lumin.Prelude.{
  ℕ, ◌+◌, ◌≡◌, refl, false, true, none, some, List, [], ◌∷◌, ◌++◌, replicate, ◌==◌, if◌then◌else◌,
}
use lumin.Block.{Device, Driver, driver_ops}
use lumin.Block.Parts.{Parts, register_partitions}

-- Two partitions.
abbrev sector : List ℕ
sector =
    replicate 450 0
    ++ 131
      ∷ 0
      ∷ 0
      ∷ 0
      ∷ 8
      ∷ 0
      ∷ 0
      ∷ 0
      ∷ 100
      ∷ 0
      ∷ 0
      ∷ 0
      ∷ 0
      ∷ 0
      ∷ 0
      ∷ 0
      ∷ 7
      ∷ 0
      ∷ 0
      ∷ 0
      ∷ 200
      ∷ 0
      ∷ 0
      ∷ 0
      ∷ 50
      ∷ 0
      ∷ 0
      ∷ 0
      ∷ replicate 32 0
    ++ 85 ∷ 170 ∷ []

abbrev drive : Driver
drive = record { read = some (λ from count. some sector); write = none }

abbrev hd0 : Device
hd0 = record {
  name = 104 ∷ 100 ∷ 0 ∷ [];
  sector_count = 1000;
  sector_size = 512;
  registered = true;
  ops = driver_ops drive;
  part = none;
}

abbrev one_disk : Parts
one_disk = record {
  blocks = record {
    devices = 0 ∷ [];
    device = λ i. if i == 0 then hd0 else record hd0 { registered = false };
  };
  stored_part_count = 0;
}

two_stored : (register_partitions 1 (λ k. k + 1) (some 0) one_disk).0 ≡ 2
unfolding register_partitions
two_stored = refl

two_registered :
    (register_partitions 1 (λ k. k + 1) (some 0) one_disk).1.blocks.devices ≡ 0 ∷ 1 ∷ 2 ∷ []
unfolding register_partitions
two_registered = refl
