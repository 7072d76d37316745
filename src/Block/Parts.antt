-- ===== src/Block/Parts.antt =====
-- The partitions that kernel/block/block.c keeps as devices of their own.
mod Runs
use lumin.Prelude.{
  ℕ, zero, suc, ◌+◌, Bool, true, false, Option, none, some, List, [], ◌∷◌, ◌++◌, ltb, ◌==◌,
  if◌then◌else◌, update,
}
use lumin.Block.{Blocks, Device, Partition, part_ops, register, parse_mbr, max_parts, name_max}

-- The devices, and `stored_part_count`. The device in `stored_parts[k]` has the number `slot k`.
pub record Parts : Type 0 where
  pub blocks : Blocks
  pub stored_part_count : ℕ

-- The bytes of a name before its NUL, at most `n` of them.
abbrev name_bytes : ℕ → List ℕ → List ℕ
name_bytes zero cs = []
name_bytes (suc n) [] = []
name_bytes (suc n) (c ∷ cs) = if c == 0 then [] else c ∷ name_bytes n cs

-- `part->dev`, made from the partition and its parent.
abbrev part_device : Device → Partition → Device
part_device parent p = record {
  name = name_bytes 13 parent.name ++ b'p' ∷ (b'0' + p.index) ∷ 0 ∷ [];
  sector_count = p.sector_count;
  sector_size = parent.sector_size;
  registered = false;
  ops = part_ops;
  part = some p;
}

-- One partition is stored, and registered if `block_register` takes it.
abbrev store_part : (ℕ → ℕ) → Device → Partition → Parts → Parts
store_part slot parent p s =
    let k = slot s.stored_part_count in
    let b = record s.blocks { device = update s.blocks.device k (part_device parent p) } in
    record { blocks = (register (some k) b).1; stored_part_count = s.stored_part_count + 1 }

-- `for (i = 0; i < n && stored_part_count < BLOCK_MAX_PARTS; i++)`.
store_loop : (ℕ → ℕ) → Device → List Partition → Parts → Parts
unfolding register
store_loop slot parent [] s = s
store_loop slot parent (p ∷ ps) s =
    let rest = store_loop slot parent ps (store_part slot parent p s) in
    if ltb s.stored_part_count max_parts then rest else s

stored : (ℕ → ℕ) → ℕ → Option (List Partition) → Parts → ℕ × Parts
unfolding store_loop
stored slot dev none s = (0, s)
stored slot dev (some []) s = (0, s)
stored slot dev (some (p ∷ ps)) s =
    let s' = store_loop slot (s.blocks.device dev) (p ∷ ps) s in (s'.stored_part_count, s')

-- `fuel` is that of `block_read`; the result is the number returned.
pub register_partitions : ℕ → (ℕ → ℕ) → Option ℕ → Parts → ℕ × Parts
unfolding stored parse_mbr
register_partitions fuel slot none s = (0, s)
register_partitions fuel slot (some dev) s =
    stored slot dev (parse_mbr fuel s.blocks (some dev) max_parts) s
