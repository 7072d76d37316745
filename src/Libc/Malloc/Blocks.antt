-- ===== src/Libc/Malloc/Blocks.antt =====
-- The free blocks of libc/src/stdlib/malloc.c as a list, and the first fit in it.
use lumin.Prelude.{
  ℕ, ◌+◌, ◌-◌, ◌<◌, ◌≤◌, ◌≡◌, ◌≢◌, ◌⊎◌, Option, none, some, List, [], ◌∷◌, leb, if◌then◌else◌, All,
}
use lumin.Libc.Malloc.{Heap, min_block, block_real_size}

-- A block with its header.
pub record Block : Type 0 where
  pub start : ℕ
  pub size : ℕ

-- `ys` are the blocks of the list that begins at `b`.
abbrev pub IsList : Heap → ℕ → List Block → Type 0
IsList h b [] = b ≡ 0
IsList h b (y ∷ ys) =
    (b ≡ y.start)
    × (y.start ≢ 0)
    × (block_real_size y.start h ≡ y.size)
    × IsList h (h.next y.start) ys

abbrev pub Apart : Block → Block → Type 0
Apart y z = (y.start + y.size ≤ z.start) ⊎ (z.start + z.size ≤ y.start)

abbrev pub Disjoint : List Block → Type 0
Disjoint [] = Unit
Disjoint (y ∷ ys) = All (Apart y) ys × Disjoint ys

-- No block is empty.
abbrev pub Solid : Block → Type 0
Solid y = 0 < y.size

-- An address outside a block.
abbrev pub Outside : ℕ → Block → Type 0
Outside q y = (q < y.start) ⊎ (y.start + y.size ≤ q)

-- What a block gives to a request, and what stays free of it in front of `ys`.
abbrev pub cut : ℕ → Block → List Block → Block × List Block
cut total y ys =
    if leb min_block (y.size - total)
    then (
      record { start = y.start; size = total },
      record { start = y.start + total; size = y.size - total } ∷ ys,
    )
    else (y, ys)

abbrev pub kept : Block → Option (Block × List Block) → Option (Block × List Block)
kept y none = none
kept y (some (b, ys)) = some (b, y ∷ ys)

-- The first block that is large enough.
abbrev pub first_fit : ℕ → List Block → Option (Block × List Block)
first_fit total [] = none
first_fit total (y ∷ ys) =
    if leb total y.size then some (cut total y ys) else kept y (first_fit total ys)
