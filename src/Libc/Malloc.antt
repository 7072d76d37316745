-- ===== src/Libc/Malloc.antt =====
-- The allocator of libc/src/stdlib/malloc.c. A block is a header of 8 bytes with its size, whose
-- lowest bit says that it is free, and then its content, which begins with the address of the next
-- free block when it is free. The words of the heap are two functions of the addresses of blocks:
-- what their headers hold, and what follows these. `unsigned long` wraps at 2 ^ 64.
pub mod Blocks
pub mod Taking
pub mod Fitting
pub mod Fresh
mod Tests
use lumin.Prelude.{
  ℕ, zero, suc, ◌+◌, ◌-◌, ◌*◌, ◌/◌, ◌%◌, ◌^◌, Bool, leb, ◌==◌, if◌then◌else◌, update,
}
use lumin.Libc.Sbrk.{minus, sbrk}

abbrev pub hdr_sz : ℕ
hdr_sz = 8

abbrev pub min_block : ℕ
min_block = 24

-- `brk` is the end of the program's data, `sbrk(0)`.
pub record Heap : Type 0 where
  pub size : ℕ → ℕ
  pub next : ℕ → ℕ
  pub free_list : ℕ
  pub brk : ℕ

unfoldable pub align8 : ℕ → ℕ
align8 x = (x + 7) % 2 ^ 64 / 8 * 8

abbrev pub block_real_size : ℕ → Heap → ℕ
block_real_size b h = h.size b / 2 * 2

-- What `struct block **pp` points to: the head of the list, or the link of a block.
pub data Loc : Type 0 where
  root : Loc
  link : ℕ → Loc

abbrev pub load_loc : Loc → Heap → ℕ
load_loc root h = h.free_list
load_loc (link p) h = h.next p

abbrev pub store_loc : Loc → ℕ → Heap → Heap
store_loc root v h = record h { free_list = v }
store_loc (link p) v h = record h { next = update h.next p v }

abbrev pub set_size : ℕ → ℕ → Heap → Heap
set_size b v h = record h { size = update h.size b v }

abbrev pub set_next : ℕ → ℕ → Heap → Heap
set_next b v h = record h { next = update h.next b v }

-- The block `b` that `pp` points to is taken; what it has too much is a free block in its place.
pub take_block : Loc → ℕ → ℕ → Heap → Heap
take_block pp b total h =
    let bsize = block_real_size b h in
    let remainder = bsize - total in
    let nb = b + total in
    let split = set_size nb (remainder / 2 * 2 + 1) h in
    if leb min_block remainder
    then set_size b total (store_loc pp nb (set_next nb (split.next b) split))
    else set_size b bsize (store_loc pp (h.next b) h)

-- How the search of the list ends. It takes fuel.
pub data FreeSearch : Type 0 where
  unfinished : FreeSearch
  absent : FreeSearch
  taken : ℕ → Heap → FreeSearch

-- `while (*pp)`.
pub search : ℕ → Loc → ℕ → Heap → FreeSearch
search zero pp total h = unfinished
search (suc fuel) pp total h =
    let b = load_loc pp h in
    let rest = search fuel (link b) total h in
    if b == 0
    then absent
    else if leb total (block_real_size b h)
    then taken b (take_block pp b total h)
    else rest

-- The result of a call: NULL, with `errno` set if the program's data cannot grow, or a pointer.
pub data Malloc : Type 0 where
  no_fuel : Malloc
  null : Heap → Malloc
  gives : ℕ → Heap → Malloc

-- What follows `sbrk(total)`, with what that returned and the end of the data.
abbrev pub more_data : ℕ → Heap → ℕ × ℕ → Malloc
more_data total h (b, end) =
    if b == minus
    then null (record h { brk = end })
    else gives (b + hdr_sz) (record h { size = update h.size b total; brk = end })

abbrev pub found_block : (ℕ → Bool) → ℕ → Heap → FreeSearch → Malloc
found_block maps total h unfinished = no_fuel
found_block maps total h absent = more_data total h (sbrk maps total h.brk)
found_block maps total h (taken b h') = gives (b + hdr_sz) h'

-- Which pages can be had, `maps`, is what `sbrk` depends on.
pub malloc : (ℕ → Bool) → ℕ → ℕ → Heap → Malloc
malloc maps fuel size h =
    let total = (hdr_sz + align8 size) % 2 ^ 64 in
    if size == 0 then null h else found_block maps total h (search fuel root total h)
