-- ===== src/Pmm.antt =====
-- The physical page allocator, kernel/mm/pmm.c.
-- A free page holds the address of the next one in its first word: `mem` is that word of every page.
-- A call returns `none` where it spins on `pmm_lock` forever, as the only one that runs.
pub mod Zones
pub mod Calls
pub mod Blocks
pub mod Ranges
mod Tests
use lumin.Prelude.{
  ℕ, zero, suc, ◌+◌, ◌-◌, ◌*◌, ◌/◌, ◌%◌, ◌^◌, ◌||◌, Option, none, some, List, [], ◌∷◌, ltb, leb,
  ◌==◌, if◌then◌else◌, update, take,
}

abbrev pub min_addr : ℕ
min_addr = 0x200000

abbrev pub dma_zone_limit : ℕ
dma_zone_limit = 0x1000000

abbrev pub dma32_zone_limit : ℕ
dma32_zone_limit = 0x100000000

abbrev pub page_size : ℕ
page_size = 0x1000

abbrev pub u64_mod : ℕ
u64_mod = 2 ^ 64

-- The file's static variables, and the memory that the lists run through.
pub record Pmm : Type 0 where
  pub mem : ℕ → ℕ
  pub dma_free_list : ℕ
  pub dma32_free_list : ℕ
  pub normal_free_list : ℕ
  pub free_pages_total : ℕ
  pub pmm_lock : ℕ

-- The lists, as `zone_alloc` is handed one of them by its address.
pub data Zone : Type 0 where
  dma dma32 normal : Zone

abbrev pub head : Zone → Pmm → ℕ
head dma s = s.dma_free_list
head dma32 s = s.dma32_free_list
head normal s = s.normal_free_list

abbrev pub set_head : Zone → ℕ → Pmm → Pmm
set_head dma p s = record s { dma_free_list = p }
set_head dma32 p s = record s { dma32_free_list = p }
set_head normal p s = record s { normal_free_list = p }

-- `fp->next = list; list = fp` and `free_pages_total++`.
push_page : Zone → ℕ → Pmm → Pmm
push_page z addr s = set_head z addr (record s {
  mem = update s.mem addr (head z s);
  free_pages_total = (s.free_pages_total + 1) % u64_mod;
})

pub page_free_internal : ℕ → Pmm → Pmm
unfolding push_page
page_free_internal addr s =
    if ltb addr dma32_zone_limit
    then if ltb addr dma_zone_limit then push_page dma addr s else push_page dma32 addr s
    else push_page normal addr s

-- `for (; addr < end; addr += 0x1000)`, on fuel.
add_range_loop : ℕ → ℕ → ℕ → Pmm → Pmm
add_range_loop zero addr stop s = s
add_range_loop (suc fuel) addr stop s =
    let rest =
      add_range_loop fuel ((addr + page_size) % u64_mod) stop (page_free_internal addr s) in
    if ltb addr stop then rest else s

-- `(x + 0xFFF) & ~0xFFF` and `x & ~0xFFF`.
abbrev pub align_up : ℕ → ℕ
align_up x = (x + 0xFFF) % u64_mod / page_size * page_size

abbrev pub align_down : ℕ → ℕ
align_down x = x / page_size * page_size

pub add_range : ℕ → ℕ → Pmm → Pmm
unfolding add_range_loop
add_range start stop s =
    add_range_loop (align_down stop / page_size + 1) (align_up start) (align_down stop) s

pub zone_alloc : Zone → Pmm → ℕ × Pmm
zone_alloc z s = if head z s == 0 then (0, s) else (
  head z s,
  record (set_head z (s.mem (head z s)) s) {
    free_pages_total = (s.free_pages_total + u64_mod - 1) % u64_mod;
  },
)

-- `struct e820_entry`.
pub record E820Entry : Type 0 where
  pub base : ℕ
  pub len : ℕ
  pub kind : ℕ

abbrev pub e820_available : ℕ
e820_available = 1

-- The body of the loop of `pmm_init` for one entry.
add_entry : E820Entry → Pmm → Pmm
unfolding add_range
add_entry e s =
    if e.kind == e820_available
    then (let stop = (e.base + e.len) % u64_mod in
        if leb stop min_addr
        then s
        else add_range (if ltb e.base min_addr then min_addr else e.base) stop s)
    else s

add_entries : List E820Entry → Pmm → Pmm
unfolding add_entry
add_entries [] s = s
add_entries (e ∷ es) s = add_entries es (add_entry e s)

abbrev pub reset : Pmm → Pmm
reset s = record s {
  dma_free_list = 0;
  dma32_free_list = 0;
  normal_free_list = 0;
  free_pages_total = 0;
}

-- `count` is the word at E820_COUNT_ADDR, and `entries` the records from E820_ENTRIES on.
pub init : ℕ → List E820Entry → Pmm → Pmm
unfolding add_range add_entries
init count entries s =
    if (count == 0) || ltb 100 count
    then add_range min_addr 0x400000 (reset s)
    else (let s' = add_entries (take count entries) (reset s) in
        if s'.free_pages_total == 0 then add_range min_addr 0x400000 s' else s')

pub spin_lock : Pmm → Option Pmm
spin_lock s = if s.pmm_lock == 0 then some (record s { pmm_lock = 1 }) else none

abbrev pub spin_unlock : Pmm → Pmm
spin_unlock s = record s { pmm_lock = 0 }

-- `if (!p) p = zone_alloc(&list)`.
or_zone : Zone → ℕ × Pmm → ℕ × Pmm
unfolding zone_alloc
or_zone z (p, s) = if p == 0 then zone_alloc z s else (p, s)

pub alloc_any : Pmm → ℕ × Pmm
unfolding or_zone
alloc_any s = or_zone dma (or_zone dma32 (zone_alloc normal s))

abbrev unlock_result : ℕ × Pmm → ℕ × Pmm
unlock_result (p, s) = (p, spin_unlock s)

-- What runs between `spin_lock_irqsave` and `spin_unlock_irqrestore`.
pub with_lock : (Pmm → Option (ℕ × Pmm)) → Pmm → Option (ℕ × Pmm)
unfolding spin_lock
with_lock body s = elim (spin_lock s) [
  | none ↦ none
  | some s' ↦ elim (body s') [ none ↦ none | some r ↦ some (unlock_result r) ]
]

pub alloc : Pmm → Option (ℕ × Pmm)
unfolding with_lock alloc_any
alloc s = with_lock (λ s'. some (alloc_any s')) s

pub alloc_dma : Pmm → Option (ℕ × Pmm)
unfolding with_lock zone_alloc
alloc_dma s = with_lock (λ s'. some (zone_alloc dma s')) s

-- The last branch calls `pmm_alloc`, which takes the lock once more.
pub alloc_below : ℕ → Pmm → Option (ℕ × Pmm)
unfolding with_lock or_zone alloc
alloc_below max_addr s =
    with_lock
      (λ s'.
        if leb max_addr dma_zone_limit
        then some (zone_alloc dma s')
        else if leb max_addr dma32_zone_limit
        then some (or_zone dma32 (zone_alloc dma s'))
        else alloc s')
      s

pub free : ℕ → Pmm → Option Pmm
unfolding spin_lock page_free_internal
free page s = if page == 0 then some s else elim (spin_lock s) [
  | none ↦ none
  | some s' ↦ some (spin_unlock (page_free_internal page s'))
]

-- `for (i = 0; i < n; i++) page_free_internal(addr + i * 0x1000)`, from `i` on.
free_pages_loop : ℕ → ℕ → ℕ → Pmm → Pmm
unfolding page_free_internal
free_pages_loop addr i zero s = s
free_pages_loop addr i (suc n) s =
    free_pages_loop addr (i + 1) n (page_free_internal ((addr + i * page_size) % u64_mod) s)

pub free_pages : ℕ → ℕ → Pmm → Option Pmm
unfolding spin_lock free_pages_loop
free_pages addr n s = if addr == 0 then some s else elim (spin_lock s) [
  | none ↦ none
  | some s' ↦ some (spin_unlock (free_pages_loop addr 0 n s'))
]

-- The way back: `for (j = 0; j < i; j++) page_free_internal(highest - j * 0x1000)`.
undo_loop : ℕ → ℕ → ℕ → Pmm → Pmm
unfolding page_free_internal
undo_loop highest j zero s = s
undo_loop highest j (suc n) s =
    undo_loop highest (j + 1) n
      (page_free_internal ((highest + u64_mod * page_size - j * page_size) % u64_mod) s)

-- The rounds `i`, …, `i + left - 1` of the loop of `pmm_alloc_pages`; `some j` is the round that
-- found no page.
take_loop : ℕ → ℕ → Pmm → Option ℕ × Pmm
unfolding alloc_any
take_loop i zero s = (none, s)
take_loop i (suc left) s =
    let (p, s') = alloc_any s in
    let rest = take_loop (i + 1) left s' in if p == 0 then (some i, s') else rest

-- The end of `pmm_alloc_pages`, after the loop.
finish_pages : ℕ → ℕ → Option ℕ × Pmm → ℕ × Pmm
unfolding undo_loop
finish_pages highest n (none, s) =
    ((highest + u64_mod * page_size - (n - 1) * page_size) % u64_mod, s)
finish_pages highest n (some i, s) =
    let s' = undo_loop highest 0 i s in
    (0, record s' { free_pages_total = (s'.free_pages_total + (n - 1)) % u64_mod })

-- `free_pages_total -= n - 1`.
abbrev charge : ℕ → Pmm → Pmm
charge n s = record s { free_pages_total = (s.free_pages_total + u64_mod - (n - 1)) % u64_mod }

take_pages : ℕ → Pmm → ℕ × Pmm
unfolding take_loop finish_pages
take_pages n s =
    let (highest, s') = alloc_any s in
    if highest == 0 then (0, s') else finish_pages highest n (take_loop 1 (n - 1) (charge n s'))

-- `n` is a `size_t`.
pub alloc_pages : ℕ → Pmm → Option (ℕ × Pmm)
unfolding with_lock take_pages
alloc_pages n s = if n == 0 then some (0, s) else with_lock (λ s'. some (take_pages n s')) s

pub free_count : Pmm → Option (ℕ × Pmm)
unfolding with_lock
free_count s = with_lock (λ s'. some (s'.free_pages_total, s')) s
