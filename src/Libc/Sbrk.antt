-- ===== src/Libc/Sbrk.antt =====
-- `sbrk` of libc/src/unistd/unistd.c, and the SYS_BRK case of kernel/proc/syscall.c that answers it, for
-- a program: `current_task` is set and its pid is not 0. A `long` is the number below 2 ^ 64 with the
-- same bits. Whether `pmm_alloc` and `vmm_map_page` give a page at an address is the function `maps`.
use lumin.Prelude.{
  ℕ, zero, suc, ◌+◌, ◌-◌, ◌*◌, ◌/◌, ◌%◌, ◌^◌, ◌<◌, ◌≤◌, ◌≡◌, refl, Bool, true, false, arith, ltb,
  ◌==◌, if◌then◌else◌, Bool-cases, inl, inr,
}

abbrev page_size : ℕ
page_size = 4096

abbrev pub user_heap_start : ℕ
user_heap_start = 0x8000000000 + 0x100000000

-- The `uint64_t` of -1.
abbrev pub minus : ℕ
minus = 2 ^ 64 - 1

-- The addresses are rounded up to pages.
page_up : ℕ → ℕ
page_up a = (a + page_size - 1) % 2 ^ 64 / page_size * page_size

-- `for (virt = start_page; virt < end_page; virt += PAGE_SIZE)`, where `left` pages are left.
map_pages : (ℕ → Bool) → ℕ → ℕ → Bool
map_pages maps zero virt = true
map_pages maps (suc left) virt =
    let rest = map_pages maps left (virt + page_size) in if maps virt then rest else false

-- The pages from the old end of the data to the new one.
pub grow_data : (ℕ → Bool) → ℕ → ℕ → Bool
unfolding map_pages page_up
grow_data maps brk new_brk =
    map_pages maps ((page_up new_brk - page_up brk) / page_size) (page_up brk)

-- What the call returns, and `current_task->brk` afterwards.
sys_brk : (ℕ → Bool) → ℕ → ℕ → ℕ × ℕ
unfolding grow_data
sys_brk maps new_brk brk =
    if new_brk == 0
    then (brk, brk)
    else if ltb new_brk user_heap_start
    then (minus, brk)
    else if ltb new_brk brk
    then (new_brk, new_brk)
    else if grow_data maps brk new_brk
    then (new_brk, new_brk)
    else (minus, brk)

-- The old end, or -1, and the end afterwards.
pub sbrk : (ℕ → Bool) → ℕ → ℕ → ℕ × ℕ
unfolding sys_brk
sbrk maps increment brk =
    let old = (sys_brk maps 0 brk).0 in
    let moved = sys_brk maps ((old + increment) % 2 ^ 64) brk in
    if increment == 0
    then (old, brk)
    else if moved.0 == minus
    then (minus, moved.1)
    else (old, moved.1)

-- An increment that is not 0 and leads to an address below 2 ^ 63 moves the end by as much, if the pages
-- can be had, and else moves nothing and gives -1.
pub sbrk-grow_data :
    (maps : ℕ → Bool) (increment brk : ℕ)
    → 0 < increment
    → user_heap_start ≤ brk
    → brk + increment < 2 ^ 63
    → sbrk maps increment brk
      ≡ (if grow_data maps brk (brk + increment) then (brk, brk + increment) else (minus, brk))
unfolding sbrk sys_brk
sbrk-grow_data maps increment brk some_more start low =
    let e : (brk + increment) % 2 ^ 64 ≡ brk + increment = omega arith in
    let not_zero : (increment == 0) ≡ false = ground arith in
    let an_end : (brk + increment == 0) ≡ false = ground arith in
    let high : ltb (brk + increment) user_heap_start ≡ false = ground arith in
    let grows : ltb (brk + increment) brk ≡ false = ground arith in
    let small : (brk + increment == minus) ≡ false = ground arith in
    rw (e, not_zero, an_end, high, grows)
      (elim (Bool-cases (grow_data maps brk (brk + increment))) [
        | inl had ↦ rw (had, small) refl
        | inr lacks ↦ rw lacks refl
      ])
