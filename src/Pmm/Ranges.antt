-- ===== src/Pmm/Ranges.antt =====
-- `add_range` and `pmm_init` of kernel/mm/pmm.c: the pages of the memory map.
use lumin.Prelude.{
  ℕ, zero, suc, ◌+◌, ◌-◌, ◌*◌, ◌/◌, ◌%◌, ◌≤◌, ◌<◌, ◌≡◌, refl, ◌≢◌, inl, inr, true, false, ◌||◌,
  List, [], ◌∷◌, arith, ltb, leb, ◌==◌, if◌then◌else◌, Bool-cases, take, lt→ltb, le→ltb, ==→eq,
}
use lumin.Pmm.{
  Pmm, page_size, u64_mod, min_addr, add_range_loop, add_range, align_up, align_down, E820Entry,
  e820_available, add_entry, add_entries, reset, init,
}
use lumin.Pmm.Zones.{Pages, pages, put, count, IsAbsent, Holds, page_free_internal_lem}

-- `k` pages from `addr` on, each put in front of its list.
unfoldable pub put_range : ℕ → ℕ → Pages → Pages
put_range zero addr l = l
put_range (suc k) addr l = put_range k (addr + page_size) (put addr l)

-- None of the `k` pages from `addr` on is on a list.
abbrev pub RangeAbsent : ℕ → ℕ → Pages → Type 0
RangeAbsent k addr l = (i : ℕ) → i < k → IsAbsent (addr + i * page_size) l

count-put : (a : ℕ) (l : Pages) → count (put a l) ≡ count l + 1
count-put a l = ground arith

IsAbsent-put : (a b : ℕ) (l : Pages) → a ≢ b → IsAbsent a l → IsAbsent a (put b l)
IsAbsent-put a b l ne h = ground arith

RangeAbsent-put :
    (k addr : ℕ) (l : Pages)
    → RangeAbsent (suc k) addr l
    → RangeAbsent k (addr + page_size) (put addr l)
RangeAbsent-put k addr l h i p =
    let e : addr + page_size + i * page_size ≡ addr + (i + 1) * page_size = omega arith in
    rw e (IsAbsent-put (addr + (i + 1) * page_size) addr l (omega arith) (h (i + 1) (omega arith)))

add_range_loop_lem :
    (fuel k addr stop : ℕ) {l : Pages} {s : Pmm}
    → k < fuel
    → stop ≡ addr + k * page_size
    → stop < u64_mod
    → 0 < addr
    → count l + k < u64_mod
    → RangeAbsent k addr l
    → Holds l s
    → Holds (put_range k addr l) (add_range_loop fuel addr stop s)
unfolding add_range_loop put_range
add_range_loop_lem zero k addr stop f e t p c out h = absurd (omega arith)
add_range_loop_lem (suc fuel) zero addr stop f e t p c out h = rw (le→ltb addr stop (omega arith)) h
add_range_loop_lem (suc fuel) (suc k) addr stop {l} {s} f e t p c out h =
    let at : addr + 0 * page_size ≡ addr = omega arith in
    let wrap : (addr + page_size) % u64_mod ≡ addr + page_size = omega arith in
    let next =
      page_free_internal_lem addr (omega arith) (rw at at (out 0 (omega arith))) (omega arith) h in
    rw (lt→ltb addr stop (omega arith), wrap)
      (add_range_loop_lem fuel k (addr + page_size) stop (omega arith) (omega arith) t (omega arith)
        (omega (arith, count-put addr l)) (RangeAbsent-put k addr l out) next)

add_range_loop-stop :
    (fuel addr stop : ℕ) (s : Pmm) → stop ≤ addr → add_range_loop fuel addr stop s ≡ s
unfolding add_range_loop
add_range_loop-stop zero addr stop s h = refl
add_range_loop-stop (suc fuel) addr stop s h = rw (le→ltb addr stop h)

-- How many whole pages lie between the two addresses.
abbrev pub page_count : ℕ → ℕ → ℕ
page_count start stop = stop / page_size - (start + 0xFFF) / page_size

-- When `start + 0xFFF` does not wrap, `start` is not zero, and none of the whole pages between `start`
-- and `stop` is on a list yet, `add_range` ends, puts exactly these pages on the lists, lowest first,
-- and counts each of them once.
pub add_range-put_range :
    (start stop : ℕ) {l : Pages} {s : Pmm}
    → 0 < start
    → start + 0xFFF < u64_mod
    → stop < u64_mod
    → count l + page_count start stop < u64_mod
    → RangeAbsent (page_count start stop) (align_up start) l
    → Holds l s
    → Holds (put_range (page_count start stop) (align_up start) l) (add_range start stop s)
unfolding add_range put_range
add_range-put_range start stop {l} {s} p q r c out h =
    elim (Bool-cases (leb ((start + 0xFFF) / page_size) (stop / page_size))) [
      | inl some_pages ↦
          let order : (start + 0xFFF) / page_size ≤ stop / page_size = ground arith in
          add_range_loop_lem (align_down stop / page_size + 1) (page_count start stop)
            (align_up start) (align_down stop) (omega arith) (omega arith) (omega arith)
            (omega arith) c out h
      | inr no_pages ↦
          let order : stop / page_size < (start + 0xFFF) / page_size = ground arith in
          let none_fit : page_count start stop ≡ 0 = omega arith in
          rw
            (
              none_fit,
              add_range_loop-stop (align_down stop / page_size + 1) (align_up start)
                  (align_down stop) s (omega arith),
            )
            h
    ]

-- The range that `pmm_init` hands to `add_range` for an entry.
abbrev pub entry_start : E820Entry → ℕ
entry_start e = if ltb e.base min_addr then min_addr else e.base

abbrev pub entry_stop : E820Entry → ℕ
entry_stop e = (e.base + e.len) % u64_mod

abbrev pub put_entry : E820Entry → Pages → Pages
put_entry e l =
    if e.kind == e820_available
    then if leb (entry_stop e) min_addr
      then l
      else put_range (page_count (entry_start e) (entry_stop e)) (align_up (entry_start e)) l
    else l

abbrev pub put_entries : List E820Entry → Pages → Pages
put_entries [] l = l
put_entries (e ∷ es) l = put_entries es (put_entry e l)

-- The pages of the entry are not yet on a list, and its start is not at the very end of the memory.
pub record Fits (e : E820Entry) (l : Pages) : Type 0 where
  pub rounds : entry_start e + 0xFFF < u64_mod
  pub room : count l + page_count (entry_start e) (entry_stop e) < u64_mod
  pub absent : RangeAbsent (page_count (entry_start e) (entry_stop e)) (align_up (entry_start e)) l

-- The entries do not overlap: each fits what those before it have added.
abbrev pub AllFit : List E820Entry → Pages → Type 0
AllFit [] l = Unit
AllFit (e ∷ es) l = Fits e l × AllFit es (put_entry e l)

add_entry_lem :
    (e : E820Entry) {l : Pages} {s : Pmm}
    → Fits e l
    → Holds l s
    → Holds (put_entry e l) (add_entry e s)
unfolding add_entry
add_entry_lem e {l} {s} f h = elim (Bool-cases (e.kind == e820_available)) [
  | inr other ↦ rw other h
  | inl free ↦ elim (Bool-cases (leb (entry_stop e) min_addr)) [
    | inl low ↦ rw (free, low) h
    | inr high ↦
        rw (free, high)
          (add_range-put_range (entry_start e) (entry_stop e) (ground arith) f.rounds (omega arith)
            f.room f.absent h)
  ]
]

add_entries_lem :
    (es : List E820Entry) {l : Pages} {s : Pmm}
    → AllFit es l
    → Holds l s
    → Holds (put_entries es l) (add_entries es s)
unfolding add_entries
add_entries_lem [] f h = h
add_entries_lem (e ∷ es) f h = add_entries_lem es f.1 (add_entry_lem e f.0 h)

abbrev pub no_pages : Pages
no_pages = pages [] [] []

reset-Holds : (s : Pmm) → Holds no_pages (reset s)
reset-Holds s = record {
  dma_chain = refl;
  dma32_chain = refl;
  normal_chain = refl;
  dma_zone = tt;
  dma32_zone = tt;
  normal_zone = tt;
  counted = omega arith;
  in_range = omega arith;
}

-- What is free after `pmm_init`: the pages of the map, or those from 2 MB to 4 MB.
abbrev pub init_pages : ℕ → List E820Entry → Pages
init_pages n entries =
    if (n == 0) || ltb 100 n
    then put_range 512 min_addr no_pages
    else (if count (put_entries (take n entries) no_pages) == 0
        then put_range 512 min_addr no_pages
        else put_entries (take n entries) no_pages)

fallback-Holds :
    {s : Pmm}
    → Holds no_pages s
    → Holds (put_range 512 min_addr no_pages) (add_range min_addr 0x400000 s)
fallback-Holds h =
    add_range-put_range min_addr 0x400000 (omega arith) (omega arith) (omega arith) (omega arith)
      (λ i p. (refl, refl, refl)) h

count_zero : (ds ms ns : List ℕ) → count (pages ds ms ns) ≡ 0 → pages ds ms ns ≡ no_pages
count_zero [] [] [] e = refl
count_zero (x ∷ ds) ms ns e = absurd (omega arith)
count_zero [] (x ∷ ms) ns e = absurd (omega arith)
count_zero [] [] (x ∷ ns) e = absurd (omega arith)

entries_or_fallback :
    (l : Pages) {s : Pmm}
    → Holds l s
    → Holds
        (if count l == 0 then put_range 512 min_addr no_pages else l)
        (if s.free_pages_total == 0 then add_range min_addr 0x400000 s else s)
entries_or_fallback l {s} h =
    let e : s.free_pages_total ≡ count l = omega arith in
    elim (Bool-cases (count l == 0)) [
      | inr more ↦ let same : (s.free_pages_total == 0) ≡ false = ground arith in rw (more, same) h
      | inl nothing ↦
          let same : (s.free_pages_total == 0) ≡ true = ground arith in
          let z = count_zero l.dma_pages l.dma32_pages l.normal_pages (==→eq _ _ nothing) in
          rw (nothing, same) (fallback-Holds (rw z at h))
    ]

-- When the entries of the memory map do not overlap, `pmm_init` puts on the lists exactly the whole
-- pages of the available entries from 2 MB up, and their number in `free_pages_total`; with no entry
-- or more than 100, or where this gives no page, exactly the 512 pages from 2 MB to 4 MB.
pub init-init_pages :
    (n : ℕ) (entries : List E820Entry) (s : Pmm)
    → AllFit (take n entries) no_pages
    → Holds (init_pages n entries) (init n entries s)
unfolding init
init-init_pages n entries s f = elim (Bool-cases ((n == 0) || ltb 100 n)) [
  | inl wrong ↦ rw wrong (fallback-Holds (reset-Holds s))
  | inr right ↦ rw right (
      entries_or_fallback (put_entries (take n entries) no_pages)
        (add_entries_lem (take n entries) f (reset-Holds s)))
]
