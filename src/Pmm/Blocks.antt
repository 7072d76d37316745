-- ===== src/Pmm/Blocks.antt =====
-- `pmm_alloc_pages` of kernel/mm/pmm.c: blocks of several pages.
use lumin.Prelude.{
  ℕ, zero, suc, ◌+◌, ◌-◌, ◌*◌, ◌%◌, ◌≤◌, ◌<◌, ◌≡◌, refl, ap, ◌∙◌, ◌≢◌, true, List, [], ◌∷◌, some,
  none, arith, ne→==, has,
}
use lumin.Pmm.{
  Pmm, page_size, u64_mod, with_lock, spin_lock, spin_unlock, take_loop, finish_pages, charge,
  take_pages, alloc_pages,
}
use lumin.Pmm.Zones.{Pages, pages, count, HoldsWith, Holds, take_first, alloc_any_lem}
use lumin.Pmm.Calls.{HoldsWith-lock}

-- The page that is handed out next, and the lists after it.
abbrev pub first : Pages → ℕ
first l = (take_first l.dma_pages l.dma32_pages l.normal_pages).0

abbrev pub rest : Pages → Pages
rest l = (take_first l.dma_pages l.dma32_pages l.normal_pages).1

abbrev pub drop_pages : ℕ → Pages → Pages
drop_pages zero l = l
drop_pages (suc n) l = drop_pages n (rest l)

count-rest :
    (ds ms ns : List ℕ)
    → 0 < count (pages ds ms ns)
    → count (rest (pages ds ms ns)) + 1 ≡ count (pages ds ms ns)
count-rest ds ms (x ∷ ns) h = omega arith
count-rest ds (x ∷ ms) [] h = omega arith
count-rest (x ∷ ds) [] [] h = omega arith
count-rest [] [] [] h = absurd (omega arith)

first-ne_zero :
    (ds ms ns : List ℕ) {debt : ℕ} {s : Pmm}
    → 0 < count (pages ds ms ns)
    → HoldsWith debt (pages ds ms ns) s
    → first (pages ds ms ns) ≢ 0
first-ne_zero ds ms (x ∷ ns) p h = h.normal_chain.1
first-ne_zero ds (x ∷ ms) [] p h = h.dma32_chain.1
first-ne_zero (x ∷ ds) [] [] p h = h.dma_chain.1
first-ne_zero [] [] [] p h = absurd (omega arith)

-- With enough pages the loop finds one in each round.
take_loop_lem :
    (i k : ℕ) (l : Pages) {debt : ℕ} {s : Pmm}
    → k ≤ count l
    → HoldsWith debt l s
    → ((take_loop i k s).0 ≡ none) × HoldsWith debt (drop_pages k l) (take_loop i k s).1
unfolding take_loop
take_loop_lem i zero l p h = (refl, h)
take_loop_lem i (suc k) l {s} p h =
    let c = count-rest l.dma_pages l.dma32_pages l.normal_pages (omega arith) in
    let ne = first-ne_zero l.dma_pages l.dma32_pages l.normal_pages (omega arith) h in
    let (e, held, _) = alloc_any_lem l.dma_pages l.dma32_pages l.normal_pages h in
    rw (e, ne→== _ 0 ne) (take_loop_lem (i + 1) k (rest l) (omega arith) held)

-- The result of `pmm_alloc_pages` on a first page `x`.
abbrev pub block_address : ℕ → ℕ → ℕ
block_address x n = (x + u64_mod * page_size - (n - 1) * page_size) % u64_mod

charge_lem :
    (n : ℕ) {l : Pages} {s : Pmm}
    → n ≤ u64_mod
    → 0 < n
    → Holds l s
    → HoldsWith (n - 1) l (charge n s)
charge_lem n p q h = record {
  dma_chain = h.dma_chain;
  dma32_chain = h.dma32_chain;
  normal_chain = h.normal_chain;
  dma_zone = h.dma_zone;
  dma32_zone = h.dma32_zone;
  normal_zone = h.normal_zone;
  counted = omega arith;
  in_range = omega arith;
}

take_pages_lem :
    (n : ℕ) (l : Pages) {s : Pmm}
    → 0 < n
    → n ≤ count l
    → Holds l s
    → ((take_pages n s).0 ≡ block_address (first l) n)
      × HoldsWith (n - 1) (drop_pages (n - 1) (rest l)) (take_pages n s).1
unfolding take_pages finish_pages
take_pages_lem n l {s} p q h =
    let c = count-rest l.dma_pages l.dma32_pages l.normal_pages (omega arith) in
    let ne = first-ne_zero l.dma_pages l.dma32_pages l.normal_pages (omega arith) h in
    let (e, held, _) = alloc_any_lem l.dma_pages l.dma32_pages l.normal_pages h in
    let (done, taken) =
      take_loop_lem 1 (n - 1) (rest l) (omega arith)
        (charge_lem n (omega (arith, h.counted)) p held) in
    rw (e, ne→== _ 0 ne, done, finish_pages) (ap (λ (x : ℕ). block_address x n) e, taken)

-- When `pmm_lock` is free and at least `n > 0` pages are free, `pmm_alloc_pages` takes the next `n`
-- pages that `pmm_alloc` would hand out and returns the address `n - 1` pages below the first of them;
-- but `free_pages_total` drops by `2 * n - 1`: afterwards it is `n - 1` lower, as a 64-bit number, than
-- the number of the pages that are still free.
pub alloc_pages-debt :
    (n : ℕ) {l : Pages} {s : Pmm}
    → 0 < n
    → n ≤ count l
    → s.pmm_lock ≡ 0
    → Holds l s
    → (s' : Pmm) × (alloc_pages n s ≡ some (block_address (first l) n, s'))
      × HoldsWith (n - 1) (drop_pages (n - 1) (rest l)) s'
      × (s'.pmm_lock ≡ 0)
unfolding alloc_pages with_lock spin_lock
alloc_pages-debt n {l} {s} p q unlocked h =
    let (e, taken) = take_pages_lem n l p q (HoldsWith-lock 1 h) in
    rw (ne→== n 0 (omega arith), unlocked)
      (spin_unlock (take_pages n (record s { pmm_lock = 1 })).1, rw e, HoldsWith-lock 0 taken, refl)

-- When the first two pages of the highest zone are not neighbours and the page below the first is still
-- on the list behind them, `pmm_alloc_pages` of two pages returns the address of that page, which stays
-- on the free list: the block that it hands out is not its caller's alone.
pub alloc_pages_gap :
    (x y : ℕ) (ds ms ns : List ℕ) {s : Pmm}
    → page_size ≤ x
    → x < u64_mod
    → has (x - page_size) ns ≡ true
    → s.pmm_lock ≡ 0
    → Holds (pages ds ms (x ∷ y ∷ ns)) s
    → (s' : Pmm) × (alloc_pages 2 s ≡ some (x - page_size, s')) × HoldsWith 1 (pages ds ms ns) s'
alloc_pages_gap x y ds ms ns {s} p q still unlocked h =
    let (s', e, taken, free) = alloc_pages-debt 2 (omega arith) (omega arith) unlocked h in
    let at : block_address x 2 ≡ x - page_size = omega arith in
    (s', e ∙ ap (λ (v : ℕ). some (v, s')) at, taken)
