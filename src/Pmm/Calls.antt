-- ===== src/Pmm/Calls.antt =====
-- The calls of kernel/mm/pmm.c that hand out or take back one page, under `pmm_lock`.
use lumin.Prelude.{
  ℕ, ◌+◌, ◌≤◌, ◌<◌, ◌≡◌, refl, ◌≢◌, inl, inr, true, Bool-cases, List, [], ◌∷◌, some, none, arith,
  leb, if◌then◌else◌, Option, ne→==,
}
use lumin.Pmm.{
  Pmm, dma, dma32, dma_zone_limit, dma32_zone_limit, u64_mod, with_lock, spin_lock, spin_unlock,
  alloc, alloc_any, alloc_below, zone_alloc, or_zone, free, page_free_internal,
}
use lumin.Pmm.Zones.{
  Pages, pages, put, count, IsAbsent, HoldsWith, Holds, take_first, alloc_any_lem,
  page_free_internal_lem, zone_alloc-empty, zone_alloc-page,
}

abbrev locked : Pmm → Pmm
locked s = record s { pmm_lock = 1 }

abbrev pub HoldsWith-lock :
    (v : ℕ) {debt : ℕ} {l : Pages} {s : Pmm}
    → HoldsWith debt l s
    → HoldsWith debt l (record s { pmm_lock = v })
HoldsWith-lock v h = record {
  dma_chain = h.dma_chain;
  dma32_chain = h.dma32_chain;
  normal_chain = h.normal_chain;
  dma_zone = h.dma_zone;
  dma32_zone = h.dma32_zone;
  normal_zone = h.normal_zone;
  counted = h.counted;
  in_range = h.in_range;
}

-- The call ends, returns `p`, leaves these pages free, and has released the lock.
abbrev pub Returns : ℕ → Pages → Option (ℕ × Pmm) → Type 0
Returns p l r = (s' : Pmm) × (r ≡ some (p, s')) × Holds l s' × (s'.pmm_lock ≡ 0)

-- When `pmm_lock` is free and the lists hold the pages `ds`, `ms` and `ns`, `pmm_alloc` ends, returns
-- the first page of the highest zone that has one, or NULL if there is none, leaves exactly the other
-- pages free with their number in `free_pages_total`, and releases the lock.
pub alloc-take_first :
    (ds ms ns : List ℕ) {s : Pmm}
    → s.pmm_lock ≡ 0
    → Holds (pages ds ms ns) s
    → Returns (take_first ds ms ns).0 (take_first ds ms ns).1 (alloc s)
unfolding alloc with_lock
alloc-take_first ds ms ns {s} unlocked h =
    let (e, held, _) = alloc_any_lem ds ms ns (HoldsWith-lock 1 h) in
    rw (unlocked) (spin_unlock (alloc_any (locked s)).1, rw e, HoldsWith-lock 0 held, refl)

-- When `pmm_lock` is free and `page` is neither NULL nor on a list, `pmm_free` ends, puts the page at
-- the front of the list of its zone, keeps all other pages free, adds one to `free_pages_total`, and
-- releases the lock.
pub free-put :
    (page : ℕ) {l : Pages} {s : Pmm}
    → s.pmm_lock ≡ 0
    → page ≢ 0
    → IsAbsent page l
    → count l + 1 < u64_mod
    → Holds l s
    → (s' : Pmm) × (free page s ≡ some s') × Holds (put page l) s' × (s'.pmm_lock ≡ 0)
unfolding free spin_lock
free-put page {s} unlocked ne absent room h =
    rw (unlocked, ne→== page 0 ne)
      (
        spin_unlock (page_free_internal page (locked s)),
        refl,
        HoldsWith-lock 0 (page_free_internal_lem page ne absent room (HoldsWith-lock 1 h)),
        refl,
      )

-- `pmm_alloc_below` with a bound above 4 GB takes `pmm_lock` and then calls `pmm_alloc`, which takes it
-- again: whatever the state, the call never returns.
pub alloc_below_stuck :
    (max_addr : ℕ) (s : Pmm) → dma32_zone_limit < max_addr → alloc_below max_addr s ≡ none
unfolding alloc_below alloc with_lock spin_lock
alloc_below_stuck max_addr s high = ground arith

-- The page that `pmm_alloc_below` hands out from the lists of the two lower zones, and those that stay.
abbrev pub take_low : List ℕ → List ℕ → List ℕ → ℕ × Pages
take_low (x ∷ ds) ms ns = (x, pages ds ms ns)
take_low [] (x ∷ ms) ns = (x, pages [] ms ns)
take_low [] [] ns = (0, pages [] [] ns)

-- Only the lowest zone.
abbrev pub take_dma : List ℕ → List ℕ → List ℕ → ℕ × Pages
take_dma (x ∷ ds) ms ns = (x, pages ds ms ns)
take_dma [] ms ns = (0, pages [] ms ns)

abbrev Taken : Pmm → ℕ × Pages → ℕ × Pmm → Type 0
Taken s t r = (r.0 ≡ t.0) × Holds t.1 r.1

zone_alloc_dma :
    (ds ms ns : List ℕ) {s : Pmm}
    → Holds (pages ds ms ns) s
    → Taken s (take_dma ds ms ns) (zone_alloc dma s)
zone_alloc_dma [] ms ns {s} h = rw (zone_alloc-empty dma s h.dma_chain) (refl, h)
zone_alloc_dma (x ∷ ds) ms ns {s} h =
    let (e, ne, fresh, c) = h.dma_chain in
    rw (zone_alloc-page dma s x e ne) (
      refl,
      record {
        dma_chain = rw e c;
        dma32_chain = h.dma32_chain;
        normal_chain = h.normal_chain;
        dma_zone = h.dma_zone.1;
        dma32_zone = h.dma32_zone;
        normal_zone = h.normal_zone;
        counted = omega arith;
        in_range = omega arith;
      },
    )

low_zones :
    (ds ms ns : List ℕ) {s : Pmm}
    → Holds (pages ds ms ns) s
    → Taken s (take_low ds ms ns) (or_zone dma32 (zone_alloc dma s))
unfolding or_zone
low_zones [] [] ns {s} h =
    rw (zone_alloc-empty dma s h.dma_chain, zone_alloc-empty dma32 s h.dma32_chain) (refl, h)
low_zones [] (x ∷ ms) ns {s} h =
    let (e, ne, fresh, c) = h.dma32_chain in
    rw (zone_alloc-empty dma s h.dma_chain, zone_alloc-page dma32 s x e ne)
      (
        refl,
        record {
          dma_chain = h.dma_chain;
          dma32_chain = rw e c;
          normal_chain = h.normal_chain;
          dma_zone = h.dma_zone;
          dma32_zone = h.dma32_zone.1;
          normal_zone = h.normal_zone;
          counted = omega arith;
          in_range = omega arith;
        },
      )
low_zones (x ∷ ds) ms ns {s} h =
    let (e, ne, fresh, c) = h.dma_chain in
    let (got, held) = zone_alloc_dma (x ∷ ds) ms ns h in rw (got, ne→== x 0 ne) (refl, held)

-- When `pmm_lock` is free, `pmm_alloc_below` with a bound of at most 16 MB returns the first page of the
-- lowest zone, and with a bound of at most 4 GB the first page of the lowest zone or, if that has none,
-- of the middle one; it returns NULL only if these zones are empty, leaves the other pages free, and
-- releases the lock.
pub alloc_below-take :
    (max_addr : ℕ) (ds ms ns : List ℕ) {s : Pmm}
    → max_addr ≤ dma32_zone_limit
    → s.pmm_lock ≡ 0
    → Holds (pages ds ms ns) s
    → let t = if leb max_addr dma_zone_limit then take_dma ds ms ns else take_low ds ms ns in
      Returns t.0 t.1 (alloc_below max_addr s)
unfolding alloc_below with_lock spin_lock
alloc_below-take max_addr ds ms ns {s} low unlocked h =
    elim (Bool-cases (leb max_addr dma_zone_limit)) [
      | inl lowest ↦
          let (e, held) = zone_alloc_dma ds ms ns (HoldsWith-lock 1 h) in
          rw (unlocked, lowest)
            (spin_unlock (zone_alloc dma (locked s)).1, rw e, HoldsWith-lock 0 held, refl)
      | inr higher ↦
          let (e, held) = low_zones ds ms ns (HoldsWith-lock 1 h) in
          let below : leb max_addr dma32_zone_limit ≡ true = ground arith in
          rw (unlocked, higher, below)
            (
              spin_unlock (or_zone dma32 (zone_alloc dma (locked s))).1,
              rw e,
              HoldsWith-lock 0 held,
              refl,
            )
    ]
