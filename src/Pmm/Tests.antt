-- ===== src/Pmm/Tests.antt =====
-- Runs of the calls of kernel/mm/pmm.c on small states.
use lumin.Prelude.{ℕ, ◌≡◌, refl, Option, none, some, List, [], ◌∷◌, arith, ◌==◌, if◌then◌else◌}
use lumin.Pmm.{
  Pmm, alloc, alloc_dma, alloc_pages, free, free_pages, free_count, init, E820Entry, with_lock,
}
use lumin.Pmm.Zones.{Pages, pages, put, HoldsWith, Holds}
use lumin.Pmm.Calls.{Returns, alloc-take_first, free-put}
use lumin.Pmm.Blocks.{alloc_pages-debt}
use lumin.Pmm.Ranges.{put_range, no_pages, init_pages, init-init_pages}

abbrev blank : Pmm
blank = record {
  mem = λ a. 0;
  dma_free_list = 0;
  dma32_free_list = 0;
  normal_free_list = 0;
  free_pages_total = 0;
  pmm_lock = 0;
}

-- One page below 16 MB, and three neighbours above 4 GB.
abbrev four_free : Pmm
four_free = record {
  mem =
      λ a. if a == 0x100002000 then 0x100001000 else (if a == 0x100001000 then 0x100000000 else 0);
  dma_free_list = 0x300000;
  dma32_free_list = 0;
  normal_free_list = 0x100002000;
  free_pages_total = 4;
  pmm_lock = 0;
}

abbrev four_pages : Pages
four_pages = pages (0x300000 ∷ []) [] (0x100002000 ∷ 0x100001000 ∷ 0x100000000 ∷ [])

four_free-Holds : Holds four_pages four_free
four_free-Holds = record {
  dma_chain = (refl, omega arith, refl, refl);
  dma32_chain = refl;
  normal_chain =
      (refl, omega arith, refl, (refl, omega arith, refl, (refl, omega arith, refl, refl)));
  dma_zone = (omega arith, tt);
  dma32_zone = tt;
  normal_zone = (omega arith, (omega arith, (omega arith, tt)));
  counted = refl;
  in_range = omega arith;
}

-- The highest pages are not neighbours.
abbrev gapped : Pmm
gapped = record {
  mem =
      λ a. if a == 0x100002000 then 0x100000000 else (if a == 0x100000000 then 0x100001000 else 0);
  dma_free_list = 0;
  dma32_free_list = 0;
  normal_free_list = 0x100002000;
  free_pages_total = 3;
  pmm_lock = 0;
}

gapped-Holds : Holds (pages [] [] (0x100002000 ∷ 0x100000000 ∷ 0x100001000 ∷ [])) gapped
gapped-Holds = record {
  dma_chain = refl;
  dma32_chain = refl;
  normal_chain =
      (refl, omega arith, refl, (refl, omega arith, refl, (refl, omega arith, refl, refl)));
  dma_zone = tt;
  dma32_zone = tt;
  normal_zone = (omega arith, (omega arith, (omega arith, tt)));
  counted = refl;
  in_range = omega arith;
}

alloc-take_first_example :
    Returns 0x100002000
      (pages (0x300000 ∷ []) [] (0x100001000 ∷ 0x100000000 ∷ []))
      (alloc four_free)
alloc-take_first_example =
    alloc-take_first (0x300000 ∷ []) [] (0x100002000 ∷ 0x100001000 ∷ 0x100000000 ∷ []) refl
      four_free-Holds

free-put_example :
    (s' : Pmm) × (free 0x400000 four_free ≡ some s')
    × Holds (put 0x400000 four_pages) s'
    × (s'.pmm_lock ≡ 0)
free-put_example =
    free-put 0x400000 refl (omega arith) (refl, refl, refl) (omega arith) four_free-Holds

alloc_pages-debt_example :
    (s' : Pmm) × (alloc_pages 2 four_free ≡ some (0x100001000, s'))
    × HoldsWith 1 (pages (0x300000 ∷ []) [] (0x100000000 ∷ [])) s'
    × (s'.pmm_lock ≡ 0)
alloc_pages-debt_example = alloc_pages-debt 2 (omega arith) (omega arith) refl four_free-Holds

blank-Holds : Holds no_pages blank
blank-Holds = record {
  dma_chain = refl;
  dma32_chain = refl;
  normal_chain = refl;
  dma_zone = tt;
  dma32_zone = tt;
  normal_zone = tt;
  counted = refl;
  in_range = omega arith;
}

abbrev small_map : List E820Entry
small_map =
    record { base = 0x100000; len = 0x102800; kind = 1 }
    ∷ record { base = 0x300000; len = 0x2000; kind = 2 }
    ∷ []

init-init_pages_example : Holds (init_pages 2 small_map) (init 2 small_map blank)
unfolding put_range
init-init_pages_example = init-init_pages 2 small_map blank (
  record { rounds = omega arith; room = omega arith; absent = λ i p. (refl, refl, refl) },
  (
    record { rounds = omega arith; room = omega arith; absent = λ i p. (ground arith, refl, refl) },
    tt,
  ),
)

-- Taking from an empty zone, and giving back two pages.
alloc_dma_four :
    (alloc_dma four_free
      ≡ some (0x300000, record four_free { dma_free_list = 0; free_pages_total = 3 }))
unfolding alloc_dma with_lock
alloc_dma_four = refl

abbrev total : Option Pmm → ℕ
total none = 0
total (some s) = s.free_pages_total

free_pages_two : total (free_pages 0x400000 2 four_free) ≡ 6
unfolding free_pages
free_pages_two = refl

free_count_four : free_count four_free ≡ some (4, four_free)
unfolding free_count
free_count_four = refl

abbrev result : Option (ℕ × Pmm) → ℕ
result none = 1
result (some (p, s)) = p

-- A block that is larger than what is free.
alloc_pages_five : result (alloc_pages 5 four_free) ≡ 0
unfolding alloc_pages
alloc_pages_five = refl
