-- ===== src/Libc/Malloc/Tests.antt =====
-- A heap with one free block, and the theorem on libc/src/stdlib/malloc.c at it.
use lumin.Prelude.{ℕ, refl, arith, inr, Bool, true, List, [], ◌∷◌, ◌==◌, if◌then◌else◌}
use lumin.Libc.Malloc.{Heap, malloc}
use lumin.Libc.Malloc.Blocks.{Block}
use lumin.Libc.Malloc.Fresh.{IsHeap, Gives, malloc-IsHeap}

-- 64 bytes at 0x8100001000 are free, and 32 bytes behind them are in use.
abbrev heap : Heap
heap = record {
  size = λ b. if b == 0x8100001000 then 65 else 32;
  next = λ b. 0;
  free_list = 0x8100001000;
  brk = 0x8100001060;
}

abbrev free_blocks : List Block
free_blocks = record { start = 0x8100001000; size = 64 } ∷ []

abbrev used_blocks : List Block
used_blocks = record { start = 0x8100001040; size = 32 } ∷ []

-- Every page can be had.
abbrev roomy : ℕ → Bool
roomy page = true

heap-IsHeap : IsHeap heap free_blocks used_blocks
heap-IsHeap = record {
  free_list = (refl, (λ e. ground (arith, e)), refl, refl);
  free_apart = (tt, tt);
  solid = (omega arith, tt);
  used_apart = (tt, tt);
  apart = ((inr (omega arith), tt), tt);
  free_below = (omega arith, tt);
  used_below = (omega arith, tt);
}

malloc-IsHeap_example : Gives roomy 20 heap used_blocks (malloc roomy 2 20 heap)
malloc-IsHeap_example =
    malloc-IsHeap roomy 2 20 heap free_blocks used_blocks heap-IsHeap (omega arith) (omega arith)
      (omega arith) (omega arith)
