-- ===== src/Libc/Malloc/Fresh.antt =====
-- `malloc` of libc/src/stdlib/malloc.c gives blocks that overlap no other.
use lumin.Prelude.{
  ℕ, ◌+◌, ◌-◌, ◌%◌, ◌^◌, ◌<◌, ◌≤◌, ◌≡◌, ◌⊎◌, refl, sym, ap, ◌∙◌, inl, inr, Bool, false, Bool-cases,
  if_true, if_false, Option, none, some, arith, List, [], ◌∷◌, length, leb, ◌==◌, if_cases, All,
  update,
}
use mathlib.Core.Path.{subst}
use lumin.Libc.Sbrk.{minus, user_heap_start, grow_data, sbrk-grow_data}
use lumin.Libc.Malloc.{
  Heap, root, hdr_sz, min_block, align8, FreeSearch, search, found_block, more_data, Malloc, gives,
  null, malloc,
}
use lumin.Libc.Malloc.Blocks.{Block, IsList, Apart, Disjoint, Solid, cut, kept, first_fit}
use lumin.Libc.Malloc.Taking.{IsList-same, update_other}
use lumin.Libc.Malloc.Fitting.{Framed, search-first_fit}

-- A request gives a block that is large enough, and keeps all blocks apart.
abbrev Splits : ℕ → List Block → Option (Block × List Block) → Type 0
Splits total ys none = Unit
Splits total ys (some (b, ys')) =
    Disjoint (b ∷ ys')
    × (total ≤ b.size)
    × All Solid ys'
    × ((z : Block) → All (Apart z) ys → All (Apart z) (b ∷ ys'))
    × ((e : ℕ) → All (λ y. y.start + y.size ≤ e) ys → All (λ y. y.start + y.size ≤ e) (b ∷ ys'))

Apart-part :
    (y b : Block) (ys : List Block)
    → y.start ≤ b.start
    → b.start + b.size ≤ y.start + y.size
    → All (Apart y) ys
    → All (Apart b) ys
Apart-part y b [] low high apart = tt
Apart-part y b (z ∷ zs) low high (apart, rest) =
    (ground (arith, apart, low, high), Apart-part y b zs low high rest)

cut-Splits :
    (total : ℕ) (y : Block) (ys : List Block)
    → Disjoint (y ∷ ys)
    → All Solid (y ∷ ys)
    → total ≤ y.size
    → Splits total (y ∷ ys) (some (cut total y ys))
cut-Splits total y ys (apart, disjoint) (solid, all_solid) fits =
    let front : Block = record { start = y.start; size = total } in
    let rest : Block = record { start = y.start + total; size = y.size - total } in
    let P = λ (o : Block × List Block). Splits total (y ∷ ys) (some o) in
    if_cases P (leb min_block (y.size - total))
      (λ large. (
        (
          (inl (omega arith), Apart-part y front ys (omega arith) (omega (arith, fits)) apart),
          (Apart-part y rest ys (omega arith) (omega (arith, fits)) apart, disjoint),
        ),
        omega arith,
        (ground (arith, large), all_solid),
        λ z (from_y, others).
            (ground (arith, from_y, fits), (ground (arith, from_y, fits), others)),
        λ e (below, others). (omega (arith, below, fits), (omega (arith, below, fits), others)),
      ))
      (λ small. ((apart, disjoint), fits, all_solid, λ z h. h, λ e h. h))

first_fit-Splits :
    (total : ℕ) (ys : List Block)
    → Disjoint ys
    → All Solid ys
    → Splits total ys (first_fit total ys)
first_fit-Splits total [] disjoint solid = tt
first_fit-Splits total (y ∷ ys) disjoint solid =
    if_cases (Splits total (y ∷ ys)) (leb total y.size)
      (λ large. cut-Splits total y ys disjoint solid (ground (arith, large)))
      (λ small. behind (first_fit total ys) (first_fit-Splits total ys disjoint.1 solid.1))
  where
    behind :
        (o : Option (Block × List Block)) → Splits total ys o → Splits total (y ∷ ys) (kept y o)
    behind none h = tt
    behind (some (b, ys')) ((b_apart, others), fits, all_solid, apart, below) =
        let (y_b, y_ys) = apart y disjoint.0 in
        (
          ((ground (arith, y_b), b_apart), (y_ys, others)),
          fits,
          (solid.0, all_solid),
          λ z (from_y, h). ((apart z h).0, (from_y, (apart z h).1)),
          λ e (y_below, h). ((below e h).0, (y_below, (below e h).1)),
        )

-- The blocks `ys` are free and the blocks `ls` are in use; no two of these overlap, and all of them
-- end before the end of the data.
pub record IsHeap (h : Heap) (ys ls : List Block) : Type 0 where
  pub free_list : IsList h h.free_list ys
  pub free_apart : Disjoint ys
  pub solid : All Solid ys
  pub used_apart : Disjoint ls
  pub apart : All (λ z. All (Apart z) ys) ls
  pub free_below : All (λ y. y.start + y.size ≤ h.brk) ys
  pub used_below : All (λ y. y.start + y.size ≤ h.brk) ls

-- What a request comes to: a block in use more, or NULL when a page that the data would need cannot be had.
abbrev pub Gives : (ℕ → Bool) → ℕ → Heap → List Block → Malloc → Type 0
Gives maps size h ls r =
    ((b : Block) × (ys : List Block) × (h' : Heap) × (r ≡ gives (b.start + hdr_sz) h')
      × (hdr_sz + size ≤ b.size)
      × IsHeap h' ys (b ∷ ls))
    ⊎ ((r ≡ null h) × (grow_data maps h.brk (h.brk + (hdr_sz + align8 size)) ≡ false))

used_after :
    (b : Block) (ys ys' ls : List Block)
    → ((z : Block) → All (Apart z) ys → All (Apart z) (b ∷ ys'))
    → All (λ z. All (Apart z) ys) ls
    → All (Apart b) ls × All (λ z. All (Apart z) ys') ls
used_after b ys ys' [] all apart = (tt, tt)
used_after b ys ys' (z ∷ ls) all (here, apart) =
    let (from_b, others) = used_after b ys ys' ls all apart in
    let at_b = (all z here).0 in ((ground (arith, at_b), from_b), ((all z here).1, others))

below_more :
    (e e' : ℕ) (ys : List Block)
    → e ≤ e'
    → All (λ y. y.start + y.size ≤ e) ys
    → All (λ y. y.start + y.size ≤ e') ys
below_more e e' [] le below = tt
below_more e e' (y ∷ ys) le (here, below) = (omega (arith, here, le), below_more e e' ys le below)

-- Blocks that end before an address are apart from one that begins there.
above-Apart :
    (b : Block) (ys : List Block) → All (λ y. y.start + y.size ≤ b.start) ys → All (Apart b) ys
above-Apart b [] below = tt
above-Apart b (y ∷ ys) (here, below) = (inr here, above-Apart b ys below)

same_words :
    (h : Heap) (v : ℕ) (ys : List Block)
    → All Solid ys
    → All (λ y. y.start + y.size ≤ h.brk) ys
    → All
        (λ y. (update h.size h.brk v y.start ≡ h.size y.start) × (h.next y.start ≡ h.next y.start))
        ys
same_words h v [] solid below = tt
same_words h v (y ∷ ys) (here, solid) (end, below) = (
  (update_other h.size h.brk v y.start (λ e. omega (arith, e, here, end)), refl),
  same_words h v ys solid below,
)

from_list :
    (maps : ℕ → Bool) (size total : ℕ) (h : Heap) (ys ls : List Block) (r : FreeSearch)
    (o : Option (Block × List Block))
    → IsHeap h ys ls
    → user_heap_start ≤ h.brk
    → h.brk + total < 2 ^ 63
    → hdr_sz + size ≤ total
    → total ≡ hdr_sz + align8 size
    → o ≡ first_fit total ys
    → Framed root ys h r o
    → Gives maps size h ls (found_block maps total h r)
from_list maps size total h ys ls r none v start low enough is_total is_fit found =
    let asked = ap (found_block maps total h) found in
    let answer = sbrk-grow_data maps total h.brk (omega (arith, enough)) start low in
    let one_block : (h.brk == minus) ≡ false = ground arith in
    elim (Bool-cases (grow_data maps h.brk (h.brk + total))) [
      | inr refused ↦
          inr (
            asked ∙ ap (more_data total h) (answer ∙ if_false _ _ refused),
            rw (← is_total) refused,
          )
      | inl had ↦
          let b : Block = record { start = h.brk; size = total } in
          let end = h.brk + total in
          let h' : Heap = record h { size = update h.size h.brk total; brk = end } in
          let le : h.brk ≤ end = omega arith in
          inl (
            b,
            ys,
            h',
            asked ∙ ap (more_data total h) (answer ∙ if_true _ _ had) ∙ if_false _ _ one_block,
            enough,
            record {
              free_list =
                  IsList-same h h' h.free_list ys (same_words h total ys v.solid v.free_below)
                    v.free_list;
              free_apart = v.free_apart;
              solid = v.solid;
              used_apart = (above-Apart b ls v.used_below, v.used_apart);
              apart = (above-Apart b ys v.free_below, v.apart);
              free_below = below_more h.brk end ys le v.free_below;
              used_below = (omega arith, below_more h.brk end ls le v.used_below);
            },
          )
    ]
from_list maps size total h ys ls r (some (b, ys')) v start low enough is_total is_fit
      (h', result, list, taken_size, frame) =
    let (disjoint, fits, solid, all, below) =
      subst (Splits total ys) (sym is_fit) (first_fit-Splits total ys v.free_apart v.solid) in
    let (from_b, others) = used_after b ys ys' ls all v.apart in
    let (b_below, ys_below) = below h.brk v.free_below in
    inl (
      b,
      ys',
      h',
      ap (found_block maps total h) result,
      omega (arith, enough, fits),
      record {
        free_list = list;
        free_apart = disjoint.1;
        solid = solid;
        used_apart = (from_b, v.used_apart);
        apart = (disjoint.0, others);
        free_below = below_more h.brk h'.brk ys' (omega (arith, frame.end)) ys_below;
        used_below =
            below_more h.brk h'.brk (b ∷ ls) (omega (arith, frame.end)) (b_below, v.used_below);
      },
    )

-- On a heap whose free blocks and blocks in use do not overlap and lie below the end of the data, which is
-- not below the start of the heap, and with more fuel than free blocks, `malloc` of a size that is not 0
-- and would not bring the end of the data to 2 ^ 63 ends: either it gives a pointer behind the header of
-- a block with room for the size, which overlaps no block in use and none that stays free, or it gives
-- NULL, the heap is as it was, and one of the pages that the data would need could not be had.
pub malloc-IsHeap :
    (maps : ℕ → Bool) (fuel size : ℕ) (h : Heap) (ys ls : List Block)
    → IsHeap h ys ls
    → user_heap_start ≤ h.brk
    → length ys < fuel
    → 1 ≤ size
    → h.brk + size + 15 < 2 ^ 63
    → Gives maps size h ls (malloc maps fuel size h)
unfolding malloc align8
malloc-IsHeap maps fuel size h ys ls v start n some_bytes small =
    let total = (hdr_sz + align8 size) % 2 ^ 64 in
    let P = Gives maps size h ls in
    if_cases P (size == 0) (λ nothing. ground (arith, nothing, some_bytes))
      (λ something.
        from_list maps size total h ys ls (search fuel root total h) (first_fit total ys) v start
          (omega (arith, small)) (omega (arith, small)) (omega (arith, small)) refl
          (search-first_fit fuel root total h ys v.free_list tt v.free_apart v.solid
            (omega (arith, small)) (omega (arith, small)) n))
