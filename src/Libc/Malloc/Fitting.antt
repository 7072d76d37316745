-- ===== src/Libc/Malloc/Fitting.antt =====
-- The search of libc/src/stdlib/malloc.c takes the first block that fits.
use lumin.Prelude.{
  ℕ, zero, suc, ◌-◌, ◌*◌, ◌/◌, ◌%◌, ◌<◌, ◌≤◌, ◌≡◌, refl, sym, ap, ◌∙◌, true, false, Option, none,
  some, arith, List, [], ◌∷◌, length, leb, ◌==◌, if_true, if_false, if_cases, All,
}
use mathlib.Core.Path.{subst}
use lumin.Libc.Malloc.{
  Heap, Loc, root, link, load_loc, min_block, block_real_size, take_block, FreeSearch, absent,
  taken, search,
}
use lumin.Libc.Malloc.Blocks.{Block, IsList, Apart, Disjoint, Solid, Outside, cut, kept, first_fit}
use lumin.Libc.Malloc.Taking.{LocOutside, SameRoot, Frame, take_whole, take_front}

-- What the search comes to, given what the first fit is.
abbrev pub Framed : Loc → List Block → Heap → FreeSearch → Option (Block × List Block) → Type 0
Framed pp ys h r none = r ≡ absent
Framed pp ys h r (some (b, ys')) =
    (h' : Heap) × (r ≡ taken b.start h')
    × IsList h' (load_loc pp h') ys'
    × (block_real_size b.start h' ≡ b.size)
    × Frame pp ys h h'

Outside-Apart :
    (y : Block) (ys : List Block)
    → Solid y
    → All Solid ys
    → All (Apart y) ys
    → All (Outside y.start) ys
Outside-Apart y [] solid all_solid apart = tt
Outside-Apart y (z ∷ zs) solid (z_solid, all_solid) (apart, rest) =
    (ground (arith, apart, solid, z_solid), Outside-Apart y zs solid all_solid rest)

-- What a search behind the block `y` has found, seen from before it.
later :
    (pp : Loc) (y : Block) (ys : List Block) (h : Heap) (r : FreeSearch)
    (o : Option (Block × List Block))
    → IsList h (load_loc pp h) (y ∷ ys)
    → LocOutside pp (y ∷ ys)
    → Disjoint (y ∷ ys)
    → All Solid (y ∷ ys)
    → Framed (link y.start) ys h r o
    → Framed pp (y ∷ ys) h r (kept y o)
later pp y ys h r none list outside disjoint solid gone = gone
later pp y ys h r (some (b, ys')) (at, nonzero, real, list) outside (apart, disjoint)
      (solid, all_solid) (h', result, list', taken_size, frame) =
    (
      h',
      result,
      (
        front pp outside ∙ at,
        nonzero,
        ap (λ (n : ℕ). n / 2 * 2)
              ((frame.words y.start (Outside-Apart y ys solid all_solid apart)).0)
            ∙ real,
        list',
      ),
      taken_size,
      record {
        words = λ q (out, rest). (
          (frame.words q rest).0,
          λ free. (frame.words q rest).1 (λ e. ground (arith, e, out, solid)),
        );
        at_root = root_same pp;
        end = frame.end;
      },
    )
  where
    front : (pp : Loc) → LocOutside pp (y ∷ ys) → load_loc pp h' ≡ load_loc pp h
    front root out = frame.at_root
    front (link p) (out, rest) = (frame.words p rest).1 (λ e. ground (arith, e, out, solid))

    root_same : (pp : Loc) → SameRoot pp h h'
    root_same root = tt
    root_same (link p) = frame.at_root

take_block-cut :
    (pp : Loc) (y : Block) (ys : List Block) (total : ℕ) (h : Heap)
    → IsList h y.start (y ∷ ys)
    → LocOutside pp (y ∷ ys)
    → Disjoint (y ∷ ys)
    → All Solid (y ∷ ys)
    → 0 < total
    → total % 2 ≡ 0
    → total ≤ y.size
    → Framed pp (y ∷ ys) h (taken y.start (take_block pp y.start total h)) (some (cut total y ys))
unfolding take_block
take_block-cut pp y ys total h list outside disjoint solid some_bytes even fits =
    let P = λ (o : Block × List Block).
      Framed pp (y ∷ ys) h (taken y.start (take_block pp y.start total h)) (some o) in
    let real = list.2 in
    if_cases P (leb min_block (y.size - total))
      (λ large.
        let goes : leb min_block (block_real_size y.start h - total) ≡ true =
          ground (arith, large, real) in
        let (list', taken_size, frame) =
          take_front pp y ys total h list outside disjoint solid some_bytes even
            (ground (arith, large)) in
        (_, ap (taken y.start) (if_true _ _ goes), list', taken_size, frame))
      (λ small.
        let stays : leb min_block (block_real_size y.start h - total) ≡ false =
          ground (arith, small, real) in
        let (list', taken_size, frame) = take_whole pp y ys h list outside disjoint solid in
        (_, ap (taken y.start) (if_false _ _ stays), list', taken_size, frame))

pub search-first_fit :
    (fuel : ℕ) (pp : Loc) (total : ℕ) (h : Heap) (ys : List Block)
    → IsList h (load_loc pp h) ys
    → LocOutside pp ys
    → Disjoint ys
    → All Solid ys
    → 0 < total
    → total % 2 ≡ 0
    → length ys < fuel
    → Framed pp ys h (search fuel pp total h) (first_fit total ys)
unfolding search
search-first_fit zero pp total h ys list outside disjoint solid some_bytes even n =
    absurd (omega (arith, n))
search-first_fit (suc fuel) pp total h [] list outside disjoint solid some_bytes even n =
    if_true {q = load_loc pp h == 0} _ _ (ground (arith, list))
search-first_fit (suc fuel) pp total h (y ∷ ys) list outside disjoint solid some_bytes even n =
    let b = load_loc pp h in
    let (at, nonzero, real, rest) = list in
    let some_block : (b == 0) ≡ false = ground (arith, at, nonzero) in
    let size : block_real_size b h ≡ y.size = ap (λ (x : ℕ). block_real_size x h) at ∙ real in
    if_cases (Framed pp (y ∷ ys) h (search (suc fuel) pp total h)) (leb total y.size)
      (λ large.
        let fits : leb total (block_real_size b h) ≡ true = ground (arith, large, size) in
        let step =
          if_false _ _ some_block
          ∙ if_true _ _ fits
          ∙ ap (λ (x : ℕ). taken x (take_block pp x total h)) at in
        subst (λ r. Framed pp (y ∷ ys) h r (some (cut total y ys))) (sym step)
          (take_block-cut pp y ys total h (refl, nonzero, real, rest) outside disjoint solid
            some_bytes even (ground (arith, large))))
      (λ small.
        let too_small : leb total (block_real_size b h) ≡ false = ground (arith, small, size) in
        let step : search (suc fuel) pp total h ≡ search fuel (link y.start) total h =
          if_false _ _ some_block
          ∙ if_false _ _ too_small
          ∙ ap (λ (x : ℕ). search fuel (link x) total h) at in
        subst (λ r. Framed pp (y ∷ ys) h r (kept y (first_fit total ys))) (sym step)
          (later pp y ys h (search fuel (link y.start) total h) (first_fit total ys) list outside
            disjoint solid
            (search-first_fit fuel (link y.start) total h ys rest
              (Outside-Apart y ys solid.0 solid.1 disjoint.0) disjoint.1 solid.1 some_bytes even
              (omega (arith, n)))))
