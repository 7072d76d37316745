-- ===== src/Libc/Malloc/Taking.antt =====
-- What a block that malloc of libc/src/stdlib/malloc.c takes from its list leaves there.
use lumin.Prelude.{
  ℕ, ◌+◌, ◌-◌, ◌*◌, ◌/◌, ◌%◌, ◌<◌, ◌≤◌, ◌≡◌, ◌≢◌, refl, sym, ap, ◌∙◌, arith, List, [], ◌∷◌, All,
  update,
}
use mathlib.Core.Path.{subst}
use lumin.Libc.Malloc.{
  Heap, Loc, root, link, load_loc, store_loc, set_size, set_next, block_real_size,
}
use lumin.Libc.Malloc.Blocks.{Block, IsList, Apart, Disjoint, Solid, Outside}

-- What `pp` points to lies in none of the blocks.
abbrev pub LocOutside : Loc → List Block → Type 0
LocOutside root ys = Unit
LocOutside (link p) ys = All (Outside p) ys

-- `pp` does not point to the link of the block at `q`.
abbrev pub NotAt : Loc → ℕ → Type 0
NotAt root q = Unit
NotAt (link p) q = q ≢ p

-- The words at an address are the same, but for what `pp` points to.
abbrev pub SameAt : Loc → Heap → Heap → ℕ → Type 0
SameAt pp h h' q = (h'.size q ≡ h.size q) × (NotAt pp q → h'.next q ≡ h.next q)

abbrev pub SameRoot : Loc → Heap → Heap → Type 0
SameRoot root h h' = Unit
SameRoot (link p) h h' = h'.free_list ≡ h.free_list

-- Nothing outside the blocks has changed, but for what `pp` points to.
pub record Frame (pp : Loc) (ys : List Block) (h h' : Heap) : Type 0 where
  pub words : (q : ℕ) → All (Outside q) ys → SameAt pp h h' q
  pub at_root : SameRoot pp h h'
  pub end : h'.brk ≡ h.brk

pub update_same : (f : ℕ → ℕ) (k v : ℕ) → update f k v k ≡ v
update_same f k v = ground arith

pub update_other : (f : ℕ → ℕ) (k v j : ℕ) → j ≢ k → update f k v j ≡ f j
update_other f k v j h = ground (arith, h)

-- A list of blocks whose words are the same.
pub IsList-same :
    (h h' : Heap) (b : ℕ) (ys : List Block)
    → All (λ y. (h'.size y.start ≡ h.size y.start) × (h'.next y.start ≡ h.next y.start)) ys
    → IsList h b ys
    → IsList h' b ys
IsList-same h h' b [] same list = list
IsList-same h h' b (y ∷ ys) ((size, next), same) (at, nonzero, real, rest) = (
  at,
  nonzero,
  ap (λ (n : ℕ). n / 2 * 2) size ∙ real,
  subst (λ n. IsList h' n ys) (sym next) (IsList-same h h' (h.next y.start) ys same rest),
)

load_loc-store_loc : (pp : Loc) (v : ℕ) (h : Heap) → load_loc pp (store_loc pp v h) ≡ v
load_loc-store_loc root v h = refl
load_loc-store_loc (link p) v h = update_same h.next p v

load_loc-set_size : (pp : Loc) (b v : ℕ) (h : Heap) → load_loc pp (set_size b v h) ≡ load_loc pp h
load_loc-set_size root b v h = refl
load_loc-set_size (link p) b v h = refl

size-store_loc : (pp : Loc) (v q : ℕ) (h : Heap) → (store_loc pp v h).size q ≡ h.size q
size-store_loc root v q h = refl
size-store_loc (link p) v q h = refl

next-store_loc : (pp : Loc) (v q : ℕ) (h : Heap) → NotAt pp q → (store_loc pp v h).next q ≡ h.next q
next-store_loc root v q h out = refl
next-store_loc (link p) v q h out = update_other h.next p v q out

brk-store_loc : (pp : Loc) (v : ℕ) (h : Heap) → (store_loc pp v h).brk ≡ h.brk
brk-store_loc root v h = refl
brk-store_loc (link p) v h = refl

store_loc-SameRoot :
    (pp : Loc) (b v n : ℕ) (h : Heap) → SameRoot pp h (set_size b v (store_loc pp n h))
store_loc-SameRoot root b v n h = tt
store_loc-SameRoot (link p) b v n h = refl

-- `pp` points to no link inside a block that it lies outside of.
LocOutside-NotAt :
    (pp : Loc) (y : Block) (ys : List Block) (q : ℕ)
    → LocOutside pp (y ∷ ys)
    → y.start ≤ q
    → q < y.start + y.size
    → NotAt pp q
LocOutside-NotAt root y ys q out low high = tt
LocOutside-NotAt (link p) y ys q (out, rest) low high = λ same. ground (arith, same, out, low, high)

LocOutside-rest :
    (pp : Loc) (y : Block) (ys : List Block) → LocOutside pp (y ∷ ys) → LocOutside pp ys
LocOutside-rest root y ys out = tt
LocOutside-rest (link p) y ys (out, rest) = rest

-- The blocks behind `y` are the same list when nothing outside `y` has changed.
IsList-behind :
    (pp : Loc) (y : Block) (b : ℕ) (ys : List Block) (h h' : Heap)
    → ((q : ℕ) → Outside q y → SameAt pp h h' q)
    → LocOutside pp ys
    → All (Apart y) ys
    → Solid y
    → All Solid ys
    → IsList h b ys
    → IsList h' b ys
IsList-behind pp y b ys h h' same outside apart solid all_solid list =
    IsList-same h h' b ys (each ys outside apart all_solid) list
  where
    each :
        (ys : List Block)
        → LocOutside pp ys
        → All (Apart y) ys
        → All Solid ys
        → All (λ z. (h'.size z.start ≡ h.size z.start) × (h'.next z.start ≡ h.next z.start)) ys
    each [] outside apart all_solid = tt
    each (z ∷ zs) outside (apart, rest) (z_solid, all_solid) =
        let at : Outside z.start y = ground (arith, apart, solid, z_solid) in
        let (size, next) = same z.start at in
        (
          (
            size,
            next (LocOutside-NotAt pp z zs z.start outside (omega arith) (omega (arith, z_solid))),
          ),
          each zs (LocOutside-rest pp z zs outside) rest all_solid,
        )

-- The whole block `y` is taken.
pub take_whole :
    (pp : Loc) (y : Block) (ys : List Block) (h : Heap)
    → IsList h y.start (y ∷ ys)
    → LocOutside pp (y ∷ ys)
    → Disjoint (y ∷ ys)
    → All Solid (y ∷ ys)
    → let h' = set_size y.start (block_real_size y.start h) (store_loc pp (h.next y.start) h) in
      IsList h' (load_loc pp h') ys × (block_real_size y.start h' ≡ y.size) × Frame pp (y ∷ ys) h h'
take_whole pp y ys h (at, nonzero, real, list) outside (apart, disjoint) (solid, all_solid) =
    let v = block_real_size y.start h in
    let g = store_loc pp (h.next y.start) h in
    let h' = set_size y.start v g in
    let same : (q : ℕ) → Outside q y → SameAt pp h h' q = λ q out. (
      update_other g.size y.start v q (λ e. ground (arith, e, out, solid))
          ∙ size-store_loc pp (h.next y.start) q h,
      next-store_loc pp (h.next y.start) q h,
    ) in
    (
      subst (λ n. IsList h' n ys)
          (sym (load_loc-set_size pp y.start v g ∙ load_loc-store_loc pp (h.next y.start) h))
          (IsList-behind pp y (h.next y.start) ys h h' same (LocOutside-rest pp y ys outside) apart
            solid all_solid list),
      ap (λ (n : ℕ). n / 2 * 2) (update_same g.size y.start v) ∙ (omega (arith, real)),
      record {
        words = λ q out. same q out.0;
        at_root = store_loc-SameRoot pp y.start v (h.next y.start) h;
        end = brk-store_loc pp (h.next y.start) h;
      },
    )

-- The front of the block `y` is taken, and the rest is a free block.
pub take_front :
    (pp : Loc) (y : Block) (ys : List Block) (total : ℕ) (h : Heap)
    → IsList h y.start (y ∷ ys)
    → LocOutside pp (y ∷ ys)
    → Disjoint (y ∷ ys)
    → All Solid (y ∷ ys)
    → 0 < total
    → total % 2 ≡ 0
    → total < y.size
    → let rest = block_real_size y.start h - total in
      let nb = y.start + total in
      let split = set_size nb (rest / 2 * 2 + 1) h in
      let h' = set_size y.start total (store_loc pp nb (set_next nb (split.next y.start) split)) in
      IsList h' (load_loc pp h') (record { start = nb; size = y.size - total } ∷ ys)
      × (block_real_size y.start h' ≡ total)
      × Frame pp (y ∷ ys) h h'
take_front pp y ys total h (at, nonzero, real, list) outside (apart, disjoint) (solid, all_solid)
      some_bytes even less =
    let nb = y.start + total in
    let r = (block_real_size y.start h - total) / 2 * 2 + 1 in
    let split = set_next nb (h.next y.start) (set_size nb r h) in
    let g = store_loc pp nb split in
    let h' = set_size y.start total g in
    let same : (q : ℕ) → Outside q y → SameAt pp h h' q = λ q out.
      let not_nb : q ≢ nb = λ e. ground (arith, e, out, less) in
      (
        update_other g.size y.start total q (λ e. ground (arith, e, out, solid))
            ∙ size-store_loc pp nb q split
            ∙ update_other h.size nb r q not_nb,
        λ free.
            next-store_loc pp nb q split free ∙ update_other h.next nb (h.next y.start) q not_nb,
      ) in
    let not_at : NotAt pp nb =
      LocOutside-NotAt pp y ys nb outside (omega arith) (omega (arith, less)) in
    let nb_next : h'.next nb ≡ h.next y.start =
      next-store_loc pp nb nb split not_at ∙ update_same h.next nb (h.next y.start) in
    let nb_size : h'.size nb ≡ r =
      update_other g.size y.start total nb (λ e. omega (arith, e, some_bytes))
      ∙ size-store_loc pp nb nb split
      ∙ update_same h.size nb r in
    let behind =
      IsList-behind pp y (h.next y.start) ys h h' same (LocOutside-rest pp y ys outside) apart solid
        all_solid list in
    (
      subst (λ n. IsList h' n (record { start = nb; size = y.size - total } ∷ ys))
          (sym (load_loc-set_size pp y.start total g ∙ load_loc-store_loc pp nb split))
          (
            refl,
            λ e. omega (arith, e, some_bytes),
            omega (arith, nb_size, real, even, less),
            subst (λ n. IsList h' n ys) (sym nb_next) behind,
          ),
      ap (λ (n : ℕ). n / 2 * 2) (update_same g.size y.start total) ∙ omega (arith, even),
      record {
        words = λ q out. same q out.0;
        at_root = front_root pp;
        end = brk-store_loc pp nb split;
      },
    )
  where
    front_root :
        (pp : Loc)
        → SameRoot pp h (
            set_size y.start total (
              store_loc pp (y.start + total) (
                set_next (y.start + total) (h.next y.start) (
                  set_size (y.start + total) ((block_real_size y.start h - total) / 2 * 2 + 1) h))))
    front_root root = tt
    front_root (link p) = refl
