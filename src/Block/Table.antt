-- ===== src/Block/Table.antt =====
-- The table of registered devices of kernel/block/block.c.
use lumin.Prelude.{
  ℕ, suc, ◌+◌, ◌≤◌, ◌<◌, ◌≡◌, refl, sym, ap, ◌∙◌, inl, inr, Bool, true, false, not, ◌||◌, Option,
  none, some, List, [], ◌∷◌, ◌++◌, arith, leb, ◌==◌, if◌then◌else◌, Bool-cases, Option-cases,
  ==-refl, length, length-append,
}
use lumin.Block.{Blocks, register, unregister, remove, set_registered, max_devs, has_read}

-- How often a device stands in the list.
abbrev pub occurrences : ℕ → List ℕ → ℕ
occurrences i [] = 0
occurrences i (j ∷ js) = (if j == i then 1 else 0) + occurrences i js

abbrev pub flag : Bool → ℕ
flag true = 1
flag false = 0

-- Each registered device stands in the table once, and no other device does.
pub record IsTable (b : Blocks) : Type 0 where
  pub once : (i : ℕ) → occurrences i b.devices ≡ flag (b.device i).registered
  pub bounded : length b.devices ≤ max_devs

occurrences-append :
    (i j : ℕ) (l : List ℕ)
    → occurrences i (l ++ j ∷ []) ≡ occurrences i l + (if j == i then 1 else 0)
occurrences-append i j [] = omega arith
occurrences-append i j (k ∷ l) = omega (arith, occurrences-append i j l)

-- One occurrence of `i` is taken out.
remove_lem :
    (i : ℕ) (l r : List ℕ)
    → remove i l ≡ some r
    → (length l ≡ suc (length r))
      × ((j : ℕ) → occurrences j l ≡ (if i == j then 1 else 0) + occurrences j r)
unfolding remove
remove_lem i [] r h = cc
remove_lem i (k ∷ l) r h = elim (Bool-cases (k == i)) [
  | inl here ↦
      let e : k ≡ i = ground arith in
      let same : l ≡ r = from_some (rw here at h) in rw (← same) (refl, λ j. rw e refl)
  | inr there ↦ elim (Option-cases (remove i l)) [
    | inl missing ↦ let bad = rw (there, missing) at h in cc
    | inr (q, found) ↦
        let (len, occ) = remove_lem i l q found in
        let same : k ∷ q ≡ r = from_some (rw (there, found) at h) in
        rw (← same) (ap suc len, λ j. omega (arith, occ j))
  ]
]
  where
    from_some : {a b : List ℕ} → some a ≡ some b → a ≡ b
    from_some e = cc

remove-found : (i : ℕ) (l : List ℕ) → 0 < occurrences i l → (r : List ℕ) × (remove i l ≡ some r)
unfolding remove
remove-found i [] h = absurd (omega arith)
remove-found i (k ∷ l) h = elim (Bool-cases (k == i)) [
  | inl here ↦ rw here (l, refl)
  | inr there ↦ let (r, e) = remove-found i l (ground arith) in rw (there, e) (k ∷ r, refl)
]

-- Taking out what stands only at the end.
remove-append : (i : ℕ) (l : List ℕ) → occurrences i l ≡ 0 → remove i (l ++ i ∷ []) ≡ some l
unfolding remove
remove-append i [] h = rw (same i) refl
  where
    same : (i : ℕ) → (i == i) ≡ true
    same i = ground arith
remove-append i (k ∷ l) h =
    let other : (k == i) ≡ false = ground arith in rw (other, remove-append i l (ground arith)) refl

-- The store of `set_registered`.
flag_lem :
    (v : Bool) (i j : ℕ) (b : Blocks)
    → flag ((set_registered v i b).device j).registered
      ≡ (if j == i then flag v else flag (b.device j).registered)
flag_lem v i j b = elim (Bool-cases (j == i)) [
  | inl same ↦ rw same refl
  | inr other ↦ rw other refl
]

-- `block_register` keeps each registered device in the table once, and at most 16 of them, on every branch.
pub register-IsTable : (dev : Option ℕ) {b : Blocks} → IsTable b → IsTable (register dev b).1
unfolding register
register-IsTable none h = h
register-IsTable (some i) {b} h = elim (Bool-cases (leb max_devs (length b.devices))) [
  | inl full ↦ rw full h
  | inr room ↦
      elim (Bool-cases (
        (b.device i).registered
        || (not (has_read (b.device i).ops) || ((b.device i).sector_size == 0)))) [
          | inl bad ↦ rw (room, bad) h
          | inr good ↦
              let fresh : (b.device i).registered ≡ false = ground arith in
              rw (room, good)
                (record {
                  once = λ j.
                      occurrences-append j i b.devices
                      ∙ (added j fresh (h.once j) ∙ sym (flag_lem true i j b));
                  bounded = ground (arith, length-append b.devices (i ∷ []));
                })
        ]
]
  where
    added :
        (j : ℕ)
        → (b.device i).registered ≡ false
        → occurrences j b.devices ≡ flag (b.device j).registered
        → occurrences j b.devices + (if i == j then 1 else 0)
          ≡ (if j == i then 1 else flag (b.device j).registered)
    added j fresh e = elim (Bool-cases (j == i)) [
      | inl same ↦
          let at : j ≡ i = ground arith in
          let none_yet : occurrences j b.devices ≡ 0 = e ∙ ap flag (rw (← at) at fresh) in
          ground arith
      | inr other ↦ ground arith
    ]

-- `block_unregister` keeps each registered device in the table once, and at most 16 of them, on every
-- branch, and succeeds exactly on a registered device.
pub unregister-IsTable :
    (i : ℕ) {b : Blocks}
    → IsTable b
    → IsTable (unregister (some i) b).1 × ((unregister (some i) b).0 ≡ (b.device i).registered)
unfolding unregister
unregister-IsTable i {b} h = elim (Bool-cases (b.device i).registered) [
  | inr absent ↦ rw absent (h, refl)
  | inl present ↦
      let (r, e) = remove-found i b.devices (omega (arith, h.once i ∙ ap flag present)) in
      let (len, occ) = remove_lem i b.devices r e in
      rw (present, e)
        (
          record {
            once = λ j. taken j r present (h.once j) (occ j) ∙ sym (flag_lem false i j b);
            bounded = omega (arith, h.bounded);
          },
          refl,
        )
]
  where
    taken :
        (j : ℕ) (r : List ℕ)
        → (b.device i).registered ≡ true
        → occurrences j b.devices ≡ flag (b.device j).registered
        → occurrences j b.devices ≡ (if i == j then 1 else 0) + occurrences j r
        → occurrences j r ≡ (if j == i then 0 else flag (b.device j).registered)
    taken j r on e o = elim (Bool-cases (j == i)) [
      | inl same ↦
          let at : j ≡ i = ground arith in
          let one : occurrences j b.devices ≡ 1 = e ∙ ap flag (rw (← at) at on) in ground arith
      | inr other ↦ ground arith
    ]

-- Where `block_register` takes a device, `block_unregister` of it then succeeds and leaves the table as
-- it was before.
pub unregister-register :
    (i : ℕ) {b : Blocks}
    → IsTable b
    → (register (some i) b).0 ≡ true
    → let b' = (register (some i) b).1 in
      ((unregister (some i) b').0 ≡ true) × ((unregister (some i) b').1.devices ≡ b.devices)
unfolding register unregister
unregister-register i {b} h ok = elim (Bool-cases (leb max_devs (length b.devices))) [
  | inl full ↦ let never = rw full at ok in cc
  | inr room ↦
      elim (Bool-cases (
        (b.device i).registered
        || (not (has_read (b.device i).ops) || ((b.device i).sector_size == 0)))) [
          | inl bad ↦ let never = rw (room, bad) at ok in cc
          | inr good ↦
              let fresh : (b.device i).registered ≡ false = ground arith in
              let gone = remove-append i b.devices (h.once i ∙ ap flag fresh) in
              rw (room, good, ==-refl i, gone) (refl, refl)
        ]
]
