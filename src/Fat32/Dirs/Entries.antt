-- ===== src/Fat32/Dirs/Entries.antt =====
-- The entries of a directory of kernel/fs/fat32.c that a scan stops at: not deleted, not a part of a
-- long name and not a label, each with the long name that was collected before it.
use lumin.Prelude.{
  ℕ, ◌<◌, ◌≤◌, ◌≡◌, refl, sym, ap, ◌∙◌, suc, ◌+◌, ◌-◌, inl, inr, Bool, true, false, Option, none,
  some, List, [], ◌∷◌, arith, ◌==◌, if◌then◌else◌, get_elem?, Bool-cases, if_true, if_false, ◌%◌,
}
use lumin.Fat32.{u32_mod}
use lumin.Fat32.LongNames.{Scan, reset_lfn, add_lfn_entry}
use lumin.Fat32.Dirs.{
  Slot, first_byte, dent_attr, is_volume_id, as_part, DirScan, Pass, Found, missing, found,
  found_or, Dentry, dentry_of, Place, place_of, matches, scan_slots, lookup_slots,
}

-- What the functions do, by the kind of an entry.
abbrev pub by_kind {ℓ} : {A : Type ℓ} → (p q r t : Bool) → A → A → A → A → A → A
by_kind p q r t a b c d e = if p then a else if q then b else if r then c else if t then d else e

pub by_kind-path {ℓ ℓ' ℓ''} :
    {A : Type ℓ} {B : Type ℓ'} {C : Type ℓ''} (f : A → C) (g : B → C) (p q r t : Bool)
    {a b c d e : A} {a' b' c' d' e' : B}
    → f a ≡ g a'
    → f b ≡ g b'
    → f c ≡ g c'
    → f d ≡ g d'
    → f e ≡ g e'
    → f (by_kind p q r t a b c d e) ≡ g (by_kind p q r t a' b' c' d' e')
by_kind-path f g true q r t h1 h2 h3 h4 h5 = h1
by_kind-path f g false true r t h1 h2 h3 h4 h5 = h2
by_kind-path f g false false true t h1 h2 h3 h4 h5 = h3
by_kind-path f g false false false true h1 h2 h3 h4 h5 = h4
by_kind-path f g false false false false h1 h2 h3 h4 h5 = h5

-- An entry that a scan stops at.
pub record Shown : Type 0 where
  pub slot : Slot
  pub before : Scan

-- The entries up to the end mark, from what has been collected of a long name.
abbrev pub entries : List Slot → Scan → List Shown
entries [] st = []
entries (s ∷ rest) st =
    by_kind (first_byte s == 0) (first_byte s == 0xE5) (dent_attr s == 0x0F) (is_volume_id s) []
      (entries rest (reset_lfn st)) (entries rest ((add_lfn_entry (as_part s) st).1))
      (entries rest (reset_lfn st)) (record { slot = s; before = st } ∷ entries rest (reset_lfn st))

-- The entry at an index, as `fat32_read_dir` gives it.
abbrev pub listed : Option Shown → Found Dentry
listed none = missing
listed (some e) = found (dentry_of e.slot e.before)

-- The first entry that a name matches, as `fat32_lookup` gives it.
abbrev pub first_match : List ℕ → List Shown → Found Place
first_match name [] = missing
first_match name (e ∷ rest) =
    if matches name e.slot e.before then found (place_of e.slot) else first_match name rest

abbrev pub or_missing : {A : Type 0} → Pass A → Found A
or_missing p = found_or p (λ st. missing)

pub scan_slots-entries :
    (target : ℕ) (es : List Slot) (st : DirScan)
    → target < u32_mod
    → st.visible_count ≤ target
    → or_missing (scan_slots target es st)
      ≡ listed (get_elem? (entries es st.lfn) (target - st.visible_count))
unfolding scan_slots
scan_slots-entries target [] st small le = refl
scan_slots-entries target (s ∷ rest) st small le =
    let again = λ (lfn : Scan). scan_slots-entries target rest (record st { lfn = lfn }) small le in
    let e : Shown = record { slot = s; before = st.lfn } in
    by_kind-path or_missing (λ (es : List Shown). listed (get_elem? es (target - st.visible_count)))
      (first_byte s == 0) (first_byte s == 0xE5) (dent_attr s == 0x0F) (is_volume_id s) refl
      (again _) (again _) (again _)
      (elim (Bool-cases (st.visible_count == target)) [
        | inl here ↦
            let none_left : 0 ≡ target - st.visible_count = ground (arith, here) in
            ap or_missing (if_true _ _ here)
            ∙ ap (λ (k : ℕ). listed (get_elem? (e ∷ entries rest (reset_lfn st.lfn)) k)) none_left
        | inr later ↦
            let counted : DirScan = record {
              lfn = reset_lfn st.lfn;
              visible_count = (st.visible_count + 1) % u32_mod;
            } in
            let below : st.visible_count < target = ground (arith, later, le) in
            let index : suc (target - counted.visible_count) ≡ target - st.visible_count =
              omega (arith, below, small) in
            ap or_missing (if_false _ _ later)
            ∙ scan_slots-entries target rest counted small (omega (arith, below, small))
            ∙ ap (λ (k : ℕ). listed (get_elem? (e ∷ entries rest (reset_lfn st.lfn)) k)) index
      ])

pub lookup_slots-entries :
    (name : List ℕ) (es : List Slot) (st : DirScan)
    → or_missing (lookup_slots name es st) ≡ first_match name (entries es st.lfn)
unfolding lookup_slots
lookup_slots-entries name [] st = refl
lookup_slots-entries name (s ∷ rest) st =
    let again = λ (lfn : Scan). lookup_slots-entries name rest (record st { lfn = lfn }) in
    by_kind-path or_missing (first_match name) (first_byte s == 0) (first_byte s == 0xE5)
      (dent_attr s == 0x0F) (is_volume_id s) refl (again _) (again _) (again _)
      (elim (Bool-cases (matches name s st.lfn)) [
        | inl here ↦ ap or_missing (if_true _ _ here) ∙ sym (if_true _ _ here)
        | inr other ↦ ap or_missing (if_false _ _ other) ∙ again _ ∙ sym (if_false _ _ other)
      ])
