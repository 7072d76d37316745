-- ===== src/Fat32/Dirs/Names.antt =====
-- The entries that `fat32_read_dir` of kernel/fs/fat32.c lists are found by `fat32_lookup`.
use lumin.Prelude.{
  ℕ, zero, suc, ◌<◌, ◌≤◌, ◌≡◌, ◌≢◌, refl, sym, ap, ◌∙◌, Bool, true, false, Option, none, some, List,
  [], ◌∷◌, ◌++◌, arith, length, get_elem?, ◌==◌, ◌&&◌, ◌||◌, leb, if_true, if_false, if_cases,
  Bool-cases, inl, inr, if◌then◌else◌, take, drop, length-append, length-take, ==-refl,
}
use lumin.Fat32.{Disk, Fs, u32_mod, fat_next_cluster}
use lumin.Fat32.Chains.{Chain}
use lumin.Fat32.Names.{strcmp_ci, lower_case, field_chars, parse_short_name, has_ext}
use lumin.Fat32.LongNames.{Scan, collect_lfn}
use lumin.Fat32.Dirs.{
  Slot, dent_name, Found, found, missing, no_fuel, Dentry, Place, dentry_of, place_of, use_lfn,
  entry_name, matches, fat32_read_dir, fat32_lookup, name_room,
}
use lumin.Fat32.Dirs.Entries.{Shown, listed, first_match}
use lumin.Fat32.Dirs.Listing.{dir_entries, fat32_read_dir-listed, fat32_lookup-first_match}

strcmp_ci_refl : (name : List ℕ) → strcmp_ci name name ≡ true
unfolding strcmp_ci
strcmp_ci_refl [] = refl
strcmp_ci_refl (c ∷ cs) = if_true _ _ (==-refl (lower_case c)) ∙ strcmp_ci_refl cs

take_all : (n : ℕ) (xs : List ℕ) → length xs ≤ n → take n xs ≡ xs
take_all zero [] h = refl
take_all zero (x ∷ xs) h = absurd (omega (arith, h))
take_all (suc n) [] h = refl
take_all (suc n) (x ∷ xs) h = ap (λ (ys : List ℕ). x ∷ ys) (take_all n xs (omega (arith, h)))

field_chars_short : (cs : List ℕ) → length (field_chars cs) ≤ length cs
unfolding field_chars
field_chars_short [] = omega arith
field_chars_short (c ∷ cs) =
    if_cases (λ (l : List ℕ). length l ≤ suc (length cs)) (c == 0 || c == 32) (λ over. omega arith)
      (λ goes. omega (arith, field_chars_short cs))

-- A short name has at most 12 characters.
parse_short_name-fits :
    (cs : List ℕ) (room : ℕ) → 12 ≤ room → parse_short_name cs room ≡ parse_short_name cs 12
unfolding parse_short_name
parse_short_name-fits cs room h =
    let base = field_chars (take 8 cs) in
    let ext = field_chars (take 3 (drop 8 cs)) in
    let text = if has_ext ext then base ++ 46 ∷ ext else base in
    let base_short : length base ≤ 8 =
      omega (arith, field_chars_short (take 8 cs), length-take 8 cs) in
    let ext_short : length ext ≤ 3 =
      omega (arith, field_chars_short (take 3 (drop 8 cs)), length-take 3 (drop 8 cs)) in
    let short : length text ≤ 12 =
      if_cases (λ (l : List ℕ). length l ≤ 12) (has_ext ext)
        (λ some_ext. omega (arith, length-append base (46 ∷ ext), base_short, ext_short))
        (λ plain. omega (arith, base_short)) in
    take_all room text (omega (arith, short, h)) ∙ sym (take_all 12 text short)

by_long : (p q r t : Bool) → p ≡ true → q ≡ true → r ≡ true → (p && q && r || t) ≡ true
by_long true true true t h k l = refl
by_long false q r t h k l = ground (arith, h)
by_long true false r t h k l = ground (arith, k)
by_long true true false t h k l = ground (arith, l)

by_short : (p q r t : Bool) → p ≡ false → t ≡ true → (p && q && r || t) ≡ true
by_short false q r t h k = k
by_short true q r t h k = ground (arith, h)

use_lfn-in_order : (s : Slot) (st : Scan) → use_lfn s st ≡ true → leb st.lfn_seq st.lfn_count ≡ true
unfolding use_lfn
use_lfn-in_order s st h = ground (arith, h)

-- The name that a listing shows for an entry matches the entry.
entry_name-matches : (s : Slot) (st : Scan) → matches (entry_name s st) s st ≡ true
unfolding matches entry_name
entry_name-matches s st =
    let long_name = collect_lfn st.lfn_count 0 st.lfn_buf name_room in
    let short_name = parse_short_name (dent_name s) name_room in
    let fits = parse_short_name-fits (dent_name s) name_room (omega arith) in
    let matched = λ (name : List ℕ). matches name s st in
    elim (Bool-cases (use_lfn s st)) [
      | inl long ↦
          ap matched (if_true long_name short_name long)
          ∙ by_long _ _ _ _ long (use_lfn-in_order s st long) (strcmp_ci_refl long_name)
      | inr short ↦
          ap matched (if_false long_name short_name short)
          ∙ by_short _ _ _ _ short
              (ap (strcmp_ci short_name) (sym fits) ∙ strcmp_ci_refl short_name)
    ]

abbrev or_entry : Shown → Option Shown → Shown
or_entry e none = e
or_entry e (some e') = e'

at_most_found :
    (name : List ℕ) (i : ℕ) (es : List Shown) (e : Shown)
    → get_elem? es i ≡ some e
    → matches name e.slot e.before ≡ true
    → (j : ℕ) × (e' : Shown) × (j ≤ i)
      × (get_elem? es j ≡ some e')
      × (first_match name es ≡ found (place_of e'.slot))
at_most_found name i [] e got here = ground (arith, got)
at_most_found name zero (x ∷ es) e got here =
    let same : x ≡ e = ap (or_entry x) got in
    let first = ap (λ (y : Shown). matches name y.slot y.before) same ∙ here in
    (0, x, omega arith, refl, if_true _ _ first)
at_most_found name (suc i) (x ∷ es) e got here = elim (Bool-cases (matches name x.slot x.before)) [
  | inl first ↦ (0, x, omega arith, refl, if_true _ _ first)
  | inr later ↦
      let (j, e', le, there, is_first) = at_most_found name i es e got here in
      (suc j, e', omega (arith, le), there, if_false _ _ later ∙ is_first)
]

abbrev or_dentry : Dentry → Found Dentry → Dentry
or_dentry de (found de') = de'
or_dentry de missing = de
or_dentry de no_fuel = de

listed_entry :
    (o : Option Shown) (de : Dentry)
    → listed o ≡ found de
    → (e : Shown) × (o ≡ some e) × (dentry_of e.slot e.before ≡ de)
listed_entry none de h = ground (arith, h)
listed_entry (some e) de h = (e, refl, ap (or_dentry de) h)

-- On a directory whose chain of clusters ends within the fuel, for each entry with a name that is
-- not empty which `fat32_read_dir` gives at an index of 32 bits, `fat32_lookup` of that name
-- succeeds: it gives the cluster and the size of an entry that `fat32_read_dir` gives at this index
-- or at a lower one.
pub fat32_lookup-fat32_read_dir :
    (disk : Disk) (fs : Fs) (c fuel index : ℕ) (xs : List ℕ) (d : disk.State) (de : Dentry)
    → Chain (λ e. fat_next_cluster disk fs e d) c xs
    → length xs < fuel
    → index < u32_mod
    → fat32_read_dir disk fuel fs c index d ≡ found de
    → de.name ≢ []
    → (j : ℕ) × (de' : Dentry) × (p : Place) × (j ≤ index)
      × (fat32_read_dir disk fuel fs c j d ≡ found de')
      × (fat32_lookup disk fuel fs c de.name d ≡ found p)
      × (p.out_cluster ≡ de'.ino)
      × (p.out_size ≡ de'.size)
fat32_lookup-fat32_read_dir disk fs c fuel index xs d de chain enough small given some_name =
    let es = dir_entries disk fs d xs in
    let read = fat32_read_dir-listed disk fs c xs d fuel in
    let (e, at_index, is_de) =
      listed_entry (get_elem? es index) de (sym (read index chain enough small) ∙ given) in
    let matched : matches de.name e.slot e.before ≡ true =
      ap (λ (x : Dentry). matches x.name e.slot e.before) (sym is_de)
      ∙ entry_name-matches e.slot e.before in
    let (j, e', le, at_j, is_first) = at_most_found de.name index es e at_index matched in
    (
      j,
      dentry_of e'.slot e'.before,
      place_of e'.slot,
      le,
      read j chain enough (omega (arith, le, small)) ∙ ap listed at_j,
      fat32_lookup-first_match disk fs c xs d fuel de.name chain enough some_name ∙ is_first,
      refl,
      refl,
    )
