-- ===== src/Fat32/Dirs/Chained.antt =====
-- The loops of `fat32_read_dir` and `fat32_lookup` of kernel/fs/fat32.c on clusters and sectors as
-- one pass over the entries of the whole directory.
use lumin.Prelude.{
  ℕ, zero, suc, ◌+◌, ◌<◌, ◌≡◌, refl, sym, ap, ◌∙◌, Option, none, some, List, [], ◌∷◌, ◌++◌, arith,
  ◌%◌, ◌==◌, if_true, if_false, length, Bool-cases, inl, inr, false,
}
use lumin.Fat32.{Disk, Sector, Fs, u32_mod, is_link, fat_next_cluster}
use lumin.Fat32.Volume.{first_sector}
use lumin.Fat32.Chains.{Chain}
use lumin.Fat32.LongNames.{Scan}
use lumin.Fat32.Dirs.{
  Slot, first_byte, dent_attr, is_volume_id, slots, DirScan, Pass, scan_then, more, ends, gives,
  Found, found_or, missing, Dentry, Place, matches, scan_slots, lookup_slots, on_sector,
  each_sector, each_cluster,
}
use lumin.Fat32.Dirs.Entries.{by_kind-path, or_missing}

-- A sector that cannot be read ends a directory as an end mark does.
abbrev pub read_slots : ℕ → Option Sector → List Slot
read_slots sector none = record { sector = sector; offset = 0; bytes = λ p. 0 } ∷ []
read_slots sector (some b) = slots 16 0 sector b

module _ (disk : Disk) where
  open disk use {State, read}

  -- The entries of the sectors `s`, …, `s + left - 1` of a cluster.
  abbrev pub cluster_slots : State → ℕ → ℕ → ℕ → List Slot
  cluster_slots d zero first s = []
  cluster_slots d (suc left) first s =
      let sector = (first + s) % u32_mod in
      read_slots sector (read d sector) ++ cluster_slots d left first (s + 1)

  -- The entries of the directory whose clusters are `xs`.
  abbrev pub dir_slots : Fs → State → List ℕ → List Slot
  dir_slots fs d [] = []
  dir_slots fs d (x ∷ xs) =
      cluster_slots d fs.sectors_per_cluster (first_sector fs x) 0 ++ dir_slots fs d xs

-- A scan that goes on where it stopped, and that stops at an end mark.
pub record IsPass {A : Type 0} (scan : List Slot → DirScan → Pass A) : Type 0 where
  pub nothing : (st : DirScan) → scan [] st ≡ more st
  pub appends :
      (xs ys : List Slot) (st : DirScan) → scan (xs ++ ys) st ≡ scan_then (scan xs st) (scan ys)
  pub stops :
      (s : Slot) (rest : List Slot) (st : DirScan) → first_byte s ≡ 0 → scan (s ∷ rest) st ≡ ends

pub scan_slots-IsPass : (target : ℕ) → IsPass (scan_slots target)
unfolding scan_slots
scan_slots-IsPass target = record {
  nothing = λ st. refl;
  appends = append_lem;
  stops = λ s rest st mark. if_true {q = first_byte s == 0} _ _ (ground (arith, mark));
}
  where
    append_lem :
        (xs ys : List Slot) (st : DirScan)
        → scan_slots target (xs ++ ys) st
          ≡ scan_then (scan_slots target xs st) (scan_slots target ys)
    append_lem [] ys st = refl
    append_lem (s ∷ xs) ys st =
        let again = λ (lfn : Scan). append_lem xs ys (record st { lfn = lfn }) in
        by_kind-path (λ (p : Pass Dentry). p)
          (λ (p : Pass Dentry). scan_then p (scan_slots target ys)) (first_byte s == 0)
          (first_byte s == 0xE5) (dent_attr s == 0x0F) (is_volume_id s) refl (again _) (again _)
          (again _)
          (elim (Bool-cases (st.visible_count == target)) [
            | inl here ↦
                if_true _ _ here
                ∙ sym (
                    ap (λ (p : Pass Dentry). scan_then p (scan_slots target ys)) (if_true _ _ here))
            | inr later ↦
                if_false _ _ later
                ∙ append_lem xs ys _
                ∙ sym (
                    ap (λ (p : Pass Dentry). scan_then p (scan_slots target ys))
                      (if_false _ _ later))
          ])

pub lookup_slots-IsPass : (name : List ℕ) → IsPass (lookup_slots name)
unfolding lookup_slots
lookup_slots-IsPass name = record {
  nothing = λ st. refl;
  appends = append_lem;
  stops = λ s rest st mark. if_true {q = first_byte s == 0} _ _ (ground (arith, mark));
}
  where
    append_lem :
        (xs ys : List Slot) (st : DirScan)
        → lookup_slots name (xs ++ ys) st
          ≡ scan_then (lookup_slots name xs st) (lookup_slots name ys)
    append_lem [] ys st = refl
    append_lem (s ∷ xs) ys st =
        let again = λ (lfn : Scan). append_lem xs ys (record st { lfn = lfn }) in
        let after = λ (p : Pass Place). scan_then p (lookup_slots name ys) in
        by_kind-path (λ (p : Pass Place). p) after (first_byte s == 0) (first_byte s == 0xE5)
          (dent_attr s == 0x0F) (is_volume_id s) refl (again _) (again _) (again _)
          (elim (Bool-cases (matches name s st.lfn)) [
            | inl here ↦ if_true _ _ here ∙ sym (ap after (if_true _ _ here))
            | inr other ↦ if_false _ _ other ∙ again _ ∙ sym (ap after (if_false _ _ other))
          ])

module _ {A : Type 0} where
  after_both :
      (p : Pass A) (f : DirScan → Pass A) (g : DirScan → Found A)
      → found_or (scan_then p f) g ≡ found_or p (λ st. found_or (f st) g)
  after_both (more st) f g = refl
  after_both ends f g = refl
  after_both (gives a) f g = refl

  scan_then_cong :
      (p : Pass A) (f g : DirScan → Pass A)
      → ((st : DirScan) → f st ≡ g st)
      → scan_then p f ≡ scan_then p g
  scan_then_cong (more st) f g h = h st
  scan_then_cong ends f g h = refl
  scan_then_cong (gives a) f g h = refl

  found_or_cong :
      (p : Pass A) (f g : DirScan → Found A)
      → ((st : DirScan) → f st ≡ g st)
      → found_or p f ≡ found_or p g
  found_or_cong (more st) f g h = h st
  found_or_cong ends f g h = refl
  found_or_cong (gives a) f g h = refl

  module _ (disk : Disk) (scan : List Slot → DirScan → Pass A) (w : IsPass scan) where
    open disk use {State, read}

    on_sector-read_slots :
        (sector : ℕ) (b : Option Sector) (st : DirScan)
        → on_sector scan sector b st ≡ scan (read_slots sector b) st
    on_sector-read_slots sector none st = sym (w.stops _ [] st refl)
    on_sector-read_slots sector (some b) st = refl

    each_sector-cluster_slots :
        (left first s : ℕ) (d : State) (st : DirScan)
        → each_sector (λ sector. on_sector scan sector (read d sector)) left first s st
          ≡ scan (cluster_slots disk d left first s) st
    unfolding each_sector
    each_sector-cluster_slots zero first s d st = sym (w.nothing st)
    each_sector-cluster_slots (suc left) first s d st =
        let sector = (first + s) % u32_mod in
        scan_then_cong (on_sector scan sector (read d sector) st) _ _
          (each_sector-cluster_slots left first (s + 1) d)
        ∙ ap (λ (p : Pass A). scan_then p (scan (cluster_slots disk d left first (s + 1))))
            (on_sector-read_slots sector (read d sector) st)
        ∙ sym (w.appends (read_slots sector (read d sector)) _ st)

    -- The loops on a chain of clusters that ends within the fuel are one pass over its entries.
    pub each_cluster-dir_slots :
        (fuel c : ℕ) (fs : Fs) (xs : List ℕ) (d : State) (st : DirScan)
        → Chain (λ e. fat_next_cluster disk fs e d) c xs
        → length xs < fuel
        → each_cluster disk fuel fs scan c d st ≡ or_missing (scan (dir_slots disk fs d xs) st)
    unfolding each_cluster
    each_cluster-dir_slots zero c fs xs d st chain n = absurd (omega (arith, n))
    each_cluster-dir_slots (suc fuel) c fs [] d st chain n =
        let over : is_link c ≡ false = ground (arith, chain) in
        if_false _ _ over ∙ ap or_missing (sym (w.nothing st))
    each_cluster-dir_slots (suc fuel) c fs (x ∷ xs) d st (same, link, rest) n =
        let here = cluster_slots disk d fs.sectors_per_cluster (first_sector fs x) 0 in
        let next : DirScan → Found A =
          each_cluster disk fuel fs scan (fat_next_cluster disk fs c d) d in
        if_true _ _ link
        ∙ ap (λ (p : Pass A). found_or p next)
            (each_sector-cluster_slots fs.sectors_per_cluster (first_sector fs c) 0 d st)
        ∙ ap
            (λ (y : ℕ).
              found_or (scan (cluster_slots disk d fs.sectors_per_cluster (first_sector fs y) 0) st)
                next)
            same
        ∙ found_or_cong (scan here st) next _
            (λ st'. each_cluster-dir_slots fuel _ fs xs d st' rest (omega (arith, n)))
        ∙ sym (after_both (scan here st) (scan (dir_slots disk fs d xs)) (λ st'. missing))
        ∙ ap or_missing (sym (w.appends here (dir_slots disk fs d xs) st))
