-- ===== src/Vfs/Files/Balance.antt =====
-- The open files of kernel/fs/vfs.c and the references that they hold.
use lumin.Prelude.{
  ℕ, zero, suc, ◌+◌, ◌^◌, ◌≤◌, ◌<◌, ◌⊎◌, ◌≡◌, refl, ap, ◌∙◌, inl, inr, false, Option, none, some,
  List, [], ◌∷◌, arith, length, get_or, set, length-set, ◌/◌, ◌%◌, ◌==◌, if_cases,
}
use lumin.Vfs.{InodeStore, OpenFile, vfs_inode_ref}
use lumin.Vfs.Paths.{
  Counts, Balanced, Balanced-resolve_full, Balanced-ref, Balanced-unref, unref_counts, one_at,
}
use lumin.Vfs.Files.{
  Vfs, closed, free_at, find_free, install_file, install_or_drop, file, dup_of, vfs_dup,
  close_inode, vfs_close, resolve, open_resolved, vfs_open,
}

-- How many of the open files are of the inode `j`.
abbrev pub opens : List OpenFile → ℕ → ℕ
opens [] j = 0
opens (f ∷ fs) j = one_at f.inode j + opens fs j

free_at_cases :
    (o rest : Option ℕ) (n : ℕ)
    → free_at o rest ≡ some n
    → ((o ≡ none) × (n ≡ 0)) ⊎ ((m : ℕ) × (rest ≡ some m) × (n ≡ suc m))
free_at_cases none rest n h = inl (refl, ground (arith, h))
free_at_cases (some i) none n h = ground (arith, h)
free_at_cases (some i) (some m) n h = inr (m, refl, ground (arith, h))

-- A free place of the table takes a file.
opens-set_free :
    (fs : List OpenFile) (n i j : ℕ) (f : OpenFile)
    → find_free fs ≡ some n
    → f.inode ≡ some i
    → opens (set fs n f) j ≡ opens fs j + one_at (some i) j
unfolding find_free
opens-set_free [] n i j f found is_i = ground (arith, found)
opens-set_free (g ∷ fs) n i j f found is_i = elim (free_at_cases g.inode (find_free fs) n found) [
  | inl here ↦
      let free : one_at g.inode j ≡ 0 = ap (λ (o : Option ℕ). one_at o j) (here.0) in
      let taken : one_at f.inode j ≡ one_at (some i) j = ap (λ (o : Option ℕ). one_at o j) is_i in
      ap (λ (k : ℕ). opens (set (g ∷ fs) k f) j) (here.1) ∙ omega (arith, free, taken)
  | inr there ↦
      let (m, more, is_suc) = there in
      ap (λ (k : ℕ). opens (set (g ∷ fs) k f) j) is_suc
      ∙ omega (arith, opens-set_free fs m i j f more is_i)
]

-- A place that is in use is closed.
opens-set-closed :
    (fs : List OpenFile) (n i j : ℕ)
    → (get_or fs n closed).inode ≡ some i
    → opens (set fs n closed) j + one_at (some i) j ≡ opens fs j
opens-set-closed [] n i j is_i = ground (arith, is_i)
opens-set-closed (g ∷ fs) zero i j is_i =
    let same : one_at g.inode j ≡ one_at (some i) j = ap (λ (o : Option ℕ). one_at o j) is_i in
    omega (arith, same)
opens-set-closed (g ∷ fs) (suc n) i j is_i = omega (arith, opens-set-closed fs n i j is_i)

-- An entry in use belongs to an inode that is counted.
opens_one : (fs : List OpenFile) (n i : ℕ) → (get_or fs n closed).inode ≡ some i → 1 ≤ opens fs i
opens_one [] n i is_i = ground (arith, is_i)
opens_one (g ∷ fs) zero i is_i =
    let same : one_at g.inode i ≡ one_at (some i) i = ap (λ (o : Option ℕ). one_at o i) is_i in
    let self : one_at (some i) i ≡ 1 = ground arith in omega (arith, same, self)
opens_one (g ∷ fs) (suc n) i is_i = omega (arith, opens_one fs n i is_i)

one_most : (o : Option ℕ) (j : ℕ) → one_at o j ≤ 1
one_most none j = omega arith
one_most (some i) j = ground arith

opens_most : (fs : List OpenFile) (j : ℕ) → opens fs j ≤ length fs
opens_most [] j = omega arith
opens_most (f ∷ fs) j =
    let most : one_at f.inode j ≤ 1 = one_most f.inode j in omega (arith, most, opens_most fs j)

module _ (driver : InodeStore) (c : Counts driver) (base : ℕ → ℕ)
    (small : (j : ℕ) → base j + 70 < 2 ^ 32) where
  open driver use {State, refcount}

  -- The count of an inode is `base`, and one more for each open file of it.
  pub record Settled (v : Vfs State) : Type 0 where
    pub entries : length v.file_table ≡ 64
    pub counts : (j : ℕ) → refcount v.store j ≡ base j + opens v.file_table j

  room : (v : Vfs State) → Settled v → (j : ℕ) → base j + opens v.file_table j + 2 < 2 ^ 32
  room v h j = omega (arith, small j, opens_most v.file_table j, h.entries)

  held :
      (v : Vfs State)
      → Settled v
      → Balanced driver c (λ j. base j + opens v.file_table j) (none, v.store)
  held v h j = h.counts j ∙ omega arith

  Settled-install_file :
      (v : Vfs State) (s : State) (i n : ℕ) (f : OpenFile)
      → length v.file_table ≡ 64
      → f.inode ≡ some i
      → find_free v.file_table ≡ some n
      → Balanced driver c (λ j. base j + opens v.file_table j) (some i, s)
      → Settled ((install_file driver f (record v { store = s }) (some n)).1)
  Settled-install_file v s i n f entries is_i found h = record {
    entries = length-set v.file_table n f ∙ entries;
    counts = λ j. omega (arith, h j, opens-set_free v.file_table n i j f found is_i);
  }

  Settled-opened :
      (flags : ℕ) (v : Vfs State) (i : ℕ) (s : State) (place : Option ℕ)
      → Settled v
      → find_free v.file_table ≡ place
      → Balanced driver c (λ j. base j + opens v.file_table j) (some i, s)
      → Settled (
          (install_or_drop driver i
            (record { inode = some i; offset = 0; flags = flags })
            (record v { store = s })
            place).1)
  Settled-opened flags v i s none h found held_i = record {
    entries = h.entries;
    counts = λ j.
        Balanced-unref driver c (λ j. base j + opens v.file_table j) (room v h) i s held_i j
        ∙ omega arith;
  }
  Settled-opened flags v i s (some n) h found held_i =
      Settled-install_file v s i n (record { inode = some i; offset = 0; flags = flags }) h.entries
        refl found held_i

  Settled-open_resolved :
      (path : List ℕ) (flags : ℕ) (v : Vfs State) (r : Option ℕ × State)
      → Settled v
      → (flags / 4 % 2 == 1) ≡ false
      → Balanced driver c (λ j. base j + opens v.file_table j) r
      → Settled ((open_resolved driver path flags v r).1)
  Settled-open_resolved path flags v (some i, s) h no_create held_r =
      Settled-opened flags v i s (find_free v.file_table) h refl held_r
  Settled-open_resolved path flags v (none, s) h no_create held_r =
      if_cases (λ (r : Option ℕ × Vfs State). Settled (r.1)) (flags / 4 % 2 == 1)
        (λ yes. ground (arith, yes, no_create))
        (λ no. record { entries = h.entries; counts = λ j. held_r j ∙ omega arith })

  pub Settled-vfs_open :
      (path : List ℕ) (flags : ℕ) (v : Vfs State)
      → (flags / 4 % 2 == 1) ≡ false
      → Settled v
      → Settled ((vfs_open driver path flags v).1)
  unfolding vfs_open
  Settled-vfs_open path flags v no_create h =
      Settled-open_resolved path flags v (resolve driver path v) h no_create (
        Balanced-resolve_full driver c (λ j. base j + opens v.file_table j) (room v h) v.mounts path
          v.store (held v h))

  Settled-dup_of :
      (f : OpenFile) (v : Vfs State) (o place : Option ℕ)
      → find_free v.file_table ≡ place
      → Settled v
      → Settled ((dup_of driver f v o place).1)
  Settled-dup_of f v none place found h = h
  Settled-dup_of f v (some i) none found h = h
  Settled-dup_of f v (some i) (some n) found h =
      Settled-install_file v (vfs_inode_ref driver i v.store) i n _ h.entries refl found
        (Balanced-ref driver c (λ j. base j + opens v.file_table j) (room v h) i v.store (held v h))

  pub Settled-vfs_dup : (n : ℕ) (v : Vfs State) → Settled v → Settled ((vfs_dup driver n v).1)
  unfolding vfs_dup
  Settled-vfs_dup n v h = Settled-dup_of (file driver v n) v _ (find_free v.file_table) refl h

  Settled-close_inode :
      (n : ℕ) (v : Vfs State) (o : Option ℕ)
      → (file driver v n).inode ≡ o
      → Settled v
      → Settled ((close_inode driver n v o).1)
  Settled-close_inode n v none is_o h = h
  Settled-close_inode n v (some i) is_o h =
      let one = opens_one v.file_table n i is_o in
      record {
        entries = length-set v.file_table n closed ∙ h.entries;
        counts = λ j.
            unref_counts driver c i j v.store (omega (arith, h.counts i, one))
              (omega (arith, h.counts i, room v h i))
            ∙ omega (arith, h.counts j, opens-set-closed v.file_table n i j is_o);
      }

  pub Settled-vfs_close : (n : ℕ) (v : Vfs State) → Settled v → Settled ((vfs_close driver n v).1)
  unfolding vfs_close
  Settled-vfs_close n v h = Settled-close_inode n v _ refl h
