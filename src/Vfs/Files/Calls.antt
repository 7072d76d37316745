-- ===== src/Vfs/Files/Calls.antt =====
-- Sequences of the calls of kernel/fs/vfs.c on open files.
use lumin.Prelude.{
  ℕ, zero, suc, ◌+◌, ◌/◌, ◌%◌, ◌^◌, ◌<◌, ◌≡◌, refl, sym, ap, ◌∙◌, false, Option, none, some, List,
  [], ◌∷◌, length, get_or, set, length-set, ◌==◌, if_cases,
}
use lumin.Vfs.{InodeStore, OpenFile}
use lumin.Vfs.Paths.{Counts, Transfers, one_at}
use lumin.Vfs.Files.{
  Vfs, closed, file, moved, did_read, read_with, read_inode, vfs_read, did_write, write_with,
  write_inode, vfs_write, vfs_open, vfs_dup, vfs_close,
}
use lumin.Vfs.Files.Balance.{opens, Settled, Settled-vfs_open, Settled-vfs_dup, Settled-vfs_close}

-- A file that stays with its inode.
opens-set_same :
    (fs : List OpenFile) (n j : ℕ) (f : OpenFile)
    → f.inode ≡ (get_or fs n closed).inode
    → opens (set fs n f) j ≡ opens fs j
opens-set_same [] n j f same = refl
opens-set_same (g ∷ fs) zero j f same = ap (λ (o : Option ℕ). one_at o j + opens fs j) same
opens-set_same (g ∷ fs) (suc n) j f same =
    ap (λ (k : ℕ). one_at g.inode j + k) (opens-set_same fs n j f same)

module _ (driver : InodeStore) (c : Counts driver) (t : Transfers driver) (base : ℕ → ℕ)
    (small : (j : ℕ) → base j + 70 < 2 ^ 32) where
  open driver use {State, refcount, ops}

  Settled-moved :
      (n r : ℕ) (v : Vfs State) (s : State)
      → Settled driver c base small v
      → ((j : ℕ) → refcount s j ≡ refcount v.store j)
      → Settled driver c base small (moved driver n v r s)
  Settled-moved n r v s h same = record {
    entries = length-set v.file_table n _ ∙ h.entries;
    counts = λ j.
        same j
        ∙ h.counts j
        ∙ ap (λ (k : ℕ). base j + k) (sym (opens-set_same v.file_table n j _ refl));
  }

  Settled-store :
      (v : Vfs State) (s : State)
      → Settled driver c base small v
      → ((j : ℕ) → refcount s j ≡ refcount v.store j)
      → Settled driver c base small (record v { store = s })
  Settled-store v s h same = record { entries = h.entries; counts = λ j. same j ∙ h.counts j }

  Settled-did_read :
      (n : ℕ) (v : Vfs State) (r : Option (List ℕ) × State)
      → Settled driver c base small v
      → ((j : ℕ) → refcount (r.1) j ≡ refcount v.store j)
      → Settled driver c base small ((did_read driver n v r).1)
  Settled-did_read n v (none, s) h same = Settled-store v s h same
  Settled-did_read n v (some bytes, s) h same = Settled-moved n (length bytes) v s h same

  Settled-did_write :
      (n : ℕ) (v : Vfs State) (r : Option ℕ × State)
      → Settled driver c base small v
      → ((j : ℕ) → refcount (r.1) j ≡ refcount v.store j)
      → Settled driver c base small ((did_write driver n v r).1)
  Settled-did_write n v (none, s) h same = Settled-store v s h same
  Settled-did_write n v (some r, s) h same = Settled-moved n r v s h same

  Settled-read_with :
      (n size : ℕ) (v : Vfs State) (i : ℕ) (o : Option (ℕ → ℕ → State → Option (List ℕ) × State))
      → (ops v.store i).read ≡ o
      → Settled driver c base small v
      → Settled driver c base small ((read_with driver n size v o).1)
  Settled-read_with n size v i none same h = h
  Settled-read_with n size v i (some f) same h =
      let offset = (file driver v n).offset in
      Settled-did_read n v (f offset size v.store) h
        (t.read_counts i offset size v.store v.store f same)

  Settled-write_with :
      (n : ℕ) (bytes : List ℕ) (v : Vfs State) (i : ℕ)
      (o : Option (ℕ → List ℕ → State → Option ℕ × State))
      → (ops v.store i).write ≡ o
      → Settled driver c base small v
      → Settled driver c base small ((write_with driver n bytes v o).1)
  Settled-write_with n bytes v i none same h = h
  Settled-write_with n bytes v i (some f) same h =
      let offset = (file driver v n).offset in
      Settled-did_write n v (f offset bytes v.store) h
        (t.write_counts i offset bytes v.store v.store f same)

  Settled-read_inode :
      (n size : ℕ) (v : Vfs State) (o : Option ℕ)
      → Settled driver c base small v
      → Settled driver c base small ((read_inode driver n size v o).1)
  Settled-read_inode n size v none h = h
  Settled-read_inode n size v (some i) h =
      if_cases (λ (r : Option (List ℕ) × Vfs State). Settled driver c base small (r.1)) _
        (λ allowed. Settled-read_with n size v i ((ops v.store i).read) refl h) (λ refused. h)

  Settled-write_inode :
      (n : ℕ) (bytes : List ℕ) (v : Vfs State) (o : Option ℕ)
      → Settled driver c base small v
      → Settled driver c base small ((write_inode driver n bytes v o).1)
  Settled-write_inode n bytes v none h = h
  Settled-write_inode n bytes v (some i) h =
      if_cases (λ (r : Option ℕ × Vfs State). Settled driver c base small (r.1)) _
        (λ allowed. Settled-write_with n bytes v i ((ops v.store i).write) refl h) (λ refused. h)

  -- One call of a program: an open without VFS_O_CREAT, or a call on an open file.
  pub data Call (v : Vfs State) : Vfs State → Type 0 where
    opening :
        (path : List ℕ) (flags : ℕ)
        → (flags / 4 % 2 == 1) ≡ false
        → Call v ((vfs_open driver path flags v).1)
    doubling : (n : ℕ) → Call v ((vfs_dup driver n v).1)
    closing : (n : ℕ) → Call v ((vfs_close driver n v).1)
    reading : (n size : ℕ) → Call v ((vfs_read driver n size v).1)
    writing : (n : ℕ) (bytes : List ℕ) → Call v ((vfs_write driver n bytes v).1)

  -- Any number of calls.
  pub data Calls (v : Vfs State) : Vfs State → Type 0 where
    no_call : Calls v v
    then_call : {u w : Vfs State} → Calls v u → Call u w → Calls v w

  Settled-Call :
      {v w : Vfs State} → Call v w → Settled driver c base small v → Settled driver c base small w
  unfolding vfs_read vfs_write
  Settled-Call {v} (opening path flags plain) h =
      Settled-vfs_open driver c base small path flags v plain h
  Settled-Call {v} (doubling n) h = Settled-vfs_dup driver c base small n v h
  Settled-Call {v} (closing n) h = Settled-vfs_close driver c base small n v h
  Settled-Call {v} (reading n size) h = Settled-read_inode n size v _ h
  Settled-Call {v} (writing n bytes) h = Settled-write_inode n bytes v _ h

  -- On file systems that keep `Counts`, as tmpfs does, whose reads and writes change no count, and
  -- with no `base` within 70 of 2 ^ 32: when the count of each inode is `base` and one more for
  -- each open file of it, it still is after any number of opens without VFS_O_CREAT, dups, closes,
  -- reads and writes.
  pub Settled-Calls :
      {v w : Vfs State} → Calls v w → Settled driver c base small v → Settled driver c base small w
  Settled-Calls no_call h = h
  Settled-Calls (then_call calls call) h = Settled-Call call (Settled-Calls calls h)
