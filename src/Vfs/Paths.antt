-- ===== src/Vfs/Paths.antt =====
-- The references that the resolution of a path in kernel/fs/vfs.c takes and gives back.
use lumin.Prelude.{
  ℕ, zero, suc, ◌+◌, ◌-◌, ◌%◌, ◌^◌, ◌≤◌, ◌<◌, ◌≡◌, refl, ap, ◌∙◌, false, Option, none, some, List,
  [], ◌∷◌, arith, length, ◌==◌, if◌then◌else◌, if_cases,
}
use lumin.Vfs.{
  InodeStore, Mount, vfs_dir, vfs_inode_ref, vfs_inode_unref, cross, lookup_with, lookup_child,
  enter, covered, and_then, next_name, walk, resolve_full, last_mount, find_mount, skip_slashes,
  take_name, slash, later_mounts, add_char,
}

-- One for the inode `i`.
abbrev pub one_at : Option ℕ → ℕ → ℕ
one_at none j = 0
one_at (some i) j = if i == j then 1 else 0

one_at-most : (o : Option ℕ) (j : ℕ) → one_at o j ≤ 1
one_at-most none j = omega arith
one_at-most (some i) j = ground arith

-- `refcount++` of the child, a `uint32_t`, if there is one.
abbrev pub counted_up : Option ℕ → ℕ → ℕ → ℕ
counted_up none j n = n
counted_up (some i) j n = if i == j then (n + 1) % 2 ^ 32 else n

counted_up_lem : (o : Option ℕ) (j n : ℕ) → n + 1 < 2 ^ 32 → counted_up o j n ≡ n + one_at o j
counted_up_lem none j n h = omega arith
counted_up_lem (some i) j n h = ground (arith, h)

-- What the file systems below promise of the counts: they are `uint32_t` fields of the inodes, releasing
-- an inode's data leaves them alone, and a lookup counts the child that it returns up by one, which wraps.
-- Tmpfs/Dirs/Store shows that the file system of kernel/fs/tmpfs.c keeps it.
pub record Counts (driver : InodeStore) : Type 0 where
  pub set_count :
      (i n j : ℕ) (s : driver.State)
      → n < 2 ^ 32
      → driver.refcount (driver.set_refcount i n s) j ≡ (if i == j then n else driver.refcount s j)
  pub destroy_keeps :
      (i j : ℕ) (s : driver.State)
      → driver.refcount (driver.destroy_inode i s) j ≡ driver.refcount s j
  pub lookup_counts :
      (cur : ℕ) (name : List ℕ) (s0 s : driver.State)
      (f : List ℕ → driver.State → Option ℕ × driver.State)
      → (driver.ops s0 cur).lookup ≡ some f
      → (j : ℕ)
      → driver.refcount ((f name s).1) j ≡ counted_up ((f name s).0) j (driver.refcount s j)

-- A file system's `read` and `write` leave all counts alone.
pub record Transfers (driver : InodeStore) : Type 0 where
  pub read_counts :
      (i offset size : ℕ) (s0 s : driver.State)
      (f : ℕ → ℕ → driver.State → Option (List ℕ) × driver.State)
      → (driver.ops s0 i).read ≡ some f
      → (j : ℕ) → driver.refcount ((f offset size s).1) j ≡ driver.refcount s j
  pub write_counts :
      (i offset : ℕ) (bytes : List ℕ) (s0 s : driver.State)
      (f : ℕ → List ℕ → driver.State → Option ℕ × driver.State)
      → (driver.ops s0 i).write ≡ some f
      → (j : ℕ) → driver.refcount ((f offset bytes s).1) j ≡ driver.refcount s j

bump :
    (i j n m : ℕ)
    → (i ≡ j → n ≡ m)
    → n + 1 < 2 ^ 32
    → (if i == j then (n + 1) % 2 ^ 32 else m) ≡ m + one_at (some i) j
bump i j n m same h = ground (arith, same, h)

drop_one : (i j n m : ℕ) → (i ≡ j → n ≡ m) → (if i == j then n - 1 else m) ≡ m - one_at (some i) j
drop_one i j n m same = ground (arith, same)

skip_slashes_shorter : (path full : List ℕ) → length ((skip_slashes full path).1) ≤ length path
unfolding skip_slashes
skip_slashes_shorter [] full = omega arith
skip_slashes_shorter (x ∷ xs) full =
    if_cases (λ (p : List ℕ × List ℕ). length (p.1) ≤ suc (length xs)) (x == slash)
      (λ here. omega (arith, skip_slashes_shorter xs (add_char full x))) (λ other. omega arith)

-- What is left begins with no slash.
abbrev BeginsName : List ℕ → Type 0
BeginsName [] = Unit
BeginsName (x ∷ xs) = (x == slash) ≡ false

skip_slashes-BeginsName : (path full : List ℕ) → BeginsName ((skip_slashes full path).1)
unfolding skip_slashes
skip_slashes-BeginsName [] full = tt
skip_slashes-BeginsName (x ∷ xs) full =
    if_cases (λ (p : List ℕ × List ℕ). BeginsName (p.1)) (x == slash)
      (λ here. skip_slashes-BeginsName xs (add_char full x)) (λ other. other)

take_name_shorter : (room : ℕ) (path : List ℕ) → length ((take_name room path).1) ≤ length path
unfolding take_name
take_name_shorter zero path = omega arith
take_name_shorter (suc room) [] = omega arith
take_name_shorter (suc room) (x ∷ xs) =
    if_cases (λ (p : List ℕ × List ℕ). length (p.1) ≤ suc (length xs)) (x == slash)
      (λ here. omega arith) (λ other. omega (arith, take_name_shorter room xs))

-- A name has a character.
take_name_moves :
    (x : ℕ) (xs : List ℕ) → BeginsName (x ∷ xs) → length ((take_name 255 (x ∷ xs)).1) ≤ length xs
unfolding take_name
take_name_moves x xs begins =
    if_cases (λ (p : List ℕ × List ℕ). length (p.1) ≤ length xs) (x == slash)
      (λ here. ground (arith, here, begins)) (λ other. take_name_shorter 254 xs)

name_shortens :
    (rest : List ℕ) (x : ℕ) (xs : List ℕ)
    → rest ≡ x ∷ xs
    → BeginsName rest
    → length ((take_name 255 rest).1) < length rest
name_shortens [] x xs same begins = ground (arith, same)
name_shortens (y ∷ ys) x xs same begins = omega (arith, take_name_moves y ys begins)

module _ (driver : InodeStore) (c : Counts driver) where
  open driver use {State, refcount, set_refcount, destroy_inode, kind, ops}

  pub ref_counts :
      (i j : ℕ) (s : State)
      → refcount s i + 1 < 2 ^ 32
      → refcount (vfs_inode_ref driver i s) j ≡ refcount s j + one_at (some i) j
  unfolding vfs_inode_ref
  ref_counts i j s h =
      c.set_count i ((refcount s i + 1) % 2 ^ 32) j s (omega arith)
      ∙ bump i j (refcount s i) (refcount s j) (λ e. ap (refcount s) e) h

  pub unref_counts :
      (i j : ℕ) (s : State)
      → 1 ≤ refcount s i
      → refcount s i < 2 ^ 32
      → refcount (vfs_inode_unref driver i s) j ≡ refcount s j - one_at (some i) j
  unfolding vfs_inode_unref
  unref_counts i j s h low =
      let less =
        c.set_count i (refcount s i - 1) j s (omega arith)
        ∙ drop_one i j (refcount s i) (refcount s j) (λ e. ap (refcount s) e) in
      let P : State → Type 0 = λ s'. refcount s' j ≡ refcount s j - one_at (some i) j in
      if_cases P (refcount s i == 0) (λ none_left. ground (arith, h, none_left))
        (λ some_left.
          if_cases P (refcount s i - 1 == 0) (λ last. c.destroy_keeps i j _ ∙ less)
            (λ others. less))

  -- The counts are `base`, and one more for the inode of the result.
  abbrev pub Balanced : (ℕ → ℕ) → Option ℕ × State → Type 0
  Balanced base r = (j : ℕ) → refcount r.1 j ≡ base j + one_at r.0 j

  module _ (base : ℕ → ℕ) (small : (j : ℕ) → base j + 2 < 2 ^ 32) where
    pub Balanced-ref :
        (i : ℕ) (s : State)
        → Balanced base (none, s)
        → Balanced base (some i, vfs_inode_ref driver i s)
    Balanced-ref i s h j = ref_counts i j s (omega (arith, h i, small i)) ∙ omega (arith, h j)

    pub Balanced-unref :
        (i : ℕ) (s : State)
        → Balanced base (some i, s)
        → Balanced base (none, vfs_inode_unref driver i s)
    Balanced-unref i s h j =
        let held : 1 ≤ refcount s i = ground (arith, h i) in
        unref_counts i j s held (omega (arith, h i, small i, one_at-most (some i) i))
        ∙ omega (arith, h j)

    Balanced-cross :
        (cur root : ℕ) (s : State)
        → Balanced base (some cur, s)
        → Balanced base (some root, cross driver cur root s)
    Balanced-cross cur root s h =
        Balanced-ref root (vfs_inode_unref driver cur s) (Balanced-unref cur s h)

    Balanced-looked_up :
        (cur : ℕ) (child : Option ℕ) (s s' : State)
        → Balanced base (some cur, s)
        → ((j : ℕ) → refcount s' j ≡ refcount s j + one_at child j)
        → Balanced base (child, vfs_inode_unref driver cur s')
    Balanced-looked_up cur child s s' h counted j =
        let held : 1 ≤ refcount s' cur = ground (arith, h cur, counted cur) in
        unref_counts cur j s' held (
          omega (
            arith,
            h cur,
            counted cur,
            small cur,
            one_at-most (some cur) cur,
            one_at-most child cur,
          ))
        ∙ omega (arith, h j, counted j)

    Balanced-lookup_with :
        (cur : ℕ) (name : List ℕ) (s : State) (o : Option (List ℕ → State → Option ℕ × State))
        → (ops s cur).lookup ≡ o
        → Balanced base (some cur, s)
        → Balanced base (lookup_with driver cur name s o)
    Balanced-lookup_with cur name s none same h = Balanced-unref cur s h
    Balanced-lookup_with cur name s (some f) same h =
        Balanced-looked_up cur ((f name s).0) s ((f name s).1) h (λ j.
          c.lookup_counts cur name s s f same j
          ∙ counted_up_lem ((f name s).0) j (refcount s j)
              (omega (arith, h j, small j, one_at-most (some cur) j)))

    Balanced-lookup_child :
        (cur : ℕ) (name : List ℕ) (s : State)
        → Balanced base (some cur, s)
        → Balanced base (lookup_child driver cur name s)
    unfolding lookup_child
    Balanced-lookup_child cur name s h =
        if_cases (Balanced base) (kind s cur == vfs_dir)
          (λ dir. Balanced-lookup_with cur name s ((ops s cur).lookup) refl h)
          (λ other. Balanced-unref cur s h)

    Balanced-covered :
        (cur : ℕ) (s : State) (o : Option ℕ)
        → Balanced base (some cur, s)
        → Balanced base (covered driver cur s o)
    Balanced-covered cur s none h = h
    Balanced-covered cur s (some root) h =
        if_cases (Balanced base) (root == cur) (λ same. h) (λ other. Balanced-cross cur root s h)

    Balanced-enter :
        (mounts : List Mount) (full : List ℕ) (cur : ℕ) (name : List ℕ) (s : State)
        → Balanced base (some cur, s)
        → Balanced base (enter driver mounts full cur name s)
    Balanced-enter mounts full cur name s h =
        elim (find_mount full (later_mounts mounts))
          as (λ o. Balanced base (elim o [
            | some root ↦ (some root, cross driver cur root s)
            | none ↦ lookup_child driver cur name s
          ])) [
            | some root ↦ Balanced-cross cur root s h
            | none ↦ Balanced-lookup_child cur name s h
          ]

    Balanced-and_then :
        (r : Option ℕ × State) (f : ℕ → State → Option ℕ × State)
        → Balanced base r
        → ((i : ℕ) (s : State) → Balanced base (some i, s) → Balanced base (f i s))
        → Balanced base (and_then driver r f)
    Balanced-and_then (none, s) f h k = h
    Balanced-and_then (some i, s) f h k = k i s h

    Balanced-next_name :
        (mounts : List Mount) (full rest : List ℕ) (cur : ℕ) (s : State)
        (go : ℕ → State → Option ℕ × State)
        → Balanced base (some cur, s)
        → ((x : ℕ) (xs : List ℕ)
            → rest ≡ x ∷ xs
            → (i : ℕ) (s : State) → Balanced base (some i, s)
            → Balanced base (go i s))
        → Balanced base (next_name driver mounts full rest cur s go)
    Balanced-next_name mounts full [] cur s go h k =
        Balanced-covered cur s (last_mount full mounts) h
    Balanced-next_name mounts full (x ∷ xs) cur s go h k =
        Balanced-and_then _ go (Balanced-enter mounts _ cur _ s h) (k x xs refl)

    Balanced-walk :
        (rounds : ℕ) (mounts : List Mount) (full path : List ℕ) (cur : ℕ) (s : State)
        → length path < rounds
        → Balanced base (some cur, s)
        → Balanced base (walk driver rounds mounts full path cur s)
    unfolding walk
    Balanced-walk zero mounts full path cur s n h = absurd (omega (arith, n))
    Balanced-walk (suc rounds) mounts full path cur s n h =
        let here = skip_slashes full path in
        Balanced-next_name mounts (here.0) (here.1) cur s _ h λ x xs same i s' h'.
          Balanced-walk rounds mounts _ _ i s'
            (omega (
              arith,
              n,
              name_shortens (here.1) x xs same (skip_slashes-BeginsName path full),
              skip_slashes_shorter path full,
            ))
            h'

    -- On file systems that keep `Counts`, as tmpfs does, and with no `base` within 2 of 2 ^ 32:
    -- when the counts are `base`, `resolve_full` ends with one more reference to the inode that it
    -- resolves a path to, and with all counts as they were when it fails; on each way through
    -- names, mounts and errors.
    pub Balanced-resolve_full :
        (mounts : List Mount) (path : List ℕ) (s : State)
        → Balanced base (none, s)
        → Balanced base (resolve_full driver mounts path s)
    unfolding resolve_full
    Balanced-resolve_full [] path s h = h
    Balanced-resolve_full (m ∷ ms) [] s h = h
    Balanced-resolve_full (m ∷ ms) (x ∷ xs) s h =
        Balanced-walk _ (m ∷ ms) _ (x ∷ xs) m.root _ (omega arith) (Balanced-ref m.root s h)
