-- ===== src/Vfs/Files.antt =====
-- The calls on paths and open files of kernel/fs/vfs.c. A pointer to a file is its index in the table.
pub mod Balance
pub mod Calls
use lumin.Prelude.{
  ℕ, zero, suc, ◌+◌, ◌-◌, ◌/◌, ◌%◌, ◌^◌, Bool, true, false, not, ◌&&◌, Option, none, some, List, [],
  ◌∷◌, length, get_or, set, ltb, leb, ◌==◌, if◌then◌else◌, map, take, drop, ◌++◌,
}
use lumin.Vfs.{
  InodeOps, InodeStore, OpenFile, Mount, vfs_dir, vfs_mount_max, vfs_file_max, slash, resolve_full,
  vfs_inode_ref, vfs_inode_unref, take_name, skip_slashes, vfs_name_size,
}

-- An entry that is not in use.
abbrev pub closed : OpenFile
closed = record { inode = none; offset = 0; flags = 0 }

-- The static variables, and the state of the file systems.
pub record Vfs (S : Type 0) : Type 0 where
  pub file_table : List OpenFile
  pub file_count : ℕ
  pub mounts : List Mount
  pub store : S

-- The place found among entries that begin with one of inode `o`.
abbrev pub free_at : Option ℕ → Option ℕ → Option ℕ
free_at none rest = some 0
free_at (some i) none = none
free_at (some i) (some n) = some (suc n)

-- The first entry with no inode.
pub find_free : List OpenFile → Option ℕ
find_free [] = none
find_free (f ∷ fs) = free_at f.inode (find_free fs)

module _ (driver : InodeStore) where
  open driver use {State, refcount, kind, ops}

  pub vfs_init : Vfs State → Vfs State
  vfs_init v = record v {
    file_table = map (λ (f : OpenFile). record f { inode = none }) v.file_table;
    file_count = 0;
    mounts = [];
  }

  -- The superblock has a root and operations; `false` is the result -1.
  pub vfs_mount : List ℕ → ℕ → Vfs State → Bool × Vfs State
  vfs_mount path root v = if leb vfs_mount_max (length v.mounts) then (false, v) else (
    true,
    record v { mounts = v.mounts ++ record { path = take 511 path; root = root } ∷ [] },
  )

  -- A new entry of the table at a free place.
  abbrev pub install_file : OpenFile → Vfs State → Option ℕ → Option ℕ × Vfs State
  install_file f v none = (none, v)
  install_file f v (some i) = (
    some i,
    record v {
      file_table = set v.file_table i f;
      file_count = if leb v.file_count i then i + 1 else v.file_count;
    },
  )

  -- The inode is let go when the table is full.
  abbrev pub install_or_drop : ℕ → OpenFile → Vfs State → Option ℕ → Option ℕ × Vfs State
  install_or_drop i f v none = (none, record v { store = vfs_inode_unref driver i v.store })
  install_or_drop i f v (some n) = install_file f v (some n)

  abbrev pub opened : ℕ → Vfs State → Option ℕ × State → Option ℕ × Vfs State
  opened flags v (none, s) = (none, record v { store = s })
  opened flags v (some i, s) =
      install_or_drop i (record { inode = some i; offset = 0; flags = flags })
        (record v { store = s }) (find_free v.file_table)

  abbrev pub file : Vfs State → ℕ → OpenFile
  file v n = get_or v.file_table n closed

  abbrev pub dup_of : OpenFile → Vfs State → Option ℕ → Option ℕ → Option ℕ × Vfs State
  dup_of f v none place = (none, v)
  dup_of f v (some i) none = (none, v)
  dup_of f v (some i) (some n) =
      install_file (record { inode = some i; offset = f.offset; flags = f.flags })
        (record v { store = vfs_inode_ref driver i v.store }) (some n)

  -- `none` is a null pointer.
  pub vfs_dup : ℕ → Vfs State → Option ℕ × Vfs State
  vfs_dup n v = dup_of (file v n) v ((file v n).inode) (find_free v.file_table)

  abbrev pub close_inode : ℕ → Vfs State → Option ℕ → Bool × Vfs State
  close_inode n v none = (false, v)
  close_inode n v (some i) = (
    true,
    record v { file_table = set v.file_table n closed; store = vfs_inode_unref driver i v.store },
  )

  -- `false` is the result -1.
  pub vfs_close : ℕ → Vfs State → Bool × Vfs State
  vfs_close n v = close_inode n v ((file v n).inode)

  -- `slash` of resolve_parent, as an index.
  abbrev pub back_over : (ℕ → Bool) → ℕ → ℕ
  back_over passes zero = 0
  back_over passes (suc i) = let rest = back_over passes i in if passes (suc i) then rest else suc i

  pub parent_end : List ℕ → ℕ
  parent_end path =
      back_over (λ i. not (get_or path i 0 == slash))
        (back_over (λ i. get_or path i 0 == slash) (length path - 1))

  pub child_name : List ℕ → List ℕ
  child_name path =
      (take_name (vfs_name_size - 1) (
        (skip_slashes [] (
          drop
            (if get_or path (parent_end path) 0 == slash
              then parent_end path + 1
              else parent_end path)
            path)).1)).0

  -- `resolve_parent`, on a path that is shorter than its buffers.
  pub resolve_parent : List Mount → List ℕ → State → Option ℕ × State
  resolve_parent mounts path s =
      if get_or path 0 0 == slash
      then resolve_full driver mounts (take (parent_end path + 1) path) s
      else (none, s)

  abbrev pub let_go : ℕ → Bool × State → Bool × State
  let_go i (ok, s) = (ok, vfs_inode_unref driver i s)

  abbrev pub call_on : ℕ → List ℕ → State → Option (List ℕ → State → Bool × State) → Bool × State
  call_on i name s none = (false, vfs_inode_unref driver i s)
  call_on i name s (some f) = let_go i (f name s)

  abbrev pub in_parent :
      (InodeOps State → Option (List ℕ → State → Bool × State))
      → List ℕ
      → Option ℕ × State
      → Bool × State
  in_parent f path (none, s) = (false, s)
  in_parent f path (some i, s) =
      if kind s i == vfs_dir
      then call_on i (child_name path) s (f (ops s i))
      else (false, vfs_inode_unref driver i s)

  abbrev pub with_store : Vfs State → Bool × State → Bool × Vfs State
  with_store v (ok, s) = (ok, record v { store = s })

  -- `true` is the result 0 of the directory's own call.
  pub vfs_create : List ℕ → Vfs State → Bool × Vfs State
  vfs_create path v =
      with_store v (in_parent (λ o. o.create) path (resolve_parent v.mounts path v.store))

  pub vfs_unlink : List ℕ → Vfs State → Bool × Vfs State
  vfs_unlink path v =
      with_store v (in_parent (λ o. o.unlink) path (resolve_parent v.mounts path v.store))

  pub vfs_mkdir : List ℕ → Vfs State → Bool × Vfs State
  vfs_mkdir path v =
      with_store v (in_parent (λ o. o.mkdir) path (resolve_parent v.mounts path v.store))

  abbrev pub truncated : ℕ → Option ℕ × State → Bool × State
  truncated size (none, s) = (false, s)
  truncated size (some i, s) = elim ((ops s i).truncate) [
    | none ↦ (false, vfs_inode_unref driver i s)
    | some f ↦ let_go i (f size s)
  ]

  pub vfs_truncate : List ℕ → ℕ → Vfs State → Bool × Vfs State
  vfs_truncate path size v =
      with_store v (truncated size (resolve_full driver v.mounts path v.store))

  abbrev pub resolve : List ℕ → Vfs State → Option ℕ × State
  resolve path v = resolve_full driver v.mounts path v.store

  -- With VFS_O_CREAT, the path is resolved again once the file has been created.
  abbrev pub retry : List ℕ → ℕ → Bool × Vfs State → Option ℕ × Vfs State
  retry path flags (false, v) = (none, v)
  retry path flags (true, v) = opened flags v (resolve path v)

  abbrev pub open_resolved : List ℕ → ℕ → Vfs State → Option ℕ × State → Option ℕ × Vfs State
  open_resolved path flags v (some i, s) = opened flags v (some i, s)
  open_resolved path flags v (none, s) =
      if flags / 4 % 2 == 1
      then retry path flags (vfs_create path (record v { store = s }))
      else (none, record v { store = s })

  pub vfs_open : List ℕ → ℕ → Vfs State → Option ℕ × Vfs State
  vfs_open path flags v = open_resolved path flags v (resolve path v)

  -- The offset moves by what was read or written.
  abbrev pub moved : ℕ → Vfs State → ℕ → State → Vfs State
  moved n v r s = record v {
    file_table =
        set v.file_table n (record (file v n) { offset = ((file v n).offset + r) % 2 ^ 64 });
    store = s;
  }

  abbrev pub did_read : ℕ → Vfs State → Option (List ℕ) × State → Option (List ℕ) × Vfs State
  did_read n v (none, s) = (none, record v { store = s })
  did_read n v (some bytes, s) = (some bytes, moved n v (length bytes) s)

  abbrev pub read_with :
      ℕ
      → ℕ
      → Vfs State
      → Option (ℕ → ℕ → State → Option (List ℕ) × State)
      → Option (List ℕ) × Vfs State
  read_with n size v none = (none, v)
  read_with n size v (some f) = did_read n v (f ((file v n).offset) size v.store)

  abbrev pub read_inode : ℕ → ℕ → Vfs State → Option ℕ → Option (List ℕ) × Vfs State
  read_inode n size v none = (none, v)
  read_inode n size v (some i) =
      if (file v n).flags % 2 == 1 then read_with n size v ((ops v.store i).read) else (none, v)

  -- `none` is a negative result.
  pub vfs_read : ℕ → ℕ → Vfs State → Option (List ℕ) × Vfs State
  vfs_read n size v = read_inode n size v ((file v n).inode)

  abbrev pub did_write : ℕ → Vfs State → Option ℕ × State → Option ℕ × Vfs State
  did_write n v (none, s) = (none, record v { store = s })
  did_write n v (some r, s) = (some r, moved n v r s)

  abbrev pub write_with :
      ℕ → List ℕ → Vfs State → Option (ℕ → List ℕ → State → Option ℕ × State) → Option ℕ × Vfs State
  write_with n bytes v none = (none, v)
  write_with n bytes v (some f) = did_write n v (f ((file v n).offset) bytes v.store)

  abbrev pub write_inode : ℕ → List ℕ → Vfs State → Option ℕ → Option ℕ × Vfs State
  write_inode n bytes v none = (none, v)
  write_inode n bytes v (some i) =
      if (file v n).flags / 2 % 2 == 1
      then write_with n bytes v ((ops v.store i).write)
      else (none, v)

  pub vfs_write : ℕ → List ℕ → Vfs State → Option ℕ × Vfs State
  vfs_write n bytes v = write_inode n bytes v ((file v n).inode)
