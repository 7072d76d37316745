-- ===== src/Vfs.antt =====
-- The virtual file system of kernel/fs/vfs.c: mounts, paths, and the table of open files.
-- An inode is a number. What the file systems below keep and do is the record InodeStore, with the
-- `refcount` of each inode in its state; `none` stands for a null pointer. A path is a list of
-- characters without its NUL.
pub mod Paths
pub mod Files
mod Tests
use lumin.Prelude.{
  ℕ, zero, suc, ◌+◌, ◌-◌, ◌%◌, ◌^◌, Bool, true, false, not, ◌&&◌, ◌||◌, Option, none, some, List,
  [], ◌∷◌, ◌++◌, length, get_elem?, set, replicate, ltb, leb, ◌==◌, if◌then◌else◌,
}

-- `struct vfs_inode_ops`, each applied to its inode. A result of 0 is `true`; of `read` and `write`,
-- `none` is a negative result. `lookup` gives `none` also when it leaves no child.
pub record InodeOps (S : Type 0) : Type 0 where
  pub read : Option (ℕ → ℕ → S → Option (List ℕ) × S)
  pub write : Option (ℕ → List ℕ → S → Option ℕ × S)
  pub truncate : Option (ℕ → S → Bool × S)
  pub lookup : Option (List ℕ → S → Option ℕ × S)
  pub create : Option (List ℕ → S → Bool × S)
  pub unlink : Option (List ℕ → S → Bool × S)
  pub mkdir : Option (List ℕ → S → Bool × S)

-- The inodes, and what the file systems do with them.
pub record InodeStore : Type 1 where
  pub State : Type 0
  pub refcount : State → ℕ → ℕ
  pub set_refcount : ℕ → ℕ → State → State
  pub destroy_inode : ℕ → State → State
  pub kind : State → ℕ → ℕ
  pub ops : State → ℕ → InodeOps State

abbrev pub vfs_dir : ℕ
vfs_dir = 1

abbrev pub vfs_name_size : ℕ
vfs_name_size = 256

abbrev pub vfs_path_size : ℕ
vfs_path_size = 512

abbrev pub vfs_mount_max : ℕ
vfs_mount_max = 16

abbrev pub vfs_file_max : ℕ
vfs_file_max = 64

-- `struct vfs_file`.
pub record OpenFile : Type 0 where
  pub inode : Option ℕ
  pub offset : ℕ
  pub flags : ℕ

-- `struct vfs_mount_entry`, with the root of its superblock.
pub record Mount : Type 0 where
  pub path : List ℕ
  pub root : ℕ

pub path_match : List ℕ → List ℕ → Bool
path_match [] [] = true
path_match [] (b ∷ bs) = false
path_match (a ∷ cs) [] = false
path_match (a ∷ cs) (b ∷ bs) = (a == b) && path_match cs bs

abbrev pub slash : ℕ
slash = 47

-- A character more of `fullpath`, as long as there is room.
abbrev pub add_char : List ℕ → ℕ → List ℕ
add_char full c = if ltb (length full) (vfs_path_size - 1) then full ++ c ∷ [] else full

pub add_chars : List ℕ → List ℕ → List ℕ
add_chars full [] = full
add_chars full (c ∷ cs) = add_chars (add_char full c) cs

-- The slashes at the front of a path go to `fullpath`.
pub skip_slashes : List ℕ → List ℕ → List ℕ × List ℕ
skip_slashes full [] = (full, [])
skip_slashes full (c ∷ cs) =
    let rest = skip_slashes (add_char full c) cs in if c == slash then rest else (full, c ∷ cs)

abbrev pub more_name : ℕ → List ℕ × List ℕ → List ℕ × List ℕ
more_name c (name, rest) = (c ∷ name, rest)

-- A name of at most `room` characters from the front of a path, and the rest.
pub take_name : ℕ → List ℕ → List ℕ × List ℕ
take_name zero path = ([], path)
take_name (suc room) [] = ([], [])
take_name (suc room) (c ∷ cs) =
    let rest = take_name room cs in if c == slash then ([], c ∷ cs) else more_name c rest

-- The root of the first mount whose path matches.
pub find_mount : List ℕ → List Mount → Option ℕ
find_mount full [] = none
find_mount full (m ∷ ms) =
    let rest = find_mount full ms in if path_match m.path full then some m.root else rest

pub last_mount : List ℕ → List Mount → Option ℕ
last_mount full [] = none
last_mount full (m ∷ ms) = elim (last_mount full ms) [
  | some root ↦ some root
  | none ↦ if path_match m.path full then some m.root else none
]

abbrev pub later_mounts : List Mount → List Mount
later_mounts [] = []
later_mounts (m ∷ ms) = ms

module _ (driver : InodeStore) where
  open driver use {State, refcount, set_refcount, destroy_inode, kind, ops}

  pub vfs_inode_ref : ℕ → State → State
  vfs_inode_ref i s = set_refcount i ((refcount s i + 1) % 2 ^ 32) s

  pub vfs_inode_unref : ℕ → State → State
  vfs_inode_unref i s =
      if refcount s i == 0
      then s
      else if refcount s i - 1 == 0
      then destroy_inode i (set_refcount i (refcount s i - 1) s)
      else set_refcount i (refcount s i - 1) s

  -- `cur` is left for the root of a mount.
  abbrev pub cross : ℕ → ℕ → State → State
  cross cur root s = vfs_inode_ref root (vfs_inode_unref cur s)

  -- The answer of a directory, after which `cur` is let go.
  abbrev pub looked_up : ℕ → Option ℕ × State → Option ℕ × State
  looked_up cur (child, s) = (child, vfs_inode_unref cur s)

  abbrev pub lookup_with :
      ℕ → List ℕ → State → Option (List ℕ → State → Option ℕ × State) → Option ℕ × State
  lookup_with cur name s none = (none, vfs_inode_unref cur s)
  lookup_with cur name s (some lookup) = looked_up cur (lookup name s)

  pub lookup_child : ℕ → List ℕ → State → Option ℕ × State
  lookup_child cur name s =
      if kind s cur == vfs_dir
      then lookup_with cur name s ((ops s cur).lookup)
      else (none, vfs_inode_unref cur s)

  -- One name of a path, which makes the whole path so far `full`.
  abbrev pub enter : List Mount → List ℕ → ℕ → List ℕ → State → Option ℕ × State
  enter mounts full cur name s = elim (find_mount full (later_mounts mounts)) [
    | some root ↦ (some root, cross cur root s)
    | none ↦ lookup_child cur name s
  ]

  -- The end of a path: a mount on it covers `cur`.
  abbrev pub covered : ℕ → State → Option ℕ → Option ℕ × State
  covered cur s none = (some cur, s)
  covered cur s (some root) = if root == cur then (some cur, s) else (some root, cross cur root s)

  abbrev pub and_then : Option ℕ × State → (ℕ → State → Option ℕ × State) → Option ℕ × State
  and_then (none, s) f = (none, s)
  and_then (some i, s) f = f i s

  -- What follows the slashes in front of a name: the end, or the name and what comes behind it.
  abbrev pub next_name :
      List Mount → List ℕ → List ℕ → ℕ → State → (ℕ → State → Option ℕ × State) → Option ℕ × State
  next_name mounts full [] cur s go = covered cur s (last_mount full mounts)
  next_name mounts full (c ∷ cs) cur s go =
      and_then
        (enter mounts (add_chars full ((take_name (vfs_name_size - 1) (c ∷ cs)).0)) cur
          ((take_name (vfs_name_size - 1) (c ∷ cs)).0) s)
        go

  -- The names of a path; each takes at least one character, so one round more than it has characters
  -- is enough. Out of rounds, `none` leaves the reference to `cur`.
  pub walk : ℕ → List Mount → List ℕ → List ℕ → ℕ → State → Option ℕ × State
  walk zero mounts full path cur s = (none, s)
  walk (suc rounds) mounts full path cur s =
      let here = skip_slashes full path in
      let name = take_name (vfs_name_size - 1) (here.1) in
      next_name mounts (here.0) (here.1) cur s
        (λ next s'. walk rounds mounts (add_chars (here.0) (name.0)) (name.1) next s')

  abbrev pub starting : List ℕ → List ℕ
  starting [] = []
  starting (c ∷ cs) = if c == slash then [] else slash ∷ []

  pub resolve_full : List Mount → List ℕ → State → Option ℕ × State
  resolve_full [] path s = (none, s)
  resolve_full (m ∷ ms) [] s = (none, s)
  resolve_full (m ∷ ms) (c ∷ cs) s =
      walk (length cs + 2) (m ∷ ms) (starting (c ∷ cs)) (c ∷ cs) m.root (vfs_inode_ref m.root s)
