-- ===== src/Tmpfs/Dirs.antt =====
-- The directories of kernel/fs/tmpfs.c. A name is its bytes before the NUL, an inode is a number.
-- What `kmalloc` returns is an argument: the new inode, and whether the second block was there too.
pub mod Store
mod Runs
use lumin.Prelude.{
  ℕ, ◌+◌, ◌-◌, ◌%◌, ◌^◌, Bool, true, false, not, Option, none, some, List, [], ◌∷◌, ◌++◌, leb, ◌==◌,
  if◌then◌else◌, update, length, take, get_elem?,
}

abbrev pub max_entries : ℕ
max_entries = 64

abbrev pub vfs_name_max : ℕ
vfs_name_max = 256

-- `struct tmpfs_child`.
pub record Child : Type 0 where
  pub name : List ℕ
  pub inode : ℕ

-- What the calls read and write of a child's inode.
pub record Inode : Type 0 where
  pub is_dir : Bool
  pub size : ℕ
  pub refcount : ℕ

-- The directory's own type, its children up to `child_count`, and the inodes.
pub record Dir : Type 0 where
  pub is_dir : Bool
  pub children : List Child
  pub inodes : ℕ → Inode

-- `while (*a && *b && *a == *b) { a++; b++; }` and `*a == *b`.
abbrev pub same_name : List ℕ → List ℕ → Bool
same_name [] [] = true
same_name [] (b ∷ bs) = false
same_name (a ∷ as_left) [] = false
same_name (a ∷ as_left) (b ∷ bs) = if a == b then same_name as_left bs else false

-- The name, inode number, type and size of an entry.
pub record Entry : Type 0 where
  pub name : List ℕ
  pub ino : ℕ
  pub is_dir : Bool
  pub size : ℕ

pub tmpfs_readdir : ℕ → Dir → Option Entry
tmpfs_readdir index d = if not d.is_dir then none else elim (get_elem? d.children index) [
  | none ↦ none
  | some c ↦ some (record {
    name = take (vfs_name_max - 1) c.name;
    ino = c.inode;
    is_dir = (d.inodes c.inode).is_dir;
    size = (d.inodes c.inode).size;
  })
]

-- The first child of that name.
abbrev pub find_child : List ℕ → List Child → Option ℕ
find_child name [] = none
find_child name (c ∷ cs) = if same_name c.name name then some c.inode else find_child name cs

-- `refcount++`, on a `uint32_t`.
abbrev pub hold : ℕ → Dir → Dir
hold i d = record d {
  inodes =
      update d.inodes i (record (d.inodes i) { refcount = ((d.inodes i).refcount + 1) % 2 ^ 32 });
}

-- `none` is the result -1.
pub tmpfs_lookup : List ℕ → Dir → Option (ℕ × Dir)
tmpfs_lookup name d =
    if not d.is_dir
    then none
    else elim (find_child name d.children) [ none ↦ none | some i ↦ some (i, hold i d) ]

-- The new entry at the end, and its inode with one reference.
abbrev add_child : Bool → List ℕ → ℕ → Dir → Dir
add_child dir name i d = record d {
  children = d.children ++ (record { name = take (vfs_name_max - 1) name; inode = i }) ∷ [];
  inodes = update d.inodes i (record { is_dir = dir; size = 0; refcount = 1 });
}

-- `tmpfs_create` and `tmpfs_mkdir`, which differ in the type of the inode.
add_inode : Bool → Option ℕ → Bool → List ℕ → Dir → Option (ℕ × Dir)
add_inode dir block second name d =
    if not d.is_dir
    then none
    else (if leb max_entries (length d.children) then none else elim block [
      | none ↦ none
      | some i ↦ if second then some (i, add_child dir name i d) else none
    ])

pub tmpfs_create : Option ℕ → Bool → List ℕ → Dir → Option (ℕ × Dir)
unfolding add_inode
tmpfs_create block second name d = add_inode false block second name d

pub tmpfs_mkdir : Option ℕ → Bool → List ℕ → Dir → Option (ℕ × Dir)
unfolding add_inode
tmpfs_mkdir block second name d = add_inode true block second name d

-- The children without the first of that name, if there is one.
abbrev push : Child → Option (List Child) → Option (List Child)
push c none = none
push c (some cs) = some (c ∷ cs)

abbrev pub remove_child : List ℕ → List Child → Option (List Child)
remove_child name [] = none
remove_child name (c ∷ cs) =
    if same_name c.name name then some cs else push c (remove_child name cs)

-- The inode is given back to `kfree`, whatever its `refcount`.
pub tmpfs_unlink : List ℕ → Dir → Option Dir
tmpfs_unlink name d = if not d.is_dir then none else elim (remove_child name d.children) [
  | none ↦ none
  | some cs ↦ some (record d { children = cs })
]
