-- ===== src/Tmpfs/Dirs/Runs.antt =====
-- Runs of the directory calls of kernel/fs/tmpfs.c.
use lumin.Prelude.{ℕ, ◌≡◌, refl, true, false, Option, none, some, [], ◌∷◌, length}
use lumin.Tmpfs.Dirs.{Dir, tmpfs_readdir, tmpfs_lookup, tmpfs_create, tmpfs_mkdir, tmpfs_unlink}

-- One file, "a", with the inode 7.
abbrev one_file : Dir
one_file = record {
  is_dir = true;
  children = record { name = 97 ∷ []; inode = 7 } ∷ [];
  inodes = λ i. record { is_dir = false; size = i; refcount = 1 };
}

abbrev child_count : Option (ℕ × Dir) → ℕ
child_count none = 0
child_count (some (i, d)) = length d.children

abbrev inode_of : Option (ℕ × Dir) → ℕ
inode_of none = 0
inode_of (some (i, d)) = i

readdir_end : tmpfs_readdir 1 one_file ≡ none
unfolding tmpfs_readdir
readdir_end = refl

lookup_a : inode_of (tmpfs_lookup (97 ∷ []) one_file) ≡ 7
unfolding tmpfs_lookup
lookup_a = refl

-- A second file of the same name is not refused.
create_again : child_count (tmpfs_create (some 9) true (97 ∷ []) one_file) ≡ 2
unfolding tmpfs_create
create_again = refl

mkdir_no_memory : child_count (tmpfs_mkdir (some 9) false (98 ∷ []) one_file) ≡ 0
unfolding tmpfs_mkdir
mkdir_no_memory = refl

unlink_missing : tmpfs_unlink (98 ∷ []) one_file ≡ none
unfolding tmpfs_unlink
unlink_missing = refl
