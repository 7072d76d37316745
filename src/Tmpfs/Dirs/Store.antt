-- ===== src/Tmpfs/Dirs/Store.antt =====
-- The file system of kernel/fs/tmpfs.c as kernel/fs/vfs.c sees it: its root directory, which is the inode 0
-- and has the operations of `tmpfs_dir_ops`, of which those that need no new memory are here. The inodes
-- that `tmpfs_create` and `tmpfs_mkdir` make are given no operations, so the others have none.
-- `tmpfs_destroy_inode` gives memory back and changes nothing else.
use lumin.Prelude.{
  ℕ, ◌≡◌, refl, true, false, Option, none, some, List, arith, ◌==◌, if◌then◌else◌, if_cases, update,
  Bool-cases, Option-cases, inl, inr,
}
use mathlib.Core.Path.{subst}
use lumin.Vfs.{InodeStore, vfs_dir}
use lumin.Vfs.Paths.{Counts, Transfers, counted_up}
use lumin.Tmpfs.Dirs.{Dir, find_child, hold, tmpfs_lookup}

-- The child, if one is found, and the file system afterwards.
abbrev found_in : Dir → Option (ℕ × Dir) → Option ℕ × Dir
found_in d none = (none, d)
found_in d (some (i, d')) = (some i, d')

pub root_lookup : List ℕ → Dir → Option ℕ × Dir
unfolding tmpfs_lookup
root_lookup name d = found_in d (tmpfs_lookup name d)

abbrev with_count : ℕ → ℕ → Dir → Dir
with_count i n d = record d { inodes = update d.inodes i (record (d.inodes i) { refcount = n }) }

abbrev pub tmpfs : InodeStore
tmpfs = record {
  State = Dir;
  refcount = λ d j. (d.inodes j).refcount;
  set_refcount = with_count;
  destroy_inode = λ i d. d;
  kind = λ d i. if (if i == 0 then d.is_dir else (d.inodes i).is_dir) then vfs_dir else 0;
  ops = λ d i. record {
    read = none;
    write = none;
    truncate = none;
    lookup = if i == 0 then some root_lookup else none;
    create = none;
    unlink = none;
    mkdir = none;
  };
}

with_count-refcount :
    (i n j : ℕ) (d : Dir)
    → ((with_count i n d).inodes j).refcount ≡ (if i == j then n else (d.inodes j).refcount)
with_count-refcount i n j d = elim (Bool-cases (j == i)) [
  | inl here ↦ let turned : (i == j) ≡ true = ground (arith, here) in rw (here, turned) refl
  | inr away ↦ let turned : (i == j) ≡ false = ground (arith, away) in rw (away, turned) refl
]

hold-refcount :
    (i j : ℕ) (d : Dir)
    → ((hold i d).inodes j).refcount ≡ counted_up (some i) j (d.inodes j).refcount
hold-refcount i j d = elim (Bool-cases (j == i)) [
  | inl here ↦
      let turned : (i == j) ≡ true = ground (arith, here) in
      let same : i ≡ j = ground (arith, here) in rw (here, turned, same) refl
  | inr away ↦ let turned : (i == j) ≡ false = ground (arith, away) in rw (away, turned) refl
]

abbrev CountsUp : Option (List ℕ → Dir → Option ℕ × Dir) → Type 0
CountsUp none = Unit
CountsUp (some f) =
    (name : List ℕ) (d : Dir) (j : ℕ)
    → ((f name d).1.inodes j).refcount ≡ counted_up ((f name d).0) j (d.inodes j).refcount

root_lookup-CountsUp : CountsUp (some root_lookup)
unfolding root_lookup tmpfs_lookup
root_lookup-CountsUp name d j = elim (Bool-cases d.is_dir) [
  | inr file ↦ rw file refl
  | inl dir ↦ elim (Option-cases (find_child name d.children)) [
    | inl missing ↦ rw (dir, missing) refl
    | inr (i, there) ↦ rw (dir, there) (hold-refcount i j d)
  ]
]

pub tmpfs-Counts : Counts tmpfs
tmpfs-Counts = record {
  set_count = λ i n j d low. with_count-refcount i n j d;
  destroy_keeps = λ i j d. refl;
  lookup_counts = λ cur name s0 s f same.
      let all : CountsUp (some f) =
        subst CountsUp same
          (if_cases CountsUp (cur == 0) (λ root. root_lookup-CountsUp) (λ other. tt)) in
      all name s;
}

pub tmpfs-Transfers : Transfers tmpfs
tmpfs-Transfers = record {
  read_counts = λ i offset size s0 s f same. cc;
  write_counts = λ i offset bytes s0 s f same. cc;
}
