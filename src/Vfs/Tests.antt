-- ===== src/Vfs/Tests.antt =====
-- Runs of kernel/fs/vfs.c on a tmpfs with one file.
use lumin.Prelude.{ℕ, ◌+◌, ◌<◌, ◌^◌, ◌≡◌, refl, List, [], ◌∷◌, arith, replicate, true, false}
use lumin.Tmpfs.Dirs.{Dir}
use lumin.Tmpfs.Dirs.Store.{tmpfs, tmpfs-Counts, tmpfs-Transfers}
use lumin.Vfs.{Mount, resolve_full}
use lumin.Vfs.Paths.{Balanced-resolve_full, one_at}
use lumin.Vfs.Files.{Vfs, closed, vfs_open, vfs_dup, vfs_close}
use lumin.Vfs.Files.Balance.{Settled}
use lumin.Vfs.Files.Calls.{no_call, then_call, opening, doubling, closing, Settled-Calls}

-- A tmpfs with the file `a` in its root, the inode 1; each inode has one reference.
abbrev one_file : Dir
one_file = record {
  is_dir = true;
  children = record { name = 97 ∷ []; inode = 1 } ∷ [];
  inodes = λ i. record { is_dir = false; size = 0; refcount = 1 };
}

abbrev roots : List Mount
roots = record { path = 47 ∷ []; root = 0 } ∷ []

abbrev base : ℕ → ℕ
base j = 1

base_small : (j : ℕ) → base j + 70 < 2 ^ 32
base_small j = omega arith

-- The path /a.
abbrev path_a : List ℕ
path_a = 47 ∷ 97 ∷ []

Balanced-resolve_full_example :
    ((resolve_full tmpfs roots path_a one_file).1.inodes 1).refcount
    ≡ 1 + one_at ((resolve_full tmpfs roots path_a one_file).0) 1
Balanced-resolve_full_example =
    Balanced-resolve_full tmpfs tmpfs-Counts base (λ j. omega arith) roots path_a one_file
      (λ j. refl) 1

abbrev fresh : Vfs Dir
fresh = record {
  file_table = replicate 64 closed;
  file_count = 0;
  mounts = roots;
  store = one_file;
}

fresh-Settled : Settled tmpfs tmpfs-Counts base base_small fresh
fresh-Settled = record { entries = refl; counts = λ j. refl }

abbrev opened_a : Vfs Dir
opened_a = (vfs_open tmpfs path_a 3 fresh).1

abbrev doubled_a : Vfs Dir
doubled_a = (vfs_dup tmpfs 0 opened_a).1

Settled-Calls_example : Settled tmpfs tmpfs-Counts base base_small ((vfs_close tmpfs 0 doubled_a).1)
Settled-Calls_example =
    Settled-Calls tmpfs tmpfs-Counts tmpfs-Transfers base base_small
      (then_call (then_call (then_call no_call (opening path_a 3 refl)) (doubling 0)) (closing 0))
      fresh-Settled
