-- ===== src/Tmpfs/Tests.antt =====
-- Runs of kernel/fs/tmpfs.c on a new file.
use lumin.Prelude.{◌≡◌, refl, true, Option, none, some, [], ◌∷◌, arith}
use lumin.Tmpfs.{File, tmpfs_read, tmpfs_write, tmpfs_truncate, ensure, finish_write}
use lumin.Tmpfs.Files.{tmpfs_read-tmpfs_write}

abbrev new_file : File
new_file = record { is_file = true; buffer = none; size = 0; capacity = 0; inode_size = 0 }

-- `kmalloc` returns a buffer of ones.
abbrev written_file : Option File
written_file =
    some (finish_write 2 (7 ∷ 8 ∷ []) (record new_file { buffer = some (λ i. 1); capacity = 64 }))

write_two : tmpfs_write (some (λ i. 1)) 2 (7 ∷ 8 ∷ []) new_file ≡ written_file
unfolding tmpfs_write ensure
write_two = refl

tmpfs_read-tmpfs_write_example :
    tmpfs_read 2 2
      (finish_write 2 (7 ∷ 8 ∷ []) (record new_file { buffer = some (λ i. 1); capacity = 64 }))
    ≡ some (7 ∷ 8 ∷ [])
tmpfs_read-tmpfs_write_example =
    tmpfs_read-tmpfs_write (some (λ i. 1)) 2 (7 ∷ 8 ∷ []) new_file _ (omega arith) (omega arith)
      (λ e. refl) write_two

-- The old byte past the new end is read again once the file is longer.
abbrev old_file : File
old_file = record {
  is_file = true;
  buffer = some (λ i. 5);
  size = 1;
  capacity = 64;
  inode_size = 1;
}

truncate_longer :
    tmpfs_truncate none 3 old_file ≡ some (record old_file { size = 3; inode_size = 3 })
unfolding tmpfs_truncate ensure
truncate_longer = refl
