-- ===== src/Lib.antt =====
-- A verification library for the kernel and the C library of lumin, a small x86-64 operating
-- system.
--
-- The kernel hands out physical pages (kernel/mm/pmm.c), runs tasks round robin on one processor
-- and sends them signals (kernel/proc/task.c), and reads and writes disks and their partitions
-- through a table of block devices (kernel/block/block.c), and has pipes (kernel/fs/pipefs.c),
-- files in memory (kernel/fs/tmpfs.c) and on FAT32 volumes (kernel/fs/fat32.c), and a keyboard
-- (os/keyboard.c). Programs are linked with the C library under libc/src. The page allocator
-- serves the other parts; the timer interrupt calls `schedule`; the system calls reach tasks,
-- signals and, through kernel/fs/vfs.c, files.
--
-- Pmm: kernel/mm/pmm.c. The record Pmm holds the file's static variables and the first word of
--   every page; `alloc` is pmm_alloc, and so on. `none` is a call that spins on `pmm_lock` for
--   ever. Pmm/Zones reads the free lists as lists of pages, Pmm/Calls is about single pages,
--   Pmm/Blocks about pmm_alloc_pages, Pmm/Ranges about pmm_init. The loop of add_range has as much
--   fuel as there are pages below its end, plus one.
-- Sched: kernel/proc/task.c with kernel/proc/task.h. The record Sched holds the static variables
--   and the two registers that `schedule` writes; a pointer to a task is an index. Sched/Schedule
--   is about `schedule`, Sched/Pids about alloc_pid, Sched/Signals has the signal calls and
--   Sched/Signals/Laws is about them and task_exit. The inline assembly at the end of task_exit is
--   the value `resumed`.
-- Block: kernel/block/block.c. A device is named by a number; what a driver does to a transfer is a
--   parameter, the function in its `ops`. Block/Transfers is about block_read through a partition,
--   Block/Mbr about block_parse_mbr, Block/Table about the table; Block/Parts has
--   block_register_partitions. The fuel of block_read bounds how deep partitions are nested in
--   partitions.
-- Pipe: kernel/fs/pipefs.c. The positions of the ring are ints that only grow, and a call that would
--   bring one to 2 ^ 31 ends in an overflow. A call
--   that waits for an interrupt ends a stretch of the model with its progress. Pipe/Queue reads the
--   ring as a queue of bytes.
-- Tmpfs: kernel/fs/tmpfs.c, its files and directories. A buffer is a function from offsets to
--   bytes, and what kmalloc returns is an argument of the calls. Tmpfs/Files is about reading back
--   what was written; Tmpfs/Dirs has the directory calls, and Tmpfs/Dirs/Store makes of them the
--   file system that Vfs calls. The loop that doubles a capacity has fuel
--   for 16 rounds, which lead from 1 to the limit of 65536.
-- Fat32: kernel/fs/fat32.c, the table of clusters, mounting, directories, reading and writing. A
--   disk is a parameter, the record Disk: a state and what block_read and block_write do to one
--   sector of it. The theorems on the table bound the clusters and the table (IsFs), which
--   fat32_mount does not. Fat32/Links is about one entry of the table, Fat32/Alloc about the search for a
--   free one, Fat32/Chains and Fat32/Extend about chains, Fat32/Volume about mounting, Fat32/FsInfo
--   about the count of free clusters, Fat32/Files has fat32_read_file and Fat32/Files/Reading is
--   about it, Fat32/Names and Fat32/LongNames have the names of directory entries, and
--   Fat32/BuildNames makes the parts of a long one. Fat32/Dirs has the scans of fat32_read_dir and
--   fat32_lookup: Dirs/Chained is about the loops on clusters and sectors, Dirs/Listing about what
--   they find. Fat32/Writing has fat32_write_file: Writing/Device is about the bytes of a device,
--   Writing/Contents about those of a file, Writing/Runs about the clusters that a write goes
--   through, Writing/Overwriting about a write inside a file, and Writing/Longer and
--   Writing/Growing about one past its end. Fat32/Truncating has fat32_truncate, Truncating/Cutting
--   is about it. A loop along a chain has fuel, and more than the chain has clusters is enough.
-- Devfs: the reads and writes of block devices by their bytes in kernel/fs/vfs.c, over the same
--   record Disk. The loop on whole sectors takes at most one step for each byte, and fuel above the
--   size is enough.
-- Vfs: kernel/fs/vfs.c down to vfs_mkdir. What the file systems below do is a parameter, the record
--   InodeStore; their promises on the counts of references are the records Counts and Transfers of
--   Vfs/Paths, which is about resolve_full, and tmpfs keeps them. Vfs/Files has the calls, Vfs/Files/Balance and
--   Vfs/Files/Calls are about the references of open files. The loop on the names of a path has one
--   round more than the path has characters, and each name takes one.
-- Keyboard: os/keyboard.c without its line editor. Keyboard/Keys describes the keys of a US keyboard
--   on their own and shows that the handler agrees; Keyboard/Queue reads the ring as a queue of
--   characters. A read that waits for an interrupt ends a stretch of the model.
-- Libc/Mem: libc/src/string/mem.c. Memory is a function from addresses to bytes, and addresses do
--   not wrap round. Libc/Str: libc/src/string/str.c, with strtok_r and the comparisons that ignore
--   case in Libc/Str/Tokens. Libc/Strtol: libc/src/stdlib/strtol.c. A loop that runs to a NUL or to
--   a byte that is no digit takes fuel, and the theorems say that a number above the length of what
--   is read is enough.
-- Libc/Malloc: malloc of libc/src/stdlib/malloc.c. The words of the heap are functions of the
--   addresses of blocks, so a program that writes past its block is not modelled. Malloc/Blocks has
--   the blocks as a list and the first fit in it, Malloc/Taking and Malloc/Fitting are about the
--   search, Malloc/Fresh about the blocks that are given. Libc/Sbrk has sbrk of
--   libc/src/unistd/unistd.c and SYS_BRK of kernel/proc/syscall.c; which pages can be had is a
--   function. The search takes one step more than there are free blocks.
-- Prelude: the names that all parts share.
--
-- Numbers of 64 bits are natural numbers with the wrap-around written out (`% 2 ^ 64`).
-- Not modelled: virtual memory, procfs, the list of devices of vfs.c, the parts of FAT32 not named
-- above (short names, the writing of directory entries), task creation, fork and exec, system
-- calls but SYS_BRK, the drivers and the start of the processor, the line editor of the keyboard, the rest of
-- libc, the programs under user, and the build tools. Several processors do not run at once.
pub mod Prelude
pub mod Pmm
pub mod Sched
pub mod Libc
pub mod Block
pub mod Pipe
pub mod Tmpfs
pub mod Vfs
pub mod Devfs
pub mod Fat32
pub mod Keyboard
