-- ===== src/Tmpfs.antt =====
-- The files of kernel/fs/tmpfs.c: reading, writing and truncation.
-- `block` is what `kmalloc` returns for a larger buffer, `none` for NULL: the bytes that it holds.
pub mod Files
pub mod Dirs
mod Tests
use lumin.Prelude.{
  ℕ, zero, suc, ◌+◌, ◌-◌, ◌*◌, ◌%◌, ◌^◌, Bool, true, false, not, ◌&&◌, Option, none, some, List, [],
  ◌∷◌, ltb, leb, ◌==◌, if◌then◌else◌, update, length,
}

abbrev pub max_file_size : ℕ
max_file_size = 65536

abbrev pub u64_mod : ℕ
u64_mod = 2 ^ 64

-- `struct tmpfs_file`, with the type and size of its inode.
pub record File : Type 0 where
  pub is_file : Bool
  pub buffer : Option (ℕ → ℕ)
  pub size : ℕ
  pub capacity : ℕ
  pub inode_size : ℕ

-- The bytes of the buffer from `i` on.
abbrev pub slice : (ℕ → ℕ) → ℕ → ℕ → List ℕ
slice d i zero = []
slice d i (suc n) = d i ∷ slice d (i + 1) n

-- The bytes read; `none` is the result -1.
pub tmpfs_read : ℕ → ℕ → File → Option (List ℕ)
tmpfs_read offset size f = if not f.is_file then none else elim f.buffer [
  | none ↦ none
  | some d ↦
      if leb f.size offset
      then some []
      else some (slice d offset (if ltb size (f.size - offset) then size else f.size - offset))
]

-- `while (new_cap < needed && new_cap < TMPFS_MAX_FILE_SIZE) new_cap *= 2`: 16 rounds lead any capacity
-- above 0 to the limit.
double_loop : ℕ → ℕ → ℕ → ℕ
double_loop zero needed cap = cap
double_loop (suc fuel) needed cap =
    let rest = double_loop fuel needed (cap * 2) in
    if ltb cap needed && ltb cap max_file_size then rest else cap

-- The capacity for `needed` bytes.
grown : ℕ → ℕ → ℕ
unfolding double_loop
grown capacity needed =
    let cap = double_loop 16 needed (if capacity == 0 then 64 else capacity) in
    if ltb max_file_size cap then max_file_size else cap

-- `new_data` with the first `n` bytes of the old buffer.
abbrev carry : Option (ℕ → ℕ) → ℕ → (ℕ → ℕ) → ℕ → ℕ
carry none n fresh i = fresh i
carry (some d) n fresh i = if ltb i n then d i else fresh i

-- The file with room for `needed` bytes, where `keep` of the old ones are carried over.
ensure : Option (ℕ → ℕ) → ℕ → ℕ → File → Option File
unfolding grown
ensure block needed keep f =
    if leb needed f.capacity
    then some f
    else (if ltb (grown f.capacity needed) needed then none else elim block [
      | none ↦ none
      | some fresh ↦ some (record f {
        buffer = some (carry f.buffer keep fresh);
        capacity = grown f.capacity needed;
      })
    ])

-- `for (i = 0; i < size; i++) data[offset + i] = buf[i]`.
pub put_bytes : ℕ → List ℕ → (ℕ → ℕ) → ℕ → ℕ
put_bytes i [] d = d
put_bytes i (c ∷ cs) d = put_bytes (i + 1) cs (update d i c)

-- The stores and the new sizes. Without a buffer there are no bytes to store.
finish_write : ℕ → List ℕ → File → File
unfolding put_bytes
finish_write offset bytes f =
    let needed = (offset + length bytes) % u64_mod in
    record f {
      buffer = elim f.buffer [ none ↦ none | some d ↦ some (put_bytes offset bytes d) ];
      size = if ltb f.size needed then needed else f.size;
      inode_size = if ltb f.inode_size needed then needed else f.inode_size;
    }

-- `none` is the result -1, after which nothing has changed.
pub tmpfs_write : Option (ℕ → ℕ) → ℕ → List ℕ → File → Option File
tmpfs_write block offset bytes f =
    if not f.is_file
    then none
    else elim (ensure block ((offset + length bytes) % u64_mod) f.size f) [
      | none ↦ none
      | some f' ↦ some (finish_write offset bytes f')
    ]

pub tmpfs_truncate : Option (ℕ → ℕ) → ℕ → File → Option File
tmpfs_truncate block size f =
    if not f.is_file
    then none
    else elim (ensure block size (if ltb f.size size then f.size else size) f) [
      | none ↦ none
      | some f' ↦ some (record f' { size = size; inode_size = size })
    ]
