-- ===== src/Libc/Mem.antt =====
-- The block functions of libc/src/string/mem.c over a memory of bytes.
-- An object does not wrap round the end of the address space, so an address is any number.
pub mod Copy
pub mod Fill
use Prim.Native.Nat.{bit_or}
use lumin.Prelude.{
  ℕ, zero, suc, ◌+◌, ◌-◌, ◌*◌, ◌/◌, ◌%◌, ◌^◌, Bool, ◌&&◌, Option, none, some, ltb, leb, ◌==◌,
  if◌then◌else◌, update,
}
use lumin.Prelude.Int.{ℤ, pos, sub_ℕ}

abbrev pub Memory : Type 0
Memory = ℕ → ℕ

-- The address lies among the `n` bytes from `p` on.
abbrev pub within : ℕ → ℕ → ℕ → Bool
within p n j = leb p j && ltb j (p + n)

-- `for (; i < i + left; i++) d[i] = c`.
fill_loop : ℕ → ℕ → ℕ → ℕ → Memory → Memory
fill_loop d c i zero m = m
fill_loop d c i (suc left) m = fill_loop d c (i + 1) left (update m (d + i) c)

-- The store of a 64-bit word, its low byte first.
abbrev pub store_word : ℕ → ℕ → Memory → Memory
store_word d v m j = if within d 8 j then v / 2 ^ (8 * (j - d)) % 256 else m j

-- `while (n >= 8) { *dp++ = v; n -= 8; }` on fuel: the memory, `dp` and `n`.
word_fill_loop : ℕ → ℕ → ℕ → ℕ → Memory → Memory × ℕ × ℕ
word_fill_loop zero v d n m = (m, d, n)
word_fill_loop (suc fuel) v d n m =
    let rest = word_fill_loop fuel v (d + 8) (n - 8) (store_word d v m) in
    if leb 8 n then rest else (m, d, n)

-- `v = (unsigned char)c; v |= v << 8; v |= v << 16; v |= v << 32`.
spread : ℕ → ℕ
spread c =
    let v8 = bit_or c (c * 2 ^ 8 % 2 ^ 64) in
    let v16 = bit_or v8 (v8 * 2 ^ 16 % 2 ^ 64) in bit_or v16 (v16 * 2 ^ 32 % 2 ^ 64)

-- From the aligned address on.
fill_words : ℕ → ℕ → ℕ → Memory → Memory
unfolding word_fill_loop spread fill_loop
fill_words c d n m =
    let (m', d', n') = word_fill_loop (n + 1) (spread c) d n m in fill_loop d' c 0 n' m'

-- The bytes before the next address that 8 divides, if any.
abbrev head_part : ℕ → ℕ → ℕ
head_part d n = if ltb n (8 - d % 8) then n else 8 - d % 8

pub memset : ℕ → ℕ → ℕ → Memory → Memory
unfolding fill_words fill_loop
memset dst c n m =
    if dst % 8 == 0
    then fill_words (c % 256) dst n m
    else (let part = head_part dst n in
        fill_words (c % 256) (dst + part) (n - part) (fill_loop dst (c % 256) 0 part m))

-- `for (; i < i + left; i++) d[i] = s[i]`.
copy_up : ℕ → ℕ → ℕ → ℕ → Memory → Memory
copy_up d s i zero m = m
copy_up d s i (suc left) m = copy_up d s (i + 1) left (update m (d + i) (m (s + i)))

-- `for (i = n; i > 0; i--) d[i - 1] = s[i - 1]`.
copy_down : ℕ → ℕ → ℕ → Memory → Memory
copy_down d s zero m = m
copy_down d s (suc n) m = copy_down d s n (update m (d + n) (m (s + n)))

-- `*ld = *ls` on 64-bit words.
abbrev pub copy_word : ℕ → ℕ → Memory → Memory
copy_word d s m j = if within d 8 j then m (s + (j - d)) else m j

-- `while (n >= 8) { *ld++ = *ls++; n -= 8; }` and the bytes that are left.
copy_words : ℕ → ℕ → ℕ → ℕ → Memory → Memory
unfolding copy_up
copy_words zero d s n m = copy_up d s 0 n m
copy_words (suc fuel) d s n m =
    let rest = copy_words fuel (d + 8) (s + 8) (n - 8) (copy_word d s m) in
    if leb 8 n then rest else copy_up d s 0 n m

pub memcpy : ℕ → ℕ → ℕ → Memory → Memory
unfolding copy_words copy_up
memcpy dst src n m =
    if (dst % 8 == 0) && (src % 8 == 0)
    then copy_words (n + 1) dst src n m
    else copy_up dst src 0 n m

pub memmove : ℕ → ℕ → ℕ → Memory → Memory
unfolding copy_up copy_down
memmove dst src n m = if ltb dst src then copy_up dst src 0 n m else copy_down dst src n m

-- The loops of `memcmp` and `memchr`, from offset `i` on.
memcmp_loop : ℕ → ℕ → ℕ → ℕ → Memory → ℤ
memcmp_loop a b i zero m = pos 0
memcmp_loop a b i (suc left) m =
    let rest = memcmp_loop a b (i + 1) left m in
    if m (a + i) == m (b + i) then rest else sub_ℕ (m (a + i)) (m (b + i))

pub memcmp : ℕ → ℕ → ℕ → Memory → ℤ
unfolding memcmp_loop
memcmp a b n m = memcmp_loop a b 0 n m

memchr_loop : ℕ → ℕ → ℕ → ℕ → Memory → Option ℕ
memchr_loop s c i zero m = none
memchr_loop s c i (suc left) m =
    let rest = memchr_loop s c (i + 1) left m in if m (s + i) == c then some (s + i) else rest

-- `none` is NULL.
pub memchr : ℕ → ℕ → ℕ → Memory → Option ℕ
unfolding memchr_loop
memchr s c n m = memchr_loop s (c % 256) 0 n m
