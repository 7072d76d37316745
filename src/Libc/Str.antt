-- ===== src/Libc/Str.antt =====
-- The string functions of libc/src/string/str.c over a memory of bytes.
-- A loop that runs to a NUL takes fuel, and `none` means that it ran out; a NULL result is 0.
pub mod Strings
pub mod Compare
pub mod Copying
pub mod Spans
mod Runs
pub mod Tokens
use lumin.Prelude.{
  ℕ, zero, suc, ◌+◌, ◌-◌, ◌%◌, Bool, true, false, not, ◌&&◌, ◌||◌, Option, none, some, ltb, leb,
  ◌==◌, if◌then◌else◌, update,
}
use lumin.Prelude.Int.{ℤ, pos, sub_ℕ}
use lumin.Libc.Mem.{Memory}

infixl 5 ◌>>=◌
abbrev pub ◌>>=◌ {ℓ κ} : {A : Type ℓ} {B : Type κ} → Option A → (A → Option B) → Option B
none >>= f = none
some a >>= f = f a

strlen_loop : ℕ → ℕ → ℕ → Memory → Option ℕ
strlen_loop zero s n m = none
strlen_loop (suc fuel) s n m =
    let rest = strlen_loop fuel s (n + 1) m in if m (s + n) == 0 then some n else rest

pub strlen : ℕ → ℕ → Memory → Option ℕ
unfolding strlen_loop
strlen fuel s m = strlen_loop fuel s 0 m

pub strcmp : ℕ → ℕ → ℕ → Memory → Option ℤ
strcmp zero a b m = none
strcmp (suc fuel) a b m =
    let rest = strcmp fuel (a + 1) (b + 1) m in
    if not (m a == 0) && not (m b == 0) && (m a == m b) then rest else some (sub_ℕ (m a) (m b))

-- `for (; i < n; i++)`, where `left` rounds are left.
strncmp_loop : ℕ → ℕ → ℕ → ℕ → Memory → ℤ
strncmp_loop a b i zero m = pos 0
strncmp_loop a b i (suc left) m =
    let rest = strncmp_loop a b (i + 1) left m in
    if m (a + i) == m (b + i)
    then (if m (a + i) == 0 then pos 0 else rest)
    else sub_ℕ (m (a + i)) (m (b + i))

pub strncmp : ℕ → ℕ → ℕ → Memory → ℤ
unfolding strncmp_loop
strncmp a b n m = strncmp_loop a b 0 n m

-- `while ((*d++ = *src++));`
pub strcpy : ℕ → ℕ → ℕ → Memory → Option Memory
strcpy zero d s m = none
strcpy (suc fuel) d s m =
    let m' = update m d (m s) in
    let rest = strcpy fuel (d + 1) (s + 1) m' in if m s == 0 then some m' else rest

-- Both loops of `strncpy`: after the NUL the rest is filled with NULs.
zero_loop : ℕ → ℕ → ℕ → Memory → Memory
zero_loop d i zero m = m
zero_loop d i (suc left) m = zero_loop d (i + 1) left (update m (d + i) 0)

strncpy_loop : ℕ → ℕ → ℕ → ℕ → Memory → Memory
unfolding zero_loop
strncpy_loop d s i zero m = m
strncpy_loop d s i (suc left) m =
    let rest = strncpy_loop d s (i + 1) left (update m (d + i) (m (s + i))) in
    if m (s + i) == 0 then zero_loop d i (suc left) m else rest

pub strncpy : ℕ → ℕ → ℕ → Memory → Memory
unfolding strncpy_loop
strncpy dst src n m = strncpy_loop dst src 0 n m

pub strcat : ℕ → ℕ → ℕ → Memory → Option Memory
unfolding strlen strcpy
strcat fuel dst src m = strlen fuel dst m >>= λ n. strcpy fuel (dst + n) src m

-- The loop of `strncat`: the memory and the final `i`.
strncat_loop : ℕ → ℕ → ℕ → ℕ → Memory → ℕ × Memory
strncat_loop d s i zero m = (i, m)
strncat_loop d s i (suc left) m =
    let rest = strncat_loop d s (i + 1) left (update m (d + i) (m (s + i))) in
    if m (s + i) == 0 then (i, m) else rest

pub strncat : ℕ → ℕ → ℕ → ℕ → Memory → Option Memory
unfolding strlen strncat_loop
strncat fuel dst src n m = strlen fuel dst m >>= λ len.
    let (i, m') = strncat_loop (dst + len) src 0 n m in some (update m' (dst + len + i) 0)

-- `c` is an `int`; the bytes are compared with its low byte, the end of the string with 0.
pub strchr : ℕ → ℕ → ℕ → Memory → Option ℕ
strchr zero s c m = none
strchr (suc fuel) s c m =
    let rest = strchr fuel (s + 1) c m in
    if m s == 0 then some (if c == 0 then s else 0) else (if m s == c % 256 then some s else rest)

strrchr_loop : ℕ → ℕ → ℕ → ℕ → Memory → Option ℕ
strrchr_loop zero s last c m = none
strrchr_loop (suc fuel) s last c m =
    let rest = strrchr_loop fuel (s + 1) (if m s == c % 256 then s else last) c m in
    if m s == 0 then some (if c == 0 then s else last) else rest

pub strrchr : ℕ → ℕ → ℕ → Memory → Option ℕ
unfolding strrchr_loop
strrchr fuel s c m = strrchr_loop fuel s 0 c m

-- The inner loop of `strstr`: whether it ends at the NUL of the needle.
match_at : ℕ → ℕ → ℕ → Memory → Option Bool
match_at zero h n m = none
match_at (suc fuel) h n m =
    let rest = match_at fuel (h + 1) (n + 1) m in
    if not (m h == 0) && not (m n == 0) && (m h == m n) then rest else some (m n == 0)

strstr_loop : ℕ → ℕ → ℕ → Memory → Option ℕ
unfolding match_at
strstr_loop zero h n m = none
strstr_loop (suc fuel) h n m =
    let rest = strstr_loop fuel (h + 1) n m in
    if m h == 0 then some 0 else match_at (suc fuel) h n m >>= λ hit. if hit then some h else rest

pub strstr : ℕ → ℕ → ℕ → Memory → Option ℕ
unfolding strstr_loop
strstr fuel h n m = if m n == 0 then some h else strstr_loop fuel h n m

-- `while (*set) { if (c == *set) …; set++; }`: whether `c` is a byte of the string `set`.
in_set : ℕ → ℕ → ℕ → Memory → Option Bool
in_set zero set c m = none
in_set (suc fuel) set c m =
    let rest = in_set fuel (set + 1) c m in
    if m set == 0 then some false else (if c == m set then some true else rest)

abbrev pub agrees : Bool → Bool → Bool
agrees true b = b
agrees false b = not b

-- The loops of `strspn` and `strcspn`, which go on while membership is `want`.
span_loop : ℕ → Bool → ℕ → ℕ → ℕ → Memory → Option ℕ
unfolding in_set
span_loop zero want s n set m = none
span_loop (suc fuel) want s n set m =
    let rest = span_loop fuel want s (n + 1) set m in
    if m (s + n) == 0
    then some n
    else in_set (suc fuel) set (m (s + n)) m >>= λ found. if agrees found want then rest else some n

pub strspn : ℕ → ℕ → ℕ → Memory → Option ℕ
unfolding span_loop
strspn fuel s accept m = span_loop fuel true s 0 accept m

pub strcspn : ℕ → ℕ → ℕ → Memory → Option ℕ
unfolding span_loop
strcspn fuel s reject m = span_loop fuel false s 0 reject m

pub strpbrk : ℕ → ℕ → ℕ → Memory → Option ℕ
unfolding in_set
strpbrk zero s accept m = none
strpbrk (suc fuel) s accept m =
    let rest = strpbrk fuel (s + 1) accept m in
    if m s == 0
    then some 0
    else in_set (suc fuel) accept (m s) m >>= λ found. if found then some s else rest
