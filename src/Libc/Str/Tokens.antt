-- ===== src/Libc/Str/Tokens.antt =====
-- `strtok_r`, `strcasecmp` and `strncasecmp` of libc/src/string/str.c.
mod Runs
use lumin.Prelude.{
  ℕ, zero, suc, ◌+◌, ◌≡◌, refl, Bool, true, false, not, ◌&&◌, Option, none, some, List, [], ◌∷◌,
  ltb, leb, ◌==◌, if◌then◌else◌, update, get_or,
}
use lumin.Prelude.Int.{ℤ, pos, sub_ℕ}
use lumin.Libc.Mem.{Memory}
use lumin.Libc.Str.{◌>>=◌, in_set, agrees}

-- The loops of `strtok_r`: the first address from `s` on with a NUL, or with a byte that is not in the
-- string `delim`, or, for `want` false, one that is.
pass_bytes : ℕ → Bool → ℕ → ℕ → Memory → Option ℕ
unfolding in_set
pass_bytes zero want s delim m = none
pass_bytes (suc fuel) want s delim m =
    let rest = pass_bytes fuel want (s + 1) delim m in
    if m s == 0
    then some s
    else in_set (suc fuel) delim (m s) m >>= λ found. if agrees found want then rest else some s

-- The result of `strtok_r`, `*saveptr`, and the memory.
pub record Token : Type 0 where
  pub start : ℕ
  pub saveptr : ℕ
  pub mem : Memory

abbrev token : ℕ → ℕ → Memory → Token
token p save m = record { start = p; saveptr = save; mem = m }

-- The end of the token that begins at `p`.
cut_token : ℕ → ℕ → ℕ → Memory → Option Token
unfolding pass_bytes
cut_token fuel p delim m =
    if m p == 0
    then some (token 0 0 m)
    else pass_bytes fuel false p delim m >>= λ q.
        some (if m q == 0 then token p 0 m else token p (q + 1) (update m q 0))

pub strtok_r : ℕ → ℕ → ℕ → ℕ → Memory → Option Token
unfolding pass_bytes cut_token
strtok_r fuel str delim save m =
    let s = if str == 0 then save else str in
    if s == 0
    then some (token 0 save m)
    else pass_bytes fuel true s delim m >>= λ p. cut_token fuel p delim m

-- `(c >= 'A' && c <= 'Z') ? c + 0x20 : c`.
abbrev pub lower : ℕ → ℕ
lower c = if leb b'A' c && leb c b'Z' then c + 0x20 else c

pub strcasecmp : ℕ → ℕ → ℕ → Memory → Option ℤ
strcasecmp zero a b m = none
strcasecmp (suc fuel) a b m =
    let rest = strcasecmp fuel (a + 1) (b + 1) m in
    if not (m a == 0) && not (m b == 0)
    then (if lower (m a) == lower (m b) then rest else some (sub_ℕ (lower (m a)) (lower (m b))))
    else some (sub_ℕ (m a) (m b))

-- `for (; i < n; i++)`, where `left` rounds are left.
strncasecmp_loop : ℕ → ℕ → ℕ → ℕ → Memory → ℤ
strncasecmp_loop a b i zero m = pos 0
strncasecmp_loop a b i (suc left) m =
    let rest = strncasecmp_loop a b (i + 1) left m in
    if (m (a + i) == 0) && (m (b + i) == 0)
    then pos 0
    else if lower (m (a + i)) == lower (m (b + i))
    then (if m (a + i) == 0 then pos 0 else rest)
    else sub_ℕ (lower (m (a + i))) (lower (m (b + i)))

pub strncasecmp : ℕ → ℕ → ℕ → Memory → ℤ
unfolding strncasecmp_loop
strncasecmp a b n m = strncasecmp_loop a b 0 n m
