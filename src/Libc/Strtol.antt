-- ===== src/Libc/Strtol.antt =====
-- `strtol` and `strtoul` of libc/src/stdlib/strtol.c, and `isspace` of libc/include/ctype.h.
-- A loop takes fuel, and `none` means that it ran out. `base` is not negative.
pub mod Decimal
use lumin.Prelude.{
  ℕ, zero, suc, ◌+◌, ◌-◌, ◌*◌, ◌/◌, ◌%◌, ◌^◌, Bool, true, false, ◌&&◌, ◌||◌, Option, none, some,
  ltb, leb, ◌==◌, if◌then◌else◌,
}
use lumin.Prelude.Int.{ℤ, pos, negsuc}
use lumin.Libc.Mem.{Memory}
use lumin.Libc.Str.{◌>>=◌}

abbrev pub long_max : ℕ
long_max = 2 ^ 63 - 1

abbrev pub ulong_max : ℕ
ulong_max = 2 ^ 64 - 1

abbrev pub is_space : ℕ → Bool
is_space c = (c == b' ') || ((c == 9) || ((c == 10) || ((c == 13) || ((c == 12) || (c == 11)))))

-- `while (isspace(*p)) p++;`
skip_space : ℕ → ℕ → Memory → Option ℕ
skip_space zero p m = none
skip_space (suc fuel) p m =
    let rest = skip_space fuel (p + 1) m in if is_space (m p) then rest else some p

-- Whether there is a minus sign, and the address behind the sign.
read_sign : ℕ → Memory → Bool × ℕ
read_sign p m =
    if m p == b'-' then (true, p + 1) else (if m p == b'+' then (false, p + 1) else (false, p))

-- The base, and the address behind its prefix.
read_base : ℕ → ℕ → Memory → ℕ × ℕ
read_base base p m =
    if ((base == 0) || (base == 16))
      && ((m p == b'0') && ((m (p + 1) == b'x') || (m (p + 1) == b'X')))
    then (16, p + 2)
    else if (base == 0) && (m p == b'0')
    then (8, p + 1)
    else (if base == 0 then (10, p) else (base, p))

-- The value of a digit or letter; `none` for any other byte.
unfoldable pub digit_of : ℕ → Option ℕ
digit_of c =
    if leb b'0' c && leb c b'9'
    then some (c - b'0')
    else if leb b'a' c && leb c b'z'
    then some (c - b'a' + 10)
    else (if leb b'A' c && leb c b'Z' then some (c - b'A' + 10) else none)

-- The variable `any`: 0, 1 and -1.
pub data Any : Type 0 where
  no_digits digits overflow : Any

-- What a loop leaves in `val`, `any` and `p`.
pub record Scanned : Type 0 where
  pub val : ℕ
  pub any : Any
  pub p : ℕ

abbrev pub scanned : ℕ → Any → ℕ → Scanned
scanned v a q = record { val = v; any = a; p = q }

-- One round of `strtol`: a digit `d` when `val` is `v`.
abbrev pub step : ℕ → ℕ → ℕ → Any → ℕ × Any
step base d v overflow = (v, overflow)
step base d v no_digits =
    if ltb ((long_max - d) / base) v then (v, overflow) else (v * base + d, digits)
step base d v digits =
    if ltb ((long_max - d) / base) v then (v, overflow) else (v * base + d, digits)

-- One round of `strtoul`.
abbrev pub step_unsigned : ℕ → ℕ → ℕ → ℕ × Any
step_unsigned base d v =
    if ltb ((ulong_max - d) / base) v then (v, overflow) else (v * base + d, digits)

strtol_loop : ℕ → ℕ → ℕ → ℕ → Any → Memory → Option Scanned
strtol_loop zero base p v any m = none
strtol_loop (suc fuel) base p v any m = elim (digit_of (m p)) [
  | none ↦ some (scanned v any p)
  | some d ↦
      let (v', any') = step base d v any in
      let rest = strtol_loop fuel base (p + 1) v' any' m in
      if leb base d then some (scanned v any p) else rest
]

strtoul_loop : ℕ → ℕ → ℕ → ℕ → Any → Memory → Option Scanned
strtoul_loop zero base p v any m = none
strtoul_loop (suc fuel) base p v any m = elim (digit_of (m p)) [
  | none ↦ some (scanned v any p)
  | some d ↦
      let (v', any') = step_unsigned base d v in
      let rest = strtoul_loop fuel base (p + 1) v' any' m in
      if leb base d then some (scanned v any p) else rest
]

-- The result, `*endptr`, and whether `errno` is set to ERANGE.
pub record Parsed (A : Type 0) : Type 0 where
  pub value : A
  pub endptr : ℕ
  pub range_error : Bool

-- `val * sign`.
abbrev pub signed : Bool → ℕ → ℤ
signed false v = pos v
signed true zero = pos 0
signed true (suc n) = negsuc n

finish_long : ℕ → Bool → ℕ → ℕ → Any → Parsed ℤ
finish_long s minus v p no_digits = record { value = pos 0; endptr = s; range_error = false }
finish_long s minus v p digits = record { value = signed minus v; endptr = p; range_error = false }
finish_long s minus v p overflow = record {
  value = if minus then negsuc long_max else pos long_max;
  endptr = p;
  range_error = true;
}

pub strtol : ℕ → ℕ → ℕ → Memory → Option (Parsed ℤ)
strtol fuel s base m = skip_space fuel s m >>= λ p.
    let (minus, p1) = read_sign p m in
    let (base', p2) = read_base base p1 m in
    strtol_loop fuel base' p2 0 no_digits m >>= λ r. some (finish_long s minus r.val r.p r.any)

-- `-val` of an unsigned long wraps round.
finish_unsigned : ℕ → Bool → ℕ → ℕ → Any → Parsed ℕ
finish_unsigned s minus v p no_digits = record { value = 0; endptr = s; range_error = false }
finish_unsigned s minus v p digits = record {
  value = if minus then (2 ^ 64 - v) % 2 ^ 64 else v;
  endptr = p;
  range_error = false;
}
finish_unsigned s minus v p overflow = record { value = ulong_max; endptr = p; range_error = true }

pub strtoul : ℕ → ℕ → ℕ → Memory → Option (Parsed ℕ)
strtoul fuel s base m = skip_space fuel s m >>= λ p.
    let (minus, p1) = read_sign p m in
    let (base', p2) = read_base base p1 m in
    strtoul_loop fuel base' p2 0 no_digits m >>= λ r. some (finish_unsigned s minus r.val r.p r.any)
