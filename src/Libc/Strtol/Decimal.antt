-- ===== src/Libc/Strtol/Decimal.antt =====
-- `strtol` and `strtoul` of libc/src/stdlib/strtol.c on the digits of a decimal number.
use lumin.Prelude.{
  ℕ, zero, suc, ◌+◌, ◌-◌, ◌*◌, ◌/◌, ◌≤◌, ◌<◌, ◌≡◌, refl, ◌∙◌, ap, inl, inr, true, false, ◌&&◌, some,
  List, [], ◌∷◌, ◌++◌, arith, length, length-append, ◌==◌, ltb, leb, if◌then◌else◌, Bool-cases,
  Option-cases,
}
use lumin.Prelude.Int.{ℤ, pos}
use lumin.Libc.Mem.{Memory}
use lumin.Libc.Strtol.{
  Any, no_digits, digits, overflow, scanned, step, step_unsigned, digit_of, is_space, strtol,
  strtol_loop, strtoul, strtoul_loop, Parsed, long_max, ulong_max, skip_space, read_sign, read_base,
  finish_long, finish_unsigned,
}

-- From `p` on the memory holds these decimal digits, and then a byte that is none.
abbrev pub IsDigits : Memory → ℕ → List ℕ → Type 0
IsDigits m p [] = (leb b'0' (m p) && leb (m p) b'9') ≡ false
IsDigits m p (d ∷ ds) = (m p ≡ b'0' + d) × (d < 10) × IsDigits m (p + 1) ds

-- The number that the digits stand for, behind those of `v`.
abbrev pub decimal : ℕ → List ℕ → ℕ
decimal v [] = v
decimal v (d ∷ ds) = decimal (v * 10 + d) ds

-- The rounds of the loop over the digits.
run : ℕ → Any → List ℕ → ℕ × Any
run v any [] = (v, any)
run v any (d ∷ ds) = let (v', any') = step 10 d v any in run v' any' ds

run_unsigned : ℕ → Any → List ℕ → ℕ × Any
run_unsigned v any [] = (v, any)
run_unsigned v any (d ∷ ds) = let (v', any') = step_unsigned 10 d v in run_unsigned v' any' ds

-- `digit_of` on the two kinds of bytes, as the loop reads it at base 10.
digit_lem : (c d : ℕ) → c ≡ b'0' + d → d < 10 → digit_of c ≡ some d
unfolding digit_of
digit_lem c d e h = ground arith

stop : (c d : ℕ) → (leb b'0' c && leb c b'9') ≡ false → digit_of c ≡ some d → leb 10 d ≡ true
unfolding digit_of
stop c d h e = ground arith

strtol_loop-run :
    (fuel p v : ℕ) (any : Any) (m : Memory) (ds : List ℕ)
    → IsDigits m p ds
    → length ds < fuel
    → strtol_loop fuel 10 p v any m
      ≡ some (scanned (run v any ds).0 (run v any ds).1 (p + length ds))
unfolding strtol_loop run
strtol_loop-run zero p v any m ds h f = absurd (omega arith)
strtol_loop-run (suc fuel) p v any m (d ∷ ds) (e, small, h) f =
    let at : p + 1 + length ds ≡ p + suc (length ds) = omega arith in
    let below : leb 10 d ≡ false = ground arith in
    rw (digit_lem (m p) d e small, strtol_loop, below)
      (strtol_loop-run fuel (p + 1) (step 10 d v any).0 (step 10 d v any).1 m ds h (omega arith)
        ∙ ap (λ (q : ℕ). some (scanned (run v any (d ∷ ds)).0 (run v any (d ∷ ds)).1 q)) at)
strtol_loop-run (suc fuel) p v any m [] h f =
    let at : p ≡ p + 0 = omega arith in
    elim (Option-cases (digit_of (m p))) [
      | inl other ↦ rw (other, strtol_loop) (ap (λ (q : ℕ). some (scanned v any q)) at)
      | inr found ↦
          rw (found.1, stop (m p) found.0 h found.1, strtol_loop)
            (ap (λ (q : ℕ). some (scanned v any q)) at)
    ]

strtoul_loop-run :
    (fuel p v : ℕ) (any : Any) (m : Memory) (ds : List ℕ)
    → IsDigits m p ds
    → length ds < fuel
    → strtoul_loop fuel 10 p v any m
      ≡ some (scanned (run_unsigned v any ds).0 (run_unsigned v any ds).1 (p + length ds))
unfolding strtoul_loop run_unsigned
strtoul_loop-run zero p v any m ds h f = absurd (omega arith)
strtoul_loop-run (suc fuel) p v any m (d ∷ ds) (e, small, h) f =
    let at : p + 1 + length ds ≡ p + suc (length ds) = omega arith in
    let below : leb 10 d ≡ false = ground arith in
    let r = step_unsigned 10 d v in
    rw (digit_lem (m p) d e small, strtoul_loop, below)
      (strtoul_loop-run fuel (p + 1) r.0 r.1 m ds h (omega arith)
        ∙ ap (λ (q : ℕ). some (scanned (run_unsigned r.0 r.1 ds).0 (run_unsigned r.0 r.1 ds).1 q))
            at)
strtoul_loop-run (suc fuel) p v any m [] h f =
    let at : p ≡ p + 0 = omega arith in
    elim (Option-cases (digit_of (m p))) [
      | inl other ↦ rw (other, strtoul_loop) (ap (λ (q : ℕ). some (scanned v any q)) at)
      | inr found ↦
          rw (found.1, stop (m p) found.0 h found.1, strtoul_loop)
            (ap (λ (q : ℕ). some (scanned v any q)) at)
    ]

le-decimal : (v : ℕ) (ds : List ℕ) → v ≤ decimal v ds
le-decimal v [] = omega arith
le-decimal v (d ∷ ds) = omega (arith, le-decimal (v * 10 + d) ds)

-- A round that fits, for both values of `any` before an overflow.
step_fits : (d v : ℕ) → d < 10 → v * 10 + d ≤ long_max → ltb ((long_max - d) / 10) v ≡ false
step_fits d v h k = ground arith

step_over : (d v : ℕ) → d < 10 → long_max < v * 10 + d → ltb ((long_max - d) / 10) v ≡ true
step_over d v h k = ground arith

run-overflow : (v : ℕ) (ds : List ℕ) → (run v overflow ds).1 ≡ overflow
unfolding run
run-overflow v [] = refl
run-overflow v (d ∷ ds) = run-overflow v ds

abbrev Digits : List ℕ → Type 0
Digits [] = Unit
Digits (d ∷ ds) = (d < 10) × Digits ds

run-fits :
    (v : ℕ) (ds : List ℕ)
    → Digits ds
    → decimal v ds ≤ long_max
    → run v digits ds ≡ (decimal v ds, digits)
unfolding run
run-fits v [] h k = refl
run-fits v (d ∷ ds) (small, h) k =
    rw (step_fits d v small (omega (arith, le-decimal (v * 10 + d) ds)))
      (run-fits (v * 10 + d) ds h k)

run-over :
    (v : ℕ) (ds : List ℕ)
    → Digits ds
    → v ≤ long_max
    → long_max < decimal v ds
    → (run v digits ds).1 ≡ overflow
unfolding run
run-over v [] h b k = absurd (omega arith)
run-over v (d ∷ ds) (small, h) b k = elim (Bool-cases (leb (v * 10 + d) long_max)) [
  | inl fits ↦
      let le : v * 10 + d ≤ long_max = ground arith in
      rw (step_fits d v small le, run) (run-over (v * 10 + d) ds h le k)
  | inr over ↦
      let gt : long_max < v * 10 + d = ground arith in
      rw (step_over d v small gt, run) (run-overflow v ds)
]

IsDigits-Digits : (m : Memory) (p : ℕ) (ds : List ℕ) → IsDigits m p ds → Digits ds
IsDigits-Digits m p [] h = tt
IsDigits-Digits m p (d ∷ ds) (e, small, h) = (small, IsDigits-Digits m (p + 1) ds h)

-- With a digit in front there is no space, sign or prefix at base 10.
no_space : (c d : ℕ) → c ≡ b'0' + d → d < 10 → is_space c ≡ false
no_space c d e h = ground arith

no_sign : (c d : ℕ) → c ≡ b'0' + d → d < 10 → ((c == b'-') ≡ false) × ((c == b'+') ≡ false)
no_sign c d e h = (ground arith, ground arith)

-- What `strtol` returns for the number `n` that ends at `q`.
abbrev pub clamped : ℕ → ℕ → Parsed ℤ
clamped n q =
    if leb n long_max
    then record { value = pos n; endptr = q; range_error = false }
    else record { value = pos long_max; endptr = q; range_error = true }

first_round : (d : ℕ) (ds : List ℕ) → d < 10 → run 0 no_digits (d ∷ ds) ≡ run (0 * 10 + d) digits ds
unfolding run
first_round d ds h = rw (step_fits d 0 h (omega arith)) refl

finish-clamped :
    (s q d : ℕ) (ds : List ℕ)
    → d < 10
    → Digits ds
    → finish_long s false (run 0 no_digits (d ∷ ds)).0 q (run 0 no_digits (d ∷ ds)).1
      ≡ clamped (decimal 0 (d ∷ ds)) q
unfolding finish_long
finish-clamped s q d ds h k =
    rw (first_round d ds h) (elim (Bool-cases (leb (decimal (0 * 10 + d) ds) long_max)) [
      | inl fits ↦ rw (run-fits (0 * 10 + d) ds k (order fits), fits) refl
      | inr over ↦ rw (run-over (0 * 10 + d) ds k (omega arith) (excess over), over) refl
    ])
  where
    order : leb (decimal (0 * 10 + d) ds) long_max ≡ true → decimal (0 * 10 + d) ds ≤ long_max
    order h = ground arith

    excess : leb (decimal (0 * 10 + d) ds) long_max ≡ false → long_max < decimal (0 * 10 + d) ds
    excess h = ground arith

skip_none :
    (fuel s d : ℕ) (m : Memory) → m s ≡ b'0' + d → d < 10 → skip_space (suc fuel) s m ≡ some s
unfolding skip_space
skip_none fuel s d m e h = rw (no_space (m s) d e h) refl

sign_none : (s d : ℕ) (m : Memory) → m s ≡ b'0' + d → d < 10 → read_sign s m ≡ (false, s)
unfolding read_sign
sign_none s d m e h = let (minus, plus) = no_sign (m s) d e h in rw (minus, plus) refl

base_ten : (s : ℕ) (m : Memory) → read_base 10 s m ≡ (10, s)
unfolding read_base
base_ten s m = refl

-- On a decimal number, at least one digit followed by a byte that is none, and with fuel for its digits,
-- `strtol` at base 10 ends with the number and the address behind it if it is at most LONG_MAX, and
-- else with LONG_MAX, that address and ERANGE.
pub strtol-clamped :
    (fuel s d : ℕ) (ds : List ℕ) (m : Memory)
    → IsDigits m s (d ∷ ds)
    → length ds + 1 < fuel
    → strtol fuel s 10 m ≡ some (clamped (decimal 0 (d ∷ ds)) (s + length (d ∷ ds)))
unfolding strtol
strtol-clamped zero s d ds m h f = absurd (omega arith)
strtol-clamped (suc fuel) s d ds m (e, small, h) f =
    rw
      (
        skip_none fuel s d m e small,
        sign_none s d m e small,
        base_ten s m,
        strtol_loop-run (suc fuel) s 0 no_digits m (d ∷ ds) (e, small, h) (omega arith),
      )
      (ap some (finish-clamped s (s + length (d ∷ ds)) d ds small (IsDigits-Digits m (s + 1) ds h)))

step_unsigned_fits :
    (d v : ℕ) → d < 10 → v * 10 + d ≤ ulong_max → ltb ((ulong_max - d) / 10) v ≡ false
step_unsigned_fits d v h k = ground arith

step_unsigned_over :
    (d v : ℕ) → d < 10 → ulong_max < v * 10 + d → ltb ((ulong_max - d) / 10) v ≡ true
step_unsigned_over d v h k = ground arith

-- A digit that does not fit, and then one that does.
run_unsigned-forgets :
    (v : ℕ) (any : Any) (ds : List ℕ) (d e : ℕ)
    → Digits ds
    → d < 10
    → e < 10
    → ulong_max < decimal v ds * 10 + d
    → decimal v ds * 10 + e ≤ ulong_max
    → run_unsigned v any (ds ++ d ∷ e ∷ []) ≡ (decimal v ds * 10 + e, digits)
unfolding run_unsigned
run_unsigned-forgets v any [] d e h small_d small_e over fits =
    rw (step_unsigned_over d v small_d over, step_unsigned_fits e v small_e fits) refl
run_unsigned-forgets v any (c ∷ ds) d e (small, h) small_d small_e over fits =
    rw (step_unsigned_fits c v small (omega (arith, le-decimal (v * 10 + c) ds)), run_unsigned)
      (run_unsigned-forgets (v * 10 + c) digits ds d e h small_d small_e over fits)

Digits-front : (ds : List ℕ) (d e : ℕ) → Digits (ds ++ d ∷ e ∷ []) → Digits ds × (d < 10) × (e < 10)
Digits-front [] d e h = (tt, h.0, h.1.0)
Digits-front (c ∷ ds) d e (p, h) = let (a, b, f) = Digits-front ds d e h in ((p, a), b, f)

-- Where the digit `d` takes a decimal number past ULONG_MAX and a smaller digit `e` in its place would not,
-- `strtoul` at base 10 on the number with both digits in turn returns the number that ends in `e` instead
-- of `d`, with no ERANGE: the overflow is forgotten.
pub strtoul_forgets :
    (fuel s c d e : ℕ) (ds : List ℕ) (m : Memory)
    → IsDigits m s (c ∷ (ds ++ d ∷ e ∷ []))
    → length ds + 3 < fuel
    → ulong_max < decimal 0 (c ∷ ds) * 10 + d
    → decimal 0 (c ∷ ds) * 10 + e ≤ ulong_max
    → strtoul fuel s 10 m
      ≡ some (record {
        value = decimal 0 (c ∷ ds) * 10 + e;
        endptr = s + (length ds + 3);
        range_error = false;
      })
unfolding strtoul finish_unsigned
strtoul_forgets zero s c d e ds m h f over fits = absurd (omega arith)
strtoul_forgets (suc fuel) s c d e ds m (b, small, h) f over fits =
    let (front, small_d, small_e) = Digits-front ds d e (IsDigits-Digits m (s + 1) _ h) in
    let len : length (c ∷ (ds ++ d ∷ e ∷ [])) ≡ length ds + 3 =
      omega (arith, length-append ds (d ∷ e ∷ [])) in
    rw
      (
        skip_none fuel s c m b small,
        sign_none s c m b small,
        base_ten s m,
        strtoul_loop-run (suc fuel) s 0 no_digits m (c ∷ (ds ++ d ∷ e ∷ [])) (b, small, h)
            (omega arith),
        run_unsigned-forgets 0 no_digits (c ∷ ds) d e (small, front) small_d small_e over fits,
        len,
      )
      (finish s (decimal 0 (c ∷ ds) * 10 + e) (s + (length ds + 3)))
  where
    finish :
        (s v q : ℕ)
        → some (finish_unsigned s false v q digits)
          ≡ some (record { value = v; endptr = q; range_error = false })
    finish s v q = refl
