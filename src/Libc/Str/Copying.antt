-- ===== src/Libc/Str/Copying.antt =====
-- `strcpy` and `strcat`.
use lumin.Prelude.{
  ℕ, zero, suc, ◌+◌, ◌≤◌, ◌<◌, ◌≡◌, refl, ◌∙◌, inl, inr, Option, some, List, [], ◌∷◌, ◌++◌, arith,
  ne→==, length, ◌==◌, true, false, update,
}
use lumin.Libc.Mem.{Memory}
use lumin.Libc.Mem.Copy.{copied, Apart}
use lumin.Libc.Str.{strcpy, strcat}
use lumin.Libc.Str.Strings.{IsStr, strlen-length}

-- A string is where its bytes are.
IsStr-moved :
    (m m' : Memory) (p q : ℕ) (xs : List ℕ)
    → ((i : ℕ) → i ≤ length xs → m' (q + i) ≡ m (p + i))
    → IsStr m p xs
    → IsStr m' q xs
IsStr-moved m m' p q [] same h =
    let e : p + 0 ≡ p = omega arith in
    let e' : q + 0 ≡ q = omega arith in rw (e, e') at (same 0 (omega arith)) ∙ h
IsStr-moved m m' p q (x ∷ xs) same (b, ne, h) =
    let e : p + 0 ≡ p = omega arith in
    let e' : q + 0 ≡ q = omega arith in
    (rw (e, e') at (same 0 (omega arith)) ∙ b, ne, IsStr-moved m m' (p + 1) (q + 1) xs later h)
  where
    later : (i : ℕ) → i ≤ length xs → m' (q + 1 + i) ≡ m (p + 1 + i)
    later i l =
        let a : p + suc i ≡ p + 1 + i = omega arith in
        let b : q + suc i ≡ q + 1 + i = omega arith in rw (a, b) at (same (suc i) (omega arith))

-- The result of a copy of the string and its NUL.
abbrev pub CopiedTo : ℕ → ℕ → ℕ → Memory → Option Memory → Type 0
CopiedTo d s n m r = (m' : Memory) × (r ≡ some m') × ((j : ℕ) → m' j ≡ copied d s n m j)

copied_step :
    (d s n : ℕ) (m : Memory) (j : ℕ)
    → Apart d s (suc n)
    → copied (d + 1) (s + 1) n (update m d (m s)) j ≡ copied d s (suc n) m j
copied_step d s n m j apart = ground arith

copied_one : (d s : ℕ) (m : Memory) (j : ℕ) → update m d (m s) j ≡ copied d s 1 m j
copied_one d s m j = ground arith

shrink : (d s n : ℕ) → Apart d s (suc n) → Apart (d + 1) (s + 1) n
shrink d s n (inl h) = inl (omega arith)
shrink d s n (inr h) = inr (omega arith)

strcpy-copied :
    (fuel d s : ℕ) (m : Memory) (xs : List ℕ)
    → IsStr m s xs
    → Apart d s (suc (length xs))
    → length xs < fuel
    → CopiedTo d s (suc (length xs)) m (strcpy fuel d s m)
unfolding strcpy
strcpy-copied zero d s m xs h apart f = absurd (omega arith)
strcpy-copied (suc fuel) d s m [] h apart f =
    let t : (m s == 0) ≡ true = rw h refl in rw t (update m d (m s), refl, copied_one d s m)
strcpy-copied (suc fuel) d s m (x ∷ xs) (b, ne, h) apart f =
    let t : (m s == 0) ≡ false = rw b (ne→== x 0 ne) in
    let same = IsStr-moved m (update m d (m s)) (s + 1) (s + 1) xs (λ i l. off i l apart) h in
    let (m', run, bytes) =
      strcpy-copied fuel (d + 1) (s + 1) (update m d (m s)) xs same
        (shrink d s (suc (length xs)) apart) (omega arith) in
    (m', rw t run, λ j. bytes j ∙ copied_step d s (suc (length xs)) m j apart)
  where
    off :
        (i : ℕ)
        → i ≤ length xs
        → Apart d s (suc (suc (length xs)))
        → update m d (m s) (s + 1 + i) ≡ m (s + 1 + i)
    off i l apart = ground arith

joined :
    (m m' : Memory) (p : ℕ) (xs ys : List ℕ)
    → ((i : ℕ) → i < length xs → m' (p + i) ≡ m (p + i))
    → IsStr m p xs
    → IsStr m' (p + length xs) ys
    → IsStr m' p (xs ++ ys)
joined m m' p [] ys same h k = let e : p + 0 ≡ p = omega arith in rw e at k
joined m m' p (x ∷ xs) ys same (b, ne, h) k =
    let e : p + 0 ≡ p = omega arith in
    let at : p + suc (length xs) ≡ p + 1 + length xs = omega arith in
    (rw e at (same 0 (omega arith)) ∙ b, ne, joined m m' (p + 1) xs ys later h (rw at at k))
  where
    later : (i : ℕ) → i < length xs → m' (p + 1 + i) ≡ m (p + 1 + i)
    later i l = let a : p + suc i ≡ p + 1 + i = omega arith in rw a at (same (suc i) (omega arith))

before_lem : (d len i s n : ℕ) (m : Memory) → i < len → copied (d + len) s n m (d + i) ≡ m (d + i)
before_lem d len i s n m h = ground arith

inside_lem : (d i s n : ℕ) (m : Memory) → i ≤ n → copied d s (suc n) m (d + i) ≡ m (s + i)
inside_lem d i s n m h = ground arith

-- When the string `ys` at `src` overlaps neither the string `xs` at `dst` nor the room behind it, and
-- there is fuel for both, `strcat` ends, leaves the string `xs ++ ys` at `dst`, and changes only the
-- `length ys + 1` bytes behind `xs`, which become those of `ys` and its NUL.
pub strcat-append :
    (fuel dst src : ℕ) (m : Memory) (xs ys : List ℕ)
    → IsStr m dst xs
    → IsStr m src ys
    → Apart (dst + length xs) src (suc (length ys))
    → length xs < fuel
    → length ys < fuel
    → (m' : Memory) × (strcat fuel dst src m ≡ some m')
      × IsStr m' dst (xs ++ ys)
      × ((j : ℕ) → m' j ≡ copied (dst + length xs) src (suc (length ys)) m j)
unfolding strcat
strcat-append fuel dst src m xs ys h k apart f g =
    let (m', run, bytes) = strcpy-copied fuel (dst + length xs) src m ys k apart g in
    (
      m',
      rw (strlen-length fuel dst m xs h f) run,
      joined m m' dst xs ys
          (λ i l. bytes (dst + i) ∙ before_lem dst (length xs) i src (suc (length ys)) m l) h
          (IsStr-moved m m' src (dst + length xs) ys
            (λ i l.
              bytes (dst + length xs + i) ∙ inside_lem (dst + length xs) i src (length ys) m l)
            k),
      bytes,
    )
