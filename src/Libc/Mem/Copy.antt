-- ===== src/Libc/Mem/Copy.antt =====
-- What `memcpy` and `memmove` of libc/src/string/mem.c leave in memory.
use lumin.Prelude.{
  ℕ, zero, suc, ◌+◌, ◌-◌, ◌%◌, ◌≤◌, ◌<◌, ◌≡◌, ◌∙◌, ap, ◌⊎◌, inl, inr, true, false, ◌&&◌, arith, ltb,
  leb, ◌==◌, if◌then◌else◌, update, Bool-cases,
}
use lumin.Libc.Mem.{Memory, within, copy_up, copy_down, copy_word, copy_words, memcpy, memmove}

-- The copy of `n` bytes from `s` in `m`, laid down at `d`.
abbrev pub copied : ℕ → ℕ → ℕ → Memory → Memory
copied d s n m j = if within d n j then m (s + (j - d)) else m j

-- Going up is right where the target is below the source, or the two do not overlap.
copy_up_lem :
    (d s i left total : ℕ) (m : Memory) (j : ℕ)
    → i + left ≤ total
    → (d ≤ s) ⊎ (s + total ≤ d)
    → copy_up d s i left m j ≡ (if within (d + i) left j then m (s + (j - d)) else m j)
unfolding copy_up
copy_up_lem d s i zero total m j h apart = ground arith
copy_up_lem d s i (suc left) total m j h apart =
    copy_up_lem d s (i + 1) left total (update m (d + i) (m (s + i))) j (omega arith) apart
    ∙ ground arith

copy_down_lem : (d s n : ℕ) (m : Memory) (j : ℕ) → s ≤ d → copy_down d s n m j ≡ copied d s n m j
unfolding copy_down
copy_down_lem d s zero m j h = ground arith
copy_down_lem d s (suc n) m j h =
    copy_down_lem d s n (update m (d + n) (m (s + n))) j h ∙ ground arith

-- `memmove` lays the old bytes of the source down at the target and changes no other byte, also where
-- the two overlap.
pub memmove-copied :
    (dst src n : ℕ) (m : Memory) (j : ℕ) → memmove dst src n m j ≡ copied dst src n m j
unfolding memmove
memmove-copied dst src n m j = elim (Bool-cases (ltb dst src)) [
  | inl up ↦
      let at : dst + 0 ≡ dst = omega arith in
      rw up (
        copy_up_lem dst src 0 n n m j (omega arith) (inl (below up))
        ∙ ap (λ (p : ℕ). if within p n j then m (src + (j - dst)) else m j) at)
  | inr down ↦ rw down (copy_down_lem dst src n m j (above down))
]
  where
    below : ltb dst src ≡ true → dst ≤ src
    below h = ground arith

    above : ltb dst src ≡ false → src ≤ dst
    above h = ground arith

-- The two blocks have no byte in common.
abbrev pub Apart : ℕ → ℕ → ℕ → Type 0
Apart d s n = (d + n ≤ s) ⊎ (s + n ≤ d)

bytes_lem : (d s n : ℕ) (m : Memory) (j : ℕ) → Apart d s n → copy_up d s 0 n m j ≡ copied d s n m j
bytes_lem d s n m j apart =
    let at : d + 0 ≡ d = omega arith in
    copy_up_lem d s 0 n n m j (omega arith) (weaker apart)
    ∙ ap (λ (p : ℕ). if within p n j then m (s + (j - d)) else m j) at
  where
    weaker : Apart d s n → (d ≤ s) ⊎ (s + n ≤ d)
    weaker (inl h) = inl (omega arith)
    weaker (inr h) = inr h

word_step :
    (d s n : ℕ) (m : Memory) (j : ℕ)
    → 8 ≤ n
    → Apart d s n
    → copied (d + 8) (s + 8) (n - 8) (copy_word d s m) j ≡ copied d s n m j
word_step d s n m j h apart = ground arith

shrink : (d s n : ℕ) → 8 ≤ n → Apart d s n → Apart (d + 8) (s + 8) (n - 8)
shrink d s n h (inl p) = inl (omega arith)
shrink d s n h (inr p) = inr (omega arith)

copy_words_lem :
    (fuel d s n : ℕ) (m : Memory) (j : ℕ)
    → n < fuel
    → Apart d s n
    → copy_words fuel d s n m j ≡ copied d s n m j
unfolding copy_words
copy_words_lem zero d s n m j h apart = absurd (omega arith)
copy_words_lem (suc fuel) d s n m j h apart = elim (Bool-cases (leb 8 n)) [
  | inr few ↦ rw few (bytes_lem d s n m j apart)
  | inl many ↦
      let big : 8 ≤ n = ground arith in
      rw many (
        copy_words_lem fuel (d + 8) (s + 8) (n - 8) (copy_word d s m) j (omega arith)
          (shrink d s n big apart)
        ∙ word_step d s n m j big apart)
]

-- For blocks that do not overlap `memcpy` copies the source to the target and changes no other byte,
-- whether it goes by words or by bytes.
pub memcpy-copied :
    (dst src n : ℕ) (m : Memory) (j : ℕ)
    → Apart dst src n
    → memcpy dst src n m j ≡ copied dst src n m j
unfolding memcpy
memcpy-copied dst src n m j apart = elim (Bool-cases ((dst % 8 == 0) && (src % 8 == 0))) [
  | inl aligned ↦ rw aligned (copy_words_lem (n + 1) dst src n m j (omega arith) apart)
  | inr odd ↦ rw odd (bytes_lem dst src n m j apart)
]
