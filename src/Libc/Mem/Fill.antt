-- ===== src/Libc/Mem/Fill.antt =====
-- `memset` and the searches of libc/src/string/mem.c.
use lumin.Prelude.{
  ℕ, zero, suc, ◌+◌, ◌-◌, ◌*◌, ◌/◌, ◌%◌, ◌^◌, ◌≤◌, ◌<◌, ◌≡◌, refl, ◌≢◌, ◌∙◌, ◌↔◌, inl, inr, Bool,
  true, false, Option, none, some, arith, leb, ◌==◌, if◌then◌else◌, update, Bool-cases, ==→eq,
  ==-refl,
}
use lumin.Prelude.Int.{pos, sub_ℕ}
use lumin.Libc.Mem.{
  Memory, within, fill_loop, store_word, word_fill_loop, spread, fill_words, head_part, memset,
  memcmp, memcmp_loop, memchr, memchr_loop,
}

-- The memory with `n` bytes `c` from `d` on.
abbrev pub filled : ℕ → ℕ → ℕ → Memory → Memory
filled d c n m j = if within d n j then c else m j

fill_loop_lem :
    (d c i left : ℕ) (m : Memory) (j : ℕ) → fill_loop d c i left m j ≡ filled (d + i) c left m j
unfolding fill_loop
fill_loop_lem d c i zero m j = ground arith
fill_loop_lem d c i (suc left) m j =
    fill_loop_lem d c (i + 1) left (update m (d + i) c) j ∙ ground arith

-- Whether the `left` numbers from `i` on pass a test.
pass_from : (ℕ → Bool) → ℕ → ℕ → Bool
pass_from ok i zero = true
pass_from ok i (suc left) = if ok i then pass_from ok (i + 1) left else false

pass_from_lem :
    (ok : ℕ → Bool) (i left j : ℕ) → pass_from ok i left ≡ true → j < left → ok (i + j) ≡ true
unfolding pass_from
pass_from_lem ok i (suc left) zero e l = let at : i + 0 ≡ i = omega arith in rw at (ground arith)
pass_from_lem ok i (suc left) (suc j) e l =
    let at : i + suc j ≡ i + 1 + j = omega arith in
    rw at (pass_from_lem ok (i + 1) left j (ground arith) (omega arith))
pass_from_lem ok i zero j e l = absurd (omega arith)

abbrev byte_ok : ℕ → ℕ → Bool
byte_ok c k = spread c / 2 ^ (8 * k) % 256 == c

spread_table : pass_from (λ c. pass_from (byte_ok c) 0 8) 0 256 ≡ true
unfolding pass_from spread
spread_table = refl

-- Every byte of the word is `c`.
spread_bytes : (c k : ℕ) → c < 256 → k < 8 → spread c / 2 ^ (8 * k) % 256 ≡ c
spread_bytes c k h l =
    let at_c : 0 + c ≡ c = omega arith in
    let at_k : 0 + k ≡ k = omega arith in
    let row = rw at_c at (pass_from_lem (λ x. pass_from (byte_ok x) 0 8) 0 256 c spread_table h) in
    ==→eq _ c (rw at_k at (pass_from_lem (byte_ok c) 0 8 k row l))

store_spread :
    (c d : ℕ) (m : Memory) (j : ℕ) → c < 256 → store_word d (spread c) m j ≡ filled d c 8 m j
store_spread c d m j h = elim (Bool-cases (within d 8 j)) [
  | inl inside ↦ rw inside (spread_bytes c (j - d) h (near inside))
  | inr outside ↦ rw outside refl
]
  where
    near : within d 8 j ≡ true → j - d < 8
    near e = ground arith

join :
    (c d stop : ℕ) (m : Memory) (j w : ℕ)
    → d + 8 ≤ stop
    → w ≡ filled d c 8 m j
    → (if within (d + 8) (stop - (d + 8)) j then c else w) ≡ filled d c (stop - d) m j
join c d stop m j w h e = ground arith

-- What the loop over words leaves, and where it stops.
record Filled (c d n : ℕ) (m : Memory) (r : Memory × ℕ × ℕ) : Type 0 where
  stop : r.1 + r.2 ≡ d + n
  ahead : d ≤ r.1
  bytes : (j : ℕ) → r.0 j ≡ filled d c (r.1 - d) m j

word_fill_loop-Filled :
    (fuel c d n : ℕ) (m : Memory) → c < 256 → Filled c d n m (word_fill_loop fuel (spread c) d n m)
unfolding word_fill_loop
word_fill_loop-Filled zero c d n m h = record {
  stop = refl;
  ahead = omega arith;
  bytes = λ j. ground arith;
}
word_fill_loop-Filled (suc fuel) c d n m h = elim (Bool-cases (leb 8 n)) [
  | inr few ↦ rw few (record { stop = refl; ahead = omega arith; bytes = λ j. ground arith })
  | inl many ↦
      let big : 8 ≤ n = ground arith in
      let ih = word_fill_loop-Filled fuel c (d + 8) (n - 8) (store_word d (spread c) m) h in
      rw many (record {
        stop = omega (arith, ih.stop);
        ahead = omega (arith, ih.ahead);
        bytes = λ j.
            ih.bytes j
            ∙ join c d
                (word_fill_loop fuel (spread c) (d + 8) (n - 8) (store_word d (spread c) m)).1 m j
                (store_word d (spread c) m j) ih.ahead (store_spread c d m j h);
      })
]

fill_words_lem :
    (c d n : ℕ) (m : Memory) (j : ℕ) → c < 256 → fill_words c d n m j ≡ filled d c n m j
unfolding fill_words
fill_words_lem c d n m j h =
    let f = word_fill_loop-Filled (n + 1) c d n m h in
    fill_loop_lem _ c 0 _ _ j ∙ rejoin c d n _ _ j m f.stop f.ahead (f.bytes j)
  where
    rejoin :
        (c d n d' n' j : ℕ) (m : Memory) {w : ℕ}
        → d' + n' ≡ d + n
        → d ≤ d'
        → w ≡ filled d c (d' - d) m j
        → (if within (d' + 0) n' j then c else w) ≡ filled d c n m j
    rejoin c d n d' n' j m e l b = ground arith

-- `memset` sets the `n` bytes from `dst` on to the low byte of `c` and changes no other byte, whatever
-- the alignment of `dst` and the number of whole words.
pub memset-filled :
    (dst c n : ℕ) (m : Memory) (j : ℕ) → memset dst c n m j ≡ filled dst (c % 256) n m j
unfolding memset
memset-filled dst c n m j = elim (Bool-cases (dst % 8 == 0)) [
  | inl aligned ↦ rw aligned (fill_words_lem (c % 256) dst n m j (omega arith))
  | inr odd ↦ rw odd (
      fill_words_lem (c % 256) (dst + head_part dst n) (n - head_part dst n)
        (fill_loop dst (c % 256) 0 (head_part dst n) m) j (omega arith)
      ∙ two_parts (c % 256) dst n (head_part dst n) m j (part-le dst n)
          (fill_loop_lem dst (c % 256) 0 (head_part dst n) m j))
]
  where
    part-le : (d n : ℕ) → head_part d n ≤ n
    part-le d n = ground arith

    two_parts :
        (c d n part : ℕ) (m : Memory) (j : ℕ) {w : ℕ}
        → part ≤ n
        → w ≡ filled (d + 0) c part m j
        → (if within (d + part) (n - part) j then c else w) ≡ filled d c n m j
    two_parts c d n part m j h e = ground arith

sub_zero : (a b : ℕ) → sub_ℕ a b ≡ pos 0 → a ≡ b
sub_zero a b h = ground arith

memcmp_loop-zero :
    (a b i left : ℕ) (m : Memory)
    → memcmp_loop a b i left m ≡ pos 0
    → (k : ℕ) → k < left
    → m (a + (i + k)) ≡ m (b + (i + k))
unfolding memcmp_loop
memcmp_loop-zero a b i zero m h k l = absurd (omega arith)
memcmp_loop-zero a b i (suc left) m h k l = elim (Bool-cases (m (a + i) == m (b + i))) [
  | inr differ ↦
      let same = sub_zero (m (a + i)) (m (b + i)) (rw differ at h) in absurd (unequal same differ)
  | inl same ↦ step k l (==→eq _ _ same) (memcmp_loop-zero a b (i + 1) left m (rw same at h))
]
  where
    unequal : m (a + i) ≡ m (b + i) → (m (a + i) == m (b + i)) ≡ false → ⊥
    unequal e f = ground arith

    step :
        (k : ℕ)
        → k < suc left
        → m (a + i) ≡ m (b + i)
        → ((k : ℕ) → k < left → m (a + (i + 1 + k)) ≡ m (b + (i + 1 + k)))
        → m (a + (i + k)) ≡ m (b + (i + k))
    step zero l e r = let z : i + 0 ≡ i = omega arith in rw z e
    step (suc k) l e r = let z : i + suc k ≡ i + 1 + k = omega arith in rw z (r k (omega arith))

memcmp_loop-equal :
    (a b i left : ℕ) (m : Memory)
    → ((k : ℕ) → k < left → m (a + (i + k)) ≡ m (b + (i + k)))
    → memcmp_loop a b i left m ≡ pos 0
unfolding memcmp_loop
memcmp_loop-equal a b i zero m h = refl
memcmp_loop-equal a b i (suc left) m h =
    let z : i + 0 ≡ i = omega arith in
    let now : m (a + i) ≡ m (b + i) = rw z at (h 0 (omega arith)) in
    rw (now, ==-refl (m (b + i))) (memcmp_loop-equal a b (i + 1) left m later)
  where
    later : (k : ℕ) → k < left → m (a + (i + 1 + k)) ≡ m (b + (i + 1 + k))
    later k l = let z : i + suc k ≡ i + 1 + k = omega arith in rw z at (h (suc k) (omega arith))

-- `memcmp` returns 0 exactly when the two blocks hold the same bytes.
pub memcmp-zero :
    (a b n : ℕ) (m : Memory) → (memcmp a b n m ≡ pos 0) ↔ ((k : ℕ) → k < n → m (a + k) ≡ m (b + k))
unfolding memcmp
memcmp-zero a b n m = (
  λ h k l. let z : 0 + k ≡ k = omega arith in rw z at (memcmp_loop-zero a b 0 n m h k l),
  λ h. memcmp_loop-equal a b 0 n m (λ k l. let z : 0 + k ≡ k = omega arith in rw z (h k l)),
)

-- What the result of `memchr` says of the `n` bytes from `s` on.
abbrev pub FirstAt : ℕ → ℕ → ℕ → Memory → Option ℕ → Type 0
FirstAt s c n m none = (k : ℕ) → k < n → m (s + k) ≢ c
FirstAt s c n m (some p) = (s ≤ p) × (p < s + n) × (m p ≡ c) × ((k : ℕ) → s + k < p → m (s + k) ≢ c)

memchr_loop-FirstAt :
    (s c i left : ℕ) (m : Memory) → FirstAt (s + i) c left m (memchr_loop s c i left m)
unfolding memchr_loop
memchr_loop-FirstAt s c i zero m = λ k l. absurd (omega arith)
memchr_loop-FirstAt s c i (suc left) m = elim (Bool-cases (m (s + i) == c)) [
  | inl hit ↦ rw hit (omega arith, omega arith, ==→eq _ _ hit, λ k l. absurd (omega arith))
  | inr miss ↦ rw miss (
      extend (memchr_loop s c (i + 1) left m) (apart miss) (memchr_loop-FirstAt s c (i + 1) left m))
]
  where
    apart : (m (s + i) == c) ≡ false → m (s + i) ≢ c
    apart f e = ground arith

    off : (k : ℕ) → s + i + suc k ≡ s + (i + 1) + k
    off k = omega arith

    shifted :
        (k : ℕ)
        → m (s + i) ≢ c
        → ((j : ℕ) → k ≡ suc j → m (s + (i + 1) + j) ≢ c)
        → m (s + i + k) ≢ c
    shifted zero now later = let z : s + i + 0 ≡ s + i = omega arith in rw z now
    shifted (suc k) now later = rw (off k) (later k refl)

    extend :
        (r : Option ℕ)
        → m (s + i) ≢ c
        → FirstAt (s + (i + 1)) c left m r
        → FirstAt (s + i) c (suc left) m r
    extend none now h = λ k l. shifted k now (λ j e. h j (omega arith))
    extend (some p) now h =
        (omega arith, omega arith, h.2, λ k l. shifted k now (λ j e. h.3 j (omega arith)))

-- `memchr` returns the address of the first of the `n` bytes that is the low byte of `c`, and NULL
-- exactly when none is.
pub memchr-FirstAt : (s c n : ℕ) (m : Memory) → FirstAt s (c % 256) n m (memchr s c n m)
unfolding memchr
memchr-FirstAt s c n m =
    let z : s + 0 ≡ s = omega arith in rw z at (memchr_loop-FirstAt s (c % 256) 0 n m)
