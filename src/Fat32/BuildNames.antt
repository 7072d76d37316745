-- ===== src/Fat32/BuildNames.antt =====
-- The parts of a long name that `build_lfn_entries` of kernel/fs/fat32.c makes, and what the scan of
-- a directory collects of them.
use lumin.Prelude.{
  ℕ, zero, suc, ◌+◌, ◌-◌, ◌*◌, ◌/◌, ◌<◌, ◌≤◌, ◌≡◌, refl, ap, ◌∙◌, arith, List, [], ◌∷◌, ◌++◌, ltb,
  ◌==◌, if◌then◌else◌, length, take, drop, All, length-append, length-take,
}
use lumin.Fat32.Names.{lfn_to_ascii, ascii_to_utf16, IsPrintable, lfn_to_ascii-ascii_to_utf16}
use lumin.Fat32.LongNames.{
  LfnPart, Scan, max_lfn_entries, add_down, collect_lfn, HasParts, HasParts-add_lfn_entry,
}

-- `entries_needed` for a name of so many characters.
unfoldable pub entries_needed : ℕ → ℕ
entries_needed total_chars =
    let needed = (total_chars + 12) / 13 in
    if ltb max_lfn_entries needed then max_lfn_entries else needed

-- The characters from `i * 13` on, at most 13.
abbrev pub chunk : List ℕ → ℕ → List ℕ
chunk name i = take 13 (drop (i * 13) name)

-- `lfns[i]`, with the checksum that it is written with. The two loops on `buf` are those of
-- `ascii_to_utf16`.
pub build_lfn_entries : List ℕ → ℕ → ℕ → LfnPart
build_lfn_entries name checksum i =
    let seq = entries_needed (length name) - i in
    record {
      seq = if i == 0 then seq + 64 else seq;
      checksum = checksum;
      name = ascii_to_utf16 13 (chunk name i);
    }

-- The parts in the order of their sequence numbers, from 1.
abbrev pub by_seq : List ℕ → ℕ → ℕ → LfnPart
by_seq name checksum j = build_lfn_entries name checksum (entries_needed (length name) - j)

-- The chunks `n - 1`, …, 0 of a name, one after the other.
abbrev pub chunks_down : List ℕ → ℕ → List ℕ
chunks_down name zero = []
chunks_down name (suc n) = chunk name n ++ chunks_down name n

drop-All : (n : ℕ) (xs : List ℕ) → All IsPrintable xs → All IsPrintable (drop n xs)
drop-All zero xs h = h
drop-All (suc n) [] h = h
drop-All (suc n) (x ∷ xs) h = drop-All n xs h.1

take-All : (n : ℕ) (xs : List ℕ) → All IsPrintable xs → All IsPrintable (take n xs)
take-All zero xs h = tt
take-All (suc n) [] h = tt
take-All (suc n) (x ∷ xs) h = (h.0, take-All n xs h.1)

-- What is collected of parts that hold the chunks from the last one down.
collect_chunks :
    (name : List ℕ) (buf : ℕ → LfnPart) (left i room : ℕ)
    → All IsPrintable name
    → ((k : ℕ) → k < left → (buf (i + (left - 1 - k))).name ≡ ascii_to_utf16 13 (chunk name k))
    → length (chunks_down name left) ≤ room
    → collect_lfn left i buf room ≡ chunks_down name left
unfolding collect_lfn
collect_chunks name buf zero i room printable parts fits = refl
collect_chunks name buf (suc left) i room printable parts fits =
    let here = chunk name left in
    let len = length-append here (chunks_down name left) in
    let short : length here ≤ 13 = omega (arith, length-take 13 (drop (left * 13) name)) in
    let first : lfn_to_ascii ((buf i).name) room ≡ here =
      ap (λ (k : ℕ). lfn_to_ascii ((buf k).name) room) (omega arith)
      ∙ ap (λ (u : List ℕ). lfn_to_ascii u room) (parts left (omega arith))
      ∙ lfn_to_ascii-ascii_to_utf16 here 13 room
          (take-All 13 (drop (left * 13) name) (drop-All (left * 13) name printable)) short
          (omega (arith, fits, len)) in
    ap (λ (p : List ℕ). p ++ collect_lfn left (i + 1) buf (room - length p)) first
    ∙ ap (λ (r : List ℕ). here ++ r)
        (collect_chunks name buf left (i + 1) (room - length here) printable
          (λ k lt. ap (λ (j : ℕ). (buf j).name) (omega (arith, lt)) ∙ parts k (omega (arith, lt)))
          (omega (arith, fits, len)))

-- The name that a scan has collected.
abbrev pub collected : Scan → ℕ → List ℕ
collected st room = collect_lfn st.lfn_count 0 st.lfn_buf room

-- When a directory is scanned over the parts that `build_lfn_entries` makes of a name of 1 to 260
-- printable characters, in the order in which they are written, the name that is collected has the
-- pieces of 13 characters of the name in the reverse order, given room for them.
pub collect_lfn-build_lfn_entries :
    (name : List ℕ) (checksum room : ℕ) (st : Scan)
    → All IsPrintable name
    → 1 ≤ length name
    → length name ≤ 260
    → length (chunks_down name (entries_needed (length name))) ≤ room
    → collected (add_down (by_seq name checksum) (entries_needed (length name)) st) room
      ≡ chunks_down name (entries_needed (length name))
unfolding entries_needed build_lfn_entries
collect_lfn-build_lfn_entries name checksum room st printable some_chars few fits =
    let n = entries_needed (length name) in
    let parts = by_seq name checksum in
    let low : 1 ≤ n = ground (arith, some_chars) in
    let high : n ≤ max_lfn_entries = ground arith in
    let has : HasParts parts n 1 (add_down parts n st) =
      HasParts-add_lfn_entry parts n st low high (ground (arith, low, high))
        (λ j from below. ground (arith, from, below)) in
    ap (λ (k : ℕ). collect_lfn k 0 (add_down parts n st).lfn_buf room) has.count
    ∙ collect_chunks name (add_down parts n st).lfn_buf n 0 room printable
        (λ k lt.
          ap (λ (j : ℕ). ((add_down parts n st).lfn_buf j).name) (omega (arith, lt))
          ∙ ap (λ (p : LfnPart). p.name) (has.stored (n - k) (omega (arith, lt)) (omega arith))
          ∙ ap (λ (i : ℕ). ascii_to_utf16 13 (chunk name i)) (omega (arith, lt)))
        fits
