-- ===== src/Fat32/LongNames.antt =====
-- Long names of directory entries of kernel/fs/fat32.c: the parts that stand before an entry, the
-- last one first.
use lumin.Prelude.{
  ℕ, zero, suc, ◌+◌, ◌-◌, ◌/◌, ◌%◌, ◌<◌, ◌≤◌, ◌≡◌, refl, sym, ap, ◌∙◌, inl, inr, Bool, true, false,
  not, ◌||◌, List, [], ◌++◌, arith, ltb, ◌==◌, if◌then◌else◌, length, update, Bool-cases, if_true,
  if_false, if_cases, ==→eq,
}
use lumin.Fat32.Names.{lfn_to_ascii}

-- FAT32_MAX_LFN_ENTRIES
abbrev pub max_lfn_entries : ℕ
max_lfn_entries = 20

-- `struct fat32_lfn_part`, with its three pieces of the name as one list of 13.
pub record LfnPart : Type 0 where
  pub seq : ℕ
  pub checksum : ℕ
  pub name : List ℕ

-- The fields of `struct fat_scan_state` that long names use.
pub record Scan : Type 0 where
  pub lfn_buf : ℕ → LfnPart
  pub lfn_count : ℕ
  pub lfn_seq : ℕ
  pub lfn_checksum : ℕ

unfoldable pub reset_lfn : Scan → Scan
reset_lfn st = record st { lfn_count = 0; lfn_seq = 0; lfn_checksum = 0 }

-- `false` is the result -1.
pub add_lfn_entry : LfnPart → Scan → Bool × Scan
add_lfn_entry lfn st =
    let seq = lfn.seq % 32 in
    let buf = update st.lfn_buf (seq - 1) lfn in
    if seq == 0 || ltb max_lfn_entries seq
    then (false, reset_lfn st)
    else if lfn.seq / 64 % 2 == 1
    then (
      true,
      record { lfn_buf = buf; lfn_count = seq; lfn_seq = seq; lfn_checksum = lfn.checksum },
    )
    else if not (seq + 1 == st.lfn_seq)
    then (false, reset_lfn st)
    else (true, record st { lfn_buf = buf; lfn_seq = seq })

-- The parts `i`, …, `i + left - 1`.
unfoldable pub collect_lfn : ℕ → ℕ → (ℕ → LfnPart) → ℕ → List ℕ
collect_lfn zero i buf room = []
collect_lfn (suc left) i buf room =
    let part = lfn_to_ascii ((buf i).name) room in
    part ++ collect_lfn left (i + 1) buf (room - length part)

-- The parts of a name are scanned from `k` down to 1.
abbrev pub add_down : (ℕ → LfnPart) → ℕ → Scan → Scan
add_down parts zero st = st
add_down parts (suc k) st = add_down parts k ((add_lfn_entry (parts (suc k)) st).1)

-- The parts from `k` up to `n` have been collected.
pub record HasParts (parts : ℕ → LfnPart) (n k : ℕ) (st : Scan) : Type 0 where
  pub count : st.lfn_count ≡ n
  pub last : st.lfn_seq ≡ k
  pub sum : st.lfn_checksum ≡ (parts n).checksum
  pub stored : (j : ℕ) → k ≤ j → j ≤ n → st.lfn_buf (j - 1) ≡ parts j

first_part :
    (parts : ℕ → LfnPart) (n : ℕ) (st : Scan)
    → 1 ≤ n
    → n ≤ max_lfn_entries
    → (parts n).seq ≡ 64 + n
    → HasParts parts n n ((add_lfn_entry (parts n) st).1)
unfolding add_lfn_entry
first_part parts n st low high is_last =
    let number : (parts n).seq % 32 ≡ n = omega (arith, is_last, high) in
    let P : Bool × Scan → Type 0 = λ r. HasParts parts n n (r.1) in
    if_cases P ((parts n).seq % 32 == 0 || ltb max_lfn_entries ((parts n).seq % 32))
      (λ bad. ground (arith, bad, number, low, high))
      (λ good.
        if_cases P ((parts n).seq / 64 % 2 == 1)
          (λ marked. record {
            count = number;
            last = number;
            sum = refl;
            stored = λ j from to.
                let here : (j - 1 == (parts n).seq % 32 - 1) ≡ true =
                  ground (arith, number, from, to) in
                if_true _ _ here ∙ ap parts (omega (arith, from, to));
          })
          (λ plain. ground (arith, plain, is_last, high)))

next_part :
    (parts : ℕ → LfnPart) (n k : ℕ) (st : Scan)
    → 1 ≤ k
    → k < n
    → n ≤ max_lfn_entries
    → (parts k).seq ≡ k
    → HasParts parts n (k + 1) st
    → HasParts parts n k ((add_lfn_entry (parts k) st).1)
unfolding add_lfn_entry
next_part parts n k st low below high is_k h =
    let number : (parts k).seq % 32 ≡ k = omega (arith, is_k, below, high) in
    let P : Bool × Scan → Type 0 = λ r. HasParts parts n k (r.1) in
    if_cases P ((parts k).seq % 32 == 0 || ltb max_lfn_entries ((parts k).seq % 32))
      (λ bad. ground (arith, bad, number, low, below, high))
      (λ good.
        if_cases P ((parts k).seq / 64 % 2 == 1)
          (λ marked. ground (arith, marked, is_k, below, high))
          (λ plain.
            if_cases P (not ((parts k).seq % 32 + 1 == st.lfn_seq))
              (λ gap. ground (arith, gap, number, h.last))
              (λ follows. record {
                count = h.count;
                last = number;
                sum = h.sum;
                stored = λ j from to. elim (Bool-cases (j == k)) [
                  | inl same ↦
                      let here : (j - 1 == (parts k).seq % 32 - 1) ≡ true =
                        ground (arith, number, same) in
                      if_true _ _ here ∙ ap parts (sym (==→eq _ _ same))
                  | inr other ↦
                      let apart : (j - 1 == (parts k).seq % 32 - 1) ≡ false =
                        ground (arith, number, other, from, low) in
                      if_false _ _ apart ∙ h.stored j (ground (arith, other, from)) to
                ];
              })))

later_parts :
    (parts : ℕ → LfnPart) (n k : ℕ) (st : Scan)
    → k < n
    → n ≤ max_lfn_entries
    → ((j : ℕ) → 1 ≤ j → j < n → (parts j).seq ≡ j)
    → HasParts parts n (k + 1) st
    → HasParts parts n 1 (add_down parts k st)
later_parts parts n zero st below high numbers h = h
later_parts parts n (suc k) st below high numbers h =
    let one_more : k + 1 ≡ suc k = omega arith in
    later_parts parts n k _ (omega (arith, below)) high numbers (
      rw (one_more) (
        next_part parts n (suc k) st (omega arith) below high (numbers (suc k) (omega arith) below)
          h))

-- When the parts of a long name, at most 20, are scanned from the last one, which carries the mark
-- 0x40, down to the first, then whatever came before, `add_lfn_entry` leaves their count, the
-- sequence number 1, the checksum of the last part, and each part at its place.
pub HasParts-add_lfn_entry :
    (parts : ℕ → LfnPart) (n : ℕ) (st : Scan)
    → 1 ≤ n
    → n ≤ max_lfn_entries
    → (parts n).seq ≡ 64 + n
    → ((j : ℕ) → 1 ≤ j → j < n → (parts j).seq ≡ j)
    → HasParts parts n 1 (add_down parts n st)
HasParts-add_lfn_entry parts zero st low high is_last numbers = absurd (omega (arith, low))
HasParts-add_lfn_entry parts (suc n) st low high is_last numbers =
    let one_more : n + 1 ≡ suc n = omega arith in
    later_parts parts (suc n) n _ (omega arith) high numbers
      (rw (one_more) (first_part parts (suc n) st low high is_last))
