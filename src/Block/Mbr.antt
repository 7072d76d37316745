-- ===== src/Block/Mbr.antt =====
-- The partitions that `block_parse_mbr` of kernel/block/block.c accepts.
use lumin.Prelude.{
  ℕ, zero, suc, ◌+◌, ◌^◌, ◌%◌, ◌≤◌, ◌<◌, ◌≡◌, refl, ◌≢◌, inl, inr, Bool, true, false, ◌||◌, none,
  some, List, arith, ltb, ◌==◌, if◌then◌else◌, Bool-cases, All, length, get_or,
}
use lumin.Block.{
  Blocks, Partition, block_read, parse_mbr, parse_loop, is_unusable, partition, entry_kind,
  entry_lba, entry_count, read_le, entry_at, u64_mod,
}

-- The partition has a type, lies behind the MBR and on the device, and has sectors.
pub record Within (dev limit : ℕ) (p : Partition) : Type 0 where
  pub typed : p.kind ≢ 0
  pub behind_mbr : 0 < p.start_lba
  pub has_sectors : 0 < p.sector_count
  pub on_device : p.start_lba + p.sector_count ≤ limit
  pub of_device : p.parent ≡ some dev
  pub numbered : (1 ≤ p.index) × (p.index ≤ 4)

-- A driver delivers bytes.
abbrev pub AreBytes : List ℕ → Type 0
AreBytes buf = (i : ℕ) → get_or buf i 0 < 256

read_le-lt : (i : ℕ) (buf : List ℕ) → AreBytes buf → read_le 4 i buf < 2 ^ 32
read_le-lt i buf h = omega (arith, h i, h (i + 1), h (i + 1 + 1), h (i + 1 + 1 + 1))

partition-Within :
    (i dev limit : ℕ) (buf : List ℕ)
    → AreBytes buf
    → i < 4
    → is_unusable i limit buf ≡ false
    → Within dev limit (partition i dev buf)
partition-Within i dev limit buf h lt ok =
    let lba = read_le-lt (entry_at i + 8) buf h in
    let cnt = read_le-lt (entry_at i + 12) buf h in
    let facts = usable (entry_kind i buf) (entry_lba i buf) (entry_count i buf) limit lba cnt ok in
    record {
      typed = facts.0;
      behind_mbr = facts.1;
      has_sectors = facts.2;
      on_device = facts.3;
      of_device = refl;
      numbered = (omega arith, omega arith);
    }
  where
    usable :
        (k l c limit : ℕ)
        → l < 2 ^ 32
        → c < 2 ^ 32
        → (((k == 0) || ((l == 0) || (c == 0))) || ltb limit ((l + c) % u64_mod)) ≡ false
        → (k ≢ 0) × (0 < l) × (0 < c) × (l + c ≤ limit)
    usable k l c limit hl hc e = (λ z. ground arith, ground arith, ground arith, ground arith)

parse_loop-Within :
    (left i room dev limit : ℕ) (buf : List ℕ)
    → AreBytes buf
    → i + left ≤ 4
    → All (Within dev limit) (parse_loop left i room dev limit buf)
      × (length (parse_loop left i room dev limit buf) ≤ room)
      × (length (parse_loop left i room dev limit buf) ≤ left)
unfolding parse_loop
parse_loop-Within zero i room dev limit buf h e = (tt, omega arith, omega arith)
parse_loop-Within (suc left) i zero dev limit buf h e = (tt, omega arith, omega arith)
parse_loop-Within (suc left) i (suc room) dev limit buf h e =
    elim (Bool-cases (is_unusable i limit buf)) [
      | inl skip ↦
          let (a, b, c) = parse_loop-Within left (i + 1) (suc room) dev limit buf h (omega arith) in
          rw skip (a, b, omega arith)
      | inr ok ↦
          let (a, b, c) = parse_loop-Within left (i + 1) room dev limit buf h (omega arith) in
          rw ok ((partition-Within i dev limit buf h (omega arith) ok, a), omega arith, omega arith)
    ]

-- What a result that is not an error holds.
parsed-some :
    (t v : Bool) (l ps : List Partition)
    → (if t then none else (if v then some l else none)) ≡ some ps
    → l ≡ ps
parsed-some true v l ps e = cc
parsed-some false true l ps e = cc
parsed-some false false l ps e = cc

-- The partitions that `block_parse_mbr` accepts of a first sector of bytes each have a type and sectors, lie
-- behind the MBR and wholly on the device, and name the device as their parent; there are at most four
-- of them and at most `max_parts`.
pub parse_mbr-Within :
    (fuel dev room : ℕ) (b : Blocks) (buf : List ℕ) (ps : List Partition)
    → block_read fuel b (some dev) 0 1 ≡ some buf
    → AreBytes buf
    → parse_mbr fuel b (some dev) room ≡ some ps
    → All (Within dev (b.device dev).sector_count) ps × (length ps ≤ room) × (length ps ≤ 4)
unfolding parse_mbr
parse_mbr-Within fuel dev room b buf ps got bytes h =
    let limit = (b.device dev).sector_count in
    let l = parse_loop 4 0 room dev limit buf in
    let same = parsed-some (ltb room 1) (read_le 2 510 buf == 0xAA55) l ps (rw got at h) in
    rw (← same) (parse_loop-Within 4 0 room dev limit buf bytes (omega arith))
