-- ===== src/Fat32/Links.antt =====
-- The entries of the table of kernel/fs/fat32.c, as a map from clusters to clusters.
use lumin.Prelude.{
  ℕ, ◌+◌, ◌*◌, ◌/◌, ◌%◌, ◌^◌, ◌<◌, ◌≤◌, ◌≡◌, refl, sym, ap, ◌∙◌, ◌≢◌, inl, inr, some, arith, ◌==◌,
  if◌then◌else◌, Bool, Bool-cases, ==→eq, ==-refl, ne→==,
}
use lumin.Fat32.{
  Disk, Sector, Fs, u32_mod, fat_mod, fat32_eoc, rd32, wr32, fat_sector, byte_off, fat_next_cluster,
  fat_set_cluster, masked, fat_entry, put_at,
}
use lumin.Fat32.Bytes.{rd32-wr32, rd32-wr32_apart}

-- A disk on which every transfer succeeds, and a sector that is written is read back.
pub record Works (disk : Disk) : Type 0 where
  pub reads : (d : disk.State) (s : ℕ) → (b : Sector) × (disk.read d s ≡ some b)
  pub writes :
      (d : disk.State) (s : ℕ) (b : Sector)
      → (d' : disk.State) × (disk.write d s b ≡ some d')
        × ((t : ℕ) → disk.read d' t ≡ (if t == s then some b else disk.read d t))

-- A volume for the theorems on the table. `fat32_mount` checks the size of the sectors and the start of the
-- table; that no cluster of the volume has a number from `FAT32_EOC` on and that the table has at most
-- 2 ^ 21 sectors it does not check, and these are conditions of the theorems.
pub record IsFs (fs : Fs) : Type 0 where
  pub sector_size : fs.bytes_per_sector ≡ 512
  pub start : fs.fat_start ≤ 1024
  pub clusters : fs.total_clusters + 2 ≤ fat32_eoc
  pub table : fs.sectors_per_fat ≤ 2 ^ 21

module _ {fs : Fs} (m : IsFs fs) where
  pub fat_sector_lem : (c : ℕ) → c < fat_mod → fat_sector fs c ≡ fs.fat_start + c / 128
  unfolding fat_sector
  fat_sector_lem c h =
      ap (λ (n : ℕ). (fs.fat_start + c * 4 % u32_mod / n) % u32_mod) m.sector_size
      ∙ omega (arith, m.start)

  pub byte_off_lem : (c : ℕ) → c < fat_mod → byte_off fs c ≡ 4 * (c % 128)
  unfolding byte_off
  byte_off_lem c h = ap (λ (n : ℕ). c * 4 % u32_mod % n) m.sector_size ∙ omega arith

module _ (disk : Disk) (w : Works disk) {fs : Fs} (m : IsFs fs) where
  open disk use {State, read, write}

  pub entry_lem :
      (c : ℕ) (d : State) {b : Sector}
      → c < fat_mod
      → read d (fs.fat_start + c / 128) ≡ some b
      → fat_next_cluster disk fs c d ≡ rd32 b (4 * (c % 128)) % fat_mod
  unfolding fat_next_cluster
  entry_lem c d h e =
      ap (λ (s : ℕ). fat_entry (byte_off fs c) (read d s)) (fat_sector_lem m c h)
      ∙ ap (λ (p : ℕ). fat_entry p (read d (fs.fat_start + c / 128))) (byte_off_lem m c h)
      ∙ ap (fat_entry (4 * (c % 128))) e

  -- The entry `c` is now `v`, and no other has changed.
  abbrev pub Sets : ℕ → ℕ → State → State → Type 0
  Sets c v d d' =
      (e : ℕ)
      → e < fat_mod
      → fat_next_cluster disk fs e d' ≡ (if e == c then v else fat_next_cluster disk fs e d)

  pub Sets-self :
      (c v : ℕ) (d d' : State) → Sets c v d d' → c < fat_mod → fat_next_cluster disk fs c d' ≡ v
  Sets-self c v d d' sets h =
      sets c h ∙ ap (λ (q : Bool). if q then v else fat_next_cluster disk fs c d) (==-refl c)

  pub Sets-other :
      (c v e : ℕ) (d d' : State)
      → Sets c v d d'
      → e < fat_mod
      → e ≢ c
      → fat_next_cluster disk fs e d' ≡ fat_next_cluster disk fs e d
  Sets-other c v e d d' sets h other =
      sets e h ∙ ap (λ (q : Bool). if q then v else fat_next_cluster disk fs e d) (ne→== _ _ other)

  -- The disk after the sector of the entry `c` has become `b`.
  abbrev pub Rewrites : ℕ → Sector → State → State → Type 0
  Rewrites c b d d' =
      (t : ℕ) → read d' t ≡ (if t == fs.fat_start + c / 128 then some b else read d t)

  read_near :
      (c e : ℕ) (d d' : State) (b : Sector)
      → Rewrites c b d d'
      → e / 128 ≡ c / 128
      → read d' (fs.fat_start + e / 128) ≡ some b
  read_near c e d d' b new near =
      new (fs.fat_start + e / 128)
      ∙ ap (λ (q : Bool). if q then some b else read d (fs.fat_start + e / 128))
          (ap (λ (n : ℕ). fs.fat_start + n == fs.fat_start + c / 128) near ∙ ==-refl _)

  read_far :
      (c e : ℕ) (d d' : State) (b : Sector)
      → Rewrites c b d d'
      → e / 128 ≢ c / 128
      → read d' (fs.fat_start + e / 128) ≡ read d (fs.fat_start + e / 128)
  read_far c e d d' b new far =
      new (fs.fat_start + e / 128)
      ∙ ap (λ (q : Bool). if q then some b else read d (fs.fat_start + e / 128))
          (ne→== _ _ λ same. far (omega (arith, same)))

  -- The entry `c` of the sector `b` is written.
  write_same :
      (c v : ℕ) (d d' : State) (b : Sector)
      → c < fat_mod
      → Rewrites c (wr32 b (4 * (c % 128)) v) d d'
      → fat_next_cluster disk fs c d' ≡ v % fat_mod
  write_same c v d d' b h new =
      entry_lem c d' h (read_near c c d d' _ new refl)
      ∙ ap (λ (n : ℕ). n % fat_mod) (rd32-wr32 b (4 * (c % 128)) v)
      ∙ omega arith

  write_other :
      (c v : ℕ) (d d' : State) (b : Sector)
      → read d (fs.fat_start + c / 128) ≡ some b
      → Rewrites c (wr32 b (4 * (c % 128)) v) d d'
      → (e : ℕ) → e < fat_mod
      → e ≢ c
      → fat_next_cluster disk fs e d' ≡ fat_next_cluster disk fs e d
  write_other c v d d' b old new e he other = elim (Bool-cases (e / 128 == c / 128)) [
    | inl near ↦
        let same = ==→eq _ _ near in
        entry_lem e d' he (read_near c e d d' _ new same)
        ∙ ap (λ (n : ℕ). n % fat_mod)
            (rd32-wr32_apart b (4 * (c % 128)) (4 * (e % 128)) v (omega arith))
        ∙ sym (entry_lem e d he (ap (λ (s : ℕ). read d (fs.fat_start + s)) same ∙ old))
    | inr far ↦
        let (b', here) = w.reads d (fs.fat_start + e / 128) in
        entry_lem e d' he (read_far c e d d' _ new (ground (arith, far)) ∙ here)
        ∙ sym (entry_lem e d he here)
  ]

  -- A new sector that differs from the old in one entry.
  pub write_entry :
      (c v : ℕ) (d d' : State) (b : Sector)
      → c < fat_mod
      → read d (fs.fat_start + c / 128) ≡ some b
      → Rewrites c (wr32 b (4 * (c % 128)) v) d d'
      → Sets c (v % fat_mod) d d'
  write_entry c v d d' b h old new e he = elim (Bool-cases (e == c)) [
    | inl same ↦
        ap (λ (n : ℕ). fat_next_cluster disk fs n d') (==→eq _ _ same)
        ∙ write_same c v d d' b h new
        ∙ ap (λ (q : Bool). if q then v % fat_mod else fat_next_cluster disk fs e d) (sym same)
    | inr other ↦
        write_other c v d d' b old new e he (ground (arith, other))
        ∙ ap (λ (q : Bool). if q then v % fat_mod else fat_next_cluster disk fs e d) (sym other)
  ]

  -- On a mounted volume whose disk works, `fat_set_cluster` succeeds for a cluster number of 28
  -- bits: the entry of that cluster then reads as the value's low 28 bits, and no other entry reads
  -- differently.
  pub fat_set_cluster_lem :
      (c v : ℕ) (d : State)
      → c < fat_mod
      → (d' : State) × (fat_set_cluster disk fs c v d ≡ some d') × Sets c (v % fat_mod) d d'
  unfolding fat_set_cluster
  fat_set_cluster_lem c v d h =
      let (b, old) = w.reads d (fs.fat_start + c / 128) in
      let value = masked (rd32 b (4 * (c % 128))) v in
      let (d', done, new) = w.writes d (fs.fat_start + c / 128) (wr32 b (4 * (c % 128)) value) in
      (
        d',
        ap (λ (s : ℕ). put_at disk s (byte_off fs c) v d (read d s)) (fat_sector_lem m c h)
            ∙ ap
                (λ (p : ℕ).
                  put_at disk (fs.fat_start + c / 128) p v d (read d (fs.fat_start + c / 128)))
                (byte_off_lem m c h)
            ∙ ap (put_at disk (fs.fat_start + c / 128) (4 * (c % 128)) v d) old
            ∙ done,
        λ e he.
            write_entry c value d d' b h old new e he
            ∙ ap (λ (n : ℕ). if e == c then n else fat_next_cluster disk fs e d) (omega arith),
      )
