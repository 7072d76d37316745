-- ===== src/Fat32/FsInfo.antt =====
-- The count of free clusters that a volume keeps: `fat_write_fsinfo` and `fat32_read_fsinfo` of
-- kernel/fs/fat32.c, on pointers that are not null.
use lumin.Prelude.{
  ℕ, ◌+◌, ◌<◌, ◌≤◌, ◌≡◌, ◌⊎◌, refl, sym, ap, ◌∙◌, inl, inr, Bool, false, not, ◌||◌, Option, none,
  some, arith, ◌==◌, if◌then◌else◌, Bool-cases, ==-refl,
}
use lumin.Fat32.{Disk, Sector, Fs, u32_mod, rd32, wr32}
use lumin.Fat32.Bytes.{rd32-wr32, rd32-wr32_apart}
use lumin.Fat32.Links.{Works}

unfoldable pub fsi_sector : Fs → ℕ
fsi_sector fs = if fs.fs_info_sector == 0 then 1 else fs.fs_info_sector

-- `sig1 != 0x41615252 || sig2 != 0x61417272`.
abbrev pub unsigned : Sector → Bool
unsigned b = not (rd32 b 0 == 0x41615252) || not (rd32 b 484 == 0x61417272)

-- 0xFFFFFFFF leaves the number as it is.
abbrev pub wr32_known : Sector → ℕ → ℕ → Sector
wr32_known b p v = if v == 0xFFFFFFFF then b else wr32 b p v

abbrev pub put_counts : Sector → ℕ → ℕ → Sector
put_counts b free_clusters next_free = wr32_known (wr32_known b 488 free_clusters) 492 next_free

-- `free_clusters` and `next_free`.
abbrev counts_of : Sector → ℕ × ℕ
counts_of b = (rd32 b 488, rd32 b 492)

abbrev pub fsinfo_of : Option Sector → Option (ℕ × ℕ)
fsinfo_of none = none
fsinfo_of (some b) = if unsigned b then none else some (counts_of b)

module _ (disk : Disk) where
  open disk use {State, read, write}

  abbrev pub write_counts : Fs → ℕ → ℕ → State → Option Sector → Option State
  write_counts fs free_clusters next_free d none = none
  write_counts fs free_clusters next_free d (some b) =
      if unsigned b then some d else write d (fsi_sector fs) (put_counts b free_clusters next_free)

  -- `none` is a result other than 0.
  pub fat_write_fsinfo : Fs → ℕ → ℕ → State → Option State
  fat_write_fsinfo fs free_clusters next_free d =
      write_counts fs free_clusters next_free d (read d (fsi_sector fs))

  unfoldable pub fat32_read_fsinfo : Fs → State → Option (ℕ × ℕ)
  fat32_read_fsinfo fs d = fsinfo_of (read d (fsi_sector fs))

-- A number that is to be left as it is, or the new one.
abbrev pub known : ℕ → ℕ → ℕ
known v old = if v == 0xFFFFFFFF then old else v

known_here : (b : Sector) (p v : ℕ) → v < u32_mod → rd32 (wr32_known b p v) p ≡ known v (rd32 b p)
known_here b p v h = elim (Bool-cases (v == 0xFFFFFFFF)) [
  | inl same ↦ rw (same) refl
  | inr other ↦ rw (other) (rd32-wr32 b p v ∙ omega arith)
]

known_apart :
    (b : Sector) (p q v : ℕ) → ((p + 4 ≤ q) ⊎ (q + 4 ≤ p)) → rd32 (wr32_known b p v) q ≡ rd32 b q
known_apart b p q v h = elim (Bool-cases (v == 0xFFFFFFFF)) [
  | inl same ↦ rw (same) refl
  | inr other ↦ rw (other) (rd32-wr32_apart b p q v h)
]

put_counts_apart :
    (b : Sector) (q free next : ℕ) → q + 4 ≤ 488 → rd32 (put_counts b free next) q ≡ rd32 b q
put_counts_apart b q free next h =
    known_apart (wr32_known b 488 free) 492 q next (inr (omega (arith, h)))
    ∙ known_apart b 488 q free (inr h)

unsigned-put_counts : (b : Sector) (free next : ℕ) → unsigned (put_counts b free next) ≡ unsigned b
unsigned-put_counts b free next =
    ap (λ (x : ℕ). not (x == 0x41615252) || not (rd32 (put_counts b free next) 484 == 0x61417272))
      (put_counts_apart b 0 free next (omega arith))
    ∙ ap (λ (x : ℕ). not (rd32 b 0 == 0x41615252) || not (x == 0x61417272))
        (put_counts_apart b 484 free next (omega arith))

fsinfo_of-put_counts :
    (b : Sector) (free next : ℕ)
    → free < u32_mod
    → next < u32_mod
    → unsigned b ≡ false
    → fsinfo_of (some (put_counts b free next))
      ≡ some (known free (rd32 b 488), known next (rd32 b 492))
fsinfo_of-put_counts b free next hf hn signed =
    ap
      (λ (q : Bool).
        if q
        then none
        else some (rd32 (put_counts b free next) 488, rd32 (put_counts b free next) 492))
      (unsigned-put_counts b free next ∙ signed)
    ∙ ap (λ (x : ℕ). some (x, rd32 (put_counts b free next) 492))
        (known_apart (wr32_known b 488 free) 492 488 next (inr (omega arith))
          ∙ known_here b 488 free hf)
    ∙ ap (λ (x : ℕ). some (known free (rd32 b 488), x))
        (known_here (wr32_known b 488 free) 492 next hn
          ∙ ap (known next) (known_apart b 488 492 free (inl (omega arith))))

abbrev unwrap : Option (ℕ × ℕ) → ℕ × ℕ
unwrap none = (0, 0)
unwrap (some r) = r

-- A sector that the counts are read from carries the signatures.
fsinfo_of-signed :
    (b : Sector) (f n : ℕ)
    → fsinfo_of (some b) ≡ some (f, n)
    → (unsigned b ≡ false) × (counts_of b ≡ (f, n))
fsinfo_of-signed b f n h = elim (Bool-cases (unsigned b)) [
  | inl bad ↦ ground (arith, h, bad)
  | inr good ↦
      (good, ap unwrap (sym (ap (λ (q : Bool). if q then none else some (counts_of b)) good) ∙ h))
]

-- When the disk works and `fat32_read_fsinfo` reads two counts, `fat_write_fsinfo` succeeds and
-- `fat32_read_fsinfo` then reads what it was given, for 0xFFFFFFFF the old count.
pub fat32_read_fsinfo-write :
    (disk : Disk) (w : Works disk) (fs : Fs) (free next f n : ℕ) (d : disk.State)
    → free < u32_mod
    → next < u32_mod
    → fat32_read_fsinfo disk fs d ≡ some (f, n)
    → (d' : disk.State) × (fat_write_fsinfo disk fs free next d ≡ some d')
      × (fat32_read_fsinfo disk fs d' ≡ some (known free f, known next n))
unfolding fat32_read_fsinfo fat_write_fsinfo
fat32_read_fsinfo-write disk w fs free next f n d hf hn old =
    let (b, here) = w.reads d (fsi_sector fs) in
    let (signed, values) = fsinfo_of-signed b f n (ap fsinfo_of (sym here) ∙ old) in
    let (d', done, new) = w.writes d (fsi_sector fs) (put_counts b free next) in
    (
      d',
      ap (write_counts disk fs free next d) here
          ∙ ap
              (λ (q : Bool).
                if q then some d else disk.write d (fsi_sector fs) (put_counts b free next))
              signed
          ∙ done,
      ap fsinfo_of (
            new (fsi_sector fs)
            ∙ ap
                (λ (q : Bool).
                  if q then some (put_counts b free next) else disk.read d (fsi_sector fs))
                (==-refl (fsi_sector fs)))
          ∙ fsinfo_of-put_counts b free next hf hn signed
          ∙ ap (λ (p : ℕ × ℕ). some (known free (p.0), known next (p.1))) values,
    )
