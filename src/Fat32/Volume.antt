-- ===== src/Fat32/Volume.antt =====
-- The mount of a volume: `fat32_mount` of kernel/fs/fat32.c, on arguments that are not null.
use lumin.Prelude.{
  ℕ, ◌+◌, ◌-◌, ◌*◌, ◌/◌, ◌%◌, ◌^◌, ◌<◌, ◌≤◌, ◌≡◌, ◌≢◌, refl, sym, ap, ◌∙◌, Bool, true, false, not,
  ◌&&◌, ◌||◌, Option, none, some, arith, leb, ltb, ◌==◌, if◌then◌else◌,
}
use Prim.Native.Nat.{bit_and}
use native.Mathlib.Nat.{div-mul-le_self, mul-le-mul_right, le-mul_of_pos_right}
use lumin.Fat32.{Disk, Sector, Fs, u32_mod, rd32}

-- A `uint16_t` of a sector.
abbrev rd16 : Sector → ℕ → ℕ
rd16 b p = b p + b (p + 1) * 2 ^ 8

unfoldable pub is_pow2 : ℕ → Bool
is_pow2 v = not (v == 0) && (bit_and v (v - 1) == 0)

-- `total_sectors` and `fat_end` of the boot sector.
unfoldable pub total_sectors : Sector → ℕ
total_sectors b = if rd32 b 32 == 0 then rd16 b 19 else rd32 b 32

unfoldable pub fat_end : Sector → ℕ
fat_end b = (rd16 b 14 + b 16 * rd32 b 36 % u32_mod) % u32_mod

-- The fields at their offsets in `struct fat32_bpb`.
unfoldable pub mounted : Sector → Fs
mounted b = record {
  bytes_per_sector = rd16 b 11;
  sectors_per_cluster = b 13;
  fs_info_sector = rd16 b 48;
  fat_start = rd16 b 14;
  data_start = fat_end b;
  sectors_per_fat = rd32 b 36;
  total_clusters = (total_sectors b - fat_end b) / b 13;
  root_cluster = rd32 b 44;
}

-- `none` is the result -1.
unfoldable pub refuse_if : Bool → Option Fs → Option Fs
refuse_if bad rest = if bad then none else rest

unfoldable pub mount_from : Option Sector → Option Fs
mount_from none = none
mount_from (some b) = refuse_if (not (b 510 == 0x55) || not (b 511 == 0xAA)) (
    refuse_if (rd32 b 36 == 0) (
      refuse_if (not (rd16 b 11 == 512)) (
        refuse_if (not (is_pow2 (b 13)) || ltb 128 (b 13)) (
          refuse_if (rd16 b 14 == 0 || ltb 1024 (rd16 b 14)) (
            refuse_if (not (b 16 == 1) && not (b 16 == 2)) (
              refuse_if (ltb (rd32 b 44) 2) (
                refuse_if (total_sectors b == 0)
                  (refuse_if (leb (total_sectors b) (fat_end b)) (some (mounted b))))))))))

unfoldable pub fat32_mount : (disk : Disk) → disk.State → Option Fs
fat32_mount disk d = mount_from (disk.read d 0)

-- The first sector of a cluster, as each function on clusters computes it.
unfoldable pub first_sector : Fs → ℕ → ℕ
first_sector fs cluster =
    (fs.data_start + (cluster + u32_mod - 2) % u32_mod * fs.sectors_per_cluster % u32_mod) % u32_mod

-- What a mount makes sure of on a device of `total` sectors.
pub record IsVolume (fs : Fs) (total : ℕ) : Type 0 where
  pub sector_size : fs.bytes_per_sector ≡ 512
  pub some_sectors : 1 ≤ fs.sectors_per_cluster
  pub few_sectors : fs.sectors_per_cluster ≤ 128
  pub reserved : 1 ≤ fs.fat_start
  pub start : fs.fat_start ≤ 1024
  pub root : 2 ≤ fs.root_cluster
  pub area : fs.data_start + fs.total_clusters * fs.sectors_per_cluster ≤ total
  pub small : total < u32_mod

abbrev unwrap : Fs → Option Fs → Fs
unwrap fs none = fs
unwrap fs (some fs') = fs'

refuse_if-passes :
    (bad : Bool) (rest : Option Fs) (fs : Fs)
    → refuse_if bad rest ≡ some fs
    → (bad ≡ false) × (rest ≡ some fs)
unfolding refuse_if
refuse_if-passes true rest fs h = ground (arith, h)
refuse_if-passes false rest fs h = (refl, h)

-- The conditions under which a boot sector is accepted.
record Accepted (b : Sector) : Type 0 where
  sector : rd16 b 11 ≡ 512
  one : b 13 ≢ 0
  most : b 13 ≤ 128
  first : 1 ≤ rd16 b 14
  last : rd16 b 14 ≤ 1024
  root : 2 ≤ rd32 b 44
  ends : fat_end b < total_sectors b

mount_from-accepts :
    (b : Sector) (fs : Fs) → mount_from (some b) ≡ some fs → Accepted b × (mounted b ≡ fs)
unfolding mount_from is_pow2
mount_from-accepts b fs h =
    let (c1, h1) = refuse_if-passes _ _ fs h in
    let (c2, h2) = refuse_if-passes _ _ fs h1 in
    let (c3, h3) = refuse_if-passes _ _ fs h2 in
    let (c4, h4) = refuse_if-passes _ _ fs h3 in
    let (c5, h5) = refuse_if-passes _ _ fs h4 in
    let (c6, h6) = refuse_if-passes _ _ fs h5 in
    let (c7, h7) = refuse_if-passes _ _ fs h6 in
    let (c8, h8) = refuse_if-passes _ _ fs h7 in
    let (c9, h9) = refuse_if-passes _ _ fs h8 in
    (
      record {
        sector = ground (arith, c3);
        one = λ e. ground (arith, c4, e);
        most = ground (arith, c4);
        first = ground (arith, c5);
        last = ground (arith, c5);
        root = ground (arith, c7);
        ends = ground (arith, c9);
      },
      ap (unwrap (mounted b)) h9,
    )

mounted-IsVolume :
    (b : Sector) → ((p : ℕ) → b p < 256) → Accepted b → IsVolume (mounted b) (total_sectors b)
unfolding mounted total_sectors fat_end
mounted-IsVolume b bytes a = record {
  sector_size = a.sector;
  some_sectors = ground (arith, a.one);
  few_sectors = a.most;
  reserved = a.first;
  start = a.last;
  root = a.root;
  area = omega (arith, div-mul-le_self (total_sectors b - fat_end b) (b 13), a.ends);
  small = ground (arith, bytes 19, bytes 20, bytes 32, bytes 33, bytes 34, bytes 35);
}

-- When `fat32_mount` accepts a boot sector, the volume has sectors of 512 bytes, 1 to 128 sectors
-- to a cluster, 1 to 1024 reserved sectors, a root cluster of at least 2, and its clusters end
-- inside the number of sectors that the boot sector states.
pub fat32_mount-IsVolume :
    (disk : Disk) (d : disk.State) (b : Sector) (fs : Fs)
    → disk.read d 0 ≡ some b
    → ((p : ℕ) → b p < 256)
    → fat32_mount disk d ≡ some fs
    → IsVolume fs (total_sectors b)
unfolding fat32_mount
fat32_mount-IsVolume disk d b fs boot bytes h =
    let (accepted, same) = mount_from-accepts b fs (ap mount_from (sym boot) ∙ h) in
    rw (sym same) (mounted-IsVolume b bytes accepted)

-- Where a cluster begins, without a wrap.
pub first_sector-exact :
    (fs : Fs) (total c : ℕ)
    → IsVolume fs total
    → 2 ≤ c
    → c < fs.total_clusters + 2
    → (first_sector fs c ≡ fs.data_start + (c - 2) * fs.sectors_per_cluster)
      × ((c - 2) * fs.sectors_per_cluster + fs.sectors_per_cluster
          ≤ fs.total_clusters * fs.sectors_per_cluster)
unfolding first_sector
first_sector-exact fs total c v two inside =
    let k = c - 2 in
    let capacity = le-mul_of_pos_right fs.total_clusters v.some_sectors in
    let shift : (c + u32_mod - 2) % u32_mod ≡ k = omega (arith, capacity, v.area, v.small) in
    let more : (k + 1) * fs.sectors_per_cluster ≤ fs.total_clusters * fs.sectors_per_cluster =
      mul-le-mul_right fs.sectors_per_cluster (omega arith) in
    (
      ap (λ (n : ℕ). (fs.data_start + n * fs.sectors_per_cluster % u32_mod) % u32_mod) shift
          ∙ omega (arith, more, v.area, v.small),
      omega (arith, more),
    )

-- On a volume as `fat32_mount` makes it, the sectors of each cluster from 2 on and below the count
-- of clusters plus 2 lie in the data area and inside the volume.
pub first_sector-inside :
    (fs : Fs) (total c : ℕ)
    → IsVolume fs total
    → 2 ≤ c
    → c < fs.total_clusters + 2
    → (fs.data_start ≤ first_sector fs c) × (first_sector fs c + fs.sectors_per_cluster ≤ total)
first_sector-inside fs total c v two inside =
    let (exact, more) = first_sector-exact fs total c v two inside in
    (omega (arith, exact), omega (arith, exact, more, v.area))
