-- ===== src/Fat32/Writing/Clusters.antt =====
-- What a write to one cluster leaves alone: the table of kernel/fs/fat32.c and the other clusters.
use lumin.Prelude.{
  ℕ, ◌+◌, ◌-◌, ◌*◌, ◌/◌, ◌%◌, ◌<◌, ◌≤◌, ◌≡◌, ◌≢◌, ◌⊎◌, sym, ap, ◌∙◌, inl, inr, Bool, false, ◌&&◌,
  arith, ltb, leb, if◌then◌else◌, Bool-cases, if_false,
}
use native.Mathlib.Nat.{mul-le-mul_right}
use lumin.Fat32.{Disk, Fs, fat_mod, fat_sector, byte_off, fat_entry, fat_next_cluster}
use lumin.Fat32.Links.{IsFs, fat_sector_lem}
use lumin.Fat32.Volume.{IsVolume, first_sector, first_sector-exact}
use lumin.Fat32.Files.Sectors.{byte_in, cluster_byte}
use lumin.Fat32.Files.Reading.{IsCluster}
use lumin.Fat32.Writing.Device.{device_byte, written, Puts}

-- A volume as it is mounted, within the bounds of `IsFs`, whose table has an entry before the data area for
-- each cluster. `fat32_mount` checks neither all of these bounds nor the
-- entries.
pub record IsTabled (fs : Fs) (total : ℕ) : Type 0 where
  pub volume : IsVolume fs total
  pub system : IsFs fs
  pub table_covers : fs.fat_start + (fs.total_clusters + 1) / 128 < fs.data_start

module _ (disk : Disk) {fs : Fs} {total : ℕ} (v : IsTabled fs total) where
  open disk use {State, read}

  -- The sectors before the data area are the same on both disks.
  abbrev pub SameTable : State → State → Type 0
  SameTable d d' = (t : ℕ) → t < fs.data_start → read d' t ≡ read d t

  pub next_same :
      (d d' : State) (c : ℕ)
      → SameTable d d'
      → IsCluster fs c
      → fat_next_cluster disk fs c d' ≡ fat_next_cluster disk fs c d
  unfolding fat_next_cluster
  next_same d d' c same inside =
      let small : c < fat_mod = omega (arith, inside, v.system.clusters) in
      let at = fat_sector_lem v.system c small in
      ap (fat_entry (byte_off fs c))
        (same (fat_sector fs c) (omega (arith, at, inside, v.table_covers)))

  cluster_byte-device_byte :
      (d : State) (first k : ℕ) → cluster_byte disk d first k ≡ device_byte disk d (first * 512 + k)
  cluster_byte-device_byte d first k =
      ap (λ (t : ℕ). byte_in (read d t) (k % 512)) (omega arith)
      ∙ ap (byte_in (read d ((first * 512 + k) / 512))) (omega arith)

  -- A cluster in the volume.
  abbrev pub InArea : ℕ → Type 0
  InArea c = (2 ≤ c) × IsCluster fs c

  -- The bytes of two clusters have different addresses.
  clusters_apart :
      (x y : ℕ)
      → InArea x
      → InArea y
      → y ≢ x
      → (first_sector fs y + fs.sectors_per_cluster ≤ first_sector fs x)
        ⊎ (first_sector fs x + fs.sectors_per_cluster ≤ first_sector fs y)
  clusters_apart x y (two, inside) (two', inside') other =
      let (ex, mx) = first_sector-exact fs total x v.volume two inside in
      let (ey, my) = first_sector-exact fs total y v.volume two' inside' in
      elim (Bool-cases (ltb x y)) [
        | inl before ↦
            let step : (x - 2 + 1) * fs.sectors_per_cluster ≤ (y - 2) * fs.sectors_per_cluster =
              mul-le-mul_right fs.sectors_per_cluster (ground (arith, before, two)) in
            inr (omega (arith, ex, ey, step))
        | inr after ↦
            let gt : y < x = ground (arith, after, other) in
            let step : (y - 2 + 1) * fs.sectors_per_cluster ≤ (x - 2) * fs.sectors_per_cluster =
              mul-le-mul_right fs.sectors_per_cluster (omega (arith, gt, two')) in
            inl (omega (arith, ex, ey, step))
      ]

  module _ (x start n done : ℕ) (buf : ℕ → ℕ) (d d' : State) (in_x : InArea x)
      (fits : start + n ≤ 512 * fs.sectors_per_cluster)
      (puts : Puts disk (first_sector fs x * 512 + start) n done buf d d') where
    pub Puts-SameTable : SameTable d d'
    Puts-SameTable t lt =
        let (exact, more) = first_sector-exact fs total x v.volume in_x.0 in_x.1 in
        puts.before t (omega (arith, exact, lt))

    -- The bytes of the cluster itself.
    pub Puts-own :
        (k : ℕ)
        → cluster_byte disk d' (first_sector fs x) k
          ≡ written start n done buf k (cluster_byte disk d (first_sector fs x) k)
    Puts-own k =
        let a = first_sector fs x * 512 in
        cluster_byte-device_byte d' (first_sector fs x) k
        ∙ puts.bytes (a + k)
        ∙ ap (written (a + start) n done buf (a + k))
            (sym (cluster_byte-device_byte d (first_sector fs x) k))
        ∙ shift a (cluster_byte disk d (first_sector fs x) k)
      where
        shift :
            (a old : ℕ)
            → written (a + start) n done buf (a + k) old ≡ written start n done buf k old
        shift a old =
            ap (λ (q : Bool). if q then buf (done + (a + k - (a + start))) else old) (ground arith)
            ∙ ap (λ (i : ℕ). if leb start k && ltb k (start + n) then buf (done + i) else old)
                (omega arith)

    -- The bytes of another cluster.
    pub Puts-other :
        (y k : ℕ)
        → InArea y
        → y ≢ x
        → k < 512 * fs.sectors_per_cluster
        → cluster_byte disk d' (first_sector fs y) k ≡ cluster_byte disk d (first_sector fs y) k
    Puts-other y k in_y other lt =
        let a = first_sector fs x * 512 + start in
        let b = first_sector fs y * 512 + k in
        let outside : (leb a b && ltb b (a + n)) ≡ false =
          ground (arith, clusters_apart x y in_x in_y other, lt, fits) in
        cluster_byte-device_byte d' (first_sector fs y) k
        ∙ puts.bytes b
        ∙ if_false _ _ outside
        ∙ sym (cluster_byte-device_byte d (first_sector fs y) k)
