-- ===== src/Block/Transfers.antt =====
-- Where a transfer of kernel/block/block.c ends up on the disk.
use lumin.Prelude.{
  ℕ, suc, ◌+◌, ◌%◌, ◌≤◌, ◌<◌, ◌≡◌, refl, ◌∙◌, ap, inl, inr, true, false, Option, none, some, List,
  arith, ltb, if◌then◌else◌, Bool-cases,
}
use lumin.Block.{
  Blocks, Driver, Ops, driver_ops, part_ops, Partition, block_read, driver_read, beyond, u64_mod,
}

-- Device `j` is registered and has a driver that reads by `f`.
pub record IsDisk (b : Blocks) (j : ℕ) (d : Driver) (f : ℕ → ℕ → Option (List ℕ)) : Type 0 where
  pub registered : (b.device j).registered ≡ true
  pub ops : (b.device j).ops ≡ driver_ops d
  pub read : d.read ≡ some f

-- Device `i` is registered and stands for the partition `p` of the disk `j`.
pub record IsPart (b : Blocks) (i j : ℕ) (p : Partition) : Type 0 where
  pub registered : (b.device i).registered ≡ true
  pub ops : (b.device i).ops ≡ part_ops
  pub part : (b.device i).part ≡ some p
  pub parent : p.parent ≡ some j
  pub size : (b.device i).sector_count ≡ p.sector_count

read_registered :
    (fuel : ℕ) (b : Blocks) (i sector count : ℕ)
    → (b.device i).registered ≡ true
    → block_read (suc fuel) b (some i) sector count ≡ (
        if beyond sector count (b.device i).sector_count
        then none
        else driver_read (block_read fuel b) (b.device i).ops (b.device i).part sector count)
unfolding block_read
read_registered fuel b i sector count e = rw e refl

disk_read :
    (fuel : ℕ) (b : Blocks) (j sector count : ℕ) {d : Driver} {f : ℕ → ℕ → Option (List ℕ)}
    → IsDisk b j d f
    → block_read (suc fuel) b (some j) sector count
      ≡ (if beyond sector count (b.device j).sector_count then none else f sector count)
unfolding driver_read
disk_read fuel b j sector count {d} {f} k =
    read_registered fuel b j sector count k.registered
    ∙ ap
        (λ (r : Option (List ℕ)). if beyond sector count (b.device j).sector_count then none else r)
        (ap (λ (o : Ops). driver_read (block_read fuel b) o (b.device j).part sector count) k.ops
          ∙ call k.read)
  where
    call :
        d.read ≡ some f
        → driver_read (block_read fuel b) (driver_ops d) (b.device j).part sector count
          ≡ f sector count
    call e = rw (e, driver_read) refl

-- On a disk that holds the partition, a read of `count` sectors of the partition from `sector` on, where
-- the two do not wrap, reads the sectors `start_lba + sector` on if they lie in the partition, and fails
-- otherwise: no sector of the disk outside the partition is read.
pub part_read-within :
    (fuel i j sector count : ℕ) (b : Blocks) (p : Partition) {d : Driver}
    {f : ℕ → ℕ → Option (List ℕ)}
    → IsPart b i j p
    → IsDisk b j d f
    → p.start_lba + p.sector_count ≤ (b.device j).sector_count
    → (b.device j).sector_count < u64_mod
    → sector + count < u64_mod
    → block_read (suc (suc fuel)) b (some i) sector count
      ≡ (if ltb p.sector_count (sector + count) then none else f (p.start_lba + sector) count)
unfolding driver_read
part_read-within fuel i j sector count b p {d} {f} k disk inside small fits =
    let sum : (sector + count) % u64_mod ≡ sector + count = omega arith in
    let go = block_read (suc fuel) b in
    let none_or =
      λ (r : Option (List ℕ)). if ltb p.sector_count (sector + count) then none else r in
    read_registered (suc fuel) b i sector count k.registered
    ∙ ap
        (λ (n : ℕ).
          if ltb n ((sector + count) % u64_mod)
          then none
          else driver_read go (b.device i).ops (b.device i).part sector count)
        k.size
    ∙ ap
        (λ (n : ℕ).
          if ltb p.sector_count n
          then none
          else driver_read go (b.device i).ops (b.device i).part sector count)
        sum
    ∙ ap (λ (o : Ops). none_or (driver_read go o (b.device i).part sector count)) k.ops
    ∙ ap (λ (o : Option Partition). none_or (driver_read go part_ops o sector count)) k.part
    ∙ elim (Bool-cases (ltb p.sector_count (sector + count))) [
      | inl outside ↦ rw outside refl
      | inr within ↦
          rw within
            (through go k.parent (disk_read fuel b j (p.start_lba + sector) count disk) within)
    ]
  where
    through :
        (go : Option ℕ → ℕ → ℕ → Option (List ℕ))
        → p.parent ≡ some j
        → go (some j) (p.start_lba + sector) count ≡ (
            if beyond (p.start_lba + sector) count (b.device j).sector_count
            then none
            else f (p.start_lba + sector) count)
        → ltb p.sector_count (sector + count) ≡ false
        → driver_read go part_ops (some p) sector count ≡ f (p.start_lba + sector) count
    through go par run within =
        let sum : (sector + count) % u64_mod ≡ sector + count = omega arith in
        let at : (p.start_lba + sector) % u64_mod ≡ p.start_lba + sector = ground arith in
        let ok : beyond (p.start_lba + sector) count (b.device j).sector_count ≡ false =
          ground arith in
        ap
          (λ (n : ℕ).
            if ltb p.sector_count n
            then none
            else go p.parent ((p.start_lba + sector) % u64_mod) count)
          sum
        ∙ rw within (
            ap (λ (n : ℕ). go p.parent n count) at
            ∙ ap (λ (o : Option ℕ). go o (p.start_lba + sector) count) par
            ∙ run
            ∙ rw ok refl)

-- On a disk of at least 255 sectors a read whose `sector + count` wraps round passes the bounds check of
-- `block_read`: the driver is asked for sectors beyond the end of the disk.
pub block_read_wraps :
    (fuel j sector count : ℕ) (b : Blocks) {d : Driver} {f : ℕ → ℕ → Option (List ℕ)}
    → IsDisk b j d f
    → 255 ≤ (b.device j).sector_count
    → sector < u64_mod
    → count < 256
    → u64_mod ≤ sector + count
    → block_read (suc fuel) b (some j) sector count ≡ f sector count
block_read_wraps fuel j sector count b disk big s c wraps =
    let passes : beyond sector count (b.device j).sector_count ≡ false = ground arith in
    disk_read fuel b j sector count disk ∙ rw passes refl
