-- ===== src/Devfs/Reading.antt =====
-- `devfs_blk_read` of kernel/fs/vfs.c gives the bytes of the device.
use lumin.Prelude.{
  ℕ, zero, suc, ◌+◌, ◌-◌, ◌*◌, ◌/◌, ◌%◌, ◌^◌, ◌<◌, ◌≤◌, ◌≡◌, refl, sym, ap, ◌∙◌, inl, inr, false,
  Option, some, arith, List, [], ◌++◌, min, ltb, leb, ◌==◌, if◌then◌else◌, Bool-cases, if_true,
  if_false,
}
use lumin.Prelude.Int.{as_int}
use lumin.Fat32.{Disk, Sector}
use lumin.Fat32.Links.{Works}
use lumin.Fat32.Files.{length-span, span}
use lumin.Fat32.Files.Sectors.{byte_in}
use lumin.Fat32.Files.Spans.{span_agrees, span_split}
use lumin.Fat32.Writing.Device.{device_byte}
use lumin.Devfs.{
  blk_read_code, Geometry, limited, bytes_left, BlkRead, fails, gives, then_bytes, copy_from,
  read_tail, read_whole, read_head, devfs_blk_read,
}

-- A device of sectors of 512 bytes, whose size in bytes has 64 bits.
pub record IsDevice (g : Geometry) : Type 0 where
  pub size : g.sector_size ≡ 512
  pub small : g.sector_count * 512 < 2 ^ 64

-- As many bytes as are asked for and lie on the device.
pub limited-min :
    (g : Geometry) (offset size : ℕ)
    → IsDevice g
    → offset < g.sector_count * 512
    → limited g offset size ≡ min size (g.sector_count * 512 - offset)
unfolding limited
limited-min g offset size v lt =
    let product : g.sector_count * g.sector_size ≡ g.sector_count * 512 =
      ap (λ (n : ℕ). g.sector_count * n) v.size in
    let left : bytes_left g offset ≡ g.sector_count * 512 - offset =
      omega (arith, product, v.small, lt) in
    ground (arith, left)

module _ (disk : Disk) (w : Works disk) where
  open disk use {State, read}

  copy_from-span :
      (d : State) (s from chunk : ℕ) (b : Sector)
      → read d s ≡ some b
      → from + chunk ≤ 512
      → span b from chunk ≡ span (device_byte disk d) (s * 512 + from) chunk
  copy_from-span d s from chunk b here fits =
      span_agrees b (device_byte disk d) from (s * 512 + from) chunk λ i lt.
        ap b (omega (arith, lt, fits))
        ∙ ap (λ (o : Option Sector). byte_in o ((s * 512 + from + i) % 512)) (sym here)
        ∙ ap (λ (t : ℕ). byte_in (read d t) ((s * 512 + from + i) % 512)) (omega (arith, lt, fits))

  span_end : (f : ℕ → ℕ) (a n : ℕ) → span f a n ++ [] ≡ span f a n
  span_end f a n = sym (span_split f a n n 0 (omega arith))

  read_whole_lem :
      (fuel s n : ℕ) (g : Geometry) (d : State)
      → g.sector_size ≡ 512
      → n < fuel
      → read_whole disk fuel g s n d ≡ gives (span (device_byte disk d) (s * 512) n)
  unfolding read_whole read_tail
  read_whole_lem zero s n g d size enough = absurd (omega (arith, enough))
  read_whole_lem (suc fuel) s n g d size enough =
      let (b, here) = w.reads d s in
      let bytes = device_byte disk d in
      let at : s * 512 + 0 ≡ s * 512 = omega arith in
      elim (Bool-cases (leb g.sector_size n)) [
        | inl whole ↦
            let fits : 512 ≤ n = ground (arith, whole, size) in
            if_true _ _ whole
            ∙ ap
                (λ (o : Option Sector).
                  copy_from disk o 0 g.sector_size
                    (read_whole disk fuel g (s + 1) (n - g.sector_size) d))
                here
            ∙ ap (λ (k : ℕ). then_bytes (span b 0 k) (read_whole disk fuel g (s + 1) (n - k) d))
                size
            ∙ ap (then_bytes (span b 0 512))
                (read_whole_lem fuel (s + 1) (n - 512) g d size (omega (arith, enough, fits)))
            ∙ ap (λ (l : List ℕ). gives (l ++ span bytes ((s + 1) * 512) (n - 512)))
                (copy_from-span d s 0 512 b here (omega arith))
            ∙ ap (λ (a : ℕ). gives (span bytes a 512 ++ span bytes ((s + 1) * 512) (n - 512))) at
            ∙ ap (λ (a : ℕ). gives (span bytes (s * 512) 512 ++ span bytes a (n - 512)))
                (omega arith)
            ∙ ap gives (sym (span_split bytes (s * 512) n 512 (n - 512) (omega (arith, fits))))
        | inr part ↦
            let short : n < 512 = ground (arith, part, size) in
            if_false _ _ part ∙ elim (Bool-cases (n == 0)) [
              | inl nothing ↦
                  let none_left : 0 ≡ n = ground (arith, nothing) in
                  if_true _ _ nothing ∙ ap (λ (k : ℕ). gives (span bytes (s * 512) k)) none_left
              | inr something ↦
                  if_false _ _ something
                  ∙ ap (λ (o : Option Sector). copy_from disk o 0 n (gives [])) here
                  ∙ ap (λ (l : List ℕ). gives (l ++ []))
                      (copy_from-span d s 0 n b here (omega (arith, short)))
                  ∙ ap (λ (a : ℕ). gives (span bytes a n ++ [])) at
                  ∙ ap gives (span_end bytes (s * 512) n)
            ]
      ]

  -- On a device of sectors of 512 bytes whose disk works, `devfs_blk_read` from an offset on the
  -- device, given more fuel than the size, gives the bytes of the device from there on, as many as
  -- are asked for and lie on it.
  pub devfs_blk_read-span :
      (fuel offset size : ℕ) (g : Geometry) (d : State)
      → IsDevice g
      → offset < g.sector_count * 512
      → size < fuel
      → devfs_blk_read disk fuel g offset size d
        ≡ gives (span (device_byte disk d) offset (min size (g.sector_count * 512 - offset)))
  unfolding devfs_blk_read
  devfs_blk_read-span fuel offset size g d v lt enough =
      let sector = offset / 512 in
      let from = offset % 512 in
      let n = min size (g.sector_count * 512 - offset) in
      let chunk = min (512 - from) n in
      let bytes = device_byte disk d in
      let (b, here) = w.reads d sector in
      let body : ℕ → ℕ → BlkRead = λ ss k.
        if leb g.sector_count (offset / ss)
        then fails
        else if offset % ss == 0
        then read_whole disk fuel g (offset / ss) k d
        else read_head disk (read d (offset / ss)) (offset % ss) (min (ss - offset % ss) k)
            (read_whole disk fuel g (offset / ss + 1) (k - min (ss - offset % ss) k) d) in
      let on_device : leb g.sector_count sector ≡ false = ground (arith, lt) in
      ap (λ (ss : ℕ). body ss (limited g offset size)) v.size
      ∙ ap (body 512) (limited-min g offset size v lt)
      ∙ if_false _ _ on_device
      ∙ elim (Bool-cases (from == 0)) [
        | inl aligned ↦
            let start : sector * 512 ≡ offset = ground (arith, aligned) in
            if_true _ _ aligned
            ∙ read_whole_lem fuel sector n g d v.size (omega (arith, enough))
            ∙ ap (λ (a : ℕ). gives (span bytes a n)) start
        | inr inside ↦
            if_false _ _ inside
            ∙ ap
                (λ (o : Option Sector).
                  read_head disk o from chunk (read_whole disk fuel g (sector + 1) (n - chunk) d))
                here
            ∙ ap (then_bytes (span b from chunk))
                (read_whole_lem fuel (sector + 1) (n - chunk) g d v.size (omega (arith, enough)))
            ∙ ap (λ (l : List ℕ). gives (l ++ span bytes ((sector + 1) * 512) (n - chunk)))
                (copy_from-span d sector from chunk b here (omega arith))
            ∙ ap
                (λ (a : ℕ).
                  gives (span bytes a chunk ++ span bytes ((sector + 1) * 512) (n - chunk)))
                (omega arith)
            ∙ rest_of bytes offset n chunk refl
      ]
    where
      rest_of :
          (f : ℕ → ℕ) (a n m : ℕ)
          → m ≡ min (512 - a % 512) n
          → gives (span f a m ++ span f ((a / 512 + 1) * 512) (n - m)) ≡ gives (span f a n)
      rest_of f a n m is_m =
          let next = (a / 512 + 1) * 512 in
          let tail : span f next (n - m) ≡ span f (a + m) (n - m) = elim (Bool-cases (ltb m n)) [
            | inl more ↦
                let address : next ≡ a + m = ground (arith, more, is_m) in
                ap (λ (x : ℕ). span f x (n - m)) address
            | inr over ↦
                let none_left : n - m ≡ 0 = ground (arith, over) in
                ap (span f next) none_left ∙ sym (ap (span f (a + m)) none_left)
          ] in
          ap (λ (l : List ℕ). gives (span f a m ++ l)) tail
          ∙ ap gives (sym (span_split f a n m (n - m) (omega (arith, is_m))))

  -- The call then returns the number of these bytes as an `int`, which is negative or too small from
  -- 2 ^ 31 bytes on.
  pub blk_read_code-devfs_blk_read :
      (fuel offset size : ℕ) (g : Geometry) (d : State)
      → IsDevice g
      → offset < g.sector_count * 512
      → size < fuel
      → blk_read_code (devfs_blk_read disk fuel g offset size d)
        ≡ some (as_int (min size (g.sector_count * 512 - offset)))
  blk_read_code-devfs_blk_read fuel offset size g d v lt enough =
      let n = min size (g.sector_count * 512 - offset) in
      ap blk_read_code (devfs_blk_read-span fuel offset size g d v lt enough)
      ∙ ap (λ (k : ℕ). some (as_int k)) (length-span (device_byte disk d) offset n)
