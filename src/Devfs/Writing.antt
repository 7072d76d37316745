-- ===== src/Devfs/Writing.antt =====
-- `devfs_blk_write` of kernel/fs/vfs.c changes the bytes of its range.
use lumin.Prelude.{
  ℕ, zero, suc, ◌+◌, ◌-◌, ◌*◌, ◌/◌, ◌%◌, ◌<◌, ◌≤◌, ◌≡◌, refl, sym, ap, ◌∙◌, true, Option, arith,
  min, ltb, leb, ◌==◌, if◌then◌else◌, if_true, if_false, if_cases, ◌&&◌,
}
use lumin.Prelude.Int.{as_int}
use mathlib.Core.Path.{subst}
use lumin.Fat32.{Disk, Sector}
use lumin.Fat32.Links.{Works}
use lumin.Fat32.Files.{span}
use lumin.Fat32.Files.Spans.{span_agrees}
use lumin.Fat32.Writing.{patch, buffer_sector}
use lumin.Fat32.Writing.Device.{device_byte, written, Puts, Puts-none, Puts-more, Puts-patch}
use lumin.Devfs.{
  Geometry, limited, gives, BlkWrite, refused, wrote, after_write, after_read, write_tail,
  write_whole, devfs_blk_read, devfs_blk_write,
}
use lumin.Devfs.Reading.{IsDevice, limited-min, devfs_blk_read-span}

module _ (disk : Disk) (w : Works disk) where
  open disk use {State, read, write}

  -- A call that wrote `n` bytes at the address `a`, and returns the number of all that are done as an `int`.
  abbrev pub Writes : ℕ → ℕ → ℕ → (ℕ → ℕ) → State → BlkWrite State → Type 0
  Writes a n done buf d r =
      (d' : State) × (r ≡ wrote (as_int (done + n)) d') × Puts disk a n done buf d d'

  -- One part of a sector is written, and then the rest.
  then_rest :
      (s from chunk n done : ℕ) (buf : ℕ → ℕ) (d : State) (failed : BlkWrite State)
      (rest : State → BlkWrite State)
      → from < 512
      → from + chunk ≤ 512
      → chunk ≤ n
      → ((d' : State) → Writes (s * 512 + from + chunk) (n - chunk) (done + chunk) buf d' (rest d'))
      → Writes
          (s * 512 + from)
          n
          done
          buf
          d
          (after_read disk s from chunk done buf d failed (read d s) rest)
  then_rest s from chunk n done buf d failed rest low fits le next =
      let (b, old) = w.reads d s in
      let (d1, did, new) = w.writes d s (patch b from chunk buf done) in
      let (d2, more, puts) = next d1 in
      let whole : chunk + (n - chunk) ≡ n = omega (arith, le) in
      (
        d2,
        ap (λ (o : Option Sector). after_read disk s from chunk done buf d failed o rest) old
            ∙ ap (λ (o : Option State). after_write disk (done + chunk) d o rest) did
            ∙ more
            ∙ ap (λ (k : ℕ). wrote (as_int k) d2) (omega (arith, le)),
        subst (λ k. Puts disk (s * 512 + from) k done buf d d2) whole
            (Puts-more disk (s * 512 + from) chunk (n - chunk) done buf d d1 d2
              (Puts-patch disk s from chunk done buf b _ d d1 low fits old (λ p lt. refl) new)
              puts),
      )

  -- Nothing is left to write.
  over :
      (a n done : ℕ) (buf : ℕ → ℕ) (d : State)
      → n ≡ 0
      → Writes a n done buf d (wrote (as_int done) d)
  over a n done buf d none_left = (
    d,
    ap (λ (k : ℕ). wrote (as_int k) d) (omega (arith, none_left)),
    subst (λ k. Puts disk a k done buf d d) (sym none_left) (Puts-none disk a done buf d),
  )

  all_of :
      (b : Sector) (done p : ℕ) (buf : ℕ → ℕ)
      → p < 512
      → buffer_sector buf done p ≡ patch b 0 512 buf done p
  unfolding patch
  all_of b done p buf lt =
      let inside : (leb 0 p && ltb p (0 + 512)) ≡ true = ground (arith, lt) in
      ap buf (omega arith) ∙ sym (if_true _ _ inside)

  -- A whole sector is written, and then the rest.
  sector_then_rest :
      (s n done : ℕ) (buf : ℕ → ℕ) (d : State) (rest : State → BlkWrite State)
      → 512 ≤ n
      → ((d' : State) → Writes ((s + 1) * 512) (n - 512) (done + 512) buf d' (rest d'))
      → Writes
          (s * 512)
          n
          done
          buf
          d
          (after_write disk done d (write d s (buffer_sector buf done)) rest)
  sector_then_rest s n done buf d rest le next =
      let (b, old) = w.reads d s in
      let (d1, did, new) = w.writes d s (buffer_sector buf done) in
      let (d2, more, puts) = next d1 in
      let whole : 512 + (n - 512) ≡ n = omega (arith, le) in
      let first : Puts disk (s * 512) 512 done buf d d1 =
        subst (λ a. Puts disk a 512 done buf d d1) (omega arith)
          (Puts-patch disk s 0 512 done buf b _ d d1 (omega arith) (omega arith) old
            (λ p lt. all_of b done p buf lt) new) in
      (
        d2,
        ap (λ (o : Option State). after_write disk done d o rest) did
            ∙ more
            ∙ ap (λ (k : ℕ). wrote (as_int k) d2) (omega (arith, le)),
        subst (λ k. Puts disk (s * 512) k done buf d d2) whole
            (Puts-more disk (s * 512) 512 (n - 512) done buf d d1 d2 first
              (subst (λ a. Puts disk a (n - 512) (done + 512) buf d1 d2) (omega arith) puts)),
      )

  -- Where nothing is written, the address is of no account.
  any_address :
      (a b n done : ℕ) (buf : ℕ → ℕ) (d : State) (r : BlkWrite State)
      → b ≤ a
      → (0 < n → a ≡ b)
      → Writes a n done buf d r
      → Writes b n done buf d r
  any_address a b zero done buf d r le same (d', result, puts) = (
    d',
    result,
    record {
      bytes = λ x. puts.bytes x ∙ none_at a x ∙ sym (none_at b x);
      before = λ t lt. puts.before t (omega (arith, lt, le));
    },
  )
    where
      none_at : (c x : ℕ) → written c 0 done buf x (device_byte disk d x) ≡ device_byte disk d x
      none_at c x = if_false {q = leb c x && ltb x (c + 0)} _ _ (ground arith)
  any_address a b (suc n) done buf d r le same h =
      subst (λ c. Writes c (suc n) done buf d r) (same (omega arith)) h

  write_whole_lem :
      (fuel s n done : ℕ) (g : Geometry) (buf : ℕ → ℕ) (d : State)
      → g.sector_size ≡ 512
      → n < fuel
      → Writes (s * 512) n done buf d (write_whole disk fuel g s n done buf d)
  unfolding write_whole write_tail
  write_whole_lem zero s n done g buf d size enough = absurd (omega (arith, enough))
  write_whole_lem (suc fuel) s n done g buf d size enough =
      let P = Writes (s * 512) n done buf d in
      if_cases P (leb g.sector_size n)
        (λ whole.
          let fits : 512 ≤ n = ground (arith, whole, size) in
          subst
            (λ ss. P (
              after_write disk done d (write d s (buffer_sector buf done))
                (write_whole disk fuel g (s + 1) (n - ss) (done + ss) buf)))
            (sym size)
            (sector_then_rest s n done buf d
              (write_whole disk fuel g (s + 1) (n - 512) (done + 512) buf) fits
              (λ d'.
                write_whole_lem fuel (s + 1) (n - 512) (done + 512) g buf d' size
                  (omega (arith, enough, fits)))))
        (λ part.
          let short : n < 512 = ground (arith, part, size) in
          if_cases P (n == 0) (λ nothing. over (s * 512) n done buf d (ground (arith, nothing)))
            (λ something.
              subst
                (λ a. Writes a n done buf d (
                  after_read disk s 0 n done buf d (wrote (as_int done) d) (read d s)
                    (wrote (as_int (done + n)))))
                (omega arith)
                (then_rest s 0 n n done buf d (wrote (as_int done) d) (wrote (as_int (done + n)))
                  (omega arith) (omega (arith, short)) (omega arith)
                  (λ d'. over (s * 512 + 0 + n) (n - n) (done + n) buf d' (omega arith)))))

  -- On a device of sectors of 512 bytes whose disk works, `devfs_blk_write` at an offset on the
  -- device, given more fuel than the size, writes as many bytes as are asked for and lie on the
  -- device, and returns their number as an `int`, which is negative or too small from 2 ^ 31 bytes
  -- on: these bytes of the device, and no others, have become those of the buffer.
  pub devfs_blk_write-Writes :
      (fuel offset size : ℕ) (g : Geometry) (buf : ℕ → ℕ) (d : State)
      → IsDevice g
      → offset < g.sector_count * 512
      → size < fuel
      → Writes offset
          (min size (g.sector_count * 512 - offset))
          0
          buf
          d
          (devfs_blk_write disk fuel g offset size buf d)
  unfolding devfs_blk_write
  devfs_blk_write-Writes fuel offset size g buf d v lt enough =
      let sector = offset / 512 in
      let from = offset % 512 in
      let n = min size (g.sector_count * 512 - offset) in
      let chunk = min (512 - from) n in
      let body : ℕ → ℕ → BlkWrite State = λ ss k.
        if leb g.sector_count (offset / ss)
        then refused
        else if offset % ss == 0
        then write_whole disk fuel g (offset / ss) k 0 buf d
        else after_read disk (offset / ss) (offset % ss) (min (ss - offset % ss) k) 0 buf d refused
            (read d (offset / ss))
            (write_whole disk fuel g (offset / ss + 1) (k - min (ss - offset % ss) k)
              (min (ss - offset % ss) k) buf) in
      let P = Writes offset n 0 buf d in
      subst P
        (sym (
          ap (λ (ss : ℕ). body ss (limited g offset size)) v.size
          ∙ ap (body 512) (limited-min g offset size v lt)))
        (if_cases P (leb g.sector_count sector) (λ beyond. ground (arith, beyond, lt))
          (λ on_device.
            if_cases P (from == 0)
              (λ aligned.
                subst (λ a. Writes a n 0 buf d (write_whole disk fuel g sector n 0 buf d))
                  (ground (arith, aligned))
                  (write_whole_lem fuel sector n 0 g buf d v.size (omega (arith, enough))))
              (λ inside.
                let next : (d' : State)
                    → Writes (sector * 512 + from + chunk) (n - chunk) (0 + chunk) buf d'
                        (write_whole disk fuel g (sector + 1) (n - chunk) chunk buf d') =
                  λ d'.
                    subst
                      (λ k.
                        Writes (sector * 512 + from + chunk) (n - chunk) k buf d'
                          (write_whole disk fuel g (sector + 1) (n - chunk) chunk buf d'))
                      (omega arith)
                      (any_address ((sector + 1) * 512) (sector * 512 + from + chunk) (n - chunk)
                        chunk buf d' _ (omega arith) (λ some_left. omega (arith, some_left))
                        (write_whole_lem fuel (sector + 1) (n - chunk) chunk g buf d' v.size
                          (omega (arith, enough)))) in
                subst
                  (λ a. Writes a n 0 buf d (
                    after_read disk sector from chunk 0 buf d refused (read d sector)
                      (write_whole disk fuel g (sector + 1) (n - chunk) chunk buf)))
                  (omega arith)
                  (then_rest sector from chunk n 0 buf d refused
                    (write_whole disk fuel g (sector + 1) (n - chunk) chunk buf) (omega arith)
                    (omega arith) (omega arith) next))))

  -- On a device of sectors of 512 bytes whose disk works, for an offset on the device and more fuel
  -- than the size, `devfs_blk_read` gives back what `devfs_blk_write` has written at that offset, as
  -- far as it lies on the device.
  pub devfs_blk_read-devfs_blk_write :
      (fuel offset size : ℕ) (g : Geometry) (buf : ℕ → ℕ) (d : State)
      → IsDevice g
      → offset < g.sector_count * 512
      → size < fuel
      → (d' : State) × (devfs_blk_write disk fuel g offset size buf d
          ≡ wrote (as_int (min size (g.sector_count * 512 - offset))) d')
        × (devfs_blk_read disk fuel g offset size d'
            ≡ gives (span buf 0 (min size (g.sector_count * 512 - offset))))
  devfs_blk_read-devfs_blk_write fuel offset size g buf d v lt enough =
      let n = min size (g.sector_count * 512 - offset) in
      let (d', result, puts) = devfs_blk_write-Writes fuel offset size g buf d v lt enough in
      (
        d',
        result ∙ ap (λ (k : ℕ). wrote (as_int k) d') (omega arith),
        devfs_blk_read-span disk w fuel offset size g d' v lt enough
            ∙ ap gives (
                span_agrees (device_byte disk d') buf offset 0 n λ i lt'.
                  let inside : (leb offset (offset + i) && ltb (offset + i) (offset + n)) ≡ true =
                    ground (arith, lt') in
                  puts.bytes (offset + i) ∙ if_true _ _ inside ∙ ap buf (omega arith)),
      )
