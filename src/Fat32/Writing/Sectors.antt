-- ===== src/Fat32/Writing/Sectors.antt =====
-- The writes to the sectors of one cluster, which `fat32_write_file` of kernel/fs/fat32.c makes.
use lumin.Prelude.{
  ℕ, zero, suc, ◌+◌, ◌-◌, ◌*◌, ◌/◌, ◌%◌, ◌<◌, ◌≤◌, ◌≡◌, refl, sym, ap, ◌∙◌, inl, inr, true, not,
  ◌&&◌, ◌||◌, Option, some, arith, min, ltb, leb, ◌==◌, if◌then◌else◌, Bool-cases, if_true,
  if_false,
}
use mathlib.Core.Path.{subst}
use lumin.Fat32.{Disk, Sector, Fs, u32_mod}
use lumin.Fat32.Links.{Works}
use lumin.Fat32.Files.{cluster_size}
use lumin.Fat32.Writing.{
  patch, buffer_sector, Wrote, passed, after_block_write, merge_sector, write_sectors,
}
use lumin.Fat32.Writing.Device.{Puts, Puts-none, Puts-more, Puts-patch}

module _ (disk : Disk) (w : Works disk) where
  open disk use {State, read, write}

  -- A step of the loop, with the sizes given.
  sector_write : ℕ → Fs → ℕ → ℕ → ℕ → ℕ → (ℕ → ℕ) → State → ℕ → ℕ → Wrote State
  sector_write fuel fs first start remaining done buf d bps size =
      let byte_in = start % bps in
      let sector = (first + start / bps) % u32_mod in
      let rest : ℕ → State → Wrote State = λ n.
        write_sectors disk fuel fs first ((start + n) % u32_mod) (remaining - n) (done + n) buf in
      let chunk = min (bps - byte_in) remaining in
      if ltb start size && ltb 0 remaining
      then (if not (byte_in == 0) || ltb remaining bps && byte_in == 0
          then merge_sector disk sector byte_in chunk done buf d (read d sector) (rest chunk)
          else after_block_write disk done d (write d sector (buffer_sector buf done))
              (rest (min bps remaining)))
      else passed done remaining d

  write_sectors-sector_write :
      (fuel : ℕ) (fs : Fs) (first start remaining done : ℕ) (buf : ℕ → ℕ) (d : State)
      → fs.bytes_per_sector ≡ 512
      → fs.sectors_per_cluster ≤ 128
      → write_sectors disk (suc fuel) fs first start remaining done buf d
        ≡ sector_write fuel fs first start remaining done buf d 512 (512 * fs.sectors_per_cluster)
  unfolding write_sectors sector_write cluster_size
  write_sectors-sector_write fuel fs first start remaining done buf d bytes few =
      ap
        (λ (bps : ℕ).
          sector_write fuel fs first start remaining done buf d bps
            (bps * fs.sectors_per_cluster % u32_mod))
        bytes
      ∙ ap (sector_write fuel fs first start remaining done buf d 512) (omega (arith, few))

  all_of :
      (b : Sector) (b_in n done p : ℕ) (buf : ℕ → ℕ)
      → b_in ≡ 0
      → p < n
      → buffer_sector buf done p ≡ patch b b_in n buf done p
  unfolding patch
  all_of b b_in n done p buf start end =
      let inside : (leb b_in p && ltb p (b_in + n)) ≡ true = ground (arith, start, end) in
      ap buf (omega (arith, start)) ∙ sym (if_true _ _ inside)

  -- One sector is written, and the loop goes on.
  one_sector :
      (fuel : ℕ) (fs : Fs) (first start remaining done : ℕ) (buf : ℕ → ℕ) (d : State)
      → first + start / 512 < u32_mod
      → start + 512 < u32_mod
      → start < 512 * fs.sectors_per_cluster
      → 0 < remaining
      → (n : ℕ) → n ≡ min (512 - start % 512) remaining
      → (d' : State) × (sector_write fuel fs first start remaining done buf d 512
            (512 * fs.sectors_per_cluster)
          ≡ write_sectors disk fuel fs first (start + n) (remaining - n) (done + n) buf d')
        × Puts disk (first * 512 + start) n done buf d d'
  unfolding sector_write
  one_sector fuel fs first start remaining done buf d near small lt some_left n is_n =
      let s = first + start / 512 in
      let b_in = start % 512 in
      let (b, old) = w.reads d s in
      let here : (first + start / 512) % u32_mod ≡ s = omega (arith, near) in
      let goes : (ltb start (512 * fs.sectors_per_cluster) && ltb 0 remaining) ≡ true =
        ground (arith, lt, some_left) in
      let rest : ℕ → State → Wrote State = λ k.
        write_sectors disk fuel fs first ((start + k) % u32_mod) (remaining - k) (done + k) buf in
      let next : (d' : State)
          → rest n d'
            ≡ write_sectors disk fuel fs first (start + n) (remaining - n) (done + n) buf d' =
        λ d'.
          ap (λ (k : ℕ). write_sectors disk fuel fs first k (remaining - n) (done + n) buf d')
            (omega (arith, small, is_n)) in
      let address : s * 512 + b_in ≡ first * 512 + start = omega arith in
      let put : (b' : Sector) (d' : State)
          → ((p : ℕ) → p < 512 → b' p ≡ patch b b_in n buf done p)
          → ((t : ℕ) → read d' t ≡ (if t == s then some b' else read d t))
          → Puts disk (first * 512 + start) n done buf d d' =
        λ b' d' is_patch new.
          subst (λ a. Puts disk a n done buf d d') address
            (Puts-patch disk s b_in n done buf b b' d d' (omega arith) (omega (arith, is_n)) old
              is_patch new) in
      elim (Bool-cases (not (b_in == 0) || ltb remaining 512 && b_in == 0)) [
        | inl partial ↦
            let chunk = min (512 - b_in) remaining in
            let (d', did, new) = w.writes d s (patch b b_in chunk buf done) in
            (
              d',
              if_true _ _ goes
                  ∙ if_true _ _ partial
                  ∙ ap
                      (λ (t : ℕ). merge_sector disk t b_in chunk done buf d (read d t) (rest chunk))
                      here
                  ∙ ap
                      (λ (o : Option Sector).
                        merge_sector disk s b_in chunk done buf d o (rest chunk))
                      old
                  ∙ ap (λ (o : Option State). after_block_write disk done d o (rest chunk)) did
                  ∙ ap (λ (k : ℕ). rest k d') (sym is_n)
                  ∙ next d',
              put _ d' (λ p lt'. ap (λ (k : ℕ). patch b b_in k buf done p) (sym is_n)) new,
            )
        | inr whole ↦
            let (d', did, new) = w.writes d s (buffer_sector buf done) in
            (
              d',
              if_true _ _ goes
                  ∙ if_false _ _ whole
                  ∙ ap
                      (λ (t : ℕ).
                        after_block_write disk done d (write d t (buffer_sector buf done))
                          (rest (min 512 remaining)))
                      here
                  ∙ ap
                      (λ (o : Option State).
                        after_block_write disk done d o (rest (min 512 remaining)))
                      did
                  ∙ ap (λ (k : ℕ). rest k d') (ground (arith, is_n, whole))
                  ∙ next d',
              put _ d'
                  (λ p lt'.
                    all_of b b_in n done p buf (ground (arith, whole))
                      (ground (arith, whole, is_n, lt')))
                  new,
            )
      ]

  -- The bytes of the cluster from `start` on, as far as there are bytes to write.
  pub write_sectors_lem :
      (fuel : ℕ) (fs : Fs) (first start remaining done : ℕ) (buf : ℕ → ℕ) (d : State)
      → fs.bytes_per_sector ≡ 512
      → fs.sectors_per_cluster ≤ 128
      → first + fs.sectors_per_cluster < u32_mod
      → start ≤ 512 * fs.sectors_per_cluster
      → 1 ≤ fuel
      → (0 < remaining → fs.sectors_per_cluster < start / 512 + fuel)
      → (n : ℕ) → n ≡ min (512 * fs.sectors_per_cluster - start) remaining
      → (d' : State) × (write_sectors disk fuel fs first start remaining done buf d
          ≡ passed (done + n) (remaining - n) d')
        × Puts disk (first * 512 + start) n done buf d d'
  unfolding sector_write
  write_sectors_lem zero fs first start remaining done buf d bytes few end le some_fuel more n
        is_n =
      absurd (omega (arith, some_fuel))
  write_sectors_lem (suc fuel) fs first start remaining done buf d bytes few end le some_fuel more n
        is_n =
      let step = write_sectors-sector_write fuel fs first start remaining done buf d bytes few in
      elim (Bool-cases (ltb start (512 * fs.sectors_per_cluster) && ltb 0 remaining)) [
        | inl goes ↦
            let m = min (512 - start % 512) remaining in
            let lt : start < 512 * fs.sectors_per_cluster = ground (arith, goes) in
            let some_left : 0 < remaining = ground (arith, goes) in
            let (d', wrote, puts) =
              one_sector fuel fs first start remaining done buf d (omega (arith, end, lt))
                (omega (arith, lt, few)) lt some_left m refl in
            let k = min (512 * fs.sectors_per_cluster - (start + m)) (remaining - m) in
            let (d'', rest, more_puts) =
              write_sectors_lem fuel fs first (start + m) (remaining - m) (done + m) buf d' bytes
                few end (omega (arith, lt)) (omega (arith, more, some_left, lt))
                (λ left. omega (arith, more, some_left, left)) k refl in
            let whole : n ≡ m + k = omega (arith, is_n, lt) in
            (
              d'',
              step
                  ∙ wrote
                  ∙ rest
                  ∙ ap (λ (x : ℕ). passed x (remaining - m - k) d'') (omega (arith, whole))
                  ∙ ap (λ (x : ℕ). passed (done + n) x d'') (omega (arith, whole)),
              subst (λ x. Puts disk (first * 512 + start) x done buf d d'') (sym whole)
                  (Puts-more disk (first * 512 + start) m k done buf d d' d'' puts
                    (subst (λ a. Puts disk a k (done + m) buf d' d'') (omega arith) more_puts)),
            )
        | inr ends ↦
            let none_left : 0 ≡ n = ground (arith, ends, is_n) in
            (
              d,
              step
                  ∙ if_false _ _ ends
                  ∙ ap (λ (x : ℕ). passed x remaining d) (omega (arith, none_left))
                  ∙ ap (λ (x : ℕ). passed (done + n) x d) (omega (arith, none_left)),
              subst (λ x. Puts disk (first * 512 + start) x done buf d d) none_left
                  (Puts-none disk (first * 512 + start) done buf d),
            )
      ]
