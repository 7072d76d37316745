-- ===== src/Fat32/Writing/Device.antt =====
-- The bytes of a device that `fat32_write_file` of kernel/fs/fat32.c changes, by their addresses.
use lumin.Prelude.{
  ℕ, ◌+◌, ◌-◌, ◌*◌, ◌/◌, ◌%◌, ◌<◌, ◌≤◌, ◌≡◌, refl, sym, ap, ◌∙◌, inl, inr, true, false, ◌&&◌,
  Option, some, arith, ltb, leb, ◌==◌, if◌then◌else◌, Bool-cases, if_true, if_false, ==→eq,
}
use lumin.Fat32.{Disk, Sector}
use lumin.Fat32.Files.Sectors.{byte_in}
use lumin.Fat32.Writing.{patch}

-- The byte at an address of the device.
abbrev pub device_byte : (disk : Disk) → disk.State → ℕ → ℕ
device_byte disk d a = byte_in (disk.read d (a / 512)) (a % 512)

-- A byte at the address `x` after `n` bytes of the buffer, from `done` on, were written at `a`.
abbrev pub written : ℕ → ℕ → ℕ → (ℕ → ℕ) → ℕ → ℕ → ℕ
written a n done buf x old = if leb a x && ltb x (a + n) then buf (done + (x - a)) else old

module _ (disk : Disk) where
  open disk use {State, read}

  -- From `d` to `d'`, `n` bytes of the buffer were written at `a`, and no other byte has changed,
  -- nor any sector before that of `a`.
  pub record Puts (a n done : ℕ) (buf : ℕ → ℕ) (d d' : State) : Type 0 where
    pub bytes : (x : ℕ) → device_byte disk d' x ≡ written a n done buf x (device_byte disk d x)
    pub before : (t : ℕ) → t < a / 512 → read d' t ≡ read d t

  pub Puts-none : (a done : ℕ) (buf : ℕ → ℕ) (d : State) → Puts a 0 done buf d d
  Puts-none a done buf d = record {
    bytes = λ x. sym (if_false {q = leb a x && ltb x (a + 0)} _ _ (ground arith));
    before = λ t lt. refl;
  }

  written_both :
      (a m n done x old : ℕ) (buf : ℕ → ℕ)
      → written (a + m) n (done + m) buf x (written a m done buf x old)
        ≡ written a (m + n) done buf x old
  written_both a m n done x old buf = elim (Bool-cases (leb (a + m) x && ltb x (a + m + n))) [
    | inl second ↦
        let whole : (leb a x && ltb x (a + (m + n))) ≡ true = ground (arith, second) in
        let index : done + m + (x - (a + m)) ≡ done + (x - a) = ground (arith, second) in
        if_true _ _ second ∙ ap buf index ∙ sym (if_true _ _ whole)
    | inr not_second ↦ if_false _ _ not_second ∙ elim (Bool-cases (leb a x && ltb x (a + m))) [
      | inl first ↦
          let whole : (leb a x && ltb x (a + (m + n))) ≡ true = ground (arith, first) in
          if_true _ _ first ∙ sym (if_true _ _ whole)
      | inr not_first ↦
          let none_at : (leb a x && ltb x (a + (m + n))) ≡ false =
            ground (arith, not_first, not_second) in
          if_false _ _ not_first ∙ sym (if_false _ _ none_at)
    ]
  ]

  -- A write that goes on where another ended.
  pub Puts-more :
      (a m n done : ℕ) (buf : ℕ → ℕ) (d d' d'' : State)
      → Puts a m done buf d d'
      → Puts (a + m) n (done + m) buf d' d''
      → Puts a (m + n) done buf d d''
  Puts-more a m n done buf d d' d'' h k = record {
    bytes = λ x.
        k.bytes x
        ∙ ap (written (a + m) n (done + m) buf x) (h.bytes x)
        ∙ written_both a m n done x (device_byte disk d x) buf;
    before = λ t lt. k.before t (omega (arith, lt)) ∙ h.before t lt;
  }

  -- A sector that is written in part.
  pub Puts-patch :
      (s start chunk done : ℕ) (buf : ℕ → ℕ) (b b' : Sector) (d d' : State)
      → start < 512
      → start + chunk ≤ 512
      → read d s ≡ some b
      → ((p : ℕ) → p < 512 → b' p ≡ patch b start chunk buf done p)
      → ((t : ℕ) → read d' t ≡ (if t == s then some b' else read d t))
      → Puts (s * 512 + start) chunk done buf d d'
  unfolding patch
  Puts-patch s start chunk done buf b b' d d' low fits old is_patch new = record {
    bytes = λ x. elim (Bool-cases (x / 512 == s)) [
      | inl here ↦
          let at_s : read d' (x / 512) ≡ some b' = new (x / 512) ∙ if_true _ _ here in
          let was : device_byte disk d x ≡ b (x % 512) =
            ap (λ (t : ℕ). byte_in (read d t) (x % 512)) (==→eq _ _ here)
            ∙ ap (λ (o : Option Sector). byte_in o (x % 512)) old in
          let got =
            ap (λ (o : Option Sector). byte_in o (x % 512)) at_s
            ∙ is_patch (x % 512) (omega arith) in
          elim (Bool-cases (leb (s * 512 + start) x && ltb x (s * 512 + start + chunk))) [
            | inl inside ↦
                let goes : (leb start (x % 512) && ltb (x % 512) (start + chunk)) ≡ true =
                  ground (arith, here, inside) in
                let index : done + (x % 512 - start) ≡ done + (x - (s * 512 + start)) =
                  ground (arith, here, inside) in
                got ∙ if_true _ _ goes ∙ ap buf index ∙ sym (if_true _ _ inside)
            | inr outside ↦
                let stays : (leb start (x % 512) && ltb (x % 512) (start + chunk)) ≡ false =
                  ground (arith, here, outside) in
                got ∙ if_false _ _ stays ∙ sym was ∙ sym (if_false _ _ outside)
          ]
      | inr elsewhere ↦
          let outside : (leb (s * 512 + start) x && ltb x (s * 512 + start + chunk)) ≡ false =
            ground (arith, elsewhere, fits) in
          ap (λ (o : Option Sector). byte_in o (x % 512)) (new (x / 512) ∙ if_false _ _ elsewhere)
          ∙ sym (if_false _ _ outside)
    ];
    before = λ t lt. new t ∙ if_false {q = t == s} _ _ (ground (arith, lt, low));
  }
