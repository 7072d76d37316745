-- ===== src/Fat32/Writing/Contents.antt =====
-- The bytes of a file after `fat32_write_file` of kernel/fs/fat32.c has written over some of them.
use lumin.Prelude.{
  ℕ, ◌+◌, ◌-◌, ◌*◌, ◌<◌, ◌≤◌, ◌≡◌, refl, sym, ap, ◌∙◌, inl, inr, Bool, true, false, ◌&&◌, arith,
  List, [], ◌∷◌, min, ltb, leb, ◌==◌, if◌then◌else◌, Bool-cases, if_true, if_false, has, All,
  length, ==→eq, ==-refl,
}
use lumin.Fat32.{Disk, Fs, fat_next_cluster}
use lumin.Fat32.Links.{Works}
use lumin.Fat32.Chains.{Chain, Chain-links, Chain-agrees, has_apart}
use lumin.Fat32.Volume.{first_sector}
use lumin.Fat32.Files.Sectors.{cluster_byte}
use lumin.Fat32.Files.Reading.{file_byte, IsCluster}
use lumin.Fat32.Writing.Device.{written, Puts}
use lumin.Fat32.Writing.Clusters.{
  IsTabled, SameTable, next_same, InArea, Puts-SameTable, Puts-own, Puts-other,
}

module _ (disk : Disk) (w : Works disk) {fs : Fs} {total : ℕ} (v : IsTabled fs total) where
  open disk use {State, read}

  -- From `d` to `d'`, `n` bytes of the buffer, from `done` on, were written at the byte `start` of
  -- the file with the clusters `xs`. Nothing before the data area and no other cluster has changed.
  pub record Changes (xs : List ℕ) (start n done : ℕ) (buf : ℕ → ℕ) (d d' : State) : Type 0 where
    pub table : SameTable disk v d d'
    pub bytes :
        (k : ℕ)
        → k < length xs * (512 * fs.sectors_per_cluster)
        → file_byte disk fs d' xs k ≡ written start n done buf k (file_byte disk fs d xs k)
    pub others :
        (y k : ℕ)
        → InArea disk v y
        → has y xs ≡ false
        → k < 512 * fs.sectors_per_cluster
        → cluster_byte disk d' (first_sector fs y) k ≡ cluster_byte disk d (first_sector fs y) k

  written_none : (start done k old : ℕ) (buf : ℕ → ℕ) → written start 0 done buf k old ≡ old
  written_none start done k old buf =
      if_false {q = leb start k && ltb k (start + 0)} _ _ (ground arith)

  pub Changes-none :
      (xs : List ℕ) (start done : ℕ) (buf : ℕ → ℕ) (d : State) → Changes xs start 0 done buf d d
  Changes-none xs start done buf d = record {
    table = λ t lt. refl;
    bytes = λ k lt. sym (written_none start done k (file_byte disk fs d xs k) buf);
    others = λ y k in_y out lt. refl;
  }

  -- The clusters of a chain lie in the volume.
  pub Chain-InArea :
      (next : ℕ → ℕ) (c y : ℕ) (xs : List ℕ)
      → Chain next c xs
      → All (IsCluster fs) xs
      → has y xs ≡ true
      → InArea disk v y
  Chain-InArea next c y xs chain inside h =
      let link = Chain-links next c y xs chain h in (ground (arith, link), has-All y xs inside h)
    where
      has-All : (y : ℕ) (xs : List ℕ) → All (IsCluster fs) xs → has y xs ≡ true → IsCluster fs y
      has-All y [] inside h = ground (arith, h)
      has-All y (x ∷ xs) (here, inside) h = elim (Bool-cases (y == x)) [
        | inl same ↦ omega (arith, ==→eq _ _ same, here)
        | inr other ↦ has-All y xs inside (ground (arith, h, other))
      ]

  pub Chain-same :
      (d d' : State) (c : ℕ) (xs : List ℕ)
      → SameTable disk v d d'
      → All (IsCluster fs) xs
      → Chain (λ e. fat_next_cluster disk fs e d) c xs
      → Chain (λ e. fat_next_cluster disk fs e d') c xs
  Chain-same d d' c xs same inside chain =
      Chain-agrees (λ e. fat_next_cluster disk fs e d) (λ e. fat_next_cluster disk fs e d') c xs
        (λ e h. next_same disk v d d' e same ((Chain-InArea _ c e xs chain inside h).1)) chain

  file_byte-same :
      (d d' : State) (k : ℕ) (xs : List ℕ)
      → ((y k : ℕ)
          → has y xs ≡ true
          → k < 512 * fs.sectors_per_cluster
          → cluster_byte disk d' (first_sector fs y) k ≡ cluster_byte disk d (first_sector fs y) k)
      → file_byte disk fs d' xs k ≡ file_byte disk fs d xs k
  file_byte-same d d' k [] h = refl
  file_byte-same d d' k (x ∷ xs) h = elim (Bool-cases (ltb k (512 * fs.sectors_per_cluster))) [
    | inl here ↦
        if_true _ _ here ∙ h x k (ground arith) (ground (arith, here)) ∙ sym (if_true _ _ here)
    | inr later ↦
        if_false _ _ later
        ∙ file_byte-same d d' (k - 512 * fs.sectors_per_cluster) xs
            (λ y k' there. h y k' (ground (arith, there)))
        ∙ sym (if_false _ _ later)
  ]

  written_first :
      (size start m remaining done k old : ℕ) (buf : ℕ → ℕ)
      → m ≡ min (size - start) remaining
      → k < size
      → written start m done buf k old ≡ written start remaining done buf k old
  written_first size start m remaining done k old buf is_m lt =
      ap (λ (q : Bool). if q then buf (done + (k - start)) else old) (ground (arith, is_m, lt))

  written_later :
      (size start m remaining done k old : ℕ) (buf : ℕ → ℕ)
      → m ≡ min (size - start) remaining
      → start ≤ size
      → size ≤ k
      → written 0 (remaining - m) (done + m) buf (k - size) old
        ≡ written start remaining done buf k old
  written_later size start m remaining done k old buf is_m le ge =
      elim (Bool-cases (leb start k && ltb k (start + remaining))) [
        | inl inside ↦
            let goes : (leb 0 (k - size) && ltb (k - size) (0 + (remaining - m))) ≡ true =
              ground (arith, is_m, le, ge, inside) in
            let index : done + m + (k - size - 0) ≡ done + (k - start) =
              ground (arith, is_m, le, ge, inside) in
            if_true _ _ goes ∙ ap buf index ∙ sym (if_true _ _ inside)
        | inr outside ↦
            let stays : (leb 0 (k - size) && ltb (k - size) (0 + (remaining - m))) ≡ false =
              ground (arith, is_m, le, ge, outside) in
            if_false _ _ stays ∙ sym (if_false _ _ outside)
      ]

  -- The changes of the first cluster and those of the rest of the chain.
  pub Changes-cons :
      (x start m remaining done : ℕ) (xs : List ℕ) (buf : ℕ → ℕ) (d d1 d' : State)
      → InArea disk v x
      → has x xs ≡ false
      → ((y : ℕ) → has y xs ≡ true → InArea disk v y)
      → m ≡ min (512 * fs.sectors_per_cluster - start) remaining
      → start ≤ 512 * fs.sectors_per_cluster
      → Puts disk (first_sector fs x * 512 + start) m done buf d d1
      → Changes xs 0 (remaining - m) (done + m) buf d1 d'
      → Changes (x ∷ xs) start remaining done buf d d'
  Changes-cons x start m remaining done xs buf d d1 d' in_x apart in_xs is_m le puts rest =
      let fits : start + m ≤ 512 * fs.sectors_per_cluster = omega (arith, is_m, le) in
      let own = Puts-own disk v x start m done buf d d1 in_x fits puts in
      let other = Puts-other disk v x start m done buf d d1 in_x fits puts in
      record {
        table = λ t lt.
            rest.table t lt ∙ Puts-SameTable disk v x start m done buf d d1 in_x fits puts t lt;
        bytes = λ k lt. elim (Bool-cases (ltb k (512 * fs.sectors_per_cluster))) [
          | inl here ↦
              if_true _ _ here
              ∙ rest.others x k in_x apart (ground (arith, here))
              ∙ own k
              ∙ written_first (512 * fs.sectors_per_cluster) start m remaining done k _ buf is_m
                  (ground (arith, here))
              ∙ ap (written start remaining done buf k) (sym (if_true _ _ here))
          | inr later ↦
              let j = k - 512 * fs.sectors_per_cluster in
              if_false _ _ later
              ∙ rest.bytes j (ground (arith, later, lt))
              ∙ ap (written 0 (remaining - m) (done + m) buf j) (
                  file_byte-same d d1 j xs
                    (λ y i h lt'. other y i (in_xs y h) (has_apart y x xs h apart) lt'))
              ∙ written_later (512 * fs.sectors_per_cluster) start m remaining done k _ buf is_m le
                  (ground (arith, later))
              ∙ ap (written start remaining done buf k) (sym (if_false _ _ later))
        ];
        others = λ y k in_y out lt.
            rest.others y k in_y (ground (arith, out)) lt
            ∙ other y k in_y (λ same. ground (arith, same, out, ==-refl y)) lt;
      }

  -- A cluster in front that is left alone.
  pub Changes-skip :
      (x start n done : ℕ) (xs : List ℕ) (buf : ℕ → ℕ) (d d' : State)
      → InArea disk v x
      → has x xs ≡ false
      → Changes xs start n done buf d d'
      → Changes (x ∷ xs) (512 * fs.sectors_per_cluster + start) n done buf d d'
  Changes-skip x start n done xs buf d d' in_x apart h = record {
    table = h.table;
    bytes = λ k lt. elim (Bool-cases (ltb k (512 * fs.sectors_per_cluster))) [
      | inl here ↦
          let before : (leb (512 * fs.sectors_per_cluster + start) k
                && ltb k (512 * fs.sectors_per_cluster + start + n))
              ≡ false =
            ground (arith, here) in
          if_true _ _ here
          ∙ h.others x k in_x apart (ground (arith, here))
          ∙ sym (if_true _ _ here)
          ∙ sym (if_false _ _ before)
      | inr later ↦
          if_false _ _ later
          ∙ h.bytes (k - 512 * fs.sectors_per_cluster) (ground (arith, later, lt))
          ∙ shifted (512 * fs.sectors_per_cluster) k _ (ground (arith, later))
          ∙ ap (written (512 * fs.sectors_per_cluster + start) n done buf k)
              (sym (if_false _ _ later))
    ];
    others = λ y k in_y out lt. h.others y k in_y (ground (arith, out)) lt;
  }
    where
      shifted :
          (size k old : ℕ)
          → size ≤ k
          → written start n done buf (k - size) old ≡ written (size + start) n done buf k old
      shifted size k old ge =
          ap (λ (q : Bool). if q then buf (done + (k - size - start)) else old) (ground (arith, ge))
          ∙ ap
              (λ (i : ℕ).
                if leb (size + start) k && ltb k (size + start + n) then buf (done + i) else old)
              (omega (arith, ge))
