-- ===== src/Tmpfs/Files.antt =====
-- What is written to a file of kernel/fs/tmpfs.c is read back.
use lumin.Prelude.{
  ℕ, ◌+◌, ◌-◌, ◌%◌, ◌<◌, ◌≡◌, refl, ap, ◌∙◌, inl, inr, Bool, true, false, not, Option, none, some,
  List, [], ◌∷◌, arith, ltb, leb, if◌then◌else◌, update, length, Bool-cases, Option-cases,
}
use lumin.Tmpfs.{
  File, tmpfs_read, tmpfs_write, slice, put_bytes, ensure, finish_write, grown, u64_mod, carry,
}

put_bytes-before : (i j : ℕ) (cs : List ℕ) (d : ℕ → ℕ) → j < i → put_bytes i cs d j ≡ d j
unfolding put_bytes
put_bytes-before i j [] d l = refl
put_bytes-before i j (c ∷ cs) d l =
    put_bytes-before (i + 1) j cs (update d i c) (omega arith) ∙ ground arith

slice-put_bytes : (i : ℕ) (cs : List ℕ) (d : ℕ → ℕ) → slice (put_bytes i cs d) i (length cs) ≡ cs
unfolding put_bytes
slice-put_bytes i [] d = refl
slice-put_bytes i (c ∷ cs) d =
    let here : put_bytes (i + 1) cs (update d i c) i ≡ c =
      put_bytes-before (i + 1) i cs (update d i c) (omega arith) ∙ ground arith in
    rw (here, slice-put_bytes (i + 1) cs (update d i c)) refl

-- After room has been made there is a buffer, and the file is otherwise as before.
ensure_lem :
    (block : Option (ℕ → ℕ)) (needed keep : ℕ) (f g : File)
    → 0 < needed
    → (f.buffer ≡ none → f.capacity ≡ 0)
    → ensure block needed keep f ≡ some g
    → (d : ℕ → ℕ) × (g.buffer ≡ some d) × (g.is_file ≡ f.is_file)
unfolding ensure
ensure_lem block needed keep f g p ok h = elim (Bool-cases (leb needed f.capacity)) [
  | inl fits ↦
      let same : f ≡ g = from_some (rw fits at h) in
      elim (Option-cases f.buffer) [
        | inl missing ↦ let no_room = ok missing in absurd (ground arith)
        | inr (d, e) ↦ rw (← same) (d, e, refl)
      ]
  | inr grows ↦ elim (Bool-cases (ltb (grown f.capacity needed) needed)) [
    | inl too_big ↦ let never = rw (grows, too_big) at h in cc
    | inr big ↦
        made block f g (grown f.capacity needed) (carry f.buffer keep) (rw (grows, big) at h)
  ]
]
  where
    from_some : {a b : File} → some a ≡ some b → a ≡ b
    from_some e = cc

    made :
        (block : Option (ℕ → ℕ)) (f g : File) (cap : ℕ) (mix : (ℕ → ℕ) → ℕ → ℕ)
        → (elim block [
          | none ↦ none
          | some fresh ↦ some (record f { buffer = some (mix fresh); capacity = cap })
        ])
          ≡ some g
        → (d : ℕ → ℕ) × (g.buffer ≡ some d) × (g.is_file ≡ f.is_file)
    made none f g cap mix e = cc
    made (some fresh) f g cap mix e = let same = from_some e in rw (← same) (mix fresh, refl, refl)

-- The size after a write, and the bytes that a read of as many at the same place gives.
read_back :
    (offset size : ℕ) (bytes : List ℕ) (d : ℕ → ℕ)
    → offset + length bytes < u64_mod
    → 0 < length bytes
    → let needed = (offset + length bytes) % u64_mod in
      let size' = if ltb size needed then needed else size in
      (if leb size' offset
        then some []
        else some (
            slice
              (put_bytes offset bytes d)
              offset
              (if ltb (length bytes) (size' - offset) then length bytes else size' - offset)))
      ≡ some bytes
read_back offset size bytes d fits more =
    let needed = (offset + length bytes) % u64_mod in
    let size' = if ltb size needed then needed else size in
    let inside : leb size' offset ≡ false = ground arith in
    let all : (if ltb (length bytes) (size' - offset) then length bytes else size' - offset)
        ≡ length bytes =
      ground arith in
    rw (inside, all) (ap (λ (l : List ℕ). some l) (slice-put_bytes offset bytes d))

finish_lem :
    (offset : ℕ) (bytes : List ℕ) (f : File) (d : ℕ → ℕ)
    → offset + length bytes < u64_mod
    → 0 < length bytes
    → f.buffer ≡ some d
    → f.is_file ≡ true
    → tmpfs_read offset (length bytes) (finish_write offset bytes f) ≡ some bytes
unfolding tmpfs_read finish_write
finish_lem offset bytes f d fits some_bytes e file =
    rw (file, e) (read_back offset f.size bytes d fits some_bytes)

-- A write that succeeds has a file with room for it.
write_lem :
    (is : Bool) (o : Option File) (offset : ℕ) (bytes : List ℕ) (g : File)
    → (if not is
        then none
        else elim o [ none ↦ none | some f ↦ some (finish_write offset bytes f) ])
      ≡ some g
    → (is ≡ true) × ((f : File) × (o ≡ some f) × (finish_write offset bytes f ≡ g))
write_lem false o offset bytes g e = cc
write_lem true none offset bytes g e = cc
write_lem true (some f) offset bytes g e = (refl, (f, refl, from_some e))
  where
    from_some : {a b : File} → some a ≡ some b → a ≡ b
    from_some e = cc

-- On a file that has a capacity of 0 if it has no buffer, what `tmpfs_write` has written at an
-- offset, one byte or more and with an end that does not wrap round, `tmpfs_read` at that offset
-- reads back.
pub tmpfs_read-tmpfs_write :
    (block : Option (ℕ → ℕ)) (offset : ℕ) (bytes : List ℕ) (f g : File)
    → offset + length bytes < u64_mod
    → 0 < length bytes
    → (f.buffer ≡ none → f.capacity ≡ 0)
    → tmpfs_write block offset bytes f ≡ some g
    → tmpfs_read offset (length bytes) g ≡ some bytes
unfolding tmpfs_write
tmpfs_read-tmpfs_write block offset bytes f g fits some_bytes ok h =
    let needed = (offset + length bytes) % u64_mod in
    let (file, (f1, made, same)) =
      write_lem f.is_file (ensure block needed f.size f) offset bytes g h in
    let (d, has_buffer, kind) = ensure_lem block needed f.size f f1 (omega arith) ok made in
    rw (← same) (finish_lem offset bytes f1 d fits some_bytes has_buffer (kind ∙ file))
