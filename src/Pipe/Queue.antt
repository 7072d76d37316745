-- ===== src/Pipe/Queue.antt =====
-- The pipe of kernel/fs/pipefs.c as a queue of at most 4096 bytes.
use mathlib.Core.List.{append_assoc, append-nil}
use lumin.Prelude.{
  ℕ, zero, suc, ◌+◌, ◌-◌, ◌%◌, ◌^◌, ◌≤◌, ◌<◌, ◌≡◌, refl, sym, ap, ◌∙◌, ◌≢◌, inl, inr, true, false,
  ◌&&◌, List, [], ◌∷◌, ◌++◌, arith, ltb, leb, ◌==◌, if◌then◌else◌, update, length, take, drop,
  length-append, Bool-cases,
}
use lumin.Pipe.{
  Pipe, Read, read, read_waits, Write, written, refused, write_waits, pipe_read, read_loop,
  pipe_write, write_loop, pipe_buf_size, can_grow, advance, store, with_byte,
}

-- From position `r` to `w` the ring holds the bytes `xs`.
abbrev pub Between : (ℕ → ℕ) → ℕ → ℕ → List ℕ → Type 0
Between b r w [] = w ≡ r
Between b r w (x ∷ xs) = (b (r % pipe_buf_size) ≡ x) × Between b (r + 1) w xs

-- The pipe holds the bytes `xs`, first in first, and its positions have not overflowed.
pub record HoldsBytes (xs : List ℕ) (p : Pipe) : Type 0 where
  pub ring : Between p.buf p.read_pos p.write_pos xs
  pub fits : length xs ≤ pipe_buf_size
  pub small : p.write_pos < 2 ^ 31

Between-length : (b : ℕ → ℕ) (r w : ℕ) (xs : List ℕ) → Between b r w xs → w ≡ r + length xs
Between-length b r w [] h = omega (arith, h)
Between-length b r w (x ∷ xs) h = omega (arith, Between-length b (r + 1) w xs h.1)

Between-store :
    (b : ℕ → ℕ) (r w y : ℕ) (xs : List ℕ)
    → w < r + pipe_buf_size
    → Between b r w xs
    → Between (update b (w % pipe_buf_size) y) r (w + 1) (xs ++ y ∷ [])
Between-store b r w y [] lt h = (ground (arith, h), omega (arith, h))
Between-store b r w y (x ∷ xs) lt h =
    let long = Between-length b (r + 1) w xs h.1 in
    let apart : r % pipe_buf_size ≢ w % pipe_buf_size = omega arith in
    (ground (arith, h.0), Between-store b (r + 1) w y xs (omega arith) h.1)

HoldsBytes-store :
    (y : ℕ) (xs : List ℕ) {p : Pipe}
    → length xs < pipe_buf_size
    → p.write_pos + 1 < 2 ^ 31
    → HoldsBytes xs p
    → HoldsBytes (xs ++ y ∷ []) (store y p)
HoldsBytes-store y xs {p} lt low h =
    let long = Between-length p.buf p.read_pos p.write_pos xs h.ring in
    record {
      ring = Between-store p.buf p.read_pos p.write_pos y xs (omega arith) h.ring;
      fits = omega (arith, length-append xs (y ∷ []));
      small = low;
    }

-- What `pipe_write` answers with room for `room` bytes.
abbrev pub write_answer : ℕ → ℕ → List ℕ → ℕ → Pipe → Write
write_answer readers room ys total p =
    if leb (length ys) room
    then written (total + length ys) p
    else (if readers == 0 then refused p else write_waits (total + room) (drop room ys) p)

write_answer_nil :
    (room total : ℕ) (p : Pipe) → written total p ≡ write_answer p.readers room [] total p
write_answer_nil room total p =
    let all_fit : leb 0 room ≡ true = ground arith in
    let same : total + 0 ≡ total = omega arith in rw (all_fit, same) refl

write_answer_full :
    (y total : ℕ) (ys : List ℕ) (p : Pipe)
    → (if p.readers == 0 then refused p else write_waits total (y ∷ ys) p)
      ≡ write_answer p.readers 0 (y ∷ ys) total p
write_answer_full y total ys p =
    let too_long : leb (length (y ∷ ys)) 0 ≡ false = ground arith in
    let same : total + 0 ≡ total = omega arith in rw (too_long, same) refl

write_answer_cons :
    (readers room total y : ℕ) (ys : List ℕ) (p : Pipe)
    → write_answer readers room ys (total + 1) p ≡ write_answer readers (suc room) (y ∷ ys) total p
write_answer_cons readers room total y ys p =
    let step : leb (suc (length ys)) (suc room) ≡ leb (length ys) room = ground arith in
    let count : total + 1 + length ys ≡ total + suc (length ys) = omega arith in
    let free : total + 1 + room ≡ total + suc room = omega arith in rw (step, count, free) refl

write_loop_lem :
    (ys : List ℕ) (total room : ℕ) (xs : List ℕ) {p : Pipe}
    → room ≡ pipe_buf_size - length xs
    → p.write_pos + length ys < 2 ^ 31
    → HoldsBytes xs p
    → (p' : Pipe) × (write_loop ys total p ≡ write_answer p.readers room ys total p')
      × HoldsBytes (xs ++ take room ys) p'
unfolding write_loop
write_loop_lem [] total zero xs {p} e low h = (p, write_answer_nil 0 total p, rw (append-nil xs) h)
write_loop_lem [] total (suc room) xs {p} e low h =
    (p, write_answer_nil (suc room) total p, rw (append-nil xs) h)
write_loop_lem (y ∷ ys) total zero xs {p} e low h =
    let long = Between-length p.buf p.read_pos p.write_pos xs h.ring in
    let full : ltb (p.write_pos - p.read_pos) pipe_buf_size ≡ false = ground arith in
    rw full (p, write_answer_full y total ys p, rw (append-nil xs) h)
write_loop_lem (y ∷ ys) total (suc room) xs {p} e low h =
    let long = Between-length p.buf p.read_pos p.write_pos xs h.ring in
    let space : ltb (p.write_pos - p.read_pos) pipe_buf_size ≡ true = ground arith in
    let grows : can_grow p.write_pos ≡ true = ground arith in
    let less : room ≡ pipe_buf_size - length (xs ++ y ∷ []) =
      omega (arith, length-append xs (y ∷ [])) in
    let (p', run, held) =
      write_loop_lem ys (total + 1) room (xs ++ y ∷ []) less (omega arith)
        (HoldsBytes-store y xs (omega arith) (omega arith) h) in
    rw (space, grows)
      (
        p',
        run ∙ write_answer_cons p.readers room total y ys p',
        rw (append_assoc xs (y ∷ []) (take room ys)) at held,
      )

-- On a pipe that holds `xs`, whose `write_pos` and the bytes `ys` together stay below 2 ^ 31 (it counts all
-- that has been written since the pipe was made), `pipe_write` puts as many of the bytes `ys` behind them as there is room
-- for up to 4096: all, and it returns their number; or else it returns -1 if there is no reader, and
-- waits with the bytes that are left if there is one.
pub pipe_write-HoldsBytes :
    (ys xs : List ℕ) {p : Pipe}
    → p.write_pos + length ys < 2 ^ 31
    → HoldsBytes xs p
    → (p' : Pipe) × (pipe_write ys p ≡ write_answer p.readers (pipe_buf_size - length xs) ys 0 p')
      × HoldsBytes (xs ++ take (pipe_buf_size - length xs) ys) p'
unfolding pipe_write
pipe_write-HoldsBytes ys xs low h = write_loop_lem ys 0 (pipe_buf_size - length xs) xs refl low h

HoldsBytes-advance :
    (x : ℕ) (xs : List ℕ) {p : Pipe} → HoldsBytes (x ∷ xs) p → HoldsBytes xs (advance p)
HoldsBytes-advance x xs h = record {
  ring = h.ring.1;
  fits = omega (arith, h.fits);
  small = h.small;
}

-- What `pipe_read` answers where the bytes `xs` are in the pipe.
abbrev pub read_answer : ℕ → ℕ → List ℕ → ℕ → Pipe → Read
read_answer writers count xs total p =
    if leb count (length xs)
    then read (total + count) (take count xs) p
    else (if writers == 0
        then read (total + length xs) xs p
        else read_waits (total + length xs) xs p)

read_answer_zero :
    (xs : List ℕ) (total : ℕ) (p : Pipe) → read total [] p ≡ read_answer p.writers 0 xs total p
read_answer_zero xs total p =
    let none_asked : leb 0 (length xs) ≡ true = ground arith in
    let same : total + 0 ≡ total = omega arith in rw (none_asked, same) refl

-- Both tests of `writers` end a read with what it has.
read_answer_empty :
    (left total : ℕ) (p : Pipe)
    → (if (p.writers == 0) && ltb 0 total
        then read total [] p
        else (if p.writers == 0 then read 0 [] p else read_waits total [] p))
      ≡ read_answer p.writers (suc left) [] total p
read_answer_empty left total p =
    let more : leb (suc left) 0 ≡ false = ground arith in
    let same : total + 0 ≡ total = omega arith in
    elim (Bool-cases (p.writers == 0)) [
      | inr open_end ↦ rw (more, same, open_end) refl
      | inl shut ↦ elim (Bool-cases (ltb 0 total)) [
        | inl some_read ↦ rw (more, same, shut, some_read) refl
        | inr none_read ↦
            let zero_read : total ≡ 0 = ground arith in
            rw (more, same, shut, none_read) (ap (λ (n : ℕ). read n [] p) (sym zero_read))
      ]
    ]

read_answer_cons :
    (writers left total x : ℕ) (xs : List ℕ) (p : Pipe)
    → with_byte x (read_answer writers left xs (total + 1) p)
      ≡ read_answer writers (suc left) (x ∷ xs) total p
read_answer_cons writers left total x xs p =
    let step : leb (suc left) (suc (length xs)) ≡ leb left (length xs) = ground arith in
    let count : total + 1 + left ≡ total + suc left = omega arith in
    let all : total + 1 + length xs ≡ total + suc (length xs) = omega arith in
    elim (Bool-cases (leb left (length xs))) [
      | inl enough ↦ rw (step, enough, count) refl
      | inr short ↦ elim (Bool-cases (writers == 0)) [
        | inl shut ↦ rw (step, short, shut, all) refl
        | inr open_end ↦ rw (step, short, open_end, all) refl
      ]
    ]

read_loop_lem :
    (left total : ℕ) (xs : List ℕ) {p : Pipe}
    → HoldsBytes xs p
    → (p' : Pipe) × (read_loop left total p ≡ read_answer p.writers left xs total p')
      × HoldsBytes (drop left xs) p'
unfolding read_loop
read_loop_lem zero total xs {p} h = (p, read_answer_zero xs total p, h)
read_loop_lem (suc left) total [] {p} h =
    let empty : (p.read_pos == p.write_pos) ≡ true = ground (arith, h.ring) in
    rw empty (p, read_answer_empty left total p, h)
read_loop_lem (suc left) total (x ∷ xs) {p} h =
    let long = Between-length p.buf p.read_pos p.write_pos (x ∷ xs) h.ring in
    let some_left : (p.read_pos == p.write_pos) ≡ false = ground arith in
    let grows : can_grow p.read_pos ≡ true = ground (arith, h.small) in
    let (p', run, held) = read_loop_lem left (total + 1) xs (HoldsBytes-advance x xs h) in
    rw (some_left, grows, h.ring.0)
      (p', ap (with_byte x) run ∙ read_answer_cons p.writers left total x xs p', held)

-- On a pipe that holds `xs`, with a `write_pos` below 2 ^ 31, `pipe_read` takes bytes from the front: `count` of them, if there are as
-- many; or else all of them, and then it returns their number if there is no writer, and waits with them
-- if there is one. The others stay, in their order.
pub pipe_read-HoldsBytes :
    (count : ℕ) (xs : List ℕ) {p : Pipe}
    → HoldsBytes xs p
    → (p' : Pipe) × (pipe_read count p ≡ read_answer p.writers count xs 0 p')
      × HoldsBytes (drop count xs) p'
unfolding pipe_read
pipe_read-HoldsBytes count xs h = read_loop_lem count 0 xs h

take_all : (ys : List ℕ) (n : ℕ) → length ys ≤ n → take n ys ≡ ys
take_all [] zero l = refl
take_all [] (suc n) l = refl
take_all (y ∷ ys) zero l = absurd (omega arith)
take_all (y ∷ ys) (suc n) l = ap (λ (r : List ℕ). y ∷ r) (take_all ys n (omega arith))

take-length : (ys : List ℕ) → take (length ys) ys ≡ ys
take-length ys = take_all ys (length ys) (omega arith)

drop-length : (ys : List ℕ) → drop (length ys) ys ≡ []
drop-length [] = refl
drop-length (y ∷ ys) = drop-length ys

-- Up to 4096 bytes that `pipe_write` puts into an empty pipe, with a `write_pos` that they do not bring
-- to 2 ^ 31, `pipe_read` of as many takes out again:
-- the same bytes in the same order, and the pipe is empty afterwards.
pub pipe_read-pipe_write :
    (ys : List ℕ) {p : Pipe}
    → HoldsBytes [] p
    → length ys ≤ pipe_buf_size
    → p.write_pos + length ys < 2 ^ 31
    → (p1 : Pipe) × (p2 : Pipe) × (pipe_write ys p ≡ written (length ys) p1)
      × (pipe_read (length ys) p1 ≡ read (length ys) ys p2)
      × HoldsBytes [] p2
pipe_read-pipe_write ys {p} h l low =
    let (p1, wrote, held) = pipe_write-HoldsBytes ys [] low h in
    let (p2, took, left) =
      pipe_read-HoldsBytes (length ys) ys (rw (take_all ys pipe_buf_size l) at held) in
    let all_fit : leb (length ys) pipe_buf_size ≡ true = ground arith in
    let same : 0 + length ys ≡ length ys = omega arith in
    let enough : leb (length ys) (length ys) ≡ true = ground arith in
    (
      p1,
      p2,
      rw (all_fit, same) at wrote,
      rw (enough, same, take-length ys) at took,
      rw (drop-length ys) at left,
    )
