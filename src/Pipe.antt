-- ===== src/Pipe.antt =====
-- The pipe of kernel/fs/pipefs.c: a ring of 4096 bytes.
-- The positions are `int`s that only grow, and no code sets them back: the increment that would bring one
-- to 2 ^ 31 overflows, to which C gives no meaning. A call that comes to it ends there as `overflows`.
-- A call that waits (`sti; hlt; cli`) stops here with what it has done; after the interrupt it runs on
-- from there, on the pipe as it then is.
pub mod Queue
mod Tests
use lumin.Prelude.{
  ℕ, zero, suc, ◌+◌, ◌-◌, ◌%◌, ◌^◌, Bool, not, ◌&&◌, List, [], ◌∷◌, ltb, ◌==◌, if◌then◌else◌,
  update, length,
}

abbrev pub pipe_buf_size : ℕ
pipe_buf_size = 4096

-- `struct pipe_inode`, less `refcount`, which nothing reads.
pub record Pipe : Type 0 where
  pub buf : ℕ → ℕ
  pub read_pos : ℕ
  pub write_pos : ℕ
  pub readers : ℕ
  pub writers : ℕ

-- How a stretch of `pipe_read` ends: with the result and the bytes, waiting with `total` and those,
-- or in the overflow of `read_pos`.
pub data Read : Type 0 where
  read : ℕ → List ℕ → Pipe → Read
  read_waits : ℕ → List ℕ → Pipe → Read
  read_overflows : Read

-- How a stretch of `pipe_write` ends: with `total`, with -1, waiting with `total` and the bytes left,
-- or in the overflow of `write_pos`.
pub data Write : Type 0 where
  written : ℕ → Pipe → Write
  refused : Pipe → Write
  write_waits : ℕ → List ℕ → Pipe → Write
  write_overflows : Write

-- `position++` on an `int` that is not negative has a value.
abbrev pub can_grow : ℕ → Bool
can_grow position = ltb (position + 1) (2 ^ 31)

-- One byte is taken out.
abbrev pub advance : Pipe → Pipe
advance p = record p { read_pos = p.read_pos + 1 }

abbrev pub with_byte : ℕ → Read → Read
with_byte c (read n cs p) = read n (c ∷ cs) p
with_byte c (read_waits n cs p) = read_waits n (c ∷ cs) p
with_byte c read_overflows = read_overflows

-- `while (total < count)`, where `left` is `count - total`.
read_loop : ℕ → ℕ → Pipe → Read
read_loop zero total p = read total [] p
read_loop (suc left) total p =
    let rest = read_loop left (total + 1) (advance p) in
    if not (p.read_pos == p.write_pos)
    then if can_grow p.read_pos
      then with_byte (p.buf (p.read_pos % pipe_buf_size)) rest
      else read_overflows
    else if (p.writers == 0) && ltb 0 total
    then read total [] p
    else (if p.writers == 0 then read 0 [] p else read_waits total [] p)

pub pipe_read : ℕ → Pipe → Read
unfolding read_loop
pipe_read count p = read_loop count 0 p

-- One byte is put in.
abbrev pub store : ℕ → Pipe → Pipe
store c p = record p {
  buf = update p.buf (p.write_pos % pipe_buf_size) c;
  write_pos = p.write_pos + 1;
}

-- `while (total < count)` over the bytes that are left.
write_loop : List ℕ → ℕ → Pipe → Write
write_loop [] total p = written total p
write_loop (c ∷ cs) total p =
    let rest = write_loop cs (total + 1) (store c p) in
    if ltb (p.write_pos - p.read_pos) pipe_buf_size
    then if can_grow p.write_pos then rest else write_overflows
    else (if p.readers == 0 then refused p else write_waits total (c ∷ cs) p)

pub pipe_write : List ℕ → Pipe → Write
unfolding write_loop
pipe_write cs p = write_loop cs 0 p
