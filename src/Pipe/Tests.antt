-- ===== src/Pipe/Tests.antt =====
-- Runs of the pipe of kernel/fs/pipefs.c.
use lumin.Prelude.{◌+◌, ◌≡◌, refl, [], ◌∷◌, arith}
use lumin.Pipe.{Pipe, read, read_waits, written, pipe_read, pipe_write}
use lumin.Pipe.Queue.{HoldsBytes, pipe_write-HoldsBytes, pipe_read-HoldsBytes, pipe_read-pipe_write}

-- Three bytes, across the end of the ring.
abbrev wrapped : Pipe
wrapped = record { buf = λ i. i + 1; read_pos = 4094; write_pos = 4097; readers = 1; writers = 1 }

wrapped-HoldsBytes : HoldsBytes (4095 ∷ 4096 ∷ 1 ∷ []) wrapped
wrapped-HoldsBytes = record {
  ring = (refl, (refl, (refl, refl)));
  fits = omega arith;
  small = omega arith;
}

pipe_write-HoldsBytes_example :
    (p' : Pipe) × (pipe_write (7 ∷ 8 ∷ []) wrapped ≡ written 2 p')
    × HoldsBytes (4095 ∷ 4096 ∷ 1 ∷ 7 ∷ 8 ∷ []) p'
pipe_write-HoldsBytes_example =
    pipe_write-HoldsBytes (7 ∷ 8 ∷ []) (4095 ∷ 4096 ∷ 1 ∷ []) (omega arith) wrapped-HoldsBytes

-- More than there are: the reader waits with all three.
pipe_read-HoldsBytes_example :
    (p' : Pipe) × (pipe_read 5 wrapped ≡ read_waits 3 (4095 ∷ 4096 ∷ 1 ∷ []) p') × HoldsBytes [] p'
pipe_read-HoldsBytes_example = pipe_read-HoldsBytes 5 (4095 ∷ 4096 ∷ 1 ∷ []) wrapped-HoldsBytes

abbrev empty : Pipe
empty = record wrapped { read_pos = 4095; write_pos = 4095 }

empty-HoldsBytes : HoldsBytes [] empty
empty-HoldsBytes = record { ring = refl; fits = omega arith; small = omega arith }

pipe_read-pipe_write_example :
    (p1 : Pipe) × (p2 : Pipe) × (pipe_write (7 ∷ 8 ∷ 9 ∷ []) empty ≡ written 3 p1)
    × (pipe_read 3 p1 ≡ read 3 (7 ∷ 8 ∷ 9 ∷ []) p2)
    × HoldsBytes [] p2
pipe_read-pipe_write_example =
    pipe_read-pipe_write (7 ∷ 8 ∷ 9 ∷ []) empty-HoldsBytes (omega arith) (omega arith)
