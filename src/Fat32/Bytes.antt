-- ===== src/Fat32/Bytes.antt =====
-- Four bytes of a sector as a number: `rd32` and `wr32` of kernel/fs/fat32.c.
use lumin.Prelude.{ℕ, ◌+◌, ◌%◌, ◌≤◌, ◌≡◌, ◌⊎◌, arith}
use lumin.Fat32.{Sector, rd32, wr32, u32_mod}

pub rd32-wr32 : (b : Sector) (p v : ℕ) → rd32 (wr32 b p v) p ≡ v % u32_mod
rd32-wr32 b p v = ground arith

pub rd32-wr32_apart :
    (b : Sector) (p q v : ℕ) → ((p + 4 ≤ q) ⊎ (q + 4 ≤ p)) → rd32 (wr32 b p v) q ≡ rd32 b q
rd32-wr32_apart b p q v h = ground arith
