-- ===== src/Libc.antt =====
-- The C library, libc/src: the block and string functions, the reading of numbers and the allocator.
pub mod Mem
pub mod Sbrk
pub mod Malloc
pub mod Str
pub mod Strtol
mod Tests
