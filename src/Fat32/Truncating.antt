-- ===== src/Fat32/Truncating.antt =====
-- `fat32_truncate` of kernel/fs/fat32.c: a file gets fewer clusters.
pub mod Fronts
pub mod Cutting
use lumin.Prelude.{
  ℕ, zero, suc, ◌+◌, ◌-◌, ◌*◌, ◌/◌, ◌%◌, ◌^◌, ◌<◌, ◌≤◌, ◌≡◌, ◌≢◌, refl, sym, ap, ◌∙◌, inl, inr,
  true, false, Option, none, some, arith, List, [], ◌∷◌, leb, ltb, ◌==◌, if◌then◌else◌, Bool-cases,
  ltb→lt, if_true, if_false, has, length, take, drop, ==→eq,
}
use mathlib.Core.Path.{subst}
use native.Mathlib.Nat.{div-lt_iff_lt-mul}
use lumin.Fat32.{
  Disk, Fs, u32_mod, fat_mod, fat32_eoc, is_link, fat_next_cluster, fat_set_cluster, fat_free_chain,
  or_else,
}
use lumin.Fat32.Links.{Works, IsFs, Sets, Sets-self, Sets-other, fat_set_cluster_lem}
use lumin.Fat32.Volume.{IsVolume}
use lumin.Fat32.Chains.{
  Chain, Holds, Frees, Chain-links, Chain-apart, fat_free_chain_lem, has_apart, link_small,
}
use lumin.Fat32.Files.{cluster_size}

-- The result: -1, or 0, with `*cluster`, `*size` and the disk.
pub data Truncation (S : Type 0) : Type 0 where
  no_fuel : Truncation S
  fails : ℕ → ℕ → S → Truncation S
  cut_to : ℕ → ℕ → S → Truncation S

module _ (disk : Disk) where
  open disk use {State}

  -- `for (uint32_t i = 0; i < keep_clusters; i++)`, which gives `prev` and `cl`, or -1.
  pub keep_loop : ℕ → Fs → ℕ → ℕ → State → Option (ℕ × ℕ)
  keep_loop zero fs prev cl d = some (prev, cl)
  keep_loop (suc n) fs prev cl d =
      let rest = keep_loop n fs cl (fat_next_cluster disk fs cl d) d in
      if is_link cl then rest else none

  -- The state after a call that is given a chain to free.
  abbrev pub after_free : Option State → (State → Truncation State) → Truncation State
  after_free none rest = no_fuel
  after_free (some d) rest = rest d

  abbrev pub cut_after : ℕ → Fs → ℕ → ℕ → ℕ → State → Option (ℕ × ℕ) → Truncation State
  cut_after fuel fs cluster size new_size d none = fails cluster size d
  cut_after fuel fs cluster size new_size d (some (prev, cl)) =
      after_free (fat_free_chain disk fuel fs cl d) (λ d'.
        cut_to cluster (new_size % u32_mod) (
          if is_link prev then or_else disk (fat_set_cluster disk fs prev fat32_eoc d') d' else d'))

  pub fat32_truncate : ℕ → Fs → ℕ → ℕ → ℕ → State → Truncation State
  fat32_truncate fuel fs cluster size new_size d =
      let keep_clusters = (new_size + cluster_size fs - 1) % 2 ^ 64 / cluster_size fs % u32_mod in
      if leb size new_size
      then cut_to cluster size d
      else if new_size == 0
      then after_free (fat_free_chain disk fuel fs cluster d) (cut_to 0 0)
      else cut_after fuel fs cluster size new_size d (keep_loop keep_clusters fs 0 cluster d)
