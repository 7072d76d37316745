-- ===== src/Fat32/Alloc.antt =====
-- The search for a free cluster: `fat_alloc_cluster` of kernel/fs/fat32.c.
use lumin.Prelude.{
  ℕ, zero, suc, ◌+◌, ◌*◌, ◌/◌, ◌%◌, ◌<◌, ◌≤◌, ◌≡◌, refl, sym, ap, ◌∙◌, ◌≢◌, ◌⊎◌, inl, inr, some,
  arith, leb, ltb, ◌==◌, Bool-cases, ==→eq, if_cases,
}
use lumin.Fat32.{
  Disk, Sector, Fs, Search, go_on, fails, finds, u32_mod, fat_mod, fat32_eoc, rd32, wr32,
  fat_next_cluster, search_sector, found_at, searched, alloc_loop, fat_alloc_cluster,
}
use lumin.Fat32.Links.{Works, IsFs, Sets, entry_lem, write_entry}

module _ (disk : Disk) (w : Works disk) {fs : Fs} (m : IsFs fs) where
  open disk use {State, read, write}

  -- No cluster from `lo` on and below `hi` is free.
  abbrev pub NoneFree : State → ℕ → ℕ → Type 0
  NoneFree d lo hi = (e : ℕ) → lo ≤ e → e < hi → 2 ≤ e → fat_next_cluster disk fs e d ≢ 0

  NoneFree-step :
      (d : State) (lo next hi : ℕ)
      → next ≡ lo + 1
      → (2 ≤ lo → fat_next_cluster disk fs lo d ≢ 0)
      → NoneFree d next hi
      → NoneFree d lo hi
  NoneFree-step d lo next hi e1 here rest e le lt two = elim (Bool-cases (e == lo)) [
    | inl same ↦ λ zero_entry.
        let eq = ==→eq _ _ same in
        here (omega arith) (ap (λ (n : ℕ). fat_next_cluster disk fs n d) (sym eq) ∙ zero_entry)
    | inr other ↦ rest e (ground (arith, other, e1)) lt two
  ]

  -- The lowest free cluster from `lo` on is taken, and its entry alone has changed.
  pub record Takes (d : State) (lo q : ℕ) (d' : State) : Type 0 where
    pub from : lo ≤ q
    pub usable : 2 ≤ q
    pub inside : q < fs.total_clusters + 2
    pub was_free : fat_next_cluster disk fs q d ≡ 0
    pub lowest : NoneFree d lo q
    pub sets : Sets disk w m q fat32_eoc d d'

  -- How a search that starts at the entry `lo` of a sector ends, when the sector ends at `hi`.
  abbrev Ends : State → ℕ → ℕ → Search State → Type 0
  Ends d lo hi go_on = NoneFree d lo hi
  Ends d lo hi fails = NoneFree d lo (fs.total_clusters + 2)
  Ends d lo hi (finds q d') = Takes d lo q d'

  Ends-step :
      (d : State) (lo next hi : ℕ) (r : Search State)
      → next ≡ lo + 1
      → (2 ≤ lo → fat_next_cluster disk fs lo d ≢ 0)
      → Ends d next hi r
      → Ends d lo hi r
  Ends-step d lo next hi go_on e1 here rest = NoneFree-step d lo next hi e1 here rest
  Ends-step d lo next hi fails e1 here rest = NoneFree-step d lo next _ e1 here rest
  Ends-step d lo next hi (finds q d') e1 here rest = record {
    from = omega (arith, rest.from, e1);
    usable = rest.usable;
    inside = rest.inside;
    was_free = rest.was_free;
    lowest = NoneFree-step d lo next q e1 here rest.lowest;
    sets = rest.sets;
  }

  -- The cluster `c` is free: its sector is written, and the search ends.
  found_lem :
      (c hi : ℕ) (b : Sector) (d : State) (sector p : ℕ)
      → sector ≡ fs.fat_start + c / 128
      → p ≡ 4 * (c % 128)
      → 2 ≤ c
      → c < fs.total_clusters + 2
      → read d (fs.fat_start + c / 128) ≡ some b
      → rd32 b p % fat_mod ≡ 0
      → Ends d c hi (found_at disk c (write d sector (wr32 b p fat32_eoc)))
  found_lem c hi b d sector p at_sector at_byte two inside old free =
      let h : c < fat_mod = omega (arith, m.clusters) in
      let (d', done, new) =
        w.writes d (fs.fat_start + c / 128) (wr32 b (4 * (c % 128)) fat32_eoc) in
      rw (at_sector, at_byte, done)
        record {
          from = omega arith;
          usable = two;
          inside = inside;
          was_free =
              entry_lem disk w m c d h old
              ∙ ap (λ (n : ℕ). rd32 b n % fat_mod) (sym at_byte)
              ∙ free;
          lowest = λ e le lt. omega arith;
          sets = write_entry disk w m c fat32_eoc d d' b h old new;
        }

  -- The entries from `i` on of the sector `s` of the table.
  search_lem :
      (left i s : ℕ) (b : Sector) (d : State)
      → i + left ≡ 128
      → s < fs.sectors_per_fat
      → read d (fs.fat_start + s) ≡ some b
      → Ends d (s * 128 + i) (s * 128 + 128) (search_sector disk fs left i s b d)
  unfolding search_sector
  search_lem zero i s b d n hs old = λ e le lt. omega arith
  search_lem (suc left) i s b d n hs old =
      let c = s * 128 + i in
      let Q = Ends d c (s * 128 + 128) in
      let cluster = (s * (fs.bytes_per_sector / 4) + i) % u32_mod in
      let here : cluster ≡ c =
        ap (λ (n : ℕ). (s * (n / 4) + i) % u32_mod) m.sector_size ∙ omega (arith, m.table, hs, n) in
      let h : c < fat_mod = omega (arith, m.table) in
      let old' : read d (fs.fat_start + c / 128) ≡ some b = ap (read d) (omega arith) ∙ old in
      let rest = search_lem left (i + 1) s b d (omega (arith, n)) hs old in
      let small : (fs.total_clusters + 2) % u32_mod ≡ fs.total_clusters + 2 =
        omega (arith, m.clusters) in
      let entry_zero : fat_next_cluster disk fs c d ≡ 0 → rd32 b (4 * i) % fat_mod ≡ 0 = λ e.
        ap (λ (p : ℕ). rd32 b p % fat_mod) (omega (arith, n))
        ∙ sym (entry_lem disk w m c d h old')
        ∙ e in
      if_cases Q (ltb cluster 2)
        (λ low. Ends-step d _ _ _ _ (omega arith) (λ two. ground (arith, low, here, two)) rest)
        (λ high.
          if_cases Q (leb ((fs.total_clusters + 2) % u32_mod) cluster)
            (λ past. λ e le lt. ground (arith, past, here, small, le, lt))
            (λ inside.
              if_cases Q (rd32 b (4 * i) % fat_mod == 0)
                (λ free. rw (here) (
                  found_lem c _ b d _ (4 * i) (omega (arith, hs, n, m.start, m.table)) (omega arith)
                    (ground (arith, high, here)) (ground (arith, inside, here, small)) old'
                    (==→eq _ _ free)))
                (λ used.
                  Ends-step d _ _ _ _ (omega arith)
                    (λ two is_free. ground (arith, used, entry_zero is_free)) rest)))

  -- No cluster from `lo` on that the table has an entry for is free.
  abbrev pub Full : State → ℕ → Type 0
  Full d lo =
      (e : ℕ)
      → lo ≤ e
      → e < fs.total_clusters + 2
      → e < fs.sectors_per_fat * 128
      → 2 ≤ e
      → fat_next_cluster disk fs e d ≢ 0

  -- What an allocation that begins at `lo` gives: a cluster, or `FAT32_EOC` when there is none.
  abbrev pub Allocates : State → ℕ → ℕ × State → Type 0
  Allocates d lo r = Takes d lo (r.0) (r.1) ⊎ ((r ≡ (fat32_eoc, d)) × Full d lo)

  -- A sector with no free entry, and the rest of the table.
  skip_sector :
      (d : State) (lo mid : ℕ) (r : ℕ × State)
      → lo ≤ mid
      → NoneFree d lo mid
      → Allocates d mid r
      → Allocates d lo r
  skip_sector d lo mid r le none_here (inl takes) = inl record {
    from = omega (arith, takes.from);
    usable = takes.usable;
    inside = takes.inside;
    was_free = takes.was_free;
    lowest = λ e le' lt. elim (Bool-cases (ltb e mid)) [
      | inl below ↦ none_here e le' (ground (arith, below))
      | inr above ↦ takes.lowest e (ground (arith, above)) lt
    ];
    sets = takes.sets;
  }
  skip_sector d lo mid r le none_here (inr (ends, full)) = inr (
    ends,
    λ e le' lt in_table. elim (Bool-cases (ltb e mid)) [
      | inl below ↦ none_here e le' (ground (arith, below))
      | inr above ↦ full e (ground (arith, above)) lt in_table
    ],
  )

  searched_lem :
      (s : ℕ) (d : State) (rest : ℕ × State) (r : Search State)
      → Allocates d ((s + 1) * 128) rest
      → Ends d (s * 128 + 0) (s * 128 + 128) r
      → Allocates d (s * 128) (searched disk d rest r)
  searched_lem s d rest go_on h ends =
      skip_sector d _ _ rest (omega arith)
        (λ e le lt. ends e (omega (arith, le)) (omega (arith, lt))) h
  searched_lem s d rest fails h ends = inr (refl, λ e le lt in_table. ends e (omega (arith, le)) lt)
  searched_lem s d rest (finds q d') h ends =
      skip_sector d _ (s * 128 + 0) (q, d') (omega arith) (λ e le lt. omega (arith, le, lt))
        (inl ends)

  loop_lem :
      (left s : ℕ) (d : State)
      → s + left ≡ fs.sectors_per_fat
      → Allocates d (s * 128) (alloc_loop disk fs left s d)
  unfolding alloc_loop
  loop_lem zero s d n = inr (refl, λ e le lt in_table. omega (arith, le, in_table, n))
  loop_lem (suc left) s d n =
      let (b, old) = w.reads d (fs.fat_start + s) in
      let at : (fs.fat_start + s) % u32_mod ≡ fs.fat_start + s =
        omega (arith, n, m.start, m.table) in
      rw (at, old)
        (searched_lem s d _ _ (loop_lem left (s + 1) d (omega (arith, n))) (
          search_lem (fs.bytes_per_sector / 4) 0 s b d (ap (λ (n : ℕ). 0 + n / 4) m.sector_size)
            (omega (arith, n)) old))

  -- On a volume with sectors of 512 bytes, a table that begins by sector 1024, at most 0x0FFFFFF6
  -- clusters and at most 2 ^ 21 sectors of table (`IsFs`, whose last two bounds `fat32_mount` does
  -- not check), whose disk works, `fat_alloc_cluster` returns the lowest free cluster of the volume
  -- and marks its entry, and no other, as the end of a chain; or it returns `FAT32_EOC`, leaves the
  -- disk as it was, and the table has no free entry.
  pub fat_alloc_cluster_lem : (d : State) → Allocates d 0 (fat_alloc_cluster disk fs d)
  unfolding fat_alloc_cluster
  fat_alloc_cluster_lem d = loop_lem fs.sectors_per_fat 0 d (omega arith)
