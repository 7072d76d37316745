-- ===== src/Sched/Pids.antt =====
-- The process numbers that `alloc_pid` of kernel/proc/task.c hands out.
use lumin.Prelude.{
  ℕ, zero, suc, ◌+◌, ◌*◌, ◌/◌, ◌%◌, ◌≤◌, ◌<◌, ◌≡◌, refl, sym, ap, ◌∙◌, ◌≢◌, inl, inr, true, false,
  Option, none, some, arith, leb, ◌==◌, if◌then◌else◌, Bool-cases,
}
use lumin.Sched.{Sched, alloc_pid, alloc_pid_loop, max_tasks}

-- The bits of `pid_bitmap` after `pid` has been taken, and what is known of `pid`.
abbrev pub Fresh : Sched → Option ℕ × Sched → Type 0
Fresh s (none, s') = (b : ℕ) → s'.pid_bitmap b ≡ s.pid_bitmap b
Fresh s (some pid, s') =
    (0 < pid)
    × (pid < 32)
    × (s.pid_bitmap pid ≡ false)
    × ((b : ℕ) → s'.pid_bitmap b ≡ (if b == pid then true else s.pid_bitmap b))

abbrev advance : Sched → Sched
advance s = record s { next_pid = (if leb 1000000 s.next_pid then 1 else s.next_pid) + 1 }

abbrev candidate : Sched → ℕ
candidate s = if leb 1000000 s.next_pid then 1 else s.next_pid

candidate_pos : (s : Sched) → 0 < s.next_pid → 0 < candidate s
candidate_pos s h = ground arith

alloc_pid_loop-Fresh : (n : ℕ) (s : Sched) → 0 < s.next_pid → Fresh s (alloc_pid_loop n s)
unfolding alloc_pid_loop
alloc_pid_loop-Fresh zero s h = λ b. refl
alloc_pid_loop-Fresh (suc n) s h =
    let rest = alloc_pid_loop-Fresh n (advance s) (omega arith) in
    elim (Bool-cases (leb 1 (candidate s / 32))) [
      | inl high ↦ rw high rest
      | inr low ↦ elim (Bool-cases (s.pid_bitmap (candidate s % 32))) [
        | inl used ↦ rw (low, used) rest
        | inr unused ↦
            let small : candidate s / 32 ≡ 0 = ground arith in
            let same : candidate s % 32 ≡ candidate s = omega arith in
            rw (low, unused) (candidate_pos s h, omega arith, rw same at unused, λ b. rw same refl)
      ]
    ]

-- When `next_pid` is not 0, a number that `alloc_pid` returns lies between 1 and 31 and was not in use;
-- afterwards it is, and every other number is as before. Where `alloc_pid` returns -1 none changes.
pub alloc_pid-Fresh : (s : Sched) → 0 < s.next_pid → Fresh s (alloc_pid s)
unfolding alloc_pid
alloc_pid-Fresh s = alloc_pid_loop-Fresh (max_tasks * 2) s

stalled :
    (n : ℕ) (s : Sched)
    → 32 ≤ s.next_pid
    → s.next_pid + n ≤ 1000000
    → alloc_pid_loop n s ≡ (none, record s { next_pid = s.next_pid + n })
unfolding alloc_pid_loop
stalled zero s h k =
    let e : s.next_pid ≡ s.next_pid + 0 = omega arith in
    ap (λ (n : ℕ). (none, record s { next_pid = n })) e
stalled (suc n) s h k =
    let low : leb 1000000 s.next_pid ≡ false = ground arith in
    let high : leb 1 (s.next_pid / 32) ≡ true = ground arith in
    let e : s.next_pid + 1 + n ≡ s.next_pid + suc n = omega arith in
    rw (low, high)
      (stalled n (record s { next_pid = s.next_pid + 1 }) (omega arith) (omega arith)
        ∙ ap (λ (m : ℕ). (none, record s { next_pid = m })) e)

-- Once `next_pid` has passed 31, `alloc_pid` returns -1 and moves `next_pid` on by 64, whatever numbers
-- are free, until `next_pid` comes near 1000000.
pub alloc_pid_stalled :
    (s : Sched)
    → 32 ≤ s.next_pid
    → s.next_pid + 64 ≤ 1000000
    → alloc_pid s ≡ (none, record s { next_pid = s.next_pid + 64 })
unfolding alloc_pid
alloc_pid_stalled s = stalled 64 s

finds :
    (n : ℕ) (s : Sched) (q : ℕ)
    → 0 < s.next_pid
    → s.next_pid ≤ q
    → q < s.next_pid + n
    → q < 32
    → s.pid_bitmap q ≡ false
    → (p : ℕ) × ((alloc_pid_loop n s).0 ≡ some p) × (p ≤ q)
unfolding alloc_pid_loop
finds zero s q pos_next lo fuel hi unused = absurd (omega arith)
finds (suc n) s q pos_next lo fuel hi unused =
    let low : leb 1000000 s.next_pid ≡ false = ground arith in
    let word : leb 1 (s.next_pid / 32) ≡ false = ground arith in
    let same : s.next_pid % 32 ≡ s.next_pid = omega arith in
    elim (Bool-cases (s.pid_bitmap s.next_pid)) [
      | inr now ↦ rw (low, word, same, now) (s.next_pid, refl, lo)
      | inl used ↦
          let other : s.next_pid ≢ q = λ e. absurd (different (rw e at used) unused) in
          rw (low, word, same, used)
            (finds n (record s { next_pid = s.next_pid + 1 }) q (omega arith) (omega arith)
              (omega arith) hi unused)
    ]
  where
    different : s.pid_bitmap q ≡ true → s.pid_bitmap q ≡ false → ⊥
    different t f = let never : true ≡ false = sym t ∙ f in cc

-- Where a number `q` from `next_pid` up to 31 is free, `alloc_pid` finds one that is at most `q`.
pub alloc_pid_finds :
    (s : Sched) (q : ℕ)
    → 0 < s.next_pid
    → s.next_pid ≤ q
    → q < 32
    → s.pid_bitmap q ≡ false
    → (p : ℕ) × ((alloc_pid s).0 ≡ some p) × (p ≤ q)
unfolding alloc_pid
alloc_pid_finds s q pos_next lo hi = finds 64 s q pos_next lo (omega arith) hi
