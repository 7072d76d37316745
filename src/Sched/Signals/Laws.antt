-- ===== src/Sched/Signals/Laws.antt =====
-- What the signal calls of kernel/proc/task.c do to the tasks.
use lumin.Prelude.{
  ℕ, zero, suc, ◌+◌, ◌-◌, ◌/◌, ◌%◌, ◌<◌, ◌≤◌, ◌≡◌, refl, ◌∙◌, ap, sym, ◌≢◌, ◌⊎◌, inl, inr, Bool,
  true, false, not, ◌&&◌, ◌||◌, Option, none, some, arith, ltb, leb, ◌==◌, if◌then◌else◌, update,
  Bool-cases, set, length, get_or-set_self, get_or-set_ne, length-set, ==-refl,
}
use lumin.Prelude.Int.{ℤ, pos}
use lumin.Sched.{
  Sched, Task, SigAction, free, task, set_task, empty_task, max_tasks, resumed, exit, exit_for,
  exit_task, leave, free_pid, find_pid_loop, find_task_by_pid, pred_ℤ, eqb_ℤ, is_free,
}
use lumin.Sched.Signals.{
  returned, kill, kill_task, release, sigaction, sigaction_for, install, check_for, kill_found,
  deliver_to, check_loop, check_signals, deliverable, is_fatal, Outcome, exits, sigkill, sigstop,
  is_current,
}

task-set_self : (s : Sched) (i : ℕ) (t : Task) → i < length s.tasks → task (set_task s i t) i ≡ t
task-set_self s i t h = get_or-set_self s.tasks i t empty_task h

-- A signal whose action can be changed.
abbrev pub IsCatchable : ℕ → Type 0
IsCatchable g = (1 ≤ g) × (g ≤ 31) × (g ≢ sigkill) × (g ≢ sigstop)

accepted :
    (g c : ℕ) (act : Option SigAction) (s : Sched)
    → s.current_task ≡ some c
    → IsCatchable g
    → sigaction (pos g) act s ≡ (some ((task s c).sig_actions g), install c g act s)
unfolding sigaction
accepted g c act s cur (lo, hi, ne_kill, ne_stop) =
    let in_range : (ltb g 1 || ltb 31 g) ≡ false = ground arith in
    let open_to : ((g == sigkill) || (g == sigstop)) ≡ false = ground arith in
    ap (λ (o : Option ℕ). sigaction_for o g act s) cur ∙ rw (in_range, open_to) refl

-- For a signal that can be caught, `task_sigaction` reports the action that was in force and puts the
-- new one in force: the next call reports that one.
pub sigaction_pair :
    (g c : ℕ) (a : SigAction) (s : Sched)
    → s.current_task ≡ some c
    → c < length s.tasks
    → IsCatchable g
    → ((sigaction (pos g) (some a) s).0 ≡ some ((task s c).sig_actions g))
      × ((sigaction (pos g) none (sigaction (pos g) (some a) s).1).0 ≡ some a)
unfolding install
sigaction_pair g c a s cur h ok =
    let new : task (install c g (some a) s) c
        ≡ record (task s c) { sig_actions = update (task s c).sig_actions g a } =
      task-set_self s c _ h in
    (
      ap (λ (r : Option SigAction × Sched). r.0) (accepted g c (some a) s cur ok),
      rw (accepted g c (some a) s cur ok) (
          ap (λ (r : Option SigAction × Sched). r.0)
            (accepted g c none (install c g (some a) s) cur ok)
          ∙ ap (λ (t : Task). some (t.sig_actions g)) new
          ∙ rw (==-refl g)),
    )

check_loop_lem :
    (left sig k c : ℕ) (pending : ℕ → Bool) (s : Sched)
    → k < left
    → pending (sig + k) ≡ true
    → ((j : ℕ) → j < k → pending (sig + j) ≡ false)
    → check_loop left sig c pending s ≡ deliver_to c (sig + k) s
unfolding check_loop
check_loop_lem zero sig k c pending s h hit miss = absurd (omega arith)
check_loop_lem (suc left) sig zero c pending s h hit miss =
    let e : sig + 0 ≡ sig = omega arith in
    rw (rw e at hit) (ap (λ (m : ℕ). deliver_to c m s) (sym e))
check_loop_lem (suc left) sig (suc k) c pending s h hit miss =
    let e : sig + 0 ≡ sig = omega arith in
    rw (rw e at (miss 0 (omega arith))) (
      check_loop_lem left (sig + 1) k c pending s (omega arith) (rw (shift k) at hit)
        (λ j l. rw (shift j) at (miss (suc j) (omega arith)))
      ∙ ap (λ (m : ℕ). deliver_to c m s) (sym (shift k)))
  where
    shift : (j : ℕ) → sig + suc j ≡ sig + 1 + j
    shift j = omega arith

-- The signals that end a task by default: 2 to 8, 11 and 15.
abbrev pub IsFatal : ℕ → Type 0
IsFatal g = ((2 ≤ g) × (g ≤ 8)) ⊎ (g ≡ 11) ⊎ (g ≡ 15)

is_fatal-cases :
    (g : ℕ) → (IsFatal g × (is_fatal g ≡ true)) ⊎ ((¬ IsFatal g) × (is_fatal g ≡ false))
is_fatal-cases g = elim (Bool-cases (is_fatal g)) [
  | inl ends ↦ inl (ground arith, ends)
  | inr harmless_one ↦ inr (ground arith, harmless_one)
]

-- How signal `g` with the action `handler` is served in the state `s`: SIGKILL ends the task with 9, an
-- ignored signal (action 1) is dropped, a fatal one with the default action (0) ends it with 128 + g, and
-- any other is dropped.
pub data Served (g handler : ℕ) (s : Sched) : Outcome → Type 0 where
  killed : g ≡ 9 → Served g handler s (exits (exit (pos 9) s))
  ignored : g ≢ 9 → handler ≡ 1 → Served g handler s (returned (pos 0) s)
  ended : g ≢ 9 → handler ≡ 0 → IsFatal g → Served g handler s (exits (exit (pos (128 + g)) s))
  harmless : g ≢ 9 → handler ≡ 0 → ¬ IsFatal g → Served g handler s (returned (pos 0) s)
  dropped : g ≢ 9 → handler ≢ 1 → handler ≢ 0 → Served g handler s (returned (pos 0) s)

-- In `s'` the signal `g` of the task in slot `c` is no longer pending; nothing else of it, and no other task,
-- has changed.
pub record IsCleared (c g : ℕ) (s s' : Sched) : Type 0 where
  pub own : task s' c ≡ record (task s c) { sig_pending = update (task s c).sig_pending g false }
  pub others : (j : ℕ) → j ≢ c → task s' j ≡ task s j
  pub current : s'.current_task ≡ s.current_task
  pub counted : s'.task_count ≡ s.task_count

abbrev cleared : ℕ → ℕ → Sched → Sched
cleared c g s =
    set_task s c (record (task s c) { sig_pending = update (task s c).sig_pending g false })

cleared-IsCleared : (c g : ℕ) (s : Sched) → c < length s.tasks → IsCleared c g s (cleared c g s)
cleared-IsCleared c g s h = record {
  own = task-set_self s c _ h;
  others = λ j ne. get_or-set_ne s.tasks c j _ empty_task (λ e. ne (sym e));
  current = refl;
  counted = refl;
}

deliver_to-Served :
    (c g : ℕ) (s : Sched)
    → Served g ((task s c).sig_actions g).sa_handler (cleared c g s) (deliver_to c g s)
unfolding deliver_to
deliver_to-Served c g s = elim (Bool-cases (g == 9)) [
  | inl kills ↦ rw kills (killed (ground arith))
  | inr catchable ↦
      let ne : g ≢ 9 = ground arith in
      elim (Bool-cases (((task s c).sig_actions g).sa_handler == 1)) [
        | inl ign ↦ rw (catchable, ign) (ignored ne (ground arith))
        | inr heard ↦ elim (Bool-cases (((task s c).sig_actions g).sa_handler == 0)) [
          | inl dfl ↦ elim (is_fatal-cases g) [
            | inl (fatal, ends) ↦ rw (catchable, heard, dfl, ends) (ended ne (ground arith) fatal)
            | inr (mild, stays) ↦
                rw (catchable, heard, dfl, stays) (harmless ne (ground arith) mild)
          ]
          | inr own ↦ rw (catchable, heard, own) (dropped ne (ground arith) (ground arith))
        ]
      ]
]

not_blocked :
    (pending blocked : Bool)
    → (pending ≡ false) ⊎ (blocked ≡ true)
    → (pending && not blocked) ≡ false
not_blocked pending blocked h = ground (arith, h)

-- For the current task, in a slot of the table, with a pending signal `g` from 1 to 31 that it does
-- not block, while each lower one is not pending or is blocked: `task_check_signals` clears the
-- pending bit of `g` and nothing else of the tasks, and then, as `Served` says, leaves by
-- `task_exit` with 9 if `g` is 9; else returns 0 if the action ignores `g`; else leaves with 128 +
-- g if the action is the default and `g` is one of 2 to 8, 11 and 15; and else returns 0, also when
-- the task has a handler of its own.
pub check_signals-lowest :
    (g c : ℕ) (s : Sched)
    → s.current_task ≡ some c
    → c < length s.tasks
    → 1 ≤ g
    → g ≤ 31
    → (task s c).sig_pending g ≡ true
    → (task s c).sig_blocked g ≡ false
    → ((j : ℕ)
        → 1 ≤ j
        → j < g
        → ((task s c).sig_pending j ≡ false) ⊎ ((task s c).sig_blocked j ≡ true))
    → (s' : Sched) × IsCleared c g s s'
      × Served g ((task s c).sig_actions g).sa_handler s' (check_signals s)
unfolding check_signals
check_signals-lowest g c s cur inside lo hi hit open_to miss =
    let e : 1 + (g - 1) ≡ g = omega arith in
    let due : deliverable (task s c) (1 + (g - 1)) ≡ true = rw (e, hit, open_to) refl in
    let run : check_signals s ≡ deliver_to c g s =
      ap (λ (o : Option ℕ). check_for o s) cur
      ∙ (check_loop_lem 31 1 (g - 1) c (deliverable (task s c)) s (omega arith) due
            (λ j l. not_blocked _ _ (miss (1 + j) (omega arith) (omega arith)))
          ∙ ap (λ (m : ℕ). deliver_to c m s) e) in
    (cleared c g s, cleared-IsCleared c g s inside, rw run (deliver_to-Served c g s))

same_slot : {i j : ℕ} → some i ≡ some j → i ≡ j
same_slot h = cc

find_pid_loop_sound :
    (left i j : ℕ) (pid : ℤ) (s : Sched)
    → find_pid_loop left i pid s ≡ some j
    → (j < i + left) × (eqb_ℤ (task s j).pid pid ≡ true) × (is_free (task s j).state ≡ false)
unfolding find_pid_loop
find_pid_loop_sound zero i j pid s h = cc
find_pid_loop_sound (suc left) i j pid s h =
    elim (Bool-cases (eqb_ℤ (task s i).pid pid && not (is_free (task s i).state))) [
      | inl hit ↦
          let same : i ≡ j = same_slot (rw hit at h) in
          rw (← same) (omega arith, ground arith, ground arith)
      | inr miss ↦
          let (lt, e, live) = find_pid_loop_sound left (i + 1) j pid s (rw miss at h) in
          (omega arith, e, live)
    ]

positive : (p : ℕ) → 0 < p → leb p 0 ≡ false
positive p h = ground arith

-- The state after the task in slot `i` has been ended.
release_lem :
    (i pid : ℕ) (s : Sched)
    → i < length s.tasks
    → (is_free (task (release i pid s) i).state ≡ true)
      × ((release i pid s).pid_bitmap pid ≡ (if ltb pid 32 then false else s.pid_bitmap pid))
      × ((release i pid s).task_count ≡ pred_ℤ s.task_count)
      × ((j : ℕ) → j ≢ i → task (release i pid s) j ≡ task s j)
unfolding release
release_lem i pid s h = elim (Bool-cases (ltb (pid / 32) 1)) [
  | inl low ↦
      let small : ltb pid 32 ≡ true = ground arith in
      let same : pid % 32 ≡ pid = ground arith in
      rw (low, small, same, ==-refl pid) (freed, refl, refl, others)
  | inr high ↦
      let big : ltb pid 32 ≡ false = ground arith in rw (high, big) (freed, refl, refl, others)
]
  where
    freed : is_free (task (set_task s i (record (task s i) { state = free })) i).state ≡ true
    freed = ap (λ (t : Task). is_free t.state) (task-set_self s i _ h)

    others : (j : ℕ) → j ≢ i → task (set_task s i (record (task s i) { state = free })) j ≡ task s j
    others j ne = get_or-set_ne s.tasks i j _ empty_task (λ e. ne (sym e))

abbrev without_signals : ℕ → Sched → Sched
without_signals i s = set_task s i (record (task s i) { sig_pending = λ b. false })

kill-release :
    (pid i : ℕ) (s : Sched)
    → 0 < pid
    → find_task_by_pid (pos pid) s ≡ some i
    → is_current s.current_task i ≡ false
    → kill (pos pid) (pos sigkill) s ≡ returned (pos 0) (release i pid (without_signals i s))
unfolding kill kill_found find_task_by_pid kill_task
kill-release pid i s p found cur = rw (positive pid p, found, cur)

-- An equation that holds away from slot `i`.
unless : {A : Type 0} {a b : A} (j i : ℕ) → (j ≢ i → a ≡ b) → a ≡ (if j == i then a else b)
unless j i h = elim (Bool-cases (j == i)) [
  | inl same ↦ rw same refl
  | inr other ↦ rw other (h (ground arith))
]

-- Where `find_task_by_pid` finds the live task of `pid` in slot `i`, and that is not the current one,
-- SIGKILL ends it: `task_kill` returns 0, the slot is free, the bit of a `pid` below 32 in
-- `pid_bitmap` is cleared, one task less is counted, and every other task stays as it was.
pub kill_ends :
    (pid i : ℕ) (s : Sched)
    → 0 < pid
    → find_task_by_pid (pos pid) s ≡ some i
    → length s.tasks ≡ max_tasks
    → is_current s.current_task i ≡ false
    → (s' : Sched) × (kill (pos pid) (pos sigkill) s ≡ returned (pos 0) s')
      × (is_free (task s' i).state ≡ true)
      × (s'.pid_bitmap pid ≡ (if ltb pid 32 then false else s.pid_bitmap pid))
      × (s'.task_count ≡ pred_ℤ s.task_count)
      × ((j : ℕ) → task s' j ≡ (if j == i then task s' j else task s j))
unfolding find_task_by_pid
kill_ends pid i s p found size cur =
    let (lt, e, live) = find_pid_loop_sound max_tasks 0 i (pos pid) s found in
    let inside : i < length (without_signals i s).tasks =
      omega (arith, length-set s.tasks i (record (task s i) { sig_pending = λ b. false })) in
    let (freed, bit, fewer, others) = release_lem i pid (without_signals i s) inside in
    (
      release i pid (without_signals i s),
      kill-release pid i s p found cur,
      freed,
      bit,
      fewer,
      λ j.
          unless j i (λ ne. others j ne ∙ get_or-set_ne s.tasks i j _ empty_task (λ q. ne (sym q))),
    )

free_pid-tasks : (pid : ℕ) (s : Sched) → (free_pid pid s).tasks ≡ s.tasks
unfolding free_pid
free_pid-tasks pid s = ground arith

free_pid-count : (pid : ℕ) (s : Sched) → (free_pid pid s).task_count ≡ s.task_count
unfolding free_pid
free_pid-count pid s = ground arith

-- What `task_exit` leaves in the slot of the task and in `task_count`.
leave_lem :
    (c pid : ℕ) (code : ℤ) (s : Sched)
    → 0 < c
    → c < length s.tasks
    → (is_free (task (leave c pid code s) c).state ≡ true)
      × ((task (leave c pid code s) c).exit_code ≡ code)
      × ((leave c pid code s).task_count ≡ s.task_count)
unfolding leave
leave_lem c pid code s lo hi =
    let s1 = free_pid pid s in
    let gone = record (task s1 c) { state = free; exit_code = code } in
    let inside : c < length s1.tasks = rw (free_pid-tasks pid s) hi in
    let apart : 0 ≢ c = omega arith in
    let there =
      get_or-set_ne (set s1.tasks c gone) 0 c _ empty_task apart ∙ task-set_self s1 c gone inside in
    (
      ap (λ (t : Task). is_free t.state) there,
      ap (λ (t : Task). t.exit_code) there,
      free_pid-count pid s,
    )

leave-current : (c pid : ℕ) (code : ℤ) (s : Sched) → (leave c pid code s).current_task ≡ some 0
unfolding leave
leave-current c pid code s = refl

-- The current task's way out by `task_exit` frees its slot, stores the exit code and goes on with the
-- kernel task, but still counts it: `task_count` stays as it was, where `task_kill` takes one off.
pub exit_keeps_count :
    (c n : ℕ) (code : ℤ) (s : Sched)
    → s.current_task ≡ some c
    → 0 < c
    → c < length s.tasks
    → (task s c).pid ≡ pos (suc n)
    → (s' : Sched) × (exit code s ≡ resumed s')
      × (is_free (task s' c).state ≡ true)
      × ((task s' c).exit_code ≡ code)
      × (s'.current_task ≡ some 0)
      × (s'.task_count ≡ s.task_count)
unfolding exit exit_for
exit_keeps_count c n code s cur lo hi own =
    let (freed, stored, counted) = leave_lem c (suc n) code s lo hi in
    (
      leave c (suc n) code s,
      ap (λ (o : Option ℕ). exit_for o code s) cur ∙ ap (λ (p : ℤ). exit_task c p code s) own,
      freed,
      stored,
      leave-current c (suc n) code s,
      counted,
    )
