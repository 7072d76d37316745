-- ===== src/Sched/Signals.antt =====
-- `task_kill`, `task_sigaction` and the delivery of signals, kernel/proc/task.c.
pub mod Laws
use lumin.Prelude.{
  ℕ, zero, suc, ◌+◌, ◌<◌, ◌≤◌, ◌≡◌, refl, ◌∙◌, ap, sym, ◌≢◌, inl, inr, Bool, true, false, not, ◌&&◌,
  ◌||◌, Option, none, some, arith, ltb, leb, ◌==◌, if◌then◌else◌, update, Bool-cases, get_or, set,
  length,
}
use lumin.Prelude.Int.{ℤ, pos, negsuc, minus_one}
use lumin.Sched.{
  Sched, Task, SigAction, TaskState, free, task, set_task, empty_task, max_tasks, Exit, halted,
  undefined, resumed, exit, free_pid, find_pid_loop, pred_ℤ, sig_dfl, sig_ign, eqb_ℤ, is_free,
}

abbrev pub sigkill : ℕ
sigkill = 9

abbrev pub sigterm : ℕ
sigterm = 15

abbrev pub sigstop : ℕ
sigstop = 19

-- A call that returns a code, or one that has left by `task_exit`.
pub data Outcome : Type 0 where
  returned : ℤ → Sched → Outcome
  exits : Exit → Outcome

-- `state = TASK_FREE; free_pid(pid); task_count--`.
release : ℕ → ℕ → Sched → Sched
unfolding free_pid
release i pid s =
    let s1 = free_pid pid (set_task s i (record (task s i) { state = free })) in
    record s1 { task_count = pred_ℤ s1.task_count }

abbrev is_current : Option ℕ → ℕ → Bool
is_current none i = false
is_current (some c) i = c == i

kill_task : ℕ → ℕ → ℕ → Sched → Outcome
unfolding release exit
kill_task i pid sig s =
    if sig == sigkill
    then if is_current s.current_task i
      then exits (exit (pos 9) s)
      else returned (pos 0)
          (release i pid (set_task s i (record (task s i) { sig_pending = λ b. false })))
    else (let s1 =
          set_task s i
            (record (task s i) { sig_pending = update (task s i).sig_pending sig true }) in
        if (sig == sigterm) && (((task s i).sig_actions sig).sa_handler == sig_dfl)
        then returned (pos 0) (release i pid s1)
        else returned (pos 0) s1)

kill_found : ℕ → ℕ → Sched → Option ℕ → Outcome
unfolding kill_task
kill_found pid sig s none = returned minus_one s
kill_found pid sig s (some i) = kill_task i pid sig s

pub kill : ℤ → ℤ → Sched → Outcome
unfolding kill_found find_pid_loop
kill pid (negsuc n) s = returned minus_one s
kill (negsuc n) (pos sig) s = returned minus_one s
kill (pos pid) (pos sig) s =
    if ltb sig 1 || ltb 31 sig
    then returned minus_one s
    else if leb pid 0
    then returned minus_one s
    else kill_found pid sig s (find_pid_loop max_tasks 0 (pos pid) s)

-- `current_task->sig_actions[sig] = *act`, where `act` is NULL for `none`.
pub install : ℕ → ℕ → Option SigAction → Sched → Sched
install c sig none s = s
install c sig (some a) s =
    set_task s c (record (task s c) { sig_actions = update (task s c).sig_actions sig a })

sigaction_for : Option ℕ → ℕ → Option SigAction → Sched → Option SigAction × Sched
unfolding install
sigaction_for none sig act s = (none, s)
sigaction_for (some c) sig act s =
    if ltb sig 1 || ltb 31 sig
    then (none, s)
    else if (sig == sigkill) || (sig == sigstop)
    then (none, s)
    else (some ((task s c).sig_actions sig), install c sig act s)

-- The result is what `oldact` receives, `none` with the code -1.
pub sigaction : ℤ → Option SigAction → Sched → Option SigAction × Sched
unfolding sigaction_for
sigaction (negsuc n) act s = (none, s)
sigaction (pos sig) act s = sigaction_for s.current_task sig act s

-- The signals whose default is to end the task.
abbrev pub is_fatal : ℕ → Bool
is_fatal g =
    (g == 15)
    || (g == 2)
    || (g == 3)
    || (g == 4)
    || (g == 11)
    || (g == 8)
    || (g == 7)
    || (g == 6)
    || (g == 5)

pub deliver_to : ℕ → ℕ → Sched → Outcome
unfolding exit
deliver_to c sig s =
    let s1 =
      set_task s c (record (task s c) { sig_pending = update (task s c).sig_pending sig false }) in
    let handler = ((task s c).sig_actions sig).sa_handler in
    if sig == sigkill
    then exits (exit (pos 9) s1)
    else if handler == sig_ign
    then returned (pos 0) s1
    else if (handler == sig_dfl) && is_fatal sig
    then exits (exit (pos (128 + sig)) s1)
    else returned (pos 0) s1

-- `pending & (1ULL << sig)` for `sig`, …, `sig + left - 1`; the first is delivered.
check_loop : ℕ → ℕ → ℕ → (ℕ → Bool) → Sched → Outcome
unfolding deliver_to
check_loop zero sig c pending s = returned (pos 0) s
check_loop (suc left) sig c pending s =
    let rest = check_loop left (sig + 1) c pending s in
    if pending sig then deliver_to c sig s else rest

-- `sig_pending & ~sig_blocked`. Where all its bits are 0 the loop finds none.
abbrev pub deliverable : Task → ℕ → Bool
deliverable t b = t.sig_pending b && not (t.sig_blocked b)

check_for : Option ℕ → Sched → Outcome
unfolding check_loop
check_for none s = returned (pos 0) s
check_for (some c) s = check_loop 31 1 c (deliverable (task s c)) s

pub check_signals : Sched → Outcome
unfolding check_for
check_signals s = check_for s.current_task s
