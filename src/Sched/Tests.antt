-- ===== src/Sched/Tests.antt =====
-- Runs of the scheduler and of the signal calls of kernel/proc/task.c on a table of three tasks.
use lumin.Prelude.{
  inl, ◌⊎◌, ℕ, zero, suc, get_or, ◌+◌, ◌≤◌, ◌≡◌, refl, true, false, none, some, ◌∷◌, arith, ltb,
  ◌==◌, if◌then◌else◌, replicate,
}
use lumin.Prelude.Int.{pos, minus_one}
use lumin.Sched.{
  Sched, Task, ready, running, SigAction, task, empty_task, is_free, is_running, alloc_pid,
  schedule, init, waitpid_nb, getpid, find_task_by_pid, find_pid_loop,
}
use lumin.Sched.Schedule.{Has, IsSched, Next, runs, schedule-IsSched, schedule-Next, schedule_fair}
use lumin.Sched.Pids.{Fresh, alloc_pid-Fresh, alloc_pid_stalled}
use lumin.Sched.Signals.{kill, sigkill, returned, check_signals}
use lumin.Sched.Signals.Laws.{IsCleared, Served, check_signals-lowest, kill_ends}

abbrev kernel_task : Task
kernel_task = record empty_task { state = ready; kernel_cr3 = 0x1000; parent_pid = minus_one }

-- Signals 2 and 15 are pending.
abbrev shell : Task
shell = record empty_task {
  pid = pos 1;
  state = running;
  kernel_rsp = 0x8000;
  sig_pending = λ g. if g == 2 then true else g == 15;
}

abbrev child : Task
child = record empty_task { pid = pos 2; state = ready; kernel_rsp = 0x9000; parent_pid = pos 1 }

-- The shell runs, the kernel task and a child wait.
abbrev three : Sched
three = record {
  tasks = kernel_task ∷ shell ∷ child ∷ replicate 29 empty_task;
  next_pid = 3;
  task_count = pos 3;
  current_idx = 1;
  current_task = some 1;
  pid_bitmap = λ b. if ltb b 3 then true else false;
  cr3 = 0x1000;
  rsp0 = 0;
}

idle : (n i : ℕ) → is_running (get_or (replicate n empty_task) i empty_task).state ≡ false
idle zero i = refl
idle (suc n) zero = refl
idle (suc n) (suc i) = idle n i

three_alone : (i : ℕ) → is_running (task three i).state ≡ true → i ≡ 1
three_alone zero h = cc
three_alone (suc zero) h = refl
three_alone (suc (suc zero)) h = cc
three_alone (suc (suc (suc i))) h = let off = idle 29 i in cc

three-IsSched : IsSched three
three-IsSched = record { size = refl; current = refl; in_table = omega arith; alone = three_alone }

schedule-IsSched_example : IsSched (schedule 0x7000 three).1
schedule-IsSched_example = schedule-IsSched 0x7000 three-IsSched

three-Next : Next three 1
three-Next = record {
  near = (omega arith, omega arith);
  waits = refl;
  first = λ j lo hi. absurd (omega arith);
}

schedule-Next_example :
    ((schedule 0x7000 three).0 ≡ 0x9000)
    × ((schedule 0x7000 three).1.current_idx ≡ 2)
    × (is_running (task (schedule 0x7000 three).1 2).state ≡ true)
    × ((schedule 0x7000 three).1.current_task ≡ some 2)
schedule-Next_example = schedule-Next 0x7000 1 three-IsSched refl three-Next

-- The kernel task, 31 slots on.
schedule_fair_example : (n : ℕ) × (1 ≤ n) × (n ≤ 31) × Has 0 (runs (λ i. 0x7000 + i) n three)
schedule_fair_example =
    schedule_fair 31 (λ i. 0x7000 + i) three-IsSched refl (omega arith) (omega arith) refl

alloc_pid-Fresh_example : Fresh three (alloc_pid three)
alloc_pid-Fresh_example = alloc_pid-Fresh three (omega arith)

-- After 32 processes, all of them gone.
abbrev later : Sched
later = record three { next_pid = 32; pid_bitmap = λ b. false }

alloc_pid_stalled_example : alloc_pid later ≡ (none, record later { next_pid = 96 })
alloc_pid_stalled_example = alloc_pid_stalled later (omega arith) (omega arith)

abbrev ignore : SigAction
ignore = record { sa_handler = 1; sa_mask = λ b. false; sa_flags = pos 0 }

none_below : (j : ℕ) → 1 ≤ j → j ≤ 1 → (shell.sig_pending j ≡ false) ⊎ (shell.sig_blocked j ≡ true)
none_below zero lo hi = absurd (omega arith)
none_below (suc zero) lo hi = inl refl
none_below (suc (suc j)) lo hi = absurd (omega arith)

check_signals-lowest_example :
    (s' : Sched) × IsCleared 1 2 three s'
    × Served 2 (shell.sig_actions 2).sa_handler s' (check_signals three)
check_signals-lowest_example =
    check_signals-lowest 2 1 three refl (omega arith) (omega arith) (omega arith) refl refl
      (λ j lo hi. none_below j lo (omega arith))

find_child : find_task_by_pid (pos 2) three ≡ some 2
unfolding find_task_by_pid find_pid_loop
find_child = refl

kill_ends_example :
    (s' : Sched) × (kill (pos 2) (pos sigkill) three ≡ returned (pos 0) s')
    × (is_free (task s' 2).state ≡ true)
    × (s'.pid_bitmap 2 ≡ false)
    × (s'.task_count ≡ pos 2)
    × ((j : ℕ) → task s' j ≡ (if j == 2 then task s' j else task three j))
kill_ends_example = kill_ends 2 2 three (omega arith) find_child refl refl

-- The child still runs, so that the shell is told to wait.
waitpid_child : waitpid_nb (pos 2) three ≡ some none
unfolding waitpid_nb
waitpid_child = refl

getpid_shell : getpid three ≡ pos 1
unfolding getpid
getpid_shell = refl

init_count : (init 0x7000 0x1000 three).task_count ≡ pos 1
unfolding init
init_count = refl
