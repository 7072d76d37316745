-- ===== src/Sched.antt =====
-- The task table, the scheduler and the signals of kernel/proc/task.c.
-- A pointer into `tasks` is an index; a bit set (`pid_bitmap`, `sigset_t`) is its bits.
-- `cr3` and `rsp0` are the registers that `vmm_load_pml4` and `gdt_set_kstack` write.
pub mod Schedule
pub mod Pids
pub mod Signals
mod Tests
use lumin.Prelude.{
  ℕ, zero, suc, ◌+◌, ◌-◌, ◌*◌, ◌/◌, ◌%◌, Bool, true, false, not, ◌&&◌, ◌||◌, Option, none, some,
  List, ltb, leb, ◌==◌, if◌then◌else◌, update, get_or, set, map,
}
use lumin.Prelude.Int.{ℤ, pos, negsuc, minus_one}

abbrev pub max_tasks : ℕ
max_tasks = 32

abbrev pub kstack_size : ℕ
kstack_size = 0x4000

-- `enum task_state`.
pub data TaskState : Type 0 where
  free ready running blocked zombie : TaskState

abbrev pub is_free : TaskState → Bool
is_free free = true
is_free _ = false

abbrev pub is_ready : TaskState → Bool
is_ready ready = true
is_ready _ = false

abbrev pub is_running : TaskState → Bool
is_running running = true
is_running _ = false

-- `sa_handler`: SIG_DFL is 0 and SIG_IGN is 1.
abbrev pub sig_dfl : ℕ
sig_dfl = 0

abbrev pub sig_ign : ℕ
sig_ign = 1

-- `struct sigaction`.
pub record SigAction : Type 0 where
  pub sa_handler : ℕ
  pub sa_mask : ℕ → Bool
  pub sa_flags : ℤ

-- `struct task`, less the files, the working directory and what only `fork` and `exec` use.
pub record Task : Type 0 where
  pub pid : ℤ
  pub state : TaskState
  pub kernel_rsp : ℕ
  pub kernel_cr3 : ℕ
  pub pml4 : ℕ
  pub kstack_page : ℕ
  pub exit_code : ℤ
  pub parent_pid : ℤ
  pub sig_pending : ℕ → Bool
  pub sig_blocked : ℕ → Bool
  pub sig_actions : ℕ → SigAction

-- The file's static variables, with the two registers.
pub record Sched : Type 0 where
  pub tasks : List Task
  pub next_pid : ℕ
  pub task_count : ℤ
  pub current_idx : ℕ
  pub current_task : Option ℕ
  pub pid_bitmap : ℕ → Bool
  pub cr3 : ℕ
  pub rsp0 : ℕ

-- What stands in a slot that was never used.
abbrev pub empty_task : Task
empty_task = record {
  pid = pos 0;
  state = free;
  kernel_rsp = 0;
  kernel_cr3 = 0;
  pml4 = 0;
  kstack_page = 0;
  exit_code = pos 0;
  parent_pid = pos 0;
  sig_pending = λ b. false;
  sig_blocked = λ b. false;
  sig_actions = λ g. record { sa_handler = 0; sa_mask = λ b. false; sa_flags = pos 0 };
}

abbrev pub task : Sched → ℕ → Task
task s i = get_or s.tasks i empty_task

abbrev pub set_task : Sched → ℕ → Task → Sched
set_task s i t = record s { tasks = set s.tasks i t }

abbrev pub eqb_ℤ : ℤ → ℤ → Bool
eqb_ℤ (pos a) (pos b) = a == b
eqb_ℤ (negsuc a) (negsuc b) = a == b
eqb_ℤ _ _ = false

-- `n--`.
abbrev pub pred_ℤ : ℤ → ℤ
pred_ℤ (pos zero) = negsuc 0
pred_ℤ (pos (suc n)) = pos n
pred_ℤ (negsuc n) = negsuc (suc n)

-- `n <= 1`.
abbrev pub at_most_one : ℤ → Bool
at_most_one (pos n) = leb n 1
at_most_one (negsuc n) = true

-- The loop of `alloc_pid`: `none` is the -1 of the end, `pid_bitmap` has one word.
alloc_pid_loop : ℕ → Sched → Option ℕ × Sched
alloc_pid_loop zero s = (none, s)
alloc_pid_loop (suc attempts) s =
    let pid = if leb 1000000 s.next_pid then 1 else s.next_pid in
    let s' = record s { next_pid = pid + 1 } in
    let rest = alloc_pid_loop attempts s' in
    if leb 1 (pid / 32)
    then rest
    else (if s.pid_bitmap (pid % 32)
        then rest
        else (some pid, record s' { pid_bitmap = update s.pid_bitmap (pid % 32) true }))

pub alloc_pid : Sched → Option ℕ × Sched
unfolding alloc_pid_loop
alloc_pid s = alloc_pid_loop (max_tasks * 2) s

pub free_pid : ℕ → Sched → Sched
free_pid pid s =
    if ltb (pid / 32) 1 then record s { pid_bitmap = update s.pid_bitmap (pid % 32) false } else s

-- The search of `find_task_by_pid` and `task_kill`, from slot `i` on.
find_pid_loop : ℕ → ℕ → ℤ → Sched → Option ℕ
find_pid_loop zero i pid s = none
find_pid_loop (suc left) i pid s =
    let rest = find_pid_loop left (i + 1) pid s in
    if eqb_ℤ (task s i).pid pid && not (is_free (task s i).state) then some i else rest

pub find_task_by_pid : ℤ → Sched → Option ℕ
unfolding find_pid_loop
find_task_by_pid pid s = find_pid_loop max_tasks 0 pid s

-- `rsp` and `cr3` are what the processor holds when `task_init` runs.
pub init : ℕ → ℕ → Sched → Sched
init rsp cr3 s = record s {
  tasks = set (map_free s.tasks) 0 (kernel_task (get_or s.tasks 0 empty_task));
  next_pid = 1;
  task_count = pos 1;
  current_idx = 0;
  current_task = some 0;
  pid_bitmap = λ b. b == 0;
}
  where
    mark_free : Task → Task
    mark_free t = record t { state = free }

    map_free : List Task → List Task
    map_free l = map mark_free l

    kernel_task : Task → Task
    kernel_task t = record t {
      pid = pos 0;
      state = running;
      pml4 = 0;
      kstack_page = 0;
      parent_pid = minus_one;
      kernel_rsp = rsp;
      kernel_cr3 = cr3;
    }

-- The branch of `schedule` that has found a READY task.
dispatch : ℕ → Sched → ℕ × Sched
dispatch idx s =
    let t = task s idx in
    (
      t.kernel_rsp,
      record (set_task s idx (record t { state = running })) {
        current_idx = idx;
        current_task = some idx;
        cr3 = if t.pml4 == 0 then (task s 0).kernel_cr3 else t.pml4;
        rsp0 = if t.kstack_page == 0 then s.rsp0 else t.kstack_page + kstack_size;
      },
    )

-- The end of `schedule`: back to the kernel task.
fall_back : Sched → ℕ × Sched
fall_back s = (
  (task s 0).kernel_rsp,
  record (set_task s 0 (record (task s 0) { state = running })) {
    current_idx = 0;
    current_task = some 0;
    cr3 = (task s 0).kernel_cr3;
  },
)

-- The rounds `i`, `i + 1`, … of the loop of `schedule`.
find_ready : ℕ → ℕ → Sched → ℕ × Sched
unfolding dispatch fall_back
find_ready zero i s = fall_back s
find_ready (suc left) i s =
    let idx = (s.current_idx + i) % max_tasks in
    let rest = find_ready left (i + 1) s in
    if is_ready (task s idx).state then dispatch idx s else rest

-- `current_task->kernel_rsp = current_rsp` and, of a RUNNING task, `state = TASK_READY`.
save_rsp : ℕ → Option ℕ → Sched → Sched
save_rsp rsp none s = s
save_rsp rsp (some c) s = set_task s c (record (task s c) { kernel_rsp = rsp })

park : ℕ → Option ℕ → Sched → Sched
park rsp none s = s
park rsp (some c) s =
    if is_running (task s c).state
    then set_task s c (record (task s c) { kernel_rsp = rsp; state = ready })
    else s

pub schedule : ℕ → Sched → ℕ × Sched
unfolding find_ready save_rsp park
schedule rsp s =
    if at_most_one s.task_count
    then (rsp, save_rsp rsp s.current_task s)
    else find_ready (max_tasks - 1) 1 (park rsp s.current_task s)

-- How `task_exit` ends: the processor halts, a shift by a negative `pid` is undefined, or the kernel
-- task runs on.
pub data Exit : Type 0 where
  halted : Exit
  undefined : Exit
  resumed : Sched → Exit

-- Task `c` gives up its number and its slot, and the kernel task goes on.
leave : ℕ → ℕ → ℤ → Sched → Sched
unfolding free_pid
leave c pid code s =
    let s1 = free_pid pid s in
    let s2 = set_task s1 c (record (task s1 c) { state = free; exit_code = code }) in
    record (set_task s2 0 (record (task s2 0) { state = running })) {
      current_task = some 0;
      current_idx = 0;
      cr3 = (task s2 0).kernel_cr3;
    }

exit_task : ℕ → ℤ → ℤ → Sched → Exit
unfolding leave
exit_task c (negsuc n) code s = undefined
exit_task c (pos zero) code s = halted
exit_task c (pos (suc n)) code s = resumed (leave c (suc n) code s)

exit_for : Option ℕ → ℤ → Sched → Exit
unfolding exit_task
exit_for none code s = halted
exit_for (some c) code s = exit_task c (task s c).pid code s

pub exit : ℤ → Sched → Exit
unfolding exit_for
exit code s = exit_for s.current_task code s

-- The search of `task_waitpid_nb`: `none` is the result -1, `some none` is -2 (still running).
waitpid_loop : ℕ → ℕ → ℤ → ℤ → Sched → Option (Option ℤ)
waitpid_loop zero i parent pid s = none
waitpid_loop (suc left) i parent pid s =
    let rest = waitpid_loop left (i + 1) parent pid s in
    if eqb_ℤ (task s i).parent_pid parent && (eqb_ℤ pid minus_one || eqb_ℤ (task s i).pid pid)
    then (if is_free (task s i).state then some (some (task s i).exit_code) else some none)
    else rest

pub waitpid_nb : ℤ → Sched → Option (Option ℤ)
unfolding waitpid_loop
waitpid_nb pid s = elim s.current_task [
  | none ↦ none
  | some c ↦ waitpid_loop max_tasks 0 (task s c).pid pid s
]

pub getpid : Sched → ℤ
getpid s = elim s.current_task [ none ↦ minus_one | some c ↦ (task s c).pid ]
