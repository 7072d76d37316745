-- ===== src/Sched/Schedule.antt =====
-- What `schedule` of kernel/proc/task.c picks, and what it keeps.
use lumin.Prelude.{
  ℕ, zero, suc, ◌+◌, ◌-◌, ◌%◌, ◌≤◌, ◌<◌, ◌≡◌, refl, ◌∙◌, ap, sym, ◌≢◌, inl, inr, Bool, true, false,
  Option, some, arith, Bool-cases, length, length-set, get_or-set_self, get_or-set_ne,
}
use native.Mathlib.Decide.{ℕ_discrete}
use lumin.Sched.{
  Sched, Task, task, set_task, empty_task, is_ready, is_running, max_tasks, at_most_one, schedule,
  find_ready, dispatch, fall_back, park, save_rsp,
}

-- The table has its size, `current_task` and `current_idx` agree, and no other task is RUNNING.
pub record IsSched (s : Sched) : Type 0 where
  pub size : length s.tasks ≡ max_tasks
  pub current : s.current_task ≡ some s.current_idx
  pub in_table : s.current_idx < max_tasks
  pub alone : (i : ℕ) → is_running (task s i).state ≡ true → i ≡ s.current_idx

-- The slot that the loop of `schedule` looks at in round `d`.
abbrev pub slot : Sched → ℕ → ℕ
slot s d = (s.current_idx + d) % max_tasks

task-set_self :
    (s : Sched) (i : ℕ) (t : Task)
    → length s.tasks ≡ max_tasks
    → i < max_tasks
    → task (set_task s i t) i ≡ t
task-set_self s i t size h = get_or-set_self s.tasks i t empty_task (omega arith)

task-set_ne : (s : Sched) (i j : ℕ) (t : Task) → i ≢ j → task (set_task s i t) j ≡ task s j
task-set_ne s i j t h = get_or-set_ne s.tasks i j t empty_task h

extend :
    (p : ℕ → Bool) (k : ℕ)
    → p 0 ≡ false
    → ((j : ℕ) → j < k → p (suc j) ≡ false)
    → (j : ℕ) → j < suc k
    → p j ≡ false
extend p k now later zero h = now
extend p k now later (suc j) h = later j (omega arith)

-- The least number that passes a test.
least :
    (p : ℕ → Bool) (d : ℕ)
    → p d ≡ true
    → (k : ℕ) × (k ≤ d) × (p k ≡ true) × ((j : ℕ) → j < k → p j ≡ false)
least p zero h = (0, omega arith, h, λ j l. absurd (omega arith))
least p (suc d) h = elim (Bool-cases (p 0)) [
  | inl now ↦ (0, omega arith, now, λ j l. absurd (omega arith))
  | inr later ↦
      let (k, le, hit, miss) = least (λ j. p (suc j)) d h in
      (suc k, omega arith, hit, extend p k later miss)
]

find_ready_lem :
    (left i k : ℕ) (s : Sched)
    → k < left
    → is_ready (task s (slot s (i + k))).state ≡ true
    → ((j : ℕ) → j < k → is_ready (task s (slot s (i + j))).state ≡ false)
    → find_ready left i s ≡ dispatch (slot s (i + k)) s
unfolding find_ready
find_ready_lem zero i k s h hit miss = absurd (omega arith)
find_ready_lem (suc left) i zero s h hit miss =
    let e : i + 0 ≡ i = omega arith in
    rw (rw e at hit) (ap (λ (m : ℕ). dispatch (slot s m) s) (sym e))
find_ready_lem (suc left) i (suc k) s h hit miss =
    let e : i + 0 ≡ i = omega arith in
    rw (rw e at (miss 0 (omega arith))) (
      find_ready_lem left (i + 1) k s (omega arith) (rw (shift k) at hit)
        (λ j l. rw (shift j) at (miss (suc j) (omega arith)))
      ∙ ap (λ (m : ℕ). dispatch (slot s m) s) (sym (shift k)))
  where
    shift : (j : ℕ) → i + suc j ≡ i + 1 + j
    shift j = omega arith

not_true : (b : Bool) → ¬ (b ≡ true) → b ≡ false
not_true true h = absurd (h refl)
not_true false h = refl

at_rest : {s : Sched} (i : ℕ) → IsSched s → i ≢ s.current_idx → is_running (task s i).state ≡ false
at_rest {s} i h ne = not_true _ (λ r. ne (h.alone i r))

-- What `schedule` finds after it has put the current task back in line.
record Parked (s p : Sched) : Type 0 where
  size : length p.tasks ≡ max_tasks
  same_idx : p.current_idx ≡ s.current_idx
  none_running : (i : ℕ) → is_running (task p i).state ≡ false
  others : (i : ℕ) → i ≢ s.current_idx → task p i ≡ task s i

park-Parked : (rsp : ℕ) {s : Sched} → IsSched s → Parked s (park rsp (some s.current_idx) s)
unfolding park
park-Parked rsp {s} h = elim (Bool-cases (is_running (task s s.current_idx).state)) [
  | inl runs ↦ rw runs (record {
    size = length-set s.tasks s.current_idx _ ∙ h.size;
    same_idx = refl;
    none_running = λ i. elim (ℕ_discrete i s.current_idx) [
      | yes e ↦ rw e (
          ap (λ (t : Task). is_running t.state) (task-set_self s s.current_idx _ h.size h.in_table))
      | no ne ↦
          ap (λ (t : Task). is_running t.state) (task-set_ne s s.current_idx i _ (λ e. ne (sym e)))
          ∙ at_rest i h ne
    ];
    others = λ i ne. task-set_ne s s.current_idx i _ (λ e. ne (sym e));
  })
  | inr stands ↦ rw stands (record {
    size = h.size;
    same_idx = refl;
    none_running =
        λ i. elim (ℕ_discrete i s.current_idx) [ yes e ↦ rw e stands | no ne ↦ at_rest i h ne ];
    others = λ i ne. refl;
  })
]

-- Only the task that is set RUNNING is.
alone_after :
    (i : ℕ) (t : Task) {s p : Sched}
    → Parked s p
    → (j : ℕ) → is_running (task (set_task p i t) j).state ≡ true
    → j ≡ i
alone_after i t {s} {p} k j r = elim (ℕ_discrete j i) [
  | yes e ↦ e
  | no ne ↦
      let off = ap (λ (t : Task). is_running t.state) (task-set_ne p i j t (λ e. ne (sym e))) in
      let never : false ≡ true = sym (off ∙ k.none_running j) ∙ r in cc
]

dispatch-IsSched : (i : ℕ) {s p : Sched} → i < max_tasks → Parked s p → IsSched (dispatch i p).1
unfolding dispatch
dispatch-IsSched i {s} {p} h k = record {
  size = length-set p.tasks i _ ∙ k.size;
  current = refl;
  in_table = h;
  alone = alone_after i _ k;
}

fall_back-IsSched : {s p : Sched} → Parked s p → IsSched (fall_back p).1
unfolding fall_back
fall_back-IsSched {s} {p} k = record {
  size = length-set p.tasks 0 _ ∙ k.size;
  current = refl;
  in_table = omega arith;
  alone = alone_after 0 _ k;
}

find_ready-IsSched : (left i : ℕ) {s p : Sched} → Parked s p → IsSched (find_ready left i p).1
unfolding find_ready
find_ready-IsSched zero i k = fall_back-IsSched k
find_ready-IsSched (suc left) i {s} {p} k = elim (Bool-cases (is_ready (task p (slot p i)).state)) [
  | inl hit ↦ rw hit (dispatch-IsSched (slot p i) (omega arith) k)
  | inr miss ↦ rw miss (find_ready-IsSched left (i + 1) k)
]

save_rsp-IsSched : (rsp : ℕ) {s : Sched} → IsSched s → IsSched (save_rsp rsp (some s.current_idx) s)
unfolding save_rsp
save_rsp-IsSched rsp {s} h = record {
  size = length-set s.tasks s.current_idx _ ∙ h.size;
  current = h.current;
  in_table = h.in_table;
  alone = λ j r. elim (ℕ_discrete j s.current_idx) [
    | yes e ↦ e
    | no ne ↦
        let off =
          ap (λ (t : Task). is_running t.state)
            (task-set_ne s s.current_idx j _ (λ e. ne (sym e))) in
        h.alone j (sym off ∙ r)
  ];
}

schedule_few :
    (rsp : ℕ) {s : Sched}
    → IsSched s
    → at_most_one s.task_count ≡ true
    → schedule rsp s ≡ (rsp, save_rsp rsp (some s.current_idx) s)
unfolding schedule
schedule_few rsp {s} h few = rw few (ap (λ (o : Option ℕ). (rsp, save_rsp rsp o s)) h.current)

schedule_many :
    (rsp : ℕ) {s : Sched}
    → IsSched s
    → at_most_one s.task_count ≡ false
    → schedule rsp s ≡ find_ready 31 1 (park rsp (some s.current_idx) s)
unfolding schedule
schedule_many rsp {s} h more =
    rw more (ap (λ (o : Option ℕ). find_ready 31 1 (park rsp o s)) h.current)

-- `schedule` keeps the table in order: if `current_task` is the task at `current_idx`, in the table, and
-- no other task is RUNNING, then that is so afterwards, on every branch.
pub schedule-IsSched : (rsp : ℕ) {s : Sched} → IsSched s → IsSched (schedule rsp s).1
schedule-IsSched rsp {s} h = elim (Bool-cases (at_most_one s.task_count)) [
  | inl few ↦ rw (schedule_few rsp h few) (save_rsp-IsSched rsp h)
  | inr more ↦ rw (schedule_many rsp h more) (find_ready-IsSched 31 1 (park-Parked rsp h))
]

-- The task `d` slots on is READY, and those between are not.
pub record Next (s : Sched) (d : ℕ) : Type 0 where
  pub near : (1 ≤ d) × (d < max_tasks)
  pub waits : is_ready (task s (slot s d)).state ≡ true
  pub first : (j : ℕ) → 1 ≤ j → j < d → is_ready (task s (slot s j)).state ≡ false

slot-ne :
    (s : Sched) (d : ℕ)
    → s.current_idx < max_tasks
    → 1 ≤ d
    → d < max_tasks
    → slot s d ≢ s.current_idx
slot-ne s d h p q = omega arith

Parked-slot :
    (d : ℕ) {s p : Sched}
    → IsSched s
    → Parked s p
    → 1 ≤ d
    → d < max_tasks
    → task p (slot p d) ≡ task s (slot s d)
Parked-slot d {s} {p} h k lo hi = rw k.same_idx (k.others (slot s d) (slot-ne s d h.in_table lo hi))

-- With a READY task `d` slots on, the loop stops there.
schedule-dispatch :
    (rsp d : ℕ) {s : Sched}
    → IsSched s
    → at_most_one s.task_count ≡ false
    → Next s d
    → schedule rsp s ≡ dispatch (slot s d) (park rsp (some s.current_idx) s)
schedule-dispatch rsp d {s} h more n =
    let k = park-Parked rsp h in
    let e : 1 + (d - 1) ≡ d = omega (arith, n.near) in
    let test = λ (t : Task). is_ready t.state in
    rw (schedule_many rsp h more) (
      find_ready_lem 31 1 (d - 1) (park rsp (some s.current_idx) s) (omega (arith, n.near))
        (rw e (ap test (Parked-slot d h k n.near.0 n.near.1) ∙ n.waits))
        (λ j l.
          ap test (Parked-slot (1 + j) h k (omega arith) (omega (arith, n.near)))
          ∙ n.first (1 + j) (omega arith) (omega (arith, n.near)))
      ∙ ap (λ (c : ℕ). dispatch c (park rsp (some s.current_idx) s))
          (rw e (ap (λ (c : ℕ). (c + d) % max_tasks) k.same_idx)))

-- In a state that satisfies `IsSched` and counts more than one task, `schedule` goes to the first READY
-- task behind the current one, going round the table: it returns the stack pointer that this task saved,
-- `current_idx` is the task's slot, the task is RUNNING, and `current_task` points to it.
pub schedule-Next :
    (rsp d : ℕ) {s : Sched}
    → IsSched s
    → at_most_one s.task_count ≡ false
    → Next s d
    → ((schedule rsp s).0 ≡ (task s (slot s d)).kernel_rsp)
      × ((schedule rsp s).1.current_idx ≡ slot s d)
      × (is_running (task (schedule rsp s).1 (slot s d)).state ≡ true)
      × ((schedule rsp s).1.current_task ≡ some (slot s d))
unfolding dispatch
schedule-Next rsp d {s} h more n =
    let k = park-Parked rsp h in
    rw (schedule-dispatch rsp d h more n) (
      ap (λ (t : Task). t.kernel_rsp)
          (k.others (slot s d) (slot-ne s d h.in_table n.near.0 n.near.1)),
      refl,
      ap (λ (t : Task). is_running t.state)
          (task-set_self (park rsp (some s.current_idx) s) (slot s d) _ k.size (omega arith)),
      refl,
    )

-- The calls of `schedule` at the next `n` interrupts, at the stack pointers `rsp 0`, `rsp 1`, ….
pub runs : (ℕ → ℕ) → ℕ → Sched → Sched
runs rsp zero s = s
runs rsp (suc n) s = runs (λ j. rsp (suc j)) n (schedule (rsp 0) s).1

first_ready :
    (s : Sched) (d : ℕ)
    → 1 ≤ d
    → d < max_tasks
    → is_ready (task s (slot s d)).state ≡ true
    → (k : ℕ) × (k ≤ d) × Next s k
first_ready s d lo hi w =
    let e : 1 + (d - 1) ≡ d = omega arith in
    let (k, le, hit, miss) =
      least (λ j. is_ready (task s (slot s (1 + j))).state) (d - 1) (rw e w) in
    (
      1 + k,
      omega arith,
      record {
        near = (omega arith, omega arith);
        waits = hit;
        first = λ j one lt.
            let back : 1 + (j - 1) ≡ j = omega arith in rw (← back) (miss (j - 1) (omega arith));
      },
    )

task_count-park : (rsp c : ℕ) (s : Sched) → (park rsp (some c) s).task_count ≡ s.task_count
unfolding park
task_count-park rsp c s = ground arith

-- After one call the task that waits is either at hand or nearer.
schedule_nearer :
    (rsp d k : ℕ) {s : Sched}
    → IsSched s
    → at_most_one s.task_count ≡ false
    → Next s k
    → k < d
    → d < max_tasks
    → is_ready (task s (slot s d)).state ≡ true
    → let s' = (schedule rsp s).1 in
      (slot s' (d - k) ≡ slot s d)
      × (is_ready (task s' (slot s d)).state ≡ true)
      × (at_most_one s'.task_count ≡ false)
unfolding dispatch
schedule_nearer rsp d k {s} h more n lt hi w =
    let p = park-Parked rsp h in
    rw (schedule-dispatch rsp k h more n) (
      omega arith,
      ap (λ (t : Task). is_ready t.state)
            (task-set_ne (park rsp (some s.current_idx) s) (slot s k) (slot s d) _ (omega arith)
              ∙ p.others (slot s d) (slot-ne s d h.in_table (omega (arith, n.near)) hi))
          ∙ w,
      ap at_most_one (task_count-park rsp s.current_idx s) ∙ more,
    )

-- The processor has been given to the task in slot `i`.
pub record Has (i : ℕ) (s : Sched) : Type 0 where
  pub idx : s.current_idx ≡ i
  pub pointed : s.current_task ≡ some i
  pub running : is_running (task s i).state ≡ true

schedule-Has :
    (rsp d : ℕ) {s : Sched}
    → IsSched s
    → at_most_one s.task_count ≡ false
    → Next s d
    → Has (slot s d) (schedule rsp s).1
schedule-Has rsp d h more n =
    let (saved, idx, running, pointed) = schedule-Next rsp d h more n in
    record { idx = idx; pointed = pointed; running = running }

Has-at : {i j : ℕ} {s : Sched} → i ≡ j → Has i s → Has j s
Has-at e h = rw e at h

fair :
    (bound d : ℕ) (rsp : ℕ → ℕ) {s : Sched}
    → d ≤ bound
    → IsSched s
    → at_most_one s.task_count ≡ false
    → 1 ≤ d
    → d < max_tasks
    → is_ready (task s (slot s d)).state ≡ true
    → (n : ℕ) × (1 ≤ n) × (n ≤ d) × Has (slot s d) (runs rsp n s)
unfolding runs
fair zero d rsp b h more lo hi w = absurd (omega arith)
fair (suc bound) d rsp {s} b h more lo hi w =
    let (k, le, next) = first_ready s d lo hi w in
    elim (ℕ_discrete k d) [
      | yes e ↦ (1, omega arith, lo, rw (← e) (schedule-Has (rsp 0) k h more next))
      | no ne ↦
          let (at, waits, many) = schedule_nearer (rsp 0) d k h more next (omega arith) hi w in
          let (n, pos_n, few, there) =
            fair bound (d - k) (λ j. rsp (suc j)) (omega (arith, next.near))
              (schedule-IsSched (rsp 0) h) many (omega arith) (omega arith) (rw at waits) in
          (suc n, omega arith, omega (arith, next.near), Has-at at there)
    ]

-- From a state that satisfies `IsSched` and counts more than one task, let `schedule` be called again and
-- again with nothing else in between, at whatever stack pointers. A READY task that stands `d` slots
-- behind the current one in the round of the table is then given the processor by one of the first `d`
-- calls: after it `current_idx` is the task's slot, `current_task` points to it and it is RUNNING.
pub schedule_fair :
    (d : ℕ) (rsp : ℕ → ℕ) {s : Sched}
    → IsSched s
    → at_most_one s.task_count ≡ false
    → 1 ≤ d
    → d < max_tasks
    → is_ready (task s (slot s d)).state ≡ true
    → (n : ℕ) × (1 ≤ n) × (n ≤ d) × Has (slot s d) (runs rsp n s)
schedule_fair d rsp = fair d d rsp (omega arith)
