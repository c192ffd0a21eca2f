-- ===== src/Tests/Sched.antt =====
-- The scheduler: the theorems at small tables, with an allocator that hands out one address.
use ly_system_os.Prelude.{
  ℕ, zero, suc, ◌≡◌, refl, sym, ap, ◌∙◌, ◌≢◌, ◌⊎◌, inl, inr, true, false, Option, none, some, List,
  [], ◌∷◌, arith, ◌==◌, if◌then◌else◌, ==_iff, set, replicate, get_or-replicate_self,
}
use ly_system_os.Prelude.Int.{pos, ◌≤ℤ◌, neg}
use ly_system_os.Sched.Defs.{
  max_task_count, empty, running, waiting, sleeping, ◌is◌, Task, empty_task, Allocator, Sched,
  task_at, reap_task, reap_from, max_waiting, find_next, choose, next_slot, switch, schedule,
}
use ly_system_os.Sched.Reap.{live}
use ly_system_os.Sched.Schedule.{IsValid}
use ly_system_os.Sched.Invariant.{Scheduled, schedule-IsValid, schedule_lem}
use ly_system_os.CString.{codes, strncpy}
use ly_system_os.Sched.Tasks.{Ended, task_at-set, set-IsValid, exit_task_lem, sched_init-IsValid}
use ly_system_os.Sched.Create.{create_task_lem, CreateOutcome}
use ly_system_os.Sched.Sleep.{Early, msleep_task-Early}
use ly_system_os.Sched.Life.{
  sched_init, first_empty, initial_frame, create_in, create_task, exit_task, msleep_task,
}
use ly_system_os.Sched.Faults.{
  divide_by_zero_handler, page_handler, page_handler_lem, general_protection_handler,
}
use ly_system_os.Sched.Reach.{
  Reached, schedules, creates, sleeps, start, then_step, Reached-IsValid,
}
use ly_system_os.Sched.Fill.{FirstEmpty}
use ly_system_os.Sched.Fork.{task_fork, OnStack, task_fork_lem, Forked}
use ly_system_os.Sched.Ticks.{calls, Sleeps, IsUp, calls-sleeping}

-- It hands out the address that it holds.
abbrev fixed : Allocator ℕ
fixed = record { kmalloc = λ n m. (m, m); kfree = λ p m. m }

abbrev boot : Sched ℕ
boot = record {
  table = [];
  task_count = pos 0;
  current = 0;
  started = false;
  word = λ a. 0;
  mem = 8192;
}

abbrev idle_only : Sched ℕ
idle_only = sched_init boot

idle_only-IsValid : IsValid idle_only
idle_only-IsValid = sched_init-IsValid boot

started_idle : idle_only.started ≡ true
unfolding sched_init
started_idle = refl

-- Slot 1 gets a task, and then runs.
abbrev with_task : Sched ℕ
with_task = (create_task fixed 77 (codes "task1") 99 (pos 0) idle_only).1

with_task_code : (create_task fixed 77 (codes "task1") 99 (pos 0) idle_only).0 ≡ pos 1
unfolding create_task first_empty create_in sched_init
with_task_code = refl

abbrev task_runs : Sched ℕ
task_runs = (schedule fixed 4000 with_task).0

with_task-IsValid : IsValid with_task
with_task-IsValid = elim (create_task_lem fixed 77 (codes "task1") 99 (pos 0) idle_only-IsValid) [
  | inl (full, e) ↦ let e' = ap (λ r. r.0) e in let c = with_task_code in ground arith
  | inr (id, f, inl (no_memory, leak)) ↦
      let e' = leak.code in let c = with_task_code in ground arith
  | inr (id, f, inr (memory, made)) ↦ made.valid
]

started_task : with_task.started ≡ true
unfolding create_task first_empty create_in sched_init
started_task = refl

task_runs-IsValid : IsValid task_runs
task_runs-IsValid = schedule-IsValid fixed 4000 with_task-IsValid started_task

current_one : task_runs.current ≡ 1
unfolding schedule reap_from next_slot choose max_waiting find_next switch create_task first_empty
    create_in sched_init strncpy initial_frame
current_one = refl

-- The table while the task runs.
abbrev slot_zero : Task
slot_zero = record empty_task {
  state = waiting;
  name = strncpy (replicate 32 0) (codes "kernel_idle") 32;
  rsp = 4000;
}

abbrev slot_one : Task
slot_one = record empty_task {
  pid = pos 1;
  state = running;
  priority = pos 1;
  name = strncpy (replicate 32 0) (codes "task1") 31;
  kstack = 8192;
  rsp = 12192;
}

task_runs-table : task_runs.table ≡ slot_zero ∷ slot_one ∷ replicate 126 empty_task
unfolding schedule reap_from next_slot choose max_waiting find_next switch create_task first_empty
    create_in sched_init strncpy initial_frame
task_runs-table = refl

task_runs-started : task_runs.started ≡ true
unfolding schedule reap_from next_slot choose max_waiting find_next switch create_task first_empty
    create_in sched_init initial_frame
task_runs-started = refl

task_runs-running : (task_at task_runs.table task_runs.current).state ≡ running
task_runs-running = rw (current_one, task_runs-table) refl

task_runs-used : ((task_at task_runs.table task_runs.current).state is empty) ≡ false
task_runs-used = rw (current_one, task_runs-table) refl

not_first : task_runs.current ≢ 0
not_first = omega (arith, current_one)

page_handler_lem_example :
    (r : Sched ℕ × Option ℕ) × (page_handler fixed 5000 task_runs ≡ some r)
    × (general_protection_handler fixed 5000 task_runs ≡ some r)
    × (divide_by_zero_handler fixed 5000 task_runs ≡ some r)
    × Ended task_runs.current (none, r.0, r.1)
page_handler_lem_example =
    page_handler_lem fixed 5000 task_runs-IsValid task_runs-started task_runs-used not_first

idle_panics : page_handler fixed 5000 (sched_init boot) ≡ none
unfolding page_handler sched_init
idle_panics = refl

schedule_lem_example : Scheduled fixed 4000 with_task
schedule_lem_example = schedule_lem fixed 4000 with_task-IsValid started_task

create_task_lem_example :
    CreateOutcome fixed 77 99 idle_only (create_task fixed 77 (codes "task1") 99 (pos 0) idle_only)
create_task_lem_example = create_task_lem fixed 77 (codes "task1") 99 (pos 0) idle_only-IsValid

exit_task_lem_example : Ended task_runs.current (exit_task fixed (pos 0) 5000 task_runs)
exit_task_lem_example =
    exit_task_lem fixed 5000 task_runs-IsValid task_runs-started task_runs-used (pos 0) not_first

-- The running task, asleep for 5 ticks.
abbrev sleeper : Task
sleeper = record slot_one { state = sleeping; msleep = 5 }

abbrev asleep : Sched ℕ
asleep = record task_runs { table = set task_runs.table task_runs.current sleeper }

asleep-IsValid : IsValid asleep
asleep-IsValid =
    set-IsValid task_runs-IsValid task_runs.current sleeper task_runs-IsValid.inside (λ h. cc)
      (sym task_runs-used) (omega arith)

asleep-Sleeps : Sleeps task_runs.current 5 asleep
asleep-Sleeps =
    let same : (if task_runs.current == task_runs.current
          then sleeper
          else task_at task_runs.table task_runs.current)
        ≡ sleeper =
      rw ((==_iff task_runs.current task_runs.current).1 refl) refl in
    let at =
      task_at-set task_runs-IsValid task_runs.current sleeper task_runs-IsValid.inside
        task_runs.current
      ∙ same in
    (ap (λ t. t.state) at, ap (λ t. t.msleep) at)

calls-sleeping_example :
    Sleeps task_runs.current 3 (calls fixed (5000 ∷ 4000 ∷ []) asleep)
    × IsUp task_runs.current (calls fixed (5000 ∷ 4000 ∷ 4000 ∷ 4000 ∷ 4000 ∷ []) asleep)
calls-sleeping_example =
    calls-sleeping fixed (5000 ∷ 4000 ∷ []) (4000 ∷ 4000 ∷ 4000 ∷ []) asleep-IsValid
      task_runs-started task_runs.current not_first (omega arith) asleep-Sleeps

-- No other task of the table comes up to priority 1.
none_equal :
    (ts : List Task)
    → ts ≡ slot_zero ∷ slot_one ∷ replicate 126 empty_task
    → (j : ℕ) → j ≢ 1
    → (reap_task j (task_at ts j)).state ≡ waiting
    → ¬ ((task_at ts 1).priority ≤ℤ (reap_task j (task_at ts j)).priority)
unfolding reap_task
none_equal ts e zero ne w = rw e (λ h. omega arith)
none_equal ts e (suc zero) ne w = absurd (ne refl)
none_equal ts e (suc (suc j)) ne w =
    let gone : task_at ts (suc (suc j)) ≡ empty_task =
      rw e (get_or-replicate_self 126 j empty_task) in
    λ h. ground arith

msleep_task-Early_example : Early task_runs.current (msleep_task fixed 10 5000 task_runs)
msleep_task-Early_example =
    msleep_task-Early fixed 10 5000 task_runs-IsValid task_runs-started task_runs-running
      (omega arith) (omega arith)
      (λ j ne w.
        rw current_one
          (none_equal task_runs.table task_runs-table j (λ h. ne (h ∙ sym current_one)) w))

boot_has_memory : (fixed.kmalloc 4096 idle_only.mem).0 ≢ 0
unfolding sched_init
boot_has_memory = ground arith

task_runs-Reached : Reached fixed task_runs
task_runs-Reached =
    then_step
      (then_step (start boot) (creates 77 99 (codes "task1") (pos 0) idle_only boot_has_memory))
      (schedules 4000 with_task)

-- The task sleeps for a second, and the timer comes.
Reached-IsValid_example :
    IsValid (schedule fixed 6000 (msleep_task fixed 1000 5000 task_runs).0).0
    × ((schedule fixed 6000 (msleep_task fixed 1000 5000 task_runs).0).0.started ≡ true)
Reached-IsValid_example =
    Reached-IsValid fixed (schedule fixed 6000 (msleep_task fixed 1000 5000 task_runs).0).0 (
      then_step (then_step task_runs-Reached (sleeps 1000 5000 task_runs task_runs-running))
        (schedules 6000 (msleep_task fixed 1000 5000 task_runs).0))

-- The running task, with memory for another stack.
abbrev before_fork : Sched ℕ
before_fork = record task_runs { mem = 20480 }

before_fork-IsValid : IsValid before_fork
before_fork-IsValid =
    let v = task_runs-IsValid in
    record {
      size = v.size;
      inside = v.inside;
      alone = v.alone;
      idle = v.idle;
      ranks = v.ranks;
      counted = v.counted;
    }

parent_stack : (task_at before_fork.table before_fork.current).kstack ≡ 8192
parent_stack = rw (current_one, task_runs-table) refl

before_fork-OnStack : OnStack 20480 (task_at before_fork.table before_fork.current).kstack 12000
before_fork-OnStack = rw parent_stack (record {
  above = omega arith;
  below = omega arith;
  child_fits = omega arith;
  parent_fits = omega arith;
})

task_fork_lem_example :
    ((live before_fork.table ≡ max_task_count)
      × (task_fork fixed 555 12000 before_fork ≡ (neg 1, before_fork)))
    ⊎ ((id : ℕ) × FirstEmpty before_fork.table id
        × Forked 555 12000 20480 id before_fork (task_fork fixed 555 12000 before_fork))
task_fork_lem_example =
    task_fork_lem fixed 555 12000 before_fork-IsValid (λ e. ground arith) before_fork-OnStack
