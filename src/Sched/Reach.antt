-- ===== src/Sched/Reach.antt =====
-- The states that the scheduler of kernel/sched/task.c can come to from sched_init.
use ly_system_os.Prelude.{
  ℕ, ◌≡◌, refl, sym, ap, subst, ◌∙◌, ◌≢◌, inl, inr, true, false, ◌&&◌, List, ◌==◌, Bool-cases,
  Option-cases,
}
use ly_system_os.Prelude.Int.{ℤ, pos, negsuc, pos_part, ltb_ℤ}
use ly_system_os.Sched.Defs.{
  max_task_count, empty, running, ◌is◌, Allocator, Sched, task_at, reap_from, next_slot, switch,
  schedule,
}
use ly_system_os.Sched.Schedule.{IsValid}
use ly_system_os.Sched.Invariant.{schedule-IsValid}
use ly_system_os.CString.{first}
use ly_system_os.Sched.Tasks.{exit_task-IsValid, kill_task-IsValid, sched_init-IsValid}
use ly_system_os.Sched.Create.{create_task_lem}
use ly_system_os.Sched.Sleep.{msleep_task-IsValid}
use ly_system_os.Sched.Life.{
  sched_init, first_empty, create_in, create_task, exit_task, kill_slot, kill_task, msleep_task,
}
use ly_system_os.Sched.Fork.{fork_in, task_fork, OnStack, task_fork_lem}

module _ {M : Type 0} (a : Allocator M) where
  -- One call of an operation. The current task is running where it ends, sleeps or kills; a new task gets a
  -- stack, or finds no empty slot.
  pub data Step : Sched M → Sched M → Type 0 where
    schedules : (rsp : ℕ) (s : Sched M) → Step s (schedule a rsp s).0
    creates :
        (thread_starter task : ℕ) (name : List ℕ) (ppid : ℤ) (s : Sched M)
        → (a.kmalloc 4096 s.mem).0 ≢ 0
        → Step s (create_task a thread_starter name task ppid s).1
    forks :
        (child_return rsp : ℕ) (s : Sched M)
        → (a.kmalloc 4096 s.mem).0 ≢ 0
        → OnStack (a.kmalloc 4096 s.mem).0 (task_at s.table s.current).kstack rsp
        → Step s (task_fork a child_return rsp s).1
    exits :
        (code : ℤ) (rsp : ℕ) (s : Sched M)
        → (task_at s.table s.current).state ≡ running
        → Step s (exit_task a code rsp s).1
    kills :
        (pid : ℤ) (rsp : ℕ) (s : Sched M)
        → (task_at s.table s.current).state ≡ running
        → Step s (kill_task a pid rsp s).1
    sleeps :
        (ms rsp : ℕ) (s : Sched M)
        → (task_at s.table s.current).state ≡ running
        → Step s (msleep_task a ms rsp s).0

  pub data Reached : Sched M → Type 0 where
    start : (s : Sched M) → Reached (sched_init s)
    then_step : {s t : Sched M} → Reached s → Step s t → Reached t

  in_use :
      (s : Sched M)
      → (task_at s.table s.current).state ≡ running
      → ((task_at s.table s.current).state is empty) ≡ false
  in_use s runs = rw runs refl

  switch-started : (rsp n : ℕ) (s : Sched M) → (switch rsp n s).0.started ≡ s.started
  unfolding switch
  switch-started rsp n s = refl

  pub schedule-started : (rsp : ℕ) (s : Sched M) → (schedule a rsp s).0.started ≡ s.started
  unfolding schedule
  schedule-started rsp s = elim (Bool-cases s.started) [
    | inr off ↦ rw (off, schedule) refl
    | inl on ↦
        elim (Option-cases (next_slot s.current (reap_from a 0 s.table s.task_count s.mem).0)) [
          | inl e ↦ rw (on, e, schedule) on
          | inr (n, e) ↦ rw (on, e, schedule) (switch-started rsp n _ ∙ on)
        ]
  ]

  exit_task-started :
      (code : ℤ) (rsp : ℕ) (s : Sched M) → (exit_task a code rsp s).1.started ≡ s.started
  unfolding exit_task
  exit_task-started code rsp s = elim (Bool-cases (s.current == 0)) [
    | inl first ↦ rw (first, exit_task) refl
    | inr other ↦ rw (other, exit_task) (schedule-started rsp _)
  ]

  kill_slot-started : (i rsp : ℕ) (s : Sched M) → (kill_slot a i rsp s).1.started ≡ s.started
  unfolding kill_slot
  kill_slot-started i rsp s = elim (Bool-cases ((task_at s.table i).state is empty)) [
    | inl gone ↦ rw (gone, kill_slot) refl
    | inr used ↦ elim (Bool-cases (i == s.current)) [
      | inl self ↦ rw (used, self, kill_slot) (exit_task-started (negsuc 0) rsp s)
      | inr other ↦ rw (used, other, kill_slot) refl
    ]
  ]

  kill_task-started :
      (pid : ℤ) (rsp : ℕ) (s : Sched M) → (kill_task a pid rsp s).1.started ≡ s.started
  unfolding kill_task
  kill_task-started pid rsp s =
      elim (Bool-cases (ltb_ℤ (pos 0) pid && ltb_ℤ pid (pos max_task_count))) [
        | inl good ↦ rw (good, kill_task) (kill_slot-started (pos_part pid) rsp s)
        | inr bad ↦ rw (bad, kill_task) refl
      ]

  msleep_task-started : (ms rsp : ℕ) (s : Sched M) → (msleep_task a ms rsp s).0.started ≡ s.started
  unfolding msleep_task
  msleep_task-started ms rsp s = elim (Bool-cases (ms == 0)) [
    | inl none_asked ↦ rw (none_asked, msleep_task) refl
    | inr asked ↦ rw (asked, msleep_task) (schedule-started rsp _)
  ]

  create_task-started :
      (thread_starter task : ℕ) (name : List ℕ) (ppid : ℤ) (s : Sched M)
      → (create_task a thread_starter name task ppid s).1.started ≡ s.started
  unfolding create_task create_in
  create_task-started thread_starter task name ppid s =
      elim (Bool-cases (ltb_ℤ s.task_count (pos max_task_count))) [
        | inr full ↦ rw (full, create_task) refl
        | inl room ↦ elim (Option-cases (first_empty 0 s.table)) [
          | inl e ↦ rw (room, e, create_task) refl
          | inr (id, e) ↦ elim (Bool-cases ((a.kmalloc 4096 s.mem).0 == 0)) [
            | inl no_memory ↦ rw (room, e, no_memory, create_task) refl
            | inr memory ↦ rw (room, e, memory, create_task) refl
          ]
        ]
      ]

  create_task-IsValid :
      (thread_starter task : ℕ) (name : List ℕ) (ppid : ℤ) (s : Sched M)
      → IsValid s
      → (a.kmalloc 4096 s.mem).0 ≢ 0
      → IsValid (create_task a thread_starter name task ppid s).1
  create_task-IsValid thread_starter task name ppid s v memory =
      elim (create_task_lem a thread_starter name task ppid v) [
        | inl (full, e) ↦ subst IsValid (sym (ap (λ r. r.1) e)) v
        | inr (id, f, inl (no_memory, leaked)) ↦ absurd (memory no_memory)
        | inr (id, f, inr (_, made)) ↦ made.valid
      ]

  task_fork-started :
      (child_return rsp : ℕ) (s : Sched M) → (task_fork a child_return rsp s).1.started ≡ s.started
  unfolding task_fork fork_in
  task_fork-started child_return rsp s = elim (Option-cases (first_empty 0 s.table)) [
    | inl e ↦ rw (e, task_fork) refl
    | inr (id, e) ↦ elim (Bool-cases ((a.kmalloc 4096 s.mem).0 == 0)) [
      | inl no_memory ↦ rw (e, no_memory, task_fork) refl
      | inr memory ↦ rw (e, memory, task_fork) refl
    ]
  ]

  task_fork-IsValid :
      (child_return rsp : ℕ) (s : Sched M)
      → IsValid s
      → (a.kmalloc 4096 s.mem).0 ≢ 0
      → OnStack (a.kmalloc 4096 s.mem).0 (task_at s.table s.current).kstack rsp
      → IsValid (task_fork a child_return rsp s).1
  task_fork-IsValid child_return rsp s v memory on =
      elim (task_fork_lem a child_return rsp v memory on) [
        | inl (full, e) ↦ subst IsValid (sym (ap (λ r. r.1) e)) v
        | inr (id, f, forked) ↦ forked.valid
      ]

  -- Every state that is reached from sched_init by calls of CreateTask, TaskFork, Schedule, ExitTask, KillTask and msleep, the last three by the task that runs, where kmalloc has memory for each stack, and a task that forks has its stack pointer in its stack: the scheduler is started and keeps its invariant.
  pub Reached-IsValid : (s : Sched M) → Reached s → IsValid s × (s.started ≡ true)
  unfolding sched_init
  Reached-IsValid s (start s0) = (sched_init-IsValid s0, refl)
  Reached-IsValid t (then_step before (schedules rsp s)) =
      let (v, on) = Reached-IsValid s before in
      (schedule-IsValid a rsp v on, schedule-started rsp s ∙ on)
  Reached-IsValid t (then_step before (creates starter task name ppid s memory)) =
      let (v, on) = Reached-IsValid s before in
      (
        create_task-IsValid starter task name ppid s v memory,
        create_task-started starter task name ppid s ∙ on,
      )
  Reached-IsValid t (then_step before (forks child_return rsp s memory at)) =
      let (v, on) = Reached-IsValid s before in
      (task_fork-IsValid child_return rsp s v memory at, task_fork-started child_return rsp s ∙ on)
  Reached-IsValid t (then_step before (exits code rsp s runs)) =
      let (v, on) = Reached-IsValid s before in
      (exit_task-IsValid a rsp v on (in_use s runs) code, exit_task-started code rsp s ∙ on)
  Reached-IsValid t (then_step before (kills pid rsp s runs)) =
      let (v, on) = Reached-IsValid s before in
      (kill_task-IsValid a rsp v on (in_use s runs) pid, kill_task-started pid rsp s ∙ on)
  Reached-IsValid t (then_step before (sleeps ms rsp s runs)) =
      let (v, on) = Reached-IsValid s before in
      (msleep_task-IsValid a ms rsp v on runs, msleep_task-started ms rsp s ∙ on)
