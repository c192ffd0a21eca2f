-- ===== src/Sched/Life.antt =====
-- kernel/sched/task.c and kernel/IRQ/timer.c: tasks that begin, sleep and end.
use ly_system_os.Prelude.{
  ℕ, ◌+◌, ◌-◌, ◌*◌, ◌/◌, ◌%◌, ◌^◌, true, false, not, ◌&&◌, Option, none, some, List, [], ◌∷◌, ◌==◌,
  if◌then◌else◌, set, replicate,
}
use ly_system_os.Prelude.Int.{ℤ, pos, negsuc, pos_part, ◌+ℤ◌, ltb_ℤ, neg}
use ly_system_os.Sched.Defs.{
  max_task_name, max_task_count, empty, running, waiting, sleeping, zombie, ◌is◌, Task, empty_task,
  Allocator, Sched, task_at, schedule,
}
use ly_system_os.Prelude.Errno.{esrch, enomem, eacces}
use ly_system_os.CString.{codes, strncpy}

-- `sched_init`: the cleared table with the idle task in slot 0.
unfoldable pub sched_init : {M : Type 0} → Sched M → Sched M
sched_init s = record s {
  table =
      record empty_task {
        state = running;
        name = strncpy (replicate 32 0) (codes "kernel_idle") max_task_name;
      }
      ∷ replicate 127 empty_task;
  current = 0;
  task_count = pos 1;
  started = true;
}

-- The search for an empty slot from slot `i` on; `none` is -1.
unfoldable pub first_empty : ℕ → List Task → Option ℕ
first_empty i [] = none
first_empty i (t ∷ ts) = elim (t.state is empty) [ true ↦ some i | false ↦ first_empty (i + 1) ts ]

-- `*--stack_ptr = v`.
unfoldable pub push : ℕ → ℕ × (ℕ → ℕ) → ℕ × (ℕ → ℕ)
push v (sp, word) = (sp - 8, λ a. if sp - 8 == a then v else word a)

-- The twelve pushes of `CreateTask`, from the top of the new stack: the frame that `iretq` pops, the
-- address that `switch_to` returns to, and the six registers that it pops.
unfoldable pub initial_frame : ℕ → ℕ → ℕ × (ℕ → ℕ) → ℕ × (ℕ → ℕ)
unfolding push
initial_frame task thread_starter st =
    let st1 = push 0x10 st in
    let st2 = push (st1.0 - 8 + 8) st1 in
    let st3 = push 0x202 st2 in
    let st4 = push 0x08 st3 in
    let st5 = push task st4 in
    let st6 = push thread_starter st5 in push 0 (push 0 (push 0 (push 0 (push 0 (push 0 st6)))))

module _ {M : Type 0} (a : Allocator M) where
  -- `CreateTask` once slot `id` is found: the slot is filled in before the stack is asked for.
  unfoldable pub create_in : ℕ → ℕ → List ℕ → ℕ → ℤ → Sched M → ℤ × Sched M
  create_in thread_starter id name task ppid s =
      let old = task_at s.table id in
      let t = record old {
        pid = pos id;
        ppid = ppid;
        state = waiting;
        priority = pos 1;
        name = strncpy old.name name (max_task_name - 1);
      } in
      let (kstack, m) = a.kmalloc 4096 s.mem in
      if kstack == 0
      then (neg enomem, record s { table = set s.table id (record t { kstack = 0 }); mem = m })
      else (let (sp, word) = initial_frame task thread_starter (kstack + 4096, s.word) in
          (
            pos id,
            record s {
              table = set s.table id (record t { kstack = kstack; rsp = sp });
              task_count = s.task_count +ℤ pos 1;
              word = word;
              mem = m;
            },
          ))

  -- `CreateTask`; `thread_starter` is the address of that label, `task` that of the function.
  unfoldable pub create_task : ℕ → List ℕ → ℕ → ℤ → Sched M → ℤ × Sched M
  create_task thread_starter name task ppid s =
      if not (ltb_ℤ s.task_count (pos max_task_count))
      then (neg 1, s)
      else elim (first_empty 0 s.table) [
        | none ↦ (neg 1, s)
        | some id ↦ create_in thread_starter id name task ppid s
      ]

  -- `ExitTask`, called where `switch_to` would save `rsp`: the code that it returns with, if it
  -- returns, and the stack pointer that it loads.
  unfoldable pub exit_task : ℤ → ℕ → Sched M → Option ℤ × Sched M × Option ℕ
  exit_task code rsp s =
      if s.current == 0
      then (some (neg eacces), s, none)
      else (let t = record (task_at s.table s.current) { state = zombie; exit_code = code } in
          let (s', loaded) = schedule a rsp (record s { table = set s.table s.current t }) in
          (none, s', loaded))

  -- `KillTask` behind its first test. To kill itself a task calls `ExitTask`, which returns only for
  -- task 0, which the first test turns away.
  unfoldable pub kill_slot : ℕ → ℕ → Sched M → Option ℤ × Sched M × Option ℕ
  kill_slot i rsp s =
      let target = task_at s.table i in
      if target.state is empty
      then (some (neg esrch), s, none)
      else if i == s.current
      then exit_task (negsuc 0) rsp s
      else (
        some (pos 0),
        record s { table = set s.table i (record target { state = zombie; exit_code = negsuc 0 }) },
        none,
      )

  unfoldable pub kill_task : ℤ → ℕ → Sched M → Option ℤ × Sched M × Option ℕ
  kill_task pid rsp s =
      if ltb_ℤ (pos 0) pid && ltb_ℤ pid (pos max_task_count)
      then kill_slot (pos_part pid) rsp s
      else (some (neg eacces), s, none)

  -- `msleep`: ticks are ten milliseconds.
  unfoldable pub msleep_task : ℕ → ℕ → Sched M → Sched M × Option ℕ
  msleep_task ms rsp s =
      if ms == 0
      then (s, none)
      else (let t = record (task_at s.table s.current) { msleep = ms / 10; state = sleeping } in
          schedule a rsp (record s { table = set s.table s.current t }))

  -- `sleep`, with its product of `uint32_t`.
  unfoldable pub sleep_task : ℕ → ℕ → Sched M → Sched M × Option ℕ
  sleep_task seconds rsp s = msleep_task (seconds * 1000 % 2 ^ 32) rsp s
