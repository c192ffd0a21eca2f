-- ===== src/Sched/Defs.antt =====
-- The task table, and the operations of kernel/sched/task.c up to the choice of the next task.
use ly_system_os.Prelude.{
  ℕ, zero, suc, ◌+◌, ◌-◌, ◌%◌, Bool, true, false, not, ◌&&◌, Option, none, some, List, [], ◌∷◌, ltb,
  ◌==◌, if◌then◌else◌, set, get_or, replicate,
}
use ly_system_os.Prelude.Int.{ℤ, pos, negsuc, ◌-ℤ◌, ltb_ℤ, ◌==ℤ◌}

abbrev pub max_task_count : ℕ
max_task_count = 128

abbrev pub max_task_name : ℕ
max_task_name = 32

-- `enum TaskState`
pub data TaskState : Type 0 where
  empty running waiting blocked sleeping zombie : TaskState

abbrev state_code : TaskState → ℕ
state_code empty = 0
state_code running = 1
state_code waiting = 2
state_code blocked = 3
state_code sleeping = 4
state_code zombie = 5

-- `a == b` on the enumeration.
infix 50 ◌is◌
abbrev pub ◌is◌ : TaskState → TaskState → Bool
a is b = state_code a == state_code b

-- `struct Task`, less the fields that nothing uses. `name` is the array of 32 bytes.
pub record Task : Type 0 where
  pub pid : ℤ
  pub ppid : ℤ
  pub name : List ℕ
  pub state : TaskState
  pub priority : ℤ
  pub exit_code : ℤ
  pub rsp : ℕ
  pub kstack : ℕ
  pub msleep : ℕ

-- A slot that `memset` cleared.
abbrev pub empty_task : Task
empty_task = record {
  pid = pos 0;
  ppid = pos 0;
  name = replicate 32 0;
  state = empty;
  priority = pos 0;
  exit_code = pos 0;
  rsp = 0;
  kstack = 0;
  msleep = 0;
}

-- What the scheduler calls of the kernel heap.
pub record Allocator (M : Type 0) : Type 0 where
  pub kmalloc : ℕ → M → ℕ × M
  pub kfree : ℕ → M → M

-- The globals `TaskTable`, `TaskCount`, `CurrentTaskPID` (from `sched_init` on it is an index) and
-- `scheduler_started`, the 64-bit words in memory, and the heap's state.
pub record Sched (M : Type 0) : Type 0 where
  pub table : List Task
  pub task_count : ℤ
  pub current : ℕ
  pub started : Bool
  pub word : ℕ → ℕ
  pub mem : M

abbrev pub task_at : List Task → ℕ → Task
task_at ts i = get_or ts i empty_task

-- The first pass of `Schedule` at slot `i`: a zombie's slot is cleared, a sleeper counts down.
unfoldable pub reap_task : ℕ → Task → Task
reap_task i t =
    if ltb 0 i && t.state is zombie
    then empty_task
    else if t.state is sleeping
    then (if ltb 1 t.msleep
        then record t { msleep = t.msleep - 1 }
        else record t { msleep = 0; state = waiting })
    else t

module _ {M : Type 0} (a : Allocator M) where
  -- The first pass over the slots from `i` on, with `TaskCount` and the heap.
  unfoldable pub reap_from : ℕ → List Task → ℤ → M → List Task × ℤ × M
  unfolding reap_task
  reap_from i [] count m = ([], count, m)
  reap_from i (t ∷ ts) count m =
      let gone = ltb 0 i && t.state is zombie in
      let (ts', count', m') =
        reap_from (i + 1) ts (if gone then count -ℤ pos 1 else count)
          (if gone && not (t.kstack == 0) then a.kfree t.kstack m else m) in
      (reap_task i t ∷ ts', count', m')

-- The second pass: the highest priority of a waiting task, -1 if there is none.
unfoldable pub max_waiting : ℤ → List Task → ℤ
max_waiting best [] = best
max_waiting best (t ∷ ts) =
    max_waiting (if t.state is waiting && ltb_ℤ best t.priority then t.priority else best) ts

-- The third pass, from step `i` with `n` rounds left: the first waiting task of that priority, in
-- cyclic order behind the current one; `none` is -1.
unfoldable pub find_next : ℕ → ℕ → ℕ → ℤ → List Task → Option ℕ
find_next zero i current best ts = none
find_next (suc n) i current best ts =
    let idx = (current + i) % max_task_count in
    elim ((task_at ts idx).state is waiting && (task_at ts idx).priority ==ℤ best) [
      | true ↦ some idx
      | false ↦ find_next n (i + 1) current best ts
    ]

unfoldable pub choose : ℕ → List Task → Option ℕ
choose current ts =
    let best = max_waiting (negsuc 0) ts in
    if best ==ℤ negsuc 0 then none else find_next max_task_count 1 current best ts

-- The slot to run next: `none` where `Schedule` returns to the current task.
unfoldable pub next_slot : ℕ → List Task → Option ℕ
next_slot current ts = elim (choose current ts) [
  | none ↦
      if (task_at ts current).state is running then none else if current == 0 then none else some 0
  | some n ↦ if n == current then none else some n
]

module _ {M : Type 0} where
  -- The tail of `Schedule`: the states, `CurrentTaskPID`, and `switch_to`, which saves the stack
  -- pointer `rsp` of the task that stops and loads that of the next.
  unfoldable pub switch : ℕ → ℕ → Sched M → Sched M × Option ℕ
  switch rsp n s =
      let prev = task_at s.table s.current in
      let stopped = if prev.state is running then record prev { state = waiting } else prev in
      let next = record (task_at s.table n) { state = running } in
      (
        record s {
          table = set (set s.table s.current (record stopped { rsp = rsp })) n next;
          current = n;
        },
        some next.rsp,
      )

  -- `Schedule`, called where `switch_to` would save `rsp`. The second part is the stack pointer that
  -- it loads, if it switches.
  unfoldable pub schedule : Allocator M → ℕ → Sched M → Sched M × Option ℕ
  schedule a rsp s =
      if not s.started
      then (s, none)
      else (let (ts, count, m) = reap_from a 0 s.table s.task_count s.mem in
          let s' = record s { table = ts; task_count = count; mem = m } in
          elim (next_slot s'.current ts) [ none ↦ (s', none) | some n ↦ switch rsp n s' ])
