-- ===== src/Sched/Fork.antt =====
-- `TaskFork` of kernel/sched/task.c, up to its return in the parent; the child starts at the label
-- `child_return`, from which it returns 0.
use ly_system_os.Prelude.{
  ℕ, ◌+◌, ◌-◌, ◌*◌, ◌%◌, ◌^◌, ◌≤◌, ◌<◌, ◌≡◌, refl, sym, ap, subst, ◌∙◌, ◌≢◌, ◌⊎◌, inl, inr, true,
  false, ◌&&◌, none, some, arith, ltb, leb, ◌==◌, if◌then◌else◌, set,
}
use ly_system_os.Prelude.Int.{ℤ, pos, ◌+ℤ◌, neg}
use ly_system_os.Sched.Defs.{
  max_task_name, max_task_count, waiting, Task, Allocator, Sched, task_at,
}
use ly_system_os.Sched.Reap.{live}
use ly_system_os.Sched.Schedule.{IsValid}
use ly_system_os.Prelude.Errno.{enomem}
use ly_system_os.CString.{strncpy}
use ly_system_os.Sched.Life.{first_empty, push}
use ly_system_os.Sched.Fill.{FirstEmpty, first_empty_cases, at_id, filled-IsValid}

-- The copy of a stack: the words that stand in it.
unfoldable pub copy_stack : ℕ → ℕ → (ℕ → ℕ) → ℕ → ℕ
copy_stack child parent word a =
    if leb child a && ltb a (child + 4096) then word (parent + (a - child)) else word a

-- The seven pushes: where `switch_to` returns to, and the registers that it pops.
unfoldable pub child_frame : ℕ → ℕ × (ℕ → ℕ) → ℕ × (ℕ → ℕ)
unfolding push
child_frame child_return st =
    push 0 (push 0 (push 0 (push 0 (push 0 (push 0 (push child_return st))))))

module _ {M : Type 0} (a : Allocator M) where
  -- What follows the search, in slot `id`; `rsp` is the stack pointer of the caller.
  unfoldable pub fork_in : ℕ → ℕ → ℕ → Sched M → ℤ × Sched M
  fork_in child_return id rsp s =
      let parent = task_at s.table s.current in
      let old = task_at s.table id in
      let t = record old {
        pid = pos id;
        ppid = parent.pid;
        state = waiting;
        priority = parent.priority;
        name = strncpy old.name parent.name (max_task_name - 1);
      } in
      let (kstack, m) = a.kmalloc 4096 s.mem in
      if kstack == 0
      then (neg enomem, record s { table = set s.table id (record t { kstack = 0 }); mem = m })
      else (let offset = (kstack + 2 ^ 64 - parent.kstack) % 2 ^ 64 in
          let (sp, word) =
            child_frame child_return
              ((rsp + offset) % 2 ^ 64, copy_stack kstack parent.kstack s.word) in
          (
            pos id,
            record s {
              table = set s.table id (record t { kstack = kstack; rsp = sp });
              task_count = s.task_count +ℤ pos 1;
              word = word;
              mem = m;
            },
          ))

  -- `TaskFork`
  unfoldable pub task_fork : ℕ → ℕ → Sched M → ℤ × Sched M
  task_fork child_return rsp s = elim (first_empty 0 s.table) [
    | none ↦ (neg 1, s)
    | some id ↦ fork_in child_return id rsp s
  ]

-- The stack of a child at `child`, of a parent at `parent` with the stack pointer `rsp`.
pub record IsCopy (child_return child parent rsp : ℕ) (old : ℕ → ℕ) (st : ℕ × (ℕ → ℕ))
    : Type 0 where
  pub pointer : st.0 + 56 ≡ child + (rsp - parent)
  pub registers : (k : ℕ) → k < 6 → st.1 (st.0 + 8 * k) ≡ 0
  pub returns_to : st.1 (st.0 + 48) ≡ child_return
  pub copied : (k : ℕ) → rsp ≤ parent + k → k < 4096 → st.1 (child + k) ≡ old (parent + k)

-- The caller's stack pointer lies in its stack, above which there is room for the pushes, and both stacks
-- lie in memory.
pub record OnStack (child parent rsp : ℕ) : Type 0 where
  pub above : parent + 56 ≤ rsp
  pub below : rsp ≤ parent + 4096
  pub child_fits : child + 4096 < 2 ^ 64
  pub parent_fits : parent + 4096 < 2 ^ 64

child_rsp :
    (child parent rsp : ℕ)
    → OnStack child parent rsp
    → (rsp + (child + 2 ^ 64 - parent) % 2 ^ 64) % 2 ^ 64 ≡ child + (rsp - parent)
child_rsp child parent rsp on =
    let above = on.above in
    let below = on.below in
    let child_fits = on.child_fits in let parent_fits = on.parent_fits in omega arith

-- The pushes leave what stands above alone.
frame_above :
    (child_return sp x : ℕ) (word : ℕ → ℕ)
    → 56 ≤ sp
    → sp ≤ x
    → (child_frame child_return (sp, word)).1 x ≡ word x
unfolding child_frame
frame_above child_return sp x word room above = ground arith

copy_stack-at :
    (child parent k : ℕ) (word : ℕ → ℕ)
    → k < 4096
    → copy_stack child parent word (child + k) ≡ word (parent + k)
unfolding copy_stack
copy_stack-at child parent k word small =
    let inside : (leb child (child + k) && ltb (child + k) (child + 4096)) ≡ true = ground arith in
    let same : child + k - child ≡ k = omega arith in rw (inside, same) refl

child_frame-IsCopy :
    (child_return child parent rsp : ℕ) (word : ℕ → ℕ)
    → OnStack child parent rsp
    → IsCopy child_return child parent rsp word
        (child_frame child_return (child + (rsp - parent), copy_stack child parent word))
unfolding child_frame copy_stack
child_frame-IsCopy child_return child parent rsp word on =
    let above = on.above in
    let below = on.below in
    record {
      pointer = omega arith;
      registers = λ k hk. ground arith;
      returns_to = ground arith;
      copied = λ k from to.
          frame_above child_return (child + (rsp - parent)) (child + k)
            (copy_stack child parent word) (omega arith) (omega arith)
          ∙ copy_stack-at child parent k word to;
    }

-- The slot `id` with the child of the current task, whose stack is at `kstack`.
pub record Forked {M : Type 0} (child_return rsp kstack id : ℕ) (s : Sched M) (r : ℤ × Sched M)
    : Type 0 where
  pub code : r.0 ≡ pos id
  pub valid : IsValid r.1
  pub state : (task_at r.1.table id).state ≡ waiting
  pub parent : (task_at r.1.table id).ppid ≡ (task_at s.table s.current).pid
  pub priority : (task_at r.1.table id).priority ≡ (task_at s.table s.current).priority
  pub stack : (task_at r.1.table id).kstack ≡ kstack
  pub copy :
      IsCopy child_return kstack
        (task_at s.table s.current).kstack
        rsp
        s.word
        ((task_at r.1.table id).rsp, r.1.word)

module _ {M : Type 0} (a : Allocator M) (child_return rsp : ℕ) {s : Sched M} (v : IsValid s)
    (memory : (a.kmalloc 4096 s.mem).0 ≢ 0)
    (on : OnStack (a.kmalloc 4096 s.mem).0 (task_at s.table s.current).kstack rsp) where
  fork_in-Forked :
      (id : ℕ)
      → FirstEmpty s.table id
      → Forked child_return rsp (a.kmalloc 4096 s.mem).0 id s (fork_in a child_return id rsp s)
  unfolding fork_in
  fork_in-Forked id f =
      let test : ((a.kmalloc 4096 s.mem).0 == 0) ≡ false = ground arith in
      let parent = task_at s.table s.current in
      let kstack = (a.kmalloc 4096 s.mem).0 in
      let st =
        child_frame child_return
          (kstack + (rsp - parent.kstack), copy_stack kstack parent.kstack s.word) in
      let t : Task = record (task_at s.table id) {
        pid = pos id;
        ppid = parent.pid;
        state = waiting;
        priority = parent.priority;
        name = strncpy (task_at s.table id).name parent.name (max_task_name - 1);
        kstack = kstack;
        rsp = st.0;
      } in
      let same = at_id v id f t in
      rw (test, fork_in, child_rsp kstack parent.kstack rsp on)
        (record {
          code = refl;
          valid = filled-IsValid v id f t _ _ refl (v.ranks s.current);
          state = ap (λ t. t.state) same;
          parent = ap (λ t. t.ppid) same;
          priority = ap (λ t. t.priority) same;
          stack = ap (λ t. t.kstack) same;
          copy =
              subst (λ p. IsCopy child_return kstack parent.kstack rsp s.word (p, st.1))
                (sym (ap (λ t. t.rsp) same))
                (child_frame-IsCopy child_return kstack parent.kstack rsp s.word on);
        })

  -- TaskFork on a valid scheduler, with memory for a stack, by a task whose stack pointer lies in its stack with room below: if the table is full, with no empty slot, it returns -1 and changes nothing; otherwise it takes the first empty slot and returns it, the scheduler is valid, and the child waits with its parent's priority and a copy of what stands above its parent's stack pointer, below which switch_to finds the registers and the address where the child starts.
  pub task_fork_lem :
      ((live s.table ≡ max_task_count) × (task_fork a child_return rsp s ≡ (neg 1, s)))
      ⊎ ((id : ℕ) × FirstEmpty s.table id
          × Forked child_return rsp (a.kmalloc 4096 s.mem).0 id s (task_fork a child_return rsp s))
  unfolding task_fork
  task_fork_lem = elim (first_empty_cases 0 s.table) [
    | inl (e, full) ↦ inl (full ∙ v.size, rw (e, task_fork) refl)
    | inr (id, e, f) ↦
        let e' : first_empty 0 s.table ≡ some id = e ∙ ap some (omega arith) in
        inr (id, f, rw (e', task_fork) (fork_in-Forked id f))
  ]
