-- ===== src/Sched/Create.antt =====
-- `CreateTask`: which slot it takes, the stack that it lays out, and its error paths.
use ly_system_os.Prelude.{
  ℕ, ◌+◌, ◌-◌, ◌*◌, ◌≤◌, ◌<◌, ◌≡◌, refl, sym, ap, subst, ◌∙◌, ◌≢◌, ◌⊎◌, inl, inr, true, false, some,
  List, arith, ◌==◌, Bool-cases,
}
use ly_system_os.Prelude.Int.{ℤ, pos, ltb_ℤ, neg}
use ly_system_os.Sched.Defs.{
  max_task_name, max_task_count, waiting, Task, Allocator, Sched, task_at,
}
use ly_system_os.Sched.Reap.{live}
use ly_system_os.Sched.Schedule.{IsValid}
use ly_system_os.Prelude.Errno.{enomem}
use ly_system_os.CString.{strncpy}
use ly_system_os.Sched.Life.{first_empty, initial_frame, create_in, create_task}
use ly_system_os.Sched.Fill.{
  FirstEmpty, live-fill, live-lt, first_empty_cases, at_id, filled-IsValid,
}

-- The words of a new stack below `top`, where `switch_to` and then `iretq` pop them.
pub record Frame (task thread_starter top : ℕ) (st : ℕ × (ℕ → ℕ)) : Type 0 where
  pub pointer : st.0 + 96 ≡ top
  pub registers : (k : ℕ) → k < 6 → st.1 (st.0 + 8 * k) ≡ 0
  pub returns_to : st.1 (st.0 + 48) ≡ thread_starter
  pub rip : st.1 (st.0 + 56) ≡ task
  pub cs : st.1 (st.0 + 64) ≡ 0x08
  pub rflags : st.1 (st.0 + 72) ≡ 0x202
  pub rsp : st.1 (st.0 + 80) + 8 ≡ top
  pub ss : st.1 (st.0 + 88) ≡ 0x10

pub initial_frame-Frame :
    (task thread_starter top : ℕ) (word : ℕ → ℕ)
    → 96 ≤ top
    → Frame task thread_starter top (initial_frame task thread_starter (top, word))
unfolding initial_frame
initial_frame-Frame task thread_starter top word h = record {
  pointer = omega arith;
  registers = λ k hk. ground arith;
  returns_to = ground arith;
  rip = ground arith;
  cs = ground arith;
  rflags = ground arith;
  rsp = ground arith;
  ss = ground arith;
}

-- The slot `id` after a call that found no memory for the stack.
pub record Leaked {M : Type 0} (id : ℕ) (s : Sched M) (r : ℤ × Sched M) : Type 0 where
  pub code : r.0 ≡ neg enomem
  pub state : (task_at r.1.table id).state ≡ waiting
  pub old_rsp : (task_at r.1.table id).rsp ≡ (task_at s.table id).rsp
  pub uncounted : r.1.task_count ≡ s.task_count
  pub in_use : live r.1.table ≡ live s.table + 1

-- A new task in slot `id` with the stack at `kstack`.
pub record Created {M : Type 0} (thread_starter task kstack id : ℕ) (r : ℤ × Sched M) : Type 0 where
  pub code : r.0 ≡ pos id
  pub valid : IsValid r.1
  pub state : (task_at r.1.table id).state ≡ waiting
  pub stack : (task_at r.1.table id).kstack ≡ kstack
  pub frame : Frame task thread_starter (kstack + 4096) ((task_at r.1.table id).rsp, r.1.word)

module _ {M : Type 0} (a : Allocator M) (thread_starter task : ℕ) where
  -- The outcomes `r` of `CreateTask` on `s`.
  abbrev pub CreateOutcome : Sched M → ℤ × Sched M → Type 0
  CreateOutcome s r =
      ((live s.table ≡ max_task_count) × (r ≡ (neg 1, s)))
      ⊎ ((id : ℕ) × FirstEmpty s.table id
          × ((((a.kmalloc 4096 s.mem).0 ≡ 0) × Leaked id s r)
              ⊎ (((a.kmalloc 4096 s.mem).0 ≢ 0)
                  × Created thread_starter task (a.kmalloc 4096 s.mem).0 id r)))

module _ {M : Type 0} (a : Allocator M) (thread_starter : ℕ) (name : List ℕ) (task : ℕ) (ppid : ℤ)
    {s : Sched M} (v : IsValid s) where
  module _ (id : ℕ) (f : FirstEmpty s.table id) where
    -- The slot as it is filled in.
    abbrev filled : ℕ → ℕ → Task
    filled kstack rsp = record (task_at s.table id) {
      pid = pos id;
      ppid = ppid;
      state = waiting;
      priority = pos 1;
      name = strncpy (task_at s.table id).name name (max_task_name - 1);
      kstack = kstack;
      rsp = rsp;
    }

    create_in-Leaked :
        (a.kmalloc 4096 s.mem).0 ≡ 0 → Leaked id s (create_in a thread_starter id name task ppid s)
    unfolding create_in
    create_in-Leaked none_left =
        let test : ((a.kmalloc 4096 s.mem).0 == 0) ≡ true = ground arith in
        let t = filled 0 (task_at s.table id).rsp in
        rw (test, create_in)
          (record {
            code = refl;
            state = ap (λ t. t.state) (at_id v id f t);
            old_rsp = ap (λ t. t.rsp) (at_id v id f t);
            uncounted = refl;
            in_use = live-fill s.table id t f.below f.vacant refl;
          })

    create_in-Created :
        (a.kmalloc 4096 s.mem).0 ≢ 0
        → Created thread_starter task
            (a.kmalloc 4096 s.mem).0
            id
            (create_in a thread_starter id name task ppid s)
    unfolding create_in
    create_in-Created some_left =
        let test : ((a.kmalloc 4096 s.mem).0 == 0) ≡ false = ground arith in
        let top = (a.kmalloc 4096 s.mem).0 + 4096 in
        let t =
          filled (a.kmalloc 4096 s.mem).0 (initial_frame task thread_starter (top, s.word)).0 in
        rw (test, create_in)
          (record {
            code = refl;
            valid = filled-IsValid v id f t _ _ refl (omega arith);
            state = ap (λ t. t.state) (at_id v id f t);
            stack = ap (λ t. t.kstack) (at_id v id f t);
            frame =
                subst
                  (λ p.
                    Frame task thread_starter top
                      (p, (initial_frame task thread_starter (top, s.word)).1))
                  (sym (ap (λ t. t.rsp) (at_id v id f t)))
                  (initial_frame-Frame task thread_starter top s.word (omega arith));
          })

  -- `CreateTask` on a valid scheduler. With no empty slot it returns -1 and changes nothing. Otherwise
  -- it takes the first empty slot. If the heap has no memory for the stack it returns -ENOMEM, but
  -- the slot is left waiting, in use and not counted, with the stack pointer it had. If it has, the
  -- slot's number is returned, the scheduler is valid, and the task waits with a stack on which
  -- `switch_to` and `iretq` find the start of its function.
  pub create_task_lem :
      CreateOutcome a thread_starter task s (create_task a thread_starter name task ppid s)
  unfolding create_task
  create_task_lem = elim (first_empty_cases 0 s.table) [
    | inl (e, full) ↦
        let none_left : live s.table ≡ max_task_count = full ∙ v.size in
        let test : ltb_ℤ s.task_count (pos max_task_count) ≡ false = rw v.counted (ground arith) in
        inl (none_left, rw (test, create_task) refl)
    | inr (id, e, f) ↦
        let room = live-lt s.table id f.below f.vacant in
        let test : ltb_ℤ s.task_count (pos max_task_count) ≡ true =
          rw v.counted (ground (arith, v.size)) in
        let e' : first_empty 0 s.table ≡ some id = e ∙ ap some (omega arith) in
        rw (test, e', create_task)
          (inr (
            id,
            f,
            elim (Bool-cases ((a.kmalloc 4096 s.mem).0 == 0)) [
              | inl none_left ↦
                  let z : (a.kmalloc 4096 s.mem).0 ≡ 0 = ground arith in
                  inl (z, create_in-Leaked id f z)
              | inr some_left ↦
                  let z : (a.kmalloc 4096 s.mem).0 ≢ 0 = ground arith in
                  inr (z, create_in-Created id f z)
            ],
          ))
  ]
