-- ===== src/Sched/Tasks.antt =====
-- Tasks that begin, sleep and end keep the scheduler's invariant, and what they leave in the table.
use ly_system_os.Prelude.{
  ℕ, zero, suc, ◌<◌, ◌≡◌, refl, sym, ap, subst, ◌∙◌, ◌≢◌, inl, inr, true, false, ◌&&◌, Option, none,
  some, ◌∷◌, arith, ◌==◌, if◌then◌else◌, ==_iff, Bool-cases, set, length-set, replicate, get_or-set,
  get_or-replicate_self,
}
use ly_system_os.Prelude.Int.{ℤ, pos, negsuc, pos_part, ◌≤ℤ◌, ltb_ℤ}
use ly_system_os.Sched.Defs.{
  max_task_count, empty, running, waiting, zombie, ◌is◌, Task, empty_task, Allocator, Sched,
  task_at, reap_task, schedule,
}
use ly_system_os.Sched.Reap.{live, live-set, reap_task-zombie}
use ly_system_os.Sched.Schedule.{IsValid, reaped, task_at-reaped}
use ly_system_os.Sched.Invariant.{Stays, schedule-IsValid, schedule_lem}
use ly_system_os.CString.{first}
use ly_system_os.Sched.Life.{sched_init, exit_task, kill_slot, kill_task}

sched_init-alone :
    (t : Task) (n i : ℕ) → (task_at (t ∷ replicate n empty_task) i).state ≡ running → i ≡ 0
sched_init-alone t n zero h = refl
sched_init-alone t n (suc i) h =
    let e = ap (λ t. t.state) (sym (get_or-replicate_self n i empty_task)) ∙ h in cc

sched_init-ranks :
    (t : Task) (n i : ℕ)
    → pos 0 ≤ℤ t.priority
    → pos 0 ≤ℤ (task_at (t ∷ replicate n empty_task) i).priority
sched_init-ranks t n zero h = h
sched_init-ranks t n (suc i) h = rw (get_or-replicate_self n i empty_task) (omega arith)

-- `sched_init` sets up a valid scheduler, whatever the table held.
pub sched_init-IsValid : {M : Type 0} (s : Sched M) → IsValid (sched_init s)
unfolding sched_init live
sched_init-IsValid s = record {
  size = refl;
  inside = omega arith;
  alone = λ i h. sched_init-alone _ 127 i h;
  idle = λ h. cc;
  ranks = λ i. sched_init-ranks _ 127 i (omega arith);
  counted = refl;
}

-- One slot rewritten, in use or not as before, and not marked as running.
module _ {M : Type 0} {s : Sched M} (v : IsValid s) (i : ℕ) (t : Task)
    (hi : i < max_task_count) where
  pub task_at-set :
      (j : ℕ) → task_at (set s.table i t) j ≡ (if i == j then t else task_at s.table j)
  task_at-set j = get_or-set s.table i j t empty_task (omega (arith, v.size))

  pub set-IsValid :
      t.state ≢ running
      → (t.state is empty) ≡ ((task_at s.table i).state is empty)
      → pos 0 ≤ℤ t.priority
      → IsValid (record s { table = set s.table i t })
  set-IsValid still same rank = record {
    size = length-set s.table i t ∙ v.size;
    inside = v.inside;
    alone =
        λ j h. let h' = ap (λ t. t.state) (sym (task_at-set j)) ∙ h in ground (arith, v.alone j);
    idle = subst (λ t. t.state ≢ empty) (sym (task_at-set 0)) (ground (arith, v.idle));
    ranks = λ j. subst (λ t. pos 0 ≤ℤ t.priority) (sym (task_at-set j)) (ground (arith, v.ranks j));
    counted = v.counted ∙ ap pos (sym (live-set s.table i t same));
  }

-- The outcome of `ExitTask` for the task of slot `old`.
abbrev pub Ended : {M : Type 0} → ℕ → Option ℤ × Sched M × Option ℕ → Type 0
Ended old r =
    (r.0 ≡ none)
    × (r.1.current ≢ old)
    × ((task_at r.1.table r.1.current).state ≡ running)
    × ((sp : ℕ) × (r.2 ≡ some sp))
    × ((task_at r.1.table old).state ≡ empty)

module _ {M : Type 0} (a : Allocator M) (rsp : ℕ) {s : Sched M} (v : IsValid s)
    (on : s.started ≡ true) where
  module _ (used : ((task_at s.table s.current).state is empty) ≡ false) where
    -- The table in which the current task is a zombie.
    dying : ℤ → Sched M
    dying code = record s {
      table =
          set s.table s.current
            (record (task_at s.table s.current) { state = zombie; exit_code = code });
    }

    dying-IsValid : (code : ℤ) → IsValid (dying code)
    unfolding dying
    dying-IsValid code =
        set-IsValid v s.current _ v.inside (λ h. cc) (ground arith) (v.ranks s.current)

    exit_task_other :
        (code : ℤ)
        → s.current ≢ 0
        → exit_task a code rsp s
          ≡ (none, (schedule a rsp (dying code)).0, (schedule a rsp (dying code)).1)
    unfolding exit_task dying
    exit_task_other code other =
        let test : (s.current == 0) ≡ false = ground arith in rw (test, exit_task) refl

    -- `ExitTask` keeps the invariant.
    pub exit_task-IsValid : (code : ℤ) → IsValid (exit_task a code rsp s).1
    unfolding exit_task dying
    exit_task-IsValid code = elim (Bool-cases (s.current == 0)) [
      | inl first ↦ rw (first, exit_task) v
      | inr other ↦
          rw (exit_task_other code (ground arith)) (schedule-IsValid a rsp (dying-IsValid code) on)
    ]

    kill_slot-IsValid : (i : ℕ) → i < max_task_count → IsValid (kill_slot a i rsp s).1
    unfolding kill_slot
    kill_slot-IsValid i hi = elim (Bool-cases ((task_at s.table i).state is empty)) [
      | inl gone ↦ rw (gone, kill_slot) v
      | inr used ↦ elim (Bool-cases (i == s.current)) [
        | inl self ↦ rw (used, self, kill_slot) (exit_task-IsValid (negsuc 0))
        | inr other ↦
            rw (used, other, kill_slot) (set-IsValid v i _ hi (λ h. cc) (sym used) (v.ranks i))
      ]
    ]

    -- `KillTask` of any number keeps the invariant: of a number out of range or an empty slot it
    -- changes nothing, another task becomes a zombie, and the current task ends.
    pub kill_task-IsValid : (pid : ℤ) → IsValid (kill_task a pid rsp s).1
    unfolding kill_task
    kill_task-IsValid pid =
        elim (Bool-cases (ltb_ℤ (pos 0) pid && ltb_ℤ pid (pos max_task_count))) [
          | inl good ↦ rw (good, kill_task) (kill_slot-IsValid (pos_part pid) (ground arith))
          | inr bad ↦ rw (bad, kill_task) v
        ]

    dead : (code : ℤ) → s.current ≢ 0 → task_at (reaped a (dying code)).table s.current ≡ empty_task
    unfolding dying
    dead code other =
        task_at-reaped a (dying-IsValid code) s.current
        ∙ ap (reap_task s.current) (task_at-set v s.current _ v.inside s.current)
        ∙ dead_slot
      where
        t : Task
        t = record (task_at s.table s.current) { state = zombie; exit_code = code }

        dead_slot :
            reap_task s.current (if s.current == s.current then t else task_at s.table s.current)
            ≡ empty_task
        dead_slot =
            rw ((==_iff s.current s.current).1 refl)
              (reap_task-zombie s.current t (ground arith) refl)

    -- A task other than the idle task that calls `ExitTask` never runs on: the call does not return,
    -- another slot becomes the current one and its task's stack pointer is loaded, and the slot of
    -- the task that ended is empty.
    pub exit_task_lem : (code : ℤ) → s.current ≢ 0 → Ended s.current (exit_task a code rsp s)
    unfolding dying
    exit_task_lem code other =
        rw (exit_task_other code other) (elim (schedule_lem a rsp (dying-IsValid code) on) [
          | inl (e, stays) ↦ absurd (dead_stays stays)
          | inr (n, ne, goes, loads, cur, run, saved, left) ↦ (
            refl,
            λ h. ne (sym cur ∙ h),
            rw cur run,
            (_, loads),
            left ∙ ap (λ t. if t.state is running then waiting else t.state) (dead code other),
          )
        ])
      where
        dead_stays : Stays s.current (reaped a (dying code)).table → ⊥
        dead_stays (inl (nobody, inl r)) =
            let e = ap (λ t. t.state) (sym (dead code other)) ∙ r in cc
        dead_stays (inl (nobody, inr z)) = other z
        dead_stays (inr c) = let e = ap (λ t. t.state) (sym (dead code other)) ∙ c.ready in cc
