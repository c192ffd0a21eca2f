-- ===== src/Sched/Schedule.antt =====
-- `Schedule`: its invariant, and what it does on each path.
use ly_system_os.Prelude.{ℕ, ◌<◌, ◌≡◌, refl, sym, ap, subst, ◌∙◌, ◌≢◌, arith, length}
use ly_system_os.Prelude.Int.{pos, ◌≤ℤ◌}
use ly_system_os.Sched.Defs.{
  max_task_count, empty, running, Allocator, Sched, task_at, reap_task, reap_from,
}
use ly_system_os.Sched.Choose.{NonNegative}
use ly_system_os.Sched.Reap.{
  live, reap_task-running, reap_task-priority, reap_task-first, length-reap_from, task_at-reap_from,
  reap_from-live,
}

-- The task table is whole, at most the current task runs, slot 0 is in use, priorities are at least
-- 0, and `TaskCount` counts the slots in use.
pub record IsValid {M : Type 0} (s : Sched M) : Type 0 where
  pub size : length s.table ≡ max_task_count
  pub inside : s.current < max_task_count
  pub alone : (i : ℕ) → (task_at s.table i).state ≡ running → i ≡ s.current
  pub idle : (task_at s.table 0).state ≢ empty
  pub ranks : NonNegative s.table
  pub counted : s.task_count ≡ pos (live s.table)

-- The state between the first pass and the choice.
unfoldable pub reaped : {M : Type 0} → Allocator M → Sched M → Sched M
reaped a s =
    let (ts, count, m) = reap_from a 0 s.table s.task_count s.mem in
    record s { table = ts; task_count = count; mem = m }

module _ {M : Type 0} (a : Allocator M) {s : Sched M} (v : IsValid s) where
  -- Each slot of the table after the first pass.
  pub task_at-reaped : (j : ℕ) → task_at (reaped a s).table j ≡ reap_task j (task_at s.table j)
  unfolding reaped
  task_at-reaped j =
      task_at-reap_from a 0 s.table s.task_count s.mem j
      ∙ ap (λ k. reap_task k (task_at s.table j)) (omega arith)

  reaped-length : length (reaped a s).table ≡ max_task_count
  unfolding reaped
  reaped-length = length-reap_from a 0 s.table s.task_count s.mem ∙ v.size

  pub reaped-current : (reaped a s).current ≡ s.current
  unfolding reaped
  reaped-current = refl

  reaped-live : (reaped a s).task_count ≡ pos (live (reaped a s).table)
  unfolding reaped
  reaped-live =
      reap_from-live a 0 0 s.table s.task_count s.mem (v.counted ∙ ap pos (omega arith))
      ∙ ap pos (omega arith)

  pub reaped-IsValid : IsValid (reaped a s)
  reaped-IsValid = record {
    size = reaped-length;
    inside = omega (arith, reaped-current, v.inside);
    alone = λ i h.
        v.alone i
          (reap_task-running i (task_at s.table i) (ap (λ t. t.state) (sym (task_at-reaped i)) ∙ h))
        ∙ sym reaped-current;
    idle = λ h.
        reap_task-first (task_at s.table 0) v.idle (ap (λ t. t.state) (sym (task_at-reaped 0)) ∙ h);
    ranks = λ i.
        subst (λ t. pos 0 ≤ℤ t.priority) (sym (task_at-reaped i))
          (reap_task-priority i (task_at s.table i) (v.ranks i));
    counted = reaped-live;
  }
