-- ===== src/Sched/Switch.antt =====
-- The switch to another slot keeps the invariant.
use ly_system_os.Prelude.{
  ℕ, ◌<◌, ◌≡◌, refl, sym, ap, subst, ◌∙◌, ◌≢◌, some, arith, ◌==◌, if◌then◌else◌, length, set,
  length-set, get_or-set,
}
use ly_system_os.Prelude.Int.{pos, ◌≤ℤ◌}
use ly_system_os.Sched.Defs.{
  max_task_count, empty, running, waiting, ◌is◌, Task, empty_task, Sched, task_at, switch,
}
use ly_system_os.Sched.Reap.{live, live-set}
use ly_system_os.Sched.Schedule.{IsValid}

-- `switch` from a valid state to another slot in use.
module _ {M : Type 0} (rsp n : ℕ) {s : Sched M} (v : IsValid s) (hn : n < max_task_count)
    (ne : n ≢ s.current) (used : (task_at s.table n).state ≢ empty) where
  -- The task that stops.
  abbrev stopped : Task
  stopped =
      let prev = task_at s.table s.current in
      record (if prev.state is running then record prev { state = waiting } else prev) { rsp = rsp }

  pub task_at-switch :
      (j : ℕ)
      → task_at (switch rsp n s).0.table j ≡ (
          if n == j
          then record (task_at s.table n) { state = running }
          else if s.current == j
          then stopped
          else task_at s.table j)
  unfolding switch
  task_at-switch j =
      get_or-set (set s.table s.current stopped) n j
        (record (task_at s.table n) { state = running }) empty_task
        (omega (arith, length-set s.table s.current stopped, v.size))
      ∙ ap (λ t. if n == j then record (task_at s.table n) { state = running } else t)
          (get_or-set s.table s.current j stopped empty_task (omega (arith, v.size, v.inside)))

  stopped-kept : (stopped.state is empty) ≡ ((task_at s.table s.current).state is empty)
  stopped-kept = ground arith

  stopped-ne-running : stopped.state ≢ running
  stopped-ne-running = ground arith

  next-kept : (running is empty) ≡ ((task_at (set s.table s.current stopped) n).state is empty)
  next-kept =
      rw (get_or-set s.table s.current n stopped empty_task (omega (arith, v.size, v.inside)))
        (ground arith)

  switch-live : live (switch rsp n s).0.table ≡ live s.table
  unfolding switch
  switch-live =
      live-set (set s.table s.current stopped) n (record (task_at s.table n) { state = running })
        next-kept
      ∙ live-set s.table s.current stopped stopped-kept

  switch-length : length (switch rsp n s).0.table ≡ max_task_count
  unfolding switch
  switch-length =
      length-set (set s.table s.current stopped) n (record (task_at s.table n) { state = running })
      ∙ length-set s.table s.current stopped
      ∙ v.size

  switch-count : (switch rsp n s).0.task_count ≡ s.task_count
  unfolding switch
  switch-count = refl

  pub switch-current : (switch rsp n s).0.current ≡ n
  unfolding switch
  switch-current = refl

  pub switch-loads : (switch rsp n s).1 ≡ some (task_at s.table n).rsp
  unfolding switch
  switch-loads = refl

  switch-alone : (i : ℕ) → (task_at (switch rsp n s).0.table i).state ≡ running → i ≡ n
  switch-alone i h =
      let h' = ap (λ t. t.state) (sym (task_at-switch i)) ∙ h in
      ground (arith, v.alone i, stopped-ne-running)

  pub switch-IsValid : IsValid (switch rsp n s).0
  switch-IsValid = record {
    size = switch-length;
    inside = omega (arith, switch-current, hn);
    alone = λ i h. switch-alone i h ∙ sym switch-current;
    idle = subst (λ t. t.state ≢ empty) (sym (task_at-switch 0)) (ground (arith, v.idle));
    ranks = λ i.
        subst (λ t. pos 0 ≤ℤ t.priority) (sym (task_at-switch i))
          (ground (arith, v.ranks i, v.ranks n, v.ranks s.current));
    counted = switch-count ∙ v.counted ∙ ap pos (sym switch-live);
  }
