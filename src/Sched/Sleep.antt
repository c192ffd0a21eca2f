-- ===== src/Sched/Sleep.antt =====
-- `msleep`: a tick of a sleep, and a sleep that ends before it began.
use ly_system_os.Prelude.{
  ℕ, ◌-◌, ◌/◌, ◌≤◌, ◌<◌, ◌≡◌, refl, sym, ap, ◌∙◌, ◌≢◌, inl, inr, true, false, Option, none, arith,
  ◌==◌, ==_iff, Bool-cases, set,
}
use ly_system_os.Prelude.Int.{◌≤ℤ◌}
use ly_system_os.Sched.Defs.{
  running, waiting, sleeping, Task, Allocator, Sched, task_at, reap_task, schedule,
}
use ly_system_os.Sched.Schedule.{IsValid, reaped, task_at-reaped, reaped-current}
use ly_system_os.Sched.Invariant.{Goes, schedule-IsValid, schedule_lem}
use ly_system_os.CString.{first}
use ly_system_os.Sched.Tasks.{task_at-set, set-IsValid}
use ly_system_os.Sched.Life.{msleep_task}

pub reap_task-sleeping :
    (i : ℕ) (t : Task)
    → t.state ≡ sleeping
    → 1 < t.msleep
    → reap_task i t ≡ record t { msleep = t.msleep - 1 }
unfolding reap_task
reap_task-sleeping i t z h = ground arith

pub reap_task-wakes :
    (i : ℕ) (t : Task)
    → t.state ≡ sleeping
    → t.msleep ≤ 1
    → reap_task i t ≡ record t { msleep = 0; state = waiting }
unfolding reap_task
reap_task-wakes i t z h = ground arith

-- A sleep that is over at once.
abbrev pub Early : {M : Type 0} → ℕ → Sched M × Option ℕ → Type 0
Early current r =
    (r.1 ≡ none) × (r.0.current ≡ current) × ((task_at r.0.table current).state ≡ waiting)

module _ {M : Type 0} (a : Allocator M) (ms rsp : ℕ) {s : Sched M} (v : IsValid s)
    (on : s.started ≡ true) where
  -- The table in which the current task sleeps.
  asleep : Sched M
  asleep = record s {
    table =
        set s.table s.current
          (record (task_at s.table s.current) { msleep = ms / 10; state = sleeping });
  }

  module _ (runs : (task_at s.table s.current).state ≡ running) where
    asleep-IsValid : IsValid asleep
    unfolding asleep
    asleep-IsValid = set-IsValid v s.current _ v.inside (λ h. cc) (ground arith) (v.ranks s.current)

    msleep_asleep : ms ≢ 0 → msleep_task a ms rsp s ≡ schedule a rsp asleep
    unfolding msleep_task asleep
    msleep_asleep h = let test : (ms == 0) ≡ false = ground arith in rw (test, msleep_task) refl

    -- `msleep` keeps the scheduler's invariant.
    pub msleep_task-IsValid : IsValid (msleep_task a ms rsp s).0
    unfolding msleep_task asleep
    msleep_task-IsValid = elim (Bool-cases (ms == 0)) [
      | inl none_asked ↦ rw (none_asked, msleep_task) v
      | inr asked ↦ rw (msleep_asleep (ground arith)) (schedule-IsValid a rsp asleep-IsValid on)
    ]

    woken :
        ms < 20
        → task_at (reaped a asleep).table s.current
          ≡ record (task_at s.table s.current) { msleep = 0; state = waiting }
    unfolding asleep
    woken short =
        task_at-reaped a asleep-IsValid s.current
        ∙ ap (reap_task s.current) (task_at-set v s.current _ v.inside s.current)
        ∙ rw ((==_iff s.current s.current).1 refl) (
            reap_task-wakes s.current
              (record (task_at s.table s.current) { msleep = ms / 10; state = sleeping }) refl
              (omega arith))

    other_slot :
        (n : ℕ)
        → n ≢ s.current
        → task_at (reaped a asleep).table n ≡ reap_task n (task_at s.table n)
    unfolding asleep
    other_slot n ne =
        task_at-reaped a asleep-IsValid n
        ∙ ap (reap_task n) (task_at-set v s.current _ v.inside n ∙ ground arith)

    -- A sleep of less than 20 milliseconds, asked for by the running task when no other task that
    -- waits, or wakes in this very pass, has its priority or a higher one, is over at once: `msleep`
    -- returns with no switch, and leaves the task, which runs on, marked as waiting.
    pub msleep_task-Early :
        ms ≢ 0
        → ms < 20
        → ((j : ℕ)
            → j ≢ s.current
            → (reap_task j (task_at s.table j)).state ≡ waiting
            → ¬ (
                (task_at s.table s.current).priority ≤ℤ (reap_task j (task_at s.table j)).priority))
        → Early s.current (msleep_task a ms rsp s)
    unfolding asleep
    msleep_task-Early some_ms short alone =
        rw (msleep_asleep some_ms) (elim (schedule_lem a rsp asleep-IsValid on) [
          | inl (e, stays) ↦ (
            ap (λ r. r.1) e,
            ap (λ r. r.0.current) e ∙ reaped-current a asleep-IsValid,
            ap (λ r. (task_at r.0.table s.current).state) e ∙ ap (λ t. t.state) (woken short),
          )
          | inr (n, ne, goes, loads, cur, run, saved, left) ↦ absurd (elsewhere n ne goes)
        ])
      where
        up : (task_at (reaped a asleep).table s.current).state ≡ waiting
        up = ap (λ t. t.state) (woken short)

        elsewhere : (n : ℕ) → n ≢ s.current → Goes s.current (reaped a asleep).table n → ⊥
        elsewhere n ne (inl c) =
            alone n ne (ap (λ t. t.state) (sym (other_slot n ne)) ∙ c.ready)
              (let top = c.top s.current v.inside up in rw (woken short, other_slot n ne) at top)
        elsewhere n ne (inr (nobody, still, first)) = nobody s.current v.inside up
