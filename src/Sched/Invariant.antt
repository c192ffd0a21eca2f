-- ===== src/Sched/Invariant.antt =====
-- `Schedule` keeps the invariant, and what it does on each path.
use ly_system_os.Prelude.{
  ℕ, ◌<◌, ◌≡◌, refl, ap, subst, ◌∙◌, ◌≢◌, ◌⊎◌, inl, inr, true, false, not, none, some, List, arith,
  ◌==◌, if◌then◌else◌, ==_iff, Bool-cases, length,
}
use ly_system_os.Sched.Defs.{
  max_task_count, TaskState, empty, running, waiting, ◌is◌, Task, Allocator, Sched, task_at,
  next_slot, switch, schedule,
}
use ly_system_os.Sched.Choose.{Chosen, NonNegative, choose_cases}
use ly_system_os.Sched.Schedule.{IsValid, reaped, reaped-IsValid, reaped-current}
use ly_system_os.Sched.Switch.{task_at-switch, switch-current, switch-loads, switch-IsValid}
use ly_system_os.CString.{first}

-- No task waits.
abbrev pub Nobody : List Task → Type 0
Nobody ts = (i : ℕ) → i < max_task_count → (task_at ts i).state ≢ waiting

-- Why `Schedule` returns to the current task: no other task waits, and the current one runs or is
-- the idle task; or the current task, itself waiting, is the choice.
abbrev pub Stays : ℕ → List Task → Type 0
Stays current ts =
    (Nobody ts × (((task_at ts current).state ≡ running) ⊎ (current ≡ 0)))
    ⊎ Chosen current ts current

-- Why it goes to slot `n`: the slot is the choice, or it is the idle task, no task waits, and the
-- current one does not run.
abbrev pub Goes : ℕ → List Task → ℕ → Type 0
Goes current ts n =
    Chosen current ts n ⊎ (Nobody ts × ((task_at ts current).state ≢ running) × (n ≡ 0))

running_of_is : (a : TaskState) → (a is running) ≡ true → a ≡ running
running_of_is a h = ground arith

next_slot_cases :
    (current : ℕ) (ts : List Task)
    → length ts ≡ max_task_count
    → NonNegative ts
    → current < max_task_count
    → ((next_slot current ts ≡ none) × Stays current ts)
      ⊎ ((n : ℕ) × (next_slot current ts ≡ some n) × (n ≢ current) × Goes current ts n)
unfolding next_slot
next_slot_cases current ts size nn hc = elim (choose_cases current ts size nn hc) [
  | inl (e, nobody) ↦ elim (Bool-cases ((task_at ts current).state is running)) [
    | inl runs ↦ inl (
      rw (e, runs, next_slot) refl,
      inl (nobody, inl (running_of_is (task_at ts current).state runs)),
    )
    | inr idle ↦ elim (Bool-cases (current == 0)) [
      | inl first ↦ inl (rw (e, idle, first, next_slot) refl, inl (nobody, inr (ground arith)))
      | inr other ↦ inr (
        0,
        rw (e, idle, other, next_slot) refl,
        ground arith,
        inr (nobody, λ r. ground arith, refl),
      )
    ]
  ]
  | inr (n, e, chosen) ↦ elim (Bool-cases (n == current)) [
    | inl self ↦ inl (
      rw (e, self, next_slot) refl,
      inr (subst (λ k. Chosen current ts k) ((==_iff n current).0 self) chosen),
    )
    | inr other ↦ inr (n, rw (e, other, next_slot) refl, ground arith, inl chosen)
  ]
]

-- The outcomes of `Schedule` of a started scheduler, where `ts` is the table after the first pass.
abbrev pub Scheduled : {M : Type 0} → Allocator M → ℕ → Sched M → Type 0
Scheduled a rsp s =
    let ts = (reaped a s).table in
    ((schedule a rsp s ≡ (reaped a s, none)) × Stays s.current ts)
    ⊎ ((n : ℕ) × (n ≢ s.current)
        × Goes s.current ts n
        × ((schedule a rsp s).1 ≡ some (task_at ts n).rsp)
        × ((schedule a rsp s).0.current ≡ n)
        × ((task_at (schedule a rsp s).0.table n).state ≡ running)
        × ((task_at (schedule a rsp s).0.table s.current).rsp ≡ rsp)
        × ((task_at (schedule a rsp s).0.table s.current).state ≡ (
            if (task_at ts s.current).state is running
            then waiting
            else (task_at ts s.current).state)))

module _ {M : Type 0} (a : Allocator M) (rsp : ℕ) {s : Sched M} (v : IsValid s)
    (on : s.started ≡ true) where
  started_test : not s.started ≡ false
  started_test = ap not on

  pub schedule_stays :
      next_slot s.current (reaped a s).table ≡ none → schedule a rsp s ≡ (reaped a s, none)
  unfolding schedule reaped
  schedule_stays e = rw (started_test, e, schedule) refl

  pub schedule_goes :
      (n : ℕ)
      → next_slot s.current (reaped a s).table ≡ some n
      → schedule a rsp s ≡ switch rsp n (reaped a s)
  unfolding schedule reaped
  schedule_goes n e = rw (started_test, e, schedule) refl

  pub slot_cases :
      ((next_slot s.current (reaped a s).table ≡ none) × Stays s.current (reaped a s).table)
      ⊎ ((n : ℕ) × (next_slot s.current (reaped a s).table ≡ some n)
          × (n ≢ s.current)
          × Goes s.current (reaped a s).table n)
  slot_cases =
      let w = reaped-IsValid a v in
      next_slot_cases s.current (reaped a s).table w.size w.ranks v.inside

  -- The slot that `Schedule` goes to is below the table's end and in use.
  pub Goes-used :
      (n : ℕ)
      → Goes s.current (reaped a s).table n
      → (n < max_task_count) × ((task_at (reaped a s).table n).state ≢ empty)
  Goes-used n (inl chosen) = (chosen.below, λ h. cc (chosen.ready))
  Goes-used n (inr (nobody, idle, first)) = rw first (omega arith, (reaped-IsValid a v).idle)

  -- `Schedule` of a started scheduler keeps the invariant: the table stays whole, no two tasks are
  -- marked as running, and `TaskCount` is the number of slots in use.
  pub schedule-IsValid : IsValid (schedule a rsp s).0
  schedule-IsValid = elim slot_cases [
    | inl (e, stays) ↦ rw (schedule_stays e) (reaped-IsValid a v)
    | inr (n, e, ne, goes) ↦
        let (below, used) = Goes-used n goes in
        rw (schedule_goes n e)
          (switch-IsValid rsp n (reaped-IsValid a v) below (λ h. ne (h ∙ reaped-current a v)) used)
  ]

  -- What `Schedule` of a started scheduler does after the first pass, which makes the table `ts`.
  -- Either it returns to the current task, with the table as the pass left it; or it goes to another
  -- slot: it marks that task as running, loads its stack pointer, saves that of the task it
  -- leaves, and marks that one as waiting if it was running.
  pub schedule_lem : Scheduled a rsp s
  schedule_lem = elim slot_cases [
    | inl (e, stays) ↦ inl (schedule_stays e, stays)
    | inr (n, e, ne, goes) ↦
        let (below, used) = Goes-used n goes in
        let w = reaped-IsValid a v in
        let ne' : n ≢ (reaped a s).current = λ h. ne (h ∙ reaped-current a v) in
        let run = schedule_goes n e in
        let at = task_at-switch rsp n w below ne' used in
        inr (
          n,
          ne,
          goes,
          ap (λ r. r.1) run ∙ switch-loads rsp n w below ne' used,
          ap (λ r. r.0.current) run ∙ switch-current rsp n w below ne' used,
          ap (λ r. (task_at r.0.table n).state) run ∙ ap (λ t. t.state) (at n) ∙ ground arith,
          ap (λ r. (task_at r.0.table s.current).rsp) run
              ∙ ap (λ t. t.rsp) (at s.current)
              ∙ ground (arith, reaped-current a v),
          ap (λ r. (task_at r.0.table s.current).state) run
              ∙ ap (λ t. t.state) (at s.current)
              ∙ ground (arith, reaped-current a v),
        )
  ]
