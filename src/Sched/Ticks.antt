-- ===== src/Sched/Ticks.antt =====
-- How long a task sleeps, in calls of `Schedule`.
use ly_system_os.Prelude.{
  ℕ, suc, ◌+◌, ◌<◌, ◌≡◌, refl, sym, ap, ◌∙◌, ◌≢◌, ◌⊎◌, inl, inr, true, false, List, [], ◌∷◌, ◌++◌,
  arith, ◌==◌, ==_iff, Bool-cases, length, length-append,
}
use ly_system_os.Sched.Defs.{
  running, waiting, sleeping, ◌is◌, Task, Allocator, Sched, task_at, reap_task, schedule,
}
use ly_system_os.Sched.Schedule.{IsValid, reaped, reaped-IsValid, task_at-reaped, reaped-current}
use ly_system_os.Sched.Invariant.{
  Goes, schedule-IsValid, schedule_stays, schedule_goes, slot_cases, Goes-used,
}
use ly_system_os.Sched.Switch.{task_at-switch, switch-current}
use ly_system_os.CString.{first}
use ly_system_os.Sched.Sleep.{reap_task-sleeping, reap_task-wakes}
use ly_system_os.Sched.Reach.{schedule-started}

module _ {M : Type 0} (a : Allocator M) where
  -- Calls of `Schedule` one behind the other, each where `switch_to` would save the stack pointer.
  unfoldable pub calls : List ℕ → Sched M → Sched M
  calls [] s = s
  calls (rsp ∷ rest) s = calls rest (schedule a rsp s).0

-- Slot `i` sleeps, with `k` ticks to go.
abbrev pub Sleeps : {M : Type 0} → ℕ → ℕ → Sched M → Type 0
Sleeps i k s = ((task_at s.table i).state ≡ sleeping) × ((task_at s.table i).msleep ≡ k)

-- Slot `i` waits, or it is the current one and runs.
abbrev pub IsUp : {M : Type 0} → ℕ → Sched M → Type 0
IsUp i s =
    ((task_at s.table i).state ≡ waiting)
    ⊎ (((task_at s.table i).state ≡ running) × (s.current ≡ i))

module _ {M : Type 0} (a : Allocator M) (rsp : ℕ) {s : Sched M} (v : IsValid s)
    (on : s.started ≡ true) (i : ℕ) (other : i ≢ 0)
    (still : (reap_task i (task_at s.table i)).state ≢ running) where
  -- What one call of `Schedule` makes of a slot that does not run, but for that of the idle task.
  abbrev After : Task → Sched M → Type 0
  After t r =
      ((task_at r.table i).msleep ≡ t.msleep)
      × (((task_at r.table i).state ≡ t.state)
          ⊎ (((task_at r.table i).state ≡ running) × (r.current ≡ i) × (t.state ≡ waiting)))

  chosen_waits :
      (n : ℕ)
      → Goes s.current (reaped a s).table n
      → n ≡ i
      → (reap_task i (task_at s.table i)).state ≡ waiting
  chosen_waits n (inl chosen) same =
      ap (λ t. t.state) (sym (task_at-reaped a v i))
      ∙ ap (λ j. (task_at (reaped a s).table j).state) (sym same)
      ∙ chosen.ready
  chosen_waits n (inr (nobody, idle, first)) same = absurd (other (sym same ∙ first))

  schedule-After : After (reap_task i (task_at s.table i)) (schedule a rsp s).0
  schedule-After = elim (slot_cases a rsp v on) [
    | inl (e, stays) ↦ rw (schedule_stays a rsp v on e, task_at-reaped a v i) (refl, inl refl)
    | inr (n, e, ne, goes) ↦
        let (below, used) = Goes-used a rsp v on n goes in
        let w = reaped-IsValid a v in
        let ne' : n ≢ (reaped a s).current = λ h. ne (h ∙ reaped-current a v) in
        let at = task_at-switch rsp n w below ne' used i in
        let cur = switch-current rsp n w below ne' used in
        let here = task_at-reaped a v i in
        rw (schedule_goes a rsp v on n e, at, cur)
          (elim (Bool-cases (n == i)) [
            | inl same ↦
                let e' = (==_iff n i).0 same in
                rw (same, e', here) (refl, inr (refl, refl, chosen_waits n goes e'))
            | inr away ↦ rw away (elim (Bool-cases ((reaped a s).current == i)) [
              | inl left ↦
                  let e' = (==_iff (reaped a s).current i).0 left in
                  let quiet : ((reap_task i (task_at s.table i)).state is running) ≡ false =
                    ground arith in
                  rw (left, e', here, quiet) (refl, inl refl)
              | inr apart ↦ rw (apart, here) (refl, inl refl)
            ])
          ])
  ]

module _ {M : Type 0} (a : Allocator M) where
  -- A tick of a sleep that goes on.
  schedule-Sleeps :
      (rsp : ℕ) {s : Sched M}
      → IsValid s
      → s.started ≡ true
      → (i k : ℕ) → i ≢ 0
      → 0 < k
      → Sleeps i (suc k) s
      → Sleeps i k (schedule a rsp s).0
  schedule-Sleeps rsp {s} v on i k other more (asleep, left) =
      let t = task_at s.table i in
      let tick = reap_task-sleeping i t asleep (omega arith) in
      let state = ap (λ t. t.state) tick ∙ asleep in
      let (same, kept) = schedule-After a rsp v on i other (λ r. let e = sym state ∙ r in cc) in
      (
        elim kept [
          | inl e ↦ e ∙ state
          | inr (_, _, waits) ↦ absurd (let e = sym state ∙ waits in cc)
        ],
        same ∙ ap (λ t. t.msleep) tick ∙ omega arith,
      )

  -- The last tick.
  schedule-IsUp :
      (rsp : ℕ) {s : Sched M}
      → IsValid s
      → s.started ≡ true
      → (i : ℕ) → i ≢ 0
      → Sleeps i 1 s
      → IsUp i (schedule a rsp s).0
  schedule-IsUp rsp {s} v on i other (asleep, left) =
      let t = task_at s.table i in
      let state = ap (λ t. t.state) (reap_task-wakes i t asleep (omega arith)) in
      let (same, kept) = schedule-After a rsp v on i other (λ r. let e = sym state ∙ r in cc) in
      elim kept [ inl e ↦ inl (e ∙ state) | inr (runs, here, _) ↦ inr (runs, here) ]

  calls-Sleeps :
      (rsps : List ℕ) {s : Sched M}
      → IsValid s
      → s.started ≡ true
      → (i k : ℕ) → i ≢ 0
      → 0 < k
      → Sleeps i (length rsps + k) s
      → Sleeps i k (calls a rsps s)
  unfolding calls
  calls-Sleeps [] v on i k other more (asleep, left) = (asleep, left ∙ omega arith)
  calls-Sleeps (rsp ∷ rest) {s} v on i k other more dozes =
      calls-Sleeps rest (schedule-IsValid a rsp v on) (schedule-started a rsp s ∙ on) i k other more
        (schedule-Sleeps rsp v on i (length rest + k) other (omega arith)
          (dozes.0, dozes.1 ∙ omega arith))

  calls-IsUp :
      (rsps : List ℕ) {s : Sched M}
      → IsValid s
      → s.started ≡ true
      → (i : ℕ) → i ≢ 0
      → 0 < length rsps
      → Sleeps i (length rsps) s
      → IsUp i (calls a rsps s)
  unfolding calls
  calls-IsUp [] v on i other some_call dozes = absurd (omega arith)
  calls-IsUp (rsp ∷ []) v on i other some_call dozes = schedule-IsUp rsp v on i other dozes
  calls-IsUp (rsp ∷ later ∷ rest) {s} v on i other some_call dozes =
      calls-IsUp (later ∷ rest) (schedule-IsValid a rsp v on) (schedule-started a rsp s ∙ on) i
        other (omega arith)
        (schedule-Sleeps rsp v on i (length (later ∷ rest)) other (omega arith) dozes)

  -- Calls of Schedule on a valid and started scheduler, with nothing else between them, and a slot other than that of the idle task that sleeps for as many ticks as there are calls: before the last calls, of which there is at least one, it still sleeps, with as many ticks to go as there are calls left; and behind them it waits, or it is the current slot and runs.
  pub calls-sleeping :
      (early late : List ℕ) {s : Sched M}
      → IsValid s
      → s.started ≡ true
      → (i : ℕ) → i ≢ 0
      → 0 < length late
      → Sleeps i (length early + length late) s
      → Sleeps i (length late) (calls a early s) × IsUp i (calls a (early ++ late) s)
  calls-sleeping early late v on i other some_left dozes =
      let all = length-append early late in
      (
        calls-Sleeps early v on i (length late) other some_left dozes,
        calls-IsUp (early ++ late) v on i other (omega arith) (dozes.0, dozes.1 ∙ sym all),
      )
