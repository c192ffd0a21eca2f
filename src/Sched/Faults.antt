-- ===== src/Sched/Faults.antt =====
-- The handlers of kernel/IRQ/traps.c that end or change tasks, get_uptime of kernel/IRQ/timer.c and the
-- list of tasks that ListTask prints. A fault of the idle task is a panic: none.
use ly_system_os.Prelude.{
  ℕ, ◌+◌, ◌/◌, ◌%◌, ◌^◌, ◌≡◌, refl, sym, ap, ◌∙◌, ◌≢◌, inl, inr, true, false, ◌&&◌, Option, none,
  some, List, [], ◌∷◌, arith, ◌==◌, if◌then◌else◌, Bool-cases, length,
}
use ly_system_os.Prelude.Int.{ℤ, pos, negsuc, ltb_ℤ}
use ly_system_os.Sched.Defs.{max_task_count, empty, ◌is◌, Task, Allocator, Sched, task_at, schedule}
use ly_system_os.Sched.Reap.{live}
use ly_system_os.Sched.Schedule.{IsValid}
use ly_system_os.CString.{text}
use ly_system_os.Sched.Tasks.{Ended, exit_task_lem}
use ly_system_os.Sched.Life.{exit_task, kill_slot, kill_task}
use ly_system_os.Io.{Devices}

module _ {M : Type 0} (a : Allocator M) where
  -- `divide_by_zero_handler`
  unfoldable pub divide_by_zero_handler : ℕ → Sched M → Option (Sched M × Option ℕ)
  divide_by_zero_handler rsp s =
      let ended = exit_task a (negsuc 0) rsp s in
      if s.current == 0 then none else some (ended.1, ended.2)

  -- The call of `Schedule` behind `KillTask`, if that returns.
  unfoldable pub then_schedule : ℕ → Option ℤ × Sched M × Option ℕ → Sched M × Option ℕ
  then_schedule rsp (none, s, loaded) = (s, loaded)
  then_schedule rsp (some code, s, loaded) = schedule a rsp s

  -- `page_handler`
  unfoldable pub page_handler : ℕ → Sched M → Option (Sched M × Option ℕ)
  page_handler rsp s =
      if s.current == 0 then none else some (then_schedule rsp (kill_task a (pos s.current) rsp s))

  -- `general_protection_handler`, which differs in the text of the panic.
  unfoldable pub general_protection_handler : ℕ → Sched M → Option (Sched M × Option ℕ)
  general_protection_handler rsp s =
      if s.current == 0 then none else some (then_schedule rsp (kill_task a (pos s.current) rsp s))

  -- `timer_callback`, with the count of ticks of 64 bits and the devices.
  unfoldable pub timer_callback :
      {D : Type 0} → Devices D → ℕ → ℕ × D × Sched M → ℕ × D × Sched M × Option ℕ
  timer_callback dev rsp (ticks, d, s) =
      let (s', loaded) = schedule a rsp s in
      ((ticks + 1) % 2 ^ 64, dev.outb 0x20 0x20 d, s', loaded)

-- `get_uptime`
unfoldable pub get_uptime : ℕ → ℕ
get_uptime ticks = ticks / 100

-- `ListTask`: the number and the name in each line.
unfoldable pub list_task_from : List Task → List (ℤ × List ℕ)
list_task_from [] = []
list_task_from (t ∷ ts) =
    let rest = list_task_from ts in if t.state is empty then rest else (t.pid, text t.name) ∷ rest

unfoldable pub list_task : {M : Type 0} → Sched M → List (ℤ × List ℕ)
list_task s = list_task_from s.table

length-list_task_from : (ts : List Task) → length (list_task_from ts) ≡ live ts
unfolding list_task_from live
length-list_task_from [] = refl
length-list_task_from (t ∷ ts) = elim (Bool-cases (t.state is empty)) [
  | inl gone ↦ let rest = length-list_task_from ts in rw gone (omega arith)
  | inr used ↦ let rest = length-list_task_from ts in rw used (omega arith)
]

-- ListTask prints as many lines as TaskCount says.
pub length-list_task :
    {M : Type 0} (s : Sched M) → IsValid s → pos (length (list_task s)) ≡ s.task_count
unfolding list_task
length-list_task s v = ap pos (length-list_task_from s.table) ∙ sym v.counted

module _ {M : Type 0} (a : Allocator M) (rsp : ℕ) {s : Sched M} (v : IsValid s)
    (on : s.started ≡ true) (used : ((task_at s.table s.current).state is empty) ≡ false) where
  -- A task that kills itself ends with the code -1.
  kill_task_self : s.current ≢ 0 → kill_task a (pos s.current) rsp s ≡ exit_task a (negsuc 0) rsp s
  unfolding kill_task kill_slot
  kill_task_self other =
      let inside = v.inside in
      let in_range : (ltb_ℤ (pos 0) (pos s.current) && ltb_ℤ (pos s.current) (pos max_task_count))
          ≡ true =
        ground arith in
      let self : (s.current == s.current) ≡ true = ground arith in rw (in_range, used, self) refl

  -- Nothing runs behind a call that does not return.
  returns : (r : Option ℤ × Sched M × Option ℕ) → r.0 ≡ none → then_schedule a rsp r ≡ (r.1, r.2)
  unfolding then_schedule
  returns (none, s', l) e = refl
  returns (some code, s', l) e = cc

  -- A fault, of a division, of protection or of a page, in a task other than the idle task of a valid and started scheduler, whatever the task's slot is marked as but empty: there is no panic, another task's stack pointer is loaded, and the slot of the task that faulted is empty; the handlers of the three kinds of fault do the same.
  pub page_handler_lem :
      s.current ≢ 0
      → (r : Sched M × Option ℕ) × (page_handler a rsp s ≡ some r)
        × (general_protection_handler a rsp s ≡ some r)
        × (divide_by_zero_handler a rsp s ≡ some r)
        × Ended s.current (none, r.0, r.1)
  unfolding page_handler general_protection_handler divide_by_zero_handler then_schedule
  page_handler_lem other =
      let r = exit_task a (negsuc 0) rsp s in
      let test : (s.current == 0) ≡ false = ground arith in
      let ended = exit_task_lem a rsp v on used (negsuc 0) other in
      (
        (r.1, r.2),
        rw (test, kill_task_self other) (ap some (returns r ended.0)),
        rw (test, kill_task_self other) (ap some (returns r ended.0)),
        rw test refl,
        (refl, ended.1, ended.2, ended.3, ended.4),
      )
