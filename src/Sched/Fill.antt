-- ===== src/Sched/Fill.antt =====
-- A slot of the task table that is empty, and one that is filled.
use ly_system_os.Prelude.{
  ℕ, zero, suc, ◌+◌, ◌≤◌, ◌<◌, ◌≡◌, refl, sym, ap, subst, ◌∙◌, ◌≢◌, ◌⊎◌, inl, inr, true, false,
  none, some, List, [], ◌∷◌, arith, ==_iff, Bool-cases, length, set, length-set,
}
use ly_system_os.Prelude.Int.{pos, ◌+ℤ◌, ◌≤ℤ◌}
use ly_system_os.Sched.Defs.{TaskState, empty, running, waiting, ◌is◌, Task, Sched, task_at}
use ly_system_os.Sched.Choose.{NonNegative}
use ly_system_os.Sched.Reap.{live}
use ly_system_os.Sched.Schedule.{IsValid}
use ly_system_os.Sched.Tasks.{task_at-set}
use ly_system_os.Sched.Life.{first_empty}

-- Slot `i` is the first empty one.
pub record FirstEmpty (ts : List Task) (i : ℕ) : Type 0 where
  pub below : i < length ts
  pub vacant : (task_at ts i).state ≡ empty
  pub before : (j : ℕ) → j < i → (task_at ts j).state ≢ empty

empty_of_is : (a : TaskState) → (a is empty) ≡ true → a ≡ empty
empty_of_is a h = ground arith

live-le : (ts : List Task) → live ts ≤ length ts
unfolding live
live-le [] = omega arith
live-le (t ∷ ts) = ground (arith, live-le ts)

-- With an empty slot not all are in use.
pub live-lt :
    (ts : List Task) (i : ℕ) → i < length ts → (task_at ts i).state ≡ empty → live ts < length ts
unfolding live
live-lt [] i h e = elim h [ ]
live-lt (t ∷ ts) zero h e = rw e (omega (arith, live-le ts))
live-lt (t ∷ ts) (suc i) h e = ground (arith, live-lt ts i)

-- Filling an empty slot adds one.
pub live-fill :
    (ts : List Task) (i : ℕ) (t : Task)
    → i < length ts
    → (task_at ts i).state ≡ empty
    → (t.state is empty) ≡ false
    → live (set ts i t) ≡ live ts + 1
unfolding live
live-fill [] i t h e used = elim h [ ]
live-fill (x ∷ xs) zero t h e used = rw (used, e) (omega arith)
live-fill (x ∷ xs) (suc i) t h e used = omega (arith, live-fill xs i t (omega arith) e used)

FirstEmpty-cons :
    (t : Task) (ts : List Task) (i : ℕ)
    → (t.state is empty) ≡ false
    → FirstEmpty ts i
    → FirstEmpty (t ∷ ts) (suc i)
FirstEmpty-cons t ts i used f = record {
  below = omega (arith, f.below);
  vacant = f.vacant;
  before = before';
}
  where
    before' : (j : ℕ) → j < suc i → (task_at (t ∷ ts) j).state ≢ empty
    before' zero h = λ e. ground arith
    before' (suc j) h = f.before j (omega arith)

pub first_empty_cases :
    (k : ℕ) (ts : List Task)
    → ((first_empty k ts ≡ none) × (live ts ≡ length ts))
      ⊎ ((i : ℕ) × (first_empty k ts ≡ some (k + i)) × FirstEmpty ts i)
unfolding first_empty live
first_empty_cases k [] = inl (refl, refl)
first_empty_cases k (t ∷ ts) = elim (Bool-cases (t.state is empty)) [
  | inl vacant ↦ inr (
    0,
    rw (vacant, first_empty) (ap some (omega arith)),
    record { below = omega arith; vacant = empty_of_is t.state vacant; before = λ j h. elim h [ ] },
  )
  | inr used ↦ elim (first_empty_cases (k + 1) ts) [
    | inl (e, full) ↦ inl (rw (used, e, first_empty) refl, rw used (omega (arith, full)))
    | inr (i, e, f) ↦
        inr
          (suc i, rw (used, first_empty) (e ∙ ap some (omega arith)), FirstEmpty-cons t ts i used f)
  ]
]

-- A task that waits, in the first empty slot.
module _ {M : Type 0} {s : Sched M} (v : IsValid s) (id : ℕ) (f : FirstEmpty s.table id) where
  pub at_id : (t : Task) → task_at (set s.table id t) id ≡ t
  at_id t = task_at-set v id t (omega (arith, f.below, v.size)) id ∙ rw ((==_iff id id).1 refl) refl

  -- The table with the new task in it.
  filled-alone :
      (t : Task)
      → t.state ≡ waiting
      → (j : ℕ) → (task_at (set s.table id t) j).state ≡ running
      → j ≡ s.current
  filled-alone t w j h =
      let h' =
        ap (λ t. t.state) (sym (task_at-set v id t (omega (arith, f.below, v.size)) j)) ∙ h in
      ground (arith, v.alone j)

  filled-idle : (t : Task) → t.state ≡ waiting → (task_at (set s.table id t) 0).state ≢ empty
  filled-idle t w =
      subst (λ t. t.state ≢ empty) (sym (task_at-set v id t (omega (arith, f.below, v.size)) 0))
        (ground (arith, v.idle))

  filled-ranks : (t : Task) → pos 0 ≤ℤ t.priority → NonNegative (set s.table id t)
  filled-ranks t w j =
      subst (λ t. pos 0 ≤ℤ t.priority) (sym (task_at-set v id t (omega (arith, f.below, v.size)) j))
        (ground (arith, v.ranks j))

  counted_up :
      (t : Task) → t.state ≡ waiting → s.task_count +ℤ pos 1 ≡ pos (live (set s.table id t))
  unfolding ◌+ℤ◌
  counted_up t w =
      rw (v.counted, live-fill s.table id t f.below f.vacant (ground arith)) (ground arith)

  -- The scheduler with the new task in it, counted.
  pub filled-IsValid :
      (t : Task) (word : ℕ → ℕ) (mem : M)
      → t.state ≡ waiting
      → pos 0 ≤ℤ t.priority
      → IsValid (record s {
        table = set s.table id t;
        task_count = s.task_count +ℤ pos 1;
        word = word;
        mem = mem;
      })
  filled-IsValid t word mem w rank = record {
    size = length-set s.table id t ∙ v.size;
    inside = v.inside;
    alone = filled-alone t w;
    idle = filled-idle t w;
    ranks = filled-ranks t rank;
    counted = counted_up t w;
  }
