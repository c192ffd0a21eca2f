-- ===== src/Sched/Choose.antt =====
-- Which task `Schedule` chooses: one of the highest priority among the waiting ones, the first such
-- behind the current task in cyclic order.
use ly_system_os.Prelude.{
  ℕ, zero, suc, ◌+◌, ◌-◌, ◌%◌, ◌≤◌, ◌<◌, ◌≡◌, refl, sym, ◌∙◌, ◌≢◌, ◌⊎◌, inl, inr, Bool, true, false,
  ◌&&◌, Option, none, some, List, [], ◌∷◌, arith, ltb, ◌==◌, if◌then◌else◌, ==_iff, Bool-cases,
  length,
}
use ly_system_os.Prelude.Int.{ℤ, pos, negsuc, ◌≤ℤ◌, ltb_ℤ, ◌==ℤ◌, ==ℤ-eq, ==ℤ_refl}
use ly_system_os.Sched.Defs.{
  max_task_count, TaskState, waiting, ◌is◌, Task, task_at, max_waiting, find_next, choose,
}

abbrev IsWaiting : List Task → ℕ → Type 0
IsWaiting ts i = (task_at ts i).state ≡ waiting

-- What the second pass finds: a bound on the waiting tasks' priorities, which one of them has
-- unless it is the start value.
record Highest (best : ℤ) (ts : List Task) (r : ℤ) : Type 0 where
  from : best ≤ℤ r
  bound : (i : ℕ) → i < length ts → IsWaiting ts i → (task_at ts i).priority ≤ℤ r
  reached :
      (r ≡ best) ⊎ ((i : ℕ) × (i < length ts) × IsWaiting ts i × ((task_at ts i).priority ≡ r))

Highest-cons :
    (best best' r : ℤ) (t : Task) (ts : List Task)
    → best ≤ℤ best'
    → (t.state ≡ waiting → t.priority ≤ℤ best')
    → ((best' ≡ best) ⊎ ((t.state ≡ waiting) × (t.priority ≡ best')))
    → Highest best' ts r
    → Highest best (t ∷ ts) r
Highest-cons best best' r t ts low covers origin h = record {
  from = omega (arith, h.from);
  bound = bound';
  reached = reached' h.reached origin;
}
  where
    bound' :
        (i : ℕ) → i < length (t ∷ ts) → IsWaiting (t ∷ ts) i → (task_at (t ∷ ts) i).priority ≤ℤ r
    bound' zero hi w = omega (arith, covers w, h.from)
    bound' (suc i) hi w = h.bound i (omega arith) w

    reached' :
        (r ≡ best') ⊎ ((i : ℕ) × (i < length ts) × IsWaiting ts i × ((task_at ts i).priority ≡ r))
        → ((best' ≡ best) ⊎ ((t.state ≡ waiting) × (t.priority ≡ best')))
        → (r ≡ best)
          ⊎ ((i : ℕ) × (i < length (t ∷ ts))
              × IsWaiting (t ∷ ts) i
              × ((task_at (t ∷ ts) i).priority ≡ r))
    reached' (inl e) (inl e') = inl (e ∙ e')
    reached' (inl e) (inr (w, e')) = inr (0, omega arith, w, e' ∙ sym e)
    reached' (inr (i, hi, w, e)) o = inr (suc i, omega arith, w, e)

max_waiting-Highest : (best : ℤ) (ts : List Task) → Highest best ts (max_waiting best ts)
unfolding max_waiting
max_waiting-Highest best [] = record {
  from = omega arith;
  bound = λ i hi. elim hi [ ];
  reached = inl refl;
}
max_waiting-Highest best (t ∷ ts) =
    let best' = if t.state is waiting && ltb_ℤ best t.priority then t.priority else best in
    Highest-cons best best' (max_waiting best' ts) t ts (ground arith) (ground arith) (ground arith)
      (max_waiting-Highest best' ts)

-- A slot that the third pass stops at.
abbrev matches : ℤ → List Task → ℕ → Bool
matches best ts i = (task_at ts i).state is waiting && (task_at ts i).priority ==ℤ best

-- The slot `k` steps behind `current`.
abbrev pub slot : ℕ → ℕ → ℕ
slot current k = (current + k) % max_task_count

data Found (n i current : ℕ) (best : ℤ) (ts : List Task) (r : Option ℕ) : Type 0 where
  nowhere :
      ((k : ℕ) → i ≤ k → k < i + n → matches best ts (slot current k) ≡ false)
      → r ≡ none
      → Found n i current best ts r
  behind :
      (k : ℕ)
      → i ≤ k
      → k < i + n
      → matches best ts (slot current k) ≡ true
      → ((j : ℕ) → i ≤ j → j < k → matches best ts (slot current j) ≡ false)
      → r ≡ some (slot current k)
      → Found n i current best ts r

Found-skip :
    (n i current : ℕ) (best : ℤ) (ts : List Task) (r : Option ℕ)
    → matches best ts (slot current i) ≡ false
    → Found n (i + 1) current best ts r
    → Found (suc n) i current best ts r
Found-skip n i current best ts r miss (nowhere all e) =
    nowhere
      (λ k lo hi. elim (Bool-cases (i == k)) [
        | inl same ↦ rw (← (==_iff i k).0 same) miss
        | inr other ↦ all k (ground arith) (omega arith)
      ])
      e
Found-skip n i current best ts r miss (behind k lo hi hit before e) =
    behind k (omega arith) (omega arith) hit
      (λ j lo' hi'. elim (Bool-cases (i == j)) [
        | inl same ↦ rw (← (==_iff i j).0 same) miss
        | inr other ↦ before j (ground arith) hi'
      ])
      e

find_next-Found :
    (n i current : ℕ) (best : ℤ) (ts : List Task)
    → Found n i current best ts (find_next n i current best ts)
unfolding find_next
find_next-Found zero i current best ts = nowhere (λ k lo hi. absurd (omega arith)) refl
find_next-Found (suc n) i current best ts = elim (Bool-cases (matches best ts (slot current i))) [
  | inl hit ↦
      behind i (omega arith) (omega arith) hit (λ j lo hi. absurd (omega arith))
        (rw (hit, find_next) refl)
  | inr miss ↦
      rw (miss, find_next)
        (Found-skip n i current best ts (find_next n (i + 1) current best ts) miss
          (find_next-Found n (i + 1) current best ts))
]

waiting_of_is : (a : TaskState) → (a is waiting) ≡ true → a ≡ waiting
waiting_of_is a h = ground arith

matches-parts :
    (best : ℤ) (ts : List Task) (i : ℕ)
    → matches best ts i ≡ true
    → IsWaiting ts i × ((task_at ts i).priority ≡ best)
matches-parts best ts i h = (
  waiting_of_is (task_at ts i).state (ground arith),
  ==ℤ-eq (task_at ts i).priority best (ground arith),
)

matches-intro :
    (best : ℤ) (ts : List Task) (i : ℕ)
    → IsWaiting ts i
    → (task_at ts i).priority ≡ best
    → matches best ts i ≡ true
matches-intro best ts i w e = rw (w, e) (==ℤ_refl best)

-- The choice of slot `n`: a waiting task, of the highest priority of all waiting tasks, and the
-- first of that priority behind `current`.
pub record Chosen (current : ℕ) (ts : List Task) (n : ℕ) : Type 0 where
  pub below : n < max_task_count
  pub ready : (task_at ts n).state ≡ waiting
  pub top :
      (i : ℕ)
      → i < max_task_count
      → (task_at ts i).state ≡ waiting
      → (task_at ts i).priority ≤ℤ (task_at ts n).priority
  pub distance : ℕ
  pub one_on : 1 ≤ distance
  pub around : distance ≤ max_task_count
  pub there : n ≡ slot current distance
  pub nearest :
      (j : ℕ)
      → 1 ≤ j
      → j < distance
      → (task_at ts (slot current j)).state ≡ waiting
      → (task_at ts (slot current j)).priority ≢ (task_at ts n).priority

-- Every priority is at least 0, as `sched_init`, `CreateTask` and `TaskFork` set them.
abbrev pub NonNegative : List Task → Type 0
NonNegative ts = (i : ℕ) → pos 0 ≤ℤ (task_at ts i).priority

module _ (current : ℕ) (ts : List Task) (size : length ts ≡ max_task_count)
    (nn : NonNegative ts) where
  -- Some slot has the number of steps that leads to it.
  steps_to :
      current < max_task_count
      → (i : ℕ) → i < max_task_count
      → (k : ℕ) × (1 ≤ k) × (k < 129) × (slot current k ≡ i)
  steps_to hc i hi = elim (Bool-cases (ltb current i)) [
    | inl above ↦ (i - current, ground arith, ground arith, ground arith)
    | inr under ↦ (i + 128 - current, ground arith, ground arith, ground arith)
  ]

  pub choose_cases :
      current < max_task_count
      → ((choose current ts ≡ none)
          × ((i : ℕ) → i < max_task_count → (task_at ts i).state ≢ waiting))
        ⊎ ((n : ℕ) × (choose current ts ≡ some n) × Chosen current ts n)
  unfolding choose
  choose_cases hc = elim (Bool-cases (best ==ℤ negsuc 0)) [
    | inl nobody ↦ inl (
      rw (nobody, choose) refl,
      λ i hi w.
          let low = rw (==ℤ-eq best (negsuc 0) nobody) at (high.bound i (omega (arith, size)) w) in
          absurd (omega (arith, nn i, low)),
    )
    | inr somebody ↦ elim (find_next-Found max_task_count 1 current best ts) [
      | nowhere all e ↦ absurd (missed somebody all high.reached)
      | behind k lo hi hit before e ↦
          let here = matches-parts best ts (slot current k) hit in
          inr (
            slot current k,
            rw (somebody, choose) e,
            record {
              below = omega arith;
              ready = here.0;
              top = λ i hi' w. rw here.1 (high.bound i (omega (arith, size)) w);
              distance = k;
              one_on = lo;
              around = omega arith;
              there = refl;
              nearest = λ j lo' hi' w e'.
                  let hit' = matches-intro best ts (slot current j) w (e' ∙ here.1) in
                  cc (before j lo' hi');
            },
          )
    ]
  ]
    where
      best : ℤ
      best = max_waiting (negsuc 0) ts

      high : Highest (negsuc 0) ts best
      high = max_waiting-Highest (negsuc 0) ts

      missed :
          (best ==ℤ negsuc 0) ≡ false
          → ((k : ℕ) → 1 ≤ k → k < 1 + max_task_count → matches best ts (slot current k) ≡ false)
          → (best ≡ negsuc 0)
            ⊎ ((i : ℕ) × (i < length ts) × IsWaiting ts i × ((task_at ts i).priority ≡ best))
          → ⊥
      missed somebody all (inl e) = cc (rw e at somebody)
      missed somebody all (inr (i, hi, w, e)) =
          let (k, lo, hi', there) = steps_to hc i (omega (arith, size)) in
          let hit = matches-intro best ts i w e in
          let miss = rw there at (all k lo (omega arith)) in cc
