-- ===== src/Sched/Reap.antt =====
-- The first pass of `Schedule`, slot by slot, and what it does to the count of tasks.
use ly_system_os.Prelude.{
  ℕ, zero, suc, ◌+◌, ◌<◌, ◌≡◌, refl, sym, ap, ◌∙◌, ◌≢◌, not, ◌&&◌, List, [], ◌∷◌, arith, ltb, ◌==◌,
  if◌then◌else◌, length, set,
}
use ly_system_os.Prelude.Int.{ℤ, pos, ◌-ℤ◌, ◌≤ℤ◌}
use ly_system_os.Sched.Defs.{
  empty, running, zombie, ◌is◌, Task, empty_task, Allocator, task_at, reap_task, reap_from,
}

-- The slots that are not empty.
unfoldable pub live : List Task → ℕ
live [] = 0
live (t ∷ ts) = (if t.state is empty then 0 else 1) + live ts

pub live-set :
    (ts : List Task) (i : ℕ) (t : Task)
    → (t.state is empty) ≡ ((task_at ts i).state is empty)
    → live (set ts i t) ≡ live ts
unfolding live
live-set [] i t h = refl
live-set (x ∷ xs) zero t h = rw h refl
live-set (x ∷ xs) (suc i) t h = omega (arith, live-set xs i t h)

module _ (i : ℕ) (t : Task) where
  pub reap_task-running : (reap_task i t).state ≡ running → t.state ≡ running
  unfolding reap_task
  reap_task-running h = ground arith

  pub reap_task-priority : pos 0 ≤ℤ t.priority → pos 0 ≤ℤ (reap_task i t).priority
  unfolding reap_task
  reap_task-priority h = ground arith

pub reap_task-first : (t : Task) → t.state ≢ empty → (reap_task 0 t).state ≢ empty
unfolding reap_task
reap_task-first t h = ground arith

-- A zombie's slot is cleared, but for slot 0.
pub reap_task-zombie : (i : ℕ) (t : Task) → 0 < i → t.state ≡ zombie → reap_task i t ≡ empty_task
unfolding reap_task
reap_task-zombie i t h z = ground arith

reap_task-empty : (i : ℕ) → reap_task i empty_task ≡ empty_task
unfolding reap_task
reap_task-empty i = ground arith

count_step :
    (k n i : ℕ) (t : Task) (c : ℤ)
    → c ≡ pos (k + ((if t.state is empty then 0 else 1) + n))
    → (if ltb 0 i && t.state is zombie then c -ℤ pos 1 else c)
      ≡ pos (k + (if (reap_task i t).state is empty then 0 else 1) + n)
unfolding reap_task ◌-ℤ◌
count_step k n i t c h = ground arith

module _ {M : Type 0} (a : Allocator M) where
  pub length-reap_from :
      (i : ℕ) (ts : List Task) (c : ℤ) (m : M) → length (reap_from a i ts c m).0 ≡ length ts
  unfolding reap_from
  length-reap_from i [] c m = refl
  length-reap_from i (t ∷ ts) c m =
      let gone = ltb 0 i && t.state is zombie in
      ap suc (
        length-reap_from (i + 1) ts (if gone then c -ℤ pos 1 else c)
          (if gone && not (t.kstack == 0) then a.kfree t.kstack m else m))

  pub task_at-reap_from :
      (i : ℕ) (ts : List Task) (c : ℤ) (m : M) (j : ℕ)
      → task_at (reap_from a i ts c m).0 j ≡ reap_task (i + j) (task_at ts j)
  unfolding reap_from
  task_at-reap_from i [] c m j = sym (reap_task-empty (i + j))
  task_at-reap_from i (t ∷ ts) c m zero = ap (λ k. reap_task k t) (omega arith)
  task_at-reap_from i (t ∷ ts) c m (suc j) =
      let gone = ltb 0 i && t.state is zombie in
      task_at-reap_from (i + 1) ts (if gone then c -ℤ pos 1 else c)
        (if gone && not (t.kstack == 0) then a.kfree t.kstack m else m) j
      ∙ ap (λ k. reap_task k (task_at ts j)) (omega arith)

  -- The count falls by one for each slot that is cleared.
  pub reap_from-live :
      (k i : ℕ) (ts : List Task) (c : ℤ) (m : M)
      → c ≡ pos (k + live ts)
      → (reap_from a i ts c m).1 ≡ pos (k + live (reap_from a i ts c m).0)
  unfolding reap_from live
  reap_from-live k i [] c m h = h
  reap_from-live k i (t ∷ ts) c m h =
      let gone = ltb 0 i && t.state is zombie in
      let ih =
        reap_from-live (k + (if (reap_task i t).state is empty then 0 else 1)) (i + 1) ts
          (if gone then c -ℤ pos 1 else c)
          (if gone && not (t.kstack == 0) then a.kfree t.kstack m else m)
          (count_step k (live ts) i t c h) in
      ih ∙ ap pos (omega arith)
