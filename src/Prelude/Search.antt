-- ===== src/Prelude/Search.antt =====
-- Searches for the first number that passes a test, as the loops over bits, entries and slots make.
use ly_system_os.Prelude.{
  ℕ, ◌+◌, ◌≤◌, ◌<◌, ◌≡◌, refl, sym, ap, ◌∙◌, ◌⊎◌, inl, inr, Bool, true, false, Option, none, some,
  arith, ◌==◌, ==_iff, Bool-cases,
}

-- The outcome of a search of the numbers from `lo` to `hi` for one that passes a test.
abbrev pub Outcome : (ℕ → Bool) → ℕ → ℕ → Option ℕ → Type 0
Outcome p lo hi r =
    ((r ≡ none) × ((j : ℕ) → lo ≤ j → j < hi → p j ≡ false))
    ⊎ ((k : ℕ) × (r ≡ some k)
        × (lo ≤ k)
        × (k < hi)
        × (p k ≡ true)
        × ((j : ℕ) → lo ≤ j → j < k → p j ≡ false))

pub Outcome-skip :
    (p : ℕ → Bool) (lo hi : ℕ) (r : Option ℕ)
    → p lo ≡ false
    → Outcome p (lo + 1) hi r
    → Outcome p lo hi r
Outcome-skip p lo hi r miss (inl (e, all)) = inl (
  e,
  λ j above below. elim (Bool-cases (lo == j)) [
    | inl same ↦ rw (← (==_iff lo j).0 same) miss
    | inr other ↦ all j (ground arith) below
  ],
)
Outcome-skip p lo hi r miss (inr (k, e, from, to, hit, before)) = inr (
  k,
  e,
  omega arith,
  to,
  hit,
  λ j above below. elim (Bool-cases (lo == j)) [
    | inl same ↦ rw (← (==_iff lo j).0 same) miss
    | inr other ↦ before j (ground arith) below
  ],
)

pub Outcome-empty : (p : ℕ → Bool) (lo : ℕ) → Outcome p lo lo none
Outcome-empty p lo = inl (refl, λ j above below. absurd (omega arith))

pub Outcome-hit : (p : ℕ → Bool) (lo hi : ℕ) → p lo ≡ true → lo < hi → Outcome p lo hi (some lo)
Outcome-hit p lo hi hit less =
    inr (lo, refl, omega arith, less, hit, λ j above below. absurd (omega arith))

-- Where the tests agree, so do the results.
pub Outcome-eq :
    (p q : ℕ → Bool) (lo hi : ℕ) (r s : Option ℕ)
    → ((j : ℕ) → j < hi → p j ≡ q j)
    → Outcome p lo hi r
    → Outcome q lo hi s
    → r ≡ s
Outcome-eq p q lo hi r s same (inl (e, all)) (inl (e', all')) = e ∙ sym e'
Outcome-eq p q lo hi r s same (inl (e, all)) (inr (k, e', from, to, hit, before)) =
    absurd (ground (arith, all k, same k))
Outcome-eq p q lo hi r s same (inr (k, e, from, to, hit, before)) (inl (e', all)) =
    absurd (ground (arith, all k, same k))
Outcome-eq p q lo hi r s same (inr (k, e, from, to, hit, before))
      (inr (k', e', from', to', hit', before')) =
    e
    ∙ ap some (
        same_place k k' (λ less. ground (arith, before' k, same k))
          (λ less. ground (arith, before k', same k')))
    ∙ sym e'
  where
    same_place : (a b : ℕ) → (a < b → ⊥) → (b < a → ⊥) → a ≡ b
    same_place a b left right = ground arith
