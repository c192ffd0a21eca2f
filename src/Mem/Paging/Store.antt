-- ===== src/Mem/Paging/Store.antt =====
-- Entries of page tables in the store: a table fills a frame, and the entries of different tables stand
-- apart.
use ly_system_os.Prelude.{
  ℕ, zero, suc, ◌+◌, ◌*◌, ◌≤◌, ◌<◌, ◌≡◌, refl, sym, ◌∙◌, ◌≢◌, ◌⊎◌, inl, inr, arith, ◌==◌, ==_iff,
  Bool-cases,
}
use ly_system_os.Mem.Pmm.{page_size, max_blocks}
use ly_system_os.Mem.Paging.{Entries, virt, entry_addr, entry, put_entry, zero_from}

abbrev pub frame_table : ℕ → ℕ
frame_table f = virt (f * page_size)

pub entry_addr-eq :
    (f g i j : ℕ)
    → f < max_blocks
    → g < max_blocks
    → i < 512
    → j < 512
    → entry_addr (frame_table f) i ≡ entry_addr (frame_table g) j
    → (f ≡ g) × (i ≡ j)
entry_addr-eq f g i j hf hg hi hj e = (omega arith, omega arith)

module _ (w : Entries) where
  pub entry-put_entry : (t i v : ℕ) → entry (put_entry t i v w) t i ≡ v
  unfolding entry put_entry
  entry-put_entry t i v = ground arith

  pub entry-put_entry_other :
      (f g i j v : ℕ)
      → f < max_blocks
      → g < max_blocks
      → i < 512
      → j < 512
      → ((f ≡ g) → (i ≡ j) → ⊥)
      → entry (put_entry (frame_table f) i v w) (frame_table g) j ≡ entry w (frame_table g) j
  unfolding entry put_entry
  entry-put_entry_other f g i j v hf hg hi hj apart =
      elim (Bool-cases (entry_addr (frame_table g) j == entry_addr (frame_table f) i)) [
        | inl same ↦ absurd (
            let (e, k) = entry_addr-eq g f j i hg hf hj hi ((==_iff _ _).0 same) in
            apart (sym e) (sym k))
        | inr other ↦ rw other refl
      ]

pub zero_from-zero : (t j n a : ℕ) (w : Entries) → w a ≡ 0 → zero_from t j n w a ≡ 0
unfolding zero_from put_entry
zero_from-zero t j zero a w h = h
zero_from-zero t j (suc n) a w h = zero_from-zero t (j + 1) n a (put_entry t j 0 w) (ground arith)

pub zero_from-entry :
    (t j n k : ℕ) (w : Entries) → j ≤ k → k < j + n → entry (zero_from t j n w) t k ≡ 0
unfolding zero_from entry
zero_from-entry t j zero k w lo hi = absurd (omega arith)
zero_from-entry t j (suc n) k w lo hi = elim (first j k lo) [
  | inl e ↦
      rw e
        (zero_from-zero t (j + 1) n (entry_addr t j) (put_entry t j 0 w) (entry-put_entry w t j 0))
  | inr later ↦ zero_from-entry t (j + 1) n k (put_entry t j 0 w) later (omega arith)
]
  where
    first : (j k : ℕ) → j ≤ k → (k ≡ j) ⊎ (j + 1 ≤ k)
    first j k lo = ground arith

pub zero_from-entry_other :
    (f g j n k : ℕ) (w : Entries)
    → f < max_blocks
    → g < max_blocks
    → f ≢ g
    → k < 512
    → j + n ≤ 512
    → entry (zero_from (frame_table f) j n w) (frame_table g) k ≡ entry w (frame_table g) k
unfolding zero_from
zero_from-entry_other f g j zero k w hf hg ne hk room = refl
zero_from-entry_other f g j (suc n) k w hf hg ne hk room =
    zero_from-entry_other f g (j + 1) n k (put_entry (frame_table f) j 0 w) hf hg ne hk
      (omega arith)
    ∙ entry-put_entry_other w f g j k 0 hf hg (omega arith) hk (λ e _. ne e)
