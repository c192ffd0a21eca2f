-- ===== src/Mem/Paging/Frames.antt =====
-- That safe_pmm_alloc of kernel/mem/paging.c ends and gives a frame above the kernel.
use ly_system_os.Prelude.{
  ℕ, zero, suc, ◌+◌, ◌*◌, ◌≤◌, ◌<◌, ◌≡◌, refl, sym, ◌∙◌, inl, inr, true, false, not, ◌&&◌, some,
  arith, ltb, leb, ◌==◌, lt→ltb, leb→le, ==_iff, Bool-cases,
}
use ly_system_os.Prelude.Bitmap.{
  bit, count_below, count_below-ext, count_below_add, count_below_none, count_below-le,
}
use ly_system_os.Mem.Pmm.{Pmm, page_size, max_blocks, alloc_block}
use ly_system_os.Mem.Pmm.Valid.{Took, Gave, IsValid}
use ly_system_os.Mem.Pmm.Alloc.{Full, alloc_block_lem, alloc_block-IsValid}
use ly_system_os.Mem.Paging.{alloc_fuel, safe_alloc_from, safe_pmm_alloc}

-- How many frames above the kernel are free.
unfoldable pub free_above : ℕ → Pmm → ℕ
free_above kernel_end s =
    count_below (λ j. not (bit s.bitmap j) && ltb kernel_end (j * page_size)) max_blocks

-- What a frame drawn above the kernel leaves.
pub record Drawn (kernel_end : ℕ) (s : Pmm) (r : ℕ × Pmm) (i : ℕ) : Type 0 where
  pub below : i < max_blocks
  pub addr : r.0 ≡ i * page_size
  pub above : kernel_end < i * page_size
  pub was_free : bit s.bitmap i ≡ false
  pub used : bit r.1.bitmap i ≡ true
  pub kept : (j : ℕ) → bit s.bitmap j ≡ true → bit r.1.bitmap j ≡ true
  pub valid : IsValid r.1
  pub one_less : free_above kernel_end s ≡ suc (free_above kernel_end r.1)

module _ (kernel_end : ℕ) where
  pub free_above-Full : (s : Pmm) → Full s → free_above kernel_end s ≡ 0
  unfolding free_above
  free_above-Full s full =
      count_below_none (λ j. not (bit s.bitmap j) && ltb kernel_end (j * page_size)) max_blocks
        (λ j hj. rw (full j hj) refl)

  pub free_above_low :
      (s t : Pmm) (i : ℕ)
      → Took i s t
      → i * page_size ≤ kernel_end
      → free_above kernel_end t ≡ free_above kernel_end s
  unfolding free_above
  free_above_low s t i took low =
      count_below-ext _ _ max_blocks (λ j hj. rw (took.taken j) (ground arith))

  free_above_high :
      (s t : Pmm) (i : ℕ)
      → Took i s t
      → i < max_blocks
      → kernel_end < i * page_size
      → free_above kernel_end s ≡ suc (free_above kernel_end t)
  unfolding free_above
  free_above_high s t i took below high =
      count_below_add (λ j. not (bit t.bitmap j) && ltb kernel_end (j * page_size))
        (λ j. not (bit s.bitmap j) && ltb kernel_end (j * page_size)) i max_blocks
        (λ j. elim (Bool-cases (i == j)) [
          | inl e ↦
              let here : i ≡ j = ground arith in
              let free = took.was_free in rw (took.taken j, e, sym here, free, lt→ltb _ _ high) refl
          | inr e ↦ rw (took.taken j, e) refl
        ])
        (rw (took.taken i, (==_iff i i).1 refl) refl) below

  -- A frame given back above the kernel.
  pub free_above-Gave :
      (s t : Pmm) (i : ℕ)
      → Gave i s t
      → i < max_blocks
      → kernel_end < i * page_size
      → free_above kernel_end t ≡ suc (free_above kernel_end s)
  unfolding free_above
  free_above-Gave s t i gave below high =
      count_below_add (λ j. not (bit s.bitmap j) && ltb kernel_end (j * page_size))
        (λ j. not (bit t.bitmap j) && ltb kernel_end (j * page_size)) i max_blocks
        (λ j. elim (Bool-cases (i == j)) [
          | inl e ↦
              let here : i ≡ j = ground arith in
              rw (gave.given j, e, sym here, lt→ltb _ _ high) refl
          | inr e ↦ rw (gave.given j, e) refl
        ])
        (rw gave.was_used refl) below

  pub drawn :
      (s : Pmm) (i : ℕ)
      → IsValid s
      → i < max_blocks
      → (alloc_block s).0 ≡ i * page_size
      → Took i s (alloc_block s).1
      → kernel_end < i * page_size
      → Drawn kernel_end s (alloc_block s) i
  drawn s i v below addr took high = record {
    below = below;
    addr = addr;
    above = high;
    was_free = took.was_free;
    used = took.taken i ∙ rw ((==_iff i i).1 refl) refl;
    kept = λ j h. took.taken j ∙ rw h (ground arith);
    valid = alloc_block-IsValid v;
    one_less = free_above_high s (alloc_block s).1 i took below high;
  }

  Drawn-later :
      (s t : Pmm) (r : ℕ × Pmm) (i k : ℕ)
      → Took k s t
      → k * page_size ≤ kernel_end
      → Drawn kernel_end t r i
      → Drawn kernel_end s r i
  Drawn-later s t r i k took low d = record {
    below = d.below;
    addr = d.addr;
    above = d.above;
    was_free = let later = d.was_free in let both = took.taken i in ground arith;
    used = d.used;
    kept = λ j h. d.kept j (took.taken j ∙ rw h (ground arith));
    valid = d.valid;
    one_less = sym (free_above_low s t k took low) ∙ d.one_less;
  }

  pub step_low :
      (n : ℕ) (s : Pmm)
      → leb (alloc_block s).0 kernel_end ≡ true
      → safe_alloc_from (suc n) kernel_end s ≡ safe_alloc_from n kernel_end (alloc_block s).1
  unfolding safe_alloc_from
  step_low n s low = rw (low, safe_alloc_from) refl

  pub step_high :
      (n : ℕ) (s : Pmm)
      → leb (alloc_block s).0 kernel_end ≡ false
      → safe_alloc_from (suc n) kernel_end s ≡ some (alloc_block s)
  unfolding safe_alloc_from
  step_high n s high = rw (high, safe_alloc_from) refl

  safe_alloc_from_lem :
      (n : ℕ) (s : Pmm)
      → IsValid s
      → 1 ≤ free_above kernel_end s
      → max_blocks < s.used_blocks + n
      → (r : ℕ × Pmm) × (i : ℕ) × (safe_alloc_from n kernel_end s ≡ some r) × Drawn kernel_end s r i
  unfolding safe_alloc_from
  safe_alloc_from_lem zero s v some_free fuel = absurd (
      let counted = v.counted in let most = count_below-le (bit s.bitmap) max_blocks in omega arith)
  safe_alloc_from_lem (suc n) s v some_free fuel = elim (alloc_block_lem v) [
    | inl (full, e) ↦ absurd (let none_free = free_above-Full s full in omega arith)
    | inr (i, first, addr, took) ↦ elim (Bool-cases (leb (i * page_size) kernel_end)) [
      | inl low ↦
          let t = (alloc_block s).1 in
          let same = free_above_low s t i took (leb→le _ _ low) in
          let more = took.one_more in
          let (r, k, runs, d) =
            safe_alloc_from_lem n t (alloc_block-IsValid v) (omega arith) (omega arith) in
          (r, k, step_low n s (rw addr low) ∙ runs, Drawn-later s t r k i took (leb→le _ _ low) d)
      | inr high ↦
          let above : kernel_end < i * page_size = ground arith in
          (alloc_block s, i, step_high n s (rw addr high), drawn s i v first.below addr took above)
    ]
  ]

  -- safe_pmm_alloc of a valid allocator with a free frame above the kernel: it ends, with a frame above the kernel that was free and is used now, and every frame that was used still is.
  pub safe_pmm_alloc_lem :
      (s : Pmm)
      → IsValid s
      → 1 ≤ free_above kernel_end s
      → (r : ℕ × Pmm) × (i : ℕ) × (safe_pmm_alloc kernel_end s ≡ some r) × Drawn kernel_end s r i
  unfolding safe_pmm_alloc
  safe_pmm_alloc_lem s v some_free = safe_alloc_from_lem alloc_fuel s v some_free (omega arith)
