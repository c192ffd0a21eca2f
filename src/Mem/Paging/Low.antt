-- ===== src/Mem/Paging/Low.antt =====
-- That safe_pmm_alloc of kernel/mem/paging.c takes the kernel's frames out of use, whatever mbi_parse
-- of kernel/mbi.c left of their marks.
use ly_system_os.Prelude.{
  ℕ, zero, suc, ◌*◌, ◌≤◌, ◌≡◌, sym, ap, ◌∙◌, inl, inr, true, false, none, some, arith, leb,
  Bool-cases,
}
use ly_system_os.Prelude.Bitmap.{bit}
use ly_system_os.Mem.Pmm.{Pmm, page_size, alloc_block}
use ly_system_os.Mem.Pmm.Valid.{Took, IsValid}
use ly_system_os.Mem.Pmm.Alloc.{FirstFree, alloc_block_lem, alloc_block-IsValid}
use ly_system_os.Mem.Paging.{alloc_fuel, safe_alloc_from, safe_pmm_alloc}
use ly_system_os.Mem.Paging.Frames.{free_above, Drawn, safe_pmm_alloc_lem, step_low, step_high}

-- The frames up to the kernel's end are used.
abbrev pub KernelUsed : ℕ → Pmm → Type 0
KernelUsed kernel_end s = (j : ℕ) → j * page_size ≤ kernel_end → bit s.bitmap j ≡ true

module _ (kernel_end : ℕ) where
  -- The frame that is drawn is the lowest one that is free.
  drawn_last :
      (s : Pmm) (r : ℕ × Pmm) (i : ℕ)
      → FirstFree s i
      → (alloc_block s).0 ≡ i * page_size
      → Took i s (alloc_block s).1
      → leb (alloc_block s).0 kernel_end ≡ false
      → alloc_block s ≡ r
      → KernelUsed kernel_end r.1
  drawn_last s r i first addr took above same j low =
      ap (λ x. bit x.1.bitmap j) (sym same)
      ∙ took.taken j
      ∙ (let free = first.before j (let high = above in ground arith) in ground arith)

  low_from :
      (n : ℕ) (s : Pmm) (r : ℕ × Pmm)
      → IsValid s
      → safe_alloc_from n kernel_end s ≡ some r
      → KernelUsed kernel_end r.1
  unfolding safe_alloc_from
  low_from zero s r v runs = absurd (cc)
  low_from (suc n) s r v runs = elim (alloc_block_lem v) [
    | inl (full, e) ↦
        low_from n (alloc_block s).1 r (alloc_block-IsValid v)
          (sym (step_low kernel_end n s (rw e (ground arith))) ∙ runs)
    | inr (i, first, addr, took) ↦ elim (Bool-cases (leb (alloc_block s).0 kernel_end)) [
      | inl below ↦
          low_from n (alloc_block s).1 r (alloc_block-IsValid v)
            (sym (step_low kernel_end n s below) ∙ runs)
      | inr above ↦ drawn_last s r i first addr took above (
          ap (λ o. elim o [ none ↦ alloc_block s | some x ↦ x ])
            (sym (step_high kernel_end n s above) ∙ runs))
    ]
  ]

  -- safe_pmm_alloc of a valid allocator with a free frame above the kernel: it ends, with a frame above the kernel that was free and is used now, every frame that was used still is, and every frame up to the kernel's end is used, whether it was before or not.
  pub safe_pmm_alloc-KernelUsed :
      (s : Pmm)
      → IsValid s
      → 1 ≤ free_above kernel_end s
      → (r : ℕ × Pmm) × (i : ℕ) × (safe_pmm_alloc kernel_end s ≡ some r)
        × Drawn kernel_end s r i
        × KernelUsed kernel_end r.1
  unfolding safe_pmm_alloc
  safe_pmm_alloc-KernelUsed s v some_free =
      let (r, i, runs, d) = safe_pmm_alloc_lem kernel_end s v some_free in
      (r, i, runs, d, low_from alloc_fuel s r v runs)
