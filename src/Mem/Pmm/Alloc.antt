-- ===== src/Mem/Pmm/Alloc.antt =====
-- `pmm_alloc_block` and `pmm_free_block`: first fit, no frame twice, and the round trip.
use ly_system_os.Prelude.{
  ℕ, zero, suc, ◌+◌, ◌*◌, ◌≤◌, ◌<◌, ◌≡◌, refl, ap, ◌∙◌, ◌≢◌, ◌⊎◌, inl, inr, true, false, not, List,
  [], ◌∷◌, arith, leb, ◌==◌, leb→le, Bool-cases, All,
}
use ly_system_os.Prelude.Bitmap.{bit, IsFirst}
use ly_system_os.Mem.Pmm.{
  Pmm, page_size, max_blocks, block_of, mark_used, frame_addr, alloc_from, alloc_block, free_block,
}
use ly_system_os.Mem.Pmm.Valid.{
  Took, mark_used-Took, mark_free-Gave, mark_free_same, mark_used-IsValid, mark_free-IsValid,
  IsValid, mark_free-mark_used,
}

-- What the loop of `pmm_alloc_block` returns from frame `i` with `n` rounds left: nothing where
-- all those frames are used, and else the first free one, which it marks.
abbrev Scanned : Pmm → ℕ → ℕ → ℕ × Pmm → Type 0
Scanned s i n r =
    (((j : ℕ) → i ≤ j → j < i + n → bit s.bitmap j ≡ true) × (r ≡ (0, s)))
    ⊎ ((k : ℕ) × (i ≤ k)
        × (k < i + n)
        × (bit s.bitmap k ≡ false)
        × ((j : ℕ) → i ≤ j → j < k → bit s.bitmap j ≡ true)
        × (r ≡ (frame_addr k, mark_used s (frame_addr k))))

Scanned-skip :
    (s : Pmm) (i n : ℕ) (r : ℕ × Pmm)
    → bit s.bitmap i ≡ true
    → Scanned s (i + 1) n r
    → Scanned s i (suc n) r
Scanned-skip s i n r used (inl (all, e)) = inl (
  λ j lo hi. elim (Bool-cases (i == j)) [
    | inl same ↦ ground arith
    | inr other ↦ all j (ground arith) (omega arith)
  ],
  e,
)
Scanned-skip s i n r used (inr (k, lo, hi, free, before, e)) = inr (
  k,
  omega arith,
  omega arith,
  free,
  λ j lo' hi'. elim (Bool-cases (i == j)) [
    | inl same ↦ ground arith
    | inr other ↦ before j (ground arith) hi'
  ],
  e,
)

alloc_from-Scanned : (n i : ℕ) (s : Pmm) → Scanned s i n (alloc_from n i s)
unfolding alloc_from
alloc_from-Scanned zero i s = inl (λ j lo hi. absurd (omega arith), refl)
alloc_from-Scanned (suc n) i s = elim (Bool-cases (bit s.bitmap i)) [
  | inl used ↦
      rw (used, alloc_from)
        (Scanned-skip s i n (alloc_from n (i + 1) s) used (alloc_from-Scanned n (i + 1) s))
  | inr free ↦
      inr
        (i, omega arith, omega arith, free, λ j lo hi. absurd (omega arith), rw (free, alloc_from))
]

-- Either every frame is used, or there is a first free one.
abbrev pub Full : Pmm → Type 0
Full s = (j : ℕ) → j < max_blocks → bit s.bitmap j ≡ true

abbrev pub FirstFree : Pmm → ℕ → Type 0
FirstFree s i = IsFirst (λ j. not (bit s.bitmap j)) max_blocks i

alloc_cases :
    {s : Pmm}
    → IsValid s
    → (Full s × (alloc_block s ≡ (0, s)))
      ⊎ ((i : ℕ) × FirstFree s i × (alloc_block s ≡ (i * page_size, mark_used s (i * page_size))))
unfolding alloc_block
alloc_cases {s} v = elim (alloc_from-Scanned s.total_blocks 0 s) [
  | inl (all, e) ↦ inl (λ j hj. all j (omega arith) (omega (arith, v.total)), e)
  | inr (k, lo, hi, free, before, e) ↦ inr (
    k,
    record {
      below = omega (arith, v.total);
      passes = ground arith;
      before = λ j hj. ground (arith, before j (omega arith) hj);
    },
    let small : frame_addr k ≡ k * page_size = omega (arith, v.total) in
        e ∙ ap (λ a. (a, mark_used s a)) small,
  )
]

module _ {s : Pmm} (v : IsValid s) where
  -- A frame that was not free is taken by its own mark.
  Took-frame :
      (i : ℕ) → i < max_blocks → bit s.bitmap i ≡ false → Took i s (mark_used s (i * page_size))
  Took-frame i hi free =
      let same : block_of (i * page_size) ≡ i = omega arith in
      rw same at ((mark_used-Took v (i * page_size) (rw same free) (omega arith)).0)

  -- `pmm_alloc_block` on a valid allocator: if every frame is used it returns NULL and changes
  -- nothing; otherwise it returns the address of the lowest free frame and takes exactly that one.
  pub alloc_block_lem :
      (Full s × (alloc_block s ≡ (0, s)))
      ⊎ ((i : ℕ) × FirstFree s i × ((alloc_block s).0 ≡ i * page_size) × Took i s (alloc_block s).1)
  alloc_block_lem = elim (alloc_cases v) [
    | inl full ↦ inl full
    | inr (i, first, e) ↦
        inr (
          i,
          first,
          ap (λ r. r.0) e,
          rw e (Took-frame i first.below (ground (arith, first.passes))),
        )
  ]

  -- The invariant survives `pmm_alloc_block` and `pmm_free_block` of any pointer.
  pub alloc_block-IsValid : IsValid (alloc_block s).1
  alloc_block-IsValid = elim (alloc_cases v) [
    | inl (full, e) ↦ rw e v
    | inr (i, first, e) ↦ rw e (mark_used-IsValid v (i * page_size))
  ]

  pub free_block-IsValid : (p : ℕ) → IsValid (free_block s p)
  unfolding free_block
  free_block-IsValid p = mark_free-IsValid v p

  -- With a free frame left, giving back what was just allocated restores the allocator exactly.
  pub free_block-alloc_block :
      (i : ℕ)
      → i < max_blocks
      → bit s.bitmap i ≡ false
      → free_block (alloc_block s).1 (alloc_block s).0 ≡ s
  unfolding free_block
  free_block-alloc_block i hi free = elim (alloc_cases v) [
    | inl (full, e) ↦ ground (arith, full i hi)
    | inr (k, first, e) ↦
        let same : block_of (k * page_size) ≡ k = omega (arith, first.below) in
        rw e (
          mark_free-mark_used v (k * page_size) (rw same (ground (arith, first.passes)))
            (omega (arith, first.below)))
  ]

-- Calls on the allocator, and the addresses that the allocations among them return.
pub data Call : Type 0 where
  alloc : Call
  free : ℕ → Call

unfoldable pub run : Pmm → List Call → List ℕ
run s [] = []
run s (alloc ∷ calls) = (alloc_block s).0 ∷ run (alloc_block s).1 calls
run s (free p ∷ calls) = run (free_block s p) calls

-- No call gives frame `i` back.
abbrev pub Keeps : ℕ → List Call → Type 0
Keeps i [] = Unit
Keeps i (alloc ∷ calls) = Keeps i calls
Keeps i (free p ∷ calls) = (block_of p ≢ i) × Keeps i calls

module _ {s : Pmm} (v : IsValid s) (i : ℕ) (used : bit s.bitmap i ≡ true) where
  alloc_other :
      0 < i → ((alloc_block s).0 ≢ i * page_size) × (bit (alloc_block s).1.bitmap i ≡ true)
  alloc_other pos_i = elim (alloc_block_lem v) [
    | inl (full, e) ↦ rw e (λ z. omega arith, used)
    | inr (k, first, e, took) ↦ (
      λ z. let same : k ≡ i = omega arith in ground (arith, took.was_free),
      ground (arith, took.taken i),
    )
  ]

  free_other : (p : ℕ) → block_of p ≢ i → bit (free_block s p).bitmap i ≡ true
  unfolding free_block
  free_other p ne = elim (Bool-cases (bit s.bitmap (block_of p))) [
    | inr clear ↦ rw (mark_free_same v p (inr clear)) used
    | inl marked ↦ elim (Bool-cases (leb max_blocks (block_of p))) [
      | inl out ↦ rw (mark_free_same v p (inl (leb→le _ _ out))) used
      | inr here ↦ ground (arith, (mark_free-Gave v p marked (ground arith)).0.given i)
    ]
  ]

-- A frame other than 0 that is in use is never handed out, however many frames are allocated and
-- given back, until it is given back itself.
pub run-ne :
    (calls : List Call) {s : Pmm} (i : ℕ)
    → IsValid s
    → 0 < i
    → bit s.bitmap i ≡ true
    → Keeps i calls
    → All (λ p. p ≢ i * page_size) (run s calls)
unfolding run
run-ne [] i v h used k = tt
run-ne (alloc ∷ calls) i v h used k =
    let other = alloc_other v i used h in
    (other.0, run-ne calls i (alloc_block-IsValid v) h other.1 k)
run-ne (free p ∷ calls) i v h used k =
    run-ne calls i (free_block-IsValid v p) h (free_other v i used p k.0) k.1
