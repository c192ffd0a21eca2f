-- ===== src/Tests/Pmm.antt =====
-- The frame allocator: the theorems at an allocator with two free frames.
use ly_system_os.Prelude.{ℕ, ◌*◌, ◌≡◌, refl, ◌∙◌, ◌≢◌, ◌⊎◌, true, false, [], ◌∷◌, arith, All}
use ly_system_os.Prelude.Bits.{test_bit, set_bit, clear_bit}
use ly_system_os.Prelude.Bitmap.{bit, set_at, clear_at}
use ly_system_os.Mem.Pmm.{
  Pmm, reset, page_size, max_blocks, mark_used, mark_free, alloc_from, alloc_block, free_block,
}
use ly_system_os.Mem.Pmm.Valid.{bit-reset, reset-IsValid, Took, Gave, mark_free-Gave, IsValid}
use ly_system_os.Mem.Pmm.Alloc.{
  Full, FirstFree, alloc_block_lem, free_block-alloc_block, run-ne, alloc, free, run,
}

-- Frame 9 and then frame 5 were given back.
abbrev nine : Pmm
nine = mark_free (reset max_blocks) (9 * page_size)

abbrev five_nine : Pmm
five_nine = mark_free nine (5 * page_size)

nine-Gave : Gave 9 (reset max_blocks) nine × IsValid nine
nine-Gave = mark_free-Gave reset-IsValid (9 * page_size) (bit-reset 9 (omega arith)) (omega arith)

five_nine-Gave : Gave 5 nine five_nine × IsValid five_nine
five_nine-Gave =
    mark_free-Gave nine-Gave.1 (5 * page_size) (nine-Gave.0.given 5 ∙ bit-reset 5 (omega arith))
      (omega arith)

five_free : bit five_nine.bitmap 5 ≡ false
five_free = five_nine-Gave.0.given 5

seven_used : bit five_nine.bitmap 7 ≡ true
seven_used = five_nine-Gave.0.given 7 ∙ nine-Gave.0.given 7 ∙ bit-reset 7 (omega arith)

alloc_block_lem_example :
    (Full five_nine × (alloc_block five_nine ≡ (0, five_nine)))
    ⊎ ((i : ℕ) × FirstFree five_nine i
        × ((alloc_block five_nine).0 ≡ i * page_size)
        × Took i five_nine (alloc_block five_nine).1)
alloc_block_lem_example = alloc_block_lem five_nine-Gave.1

free_block-alloc_block_example :
    free_block (alloc_block five_nine).1 (alloc_block five_nine).0 ≡ five_nine
free_block-alloc_block_example = free_block-alloc_block five_nine-Gave.1 5 (omega arith) five_free

run-ne_example :
    All (λ p. p ≢ 7 * page_size) (run five_nine (alloc ∷ free (9 * page_size) ∷ alloc ∷ alloc ∷ []))
run-ne_example =
    run-ne (alloc ∷ free (9 * page_size) ∷ alloc ∷ alloc ∷ []) 7 five_nine-Gave.1 (omega arith)
      seven_used (omega arith)

-- The first two allocations, by evaluation.
two_frames : run five_nine (alloc ∷ alloc ∷ []) ≡ 20480 ∷ 36864 ∷ []
unfolding run alloc_block alloc_from mark_used mark_free reset bit set_at clear_at test_bit set_bit
    clear_bit
two_frames = refl
