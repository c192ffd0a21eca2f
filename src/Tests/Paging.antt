-- ===== src/Tests/Paging.antt =====
-- The page tables and the mapping of the heap at an allocator with a few free frames.
use ly_system_os.Prelude.{
  ℕ, zero, suc, ◌+◌, ◌-◌, ◌*◌, ◌<◌, ◌≡◌, refl, ap, ◌∙◌, true, false, not, ◌&&◌, some, [], ◌∷◌,
  arith, ltb, leb,
}
use ly_system_os.Prelude.Bitmap.{bit}
use ly_system_os.Mem.Pmm.{Pmm, reset, page_size, max_blocks, block_of, mark_free}
use ly_system_os.Mem.Pmm.Valid.{bit-reset, reset-IsValid, mark_free-Gave, IsValid}
use ly_system_os.Mem.Heap.{Heap}
use ly_system_os.Mem.Heap.Chain.{IsHeap}
use ly_system_os.Mem.Paging.{entry, Paging, safe_pmm_alloc, map_page, leaf}
use ly_system_os.Mem.Paging.Frames.{free_above, free_above-Gave, Drawn, free_above-Full}
use ly_system_os.Mem.Paging.Tables.{IsTables}
use ly_system_os.Mem.Paging.Store.{frame_table}
use ly_system_os.Mem.Paging.Mapped.{MapStep, map_page_lem}
use ly_system_os.Mem.Paging.Empty.{empty-IsTables}
use ly_system_os.Mem.Setup.{heap_init}
use ly_system_os.Mem.Setup.Region.{IsRegion}
use ly_system_os.Mem.Setup.HeapInit.{heap_init_lem}
use ly_system_os.Mem.Paging.Low.{safe_pmm_alloc-KernelUsed, KernelUsed}

unfoldable free_frames : ℕ → Pmm
free_frames zero = reset max_blocks
free_frames (suc n) = mark_free (free_frames n) ((100 + n) * page_size)

-- The frames from 100 on are free, as many as were given.
record IsSample (n : ℕ) (s : Pmm) : Type 0 where
  valid : IsValid s
  bits : (j : ℕ) → j < max_blocks → bit s.bitmap j ≡ not (leb 100 j && ltb j (100 + n))
  count : free_above (60 * page_size) s ≡ n

sample : (n : ℕ) → n < 1000 → IsSample n (free_frames n)
unfolding free_frames
sample zero few = record {
  valid = reset-IsValid;
  bits = λ j hj. bit-reset j hj ∙ ground arith;
  count = free_above-Full (60 * page_size) (reset max_blocks) bit-reset;
}
sample (suc n) few =
    let before = sample n (omega arith) in
    let s = free_frames n in
    let at : block_of ((100 + n) * page_size) ≡ 100 + n = omega arith in
    let used : bit s.bitmap (100 + n) ≡ true = before.bits (100 + n) (omega arith) ∙ ground arith in
    let (gave, valid) =
      mark_free-Gave before.valid ((100 + n) * page_size) (rw at used) (rw at (omega arith)) in
    let gave_n = rw at at (gave) in
    record {
      valid = valid;
      bits = λ j hj. gave_n.given j ∙ rw (before.bits j hj) (ground arith);
      count =
          free_above-Gave (60 * page_size) s _ (100 + n) gave_n (omega arith) (omega arith)
          ∙ ap suc before.count;
    }

abbrev top : ℕ
top = frame_table 50

abbrev blank : Paging
blank = record { entries = λ a. 0; frames = free_frames 8 }

blank-IsTables : IsTables top blank
unfolding entry
blank-IsTables =
    let is = sample 8 (omega arith) in
    empty-IsTables top blank (λ i hi. refl) is.valid
      (50, omega arith, refl, is.bits 50 (omega arith))

safe_pmm_alloc-KernelUsed_example :
    (r : ℕ × Pmm) × (i : ℕ) × (safe_pmm_alloc (60 * page_size) (free_frames 8) ≡ some r)
    × Drawn (60 * page_size) (free_frames 8) r i
    × KernelUsed (60 * page_size) r.1
safe_pmm_alloc-KernelUsed_example =
    safe_pmm_alloc-KernelUsed (60 * page_size) (free_frames 8) (sample 8 (omega arith)).valid
      (rw (sample 8 (omega arith)).count (omega arith))

map_page_lem_example :
    (r : Paging) × (map_page (60 * page_size) top 0xFFFFFFFFD0001000 0x123000 2 blank ≡ some r)
    × MapStep (60 * page_size) top 0xFFFFFFFFD0001000 (leaf 0x123000 2) 5 blank r
map_page_lem_example =
    map_page_lem (60 * page_size) top 0xFFFFFFFFD0001000 0x123000 2 5 blank blank-IsTables
      (rw (sample 8 (omega arith)).count (omega arith))

abbrev no_heap : Heap
no_heap = record {
  heap_start = 0;
  cell = λ a. record { magic = 0; is_free = false; size = 0; next = 0 };
}

heap_init_lem_example :
    (heap : Heap) × (r : Paging) × (heap_init
        (60 * page_size)
        top
        0xFFFFFFFFD0000000
        0xFFFFFFFFD0002000
        (no_heap, blank)
      ≡ some (heap, r))
    × IsHeap heap 0xFFFFFFFFD0002000
        (record { addr = 0xFFFFFFFFD0000000; size = 0x2000 - 24; free = true } ∷ [])
    × IsRegion (60 * page_size) top 0xFFFFFFFFD0000000 2 blank r
heap_init_lem_example =
    heap_init_lem (60 * page_size) top 0xFFFFFFFFD0000000 0xFFFFFFFFD0002000 2 no_heap blank
      (omega arith) refl (omega arith) (omega arith) refl (omega arith) blank-IsTables
      (λ j low. (sample 8 (omega arith)).bits j (omega arith) ∙ ground arith)
      (rw (sample 8 (omega arith)).count (omega arith))
