-- ===== src/Mem/Setup/HeapInit.antt =====
-- What heap_init of kernel/mem/heap.c leaves: every page of the heap has a frame of its own.
use ly_system_os.Prelude.{
  ℕ, zero, suc, ◌+◌, ◌-◌, ◌*◌, ◌/◌, ◌%◌, ◌^◌, ◌≤◌, ◌<◌, ◌≡◌, refl, ◌∙◌, true, false, some, [], ◌∷◌,
  arith, ltb, ◌==◌, lt→ltb,
}
use ly_system_os.Mem.Pmm.{alloc_block}
use ly_system_os.Mem.Heap.{header_size, Heap, heap_setup}
use ly_system_os.Mem.Heap.Chain.{IsHeap, heap_setup-IsHeap}
use ly_system_os.Mem.Paging.{Paging, map_page}
use ly_system_os.Mem.Paging.Frames.{free_above}
use ly_system_os.Mem.Paging.Tables.{IsTables}
use ly_system_os.Mem.Setup.{heap_pages, heap_init, heap_end}
use ly_system_os.Mem.Setup.Region.{IsRegion, page_lem, IsRegion-cons}
use ly_system_os.Mem.Paging.Low.{KernelUsed}

module _ (kernel_end root : ℕ) where
  pages_stop :
      (rounds v last : ℕ) (p : Paging)
      → ltb v last ≡ false
      → heap_pages kernel_end root (suc rounds) v last p ≡ some (true, p)
  unfolding heap_pages
  pages_stop rounds v last p stop = rw (stop, heap_pages) refl

  pages_go :
      (rounds v last : ℕ) (p r1 : Paging)
      → ltb v last ≡ true
      → ((alloc_block p.frames).0 == 0) ≡ false
      → map_page kernel_end root v
          (alloc_block p.frames).0
          3
          (record p { frames = (alloc_block p.frames).1 })
        ≡ some r1
      → heap_pages kernel_end root (suc rounds) v last p
        ≡ heap_pages kernel_end root rounds ((v + 4096) % 2 ^ 64) last r1
  unfolding heap_pages
  pages_go rounds v last p r1 less drawn_one runs = rw (less, drawn_one, runs, heap_pages) refl

  -- The loop of heap_init over `n` pages.
  heap_pages_lem :
      (n rounds v : ℕ) (p : Paging)
      → n < rounds
      → n < 2 ^ 36
      → v + n * 4096 < 2 ^ 64
      → IsTables root p
      → KernelUsed kernel_end p.frames
      → 4 * n ≤ free_above kernel_end p.frames
      → (r : Paging) × (heap_pages kernel_end root rounds v (v + n * 4096) p ≡ some (true, r))
        × IsRegion kernel_end root v n p r
  unfolding heap_pages
  heap_pages_lem n zero v p fuel few room inv used free = absurd (omega arith)
  heap_pages_lem zero (suc rounds) v p fuel few room inv used free = (
    p,
    pages_stop rounds v (v + 0 * 4096) p (ground arith),
    record {
      inv = inv;
      frame = λ i hi. absurd (omega arith);
      own = λ i j hi hj e. absurd (omega arith);
      others = λ a out. refl;
      kept = λ j h. h;
    },
  )
  heap_pages_lem (suc n) (suc rounds) v p fuel few room inv used free =
      let (g, r1, d, runs, step) = page_lem kernel_end root (4 * n) v p inv used (omega arith) in
      let (r, later, region) =
        heap_pages_lem n rounds (v + 4096) r1 (omega arith) (omega arith) (omega arith) step.inv
          (λ j low. step.kept j (d.kept j (used j low))) step.enough in
      let next : (v + 4096) % 2 ^ 64 ≡ v + 4096 = omega arith in
      let last : v + suc n * 4096 ≡ v + 4096 + n * 4096 = omega arith in
      (
        r,
        pages_go rounds v (v + suc n * 4096) p r1 (lt→ltb _ _ (omega arith))
              (let addr = d.addr in let above = d.above in ground arith) (rw d.addr runs)
            ∙ rw (next, last) later,
        IsRegion-cons kernel_end root n v g p r1 r (omega arith) d step region,
      )

-- heap_init of a heap that begins at a page, with page tables in frames of their own, all frames up to the kernel's end used, and four free frames above it for each page of the heap: it returns, the heap is one free block over the region, every page of the region has a frame of its own that was free, is used now and lies above the kernel, writable and present, every page outside has the entry that it had, and no used frame is given up.
pub heap_init_lem :
    (kernel_end root start_addr end_addr n : ℕ) (h : Heap) (p : Paging)
    → 32 ≤ start_addr
    → start_addr % 4096 ≡ 0
    → start_addr + header_size ≤ end_addr
    → start_addr + n * 4096 < 2 ^ 64
    → n * 4096 ≡ (end_addr - start_addr + 0xFFF) / 4096 * 4096
    → n < 2 ^ 36
    → IsTables root p
    → KernelUsed kernel_end p.frames
    → 4 * n ≤ free_above kernel_end p.frames
    → (heap : Heap) × (r : Paging) × (heap_init kernel_end root start_addr end_addr (h, p)
        ≡ some (heap, r))
      × IsHeap heap end_addr (
          record { addr = start_addr; size = end_addr - start_addr - header_size; free = true }
          ∷ [])
      × IsRegion kernel_end root start_addr n p r
unfolding heap_init heap_end
heap_init_lem kernel_end root start_addr end_addr n h p low aligned room fits pages few inv used
      free =
    let (r, runs, region) =
      heap_pages_lem kernel_end root n (2 ^ 52 + 1) start_addr p (omega arith) few fits inv used
        free in
    let first : start_addr / 4096 * 4096 ≡ start_addr = omega arith in
    let last : (end_addr + 0xFFF) % 2 ^ 64 / 4096 * 4096 ≡ start_addr + n * 4096 = omega arith in
    (
      heap_setup start_addr end_addr h.cell,
      r,
      rw (first, last, runs) refl,
      heap_setup-IsHeap start_addr end_addr h.cell low room (omega arith),
      region,
    )
