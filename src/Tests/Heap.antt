-- ===== src/Tests/Heap.antt =====
-- The heap: the theorems at the heap that `heap_init` leaves, and after one allocation.
use ly_system_os.Prelude.{ℕ, ◌-◌, ◌^◌, ◌≡◌, refl, true, false, some, List, [], ◌∷◌, arith}
use ly_system_os.Mem.Heap.{
  Cells, Heap, write, heap_setup, take_block, kmalloc_loop, round16, kmalloc,
}
use ly_system_os.Mem.Heap.Blocks.{Block}
use ly_system_os.Mem.Heap.Chain.{IsHeap, heap_setup-IsHeap}
use ly_system_os.Mem.Heap.Fit.{NoFit}
use ly_system_os.Mem.Heap.Kmalloc.{Owned, kmalloc-Granted, ServedOrNull, kmalloc_lem}
use ly_system_os.Mem.Heap.Kfree.{Released, Restored, kfree_lem, kfree-kmalloc}

abbrev no_cells : Cells
no_cells a = record { magic = 0; is_free = false; size = 0; next = 0 }

-- 10 MB at HEAP_START_ADDR.
abbrev first : Heap
first = heap_setup 0xFFFFFFFFD0000000 0xFFFFFFFFD0A00000 no_cells

abbrev end_addr : ℕ
end_addr = 0xFFFFFFFFD0A00000

abbrev whole : List Block
whole = record { addr = 0xFFFFFFFFD0000000; size = 0xA00000 - 24; free = true } ∷ []

first-IsHeap : IsHeap first end_addr whole
first-IsHeap =
    heap_setup-IsHeap 0xFFFFFFFFD0000000 end_addr no_cells (omega arith) (omega arith) (omega arith)

-- The request that wraps: the rounded size is 0.
kmalloc_wraps : round16 (2 ^ 64 - 1) ≡ 0
kmalloc_wraps = refl

kmalloc_lem_example : ServedOrNull 4096 first end_addr whole
kmalloc_lem_example = kmalloc_lem 4096 first-IsHeap

whole_fits : ¬ NoFit (round16 4096) whole
whole_fits h = ground arith

kfree-kmalloc_example : Restored 4096 first end_addr whole
kfree-kmalloc_example = kfree-kmalloc 4096 first-IsHeap tt whole_fits

-- The heap after one allocation of 100 bytes, which are rounded to 112.
abbrev taken : Block
taken = record { addr = 0xFFFFFFFFD0000000; size = 112; free = false }

abbrev left : Block
left = record { addr = 0xFFFFFFFFD0000088; size = 0xA00000 - 160; free = true }

abbrev one_taken : Heap
one_taken = record first { cell = take_block 112 first.cell first.heap_start }

one_taken-IsHeap : IsHeap one_taken end_addr (taken ∷ left ∷ [])
unfolding take_block heap_setup write
one_taken-IsHeap = ground arith

kmalloc_runs : kmalloc 100 first ≡ some (0xFFFFFFFFD0000018, one_taken)
unfolding kmalloc kmalloc_loop heap_setup write
kmalloc_runs = refl

kfree_lem_example : Released one_taken end_addr [] taken (left ∷ [])
kfree_lem_example = kfree_lem [] taken (left ∷ []) one_taken-IsHeap refl

kmalloc-Granted_example : Owned 100 0xFFFFFFFFD0000018 one_taken end_addr whole
kmalloc-Granted_example =
    kmalloc-Granted 100 0xFFFFFFFFD0000018 one_taken first-IsHeap (omega arith) kmalloc_runs
      (omega arith)
