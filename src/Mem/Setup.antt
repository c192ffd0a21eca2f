-- ===== src/Mem/Setup.antt =====
-- The parts of kernel/mem that fill the page tables at start-up: paging_init of paging.c and heap_init of
-- heap.c.
pub mod Region
pub mod HeapInit
use ly_system_os.Prelude.{
  ℕ, zero, suc, ◌+◌, ◌-◌, ◌*◌, ◌/◌, ◌%◌, ◌^◌, Bool, true, false, Option, none, some, ltb, ◌==◌,
  if◌then◌else◌,
}
use ly_system_os.Mem.Pmm.{Pmm, alloc_block}
use ly_system_os.Mem.Heap.{Heap, heap_setup}
use ly_system_os.Gpu.{Framebuffer}
use ly_system_os.Ram.{kernel_virtual_base}
use ly_system_os.Mem.Paging.{virt, Paging, safe_pmm_alloc, zero_from, map_page}

-- The loop of `paging_init` that maps `n` pages from `virtual` on to the frames from `physical` on.
unfoldable pub map_range : ℕ → ℕ → ℕ → ℕ → ℕ → ℕ → Paging → Option Paging
map_range kernel_end root flags zero virtual physical p = some p
map_range kernel_end root flags (suc n) virtual physical p =
    elim (map_page kernel_end root virtual physical flags p) [
      | none ↦ none
      | some next ↦
          map_range kernel_end root flags n ((virtual + 4096) % 2 ^ 64) ((physical + 4096) % 2 ^ 64)
            next
    ]

-- The loop over the framebuffer, which maps each page at its own address and behind the kernel's base.
unfoldable pub fb_range : ℕ → ℕ → ℕ → ℕ → Paging → Option Paging
fb_range kernel_end root zero physical p = some p
fb_range kernel_end root (suc n) physical p =
    elim (map_page kernel_end root physical physical 2 p) [
      | none ↦ none
      | some next ↦ elim (map_page kernel_end root (virt physical) physical 2 next) [
        | none ↦ none
        | some last ↦ fb_range kernel_end root n ((physical + 4096) % 2 ^ 64) last
      ]
    ]

-- `fb_size`, of the product of two `uint32_t`, rounded up to pages.
unfoldable pub fb_size : Framebuffer → ℕ
fb_size fb =
    let size = fb.pitch * fb.height % 2 ^ 32 in
    if size % 4096 == 0 then size else size + (4096 - size % 4096)

-- The first statements of `paging_init`: the top table, cleared.
unfoldable pub paging_root : Paging → Option (ℕ × Pmm) → Option (ℕ × Paging)
paging_root p none = none
paging_root p (some (phys_pml4, s)) =
    some
      (virt phys_pml4, record { entries = zero_from (virt phys_pml4) 0 512 p.entries; frames = s })

unfoldable pub with_root : ℕ → Option Paging → Option (ℕ × Paging)
with_root root none = none
with_root root (some p) = some (root, p)

-- `paging_init`: the address of the top table, and the tables: 512 MiB behind the kernel's base, the first
-- 16 MiB at their own addresses, and the framebuffer.
unfoldable pub paging_init : ℕ → Framebuffer → Paging → Option (ℕ × Paging)
paging_init kernel_end fb p = elim (paging_root p (safe_pmm_alloc kernel_end p.frames)) [
  | none ↦ none
  | some (root, p1) ↦
      elim (map_range kernel_end root 2 (512 * 1024 * 1024 / 4096) kernel_virtual_base 0 p1) [
        | none ↦ none
        | some p2 ↦ elim (map_range kernel_end root 2 (0x1000000 / 4096) 0 0 p2) [
          | none ↦ none
          | some p3 ↦
              if fb.addr == 0
              then some (root, p3)
              else with_root root (fb_range kernel_end root (fb_size fb / 4096) fb.addr p3)
        ]
      ]
]

-- The loop of `heap_init` up to `page_aligned_end`, with `n` rounds of fuel: whether it comes to the end,
-- or returns early without a frame, and the tables. none: no fuel, or a page table without a frame.
unfoldable pub heap_pages : ℕ → ℕ → ℕ → ℕ → ℕ → Paging → Option (Bool × Paging)
heap_pages kernel_end root zero v page_aligned_end p = none
heap_pages kernel_end root (suc n) v page_aligned_end p =
    let (phys, s) = alloc_block p.frames in
    elim (ltb v page_aligned_end) [
      | false ↦ some (true, p)
      | true ↦ elim (phys == 0) [
        | true ↦ some (false, record p { frames = s })
        | false ↦ elim (map_page kernel_end root v phys 3 (record p { frames = s })) [
          | none ↦ none
          | some next ↦ heap_pages kernel_end root n ((v + 4096) % 2 ^ 64) page_aligned_end next
        ]
      ]
    ]

-- What follows the loop; without a frame the heap is left as it was.
unfoldable pub heap_end : ℕ → ℕ → Heap → Option (Bool × Paging) → Option (Heap × Paging)
heap_end start_addr end_addr h none = none
heap_end start_addr end_addr h (some (false, p)) = some (h, p)
heap_end start_addr end_addr h (some (true, p)) = some (heap_setup start_addr end_addr h.cell, p)

-- `heap_init`, with a round for each page of the address space.
unfoldable pub heap_init : ℕ → ℕ → ℕ → ℕ → Heap × Paging → Option (Heap × Paging)
heap_init kernel_end root start_addr end_addr (h, p) = heap_end start_addr end_addr h (
    heap_pages kernel_end root (2 ^ 52 + 1) (start_addr / 4096 * 4096)
      ((end_addr + 0xFFF) % 2 ^ 64 / 4096 * 4096) p)
