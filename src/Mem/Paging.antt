-- ===== src/Mem/Paging.antt =====
-- kernel/mem/paging.c: the four levels of page tables, over a store of words of 64 bits and the frame
-- allocator. A table stands at its virtual address, which the kernel's base is added to.
pub mod Frames
pub mod Store
pub mod Tables
pub mod Link
pub mod Map
pub mod Leaf
pub mod Mapped
pub mod Empty
pub mod Low
use ly_system_os.Prelude.{
  ℕ, zero, suc, ◌+◌, ◌*◌, ◌/◌, ◌%◌, ◌^◌, bit_and, bit_or, true, false, Option, none, some, List, [],
  ◌∷◌, leb, ◌==◌, if◌then◌else◌,
}
use ly_system_os.Mem.Pmm.{Pmm, max_blocks, alloc_block}
use ly_system_os.Ram.{kernel_virtual_base}

abbrev pub Entries : Type 0
Entries = ℕ → ℕ

-- `P2V`
abbrev pub virt : ℕ → ℕ
virt p = (p + kernel_virtual_base) % 2 ^ 64

-- The address of entry `i` of a table, a read and a write of the entry.
abbrev pub entry_addr : ℕ → ℕ → ℕ
entry_addr t i = (t + 8 * i) % 2 ^ 64

unfoldable pub entry : Entries → ℕ → ℕ → ℕ
entry w t i = w (entry_addr t i)

unfoldable pub put_entry : ℕ → ℕ → ℕ → Entries → Entries
put_entry t i v w = λ a. if a == entry_addr t i then v else w a

-- The page tables and the frame allocator.
pub record Paging : Type 0 where
  pub entries : Entries
  pub frames : Pmm

-- `safe_pmm_alloc`, for a kernel whose last physical address is `kernel_end`, with `n` calls of
-- pmm_alloc_block left. none: it has no fuel, as when no frame above the kernel is free, for which the
-- loop of the source never ends.
unfoldable pub safe_alloc_from : ℕ → ℕ → Pmm → Option (ℕ × Pmm)
safe_alloc_from zero kernel_end s = none
safe_alloc_from (suc n) kernel_end s =
    let (addr, t) = alloc_block s in
    elim (leb addr kernel_end) [ true ↦ safe_alloc_from n kernel_end t | false ↦ some (addr, t) ]

-- A call for each frame, and one more.
abbrev pub alloc_fuel : ℕ
alloc_fuel = max_blocks + 1

unfoldable pub safe_pmm_alloc : ℕ → Pmm → Option (ℕ × Pmm)
safe_pmm_alloc kernel_end s = safe_alloc_from alloc_fuel kernel_end s

-- The loop that clears a new table, from entry `j` on with `n` left.
unfoldable pub zero_from : ℕ → ℕ → ℕ → Entries → Entries
zero_from t j zero w = w
zero_from t j (suc n) w = zero_from t (j + 1) n (put_entry t j 0 w)

-- A new table for entry `i` of `current`.
unfoldable pub new_table : ℕ → ℕ → Entries → Option (ℕ × Pmm) → Option (ℕ × Paging)
new_table current i w none = none
new_table current i w (some (new_phys, s)) = some (
  virt new_phys,
  record {
    entries =
        put_entry current i (bit_or (bit_or new_phys 1) 2) (zero_from (virt new_phys) 0 512 w);
    frames = s;
  },
)

-- The body of the loop of `map_page` for index `i`.
unfoldable pub level : ℕ → ℕ → ℕ × Paging → Option (ℕ × Paging)
level kernel_end i (current, p) =
    if bit_and (entry p.entries current i) 1 == 0
    then new_table current i p.entries (safe_pmm_alloc kernel_end p.frames)
    else some (virt (entry p.entries current i / 4096 * 4096), p)

-- The loop over the indices.
unfoldable pub levels : ℕ → List ℕ → ℕ × Paging → Option (ℕ × Paging)
levels kernel_end [] r = some r
levels kernel_end (i ∷ is) r = elim (level kernel_end i r) [
  | none ↦ none
  | some next ↦ levels kernel_end is next
]

-- The array `indices` and `pt_idx`.
unfoldable pub indices : ℕ → List ℕ
indices virtual = virtual / 2 ^ 39 % 512 ∷ virtual / 2 ^ 30 % 512 ∷ virtual / 2 ^ 21 % 512 ∷ []

unfoldable pub pt_index : ℕ → ℕ
pt_index virtual = virtual / 2 ^ 12 % 512

-- The entry for a frame with its flags, and the write of it.
unfoldable pub leaf : ℕ → ℕ → ℕ
leaf physical flags = bit_or (bit_or (physical / 4096 * 4096) flags) 1

unfoldable pub set_leaf : ℕ → ℕ → Option (ℕ × Paging) → Option Paging
set_leaf i v none = none
set_leaf i v (some (current, p)) = some (record p { entries = put_entry current i v p.entries })

-- `map_page`
unfoldable pub map_page : ℕ → ℕ → ℕ → ℕ → ℕ → Paging → Option Paging
map_page kernel_end kernel_pml4 virtual physical flags p =
    set_leaf (pt_index virtual) (leaf physical flags)
      (levels kernel_end (indices virtual) (kernel_pml4, p))
