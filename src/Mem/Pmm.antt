-- ===== src/Mem/Pmm.antt =====
-- kernel/mem/pmm.c: the bitmap of physical frames. A set bit is a used frame.
pub mod Valid
pub mod Alloc
pub mod Usage
use ly_system_os.Prelude.{
  ℕ, zero, suc, ◌+◌, ◌-◌, ◌*◌, ◌/◌, ◌%◌, ◌^◌, true, false, not, List, leb, if◌then◌else◌, replicate,
}
use ly_system_os.Prelude.Bitmap.{bit, set_at, clear_at}

abbrev pub page_size : ℕ
page_size = 4096

abbrev pub max_blocks : ℕ
max_blocks = 65536

-- `MAX_BLOCKS / BLOCKS_PER_BYTE`
abbrev pub bitmap_size : ℕ
bitmap_size = 8192

-- The globals `pmm_bitmap`, `total_blocks` and `used_blocks`.
pub record Pmm : Type 0 where
  pub bitmap : List ℕ
  pub total_blocks : ℕ
  pub used_blocks : ℕ

-- The start of `pmm_init`: every frame used, `total` being `total_blocks`.
unfoldable pub reset : ℕ → Pmm
reset total = record {
  bitmap = replicate bitmap_size 255;
  total_blocks = total;
  used_blocks = total;
}

-- `uint32_t block = phys_addr / PAGE_SIZE`
abbrev pub block_of : ℕ → ℕ
block_of phys_addr = phys_addr / page_size % 2 ^ 32

unfoldable pub mark_used : Pmm → ℕ → Pmm
mark_used s phys_addr =
    if leb s.total_blocks (block_of phys_addr)
    then s
    else if not (bit s.bitmap (block_of phys_addr))
    then record s {
      bitmap = set_at s.bitmap (block_of phys_addr);
      used_blocks = (s.used_blocks + 1) % 2 ^ 32;
    }
    else s

unfoldable pub mark_free : Pmm → ℕ → Pmm
mark_free s phys_addr =
    if leb s.total_blocks (block_of phys_addr)
    then s
    else if bit s.bitmap (block_of phys_addr)
    then record s {
      bitmap = clear_at s.bitmap (block_of phys_addr);
      used_blocks = (s.used_blocks + 2 ^ 32 - 1) % 2 ^ 32;
    }
    else s

-- `uintptr_t phys_addr = i * PAGE_SIZE`, a product of `uint32_t`.
abbrev pub frame_addr : ℕ → ℕ
frame_addr i = i * page_size % 2 ^ 32

-- The loop of `pmm_alloc_block` from frame `i`, with `n` rounds left. 0 is `NULL`.
unfoldable pub alloc_from : ℕ → ℕ → Pmm → ℕ × Pmm
alloc_from zero i s = (0, s)
alloc_from (suc n) i s = elim (bit s.bitmap i) [
  | true ↦ alloc_from n (i + 1) s
  | false ↦ (frame_addr i, mark_used s (frame_addr i))
]

unfoldable pub alloc_block : Pmm → ℕ × Pmm
alloc_block s = alloc_from s.total_blocks 0 s

unfoldable pub free_block : Pmm → ℕ → Pmm
free_block s ptr = mark_free s ptr
