-- ===== src/Mem/Heap.antt =====
-- kernel/mem/heap.c: a first-fit heap of blocks, each behind a header that links to the next.
pub mod Blocks
pub mod Fit
pub mod Chain
pub mod FitLoop
pub mod Kmalloc
pub mod Merge
pub mod MergeLoop
pub mod Kfree
use ly_system_os.Prelude.{
  ℕ, zero, suc, ◌+◌, ◌-◌, ◌*◌, ◌/◌, ◌%◌, ◌^◌, Bool, true, false, not, ◌&&◌, Option, none, some, map,
  ltb, leb, ◌==◌, if◌then◌else◌,
}
use mathlib.Core.Option

-- `sizeof(heap_header_t)`: a `uint32_t`, a byte with its padding, a `uint64_t` and a pointer.
abbrev pub header_size : ℕ
header_size = 24

abbrev pub heap_magic : ℕ
heap_magic = 0x12345678

-- `heap_header_t`. Of the byte `is_free` the code uses only whether it is zero.
pub record Header : Type 0 where
  pub magic : ℕ
  pub is_free : Bool
  pub size : ℕ
  pub next : ℕ

-- The header that stands at each address.
abbrev pub Cells : Type 0
Cells = ℕ → Header

-- `heap_start` (0 is `NULL`) and the memory.
pub record Heap : Type 0 where
  pub heap_start : ℕ
  pub cell : Cells

unfoldable pub write : Cells → ℕ → Header → Cells
write c p x a = if a == p then x else c a

abbrev pub add64 : ℕ → ℕ → ℕ
add64 a b = (a + b) % 2 ^ 64

abbrev pub sub64 : ℕ → ℕ → ℕ
sub64 a b = (a + 2 ^ 64 - b) % 2 ^ 64

-- The end of `heap_init`: one free block over the whole region.
unfoldable pub heap_setup : ℕ → ℕ → Cells → Heap
heap_setup start_addr end_addr c = record {
  heap_start = start_addr;
  cell = write c start_addr (record {
    magic = heap_magic;
    is_free = true;
    size = sub64 (sub64 end_addr start_addr) header_size;
    next = 0;
  });
}

-- The body of the fit in `kmalloc`: split where enough is left over, and take the block.
unfoldable pub take_block : ℕ → Cells → ℕ → Cells
take_block size c current =
    if ltb (add64 (add64 size header_size) 32) (c current).size
    then (let next_block = add64 (add64 current header_size) size in
        let c' = write c next_block (record {
          magic = heap_magic;
          is_free = true;
          size = sub64 (sub64 (c current).size size) header_size;
          next = (c current).next;
        }) in
        write c' current (record (c' current) { size = size; next = next_block; is_free = false }))
    else write c current (record (c current) { is_free = false })

-- The loop of `kmalloc`; `none` is out of fuel.
unfoldable pub kmalloc_loop : ℕ → ℕ → Cells → ℕ → Option (ℕ × Cells)
kmalloc_loop zero size c current = none
kmalloc_loop (suc fuel) size c current = elim (current == 0) [
  | true ↦ some (0, c)
  | false ↦ elim ((c current).is_free && leb size (c current).size) [
    | true ↦ some (add64 current header_size, take_block size c current)
    | false ↦ kmalloc_loop fuel size c (c current).next
  ]
]

-- `(size + 15) & ~15`
abbrev pub round16 : ℕ → ℕ
round16 size = add64 size 15 / 16 * 16

-- No list of headers below 2 ^ 64 is as long as this.
abbrev pub loop_fuel : ℕ
loop_fuel = 2 ^ 64

unfoldable pub kmalloc : ℕ → Heap → Option (ℕ × Heap)
kmalloc size h =
    Option.map (λ r. (r.0, record h { cell = r.1 }))
      (kmalloc_loop loop_fuel (round16 size) h.cell h.heap_start)

-- The loop of `kfree`, which joins neighbours that are both free.
unfoldable pub merge_loop : ℕ → Cells → ℕ → Option Cells
merge_loop zero c current = none
merge_loop (suc fuel) c current = elim (not (current == 0) && not ((c current).next == 0)) [
  | false ↦ some c
  | true ↦ elim ((c current).is_free && (c (c current).next).is_free) [
    | true ↦
        merge_loop fuel
          (write c current (record (c current) {
            size = add64 (c current).size (add64 (c (c current).next).size header_size);
            next = (c (c current).next).next;
          }))
          current
    | false ↦ merge_loop fuel c (c current).next
  ]
]

unfoldable pub kfree : ℕ → Heap → Option Heap
kfree ptr h =
    if ptr == 0
    then some h
    else (let header = sub64 ptr header_size in
        if not ((h.cell header).magic == heap_magic)
        then some h
        else Option.map (λ c. record h { cell = c })
            (merge_loop loop_fuel (write h.cell header (record (h.cell header) { is_free = true }))
              h.heap_start))
