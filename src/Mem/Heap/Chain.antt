-- ===== src/Mem/Heap/Chain.antt =====
-- The linked headers in memory stand for a list of blocks.
use ly_system_os.Prelude.{
  ℕ, ◌+◌, ◌-◌, ◌*◌, ◌^◌, ◌≤◌, ◌<◌, ◌≡◌, ap, ◌∙◌, ◌≢◌, true, List, [], ◌∷◌, arith, length,
}
use ly_system_os.Mem.Heap.{header_size, heap_magic, Header, Cells, Heap, write, heap_setup}
use ly_system_os.Mem.Heap.Blocks.{Block, Tiles}

-- From `p` the headers lead through the blocks `bs` to `NULL`.
abbrev pub Chain : Cells → ℕ → List Block → Type 0
Chain c p [] = p ≡ 0
Chain c p (b ∷ bs) =
    (p ≡ b.addr)
    × ((c p).magic ≡ heap_magic)
    × ((c p).is_free ≡ b.free)
    × ((c p).size ≡ b.size)
    × Chain c (c p).next bs

-- The heap holds the blocks `bs` over the region from `start` to `e`, which lies above the first 32
-- bytes of the address space and ends inside it.
pub record IsHeap (h : Heap) (e : ℕ) (bs : List Block) : Type 0 where
  pub chain : Chain h.cell h.heap_start bs
  pub tiles : Tiles h.heap_start e bs
  pub above : 32 ≤ h.heap_start
  pub inside : e < 2 ^ 64

-- Two memories agree at `q` and above, or below `q`.
abbrev pub SameFrom : ℕ → Cells → Cells → Type 0
SameFrom q c d = (a : ℕ) → q ≤ a → d a ≡ c a

abbrev pub SameBelow : ℕ → Cells → Cells → Type 0
SameBelow q c d = (a : ℕ) → a < q → d a ≡ c a

pub write_eq : (c : Cells) (p : ℕ) (x : Header) → write c p x p ≡ x
unfolding write
write_eq c p x = ground arith

pub write_ne : (c : Cells) (p a : ℕ) (x : Header) → a ≢ p → write c p x a ≡ c a
unfolding write
write_ne c p a x h = ground arith

pub Tiles-le : (q e : ℕ) (bs : List Block) → Tiles q e bs → q ≤ e
Tiles-le q e [] t = omega arith
Tiles-le q e (b ∷ bs) t = omega (arith, Tiles-le (q + header_size + b.size) e bs t.1)

pub length-Tiles : (q e : ℕ) (bs : List Block) → Tiles q e bs → q + header_size * length bs ≤ e
length-Tiles q e [] t = omega arith
length-Tiles q e (b ∷ bs) t = omega (arith, length-Tiles (q + header_size + b.size) e bs t.1)

-- A chain survives any change below its first block.
pub Chain-frame :
    (c d : Cells) (p q e : ℕ) (bs : List Block)
    → Chain c p bs
    → Tiles q e bs
    → SameFrom q c d
    → Chain d p bs
Chain-frame c d p q e [] h t same = h
Chain-frame c d p q e (b ∷ bs) (at, magic, free, size, rest) t same =
    let here : d p ≡ c p = same p (omega arith) in
    (
      at,
      ap (λ x. x.magic) here ∙ magic,
      ap (λ x. x.is_free) here ∙ free,
      ap (λ x. x.size) here ∙ size,
      rw here (
          Chain-frame c d (c p).next (q + header_size + b.size) e bs rest t.1
            (λ a h. same a (omega arith))),
    )

-- `heap_init` leaves a heap of one free block over the region.
pub heap_setup-IsHeap :
    (start_addr end_addr : ℕ) (c : Cells)
    → 32 ≤ start_addr
    → start_addr + header_size ≤ end_addr
    → end_addr < 2 ^ 64
    → IsHeap
        (heap_setup start_addr end_addr c)
        end_addr
        (record { addr = start_addr; size = end_addr - start_addr - header_size; free = true } ∷ [])
unfolding heap_setup write
heap_setup-IsHeap start_addr end_addr c lo room hi = ground arith
