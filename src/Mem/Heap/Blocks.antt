-- ===== src/Mem/Heap/Blocks.antt =====
-- The heap as the list of its blocks in address order: what `kmalloc` and `kfree` do to the list,
-- with no memory in sight.
use ly_system_os.Prelude.{
  ℕ, ◌+◌, ◌-◌, ◌≡◌, Bool, true, false, ◌&&◌, Option, none, some, List, [], ◌∷◌, ltb, leb,
  if◌then◌else◌,
}
use ly_system_os.Mem.Heap.{header_size}
use mathlib.Core.Option

pub record Block : Type 0 where
  pub addr : ℕ
  pub size : ℕ
  pub free : Bool

-- The blocks lie end to end, each behind its header, from `p` to `e`.
abbrev pub Tiles : ℕ → ℕ → List Block → Type 0
Tiles p e [] = p ≡ e
Tiles p e (b ∷ bs) = (b.addr ≡ p) × Tiles (p + header_size + b.size) e bs

-- A block is split only if more than 32 bytes are left for the second part's data.
unfoldable pub place : ℕ → Block → List Block → List Block
place size b bs =
    if ltb (size + header_size + 32) b.size
    then record b { size = size; free = false }
      ∷ record {
        addr = b.addr + header_size + size;
        size = b.size - size - header_size;
        free = true;
      }
      ∷ bs
    else record b { free = false } ∷ bs

-- The first block that is free and large enough.
unfoldable pub first_fit : ℕ → List Block → Option (ℕ × List Block)
first_fit size [] = none
first_fit size (b ∷ bs) =
    if b.free && leb size b.size
    then some (b.addr + header_size, place size b bs)
    else Option.map (λ r. (r.0, b ∷ r.1)) (first_fit size bs)

-- Neighbours that are both free become one block; `b` is the block before the list.
unfoldable pub coalesce : Block → List Block → List Block
coalesce b [] = b ∷ []
coalesce b (d ∷ bs) = elim (b.free && d.free) [
  | true ↦ coalesce (record b { size = b.size + (d.size + header_size) }) bs
  | false ↦ b ∷ coalesce d bs
]

unfoldable pub coalesce_all : List Block → List Block
unfolding coalesce
coalesce_all [] = []
coalesce_all (b ∷ bs) = coalesce b bs

-- The blocks in use.
unfoldable pub allocated : List Block → List Block
allocated [] = []
allocated (b ∷ bs) = if b.free then allocated bs else b ∷ allocated bs
