-- ===== src/Mem/Heap/FitLoop.antt =====
-- The loop of `kmalloc` implements first fit on the list of blocks.
use ly_system_os.Prelude.{
  ℕ, zero, suc, ◌+◌, ◌-◌, ◌^◌, ◌≤◌, ◌<◌, ◌≡◌, refl, sym, ap, ◌∙◌, inl, inr, true, false, ◌&&◌,
  Option, none, some, List, [], ◌∷◌, arith, ltb, leb, ◌==◌, ltb→lt, Bool-cases, length,
}
use ly_system_os.Mem.Heap.{
  header_size, heap_magic, Cells, write, add64, sub64, take_block, kmalloc_loop,
}
use ly_system_os.Mem.Heap.Blocks.{Block, Tiles, place, first_fit}
use ly_system_os.Mem.Heap.Chain.{Chain, SameBelow, Chain-frame, Tiles-le, write_eq, write_ne}

-- What the loop does from pointer `p` on: it runs out of blocks where no block fits, and otherwise
-- makes the list that first fit makes, and writes nothing below `q`, the
-- end of the blocks before.
pub data Served (size : ℕ) (c : Cells) (p q : ℕ) (bs : List Block) (r : Option (ℕ × Cells))
    : Type 0 where
  full : first_fit size bs ≡ none → r ≡ some (0, c) → Served size c p q bs r
  found :
      (a : ℕ) (bs' : List Block) (d : Cells)
      → first_fit size bs ≡ some (a, bs')
      → r ≡ some (a, d)
      → Chain d p bs'
      → SameBelow q c d
      → Served size c p q bs r

module _ (size : ℕ) (c : Cells) (p e : ℕ) (b : Block) (bs : List Block) where
  -- The memory after the block at `p` was split.
  abbrev split_cells : Cells
  split_cells =
      write
        (write c (p + header_size + size) (record {
          magic = heap_magic;
          is_free = true;
          size = b.size - size - header_size;
          next = (c p).next;
        }))
        p (record (c p) { size = size; next = p + header_size + size; is_free = false })

  abbrev whole_cells : Cells
  whole_cells = write c p (record (c p) { is_free = false })

  take_block_split :
      (c p).size ≡ b.size
      → 32 ≤ p
      → p + header_size + b.size < 2 ^ 64
      → ltb (size + header_size + 32) b.size ≡ true
      → take_block size c p ≡ split_cells
  unfolding take_block
  take_block_split sz lo hi big =
      let roomy = ltb→lt (size + header_size + 32) b.size big in
      let e1 : add64 (add64 size header_size) 32 ≡ size + header_size + 32 = omega arith in
      let e2 : add64 (add64 p header_size) size ≡ p + header_size + size = omega arith in
      let e3 : sub64 (sub64 b.size size) header_size ≡ b.size - size - header_size = omega arith in
      rw (e1, sz, big, e2, e3, write_ne c (p + header_size + size) p _ (omega arith))

  take_block_whole :
      (c p).size ≡ b.size
      → 32 ≤ p
      → p + header_size + b.size < 2 ^ 64
      → size ≤ b.size
      → ltb (size + header_size + 32) b.size ≡ false
      → take_block size c p ≡ whole_cells
  unfolding take_block
  take_block_whole sz lo hi fits small =
      let e1 : add64 (add64 size header_size) 32 ≡ size + header_size + 32 = omega arith in
      rw (e1, sz, small)

  module _ (chain : Chain c p (b ∷ bs)) (tiles : Tiles p e (b ∷ bs)) where
    rest_end : p + header_size + b.size ≤ e
    rest_end = Tiles-le (p + header_size + b.size) e bs tiles.1

    split_cells-Chain :
        size + header_size + 32 < b.size
        → Chain split_cells p (
            record b { size = size; free = false }
            ∷ record {
              addr = b.addr + header_size + size;
              size = b.size - size - header_size;
              free = true;
            }
            ∷ bs)
    split_cells-Chain roomy =
        let n = p + header_size + size in
        let one =
          write_eq
            (write c n (record {
              magic = heap_magic;
              is_free = true;
              size = b.size - size - header_size;
              next = (c p).next;
            }))
            p (record (c p) { size = size; next = n; is_free = false }) in
        let two : split_cells n ≡ record {
          magic = heap_magic;
          is_free = true;
          size = b.size - size - header_size;
          next = (c p).next;
        } =
          write_ne _ p n _ (omega arith) ∙ write_eq c n _ in
        rw one (
          chain.0,
          chain.1,
          refl,
          refl,
          (
            omega (arith, chain.0),
            ap (λ x. x.magic) two,
            ap (λ x. x.is_free) two,
            ap (λ x. x.size) two,
            rw two (
                Chain-frame c split_cells (c p).next (p + header_size + b.size) e bs chain.4 tiles.1
                  (λ a h. write_ne _ p a _ (omega arith) ∙ write_ne c n a _ (omega arith))),
          ),
        )

    whole_cells-Chain : Chain whole_cells p (record b { free = false } ∷ bs)
    whole_cells-Chain =
        let here = write_eq c p (record (c p) { is_free = false }) in
        rw here (
          chain.0,
          chain.1,
          refl,
          chain.3,
          Chain-frame c whole_cells (c p).next (p + header_size + b.size) e bs chain.4 tiles.1
              (λ a h. write_ne c p a _ (omega arith)),
        )

    -- Taking a fitting block does to the memory what `place` does to the list.
    take_block-Chain :
        32 ≤ p
        → e < 2 ^ 64
        → size ≤ b.size
        → Chain (take_block size c p) p (place size b bs) × SameBelow p c (take_block size c p)
    unfolding place
    take_block-Chain lo hi fits = elim (Bool-cases (ltb (size + header_size + 32) b.size)) [
      | inl big ↦
          rw (take_block_split chain.3 lo (omega (arith, rest_end)) big, big, place)
            (
              split_cells-Chain (ltb→lt _ _ big),
              λ a h. write_ne _ p a _ (omega arith) ∙ write_ne c _ a _ (omega arith),
            )
      | inr small ↦
          rw (take_block_whole chain.3 lo (omega (arith, rest_end)) fits small, small, place)
            (whole_cells-Chain, λ a h. write_ne c p a _ (omega arith))
    ]

-- A block that does not fit is passed over.
Served-skip :
    (size : ℕ) (c : Cells) (p e : ℕ) (b : Block) (bs : List Block) (r : Option (ℕ × Cells))
    → Chain c p (b ∷ bs)
    → (b.free && leb size b.size) ≡ false
    → Served size c (c p).next (p + header_size + b.size) bs r
    → Served size c p p (b ∷ bs) r
unfolding first_fit
Served-skip size c p e b bs r chain no_fit (full none_fits same) =
    full (rw (no_fit, none_fits)) same
Served-skip size c p e b bs r (at, magic, free, sz, rest) no_fit (found a bs' d fit res out below) =
    let here : d p ≡ c p = below p (omega arith) in
    found a (b ∷ bs') d (rw (no_fit, fit)) res (rw here (at, magic, free, sz, out))
      (λ x h. below x (omega arith))

pub kmalloc_loop-Served :
    (bs : List Block) (fuel size : ℕ) (c : Cells) (p q e : ℕ)
    → length bs < fuel
    → Chain c p bs
    → Tiles q e bs
    → 32 ≤ q
    → e < 2 ^ 64
    → Served size c p q bs (kmalloc_loop fuel size c p)
unfolding kmalloc_loop first_fit
kmalloc_loop-Served bs zero size c p q e f chain tiles lo hi = absurd (omega arith)
kmalloc_loop-Served [] (suc fuel) size c p q e f chain tiles lo hi =
    full refl (rw (chain, kmalloc_loop) refl)
kmalloc_loop-Served (b ∷ bs) (suc fuel) size c p q e f chain tiles lo hi =
    let here : p ≡ q = omega (arith, chain.0, tiles.0) in
    let live : (p == 0) ≡ false = ground arith in
    let ih =
      kmalloc_loop-Served bs fuel size c (c p).next (q + header_size + b.size) e (omega arith)
        chain.4 tiles.1 (omega arith) hi in
    rw (← here) (elim (Bool-cases (b.free && leb size b.size)) [
      | inl fits ↦
          let took =
            take_block-Chain size c p e b bs chain (rw (← here) at tiles) (omega (arith, here)) hi
              (ground arith) in
          let small : p + header_size ≤ e =
            omega (arith, rest_end size c p e b bs chain (rw (← here) at tiles)) in
          rw (live, chain.2, chain.3, fits, kmalloc_loop)
            (found (p + header_size) (place size b bs) (take_block size c p)
              (rw fits (ap (λ a. some (a + header_size, place size b bs)) (tiles.0 ∙ sym here)))
              (ap (λ a. some (a, take_block size c p)) (omega arith)) took.0 took.1)
      | inr no_fit ↦
          rw (live, chain.2, chain.3, no_fit, kmalloc_loop)
            (Served-skip size c p e b bs (kmalloc_loop fuel size c (c p).next) chain no_fit
              (rw (← here) at ih))
    ])
