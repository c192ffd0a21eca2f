-- ===== src/Mem/Heap/MergeLoop.antt =====
-- The loop of `kfree` implements the joining of free neighbours.
use ly_system_os.Prelude.{
  ℕ, zero, suc, ◌+◌, ◌^◌, ◌<◌, ◌≡◌, refl, ◌∙◌, inl, inr, false, ◌&&◌, some, List, [], ◌∷◌, arith,
  ◌==◌, Bool-cases, length,
}
use ly_system_os.Mem.Heap.{header_size, Cells, write, add64, loop_fuel, merge_loop}
use ly_system_os.Mem.Heap.Blocks.{Block, Tiles, coalesce, coalesce_all}
use ly_system_os.Mem.Heap.Chain.{Chain, SameBelow, Chain-frame, Tiles-le, write_eq, write_ne}
use ly_system_os.Mem.Heap.Merge.{coalesce_both, coalesce_apart}

-- The memory after the block at `p` took in the next one.
abbrev joined_cells : Cells → ℕ → Cells
joined_cells c p = write c p (record (c p) {
  size = add64 (c p).size (add64 (c (c p).next).size header_size);
  next = (c (c p).next).next;
})

joined_cells-Chain :
    (c : Cells) (p q e : ℕ) (b d : Block) (bs : List Block)
    → Chain c p (b ∷ d ∷ bs)
    → Tiles q e (b ∷ d ∷ bs)
    → e < 2 ^ 64
    → Chain (joined_cells c p) p (record b { size = b.size + (d.size + header_size) } ∷ bs)
      × SameBelow q c (joined_cells c p)
joined_cells-Chain c p q e b d bs (at, magic, free, sz, (at', magic', free', sz', rest)) tiles hi =
    let here = write_eq c p (record (c p) {
      size = add64 (c p).size (add64 (c (c p).next).size header_size);
      next = (c (c p).next).next;
    }) in
    let room = Tiles-le (q + header_size + b.size + header_size + d.size) e bs tiles.1.1 in
    (
      rw here (
        at,
        magic,
        free,
        omega (arith, sz, sz', room),
        Chain-frame c (joined_cells c p) (c (c p).next).next
            (q + header_size + b.size + header_size + d.size) e bs rest tiles.1.1
            (λ a h. write_ne c p a _ (omega (arith, at, tiles.0))),
      ),
      λ a h. write_ne c p a _ (omega (arith, at, tiles.0)),
    )

regroup :
    (q x y : ℕ) → q + header_size + x + header_size + y ≡ q + header_size + (x + (y + header_size))
regroup q x y = omega arith

-- The loop returns, does to the memory what `coalesce` does to the list, and writes nothing below
-- `q`.
merge_loop-Chain :
    (bs : List Block) (fuel : ℕ) (c : Cells) (p q e : ℕ) (b : Block)
    → length bs < fuel
    → Chain c p (b ∷ bs)
    → Tiles q e (b ∷ bs)
    → 0 < q
    → e < 2 ^ 64
    → (d : Cells) × (merge_loop fuel c p ≡ some d) × Chain d p (coalesce b bs) × SameBelow q c d
unfolding merge_loop coalesce
merge_loop-Chain bs zero c p q e b f chain tiles lo hi = absurd (omega arith)
merge_loop-Chain [] (suc fuel) c p q e b f (at, magic, free, sz, rest) tiles lo hi =
    let live : (p == 0) ≡ false = ground arith in
    (c, rw (live, rest, merge_loop) refl, (at, magic, free, sz, rest), λ a h. refl)
merge_loop-Chain (d ∷ bs) (suc fuel) c p q e b f
      (at, magic, free, sz, (at', magic', free', sz', rest)) tiles lo hi =
    let live : (p == 0) ≡ false = ground arith in
    let next_live : ((c p).next == 0) ≡ false = ground (arith, tiles.1.0) in
    elim (Bool-cases (b.free && d.free)) [
      | inl both ↦
          let (chain', same') =
            joined_cells-Chain c p q e b d bs (at, magic, free, sz, (at', magic', free', sz', rest))
              tiles hi in
          let (m, run, out, same) =
            merge_loop-Chain bs fuel (joined_cells c p) p q e
              (record b { size = b.size + (d.size + header_size) }) (omega arith) chain'
              (tiles.0, rw (regroup q b.size d.size) at tiles.1.1) lo hi in
          (
            m,
            rw (live, next_live, free, free', both, merge_loop) run,
            rw (coalesce_both b d bs both) out,
            λ a h. same a h ∙ same' a h,
          )
      | inr apart ↦
          let (m, run, out, same) =
            merge_loop-Chain bs fuel c (c p).next (q + header_size + b.size) e d (omega arith)
              (at', magic', free', sz', rest) tiles.1 (omega arith) hi in
          let here : m p ≡ c p = same p (omega arith) in
          (
            m,
            rw (live, next_live, free, free', apart, merge_loop) run,
            rw (coalesce_apart b d bs apart) (rw here (at, magic, free, sz, out)),
            λ a h. same a (omega arith),
          )
    ]

pub merge_all :
    (bs : List Block) (c : Cells) (p e : ℕ)
    → Chain c p bs
    → Tiles p e bs
    → 0 < p
    → e < 2 ^ 64
    → length bs < loop_fuel
    → (d : Cells) × (merge_loop loop_fuel c p ≡ some d) × Chain d p (coalesce_all bs)
unfolding coalesce_all
merge_all [] c p e chain tiles lo hi f = absurd (omega arith)
merge_all (b ∷ bs) c p e chain tiles lo hi f =
    let (m, run, out, same) =
      merge_loop-Chain bs loop_fuel c p p e b (omega arith) chain tiles lo hi in
    (m, run, out)
