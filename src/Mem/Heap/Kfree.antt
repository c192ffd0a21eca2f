-- ===== src/Mem/Heap/Kfree.antt =====
-- `kfree` frees the block and joins free neighbours; after `kmalloc` it restores the heap.
use ly_system_os.Prelude.{
  ℕ, suc, ◌+◌, ◌-◌, ◌^◌, ◌≤◌, ◌<◌, ◌≡◌, refl, sym, ap, subst, ◌∙◌, inl, inr, true, false, not, some,
  List, [], ◌∷◌, ◌++◌, arith, ltb, ◌==◌, Bool-cases, length,
}
use ly_system_os.Mem.Heap.{
  header_size, heap_magic, Cells, Heap, write, sub64, round16, loop_fuel, kmalloc, merge_loop,
  kfree,
}
use ly_system_os.Mem.Heap.Blocks.{Block, Tiles, place, coalesce_all, allocated}
use ly_system_os.Mem.Heap.Chain.{Chain, Chain-frame, Tiles-le, IsHeap, write_eq, write_ne}
use ly_system_os.Mem.Heap.Fit.{NoFit, allocated-append}
use ly_system_os.Mem.Heap.Kmalloc.{IsHeap-fuel, kmalloc_lem}
use ly_system_os.Mem.Heap.Merge.{
  Coalesced, coalesce_all-Coalesced, Tiles-coalesce_all, allocated-coalesce_all, coalesce_all_split,
  coalesce_all_id,
}
use ly_system_os.Mem.Heap.MergeLoop.{merge_all}
use mathlib.Core.Option

-- Inside a chain: the header of a block, and what freeing the block does to the chain.
Chain-magic :
    (xs : List Block) (b : Block) (ys : List Block) (c : Cells) (p : ℕ)
    → Chain c p (xs ++ (b ∷ ys))
    → (c b.addr).magic ≡ heap_magic
Chain-magic [] b ys c p chain = rw (← chain.0) chain.1
Chain-magic (x ∷ xs) b ys c p chain = Chain-magic xs b ys c (c p).next chain.4

abbrev freed_cells : Cells → ℕ → Cells
freed_cells c a = write c a (record (c a) { is_free = true })

Tiles-addr :
    (xs : List Block) (b : Block) (ys : List Block) (q e : ℕ)
    → Tiles q e (xs ++ (b ∷ ys))
    → (q ≤ b.addr) × (b.addr + header_size + b.size ≤ e)
Tiles-addr [] b ys q e t = omega (arith, Tiles-le (q + header_size + b.size) e ys t.1)
Tiles-addr (x ∷ xs) b ys q e t = omega (arith, Tiles-addr xs b ys (q + header_size + x.size) e t.1)

freed_cells-Chain :
    (xs : List Block) (b : Block) (ys : List Block) (c : Cells) (a p q e : ℕ)
    → a ≡ b.addr
    → Chain c p (xs ++ (b ∷ ys))
    → Tiles q e (xs ++ (b ∷ ys))
    → Chain (freed_cells c a) p (xs ++ (record b { free = true } ∷ ys))
freed_cells-Chain [] b ys c a p q e is (at, magic, free, sz, rest) t =
    let here = write_eq c p (record (c p) { is_free = true }) in
    let same : a ≡ p = is ∙ sym at in
    subst (λ x. Chain (freed_cells c x) p (record b { free = true } ∷ ys)) (sym same)
      (rw here (
        at,
        magic,
        refl,
        sz,
        Chain-frame c (freed_cells c p) (c p).next (q + header_size + b.size) e ys rest t.1
            (λ x h. write_ne c p x _ (omega (arith, at, t.0))),
      ))
freed_cells-Chain (x ∷ xs) b ys c a p q e is (at, magic, free, sz, rest) t =
    let far = Tiles-addr xs b ys (q + header_size + x.size) e t.1 in
    let here : freed_cells c a p ≡ c p = write_ne c a p _ (omega (arith, at, t.0, far, is)) in
    rw here (
      at,
      magic,
      free,
      sz,
      freed_cells-Chain xs b ys c a (c p).next (q + header_size + x.size) e is rest t.1,
    )

Tiles-freed :
    (xs : List Block) (b : Block) (ys : List Block) (q e : ℕ)
    → Tiles q e (xs ++ (b ∷ ys))
    → Tiles q e (xs ++ (record b { free = true } ∷ ys))
Tiles-freed [] b ys q e t = t
Tiles-freed (x ∷ xs) b ys q e t = (t.0, Tiles-freed xs b ys (q + header_size + x.size) e t.1)

length-freed :
    (xs : List Block) (b d : Block) (ys : List Block)
    → length (xs ++ (d ∷ ys)) ≡ length (xs ++ (b ∷ ys))
length-freed [] b d ys = refl
length-freed (x ∷ xs) b d ys = ap suc (length-freed xs b d ys)

kfree_step :
    (h : Heap) (a : ℕ) (d : Cells)
    → a + header_size < 2 ^ 64
    → (h.cell a).magic ≡ heap_magic
    → merge_loop loop_fuel (freed_cells h.cell a) h.heap_start ≡ some d
    → kfree (a + header_size) h ≡ some (record h { cell = d })
unfolding kfree
kfree_step h a d small magic run =
    let live : (a + header_size == 0) ≡ false = ground arith in
    let back : sub64 (a + header_size) header_size ≡ a = omega arith in
    let test : not ((h.cell a).magic == heap_magic) ≡ false = ground arith in
    rw (live, back, test, run, Option.map) refl

-- What `kfree` of the block `b` between `xs` and `ys` does.
abbrev pub Released : Heap → ℕ → List Block → Block → List Block → Type 0
Released h e xs b ys =
    (bs' : List Block) × (h' : Heap) × (kfree (b.addr + header_size) h ≡ some h')
    × IsHeap h' e bs'
    × Coalesced bs'
    × (allocated (xs ++ (b ∷ ys)) ≡ allocated xs ++ (b ∷ allocated ys))
    × (allocated bs' ≡ allocated xs ++ allocated ys)

module _ {h : Heap} {e : ℕ} (xs : List Block) (b : Block) (ys : List Block) where
  -- `kfree` of a block's data returns, and makes the list in which the block is free and free
  -- neighbours are joined.
  kfree_runs :
      IsHeap h e (xs ++ (b ∷ ys))
      → (h' : Heap) × (kfree (b.addr + header_size) h ≡ some h')
        × IsHeap h' e (coalesce_all (xs ++ (record b { free = true } ∷ ys)))
  kfree_runs is =
      let bounds = Tiles-addr xs b ys h.heap_start e is.tiles in
      let magic = Chain-magic xs b ys h.cell h.heap_start is.chain in
      let freed = Tiles-freed xs b ys h.heap_start e is.tiles in
      let (d, run, out) =
        merge_all (xs ++ (record b { free = true } ∷ ys)) (freed_cells h.cell b.addr) h.heap_start e
          (freed_cells-Chain xs b ys h.cell b.addr h.heap_start h.heap_start e refl is.chain
            is.tiles)
          freed (omega (arith, is.above)) is.inside
          (rw (length-freed xs b (record b { free = true }) ys) (IsHeap-fuel is)) in
      (
        record h { cell = d },
        kfree_step h b.addr d (omega (arith, bounds, is.inside)) magic run,
        record {
          chain = out;
          tiles = Tiles-coalesce_all h.heap_start e _ freed;
          above = is.above;
          inside = is.inside;
        },
      )

  -- `kfree` of a block in use returns a heap over the same region in which that block is free, the
  -- other blocks in use are as they were, and no two neighbours are both free.
  pub kfree_lem : IsHeap h e (xs ++ (b ∷ ys)) → b.free ≡ false → Released h e xs b ys
  unfolding allocated
  kfree_lem is used =
      let freed = xs ++ (record b { free = true } ∷ ys) in
      let (h', run, is') = kfree_runs is in
      (
        coalesce_all freed,
        h',
        run,
        is',
        coalesce_all-Coalesced freed,
        rw (allocated-append, used) refl,
        allocated-coalesce_all freed ∙ rw allocated-append refl,
      )

-- Undoing first fit on the list: the placed block, freed, is joined to the block that it was.
undo_fit :
    (size : ℕ) (xs : List Block) (b : Block) (ys : List Block)
    → b.free ≡ true
    → size ≤ b.size
    → Coalesced (xs ++ (b ∷ ys))
    → (d : Block) × (zs : List Block) × (place size b ys ≡ d ∷ zs)
      × (d.addr ≡ b.addr)
      × (coalesce_all (xs ++ (record d { free = true } ∷ zs)) ≡ xs ++ (b ∷ ys))
unfolding place
undo_fit size xs b ys free fits apart = elim (Bool-cases (ltb (size + header_size + 32) b.size)) [
  | inl big ↦
      let low : Block = record b { size = size; free = false } in
      let high : Block = record {
        addr = b.addr + header_size + size;
        size = b.size - size - header_size;
        free = true;
      } in
      let same : record low { size = size + (high.size + header_size); free = true } ≡ b =
        ground arith in
      (
        low,
        high ∷ ys,
        rw (big, place) refl,
        refl,
        coalesce_all_split xs (record low { free = true }) high ys refl refl (rw same apart)
            ∙ ap (λ x. xs ++ (x ∷ ys)) same,
      )
  | inr small ↦
      let same : record b { free = true } ≡ b = ground arith in
      (
        record b { free = false },
        ys,
        rw (small, place) refl,
        refl,
        ap (λ x. coalesce_all (xs ++ (x ∷ ys))) same ∙ coalesce_all_id (xs ++ (b ∷ ys)) apart,
      )
]

-- A pair of calls that gives the heap back.
abbrev pub Restored : ℕ → Heap → ℕ → List Block → Type 0
Restored size h e bs =
    (ptr : ℕ) × (h' : Heap) × (h'' : Heap) × (kmalloc size h ≡ some (ptr, h'))
    × (kfree ptr h' ≡ some h'')
    × IsHeap h'' e bs

-- On a heap with no free neighbours, where some block fits, `kfree` of the pointer that `kmalloc`
-- returned gives a heap of the very blocks that were there before the call.
pub kfree-kmalloc :
    {h : Heap} {e : ℕ} {bs : List Block} (size : ℕ)
    → IsHeap h e bs
    → Coalesced bs
    → ¬ NoFit (round16 size) bs
    → Restored size h e bs
kfree-kmalloc {h} {e} {bs} size is apart fits = elim (kmalloc_lem size is) [
  | inl (none_fits, _) ↦ absurd (fits none_fits)
  | inr (ptr, bs', h', run, fit, is') ↦
      let (d, zs, placed, at, undone) =
        undo_fit (round16 size) fit.before fit.b fit.after fit.free fit.fits
          (rw fit.cut at apart) in
      let is'' : IsHeap h' e (fit.before ++ (d ∷ zs)) =
        rw (fit.placed ∙ ap (λ l. fit.before ++ l) placed) at is' in
      let (h'', run', out) = kfree_runs fit.before d zs is'' in
      let same : d.addr + header_size ≡ ptr = omega (arith, at, fit.address) in
      (ptr, h', h'', run, rw same at run', rw (undone ∙ sym fit.cut) at out)
]
