-- ===== src/Mem/Heap/Kmalloc.antt =====
-- `kmalloc` implements first fit on the list of blocks.
use ly_system_os.Prelude.{
  ℕ, ◌-◌, ◌^◌, ◌≤◌, ◌<◌, ◌≡◌, refl, ◌≢◌, ◌⊎◌, inl, inr, some, List, arith, length,
}
use ly_system_os.Mem.Heap.{Heap, kmalloc_loop, round16, loop_fuel, kmalloc}
use ly_system_os.Mem.Heap.Blocks.{Block}
use ly_system_os.Mem.Heap.Chain.{length-Tiles, IsHeap}
use ly_system_os.Mem.Heap.Fit.{
  NoFit, Fit, NoFit_of_none, first_fit-Fit, Fit-Tiles, Granted, Fit-Granted,
}
use ly_system_os.Mem.Heap.FitLoop.{Served, full, found, kmalloc_loop-Served}
use mathlib.Core.Option

-- Every chain is shorter than the fuel.
pub IsHeap-fuel : {h : Heap} {e : ℕ} {bs : List Block} → IsHeap h e bs → length bs < loop_fuel
IsHeap-fuel {h} {e} {bs} is = omega (arith, length-Tiles h.heap_start e bs is.tiles, is.inside)

-- The two outcomes of `kmalloc`.
abbrev pub ServedOrNull : ℕ → Heap → ℕ → List Block → Type 0
ServedOrNull size h e bs =
    (NoFit (round16 size) bs × (kmalloc size h ≡ some (0, h)))
    ⊎ ((ptr : ℕ) × (bs' : List Block) × (h' : Heap) × (kmalloc size h ≡ some (ptr, h'))
        × Fit (round16 size) bs ptr bs'
        × IsHeap h' e bs')

-- What `kmalloc` returns on a heap of the blocks `bs`: NULL, with nothing changed, exactly where no
-- block fits the rounded size; and else the data of the first block that fits, with that block
-- taken, or split and its front part taken. It always returns.
pub kmalloc_lem :
    {h : Heap} {e : ℕ} {bs : List Block} (size : ℕ) → IsHeap h e bs → ServedOrNull size h e bs
unfolding kmalloc
kmalloc_lem {h} {e} {bs} size is = elim served [
  | full none_fits same ↦
      inl (NoFit_of_none (round16 size) bs none_fits, rw (same, Option.map) refl)
  | found a bs' d fit res out below ↦ inr (
    a,
    bs',
    record h { cell = d },
    rw (res, Option.map) refl,
    first_fit-Fit (round16 size) bs a bs' fit,
    record {
      chain = out;
      tiles = Fit-Tiles (first_fit-Fit (round16 size) bs a bs' fit) h.heap_start e is.tiles;
      above = is.above;
      inside = is.inside;
    },
  )
]
  where
    served :
        Served
          (round16 size)
          h.cell
          h.heap_start
          h.heap_start
          bs
          (kmalloc_loop loop_fuel (round16 size) h.cell h.heap_start)
    served =
        kmalloc_loop-Served bs loop_fuel (round16 size) h.cell h.heap_start h.heap_start e
          (IsHeap-fuel is) is.chain is.tiles is.above is.inside

-- What a pointer from `kmalloc` stands for.
abbrev pub Owned : ℕ → ℕ → Heap → ℕ → List Block → Type 0
Owned size ptr h' e bs = (bs' : List Block) × IsHeap h' e bs' × Granted size bs ptr bs'

-- A pointer that `kmalloc` returns for a size of at most 2 ^ 64 - 16 is that of a new block in use
-- of at least that size; every block that was in use still is, unchanged.
pub kmalloc-Granted :
    {h : Heap} {e : ℕ} {bs : List Block} (size ptr : ℕ) (h' : Heap)
    → IsHeap h e bs
    → size ≤ 2 ^ 64 - 16
    → kmalloc size h ≡ some (ptr, h')
    → ptr ≢ 0
    → Owned size ptr h' e bs
kmalloc-Granted size ptr h' is small run live = elim (kmalloc_lem size is) [
  | inl (none_fits, e) ↦ absurd (live (ground arith))
  | inr (q, bs', g, e, fit, is') ↦
      let e1 : q ≡ ptr = ground arith in
      let e2 : g ≡ h' = ground arith in
      let grant = Fit-Granted fit in
      (
        bs',
        rw e2 at is',
        record {
          low = grant.low;
          high = grant.high;
          granted = grant.granted;
          enough = omega (arith, grant.enough);
          old = grant.old;
          new = rw e1 at grant.new;
        },
      )
]
