-- ===== src/Mem/Setup/Region.antt =====
-- Pages of a region that have each a frame of their own, and one page put in front of such a region.
use ly_system_os.Prelude.{
  ℕ, zero, suc, ◌+◌, ◌*◌, ◌/◌, ◌^◌, ◌≤◌, ◌<◌, ◌≡◌, refl, sym, ap, subst, ◌∙◌, ◌≢◌, inl, inr, true,
  false, some, arith, leb, ◌==◌, leb→le, ==_iff, Bool-cases,
}
use ly_system_os.Prelude.Bitmap.{bit}
use ly_system_os.Mem.Pmm.{Pmm, page_size, max_blocks, alloc_block}
use ly_system_os.Mem.Pmm.Valid.{IsValid}
use ly_system_os.Mem.Pmm.Alloc.{alloc_block_lem}
use ly_system_os.Prelude.Masks.{bit_or_31}
use ly_system_os.Mem.Paging.{Paging, map_page, leaf}
use ly_system_os.Mem.Paging.Frames.{free_above, Drawn, drawn, free_above-Full}
use ly_system_os.Mem.Paging.Tables.{IsTables}
use ly_system_os.Mem.Paging.Mapped.{page_of, map_of, MapStep, map_page_lem}
use ly_system_os.Mem.Paging.Low.{KernelUsed}

-- The pages from `v` on, `n` of them, are mapped to frames that were free, each to its own, and all
-- others as they were.
pub record IsRegion (kernel_end root v n : ℕ) (p r : Paging) : Type 0 where
  pub inv : IsTables root r
  pub frame :
      (i : ℕ)
      → i < n
      → (f : ℕ) × (f < max_blocks)
        × (kernel_end < f * page_size)
        × (map_of root r (v + i * 4096) ≡ f * page_size + 3)
        × (bit p.frames.bitmap f ≡ false)
        × (bit r.frames.bitmap f ≡ true)
  pub own :
      (i j : ℕ)
      → i < n
      → j < n
      → map_of root r (v + i * 4096) ≡ map_of root r (v + j * 4096)
      → i ≡ j
  pub others :
      (a : ℕ)
      → ((i : ℕ) → i < n → page_of a ≢ page_of (v + i * 4096))
      → map_of root r a ≡ map_of root p a
  pub kept : (j : ℕ) → bit p.frames.bitmap j ≡ true → bit r.frames.bitmap j ≡ true

module _ (kernel_end root : ℕ) where
  -- A frame for a page: above the kernel, and never 0.
  pub draw_lem :
      (s : Pmm)
      → IsValid s
      → KernelUsed kernel_end s
      → 1 ≤ free_above kernel_end s
      → (g : ℕ) × Drawn kernel_end s (alloc_block s) g
  draw_lem s v used free = elim (alloc_block_lem v) [
    | inl (all, e) ↦ absurd (let none_free = free_above-Full kernel_end s all in omega arith)
    | inr (i, first, addr, took) ↦ elim (Bool-cases (leb (i * page_size) kernel_end)) [
      | inl low ↦ absurd (let u = used i (leb→le _ _ low) in let free_i = took.was_free in cc)
      | inr high ↦ (i, drawn kernel_end s i v first.below addr took (ground arith))
    ]
  ]

  -- The tables do not care for more used frames.
  more_used-IsTables :
      (p : Paging) (s : Pmm)
      → IsTables root p
      → IsValid s
      → ((j : ℕ) → bit p.frames.bitmap j ≡ true → bit s.bitmap j ≡ true)
      → IsTables root (record p { frames = s })
  more_used-IsTables p s inv v kept = record {
    valid = v;
    tables =
        λ q x is e. let (f, hf, at_f, used) = inv.tables q x is e in (f, hf, at_f, kept f used);
    apart = inv.apart;
  }

  leaf_3 : (g : ℕ) → leaf (g * page_size) 3 ≡ g * page_size + 3
  unfolding leaf
  leaf_3 g =
      let whole : g * page_size / 4096 * 4096 ≡ g * page_size = omega arith in
      rw whole (bit_or_31 (g * page_size) (omega arith))

  -- One round of the loop.
  pub page_lem :
      (n v : ℕ) (p : Paging)
      → IsTables root p
      → KernelUsed kernel_end p.frames
      → 4 + n ≤ free_above kernel_end p.frames
      → (g : ℕ) × (r : Paging) × Drawn kernel_end p.frames (alloc_block p.frames) g
        × (map_page kernel_end root v
              (g * page_size)
              3
              (record p { frames = (alloc_block p.frames).1 })
            ≡ some r)
        × MapStep kernel_end root v
            (g * page_size + 3)
            n
            (record p { frames = (alloc_block p.frames).1 })
            r
  page_lem n v p inv used free =
      let (g, d) = draw_lem p.frames inv.valid used (omega arith) in
      let one_less = d.one_less in
      let (r, runs, step) =
        map_page_lem kernel_end root v (g * page_size) 3 n
          (record p { frames = (alloc_block p.frames).1 })
          (more_used-IsTables p (alloc_block p.frames).1 inv d.valid d.kept) (omega arith) in
      (
        g,
        r,
        d,
        runs,
        subst
            (λ x. MapStep kernel_end root v x n (record p { frames = (alloc_block p.frames).1 }) r)
            (leaf_3 g) step,
      )

  -- A page, and the pages behind it.
  page_ne : (v i n : ℕ) → n < 2 ^ 36 → i < n → page_of v ≢ page_of (v + 4096 + i * 4096)
  unfolding page_of
  page_ne v i n few hi e = omega arith

  unmapped :
      (s : Pmm) (p : Paging) (a : ℕ) → map_of root (record p { frames = s }) a ≡ map_of root p a
  unfolding map_of
  unmapped s p a = refl

  pub IsRegion-cons :
      (n v g : ℕ) (p r1 r : Paging)
      → n < 2 ^ 36
      → Drawn kernel_end p.frames (alloc_block p.frames) g
      → MapStep kernel_end root v
          (g * page_size + 3)
          (4 * n)
          (record p { frames = (alloc_block p.frames).1 })
          r1
      → IsRegion kernel_end root (v + 4096) n r1 r
      → IsRegion kernel_end root v (suc n) p r
  IsRegion-cons n v g p r1 r few d step rest = record {
    inv = rest.inv;
    frame = frames;
    own = owns;
    others = λ a out.
        rest.others a (λ i hi. rw (behind i) (out (suc i) (omega arith)))
        ∙ step.map a
        ∙ rw (different a (out 0 (omega arith))) (unmapped (alloc_block p.frames).1 p a);
    kept = λ j used. rest.kept j (step.kept j (d.kept j used));
  }
    where
      behind : (i : ℕ) → v + 4096 + i * 4096 ≡ v + suc i * 4096
      behind i = omega arith

      start : v + 0 * 4096 ≡ v
      start = omega arith

      different : (a : ℕ) → page_of a ≢ page_of (v + 0 * 4096) → (page_of a == page_of v) ≡ false
      different a out = let e = ap page_of start in ground arith

      here : map_of root r (v + 0 * 4096) ≡ g * page_size + 3
      here =
          ap (map_of root r) start
          ∙ rest.others v (λ i hi. page_ne v i n few hi)
          ∙ step.map v
          ∙ rw ((==_iff (page_of v) (page_of v)).1 refl) refl

      was_free : (f : ℕ) → bit r1.frames.bitmap f ≡ false → bit p.frames.bitmap f ≡ false
      was_free f free = elim (Bool-cases (bit p.frames.bitmap f)) [
        | inl used ↦ absurd (let later = step.kept f (d.kept f used) in cc)
        | inr free_before ↦ free_before
      ]

      clash : (i : ℕ) → i < n → map_of root r (v + 0 * 4096) ≡ map_of root r (v + suc i * 4096) → ⊥
      clash i hi e =
          let (f, below, above, at_f, free, used) = rest.frame i hi in
          let there = ap (map_of root r) (behind i) in
          let same : g ≡ f = omega (arith, here, e, there, at_f) in
          let taken = step.kept g d.used in let taken_f = ap (bit r1.frames.bitmap) same in cc

      frames :
          (i : ℕ)
          → i < suc n
          → (f : ℕ) × (f < max_blocks)
            × (kernel_end < f * page_size)
            × (map_of root r (v + i * 4096) ≡ f * page_size + 3)
            × (bit p.frames.bitmap f ≡ false)
            × (bit r.frames.bitmap f ≡ true)
      frames zero hi = (g, d.below, d.above, here, d.was_free, rest.kept g (step.kept g d.used))
      frames (suc i) hi =
          let (f, below, above, at_f, free, used) = rest.frame i (omega arith) in
          (f, below, above, ap (map_of root r) (sym (behind i)) ∙ at_f, was_free f free, used)

      owns :
          (i j : ℕ)
          → i < suc n
          → j < suc n
          → map_of root r (v + i * 4096) ≡ map_of root r (v + j * 4096)
          → i ≡ j
      owns zero zero hi hj e = refl
      owns zero (suc j) hi hj e = absurd (clash j (omega arith) e)
      owns (suc i) zero hi hj e = absurd (clash i (omega arith) (sym e))
      owns (suc i) (suc j) hi hj e = ap suc (
          rest.own i j (omega arith) (omega arith)
            (ap (map_of root r) (behind i) ∙ e ∙ ap (map_of root r) (sym (behind j))))
