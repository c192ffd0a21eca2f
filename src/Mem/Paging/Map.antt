-- ===== src/Mem/Paging/Map.antt =====
-- What map_page of kernel/mem/paging.c does to the map that the page tables stand for.
use ly_system_os.Prelude.{
  ℕ, suc, ◌+◌, ◌≤◌, ◌<◌, bit_and, ◌≡◌, refl, sym, ap, ◌∙◌, inl, inr, true, none, some, List, [],
  ◌∷◌, ◌++◌, arith, ◌==◌, Bool-cases, Option-cases, length, All,
}
use ly_system_os.Prelude.Bitmap.{bit}
use ly_system_os.Mem.Pmm.{Pmm, max_blocks}
use ly_system_os.Mem.Paging.{entry, Paging, safe_pmm_alloc, level, levels, new_table}
use ly_system_os.Mem.Paging.Frames.{free_above, safe_pmm_alloc_lem}
use ly_system_os.Mem.Paging.Tables.{child, follow, IsPath, IsTables, entry_at, follow-snoc}
use ly_system_os.Mem.Paging.Link.{after, linked, after-IsTables, follow-after, entry_at-after}
use ly_system_os.Mem.Paging.Store.{frame_table}

-- From `p` a walk came to the table of path `q`, and what was mapped is as it was.
pub record Reached (kernel_end root : ℕ) (p : Paging) (q : List ℕ) (n : ℕ) (r : ℕ × Paging)
    : Type 0 where
  pub inv : IsTables root r.1
  pub there : follow r.1.entries root q ≡ some r.0
  pub same :
      (x : List ℕ) (k : ℕ)
      → IsPath x
      → length x ≡ 3
      → k < 512
      → entry_at r.1.entries root x k ≡ entry_at p.entries root x k
  pub enough : n ≤ free_above kernel_end r.1.frames
  pub kept : (j : ℕ) → bit p.frames.bitmap j ≡ true → bit r.1.frames.bitmap j ≡ true

module _ (kernel_end root : ℕ) where
  module _ (t i : ℕ) (p : Paging) where
    level_new :
        (r : ℕ × Pmm)
        → child p.entries t i ≡ none
        → safe_pmm_alloc kernel_end p.frames ≡ some r
        → level kernel_end i (t, p) ≡ new_table t i p.entries (some r)
    unfolding level child
    level_new r gone draws = elim (Bool-cases (bit_and (entry p.entries t i) 1 == 0)) [
      | inl absent ↦ rw (absent, draws) refl
      | inr present ↦ absurd (let e = rw present at (gone) in cc)
    ]

    level_old : (x : ℕ) → child p.entries t i ≡ some x → level kernel_end i (t, p) ≡ some (x, p)
    unfolding level child
    level_old x there = elim (Bool-cases (bit_and (entry p.entries t i) 1 == 0)) [
      | inl absent ↦ absurd (let e = rw absent at (there) in cc)
      | inr present ↦ rw present (let e = rw present at (there) in cc)
    ]

  -- An entry without a table: a new one is linked.
  level_link :
      (p : Paging) (q : List ℕ) (f i n : ℕ)
      → IsTables root p
      → length q ≤ 2
      → All (λ i. i < 512) q
      → i < 512
      → f < max_blocks
      → bit p.frames.bitmap f ≡ true
      → follow p.entries root q ≡ some (frame_table f)
      → child p.entries (frame_table f) i ≡ none
      → suc n ≤ free_above kernel_end p.frames
      → (r : ℕ × Paging) × (level kernel_end i (frame_table f, p) ≡ some r)
        × Reached kernel_end root p (q ++ (i ∷ [])) n r
  unfolding after linked new_table
  level_link p q f i n inv short small hi hf f_used here gone free =
      let (r, g, draws, d) = safe_pmm_alloc_lem kernel_end p.frames inv.valid (omega arith) in
      let one_less = d.one_less in
      (
        (
          frame_table g,
          after root p inv q f i g r.1 short small here hf f_used hi gone d.below d.was_free d.used
              d.kept d.valid,
        ),
        level_new (frame_table f) i p r gone draws ∙ rw d.addr refl,
        record {
          inv =
              after-IsTables root p inv q f i g r.1 short small here hf f_used hi gone d.below
                d.was_free d.used d.kept d.valid;
          there =
              follow-after root p inv q f i g r.1 short small here hf f_used hi gone d.below
                d.was_free d.used d.kept d.valid;
          same =
              entry_at-after root p inv q f i g r.1 short small here hf f_used hi gone d.below
                d.was_free d.used d.kept d.valid;
          enough = omega arith;
          kept = d.kept;
        },
      )

  level_lem :
      (p : Paging) (q : List ℕ) (t i n : ℕ)
      → IsTables root p
      → length q ≤ 2
      → All (λ i. i < 512) q
      → i < 512
      → follow p.entries root q ≡ some t
      → suc n ≤ free_above kernel_end p.frames
      → (r : ℕ × Paging) × (level kernel_end i (t, p) ≡ some r)
        × Reached kernel_end root p (q ++ (i ∷ [])) n r
  level_lem p q t i n inv short small hi here free = elim (Option-cases (child p.entries t i)) [
    | inl gone ↦
        let (f, hf, at_f, f_used) =
          inv.tables q t (record { short = omega arith; small = small }) here in
        rw at_f (
          level_link p q f i n inv short small hi hf f_used (here ∙ ap some at_f)
            (ap (λ t. child p.entries t i) (sym at_f) ∙ gone) free)
    | inr (x, there) ↦ (
      (x, p),
      level_old t i p x there,
      record {
        inv = inv;
        there = follow-snoc p.entries root t i q here ∙ there;
        same = λ x k is three hk. refl;
        enough = omega arith;
        kept = λ j used. used;
      },
    )
  ]

  levels-cons :
      (i : ℕ) (is : List ℕ) (r x : ℕ × Paging)
      → level kernel_end i r ≡ some x
      → levels kernel_end (i ∷ is) r ≡ levels kernel_end is x
  unfolding levels
  levels-cons i is r x e = rw (e, levels) refl

  -- The three levels.
  pub levels_lem :
      (p : Paging) (i1 i2 i3 n : ℕ)
      → IsTables root p
      → i1 < 512
      → i2 < 512
      → i3 < 512
      → 3 + n ≤ free_above kernel_end p.frames
      → (r : ℕ × Paging) × (levels kernel_end (i1 ∷ i2 ∷ i3 ∷ []) (root, p) ≡ some r)
        × Reached kernel_end root p (i1 ∷ i2 ∷ i3 ∷ []) n r
  unfolding levels follow
  levels_lem p i1 i2 i3 n inv h1 h2 h3 free =
      let (r1, e1, d1) =
        level_lem p [] root i1 (2 + n) inv (omega arith) tt h1 refl (omega arith) in
      let (r2, e2, d2) =
        level_lem r1.1 (i1 ∷ []) r1.0 i2 (1 + n) d1.inv (omega arith) (h1, tt) h2 d1.there
          (omega (arith, d1.enough)) in
      let (r3, e3, d3) =
        level_lem r2.1 (i1 ∷ i2 ∷ []) r2.0 i3 n d2.inv (omega arith) (h1, (h2, tt)) h3 d2.there
          (omega (arith, d2.enough)) in
      (
        r3,
        levels-cons i1 (i2 ∷ i3 ∷ []) (root, p) r1 e1
            ∙ levels-cons i2 (i3 ∷ []) r1 r2 e2
            ∙ levels-cons i3 [] r2 r3 e3,
        record {
          inv = d3.inv;
          there = d3.there;
          same = λ x k is three hk.
              d3.same x k is three hk ∙ d2.same x k is three hk ∙ d1.same x k is three hk;
          enough = d3.enough;
          kept = λ j used. d3.kept j (d2.kept j (d1.kept j used));
        },
      )
