-- ===== src/Mem/Paging/Mapped.antt =====
-- map_page of kernel/mem/paging.c as a step on a map from pages to entries.
use ly_system_os.Prelude.{
  ℕ, ◌+◌, ◌/◌, ◌%◌, ◌^◌, ◌≤◌, ◌<◌, ◌≡◌, refl, ap, ◌∙◌, ◌≢◌, inl, inr, true, some, arith, ◌==◌,
  if◌then◌else◌, ==_iff, Bool-cases, length, get_or,
}
use ly_system_os.Prelude.Bitmap.{bit}
use ly_system_os.Mem.Pmm.{max_blocks}
use ly_system_os.Mem.Paging.{put_entry, Paging, levels, indices, pt_index, map_page, set_leaf, leaf}
use ly_system_os.Mem.Paging.Frames.{free_above}
use ly_system_os.Mem.Paging.Tables.{IsPath, IsTables, entry_at}
use ly_system_os.Mem.Paging.Store.{frame_table}
use ly_system_os.Mem.Paging.Map.{Reached, levels_lem}
use ly_system_os.Mem.Paging.Leaf.{
  leafed, leafed-IsTables, entry_at-leafed_self, entry_at-leafed_other, written,
}

-- The page of a virtual address: 36 bits of it choose the entry.
unfoldable pub page_of : ℕ → ℕ
page_of virtual = virtual / 2 ^ 12 % 2 ^ 36

-- The entry that the tables below `root` have for a virtual address, 0 where they have none.
unfoldable pub map_of : ℕ → Paging → ℕ → ℕ
map_of root p virtual = entry_at p.entries root (indices virtual) (pt_index virtual)

IsPath-indices : (a : ℕ) → IsPath (indices a)
unfolding indices
IsPath-indices a = record {
  short = omega arith;
  small = (omega arith, (omega arith, (omega arith, tt)));
}

indices-page :
    (a b : ℕ) → page_of a ≡ page_of b → (indices a ≡ indices b) × (pt_index a ≡ pt_index b)
unfolding indices pt_index page_of
indices-page a b e =
    let top : a / 2 ^ 39 % 512 ≡ b / 2 ^ 39 % 512 = omega arith in
    let middle : a / 2 ^ 30 % 512 ≡ b / 2 ^ 30 % 512 = omega arith in
    let low : a / 2 ^ 21 % 512 ≡ b / 2 ^ 21 % 512 = omega arith in
    (rw (top, middle, low) refl, omega arith)

page-indices : (a b : ℕ) → indices a ≡ indices b → pt_index a ≡ pt_index b → page_of a ≡ page_of b
unfolding indices pt_index page_of
page-indices a b e k =
    let top = ap (λ l. get_or l 0 0) e in
    let middle = ap (λ l. get_or l 1 0) e in let low = ap (λ l. get_or l 2 0) e in omega arith

-- The map is one of pages.
pub map_of_page :
    (root : ℕ) (p : Paging) (a b : ℕ) → page_of a ≡ page_of b → map_of root p a ≡ map_of root p b
unfolding map_of
map_of_page root p a b e =
    let (is, k) = indices-page a b e in
    ap (λ l. entry_at p.entries root l (pt_index a)) is ∙ ap (entry_at p.entries root (indices b)) k

pt_index-lt : (a : ℕ) → pt_index a < 512
unfolding pt_index
pt_index-lt a = omega arith

levels-indices :
    (kernel_end root virtual n : ℕ) (p : Paging)
    → IsTables root p
    → 3 + n ≤ free_above kernel_end p.frames
    → (r : ℕ × Paging) × (levels kernel_end (indices virtual) (root, p) ≡ some r)
      × Reached kernel_end root p (indices virtual) n r
unfolding indices
levels-indices kernel_end root virtual n p inv free =
    levels_lem kernel_end root p (virtual / 2 ^ 39 % 512) (virtual / 2 ^ 30 % 512)
      (virtual / 2 ^ 21 % 512) n inv (omega arith) (omega arith) (omega arith) free

three_indices : (a : ℕ) → length (indices a) ≡ 3
unfolding indices
three_indices a = refl

-- The step on the map, once the walk has come to the last table.
module _ (kernel_end root virtual v f n : ℕ) (p t : Paging)
    (d : Reached kernel_end root p (indices virtual) n (frame_table f, t))
    (hf : f < max_blocks) where
  unfoldable mapped : Paging
  mapped =
      leafed root t d.inv (indices virtual) f (pt_index virtual) v (three_indices virtual)
        (IsPath-indices virtual).small d.there hf (pt_index-lt virtual)

  mapped-IsTables : IsTables root mapped
  unfolding mapped
  mapped-IsTables =
      leafed-IsTables root t d.inv (indices virtual) f (pt_index virtual) v (three_indices virtual)
        (IsPath-indices virtual).small d.there hf (pt_index-lt virtual)

  mapped_self : map_of root mapped virtual ≡ v
  unfolding map_of mapped
  mapped_self =
      entry_at-leafed_self root t d.inv (indices virtual) f (pt_index virtual) v
        (three_indices virtual) (IsPath-indices virtual).small d.there hf (pt_index-lt virtual)

  mapped_other : (a : ℕ) → page_of a ≢ page_of virtual → map_of root mapped a ≡ map_of root p a
  unfolding map_of mapped
  mapped_other a ne =
      entry_at-leafed_other root t d.inv (indices virtual) f (pt_index virtual) v
        (three_indices virtual) (IsPath-indices virtual).small d.there hf (pt_index-lt virtual)
        (indices a) (pt_index a) (IsPath-indices a) (pt_index-lt a)
        (λ e k. ne (page-indices a virtual e k))
      ∙ d.same (indices a) (pt_index a) (IsPath-indices a) (three_indices a) (pt_index-lt a)

  mapped-map_of :
      (a : ℕ) → map_of root mapped a ≡ (if page_of a == page_of virtual then v else map_of root p a)
  mapped-map_of a = elim (Bool-cases (page_of a == page_of virtual)) [
    | inl same ↦ rw same (map_of_page root mapped a virtual ((==_iff _ _).0 same) ∙ mapped_self)
    | inr other ↦ rw other (mapped_other a (λ e. ground arith))
  ]

-- A step on the map: the tables still stand in frames of their own, the page of `virtual` has the
-- entry `v`, every other page the entry that it had, and `n` frames above the kernel are free.
pub record MapStep (kernel_end root virtual v n : ℕ) (p r : Paging) : Type 0 where
  pub inv : IsTables root r
  pub map :
      (a : ℕ) → map_of root r a ≡ (if page_of a == page_of virtual then v else map_of root p a)
  pub enough : n ≤ free_above kernel_end r.frames
  pub kept : (j : ℕ) → bit p.frames.bitmap j ≡ true → bit r.frames.bitmap j ≡ true

-- map_page with page tables in frames of their own and, for some n, at least n + 3 free frames above the kernel: it returns, the tables still stand in frames of their own, the page of the virtual address has the entry of the frame with its flags, every other page has the entry that it had, every used frame stays used, and n frames above the kernel are free.
pub map_page_lem :
    (kernel_end root virtual physical flags n : ℕ) (p : Paging)
    → IsTables root p
    → 3 + n ≤ free_above kernel_end p.frames
    → (r : Paging) × (map_page kernel_end root virtual physical flags p ≡ some r)
      × MapStep kernel_end root virtual (leaf physical flags) n p r
unfolding map_page set_leaf mapped leafed written
map_page_lem kernel_end root virtual physical flags n p inv free =
    let (r, runs, d) = levels-indices kernel_end root virtual n p inv free in
    let (f, hf, at_f, used) = d.inv.tables (indices virtual) r.0 (IsPath-indices virtual) d.there in
    let d_f : Reached kernel_end root p (indices virtual) n (frame_table f, r.1) = record {
      inv = d.inv;
      there = d.there ∙ ap some at_f;
      same = d.same;
      enough = d.enough;
      kept = d.kept;
    } in
    let v = leaf physical flags in
    (
      mapped kernel_end root virtual v f n p r.1 d_f hf,
      rw runs (
          ap
            (λ x. some (record r.1 {
              entries = put_entry x (pt_index virtual) (leaf physical flags) r.1.entries;
            }))
            at_f),
      record {
        inv = mapped-IsTables kernel_end root virtual v f n p r.1 d_f hf;
        map = mapped-map_of kernel_end root virtual v f n p r.1 d_f hf;
        enough = d.enough;
        kept = d.kept;
      },
    )
