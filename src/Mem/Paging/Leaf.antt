-- ===== src/Mem/Paging/Leaf.antt =====
-- The last write of map_page: an entry of a table that three indices lead to, and what the tables map
-- then, page by page.
use ly_system_os.Prelude.{
  ℕ, ◌+◌, ◌≤◌, ◌<◌, ◌≡◌, refl, sym, ap, ◌∙◌, inl, inr, some, List, [], ◌∷◌, ◌++◌, arith,
  Option-cases, length, length-append, All, All-append,
}
use ly_system_os.Mem.Pmm.{max_blocks}
use ly_system_os.Mem.Paging.{Entries, entry, put_entry, Paging}
use ly_system_os.Mem.Paging.Tables.{
  child, follow, IsPath, IsTables, leaf_of, entry_at, follow-cons, follow-cons_none, follow-snoc,
}
use ly_system_os.Mem.Paging.Store.{frame_table, entry-put_entry, entry-put_entry_other}

module _ (root : ℕ) (p : Paging) (inv : IsTables root p) (q : List ℕ) (f k v : ℕ)
    (three : length q ≡ 3) (small : All (λ i. i < 512) q)
    (here : follow p.entries root q ≡ some (frame_table f)) (hf : f < max_blocks)
    (hk : k < 512) where
  unfoldable pub written : Entries
  written = put_entry (frame_table f) k v p.entries

  path : IsPath q
  path = record { short = omega (arith, three); small = small }

  -- The table that the entry stands in is that of no other path.
  only :
      (r : List ℕ) (h : ℕ)
      → IsPath r
      → follow p.entries root r ≡ some (frame_table h)
      → f ≡ h
      → r ≡ q
  only r h is at_h e =
      inv.apart r q (frame_table h) is path at_h (here ∙ ap some (ap frame_table e))

  same_child :
      (r : List ℕ) (h j : ℕ)
      → h < max_blocks
      → j < 512
      → length r ≤ 2
      → IsPath r
      → follow p.entries root r ≡ some (frame_table h)
      → child written (frame_table h) j ≡ child p.entries (frame_table h) j
  unfolding child written
  same_child r h j hh hj short is_r at_h =
      rw
        (entry-put_entry_other p.entries f h k j v hf hh hk hj
          (λ e_f e_k. let lengths = ap (length {A = ℕ}) (only r h is_r at_h e_f) in omega arith))
        refl

  -- Tables are found through other tables.
  follow-written :
      (r is : List ℕ) (y : ℕ)
      → length r + length is ≤ 3
      → All (λ i. i < 512) r
      → All (λ i. i < 512) is
      → follow p.entries root r ≡ some y
      → follow written y is ≡ follow p.entries y is
  unfolding follow
  follow-written r [] y room hr his at_y = refl
  follow-written r (j ∷ is) y room hr (hj, his) at_y =
      let is_r : IsPath r = record { short = omega arith; small = hr } in
      let (h, hh, at_h, used) = inv.tables r y is_r at_y in
      let same : child written y j ≡ child p.entries y j =
        rw at_h (same_child r h j hh hj (omega arith) is_r (at_y ∙ ap some at_h)) in
      elim (Option-cases (child p.entries y j)) [
        | inl gone ↦
            follow-cons_none written y j is (same ∙ gone)
            ∙ sym (follow-cons_none p.entries y j is gone)
        | inr (z, there) ↦
            follow-cons written y j z is (same ∙ there)
            ∙ follow-written (r ++ (j ∷ [])) is z (rw (length-append r (j ∷ [])) (omega arith))
                (All-append (λ i. i < 512) r (j ∷ []) hr (hj, tt)) his
                (follow-snoc p.entries root y j r at_y ∙ there)
            ∙ sym (follow-cons p.entries y j z is there)
      ]

  path_same : (r : List ℕ) → IsPath r → follow written root r ≡ follow p.entries root r
  unfolding follow
  path_same r is = follow-written [] r root (omega (arith, is.short)) tt is.small refl

  unfoldable pub leafed : Paging
  leafed = record p { entries = written }

  pub leafed-IsTables : IsTables root leafed
  unfolding leafed
  leafed-IsTables = record {
    valid = inv.valid;
    tables = λ r x is e. inv.tables r x is (sym (path_same r is) ∙ e);
    apart = λ a b x is_a is_b e_a e_b.
        inv.apart a b x is_a is_b (sym (path_same a is_a) ∙ e_a) (sym (path_same b is_b) ∙ e_b);
  }

  pub entry_at-leafed_self : entry_at leafed.entries root q k ≡ v
  unfolding leafed written entry_at leaf_of
  entry_at-leafed_self = rw (path_same q path, here) (entry-put_entry p.entries (frame_table f) k v)

  pub entry_at-leafed_other :
      (r : List ℕ) (j : ℕ)
      → IsPath r
      → j < 512
      → ((r ≡ q) → (j ≡ k) → ⊥)
      → entry_at leafed.entries root r j ≡ entry_at p.entries root r j
  unfolding leafed entry_at leaf_of written
  entry_at-leafed_other r j is hj apart = elim (Option-cases (follow p.entries root r)) [
    | inl gone ↦ rw (path_same r is, gone) refl
    | inr (x, there) ↦ rw (path_same r is, there) (same_entry r x is there apart)
  ]
    where
      same_entry :
          (r : List ℕ) (x : ℕ)
          → IsPath r
          → follow p.entries root r ≡ some x
          → ((r ≡ q) → (j ≡ k) → ⊥)
          → entry written x j ≡ entry p.entries x j
      same_entry r x is there apart =
          let (h, hh, at_h, used) = inv.tables r x is there in
          rw at_h (
            entry-put_entry_other p.entries f h k j v hf hh hk hj
              (λ e_f e_k. apart (only r h is (there ∙ ap some at_h) e_f) (sym e_k)))
