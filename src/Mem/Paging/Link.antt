-- ===== src/Mem/Paging/Link.antt =====
-- A new table in the tree: what map_page does where an entry is not present. The tables that were
-- there stay where they are, the new one is empty and stands in a frame of its own.
use ly_system_os.Prelude.{
  ℕ, ◌+◌, ◌*◌, ◌/◌, ◌≤◌, ◌<◌, bit_and, bit_or, ◌≡◌, refl, sym, ap, ◌∙◌, ◌≢◌, ◌⊎◌, inl, inr, true,
  false, ◌&&◌, none, some, List, [], ◌∷◌, ◌++◌, append_assoc, arith, ◌==◌, Bool-cases, Option-cases,
  length, length-append, All, All-append,
}
use ly_system_os.Prelude.Bitmap.{bit}
use ly_system_os.Mem.Pmm.{Pmm, page_size, max_blocks}
use ly_system_os.Mem.Pmm.Valid.{IsValid}
use ly_system_os.Prelude.Masks.{bit_and_1, bit_or_3}
use ly_system_os.Mem.Paging.{Entries, entry_addr, entry, put_entry, Paging, zero_from}
use ly_system_os.Mem.Paging.Tables.{
  child, follow, IsPath, IsTable, IsTables, leaf_of, entry_at, follow-cons, follow-cons_none,
  follow-snoc,
}
use ly_system_os.Mem.Paging.Store.{
  frame_table, entry_addr-eq, entry-put_entry, entry-put_entry_other, zero_from-entry,
  zero_from-entry_other,
}

module _ (root : ℕ) (p : Paging) (inv : IsTables root p) (q : List ℕ) (f i g : ℕ) (s : Pmm)
    (short : length q ≤ 2) (small : All (λ i. i < 512) q)
    (here : follow p.entries root q ≡ some (frame_table f)) (hf : f < max_blocks)
    (f_used : bit p.frames.bitmap f ≡ true) (hi : i < 512)
    (gone : child p.entries (frame_table f) i ≡ none) (hg : g < max_blocks)
    (g_free : bit p.frames.bitmap g ≡ false) (g_used : bit s.bitmap g ≡ true)
    (kept : (j : ℕ) → bit p.frames.bitmap j ≡ true → bit s.bitmap j ≡ true)
    (valid : IsValid s) where
  -- The store once the table is cleared and linked.
  unfoldable pub linked : Entries
  linked =
      put_entry (frame_table f) i (bit_or (bit_or (g * page_size) 1) 2)
        (zero_from (frame_table g) 0 512 p.entries)

  -- The frames of used tables are not the new one.
  used_ne : (h : ℕ) → bit p.frames.bitmap h ≡ true → g ≢ h
  used_ne h used e = let free = g_free in let u = ap (bit p.frames.bitmap) e in cc

  entry-linked_other :
      (h j : ℕ)
      → h < max_blocks
      → bit p.frames.bitmap h ≡ true
      → j < 512
      → ((f ≡ h) → (i ≡ j) → ⊥)
      → entry linked (frame_table h) j ≡ entry p.entries (frame_table h) j
  unfolding linked
  entry-linked_other h j hh used hj apart =
      entry-put_entry_other (zero_from (frame_table g) 0 512 p.entries) f h i j _ hf hh hi hj apart
      ∙ zero_from-entry_other g h 0 512 j p.entries hg hh (used_ne h used) hj (omega arith)

  entry-linked_new : (j : ℕ) → j < 512 → entry linked (frame_table g) j ≡ 0
  unfolding linked
  entry-linked_new j hj =
      entry-put_entry_other (zero_from (frame_table g) 0 512 p.entries) f g i j _ hf hg hi hj
        (λ e _. used_ne f f_used (sym e))
      ∙ zero_from-entry (frame_table g) 0 512 j p.entries (omega arith) (omega arith)

  child-linked : child linked (frame_table f) i ≡ some (frame_table g)
  unfolding child linked
  child-linked =
      let value = bit_or_3 (g * page_size) (omega arith) in
      let there =
        entry-put_entry (zero_from (frame_table g) 0 512 p.entries) (frame_table f) i
          (bit_or (bit_or (g * page_size) 1) 2)
        ∙ value in
      let flag : bit_and (g * page_size + 3) 1 ≡ 1 = bit_and_1 (g * page_size + 3) ∙ omega arith in
      let frame : (g * page_size + 3) / 4096 * 4096 ≡ g * page_size = omega arith in
      rw (there, flag, frame) refl

  child-linked_new : (j : ℕ) → j < 512 → child linked (frame_table g) j ≡ none
  unfolding child
  child-linked_new j hj = rw (entry-linked_new j hj) refl

  child-linked_other :
      (h j : ℕ)
      → h < max_blocks
      → bit p.frames.bitmap h ≡ true
      → j < 512
      → ((f ≡ h) → (i ≡ j) → ⊥)
      → child linked (frame_table h) j ≡ child p.entries (frame_table h) j
  unfolding child
  child-linked_other h j hh used hj apart = rw (entry-linked_other h j hh used hj apart) refl

  child-linked_present :
      (h j z : ℕ)
      → h < max_blocks
      → bit p.frames.bitmap h ≡ true
      → j < 512
      → child p.entries (frame_table h) j ≡ some z
      → child linked (frame_table h) j ≡ some z
  child-linked_present h j z hh used hj there =
      child-linked_other h j hh used hj (λ e k.
        let absent : child p.entries (frame_table h) j ≡ none =
          ap (λ f. child p.entries (frame_table f) j) (sym e)
          ∙ ap (child p.entries (frame_table f)) (sym k)
          ∙ gone in
        cc)
      ∙ there

  path_snoc :
      (r is : List ℕ) (j : ℕ)
      → length r + length (j ∷ is) ≤ 3
      → length (r ++ (j ∷ [])) + length is ≤ 3
  path_snoc r is j room = rw (length-append r (j ∷ [])) (omega arith)

  -- A path that was there still is, below the table that a path `r` leads to.
  follow-linked_from :
      (r is : List ℕ) (y x : ℕ)
      → length r + length is ≤ 3
      → All (λ i. i < 512) r
      → All (λ i. i < 512) is
      → follow p.entries root r ≡ some y
      → follow p.entries y is ≡ some x
      → follow linked y is ≡ some x
  unfolding follow
  follow-linked_from r [] y x room hr his at_y e = e
  follow-linked_from r (j ∷ is) y x room hr (hj, his) at_y e =
      elim (Option-cases (child p.entries y j)) [
        | inl none_there ↦
            absurd (let h = sym (follow-cons_none p.entries y j is none_there) ∙ e in cc)
        | inr (z, there) ↦
            let (h, hh, at_h, used) =
              inv.tables r y (record { short = omega arith; small = hr }) at_y in
            let next = follow-cons p.entries y j z is there in
            let kept_there : child linked y j ≡ some z = rw at_h (
              child-linked_present h j z hh used hj
                (ap (λ t. child p.entries t j) (sym at_h) ∙ there)) in
            follow-cons linked y j z is kept_there
            ∙ follow-linked_from (r ++ (j ∷ [])) is z x (path_snoc r is j room)
                (All-append (λ i. i < 512) r (j ∷ []) hr (hj, tt)) his
                (follow-snoc p.entries root y j r at_y ∙ there) (sym next ∙ e)
      ]

  -- Below the new table there is nothing.
  new_end :
      (is : List ℕ) (x : ℕ)
      → All (λ i. i < 512) is
      → follow linked (frame_table g) is ≡ some x
      → (is ≡ []) × (x ≡ frame_table g)
  unfolding follow
  new_end [] x his e = (refl, cc)
  new_end (j ∷ is) x (hj, his) e =
      absurd (
        let h = sym (follow-cons_none linked (frame_table g) j is (child-linked_new j hj)) ∙ e in
        cc)

  -- A path below a table of the tree is one that was there, or the one to the new table.
  follow-linked_back :
      (r is : List ℕ) (y x : ℕ)
      → length r + length is ≤ 3
      → All (λ i. i < 512) r
      → All (λ i. i < 512) is
      → follow p.entries root r ≡ some y
      → follow linked y is ≡ some x
      → (follow p.entries y is ≡ some x) ⊎ ((r ++ is ≡ q ++ (i ∷ [])) × (x ≡ frame_table g))
  unfolding follow
  follow-linked_back r [] y x room hr his at_y e = inl e
  follow-linked_back r (j ∷ is) y x room hr (hj, his) at_y e =
      let (h, hh, at_h, used) = inv.tables r y (record { short = omega arith; small = hr }) at_y in
      elim (Bool-cases ((f == h) && (i == j))) [
        | inl same ↦
            let e_f : f ≡ h = ground arith in
            let e_i : i ≡ j = ground arith in
            let at_f : y ≡ frame_table f = at_h ∙ ap frame_table (sym e_f) in
            let linked_here : child linked y j ≡ some (frame_table g) =
              ap (λ t. child linked t j) at_f
              ∙ ap (child linked (frame_table f)) (sym e_i)
              ∙ child-linked in
            let (e_is, e_x) =
              new_end is x his (sym (follow-cons linked y j (frame_table g) is linked_here) ∙ e) in
            let same_path : r ≡ q =
              inv.apart r q y (record { short = omega arith; small = hr })
                (record { short = omega arith; small = small }) at_y (here ∙ ap some (sym at_f)) in
            inr (
              ap (λ r. r ++ (j ∷ is)) same_path
                  ∙ ap (λ is. q ++ (j ∷ is)) e_is
                  ∙ ap (λ j. q ++ (j ∷ [])) (sym e_i),
              e_x,
            )
        | inr other ↦
            let same_child : child linked y j ≡ child p.entries y j =
              rw at_h (child-linked_other h j hh used hj (λ e_f e_i. ground arith)) in
            elim (Option-cases (child p.entries y j)) [
              | inl none_there ↦
                  absurd (
                    let k = sym (follow-cons_none linked y j is (same_child ∙ none_there)) ∙ e in
                    cc)
              | inr (z, there) ↦
                  let below =
                    follow-linked_back (r ++ (j ∷ [])) is z x (path_snoc r is j room)
                      (All-append (λ i. i < 512) r (j ∷ []) hr (hj, tt)) his
                      (follow-snoc p.entries root y j r at_y ∙ there)
                      (sym (follow-cons linked y j z is (same_child ∙ there)) ∙ e) in
                  elim below [
                    | inl old ↦ inl (follow-cons p.entries y j z is there ∙ old)
                    | inr (path, new) ↦ inr (sym (append_assoc r (j ∷ []) is) ∙ path, new)
                  ]
            ]
      ]

  -- The tree with the new table.
  unfoldable pub after : Paging
  after = record { entries = linked; frames = s }

  path_back :
      (r : List ℕ) (x : ℕ)
      → IsPath r
      → follow linked root r ≡ some x
      → (follow p.entries root r ≡ some x) ⊎ ((r ≡ q ++ (i ∷ [])) × (x ≡ frame_table g))
  unfolding follow
  path_back r x is e = follow-linked_back [] r root x (omega (arith, is.short)) tt is.small refl e

  new_apart : (r : List ℕ) (x : ℕ) → IsPath r → follow p.entries root r ≡ some x → x ≢ frame_table g
  new_apart r x is old new =
      let (h, hh, at_h, used) = inv.tables r x is old in
      let (same, _) =
        entry_addr-eq g h 0 0 hg hh (omega arith) (omega arith)
          (ap (λ t. entry_addr t 0) (sym new ∙ at_h)) in
      used_ne h used same

  after-tables : (r : List ℕ) (x : ℕ) → IsPath r → follow linked root r ≡ some x → IsTable s x
  after-tables r x is e = elim (path_back r x is e) [
    | inl old ↦ let (h, hh, at_h, used) = inv.tables r x is old in (h, hh, at_h, kept h used)
    | inr (path, new) ↦ (g, hg, new, g_used)
  ]

  after-apart :
      (a b : List ℕ) (x : ℕ)
      → IsPath a
      → IsPath b
      → follow linked root a ≡ some x
      → follow linked root b ≡ some x
      → a ≡ b
  after-apart a b x is_a is_b at_a at_b = elim (path_back a x is_a at_a) [
    | inl old_a ↦ elim (path_back b x is_b at_b) [
      | inl old_b ↦ inv.apart a b x is_a is_b old_a old_b
      | inr (path, new) ↦ absurd (new_apart a x is_a old_a new)
    ]
    | inr (path_a, new_a) ↦ elim (path_back b x is_b at_b) [
      | inl old_b ↦ absurd (new_apart b x is_b old_b new_a)
      | inr (path_b, new_b) ↦ path_a ∙ sym path_b
    ]
  ]

  pub after-IsTables : IsTables root after
  unfolding after
  after-IsTables = record { valid = valid; tables = after-tables; apart = after-apart }

  -- The new table is where the path with one index more leads.
  pub follow-after : follow after.entries root (q ++ (i ∷ [])) ≡ some (frame_table g)
  unfolding after follow
  follow-after =
      follow-snoc linked root (frame_table f) i q
        (follow-linked_from [] q root (frame_table f) (omega arith) tt small refl here)
      ∙ child-linked

  -- What the tables map stays.
  pub entry_at-after :
      (r : List ℕ) (k : ℕ)
      → IsPath r
      → length r ≡ 3
      → k < 512
      → entry_at after.entries root r k ≡ entry_at p.entries root r k
  unfolding entry_at leaf_of after follow
  entry_at-after r k is three hk = elim (Option-cases (follow linked root r)) [
    | inl no_new ↦ elim (Option-cases (follow p.entries root r)) [
      | inl no_old ↦ rw (no_new, no_old) refl
      | inr (x, old) ↦ absurd (let e = sym (still r x is old) ∙ no_new in cc)
    ]
    | inr (x, new) ↦ elim (path_back r x is new) [
      | inl old ↦ rw (new, old) (same_entry r x is three old)
      | inr (path, at_g) ↦ rw (new, at_g, no_before r path) (entry-linked_new k hk)
    ]
  ]
    where
      still :
          (r : List ℕ) (x : ℕ)
          → IsPath r
          → follow p.entries root r ≡ some x
          → follow linked root r ≡ some x
      still r x is old =
          follow-linked_from [] r root x (omega (arith, is.short)) tt is.small refl old

      no_before : (r : List ℕ) → r ≡ q ++ (i ∷ []) → follow p.entries root r ≡ none
      no_before r path =
          ap (follow p.entries root) path
          ∙ follow-snoc p.entries root (frame_table f) i q here
          ∙ gone

      same_entry :
          (r : List ℕ) (x : ℕ)
          → IsPath r
          → length r ≡ 3
          → follow p.entries root r ≡ some x
          → entry linked x k ≡ entry p.entries x k
      same_entry r x is three old =
          let (h, hh, at_h, used) = inv.tables r x is old in
          rw at_h (
            entry-linked_other h k hh used hk (λ e_f e_i.
              let same_path : r ≡ q =
                inv.apart r q x is (record { short = omega arith; small = small }) old
                  (here ∙ ap some (ap frame_table e_f ∙ sym at_h)) in
              let lengths = ap (length {A = ℕ}) same_path in omega arith))
