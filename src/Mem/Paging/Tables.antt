-- ===== src/Mem/Paging/Tables.antt =====
-- The tree of page tables: which table the indices of a path lead to, and when the tables of all paths
-- stand in frames of their own.
use ly_system_os.Prelude.{
  ℕ, ◌*◌, ◌/◌, ◌≤◌, ◌<◌, bit_and, ◌≡◌, refl, sym, ap, ◌∙◌, inl, inr, true, Option, none, some, List,
  [], ◌∷◌, ◌++◌, arith, ◌==◌, if◌then◌else◌, Option-cases, length, length-append, All, All-append,
}
use ly_system_os.Prelude.Bitmap.{bit}
use ly_system_os.Mem.Pmm.{Pmm, max_blocks}
use ly_system_os.Mem.Pmm.Valid.{IsValid}
use ly_system_os.Mem.Paging.{Entries, virt, entry, Paging}
use ly_system_os.Mem.Paging.Store.{frame_table}

-- The table of entry `i`, as map_page follows it.
unfoldable pub child : Entries → ℕ → ℕ → Option ℕ
child w t i = if bit_and (entry w t i) 1 == 0 then none else some (virt (entry w t i / 4096 * 4096))

unfoldable pub follow : Entries → ℕ → List ℕ → Option ℕ
follow w t [] = some t
follow w t (i ∷ is) = elim (child w t i) [ none ↦ none | some next ↦ follow w next is ]

-- At most three indices of nine bits.
pub record IsPath (q : List ℕ) : Type 0 where
  pub short : length q ≤ 3
  pub small : All (λ i. i < 512) q

-- A table fills a used frame.
abbrev pub IsTable : Pmm → ℕ → Type 0
IsTable s x = (f : ℕ) × (f < max_blocks) × (x ≡ frame_table f) × (bit s.bitmap f ≡ true)

-- The tables fill used frames, and no table is reached by two paths.
pub record IsTables (root : ℕ) (p : Paging) : Type 0 where
  pub valid : IsValid p.frames
  pub tables :
      (q : List ℕ) (x : ℕ) → IsPath q → follow p.entries root q ≡ some x → IsTable p.frames x
  pub apart :
      (q r : List ℕ) (x : ℕ)
      → IsPath q
      → IsPath r
      → follow p.entries root q ≡ some x
      → follow p.entries root r ≡ some x
      → q ≡ r

-- What the tables map: the entry `k` of the table that three indices lead to, and 0 where there is no table.
unfoldable pub leaf_of : Entries → Option ℕ → ℕ → ℕ
leaf_of w none k = 0
leaf_of w (some t) k = entry w t k

unfoldable pub entry_at : Entries → ℕ → List ℕ → ℕ → ℕ
entry_at w root q k = leaf_of w (follow w root q) k

pub follow-cons :
    (w : Entries) (t i x : ℕ) (is : List ℕ)
    → child w t i ≡ some x
    → follow w t (i ∷ is) ≡ follow w x is
unfolding follow
follow-cons w t i x is e = rw (e, follow) refl

pub follow-cons_none :
    (w : Entries) (t i : ℕ) (is : List ℕ) → child w t i ≡ none → follow w t (i ∷ is) ≡ none
unfolding follow
follow-cons_none w t i is e = rw (e, follow) refl

-- One index further.
pub follow-snoc :
    (w : Entries) (root y j : ℕ) (r : List ℕ)
    → follow w root r ≡ some y
    → follow w root (r ++ (j ∷ [])) ≡ child w y j
unfolding follow
follow-snoc w root y j [] e =
    let same : root ≡ y = cc in
    elim (Option-cases (child w root j)) [
      | inl gone ↦ follow-cons_none w root j [] gone ∙ sym gone ∙ ap (λ t. child w t j) same
      | inr (x, there) ↦ follow-cons w root j x [] there ∙ sym there ∙ ap (λ t. child w t j) same
    ]
follow-snoc w root y j (i ∷ r) e = elim (Option-cases (child w root i)) [
  | inl gone ↦ absurd (let h = sym (follow-cons_none w root i r gone) ∙ e in cc)
  | inr (x, there) ↦
      follow-cons w root i x (r ++ (j ∷ [])) there
      ∙ follow-snoc w x y j r (sym (follow-cons w root i x r there) ∙ e)
]

pub IsPath-snoc :
    (r : List ℕ) (j : ℕ) → length r ≤ 2 → All (λ i. i < 512) r → j < 512 → IsPath (r ++ (j ∷ []))
IsPath-snoc r j short small hj = record {
  short = rw (length-append r (j ∷ [])) (omega arith);
  small = All-append (λ i. i < 512) r (j ∷ []) small (hj, tt);
}
