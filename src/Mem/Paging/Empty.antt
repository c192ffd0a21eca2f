-- ===== src/Mem/Paging/Empty.antt =====
-- The first table: nothing is mapped.
use ly_system_os.Prelude.{
  ℕ, ◌/◌, ◌%◌, ◌^◌, ◌<◌, ◌≡◌, refl, sym, subst, ◌∙◌, none, some, List, [], ◌∷◌, arith, All,
}
use ly_system_os.Mem.Pmm.Valid.{IsValid}
use ly_system_os.Mem.Paging.{Entries, entry, Paging, indices}
use ly_system_os.Mem.Paging.Tables.{
  child, follow, IsTable, IsTables, leaf_of, entry_at, follow-cons_none,
}
use ly_system_os.Mem.Paging.Mapped.{map_of}

-- No entry of the table is present.
abbrev pub IsEmpty : Entries → ℕ → Type 0
IsEmpty w root = (i : ℕ) → i < 512 → entry w root i ≡ 0

module _ (root : ℕ) (p : Paging) (nothing : IsEmpty p.entries root) where
  no_child : (i : ℕ) → i < 512 → child p.entries root i ≡ none
  unfolding child
  no_child i hi = rw (nothing i hi) refl

  follow-empty :
      (q : List ℕ) (x : ℕ)
      → All (λ i. i < 512) q
      → follow p.entries root q ≡ some x
      → (q ≡ []) × (x ≡ root)
  unfolding follow
  follow-empty [] x small e = (refl, cc)
  follow-empty (i ∷ q) x (hi, small) e =
      absurd (let h = sym (follow-cons_none p.entries root i q (no_child i hi)) ∙ e in cc)

  pub empty-IsTables : IsValid p.frames → IsTable p.frames root → IsTables root p
  empty-IsTables v t = record {
    valid = v;
    tables = λ q x is e. subst (IsTable p.frames) (sym (follow-empty q x is.small e).1) t;
    apart = λ q r x is_q is_r e_q e_r.
        (follow-empty q x is_q.small e_q).0 ∙ sym (follow-empty r x is_r.small e_r).0;
  }

  pub empty-map_of : (a : ℕ) → map_of root p a ≡ 0
  unfolding map_of entry_at leaf_of indices
  empty-map_of a =
      rw (follow-cons_none p.entries root (a / 2 ^ 39 % 512) _ (no_child _ (omega arith))) refl
