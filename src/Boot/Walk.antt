-- ===== src/Boot/Walk.antt =====
-- The loops over the entries of the memory map and over the tags follow what stands in memory.
use ly_system_os.Prelude.{
  ℕ, zero, suc, ◌+◌, ◌-◌, ◌*◌, ◌/◌, ◌%◌, ◌^◌, ◌≤◌, ◌<◌, ◌≡◌, refl, ◌∙◌, ◌⊎◌, inl, inr, true, false,
  not, ◌&&◌, Option, some, List, [], ◌∷◌, arith, ltb, ◌==◌, lt→ltb, ==_iff, Bool-cases, length, All,
}
use ly_system_os.Mem.Pmm.{Pmm}
use ly_system_os.Mem.Pmm.Valid.{IsValid}
use ly_system_os.Ram.{Memory, load32, load64}
use ly_system_os.Boot.{loop_fuel, next_tag, pages, map_entry, map_entries, map_tag, tags}
use ly_system_os.Boot.Marks.{Changed, Marks, Changed-then, pages_lem, Changed-none}
use ly_system_os.Boot.Tags.{
  Region, Tag, memory_map, screen, skipped, StandsRegion, StandRegions, StandsTag, Stand, lists,
  listed_by, tag_step, length-StandRegions, RegionEnds, TagEnds, EndBy,
}

module _ (m : Memory) (limit : ℕ) (free : Pmm → ℕ → Pmm) (marks : Marks limit false free)
    (loops_end : limit + 4096 ≤ 2 ^ 64) where
  entry_other :
      (at : ℕ) (s : Pmm) → (load32 m (at + 16) == 1) ≡ false → map_entry m free at s ≡ some s
  unfolding map_entry
  entry_other at s other = rw (other, map_entry) refl

  entry_usable :
      (at : ℕ) (s : Pmm)
      → (load32 m (at + 16) == 1) ≡ true
      → map_entry m free at s
        ≡ pages free loop_fuel (load64 m at) ((load64 m at + load64 m (at + 8)) % 2 ^ 64) s
  unfolding map_entry
  entry_usable at s usable = rw (usable, map_entry) refl

  -- An entry frees what its region lists.
  map_entry_lem :
      (at : ℕ) (r : Region) (s : Pmm)
      → IsValid s
      → StandsRegion m at r
      → RegionEnds limit r
      → (t : Pmm) × (map_entry m free at s ≡ some t) × Changed false (lists r) s t
  unfolding lists
  map_entry_lem at r s v st ends = elim (Bool-cases (r.kind == 1)) [
    | inr other ↦ (
      s,
      entry_other at s (rw st.kind_at other),
      Changed-none false _ s v (λ j hj. rw other refl),
    )
    | inl usable ↦
        let low = ends ((==_iff r.kind 1).0 usable) in
        let (t, runs, change) =
          pages_lem limit false free marks (2 ^ 64 - 1) r.addr (r.addr + r.len) s v low
            (omega arith) (omega arith) in
        let small : (r.addr + r.len) % 2 ^ 64 ≡ r.addr + r.len = omega arith in
        (
          t,
          entry_usable at s (rw st.kind_at usable) ∙ rw (st.addr_at, st.len_at, small) runs,
          record { inv = change.inv; bits = λ j hj. change.bits j hj ∙ rw usable refl },
        )
  ]

  entries_stop :
      (n size at last : ℕ) (s : Pmm)
      → ltb at last ≡ false
      → map_entries m free (suc n) size at last s ≡ some s
  unfolding map_entries
  entries_stop n size at last s stop = rw (stop, map_entries) refl

  entries_go :
      (n size at last : ℕ) (s t : Pmm)
      → ltb at last ≡ true
      → map_entry m free at s ≡ some t
      → map_entries m free (suc n) size at last s
        ≡ map_entries m free n size ((at + size) % 2 ^ 64) last t
  unfolding map_entries
  entries_go n size at last s t less runs = rw (less, runs, map_entries) refl

  map_entries_lem :
      (rs : List Region) (n size at last : ℕ) (s : Pmm)
      → IsValid s
      → length rs < n
      → StandRegions m size at last rs
      → All (RegionEnds limit) rs
      → (t : Pmm) × (map_entries m free n size at last s ≡ some t)
        × Changed false (listed_by rs) s t
  unfolding StandRegions listed_by
  map_entries_lem rs zero size at last s v fuel st ends = absurd (omega arith)
  map_entries_lem [] (suc n) size at last s v fuel st ends =
      (s, entries_stop n size at last s (ground arith), Changed-none false _ s v (λ j hj. refl))
  map_entries_lem (r ∷ rs) (suc n) size at last s v fuel (lt, room, here, rest) (end, ends) =
      let (t, one, change) = map_entry_lem at r s v here end in
      let (u, later, others) =
        map_entries_lem rs n size (at + size) last t change.inv (omega arith) rest ends in
      let next : (at + size) % 2 ^ 64 ≡ at + size = omega arith in
      (
        u,
        entries_go n size at last s t (lt→ltb _ _ lt) one ∙ rw next later,
        Changed-then false _ _ _ s t u change others (λ j hj. refl),
      )

  -- A tag of the memory map frees what its regions list.
  pub map_tag_lem :
      (at : ℕ) (rs : List Region) (s : Pmm)
      → IsValid s
      → StandsTag m at (memory_map rs)
      → TagEnds limit (memory_map rs)
      → (t : Pmm) × (map_tag m free at s ≡ some t) × Changed false (listed_by rs) s t
  unfolding map_tag StandsTag TagEnds
  map_tag_lem at rs s v (kind, some_size, room, st) ends =
      let last : (at + load32 m (at + 4)) % 2 ^ 64 ≡ at + load32 m (at + 4) = omega arith in
      let few = length-StandRegions m _ (at + 16) _ rs some_size st in
      rw last (map_entries_lem rs loop_fuel _ (at + 16) _ s v (omega arith) st ends)

-- The loop over the tags, for a relation `P` of the states before and behind a list of tags.
module _ (m : Memory) (limit : ℕ) {S : Type 0} (visit : ℕ → S → Option S) (Ok : S → Type 0)
    (P : List Tag → S → S → Type 0) (nil : (s : S) → Ok s → P [] s s)
    (cons : (at : ℕ) (t : Tag) (s : S)
      → StandsTag m at t
      → TagEnds limit t
      → Ok s
      → (u : S) × (visit at s ≡ some u)
        × Ok u
        × ((ts : List Tag) (r : S) → P ts u r → P (t ∷ ts) s r)) where
  not_end : (at : ℕ) (t : Tag) → StandsTag m at t → (load32 m at == 0) ≡ false
  unfolding StandsTag
  not_end at (memory_map rs) (kind, _, _, _) = rw kind refl
  not_end at (screen fb) (kind, rest) = rw kind refl
  not_end at skipped (kind, _, _) = ground arith

  tags_stop :
      (n at last : ℕ) (s : S)
      → (last ≤ at) ⊎ (load32 m at ≡ 0)
      → tags m visit (suc n) at last s ≡ some s
  unfolding tags
  tags_stop n at last s (inl behind) =
      let stop : ltb at last ≡ false = ground arith in rw (stop, tags) refl
  tags_stop n at last s (inr zero_tag) =
      let stop : (ltb at last && not (load32 m at == 0)) ≡ false = ground arith in
      rw (stop, tags) refl

  tags_go :
      (n at last : ℕ) (s u : S)
      → ltb at last ≡ true
      → (load32 m at == 0) ≡ false
      → visit at s ≡ some u
      → tags m visit (suc n) at last s ≡ tags m visit n (next_tag m at) last u
  unfolding tags
  tags_go n at last s u less tag runs = rw (less, tag, runs, tags) refl

  pub tags_lem :
      (ts : List Tag) (n at last : ℕ) (s : S)
      → Ok s
      → length ts < n
      → Stand m at last ts
      → EndBy limit ts
      → (r : S) × (tags m visit n at last s ≡ some r) × P ts s r
  unfolding Stand tag_step next_tag
  tags_lem ts zero at last s ok fuel st ends = absurd (omega arith)
  tags_lem [] (suc n) at last s ok fuel st ends = (s, tags_stop n at last s st, nil s ok)
  tags_lem (t ∷ ts) (suc n) at last s ok fuel (lt, some_size, small, room, here, rest) (end, ends) =
      let (u, one, fine, put) = cons at t s here end ok in
      let (r, later, behind) = tags_lem ts n _ last u fine (omega arith) rest ends in
      let next : (at + (load32 m (at + 4) + 7) % 2 ^ 32 / 8 * 8) % 2 ^ 64
          ≡ at + (load32 m (at + 4) + 7) / 8 * 8 =
        omega arith in
      (
        r,
        tags_go n at last s u (lt→ltb _ _ lt) (not_end at t here) one ∙ rw next later,
        put ts r behind,
      )
