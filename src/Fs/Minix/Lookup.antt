-- ===== src/Fs/Minix/Lookup.antt =====
-- What a search in a directory finds after an entry was added or cleared (kernel/fs/minix/file.c).
use ly_system_os.Prelude.{
  ℕ, ◌+◌, ◌*◌, ◌^◌, ◌<◌, ◌≡◌, refl, sym, ap, subst, ◌∙◌, ◌≢◌, inl, inr, true, false, some, List,
  arith, ◌==◌, ==_iff, Bool-cases, length, drop, length-drop,
}
use ly_system_os.Prelude.Int.{pos, ◌==ℤ◌}
use ly_system_os.CString.{strncpy, text, strcmp}
use ly_system_os.CString.Copy.{text-strncpy}
use ly_system_os.Prelude.Bytes.{put16, length-put16}
use ly_system_os.CString.Memory.{length-strncpy, get_or-strncpy_behind}
use ly_system_os.Fs.Minix.Layout.{entry_inode, entry_name, names, find_in, set_entry}
use ly_system_os.Fs.Minix.Path.{entry_at}
use ly_system_os.Prelude.Search.{Outcome-eq}
use ly_system_os.Fs.Minix.Entries.{
  IsSector, strcmp-same, same-strcmp, SameEntry, entry_inode-same, names-same, find_in-Outcome,
  unused, put_entry-name, put_entry-SameEntry, put_entry-inode,
}

-- No entry has the name.
abbrev pub Absent : List ℕ → List ℕ → Type 0
Absent buf name = (j : ℕ) → j < 16 → names buf name j ≡ false

used_clash : (buf name : List ℕ) (k : ℕ) → names buf name k ≡ true → entry_inode buf k ≡ 0 → ⊥
unfolding names
used_clash buf name k hit e = ground arith

-- A name that FindEntry does not find is not there.
pub Absent-of_none :
    (buf name : List ℕ) → entry_at buf (find_in 16 0 buf name) ≡ 0 → Absent buf name
unfolding entry_at
Absent-of_none buf name e = elim (find_in-Outcome 16 0 16 buf name (omega arith)) [
  | inl (nothing, all) ↦ λ j h. all j (omega arith) h
  | inr (k, found, from, to, hit, before) ↦
      let zero_there : entry_inode buf k ≡ 0 = sym (ap (entry_at buf) found) ∙ e in
      absurd (used_clash buf name k hit zero_there)
]

-- An entry that is not in use has no name.
unused-names :
    (buf : List ℕ) (i : ℕ) (name : List ℕ) → unused buf i ≡ true → names buf name i ≡ false
unfolding names
unused-names buf i name free = ground arith

module _ (buf : List ℕ) (i inode_no : ℕ) (name : List ℕ) (whole : IsSector buf) (h : i < 16)
    (small : inode_no < 2 ^ 16) (nonzero : inode_no ≢ 0) (short : length (text name) < 30) where
  abbrev after : List ℕ
  after = set_entry buf i inode_no name

  pub set_entry-SameEntry : (j : ℕ) → j ≢ i → SameEntry after buf j
  unfolding set_entry
  set_entry-SameEntry =
      put_entry-SameEntry buf i inode_no (λ b. strncpy b name 30) whole h
        (λ b. length-strncpy b name 30) (λ b k behind. get_or-strncpy_behind b name 30 k behind)

  pub entry_inode-set_entry : entry_inode after i ≡ inode_no
  unfolding set_entry
  entry_inode-set_entry =
      put_entry-inode buf i inode_no (λ b. strncpy b name 30) whole h
        (λ b. length-strncpy b name 30) (λ b k behind. get_or-strncpy_behind b name 30 k behind)
        small

  text-set_entry : text (entry_name after i) ≡ text name
  unfolding set_entry
  text-set_entry =
      let tail = drop (i * 32 + 2) (put16 buf (i * 32) inode_no) in
      ap text (
        put_entry-name buf i inode_no (λ b. strncpy b name 30) whole h
          (λ b. length-strncpy b name 30) (λ b k behind. get_or-strncpy_behind b name 30 k behind))
      ∙ text-strncpy tail name 30 short (
          rw
            (
              length-drop (i * 32 + 2) (put16 buf (i * 32) inode_no),
              length-put16 buf (i * 32) inode_no,
              whole,
            )
            (omega arith))

  -- The new entry has the name, and no other.
  names-set_entry : (name' : List ℕ) → text name' ≡ text name → names after name' i ≡ true
  unfolding names
  names-set_entry name' e =
      let same : (strcmp (entry_name after i) name' ==ℤ pos 0) ≡ true =
        strcmp-same _ name' (text-set_entry ∙ sym e) in
      ground (arith, same, entry_inode-set_entry)

  names-set_entry_other : (name' : List ℕ) → text name' ≢ text name → names after name' i ≡ false
  unfolding names
  names-set_entry_other name' other =
      elim (Bool-cases (strcmp (entry_name after i) name' ==ℤ pos 0)) [
        | inl same ↦ absurd (other (sym (same-strcmp _ name' same) ∙ text-set_entry))
        | inr differs ↦ ground arith
      ]

  pub find_in-set_entry :
      (name' : List ℕ)
      → text name' ≡ text name
      → Absent buf name'
      → find_in 16 0 after name' ≡ some i
  find_in-set_entry name' e absent =
      Outcome-eq (names after name') (names after name') 0 16 (find_in 16 0 after name') (some i)
        (λ j hj. refl) (find_in-Outcome 16 0 16 after name' (omega arith))
        (inr (
          i,
          refl,
          omega arith,
          h,
          names-set_entry name' e,
          λ j above below.
              names-same after buf j (set_entry-SameEntry j (omega arith)) name' (rw e short)
              ∙ absent j (omega arith),
        ))

  pub find_in-set_entry_other :
      (name' : List ℕ)
      → length (text name') < 30
      → text name' ≢ text name
      → unused buf i ≡ true
      → find_in 16 0 after name' ≡ find_in 16 0 buf name'
  find_in-set_entry_other name' short' other free =
      Outcome-eq (names after name') (names buf name') 0 16 (find_in 16 0 after name')
        (find_in 16 0 buf name') kept (find_in-Outcome 16 0 16 after name' (omega arith))
        (find_in-Outcome 16 0 16 buf name' (omega arith))
    where
      kept : (j : ℕ) → j < 16 → names after name' j ≡ names buf name' j
      kept j hj = elim (Bool-cases (j == i)) [
        | inl here ↦
            rw ((==_iff j i).0 here)
              (names-set_entry_other name' other ∙ sym (unused-names buf i name' free))
        | inr there ↦ names-same after buf j (set_entry-SameEntry j (ground arith)) name' short'
      ]

  -- Other names lead to the inodes as before.
  pub entry_at-set_entry_other :
      (name' : List ℕ)
      → length (text name') < 30
      → text name' ≢ text name
      → unused buf i ≡ true
      → entry_at after (find_in 16 0 after name') ≡ entry_at buf (find_in 16 0 buf name')
  unfolding entry_at
  entry_at-set_entry_other name' short' other free =
      ap (entry_at after) (find_in-set_entry_other name' short' other free)
      ∙ elim (find_in-Outcome 16 0 16 buf name' (omega arith)) [
        | inl (nothing, all) ↦ rw nothing refl
        | inr (j, found, from, to, hit, before) ↦
            rw found (entry_inode-same after buf j (set_entry-SameEntry j (elsewhere j hit free)))
      ]
    where
      elsewhere : (j : ℕ) → names buf name' j ≡ true → unused buf i ≡ true → j ≢ i
      elsewhere j hit free e = absurd (
          used_clash buf name' j hit
            ((==_iff (entry_inode buf j) 0).0 (subst (λ x. unused buf x ≡ true) (sym e) free)))
