-- ===== src/Fs/Minix/Entries.antt =====
-- The directory entries of a sector: what a write of one of them changes, and what the searches of
-- kernel/fs/minix/file.c find. A name in use has fewer than 30 bytes, so that its end is in the entry.
use ly_system_os.Prelude.{
  ℕ, zero, suc, ◌+◌, ◌-◌, ◌*◌, ◌^◌, ◌≤◌, ◌<◌, ◌≡◌, refl, sym, ap, ◌∙◌, ◌≢◌, ◌⊎◌, inl, inr, Bool,
  true, not, ◌&&◌, List, [], ◌∷◌, arith, ltb, ◌==◌, Bool-cases, length, get_or, drop,
}
use ly_system_os.Prelude.Int.{pos, ◌==ℤ◌, ==ℤ-eq}
use ly_system_os.CString.{text, strcmp}
use ly_system_os.CString.Compare.{strcmp_lem}
use ly_system_os.Prelude.Bytes.{
  get16, put16, write_at, length-write_at, get_or-write_at, drop-write_at, get_or-drop,
  length-put16, get_or-put16, get16-put16,
}
use ly_system_os.Fs.Minix.Layout.{entry_inode, entry_name, names, find_in, free_slot}
use ly_system_os.Prelude.Search.{Outcome, Outcome-skip, Outcome-hit}

abbrev pub IsSector : List ℕ → Type 0
IsSector buf = length buf ≡ 512

-- Strings that agree on more bytes than the text of the first has, have the same text.
pub text-agree :
    (n : ℕ) (a b : List ℕ)
    → ((k : ℕ) → k < n → get_or a k 0 ≡ get_or b k 0)
    → length (text a) < n
    → text a ≡ text b
text-agree zero a b same short = absurd (omega arith)
text-agree (suc n) [] [] same short = refl
text-agree (suc n) [] (y ∷ ys) same short = ground (arith, same 0)
text-agree (suc n) (x ∷ xs) [] same short = ground (arith, same 0)
text-agree (suc n) (x ∷ xs) (y ∷ ys) same short =
    ground (arith, same 0, text-agree n xs ys (λ k h. same (suc k) (omega arith)))

pub strcmp-same : (a b : List ℕ) → text a ≡ text b → (strcmp a b ==ℤ pos 0) ≡ true
strcmp-same a b e = rw ((strcmp_lem a b).1 e) refl

pub same-strcmp : (a b : List ℕ) → (strcmp a b ==ℤ pos 0) ≡ true → text a ≡ text b
same-strcmp a b e = (strcmp_lem a b).0 (==ℤ-eq (strcmp a b) (pos 0) e)

-- The comparison reads the two texts only.
pub strcmp_texts :
    (a a' b b' : List ℕ)
    → text a ≡ text a'
    → text b ≡ text b'
    → (strcmp a b ==ℤ pos 0) ≡ (strcmp a' b' ==ℤ pos 0)
strcmp_texts a a' b b' ea eb = elim (Bool-cases (strcmp a b ==ℤ pos 0)) [
  | inl hit ↦ hit ∙ sym (strcmp-same a' b' (sym ea ∙ same-strcmp a b hit ∙ eb))
  | inr miss ↦ elim (Bool-cases (strcmp a' b' ==ℤ pos 0)) [
    | inl hit ↦ absurd (ground (arith, strcmp-same a b (ea ∙ same-strcmp a' b' hit ∙ sym eb)))
    | inr miss' ↦ miss ∙ sym miss'
  ]
]

strcmp_hit :
    (n : ℕ) (a a' b : List ℕ)
    → ((k : ℕ) → k < n → get_or a k 0 ≡ get_or a' k 0)
    → length (text b) < n
    → (strcmp a b ==ℤ pos 0) ≡ true
    → (strcmp a' b ==ℤ pos 0) ≡ true
strcmp_hit n a a' b same short hit =
    let e : text a ≡ text b = same-strcmp a b hit in
    let agree : text a ≡ text a' = text-agree n a a' same (rw e short) in
    strcmp-same a' b (sym agree ∙ e)

-- Strings that agree on more bytes than a text has compare with it alike.
pub strcmp_short :
    (n : ℕ) (a a' b : List ℕ)
    → ((k : ℕ) → k < n → get_or a k 0 ≡ get_or a' k 0)
    → length (text b) < n
    → (strcmp a b ==ℤ pos 0) ≡ (strcmp a' b ==ℤ pos 0)
strcmp_short n a a' b same short = elim (Bool-cases (strcmp a b ==ℤ pos 0)) [
  | inl hit ↦ hit ∙ sym (strcmp_hit n a a' b same short hit)
  | inr miss ↦ elim (Bool-cases (strcmp a' b ==ℤ pos 0)) [
    | inl hit ↦ absurd (ground (arith, strcmp_hit n a' a b (λ k h. sym (same k h)) short hit))
    | inr miss' ↦ miss ∙ sym miss'
  ]
]

-- Two sectors hold the same entry `i`.
abbrev pub SameEntry : List ℕ → List ℕ → ℕ → Type 0
SameEntry buf buf' i = (k : ℕ) → k < 32 → get_or buf (i * 32 + k) 0 ≡ get_or buf' (i * 32 + k) 0

module _ (buf buf' : List ℕ) (i : ℕ) (same : SameEntry buf buf' i) where
  pub entry_inode-same : entry_inode buf i ≡ entry_inode buf' i
  unfolding entry_inode get16
  entry_inode-same = ground (arith, same 0, same 1)

  name_bytes : (k : ℕ) → k < 30 → get_or (entry_name buf i) k 0 ≡ get_or (entry_name buf' i) k 0
  unfolding entry_name
  name_bytes k h =
      rw (get_or-drop (i * 32 + 2) k buf, get_or-drop (i * 32 + 2) k buf')
        (ground (arith, same (2 + k)))

  -- An entry names the same short name before and after.
  pub names-same : (name : List ℕ) → length (text name) < 30 → names buf name i ≡ names buf' name i
  unfolding names
  names-same name short = rw entry_inode-same (
      ap (λ b. not (entry_inode buf' i == 0) && b)
        (strcmp_short 30 (entry_name buf i) (entry_name buf' i) name name_bytes short))

-- The searches find the first entry that fits.
pub find_in-Outcome :
    (n i hi : ℕ) (buf name : List ℕ)
    → n + i ≡ hi
    → Outcome (names buf name) i hi (find_in n i buf name)
unfolding find_in
find_in-Outcome zero i hi buf name e = inl (refl, λ j above below. absurd (omega arith))
find_in-Outcome (suc n) i hi buf name e = elim (Bool-cases (names buf name i)) [
  | inl hit ↦ rw (hit, find_in) (Outcome-hit (names buf name) i hi hit (omega arith))
  | inr miss ↦
      rw (miss, find_in)
        (Outcome-skip (names buf name) i hi (find_in n (i + 1) buf name) miss
          (find_in-Outcome n (i + 1) hi buf name (omega arith)))
]

abbrev pub unused : List ℕ → ℕ → Bool
unused buf j = entry_inode buf j == 0

pub free_slot-Outcome :
    (n i hi : ℕ) (buf : List ℕ) → n + i ≡ hi → Outcome (unused buf) i hi (free_slot n i buf)
unfolding free_slot
free_slot-Outcome zero i hi buf e = inl (refl, λ j above below. absurd (omega arith))
free_slot-Outcome (suc n) i hi buf e = elim (Bool-cases (entry_inode buf i == 0)) [
  | inl hit ↦ rw (hit, free_slot) (Outcome-hit (unused buf) i hi hit (omega arith))
  | inr miss ↦
      rw (miss, free_slot)
        (Outcome-skip (unused buf) i hi (free_slot n (i + 1) buf) miss
          (free_slot-Outcome n (i + 1) hi buf (omega arith)))
]

-- A write of the number and the name of entry `i`, by any write `f` of the first 30 bytes.
module _ (buf : List ℕ) (i inode_no : ℕ) (f : List ℕ → List ℕ) (whole : IsSector buf) (h : i < 16)
    (same : (b : List ℕ) → length (f b) ≡ length b)
    (behind : (b : List ℕ) (k : ℕ) → 30 ≤ k → get_or (f b) k 0 ≡ get_or b k 0) where
  abbrev put_entry : List ℕ
  put_entry = write_at (i * 32 + 2) f (put16 buf (i * 32) inode_no)

  fits : i * 32 + 2 ≤ length (put16 buf (i * 32) inode_no)
  fits = rw (length-put16 buf (i * 32) inode_no, whole) (omega arith)

  pub put_entry-IsSector : IsSector put_entry
  put_entry-IsSector =
      length-write_at f same (i * 32 + 2) (put16 buf (i * 32) inode_no)
      ∙ length-put16 buf (i * 32) inode_no
      ∙ whole

  pub put_entry-name : entry_name put_entry i ≡ f (drop (i * 32 + 2) (put16 buf (i * 32) inode_no))
  unfolding entry_name
  put_entry-name = drop-write_at f (i * 32 + 2) (put16 buf (i * 32) inode_no) fits

  room : i * 32 + 1 < length buf
  room = rw whole (omega arith)

  put_bytes : (k : ℕ) → (k < i * 32) ⊎ (i * 32 + 32 ≤ k) → get_or put_entry k 0 ≡ get_or buf k 0
  put_bytes k away = ground (
    arith,
    get_or-write_at f (i * 32 + 2) (put16 buf (i * 32) inode_no) k fits,
    behind (drop (i * 32 + 2) (put16 buf (i * 32) inode_no)) (k - (i * 32 + 2)),
    get_or-drop (i * 32 + 2) (k - (i * 32 + 2)) (put16 buf (i * 32) inode_no),
    get_or-put16 buf (i * 32) inode_no k room,
  )

  pub put_entry-SameEntry : (j : ℕ) → j ≢ i → SameEntry put_entry buf j
  put_entry-SameEntry j other k hk = put_bytes (j * 32 + k) (apart i j k other hk)
    where
      apart : (i j k : ℕ) → j ≢ i → k < 32 → (j * 32 + k < i * 32) ⊎ (i * 32 + 32 ≤ j * 32 + k)
      apart i j k other hk = elim (Bool-cases (ltb j i)) [
        | inl below ↦ inl (ground arith)
        | inr above ↦ inr (ground arith)
      ]

  pub put_entry-inode : inode_no < 2 ^ 16 → entry_inode put_entry i ≡ inode_no
  unfolding entry_inode
  put_entry-inode small = low_bytes ∙ get16-put16 buf (i * 32) inode_no room small
    where
      low_bytes : get16 put_entry (i * 32) ≡ get16 (put16 buf (i * 32) inode_no) (i * 32)
      low_bytes =
          unfold get16 in
          ground (
            arith,
            get_or-write_at f (i * 32 + 2) (put16 buf (i * 32) inode_no) (i * 32) fits,
            get_or-write_at f (i * 32 + 2) (put16 buf (i * 32) inode_no) (i * 32 + 1) fits,
          )
