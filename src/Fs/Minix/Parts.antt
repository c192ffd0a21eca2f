-- ===== src/Fs/Minix/Parts.antt =====
-- strtok of lib/string.c with a slash as the delimiter, against the parts of a path.
use ly_system_os.Prelude.{
  ℕ, ◌-◌, ◌≤◌, ◌<◌, ◌≡◌, refl, sym, ap, ◌∙◌, ◌≢◌, ◌⊎◌, inl, inr, true, false, not, ◌||◌, Option,
  none, some, List, [], ◌∷◌, arith, ◌==◌, if◌then◌else◌, ==_iff, Bool-cases, length,
}
use ly_system_os.CString.{first}
use ly_system_os.CString.Search.{is_delimiter, token_start, token_text, token_rest, strtok_at}
use ly_system_os.Fs.Minix.Path.{slash}

-- A part that is not empty, before others.
abbrev pub keep : List ℕ → List (List ℕ) → List (List ℕ)
keep [] rest = rest
keep (c ∷ cs) rest = (c ∷ cs) ∷ rest

-- The part of a string before its first slash, and the parts behind it that are not empty.
unfoldable pub split : List ℕ → List ℕ × List (List ℕ)
split [] = ([], [])
split (c ∷ cs) =
    let (part, rest) = split cs in
    if c == 0 then ([], []) else if c == slash then ([], keep part rest) else (c ∷ part, rest)

-- The parts of a path.
abbrev pub parts : List ℕ → List (List ℕ)
parts s = keep (split s).0 (split s).1

abbrev pub delimiters : List ℕ
delimiters = slash ∷ []

is_slash : (c : ℕ) → is_delimiter c delimiters ≡ (c == slash)
unfolding is_delimiter
is_slash c = ground arith

token_text-split : (s : List ℕ) → token_text s delimiters ≡ (split s).0
unfolding token_text split
token_text-split [] = refl
token_text-split (c ∷ cs) = ground (arith, is_slash c, token_text-split cs)

-- The parts of what `strtok` keeps for the next call.
abbrev pub parts_of : Option (List ℕ) → List (List ℕ)
parts_of none = []
parts_of (some s) = parts s

token_rest-split : (s : List ℕ) → parts_of (token_rest s delimiters) ≡ (split s).1
unfolding token_rest split
token_rest-split [] = refl
token_rest-split (c ∷ cs) = elim (Bool-cases (c == 0)) [
  | inl end ↦ rw (end, token_rest, split) refl
  | inr more ↦ elim (Bool-cases (c == slash)) [
    | inl here ↦ rw (more, is_slash c, here, token_rest, split) refl
    | inr other ↦ rw (more, is_slash c, other, token_rest, split) (token_rest-split cs)
  ]
]

-- A string that is at its end or at no slash stays whole.
token_start-keeps :
    (c : ℕ) (cs : List ℕ)
    → (c == 0) || not (c == slash) ≡ true
    → token_start (c ∷ cs) delimiters ≡ c ∷ cs
unfolding token_start
token_start-keeps c cs h = ground (arith, is_slash c)

token_start-parts : (s : List ℕ) → parts (token_start s delimiters) ≡ parts s
unfolding token_start split
token_start-parts [] = refl
token_start-parts (c ∷ cs) = elim (Bool-cases (c == 0)) [
  | inl end ↦ ap parts (token_start-keeps c cs (ground arith))
  | inr more ↦ elim (Bool-cases (c == slash)) [
    | inl here ↦ rw (more, is_slash c, here, token_start, split) (token_start-parts cs)
    | inr other ↦ ap parts (token_start-keeps c cs (ground arith))
  ]
]

-- A string that the first loop of `strtok` leaves is at its end, or at the start of a part.
token_start-first :
    (s : List ℕ)
    → (first (token_start s delimiters) ≡ 0) ⊎ (first (token_start s delimiters) ≢ slash)
unfolding token_start
token_start-first [] = inl refl
token_start-first (c ∷ cs) = elim (Bool-cases (c == 0)) [
  | inl end ↦ rw (end, token_start) (inl (ground arith))
  | inr more ↦ elim (Bool-cases (c == slash)) [
    | inl here ↦ rw (more, is_slash c, here, token_start) (token_start-first cs)
    | inr other ↦ rw (more, is_slash c, other, token_start) (inr (ground arith))
  ]
]

length-token_start : (s : List ℕ) → length (token_start s delimiters) ≤ length s
unfolding token_start
length-token_start [] = omega arith
length-token_start (c ∷ cs) = ground (arith, is_slash c, length-token_start cs)

-- What is kept for the next call is shorter.
abbrev pub length_of : Option (List ℕ) → ℕ
length_of none = 0
length_of (some s) = length s

length-token_rest : (s : List ℕ) → length_of (token_rest s delimiters) ≤ length s - 1
unfolding token_rest
length-token_rest [] = omega arith
length-token_rest (c ∷ cs) = elim (Bool-cases (c == 0)) [
  | inl end ↦ rw (end, token_rest) (omega arith)
  | inr more ↦ elim (Bool-cases (c == slash)) [
    | inl here ↦ rw (more, is_slash c, here, token_rest) (omega arith)
    | inr other ↦ rw (more, is_slash c, other, token_rest) (omega (arith, length-token_rest cs))
  ]
]

-- A string that starts with neither its end nor a slash starts with a part.
split-part :
    (s : List ℕ)
    → first s ≢ 0
    → first s ≢ slash
    → (c : ℕ) × (cs : List ℕ) × ((split s).0 ≡ c ∷ cs) × (0 < length s)
unfolding split
split-part [] nonzero other = absurd (nonzero refl)
split-part (c ∷ cs) nonzero other = (c, (split cs).0, ground arith, omega arith)

split-end : (s : List ℕ) → first s ≡ 0 → parts s ≡ []
unfolding split
split-end [] e = refl
split-end (c ∷ cs) e = let end : (c == 0) ≡ true = ground arith in rw (end, split) refl

keep-part :
    (p part : List ℕ) (r rest : List (List ℕ))
    → keep p r ≡ part ∷ rest
    → p ≢ []
    → (p ≡ part) × (r ≡ rest)
keep-part [] part r rest e some_ = absurd (some_ refl)
keep-part (c ∷ cs) part r rest e some_ = (ground arith, ground arith)

keep-some : (p : List ℕ) (r : List (List ℕ)) → p ≢ [] → keep p r ≢ []
keep-some [] r h e = h refl
keep-some (c ∷ cs) r h e = ground arith

-- Where the first loop of `strtok` stops: at the end of a string without parts, or at a part.
start_cases :
    (s : List ℕ)
    → ((first (token_start s delimiters) == 0) ≡ true) × (parts s ≡ [])
      ⊎ (((first (token_start s delimiters) == 0) ≡ false)
          × ((split (token_start s delimiters)).0 ≢ [])
          × (0 < length (token_start s delimiters)))
start_cases s = elim (Bool-cases (first (token_start s delimiters) == 0)) [
  | inl end ↦
      inl
        (end, sym (token_start-parts s) ∙ split-end (token_start s delimiters) ((==_iff _ 0).0 end))
  | inr more ↦ elim (token_start-first s) [
    | inl end ↦ absurd (ground arith)
    | inr other ↦
        let (c, cs, e, some_length) = split-part (token_start s delimiters) (ground arith) other in
        inr (more, λ empty. ground (arith, e, empty), some_length)
  ]
]

-- `strtok` on a string without a part, and on one with.
pub strtok_at-none : (s : List ℕ) → parts s ≡ [] → strtok_at (some s) delimiters ≡ (none, none)
unfolding strtok_at
strtok_at-none s empty = elim (start_cases s) [
  | inl (end, nothing) ↦ rw end refl
  | inr (more, part, some_length) ↦ absurd (
      keep-some (split (token_start s delimiters)).0 (split (token_start s delimiters)).1 part
        (token_start-parts s ∙ empty))
]

pub strtok_at-some :
    (s part : List ℕ) (rest : List (List ℕ))
    → parts s ≡ part ∷ rest
    → (last_pos : Option (List ℕ)) × (strtok_at (some s) delimiters ≡ (some part, last_pos))
      × (parts_of last_pos ≡ rest)
      × (length_of last_pos < length s)
unfolding strtok_at
strtok_at-some s part rest e = elim (start_cases s) [
  | inl (end, nothing) ↦ absurd (ground (arith, nothing, e))
  | inr (more, here, some_length) ↦
      let start = token_start s delimiters in
      let both =
        keep-part (split start).0 part (split start).1 rest (token_start-parts s ∙ e) here in
      (
        token_rest start delimiters,
        rw (more, token_text-split start ∙ both.0) refl,
        token_rest-split start ∙ both.1,
        omega (arith, length-token_rest start, length-token_start s, some_length),
      )
]
