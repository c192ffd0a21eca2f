-- ===== src/CString/Search.antt =====
-- lib/string.c: strchr, strrchr and strtok. A pointer into a string is the index of the byte, or the
-- string from there on.
use ly_system_os.Prelude.{
  ℕ, ◌+◌, ◌%◌, Bool, true, false, not, ◌&&◌, ◌||◌, Option, none, some, List, [], ◌∷◌, ◌==◌,
  if◌then◌else◌,
}
use ly_system_os.CString.{first}

-- The loop of `strchr`, at index `i`.
unfoldable pub strchr_from : List ℕ → ℕ → ℕ → Option ℕ
strchr_from [] i c = if c == 0 then some i else none
strchr_from (x ∷ xs) i c =
    let rest = strchr_from xs (i + 1) c in if x == c then some i else if x == 0 then none else rest

-- `strchr`: `(char)c` is the low byte of the `int`.
unfoldable pub strchr : List ℕ → ℕ → Option ℕ
strchr s c = strchr_from s 0 (c % 256)

-- The loop of `strrchr`, at index `i`, with the last place found.
unfoldable pub strrchr_from : List ℕ → ℕ → ℕ → Option ℕ → Option ℕ
strrchr_from [] i c last = if c == 0 then some i else last
strrchr_from (x ∷ xs) i c last =
    let rest = strrchr_from xs (i + 1) c (if x == c then some i else last) in
    if x == 0 then (if c == 0 then some i else last) else rest

-- `strrchr`
unfoldable pub strrchr : List ℕ → ℕ → Option ℕ
strrchr s c = strrchr_from s 0 (c % 256) none

-- The loop over the delimiters.
unfoldable pub is_delimiter : ℕ → List ℕ → Bool
is_delimiter c [] = false
is_delimiter c (d ∷ ds) =
    let rest = is_delimiter c ds in if d == 0 then false else if c == d then true else rest

-- The first loop of `strtok`: the string from its first byte that is no delimiter.
unfoldable pub token_start : List ℕ → List ℕ → List ℕ
token_start [] delimiters = []
token_start (c ∷ cs) delimiters =
    let rest = token_start cs delimiters in
    if not (c == 0) && is_delimiter c delimiters then rest else c ∷ cs

-- The second loop of `strtok`: the token, which ends where a 0 is written.
unfoldable pub token_text : List ℕ → List ℕ → List ℕ
token_text [] delimiters = []
token_text (c ∷ cs) delimiters =
    let rest = token_text cs delimiters in
    if (c == 0) || is_delimiter c delimiters then [] else c ∷ rest

-- Where `last_pos` is left: behind the delimiter, and nowhere at the end of the string.
unfoldable pub token_rest : List ℕ → List ℕ → Option (List ℕ)
token_rest [] delimiters = none
token_rest (c ∷ cs) delimiters =
    let rest = token_rest cs delimiters in
    if c == 0 then none else if is_delimiter c delimiters then some cs else rest

-- `strtok` of a string, or of `last_pos`: the token and the new `last_pos`.
unfoldable pub strtok_at : Option (List ℕ) → List ℕ → Option (List ℕ) × Option (List ℕ)
strtok_at none delimiters = (none, none)
strtok_at (some s) delimiters =
    let start = token_start s delimiters in
    if first start == 0
    then (none, none)
    else (some (token_text start delimiters), token_rest start delimiters)

unfoldable pub strtok :
    Option (List ℕ) → Option (List ℕ) → List ℕ → Option (List ℕ) × Option (List ℕ)
strtok none last_pos delimiters = strtok_at last_pos delimiters
strtok (some str) last_pos delimiters = strtok_at (some str) delimiters
