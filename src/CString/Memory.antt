-- ===== src/CString/Memory.antt =====
-- lib/string.c: memcpy, memset and strcpy, on the bytes from a pointer on. What stands behind the end of
-- a list is read as 0, and a write there is lost.
use ly_system_os.Prelude.{
  ℕ, zero, suc, ◌%◌, ◌≤◌, ◌<◌, ◌≡◌, refl, ap, List, [], ◌∷◌, arith, ltb, ◌==◌, if◌then◌else◌,
  length, get_or,
}
use ly_system_os.CString.{strncpy, first, next}

-- `memcpy`
unfoldable pub memcpy : List ℕ → List ℕ → ℕ → List ℕ
memcpy [] src n = []
memcpy (d ∷ ds) src zero = d ∷ ds
memcpy (d ∷ ds) src (suc n) = first src ∷ memcpy ds (next src) n

-- `memset`
unfoldable pub memset : List ℕ → ℕ → ℕ → List ℕ
memset [] val n = []
memset (d ∷ ds) val zero = d ∷ ds
memset (d ∷ ds) val (suc n) = (val % 256) ∷ memset ds val n

-- `strcpy`
unfoldable pub strcpy : List ℕ → List ℕ → List ℕ
strcpy [] src = []
strcpy (d ∷ ds) src =
    let rest = strcpy ds (next src) in if first src == 0 then 0 ∷ ds else first src ∷ rest

pub length-memcpy : (d src : List ℕ) (n : ℕ) → length (memcpy d src n) ≡ length d
unfolding memcpy
length-memcpy [] src n = refl
length-memcpy (d ∷ ds) src zero = refl
length-memcpy (d ∷ ds) src (suc n) = ap suc (length-memcpy ds (next src) n)

pub length-memset : (d : List ℕ) (val n : ℕ) → length (memset d val n) ≡ length d
unfolding memset
length-memset [] val n = refl
length-memset (d ∷ ds) val zero = refl
length-memset (d ∷ ds) val (suc n) = ap suc (length-memset ds val n)

pub length-strncpy : (d src : List ℕ) (n : ℕ) → length (strncpy d src n) ≡ length d
unfolding strncpy
length-strncpy [] src n = refl
length-strncpy (d ∷ ds) src zero = refl
length-strncpy (d ∷ ds) [] (suc n) = ap suc (length-strncpy ds [] n)
length-strncpy (d ∷ ds) (c ∷ cs) (suc n) = ap suc (length-strncpy ds (if c == 0 then [] else cs) n)

-- The first `n` bytes are copied, those behind stay.
pub get_or-memcpy :
    (d src : List ℕ) (n k : ℕ)
    → k < length d
    → get_or (memcpy d src n) k 0 ≡ (if ltb k n then get_or src k 0 else get_or d k 0)
unfolding memcpy
get_or-memcpy [] src n k h = elim h [ ]
get_or-memcpy (d ∷ ds) src zero k h = ground arith
get_or-memcpy (d ∷ ds) [] (suc n) zero h = ground arith
get_or-memcpy (d ∷ ds) (c ∷ cs) (suc n) zero h = ground arith
get_or-memcpy (d ∷ ds) [] (suc n) (suc k) h = ground (arith, get_or-memcpy ds [] n k (omega arith))
get_or-memcpy (d ∷ ds) (c ∷ cs) (suc n) (suc k) h =
    ground (arith, get_or-memcpy ds cs n k (omega arith))

pub get_or-memset :
    (d : List ℕ) (val n k : ℕ)
    → k < length d
    → get_or (memset d val n) k 0 ≡ (if ltb k n then val % 256 else get_or d k 0)
unfolding memset
get_or-memset [] val n k h = elim h [ ]
get_or-memset (d ∷ ds) val zero k h = ground arith
get_or-memset (d ∷ ds) val (suc n) zero h = ground arith
get_or-memset (d ∷ ds) val (suc n) (suc k) h =
    ground (arith, get_or-memset ds val n k (omega arith))

-- What stands behind the first `n` bytes stays.
pub get_or-strncpy_behind :
    (d src : List ℕ) (n k : ℕ) → n ≤ k → get_or (strncpy d src n) k 0 ≡ get_or d k 0
unfolding strncpy
get_or-strncpy_behind [] src n k h = refl
get_or-strncpy_behind (d ∷ ds) src zero k h = refl
get_or-strncpy_behind (d ∷ ds) src (suc n) zero h = absurd (omega arith)
get_or-strncpy_behind (d ∷ ds) [] (suc n) (suc k) h = get_or-strncpy_behind ds [] n k (omega arith)
get_or-strncpy_behind (d ∷ ds) (c ∷ cs) (suc n) (suc k) h =
    get_or-strncpy_behind ds (if c == 0 then [] else cs) n k (omega arith)

pub get_or-memset_behind :
    (d : List ℕ) (val n k : ℕ) → n ≤ k → get_or (memset d val n) k 0 ≡ get_or d k 0
unfolding memset
get_or-memset_behind [] val n k h = refl
get_or-memset_behind (d ∷ ds) val zero k h = refl
get_or-memset_behind (d ∷ ds) val (suc n) zero h = absurd (omega arith)
get_or-memset_behind (d ∷ ds) val (suc n) (suc k) h = get_or-memset_behind ds val n k (omega arith)
