-- ===== src/Prelude/Bytes.antt =====
-- Numbers in a buffer of bytes, low byte first, and writes through a pointer into a buffer. A read
-- behind the end of a buffer gives 0 and a write there is lost.
use ly_system_os.Prelude.{
  ℕ, zero, suc, ◌+◌, ◌-◌, ◌*◌, ◌/◌, ◌%◌, ◌^◌, ◌≤◌, ◌<◌, ◌≡◌, refl, ap, ◌∙◌, ◌⊎◌, inl, inr, List, [],
  ◌∷◌, arith, ltb, ◌==◌, if◌then◌else◌, length, set, length-set, get_or, drop, get_or-set,
}

-- A `uint16_t` and a `uint32_t` at an offset.
unfoldable pub get16 : List ℕ → ℕ → ℕ
get16 buf off = get_or buf off 0 + 256 * get_or buf (off + 1) 0

unfoldable pub get32 : List ℕ → ℕ → ℕ
get32 buf off = get16 buf off + 65536 * get16 buf (off + 2)

unfoldable pub put16 : List ℕ → ℕ → ℕ → List ℕ
put16 buf off v = set (set buf off (v % 256)) (off + 1) (v / 256 % 256)

unfoldable pub put32 : List ℕ → ℕ → ℕ → List ℕ
put32 buf off v = put16 (put16 buf off (v % 65536)) (off + 2) (v / 65536)

-- What `f` does to the bytes from `off` on.
unfoldable pub write_at : ℕ → (List ℕ → List ℕ) → List ℕ → List ℕ
write_at zero f buf = f buf
write_at (suc n) f [] = []
write_at (suc n) f (x ∷ xs) = x ∷ write_at n f xs

module _ (f : List ℕ → List ℕ) (same : (b : List ℕ) → length (f b) ≡ length b) where
  pub length-write_at : (off : ℕ) (buf : List ℕ) → length (write_at off f buf) ≡ length buf
  unfolding write_at
  length-write_at zero buf = same buf
  length-write_at (suc n) [] = refl
  length-write_at (suc n) (x ∷ xs) = ap suc (length-write_at n xs)

module _ (f : List ℕ → List ℕ) where
  -- The bytes before the pointer stay, those behind are what `f` makes of them.
  pub get_or-write_at :
      (off : ℕ) (buf : List ℕ) (k : ℕ)
      → off ≤ length buf
      → get_or (write_at off f buf) k 0
        ≡ (if ltb k off then get_or buf k 0 else get_or (f (drop off buf)) (k - off) 0)
  unfolding write_at
  get_or-write_at zero buf k h = ground arith
  get_or-write_at (suc n) [] k h = absurd (omega arith)
  get_or-write_at (suc n) (x ∷ xs) zero h = ground arith
  get_or-write_at (suc n) (x ∷ xs) (suc k) h = ground (arith, get_or-write_at n xs k (omega arith))

  pub drop-write_at :
      (off : ℕ) (buf : List ℕ) → off ≤ length buf → drop off (write_at off f buf) ≡ f (drop off buf)
  unfolding write_at
  drop-write_at zero buf h = refl
  drop-write_at (suc n) [] h = absurd (omega arith)
  drop-write_at (suc n) (x ∷ xs) h = drop-write_at n xs (omega arith)

pub get_or-drop : (n k : ℕ) (xs : List ℕ) → get_or (drop n xs) k 0 ≡ get_or xs (n + k) 0
get_or-drop zero k xs = ground arith
get_or-drop (suc n) k [] = ground arith
get_or-drop (suc n) k (x ∷ xs) = ground (arith, get_or-drop n k xs)

module _ (buf : List ℕ) (off v : ℕ) where
  pub length-put16 : length (put16 buf off v) ≡ length buf
  unfolding put16
  length-put16 = length-set _ (off + 1) _ ∙ length-set buf off _

  pub length-put32 : length (put32 buf off v) ≡ length buf
  unfolding put32 put16
  length-put32 =
      length-set _ (off + 2 + 1) _
      ∙ length-set _ (off + 2) _
      ∙ length-set _ (off + 1) _
      ∙ length-set buf off _

  -- The two bytes of the number, and the others as they were.
  pub get_or-put16 :
      (k : ℕ)
      → off + 1 < length buf
      → get_or (put16 buf off v) k 0
        ≡ (if k == off then v % 256 else if k == off + 1 then v / 256 % 256 else get_or buf k 0)
  unfolding put16
  get_or-put16 k h = ground (
    arith,
    length-set buf off (v % 256),
    get_or-set (set buf off (v % 256)) (off + 1) k (v / 256 % 256) 0,
    get_or-set buf off k (v % 256) 0,
  )

-- What was put is got back.
pub get16-put16 :
    (buf : List ℕ) (off v : ℕ) → off + 1 < length buf → v < 2 ^ 16 → get16 (put16 buf off v) off ≡ v
unfolding get16
get16-put16 buf off v h hv =
    ground (arith, get_or-put16 buf off v off h, get_or-put16 buf off v (off + 1) h)

-- A number elsewhere stays.
pub get16-put16_ne :
    (buf : List ℕ) (off v k : ℕ)
    → off + 1 < length buf
    → (k + 1 < off) ⊎ (off + 1 < k)
    → get16 (put16 buf off v) k ≡ get16 buf k
unfolding get16
get16-put16_ne buf off v k h apart =
    ground (arith, get_or-put16 buf off v k h, get_or-put16 buf off v (k + 1) h)

pub get16-set_ne :
    (buf : List ℕ) (off v k : ℕ)
    → off < length buf
    → (k + 1 < off) ⊎ (off < k)
    → get16 (set buf off v) k ≡ get16 buf k
unfolding get16
get16-set_ne buf off v k h apart =
    ground (arith, get_or-set buf off k v 0 h, get_or-set buf off (k + 1) v 0 h)

pub get32-put32 :
    (buf : List ℕ) (off v : ℕ) → off + 3 < length buf → v < 2 ^ 32 → get32 (put32 buf off v) off ≡ v
unfolding get32 put32
get32-put32 buf off v h hv =
    let low = put16 buf off (v % 65536) in
    let room : off + 2 + 1 < length low = rw (length-put16 buf off (v % 65536)) (omega arith) in
    let first_half : get16 (put16 low (off + 2) (v / 65536)) off ≡ v % 65536 =
      get16-put16_ne low (off + 2) (v / 65536) off room (inl (omega arith))
      ∙ get16-put16 buf off (v % 65536) (omega arith) (omega arith) in
    omega (arith, first_half, get16-put16 low (off + 2) (v / 65536) room (omega arith))

pub get16-put32_ne :
    (buf : List ℕ) (off v k : ℕ)
    → off + 3 < length buf
    → off + 3 < k
    → get16 (put32 buf off v) k ≡ get16 buf k
unfolding put32
get16-put32_ne buf off v k h behind =
    get16-put16_ne (put16 buf off (v % 65536)) (off + 2) (v / 65536) k
      (rw (length-put16 buf off (v % 65536)) (omega arith)) (inr (omega arith))
    ∙ get16-put16_ne buf off (v % 65536) k (omega arith) (inr (omega arith))
