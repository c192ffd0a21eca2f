-- ===== src/CString/Reverse.antt =====
-- That reverse of lib/string.c reverses the first bytes of a buffer in place.
use ly_system_os.Prelude.{
  ℕ, zero, suc, ◌+◌, ◌-◌, ◌*◌, ◌%◌, ◌^◌, ◌≤◌, ◌<◌, ◌≡◌, refl, ap, ◌∙◌, inl, inr, true, false, ◌&&◌,
  some, List, arith, ltb, leb, ◌==◌, if◌then◌else◌, ltb→lt, lt→ltb, Bool-cases, length, set,
  length-set, get_or, get_or-set,
}
use ly_system_os.CString.{reverse_loop, reverse}

-- The bytes from `i` to `j` stand in the other order in `out`, and the others as they did.
pub record Mirrored (i j : ℕ) (str out : List ℕ) : Type 0 where
  pub whole : length out ≡ length str
  pub bytes :
      (k : ℕ)
      → get_or out k 0 ≡ (if leb i k && leb k j then get_or str (i + j - k) 0 else get_or str k 0)

-- The bytes after the swap of two.
swapped_at :
    (i j : ℕ) (str : List ℕ)
    → i < j
    → j < length str
    → (k : ℕ)
    → get_or (set (set str i (get_or str j 0)) j (get_or str i 0)) k 0
      ≡ (if j == k then get_or str i 0 else if i == k then get_or str j 0 else get_or str k 0)
swapped_at i j str less inside k =
    let later =
      get_or-set (set str i (get_or str j 0)) j k (get_or str i 0) 0
        (rw (length-set str i (get_or str j 0)) inside) in
    later
    ∙ ap (λ x. if j == k then get_or str i 0 else x)
        (get_or-set str i k (get_or str j 0) 0 (omega arith))

-- The same, for any way to read the bytes.
mirror_step :
    (i j k : ℕ) (old new : ℕ → ℕ)
    → i < j
    → ((m : ℕ) → new m ≡ (if j == m then old i else if i == m then old j else old m))
    → (if leb (i + 1) k && leb k (j - 1) then new (i + 1 + (j - 1) - k) else new k)
      ≡ (if leb i k && leb k j then old (i + j - k) else old k)
mirror_step i j k old new less swap = elim (Bool-cases (leb i k && leb k j)) [
  | inl both ↦ elim (Bool-cases (i == k)) [
    | inl low ↦ let at : i + j - k ≡ j = ground arith in ground (arith, swap k, ap old at)
    | inr above ↦ elim (Bool-cases (j == k)) [
      | inl high ↦ let at : i + j - k ≡ i = ground arith in ground (arith, swap k, ap old at)
      | inr below ↦
          let same : i + 1 + (j - 1) - k ≡ i + j - k = ground arith in
          ground (arith, swap (i + j - k), ap new same)
    ]
  ]
  | inr apart ↦ ground (arith, swap k)
]

-- What is swapped and then mirrored between is mirrored.
Mirrored-swap :
    (i j : ℕ) (str out : List ℕ)
    → i < j
    → j < length str
    → Mirrored (i + 1) (j - 1) (set (set str i (get_or str j 0)) j (get_or str i 0)) out
    → Mirrored i j str out
Mirrored-swap i j str out less inside m = record {
  whole = m.whole ∙ length-set _ j _ ∙ length-set str i _;
  bytes = λ k.
      m.bytes k
      ∙ mirror_step i j k (λ m. get_or str m 0)
          (λ m. get_or (set (set str i (get_or str j 0)) j (get_or str i 0)) m 0) less
          (swapped_at i j str less inside);
}

middle : (i j k : ℕ) → ltb i j ≡ false → leb i k && leb k j ≡ true → i + j - k ≡ k
middle i j k done both = ground arith

mirror_end :
    (i j k : ℕ) (str : List ℕ)
    → ltb i j ≡ false
    → get_or str k 0 ≡ (if leb i k && leb k j then get_or str (i + j - k) 0 else get_or str k 0)
mirror_end i j k str done = elim (Bool-cases (leb i k && leb k j)) [
  | inl both ↦ rw (both, middle i j k done both) refl
  | inr apart ↦ rw apart refl
]

reverse_loop-Mirrored :
    (n i j : ℕ) (str : List ℕ)
    → 1 ≤ n
    → j + 2 ≤ i + 2 * n
    → j < length str
    → (out : List ℕ) × (reverse_loop n i j str ≡ some out) × Mirrored i j str out
unfolding reverse_loop
reverse_loop-Mirrored zero i j str one fuel inside = absurd (omega arith)
reverse_loop-Mirrored (suc n) i j str one fuel inside =
    let swapped = set (set str i (get_or str j 0)) j (get_or str i 0) in
    elim (Bool-cases (ltb i j)) [
      | inl less ↦
          let size : length swapped ≡ length str = length-set _ j _ ∙ length-set str i _ in
          let (out, e, m) =
            reverse_loop-Mirrored n (i + 1) (j - 1) swapped (ground arith) (ground arith)
              (ground arith) in
          (
            out,
            rw (less, lt→ltb j (length str) inside) e,
            Mirrored-swap i j str out (ltb→lt i j less) inside m,
          )
      | inr done ↦
          (str, rw done refl, record { whole = refl; bytes = λ k. mirror_end i j k str done })
    ]

wrap : (len : ℕ) → 1 ≤ len → len < 2 ^ 64 → (len + 2 ^ 64 - 1) % 2 ^ 64 ≡ len - 1
wrap len some_bytes fits = omega arith

-- reverse of a buffer and a length from 1 to the size of the buffer returns, and the first bytes, as many as the length says, then stand in the other order, and those behind as before.
pub reverse_lem :
    (str : List ℕ) (len : ℕ)
    → 1 ≤ len
    → len ≤ length str
    → len < 2 ^ 64
    → (out : List ℕ) × (reverse str len ≡ some out) × Mirrored 0 (len - 1) str out
unfolding reverse
reverse_lem str len some_bytes inside fits =
    rw (wrap len some_bytes fits)
      (reverse_loop-Mirrored len 0 (len - 1) str some_bytes (omega arith) (omega arith))
