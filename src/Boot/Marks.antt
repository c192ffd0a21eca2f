-- ===== src/Boot/Marks.antt =====
-- What the loops over pages of kernel/mbi.c and kernel/mem/pmm.c do to the bitmap of frames.
use ly_system_os.Prelude.{
  ℕ, zero, suc, ◌+◌, ◌*◌, ◌/◌, ◌%◌, ◌^◌, ◌≤◌, ◌<◌, ◌≡◌, refl, ap, ◌∙◌, inl, inr, Bool, true, false,
  ◌&&◌, ◌||◌, some, arith, ltb, leb, ◌==◌, if◌then◌else◌, ltb→lt, leb→le, Bool-cases,
}
use ly_system_os.Prelude.Bitmap.{bit}
use ly_system_os.Mem.Pmm.{Pmm, page_size, max_blocks, block_of, mark_used, mark_free}
use ly_system_os.Mem.Pmm.Valid.{
  mark_used-Took, mark_free-Gave, mark_used_same, mark_free_same, mark_used-IsValid,
  mark_free-IsValid, IsValid,
}
use ly_system_os.Boot.{pages, free_below}

-- The frames that `c` chooses have the mark `value`, and all others the mark that they had.
pub record Changed (value : Bool) (c : ℕ → Bool) (s r : Pmm) : Type 0 where
  pub inv : IsValid r
  pub bits : (j : ℕ) → j < max_blocks → bit r.bitmap j ≡ (if c j then value else bit s.bitmap j)

-- A function that marks the frame of an address below `limit`.
abbrev pub Marks : ℕ → Bool → (Pmm → ℕ → Pmm) → Type 0
Marks limit value mark =
    (s : Pmm) (a : ℕ) → IsValid s → a < limit → Changed value (λ j. j == a / 4096) s (mark s a)

-- Frame `j` has an address of `a`, `a + 4096` and so on below `last`.
unfoldable pub covers : ℕ → ℕ → ℕ → Bool
covers a last j = leb (a / 4096) j && ltb (j * 4096 + a % 4096) last

pub Changed-none :
    (value : Bool) (c : ℕ → Bool) (s : Pmm)
    → IsValid s
    → ((j : ℕ) → j < max_blocks → c j ≡ false)
    → Changed value c s s
Changed-none value c s v none_of = record { inv = v; bits = λ j hj. rw (none_of j hj) refl }

-- Two changes of the same mark, one behind the other.
pub Changed-then :
    (value : Bool) (c d e : ℕ → Bool) (s t r : Pmm)
    → Changed value c s t
    → Changed value d t r
    → ((j : ℕ) → j < max_blocks → e j ≡ (c j || d j))
    → Changed value e s r
Changed-then value c d e s t r one two both = record {
  inv = two.inv;
  bits =
      λ j hj. two.bits j hj ∙ rw (both j hj, one.bits j hj) (choice (c j) (d j) (bit s.bitmap j));
}
  where
    choice :
        (x y b : Bool)
        → (if y then value else (if x then value else b)) ≡ (if x || y then value else b)
    choice true true b = refl
    choice true false b = refl
    choice false true b = refl
    choice false false b = refl

-- Marking one page.
mark_used-bit :
    (s : Pmm) (a j : ℕ)
    → IsValid s
    → a < 2 ^ 44
    → j < max_blocks
    → bit (mark_used s a).bitmap j ≡ (if j == a / 4096 then true else bit s.bitmap j)
mark_used-bit s a j v small hj =
    let at : block_of a ≡ a / 4096 = omega arith in
    elim (Bool-cases (bit s.bitmap (block_of a))) [
      | inl used ↦ rw (mark_used_same v a (inr used)) (elim (Bool-cases (j == a / 4096)) [
        | inl e ↦ rw e (let same : j ≡ block_of a = ground arith in ap (bit s.bitmap) same ∙ used)
        | inr e ↦ rw e refl
      ])
      | inr free ↦ elim (Bool-cases (leb max_blocks (block_of a))) [
        | inl out ↦
            rw (mark_used_same v a (inl (leb→le _ _ out)))
              (let differ : (j == a / 4096) ≡ false = ground arith in rw differ refl)
        | inr here ↦
            let took = (mark_used-Took v a free (ground arith)).0 in
            took.taken j ∙ elim (Bool-cases (j == a / 4096)) [
              | inl e ↦ let same : (block_of a == j) ≡ true = ground arith in rw (e, same) refl
              | inr e ↦ let other : (block_of a == j) ≡ false = ground arith in rw (e, other) refl
            ]
      ]
    ]

mark_free-bit :
    (s : Pmm) (a j : ℕ)
    → IsValid s
    → a < 2 ^ 44
    → j < max_blocks
    → bit (mark_free s a).bitmap j ≡ (if j == a / 4096 then false else bit s.bitmap j)
mark_free-bit s a j v small hj =
    let at : block_of a ≡ a / 4096 = omega arith in
    elim (Bool-cases (bit s.bitmap (block_of a))) [
      | inr free ↦ rw (mark_free_same v a (inr free)) (elim (Bool-cases (j == a / 4096)) [
        | inl e ↦ rw e (let same : j ≡ block_of a = ground arith in ap (bit s.bitmap) same ∙ free)
        | inr e ↦ rw e refl
      ])
      | inl used ↦ elim (Bool-cases (leb max_blocks (block_of a))) [
        | inl out ↦
            rw (mark_free_same v a (inl (leb→le _ _ out)))
              (let differ : (j == a / 4096) ≡ false = ground arith in rw differ refl)
        | inr here ↦
            let gave = (mark_free-Gave v a used (ground arith)).0 in
            gave.given j ∙ elim (Bool-cases (j == a / 4096)) [
              | inl e ↦ let same : (block_of a == j) ≡ true = ground arith in rw (e, same) refl
              | inr e ↦ let other : (block_of a == j) ≡ false = ground arith in rw (e, other) refl
            ]
      ]
    ]

pub mark_used-Marks : Marks (2 ^ 44) true mark_used
mark_used-Marks s a v small = record {
  inv = mark_used-IsValid v a;
  bits = λ j hj. mark_used-bit s a j v small hj;
}

pub mark_free-Marks : Marks (2 ^ 44) false mark_free
mark_free-Marks s a v small = record {
  inv = mark_free-IsValid v a;
  bits = λ j hj. mark_free-bit s a j v small hj;
}

pub free_below-Marks : Marks (2 ^ 64) false free_below
unfolding free_below
free_below-Marks s a v small = elim (Bool-cases (ltb a (max_blocks * page_size))) [
  | inl low ↦ rw low (mark_free-Marks s a v (ground arith))
  | inr high ↦ rw high (Changed-none false (λ j. j == a / 4096) s v (λ j hj. ground arith))
]

module _ (limit : ℕ) (value : Bool) (mark : Pmm → ℕ → Pmm) (marks : Marks limit value mark) where
  pages_stop : (n a last : ℕ) (s : Pmm) → ltb a last ≡ false → pages mark (suc n) a last s ≡ some s
  unfolding pages
  pages_stop n a last s stop = rw (stop, pages) refl

  pages_go :
      (n a last : ℕ) (s : Pmm)
      → ltb a last ≡ true
      → pages mark (suc n) a last s ≡ pages mark n ((a + page_size) % 2 ^ 64) last (mark s a)
  unfolding pages
  pages_go n a last s less = rw (less, pages) refl

  -- A loop over pages below the limit, up to an end a page below 2^64, ends, and has marked their frames.
  pub pages_lem :
      (n a last : ℕ) (s : Pmm)
      → IsValid s
      → last ≤ limit
      → last + 4096 ≤ 2 ^ 64
      → last ≤ a + n * 4096
      → (r : Pmm) × (pages mark (suc n) a last s ≡ some r) × Changed value (covers a last) s r
  unfolding covers
  pages_lem zero a last s v low room fuel =
      let stop : ltb a last ≡ false = ground arith in
      (s, pages_stop 0 a last s stop, Changed-none value _ s v (λ j hj. ground arith))
  pages_lem (suc k) a last s v low room fuel = elim (Bool-cases (ltb a last)) [
    | inr stop ↦
        (s, pages_stop (suc k) a last s stop, Changed-none value _ s v (λ j hj. ground arith))
    | inl less ↦
        let lt = ltb→lt a last less in
        let one = marks s a v (omega arith) in
        let (r, runs, rest) =
          pages_lem k (a + 4096) last (mark s a) one.inv low room (omega arith) in
        let next : (a + page_size) % 2 ^ 64 ≡ a + 4096 = omega arith in
        (
          r,
          pages_go (suc k) a last s less ∙ rw next runs,
          Changed-then value _ _ _ s (mark s a) r one rest (λ j hj. ground arith),
        )
  ]
