-- ===== src/Mem/Heap/Fit.antt =====
-- First fit on the list of blocks: which block it picks, and what becomes of the others.
use ly_system_os.Prelude.{
  ℕ, ◌+◌, ◌-◌, ◌≤◌, ◌≡◌, refl, ap, inl, inr, true, false, ◌&&◌, none, some, List, [], ◌∷◌, ◌++◌,
  arith, ltb, leb, Bool-cases, Option-cases, All,
}
use ly_system_os.Mem.Heap.{header_size}
use ly_system_os.Mem.Heap.Blocks.{Block, Tiles, place, first_fit, allocated}

-- Where no block fits.
abbrev pub NoFit : ℕ → List Block → Type 0
NoFit size bs = All (λ b. (b.free && leb size b.size) ≡ false) bs

-- `b` is the first block of `bs` that is free and has `size` bytes; `a` is the address of its data,
-- and in `bs'` it is placed.
pub record Fit (size : ℕ) (bs : List Block) (a : ℕ) (bs' : List Block) : Type 0 where
  pub before : List Block
  pub b : Block
  pub after : List Block
  pub cut : bs ≡ before ++ (b ∷ after)
  pub first : NoFit size before
  pub free : b.free ≡ true
  pub fits : size ≤ b.size
  pub address : a ≡ b.addr + header_size
  pub placed : bs' ≡ before ++ place size b after

pub NoFit_of_none : (size : ℕ) (bs : List Block) → first_fit size bs ≡ none → NoFit size bs
unfolding first_fit
NoFit_of_none size [] h = tt
NoFit_of_none size (b ∷ bs) h = elim (Option-cases (first_fit size bs)) [
  | inl none_fits ↦ (ground arith, NoFit_of_none size bs none_fits)
  | inr (r, e) ↦ ground (arith, e)
]

Fit-cons :
    {size : ℕ} {bs : List Block} {a : ℕ} {bs' : List Block} (b : Block)
    → (b.free && leb size b.size) ≡ false
    → Fit size bs a bs'
    → Fit size (b ∷ bs) a (b ∷ bs')
Fit-cons b no_fit f = record {
  before = b ∷ f.before;
  b = f.b;
  after = f.after;
  cut = ap (λ l. b ∷ l) f.cut;
  first = (no_fit, f.first);
  free = f.free;
  fits = f.fits;
  address = f.address;
  placed = ap (λ l. b ∷ l) f.placed;
}

pub first_fit-Fit :
    (size : ℕ) (bs : List Block) (a : ℕ) (bs' : List Block)
    → first_fit size bs ≡ some (a, bs')
    → Fit size bs a bs'
unfolding first_fit
first_fit-Fit size [] a bs' h = cc
first_fit-Fit size (b ∷ bs) a bs' h = elim (Bool-cases (b.free && leb size b.size)) [
  | inl fits ↦ record {
    before = [];
    b = b;
    after = bs;
    cut = refl;
    first = tt;
    free = ground arith;
    fits = ground arith;
    address = ground arith;
    placed = ground arith;
  }
  | inr no_fit ↦ elim (Option-cases (first_fit size bs)) [
    | inl none_fits ↦ ground arith
    | inr (r, e) ↦
        let ih = first_fit-Fit size bs r.0 r.1 e in
        let e1 : r.0 ≡ a = ground arith in
        let e2 : b ∷ r.1 ≡ bs' = ground arith in rw (← e1, ← e2) (Fit-cons b no_fit ih)
  ]
]

-- The tiling of a list and of its two parts.
pub Tiles-split :
    (p e : ℕ) (xs ys : List Block) → Tiles p e (xs ++ ys) → (m : ℕ) × Tiles p m xs × Tiles m e ys
Tiles-split p e [] ys t = (p, refl, t)
Tiles-split p e (x ∷ xs) ys t =
    let (m, one, two) = Tiles-split (p + header_size + x.size) e xs ys t.1 in (m, (t.0, one), two)

pub Tiles-join :
    (p m e : ℕ) (xs ys : List Block) → Tiles p m xs → Tiles m e ys → Tiles p e (xs ++ ys)
Tiles-join p m e [] ys one two = rw one two
Tiles-join p m e (x ∷ xs) ys one two =
    (one.0, Tiles-join (p + header_size + x.size) m e xs ys one.1 two)

-- Placing keeps the tiling: the two parts of a split block make up the block.
Tiles-place :
    (size p e : ℕ) (b : Block) (bs : List Block)
    → Tiles p e (b ∷ bs)
    → size ≤ b.size
    → Tiles p e (place size b bs)
unfolding place
Tiles-place size p e b bs (at, rest) fits =
    elim (Bool-cases (ltb (size + header_size + 32) b.size)) [
      | inl big ↦
          let same : p + header_size + b.size
              ≡ p + header_size + size + header_size + (b.size - size - header_size) =
            ground arith in
          rw (big, place) (at, (omega arith, rw same at rest))
      | inr small ↦ rw (small, place) (at, rest)
    ]

pub Fit-Tiles :
    {size : ℕ} {bs : List Block} {a : ℕ} {bs' : List Block}
    → Fit size bs a bs'
    → (p e : ℕ) → Tiles p e bs
    → Tiles p e bs'
Fit-Tiles {size} f p e t =
    let (m, one, two) = Tiles-split p e f.before (f.b ∷ f.after) (rw f.cut at t) in
    rw f.placed (
      Tiles-join p m e f.before (place size f.b f.after) one
        (Tiles-place size m e f.b f.after two f.fits))

pub allocated-append : (xs ys : List Block) → allocated (xs ++ ys) ≡ allocated xs ++ allocated ys
unfolding allocated
allocated-append [] ys = refl
allocated-append (x ∷ xs) ys = ground (arith, allocated-append xs ys)

-- The block in use that placing makes.
pub place-granted :
    (size : ℕ) (b : Block) (bs : List Block)
    → size ≤ b.size
    → (n : ℕ) × (size ≤ n)
      × (allocated (place size b bs)
          ≡ record { addr = b.addr; size = n; free = false } ∷ allocated bs)
unfolding place allocated
place-granted size b bs fits = elim (Bool-cases (ltb (size + header_size + 32) b.size)) [
  | inl big ↦ (size, omega arith, rw (big, allocated) refl)
  | inr small ↦ (b.size, fits, rw (small, allocated) refl)
]

-- The blocks in use before and after: one is new, at the returned address and with at least the
-- size, and the others are as they were, in order.
pub record Granted (size : ℕ) (bs : List Block) (a : ℕ) (bs' : List Block) : Type 0 where
  pub low : List Block
  pub high : List Block
  pub granted : ℕ
  pub enough : size ≤ granted
  pub old : allocated bs ≡ low ++ high
  pub new :
      allocated bs'
      ≡ low ++ (record { addr = a - header_size; size = granted; free = false } ∷ high)

pub Fit-Granted :
    {size : ℕ} {bs : List Block} {a : ℕ} {bs' : List Block}
    → Fit size bs a bs'
    → Granted size bs a bs'
unfolding allocated
Fit-Granted {size} {bs} {a} {bs'} f =
    let (n, enough, placed) = place-granted size f.b f.after f.fits in
    let at : f.b.addr ≡ a - header_size = omega (arith, f.address) in
    record {
      low = allocated f.before;
      high = allocated f.after;
      granted = n;
      enough = enough;
      old = rw (f.cut, allocated-append, f.free) refl;
      new = rw (f.placed, allocated-append, placed, at) refl;
    }
