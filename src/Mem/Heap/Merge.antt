-- ===== src/Mem/Heap/Merge.antt =====
-- Joining free neighbours, on the list of blocks.
use ly_system_os.Prelude.{
  ℕ, ◌+◌, ◌≡◌, refl, ap, ◌∙◌, inl, inr, true, false, ◌&&◌, List, [], ◌∷◌, ◌++◌, arith, Bool-cases,
}
use ly_system_os.Mem.Heap.{header_size}
use ly_system_os.Mem.Heap.Blocks.{Block, Tiles, coalesce, coalesce_all, allocated}

-- No two neighbours are both free.
abbrev pub Coalesced : List Block → Type 0
Coalesced [] = Unit
Coalesced (b ∷ []) = Unit
Coalesced (b ∷ d ∷ bs) = ((b.free && d.free) ≡ false) × Coalesced (d ∷ bs)

pub coalesce_both :
    (b d : Block) (bs : List Block)
    → (b.free && d.free) ≡ true
    → coalesce b (d ∷ bs) ≡ coalesce (record b { size = b.size + (d.size + header_size) }) bs
unfolding coalesce
coalesce_both b d bs h = rw (h, coalesce) refl

pub coalesce_apart :
    (b d : Block) (bs : List Block)
    → (b.free && d.free) ≡ false
    → coalesce b (d ∷ bs) ≡ b ∷ coalesce d bs
unfolding coalesce
coalesce_apart b d bs h = rw (h, coalesce) refl

-- What the joined list begins with is free exactly if the list did.
coalesce-head :
    (b : Block) (bs : List Block)
    → (h : Block) × (t : List Block) × (coalesce b bs ≡ h ∷ t) × (h.free ≡ b.free)
unfolding coalesce
coalesce-head b [] = (b, [], refl, refl)
coalesce-head b (d ∷ bs) = elim (Bool-cases (b.free && d.free)) [
  | inl both ↦
      let (h, t, e, f) = coalesce-head (record b { size = b.size + (d.size + header_size) }) bs in
      (h, t, rw (both, coalesce) e, f)
  | inr apart ↦ (b, coalesce d bs, rw (apart, coalesce) refl, refl)
]

pub coalesce-Coalesced : (b : Block) (bs : List Block) → Coalesced (coalesce b bs)
unfolding coalesce
coalesce-Coalesced b [] = tt
coalesce-Coalesced b (d ∷ bs) = elim (Bool-cases (b.free && d.free)) [
  | inl both ↦
      rw (both, coalesce)
        (coalesce-Coalesced (record b { size = b.size + (d.size + header_size) }) bs)
  | inr apart ↦
      let (h, t, e, f) = coalesce-head d bs in
      let rest = rw e at (coalesce-Coalesced d bs) in
      rw (apart, coalesce) (rw e (ground arith, rest))
]

pub coalesce_all-Coalesced : (bs : List Block) → Coalesced (coalesce_all bs)
unfolding coalesce_all
coalesce_all-Coalesced [] = tt
coalesce_all-Coalesced (b ∷ bs) = coalesce-Coalesced b bs

pub Tiles-coalesce :
    (p e : ℕ) (b : Block) (bs : List Block) → Tiles p e (b ∷ bs) → Tiles p e (coalesce b bs)
unfolding coalesce
Tiles-coalesce p e b [] t = t
Tiles-coalesce p e b (d ∷ bs) (at, (at', rest)) = elim (Bool-cases (b.free && d.free)) [
  | inl both ↦
      let same : p + header_size + b.size + header_size + d.size
          ≡ p + header_size + (b.size + (d.size + header_size)) =
        omega arith in
      rw (both, coalesce)
        (Tiles-coalesce p e (record b { size = b.size + (d.size + header_size) }) bs
          (at, rw same at rest))
  | inr apart ↦
      rw (apart, coalesce) (at, Tiles-coalesce (p + header_size + b.size) e d bs (at', rest))
]

pub Tiles-coalesce_all : (p e : ℕ) (bs : List Block) → Tiles p e bs → Tiles p e (coalesce_all bs)
unfolding coalesce_all
Tiles-coalesce_all p e [] t = t
Tiles-coalesce_all p e (b ∷ bs) t = Tiles-coalesce p e b bs t

-- Joining touches no block in use.
pub allocated-coalesce :
    (b : Block) (bs : List Block) → allocated (coalesce b bs) ≡ allocated (b ∷ bs)
unfolding coalesce allocated
allocated-coalesce b [] = refl
allocated-coalesce b (d ∷ bs) = elim (Bool-cases (b.free && d.free)) [
  | inl both ↦
      rw (both, coalesce)
        (allocated-coalesce (record b { size = b.size + (d.size + header_size) }) bs ∙ ground arith)
  | inr apart ↦ rw (apart, coalesce) (ground (arith, allocated-coalesce d bs))
]

pub allocated-coalesce_all : (bs : List Block) → allocated (coalesce_all bs) ≡ allocated bs
unfolding coalesce_all
allocated-coalesce_all [] = refl
allocated-coalesce_all (b ∷ bs) = allocated-coalesce b bs

-- A list with nothing to join stays.
coalesce_id : (b : Block) (bs : List Block) → Coalesced (b ∷ bs) → coalesce b bs ≡ b ∷ bs
unfolding coalesce
coalesce_id b [] h = refl
coalesce_id b (d ∷ bs) h = rw (h.0, coalesce) (ap (λ l. b ∷ l) (coalesce_id d bs h.1))

-- The two parts of a split free block are joined to the block again, with nothing else joined.
coalesce_split :
    (xs : List Block) (x b d : Block) (bs : List Block)
    → b.free ≡ true
    → d.free ≡ true
    → Coalesced (x ∷ (xs ++ (record b { size = b.size + (d.size + header_size) } ∷ bs)))
    → coalesce x (xs ++ (b ∷ d ∷ bs))
      ≡ x ∷ (xs ++ (record b { size = b.size + (d.size + header_size) } ∷ bs))
unfolding coalesce
coalesce_split [] x b d bs fb fd h =
    rw (h.0, coalesce)
      (ap (λ l. x ∷ l)
        (coalesce_both b d bs (ground arith)
          ∙ coalesce_id (record b { size = b.size + (d.size + header_size) }) bs h.1))
coalesce_split (y ∷ xs) x b d bs fb fd h =
    rw (h.0, coalesce) (ap (λ l. x ∷ l) (coalesce_split xs y b d bs fb fd h.1))

pub coalesce_all_split :
    (xs : List Block) (b d : Block) (bs : List Block)
    → b.free ≡ true
    → d.free ≡ true
    → Coalesced (xs ++ (record b { size = b.size + (d.size + header_size) } ∷ bs))
    → coalesce_all (xs ++ (b ∷ d ∷ bs))
      ≡ xs ++ (record b { size = b.size + (d.size + header_size) } ∷ bs)
unfolding coalesce_all coalesce
coalesce_all_split [] b d bs fb fd h =
    coalesce_both b d bs (ground arith)
    ∙ coalesce_id (record b { size = b.size + (d.size + header_size) }) bs h
coalesce_all_split (x ∷ xs) b d bs fb fd h = coalesce_split xs x b d bs fb fd h

pub coalesce_all_id : (bs : List Block) → Coalesced bs → coalesce_all bs ≡ bs
unfolding coalesce_all
coalesce_all_id [] h = refl
coalesce_all_id (b ∷ bs) h = coalesce_id b bs h
