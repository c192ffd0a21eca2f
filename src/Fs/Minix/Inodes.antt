-- ===== src/Fs/Minix/Inodes.antt =====
-- Which inode `minix_AllocateInode` takes, that `minix_FreeInode` undoes it, and that deletion does
-- not.
use ly_system_os.Prelude.{
  ℕ, zero, suc, ◌+◌, ◌-◌, ◌*◌, ◌/◌, ◌%◌, ◌^◌, ◌≤◌, ◌<◌, ◌≡◌, refl, sym, subst, ◌∙◌, ◌⊎◌, inl, inr,
  Bool, true, false, not, ◌&&◌, Option, none, some, List, arith, ltb, leb, ◌==◌, Bool-cases, get_or,
}
use ly_system_os.Prelude.Bits.{test_bit, every_below, every_below-holds}
use ly_system_os.Prelude.Bitmap.{bit}
use ly_system_os.Fs.Minix.Bitmaps.{inode_bit_from, inode_byte_from}
use ly_system_os.Prelude.Search.{Outcome, Outcome-skip}

-- Bit `j` of the bitmap stands for inode `j + 1`; the first two are never given out.
abbrev pub usable : List ℕ → ℕ → Bool
usable bm j = not (bit bm j) && leb 2 j

inode_bit_from-Outcome :
    (n b byte i : ℕ)
    → n + b ≡ 8
    → i < 512
    → Outcome (λ k. not (test_bit byte k) && leb 2 (i * 8 + k)) b 8 (inode_bit_from n b byte i)
unfolding inode_bit_from
inode_bit_from-Outcome zero b byte i h hi = inl (refl, λ j above below. absurd (omega arith))
inode_bit_from-Outcome (suc n) b byte i h hi =
    let test = not (test_bit byte b) && not (leb ((i * 8 + b + 1) % 2 ^ 16) 2) in
    let same : test ≡ (not (test_bit byte b) && leb 2 (i * 8 + b)) = ground arith in
    elim (Bool-cases test) [
      | inl hit ↦ inr (
        b,
        rw (hit, inode_bit_from) refl,
        omega arith,
        omega arith,
        sym same ∙ hit,
        λ j above below. absurd (omega arith),
      )
      | inr miss ↦
          rw (miss, inode_bit_from)
            (Outcome-skip (λ k. not (test_bit byte k) && leb 2 (i * 8 + k)) b 8
              (inode_bit_from n (b + 1) byte i) (sym same ∙ miss)
              (inode_bit_from-Outcome n (b + 1) byte i (omega arith) hi))
    ]

-- The outcome of the search of the whole bitmap from bit `lo` on, as a byte and a bit.
abbrev pub Search : List ℕ → ℕ → Option (ℕ × ℕ) → Type 0
Search bm lo r =
    ((r ≡ none) × ((j : ℕ) → lo ≤ j → j < 4096 → usable bm j ≡ false))
    ⊎ ((k : ℕ) × (r ≡ some (k / 8, k % 8))
        × (lo ≤ k)
        × (k < 4096)
        × (usable bm k ≡ true)
        × ((j : ℕ) → lo ≤ j → j < k → usable bm j ≡ false))

offset : (i j : ℕ) → i * 8 ≤ j → i * 8 + (j - i * 8) ≡ j
offset i j h = omega arith

Search-skip :
    (bm : List ℕ) (i : ℕ) (r : Option (ℕ × ℕ))
    → ((k : ℕ) → k < 8 → usable bm (i * 8 + k) ≡ false)
    → Search bm ((i + 1) * 8) r
    → Search bm (i * 8) r
Search-skip bm i r miss (inl (e, all)) = inl (
  e,
  λ j above below. elim (Bool-cases (ltb j ((i + 1) * 8))) [
    | inl here ↦
        subst (λ x. usable bm x ≡ false) (offset i j above) (miss (j - i * 8) (ground arith))
    | inr later ↦ all j (ground arith) below
  ],
)
Search-skip bm i r miss (inr (k, e, from, to, hit, before)) = inr (
  k,
  e,
  omega arith,
  to,
  hit,
  λ j above below. elim (Bool-cases (ltb j ((i + 1) * 8))) [
    | inl here ↦
        subst (λ x. usable bm x ≡ false) (offset i j above) (miss (j - i * 8) (ground arith))
    | inr later ↦ before j (ground arith) below
  ],
)

byte_of : (i k : ℕ) → k < 8 → (i * 8 + k) / 8 ≡ i
byte_of i k hk = omega arith

rest_of : (i k : ℕ) → k < 8 → (i * 8 + k) % 8 ≡ k
rest_of i k hk = omega arith

-- The bits of byte `i`.
bit_of_byte : (bm : List ℕ) (i k : ℕ) → k < 8 → bit bm (i * 8 + k) ≡ test_bit (get_or bm i 0) k
unfolding bit
bit_of_byte bm i k hk = rw (byte_of i k hk, rest_of i k hk) refl

full_table : every_below (λ k. test_bit 0xFF k) 8 ≡ true
unfolding every_below test_bit
full_table = refl

full_byte : (bm : List ℕ) (i k : ℕ) → get_or bm i 0 ≡ 0xFF → k < 8 → usable bm (i * 8 + k) ≡ false
full_byte bm i k full hk =
    rw (bit_of_byte bm i k hk, full, every_below-holds (λ k. test_bit 0xFF k) k 8 hk full_table)
      refl

-- What the search of byte `i` and that of the bytes behind it give together.
byte_step :
    (bm : List ℕ) (i : ℕ) (here : Option ℕ) (rest : Option (ℕ × ℕ))
    → i < 512
    → Outcome (λ k. not (test_bit (get_or bm i 0) k) && leb 2 (i * 8 + k)) 0 8 here
    → Search bm ((i + 1) * 8) rest
    → Search bm (i * 8) (elim here [ none ↦ rest | some b ↦ some (i, b) ])
byte_step bm i here rest hi (inl (e, all)) later =
    rw e (Search-skip bm i rest (λ k hk. rw (bit_of_byte bm i k hk) (all k (omega arith) hk)) later)
byte_step bm i here rest hi (inr (k, e, from, to, hit, before)) later = rw e (
    inr (
      i * 8 + k,
      rw (byte_of i k to, rest_of i k to) refl,
      omega arith,
      omega arith,
      rw (bit_of_byte bm i k to) hit,
      λ j above below.
          subst (λ x. usable bm x ≡ false) (offset i j above)
            (rw (bit_of_byte bm i (j - i * 8) (omega arith))
              (before (j - i * 8) (omega arith) (omega arith))),
    ))

pub inode_byte_from-Search :
    (bm : List ℕ) (n i : ℕ) → n + i ≡ 512 → Search bm (i * 8) (inode_byte_from n i bm)
unfolding inode_byte_from
inode_byte_from-Search bm zero i h = inl (refl, λ j above below. absurd (omega arith))
inode_byte_from-Search bm (suc n) i h =
    let later = inode_byte_from-Search bm n (i + 1) (omega arith) in
    elim (Bool-cases (get_or bm i 0 == 0xFF)) [
      | inl full ↦
          rw (full, inode_byte_from)
            (Search-skip bm i (inode_byte_from n (i + 1) bm)
              (λ k hk. full_byte bm i k (ground arith) hk) later)
      | inr room ↦
          rw (room, inode_byte_from)
            (byte_step bm i (inode_bit_from 8 0 (get_or bm i 0) i) (inode_byte_from n (i + 1) bm)
              (omega arith)
              (inode_bit_from-Outcome 8 0 (get_or bm i 0) i (omega arith) (omega arith)) later)
    ]
