-- ===== src/Mem/Pmm/Valid.antt =====
-- The invariant of the frame allocator, and what marking a frame does.
use ly_system_os.Prelude.{
  ℕ, ◌+◌, ◌-◌, ◌/◌, ◌%◌, ◌^◌, ◌≤◌, ◌<◌, ◌≡◌, refl, sym, ap, ◌∙◌, ◌⊎◌, inl, inr, true, false, not,
  ◌&&◌, ◌||◌, arith, leb, ◌==◌, leb→le, Bool-cases, length, replicate, length-replicate,
  All-replicate, get_or-replicate,
}
use ly_system_os.Prelude.Bits.{test_bit, every_below, every_below-holds}
use ly_system_os.Prelude.Bitmap.{
  IsBytes, bit, set_at, clear_at, length-set_at, length-clear_at, set_at-IsBytes, clear_at-IsBytes,
  bit-set_at, bit-clear_at, count_below, count_below_add, count_below_all, count_below-le,
  clear_at-set_at,
}
use ly_system_os.Mem.Pmm.{Pmm, reset, max_blocks, bitmap_size, block_of, mark_used, mark_free}

-- The frames that the bitmap has in use.
abbrev pub used_count : Pmm → ℕ
used_count s = count_below (bit s.bitmap) max_blocks

-- The counter of used frames agrees with the bitmap.
pub record IsValid (s : Pmm) : Type 0 where
  pub total : s.total_blocks ≡ max_blocks
  pub size : length s.bitmap ≡ bitmap_size
  pub bytes : IsBytes s.bitmap
  pub counted : s.used_blocks ≡ used_count s

-- Exactly frame `i` changed from free to used between `s` and `t`.
pub record Took (i : ℕ) (s t : Pmm) : Type 0 where
  pub was_free : bit s.bitmap i ≡ false
  pub taken : (j : ℕ) → bit t.bitmap j ≡ ((i == j) || bit s.bitmap j)
  pub one_more : t.used_blocks ≡ s.used_blocks + 1

-- Exactly frame `i` changed from used to free between `s` and `t`.
pub record Gave (i : ℕ) (s t : Pmm) : Type 0 where
  pub was_used : bit s.bitmap i ≡ true
  pub given : (j : ℕ) → bit t.bitmap j ≡ (not (i == j) && bit s.bitmap j)
  pub one_less : t.used_blocks + 1 ≡ s.used_blocks

module _ {s : Pmm} (v : IsValid s) (a : ℕ) (free : bit s.bitmap (block_of a) ≡ false) where
  mark_used_free :
      block_of a < max_blocks
      → mark_used s a ≡ record s {
        bitmap = set_at s.bitmap (block_of a);
        used_blocks = (s.used_blocks + 1) % 2 ^ 32;
      }
  unfolding mark_used
  mark_used_free h = ground (arith, v.total)

  count_set :
      block_of a < max_blocks
      → count_below (bit (set_at s.bitmap (block_of a))) max_blocks ≡ used_count s + 1
  count_set h = omega (
    arith,
    count_below_add (bit s.bitmap) (bit (set_at s.bitmap (block_of a))) (block_of a) max_blocks
        (λ j. bit-set_at s.bitmap (block_of a) v.bytes j (omega (arith, v.size))) free h,
  )

  -- Marking a free frame takes it, and the counter follows.
  pub mark_used-Took :
      block_of a < max_blocks → Took (block_of a) s (mark_used s a) × IsValid (mark_used s a)
  mark_used-Took h = rw (mark_used_free h) (
    record {
      was_free = free;
      taken = λ j. bit-set_at s.bitmap (block_of a) v.bytes j (omega (arith, v.size));
      one_more = omega (arith, v.counted, count_below-le (bit s.bitmap) max_blocks);
    },
    record {
      total = v.total;
      size = omega (arith, length-set_at s.bitmap (block_of a), v.size);
      bytes = set_at-IsBytes s.bitmap (block_of a) v.bytes;
      counted = omega (arith, v.counted, count_set h, count_below-le (bit s.bitmap) max_blocks);
    },
  )

module _ {s : Pmm} (v : IsValid s) (a : ℕ) (used : bit s.bitmap (block_of a) ≡ true) where
  mark_free_used :
      block_of a < max_blocks
      → mark_free s a ≡ record s {
        bitmap = clear_at s.bitmap (block_of a);
        used_blocks = (s.used_blocks + 2 ^ 32 - 1) % 2 ^ 32;
      }
  unfolding mark_free
  mark_free_used h = ground (arith, v.total)

  bit_again :
      block_of a < max_blocks
      → (j : ℕ) → bit s.bitmap j ≡ ((block_of a == j) || bit (clear_at s.bitmap (block_of a)) j)
  bit_again h j =
      ground (arith, bit-clear_at s.bitmap (block_of a) v.bytes j (omega (arith, v.size)))

  count_clear :
      block_of a < max_blocks
      → used_count s ≡ count_below (bit (clear_at s.bitmap (block_of a))) max_blocks + 1
  count_clear h = omega (
    arith,
    count_below_add (bit (clear_at s.bitmap (block_of a))) (bit s.bitmap) (block_of a) max_blocks
        (bit_again h)
        (ground
          (arith, bit-clear_at s.bitmap (block_of a) v.bytes (block_of a) (omega (arith, v.size))))
        h,
  )

  -- Marking a used frame gives it back, and the counter follows.
  pub mark_free-Gave :
      block_of a < max_blocks → Gave (block_of a) s (mark_free s a) × IsValid (mark_free s a)
  mark_free-Gave h = rw (mark_free_used h) (
    record {
      was_used = used;
      given = λ j. bit-clear_at s.bitmap (block_of a) v.bytes j (omega (arith, v.size));
      one_less = omega (arith, v.counted, count_clear h, count_below-le (bit s.bitmap) max_blocks);
    },
    record {
      total = v.total;
      size = omega (arith, length-clear_at s.bitmap (block_of a), v.size);
      bytes = clear_at-IsBytes s.bitmap (block_of a) v.bytes;
      counted = omega (arith, v.counted, count_clear h, count_below-le (bit s.bitmap) max_blocks);
    },
  )

module _ {s : Pmm} (v : IsValid s) (a : ℕ) where
  -- A frame past the end, or one that has the wanted mark, is left alone.
  pub mark_used_same :
      (max_blocks ≤ block_of a) ⊎ (bit s.bitmap (block_of a) ≡ true) → mark_used s a ≡ s
  unfolding mark_used
  mark_used_same h = ground (arith, v.total)

  pub mark_free_same :
      (max_blocks ≤ block_of a) ⊎ (bit s.bitmap (block_of a) ≡ false) → mark_free s a ≡ s
  unfolding mark_free
  mark_free_same h = ground (arith, v.total)

  pub mark_used-IsValid : IsValid (mark_used s a)
  mark_used-IsValid = elim (Bool-cases (bit s.bitmap (block_of a))) [
    | inl used ↦ rw (mark_used_same (inr used)) v
    | inr free ↦ elim (Bool-cases (leb max_blocks (block_of a))) [
      | inl out ↦ rw (mark_used_same (inl (leb→le _ _ out))) v
      | inr here ↦ (mark_used-Took v a free (ground arith)).1
    ]
  ]

  pub mark_free-IsValid : IsValid (mark_free s a)
  mark_free-IsValid = elim (Bool-cases (bit s.bitmap (block_of a))) [
    | inr free ↦ rw (mark_free_same (inr free)) v
    | inl used ↦ elim (Bool-cases (leb max_blocks (block_of a))) [
      | inl out ↦ rw (mark_free_same (inl (leb→le _ _ out))) v
      | inr here ↦ (mark_free-Gave v a used (ground arith)).1
    ]
  ]

-- Freeing a frame that was just marked gives the allocator back.
pub mark_free-mark_used :
    {s : Pmm}
    → IsValid s
    → (a : ℕ) → bit s.bitmap (block_of a) ≡ false
    → block_of a < max_blocks
    → mark_free (mark_used s a) a ≡ s
mark_free-mark_used {s} v a free h =
    let took = mark_used-Took v a free h in
    let now : bit (mark_used s a).bitmap (block_of a) ≡ true =
      ground (arith, took.0.taken (block_of a)) in
    mark_free_used took.1 a now h
    ∙ rw
        (
          mark_used_free v a free h,
          clear_at-set_at s.bitmap (block_of a) v.bytes (omega (arith, v.size)) free,
        )
        (ap (λ u. record s { used_blocks = u })
          (omega (arith, v.counted, count_below-le (bit s.bitmap) max_blocks)))

full_byte : every_below (λ k. test_bit 255 k) 8 ≡ true
unfolding every_below test_bit
full_byte = refl

-- Every frame is used after the reset.
pub bit-reset : (j : ℕ) → j < max_blocks → bit (reset max_blocks).bitmap j ≡ true
unfolding bit reset
bit-reset j h =
    rw (get_or-replicate {A = ℕ} bitmap_size (j / 8) 255 0 (omega arith))
      (every_below-holds (λ k. test_bit 255 k) (j % 8) 8 (omega arith) full_byte)

-- The reset allocator is valid.
pub reset-IsValid : IsValid (reset max_blocks)
unfolding reset
reset-IsValid = record {
  total = refl;
  size = length-replicate {A = ℕ} bitmap_size 255;
  bytes = All-replicate {A = ℕ} (λ b. b < 256) bitmap_size 255 (omega arith);
  counted = sym (count_below_all (bit (replicate bitmap_size 255)) max_blocks bit-reset);
}
