-- ===== src/Boot/Init.antt =====
-- The frames that pmm_init of kernel/mem/pmm.c leaves free.
use ly_system_os.Prelude.{
  ℕ, ◌+◌, ◌-◌, ◌/◌, ◌%◌, ◌^◌, ◌≤◌, ◌<◌, ◌≡◌, refl, ◌∙◌, Bool, true, false, not, ◌||◌, some, List,
  arith, ltb, ◌==◌, if◌then◌else◌,
}
use ly_system_os.Prelude.Bitmap.{bit}
use ly_system_os.Mem.Pmm.{Pmm, reset, max_blocks, mark_used}
use ly_system_os.Mem.Pmm.Valid.{bit-reset, reset-IsValid, IsValid}
use ly_system_os.Ram.{Memory, load32, kernel_virtual_base}
use ly_system_os.Boot.{
  loop_fuel, phys, virt_of, pages, map_tag, tags, free_below, init_tag, reserve, pmm_init,
}
use ly_system_os.Boot.Marks.{
  Changed, Changed-then, pages_lem, covers, mark_used-Marks, free_below-Marks, Changed-none,
}
use ly_system_os.Boot.Tags.{
  Tag, memory_map, screen, skipped, StandsTag, Stand, tag_lists, listed, length-Stand, TagEnds,
  EndBy,
}
use ly_system_os.Boot.Walk.{map_tag_lem, tags_lem}

-- The boot information at the physical address `mbi`, with its tags.
pub record IsInfo (m : Memory) (mbi : ℕ) (ts : List Tag) : Type 0 where
  pub low : mbi + 8 < 2 ^ 31
  pub fits : virt_of mbi + load32 m (virt_of mbi) < 2 ^ 64
  pub stand : Stand m (virt_of mbi + 8) (virt_of mbi + load32 m (virt_of mbi)) ts

-- The frames of the kernel, of the first MiB, and of the start of the boot information.
unfoldable pub reserved : ℕ → ℕ → ℕ → ℕ → Bool
reserved kernel_start kernel_end mbi j =
    covers (phys kernel_start) (phys kernel_end) j || (ltb j 256 || (j == mbi / 4096))

-- The memory that the kernel is linked to.
pub record IsLinked (kernel_start kernel_end : ℕ) : Type 0 where
  pub start_high : kernel_virtual_base ≤ kernel_start
  pub start_fits : kernel_start < 2 ^ 64
  pub end_high : kernel_virtual_base ≤ kernel_end
  pub end_fits : kernel_end < 2 ^ 64

module _ (m : Memory) where
  init_tag_map : (at : ℕ) (s : Pmm) → load32 m at ≡ 6 → init_tag m at s ≡ map_tag m free_below at s
  unfolding init_tag
  init_tag_map at s kind = rw (kind, init_tag) refl

  init_tag_other : (at : ℕ) (s : Pmm) → (load32 m at == 6) ≡ false → init_tag m at s ≡ some s
  unfolding init_tag
  init_tag_other at s other = rw (other, init_tag) refl

  -- The end of the regions that pmm_init can loop over.
  abbrev last_end : ℕ
  last_end = 2 ^ 64 - 4096

  -- A tag that lists no memory changes nothing.
  skip :
      (at : ℕ) (t : Tag) (s : Pmm)
      → (load32 m at == 6) ≡ false
      → ((j : ℕ) → tag_lists t j ≡ false)
      → IsValid s
      → (u : Pmm) × (init_tag m at s ≡ some u) × Changed false (tag_lists t) s u
  skip at t s other none_of v =
      (s, init_tag_other at s other, Changed-none false (tag_lists t) s v (λ j hj. none_of j))

  init_tag_lem :
      (at : ℕ) (t : Tag) (s : Pmm)
      → StandsTag m at t
      → TagEnds last_end t
      → IsValid s
      → (u : Pmm) × (init_tag m at s ≡ some u) × Changed false (tag_lists t) s u
  unfolding StandsTag tag_lists
  init_tag_lem at (memory_map rs) s st ends v =
      let (kind, _, _, _) = st in
      let (u, runs, change) =
        map_tag_lem m last_end free_below (λ s a v small. free_below-Marks s a v (omega arith))
          (omega arith) at rs s v st ends in
      (u, init_tag_map at s kind ∙ runs, change)
  init_tag_lem at (screen fb) s (kind, same) ends v =
      skip at (screen fb) s (rw kind refl) (λ j. refl) v
  init_tag_lem at skipped s (some_kind, kind, _) ends v =
      skip at skipped s (ground arith) (λ j. refl) v

  init_tags_lem :
      (ts : List Tag) (at last : ℕ) (s : Pmm)
      → IsValid s
      → last < 2 ^ 64
      → Stand m at last ts
      → EndBy last_end ts
      → (r : Pmm) × (tags m (init_tag m) loop_fuel at last s ≡ some r)
        × Changed false (listed ts) s r
  unfolding listed
  init_tags_lem ts at last s v fits st ends =
      let few = length-Stand m at last ts st in
      tags_lem m last_end (init_tag m) IsValid (λ us x y. Changed false (listed us) x y)
        (λ x ok. Changed-none false _ x ok (λ j hj. refl))
        (λ at t x here end ok.
          let (u, runs, change) = init_tag_lem at t x here end ok in
          (
            u,
            runs,
            change.inv,
            λ us r rest. Changed-then false _ _ _ x u r change rest (λ j hj. refl),
          ))
        ts loop_fuel at last s v (omega arith) st ends

reserve_runs :
    (kernel_start kernel_end mbi : ℕ) (s kernel low : Pmm)
    → pages mark_used loop_fuel (phys kernel_start) (phys kernel_end) s ≡ some kernel
    → pages mark_used loop_fuel 0 0x100000 kernel ≡ some low
    → reserve kernel_start kernel_end mbi s ≡ some (mark_used low mbi)
unfolding reserve
reserve_runs kernel_start kernel_end mbi s kernel low one two = rw (one, two, reserve) refl

phys-lt : (x : ℕ) → kernel_virtual_base ≤ x → x < 2 ^ 64 → phys x < 2 ^ 31
unfolding phys
phys-lt x high fits = omega arith

first_mib : (j : ℕ) → covers 0 0x100000 j ≡ ltb j 256
unfolding covers
first_mib j = ground arith

reserve_lem :
    (kernel_start kernel_end mbi : ℕ) (s : Pmm)
    → IsValid s
    → IsLinked kernel_start kernel_end
    → mbi < 2 ^ 44
    → (r : Pmm) × (reserve kernel_start kernel_end mbi s ≡ some r)
      × Changed true (reserved kernel_start kernel_end mbi) s r
unfolding reserved
reserve_lem kernel_start kernel_end mbi s v linked small =
    let from = phys-lt kernel_start linked.start_high linked.start_fits in
    let to = phys-lt kernel_end linked.end_high linked.end_fits in
    let (kernel, runs, one) =
      pages_lem (2 ^ 44) true mark_used mark_used-Marks (2 ^ 64 - 1) (phys kernel_start)
        (phys kernel_end) s v (omega arith) (omega arith) (omega arith) in
    let (low, again, two) =
      pages_lem (2 ^ 44) true mark_used mark_used-Marks (2 ^ 64 - 1) 0 0x100000 kernel one.inv
        (omega arith) (omega arith) (omega arith) in
    let last = mark_used-Marks low mbi two.inv small in
    (
      mark_used low mbi,
      reserve_runs kernel_start kernel_end mbi s kernel low runs again,
      Changed-then true _ _ _ s kernel _ one
          (Changed-then true _ _ _ kernel low _ two last (λ j hj. refl))
          (λ j hj. rw (first_mib j) refl),
    )

pmm_init_runs :
    (m : Memory) (kernel_start kernel_end total mbi : ℕ) (s r : Pmm)
    → (virt_of mbi + 8) % 2 ^ 64 ≡ virt_of mbi + 8
    → (virt_of mbi + load32 m (virt_of mbi)) % 2 ^ 64 ≡ virt_of mbi + load32 m (virt_of mbi)
    → tags m
        (init_tag m)
        loop_fuel
        (virt_of mbi + 8)
        (virt_of mbi + load32 m (virt_of mbi))
        (reset total)
      ≡ some s
    → reserve kernel_start kernel_end mbi s ≡ some r
    → pmm_init m kernel_start kernel_end total mbi ≡ some r
unfolding pmm_init
pmm_init_runs m kernel_start kernel_end total mbi s r from to walked kept =
    rw (from, to, walked, pmm_init) kept

pub virt_of-lt : (mbi : ℕ) → mbi + 8 < 2 ^ 31 → virt_of mbi + 8 < 2 ^ 64
unfolding virt_of
virt_of-lt mbi low = omega arith

-- pmm_init on boot information below 2 GiB whose tags stand in memory and whose regions of available memory end 4 KiB below 2^64 at the latest, for a kernel linked above its base: it ends with a valid allocator, in which a frame is used exactly if it is one of the kernel, of the first MiB, or of the start of the boot information, or if no region of available memory lists it.
pub pmm_init_lem :
    (m : Memory) (kernel_start kernel_end mbi : ℕ) (ts : List Tag)
    → IsInfo m mbi ts
    → EndBy (2 ^ 64 - 4096) ts
    → IsLinked kernel_start kernel_end
    → (r : Pmm) × (pmm_init m kernel_start kernel_end max_blocks mbi ≡ some r)
      × IsValid r
      × ((j : ℕ)
          → j < max_blocks
          → bit r.bitmap j ≡ (reserved kernel_start kernel_end mbi j || not (listed ts j)))
pmm_init_lem m kernel_start kernel_end mbi ts info ends linked =
    let low = info.low in
    let room = virt_of-lt mbi low in
    let (s, walked, free) =
      init_tags_lem m ts (virt_of mbi + 8) _ (reset max_blocks) reset-IsValid info.fits info.stand
        ends in
    let (r, runs, used) = reserve_lem kernel_start kernel_end mbi s free.inv linked (omega arith) in
    let fits = info.fits in
    (
      r,
      pmm_init_runs m kernel_start kernel_end max_blocks mbi s r (omega arith) (omega arith) walked
          runs,
      used.inv,
      λ j hj.
          used.bits j hj
          ∙ rw (free.bits j hj, bit-reset j hj)
              (choice (reserved kernel_start kernel_end mbi j) (listed ts j)),
    )
  where
    choice : (x y : Bool) → (if x then true else (if y then false else true)) ≡ (x || not y)
    choice true y = refl
    choice false true = refl
    choice false false = refl
