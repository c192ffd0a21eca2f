-- ===== src/Boot/Start.antt =====
-- What mbi_parse of kernel/mbi.c does behind pmm_init, as start_kernel of init/init.c calls them.
use ly_system_os.Prelude.{
  ℕ, ◌+◌, ◌-◌, ◌%◌, ◌^◌, ◌<◌, ◌≡◌, refl, ap, ◌∙◌, Bool, true, false, not, ◌&&◌, ◌||◌, some, List,
  ◌∷◌, arith, ◌==◌, if◌then◌else◌,
}
use ly_system_os.Prelude.Bitmap.{bit}
use ly_system_os.Mem.Pmm.{Pmm, max_blocks, mark_free}
use ly_system_os.Mem.Pmm.Valid.{IsValid}
use ly_system_os.Gpu.{Framebuffer}
use ly_system_os.Ram.{Memory, load32}
use ly_system_os.Boot.{
  loop_fuel, virt_of, map_tag, tags, pmm_init, screen_of, with_screen, parse_tag, mbi_parse,
  boot_address, boot_memory,
}
use ly_system_os.Boot.Marks.{Changed, Changed-then, mark_free-Marks, Changed-none}
use ly_system_os.Boot.Tags.{
  Tag, memory_map, screen, skipped, StandsTag, Stand, tag_lists, listed, screen_after, length-Stand,
  TagEnds, EndBy, EndBy-le,
}
use ly_system_os.Boot.Walk.{map_tag_lem, tags_lem}
use ly_system_os.Boot.Init.{IsInfo, reserved, IsLinked, pmm_init_lem, virt_of-lt}

-- The frames that a list of tags frees, and the screen that it names.
abbrev pub Parsed : List Tag → Pmm × Framebuffer → Pmm × Framebuffer → Type 0
Parsed ts before behind =
    Changed false (listed ts) before.0 behind.0 × (behind.1 ≡ screen_after ts before.1)

module _ (m : Memory) where
  parse_tag_map :
      (at : ℕ) (s t : Pmm) (fb : Framebuffer)
      → load32 m at ≡ 6
      → map_tag m mark_free at s ≡ some t
      → parse_tag m at (s, fb) ≡ some (t, fb)
  unfolding parse_tag with_screen
  parse_tag_map at s t fb kind runs = rw (kind, runs, parse_tag) refl

  parse_tag_screen :
      (at : ℕ) (s : Pmm) (fb : Framebuffer)
      → load32 m at ≡ 8
      → parse_tag m at (s, fb) ≡ some (s, screen_of m at)
  unfolding parse_tag
  parse_tag_screen at s fb kind = rw (kind, parse_tag, kind) refl

  parse_tag_other :
      (at : ℕ) (s : Pmm) (fb : Framebuffer)
      → (load32 m at == 6) ≡ false
      → (load32 m at == 8) ≡ false
      → parse_tag m at (s, fb) ≡ some (s, fb)
  unfolding parse_tag
  parse_tag_other at s fb no_map no_screen = rw (no_map, no_screen, parse_tag) refl

  parse_tag_lem :
      (at : ℕ) (t : Tag) (x : Pmm × Framebuffer)
      → StandsTag m at t
      → TagEnds (2 ^ 44) t
      → IsValid x.0
      → (y : Pmm × Framebuffer) × (parse_tag m at x ≡ some y)
        × IsValid y.0
        × ((ts : List Tag) (z : Pmm × Framebuffer) → Parsed ts y z → Parsed (t ∷ ts) x z)
  unfolding StandsTag listed tag_lists screen_after
  parse_tag_lem at (memory_map rs) (s, fb) st ends v =
      let (kind, _, _, _) = st in
      let (u, runs, change) =
        map_tag_lem m (2 ^ 44) mark_free mark_free-Marks (omega arith) at rs s v st ends in
      (
        (u, fb),
        parse_tag_map at s u fb kind runs,
        change.inv,
        λ ts z (rest, named). (Changed-then false _ _ _ s u z.0 change rest (λ j hj. refl), named),
      )
  parse_tag_lem at (screen new) (s, fb) (kind, same) ends v = (
    (s, screen_of m at),
    parse_tag_screen at s fb kind,
    v,
    λ ts z (rest, named). (rest, named ∙ ap (screen_after ts) same),
  )
  parse_tag_lem at skipped (s, fb) (_, no_map, no_screen) ends v = (
    (s, fb),
    parse_tag_other at s fb (ground arith) (ground arith),
    v,
    λ ts z (rest, named). (rest, named),
  )

  parse_tags_lem :
      (ts : List Tag) (at last : ℕ) (x : Pmm × Framebuffer)
      → IsValid x.0
      → last < 2 ^ 64
      → Stand m at last ts
      → EndBy (2 ^ 44) ts
      → (z : Pmm × Framebuffer) × (tags m (parse_tag m) loop_fuel at last x ≡ some z)
        × Parsed ts x z
  unfolding listed screen_after
  parse_tags_lem ts at last x v fits st ends =
      let few = length-Stand m at last ts st in
      tags_lem m (2 ^ 44) (parse_tag m) (λ x. IsValid x.0) Parsed
        (λ x ok. (Changed-none false _ x.0 ok (λ j hj. refl), refl)) parse_tag_lem ts loop_fuel at
        last x v (omega arith) st ends

mbi_parse_runs :
    (m : Memory) (mbi : ℕ) (x z : Pmm × Framebuffer)
    → mbi % 2 ^ 32 ≡ mbi
    → (virt_of mbi + 8) % 2 ^ 64 ≡ virt_of mbi + 8
    → (virt_of mbi + load32 m (virt_of mbi)) % 2 ^ 64 ≡ virt_of mbi + load32 m (virt_of mbi)
    → tags m (parse_tag m) loop_fuel (virt_of mbi + 8) (virt_of mbi + load32 m (virt_of mbi)) x
      ≡ some z
    → mbi_parse m mbi x ≡ some z
unfolding mbi_parse
mbi_parse_runs m mbi x z small from to walked = rw (small, from, to, mbi_parse) walked

-- mbi_parse on boot information below 2 GiB whose tags stand in memory and whose regions of available memory end by 16 TiB, with a valid frame allocator: it ends, the frames that the memory map lists as available are free, all others as they were, and the screen is that of the last tag that names one.
pub mbi_parse_lem :
    (m : Memory) (mbi : ℕ) (ts : List Tag) (s : Pmm) (fb : Framebuffer)
    → IsInfo m mbi ts
    → EndBy (2 ^ 44) ts
    → IsValid s
    → (z : Pmm × Framebuffer) × (mbi_parse m mbi (s, fb) ≡ some z)
      × IsValid z.0
      × ((j : ℕ) → j < max_blocks → bit z.0.bitmap j ≡ (not (listed ts j) && bit s.bitmap j))
      × (z.1 ≡ screen_after ts fb)
mbi_parse_lem m mbi ts s fb info ends v =
    let low = info.low in
    let fits = info.fits in
    let room = virt_of-lt mbi low in
    let (z, walked, (change, named)) =
      parse_tags_lem m ts (virt_of mbi + 8) _ (s, fb) v fits info.stand ends in
    (
      z,
      mbi_parse_runs m mbi (s, fb) z (omega arith) (omega arith) (omega arith) walked,
      change.inv,
      λ j hj. change.bits j hj ∙ choice (listed ts j) (bit s.bitmap j),
      named,
    )
  where
    choice : (x y : Bool) → (if x then false else y) ≡ (not x && y)
    choice true y = refl
    choice false y = refl

boot_memory_runs :
    (m : Memory) (kernel_start kernel_end total mbi : ℕ) (fb : Framebuffer) (s : Pmm)
    → boot_address mbi ≡ mbi
    → pmm_init m kernel_start kernel_end total mbi ≡ some s
    → boot_memory m kernel_start kernel_end total mbi fb ≡ mbi_parse m mbi (s, fb)
unfolding boot_memory
boot_memory_runs m kernel_start kernel_end total mbi fb s same runs =
    rw (same, runs, boot_memory, same) refl

boot_address_low : (mbi : ℕ) → mbi < 2 ^ 32 → boot_address mbi ≡ mbi
unfolding boot_address
boot_address_low mbi low = ground arith

-- start_kernel up to mbi_parse, on boot information below 2 GiB whose tags stand in memory and whose regions of available memory end by 16 TiB, for a kernel linked above its base: both calls end with a valid allocator, in which a frame is free exactly if a region of available memory lists it, so that no frame of the kernel, of the first MiB or of the boot information that is listed is kept out of use; the screen is that of the last tag that names one.
pub boot_memory_lem :
    (m : Memory) (kernel_start kernel_end mbi : ℕ) (ts : List Tag) (fb : Framebuffer)
    → IsInfo m mbi ts
    → EndBy (2 ^ 44) ts
    → IsLinked kernel_start kernel_end
    → (z : Pmm × Framebuffer) × (boot_memory m kernel_start kernel_end max_blocks mbi fb ≡ some z)
      × IsValid z.0
      × ((j : ℕ) → j < max_blocks → bit z.0.bitmap j ≡ not (listed ts j))
      × (z.1 ≡ screen_after ts fb)
boot_memory_lem m kernel_start kernel_end mbi ts fb info ends linked =
    let (s, one, v, marks) =
      pmm_init_lem m kernel_start kernel_end mbi ts info
        (EndBy-le (2 ^ 44) (2 ^ 64 - 4096) ts (omega arith) ends) linked in
    let (z, two, valid, free, named) = mbi_parse_lem m mbi ts s fb info ends v in
    let low = info.low in
    (
      z,
      boot_memory_runs m kernel_start kernel_end max_blocks mbi fb s
            (boot_address_low mbi (omega arith)) one
          ∙ two,
      valid,
      λ j hj.
          free j hj
          ∙ rw (marks j hj) (choice (reserved kernel_start kernel_end mbi j) (listed ts j)),
      named,
    )
  where
    choice : (x y : Bool) → (not y && (x || not y)) ≡ not y
    choice true true = refl
    choice true false = refl
    choice false true = refl
    choice false false = refl
