-- ===== src/Tests/Boot.antt =====
-- Boot information at 64 KiB: 2 MiB of memory from 1 MiB on, and a screen; the kernel at 1 MiB.
use ly_system_os.Prelude.{
  ℕ, ◌+◌, ◌-◌, ◌^◌, ◌<◌, ◌≡◌, refl, inr, true, not, ◌||◌, some, List, [], ◌∷◌, arith, get_or,
}
use ly_system_os.Prelude.Bitmap.{bit}
use ly_system_os.Mem.Pmm.{Pmm, max_blocks}
use ly_system_os.Mem.Pmm.Valid.{IsValid}
use ly_system_os.Gpu.{Framebuffer}
use ly_system_os.Ram.{Memory, load8, load32, load64}
use ly_system_os.Boot.{phys, virt_of, pmm_init, screen_of, boot_memory}
use ly_system_os.Boot.Marks.{covers}
use ly_system_os.Boot.Tags.{
  Tag, memory_map, screen, StandRegions, StandsTag, Stand, lists, listed_by, tag_lists, listed,
  screen_after, tag_step, TagEnds, EndBy, EndBy-le,
}
use ly_system_os.Boot.Init.{IsInfo, reserved, IsLinked, pmm_init_lem}
use ly_system_os.Boot.Start.{boot_memory_lem}

abbrev bytes : List ℕ
bytes =
    88 ∷ 0 ∷ 0 ∷ 0 ∷ 0 ∷ 0 ∷ 0 ∷ 0 ∷ 6 ∷ 0 ∷ 0 ∷ 0 ∷ 40 ∷ 0 ∷ 0 ∷ 0 ∷ 24 ∷ 0 ∷ 0 ∷ 0 ∷ 0 ∷ 0 ∷ 0 ∷ 0
    ∷ 0 ∷ 0 ∷ 16 ∷ 0 ∷ 0 ∷ 0 ∷ 0 ∷ 0 ∷ 0 ∷ 0 ∷ 32 ∷ 0 ∷ 0 ∷ 0 ∷ 0 ∷ 0 ∷ 1 ∷ 0 ∷ 0 ∷ 0 ∷ 0 ∷ 0 ∷ 0
    ∷ 0 ∷ 8 ∷ 0 ∷ 0 ∷ 0 ∷ 32 ∷ 0 ∷ 0 ∷ 0 ∷ 0 ∷ 0 ∷ 0 ∷ 224 ∷ 0 ∷ 0 ∷ 0 ∷ 0 ∷ 0 ∷ 16 ∷ 0 ∷ 0 ∷ 0 ∷ 4
    ∷ 0 ∷ 0 ∷ 0 ∷ 3 ∷ 0 ∷ 0 ∷ 32 ∷ 1 ∷ 0 ∷ 0 ∷ 0 ∷ 0 ∷ 0 ∷ 0 ∷ 8 ∷ 0 ∷ 0 ∷ 0 ∷ []

abbrev base : ℕ
base = 0xFFFFFFFF80010000

abbrev memory : Memory
memory = λ a. get_or bytes (a - base) 0

abbrev found_screen : Framebuffer
found_screen = record { addr = 0xE0000000; pitch = 4096; width = 1024; height = 768; bpp = 32 }

abbrev found_tags : List Tag
found_tags =
    memory_map (record { addr = 0x100000; len = 0x200000; kind = 1 } ∷ [])
    ∷ screen found_screen
    ∷ []

map_stands :
    StandsTag memory
      (base + 8)
      (memory_map (record { addr = 0x100000; len = 0x200000; kind = 1 } ∷ []))
unfolding StandsTag StandRegions load64 load32 load8
map_stands = (
  refl,
  omega arith,
  omega arith,
  (omega arith, omega arith, record { addr_at = refl; len_at = refl; kind_at = refl }, omega arith),
)

screen_stands : StandsTag memory (base + 48) (screen found_screen)
unfolding StandsTag screen_of load64 load32 load8
screen_stands = (refl, refl)

base_at : virt_of 0x10000 ≡ base
unfolding virt_of
base_at = refl

size_at : load32 memory base ≡ 88
unfolding load32 load8
size_at = refl

tags-Stand : Stand memory (base + 8) (base + 88) found_tags
unfolding Stand tag_step load32 load8
tags-Stand = (
  omega arith,
  omega arith,
  omega arith,
  omega arith,
  map_stands,
  (omega arith, omega arith, omega arith, omega arith, screen_stands, inr refl),
)

info : IsInfo memory 0x10000 found_tags
info = record {
  low = omega arith;
  fits = rw (base_at, size_at) (omega arith);
  stand = rw (base_at, size_at) tags-Stand;
}

found_tags-EndBy : EndBy (2 ^ 44) found_tags
unfolding TagEnds
found_tags-EndBy = (((λ _. omega arith), tt), (tt, tt))

linked : IsLinked 0xFFFFFFFF80100000 0xFFFFFFFF80180000
linked = record {
  start_high = omega arith;
  start_fits = omega arith;
  end_high = omega arith;
  end_fits = omega arith;
}

abbrev no_screen : Framebuffer
no_screen = record { addr = 0; pitch = 0; width = 0; height = 0; bpp = 0 }

pmm_init_lem_example :
    (r : Pmm) × (pmm_init memory 0xFFFFFFFF80100000 0xFFFFFFFF80180000 max_blocks 0x10000 ≡ some r)
    × IsValid r
    × ((j : ℕ)
        → j < max_blocks
        → bit r.bitmap j
          ≡ (reserved 0xFFFFFFFF80100000 0xFFFFFFFF80180000 0x10000 j || not (listed found_tags j)))
pmm_init_lem_example =
    pmm_init_lem memory 0xFFFFFFFF80100000 0xFFFFFFFF80180000 0x10000 found_tags info
      (EndBy-le (2 ^ 44) (2 ^ 64 - 4096) found_tags (omega arith) found_tags-EndBy) linked

boot_memory_lem_example :
    (z : Pmm × Framebuffer) × (boot_memory memory 0xFFFFFFFF80100000 0xFFFFFFFF80180000 max_blocks
        0x10000 no_screen
      ≡ some z)
    × IsValid z.0
    × ((j : ℕ) → j < max_blocks → bit z.0.bitmap j ≡ not (listed found_tags j))
    × (z.1 ≡ screen_after found_tags no_screen)
boot_memory_lem_example =
    boot_memory_lem memory 0xFFFFFFFF80100000 0xFFFFFFFF80180000 0x10000 found_tags no_screen info
      found_tags-EndBy linked

-- The kernel's first frame: used behind pmm_init, free behind mbi_parse.
kernel_frame :
    (reserved 0xFFFFFFFF80100000 0xFFFFFFFF80180000 0x10000 256 ≡ true)
    × (listed found_tags 256 ≡ true)
unfolding listed tag_lists listed_by lists reserved covers phys
kernel_frame = (refl, refl)

screen_found : screen_after found_tags no_screen ≡ found_screen
unfolding screen_after
screen_found = refl
