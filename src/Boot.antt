-- ===== src/Boot.antt =====
-- The boot information: mbi_parse of kernel/mbi.c, pmm_init of kernel/mem/pmm.c, and the calls of both in
-- start_kernel of init/init.c. The information is a list of tags in memory, of which those of type 6 list
-- the regions of the physical memory, and that of type 8 tells of the screen.
pub mod Marks
pub mod Tags
pub mod Walk
pub mod Init
pub mod Start
use ly_system_os.Prelude.{
  ℕ, zero, suc, ◌+◌, ◌-◌, ◌*◌, ◌/◌, ◌%◌, ◌^◌, true, false, not, ◌&&◌, Option, none, some, ltb, ◌==◌,
  if◌then◌else◌,
}
use ly_system_os.Mem.Pmm.{Pmm, reset, page_size, max_blocks, mark_used, mark_free}
use ly_system_os.Gpu.{Framebuffer}
use ly_system_os.Ram.{Memory, load8, load32, load64, kernel_virtual_base}

-- The fuel of the loops: each moves on by a byte at least.
abbrev pub loop_fuel : ℕ
loop_fuel = 2 ^ 64

-- `V2P`
unfoldable pub phys : ℕ → ℕ
phys x = (x + (2 ^ 64 - kernel_virtual_base)) % 2 ^ 64

-- `P2V`
unfoldable pub virt_of : ℕ → ℕ
virt_of x = (x + kernel_virtual_base) % 2 ^ 64

-- The next tag stands behind this one, at a multiple of 8 bytes; the sum is one of `uint32_t`.
unfoldable pub next_tag : Memory → ℕ → ℕ
next_tag m tag = (tag + (load32 m (tag + 4) + 7) % 2 ^ 32 / 8 * 8) % 2 ^ 64

-- A loop over the pages from `a` up to `last`, with `n` rounds of fuel.
unfoldable pub pages : (Pmm → ℕ → Pmm) → ℕ → ℕ → ℕ → Pmm → Option Pmm
pages mark zero a last s = none
pages mark (suc n) a last s = elim (ltb a last) [
  | false ↦ some s
  | true ↦ pages mark n ((a + page_size) % 2 ^ 64) last (mark s a)
]

-- An entry of the memory map: its pages are free if its type is 1.
unfoldable pub map_entry : Memory → (Pmm → ℕ → Pmm) → ℕ → Pmm → Option Pmm
map_entry m free at s = elim (load32 m (at + 16) == 1) [
  | false ↦ some s
  | true ↦ pages free loop_fuel (load64 m at) ((load64 m at + load64 m (at + 8)) % 2 ^ 64) s
]

-- The loop over the entries.
unfoldable pub map_entries : Memory → (Pmm → ℕ → Pmm) → ℕ → ℕ → ℕ → ℕ → Pmm → Option Pmm
map_entries m free zero entry_size at last s = none
map_entries m free (suc n) entry_size at last s = elim (ltb at last) [
  | false ↦ some s
  | true ↦ elim (map_entry m free at s) [
    | none ↦ none
    | some next ↦ map_entries m free n entry_size ((at + entry_size) % 2 ^ 64) last next
  ]
]

-- A tag of type 6.
unfoldable pub map_tag : Memory → (Pmm → ℕ → Pmm) → ℕ → Pmm → Option Pmm
map_tag m free tag s =
    map_entries m free loop_fuel (load32 m (tag + 8)) (tag + 16)
      ((tag + load32 m (tag + 4)) % 2 ^ 64) s

-- The loop over the tags from `tag` up to `last`, or up to one of type 0.
unfoldable pub tags : {S : Type 0} → Memory → (ℕ → S → Option S) → ℕ → ℕ → ℕ → S → Option S
tags m visit zero tag last s = none
tags m visit (suc n) tag last s = elim (ltb tag last && not (load32 m tag == 0)) [
  | false ↦ some s
  | true ↦ elim (visit tag s) [
    | none ↦ none
    | some next ↦ tags m visit n (next_tag m tag) last next
  ]
]

-- `pmm_init` frees only what the bitmap has.
unfoldable pub free_below : Pmm → ℕ → Pmm
free_below s a = if ltb a (max_blocks * page_size) then mark_free s a else s

-- A tag in the loop of `pmm_init`.
unfoldable pub init_tag : Memory → ℕ → Pmm → Option Pmm
init_tag m tag s = elim (load32 m tag == 6) [ true ↦ map_tag m free_below tag s | false ↦ some s ]

-- What `pmm_init` marks as used behind that loop.
unfoldable pub reserve : ℕ → ℕ → ℕ → Pmm → Option Pmm
reserve kernel_start kernel_end mbi s =
    elim (pages mark_used loop_fuel (phys kernel_start) (phys kernel_end) s) [
      | none ↦ none
      | some kernel ↦ elim (pages mark_used loop_fuel 0 0x100000 kernel) [
        | none ↦ none
        | some low ↦ some (mark_used low mbi)
      ]
    ]

-- `pmm_init`, with the addresses of `_kernel_start` and `_kernel_end`.
unfoldable pub pmm_init : Memory → ℕ → ℕ → ℕ → ℕ → Option Pmm
pmm_init m kernel_start kernel_end total mbi =
    elim (tags m (init_tag m) loop_fuel ((virt_of mbi + 8) % 2 ^ 64)
      ((virt_of mbi + load32 m (virt_of mbi)) % 2 ^ 64) (reset total)) [
        | none ↦ none
        | some s ↦ reserve kernel_start kernel_end mbi s
      ]

-- The fields of a tag of type 8.
unfoldable pub screen_of : Memory → ℕ → Framebuffer
screen_of m tag = record {
  addr = load64 m (tag + 8);
  pitch = load32 m (tag + 16);
  width = load32 m (tag + 20);
  height = load32 m (tag + 24);
  bpp = load8 m (tag + 28);
}

unfoldable pub with_screen : Framebuffer → Option Pmm → Option (Pmm × Framebuffer)
with_screen fb none = none
with_screen fb (some s) = some (s, fb)

-- A tag in the loop of `mbi_parse`.
unfoldable pub parse_tag : Memory → ℕ → Pmm × Framebuffer → Option (Pmm × Framebuffer)
parse_tag m tag (s, fb) = elim (load32 m tag == 6) [
  | true ↦ with_screen fb (map_tag m mark_free tag s)
  | false ↦ if load32 m tag == 8 then some (s, screen_of m tag) else some (s, fb)
]

-- `mbi_parse`, whose parameter is a `uint32_t`.
unfoldable pub mbi_parse : Memory → ℕ → Pmm × Framebuffer → Option (Pmm × Framebuffer)
mbi_parse m phys_addr s =
    let base = virt_of (phys_addr % 2 ^ 32) in
    tags m (parse_tag m) loop_fuel ((base + 8) % 2 ^ 64) ((base + load32 m base) % 2 ^ 64) s

-- `phys_mbi` of `start_kernel`, from the `uint32_t` `mbi_address`.
unfoldable pub boot_address : ℕ → ℕ
boot_address mbi_address =
    if ltb kernel_virtual_base mbi_address then mbi_address - kernel_virtual_base else mbi_address

-- `start_kernel` up to `mbi_parse`.
unfoldable pub boot_memory : Memory → ℕ → ℕ → ℕ → ℕ → Framebuffer → Option (Pmm × Framebuffer)
boot_memory m kernel_start kernel_end total mbi_address fb =
    elim (pmm_init m kernel_start kernel_end total (boot_address mbi_address)) [
      | none ↦ none
      | some s ↦ mbi_parse m (boot_address mbi_address) (s, fb)
    ]
