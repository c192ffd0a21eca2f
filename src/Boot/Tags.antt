-- ===== src/Boot/Tags.antt =====
-- The boot information as a list of tags, apart from the memory that it stands in.
use ly_system_os.Prelude.{
  ℕ, ◌+◌, ◌*◌, ◌/◌, ◌^◌, ◌≤◌, ◌<◌, max, ◌≡◌, ◌≢◌, ◌⊎◌, Bool, false, ◌&&◌, ◌||◌, List, [], ◌∷◌,
  arith, ◌==◌, length, All,
}
use ly_system_os.Gpu.{Framebuffer}
use ly_system_os.Ram.{Memory, load32, load64}
use ly_system_os.Boot.{screen_of}
use ly_system_os.Boot.Marks.{covers}

-- A region of the physical memory; of kind 1 it can be used.
pub record Region : Type 0 where
  pub addr : ℕ
  pub len : ℕ
  pub kind : ℕ

-- A tag: the memory map, the screen, or another one, which the kernel skips.
pub data Tag : Type 0 where
  memory_map : List Region → Tag
  screen : Framebuffer → Tag
  skipped : Tag

-- The pages that regions and tags list as memory that can be used.
unfoldable pub lists : Region → ℕ → Bool
lists r j = (r.kind == 1) && covers r.addr (r.addr + r.len) j

unfoldable pub listed_by : List Region → ℕ → Bool
listed_by [] j = false
listed_by (r ∷ rs) j = lists r j || listed_by rs j

unfoldable pub tag_lists : Tag → ℕ → Bool
tag_lists (memory_map rs) j = listed_by rs j
tag_lists (screen fb) j = false
tag_lists skipped j = false

unfoldable pub listed : List Tag → ℕ → Bool
listed [] j = false
listed (t ∷ ts) j = tag_lists t j || listed ts j

-- The screen that the last tag of a screen tells of, `fb` if there is none.
unfoldable pub screen_after : List Tag → Framebuffer → Framebuffer
screen_after [] fb = fb
screen_after (memory_map rs ∷ ts) fb = screen_after ts fb
screen_after (screen new ∷ ts) fb = screen_after ts new
screen_after (skipped ∷ ts) fb = screen_after ts fb

-- The regions that can be used end at `limit` at the latest.
abbrev pub RegionEnds : ℕ → Region → Type 0
RegionEnds limit r = r.kind ≡ 1 → r.addr + r.len ≤ limit

unfoldable pub TagEnds : ℕ → Tag → Type 0
TagEnds limit (memory_map rs) = All (RegionEnds limit) rs
TagEnds limit (screen fb) = Unit
TagEnds limit skipped = Unit

abbrev pub EndBy : ℕ → List Tag → Type 0
EndBy limit ts = All (TagEnds limit) ts

-- A region stands in memory as an entry.
pub record StandsRegion (m : Memory) (at : ℕ) (r : Region) : Type 0 where
  pub addr_at : load64 m at ≡ r.addr
  pub len_at : load64 m (at + 8) ≡ r.len
  pub kind_at : load32 m (at + 16) ≡ r.kind

-- Entries of `size` bytes stand behind each other from `at` up to `last`.
unfoldable pub StandRegions : Memory → ℕ → ℕ → ℕ → List Region → Type 0
StandRegions m size at last [] = last ≤ at
StandRegions m size at last (r ∷ rs) =
    (at < last)
    × (at + size < 2 ^ 64)
    × StandsRegion m at r
    × StandRegions m size (at + size) last rs

-- A tag stands at `at`.
unfoldable pub StandsTag : Memory → ℕ → Tag → Type 0
StandsTag m at (memory_map rs) =
    (load32 m at ≡ 6)
    × (1 ≤ load32 m (at + 8))
    × (at + load32 m (at + 4) < 2 ^ 64)
    × StandRegions m (load32 m (at + 8)) (at + 16) (at + load32 m (at + 4)) rs
StandsTag m at (screen fb) = (load32 m at ≡ 8) × (screen_of m at ≡ fb)
StandsTag m at skipped = (load32 m at ≢ 0) × (load32 m at ≢ 6) × (load32 m at ≢ 8)

-- The size of a tag with what fills it up to a multiple of 8 bytes.
unfoldable pub tag_step : Memory → ℕ → ℕ
tag_step m at = (load32 m (at + 4) + 7) / 8 * 8

-- Tags stand behind each other from `at` up to `last`, or up to one of type 0.
unfoldable pub Stand : Memory → ℕ → ℕ → List Tag → Type 0
Stand m at last [] = (last ≤ at) ⊎ (load32 m at ≡ 0)
Stand m at last (t ∷ ts) =
    (at < last)
    × (1 ≤ load32 m (at + 4))
    × (load32 m (at + 4) + 7 < 2 ^ 32)
    × (at + tag_step m at < 2 ^ 64)
    × StandsTag m at t
    × Stand m (at + tag_step m at) last ts

-- As many as there are bytes at most.
pub length-StandRegions :
    (m : Memory) (size at last : ℕ) (rs : List Region)
    → 1 ≤ size
    → StandRegions m size at last rs
    → length rs + at ≤ max last at
unfolding StandRegions
length-StandRegions m size at last [] some_size st = omega arith
length-StandRegions m size at last (r ∷ rs) some_size (lt, room, here, rest) =
    let tail = length-StandRegions m size (at + size) last rs some_size rest in omega arith

pub length-Stand :
    (m : Memory) (at last : ℕ) (ts : List Tag) → Stand m at last ts → length ts + at ≤ max last at
unfolding Stand tag_step
length-Stand m at last [] st = omega arith
length-Stand m at last (t ∷ ts) (lt, some_size, small, room, here, rest) =
    let tail = length-Stand m (at + (load32 m (at + 4) + 7) / 8 * 8) last ts rest in omega arith

-- A higher limit.
RegionsEnd-le : (x y : ℕ) (rs : List Region) → x ≤ y → All (RegionEnds x) rs → All (RegionEnds y) rs
RegionsEnd-le x y [] le _ = tt
RegionsEnd-le x y (r ∷ rs) le (here, rest) =
    ((λ usable. let ends = here usable in omega arith), RegionsEnd-le x y rs le rest)

TagEnds-le : (x y : ℕ) (t : Tag) → x ≤ y → TagEnds x t → TagEnds y t
unfolding TagEnds
TagEnds-le x y (memory_map rs) le ends = RegionsEnd-le x y rs le ends
TagEnds-le x y (screen fb) le ends = tt
TagEnds-le x y skipped le ends = tt

pub EndBy-le : (x y : ℕ) (ts : List Tag) → x ≤ y → EndBy x ts → EndBy y ts
EndBy-le x y [] le _ = tt
EndBy-le x y (t ∷ ts) le (here, rest) = (TagEnds-le x y t le here, EndBy-le x y ts le rest)
