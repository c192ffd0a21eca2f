-- ===== src/Mem/Pmm/Usage.antt =====
-- include/LySys/ram.h: the size of the memory, in bytes and in MiB.
use ly_system_os.Prelude.{ℕ, ◌+◌, ◌-◌, ◌*◌, ◌/◌, ◌%◌, ◌^◌, ◌≤◌, ◌<◌, ◌≡◌, arith}
use ly_system_os.Prelude.Bitmap.{bit, count_below-le}
use ly_system_os.Mem.Pmm.{Pmm, page_size, max_blocks}
use ly_system_os.Mem.Pmm.Valid.{IsValid}

unfoldable pub get_total_ram : Pmm → ℕ
get_total_ram s = s.total_blocks * page_size

unfoldable pub get_total_ram_mb : Pmm → ℕ
get_total_ram_mb s = get_total_ram s / (1024 * 1024) % 2 ^ 32

unfoldable pub get_used_ram : ℕ → ℕ
get_used_ram used_blocks = used_blocks * page_size

unfoldable pub get_used_ram_mb : ℕ → ℕ
get_used_ram_mb used_blocks = get_used_ram used_blocks / (1024 * 1024) % 2 ^ 32

unfoldable pub get_free_ram_mb : Pmm → ℕ → ℕ
get_free_ram_mb s used_blocks = (get_total_ram_mb s + 2 ^ 32 - get_used_ram_mb used_blocks) % 2 ^ 32

-- On a valid allocator, the MiB that are free hold every free frame, and 255 frames more at most.
pub get_free_ram_mb_lem :
    (s : Pmm)
    → IsValid s
    → (max_blocks ≤ s.used_blocks + get_free_ram_mb s s.used_blocks * 256)
      × (s.used_blocks + get_free_ram_mb s s.used_blocks * 256 < max_blocks + 256)
unfolding get_free_ram_mb get_total_ram_mb get_used_ram_mb get_total_ram get_used_ram
get_free_ram_mb_lem s v =
    let total = v.total in
    let counted = v.counted in
    let most = count_below-le (bit s.bitmap) max_blocks in
    let all : s.total_blocks * page_size / (1024 * 1024) % 2 ^ 32 ≡ 256 = omega arith in
    (rw all (omega arith), rw all (omega arith))
