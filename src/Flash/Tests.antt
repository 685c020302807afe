-- ===== src/Flash/Tests.antt =====
-- Concrete reads from the test board's flash.
use esp32c3_bootloader_rust.Common.{ℕ, ◌≡◌, ◌/◌, ◌*◌, refl, inl, [], ◌∷◌, some, length}
use esp32c3_bootloader_rust.Platform.{efuse_hal_flash_encryption_enabled}
use esp32c3_bootloader_rust.Board.{latest_page, board, flash_with, powered_on, read_bytes}
use esp32c3_bootloader_rust.Flash.{
  Machine, bootloader_mmap, flash_read_via_cache, window_from, remap_window,
}
use esp32c3_bootloader_rust.Flash.Window.{words_from, flash_read_via_cache_lem}

-- Eight bytes across a page boundary, and a driver that has recorded the first page, which the
-- hardware shows.
abbrev across : Machine (ℕ → ℕ)
across = record (powered_on (flash_with 0xFFFC (1 ∷ 2 ∷ 3 ∷ 4 ∷ 5 ∷ 6 ∷ 7 ∷ 8 ∷ []))) {
  current_read_mapping = 0;
}

across_bytes : (flash_read_via_cache board across 0xFFFC 8).0 ≡ 1 ∷ 2 ∷ 3 ∷ 4 ∷ 5 ∷ 6 ∷ 7 ∷ 8 ∷ []
unfolding flash_read_via_cache window_from remap_window board latest_page read_bytes
across_bytes = refl

flash_read_via_cache_lem_example :
    let r = flash_read_via_cache board across 0xFFFC 8 in
    (r.0 ≡ words_from board 2 0 across.chip 0xFFFC)
    × (length r.0 ≡ 8 / 4 * 4)
    × (r.1.current_read_mapping ≡ 0xffff_ffff)
unfolding board latest_page
flash_read_via_cache_lem_example = flash_read_via_cache_lem board across 0xFFFC 8 (inl refl)

mapping_example :
    (bootloader_mmap board (powered_on (flash_with 0x1000 (5 ∷ 6 ∷ []))) 0x1000 3).0
    ≡ some (5 ∷ 6 ∷ 255 ∷ [])
unfolding bootloader_mmap board read_bytes efuse_hal_flash_encryption_enabled
mapping_example = refl
