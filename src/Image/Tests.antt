-- ===== src/Image/Tests.antt =====
-- A small image on the test board, and the theorems about images applied to it.
use esp32c3_bootloader_rust.Common.{
  ℕ, ◌≡◌, ◌↔◌, inr, refl, arith, List, [], ◌∷◌, ◌++◌, true, false, replicate,
}
use esp32c3_bootloader_rust.Platform.{
  efuse_hal_flash_encryption_enabled, efuse_hal_chip_revision,
  efuse_hal_get_disable_wafer_version_major,
}
use esp32c3_bootloader_rust.Board.{board, board-Delivers, flash_with, powered_on, read_bytes}
use esp32c3_bootloader_rust.Flash.{
  Machine, bootloader_mmap, bootloader_munmap, flash_encryption_enabled, flash_read_raw,
  flash_read_via_cache, window_from,
}
use esp32c3_bootloader_rust.Image.{
  parse_header, zeroed, verify_image_header, verify_load_addresses,
  bootloader_common_check_chip_validity, should_load, parse_segment,
}
use esp32c3_bootloader_rust.Image.Header.{IsAccepted, verify_image_header_iff}
use esp32c3_bootloader_rust.Image.Process.{
  start_work, process_image, verify_secure_boot_sig, process_body, read_header, start_hash,
  check_checksum,
}
use esp32c3_bootloader_rust.Image.Segments.{
  ProcessFlags, PartitionPos, process_segment_data, map_or_exit, process_segments, process_segment,
  check_addresses, load_segment, record_segment, advance, unmap, on_machine, hash_bytes, on_pool,
  give_up, sha_abort, xor_bytes, copy_to_ram,
}
use esp32c3_bootloader_rust.Image.Process.Balance.{process_image-mapped}
use esp32c3_bootloader_rust.Image.Process.Release.{process_image-used}
use esp32c3_bootloader_rust.Image.Process.Memory.{process_image-ram}
use esp32c3_bootloader_rust.Image.Process.Limits.{
  process_segment_data-too_large, verify_secure_boot_sig-false,
}

abbrev header_bytes : List ℕ
header_bytes = 0xE9 ∷ 1 ∷ 0 ∷ 0 ∷ 0 ∷ 0 ∷ 0x38 ∷ 0x40 ∷ 0xEE ∷ 0 ∷ 0 ∷ 0 ∷ 5 ∷ 0 ∷ replicate 10 0

-- One segment of four bytes at 0x3FC9_0000, and the checksum.
abbrev image_bytes : List ℕ
image_bytes =
    header_bytes
    ++ 0 ∷ 0 ∷ 0xC9 ∷ 0x3F ∷ 4 ∷ 0 ∷ 0 ∷ 0 ∷ 1 ∷ 2 ∷ 3 ∷ 4 ∷ (replicate 11 0 ++ 0xEB ∷ [])

abbrev machine : Machine (ℕ → ℕ)
machine = powered_on (flash_with 0x1_0000 image_bytes)

abbrev part : PartitionPos
part = record { offset = 0x1_0000; size = 0x10_0000 }

abbrev load : ProcessFlags
load = record { verify = true; load = true }

-- The image is accepted and its segment is copied.
image_is_loaded :
    ((process_image board part zeroed load machine).0 ≡ true)
    × ((process_image board part zeroed load machine).2.ram 0x3FC9_0003 ≡ 4)
unfolding process_image board read_bytes zeroed process_body read_header map_or_exit bootloader_mmap
    efuse_hal_flash_encryption_enabled flash_encryption_enabled flash_read_raw flash_read_via_cache
    window_from bootloader_munmap verify_image_header bootloader_common_check_chip_validity
    efuse_hal_chip_revision efuse_hal_get_disable_wafer_version_major parse_header process_segments
    start_hash process_segment check_addresses should_load parse_segment verify_load_addresses
    load_segment process_segment_data record_segment advance unmap on_machine hash_bytes on_pool
    give_up sha_abort xor_bytes copy_to_ram check_checksum
image_is_loaded = (refl, refl)

process_image-ram_example :
    (process_image board part zeroed load machine).2.ram 0x3FCD_0000 ≡ machine.ram 0x3FCD_0000
unfolding board
process_image-ram_example =
    process_image-ram board board-Delivers part zeroed load machine 0x3FCD_0000
      (inr (omega arith, omega arith))

verify_image_header_iff_example :
    (verify_image_header board (parse_header header_bytes) ≡ true)
    ↔ IsAccepted board (parse_header header_bytes)
verify_image_header_iff_example = verify_image_header_iff board (parse_header header_bytes)

process_segment_data-too_large_example :
    (process_segment_data board 0x3FC9_0000 0x1_0020 5000 true (start_work board machine zeroed)).0
    ≡ false
process_segment_data-too_large_example =
    process_segment_data-too_large board 0x3FC9_0000 0x1_0020 5000 true
      (start_work board machine zeroed) (omega arith)

verify_secure_boot_sig-false_example :
    (verify_secure_boot_sig board (replicate 32 0) 0x1_1000 (start_work board machine zeroed)).0
    ≡ false
verify_secure_boot_sig-false_example =
    verify_secure_boot_sig-false board (replicate 32 0) 0x1_1000 (start_work board machine zeroed)

process_image-mapped_example :
    (process_image board part zeroed load machine).2.mapped ≡ machine.mapped
process_image-mapped_example = process_image-mapped board part zeroed load machine

process_image-used_example :
    (process_image board part zeroed load machine).2.pool.used ≡ machine.pool.used
process_image-used_example = process_image-used board part zeroed load machine
