-- ===== src/Image/Process/Tests.antt =====
-- An image with an appended hash on the test board, verified.
use esp32c3_bootloader_rust.Common.{ℕ, ◌≡◌, inl, refl, true, false}
use esp32c3_bootloader_rust.Platform.{
  efuse_hal_flash_encryption_enabled, efuse_hal_chip_revision,
  efuse_hal_get_disable_wafer_version_major,
}
use esp32c3_bootloader_rust.Board.{board, hashed_image, flash_with, powered_on, read_bytes}
use esp32c3_bootloader_rust.Sha256.{
  new_context, update, finalize, compress, digest_bytes, close_block, zero_fill,
}
use esp32c3_bootloader_rust.Sha256.Pool.{
  empty_pool, bootloader_sha256_start, bootloader_sha256_data, bootloader_sha256_finish,
}
use esp32c3_bootloader_rust.Flash.{
  Machine, bootloader_mmap, bootloader_munmap, flash_encryption_enabled, flash_read_raw,
  flash_read_via_cache, window_from,
}
use esp32c3_bootloader_rust.Image.{
  parse_header, zeroed, verify_image_header, verify_load_addresses,
  bootloader_common_check_chip_validity, should_load, parse_segment,
}
use esp32c3_bootloader_rust.Image.Process.{
  process_image, check_signature, process_body, read_header, start_hash, check_checksum, check_hash,
  finish_hash,
}
use esp32c3_bootloader_rust.Image.Segments.{
  ProcessFlags, PartitionPos, process_segment_data, map_or_exit, process_segments, process_segment,
  check_addresses, load_segment, record_segment, advance, unmap, on_machine, hash_bytes, on_pool,
  give_up, sha_abort, xor_bytes, copy_to_ram, bytes_eq,
}
use esp32c3_bootloader_rust.Image.Process.Layout.{IsIntact}
use esp32c3_bootloader_rust.Image.Process.Intact.{process_image-IsIntact}

abbrev machine : Machine (ℕ → ℕ)
machine = powered_on (flash_with 0x1_0000 hashed_image)

abbrev part : PartitionPos
part = record { offset = 0x1_0000; size = 0x10_0000 }

abbrev verify_only : ProcessFlags
verify_only = record { verify = true; load = false }

hashed_image_verifies : (process_image board part zeroed verify_only machine).0 ≡ true
unfolding process_image board read_bytes zeroed process_body read_header map_or_exit bootloader_mmap
    efuse_hal_flash_encryption_enabled flash_encryption_enabled flash_read_raw flash_read_via_cache
    window_from bootloader_munmap verify_image_header bootloader_common_check_chip_validity
    efuse_hal_chip_revision efuse_hal_get_disable_wafer_version_major parse_header process_segments
    start_hash process_segment check_addresses should_load parse_segment verify_load_addresses
    load_segment process_segment_data record_segment advance unmap on_machine hash_bytes on_pool
    give_up sha_abort xor_bytes copy_to_ram check_checksum check_hash finish_hash check_signature
    bytes_eq bootloader_sha256_start bootloader_sha256_data bootloader_sha256_finish finalize update
    new_context compress digest_bytes close_block zero_fill
hashed_image_verifies = refl

process_image-IsIntact_example :
    IsIntact board machine.chip part.offset (process_image board part zeroed verify_only machine).1
unfolding bootloader_sha256_start
process_image-IsIntact_example =
    process_image-IsIntact board part zeroed verify_only machine 0
      (bootloader_sha256_start empty_pool).1 refl (inl refl, refl)
      (record { used_size = refl; contexts_size = refl }) refl hashed_image_verifies
