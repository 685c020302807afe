-- ===== src/Boot/Tests.antt =====
-- The theorems about the boot at concrete partitions and images.
use esp32c3_bootloader_rust.Sha256.{
  finalize, update, new_context, compress, digest_bytes, close_block, zero_fill,
}
use esp32c3_bootloader_rust.Sha256.Pool.{
  bootloader_sha256_start, bootloader_sha256_data, bootloader_sha256_finish,
}
use esp32c3_bootloader_rust.Platform.{
  efuse_hal_flash_encryption_enabled, efuse_get_secure_version, efuse_hal_chip_revision,
  efuse_hal_get_disable_wafer_version_major,
}
use esp32c3_bootloader_rust.Image.Process.{
  bootloader_load_image, process_image, process_body, read_header, start_hash, check_checksum,
  check_hash, finish_hash, check_signature,
}
use esp32c3_bootloader_rust.Ota.Choice.{
  select_partition_number, selected_boot_partition, factory_reset_hold, app_test_hold,
}
use esp32c3_bootloader_rust.Common.{
  ℕ, ◌+◌, ◌-◌, ◌*◌, ◌<◌, ◌≤◌, ◌≡◌, ◌↔◌, arith, inl, refl, Option, none, some, [], ◌∷◌, false, add32,
}
use esp32c3_bootloader_rust.Board.{
  bootable, board, hashed_image, flash_with, powered_on, read_bytes,
}
use esp32c3_bootloader_rust.Flash.{
  Machine, bootloader_mmap, flash_encryption_enabled, flash_read_raw, flash_read_via_cache,
  window_from, bootloader_munmap,
}
use esp32c3_bootloader_rust.Image.{
  EspImageMetadata, zeroed, verify_image_header, bootloader_common_check_chip_validity,
  parse_header, should_load, parse_segment, verify_load_addresses,
}
use esp32c3_bootloader_rust.Image.Segments.{
  PartitionPos, map_or_exit, process_segments, process_segment, check_addresses, load_segment,
  process_segment_data, record_segment, advance, unmap, on_machine, hash_bytes, on_pool, give_up,
  sha_abort, xor_bytes, copy_to_ram, bytes_eq,
}
use esp32c3_bootloader_rust.Partition.{
  BootloaderState, default_state, bootloader_utility_load_partition_table, parse_table, parse_entry,
  esp_partition_table_verify, place_all, place_entry,
}
use esp32c3_bootloader_rust.Ota.{
  slot_index, test_app_index, factory_index, set_actual_ota_seq,
  bootloader_utility_get_selected_boot_partition, store_aborted, chosen_slot,
  bootloader_common_read_otadata, bootloader_common_get_active_otadata,
  bootloader_common_select_otadata, bootloader_common_ota_select_valid,
  bootloader_common_ota_select_crc, parse_select, abort_pending,
}
use esp32c3_bootloader_rust.Boot.{
  boot, check_anti_rollback, search_from, or_else, test_attempt, bootloader_utility_load_boot_image,
  boot_from, backward_sweep, forward_sweep, attempt, get_partition, try_load_partition,
}
use esp32c3_bootloader_rust.Boot.Ready.{IsReady}
use esp32c3_bootloader_rust.Boot.Outcome.{searched_chip, boot-IsVerified}
use esp32c3_bootloader_rust.Boot.Verified.{IsVerified, load_boot_image-IsVerified}
use esp32c3_bootloader_rust.Boot.Handover.{
  BootEnd, jump, reset, extract_segment_info, is_drom, is_irom, page_base, page_count, load_image,
  bootloader_reset,
}
use esp32c3_bootloader_rust.Boot.Order.{
  downwards, upwards, try_all, from_factory, IsStale, check_anti_rollback-refuses,
  search_from-try_all,
}
use esp32c3_bootloader_rust.Crc.{esp_rom_crc32_le}
use esp32c3_bootloader_rust.Retain.{
  ram_bytes, crc32_retain_mem, is_rtc_retain_mem_valid, set_rtc_retain_mem_factory_reset_state,
}
use esp32c3_bootloader_rust.Boot.DeepSleep.{
  normal, bootloader_utility_load_boot_image_from_deep_sleep,
}
use esp32c3_bootloader_rust.Boot.Resume.{deep_sleep-after-factory_reset}
use esp32c3_bootloader_rust.Boot.Layout.{
  drom, irom, first_from, extract_segment_info-first, page_count-covers,
}

abbrev two_slots : BootloaderState
two_slots = record default_state { app_count = 2 }

abbrev machine : Machine (ℕ → ℕ)
machine = powered_on (flash_with 0x1_0020 (0x32 ∷ 0x54 ∷ 0xCD ∷ 0xAB ∷ 0 ∷ 0 ∷ 0 ∷ 0 ∷ []))

abbrev part : PartitionPos
part = record { offset = 0x1_0000; size = 0x10_0000 }

search_from-try_all_example :
    (search_from board (slot_index 0) two_slots zeroed machine
      ≡ or_else board
          (try_all board "[J]" (downwards 1) two_slots zeroed machine)
          (try_all board "[K]" (upwards 1 1) two_slots))
    × (search_from board test_app_index two_slots zeroed machine
        ≡ or_else board
            (test_attempt board two_slots zeroed machine)
            (from_factory board two_slots))
    × (search_from board factory_index two_slots zeroed machine
        ≡ from_factory board two_slots zeroed machine)
search_from-try_all_example = search_from-try_all board 0 two_slots zeroed machine

check_anti_rollback-refuses_example :
    ((check_anti_rollback board part machine).0 ≡ false)
    ↔ IsStale board (bootloader_mmap board machine (add32 part.offset 32) 8).0
check_anti_rollback-refuses_example = check_anti_rollback-refuses board part machine

-- A segment of each kind, and a second data segment that is passed over.
abbrev three_segments : EspImageMetadata
three_segments = record zeroed {
  image = record zeroed.image { segment_count = 3 };
  segments =
      record { load_addr = 0x3C00_0020; data_len = 100 }
      ∷ record { load_addr = 0x4200_0020; data_len = 200 }
      ∷ record { load_addr = 0x3C01_0000; data_len = 300 }
      ∷ [];
  segment_data = 0x1_0020 ∷ 0x2_0020 ∷ 0x3_0020 ∷ [];
}

extract_segment_info-first_example :
    (drom (extract_segment_info three_segments)
      ≡ first_from is_drom three_segments.image.segment_count 0 three_segments (0, 0, 0))
    × (irom (extract_segment_info three_segments)
        ≡ first_from is_irom three_segments.image.segment_count 0 three_segments (0, 0, 0))
extract_segment_info-first_example = extract_segment_info-first three_segments

page_count-covers_example :
    (page_base 0x3C00_0020 ≤ 0x3C00_0020)
    × (0x3C00_0020 + 70000 ≤ page_base 0x3C00_0020 + page_count 0x3C00_0020 70000 * 65536)
    × (page_base 0x3C00_0020 + (page_count 0x3C00_0020 70000 - 1) * 65536 < 0x3C00_0020 + 70000)
page_count-covers_example = page_count-covers 0x3C00_0020 70000 (omega arith) (omega arith)

-- The record of zeros is not valid.
zeros_invalid : is_rtc_retain_mem_valid (λ a. 0) ≡ false
unfolding is_rtc_retain_mem_valid crc32_retain_mem ram_bytes esp_rom_crc32_le
zeros_invalid = refl

-- A wake with a RAM of zeros, in which a factory reset is recorded.
deep_sleep-after-factory_reset_example :
    let recorded = record (powered_on (flash_with 0 [])) {
      ram = set_rtc_retain_mem_factory_reset_state (λ a. 0);
    } in
    bootloader_utility_load_boot_image_from_deep_sleep board recorded ≡ normal recorded
deep_sleep-after-factory_reset_example =
    deep_sleep-after-factory_reset board (powered_on (flash_with 0 [])) (λ a. omega arith)
      zeros_invalid

-- The image with a hash, in the first slot.
abbrev one_slot : BootloaderState
one_slot = record default_state { app_count = 1; ota = part ∷ [] }

abbrev with_image : Machine (ℕ → ℕ)
with_image = powered_on (flash_with 0x1_0000 hashed_image)

with_image-IsReady : IsReady board with_image.chip with_image
with_image-IsReady = record {
  steady = record { same_chip = refl; knows = (inl refl, refl); contexts_size = refl };
  used_size = refl;
  free = refl;
}

load_boot_image-IsVerified_example :
    IsVerified board with_image.chip
      (bootloader_utility_load_boot_image board one_slot (slot_index 0) with_image)
load_boot_image-IsVerified_example =
    load_boot_image-IsVerified board one_slot (slot_index 0) with_image with_image-IsReady

boot-IsVerified_example :
    IsVerified board (searched_chip board (powered_on bootable)) (boot board (powered_on bootable))
boot-IsVerified_example =
    boot-IsVerified board (powered_on bootable)
      (record { used_size = refl; contexts_size = refl; free = refl }) (inl refl, refl)

-- That boot is a jump to the entry point of the image.
jump_address : BootEnd (ℕ → ℕ) → Option ℕ
jump_address (jump addr m) = some addr
jump_address (reset m) = none

boots : jump_address (boot board (powered_on bootable)) ≡ some 0x4038_0000
unfolding boot boot_from bootloader_utility_load_boot_image search_from backward_sweep forward_sweep
    attempt get_partition try_load_partition check_anti_rollback load_image bootloader_reset
    set_actual_ota_seq select_partition_number selected_boot_partition
    bootloader_utility_get_selected_boot_partition store_aborted chosen_slot
    bootloader_common_read_otadata bootloader_common_get_active_otadata
    bootloader_common_select_otadata bootloader_common_ota_select_valid
    bootloader_common_ota_select_crc parse_select abort_pending
    bootloader_utility_load_partition_table parse_table parse_entry esp_partition_table_verify
    place_all place_entry bootloader_load_image process_image board read_bytes zeroed process_body
    read_header map_or_exit bootloader_mmap efuse_hal_flash_encryption_enabled
    efuse_get_secure_version flash_encryption_enabled flash_read_raw flash_read_via_cache
    window_from bootloader_munmap verify_image_header bootloader_common_check_chip_validity
    efuse_hal_chip_revision efuse_hal_get_disable_wafer_version_major parse_header process_segments
    start_hash process_segment check_addresses should_load parse_segment verify_load_addresses
    load_segment process_segment_data record_segment advance unmap on_machine hash_bytes on_pool
    give_up sha_abort xor_bytes copy_to_ram check_checksum check_hash finish_hash check_signature
    bytes_eq bootloader_sha256_start bootloader_sha256_data bootloader_sha256_finish finalize update
    new_context compress digest_bytes close_block zero_fill esp_rom_crc32_le factory_reset_hold
    app_test_hold jump_address
boots = refl
