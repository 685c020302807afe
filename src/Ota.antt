-- ===== src/Ota.antt =====
-- The OTA data of src/utility.rs: two select entries in two sectors, which slot they choose, the
-- rollback of an unverified update, and the entry that records a boot.
pub mod Select
pub mod Recorded
pub mod Choice
pub mod Crc
mod Tests
use esp32c3_bootloader_rust.Common.{
  ℕ, zero, suc, ◌+◌, ◌*◌, ◌/◌, ◌%◌, ◌^◌, List, [], ◌∷◌, ◌++◌, Bool, true, false, ◌&&◌, ◌||◌, not,
  Option, none, some, if◌then◌else◌, ltb, leb, ◌==◌, u32_at, u32_max, to_le_bytes, add32, sub32,
  get_or, max, min,
}
use esp32c3_bootloader_rust.Crc.{esp_rom_crc32_le}
use esp32c3_bootloader_rust.Platform.{Platform}
use esp32c3_bootloader_rust.Flash.{
  Machine, bootloader_mmap, bootloader_munmap, bootloader_flash_erase_sector,
  bootloader_flash_write, flash_sector_size, debug_tx_str,
}
use esp32c3_bootloader_rust.Image.Segments.{PartitionPos}
use esp32c3_bootloader_rust.Gpio.{
  GpioHold, not_hold, short_hold, long_hold, bootloader_common_check_long_hold_gpio_level,
}
use esp32c3_bootloader_rust.Retain.{set_rtc_retain_mem_factory_reset_state}
use esp32c3_bootloader_rust.FactoryReset.{bootloader_common_erase_part_type_data}
use esp32c3_bootloader_rust.Partition.{
  BootloaderState, no_partition, bootloader_utility_load_partition_table,
}

abbrev pub esp_ota_img_new : ℕ
esp_ota_img_new = 0

abbrev pub esp_ota_img_pending_verify : ℕ
esp_ota_img_pending_verify = 1

abbrev pub esp_ota_img_valid : ℕ
esp_ota_img_valid = 2

abbrev pub esp_ota_img_invalid : ℕ
esp_ota_img_invalid = 3

abbrev pub esp_ota_img_aborted : ℕ
esp_ota_img_aborted = 4

abbrev pub max_ota_slots : ℕ
max_ota_slots = 16

-- An `i32` partition index: the factory and test indices are -1 and -2, and -99 is invalid.
pub data PartIndex : Type 0 where
  invalid_index test_app_index factory_index : PartIndex
  slot_index : ℕ → PartIndex

pub record EspOtaSelectEntry : Type 0 where
  pub ota_seq : ℕ
  pub ota_state : ℕ
  pub crc : ℕ

-- The array of two entries.
pub record OtaData : Type 0 where
  pub entry0 : EspOtaSelectEntry
  pub entry1 : EspOtaSelectEntry

unfoldable pub parse_select : List ℕ → EspOtaSelectEntry
parse_select bs = record { ota_seq = u32_at bs 0; ota_state = u32_at bs 4; crc = u32_at bs 8 }

unfoldable pub select_bytes : EspOtaSelectEntry → List ℕ
select_bytes e = to_le_bytes e.ota_seq ++ to_le_bytes e.ota_state ++ to_le_bytes e.crc

unfoldable pub bootloader_common_ota_select_crc : EspOtaSelectEntry → ℕ
bootloader_common_ota_select_crc entry = esp_rom_crc32_le u32_max (to_le_bytes entry.ota_seq) 4

unfoldable pub bootloader_common_ota_select_valid : EspOtaSelectEntry → Bool
bootloader_common_ota_select_valid entry =
    not (entry.ota_seq == u32_max)
    && not (entry.ota_state == esp_ota_img_invalid)
    && not (entry.ota_state == esp_ota_img_aborted)
    && entry.crc == bootloader_common_ota_select_crc entry

unfoldable pub bootloader_common_ota_select_invalid : EspOtaSelectEntry → Bool
bootloader_common_ota_select_invalid entry =
    entry.ota_seq == u32_max
    || entry.ota_state == esp_ota_img_invalid
    || entry.ota_state == esp_ota_img_aborted

-- `none` is the -1.
unfoldable pub bootloader_common_select_otadata : OtaData → Bool → Bool → Bool → Option ℕ
bootloader_common_select_otadata otadata valid0 valid1 want_max =
    let seq0 = otadata.entry0.ota_seq in
    let seq1 = otadata.entry1.ota_seq in
    if valid0 && valid1
    then (let condition = if want_max then max seq0 seq1 else min seq0 seq1 in
        if condition == seq0 then some 0 else some 1)
    else if valid0
    then some 0
    else if valid1
    then some 1
    else none

unfoldable pub bootloader_common_get_active_otadata : OtaData → Option ℕ
unfolding bootloader_common_select_otadata
bootloader_common_get_active_otadata otadata =
    bootloader_common_select_otadata otadata (bootloader_common_ota_select_valid otadata.entry0)
      (bootloader_common_ota_select_valid otadata.entry1) true

abbrev pub blank_entry : EspOtaSelectEntry
blank_entry = record { ota_seq = 0xFFFF_FFFF; ota_state = esp_ota_img_new; crc = 0 }

-- The rollback of one entry: `PENDING_VERIFY` becomes `ABORTED`, with its CRC computed again.
unfoldable pub abort_pending : EspOtaSelectEntry → EspOtaSelectEntry
abort_pending entry =
    if entry.ota_state == esp_ota_img_pending_verify
    then record entry {
      ota_state = esp_ota_img_aborted;
      crc = bootloader_common_ota_select_crc (record entry { ota_state = esp_ota_img_aborted });
    }
    else entry

-- The slot that the two entries choose, after the rollback.
unfoldable pub chosen_slot : BootloaderState → OtaData → PartIndex
unfolding bootloader_common_get_active_otadata
chosen_slot bs otadata = elim (bootloader_common_get_active_otadata otadata) [
  | none ↦ factory_index
  | some active ↦
      let entry = if active == 0 then otadata.entry0 else otadata.entry1 in
      let slot = sub32 entry.ota_seq 1 in
      if entry.ota_state == esp_ota_img_aborted
      then factory_index
      else if leb max_ota_slots slot
      then factory_index
      else if (get_or bs.ota slot no_partition).size == 0
      then factory_index
      else slot_index slot
]

-- The entry that `set_actual_ota_seq` writes for slot `start_index`.
unfoldable pub pending_entry : ℕ → EspOtaSelectEntry
pending_entry start_index =
    let entry : EspOtaSelectEntry = record {
      ota_seq = add32 start_index 1;
      ota_state = esp_ota_img_pending_verify;
      crc = 0;
    } in
    record entry { crc = bootloader_common_ota_select_crc entry }

-- The sector that is written: the one that is not active.
unfoldable pub write_slot_of : OtaData → ℕ
write_slot_of otadata = elim (bootloader_common_get_active_otadata otadata) [
  | none ↦ 1
  | some active ↦ if not (active == 1) then 1 else 0
]

module _ {Chip : Type 0} (env : Platform Chip) where
  unfoldable pub bootloader_common_read_otadata :
      PartitionPos → Machine Chip → Option OtaData × Machine Chip
  bootloader_common_read_otadata ota_info m =
      if ota_info.offset == 0 || ltb ota_info.size (2 * flash_sector_size)
      then (none, m)
      else (let (map0, m0) = bootloader_mmap env m ota_info.offset 12 in
          elim map0 [
            | none ↦ (none, m0)
            | some bytes0 ↦
                let (map1, m1) =
                  bootloader_mmap env (bootloader_munmap m0)
                    (add32 ota_info.offset flash_sector_size) 12 in
                elim map1 [
                  | none ↦ (none, m1)
                  | some bytes1 ↦ (
                    some (record { entry0 = parse_select bytes0; entry1 = parse_select bytes1 }),
                    bootloader_munmap m1,
                  )
                ]
          ])

  -- The write-back of entry `i` after the rollback.
  unfoldable pub store_aborted : PartitionPos → ℕ → EspOtaSelectEntry → Machine Chip → Machine Chip
  store_aborted ota_info i entry m =
      let offset = add32 ota_info.offset (flash_sector_size * i) in
      let (erased, m1) = bootloader_flash_erase_sector env m (offset / flash_sector_size) in
      let written =
        (bootloader_flash_write env m1 offset (select_bytes (abort_pending entry)) false).1 in
      if entry.ota_state == esp_ota_img_pending_verify then (if erased then written else m1) else m

  unfoldable pub bootloader_utility_get_selected_boot_partition :
      BootloaderState → Machine Chip → PartIndex × Machine Chip
  unfolding store_aborted chosen_slot
  bootloader_utility_get_selected_boot_partition bs m =
      if bs.ota_info.size == 0
      then (factory_index, m)
      else (let (otadata, m1) = bootloader_common_read_otadata bs.ota_info m in
          elim otadata [
            | none ↦ (factory_index, m1)
            | some two ↦
                let rolled : OtaData = record {
                  entry0 = abort_pending two.entry0;
                  entry1 = abort_pending two.entry1;
                } in
                (
                  chosen_slot bs rolled,
                  store_aborted bs.ota_info 1 two.entry1
                      (store_aborted bs.ota_info 0 two.entry0 m1),
                )
          ])

  unfoldable pub set_actual_ota_seq : BootloaderState → PartIndex → Machine Chip → Machine Chip
  set_actual_ota_seq bs (slot_index start_index) m =
      if ltb bs.ota_info.size (2 * flash_sector_size)
      then m
      else (let (otadata, m1) = bootloader_common_read_otadata bs.ota_info m in
          elim otadata [
            | none ↦ m1
            | some two ↦
                let addr = add32 bs.ota_info.offset (write_slot_of two * flash_sector_size) in
                let idle = env.spiflash_wait_idle m1.chip in
                let (erased, chip) = env.spiflash_erase_sector idle (addr / flash_sector_size) in
                let written =
                  env.spiflash_write (env.spiflash_wait_idle chip) addr
                    (select_bytes (pending_entry start_index)) in
                record m1 { chip = if erased then written.1 else chip }
          ])
  set_actual_ota_seq bs _ m = m
