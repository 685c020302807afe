-- ===== src/Boot/Sound.antt =====
-- Reading the partition table and the OTA data takes no SHA-256 context and leaves what the driver
-- knows of the flash encryption eFuse.
pub mod Choice
use esp32c3_bootloader_rust.Common.{
  ℕ, zero, suc, ◌+◌, ◌*◌, ◌/◌, ◌≡◌, refl, ◌∙◌, List, [], ◌∷◌, Bool, true, false, not, ◌&&◌, ◌||◌,
  Bool-cases, Option-cases, inl, inr, none, Option, if◌then◌else◌, ◌==◌, ltb, add32,
}
use esp32c3_bootloader_rust.Platform.{Platform}
use esp32c3_bootloader_rust.Flash.{
  Machine, flash_sector_size, bootloader_mmap, bootloader_munmap, debug_tx_str,
  bootloader_flash_erase_sector, bootloader_flash_write, erase_from, bootloader_flash_erase_range,
}
use esp32c3_bootloader_rust.Flash.Mapping.{mmap-Frame}
use esp32c3_bootloader_rust.Flash.Stored.{Knows, mmap-Knows}
use esp32c3_bootloader_rust.Sha256.Pool.{Pool}
use esp32c3_bootloader_rust.Image.Segments.{PartitionPos}
use esp32c3_bootloader_rust.Partition.{
  BootloaderState, EspPartitionInfo, esp_partition_magic, parse_table, max_partitions,
  esp_partition_table_verify, bootloader_utility_load_partition_table,
}
use esp32c3_bootloader_rust.Gpio.{bootloader_common_check_long_hold_gpio_level}
use esp32c3_bootloader_rust.FactoryReset.{
  erase_entries, bootloader_common_erase_part_type_data, is_listed, label_text, split_commas,
}
use esp32c3_bootloader_rust.Ota.{
  PartIndex, EspOtaSelectEntry, bootloader_common_read_otadata, store_aborted,
  bootloader_utility_get_selected_boot_partition, esp_ota_img_pending_verify,
}
use esp32c3_bootloader_rust.Ota.Choice.{
  factory_reset_hold, app_test_hold, selected_boot_partition, select_partition_number, is_long_hold,
  reset_reason_core_deep_sleep, nvs_phy_otadata,
}
use Prim.Native.String.{String}

module _ {Chip : Type 0} (env : Platform Chip) (p : Pool) where
  pub record IsSound (m : Machine Chip) : Type 0 where
    pub same_pool : m.pool ≡ p
    pub knows : Knows env m

  -- A change of the chip, the RAM, the mapping or the console.
  pub same-IsSound :
      (m m' : Machine Chip)
      → m'.pool ≡ m.pool
      → m'.enc_checked ≡ m.enc_checked
      → m'.encrypted ≡ m.encrypted
      → m'.current_read_mapping ≡ m.current_read_mapping
      → IsSound m
      → IsSound m'
  same-IsSound m m' e f g n h = record { same_pool = e ∙ h.same_pool; knows = rw (f, g, n) h.knows }

  pub munmap-IsSound : (m : Machine Chip) → IsSound m → IsSound (bootloader_munmap m)
  unfolding bootloader_munmap
  munmap-IsSound m h = same-IsSound m _ refl refl refl refl h

  pub mmap-IsSound :
      (m : Machine Chip) (addr size : ℕ) → IsSound m → IsSound (bootloader_mmap env m addr size).1
  mmap-IsSound m addr size h = record {
    same_pool = (mmap-Frame env m addr size).same_pool ∙ h.same_pool;
    knows = mmap-Knows env m addr size h.knows;
  }

  pub load_partition_table-IsSound :
      (bs : BootloaderState) (m : Machine Chip)
      → IsSound m
      → IsSound (bootloader_utility_load_partition_table env bs m).2
  unfolding bootloader_utility_load_partition_table
  load_partition_table-IsSound bs m h =
      let s = mmap-IsSound m 0x8000 0xC00 h in
      elim (Option-cases (bootloader_mmap env m 0x8000 0xC00).0) [
        | inl e ↦ rw (e, bootloader_utility_load_partition_table) s
        | inr (bytes, e) ↦
            elim (Bool-cases
              (not (esp_partition_table_verify (parse_table max_partitions bytes)).0)) [
                | inl bad ↦
                    rw (e, bootloader_utility_load_partition_table) (rw (bad) (munmap-IsSound _ s))
                | inr good ↦
                    rw (e, bootloader_utility_load_partition_table) (rw (good) (munmap-IsSound _ s))
              ]
      ]

  read_otadata-IsSound :
      (ota_info : PartitionPos) (m : Machine Chip)
      → IsSound m
      → IsSound (bootloader_common_read_otadata env ota_info m).1
  unfolding bootloader_common_read_otadata
  read_otadata-IsSound ota_info m h =
      let s0 = mmap-IsSound m ota_info.offset 12 h in
      let second = add32 ota_info.offset flash_sector_size in
      let unmapped = bootloader_munmap (bootloader_mmap env m ota_info.offset 12).1 in
      let s1 = mmap-IsSound unmapped second 12 (munmap-IsSound _ s0) in
      elim (Bool-cases (ota_info.offset == 0 || ltb ota_info.size (2 * flash_sector_size))) [
        | inl none_there ↦ rw (none_there) h
        | inr there ↦ elim (Option-cases (bootloader_mmap env m ota_info.offset 12).0) [
          | inl e ↦ rw (there) (rw (e, bootloader_common_read_otadata) s0)
          | inr (bytes0, e) ↦ elim (Option-cases (bootloader_mmap env unmapped second 12).0) [
            | inl f ↦ rw (there) (rw (e, f, bootloader_common_read_otadata) s1)
            | inr (bytes1, f) ↦
                rw (there) (rw (e, f, bootloader_common_read_otadata) (munmap-IsSound _ s1))
          ]
        ]
      ]

  store_aborted-IsSound :
      (ota_info : PartitionPos) (i : ℕ) (entry : EspOtaSelectEntry) (m : Machine Chip)
      → IsSound m
      → IsSound (store_aborted env ota_info i entry m)
  unfolding store_aborted bootloader_flash_erase_sector bootloader_flash_write
  store_aborted-IsSound ota_info i entry m h =
      let offset = add32 ota_info.offset (flash_sector_size * i) in
      elim (Bool-cases (entry.ota_state == esp_ota_img_pending_verify)) [
        | inl pending ↦
            elim (Bool-cases (env.spiflash_erase_sector m.chip (offset / flash_sector_size)).0) [
              | inl ok ↦ rw (pending, ok) (same-IsSound m _ refl refl refl refl h)
              | inr ko ↦ rw (pending, ko) (same-IsSound m _ refl refl refl refl h)
            ]
        | inr other ↦ rw (other) h
      ]

  pub selected-IsSound :
      (bs : BootloaderState) (m : Machine Chip)
      → IsSound m
      → IsSound (bootloader_utility_get_selected_boot_partition env bs m).1
  unfolding bootloader_utility_get_selected_boot_partition
  selected-IsSound bs m h =
      let s = read_otadata-IsSound bs.ota_info m h in
      elim (Bool-cases (bs.ota_info.size == 0)) [
        | inl no_data ↦ rw (no_data) h
        | inr there ↦ elim (Option-cases (bootloader_common_read_otadata env bs.ota_info m).0) [
          | inl e ↦ rw (there) (rw (e, bootloader_utility_get_selected_boot_partition) s)
          | inr (two, e) ↦ rw (there) (
              rw (e, bootloader_utility_get_selected_boot_partition)
                (store_aborted-IsSound bs.ota_info 1 two.entry1 _
                  (store_aborted-IsSound bs.ota_info 0 two.entry0 _ s)))
        ]
      ]
