-- ===== src/Boot/Sound/Choice.antt =====
-- The choice of a partition, with what a held pin asks for, takes no SHA-256 context either.
use esp32c3_bootloader_rust.Common.{
  ℕ, zero, suc, ◌+◌, refl, List, [], ◌∷◌, Bool, true, false, not, ◌&&◌, Bool-cases, Option-cases,
  inl, inr, none, Option, if◌then◌else◌, ◌==◌,
}
use esp32c3_bootloader_rust.Platform.{Platform}
use esp32c3_bootloader_rust.Flash.{
  Machine, bootloader_mmap, debug_tx_str, bootloader_flash_erase_sector, erase_from,
  bootloader_flash_erase_range,
}
use esp32c3_bootloader_rust.Sha256.Pool.{Pool}
use esp32c3_bootloader_rust.Partition.{
  BootloaderState, EspPartitionInfo, esp_partition_magic, parse_table, max_partitions,
  bootloader_utility_load_partition_table,
}
use esp32c3_bootloader_rust.Gpio.{bootloader_common_check_long_hold_gpio_level}
use esp32c3_bootloader_rust.FactoryReset.{
  erase_entries, bootloader_common_erase_part_type_data, is_listed, label_text, split_commas,
}
use esp32c3_bootloader_rust.Ota.{PartIndex, bootloader_utility_get_selected_boot_partition}
use esp32c3_bootloader_rust.Ota.Choice.{
  factory_reset_hold, app_test_hold, selected_boot_partition, select_partition_number, is_long_hold,
  reset_reason_core_deep_sleep, nvs_phy_otadata,
}
use Prim.Native.String.{String}
use esp32c3_bootloader_rust.Boot.Sound.{
  IsSound, same-IsSound, mmap-IsSound, munmap-IsSound, load_partition_table-IsSound,
  selected-IsSound,
}

module _ {Chip : Type 0} (env : Platform Chip) (p : Pool) where
  erase_from-IsSound :
      (n sector : ℕ) (m : Machine Chip)
      → IsSound env p m
      → IsSound env p (erase_from env n sector m).1
  unfolding erase_from bootloader_flash_erase_sector
  erase_from-IsSound zero sector m h = h
  erase_from-IsSound (suc n) sector m h =
      let s =
        same-IsSound env p m (bootloader_flash_erase_sector env m sector).1 refl refl refl refl h in
      elim (Bool-cases (env.spiflash_erase_sector m.chip sector).0) [
        | inl ok ↦ rw (ok) (erase_from-IsSound n (sector + 1) _ s)
        | inr ko ↦ rw (ko) s
      ]

  erase_entries-IsSound :
      (labels : List ℕ) (do_erase : Bool) (entries : List EspPartitionInfo) (m : Machine Chip)
      → IsSound env p m
      → IsSound env p (erase_entries env labels do_erase entries m).1
  unfolding erase_entries bootloader_flash_erase_range
  erase_entries-IsSound labels do_erase [] m h = h
  erase_entries-IsSound labels do_erase (entry ∷ entries) m h =
      let found = entry.type_ == 0x01 && is_listed (label_text entry.label) (split_commas labels) in
      let s = erase_from-IsSound _ _ m h in
      elim (Bool-cases (not (entry.magic == esp_partition_magic))) [
        | inl stop ↦ rw (stop) h
        | inr go_on ↦ elim (Bool-cases (found && do_erase)) [
          | inl erase ↦
              rw (go_on)
                (rw (erase, erase_entries) (erase_entries-IsSound labels do_erase entries _ s))
          | inr keep ↦
              rw (go_on)
                (rw (keep, erase_entries) (erase_entries-IsSound labels do_erase entries m h))
        ]
      ]

  erase_part_type_data-IsSound :
      (labels : List ℕ) (do_erase : Bool) (m : Machine Chip)
      → IsSound env p m
      → IsSound env p (bootloader_common_erase_part_type_data env labels do_erase m).1
  unfolding bootloader_common_erase_part_type_data
  erase_part_type_data-IsSound labels do_erase m h =
      let s = mmap-IsSound env p m 0x8000 0xC00 h in
      elim (Option-cases (bootloader_mmap env m 0x8000 0xC00).0) [
        | inl e ↦ rw (e, bootloader_common_erase_part_type_data) s
        | inr (bytes, e) ↦
            rw (e, bootloader_common_erase_part_type_data)
              (munmap-IsSound env p _
                (erase_entries-IsSound labels do_erase (parse_table max_partitions bytes) _ s))
      ]

  factory_reset_hold-IsSound :
      (bs : BootloaderState) (m : Machine Chip)
      → IsSound env p m
      → IsSound env p (factory_reset_hold env bs m).1
  unfolding factory_reset_hold
  factory_reset_hold-IsSound bs m h =
      let (hold, chip) = bootloader_common_check_long_hold_gpio_level env 9 5 false m.chip in
      let held = same-IsSound env p m (record m { chip = chip }) refl refl refl refl h in
      elim (Bool-cases (is_long_hold hold)) [
        | inl long ↦ rw (long) (
            selected-IsSound env p bs _ (
              same-IsSound env p _ _ refl refl refl refl
                (erase_part_type_data-IsSound nvs_phy_otadata true _ held)))
        | inr short ↦ rw (short) held
      ]

  app_test_hold-IsSound :
      (bs : BootloaderState) (m : Machine Chip)
      → IsSound env p m
      → IsSound env p (app_test_hold env bs m).1
  unfolding app_test_hold
  app_test_hold-IsSound bs m h =
      let (hold, chip) = bootloader_common_check_long_hold_gpio_level env 8 5 false m.chip in
      let held = same-IsSound env p m (record m { chip = chip }) refl refl refl refl h in
      elim (Bool-cases (is_long_hold hold && not (bs.test.offset == 0))) [
        | inl long ↦ rw (long) held
        | inr short ↦ rw (short) held
      ]

  selected_boot_partition-IsSound :
      (bs : BootloaderState) (m : Machine Chip)
      → IsSound env p m
      → IsSound env p (selected_boot_partition env bs m).1
  unfolding selected_boot_partition
  selected_boot_partition-IsSound bs m h =
      let m1 = (bootloader_utility_get_selected_boot_partition env bs m).1 in
      let reset_by =
        if env.feature_factory_reset then factory_reset_hold env bs m1 else (none, m1) in
      let test_by =
        if env.feature_app_test then app_test_hold env bs reset_by.1 else (none, reset_by.1) in
      let s1 = selected-IsSound env p bs m h in
      let s2 : IsSound env p reset_by.1 =
        by_feature env.feature_factory_reset _ m1 (factory_reset_hold-IsSound bs m1 s1) s1 in
      let s3 : IsSound env p test_by.1 =
        by_feature env.feature_app_test _ reset_by.1 (app_test_hold-IsSound bs _ s2) s2 in
      elim (Bool-cases (env.reset_reason == reset_reason_core_deep_sleep)) [
        | inl woken ↦ rw (woken) s1
        | inr other ↦ elim (Option-cases reset_by.0) [
          | inl e ↦ elim (Option-cases test_by.0) [
            | inl f ↦
                rw (other) (rw (e, selected_boot_partition) (rw (f, selected_boot_partition) s3))
            | inr (index, f) ↦
                rw (other) (rw (e, selected_boot_partition) (rw (f, selected_boot_partition) s3))
          ]
          | inr (index, e) ↦ rw (other) (rw (e, selected_boot_partition) s2)
        ]
      ]
    where
      by_feature :
          (on : Bool) (held : Option PartIndex × Machine Chip) (m0 : Machine Chip)
          → IsSound env p held.1
          → IsSound env p m0
          → IsSound env p (if on then held else (none, m0)).1
      by_feature true held m0 s t = s
      by_feature false held m0 s t = t

  said : (tag : String) (m : Machine Chip) → IsSound env p m → IsSound env p (debug_tx_str tag m)
  said tag m h = same-IsSound env p m _ refl refl refl refl h

  pub select_partition_number-IsSound :
      (bs : BootloaderState) (m : Machine Chip)
      → IsSound env p m
      → IsSound env p (select_partition_number env bs m).2
  unfolding select_partition_number
  select_partition_number-IsSound bs m h =
      let (ok, bs', m1) = bootloader_utility_load_partition_table env bs (debug_tx_str "[P]" m) in
      let s = load_partition_table-IsSound env p bs _ (said "[P]" m h) in
      elim (Bool-cases ok) [
        | inl loaded ↦ rw (loaded) (selected_boot_partition-IsSound bs' _ (said "[Q]" m1 s))
        | inr bad ↦ rw (bad) (said "[p]" m1 s)
      ]
