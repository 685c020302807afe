-- ===== src/Ota/Choice.antt =====
-- `select_partition_number` of src/utility.rs: the choice of the OTA data, and the pins that are
-- held to change it.
use esp32c3_bootloader_rust.Common.{
  ℕ, List, [], ◌∷◌, Bool, true, false, ◌&&◌, not, Option, none, some, if◌then◌else◌, ◌==◌,
}
use esp32c3_bootloader_rust.Platform.{Platform}
use esp32c3_bootloader_rust.Flash.{Machine, debug_tx_str}
use esp32c3_bootloader_rust.Gpio.{
  GpioHold, not_hold, short_hold, long_hold, bootloader_common_check_long_hold_gpio_level,
}
use esp32c3_bootloader_rust.Retain.{set_rtc_retain_mem_factory_reset_state}
use esp32c3_bootloader_rust.FactoryReset.{bootloader_common_erase_part_type_data}
use esp32c3_bootloader_rust.Partition.{BootloaderState, bootloader_utility_load_partition_table}
use esp32c3_bootloader_rust.Ota.{
  bootloader_utility_get_selected_boot_partition, PartIndex, invalid_index, test_app_index,
}

abbrev pub reset_reason_core_deep_sleep : ℕ
reset_reason_core_deep_sleep = 0x05

-- "nvs, phy, otadata"
abbrev pub nvs_phy_otadata : List ℕ
nvs_phy_otadata =
    110 ∷ 118 ∷ 115 ∷ 44 ∷ 32 ∷ 112 ∷ 104 ∷ 121 ∷ 44 ∷ 32 ∷ 111 ∷ 116 ∷ 97 ∷ 100 ∷ 97 ∷ 116 ∷ 97
    ∷ []

abbrev pub is_long_hold : GpioHold → Bool
is_long_hold long_hold = true
is_long_hold short_hold = false
is_long_hold not_hold = false

module _ {Chip : Type 0} (env : Platform Chip) where
  -- The block of the feature `factory_reset`: the index that it returns, if it returns.
  unfoldable pub factory_reset_hold :
      BootloaderState → Machine Chip → Option PartIndex × Machine Chip
  unfolding bootloader_utility_get_selected_boot_partition
  factory_reset_hold bs m =
      let (hold, chip) = bootloader_common_check_long_hold_gpio_level env 9 5 false m.chip in
      let held = record m { chip = chip } in
      let (_, m1) = bootloader_common_erase_part_type_data env nvs_phy_otadata true held in
      let m2 = record m1 { ram = set_rtc_retain_mem_factory_reset_state m1.ram } in
      let (index, m3) = bootloader_utility_get_selected_boot_partition env bs m2 in
      if is_long_hold hold then (some index, m3) else (none, held)

  -- The block of the feature `app_test`.
  unfoldable pub app_test_hold : BootloaderState → Machine Chip → Option PartIndex × Machine Chip
  app_test_hold bs m =
      let (hold, chip) = bootloader_common_check_long_hold_gpio_level env 8 5 false m.chip in
      let held = record m { chip = chip } in
      if is_long_hold hold && not (bs.test.offset == 0)
      then (some test_app_index, held)
      else (none, held)

  unfoldable pub selected_boot_partition : BootloaderState → Machine Chip → PartIndex × Machine Chip
  unfolding bootloader_utility_get_selected_boot_partition factory_reset_hold app_test_hold
  selected_boot_partition bs m =
      let (idx, m1) = bootloader_utility_get_selected_boot_partition env bs m in
      let (reset_to, m2) =
        if env.feature_factory_reset then factory_reset_hold bs m1 else (none, m1) in
      let (test_to, m3) = if env.feature_app_test then app_test_hold bs m2 else (none, m2) in
      if env.reset_reason == reset_reason_core_deep_sleep then (idx, m1) else elim reset_to [
        | some index ↦ (index, m2)
        | none ↦ elim test_to [ some index ↦ (index, m3) | none ↦ (idx, m3) ]
      ]

  unfoldable pub select_partition_number :
      BootloaderState → Machine Chip → PartIndex × BootloaderState × Machine Chip
  unfolding selected_boot_partition
  select_partition_number bs m =
      let (ok, bs', m1) = bootloader_utility_load_partition_table env bs (debug_tx_str "[P]" m) in
      let (index, m2) = selected_boot_partition bs' (debug_tx_str "[Q]" m1) in
      if ok then (index, bs', m2) else (invalid_index, bs', debug_tx_str "[p]" m1)
