-- ===== src/Boot/DeepSleep.antt =====
-- The boot from deep sleep of src/utility.rs, which takes the partition from the retain memory and
-- does not verify the image.
use esp32c3_bootloader_rust.Common.{if◌then◌else◌, not, ◌==◌}
use esp32c3_bootloader_rust.Platform.{Platform, cache_disable_icache}
use esp32c3_bootloader_rust.Flash.{Machine}
use esp32c3_bootloader_rust.Image.{zeroed}
use esp32c3_bootloader_rust.Image.Process.{bootloader_load_image_no_verify}
use esp32c3_bootloader_rust.Retain.{retain_partition, is_rtc_retain_mem_valid}
use esp32c3_bootloader_rust.Ota.Choice.{reset_reason_core_deep_sleep}
use esp32c3_bootloader_rust.Boot.Handover.{BootEnd, load_image}

-- The application is resumed, or the normal boot goes on.
pub data Wake (Chip : Type 0) : Type 0 where
  resumed : BootEnd Chip → Wake Chip
  normal : Machine Chip → Wake Chip

module _ {Chip : Type 0} (env : Platform Chip) where
  unfoldable pub bootloader_utility_load_boot_image_from_deep_sleep : Machine Chip → Wake Chip
  bootloader_utility_load_boot_image_from_deep_sleep m =
      let partition = retain_partition m.ram in
      let (ok, image_data, m1) = bootloader_load_image_no_verify env partition zeroed m in
      let disabled = record m1 { chip = env.rom_call m1.chip cache_disable_icache } in
      if not (env.reset_reason == reset_reason_core_deep_sleep)
      then normal m
      else if not (is_rtc_retain_mem_valid m.ram)
      then normal m
      else if partition.offset == 0
      then normal m
      else if ok
      then resumed (load_image env image_data disabled)
      else normal m1
