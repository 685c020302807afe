-- ===== src/Retain/Tests.antt =====
-- A factory reset recorded in a RAM of zeros.
use esp32c3_bootloader_rust.Common.{◌≡◌, ◌+◌, inr, refl, arith, false}
use esp32c3_bootloader_rust.Crc.{esp_rom_crc32_le}
use esp32c3_bootloader_rust.Retain.{
  rtc_retain_mem_addr, ram_bytes, retain_crc, crc32_retain_mem, is_rtc_retain_mem_valid,
  set_rtc_retain_mem_factory_reset_state,
}
use esp32c3_bootloader_rust.Retain.Update.{recorded, set_factory_reset_state-recorded}

-- The record of zeros is not valid.
zeros_invalid : is_rtc_retain_mem_valid (λ a. 0) ≡ false
unfolding is_rtc_retain_mem_valid crc32_retain_mem ram_bytes esp_rom_crc32_le
zeros_invalid = refl

set_factory_reset_state-recorded_example :
    let after = set_rtc_retain_mem_factory_reset_state (λ a. 0) in
    (after (rtc_retain_mem_addr + 16) ≡ recorded (λ a. 0) (rtc_retain_mem_addr + 16))
    × (retain_crc after ≡ crc32_retain_mem after)
set_factory_reset_state-recorded_example =
    set_factory_reset_state-recorded (λ a. 0) (rtc_retain_mem_addr + 16) (λ a. omega arith)
      (inr (omega arith))
