-- ===== src/Efuse.antt =====
-- Fields of the eFuse and queries of clocks and revisions of src/soc.rs, src/rom.rs and src/flash.rs
-- that the models of the boot path do not name, and how two fields of one eFuse word relate.
mod Tests
use esp32c3_bootloader_rust.Common.{
  ℕ, ◌+◌, ◌*◌, ◌/◌, ◌%◌, ◌^◌, ◌≡◌, ap, arith, Bool, false, leb, ◌==◌,
}
use esp32c3_bootloader_rust.Platform.{
  Platform, efuse_hal_get_disable_wafer_version_major, efuse_get_secure_version,
}

module _ {Chip : Type 0} (env : Platform Chip) where
  unfoldable pub efuse_hal_blk_version : ℕ
  efuse_hal_blk_version =
      let word = env.efuse 0x184 in
      let major = word % 4 in let minor = word / 2 ^ 2 % 4 in major * 100 + minor

  -- Read from the first eFuse register.
  unfoldable pub esp_rom_efuse_get_flash_wp_gpio : ℕ
  esp_rom_efuse_get_flash_wp_gpio = env.efuse 0x000 / 2 ^ 14 % 2 ^ 6

abbrev pub efuse_hal_get_disable_blk_version_major : Bool
efuse_hal_get_disable_blk_version_major = false

unfoldable pub esp_chip_rev_above : ℕ → ℕ → Bool
esp_chip_rev_above revision compare = leb compare revision

unfoldable pub esp_efuse_blk_rev_above : ℕ → ℕ → Bool
esp_efuse_blk_rev_above revision compare = leb compare revision

abbrev pub rtc_clk_slow_freq_get_hz : ℕ
rtc_clk_slow_freq_get_hz = 150000

abbrev pub rtc_clk_32k_enabled : Bool
rtc_clk_32k_enabled = false

abbrev pub bootloader_flash_is_octal_mode_enabled : Bool
bootloader_flash_is_octal_mode_enabled = false

-- The flag that switches the check of the major wafer version off is bit 5 of the secure version
-- of the anti-rollback check: both are read from the same eFuse word, and they overlap.
pub disable_wafer_version_major-secure_version :
    {Chip : Type 0} (env : Platform Chip)
    → efuse_hal_get_disable_wafer_version_major env
      ≡ (efuse_get_secure_version env / 2 ^ 5 % 2 == 1)
unfolding efuse_hal_get_disable_wafer_version_major efuse_get_secure_version
disable_wafer_version_major-secure_version env = ap (λ b. b == 1) (omega arith)
