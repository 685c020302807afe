-- ===== src/Start/Tests.antt =====
-- A start whose input asks for the boot.
use esp32c3_bootloader_rust.Common.{ℕ, ◌≡◌, refl, List, [], ◌∷◌, ◌++◌, false, some, inl}
use esp32c3_bootloader_rust.Board.{keyboard}
use esp32c3_bootloader_rust.Flash.{Machine}
use esp32c3_bootloader_rust.Sha256.Pool.{empty_pool}
use esp32c3_bootloader_rust.Console.{console_rx_byte}
use esp32c3_bootloader_rust.Shell.{countdown}
use esp32c3_bootloader_rust.Shell.Lines.{received, boot_line}
use esp32c3_bootloader_rust.Boot.Handover.{BootEnd}
use esp32c3_bootloader_rust.Boot.Verified.{IsVerified}
use esp32c3_bootloader_rust.Boot.Outcome.{searched_chip}
use esp32c3_bootloader_rust.Init.{bootloader_init}
use esp32c3_bootloader_rust.Init.Clock.{bootloader_clock_configure}
use esp32c3_bootloader_rust.Regs.{reg_set_bit, reg_clr_bit, reg_set_bits, reg_has, spin}
use esp32c3_bootloader_rust.Spi.{
  bootloader_enable_wp, read_flash_config_from_header, bootloader_flash_get_spi_mode,
  bootloader_read_flash_id, spi_flash_resume,
}
use esp32c3_bootloader_rust.Spi.Vendor.{
  bootloader_init_spi_flash, esp_rom_efuse_get_flash_gpio_info,
}
use esp32c3_bootloader_rust.Start.{rust_start}
use esp32c3_bootloader_rust.Start.Paths.{started, shelled, rust_start-IsVerified}

-- A key that opens the shell, an empty line and the command.
abbrev keys : List ℕ
keys = b'x' ∷ 13 ∷ b'b' ∷ b'o' ∷ b'o' ∷ b't' ∷ 13 ∷ []

abbrev machine : Machine (List ℕ)
machine = record {
  chip = keys;
  enc_checked = false;
  encrypted = false;
  mapped = false;
  current_mapped_size = 0;
  current_read_mapping = 0xffff_ffff;
  cache_calls = [];
  pool = empty_pool;
  ram = λ a. 0;
  console = [];
}

delivered :
    received keyboard 6 (countdown keyboard 50 (started keyboard machine).chip).1
    ≡ [] ++ (boot_line ++ [])
unfolding received keyboard countdown console_rx_byte bootloader_init reg_set_bit reg_clr_bit
    bootloader_init_spi_flash bootloader_enable_wp spin reg_has read_flash_config_from_header
    bootloader_flash_get_spi_mode bootloader_read_flash_id spi_flash_resume
    esp_rom_efuse_get_flash_gpio_info bootloader_clock_configure reg_set_bits
delivered = refl

-- The machine after its six polls.
abbrev polled : Machine (List ℕ)
polled = shelled keyboard 6 machine

rust_start-IsVerified_example :
    (e : BootEnd (List ℕ)) × (rust_start keyboard 6 machine ≡ some e)
    × IsVerified keyboard (searched_chip keyboard polled) e
rust_start-IsVerified_example =
    rust_start-IsVerified keyboard 6 machine [] [] delivered
      (record { used_size = refl; contexts_size = refl; free = refl }) (inl refl, refl)
