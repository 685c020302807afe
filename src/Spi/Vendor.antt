-- ===== src/Spi/Vendor.antt =====
-- The part of src/flash.rs that knows the flash vendors: unlocking, quad mode, timing, and the
-- set-up of the SPI flash at boot.
use esp32c3_bootloader_rust.Common.{
  ℕ, zero, suc, ◌+◌, ◌*◌, ◌/◌, ◌%◌, ◌^◌, List, [], ◌∷◌, Bool, true, false, ◌||◌, not, if◌then◌else◌,
  ltb, leb, ◌==◌, bit_and, bit_or, not32,
}
use esp32c3_bootloader_rust.Platform.{Platform}
use esp32c3_bootloader_rust.Regs.{reg_set_bit, reg_clr_bit, reg_set_bits}
use esp32c3_bootloader_rust.Spi.{
  spi0, spi1, spi_mem_ctrl, spi_mem_ctrl2, spi_mem_clock, SpiFlashReadMode, qio, qout,
  bootloader_execute_flash_command, command, bootloader_read_flash_id, spi_flash_resume,
  read_flash_config_from_header, bootloader_enable_wp, bootloader_flash_get_spi_mode,
}

-- The status bits that stay set for a vendor: of the first register, and of the second.
unfoldable pub unlocked_status : ℕ → ℕ → ℕ → ℕ × ℕ
unlocked_status mf_id sr1 sr2 =
    if mf_id == 0x9D
    then (bit_and sr1 0x87, bit_and sr2 0x02)
    else if mf_id == 0xC2
    then (bit_or (bit_and sr1 0x83) (bit_and sr1 0x40), bit_and sr2 0x02)
    else (bit_and sr1 0x83, bit_and sr2 0x02)

pub record QioChipData : Type 0 where
  pub mf_id : ℕ
  pub qe_sr : ℕ
  pub qe_bit : ℕ
  pub wrsr_cmd : ℕ

abbrev qe_in_second : ℕ → QioChipData
qe_in_second id = record { mf_id = id; qe_sr = 2; qe_bit = 1; wrsr_cmd = 0x31 }

abbrev pub default_probe : QioChipData
default_probe = qe_in_second 0x00

abbrev pub qio_chips : List QioChipData
qio_chips =
    record { mf_id = 0xC2; qe_sr = 1; qe_bit = 6; wrsr_cmd = 0x01 }
    ∷ qe_in_second 0x9D
    ∷ qe_in_second 0xEF
    ∷ qe_in_second 0xC8
    ∷ qe_in_second 0x20
    ∷ qe_in_second 0x4B
    ∷ default_probe
    ∷ []

-- `find(|c| c.mf_id == mf_id).unwrap_or(last)`
unfoldable pub find_chip : ℕ → List QioChipData → QioChipData
find_chip id [] = default_probe
find_chip id (chip ∷ rest) = if chip.mf_id == id then chip else find_chip id rest

module _ {Chip : Type 0} (env : Platform Chip) where
  -- A status register: the low byte of an answer of 8 bits.
  unfoldable pub read_status : ℕ → Chip → ℕ × Chip
  read_status code c =
      let (raw, c1) = bootloader_execute_flash_command env code 0 0 8 c in (raw % 256, c1)

  -- `while execute(CMD_RDSR) & 1 != 0 {}`, followed for `n` rounds. On `hang` the loop has not
  -- ended.
  unfoldable pub wait_written : ℕ → Chip → Chip
  unfolding read_status
  wait_written zero c =
      let (status, c1) = read_status 0x05 c in if not (status % 2 == 0) then env.hang c1 else c1
  wait_written (suc n) c =
      let (status, c1) = read_status 0x05 c in
      let rest = wait_written n c1 in if not (status % 2 == 0) then rest else c1

  unfoldable pub bootloader_flash_unlock : Chip → Chip
  unfolding read_status unlocked_status wait_written
  bootloader_flash_unlock c =
      let (id, c1) = bootloader_read_flash_id env c in
      let (sr1, c2) = read_status 0x05 c1 in
      let (sr2, c3) = read_status 0x35 c2 in
      let (new_sr1, new_sr2) = unlocked_status (id % 256) sr1 sr2 in
      let enabled = command env 0x06 c3 in
      let both =
        bootloader_execute_flash_command env 0x01 (bit_or (new_sr2 * 2 ^ 8) new_sr1) 16 0 enabled in
      let first = bootloader_execute_flash_command env 0x01 new_sr1 8 0 enabled in
      let written = if not (new_sr2 == sr2) then both.1 else first.1 in
      let changed = not (new_sr1 == sr1) || not (new_sr2 == sr2) in
      command env 0x04 (if changed then wait_written env.patience written else c3)

  unfoldable pub bootloader_flash_xmc_startup : Chip → Chip
  unfolding read_status wait_written
  bootloader_flash_xmc_startup c =
      let (id, c1) = bootloader_read_flash_id env c in
      let (sr2, c2) = read_status 0x35 c1 in
      let enabled = command env 0x06 c2 in
      let written = (bootloader_execute_flash_command env 0x31 (bit_or sr2 0x02) 8 0 enabled).1 in
      let qe_set = not (bit_and sr2 0x02 == 0) in
      if not (id % 256 == 0x20)
      then c1
      else command env 0x04 (if not qe_set then wait_written env.patience written else c2)

  -- `esp_rom_gpio_pad_set_drv`
  unfoldable pub esp_rom_gpio_pad_set_drv : ℕ → ℕ → Chip → Chip
  esp_rom_gpio_pad_set_drv gpio_num drv c =
      let reg : ℕ = 0x6000_4008 + gpio_num * 4 in
      let new_val = bit_or (bit_and (env.reg_read c reg) (not32 3)) (drv % 4) in
      if ltb 21 gpio_num then c else env.reg_write c reg new_val

  -- `esp_rom_efuse_get_flash_gpio_info`
  unfoldable pub esp_rom_efuse_get_flash_gpio_info : ℕ
  esp_rom_efuse_get_flash_gpio_info = env.efuse 0 / 2 ^ 20 % 2 ^ 6

  -- The pins CLK, MISO, MOSI, CS0, HD and WP.
  unfoldable pub bootloader_configure_spi_pins : ℕ → Chip → Chip
  unfolding esp_rom_gpio_pad_set_drv
  bootloader_configure_spi_pins drv c =
      let set = λ (pin : ℕ) (c : Chip). esp_rom_gpio_pad_set_drv pin drv c in
      if esp_rom_efuse_get_flash_gpio_info == 0
      then set 14 (set 15 (set 10 (set 11 (set 13 (set 12 c)))))
      else c

  -- `SPI_MEM_FDUMMY_OUT | SPI_MEM_D_POL | SPI_MEM_Q_POL`
  unfoldable pub bootloader_flash_set_dummy_out : Chip → Chip
  bootloader_flash_set_dummy_out c =
      reg_set_bit env (spi1 spi_mem_ctrl) 0x1A (reg_set_bit env (spi0 spi_mem_ctrl) 0x1A c)

  unfoldable pub bootloader_flash_cs_timing_config : Chip → Chip
  bootloader_flash_cs_timing_config c =
      let both_mask : ℕ = 0x003F_3F00 in
      let val : ℕ = 2 ^ 16 in
      let set = λ (reg : ℕ) (c : Chip).
        env.reg_write c reg (bit_or (bit_and (env.reg_read c reg) (not32 both_mask)) val) in
      set (spi1 spi_mem_ctrl2) (set (spi0 spi_mem_ctrl2) c)

  -- The clock dividers N, H and L.
  unfoldable pub set_dividers : ℕ → ℕ → ℕ → Chip → Chip
  set_dividers n h l c =
      let reg : ℕ = spi1 spi_mem_clock in
      let c1 = reg_clr_bit env reg (2 ^ 31) c in
      let c2 = reg_set_bits env reg n 0x3F 18 c1 in
      let c3 = reg_set_bits env reg h 0x3F 12 c2 in reg_set_bits env reg l 0x3F 6 c3

  unfoldable pub bootloader_flash_clock_config : ℕ → Chip → Chip
  unfolding set_dividers
  bootloader_flash_clock_config spi_speed c =
      if spi_speed == 1
      then reg_set_bit env (spi1 spi_mem_clock) (2 ^ 31) c
      else if spi_speed == 2
      then set_dividers 1 0 0 c
      else if spi_speed == 3
      then set_dividers 2 1 1 c
      else if spi_speed == 4
      then set_dividers 3 1 1 c
      else c

  unfoldable pub bootloader_flash_update_id : Chip → Chip
  bootloader_flash_update_id c =
      let (id, c1) = bootloader_read_flash_id env c in env.set_flashchip_device_id c1 id

  unfoldable pub bootloader_flash_update_size : ℕ → Chip → Chip
  bootloader_flash_update_size size c = env.set_flashchip_size c size

  unfoldable pub bootloader_enable_qio_mode : Chip → Chip
  unfolding read_status wait_written find_chip
  bootloader_enable_qio_mode c =
      let (id, c1) = bootloader_read_flash_id env c in
      let chip = find_chip (id % 256) qio_chips in
      let (sr, c2) = read_status (if chip.qe_sr == 1 then 0x05 else 0x35) c1 in
      let qe_mask = 2 ^ chip.qe_bit in
      let written =
        (bootloader_execute_flash_command env chip.wrsr_cmd (bit_or sr qe_mask) 8 0
          (command env 0x06 c2)).1 in
      let c3 = if bit_and sr qe_mask == 0 then wait_written env.patience written else c2 in
      let quad = λ (mask : ℕ) (c : Chip).
        reg_set_bit env (spi1 spi_mem_ctrl) mask (reg_set_bit env (spi0 spi_mem_ctrl) mask c) in
      command env 0x04 (quad (2 ^ 20) (quad (2 ^ 24) c3))

  abbrev is_quad : SpiFlashReadMode → Bool
  is_quad qio = true
  is_quad qout = true
  is_quad _ = false

  -- The flash size that the header names.
  unfoldable pub update_config : Chip → Chip
  unfolding bootloader_flash_update_size
  update_config c =
      let (magic, spi_mode, spi_speed_size, c1) = read_flash_config_from_header env c in
      let flash_size = spi_speed_size / 16 in
      let chip_size = 0x10_0000 * 2 ^ flash_size in
      let c2 = bootloader_flash_update_size chip_size c1 in
      let c3 =
        env.spiflash_config_param c2 (env.flashchip_device_id c2) chip_size 65536 4096 256 0xffff in
      if leb flash_size 4 then c3 else c1

  unfoldable pub bootloader_init_spi_flash : Chip → Chip
  unfolding bootloader_configure_spi_pins update_config bootloader_enable_qio_mode
      bootloader_flash_unlock
  bootloader_init_spi_flash c =
      let unlocked =
        bootloader_flash_unlock (spi_flash_resume env (bootloader_configure_spi_pins 2 c)) in
      let quad = bootloader_enable_qio_mode unlocked in
      let in_mode =
        if is_quad (bootloader_flash_get_spi_mode env unlocked) then quad else unlocked in
      bootloader_enable_wp env (update_config in_mode)
