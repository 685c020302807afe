-- ===== src/Init.antt =====
-- The hardware initialisation of src/init.rs, and the clock functions of src/rom.rs that it calls.
-- What is printed is kept in the machine's console; the registers are the chip's.
pub mod Clock
pub mod Watchdog
mod Tests
use esp32c3_bootloader_rust.Common.{
  ℕ, zero, suc, ◌+◌, ◌-◌, ◌*◌, ◌/◌, ◌%◌, ◌^◌, Bool, true, false, ◌&&◌, ◌||◌, not, if◌then◌else◌,
  ltb, leb, ◌==◌, bit_or,
}
use esp32c3_bootloader_rust.Platform.{Platform, output_tx_wait_idle}
use esp32c3_bootloader_rust.Regs.{reg_set_bit, reg_clr_bit, reg_set_bits, reg_has}
use esp32c3_bootloader_rust.Flash.{Machine, debug_tx_str}
use esp32c3_bootloader_rust.Spi.Vendor.{bootloader_init_spi_flash}
use esp32c3_bootloader_rust.Init.Clock.{bootloader_clock_configure}

abbrev pub system_cpu_peri_clk_en_reg : ℕ
system_cpu_peri_clk_en_reg = 0x600C_0000

abbrev pub system_cpu_peri_rst_en_reg : ℕ
system_cpu_peri_rst_en_reg = 0x600C_0004

abbrev pub timg_wdtconfig0_reg : ℕ
timg_wdtconfig0_reg = 0x6001_F048

abbrev pub timg_wdtfeed_reg : ℕ
timg_wdtfeed_reg = 0x6001_F060

abbrev pub timg_wdtwprotect_reg : ℕ
timg_wdtwprotect_reg = 0x6001_F064

abbrev pub rtc_cntl_int_clr_reg : ℕ
rtc_cntl_int_clr_reg = 0x6000_8010

abbrev pub rtc_cntl_fib_sel_reg : ℕ
rtc_cntl_fib_sel_reg = 0x6000_8014

abbrev pub rtc_cntl_ana_conf_reg : ℕ
rtc_cntl_ana_conf_reg = 0x6000_8034

abbrev pub rtc_cntl_swd_wprotect_reg : ℕ
rtc_cntl_swd_wprotect_reg = 0x6000_80AC

abbrev pub rtc_cntl_swd_conf_reg : ℕ
rtc_cntl_swd_conf_reg = 0x6000_80B0

abbrev pub rtc_cntl_i2c_mst_reg : ℕ
rtc_cntl_i2c_mst_reg = 0x6000_80BC

abbrev pub uart_int_clr_reg : ℕ
uart_int_clr_reg = 0x6000_0010

abbrev pub uart_clkdiv_reg : ℕ
uart_clkdiv_reg = 0x6000_0014

abbrev pub uart_conf0_reg : ℕ
uart_conf0_reg = 0x6000_0020

abbrev pub assist_debug_core_0_rcd_en_reg : ℕ
assist_debug_core_0_rcd_en_reg = 0x600C_E000

abbrev apb_clk_hz : ℕ
apb_clk_hz = 40_000_000

-- The divider of the baud rate 115200, in sixteenths.
abbrev pub clkdiv_full : ℕ
clkdiv_full = apb_clk_hz * 16 / 115_200

module _ {Chip : Type 0} (env : Platform Chip) where
  -- A change of the chip alone.
  abbrev on_chip : (Chip → Chip) → Machine Chip → Machine Chip
  on_chip f m = record m { chip = f m.chip }

  -- A wait for the I2C master, with `n` rounds left: false when they have run out.
  unfoldable pub i2c_wait : ℕ → Chip → Bool × Chip
  i2c_wait zero c = (false, c)
  i2c_wait (suc n) c = elim (reg_has env rtc_cntl_i2c_mst_reg (2 ^ 15) c) [
    | false ↦ (true, c)
    | true ↦ if n == 0 then (false, c) else i2c_wait n (env.tick c)
  ]

  unfoldable pub reg_i2c_write : ℕ → ℕ → ℕ → Chip → Chip
  unfolding i2c_wait
  reg_i2c_write slave_id reg_addr value c =
      let c1 =
        reg_set_bit env rtc_cntl_i2c_mst_reg (2 ^ 17)
          (reg_set_bit env rtc_cntl_i2c_mst_reg (2 ^ 16) c) in
      let (ready, c2) = i2c_wait 100_000 c1 in
      let addr = bit_or (slave_id * 2 ^ 3 % 2 ^ 32) reg_addr in
      let c3 = reg_set_bits env rtc_cntl_i2c_mst_reg addr 0x7F 8 c2 in
      let c4 = reg_set_bits env rtc_cntl_i2c_mst_reg value 0xFF 0 c3 in
      let c5 = reg_set_bit env rtc_cntl_i2c_mst_reg (2 ^ 15) c4 in
      elim ready [ false ↦ c2 | true ↦ (i2c_wait 100_000 c5).1 ]

  unfoldable pub chip_revision : ℕ
  chip_revision = env.efuse 0x044 / 2 ^ 24 % 16

  unfoldable pub bootloader_console_init : Chip → Chip
  bootloader_console_init c =
      let c1 = reg_set_bit env system_cpu_peri_clk_en_reg (2 ^ 2) c in
      let c2 = reg_clr_bit env system_cpu_peri_rst_en_reg (2 ^ 2) c1 in
      let c3 =
        env.reg_write c2 uart_clkdiv_reg
          (bit_or (clkdiv_full / 16 % 0x1000) (clkdiv_full % 16 * 2 ^ 12)) in
      let c4 = env.reg_write c3 uart_conf0_reg (bit_or 3 (2 ^ 4)) in
      let c5 = reg_set_bit env uart_conf0_reg (bit_or (2 ^ 16) (2 ^ 17)) c4 in
      let c6 = reg_clr_bit env uart_conf0_reg (bit_or (2 ^ 16) (2 ^ 17)) c5 in
      env.reg_write c6 uart_int_clr_reg 0xFFFF_FFFF

  unfoldable pub bootloader_print_banner : Machine Chip → Machine Chip
  bootloader_print_banner m = debug_tx_str "\r\n" (
      debug_tx_str "SPI Flash Size : 2MB\r\n" (
        debug_tx_str "SPI Mode       : QIO\r\n" (
          debug_tx_str "SPI Speed      : 80MHz\r\n" (
            debug_tx_str "ESP-IDF v5.5.1 2nd stage bootloader (Rust)\r\n"
              (debug_tx_str "\r\n" m)))))

  unfoldable pub bootloader_enable_random : Chip → Chip
  bootloader_enable_random c = reg_set_bit env system_cpu_peri_clk_en_reg (2 ^ 6) c

  unfoldable pub bootloader_config_wdt : Chip → Chip
  bootloader_config_wdt c =
      let unlocked = env.reg_write c timg_wdtwprotect_reg 0x50D8_3AA1 in
      let disabled = reg_clr_bit env timg_wdtconfig0_reg (bit_or (2 ^ 14) (2 ^ 31)) unlocked in
      env.reg_write (env.reg_write disabled timg_wdtfeed_reg 1) timg_wdtwprotect_reg 0

  unfoldable pub bootloader_ana_super_wdt_reset_config : Bool → Chip → Chip
  bootloader_ana_super_wdt_reset_config enable c =
      if enable
      then reg_set_bit env rtc_cntl_fib_sel_reg (2 ^ 31) c
      else reg_clr_bit env rtc_cntl_fib_sel_reg (2 ^ 31) c

  unfoldable pub bootloader_ana_clock_glitch_reset_config : Bool → Chip → Chip
  bootloader_ana_clock_glitch_reset_config enable c =
      if enable
      then reg_set_bit env rtc_cntl_ana_conf_reg (2 ^ 18)
          (reg_set_bit env rtc_cntl_fib_sel_reg (2 ^ 30) c)
      else reg_clr_bit env rtc_cntl_ana_conf_reg (2 ^ 18)
          (reg_clr_bit env rtc_cntl_fib_sel_reg (2 ^ 30) c)

  unfoldable pub bootloader_hardware_init : Chip → Chip
  unfolding reg_i2c_write chip_revision
  bootloader_hardware_init c =
      let bypassed = reg_set_bit env rtc_cntl_ana_conf_reg (2 ^ 18) c in
      if ltb chip_revision 3
      then reg_clr_bit env rtc_cntl_ana_conf_reg (2 ^ 18) (reg_i2c_write 1 0 1 bypassed)
      else c

  unfoldable pub bootloader_ana_reset_config : Chip → Chip
  unfolding chip_revision bootloader_ana_super_wdt_reset_config
      bootloader_ana_clock_glitch_reset_config
  bootloader_ana_reset_config c =
      let c1 =
        bootloader_ana_clock_glitch_reset_config false
          (bootloader_ana_super_wdt_reset_config true c) in
      if leb 3 chip_revision
      then reg_set_bit env rtc_cntl_fib_sel_reg (2 ^ 1)
          (reg_set_bit env rtc_cntl_fib_sel_reg (2 ^ 2) c1)
      else reg_clr_bit env rtc_cntl_fib_sel_reg (2 ^ 1)
          (reg_clr_bit env rtc_cntl_fib_sel_reg (2 ^ 2) c1)

  unfoldable pub bootloader_super_wdt_auto_feed : Chip → Chip
  bootloader_super_wdt_auto_feed c =
      let unlocked = env.reg_write c rtc_cntl_swd_wprotect_reg 0x8F1D_312A in
      let fed = reg_set_bit env rtc_cntl_swd_conf_reg (2 ^ 31) unlocked in
      env.reg_write (reg_set_bit env rtc_cntl_swd_conf_reg (2 ^ 30) fed) rtc_cntl_swd_wprotect_reg 0

  unfoldable pub bootloader_init_mem : Bool
  bootloader_init_mem =
      if ltb env.bss_end env.bss_start
      then false
      else if ltb env.data_end env.data_start
      then false
      else true

  -- `write_bytes(_bss_start, 0, len)`
  unfoldable pub bootloader_clear_bss_section : (ℕ → ℕ) → ℕ → ℕ
  bootloader_clear_bss_section ram a =
      let len = (env.bss_end + 2 ^ 32 - env.bss_start) % 2 ^ 32 in
      if leb env.bss_start a && ltb a (env.bss_start + len) then 0 else ram a

  unfoldable pub bootloader_check_wdt_reset : Chip → Chip
  bootloader_check_wdt_reset c =
      let reason = env.reset_reason in
      let is_wdt =
        reason == 0x0B
        || reason == 0x0C
        || reason == 0x0D
        || reason == 0x08
        || reason == 0x09
        || reason == 0x06 in
      if is_wdt then env.reg_write c rtc_cntl_int_clr_reg 0xFFFF_FFFF else c

  unfoldable pub wdt_reset_cpu0_info_enable : Chip → Chip
  wdt_reset_cpu0_info_enable c =
      reg_set_bit env assist_debug_core_0_rcd_en_reg (bit_or (2 ^ 3) (2 ^ 0)) c

  -- The steps up to the check of the memory layout.
  unfoldable pub early_init : Chip → Chip
  unfolding bootloader_hardware_init bootloader_ana_reset_config bootloader_super_wdt_auto_feed
  early_init c =
      bootloader_super_wdt_auto_feed (bootloader_ana_reset_config (bootloader_hardware_init c))

  unfoldable pub bootloader_init : Machine Chip → Bool × Machine Chip
  unfolding early_init bootloader_init_mem bootloader_console_init bootloader_check_wdt_reset
      bootloader_config_wdt bootloader_enable_random bootloader_print_banner
  bootloader_init m =
      let m1 = on_chip early_init m in
      let m2 = on_chip (λ c. bootloader_console_init (bootloader_clock_configure env c)) m1 in
      let m3 = on_chip (bootloader_init_spi_flash env) (bootloader_print_banner m2) in
      let m4 =
        on_chip
          (λ c. bootloader_enable_random (bootloader_config_wdt (bootloader_check_wdt_reset c)))
          m3 in
      if not bootloader_init_mem then (false, m1) else (true, m4)
