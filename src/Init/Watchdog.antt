-- ===== src/Init/Watchdog.antt =====
-- The state of the watchdog and of the random number generator after the initialisation.
use esp32c3_bootloader_rust.Common.{
  ℕ, ◌^◌, ◌≤◌, ◌≡◌, refl, ap, ◌∙◌, arith, true, if◌then◌else◌, ◌==◌, ◌&&◌, bit_and, bit_or, not32,
  min, max,
}
use esp32c3_bootloader_rust.Common.Masks.{bit, bit-bit_and, bit-bit_or, bit-lt}
use esp32c3_bootloader_rust.Platform.{Platform}
use esp32c3_bootloader_rust.Regs.{reg_set_bit, reg_clr_bit}
use esp32c3_bootloader_rust.Flash.{Machine}
use esp32c3_bootloader_rust.Init.{
  timg_wdtconfig0_reg, timg_wdtfeed_reg, timg_wdtwprotect_reg, system_cpu_peri_clk_en_reg,
  bootloader_init_mem, bootloader_config_wdt, bootloader_enable_random, bootloader_init,
}

module _ {Chip : Type 0} (env : Platform Chip) where
  -- The register reads back what was written to it last.
  abbrev pub Keeps : ℕ → Type 0
  Keeps b =
      (c : Chip) (a v : ℕ)
      → env.reg_read (env.reg_write c a v) b ≡ (if a == b then v else env.reg_read c b)

  -- The configuration takes a write only while the key stands in the write-protection register.
  abbrev pub Protects : Type 0
  Protects =
      (c : Chip) (a v : ℕ)
      → env.reg_read (env.reg_write c a v) timg_wdtconfig0_reg ≡ (
          if a == timg_wdtconfig0_reg && env.reg_read c timg_wdtwprotect_reg == 0x50D8_3AA1
          then v
          else env.reg_read c timg_wdtconfig0_reg)

  -- Both watchdogs of the timer are off and locked, and bit 6 of the clock register, which
  -- `bootloader_enable_random` takes for the clock of the random numbers, is set.
  abbrev pub IsSettled : Chip → Type 0
  IsSettled c =
      (env.reg_read c timg_wdtwprotect_reg ≡ 0)
      × (bit 31 (env.reg_read c timg_wdtconfig0_reg) ≡ 0)
      × (bit 14 (env.reg_read c timg_wdtconfig0_reg) ≡ 0)
      × (bit 6 (env.reg_read c system_cpu_peri_clk_en_reg) ≡ 1)

  module _ (config : Protects) (lock : Keeps timg_wdtwprotect_reg)
      (clock : Keeps system_cpu_peri_clk_en_reg) where
    -- The mask of the two bits that enable the watchdog.
    abbrev wdt_off : ℕ
    wdt_off = not32 (bit_or (2 ^ 14) (2 ^ 31))

    config_wdt-config :
        (c : Chip)
        → env.reg_read (bootloader_config_wdt env c) timg_wdtconfig0_reg
          ≡ bit_and (env.reg_read c timg_wdtconfig0_reg) wdt_off
    unfolding bootloader_config_wdt reg_clr_bit
    config_wdt-config c =
        let unlocked = env.reg_write c timg_wdtwprotect_reg 0x50D8_3AA1 in
        let v = bit_and (env.reg_read unlocked timg_wdtconfig0_reg) wdt_off in
        let disabled = env.reg_write unlocked timg_wdtconfig0_reg v in
        let fed = env.reg_write disabled timg_wdtfeed_reg 1 in
        ground (
          arith,
          config c timg_wdtwprotect_reg 0x50D8_3AA1,
          lock c timg_wdtwprotect_reg 0x50D8_3AA1,
          config unlocked timg_wdtconfig0_reg v,
          config disabled timg_wdtfeed_reg 1,
          config fed timg_wdtwprotect_reg 0,
        )

    off31 : bit 31 wdt_off ≡ 0
    unfolding bit
    off31 = refl

    off14 : bit 14 wdt_off ≡ 0
    unfolding bit
    off14 = refl

    on6 : bit 6 (2 ^ 6) ≡ 1
    unfolding bit
    on6 = refl

    cleared : (k v : ℕ) → bit k wdt_off ≡ 0 → bit k (bit_and v wdt_off) ≡ 0
    cleared k v e = bit-bit_and k v wdt_off ∙ ap (min (bit k v)) e ∙ omega arith

    enabled : (v : ℕ) → bit 6 (bit_or v (2 ^ 6)) ≡ 1
    enabled v = bit-bit_or 6 v (2 ^ 6) ∙ ap (max (bit 6 v)) on6 ∙ omega (arith, bit-lt 6 v)

    settled : (c : Chip) → IsSettled (bootloader_enable_random env (bootloader_config_wdt env c))
    unfolding bootloader_enable_random bootloader_config_wdt reg_set_bit
    settled c =
        let watchdog = config _ _ _ ∙ config_wdt-config c in
        (
          lock _ _ _ ∙ lock _ _ _,
          ap (bit 31) watchdog ∙ cleared 31 _ off31,
          ap (bit 14) watchdog ∙ cleared 14 _ off14,
          ap (bit 6) (clock _ _ _) ∙ enabled _,
        )

    ordered :
        env.bss_start ≤ env.bss_end → env.data_start ≤ env.data_end → bootloader_init_mem env ≡ true
    unfolding bootloader_init_mem
    ordered h k = ground arith

    -- Where the linker's symbols are in order, the write protection and the clock register keep
    -- what is written to them, and the watchdog's configuration does while it is unlocked, the
    -- initialisation succeeds and leaves the flash-boot watchdog and the timer's watchdog
    -- disabled, their registers locked again, and bit 6 of the clock register set.
    pub bootloader_init-watchdog :
        (m : Machine Chip)
        → env.bss_start ≤ env.bss_end
        → env.data_start ≤ env.data_end
        → let (ok, after) = bootloader_init env m in (ok ≡ true) × IsSettled after.chip
    unfolding bootloader_init
    bootloader_init-watchdog m h k = rw (ordered h k) (refl, settled _)
