-- ===== src/Init/Clock.antt =====
-- The CPU clock: `bootloader_clock_configure` of src/init.rs and the clock functions of src/rom.rs.
use esp32c3_bootloader_rust.Common.{ℕ, ◌||◌, not, if◌then◌else◌, ltb, ◌==◌}
use esp32c3_bootloader_rust.Platform.{Platform, output_tx_wait_idle}

abbrev pub cpu_clk_freq_mhz_btld : ℕ
cpu_clk_freq_mhz_btld = 80

abbrev pub apb_clk_freq : ℕ
apb_clk_freq = 80_000_000

abbrev pub reset_reason_cpu0_sw : ℕ
reset_reason_cpu0_sw = 0x0C

-- `SOC_RTC_SLOW_CLK_SRC_RC_SLOW`, `SOC_RTC_FAST_CLK_SRC_DEFAULT` and the two invalid sources
abbrev pub clk_src_default : ℕ
clk_src_default = 1

abbrev pub clk_src_invalid : ℕ
clk_src_invalid = 0

unfoldable pub rtc_clk_apb_freq_get : ℕ
rtc_clk_apb_freq_get = 40_000_000

unfoldable pub rtc_clk_slow_src_get : ℕ
rtc_clk_slow_src_get = clk_src_default

unfoldable pub rtc_clk_fast_src_get : ℕ
rtc_clk_fast_src_get = clk_src_default

pub record RtcClkConfig : Type 0 where
  pub cpu_freq_mhz : ℕ
  pub slow_clk_src : ℕ
  pub fast_clk_src : ℕ

abbrev pub default_config : RtcClkConfig
default_config = record {
  cpu_freq_mhz = cpu_clk_freq_mhz_btld;
  slow_clk_src = clk_src_default;
  fast_clk_src = clk_src_default;
}

-- The configuration of `bootloader_clock_configure`, with the sources that are read.
unfoldable pub clock_config : RtcClkConfig
unfolding rtc_clk_slow_src_get rtc_clk_fast_src_get
clock_config = record default_config {
  cpu_freq_mhz = cpu_clk_freq_mhz_btld;
  slow_clk_src =
      if rtc_clk_slow_src_get == clk_src_invalid then clk_src_default else rtc_clk_slow_src_get;
  fast_clk_src =
      if rtc_clk_fast_src_get == clk_src_invalid then clk_src_default else rtc_clk_fast_src_get;
}

-- The configuration is not used: the ROM's clock is kept.
unfoldable pub rtc_clk_init : {Chip : Type 0} → RtcClkConfig → Chip → Chip
rtc_clk_init cfg c = c

module _ {Chip : Type 0} (env : Platform Chip) where
  unfoldable pub bootloader_clock_configure : Chip → Chip
  unfolding rtc_clk_init clock_config rtc_clk_apb_freq_get
  bootloader_clock_configure c =
      let idle = env.rom_call c (output_tx_wait_idle 0) in
      if not (env.reset_reason == reset_reason_cpu0_sw) || ltb rtc_clk_apb_freq_get apb_clk_freq
      then rtc_clk_init clock_config idle
      else idle
