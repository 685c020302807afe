-- ===== src/Gpio/Tests.antt =====
-- A pin that is held.
use esp32c3_bootloader_rust.Common.{◌≡◌, ◌↔◌, ◌≢◌, ◌*◌, ◌%◌, ◌^◌, arith, All, false}
use esp32c3_bootloader_rust.Board.{registers}
use esp32c3_bootloader_rust.Gpio.{
  long_hold, not_hold, configure_pin, gpio_ll_get_level, samples,
  bootloader_common_check_long_hold_gpio_level, check_long_hold_iff,
}

-- All pins are low.
check_long_hold_iff_example :
    let c1 = configure_pin registers 9 (λ a. 0) in
    let hold = (bootloader_common_check_long_hold_gpio_level registers 9 1 false (λ a. 0)).0 in
    ((hold ≡ long_hold) ↔ (
      (gpio_ll_get_level registers 9 c1 ≡ false)
      × All (λ l. l ≡ false) (samples registers (1 * 1000 % 2 ^ 32) 9 c1)))
    × ((hold ≡ not_hold) ↔ (gpio_ll_get_level registers 9 c1 ≢ false))
check_long_hold_iff_example = check_long_hold_iff registers 9 1 false (λ a. 0) (omega arith)
