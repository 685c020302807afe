-- ===== src/Gpio.antt =====
-- GPIO input: the pad functions of src/rom.rs and the long-hold detection of src/utility.rs.
mod Tests
use esp32c3_bootloader_rust.Common.{
  ℕ, zero, suc, ◌+◌, ◌*◌, ◌/◌, ◌%◌, ◌^◌, ◌≤◌, ◌≡◌, ◌↔◌, refl, arith, List, [], ◌∷◌, Bool, true,
  false, ◌||◌, not, if◌then◌else◌, ltb, leb, ◌==◌, bit_and, bit_or, not32, All, Bool-cases, inl,
  inr, ◌≢◌, sym, ◌∙◌, passes_below, passed,
}
use esp32c3_bootloader_rust.Platform.{Platform, delay_us}

pub data GpioHold : Type 0 where
  not_hold short_hold long_hold : GpioHold

abbrev pub bool_eq : Bool → Bool → Bool
bool_eq true b = b
bool_eq false b = not b

pub bool_eq_iff : (a b : Bool) → (bool_eq a b ≡ true) ↔ (a ≡ b)
bool_eq_iff a b = ground arith

pin_mask : passes_below (λ pin. not (ltb 21 pin || bit_and (2 ^ pin) 0x3F_FFFF == 0)) 22 ≡ true
unfolding passes_below
pin_mask = refl

in_range : (pin : ℕ) → pin ≤ 21 → (ltb 21 pin || bit_and (2 ^ pin) 0x3F_FFFF == 0) ≡ false
in_range pin h = ground (arith, passed _ 22 pin_mask pin (omega arith))

module _ {Chip : Type 0} (env : Platform Chip) where
  unfoldable pub esp_rom_gpio_pad_select_gpio : ℕ → Chip → Chip
  esp_rom_gpio_pad_select_gpio pin c =
      let iomux_reg : ℕ = 0x6000_9000 + pin * 4 in
      if ltb 21 pin
      then c
      else env.reg_write c iomux_reg (bit_and (env.reg_read c iomux_reg) (not32 0x1))

  unfoldable pub esp_rom_gpio_pad_pullup_only : ℕ → Chip → Chip
  esp_rom_gpio_pad_pullup_only pin c =
      let iomux_reg : ℕ = 0x6000_9000 + pin * 4 in
      if ltb 21 pin
      then c
      else env.reg_write c iomux_reg
          (bit_or (bit_and (env.reg_read c iomux_reg) (not32 0x80)) 0x100)

  unfoldable pub gpio_ll_get_level : ℕ → Chip → Bool
  gpio_ll_get_level pin c =
      if ltb 21 pin then false else env.reg_read c 0x6000_403C / 2 ^ pin % 2 == 1

  unfoldable pub gpio_ll_input_enable : ℕ → Chip → Chip
  gpio_ll_input_enable pin c =
      let reg : ℕ = 0x6000_4000 + pin * 4 in
      if ltb 21 pin then c else env.reg_write c reg (bit_or (env.reg_read c reg) (2 ^ 13))

  -- `gpio_read` of src/utility.rs: a pin out of range reads as high.
  unfoldable pub gpio_read : ℕ → Chip → Bool
  gpio_read pin c = if leb 22 pin then true else env.reg_read c 0x6000_403C / 2 ^ pin % 2 == 1

  -- An input with a pull-up.
  unfoldable pub configure_pin : ℕ → Chip → Chip
  configure_pin pin c =
      esp_rom_gpio_pad_pullup_only pin
        (gpio_ll_input_enable pin (esp_rom_gpio_pad_select_gpio pin c))

  -- The polling loop, with `n` rounds left.
  unfoldable pub hold_loop : ℕ → ℕ → Bool → Chip → GpioHold × Chip
  hold_loop zero pin level c = (long_hold, c)
  hold_loop (suc n) pin level c =
      let c1 = env.rom_call c (delay_us 1000) in
      let rest = hold_loop n pin level c1 in
      if bool_eq (gpio_ll_get_level pin c1) level then rest else (short_hold, c1)

  unfoldable pub bootloader_common_check_long_hold_gpio_level :
      ℕ → ℕ → Bool → Chip → GpioHold × Chip
  unfolding hold_loop configure_pin
  bootloader_common_check_long_hold_gpio_level pin delay_sec level c =
      let c1 = configure_pin pin c in
      let held = hold_loop (delay_sec * 1000 % 2 ^ 32) pin level c1 in
      if ltb 21 pin || bit_and (2 ^ pin) 0x3F_FFFF == 0
      then (not_hold, c)
      else if bool_eq (gpio_ll_get_level pin c1) level
      then held
      else (not_hold, c1)

  -- The level at the end of each of `n` further milliseconds.
  pub samples : ℕ → ℕ → Chip → List Bool
  samples zero pin c = []
  samples (suc n) pin c =
      let c1 = env.rom_call c (delay_us 1000) in gpio_ll_get_level pin c1 ∷ samples n pin c1

  hold_loop_iff :
      (n pin : ℕ) (level : Bool) (c : Chip)
      → ((hold_loop n pin level c).0 ≡ long_hold) ↔ All (λ l. l ≡ level) (samples n pin c)
  unfolding hold_loop samples
  hold_loop_iff zero pin level c = ((λ _. tt), (λ _. refl))
  hold_loop_iff (suc n) pin level c =
      let c1 = env.rom_call c (delay_us 1000) in
      let ih = hold_loop_iff n pin level c1 in
      let same = bool_eq_iff (gpio_ll_get_level pin c1) level in
      elim (Bool-cases (bool_eq (gpio_ll_get_level pin c1) level)) [
        | inl held ↦ rw (held, hold_loop) ((λ r. (same.0 held, ih.0 r)), (λ h. ih.1 h.1))
        | inr released ↦
            rw (released, hold_loop)
              ((λ (r : short_hold ≡ long_hold). cc r), (λ h. cc (sym released ∙ same.1 h.0)))
      ]

  hold_loop-ne-not_hold :
      (n pin : ℕ) (level : Bool) (c : Chip) → (hold_loop n pin level c).0 ≢ not_hold
  unfolding hold_loop
  hold_loop-ne-not_hold zero pin level c e = cc e
  hold_loop-ne-not_hold (suc n) pin level c e =
      ground (arith, hold_loop-ne-not_hold n pin level (env.rom_call c (delay_us 1000)))

  -- For a pin of the chip, a long hold is reported exactly when the pin has the wanted level once
  -- it is configured and at the end of every millisecond of the delay; that it is not held exactly
  -- when the level differs at the start.
  pub check_long_hold_iff :
      (pin delay_sec : ℕ) (level : Bool) (c : Chip)
      → pin ≤ 21
      → let c1 = configure_pin pin c in
        let hold = (bootloader_common_check_long_hold_gpio_level pin delay_sec level c).0 in
        ((hold ≡ long_hold) ↔ (
          (gpio_ll_get_level pin c1 ≡ level)
          × All (λ l. l ≡ level) (samples (delay_sec * 1000 % 2 ^ 32) pin c1)))
        × ((hold ≡ not_hold) ↔ (gpio_ll_get_level pin c1 ≢ level))
  unfolding bootloader_common_check_long_hold_gpio_level
  check_long_hold_iff pin delay_sec level c h =
      let c1 = configure_pin pin c in
      let loop = hold_loop_iff (delay_sec * 1000 % 2 ^ 32) pin level c1 in
      let never = hold_loop-ne-not_hold (delay_sec * 1000 % 2 ^ 32) pin level c1 in
      let same = bool_eq_iff (gpio_ll_get_level pin c1) level in
      elim (Bool-cases (bool_eq (gpio_ll_get_level pin c1) level)) [
        | inl held ↦
            rw (in_range pin h, bootloader_common_check_long_hold_gpio_level)
              (rw (held) (
                ((λ r. (same.0 held, loop.0 r)), (λ k. loop.1 k.1)),
                ((λ r. absurd (never r)), (λ ne. absurd (ne (same.0 held)))),
              ))
        | inr other ↦
            rw (in_range pin h, bootloader_common_check_long_hold_gpio_level)
              (rw (other) (
                ((λ (r : not_hold ≡ long_hold). cc r), (λ k. cc (sym other ∙ same.1 k.0))),
                ((λ _ e. cc (sym other ∙ same.1 e)), (λ _. refl)),
              ))
      ]
