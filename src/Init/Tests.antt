-- ===== src/Init/Tests.antt =====
-- The initialisation of a chip of registers.
use esp32c3_bootloader_rust.Common.{
  ℕ, ◌≡◌, refl, arith, true, false, not, ◌&&◌, ◌||◌, if◌then◌else◌, ◌==◌,
}
use esp32c3_bootloader_rust.Platform.{Platform}
use esp32c3_bootloader_rust.Board.{board, registers, powered_on}
use esp32c3_bootloader_rust.Init.{bootloader_init, timg_wdtconfig0_reg, timg_wdtwprotect_reg}
use esp32c3_bootloader_rust.Init.Watchdog.{Keeps, Protects, IsSettled, bootloader_init-watchdog}

-- A chip of registers whose watchdog configuration is locked.
unfoldable locked : Platform (ℕ → ℕ)
unfolding registers
locked = record registers {
  reg_write = λ regs reg value a.
      if reg == a && (not (a == timg_wdtconfig0_reg) || regs timg_wdtwprotect_reg == 0x50D8_3AA1)
      then value
      else regs a;
}

locked-Protects : Protects locked
unfolding locked registers
locked-Protects c a v = ground arith

locked-Keeps : (b : ℕ) → (b == timg_wdtconfig0_reg) ≡ false → Keeps locked b
unfolding locked registers
locked-Keeps b ne c a v = ground (arith, ne)

bootloader_init-watchdog_example :
    let (ok, after) = bootloader_init locked (powered_on (λ a. a)) in
    (ok ≡ true) × IsSettled locked after.chip
unfolding locked registers board
bootloader_init-watchdog_example =
    bootloader_init-watchdog locked locked-Protects (locked-Keeps _ refl) (locked-Keeps _ refl)
      (powered_on (λ a. a)) (omega arith) (omega arith)
