-- ===== src/Start.antt =====
-- The start of the bootloader in src/main.rs: the memory is cleared, the hardware initialised, the
-- shell asked, and an application booted.
pub mod Paths
mod Tests
use esp32c3_bootloader_rust.Common.{ℕ, Option, none, some}
use esp32c3_bootloader_rust.Platform.{Platform}
use esp32c3_bootloader_rust.Flash.{Machine, debug_tx_str}
use esp32c3_bootloader_rust.Shell.{ShellAction, run_shell}
use esp32c3_bootloader_rust.Shell
use esp32c3_bootloader_rust.Boot.Handover.{BootEnd, bootloader_reset}
use esp32c3_bootloader_rust.Boot
use esp32c3_bootloader_rust.Init.{bootloader_init, bootloader_clear_bss_section}

module _ {Chip : Type 0} (env : Platform Chip) where
  unfoldable pub panic : Machine Chip → BootEnd Chip
  panic m = bootloader_reset env (debug_tx_str "[panic]" m)

  -- The `match` on the shell's action, and what follows it.
  unfoldable pub act : ShellAction → Machine Chip → BootEnd Chip
  act Shell.reset m = bootloader_reset env m
  act Shell.boot m = Boot.boot env m

  -- `none` while the shell has not been left after `polls` polls of the console. The result of the
  -- initialisation is not looked at.
  unfoldable pub call_start_cpu0 : ℕ → Machine Chip → Option (BootEnd Chip)
  unfolding act
  call_start_cpu0 polls m =
      let (_, m1) = bootloader_init env m in
      let (action, chip) = run_shell env polls m1.chip in
      elim action [ none ↦ none | some a ↦ some (act a (record m1 { chip = chip })) ]

  unfoldable pub rust_start : ℕ → Machine Chip → Option (BootEnd Chip)
  unfolding call_start_cpu0
  rust_start polls m =
      call_start_cpu0 polls (record m { ram = bootloader_clear_bss_section env m.ram })
