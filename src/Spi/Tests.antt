-- ===== src/Spi/Tests.antt =====
-- Flash commands on a chip of registers.
use esp32c3_bootloader_rust.Common.{
  ℕ, ◌≡◌, ◌%◌, ◌-◌, inl, inr, refl, arith, false, if◌then◌else◌, ◌==◌,
}
use esp32c3_bootloader_rust.Platform.{Platform}
use esp32c3_bootloader_rust.Regs.{reg_has, ticks}
use esp32c3_bootloader_rust.Board.{board, registers}
use esp32c3_bootloader_rust.Spi.{
  spi1, spi_mem_cmd, spi_mem_ctrl, spi_mem_user, spi_mem_usr, spi_mem_w0,
  bootloader_execute_flash_command,
}
use esp32c3_bootloader_rust.Spi.Vendor.{bootloader_flash_unlock}
use esp32c3_bootloader_rust.Spi.Saves.{
  Latches, Finishes, execute_flash_command-restores, flash_unlock-restores,
}

-- A register file in which register `a` holds `a % 1000`.
abbrev numbered : ℕ → ℕ
numbered a = a % 1000

registers-Latches : Latches registers
unfolding registers
registers-Latches = record {
  read_write = λ c a v b s. refl;
  read_tick = λ c b s. ground (arith, s);
  read_hang = λ c b s. refl;
}

registers-Finishes : Finishes registers
unfolding registers board reg_has ticks
registers-Finishes = record { rounds = λ c. 1; few = λ c. omega arith; idle = λ c. refl }

execute_flash_command-restores_example :
    let after = (bootloader_execute_flash_command registers 0x9F 0 0 24 numbered).1 in
    (registers.reg_read after (spi1 spi_mem_ctrl) ≡ registers.reg_read numbered (spi1 spi_mem_ctrl))
    × (reg_has registers (spi1 spi_mem_cmd) spi_mem_usr after ≡ false)
execute_flash_command-restores_example =
    execute_flash_command-restores registers registers-Latches 0x9F 0 0 24 numbered
      (spi1 spi_mem_ctrl) (inl refl) registers-Finishes

flash_unlock-restores_example :
    registers.reg_read (bootloader_flash_unlock registers numbered) (spi1 spi_mem_user)
    ≡ registers.reg_read numbered (spi1 spi_mem_user)
flash_unlock-restores_example =
    flash_unlock-restores registers registers-Latches numbered (spi1 spi_mem_user) (inr (inl refl))

-- A flash whose status counts down with each command: it is busy at 1 and ready at 0.
unfoldable writing : Platform (ℕ → ℕ)
unfolding registers
writing = record registers {
  tick = λ regs a.
      if a == spi1 spi_mem_cmd then 0 else if a == spi1 spi_mem_w0 then regs a - 1 else regs a;
}

abbrev two_to_go : ℕ → ℕ
two_to_go a = if a == spi1 spi_mem_w0 then 2 else 0
