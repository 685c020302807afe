-- ===== src/Spi/Waits.antt =====
-- The wait of src/flash.rs for the flash to have written its status: it polls the status register
-- without a bound.
use esp32c3_bootloader_rust.Common.{ℕ, zero, suc, ◌%◌, ◌≡◌}
use esp32c3_bootloader_rust.Platform.{Platform}
use esp32c3_bootloader_rust.Spi.Vendor.{read_status}

module _ {Chip : Type 0} (env : Platform Chip) where
  -- The chip after some status reads.
  unfoldable pub status_reads : ℕ → Chip → Chip
  status_reads zero c = c
  status_reads (suc k) c = status_reads k (read_status env 0x05 c).1

  -- The status read after `k` others says that nothing is being written.
  abbrev pub IsWritten : ℕ → Chip → Type 0
  IsWritten k c = (read_status env 0x05 (status_reads k c)).0 % 2 ≡ 0
