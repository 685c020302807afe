-- ===== src/Flash/Mapping.antt =====
-- The bounce buffer: when `bootloader_mmap` maps, and what it leaves alone.
use esp32c3_bootloader_rust.Common.{ℕ, ◌≤◌, ◌≡◌, ◌≢◌, refl, arith, List, true, false, none, some}
use esp32c3_bootloader_rust.Platform.{Platform}
use esp32c3_bootloader_rust.Flash.{
  Machine, flash_read_via_cache, flash_read_raw, bootloader_mmap, bootloader_munmap,
}

-- Only the flash driver's own statics differ.
pub record Frame {Chip : Type 0} (m m' : Machine Chip) : Type 0 where
  pub same_chip : m'.chip ≡ m.chip
  pub same_ram : m'.ram ≡ m.ram
  pub same_pool : m'.pool ≡ m.pool
  pub same_console : m'.console ≡ m.console

module _ {Chip : Type 0} (env : Platform Chip) where
  pub mmap-Frame : (m : Machine Chip) (addr size : ℕ) → Frame m (bootloader_mmap env m addr size).1
  unfolding bootloader_mmap flash_read_via_cache flash_read_raw
  mmap-Frame m addr size = ground arith

  -- A null result leaves `MAPPED` as it was.
  pub mmap-none :
      (m : Machine Chip) (addr size : ℕ)
      → (bootloader_mmap env m addr size).0 ≡ none
      → (bootloader_mmap env m addr size).1.mapped ≡ m.mapped
  unfolding bootloader_mmap flash_read_via_cache flash_read_raw
  mmap-none m addr size e = ground arith

  -- A mapping is made only from the unmapped state and for 1 to 4093 bytes.
  pub mmap-some :
      (m : Machine Chip) (addr size : ℕ) (bytes : List ℕ)
      → (bootloader_mmap env m addr size).0 ≡ some bytes
      → (m.mapped ≡ false)
        × (size ≢ 0)
        × (size ≤ 4093)
        × ((bootloader_mmap env m addr size).1.mapped ≡ true)
  unfolding bootloader_mmap flash_read_via_cache flash_read_raw
  mmap-some m addr size bytes e = ground arith

pub munmap-Frame : {Chip : Type 0} (m : Machine Chip) → Frame m (bootloader_munmap m)
unfolding bootloader_munmap
munmap-Frame m = record { same_chip = refl; same_ram = refl; same_pool = refl; same_console = refl }
