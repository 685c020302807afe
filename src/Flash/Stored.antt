-- ===== src/Flash/Stored.antt =====
-- What the flash holds, as `bootloader_mmap` in src/flash.rs shows it: a description without the
-- state of the driver.
use esp32c3_bootloader_rust.Common.{
  ℕ, ◌+◌, ◌*◌, ◌/◌, ◌≡◌, ◌⊎◌, inr, arith, List, true, false, Option, some, if◌then◌else◌, take,
  sub32,
}
use esp32c3_bootloader_rust.Platform.{Platform, efuse_hal_flash_encryption_enabled}
use esp32c3_bootloader_rust.Flash.{
  Machine, bootloader_mmap, bootloader_munmap, flash_read_via_cache, flash_encryption_enabled,
  flash_read_raw,
}
use esp32c3_bootloader_rust.Flash.Window.{words_from, flash_read_via_cache_lem}

module _ {Chip : Type 0} (env : Platform Chip) where
  -- With flash encryption the bytes come through the cache, without it from the ROM's read, which
  -- adds 1 to the address.
  unfoldable pub stored : Chip → ℕ → ℕ → Option (List ℕ)
  stored chip addr size =
      if efuse_hal_flash_encryption_enabled env
      then some (take size (words_from env ((size + 3) / 4 * 4 / 4) 0 chip addr))
      else env.spiflash_read chip (sub32 addr 1) size

  -- The driver has not looked at the eFuse yet, or it remembers what the eFuse says; and it has no
  -- page of the cache window recorded, as between any two of its reads.
  abbrev pub Knows : Machine Chip → Type 0
  Knows m =
      ((m.enc_checked ≡ false) ⊎ (m.encrypted ≡ efuse_hal_flash_encryption_enabled env))
      × (m.current_read_mapping ≡ 0xffff_ffff)

  pub munmap-Knows : (m : Machine Chip) → Knows m → Knows (bootloader_munmap m)
  unfolding bootloader_munmap
  munmap-Knows m k = k

  pub mmap-Knows :
      (m : Machine Chip) (addr size : ℕ) → Knows m → Knows (bootloader_mmap env m addr size).1
  unfolding bootloader_mmap flash_encryption_enabled flash_read_via_cache flash_read_raw
  mmap-Knows m addr size k = ground arith

  -- A mapping shows what the flash holds.
  pub mmap-stored :
      (m : Machine Chip) (addr size : ℕ) (bytes : List ℕ)
      → Knows m
      → (bootloader_mmap env m addr size).0 ≡ some bytes
      → stored m.chip addr size ≡ some bytes
  unfolding bootloader_mmap flash_encryption_enabled stored flash_read_raw
  mmap-stored m addr size bytes k e = ground (
    arith,
    (flash_read_via_cache_lem env m addr ((size + 3) / 4 * 4) (inr k.1)).0,
    (flash_read_via_cache_lem env
        (record m { enc_checked = true; encrypted = efuse_hal_flash_encryption_enabled env }) addr
        ((size + 3) / 4 * 4) (inr k.1)).0,
  )
