-- ===== src/Platform.antt =====
-- What the bootloader runs on and does not implement: the ROM's flash routines, the cache window,
-- the eFuse registers, the linker's symbols and the cargo features. `Chip` is the state of the
-- hardware, which only these operations read or change.
use esp32c3_bootloader_rust.Common.{ℕ, List, ◌∷◌, ◌≡◌, Bool, Option, ◌/◌, ◌%◌, ◌^◌, ◌+◌, ◌*◌, ◌==◌}

-- The ROM calls that configure the cache and end the boot, with their arguments.
pub data RomCall : Type 0 where
  cache_disable_icache cache_invalidate_icache_all cache_mmu_init : RomCall
  -- a suspended cache is resumed with what the suspension returned
  cache_suspend_icache cache_resume_icache : RomCall
  -- external RAM, virtual and physical address, page size in KiB, number of pages, fixed
  cache_dbus_mmu_set cache_ibus_mmu_set : ℕ → ℕ → ℕ → ℕ → ℕ → ℕ → RomCall
  cache_enable_icache : ℕ → RomCall
  output_tx_wait_idle : ℕ → RomCall
  delay_us : ℕ → RomCall

pub record Platform (Chip : Type 0) : Type 0 where
  -- `esp_rom_spiflash_read`: the bytes that it delivers, or `none` for a result other than `Ok`
  pub spiflash_read : Chip → ℕ → ℕ → Option (List ℕ)
  -- the word that a read through the cache returns, for the page that its window shows and the
  -- virtual address
  pub cached_word : Chip → ℕ → ℕ → ℕ
  -- the page that the cache window at 0x3DFF0000 shows after ROM calls, the latest of them first
  pub window_page : List RomCall → ℕ
  -- the MMU entry of the window set while the cache is suspended, with the cache invalidated before
  -- and after: the window shows the page, whatever was called before
  pub window_set :
      (calls : List RomCall) (page : ℕ)
      → window_page (
          cache_resume_icache
          ∷ cache_invalidate_icache_all
          ∷ cache_dbus_mmu_set 0 0x3DFF_0000 page 64 1 0
          ∷ cache_invalidate_icache_all
          ∷ cache_suspend_icache
          ∷ calls)
        ≡ page
  -- `esp_rom_spiflash_write` and `esp_rom_spiflash_erase_sector`: true for `Ok`
  pub spiflash_write : Chip → ℕ → List ℕ → Bool × Chip
  pub spiflash_erase_sector : Chip → ℕ → Bool × Chip
  -- `esp_rom_spiflash_wait_idle`
  pub spiflash_wait_idle : Chip → Chip
  pub spiflash_write_encrypted : Chip → ℕ → List ℕ → Bool × Chip
  -- `esp_rom_spiflash_config_param`, with the device id and the chip, block, sector and page size
  -- and the status mask
  pub spiflash_config_param : Chip → ℕ → ℕ → ℕ → ℕ → ℕ → ℕ → Chip
  -- the ROM's record of the flash chip, and its extra dummy cycles for SPI1
  pub flashchip_device_id : Chip → ℕ
  pub set_flashchip_device_id : Chip → ℕ → Chip
  pub set_flashchip_size : Chip → ℕ → Chip
  pub dummy_len_plus : ℕ
  pub rom_call : Chip → RomCall → Chip
  -- volatile accesses of the other peripheral registers
  pub reg_read : Chip → ℕ → ℕ
  pub reg_write : Chip → ℕ → ℕ → Chip
  -- a read of a FIFO register, which takes a byte out
  pub fifo_read : Chip → ℕ → ℕ × Chip
  -- the chip after one more round of a polling loop, and the number of rounds that an unbounded
  -- polling loop is followed for
  pub tick : Chip → Chip
  pub patience : ℕ
  -- stands for the chip when such a loop has not ended within these rounds; the code behind the
  -- loop is not reached on it
  pub hang : Chip → Chip
  -- `esp_rom_get_reset_reason(0)`
  pub reset_reason : ℕ
  -- a read of an eFuse register, by its offset from `EFUSE_BASE`
  pub efuse : ℕ → ℕ
  -- `ets_efuse_secure_boot_enabled`
  pub secure_boot_enabled : Bool
  -- `p256`: the key parses, the signature parses, and `verify_prehash` accepts
  pub verify_prehash : List ℕ → List ℕ → List ℕ → Bool
  -- the cargo features
  pub feature_secure_boot : Bool
  pub feature_factory_reset : Bool
  pub feature_app_test : Bool
  -- the linker's symbols
  pub stext : ℕ
  pub etext : ℕ
  pub data_start : ℕ
  pub data_end : ℕ
  pub bss_start : ℕ
  pub bss_end : ℕ

module _ {Chip : Type 0} (env : Platform Chip) where
  -- `efuse_hal_flash_encryption_enabled`: an odd number of set bits among three.
  unfoldable pub efuse_hal_flash_encryption_enabled : Bool
  efuse_hal_flash_encryption_enabled =
      let crypt_cnt = env.efuse 0x034 / 2 ^ 18 % 8 in
      (crypt_cnt % 2 + crypt_cnt / 2 % 2 + crypt_cnt / 4 % 2) % 2 == 1

  -- `efuse_hal_chip_revision`: 100 times the major revision, and the minor one.
  unfoldable pub efuse_hal_chip_revision : ℕ
  efuse_hal_chip_revision =
      let minor = env.efuse 0x044 / 2 ^ 18 % 8 in
      let major = env.efuse 0x180 % 4 in major * 100 + minor

  unfoldable pub efuse_hal_get_disable_wafer_version_major : Bool
  efuse_hal_get_disable_wafer_version_major = env.efuse 0x040 / 2 ^ 19 % 2 == 1

  unfoldable pub efuse_get_secure_version : ℕ
  efuse_get_secure_version = env.efuse 0x040 / 2 ^ 14 % 2 ^ 16
