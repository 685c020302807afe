-- ===== src/Flash.antt =====
-- src/flash.rs: the bounce buffer that `bootloader_mmap` fills, raw reads and reads through the
-- cache window, and the erase and write entry points.
pub mod Window
pub mod Mapping
pub mod Contents
pub mod Stored
mod Tests
use esp32c3_bootloader_rust.Common.{
  ℕ, zero, suc, ◌+◌, ◌-◌, ◌*◌, ◌/◌, ◌%◌, ◌^◌, List, [], ◌∷◌, ◌++◌, Bool, true, false, ◌||◌, ◌&&◌,
  not, Option, none, some, if◌then◌else◌, ltb, ◌==◌, take, add32, sub32, to_le_bytes,
}
use esp32c3_bootloader_rust.Platform.{
  Platform, RomCall, cache_suspend_icache, cache_resume_icache, cache_invalidate_icache_all,
  cache_dbus_mmu_set, efuse_hal_flash_encryption_enabled,
}
use esp32c3_bootloader_rust.Spi.Vendor.{bootloader_flash_unlock}
use esp32c3_bootloader_rust.Sha256.Pool.{Pool}
use Prim.Native.String.{String}

-- The statics of the bootloader, the RAM that images are loaded to, the console output and the
-- ROM calls of the flash driver that act on the cache (latest first), and the rest of the hardware.
pub record Machine (Chip : Type 0) : Type 0 where
  pub chip : Chip
  pub enc_checked : Bool
  pub encrypted : Bool
  pub mapped : Bool
  pub current_mapped_size : ℕ
  pub current_read_mapping : ℕ
  pub cache_calls : List RomCall
  pub pool : Pool
  pub ram : ℕ → ℕ
  pub console : List String

abbrev pub flash_sector_size : ℕ
flash_sector_size = 4096

abbrev pub flash_read_vaddr : ℕ
flash_read_vaddr = 0x3DFF_0000

-- `word_src & MMU_FLASH_MASK`
abbrev pub page_of : ℕ → ℕ
page_of addr = addr / 65536 * 65536

-- The calls of a remapping, in front of those before it.
unfoldable pub remap_window : ℕ → List RomCall → List RomCall
remap_window map_at calls =
    let invalidated = cache_invalidate_icache_all ∷ cache_suspend_icache ∷ calls in
    let set = cache_dbus_mmu_set 0 flash_read_vaddr map_at 64 1 0 ∷ invalidated in
    cache_resume_icache ∷ cache_invalidate_icache_all ∷ set

module _ {Chip : Type 0} (env : Platform Chip) where
  unfoldable pub flash_encryption_enabled : Machine Chip → Bool × Machine Chip
  flash_encryption_enabled m =
      let enabled = efuse_hal_flash_encryption_enabled env in
      if m.enc_checked
      then (m.encrypted, m)
      else (enabled, record m { enc_checked = true; encrypted = enabled })

  -- The cache is suspended around the ROM's read.
  unfoldable pub flash_read_raw : Machine Chip → ℕ → ℕ → Option (List ℕ) × Machine Chip
  flash_read_raw m src_addr size = (
    env.spiflash_read m.chip (sub32 src_addr 1) size,
    record m { cache_calls = cache_resume_icache ∷ cache_suspend_icache ∷ m.cache_calls },
  )

  -- The loop of `flash_read_via_cache` at word `i`, with `n` words to go, from the static
  -- `CURRENT_READ_MAPPING` and the ROM calls so far: the bytes that are read, and both afterwards.
  -- The page that is read is the one that the hardware shows, not the recorded one.
  unfoldable pub window_from : ℕ → ℕ → Chip → ℕ → ℕ → List RomCall → List ℕ × ℕ × List RomCall
  unfolding remap_window
  window_from zero i chip src_addr mapping calls = ([], mapping, calls)
  window_from (suc n) i chip src_addr mapping calls =
      let word_src = add32 src_addr (i * 4) in
      let map_at = page_of word_src in
      let mapping' = if mapping == map_at then mapping else map_at in
      let calls' = if mapping == map_at then calls else remap_window map_at calls in
      let vaddr = flash_read_vaddr + (word_src - map_at) in
      let word = env.cached_word chip (env.window_page calls') vaddr in
      let (rest, last, made) = window_from n (i + 1) chip src_addr mapping' calls' in
      (to_le_bytes word ++ rest, last, made)

  unfoldable pub flash_read_via_cache : Machine Chip → ℕ → ℕ → List ℕ × Machine Chip
  unfolding window_from
  flash_read_via_cache m src_addr size =
      let (bytes, last, calls) =
        window_from (size / 4) 0 m.chip src_addr m.current_read_mapping m.cache_calls in
      (bytes, record m { current_read_mapping = 0xffff_ffff; cache_calls = calls })

  -- `bootloader_mmap`: the bytes at the returned pointer, or `none` for null.
  unfoldable pub bootloader_mmap : Machine Chip → ℕ → ℕ → Option (List ℕ) × Machine Chip
  unfolding flash_encryption_enabled flash_read_raw
  bootloader_mmap m src_paddr size =
      if size == 0 || ltb 4093 size
      then (none, m)
      else if m.mapped
      then (none, m)
      else (let (encrypted, m1) = flash_encryption_enabled m in
          let cached = flash_read_via_cache m1 src_paddr ((size + 3) / 4 * 4) in
          if encrypted
          then (
            some (take size cached.0),
            record cached.1 { mapped = true; current_mapped_size = size },
          )
          else (let (read, m2) = flash_read_raw m1 src_paddr size in
              elim read [
                | none ↦ (none, m2)
                | some bytes ↦ (some bytes, record m2 { mapped = true; current_mapped_size = size })
              ]))

  -- `bootloader_flash_read`, for an aligned destination; it does not touch the bounce buffer.
  unfoldable pub bootloader_flash_read :
      Machine Chip → ℕ → ℕ → Bool → Option (List ℕ) × Machine Chip
  unfolding flash_read_raw flash_read_via_cache
  bootloader_flash_read m src_addr size allow_decrypt =
      if not (src_addr % 4 == 0) || not (size % 4 == 0)
      then (none, m)
      else (let (bytes, m1) = flash_read_via_cache m src_addr size in
          if allow_decrypt then (some bytes, m1) else flash_read_raw m src_addr size)

  unfoldable pub bootloader_flash_erase_sector : Machine Chip → ℕ → Bool × Machine Chip
  bootloader_flash_erase_sector m sector =
      let (ok, chip) = env.spiflash_erase_sector m.chip sector in (ok, record m { chip = chip })

  -- The loop of `bootloader_flash_erase_range` at sector `i`, with `n` to go.
  unfoldable pub erase_from : ℕ → ℕ → Machine Chip → Bool × Machine Chip
  unfolding bootloader_flash_erase_sector
  erase_from zero sector m = (true, m)
  erase_from (suc n) sector m =
      let (ok, m1) = bootloader_flash_erase_sector m sector in
      let rest = erase_from n (sector + 1) m1 in if ok then rest else (false, m1)

  unfoldable pub bootloader_flash_erase_range : Machine Chip → ℕ → ℕ → Bool × Machine Chip
  unfolding erase_from
  bootloader_flash_erase_range m start_addr size =
      erase_from (sub32 (add32 size flash_sector_size) 1 / flash_sector_size)
        (start_addr / flash_sector_size) m

  unfoldable pub bootloader_flash_write : Machine Chip → ℕ → List ℕ → Bool → Bool × Machine Chip
  bootloader_flash_write m dest_addr bytes write_encrypted =
      let unlocked = bootloader_flash_unlock env m.chip in
      let (ok, chip) =
        if write_encrypted
        then env.spiflash_write_encrypted unlocked dest_addr bytes
        else env.spiflash_write unlocked dest_addr bytes in
      (ok, record m { chip = chip })

unfoldable pub bootloader_munmap : {Chip : Type 0} → Machine Chip → Machine Chip
bootloader_munmap m = record m { mapped = false; current_mapped_size = 0 }

-- `debug_tx_str`
abbrev pub debug_tx_str : {Chip : Type 0} → String → Machine Chip → Machine Chip
debug_tx_str s m = record m { console = s ∷ m.console }
