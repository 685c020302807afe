-- ===== src/Image/Header.antt =====
-- What the header and the address checks accept.
use esp32c3_bootloader_rust.Common.{ℕ, ◌+◌, ◌≤◌, ◌<◌, ◌≡◌, ◌⊎◌, ◌↔◌, arith, true, false}
use esp32c3_bootloader_rust.Platform.{
  Platform, efuse_hal_chip_revision, efuse_hal_get_disable_wafer_version_major,
}
use esp32c3_bootloader_rust.Image.{
  EspImageHeader, should_load, should_map, verify_image_header, verify_load_addresses,
}

-- No address is both copied to RAM and mapped, and one that is copied lies below 0x5000_4000.
pub should_load-should_map :
    (a : ℕ) → should_load a ≡ true → (should_map a ≡ false) × (0x3FC8_0000 ≤ a) × (a < 0x5000_4000)
unfolding should_load should_map
should_load-should_map a h = ground arith

module _ {Chip : Type 0} (env : Platform Chip) where
  -- What an accepted header has: the magic byte, a segment count from 1 to 16, the chip's id, a
  -- minimum revision that the chip reaches, and a maximum revision that it does not pass, where
  -- that field is set and the eFuse does not disable the check.
  pub record IsAccepted (h : EspImageHeader) : Type 0 where
    pub magic : h.magic ≡ 0xE9
    pub some_segments : 1 ≤ h.segment_count
    pub few_segments : h.segment_count ≤ 16
    pub chip : h.chip_id ≡ 5
    pub old_enough : h.min_chip_rev_full ≤ efuse_hal_chip_revision env
    pub new_enough :
        (h.max_chip_rev_full ≡ 65535)
        ⊎ (h.max_chip_rev_full ≡ 0)
        ⊎ (efuse_hal_chip_revision env ≤ h.max_chip_rev_full)
        ⊎ (efuse_hal_get_disable_wafer_version_major env ≡ true)

  -- `verify_image_header` accepts exactly the headers with the magic byte, 1 to 16 segments, the
  -- chip's id, a minimum revision that the chip reaches and a maximum revision that it does not
  -- pass, where that field is set and the eFuse does not disable the check.
  pub verify_image_header_iff :
      (h : EspImageHeader) → (verify_image_header env h ≡ true) ↔ IsAccepted h
  unfolding verify_image_header
  verify_image_header_iff h = ground arith

  -- An accepted range that does not wrap and is not empty has no byte inside the bootloader's
  -- code or data, whatever those are.
  pub verify_load_addresses_lem :
      (load_addr len a : ℕ)
      → verify_load_addresses env load_addr (load_addr + len) ≡ true
      → load_addr ≤ a
      → a < load_addr + len
      → ((a < env.stext) ⊎ (env.etext ≤ a)) × ((a < env.data_start) ⊎ (env.bss_end ≤ a))
  unfolding verify_load_addresses
  verify_load_addresses_lem load_addr len a h p q = ground arith
