-- ===== src/Image.antt =====
-- src/image.rs: the image header, the classification of addresses, and the checks of a header
-- and of a load address. Its children model the segment loop and the signature check.
pub mod Header
pub mod Segments
pub mod Process
mod Tests
use esp32c3_bootloader_rust.Common.{
  ℕ, zero, suc, ◌+◌, ◌*◌, ◌/◌, ◌%◌, ◌^◌, List, [], ◌∷◌, Bool, true, false, ◌&&◌, ◌||◌, not,
  if◌then◌else◌, ltb, leb, ◌==◌, byte_at, u16_at, u32_at, take, drop, replicate, add32,
}
use esp32c3_bootloader_rust.Platform.{
  Platform, efuse_hal_chip_revision, efuse_hal_get_disable_wafer_version_major,
}

pub record EspImageHeader : Type 0 where
  pub magic : ℕ
  pub segment_count : ℕ
  pub spi_mode : ℕ
  pub spi_speed_size : ℕ
  pub entry_addr : ℕ
  pub wp_pin : ℕ
  pub spi_pin_drv : List ℕ
  pub chip_id : ℕ
  pub min_chip_rev : ℕ
  pub min_chip_rev_full : ℕ
  pub max_chip_rev_full : ℕ
  pub hash_appended : ℕ
  pub reserved : List ℕ

-- `ptr::read_unaligned` of the packed struct.
unfoldable pub parse_header : List ℕ → EspImageHeader
parse_header bs = record {
  magic = byte_at bs 0;
  segment_count = byte_at bs 1;
  spi_mode = byte_at bs 2;
  spi_speed_size = byte_at bs 3;
  entry_addr = u32_at bs 4;
  wp_pin = byte_at bs 8;
  spi_pin_drv = take 3 (drop 9 bs);
  chip_id = u16_at bs 12;
  min_chip_rev = byte_at bs 14;
  min_chip_rev_full = u16_at bs 15;
  max_chip_rev_full = u16_at bs 17;
  hash_appended = byte_at bs 19;
  reserved = take 4 (drop 20 bs);
}

pub record EspImageSegmentHeader : Type 0 where
  pub load_addr : ℕ
  pub data_len : ℕ

unfoldable pub parse_segment : List ℕ → EspImageSegmentHeader
parse_segment bs = record { load_addr = u32_at bs 0; data_len = u32_at bs 4 }

pub record EspImageMetadata : Type 0 where
  pub start_addr : ℕ
  pub image : EspImageHeader
  pub segments : List EspImageSegmentHeader
  pub segment_data : List ℕ
  pub image_len : ℕ
  pub image_digest : List ℕ
  pub mmu_page_size : ℕ
  pub secure_version : ℕ

abbrev pub no_segment : EspImageSegmentHeader
no_segment = record { load_addr = 0; data_len = 0 }

-- `EspImageMetadata::zeroed`
unfoldable pub zeroed : EspImageMetadata
unfolding parse_header
zeroed = record {
  start_addr = 0;
  image = parse_header (replicate 24 0);
  segments = replicate 16 no_segment;
  segment_data = replicate 16 0;
  image_len = 0;
  image_digest = replicate 32 0;
  mmu_page_size = 65536;
  secure_version = 0;
}

unfoldable pub should_load : ℕ → Bool
should_load load_addr =
    leb 0x3FC8_0000 load_addr && ltb load_addr 0x3FCE_0000
    || leb 0x4037_C000 load_addr && ltb load_addr 0x403E_0000
    || leb 0x5000_0000 load_addr && ltb load_addr 0x5000_2000
    || leb 0x5000_2000 load_addr && ltb load_addr 0x5000_4000

unfoldable pub should_map : ℕ → Bool
should_map load_addr =
    leb 0x4200_0000 load_addr && ltb load_addr 0x4400_0000
    || leb 0x3C00_0000 load_addr && ltb load_addr 0x3E00_0000

-- `esp_image_get_flash_size`
unfoldable pub esp_image_get_flash_size : ℕ → ℕ
esp_image_get_flash_size app_flash_size =
    if app_flash_size == 0
    then 1 * 1024 * 1024
    else if app_flash_size == 1
    then 2 * 1024 * 1024
    else if app_flash_size == 2
    then 4 * 1024 * 1024
    else if app_flash_size == 3
    then 8 * 1024 * 1024
    else if app_flash_size == 4
    then 16 * 1024 * 1024
    else 2 * 1024 * 1024

abbrev pub esp_image_application : ℕ
esp_image_application = 1

abbrev pub soc_rom_stack_start : ℕ
soc_rom_stack_start = 0x3FCE_2000

module _ {Chip : Type 0} (env : Platform Chip) where
  unfoldable pub bootloader_common_check_chip_validity : EspImageHeader → ℕ → Bool
  bootloader_common_check_chip_validity header image_type =
      let revision = efuse_hal_chip_revision env in
      let max_rev = header.max_chip_rev_full in
      let is_field_set = not (max_rev == 65535) && not (max_rev == 0) in
      if not (header.chip_id == 5)
      then false
      else if not (leb header.min_chip_rev_full revision)
      then false
      else if image_type == esp_image_application
      then not (
          is_field_set
          && ltb max_rev revision
          && not (efuse_hal_get_disable_wafer_version_major env))
      else true

  unfoldable pub verify_image_header : EspImageHeader → Bool
  unfolding bootloader_common_check_chip_validity
  verify_image_header header =
      if not (header.magic == 0xE9)
      then false
      else if header.segment_count == 0 || ltb 16 header.segment_count
      then false
      else bootloader_common_check_chip_validity header esp_image_application

  unfoldable pub verify_load_addresses : ℕ → ℕ → Bool
  verify_load_addresses load_addr load_end =
      let headroom : ℕ = 0x8000 in
      if ltb load_addr env.etext && ltb env.stext load_end
      then false
      else if ltb load_addr env.bss_end && ltb env.data_start load_end
      then false
      else not (
          ltb soc_rom_stack_start (add32 load_addr headroom)
          && ltb load_addr (soc_rom_stack_start + headroom))
