-- ===== src/Retain.antt =====
-- The RTC retain memory of src/utility.rs: a record of 84 bytes at the start of the RTC RAM, which
-- survives deep sleep, with a CRC over all but its first four bytes.
pub mod Update
mod Tests
use esp32c3_bootloader_rust.Common.{
  ℕ, zero, suc, ◌+◌, ◌-◌, ◌*◌, ◌%◌, ◌^◌, ◌≤◌, ◌<◌, ◌≡◌, ◌⊎◌, inl, inr, refl, sym, ap, ◌∙◌, arith,
  List, [], ◌∷◌, Bool, true, false, not, if◌then◌else◌, ◌==◌, u32_at, u32_max, to_le_bytes,
  replicate, length, IsByte, All,
}
use esp32c3_bootloader_rust.Crc.{esp_rom_crc32_le}
use esp32c3_bootloader_rust.Image.Segments.{PartitionPos, copy_to_ram}

-- `SOC_RTC_IRAM_LOW`
abbrev pub rtc_retain_mem_addr : ℕ
rtc_retain_mem_addr = 0x5000_0000

-- `size_of::<RtcRetainMem>()`: 81 bytes of fields, and the padding to a multiple of four.
abbrev pub retain_size : ℕ
retain_size = 84

-- `n` bytes from an address on.
unfoldable pub ram_bytes : (ℕ → ℕ) → ℕ → ℕ → List ℕ
ram_bytes ram addr zero = []
ram_bytes ram addr (suc n) = ram addr ∷ ram_bytes ram (addr + 1) n

-- The field `crc`.
abbrev pub retain_crc : (ℕ → ℕ) → ℕ
retain_crc ram =
    ram rtc_retain_mem_addr
    + ram (rtc_retain_mem_addr + 1) * 0x100
    + ram (rtc_retain_mem_addr + 2) * 0x1_0000
    + ram (rtc_retain_mem_addr + 3) * 0x100_0000

-- The field `partition`.
unfoldable pub retain_partition : (ℕ → ℕ) → PartitionPos
unfolding ram_bytes
retain_partition ram = record {
  offset = u32_at (ram_bytes ram (rtc_retain_mem_addr + 8) 4) 0;
  size = u32_at (ram_bytes ram (rtc_retain_mem_addr + 12) 4) 0;
}

unfoldable pub crc32_retain_mem : (ℕ → ℕ) → ℕ
crc32_retain_mem ram =
    esp_rom_crc32_le u32_max (ram_bytes ram (rtc_retain_mem_addr + 4) (retain_size - 4))
      (retain_size - 4)

unfoldable pub is_rtc_retain_mem_valid : (ℕ → ℕ) → Bool
is_rtc_retain_mem_valid ram =
    if retain_crc ram == u32_max then false else crc32_retain_mem ram == retain_crc ram

unfoldable pub update_rtc_retain_mem_crc : (ℕ → ℕ) → ℕ → ℕ
update_rtc_retain_mem_crc ram =
    copy_to_ram ram rtc_retain_mem_addr (to_le_bytes (crc32_retain_mem ram))

unfoldable pub set_rtc_retain_mem_factory_reset_state : (ℕ → ℕ) → ℕ → ℕ
set_rtc_retain_mem_factory_reset_state ram =
    let kept =
      if not (is_rtc_retain_mem_valid ram)
      then copy_to_ram ram rtc_retain_mem_addr (replicate retain_size 0)
      else ram in
    update_rtc_retain_mem_crc (copy_to_ram kept (rtc_retain_mem_addr + 16) (1 ∷ []))
