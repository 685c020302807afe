-- ===== src/Crc.antt =====
-- The CRC-32 of src/sha256.rs (`bootloader_crc32_le`, `crc32_bytes`) and of src/rom.rs
-- (`esp_rom_crc32_le`), on `u32` values and lists of bytes.
pub mod Rounds
pub mod Detect
pub mod Word
mod Tests
use esp32c3_bootloader_rust.Common.{
  ℕ, zero, suc, ◌+◌, ◌/◌, ◌%◌, bit_and, bit_xor, not, List, [], ◌∷◌, ◌==◌, if◌then◌else◌, byte_at,
}

abbrev pub polynomial : ℕ
polynomial = 0xEDB8_8320

-- One round of the inner loop.
unfoldable pub crc_round : ℕ → ℕ
crc_round crc = if crc % 2 == 1 then bit_xor (crc / 2) polynomial else crc / 2

-- `for _ in 0..n { .. }`
unfoldable pub crc_rounds : ℕ → ℕ → ℕ
unfolding crc_round
crc_rounds zero crc = crc
crc_rounds (suc n) crc = crc_rounds n (crc_round crc)

unfoldable pub bootloader_crc32_le : ℕ → List ℕ → ℕ
unfolding crc_rounds
bootloader_crc32_le crc [] = crc
bootloader_crc32_le crc (byte ∷ rest) = bootloader_crc32_le (crc_rounds 8 (bit_xor crc byte)) rest

unfoldable pub crc32_bytes : List ℕ → ℕ
unfolding bootloader_crc32_le
crc32_bytes bytes = bit_xor (bootloader_crc32_le 0xffff_ffff bytes) 0xffff_ffff

-- `esp_rom_crc32_le` has its own inner loop, on bit 0 as `crc & 1`, with its own constant.
unfoldable pub rom_round : ℕ → ℕ
rom_round crc = if not (bit_and crc 1 == 0) then bit_xor (crc / 2) 0xEDB8_8320 else crc / 2

unfoldable pub rom_rounds : ℕ → ℕ → ℕ
unfolding rom_round
rom_rounds zero crc = crc
rom_rounds (suc n) crc = rom_rounds n (rom_round crc)

-- `esp_rom_crc32_le`: the loop over the index `i`, with `left` bytes to go.
unfoldable pub rom_crc_from : ℕ → ℕ → ℕ → List ℕ → ℕ
unfolding rom_rounds
rom_crc_from zero i crc bytes = crc
rom_crc_from (suc left) i crc bytes =
    rom_crc_from left (i + 1) (rom_rounds 8 (bit_xor crc (byte_at bytes i))) bytes

unfoldable pub esp_rom_crc32_le : ℕ → List ℕ → ℕ → ℕ
unfolding rom_crc_from
esp_rom_crc32_le crc bytes len = rom_crc_from len 0 crc bytes
