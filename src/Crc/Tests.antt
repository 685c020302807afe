-- ===== src/Crc/Tests.antt =====
-- Concrete messages for the theorems about the CRC.
use esp32c3_bootloader_rust.Common.{◌≡◌, ◌≢◌, refl, arith, [], ◌∷◌, ◌++◌, take}
use esp32c3_bootloader_rust.Crc.{bootloader_crc32_le, esp_rom_crc32_le, crc32_bytes}
use esp32c3_bootloader_rust.Crc.Detect.{
  crc_detects_one_byte, esp_rom_crc32_le-eq-bootloader_crc32_le,
}

-- The check value of the CRC-32: "123456789".
check_value : crc32_bytes (49 ∷ 50 ∷ 51 ∷ 52 ∷ 53 ∷ 54 ∷ 55 ∷ 56 ∷ 57 ∷ []) ≡ 0xCBF4_3926
unfolding crc32_bytes bootloader_crc32_le
check_value = refl

crc_detects_one_byte_example :
    bootloader_crc32_le 0xffff_ffff ((1 ∷ 2 ∷ []) ++ 3 ∷ 4 ∷ [])
    ≢ bootloader_crc32_le 0xffff_ffff ((1 ∷ 2 ∷ []) ++ 5 ∷ 4 ∷ [])
crc_detects_one_byte_example =
    crc_detects_one_byte 0xffff_ffff (1 ∷ 2 ∷ []) 3 5 (4 ∷ []) (omega arith)
      (omega arith, (omega arith, tt)) (omega arith) (omega arith) (omega arith, tt) (omega arith)

esp_rom_crc32_le-eq-bootloader_crc32_le_example :
    esp_rom_crc32_le 0xffff_ffff (7 ∷ 8 ∷ 9 ∷ []) 2
    ≡ bootloader_crc32_le 0xffff_ffff (take 2 (7 ∷ 8 ∷ 9 ∷ []))
esp_rom_crc32_le-eq-bootloader_crc32_le_example =
    esp_rom_crc32_le-eq-bootloader_crc32_le 0xffff_ffff (7 ∷ 8 ∷ 9 ∷ []) 2 (omega arith)
