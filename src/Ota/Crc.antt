-- ===== src/Ota/Crc.antt =====
-- The CRC of a select entry.
use esp32c3_bootloader_rust.Common.{◌^◌, ◌<◌, ◌≡◌, sym, ◌∙◌, arith, true, u32_max, to_le_bytes}
use esp32c3_bootloader_rust.Crc.{bootloader_crc32_le}
use esp32c3_bootloader_rust.Crc.Detect.{esp_rom_crc32_le-eq-bootloader_crc32_le}
use esp32c3_bootloader_rust.Crc.Word.{crc-to_le_bytes-inj}
use esp32c3_bootloader_rust.Ota.{
  EspOtaSelectEntry, bootloader_common_ota_select_crc, bootloader_common_ota_select_valid,
  parse_select, select_bytes,
}

pub ota_select_crc_lem :
    (e : EspOtaSelectEntry)
    → bootloader_common_ota_select_crc e ≡ bootloader_crc32_le u32_max (to_le_bytes e.ota_seq)
unfolding bootloader_common_ota_select_crc
ota_select_crc_lem e =
    esp_rom_crc32_le-eq-bootloader_crc32_le u32_max (to_le_bytes e.ota_seq) 4 (omega arith)

pub crc_of_valid :
    (e : EspOtaSelectEntry)
    → bootloader_common_ota_select_valid e ≡ true
    → e.crc ≡ bootloader_common_ota_select_crc e
unfolding bootloader_common_ota_select_valid
crc_of_valid e h = ground arith

-- Two valid entries with `u32` sequence numbers and the same CRC field have the same sequence
-- number: no entry stays valid when only its sequence number changes.
pub ota_seq_of_crc :
    (e f : EspOtaSelectEntry)
    → e.ota_seq < 2 ^ 32
    → f.ota_seq < 2 ^ 32
    → bootloader_common_ota_select_valid e ≡ true
    → bootloader_common_ota_select_valid f ≡ true
    → e.crc ≡ f.crc
    → e.ota_seq ≡ f.ota_seq
ota_seq_of_crc e f he hf ve vf same =
    crc-to_le_bytes-inj u32_max e.ota_seq f.ota_seq (omega arith) he hf (
      sym (ota_select_crc_lem e)
      ∙ sym (crc_of_valid e ve)
      ∙ same
      ∙ crc_of_valid f vf
      ∙ ota_select_crc_lem f)

-- An entry with `u32` fields is read back from the bytes that are written for it.
pub parse_select-select_bytes :
    (e : EspOtaSelectEntry)
    → e.ota_seq < 2 ^ 32
    → e.ota_state < 2 ^ 32
    → e.crc < 2 ^ 32
    → parse_select (select_bytes e) ≡ e
unfolding parse_select select_bytes
parse_select-select_bytes e h k l = ground arith
