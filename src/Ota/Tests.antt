-- ===== src/Ota/Tests.antt =====
-- OTA data with concrete sequence numbers.
use esp32c3_bootloader_rust.Common.{
  ℕ, zero, suc, ◌+◌, ◌-◌, ◌*◌, ◌%◌, ◌≤◌, ◌<◌, ◌≡◌, ◌≢◌, ◌⊎◌, refl, ap, ap₂, arith, List, ◌∷◌, true,
  ◌&&◌, some, if◌then◌else◌, leb, ltb, length, get_or, replicate, set,
}
use esp32c3_bootloader_rust.Platform.{Platform, efuse_hal_flash_encryption_enabled}
use esp32c3_bootloader_rust.Board.{board, read_bytes, flash_with, powered_on}
use esp32c3_bootloader_rust.Flash.{
  bootloader_mmap, bootloader_munmap, flash_encryption_enabled, flash_read_raw,
}
use esp32c3_bootloader_rust.Flash.Stored.{stored}
use esp32c3_bootloader_rust.Ota.Recorded.{IsLocal, set_actual_ota_seq-active}
use esp32c3_bootloader_rust.Image.Segments.{PartitionPos}
use esp32c3_bootloader_rust.Partition.{BootloaderState, no_partition, default_state}
use esp32c3_bootloader_rust.Ota.{
  slot_index, EspOtaSelectEntry, OtaData, esp_ota_img_valid, esp_ota_img_pending_verify,
  bootloader_common_ota_select_crc, bootloader_common_ota_select_valid,
  bootloader_common_get_active_otadata, abort_pending, chosen_slot, pending_entry, parse_select,
  select_bytes, bootloader_common_read_otadata, set_actual_ota_seq,
}
use esp32c3_bootloader_rust.Crc.{esp_rom_crc32_le}
use esp32c3_bootloader_rust.Ota.Select.{
  IsValid, Wins, rolled_back, chosen_slot_lem, rollback_chosen_slot, rollback_repeats,
}

-- A confirmed entry for a slot, and a state with a partition in slot 1.
unfoldable confirmed : ℕ → EspOtaSelectEntry
unfolding pending_entry
confirmed slot = record (pending_entry slot) { ota_state = esp_ota_img_valid }

abbrev slot_one : PartitionPos
slot_one = record { offset = 0x11_0000; size = 0x10_0000 }

abbrev state : BootloaderState
state = record default_state { ota = set (replicate 16 no_partition) 1 slot_one; app_count = 2 }

-- Slot 0 was confirmed, then slot 1; slot 1 is chosen.
abbrev data_two : OtaData
data_two = record { entry0 = confirmed 0; entry1 = confirmed 1 }

-- Slot 1 was confirmed, and its next boot is pending.
abbrev data_pending : OtaData
data_pending = record { entry0 = confirmed 1; entry1 = pending_entry 1 }

confirmed-IsValid : IsValid (confirmed 1)
unfolding confirmed bootloader_common_ota_select_valid bootloader_common_ota_select_crc
    esp_rom_crc32_le
confirmed-IsValid = refl

chosen_slot_lem_example :
    (1 < 16)
    × ((get_or state.ota 1 no_partition).size ≢ 0)
    × ((Wins data_two.entry0 data_two.entry1 × (data_two.entry0.ota_seq ≡ 1 + 1))
        ⊎ (Wins data_two.entry1 data_two.entry0 × (data_two.entry1.ota_seq ≡ 1 + 1)))
unfolding confirmed chosen_slot bootloader_common_ota_select_valid bootloader_common_ota_select_crc
    esp_rom_crc32_le
chosen_slot_lem_example = chosen_slot_lem state data_two 1 (omega arith) (omega arith) refl

rollback_chosen_slot_example :
    (1 < 16)
    × ((get_or state.ota 1 no_partition).size ≢ 0)
    × (e : EspOtaSelectEntry) × ((e ≡ data_pending.entry0) ⊎ (e ≡ data_pending.entry1))
    × IsValid e
    × (e.ota_state ≢ esp_ota_img_pending_verify)
    × (e.ota_seq ≡ 1 + 1)
unfolding confirmed chosen_slot abort_pending bootloader_common_ota_select_valid
    bootloader_common_ota_select_crc esp_rom_crc32_le
rollback_chosen_slot_example =
    rollback_chosen_slot state data_pending 1 (omega arith) (omega arith) refl

read_bytes-same :
    (f g : ℕ → ℕ) (a n : ℕ)
    → ((b : ℕ) → a ≤ b → b < a + n → f b ≡ g b)
    → read_bytes f a n ≡ read_bytes g a n
unfolding read_bytes
read_bytes-same f g a zero h = refl
read_bytes-same f g a (suc n) h =
    ap₂ (λ x (xs : List ℕ). x % 256 ∷ xs) (h a (omega arith) (omega arith))
      (read_bytes-same f g (a + 1) n (λ b lo hi. h b (omega arith) (omega arith)))

-- A board whose flash is erased and written.
unfoldable storage : Platform (ℕ → ℕ)
unfolding board
storage = record board {
  spiflash_erase_sector =
      λ flash s. (true, λ a. if leb (s * 4096) a && ltb a (s * 4096 + 4096) then 255 else flash a);
  spiflash_write = λ flash addr bytes. (
    true,
    λ a. if leb addr a && ltb a (addr + length bytes) then get_or bytes (a - addr) 255 else flash a,
  );
}

storage-IsLocal : IsLocal storage
unfolding storage stored board efuse_hal_flash_encryption_enabled
storage-IsLocal = record {
  erased = λ c s a n fits apart.
      ap some (read_bytes-same _ _ _ n (λ b lo hi. ground (arith, fits, apart, lo, hi)));
  written = λ c addr bytes a n fits apart.
      ap some (read_bytes-same _ _ _ n (λ b lo hi. ground (arith, fits, apart, lo, hi)));
  waited = λ c a n. refl;
}

-- The OTA data of the two slots in two sectors; the second is active.
unfoldable both_sectors : ℕ → ℕ
unfolding confirmed select_bytes bootloader_common_ota_select_crc esp_rom_crc32_le
both_sectors a =
    if ltb a 0x1_1000
    then flash_with 0x1_0000 (select_bytes (confirmed 0)) a
    else flash_with 0x1_1000 (select_bytes (confirmed 1)) a

abbrev with_ota : BootloaderState
with_ota = record state { ota_info = record { offset = 0x1_0000; size = 0x2000 } }

read_both :
    (bootloader_common_read_otadata storage with_ota.ota_info (powered_on both_sectors)).0
    ≡ some data_two
unfolding bootloader_common_read_otadata bootloader_mmap bootloader_munmap flash_encryption_enabled
    flash_read_raw storage board read_bytes both_sectors parse_select select_bytes confirmed
    efuse_hal_flash_encryption_enabled bootloader_common_ota_select_crc esp_rom_crc32_le
    pending_entry
read_both = refl

set_actual_ota_seq-active_example :
    stored storage
      (set_actual_ota_seq storage with_ota (slot_index 0) (powered_on both_sectors)).chip
      (0x1_0000 + 1 * 4096)
      12
    ≡ stored storage both_sectors (0x1_0000 + 1 * 4096) 12
unfolding confirmed bootloader_common_get_active_otadata bootloader_common_ota_select_valid
    bootloader_common_ota_select_crc esp_rom_crc32_le
set_actual_ota_seq-active_example =
    set_actual_ota_seq-active storage with_ota 0 (powered_on both_sectors) data_two 1
      storage-IsLocal refl (omega arith) read_both refl

rollback_repeats_example : chosen_slot state (rolled_back data_pending) ≡ slot_index 1
unfolding confirmed
rollback_repeats_example =
    rollback_repeats state (confirmed 1) 1 (omega arith) (omega arith) confirmed-IsValid
      (omega arith) refl
