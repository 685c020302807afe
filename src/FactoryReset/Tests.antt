-- ===== src/FactoryReset/Tests.antt =====
-- Labels in a list, and a table with one data partition.
use esp32c3_bootloader_rust.Common.{ℕ, ◌≡◌, ◌≢◌, ◌↔◌, refl, List, [], ◌∷◌, ◌++◌, true, replicate}
use esp32c3_bootloader_rust.Platform.{efuse_hal_flash_encryption_enabled}
use esp32c3_bootloader_rust.Board.{board, flash_with, powered_on}
use esp32c3_bootloader_rust.Flash.{bootloader_mmap}
use esp32c3_bootloader_rust.Partition.{parse_table}
use esp32c3_bootloader_rust.FactoryReset.{
  split_commas, is_listed, trim, zip_equal, bootloader_common_erase_part_type_data,
}
use esp32c3_bootloader_rust.FactoryReset.Labels.{IsField, is_listed_iff}
use esp32c3_bootloader_rust.FactoryReset.Erased.{reset_data, erase_part_type_data-named}
use esp32c3_bootloader_rust.Ota.Choice.{nvs_phy_otadata}

abbrev phy : List ℕ
phy = b'p' ∷ b'h' ∷ b'y' ∷ []

-- The space behind the comma is trimmed.
phy_listed : is_listed phy (split_commas nvs_phy_otadata) ≡ true
unfolding is_listed split_commas zip_equal trim
phy_listed = refl

is_listed_iff_example :
    (is_listed phy (split_commas nvs_phy_otadata) ≡ true)
    ↔ ((phy ≢ []) × IsField phy (split_commas nvs_phy_otadata))
is_listed_iff_example = is_listed_iff phy (split_commas nvs_phy_otadata)

-- One entry of the table, for the data partition `phy` at 0xF000.
abbrev entry : List ℕ
entry = 0xAA ∷ 0x50 ∷ 1 ∷ 1 ∷ 0 ∷ 0xF0 ∷ 0 ∷ 0 ∷ 0 ∷ 0x10 ∷ 0 ∷ 0 ∷ (phy ++ replicate 17 0)

abbrev table : ℕ → ℕ
table = flash_with 0x8000 entry

erase_part_type_data-named_example :
    bootloader_common_erase_part_type_data board nvs_phy_otadata true (powered_on table)
    ≡ reset_data board nvs_phy_otadata true
        (bootloader_mmap board (powered_on table) 0x8000 0xC00).0
        (bootloader_mmap board (powered_on table) 0x8000 0xC00).1
erase_part_type_data-named_example =
    erase_part_type_data-named board nvs_phy_otadata true (powered_on table)

phy_found :
    (bootloader_common_erase_part_type_data board nvs_phy_otadata true (powered_on table)).0 ≡ true
unfolding bootloader_common_erase_part_type_data bootloader_mmap board
    efuse_hal_flash_encryption_enabled parse_table
phy_found = refl
