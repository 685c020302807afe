-- ===== src/Efuse/Tests.antt =====
-- The eFuse of the test board.
use esp32c3_bootloader_rust.Common.{◌/◌, ◌%◌, ◌^◌, ◌≡◌, ◌==◌}
use esp32c3_bootloader_rust.Board.{board}
use esp32c3_bootloader_rust.Platform.{
  efuse_hal_get_disable_wafer_version_major, efuse_get_secure_version,
}
use esp32c3_bootloader_rust.Efuse.{disable_wafer_version_major-secure_version}

disable_wafer_version_major-secure_version_example :
    efuse_hal_get_disable_wafer_version_major (record board { efuse = λ offset. 0x8_0000 })
    ≡ (efuse_get_secure_version (record board { efuse = λ offset. 0x8_0000 }) / 2 ^ 5 % 2 == 1)
disable_wafer_version_major-secure_version_example =
    disable_wafer_version_major-secure_version (record board { efuse = λ offset. 0x8_0000 })
