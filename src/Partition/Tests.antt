-- ===== src/Partition/Tests.antt =====
-- A table of two partitions on the test board.
use esp32c3_bootloader_rust.Common.{ℕ, ◌≡◌, ◌↔◌, refl, arith, List, [], true, false, length, take}
use esp32c3_bootloader_rust.Board.{table_bytes, board, board-Delivers, flash_with, powered_on}
use esp32c3_bootloader_rust.Flash.{Machine}
use esp32c3_bootloader_rust.Partition.{
  EspPartitionInfo, parse_table, default_state, max_partitions, esp_partition_table_verify,
  bootloader_utility_load_partition_table,
}
use esp32c3_bootloader_rust.Partition.Verify.{IsTable, leading, esp_partition_table_verify_iff}
use esp32c3_bootloader_rust.Partition.Load.{IsLoaded, load_partition_table-IsLoaded}

abbrev table : List EspPartitionInfo
table = parse_table 3 table_bytes

abbrev machine : Machine (ℕ → ℕ)
machine = powered_on (flash_with 0x8000 table_bytes)

table_is_valid : esp_partition_table_verify table ≡ (true, 2)
unfolding esp_partition_table_verify parse_table
table_is_valid = refl

esp_partition_table_verify_iff_example :
    (((esp_partition_table_verify table).0 ≡ true)
      ↔ IsTable [] (leading (take max_partitions table)))
    × ((esp_partition_table_verify table).1 ≡ length (leading (take max_partitions table)))
unfolding parse_table
esp_partition_table_verify_iff_example =
    esp_partition_table_verify_iff table
      ((omega arith, omega arith), ((omega arith, omega arith), ((omega arith, omega arith), tt)))

load_partition_table-IsLoaded_example :
    let after = bootloader_utility_load_partition_table board default_state machine in
    (after.2.mapped ≡ machine.mapped)
    × (after.0 ≡ true → IsLoaded after.1)
    × (after.0 ≡ false → after.1 ≡ default_state)
load_partition_table-IsLoaded_example =
    load_partition_table-IsLoaded board default_state machine board-Delivers
