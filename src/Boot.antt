-- ===== src/Boot.antt =====
-- src/utility.rs: loading an image from a candidate partition, the order of the candidates, and
-- the hand-over to the application; the boot orchestration of src/main.rs.
pub mod Handover
pub mod Order
pub mod Layout
pub mod DeepSleep
pub mod Loaded
pub mod Sound
pub mod Outcome
pub mod Ready
pub mod Verified
pub mod Resume
mod Tests
use esp32c3_bootloader_rust.Common.{
  ℕ, zero, suc, ◌+◌, ◌-◌, ◌*◌, ◌/◌, ◌%◌, ◌^◌, bit_and, List, [], ◌∷◌, Bool, true, false, ◌&&◌, ◌||◌,
  not, Option, none, some, if◌then◌else◌, ltb, leb, ◌==◌, u32_at, add32, sub32, not32, get_or,
}
use esp32c3_bootloader_rust.Platform.{
  Platform, RomCall, cache_disable_icache, cache_invalidate_icache_all, cache_mmu_init,
  cache_dbus_mmu_set, cache_ibus_mmu_set, cache_enable_icache, output_tx_wait_idle, delay_us,
  efuse_get_secure_version,
}
use esp32c3_bootloader_rust.Flash.{Machine, bootloader_mmap, bootloader_munmap, debug_tx_str}
use esp32c3_bootloader_rust.Image.{EspImageSegmentHeader, EspImageMetadata, no_segment, zeroed}
use esp32c3_bootloader_rust.Image.Process.{bootloader_load_image}
use esp32c3_bootloader_rust.Image.Segments.{PartitionPos}
use esp32c3_bootloader_rust.Partition.{BootloaderState, no_partition, default_state}
use esp32c3_bootloader_rust.Ota.{
  PartIndex, invalid_index, test_app_index, factory_index, slot_index, max_ota_slots,
  set_actual_ota_seq,
}
use esp32c3_bootloader_rust.Ota.Choice.{select_partition_number}
use Prim.Native.String.{String}
use esp32c3_bootloader_rust.Boot.Handover.{
  SegmentInfo, no_info, is_drom, is_irom, note_segment, extract_from, extract_segment_info, BootEnd,
  page_base, page_count, bootloader_atexit, bootloader_reset, set_cache_and_start_app, load_image,
  jump, reset,
}

unfoldable pub get_partition : BootloaderState → PartIndex → Option PartitionPos
get_partition bs factory_index = some bs.factory
get_partition bs test_app_index = some bs.test
get_partition bs invalid_index = none
get_partition bs (slot_index i) =
    if ltb i max_ota_slots && ltb 0 (get_or bs.ota i no_partition).size
    then some (get_or bs.ota i no_partition)
    else none

module _ {Chip : Type 0} (env : Platform Chip) where
  unfoldable pub check_anti_rollback : PartitionPos → Machine Chip → Bool × Machine Chip
  check_anti_rollback part m =
      let (mapping, m1) = bootloader_mmap env m (add32 part.offset 32) 8 in
      elim mapping [
        | none ↦ (true, m1)
        | some bytes ↦
            if not (u32_at bytes 0 == 0xABCD_5432)
            then (true, bootloader_munmap m1)
            else if ltb (u32_at bytes 4) (efuse_get_secure_version env)
            then (false, debug_tx_str "[R]" (bootloader_munmap m1))
            else (true, bootloader_munmap m1)
      ]

  unfoldable pub try_load_partition :
      PartitionPos → EspImageMetadata → Machine Chip → Bool × EspImageMetadata × Machine Chip
  try_load_partition part meta m =
      let (fresh_enough, m1) = check_anti_rollback part m in
      let (ok, meta', m2) = bootloader_load_image env part meta (debug_tx_str "[L]" m1) in
      if part.size == 0
      then (false, meta, debug_tx_str "[z]" m)
      else if not fresh_enough
      then (false, meta, debug_tx_str "[a]" m1)
      else (ok, meta', debug_tx_str (if ok then "[l]" else "[x]") m2)

  -- One candidate: the application is launched, or the search goes on from the state reached.
  pub data Attempt : Type 0 where
    launched : BootEnd Chip → Attempt
    failed : EspImageMetadata → Machine Chip → Attempt

  -- The body of the two `while` loops, which differ in the tag that they print.
  unfoldable pub attempt :
      String → BootloaderState → PartIndex → EspImageMetadata → Machine Chip → Attempt
  attempt tag bs index meta m = elim (get_partition bs index) [
    | none ↦ failed meta m
    | some part ↦
        let (ok, meta', m1) = try_load_partition part meta m in
        if ok
        then launched (load_image env meta' (debug_tx_str tag (set_actual_ota_seq env bs index m1)))
        else failed meta' m1
  ]

  abbrev pub or_else : Attempt → (EspImageMetadata → Machine Chip → Attempt) → Attempt
  or_else (launched e) next = launched e
  or_else (failed meta m) next = next meta m

  -- `while i >= FACTORY_INDEX`, from slot `n - 1` down and then the factory partition.
  unfoldable pub backward_sweep : ℕ → BootloaderState → EspImageMetadata → Machine Chip → Attempt
  backward_sweep zero bs meta m = attempt "[J]" bs factory_index meta m
  backward_sweep (suc n) bs meta m =
      or_else (attempt "[J]" bs (slot_index n) meta m) (backward_sweep n bs)

  -- `while i < bs.app_count`, with `n` slots to go.
  unfoldable pub forward_sweep : ℕ → ℕ → BootloaderState → EspImageMetadata → Machine Chip → Attempt
  forward_sweep zero i bs meta m = failed meta m
  forward_sweep (suc n) i bs meta m =
      or_else (attempt "[K]" bs (slot_index i) meta m) (forward_sweep n (i + 1) bs)

  -- The test application is tried without a GPIO check, and no OTA entry is written for it.
  unfoldable pub test_attempt : BootloaderState → EspImageMetadata → Machine Chip → Attempt
  test_attempt bs meta m =
      let (ok, meta', m1) = try_load_partition bs.test meta m in
      if ok then launched (load_image env meta' m1) else failed meta' m1

  -- The search from each start index, which is never the invalid one (the caller resets).
  unfoldable pub search_from :
      PartIndex → BootloaderState → EspImageMetadata → Machine Chip → Attempt
  unfolding backward_sweep forward_sweep test_attempt
  search_from (slot_index k) bs meta m =
      or_else (backward_sweep (suc k) bs meta m) (forward_sweep (bs.app_count - (k + 1)) (k + 1) bs)
  search_from test_app_index bs meta m =
      or_else (test_attempt bs meta m)
        λ meta' m1. or_else (backward_sweep 0 bs meta' m1) (forward_sweep bs.app_count 0 bs)
  search_from _ bs meta m = or_else (backward_sweep 0 bs meta m) (forward_sweep bs.app_count 0 bs)

  unfoldable pub bootloader_utility_load_boot_image :
      BootloaderState → PartIndex → Machine Chip → BootEnd Chip
  bootloader_utility_load_boot_image bs start_index m =
      elim (search_from start_index bs zeroed (debug_tx_str "[I]" m)) [
        | launched e ↦ e
        | failed meta m1 ↦ bootloader_reset env m1
      ]

  unfoldable pub boot_from : PartIndex → BootloaderState → Machine Chip → BootEnd Chip
  boot_from invalid_index bs m = bootloader_reset env m
  boot_from index bs m = bootloader_utility_load_boot_image bs index m

  -- `call_start_cpu0` after the hardware is initialised and the shell has chosen to boot.
  unfoldable pub boot : Machine Chip → BootEnd Chip
  unfolding boot_from
  boot m =
      let (index, bs, m1) = select_partition_number env default_state m in boot_from index bs m1
