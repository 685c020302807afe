-- ===== src/Boot/Outcome.antt =====
-- The whole of `call_start_cpu0` after the shell has chosen to boot: the choice of a partition, and
-- the search from it.
use esp32c3_bootloader_rust.Common.{◌≡◌, refl, true, false, length, get_or}
use esp32c3_bootloader_rust.Platform.{Platform}
use esp32c3_bootloader_rust.Flash.{Machine}
use esp32c3_bootloader_rust.Flash.Stored.{Knows}
use esp32c3_bootloader_rust.Sha256.Pool.{Pool}
use esp32c3_bootloader_rust.Partition.{BootloaderState, default_state}
use esp32c3_bootloader_rust.Ota.{
  PartIndex, invalid_index, test_app_index, factory_index, slot_index,
}
use esp32c3_bootloader_rust.Ota.Choice.{select_partition_number}
use esp32c3_bootloader_rust.Boot.{boot, boot_from}
use esp32c3_bootloader_rust.Boot.Ready.{IsReady}
use esp32c3_bootloader_rust.Boot.Verified.{IsVerified, load_boot_image-IsVerified}
use esp32c3_bootloader_rust.Boot.Sound.{IsSound}
use esp32c3_bootloader_rust.Boot.Sound.Choice.{select_partition_number-IsSound}
use esp32c3_bootloader_rust.Boot.Handover.{bootloader_reset}

-- Both SHA-256 contexts exist, and the first is free.
pub record IsIdle (p : Pool) : Type 0 where
  pub used_size : length p.used ≡ 2
  pub contexts_size : length p.contexts ≡ 2
  pub free : get_or p.used 0 true ≡ false

module _ {Chip : Type 0} (env : Platform Chip) where
  sound-Ready : (p : Pool) (m : Machine Chip) → IsIdle p → IsSound env p m → IsReady env m.chip m
  sound-Ready p m i s = record {
    steady = record {
      same_chip = refl;
      knows = s.knows;
      contexts_size = rw s.same_pool i.contexts_size;
    };
    used_size = rw s.same_pool i.used_size;
    free = rw s.same_pool i.free;
  }

  -- The chip on which the images are looked for: the choice has written what it writes.
  abbrev pub searched_chip : Machine Chip → Chip
  searched_chip m = (select_partition_number env default_state m).2.chip

  boot_from-IsVerified :
      (index : PartIndex) (bs : BootloaderState) (m : Machine Chip)
      → IsReady env m.chip m
      → IsVerified env m.chip (boot_from env index bs m)
  unfolding boot_from bootloader_reset
  boot_from-IsVerified invalid_index bs m r = tt
  boot_from-IsVerified test_app_index bs m r = load_boot_image-IsVerified env bs test_app_index m r
  boot_from-IsVerified factory_index bs m r = load_boot_image-IsVerified env bs factory_index m r
  boot_from-IsVerified (slot_index i) bs m r = load_boot_image-IsVerified env bs (slot_index i) m r

-- The boot of a machine whose SHA-256 contexts are free, that has not misread the flash encryption
-- eFuse and has no page of the cache window recorded, whatever its flash holds: the partition
-- table and the OTA data are read, the pins may ask for a factory reset or the test application,
-- and each end of the boot is a reset, or a jump to the entry point of an image that is intact in
-- the flash as it is when the search for an image starts.
pub boot-IsVerified :
    {Chip : Type 0} (env : Platform Chip) (m : Machine Chip)
    → IsIdle m.pool
    → Knows env m
    → IsVerified env (searched_chip env m) (boot env m)
unfolding boot
boot-IsVerified env m idle knows =
    let (index, bs, m1) = select_partition_number env default_state m in
    boot_from-IsVerified env index bs m1 (
      sound-Ready env m.pool m1 idle (
        select_partition_number-IsSound env m.pool default_state m
          (record { same_pool = refl; knows = knows })))
