-- ===== src/Boot/Verified.antt =====
-- What the bootloader boots is intact: the search of src/utility.rs ends with a reset, or with a
-- jump to the entry point of an image that was found intact in the flash.
use esp32c3_bootloader_rust.Common.{
  ℕ, zero, suc, ◌+◌, ◌-◌, ◌≡◌, refl, true, Bool-cases, Option-cases, inl, inr,
}
use esp32c3_bootloader_rust.Platform.{Platform}
use esp32c3_bootloader_rust.Flash.{Machine, debug_tx_str}
use esp32c3_bootloader_rust.Image.{EspImageMetadata, zeroed}
use esp32c3_bootloader_rust.Image.Segments.{PartitionPos}
use esp32c3_bootloader_rust.Image.Process.Layout.{IsIntact}
use esp32c3_bootloader_rust.Partition.{BootloaderState}
use esp32c3_bootloader_rust.Ota.{
  PartIndex, invalid_index, test_app_index, factory_index, slot_index,
}
use esp32c3_bootloader_rust.Boot.{
  Attempt, launched, failed, or_else, attempt, get_partition, try_load_partition, test_attempt,
  backward_sweep, forward_sweep, search_from, bootloader_utility_load_boot_image,
}
use esp32c3_bootloader_rust.Boot.Handover.{BootEnd, jump, reset, load_image, bootloader_reset}
use Prim.Native.String.{String}
use esp32c3_bootloader_rust.Boot.Ready.{
  IsReady, said, try_load_partition-Ready, try_load_partition-IsIntact,
}

module _ {Chip : Type 0} (env : Platform Chip) (c : Chip) where
  -- The address is the entry point of an image that is intact in the flash.
  pub record IsIntactEntry (addr : ℕ) : Type 0 where
    pub part : PartitionPos
    pub meta : EspImageMetadata
    pub intact : IsIntact env c part.offset meta
    pub entry : addr ≡ meta.image.entry_addr

  abbrev pub IsVerified : BootEnd Chip → Type 0
  IsVerified (jump addr m) = IsIntactEntry addr
  IsVerified (reset m) = Unit

  abbrev Ready : Machine Chip → Type 0
  Ready = IsReady env c

  abbrev AttemptVerified : Attempt env → Type 0
  AttemptVerified (launched e) = IsVerified e
  AttemptVerified (failed meta m) = Ready m

  load_image-IsVerified :
      (meta : EspImageMetadata) (m : Machine Chip)
      → IsIntactEntry meta.image.entry_addr
      → IsVerified (load_image env meta m)
  unfolding load_image
  load_image-IsVerified meta m h = h

  loaded_entry :
      (part : PartitionPos) (meta : EspImageMetadata) (m : Machine Chip)
      → Ready m
      → (try_load_partition env part meta m).0 ≡ true
      → IsIntactEntry (try_load_partition env part meta m).1.image.entry_addr
  loaded_entry part meta m r e = record {
    part = part;
    meta = (try_load_partition env part meta m).1;
    intact = try_load_partition-IsIntact env c part meta m r e;
    entry = refl;
  }

  attempt-verified :
      (tag : String) (bs : BootloaderState) (index : PartIndex) (meta : EspImageMetadata)
      (m : Machine Chip)
      → Ready m
      → AttemptVerified (attempt env tag bs index meta m)
  unfolding attempt
  attempt-verified tag bs index meta m r = elim (Option-cases (get_partition bs index)) [
    | inl e ↦ rw (e, attempt) r
    | inr (part, e) ↦ elim (Bool-cases (try_load_partition env part meta m).0) [
      | inl ok ↦
          rw (e, attempt) (rw (ok) (load_image-IsVerified _ _ (loaded_entry part meta m r ok)))
      | inr ko ↦ rw (e, attempt) (rw (ko) (try_load_partition-Ready env c part meta m r))
    ]
  ]

  or_else-verified :
      (x : Attempt env) (next : EspImageMetadata → Machine Chip → Attempt env)
      → AttemptVerified x
      → ((meta : EspImageMetadata) (m : Machine Chip) → Ready m → AttemptVerified (next meta m))
      → AttemptVerified (or_else env x next)
  or_else-verified (launched e) next h k = h
  or_else-verified (failed meta m) next h k = k meta m h

  backward-verified :
      (n : ℕ) (bs : BootloaderState) (meta : EspImageMetadata) (m : Machine Chip)
      → Ready m
      → AttemptVerified (backward_sweep env n bs meta m)
  unfolding backward_sweep
  backward-verified zero bs meta m r = attempt-verified "[J]" bs factory_index meta m r
  backward-verified (suc n) bs meta m r =
      or_else-verified (attempt env "[J]" bs (slot_index n) meta m) (backward_sweep env n bs)
        (attempt-verified "[J]" bs (slot_index n) meta m r) (backward-verified n bs)

  forward-verified :
      (n i : ℕ) (bs : BootloaderState) (meta : EspImageMetadata) (m : Machine Chip)
      → Ready m
      → AttemptVerified (forward_sweep env n i bs meta m)
  unfolding forward_sweep
  forward-verified zero i bs meta m r = r
  forward-verified (suc n) i bs meta m r =
      or_else-verified (attempt env "[K]" bs (slot_index i) meta m) (forward_sweep env n (i + 1) bs)
        (attempt-verified "[K]" bs (slot_index i) meta m r) (forward-verified n (i + 1) bs)

  test-verified :
      (bs : BootloaderState) (meta : EspImageMetadata) (m : Machine Chip)
      → Ready m
      → AttemptVerified (test_attempt env bs meta m)
  unfolding test_attempt
  test-verified bs meta m r = elim (Bool-cases (try_load_partition env bs.test meta m).0) [
    | inl ok ↦ rw (ok) (load_image-IsVerified _ _ (loaded_entry bs.test meta m r ok))
    | inr ko ↦ rw (ko) (try_load_partition-Ready env c bs.test meta m r)
  ]

  factory-verified :
      (bs : BootloaderState) (meta : EspImageMetadata) (m : Machine Chip)
      → Ready m
      → AttemptVerified
          (or_else env (backward_sweep env 0 bs meta m) (forward_sweep env bs.app_count 0 bs))
  factory-verified bs meta m r =
      or_else-verified (backward_sweep env 0 bs meta m) (forward_sweep env bs.app_count 0 bs)
        (backward-verified 0 bs meta m r) (forward-verified bs.app_count 0 bs)

  search_from-verified :
      (index : PartIndex) (bs : BootloaderState) (meta : EspImageMetadata) (m : Machine Chip)
      → Ready m
      → AttemptVerified (search_from env index bs meta m)
  unfolding search_from
  search_from-verified (slot_index k) bs meta m r =
      or_else-verified (backward_sweep env (suc k) bs meta m) _
        (backward-verified (suc k) bs meta m r)
        (forward-verified (bs.app_count - (k + 1)) (k + 1) bs)
  search_from-verified test_app_index bs meta m r =
      or_else-verified (test_attempt env bs meta m) _ (test-verified bs meta m r)
        (factory-verified bs)
  search_from-verified factory_index bs meta m r = factory-verified bs meta m r
  search_from-verified invalid_index bs meta m r = factory-verified bs meta m r

  ended :
      (x : Attempt env)
      → AttemptVerified x
      → IsVerified (elim x [ launched e ↦ e | failed meta m1 ↦ bootloader_reset env m1 ])
  unfolding bootloader_reset
  ended (launched e) h = h
  ended (failed meta m1) h = tt

-- Whatever the partitions hold and in whichever order they are tried, the search for a boot image
-- on a machine with a free SHA-256 context, an eFuse that is not misread and no page of the cache
-- window recorded ends with a reset, or with a jump to the entry point of an image that is intact
-- in the flash: the header that holds this entry point is accepted, the checksum byte is right, and
-- so is the appended hash unless the header says that there is none.
pub load_boot_image-IsVerified :
    {Chip : Type 0} (env : Platform Chip) (bs : BootloaderState) (index : PartIndex)
    (m : Machine Chip)
    → IsReady env m.chip m
    → IsVerified env m.chip (bootloader_utility_load_boot_image env bs index m)
unfolding bootloader_utility_load_boot_image
load_boot_image-IsVerified env bs index m r =
    ended env m.chip (search_from env index bs zeroed (debug_tx_str "[I]" m))
      (search_from-verified env m.chip index bs zeroed _ (said env m.chip "[I]" m r))
