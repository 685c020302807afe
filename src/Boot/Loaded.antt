-- ===== src/Boot/Loaded.antt =====
-- The bootloader jumps only into an image that it has loaded.
use esp32c3_bootloader_rust.Common.{
  ℕ, zero, suc, ◌+◌, ◌-◌, ◌≡◌, refl, true, Bool-cases, Option-cases, inl, inr,
}
use esp32c3_bootloader_rust.Platform.{Platform}
use esp32c3_bootloader_rust.Flash.{Machine, debug_tx_str}
use esp32c3_bootloader_rust.Image.{EspImageMetadata, zeroed}
use esp32c3_bootloader_rust.Image.Segments.{PartitionPos}
use esp32c3_bootloader_rust.Partition.{BootloaderState, default_state}
use esp32c3_bootloader_rust.Ota.{
  PartIndex, invalid_index, test_app_index, factory_index, slot_index,
}
use esp32c3_bootloader_rust.Ota.Choice.{select_partition_number}
use esp32c3_bootloader_rust.Boot.{
  Attempt, launched, failed, or_else, attempt, get_partition, try_load_partition, test_attempt,
  backward_sweep, forward_sweep, search_from, bootloader_utility_load_boot_image, boot_from, boot,
}
use esp32c3_bootloader_rust.Boot.Handover.{BootEnd, jump, reset, load_image, bootloader_reset}
use Prim.Native.String.{String}

module _ {Chip : Type 0} (env : Platform Chip) where
  -- A verified load of some partition has succeeded, and the image's entry point is the address.
  pub record IsEntry (addr : ℕ) : Type 0 where
    pub part : PartitionPos
    pub meta : EspImageMetadata
    pub machine : Machine Chip
    pub loads : (try_load_partition env part meta machine).0 ≡ true
    pub entry : addr ≡ (try_load_partition env part meta machine).1.image.entry_addr

  -- The boot ends with a reset, or at the entry point of a loaded image.
  abbrev pub IsSafe : BootEnd Chip → Type 0
  IsSafe (jump addr m) = IsEntry addr
  IsSafe (reset m) = Unit

  abbrev AttemptSafe : Attempt env → Type 0
  AttemptSafe (launched e) = IsSafe e
  AttemptSafe (failed meta m) = Unit

  load_image-IsSafe :
      (meta : EspImageMetadata) (m : Machine Chip)
      → IsEntry meta.image.entry_addr
      → IsSafe (load_image env meta m)
  unfolding load_image
  load_image-IsSafe meta m h = h

  loaded-IsEntry :
      (part : PartitionPos) (meta : EspImageMetadata) (m : Machine Chip)
      → (try_load_partition env part meta m).0 ≡ true
      → IsEntry (try_load_partition env part meta m).1.image.entry_addr
  loaded-IsEntry part meta m e = record {
    part = part;
    meta = meta;
    machine = m;
    loads = e;
    entry = refl;
  }

  attempt-safe :
      (tag : String) (bs : BootloaderState) (index : PartIndex) (meta : EspImageMetadata)
      (m : Machine Chip)
      → AttemptSafe (attempt env tag bs index meta m)
  unfolding attempt
  attempt-safe tag bs index meta m = elim (Option-cases (get_partition bs index)) [
    | inl e ↦ rw (e, attempt) tt
    | inr (part, e) ↦ elim (Bool-cases (try_load_partition env part meta m).0) [
      | inl ok ↦ rw (e, attempt) (rw (ok) (load_image-IsSafe _ _ (loaded-IsEntry part meta m ok)))
      | inr ko ↦ rw (e, attempt) (rw (ko) tt)
    ]
  ]

  or_else-safe :
      (x : Attempt env) (next : EspImageMetadata → Machine Chip → Attempt env)
      → AttemptSafe x
      → ((meta : EspImageMetadata) (m : Machine Chip) → AttemptSafe (next meta m))
      → AttemptSafe (or_else env x next)
  or_else-safe (launched e) next h k = h
  or_else-safe (failed meta m) next h k = k meta m

  backward-safe :
      (n : ℕ) (bs : BootloaderState) (meta : EspImageMetadata) (m : Machine Chip)
      → AttemptSafe (backward_sweep env n bs meta m)
  unfolding backward_sweep
  backward-safe zero bs meta m = attempt-safe "[J]" bs factory_index meta m
  backward-safe (suc n) bs meta m =
      or_else-safe (attempt env "[J]" bs (slot_index n) meta m) (backward_sweep env n bs)
        (attempt-safe "[J]" bs (slot_index n) meta m) (backward-safe n bs)

  forward-safe :
      (n i : ℕ) (bs : BootloaderState) (meta : EspImageMetadata) (m : Machine Chip)
      → AttemptSafe (forward_sweep env n i bs meta m)
  unfolding forward_sweep
  forward-safe zero i bs meta m = tt
  forward-safe (suc n) i bs meta m =
      or_else-safe (attempt env "[K]" bs (slot_index i) meta m) (forward_sweep env n (i + 1) bs)
        (attempt-safe "[K]" bs (slot_index i) meta m) (forward-safe n (i + 1) bs)

  test-safe :
      (bs : BootloaderState) (meta : EspImageMetadata) (m : Machine Chip)
      → AttemptSafe (test_attempt env bs meta m)
  unfolding test_attempt
  test-safe bs meta m = elim (Bool-cases (try_load_partition env bs.test meta m).0) [
    | inl ok ↦ rw (ok) (load_image-IsSafe _ _ (loaded-IsEntry bs.test meta m ok))
    | inr ko ↦ rw (ko) tt
  ]

  -- The factory partition and then every slot.
  factory-safe :
      (bs : BootloaderState) (meta : EspImageMetadata) (m : Machine Chip)
      → AttemptSafe
          (or_else env (backward_sweep env 0 bs meta m) (forward_sweep env bs.app_count 0 bs))
  factory-safe bs meta m =
      or_else-safe (backward_sweep env 0 bs meta m) (forward_sweep env bs.app_count 0 bs)
        (backward-safe 0 bs meta m) (forward-safe bs.app_count 0 bs)

  search_from-safe :
      (index : PartIndex) (bs : BootloaderState) (meta : EspImageMetadata) (m : Machine Chip)
      → AttemptSafe (search_from env index bs meta m)
  unfolding search_from
  search_from-safe (slot_index k) bs meta m =
      or_else-safe (backward_sweep env (suc k) bs meta m) _ (backward-safe (suc k) bs meta m)
        (forward-safe (bs.app_count - (k + 1)) (k + 1) bs)
  search_from-safe test_app_index bs meta m =
      or_else-safe (test_attempt env bs meta m) _ (test-safe bs meta m) (factory-safe bs)
  search_from-safe factory_index bs meta m = factory-safe bs meta m
  search_from-safe invalid_index bs meta m = factory-safe bs meta m

  pub bootloader_reset-IsSafe : (m : Machine Chip) → IsSafe (bootloader_reset env m)
  unfolding bootloader_reset
  bootloader_reset-IsSafe m = tt

  load_boot_image-IsSafe :
      (bs : BootloaderState) (index : PartIndex) (m : Machine Chip)
      → IsSafe (bootloader_utility_load_boot_image env bs index m)
  unfolding bootloader_utility_load_boot_image
  load_boot_image-IsSafe bs index m =
      ended (search_from env index bs zeroed (debug_tx_str "[I]" m))
        (search_from-safe index bs zeroed _)
    where
      ended :
          (x : Attempt env)
          → AttemptSafe x
          → IsSafe (elim x [ launched e ↦ e | failed meta m1 ↦ bootloader_reset env m1 ])
      ended (launched e) h = h
      ended (failed meta m1) h = bootloader_reset-IsSafe m1

  -- From any state of the machine, the boot ends with a reset, or with a jump to the entry point of
  -- an image for which the load of a partition, with verification, has succeeded.
  pub boot-IsSafe : (m : Machine Chip) → IsSafe (boot env m)
  unfolding boot boot_from
  boot-IsSafe m =
      let selected = select_partition_number env default_state m in
      chosen selected.0 selected.1 selected.2
    where
      chosen :
          (index : PartIndex) (bs : BootloaderState) (m1 : Machine Chip)
          → IsSafe (boot_from env index bs m1)
      chosen invalid_index bs m1 = bootloader_reset-IsSafe m1
      chosen test_app_index bs m1 = load_boot_image-IsSafe bs test_app_index m1
      chosen factory_index bs m1 = load_boot_image-IsSafe bs factory_index m1
      chosen (slot_index i) bs m1 = load_boot_image-IsSafe bs (slot_index i) m1
