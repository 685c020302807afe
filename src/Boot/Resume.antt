-- ===== src/Boot/Resume.antt =====
-- A wake from deep sleep after a factory reset was recorded.
use esp32c3_bootloader_rust.Common.{
  ℕ, ◌+◌, ◌≤◌, ◌<◌, ◌≡◌, inl, inr, refl, ap, ap₂, u32_at, ◌∙◌, arith, false, Bool-cases,
  if◌then◌else◌,
}
use esp32c3_bootloader_rust.Platform.{Platform}
use esp32c3_bootloader_rust.Flash.{Machine}
use esp32c3_bootloader_rust.Partition.{no_partition}
use esp32c3_bootloader_rust.Retain.{
  rtc_retain_mem_addr, ram_bytes, retain_partition, is_rtc_retain_mem_valid,
  set_rtc_retain_mem_factory_reset_state,
}
use esp32c3_bootloader_rust.Retain.Update.{IsRam, ram_bytes_ext, set_factory_reset_state-recorded}
use esp32c3_bootloader_rust.Boot.DeepSleep.{
  normal, bootloader_utility_load_boot_image_from_deep_sleep,
}

-- The partition lies in eight bytes of the record.
partition_ext :
    (f g : ℕ → ℕ)
    → ((a : ℕ) → rtc_retain_mem_addr + 8 ≤ a → a < rtc_retain_mem_addr + 16 → f a ≡ g a)
    → retain_partition f ≡ retain_partition g
unfolding retain_partition
partition_ext f g h =
    ap₂ (λ bs cs. record { offset = u32_at bs 0; size = u32_at cs 0 })
      (ram_bytes_ext 4 f g (rtc_retain_mem_addr + 8) (λ a k l. h a (omega arith) (omega arith)))
      (ram_bytes_ext 4 f g (rtc_retain_mem_addr + 12) (λ a k l. h a (omega arith) (omega arith)))

no_partition_lem : retain_partition (λ a. 0) ≡ no_partition
unfolding retain_partition ram_bytes
no_partition_lem = refl

-- Recording a factory reset in a RAM of bytes keeps the partition of a valid record, and clears
-- that of any other.
set_factory_reset_state-partition :
    (ram : ℕ → ℕ)
    → IsRam ram
    → retain_partition (set_rtc_retain_mem_factory_reset_state ram)
      ≡ (if is_rtc_retain_mem_valid ram then retain_partition ram else no_partition)
set_factory_reset_state-partition ram h =
    let byte = λ (a : ℕ) (k : rtc_retain_mem_addr + 8 ≤ a).
      (set_factory_reset_state-recorded ram a h (inr (omega arith))).0 in
    elim (Bool-cases (is_rtc_retain_mem_valid ram)) [
      | inl valid ↦ partition_ext _ ram (λ a k l. byte a k ∙ ground arith) ∙ rw (valid)
      | inr invalid ↦
          partition_ext _ (λ _. 0) (λ a k l. byte a k ∙ ground arith)
          ∙ no_partition_lem
          ∙ rw (invalid)
    ]

cleared :
    (ram : ℕ → ℕ)
    → IsRam ram
    → is_rtc_retain_mem_valid ram ≡ false
    → retain_partition (set_rtc_retain_mem_factory_reset_state ram) ≡ no_partition
cleared ram h invalid = set_factory_reset_state-partition ram h ∙ rw (invalid) refl

module _ {Chip : Type 0} (env : Platform Chip) where
  -- The wake boots from deep sleep only when it was one, with valid retain memory that names a
  -- partition; otherwise the machine is as before.
  not_resumed :
      (m : Machine Chip)
      → (retain_partition m.ram).offset ≡ 0
      → bootloader_utility_load_boot_image_from_deep_sleep env m ≡ normal m
  unfolding bootloader_utility_load_boot_image_from_deep_sleep
  not_resumed m h = ground arith

  -- Where the RAM holds bytes and a factory reset is recorded in retain memory that was not valid,
  -- a wake from deep sleep, whatever the CRC of the new record, does not resume an application, and
  -- leaves the machine to the normal boot as it is.
  pub deep_sleep-after-factory_reset :
      (m : Machine Chip)
      → IsRam m.ram
      → is_rtc_retain_mem_valid m.ram ≡ false
      → let recorded = record m { ram = set_rtc_retain_mem_factory_reset_state m.ram } in
        bootloader_utility_load_boot_image_from_deep_sleep env recorded ≡ normal recorded
  deep_sleep-after-factory_reset m h invalid =
      not_resumed (record m { ram = set_rtc_retain_mem_factory_reset_state m.ram })
        (ap (λ p. p.offset) (cleared m.ram h invalid))
