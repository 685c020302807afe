-- ===== src/Ota/Recorded.antt =====
-- `set_actual_ota_seq` of src/utility.rs on the flash: what recording a boot leaves alone.
use esp32c3_bootloader_rust.Common.{
  ℕ, ◌+◌, ◌*◌, ◌/◌, ◌%◌, ◌^◌, ◌≤◌, ◌≡◌, ◌⊎◌, inl, inr, refl, ap, ◌∙◌, arith, List, Bool-cases,
  Option-cases, some, ◌||◌, ◌==◌, ltb, length, add32, if◌then◌else◌,
}
use esp32c3_bootloader_rust.Platform.{Platform}
use esp32c3_bootloader_rust.Flash.{Machine, flash_sector_size, bootloader_mmap, bootloader_munmap}
use esp32c3_bootloader_rust.Flash.Mapping.{mmap-Frame}
use esp32c3_bootloader_rust.Flash.Stored.{stored}
use esp32c3_bootloader_rust.Image.Segments.{PartitionPos}
use esp32c3_bootloader_rust.Partition.{BootloaderState}
use esp32c3_bootloader_rust.Ota.{
  EspOtaSelectEntry, OtaData, slot_index, select_bytes, pending_entry, write_slot_of,
  bootloader_common_get_active_otadata, bootloader_common_select_otadata,
  bootloader_common_read_otadata, set_actual_ota_seq,
}
use esp32c3_bootloader_rust.Ota.Select.{write_slot_of-ne-active}

-- Two ranges of the flash, each an address and a size, that do not meet.
abbrev pub Apart : ℕ → ℕ → ℕ → ℕ → Type 0
Apart x k a n = (x + k ≤ a) ⊎ (a + n ≤ x)

-- The ROM's flash routines change what they are asked to change: an erase its sector, a write the
-- bytes from its address on, and the wait for the controller nothing.
pub record IsLocal {Chip : Type 0} (env : Platform Chip) : Type 0 where
  pub erased :
      (c : Chip) (s a n : ℕ)
      → a + n ≤ 2 ^ 32
      → Apart (s * 4096) 4096 a n
      → stored env (env.spiflash_erase_sector c s).1 a n ≡ stored env c a n
  pub written :
      (c : Chip) (addr : ℕ) (bytes : List ℕ) (a n : ℕ)
      → a + n ≤ 2 ^ 32
      → Apart addr (length bytes) a n
      → stored env (env.spiflash_write c addr bytes).1 a n ≡ stored env c a n
  pub waited : (c : Chip) (a n : ℕ) → stored env (env.spiflash_wait_idle c) a n ≡ stored env c a n

active-le : (d : OtaData) (a : ℕ) → bootloader_common_get_active_otadata d ≡ some a → a ≤ 1
unfolding bootloader_common_get_active_otadata bootloader_common_select_otadata
active-le d a e = ground arith

write_slot_of-le : (d : OtaData) → write_slot_of d ≤ 1
unfolding write_slot_of
write_slot_of-le d = ground arith

length-select_bytes : (e : EspOtaSelectEntry) → length (select_bytes e) ≡ 12
unfolding select_bytes
length-select_bytes e = refl

module _ {Chip : Type 0} (env : Platform Chip) where
  read_otadata-chip :
      (ota_info : PartitionPos) (m : Machine Chip)
      → (bootloader_common_read_otadata env ota_info m).1.chip ≡ m.chip
  unfolding bootloader_common_read_otadata bootloader_munmap
  read_otadata-chip ota_info m =
      let second = add32 ota_info.offset flash_sector_size in
      let unmapped = bootloader_munmap (bootloader_mmap env m ota_info.offset 12).1 in
      let s0 = (mmap-Frame env m ota_info.offset 12).same_chip in
      let s1 = (mmap-Frame env unmapped second 12).same_chip ∙ s0 in
      elim (Bool-cases (ota_info.offset == 0 || ltb ota_info.size (2 * flash_sector_size))) [
        | inl none_there ↦ rw (none_there) refl
        | inr there ↦ elim (Option-cases (bootloader_mmap env m ota_info.offset 12).0) [
          | inl e ↦ rw (there) (rw (e, bootloader_common_read_otadata) s0)
          | inr (bytes0, e) ↦ elim (Option-cases (bootloader_mmap env unmapped second 12).0) [
            | inl f ↦ rw (there) (rw (e, f, bootloader_common_read_otadata) s1)
            | inr (bytes1, f) ↦ rw (there) (rw (e, f, bootloader_common_read_otadata) s1)
          ]
        ]
      ]

  module _ (local : IsLocal env) (c : Chip) (addr a n : ℕ) (fits : a + n ≤ 2 ^ 32) where
    -- The erase of a sector away from a range, after a wait.
    stored-erase :
        (s : ℕ)
        → Apart (s * 4096) 4096 a n
        → stored env (env.spiflash_erase_sector (env.spiflash_wait_idle c) s).1 a n
          ≡ stored env c a n
    stored-erase s h = local.erased _ s a n fits h ∙ local.waited c a n

    stored-write :
        (bytes : List ℕ)
        → Apart addr (length bytes) a n
        → stored env (env.spiflash_write (env.spiflash_wait_idle c) addr bytes).1 a n
          ≡ stored env c a n
    stored-write bytes h = local.written _ addr bytes a n fits h ∙ local.waited c a n

  -- The erase and the write of `set_actual_ota_seq` at a sector.
  record_at : ℕ → List ℕ → Chip → Chip
  record_at addr bytes c =
      let (erased, c1) =
        env.spiflash_erase_sector (env.spiflash_wait_idle c) (addr / flash_sector_size) in
      if erased then (env.spiflash_write (env.spiflash_wait_idle c1) addr bytes).1 else c1

  stored-record_at :
      (addr : ℕ) (entry : EspOtaSelectEntry) (c : Chip) (a : ℕ)
      → IsLocal env
      → addr % 4096 ≡ 0
      → a + 12 ≤ 2 ^ 32
      → Apart addr 4096 a 12
      → stored env (record_at addr (select_bytes entry) c) a 12 ≡ stored env c a 12
  unfolding record_at
  stored-record_at addr entry c a local aligned fits apart =
      let sector = addr / flash_sector_size in
      let (erased, c1) = env.spiflash_erase_sector (env.spiflash_wait_idle c) sector in
      let kept = stored-erase local c addr a 12 fits sector (ground (arith, apart)) in
      elim (Bool-cases erased) [
        | inl ok ↦ rw (ok) (
            stored-write local c1 addr a 12 fits (select_bytes entry)
              (ground (arith, apart, length-select_bytes entry))
            ∙ kept)
        | inr ko ↦ rw (ko) kept
      ]

-- On a flash whose routines change only what they are asked to, with the OTA data in two whole
-- sectors below 2^32 of which one holds the active entry: recording a boot of any slot, with its
-- erase and its write, whether they succeed or fail, leaves the twelve bytes of the active entry
-- as they are stored.
pub set_actual_ota_seq-active :
    {Chip : Type 0} (env : Platform Chip) (bs : BootloaderState) (slot : ℕ) (m : Machine Chip)
    (two : OtaData) (active : ℕ)
    → IsLocal env
    → bs.ota_info.offset % 4096 ≡ 0
    → bs.ota_info.offset + 8192 ≤ 2 ^ 32
    → (bootloader_common_read_otadata env bs.ota_info m).0 ≡ some two
    → bootloader_common_get_active_otadata two ≡ some active
    → stored env
        (set_actual_ota_seq env bs (slot_index slot) m).chip
        (bs.ota_info.offset + active * 4096)
        12
      ≡ stored env m.chip (bs.ota_info.offset + active * 4096) 12
unfolding set_actual_ota_seq record_at
set_actual_ota_seq-active env bs slot m two active local aligned fits e act =
    let read = bootloader_common_read_otadata env bs.ota_info m in
    let write_addr = add32 bs.ota_info.offset (write_slot_of two * flash_sector_size) in
    let at = bs.ota_info.offset + active * 4096 in
    let away = write_slot_of-ne-active two active act in
    let bounds : (active ≤ 1) × (write_slot_of two ≤ 1) =
      (active-le two active act, write_slot_of-le two) in
    let same = ap (λ c. stored env c at 12) (read_otadata-chip env bs.ota_info m) in
    let kept =
      stored-record_at env write_addr (pending_entry slot) read.1.chip at local
        (omega (arith, bounds)) (omega (arith, bounds)) (ground (arith, bounds, away)) in
    elim (Bool-cases (ltb bs.ota_info.size (2 * flash_sector_size))) [
      | inl short ↦ rw (short) refl
      | inr long ↦ rw (long) (rw (e, set_actual_ota_seq) (kept ∙ same))
    ]
