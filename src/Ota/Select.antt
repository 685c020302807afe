-- ===== src/Ota/Select.antt =====
-- Which slot the OTA data choose.
use esp32c3_bootloader_rust.Common.{
  ℕ, ◌+◌, ◌^◌, ◌≤◌, ◌<◌, ◌≡◌, ◌≢◌, ◌⊎◌, inl, inr, refl, sym, ap, ◌∙◌, arith, true, false, some,
  get_or, sub32, Bool-cases, ◌==◌, ==_iff, subst,
}
use esp32c3_bootloader_rust.Image.Segments.{PartitionPos}
use esp32c3_bootloader_rust.Partition.{BootloaderState, no_partition}
use esp32c3_bootloader_rust.Ota.{
  slot_index, EspOtaSelectEntry, OtaData, esp_ota_img_pending_verify,
  bootloader_common_ota_select_crc, bootloader_common_ota_select_valid,
  bootloader_common_get_active_otadata, abort_pending, chosen_slot, pending_entry, write_slot_of,
}

abbrev pub IsValid : EspOtaSelectEntry → Type 0
IsValid e = bootloader_common_ota_select_valid e ≡ true

-- Entry `e` is valid and wins over `other`: its sequence number is the larger, or `other` is not
-- valid. On a tie the first entry wins.
abbrev pub Wins : EspOtaSelectEntry → EspOtaSelectEntry → Type 0
Wins e other = IsValid e × (IsValid other → other.ota_seq ≤ e.ota_seq)

-- For `u32` sequence numbers, a slot is chosen only if it is one of the 16, its partition is not empty, and the winning valid
-- entry names it by its 1-based sequence number.
pub chosen_slot_lem :
    (bs : BootloaderState) (d : OtaData) (s : ℕ)
    → d.entry0.ota_seq < 2 ^ 32
    → d.entry1.ota_seq < 2 ^ 32
    → chosen_slot bs d ≡ slot_index s
    → (s < 16)
      × ((get_or bs.ota s no_partition).size ≢ 0)
      × ((Wins d.entry0 d.entry1 × (d.entry0.ota_seq ≡ s + 1))
          ⊎ (Wins d.entry1 d.entry0 × (d.entry1.ota_seq ≡ s + 1)))
unfolding chosen_slot
chosen_slot_lem bs d s h k e = ground arith

-- The rollback leaves no pending entry valid.
pub abort_pending-not-IsValid :
    (e : EspOtaSelectEntry)
    → e.ota_state ≡ esp_ota_img_pending_verify
    → bootloader_common_ota_select_valid (abort_pending e) ≡ false
unfolding abort_pending bootloader_common_ota_select_valid
abort_pending-not-IsValid e h = ground arith

pub abort_pending-keeps :
    (e : EspOtaSelectEntry) → e.ota_state ≢ esp_ota_img_pending_verify → abort_pending e ≡ e
unfolding abort_pending
abort_pending-keeps e h = ground arith

abbrev pub rolled_back : OtaData → OtaData
rolled_back d = record { entry0 = abort_pending d.entry0; entry1 = abort_pending d.entry1 }

abort_pending-ota_seq : (e : EspOtaSelectEntry) → (abort_pending e).ota_seq ≡ e.ota_seq
unfolding abort_pending
abort_pending-ota_seq e = ground arith

IsValid-after_rollback :
    (e : EspOtaSelectEntry)
    → IsValid (abort_pending e)
    → (e.ota_state ≢ esp_ota_img_pending_verify) × IsValid e
IsValid-after_rollback e v = elim (Bool-cases (e.ota_state == esp_ota_img_pending_verify)) [
  | inl pending ↦ cc (
      sym v
      ∙ abort_pending-not-IsValid e ((==_iff e.ota_state esp_ota_img_pending_verify).0 pending))
  | inr other ↦
      let ne : e.ota_state ≢ esp_ota_img_pending_verify = ground arith in
      (ne, subst IsValid (abort_pending-keeps e ne) v)
]

-- After the rollback a slot is chosen only by an entry that was valid, and not pending, before it:
-- an entry in state `PENDING_VERIFY` never chooses the slot to boot.
pub rollback_chosen_slot :
    (bs : BootloaderState) (d : OtaData) (s : ℕ)
    → d.entry0.ota_seq < 2 ^ 32
    → d.entry1.ota_seq < 2 ^ 32
    → chosen_slot bs (rolled_back d) ≡ slot_index s
    → (s < 16)
      × ((get_or bs.ota s no_partition).size ≢ 0)
      × (e : EspOtaSelectEntry) × ((e ≡ d.entry0) ⊎ (e ≡ d.entry1))
      × IsValid e
      × (e.ota_state ≢ esp_ota_img_pending_verify)
      × (e.ota_seq ≡ s + 1)
rollback_chosen_slot bs d s h k e =
    let q0 = abort_pending-ota_seq d.entry0 in
    let q1 = abort_pending-ota_seq d.entry1 in
    let r = chosen_slot_lem bs (rolled_back d) s (omega (arith, q0)) (omega (arith, q1)) e in
    elim r.2 [
      | inl first ↦
          let v = IsValid-after_rollback d.entry0 first.0.0 in
          (r.0, r.1, d.entry0, inl refl, v.1, v.0, sym q0 ∙ first.1)
      | inr second ↦
          let v = IsValid-after_rollback d.entry1 second.0.0 in
          (r.0, r.1, d.entry1, inr refl, v.1, v.0, sym q1 ∙ second.1)
    ]

-- The entry that a boot of one of the 16 slots records is valid, and names that slot by its 1-based
-- sequence number.
pub pending_entry-IsValid :
    (s : ℕ) → s < 16 → IsValid (pending_entry s) × ((pending_entry s).ota_seq ≡ s + 1)
unfolding pending_entry bootloader_common_ota_select_valid bootloader_common_ota_select_crc
pending_entry-IsValid s h = ground arith

-- Where there is an active entry, the record of a boot is written to the other sector.
pub write_slot_of-ne-active :
    (d : OtaData) (a : ℕ) → bootloader_common_get_active_otadata d ≡ some a → write_slot_of d ≢ a
unfolding write_slot_of
write_slot_of-ne-active d a e = ground arith

still_chosen :
    (bs : BootloaderState) (e f : EspOtaSelectEntry) (s : ℕ)
    → s < 16
    → (get_or bs.ota s no_partition).size ≢ 0
    → IsValid e
    → e.ota_seq ≡ s + 1
    → bootloader_common_ota_select_valid f ≡ false
    → chosen_slot bs (record { entry0 = e; entry1 = f }) ≡ slot_index s
unfolding chosen_slot bootloader_common_ota_select_valid
still_chosen bs e f s h size v seq nv =
    let slot : sub32 e.ota_seq 1 ≡ s = omega arith in
    let same : get_or bs.ota (sub32 e.ota_seq 1) no_partition ≡ get_or bs.ota s no_partition =
      ap (λ k. get_or bs.ota k no_partition) slot in
    ground (arith, ap (λ (t : PartitionPos). t.size) same)

-- The rollback is undone by the entry beside it. Slot `s` was booted by a valid entry that is not
-- pending, in the first sector, and the boot recorded its pending entry in the second. If the
-- application confirms nothing, the next boot aborts the pending entry and chooses slot `s` again.
pub rollback_repeats :
    (bs : BootloaderState) (e : EspOtaSelectEntry) (s : ℕ)
    → s < 16
    → (get_or bs.ota s no_partition).size ≢ 0
    → IsValid e
    → e.ota_state ≢ esp_ota_img_pending_verify
    → e.ota_seq ≡ s + 1
    → chosen_slot bs (rolled_back (record { entry0 = e; entry1 = pending_entry s })) ≡ slot_index s
rollback_repeats bs e s h size v np seq = rw (abort_pending-keeps e np) (
    still_chosen bs e (abort_pending (pending_entry s)) s h size v seq
      (abort_pending-not-IsValid (pending_entry s) pending))
  where
    pending : (pending_entry s).ota_state ≡ esp_ota_img_pending_verify
    pending = unfold pending_entry in refl
