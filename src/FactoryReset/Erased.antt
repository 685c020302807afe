-- ===== src/FactoryReset/Erased.antt =====
-- What a factory reset erases.
use esp32c3_bootloader_rust.Common.{
  ℕ, ◌≡◌, refl, ap, ◌∙◌, List, [], ◌∷◌, Bool, true, false, ◌&&◌, Bool-cases, inl, inr, Option, none,
  some, if◌then◌else◌, ◌==◌,
}
use esp32c3_bootloader_rust.Platform.{Platform}
use esp32c3_bootloader_rust.Flash.{
  Machine, bootloader_mmap, bootloader_munmap, bootloader_flash_erase_range,
}
use esp32c3_bootloader_rust.Partition.{
  EspPartitionInfo, esp_partition_magic, max_partitions, parse_table,
}
use esp32c3_bootloader_rust.Partition.Verify.{leading}
use esp32c3_bootloader_rust.FactoryReset.{
  label_text, split_commas, is_listed, erase_entries, bootloader_common_erase_part_type_data,
}

-- A data partition that the label list names.
abbrev pub is_named : List ℕ → EspPartitionInfo → Bool
is_named labels p = p.type_ == 0x01 && is_listed (label_text p.label) (split_commas labels)

abbrev pub named : List ℕ → List EspPartitionInfo → List EspPartitionInfo
named labels [] = []
named labels (p ∷ ps) = if is_named labels p then p ∷ named labels ps else named labels ps

abbrev pub nonempty : List EspPartitionInfo → Bool
nonempty [] = false
nonempty (p ∷ ps) = true

module _ {Chip : Type 0} (env : Platform Chip) where
  -- Each partition is erased, in order, whatever became of the ones before.
  abbrev pub erase_each : List EspPartitionInfo → Machine Chip → Machine Chip
  erase_each [] m = m
  erase_each (p ∷ ps) m =
      erase_each ps (bootloader_flash_erase_range env m p.pos.offset p.pos.size).1

  abbrev pub erased_if : Bool → List EspPartitionInfo → Machine Chip → Machine Chip
  erased_if do_erase ps m = if do_erase then erase_each ps m else m

  same_if : (b : Bool) (m : Machine Chip) → m ≡ (if b then m else m)
  same_if true m = refl
  same_if false m = refl

  erased_if_step :
      (b : Bool) (ps : List EspPartitionInfo) (m m1 : Machine Chip)
      → erased_if b ps (if b then m1 else m) ≡ (if b then erase_each ps m1 else m)
  erased_if_step true ps m m1 = refl
  erased_if_step false ps m m1 = refl

  -- The answer and the machine for the mapping `mapping` of the table.
  abbrev pub reset_data : List ℕ → Bool → Option (List ℕ) → Machine Chip → Bool × Machine Chip
  reset_data labels do_erase none m = (false, m)
  reset_data labels do_erase (some bytes) m =
      let ps = named labels (leading (parse_table max_partitions bytes)) in
      (nonempty ps, bootloader_munmap (erased_if do_erase ps m))

  erase_entries-named :
      (labels : List ℕ) (do_erase : Bool) (entries : List EspPartitionInfo) (m : Machine Chip)
      → let ps = named labels (leading entries) in
        erase_entries env labels do_erase entries m ≡ (nonempty ps, erased_if do_erase ps m)
  unfolding erase_entries leading
  erase_entries-named labels true [] m = refl
  erase_entries-named labels false [] m = refl
  erase_entries-named labels do_erase (p ∷ ps) m =
      let m1 = (bootloader_flash_erase_range env m p.pos.offset p.pos.size).1 in
      elim (Bool-cases (p.magic == esp_partition_magic)) [
        | inr stop ↦ rw (stop) (ap (λ m'. (false, m')) (same_if do_erase m))
        | inl go ↦ elim (Bool-cases (is_named labels p)) [
          | inr skip ↦ rw (go, skip) (erase_entries-named labels do_erase ps m)
          | inl hit ↦
              rw (go, hit)
                (ap (λ r. (true, r.1))
                    (erase_entries-named labels do_erase ps (if do_erase then m1 else m))
                  ∙ ap (λ m'. (true, m'))
                      (erased_if_step do_erase (named labels (leading ps)) m m1))
        ]
      ]

  -- The code after the mapping.
  reset_data_lem :
      (labels : List ℕ) (do_erase : Bool) (mapping : Option (List ℕ)) (m : Machine Chip)
      → (elim mapping [
        | none ↦ (false, m)
        | some bytes ↦
            let (erased, m2) =
              erase_entries env labels do_erase (parse_table max_partitions bytes) m in
            (erased, bootloader_munmap m2)
      ])
        ≡ reset_data labels do_erase mapping m
  reset_data_lem labels do_erase none m = refl
  reset_data_lem labels do_erase (some bytes) m =
      ap (λ r. (r.0, bootloader_munmap r.1))
        (erase_entries-named labels do_erase (parse_table max_partitions bytes) m)

  -- The factory reset answers whether the entries before the first one without the magic number
  -- hold a data partition that the list names; it erases exactly these, in the order of the table,
  -- when it is asked to erase, and releases the mapping. When the table cannot be mapped, it
  -- answers no and erases nothing.
  pub erase_part_type_data-named :
      (labels : List ℕ) (do_erase : Bool) (m : Machine Chip)
      → bootloader_common_erase_part_type_data env labels do_erase m
        ≡ reset_data labels do_erase
            (bootloader_mmap env m 0x8000 0xC00).0
            (bootloader_mmap env m 0x8000 0xC00).1
  unfolding bootloader_common_erase_part_type_data
  erase_part_type_data-named labels do_erase m =
      reset_data_lem labels do_erase (bootloader_mmap env m 0x8000 0xC00).0
        (bootloader_mmap env m 0x8000 0xC00).1
