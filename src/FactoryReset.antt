-- ===== src/FactoryReset.antt =====
-- The factory reset of src/utility.rs: which data partitions a comma-separated list of labels
-- names, and erasing them. A label list is its ASCII bytes.
pub mod Labels
pub mod Erased
mod Tests
use esp32c3_bootloader_rust.Common.{
  ℕ, List, [], ◌∷◌, Bool, true, false, ◌&&◌, ◌||◌, not, none, some, if◌then◌else◌, leb, ◌==◌,
  length,
}
use esp32c3_bootloader_rust.Platform.{Platform}
use esp32c3_bootloader_rust.Flash.{
  Machine, bootloader_mmap, bootloader_munmap, bootloader_flash_erase_range,
}
use esp32c3_bootloader_rust.Image.Segments.{PartitionPos}
use esp32c3_bootloader_rust.Partition.{
  EspPartitionInfo, esp_partition_magic, max_partitions, parse_table,
}

-- `label[..label_len]`: the label up to its first zero byte.
unfoldable pub label_text : List ℕ → List ℕ
label_text [] = []
label_text (b ∷ bs) = let rest = label_text bs in if b == 0 then [] else b ∷ rest

-- `char::is_whitespace` of an ASCII character.
abbrev pub is_whitespace : ℕ → Bool
is_whitespace b = b == 0x20 || leb 9 b && leb b 13

unfoldable pub trim_start : List ℕ → List ℕ
trim_start [] = []
trim_start (b ∷ bs) = let rest = trim_start bs in if is_whitespace b then rest else b ∷ bs

-- A byte in front of a list that is trimmed at its end.
abbrev cons_trimmed : ℕ → List ℕ → List ℕ
cons_trimmed b [] = if is_whitespace b then [] else b ∷ []
cons_trimmed b (c ∷ cs) = b ∷ c ∷ cs

unfoldable pub trim_end : List ℕ → List ℕ
trim_end [] = []
trim_end (b ∷ bs) = cons_trimmed b (trim_end bs)

-- `str::trim`
unfoldable pub trim : List ℕ → List ℕ
unfolding trim_start trim_end
trim s = trim_end (trim_start s)

-- A byte that belongs to the first field.
abbrev onto_first : ℕ → List (List ℕ) → List (List ℕ)
onto_first b [] = (b ∷ []) ∷ []
onto_first b (f ∷ fs) = (b ∷ f) ∷ fs

-- `labels.split(',')`
unfoldable pub split_commas : List ℕ → List (List ℕ)
split_commas [] = [] ∷ []
split_commas (b ∷ bs) =
    let rest = split_commas bs in if b == 0x2C then [] ∷ rest else onto_first b rest

-- `a.iter().zip(b).all(|(a, b)| a == b)`
unfoldable pub zip_equal : List ℕ → List ℕ → Bool
zip_equal [] ys = true
zip_equal (x ∷ xs) [] = true
zip_equal (x ∷ xs) (y ∷ ys) = x == y && zip_equal xs ys

-- The loop over the fields of the list: true when a field is the label.
unfoldable pub is_listed : List ℕ → List (List ℕ) → Bool
unfolding trim zip_equal
is_listed label [] = false
is_listed label (field ∷ fields) =
    let list_label = trim field in
    let rest = is_listed label fields in
    if length list_label == 0
    then rest
    else if not (length label == length list_label)
    then rest
    else if zip_equal label list_label
    then true
    else rest

module _ {Chip : Type 0} (env : Platform Chip) where
  -- The loop over the entries: whether one was found, and the machine after the erasing.
  unfoldable pub erase_entries :
      List ℕ → Bool → List EspPartitionInfo → Machine Chip → Bool × Machine Chip
  unfolding label_text is_listed split_commas
  erase_entries labels do_erase [] m = (false, m)
  erase_entries labels do_erase (entry ∷ entries) m =
      let found = entry.type_ == 0x01 && is_listed (label_text entry.label) (split_commas labels) in
      let m1 =
        if found && do_erase
        then (bootloader_flash_erase_range env m entry.pos.offset entry.pos.size).1
        else m in
      let (erased, m2) = erase_entries labels do_erase entries m1 in
      if not (entry.magic == esp_partition_magic) then (false, m) else (found || erased, m2)

  unfoldable pub bootloader_common_erase_part_type_data :
      List ℕ → Bool → Machine Chip → Bool × Machine Chip
  unfolding erase_entries
  bootloader_common_erase_part_type_data labels do_erase m =
      let (mapping, m1) = bootloader_mmap env m 0x8000 0xC00 in
      elim mapping [
        | none ↦ (false, m1)
        | some bytes ↦
            let (erased, m2) =
              erase_entries labels do_erase (parse_table max_partitions bytes) m1 in
            (erased, bootloader_munmap m2)
      ]
