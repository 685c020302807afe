-- ===== src/Partition.antt =====
-- src/partition.rs: the partition table, its verification, and the boot state that is read from it.
pub mod Verify
pub mod Load
mod Tests
use esp32c3_bootloader_rust.Common.{
  ℕ, zero, suc, ◌+◌, ◌*◌, ◌/◌, ◌%◌, ◌^◌, bit_and, List, [], ◌∷◌, ◌++◌, Bool, true, false, ◌&&◌,
  ◌||◌, not, Option, none, some, if◌then◌else◌, ltb, leb, ◌==◌, byte_at, u16_at, u32_at, take, drop,
  replicate, set, add32,
}
use esp32c3_bootloader_rust.Platform.{Platform}
use esp32c3_bootloader_rust.Flash.{Machine, bootloader_mmap, bootloader_munmap}
use esp32c3_bootloader_rust.Image.Segments.{PartitionPos}

abbrev pub esp_partition_magic : ℕ
esp_partition_magic = 0x50AA

abbrev pub max_partitions : ℕ
max_partitions = 95

-- `ESP_PARTITION_TABLE_OFFSET + ESP_PARTITION_TABLE_MAX_LEN`
abbrev pub min_part_offset : ℕ
min_part_offset = 0x8C00

abbrev pub max_flash_size : ℕ
max_flash_size = 16 * 1024 * 1024

pub record EspPartitionInfo : Type 0 where
  pub magic : ℕ
  pub type_ : ℕ
  pub subtype : ℕ
  pub pos : PartitionPos
  pub label : List ℕ
  pub flags : ℕ

-- The packed struct at the head of a list of bytes.
unfoldable pub parse_entry : List ℕ → EspPartitionInfo
parse_entry bs = record {
  magic = u16_at bs 0;
  type_ = byte_at bs 2;
  subtype = byte_at bs 3;
  pos = record { offset = u32_at bs 4; size = u32_at bs 8 };
  label = take 16 (drop 12 bs);
  flags = u32_at bs 28;
}

-- `slice::from_raw_parts` over `n` entries of 32 bytes.
unfoldable pub parse_table : ℕ → List ℕ → List EspPartitionInfo
unfolding parse_entry
parse_table zero bs = []
parse_table (suc n) bs = parse_entry bs ∷ parse_table n (drop 32 bs)

pub record BootloaderState : Type 0 where
  pub factory : PartitionPos
  pub test : PartitionPos
  pub ota : List PartitionPos
  pub ota_info : PartitionPos
  pub app_count : ℕ

abbrev pub no_partition : PartitionPos
no_partition = record { offset = 0; size = 0 }

-- `BootloaderState::default`
abbrev pub default_state : BootloaderState
default_state = record {
  factory = no_partition;
  test = no_partition;
  ota = replicate 16 no_partition;
  ota_info = no_partition;
  app_count = 0;
}

-- The loop of `label_is_valid`.
unfoldable pub label_from : Bool → List ℕ → Bool
label_from seen_nul [] = true
label_from seen_nul (b ∷ rest) =
    let ended = label_from true rest in
    let going = label_from seen_nul rest in
    if b == 0
    then ended
    else if seen_nul
    then false
    else if not (leb 0x20 b && leb b 0x7E)
    then false
    else going

unfoldable pub label_is_valid : List ℕ → Bool
unfolding label_from
label_is_valid label = label_from false label

abbrev pub end_of : PartitionPos → ℕ
end_of pos = add32 pos.offset pos.size

-- The basic range checks of an entry: true when it is refused.
unfoldable pub out_of_range : PartitionPos → Bool
out_of_range pos =
    pos.size == 0
    || ltb pos.offset min_part_offset
    || ltb max_flash_size (end_of pos)
    || leb (end_of pos) pos.offset

unfoldable pub overlap : PartitionPos → PartitionPos → Bool
overlap pos prev = ltb pos.offset (end_of prev) && ltb prev.offset (end_of pos)

-- `for j in 0..i`: true when an earlier entry overlaps.
unfoldable pub overlaps_any : PartitionPos → List EspPartitionInfo → Bool
unfolding overlap
overlaps_any pos [] = false
overlaps_any pos (prev ∷ rest) =
    let later = overlaps_any pos rest in
    if not (prev.magic == esp_partition_magic)
    then false
    else if overlap pos prev.pos
    then true
    else later

-- The loop of `esp_partition_table_verify`: `earlier` holds the entries before, in order. The
-- result is the verdict and the count.
unfoldable pub verify_from : Bool → ℕ → List EspPartitionInfo → List EspPartitionInfo → Bool × ℕ
unfolding out_of_range overlaps_any label_is_valid
verify_from valid count earlier [] = (valid, count)
verify_from valid count earlier (part ∷ rest) =
    let ok =
      not (out_of_range part.pos)
      && not (overlaps_any part.pos earlier)
      && label_is_valid part.label in
    let next = verify_from (valid && ok) (count + 1) (earlier ++ part ∷ []) rest in
    if not (part.magic == esp_partition_magic) then (valid, count) else next

unfoldable pub esp_partition_table_verify : List EspPartitionInfo → Bool × ℕ
unfolding verify_from
esp_partition_table_verify partitions = verify_from true 0 [] (take max_partitions partitions)

-- `st & PART_SUBTYPE_OTA_FLAG == PART_SUBTYPE_OTA_FLAG`
unfoldable pub is_ota_subtype : ℕ → Bool
is_ota_subtype st = bit_and st 0x10 == 0x10

-- The `match` on the type and subtype of an entry.
unfoldable pub place_entry : BootloaderState → EspPartitionInfo → BootloaderState
unfolding is_ota_subtype
place_entry bs part =
    let slot = part.subtype % 16 in
    if part.type_ == 0x00 && part.subtype == 0x00
    then record bs { factory = part.pos }
    else if part.type_ == 0x00 && part.subtype == 0x01
    then record bs { test = part.pos }
    else if part.type_ == 0x00 && is_ota_subtype part.subtype
    then if ltb slot 16
      then record bs {
        ota = set bs.ota slot part.pos;
        app_count = if leb bs.app_count slot then slot + 1 else bs.app_count;
      }
      else bs
    else if part.type_ == 0x01 && part.subtype == 0x00
    then record bs { ota_info = part.pos }
    else bs

unfoldable pub place_all : BootloaderState → List EspPartitionInfo → BootloaderState
unfolding place_entry
place_all bs [] = bs
place_all bs (part ∷ rest) = place_all (place_entry bs part) rest

module _ {Chip : Type 0} (env : Platform Chip) where
  unfoldable pub bootloader_utility_load_partition_table :
      BootloaderState → Machine Chip → Bool × BootloaderState × Machine Chip
  bootloader_utility_load_partition_table bs m =
      let (mapping, m1) = bootloader_mmap env m 0x8000 0xC00 in
      elim mapping [
        | none ↦ (false, bs, m1)
        | some bytes ↦
            let partitions = parse_table max_partitions bytes in
            let (valid, num_partitions) = esp_partition_table_verify partitions in
            if not valid then (false, bs, bootloader_munmap m1) else (
              true,
              place_all default_state (take num_partitions partitions),
              bootloader_munmap m1,
            )
      ]
