-- ===== src/Partition/Load.antt =====
-- The boot state that is read from the table.
use esp32c3_bootloader_rust.Common.{
  ℕ, zero, suc, ◌%◌, ◌≤◌, ◌≡◌, ◌⊎◌, inl, inr, refl, sym, ap, ◌∙◌, arith, List, [], ◌∷◌, ◌++◌, true,
  false, Bool-cases, Option-cases, All, length, take, drop, set, get_or, length-set, get_or-set_ne,
  IsByte, replicate, subst,
}
use esp32c3_bootloader_rust.Platform.{Platform}
use esp32c3_bootloader_rust.Flash.{Machine, bootloader_mmap, bootloader_munmap}
use esp32c3_bootloader_rust.Flash.Mapping.{mmap-none, mmap-some}
use esp32c3_bootloader_rust.Flash.Contents.{Delivers, mmap-contents, u32_at-lt, All-drop}
use esp32c3_bootloader_rust.Image.Segments.{PartitionPos}
use esp32c3_bootloader_rust.Partition.{
  EspPartitionInfo, BootloaderState, no_partition, default_state, parse_table, place_entry,
  place_all, max_partitions, esp_partition_table_verify, bootloader_utility_load_partition_table,
}
use esp32c3_bootloader_rust.Partition.Verify.{
  IsPlaced, IsTable, IsParsed, leading, esp_partition_table_verify_iff,
}

-- Every position of the state is empty or lies inside the flash behind the table; there are 16
-- slots, and those from `app_count` on are empty.
abbrev pub IsPosition : PartitionPos → Type 0
IsPosition p = (p ≡ no_partition) ⊎ IsPlaced p

pub record IsLoaded (bs : BootloaderState) : Type 0 where
  pub factory : IsPosition bs.factory
  pub test : IsPosition bs.test
  pub ota : All IsPosition bs.ota
  pub ota_info : IsPosition bs.ota_info
  pub slots : length bs.ota ≡ 16
  pub count : bs.app_count ≤ 16
  pub beyond : (i : ℕ) → bs.app_count ≤ i → get_or bs.ota i no_partition ≡ no_partition

All-set :
    (xs : List PartitionPos) (i : ℕ) (p : PartitionPos)
    → All IsPosition xs
    → IsPosition p
    → All IsPosition (set xs i p)
All-set [] i p h k = tt
All-set (x ∷ xs) zero p h k = (k, h.1)
All-set (x ∷ xs) (suc i) p h k = (h.0, All-set xs i p h.1 k)

place_entry-IsLoaded :
    (bs : BootloaderState) (part : EspPartitionInfo)
    → IsLoaded bs
    → IsPosition part.pos
    → IsLoaded (place_entry bs part)
unfolding place_entry
place_entry-IsLoaded bs part v p = record {
  factory = ground (arith, v.factory);
  test = ground (arith, v.test);
  ota = ground (arith, v.ota, All-set bs.ota (part.subtype % 16) part.pos v.ota p);
  ota_info = ground (arith, v.ota_info);
  slots = ground (arith, v.slots, length-set bs.ota (part.subtype % 16) part.pos);
  count = ground (arith, v.count);
  beyond = λ i h.
      ground (arith, v.beyond i, get_or-set_ne bs.ota (part.subtype % 16) i part.pos no_partition);
}

place_all-IsLoaded :
    (ps : List EspPartitionInfo) (bs : BootloaderState)
    → IsLoaded bs
    → All (λ p. IsPlaced p.pos) ps
    → IsLoaded (place_all bs ps)
unfolding place_all
place_all-IsLoaded [] bs v h = v
place_all-IsLoaded (p ∷ ps) bs v h =
    place_all-IsLoaded ps (place_entry bs p) (place_entry-IsLoaded bs p v (inr h.0)) h.1

get_or-replicate : (n i : ℕ) → get_or (replicate n no_partition) i no_partition ≡ no_partition
get_or-replicate zero i = refl
get_or-replicate (suc n) zero = refl
get_or-replicate (suc n) (suc i) = get_or-replicate n i

default_state-IsLoaded : IsLoaded default_state
default_state-IsLoaded = record {
  factory = inl refl;
  test = inl refl;
  ota = none_of 16;
  ota_info = inl refl;
  slots = refl;
  count = omega arith;
  beyond = λ i h. get_or-replicate 16 i;
}
  where
    none_of : (n : ℕ) → All IsPosition (replicate n no_partition)
    none_of zero = tt
    none_of (suc n) = (inl refl, none_of n)

parse_table-IsParsed : (n : ℕ) (bs : List ℕ) → All IsByte bs → All IsParsed (parse_table n bs)
unfolding parse_table
parse_table-IsParsed zero bs h = tt
parse_table-IsParsed (suc n) bs h =
    ((u32_at-lt bs 4 h, u32_at-lt bs 8 h), parse_table-IsParsed n (drop 32 bs) (All-drop 32 bs h))

take-All : (n : ℕ) (ps : List EspPartitionInfo) → All IsParsed ps → All IsParsed (take n ps)
take-All zero ps h = tt
take-All (suc n) [] h = tt
take-All (suc n) (p ∷ ps) h = (h.0, take-All n ps h.1)

-- The verified entries are the head of the table.
take-leading :
    (n : ℕ) (ps : List EspPartitionInfo)
    → take (length (leading (take n ps))) ps ≡ leading (take n ps)
unfolding leading
take-leading zero ps = refl
take-leading (suc n) [] = refl
take-leading (suc n) (p ∷ ps) = ground (arith, take-leading n ps)

IsTable-IsPlaced :
    (earlier ps : List EspPartitionInfo) → IsTable earlier ps → All (λ p. IsPlaced p.pos) ps
IsTable-IsPlaced earlier [] h = tt
IsTable-IsPlaced earlier (p ∷ ps) h = (h.0, IsTable-IsPlaced (earlier ++ p ∷ []) ps h.3)

verified-IsLoaded :
    (partitions : List EspPartitionInfo)
    → All IsParsed partitions
    → (esp_partition_table_verify partitions).0 ≡ true
    → IsLoaded (place_all default_state (take (esp_partition_table_verify partitions).1 partitions))
verified-IsLoaded partitions k valid =
    let table = esp_partition_table_verify_iff partitions (take-All max_partitions partitions k) in
    place_all-IsLoaded (take (esp_partition_table_verify partitions).1 partitions) default_state
      default_state-IsLoaded
      (subst (All (λ p. IsPlaced p.pos))
        (sym (ap (λ n. take n partitions) table.1 ∙ take-leading max_partitions partitions))
        (IsTable-IsPlaced [] (leading (take max_partitions partitions)) (table.0.0 valid)))

-- Where the flash reads deliver bytes, loading the table leaves the mapping as it was; when it
-- succeeds, every position of the new state is empty or lies inside the flash behind the table,
-- and only slots below `app_count` are used; when it fails, the state is the old one.
pub load_partition_table-IsLoaded :
    {Chip : Type 0} (env : Platform Chip) (bs : BootloaderState) (m : Machine Chip)
    → Delivers env
    → let after = bootloader_utility_load_partition_table env bs m in
      (after.2.mapped ≡ m.mapped)
      × (after.0 ≡ true → IsLoaded after.1)
      × (after.0 ≡ false → after.1 ≡ bs)
unfolding bootloader_utility_load_partition_table bootloader_munmap
load_partition_table-IsLoaded env bs m d =
    elim (Option-cases (bootloader_mmap env m 0x8000 0xC00).0) [
      | inl e ↦
          rw (e, bootloader_utility_load_partition_table)
            (mmap-none env m 0x8000 0xC00 e, (λ (f : false ≡ true). cc f), λ _. refl)
      | inr (bytes, e) ↦
          let mapped = mmap-some env m 0x8000 0xC00 bytes e in
          let parsed =
            parse_table-IsParsed max_partitions bytes
              (mmap-contents env m 0x8000 0xC00 bytes d e).1 in
          elim (Bool-cases (esp_partition_table_verify (parse_table max_partitions bytes)).0) [
            | inl valid ↦
                rw (e, valid, bootloader_utility_load_partition_table)
                  (
                    sym (mapped.0),
                    (λ _. verified-IsLoaded (parse_table max_partitions bytes) parsed valid),
                    λ (f : true ≡ false). cc f,
                  )
            | inr bad ↦
                rw (e, bad, bootloader_utility_load_partition_table)
                  (sym (mapped.0), (λ (f : false ≡ true). cc f), λ _. refl)
          ]
    ]
