-- ===== src/Partition/Verify.antt =====
-- What `esp_partition_table_verify` accepts.
use esp32c3_bootloader_rust.Common.{
  ℕ, ◌+◌, ◌^◌, ◌≤◌, ◌<◌, ◌≡◌, ◌≢◌, ◌⊎◌, ◌↔◌, inl, inr, refl, ◌∙◌, arith, List, [], ◌∷◌, ◌++◌, Bool,
  true, false, ◌&&◌, not, Bool-cases, All, All-append, length, take, if◌then◌else◌, ◌==◌,
}
use esp32c3_bootloader_rust.Image.Segments.{PartitionPos}
use esp32c3_bootloader_rust.Partition.{
  EspPartitionInfo, esp_partition_magic, max_partitions, min_part_offset, max_flash_size,
  label_from, label_is_valid, out_of_range, overlap, overlaps_any, verify_from,
  esp_partition_table_verify,
}

-- The entries before the first one without the magic number.
unfoldable pub leading : List EspPartitionInfo → List EspPartitionInfo
leading [] = []
leading (p ∷ ps) = if p.magic == esp_partition_magic then p ∷ leading ps else []

-- Offset and size are `u32` values, as in every parsed table.
abbrev pub IsParsed : EspPartitionInfo → Type 0
IsParsed p = (p.pos.offset < 2 ^ 32) × (p.pos.size < 2 ^ 32)

-- Printable characters, and then only zeros.
abbrev pub IsZeros : List ℕ → Type 0
IsZeros l = All (λ b. b ≡ 0) l

pub data IsLabel : List ℕ → Type 0 where
  zeros : {l : List ℕ} → IsZeros l → IsLabel l
  char : {b : ℕ} {l : List ℕ} → 0x20 ≤ b → b ≤ 0x7E → IsLabel l → IsLabel (b ∷ l)

-- The partition lies behind the table and inside the flash, without wrapping.
pub record IsPlaced (p : PartitionPos) : Type 0 where
  pub nonempty : p.size ≢ 0
  pub above : min_part_offset ≤ p.offset
  pub below : p.offset + p.size ≤ max_flash_size

abbrev pub Disjoint : PartitionPos → PartitionPos → Type 0
Disjoint p q = (p.offset + p.size ≤ q.offset) ⊎ (q.offset + q.size ≤ p.offset)

-- Each entry is placed and labelled, and disjoint from every entry before it.
abbrev pub IsTable : List EspPartitionInfo → List EspPartitionInfo → Type 0
IsTable earlier [] = Unit
IsTable earlier (p ∷ ps) =
    IsPlaced p.pos
    × IsLabel p.label
    × All (λ q. Disjoint p.pos q.pos) earlier
    × IsTable (earlier ++ p ∷ []) ps

out_of_range_iff :
    (p : PartitionPos) → p.offset < 2 ^ 32 → p.size < 2 ^ 32 → (out_of_range p ≡ false) ↔ IsPlaced p
unfolding out_of_range
out_of_range_iff p h k = ground arith

overlap_iff : (p q : PartitionPos) → IsPlaced p → IsPlaced q → (overlap p q ≡ false) ↔ Disjoint p q
unfolding overlap
overlap_iff p q h k = ground arith

abbrev IsEarlier : EspPartitionInfo → Type 0
IsEarlier q = (q.magic ≡ esp_partition_magic) × IsPlaced q.pos

overlaps_any_iff :
    (p : PartitionPos) (earlier : List EspPartitionInfo)
    → IsPlaced p
    → All IsEarlier earlier
    → (overlaps_any p earlier ≡ false) ↔ All (λ q. Disjoint p q.pos) earlier
unfolding overlaps_any
overlaps_any_iff p [] h k = ((λ _. tt), (λ _. refl))
overlaps_any_iff p (q ∷ qs) h k = ground (arith, overlap_iff p q.pos h, overlaps_any_iff p qs h)

ended_iff : (l : List ℕ) → (label_from true l ≡ true) ↔ IsZeros l
unfolding label_from
ended_iff [] = ((λ _. tt), (λ _. refl))
ended_iff (b ∷ l) = ground (arith, ended_iff l)

zeros-going : (l : List ℕ) → IsZeros l → label_from false l ≡ true
unfolding label_from
zeros-going [] h = refl
zeros-going (b ∷ l) h = ground (arith, ended_iff l)

IsLabel-label_from : (l : List ℕ) → label_from false l ≡ true → IsLabel l
unfolding label_from
IsLabel-label_from [] h = zeros tt
IsLabel-label_from (b ∷ l) h = elim (Bool-cases (b == 0)) [
  | inl nul ↦ zeros (ground (arith, ended_iff l))
  | inr more ↦ char (ground arith) (ground arith) (IsLabel-label_from l (ground arith))
]

label_from-IsLabel : {l : List ℕ} → IsLabel l → label_from false l ≡ true
unfolding label_from
label_from-IsLabel (zeros z) = zeros-going _ z
label_from-IsLabel (char p q r) = ground (arith, label_from-IsLabel r)

label_is_valid_iff : (l : List ℕ) → (label_is_valid l ≡ true) ↔ IsLabel l
unfolding label_is_valid
label_is_valid_iff l = (IsLabel-label_from l, λ h. label_from-IsLabel h)

verify_from-false :
    (count : ℕ) (earlier ps : List EspPartitionInfo)
    → (verify_from false count earlier ps).0 ≡ false
unfolding verify_from
verify_from-false count earlier [] = refl
verify_from-false count earlier (p ∷ ps) =
    ground (arith, verify_from-false (count + 1) (earlier ++ p ∷ []) ps)

verify_from-count :
    (ps : List EspPartitionInfo) (valid : Bool) (count : ℕ) (earlier : List EspPartitionInfo)
    → (verify_from valid count earlier ps).1 ≡ count + length (leading ps)
unfolding verify_from leading
verify_from-count [] valid count earlier = omega arith
verify_from-count (p ∷ ps) valid count earlier =
    elim (Bool-cases (p.magic == esp_partition_magic)) [
      | inl yes_magic ↦
          rw yes_magic (verify_from-count ps _ (count + 1) (earlier ++ p ∷ []) ∙ omega arith)
      | inr no_magic ↦ rw no_magic (omega arith)
    ]

abbrev accepts : EspPartitionInfo → List EspPartitionInfo → Bool
accepts p earlier =
    not (out_of_range p.pos) && not (overlaps_any p.pos earlier) && label_is_valid p.label

accepts_iff :
    (p : EspPartitionInfo) (earlier : List EspPartitionInfo)
    → IsParsed p
    → All IsEarlier earlier
    → (accepts p earlier ≡ true)
      ↔ (IsPlaced p.pos × IsLabel p.label × All (λ q. Disjoint p.pos q.pos) earlier)
accepts_iff p earlier parsed h = (
  λ e.
      let placed : IsPlaced p.pos = (out_of_range_iff p.pos parsed.0 parsed.1).0 (ground arith) in
      (
        placed,
        (label_is_valid_iff p.label).0 (ground arith),
        (overlaps_any_iff p.pos earlier placed h).0 (ground arith),
      ),
  λ a.
      let r : out_of_range p.pos ≡ false = (out_of_range_iff p.pos parsed.0 parsed.1).1 a.0 in
      let o : overlaps_any p.pos earlier ≡ false = (overlaps_any_iff p.pos earlier a.0 h).1 a.2 in
      rw (r, o, (label_is_valid_iff p.label).1 a.1),
)

verify_from_iff :
    (ps : List EspPartitionInfo) (count : ℕ) (earlier : List EspPartitionInfo)
    → All IsEarlier earlier
    → All IsParsed ps
    → ((verify_from true count earlier ps).0 ≡ true) ↔ IsTable earlier (leading ps)
unfolding verify_from leading
verify_from_iff [] count earlier h k = ((λ _. tt), (λ _. refl))
verify_from_iff (p ∷ ps) count earlier h k =
    let ih = λ (m : p.magic ≡ esp_partition_magic) (placed : IsPlaced p.pos).
      verify_from_iff ps (count + 1) (earlier ++ p ∷ [])
        (All-append IsEarlier earlier (p ∷ []) h ((m, placed), tt)) k.1 in
    let stop = verify_from-false (count + 1) (earlier ++ p ∷ []) ps in
    let each = accepts_iff p earlier k.0 h in
    elim (Bool-cases (p.magic == esp_partition_magic)) [
      | inr no_magic ↦ rw no_magic ((λ _. tt), (λ _. refl))
      | inl magic ↦ rw magic (
        λ v. elim (Bool-cases (accepts p earlier)) [
          | inl ok ↦ let a = each.0 ok in (a.0, a.1, a.2, (ih (ground arith) a.0).0 (rw ok at v))
          | inr bad ↦ cc (rw bad at v)
        ],
        λ t.
            let ok : accepts p earlier ≡ true = each.1 (t.0, t.1, t.2) in
            rw ok ((ih (ground arith) t.0).1 t.3),
      )
    ]

-- For a parsed table, the verdict is true exactly when every entry before the first one without
-- the magic number (of the first 95) lies behind the table and inside the flash, has a printable
-- label, and is disjoint from every entry before it; the count is the number of those entries,
-- whatever the verdict.
pub esp_partition_table_verify_iff :
    (partitions : List EspPartitionInfo)
    → All IsParsed (take max_partitions partitions)
    → (((esp_partition_table_verify partitions).0 ≡ true)
        ↔ IsTable [] (leading (take max_partitions partitions)))
      × ((esp_partition_table_verify partitions).1
          ≡ length (leading (take max_partitions partitions)))
unfolding esp_partition_table_verify
esp_partition_table_verify_iff partitions k = (
  verify_from_iff (take max_partitions partitions) 0 [] tt k,
  verify_from-count (take max_partitions partitions) true 0 [] ∙ omega arith,
)
