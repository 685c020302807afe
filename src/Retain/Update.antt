-- ===== src/Retain/Update.antt =====
-- What recording a factory reset does to the retain memory.
use esp32c3_bootloader_rust.Common.{
  ℕ, zero, suc, ◌+◌, ◌^◌, ◌≤◌, ◌<◌, ◌≡◌, ◌⊎◌, inr, refl, sym, ap, ap₂, ◌∙◌, arith, List, [], ◌∷◌,
  Bool, true, false, not, if◌then◌else◌, ◌==◌, u32_max, to_le_bytes, replicate, length, IsByte, All,
  take_all, ◌&&◌, leb, ltb,
}
use esp32c3_bootloader_rust.Crc.{esp_rom_crc32_le}
use esp32c3_bootloader_rust.Crc.Detect.{esp_rom_crc32_le-eq-bootloader_crc32_le}
use esp32c3_bootloader_rust.Crc.Rounds.{bootloader_crc32_le-lt}
use esp32c3_bootloader_rust.Image.Segments.{copy_to_ram}
use esp32c3_bootloader_rust.Image.Process.Kept.{copy_to_ram-outside}
use esp32c3_bootloader_rust.Retain.{
  rtc_retain_mem_addr, retain_size, ram_bytes, retain_crc, crc32_retain_mem,
  is_rtc_retain_mem_valid, update_rtc_retain_mem_crc, set_rtc_retain_mem_factory_reset_state,
}

-- Every cell of the RAM holds a byte.
abbrev pub IsRam : (ℕ → ℕ) → Type 0
IsRam ram = (a : ℕ) → ram a < 256

copy-IsRam :
    (bytes : List ℕ) (ram : ℕ → ℕ) (addr : ℕ)
    → IsRam ram
    → All IsByte bytes
    → IsRam (copy_to_ram ram addr bytes)
unfolding copy_to_ram
copy-IsRam [] ram addr h k = h
copy-IsRam (b ∷ bs) ram addr h k =
    copy-IsRam bs (λ x. if x == addr then b else ram x) (addr + 1) (λ a. ground (arith, h a)) k.1

pub ram_bytes_ext :
    (n : ℕ) (f g : ℕ → ℕ) (addr : ℕ)
    → ((a : ℕ) → addr ≤ a → a < addr + n → f a ≡ g a)
    → ram_bytes f addr n ≡ ram_bytes g addr n
unfolding ram_bytes
ram_bytes_ext zero f g addr h = refl
ram_bytes_ext (suc n) f g addr h =
    ap₂ (λ x xs. x ∷ xs) (h addr (omega arith) (omega arith))
      (ram_bytes_ext n f g (addr + 1) (λ a k l. h a (omega arith) (omega arith)))

length-ram_bytes : (n : ℕ) (f : ℕ → ℕ) (addr : ℕ) → length (ram_bytes f addr n) ≡ n
unfolding ram_bytes
length-ram_bytes zero f addr = refl
length-ram_bytes (suc n) f addr = omega (arith, length-ram_bytes n f (addr + 1))

ram_bytes-IsByte : (n : ℕ) (f : ℕ → ℕ) (addr : ℕ) → IsRam f → All IsByte (ram_bytes f addr n)
unfolding ram_bytes
ram_bytes-IsByte zero f addr h = tt
ram_bytes-IsByte (suc n) f addr h = (h addr, ram_bytes-IsByte n f (addr + 1) h)

crc32_retain_mem-lt : (ram : ℕ → ℕ) → IsRam ram → crc32_retain_mem ram < 2 ^ 32
unfolding crc32_retain_mem
crc32_retain_mem-lt ram h =
    let bytes = ram_bytes ram (rtc_retain_mem_addr + 4) 80 in
    let size = length-ram_bytes 80 ram (rtc_retain_mem_addr + 4) in
    rw
      (
        esp_rom_crc32_le-eq-bootloader_crc32_le u32_max bytes 80 (omega arith),
        take_all 80 bytes (omega arith),
      )
      (bootloader_crc32_le-lt bytes u32_max (omega arith) (ram_bytes-IsByte 80 ram _ h))

-- The CRC does not cover its own field.
crc32_retain_mem-update :
    (ram : ℕ → ℕ) → crc32_retain_mem (update_rtc_retain_mem_crc ram) ≡ crc32_retain_mem ram
unfolding crc32_retain_mem update_rtc_retain_mem_crc
crc32_retain_mem-update ram =
    ap (λ bytes. esp_rom_crc32_le u32_max bytes 80)
      (ram_bytes_ext 80 _ ram (rtc_retain_mem_addr + 4) (λ a k l.
        copy_to_ram-outside (to_le_bytes _) ram rtc_retain_mem_addr a (inr (omega arith))))

retain_crc-update :
    (ram : ℕ → ℕ) → IsRam ram → retain_crc (update_rtc_retain_mem_crc ram) ≡ crc32_retain_mem ram
unfolding update_rtc_retain_mem_crc copy_to_ram
retain_crc-update ram h = omega (arith, crc32_retain_mem-lt ram h)

-- The memory after a factory reset is recorded, but for the CRC field: the flag is set, and the
-- rest of the record is kept when it was valid and cleared when it was not.
abbrev pub recorded : (ℕ → ℕ) → ℕ → ℕ
recorded ram a =
    if a == rtc_retain_mem_addr + 16
    then 1
    else if leb rtc_retain_mem_addr a
        && ltb a (rtc_retain_mem_addr + retain_size)
        && not (is_rtc_retain_mem_valid ram)
    then 0
    else ram a

copy-zeros :
    (n : ℕ) (ram : ℕ → ℕ) (addr a : ℕ)
    → copy_to_ram ram addr (replicate n 0) a ≡ (if leb addr a && ltb a (addr + n) then 0 else ram a)
unfolding copy_to_ram
copy-zeros zero ram addr a = ground arith
copy-zeros (suc n) ram addr a =
    copy-zeros n (λ x. if x == addr then 0 else ram x) (addr + 1) a ∙ ground arith

zeros-IsByte : (n : ℕ) → All IsByte (replicate n 0)
zeros-IsByte zero = tt
zeros-IsByte (suc n) = (omega arith, zeros-IsByte n)

-- The record that the flag is written into, for a record of `n` bytes at `addr`.
kept : Bool → ℕ → ℕ → (ℕ → ℕ) → ℕ → ℕ
kept valid n addr ram = if not valid then copy_to_ram ram addr (replicate n 0) else ram

kept-IsRam : (valid : Bool) (n addr : ℕ) (ram : ℕ → ℕ) → IsRam ram → IsRam (kept valid n addr ram)
unfolding kept
kept-IsRam true n addr ram h = h
kept-IsRam false n addr ram h = copy-IsRam (replicate n 0) ram addr h (zeros-IsByte n)

kept_lem :
    (valid : Bool) (n addr : ℕ) (ram : ℕ → ℕ) (a : ℕ)
    → kept valid n addr ram a ≡ (if leb addr a && ltb a (addr + n) && not valid then 0 else ram a)
unfolding kept
kept_lem true n addr ram a = ground arith
kept_lem false n addr ram a = copy-zeros n ram addr a ∙ ground arith

set_state_lem :
    (ram : ℕ → ℕ)
    → set_rtc_retain_mem_factory_reset_state ram
      ≡ update_rtc_retain_mem_crc (
          copy_to_ram
            (kept (is_rtc_retain_mem_valid ram) retain_size rtc_retain_mem_addr ram)
            (rtc_retain_mem_addr + 16)
            (1 ∷ []))
unfolding set_rtc_retain_mem_factory_reset_state kept
set_state_lem ram = refl

-- Recording a factory reset in a RAM of bytes gives the record a CRC field that is the CRC of the
-- record, and every address outside that field holds what `recorded` says: 1 in the flag, the old
-- byte outside the record and in a record that was valid, and 0 in one that was not.
pub set_factory_reset_state-recorded :
    (ram : ℕ → ℕ) (a : ℕ)
    → IsRam ram
    → (a < rtc_retain_mem_addr) ⊎ (rtc_retain_mem_addr + 4 ≤ a)
    → let after = set_rtc_retain_mem_factory_reset_state ram in
      (after a ≡ recorded ram a) × (retain_crc after ≡ crc32_retain_mem after)
unfolding update_rtc_retain_mem_crc copy_to_ram
set_factory_reset_state-recorded ram a h k =
    let valid = is_rtc_retain_mem_valid ram in
    let before = kept valid retain_size rtc_retain_mem_addr ram in
    let flagged = copy_to_ram before (rtc_retain_mem_addr + 16) (1 ∷ []) in
    let bytes =
      copy-IsRam (1 ∷ []) before (rtc_retain_mem_addr + 16)
        (kept-IsRam valid retain_size rtc_retain_mem_addr ram h) (omega arith, tt) in
    rw (set_state_lem ram) (
      ground (arith, kept_lem valid retain_size rtc_retain_mem_addr ram a),
      retain_crc-update flagged bytes ∙ sym (crc32_retain_mem-update flagged),
    )
