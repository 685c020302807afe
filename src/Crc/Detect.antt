-- ===== src/Crc/Detect.antt =====
-- What the CRC detects.
use esp32c3_bootloader_rust.Common.{
  ℕ, zero, suc, ◌+◌, ◌^◌, ◌≤◌, ◌<◌, bit_xor, ◌≡◌, ◌≢◌, refl, arith, List, [], ◌∷◌, ◌++◌, ap, sym,
  ◌∙◌, All, IsByte, length, take, drop, drop-eq-cons, byte_at,
}
use esp32c3_bootloader_rust.Common.Bits.{
  low-bit_and, bit_xor-lt, bit_xor-inj_left, bit_xor-inj_right,
}
use esp32c3_bootloader_rust.Crc.{
  bootloader_crc32_le, crc_round, crc_rounds, rom_round, rom_rounds, rom_crc_from, esp_rom_crc32_le,
}
use esp32c3_bootloader_rust.Crc.Rounds.{
  crc_rounds-lt, crc_rounds-inj, bootloader_crc32_le-lt, bootloader_crc32_le-append,
}

-- Over the same bytes, different start values give different results.
crc-inj_start :
    (bytes : List ℕ) (a b : ℕ)
    → a < 2 ^ 32
    → b < 2 ^ 32
    → All IsByte bytes
    → bootloader_crc32_le a bytes ≡ bootloader_crc32_le b bytes
    → a ≡ b
unfolding bootloader_crc32_le
crc-inj_start [] a b ha hb k e = e
crc-inj_start (x ∷ rest) a b ha hb k e =
    let la : bit_xor a x < 2 ^ 32 = bit_xor-lt 32 a x ha (omega arith) in
    let lb : bit_xor b x < 2 ^ 32 = bit_xor-lt 32 b x hb (omega arith) in
    bit_xor-inj_right a b x (
      crc_rounds-inj 8 _ _ la lb
        (crc-inj_start rest _ _ (crc_rounds-lt 8 _ la) (crc_rounds-lt 8 _ lb) k.1 e))

-- Two messages of bytes that differ in exactly one byte, wherever it stands, have different CRCs
-- from every 32-bit start value.
pub crc_detects_one_byte :
    (crc : ℕ) (before : List ℕ) (x y : ℕ) (after : List ℕ)
    → crc < 2 ^ 32
    → All IsByte before
    → IsByte x
    → IsByte y
    → All IsByte after
    → x ≢ y
    → bootloader_crc32_le crc (before ++ x ∷ after) ≢ bootloader_crc32_le crc (before ++ y ∷ after)
unfolding bootloader_crc32_le
crc_detects_one_byte crc before x y after h hb hx hy ha ne e =
    let start : ℕ = bootloader_crc32_le crc before in
    let fits : start < 2 ^ 32 = bootloader_crc32_le-lt before crc h hb in
    let lx : bit_xor start x < 2 ^ 32 = bit_xor-lt 32 start x fits (omega arith) in
    let ly : bit_xor start y < 2 ^ 32 = bit_xor-lt 32 start y fits (omega arith) in
    ne (
      bit_xor-inj_left start x y (
        crc_rounds-inj 8 _ _ lx ly (
          crc-inj_start after _ _ (crc_rounds-lt 8 _ lx) (crc_rounds-lt 8 _ ly) ha (
            sym (bootloader_crc32_le-append before (x ∷ after) crc)
            ∙ e
            ∙ bootloader_crc32_le-append before (y ∷ after) crc))))

-- The two inner loops.
rom_round_lem : (crc : ℕ) → rom_round crc ≡ crc_round crc
unfolding rom_round crc_round
rom_round_lem crc = ground (arith, low-bit_and crc)

rom_rounds_lem : (n crc : ℕ) → rom_rounds n crc ≡ crc_rounds n crc
unfolding rom_rounds crc_rounds
rom_rounds_lem zero crc = refl
rom_rounds_lem (suc n) crc =
    rom_rounds_lem n (rom_round crc) ∙ ap (crc_rounds n) (rom_round_lem crc)

-- The loop over an index, from any index.
rom_crc_from_lem :
    (left i : ℕ) (bytes : List ℕ) (crc : ℕ)
    → i + left ≤ length bytes
    → rom_crc_from left i crc bytes ≡ bootloader_crc32_le crc (take left (drop i bytes))
unfolding rom_crc_from bootloader_crc32_le
rom_crc_from_lem zero i bytes crc h = refl
rom_crc_from_lem (suc left) i bytes crc h =
    rom_crc_from_lem left (i + 1) bytes _ (omega arith)
    ∙ ap (λ t. bootloader_crc32_le t (take left (drop (i + 1) bytes)))
        (rom_rounds_lem 8 (bit_xor crc (byte_at bytes i)))
    ∙ ap (λ t. bootloader_crc32_le crc (take (suc left) t))
        (sym (drop-eq-cons i bytes 0 (omega arith)))

-- The two implementations of the CRC agree: `esp_rom_crc32_le` over the first `len` bytes of a
-- buffer that holds as many is `bootloader_crc32_le` over those bytes.
pub esp_rom_crc32_le-eq-bootloader_crc32_le :
    (crc : ℕ) (bytes : List ℕ) (len : ℕ)
    → len ≤ length bytes
    → esp_rom_crc32_le crc bytes len ≡ bootloader_crc32_le crc (take len bytes)
unfolding esp_rom_crc32_le
esp_rom_crc32_le-eq-bootloader_crc32_le crc bytes len h =
    rom_crc_from_lem len 0 bytes crc (omega arith)
