-- ===== src/Crc/Word.antt =====
-- The CRC of the four bytes of a `u32`, which protects an OTA-select entry.
use esp32c3_bootloader_rust.Common.{
  ℕ, ◌+◌, ◌*◌, ◌/◌, ◌%◌, ◌^◌, ◌<◌, bit_xor, ◌≡◌, arith, ap, sym, ◌∙◌, to_le_bytes,
}
use esp32c3_bootloader_rust.Common.Bits.{
  bit_xor-lt, bit_xor-inj_left, bit_xor_fields, bit_xor_assoc,
}
use esp32c3_bootloader_rust.Crc.{bootloader_crc32_le, crc_rounds}
use esp32c3_bootloader_rust.Crc.Rounds.{crc_rounds-inj, crc_rounds-shift, crc_rounds_add}

-- The state after the rounds so far takes the next byte as if it had been there from the start.
absorb :
    (n c y : ℕ)
    → crc_rounds 8 (bit_xor (crc_rounds n c) y) ≡ crc_rounds (n + 8) (bit_xor c (y * 2 ^ n))
absorb n c y =
    ap (crc_rounds 8) (sym (crc_rounds-shift n c y)) ∙ crc_rounds_add n 8 (bit_xor c (y * 2 ^ n))

word_as_xor :
    (c w : ℕ)
    → w < 2 ^ 32
    → bit_xor
        (bit_xor (bit_xor (bit_xor c (w % 256)) (w / 256 % 256 * 2 ^ 8)) (w / 65536 % 256 * 2 ^ 16))
        (w / 16777216 % 256 * 2 ^ 24)
      ≡ bit_xor c w
word_as_xor c w h =
    rw
      (
        bit_xor_assoc c (w % 256) (w / 256 % 256 * 2 ^ 8),
        bit_xor_fields 8 (w / 256 % 256) (w % 256) (omega arith),
        bit_xor_assoc c _ (w / 65536 % 256 * 2 ^ 16),
        bit_xor_fields 16 (w / 65536 % 256) (w % 256 + w / 256 % 256 * 2 ^ 8) (omega arith),
        bit_xor_assoc c _ (w / 16777216 % 256 * 2 ^ 24),
        bit_xor_fields 24 (w / 16777216 % 256)
            (w % 256 + w / 256 % 256 * 2 ^ 8 + w / 65536 % 256 * 2 ^ 16) (omega arith),
      )
      (ap (bit_xor c) (omega arith))

-- The bytewise CRC of a `u32` in little-endian order is 32 rounds over the word itself.
pub crc-to_le_bytes :
    (c w : ℕ) → w < 2 ^ 32 → bootloader_crc32_le c (to_le_bytes w) ≡ crc_rounds 32 (bit_xor c w)
unfolding bootloader_crc32_le
crc-to_le_bytes c w h =
    ap (λ t. crc_rounds 8 (bit_xor (crc_rounds 8 (bit_xor t b2)) b3)) (absorb 8 (bit_xor c b0) b1)
    ∙ ap (λ t. crc_rounds 8 (bit_xor t b3)) (absorb 16 _ b2)
    ∙ absorb 24 _ b3
    ∙ ap (crc_rounds 32) (word_as_xor c w h)
  where
    b0 : ℕ
    b0 = w % 256

    b1 : ℕ
    b1 = w / 256 % 256

    b2 : ℕ
    b2 = w / 65536 % 256

    b3 : ℕ
    b3 = w / 16777216 % 256

-- Two `u32` values whose little-endian bytes have the same CRC are equal.
pub crc-to_le_bytes-inj :
    (c v w : ℕ)
    → c < 2 ^ 32
    → v < 2 ^ 32
    → w < 2 ^ 32
    → bootloader_crc32_le c (to_le_bytes v) ≡ bootloader_crc32_le c (to_le_bytes w)
    → v ≡ w
crc-to_le_bytes-inj c v w hc hv hw e = bit_xor-inj_left c v w (
    crc_rounds-inj 32 _ _ (bit_xor-lt 32 c v hc hv) (bit_xor-lt 32 c w hc hw)
      (sym (crc-to_le_bytes c v hv) ∙ e ∙ crc-to_le_bytes c w hw))
