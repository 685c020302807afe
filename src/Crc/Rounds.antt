-- ===== src/Crc/Rounds.antt =====
-- The inner loop of the CRC is injective on `u32` values, since the polynomial's top bit is set.
use esp32c3_bootloader_rust.Common.{
  ℕ, zero, suc, ◌+◌, ◌/◌, ◌*◌, ◌^◌, ◌<◌, bit_xor, ◌≡◌, refl, arith, List, [], ◌∷◌, ap, sym, ◌∙◌,
  All, IsByte, ◌++◌,
}
use native.Mathlib.Nat.{pow-suc, zero-add}
use esp32c3_bootloader_rust.Common.Bits.{
  bit_xor-lt, le-bit_xor, bit_xor-inj_right, half-bit_xor, low-bit_xor, bit_xor_assoc, bit_xor_comm,
}
use esp32c3_bootloader_rust.Crc.{polynomial, crc_round, crc_rounds, bootloader_crc32_le}

pub crc_round-lt : (c : ℕ) → c < 2 ^ 32 → crc_round c < 2 ^ 32
unfolding crc_round
crc_round-lt c h = ground (arith, bit_xor-lt 32 (c / 2) polynomial)

crc_round-inj : (a b : ℕ) → a < 2 ^ 32 → b < 2 ^ 32 → crc_round a ≡ crc_round b → a ≡ b
unfolding crc_round
crc_round-inj a b ha hb e = ground (
  arith,
  le-bit_xor 31 (a / 2) polynomial,
  le-bit_xor 31 (b / 2) polynomial,
  bit_xor-inj_right (a / 2) (b / 2) polynomial,
)

pub crc_rounds-lt : (n c : ℕ) → c < 2 ^ 32 → crc_rounds n c < 2 ^ 32
unfolding crc_rounds
crc_rounds-lt zero c h = h
crc_rounds-lt (suc n) c h = crc_rounds-lt n (crc_round c) (crc_round-lt c h)

pub crc_rounds-inj : (n a b : ℕ) → a < 2 ^ 32 → b < 2 ^ 32 → crc_rounds n a ≡ crc_rounds n b → a ≡ b
unfolding crc_rounds
crc_rounds-inj zero a b ha hb e = e
crc_rounds-inj (suc n) a b ha hb e =
    crc_round-inj a b ha hb
      (crc_rounds-inj n (crc_round a) (crc_round b) (crc_round-lt a ha) (crc_round-lt b hb) e)

-- A value that enters shifted left by one comes out of a round unchanged.
crc_round-shift : (c y : ℕ) → crc_round (bit_xor c (y * 2)) ≡ bit_xor (crc_round c) y
unfolding crc_round
crc_round-shift c y = ground (
  arith,
  half-bit_xor c (y * 2),
  low-bit_xor c (y * 2),
  bit_xor_assoc (c / 2) y polynomial,
  bit_xor_assoc (c / 2) polynomial y,
  bit_xor_comm y polynomial,
)

-- A value that enters shifted left by `n` comes out of `n` rounds unchanged.
pub crc_rounds-shift :
    (n c y : ℕ) → crc_rounds n (bit_xor c (y * 2 ^ n)) ≡ bit_xor (crc_rounds n c) y
unfolding crc_rounds
crc_rounds-shift zero c y = ap (bit_xor c) (omega arith)
crc_rounds-shift (suc n) c y =
    ap (λ t. crc_rounds n (crc_round (bit_xor c t))) (doubled n y)
    ∙ ap (crc_rounds n) (crc_round-shift c (y * 2 ^ n))
    ∙ crc_rounds-shift n (crc_round c) y
  where
    doubled : (k z : ℕ) → z * 2 ^ suc k ≡ z * 2 ^ k * 2
    doubled k z = omega (arith, ap (λ (t : ℕ). z * t) (pow-suc 2 k))

pub crc_rounds_add : (m n c : ℕ) → crc_rounds n (crc_rounds m c) ≡ crc_rounds (m + n) c
unfolding crc_rounds
crc_rounds_add zero n c = ap (λ k. crc_rounds k c) (sym (zero-add n))
crc_rounds_add (suc m) n c = rw (Prim.Native.Nat.add.suc) (crc_rounds_add m n (crc_round c))

-- Every value of the CRC is a `u32`.
pub bootloader_crc32_le-lt :
    (bytes : List ℕ) (crc : ℕ)
    → crc < 2 ^ 32
    → All IsByte bytes
    → bootloader_crc32_le crc bytes < 2 ^ 32
unfolding bootloader_crc32_le
bootloader_crc32_le-lt [] crc h k = h
bootloader_crc32_le-lt (b ∷ rest) crc h k =
    bootloader_crc32_le-lt rest _ (crc_rounds-lt 8 _ (bit_xor-lt 32 crc b h (omega arith))) k.1

-- The CRC of two parts one after the other is that of the whole.
pub bootloader_crc32_le-append :
    (xs ys : List ℕ) (crc : ℕ)
    → bootloader_crc32_le crc (xs ++ ys) ≡ bootloader_crc32_le (bootloader_crc32_le crc xs) ys
unfolding bootloader_crc32_le
bootloader_crc32_le-append [] ys crc = refl
bootloader_crc32_le-append (x ∷ xs) ys crc = bootloader_crc32_le-append xs ys _
