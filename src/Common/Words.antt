-- ===== src/Common/Words.antt =====
-- Machine words: `u32` arithmetic of a release build wraps, and bytes are read little-endian.
use Prim.Native.Nat.{ℕ, ◌+◌, ◌-◌, ◌*◌, ◌/◌, ◌%◌, ◌^◌, ◌<◌, bit_or}
use mathlib.Core.Path.{◌≡◌}
use mathlib.Core.List.{List, [], ◌∷◌}
use native.Mathlib.Omega.{arith}
use esp32c3_bootloader_rust.Common.Lists.{get_or}

abbrev pub add32 : ℕ → ℕ → ℕ
add32 a b = (a + b) % 2 ^ 32

-- The second number is below 2 ^ 32 wherever this is called.
abbrev pub sub32 : ℕ → ℕ → ℕ
sub32 a b = (a + 2 ^ 32 - b) % 2 ^ 32

abbrev pub u32_max : ℕ
u32_max = 0xffff_ffff

-- `!x` on a `u32`
abbrev pub not32 : ℕ → ℕ
not32 x = 0xffff_ffff - x

-- `x.rotate_right(n)`
abbrev pub rotr32 : ℕ → ℕ → ℕ
rotr32 x n = bit_or (x / 2 ^ n) (x * 2 ^ (32 - n) % 2 ^ 32)

abbrev pub byte_at : List ℕ → ℕ → ℕ
byte_at bs i = get_or bs i 0

abbrev pub u16_at : List ℕ → ℕ → ℕ
u16_at bs i = byte_at bs i + byte_at bs (i + 1) * 0x100

abbrev pub u32_at : List ℕ → ℕ → ℕ
u32_at bs i =
    byte_at bs i
    + byte_at bs (i + 1) * 0x100
    + byte_at bs (i + 2) * 0x1_0000
    + byte_at bs (i + 3) * 0x100_0000

-- `u32::to_le_bytes`, and the bytes of a `u32` in memory
abbrev pub to_le_bytes : ℕ → List ℕ
to_le_bytes w = w % 0x100 ∷ w / 0x100 % 0x100 ∷ w / 0x1_0000 % 0x100 ∷ w / 0x100_0000 % 0x100 ∷ []

pub u32_at-to_le_bytes : (w : ℕ) → w < 2 ^ 32 → u32_at (to_le_bytes w) 0 ≡ w
u32_at-to_le_bytes w h = omega arith
