-- ===== src/Common/Masks.antt =====
-- The bits of a conjunction and of a disjunction.
use Prim.Native.Nat.{ℕ, zero, suc, ◌/◌, ◌%◌, ◌≤◌, min, max, bit_and, bit_or}
use mathlib.Core.Path.{◌≡◌, ap, ◌∙◌}
use native.Mathlib.Omega.{arith}
use esp32c3_bootloader_rust.Common.Bits.{and_halves, or_halves}

-- Bit `k` of a number.
unfoldable pub bit : ℕ → ℕ → ℕ
bit zero x = x % 2
bit (suc k) x = bit k (x / 2)

pub bit-bit_and : (k a b : ℕ) → bit k (bit_and a b) ≡ min (bit k a) (bit k b)
unfolding bit
bit-bit_and zero a b = (and_halves a b).1
bit-bit_and (suc k) a b = ap (bit k) (and_halves a b).0 ∙ bit-bit_and k (a / 2) (b / 2)

pub bit-bit_or : (k a b : ℕ) → bit k (bit_or a b) ≡ max (bit k a) (bit k b)
unfolding bit
bit-bit_or zero a b = (or_halves a b).1
bit-bit_or (suc k) a b = ap (bit k) (or_halves a b).0 ∙ bit-bit_or k (a / 2) (b / 2)

pub bit-lt : (k a : ℕ) → bit k a ≤ 1
unfolding bit
bit-lt zero a = omega arith
bit-lt (suc k) a = bit-lt k (a / 2)
