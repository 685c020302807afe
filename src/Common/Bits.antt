-- ===== src/Common/Bits.antt =====
-- Laws of the bitwise operations at variables, from their lowest digits.
use Prim.Native.Nat.{ℕ, zero, suc, ◌+◌, ◌*◌, ◌/◌, ◌%◌, ◌^◌, ◌≤◌, ◌<◌, min, max, differ}
use Prim.Native.Nat.{
  bit_and, bit_xor, bit_or, digits, bit_and-bitwise, bit_xor-bitwise, bit_or-bitwise,
}
use mathlib.Core.Path.{◌≡◌, refl, sym, ◌∙◌, ap, ap₂}
use native.Mathlib.Nat.{le_refl, pow-suc}
use native.Mathlib.Omega.{arith}

-- The recursion behind the bitwise operations.
module _ (z : ℕ → ℕ) (f : ℕ → ℕ → ℕ) where
  nothing_left : (fuel y : ℕ) → digits z f fuel 0 y ≡ z y
  nothing_left zero y = refl
  nothing_left (suc fuel) y = refl

  -- The first number is fuel enough, and more fuel changes nothing.
  spare_fuel :
      (x y less more : ℕ) → x ≤ less → less ≤ more → digits z f more x y ≡ digits z f less x y
  spare_fuel zero y less more h k = nothing_left more y ∙ sym (nothing_left less y)
  spare_fuel (suc x) y zero more h k = absurd (omega arith)
  spare_fuel (suc x) y (suc less) zero h k = absurd (omega arith)
  spare_fuel (suc x) y (suc less) (suc more) h k =
      ap (λ t. t * 2 + f (suc x % 2) (y % 2))
        (spare_fuel (suc x / 2) (y / 2) less more (omega arith) (omega arith))

pub bit_xor_step : (a b : ℕ) → bit_xor a b ≡ bit_xor (a / 2) (b / 2) * 2 + differ (a % 2) (b % 2)
bit_xor_step zero b = simp bit_xor-bitwise (omega arith)
bit_xor_step (suc x) y = simp bit_xor-bitwise (
    omega (
      arith,
      spare_fuel (λ t. t) differ (suc x / 2) (y / 2) (suc x / 2) x (omega arith) (omega arith),
    ))

-- The half and the lowest bit of a disjunction, and of a conjunction.
pub or_halves :
    (x y : ℕ) → (bit_or x y / 2 ≡ bit_or (x / 2) (y / 2)) × (bit_or x y % 2 ≡ max (x % 2) (y % 2))
or_halves zero y = simp bit_or-bitwise (omega arith, omega arith)
or_halves (suc x) y =
    let rest =
      spare_fuel (λ t. t) max (suc x / 2) (y / 2) (suc x / 2) x (omega arith) (omega arith) in
    simp bit_or-bitwise (omega (arith, rest), omega arith)

pub and_halves :
    (x y : ℕ)
    → (bit_and x y / 2 ≡ bit_and (x / 2) (y / 2)) × (bit_and x y % 2 ≡ min (x % 2) (y % 2))
and_halves zero y = simp bit_and-bitwise (omega arith, omega arith)
and_halves (suc x) y =
    let rest =
      spare_fuel (λ t. 0) min (suc x / 2) (y / 2) (suc x / 2) x (omega arith) (omega arith) in
    simp bit_and-bitwise (omega (arith, rest), omega arith)

no_bits : (n x : ℕ) → x ≤ n → bit_and x 0 ≡ 0
no_bits zero zero h = simp bit_and-bitwise (omega arith)
no_bits zero (suc x) h = absurd (omega arith)
no_bits (suc n) x h = omega (arith, and_halves x 0, no_bits n (x / 2) (omega arith))

-- Masking with 1 takes the lowest bit.
pub low-bit_and : (x : ℕ) → bit_and x 1 ≡ x % 2
low-bit_and x = omega (arith, and_halves x 1, no_bits (x / 2) (x / 2) (omega arith))

differ_bits : (x y : ℕ) → x < 2 → y < 2 → differ x y ≡ (x + y) % 2
differ_bits zero y hx hy = omega arith
differ_bits (suc zero) zero hx hy = refl
differ_bits (suc zero) (suc zero) hx hy = refl
differ_bits (suc zero) (suc (suc y)) hx hy = absurd (omega arith)
differ_bits (suc (suc x)) y hx hy = absurd (omega arith)

-- The digits of an exclusive or: its half, and its lowest bit.
pub half-bit_xor : (a b : ℕ) → bit_xor a b / 2 ≡ bit_xor (a / 2) (b / 2)
half-bit_xor a b =
    omega (arith, bit_xor_step a b, differ_bits (a % 2) (b % 2) (omega arith) (omega arith))

pub low-bit_xor : (a b : ℕ) → bit_xor a b % 2 ≡ (a % 2 + b % 2) % 2
low-bit_xor a b =
    omega (arith, bit_xor_step a b, differ_bits (a % 2) (b % 2) (omega arith) (omega arith))

-- Numbers with the same half and the same lowest bit are equal.
pub eq_of_digits : (a b : ℕ) → a / 2 ≡ b / 2 → a % 2 ≡ b % 2 → a ≡ b
eq_of_digits a b h k = omega arith

ruleset xor_digits = (arith, half-bit_xor, low-bit_xor)

bit_xor_comm_fuel : (n a b : ℕ) → a ≤ n → b ≤ n → bit_xor a b ≡ bit_xor b a
bit_xor_comm_fuel zero zero zero p q = refl
bit_xor_comm_fuel zero zero (suc b) p q = absurd (omega arith)
bit_xor_comm_fuel zero (suc a) b p q = absurd (omega arith)
bit_xor_comm_fuel (suc n) a b p q =
    eq_of_digits _ _
      (omega (
        arith,
        half-bit_xor a b,
        half-bit_xor b a,
        bit_xor_comm_fuel n (a / 2) (b / 2) (omega arith) (omega arith),
      ))
      (omega (arith, low-bit_xor a b, low-bit_xor b a))

pub bit_xor_comm : (a b : ℕ) → bit_xor a b ≡ bit_xor b a
bit_xor_comm a b = bit_xor_comm_fuel (a + b) a b (omega arith) (omega arith)

bit_xor_assoc_fuel :
    (n a b c : ℕ) → a ≤ n → b ≤ n → c ≤ n → bit_xor (bit_xor a b) c ≡ bit_xor a (bit_xor b c)
bit_xor_assoc_fuel zero zero zero zero p q r = refl
bit_xor_assoc_fuel zero zero zero (suc c) p q r = absurd (omega arith)
bit_xor_assoc_fuel zero zero (suc b) c p q r = absurd (omega arith)
bit_xor_assoc_fuel zero (suc a) b c p q r = absurd (omega arith)
bit_xor_assoc_fuel (suc n) a b c p q r =
    eq_of_digits _ _
      (rw
        (
          half-bit_xor (bit_xor a b) c,
          half-bit_xor a b,
          half-bit_xor a (bit_xor b c),
          half-bit_xor b c,
        )
        (bit_xor_assoc_fuel n (a / 2) (b / 2) (c / 2) (omega arith) (omega arith) (omega arith)))
      (omega (
        arith,
        low-bit_xor (bit_xor a b) c,
        low-bit_xor a b,
        low-bit_xor a (bit_xor b c),
        low-bit_xor b c,
      ))

pub bit_xor_assoc : (a b c : ℕ) → bit_xor (bit_xor a b) c ≡ bit_xor a (bit_xor b c)
bit_xor_assoc a b c = bit_xor_assoc_fuel (a + b + c) a b c (omega arith) (omega arith) (omega arith)

bit_xor_self_fuel : (n a : ℕ) → a ≤ n → bit_xor a a ≡ 0
bit_xor_self_fuel zero zero p = refl
bit_xor_self_fuel zero (suc a) p = absurd (omega arith)
bit_xor_self_fuel (suc n) a p =
    eq_of_digits _ _ (rw (half-bit_xor a a) (bit_xor_self_fuel n (a / 2) (omega arith)))
      (omega (arith, low-bit_xor a a))

pub bit_xor_self : (a : ℕ) → bit_xor a a ≡ 0
bit_xor_self a = bit_xor_self_fuel a a (le_refl _)

pub zero-bit_xor : (b : ℕ) → bit_xor 0 b ≡ b
zero-bit_xor b = bit_xor-bitwise 0 b

pub bit_xor-zero : (a : ℕ) → bit_xor a 0 ≡ a
bit_xor-zero a = bit_xor_comm a 0 ∙ zero-bit_xor a

pub bit_xor_cancel : (a b : ℕ) → bit_xor (bit_xor a b) b ≡ a
bit_xor_cancel a b = bit_xor_assoc a b b ∙ ap (bit_xor a) (bit_xor_self b) ∙ bit_xor-zero a

-- Exclusive or by one value is injective, on either side.
pub bit_xor-inj_right : (a b k : ℕ) → bit_xor a k ≡ bit_xor b k → a ≡ b
bit_xor-inj_right a b k e = sym (bit_xor_cancel a k) ∙ ap (λ t. bit_xor t k) e ∙ bit_xor_cancel b k

pub bit_xor-inj_left : (k a b : ℕ) → bit_xor k a ≡ bit_xor k b → a ≡ b
bit_xor-inj_left k a b e = bit_xor-inj_right a b k (bit_xor_comm a k ∙ e ∙ bit_xor_comm k b)

pub bit_xor-lt : (w a b : ℕ) → a < 2 ^ w → b < 2 ^ w → bit_xor a b < 2 ^ w
bit_xor-lt zero zero zero p q = omega arith
bit_xor-lt zero zero (suc b) p q = absurd (omega arith)
bit_xor-lt zero (suc a) b p q = absurd (omega arith)
bit_xor-lt (suc w) a b p q = omega (
  arith,
  pow-suc 2 w,
  half-bit_xor a b,
  low-bit_xor a b,
  bit_xor-lt w (a / 2) (b / 2) (omega (arith, pow-suc 2 w)) (omega (arith, pow-suc 2 w)),
)

-- A top bit that only the second number has is in the result.
pub le-bit_xor : (w a b : ℕ) → a < 2 ^ w → 2 ^ w ≤ b → b < 2 ^ suc w → 2 ^ w ≤ bit_xor a b
le-bit_xor zero a b p q r = ground (arith, bit_xor_step a b, bit_xor-zero b)
le-bit_xor (suc w) a b p q r = omega (
  arith,
  pow-suc 2 w,
  pow-suc 2 (suc w),
  half-bit_xor a b,
  le-bit_xor w (a / 2) (b / 2) (omega (arith, pow-suc 2 w)) (omega (arith, pow-suc 2 w))
      (omega (arith, pow-suc 2 w, pow-suc 2 (suc w))),
)

-- Fields that share no digit: their exclusive or is their sum.
pub bit_xor_fields : (k q r : ℕ) → r < 2 ^ k → bit_xor r (q * 2 ^ k) ≡ r + q * 2 ^ k
bit_xor_fields zero q zero h = omega (arith, zero-bit_xor (q * 2 ^ 0))
bit_xor_fields zero q (suc r) h = absurd (omega arith)
bit_xor_fields (suc k) q r h =
    eq_of_digits _ _
      (omega (
        arith,
        twice,
        half-bit_xor r (q * 2 ^ suc k),
        halves,
        bit_xor_fields k q (r / 2) (omega (arith, pow-suc 2 k)),
      ))
      (omega (arith, twice, low-bit_xor r (q * 2 ^ suc k)))
  where
    twice : q * 2 ^ suc k ≡ 2 * (q * 2 ^ k)
    twice = omega (arith, ap (λ (t : ℕ). q * t) (pow-suc 2 k))

    halves : bit_xor (r / 2) (q * 2 ^ suc k / 2) ≡ bit_xor (r / 2) (q * 2 ^ k)
    halves = ap (bit_xor (r / 2)) (omega (arith, twice))

bit_or_comm_fuel : (n a b : ℕ) → a ≤ n → b ≤ n → bit_or a b ≡ bit_or b a
bit_or_comm_fuel zero zero zero p q = refl
bit_or_comm_fuel zero zero (suc b) p q = absurd (omega arith)
bit_or_comm_fuel zero (suc a) b p q = absurd (omega arith)
bit_or_comm_fuel (suc n) a b p q = omega (
  arith,
  (or_halves a b).0,
  (or_halves a b).1,
  (or_halves b a).0,
  (or_halves b a).1,
  bit_or_comm_fuel n (a / 2) (b / 2) (omega arith) (omega arith),
)

pub bit_or_comm : (a b : ℕ) → bit_or a b ≡ bit_or b a
bit_or_comm a b = bit_or_comm_fuel (a + b) a b (omega arith) (omega arith)

-- A low field that the second number does not have stays apart.
pub bit_or_above :
    (k p q r : ℕ) → r < 2 ^ k → bit_or (r + p * 2 ^ k) (q * 2 ^ k) ≡ r + bit_or p q * 2 ^ k
bit_or_above zero p q zero h = omega (arith, ap₂ bit_or left right)
  where
    left : 0 + p * 2 ^ 0 ≡ p
    left = omega arith

    right : q * 2 ^ 0 ≡ q
    right = omega arith
bit_or_above zero p q (suc r) h = absurd (omega arith)
bit_or_above (suc k) p q r h = omega (
  arith,
  twice p,
  twice q,
  twice (bit_or p q),
  (or_halves (r + p * 2 ^ suc k) (q * 2 ^ suc k)).0,
  (or_halves (r + p * 2 ^ suc k) (q * 2 ^ suc k)).1,
  ap₂ bit_or half_p half_q,
  bit_or_above k p q (r / 2) (omega (arith, pow-suc 2 k)),
)
  where
    twice : (x : ℕ) → x * 2 ^ suc k ≡ 2 * (x * 2 ^ k)
    twice x = omega (arith, ap (λ (t : ℕ). x * t) (pow-suc 2 k))

    half_p : (r + p * 2 ^ suc k) / 2 ≡ r / 2 + p * 2 ^ k
    half_p = omega (arith, twice p)

    half_q : q * 2 ^ suc k / 2 ≡ q * 2 ^ k
    half_q = omega (arith, twice q)
