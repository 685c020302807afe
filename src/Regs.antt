-- ===== src/Regs.antt =====
-- The register helpers that src/flash.rs and src/init.rs both declare, and their polling loops.
use esp32c3_bootloader_rust.Common.{
  ℕ, zero, suc, ◌*◌, ◌%◌, ◌^◌, ◌≤◌, ◌≡◌, Bool, false, if◌then◌else◌, bit_and, bit_or, not32, arith,
  not, ◌==◌,
}
use esp32c3_bootloader_rust.Platform.{Platform}

module _ {Chip : Type 0} (env : Platform Chip) where
  unfoldable pub reg_set_bit : ℕ → ℕ → Chip → Chip
  reg_set_bit addr mask c = env.reg_write c addr (bit_or (env.reg_read c addr) mask)

  unfoldable pub reg_clr_bit : ℕ → ℕ → Chip → Chip
  reg_clr_bit addr mask c = env.reg_write c addr (bit_and (env.reg_read c addr) (not32 mask))

  unfoldable pub reg_set_bits : ℕ → ℕ → ℕ → ℕ → Chip → Chip
  reg_set_bits addr val mask shift c =
      let r = bit_and (env.reg_read c addr) (not32 (mask * 2 ^ shift % 2 ^ 32)) in
      env.reg_write c addr (bit_or r (bit_and val mask * 2 ^ shift % 2 ^ 32))

  -- `read(addr) & mask != 0`
  unfoldable pub reg_has : ℕ → ℕ → Chip → Bool
  reg_has addr mask c = not (bit_and (env.reg_read c addr) mask == 0)

  -- `while busy {}`, followed for `n` rounds. On `hang` the loop has not ended.
  unfoldable pub spin : ℕ → (Chip → Bool) → Chip → Chip
  spin zero busy c = if busy c then env.hang c else c
  spin (suc n) busy c = let rest = spin n busy (env.tick c) in if busy c then rest else c

  -- The chip after some rounds.
  unfoldable pub ticks : ℕ → Chip → Chip
  ticks zero c = c
  ticks (suc n) c = ticks n (env.tick c)

  -- A loop whose condition fails after at most `n` rounds ends with the condition false.
  pub spin-ends :
      (n k : ℕ) (busy : Chip → Bool) (c : Chip)
      → k ≤ n
      → busy (ticks k c) ≡ false
      → busy (spin n busy c) ≡ false
  unfolding spin ticks
  spin-ends zero zero busy c h e = ground arith
  spin-ends zero (suc k) busy c h e = absurd (omega arith)
  spin-ends (suc n) zero busy c h e = ground arith
  spin-ends (suc n) (suc k) busy c h e = ground (arith, spin-ends n k busy (env.tick c))
