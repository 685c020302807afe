-- ===== src/Spi/FlashId.antt =====
-- The order of the bytes in the flash id.
use esp32c3_bootloader_rust.Common.{ℕ, ◌+◌, ◌*◌, ◌/◌, ◌%◌, ◌^◌, ◌<◌, ◌≡◌, ap, ◌∙◌, arith, bit_or}
use Prim.Native.Nat.{bit_or-bitwise}
use esp32c3_bootloader_rust.Common.Bits.{bit_or_comm, bit_or_above}
use esp32c3_bootloader_rust.Platform.{Platform}
use esp32c3_bootloader_rust.Spi.{bootloader_execute_flash_command, bootloader_read_flash_id}

zero_or : (x : ℕ) → bit_or 0 x ≡ x
zero_or x = bit_or-bitwise 0 x

-- Three bytes that are put together, the middle one last.
three_bytes :
    (a b c : ℕ)
    → b < 256
    → c < 256
    → bit_or (bit_or (a * 2 ^ 16) b) (c * 256) ≡ b + c * 256 + a * 2 ^ 16
three_bytes a b c hb hc =
    ap (λ t. bit_or t (c * 256)) low
    ∙ bit_or_above 8 (a * 256) c b hb
    ∙ omega (
      arith,
      bit_or_comm (a * 256) c,
      bit_or_above 8 0 a c hc,
      zero_or a,
      ap (λ t. bit_or t (a * 256)) zero_above,
    )
  where
    low : bit_or (a * 2 ^ 16) b ≡ b + a * 256 * 2 ^ 8
    low =
        bit_or_comm (a * 2 ^ 16) b
        ∙ ap (λ t. bit_or t (a * 2 ^ 16)) (omega arith)
        ∙ ap (bit_or (b + 0 * 2 ^ 8)) (omega arith)
        ∙ bit_or_above 8 0 (a * 256) b hb
        ∙ omega (arith, zero_or (a * 256))

    zero_above : c + 0 * 2 ^ 8 ≡ c
    zero_above = omega arith

-- The identification that is returned holds the three bytes of the controller's answer in reverse
-- order: the answer's lowest byte stands highest, and its third byte lowest.
pub read_flash_id_bytes :
    {Chip : Type 0} (env : Platform Chip) (c : Chip)
    → let raw = (bootloader_execute_flash_command env 0x9F 0 0 24 c).0 in
      let id = (bootloader_read_flash_id env c).0 in
      (id / 2 ^ 16 ≡ raw % 256)
      × (id / 256 % 256 ≡ raw / 256 % 256)
      × (id % 256 ≡ raw / 2 ^ 16 % 256)
unfolding bootloader_read_flash_id
read_flash_id_bytes {Chip} env c = omega (
  arith,
  three_bytes (raw % 256) (raw / 2 ^ 16 % 256) (raw / 256 % 256) (omega arith) (omega arith),
)
  where
    raw : ℕ
    raw = (bootloader_execute_flash_command env 0x9F 0 0 24 c).0
