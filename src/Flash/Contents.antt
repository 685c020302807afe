-- ===== src/Flash/Contents.antt =====
-- What a mapping holds, if the ROM delivers what it is asked for.
use esp32c3_bootloader_rust.Common.{
  ℕ, zero, suc, ◌+◌, ◌*◌, ◌/◌, ◌<◌, ◌≡◌, arith, List, [], ◌∷◌, some, length, take, All, IsByte,
  length-take, byte_at, u32_at, drop, ◌^◌, sub32, ◌⊎◌, inl, inr, subst,
}
use esp32c3_bootloader_rust.Platform.{Platform}
use esp32c3_bootloader_rust.Flash.{
  Machine, bootloader_mmap, flash_read_via_cache, flash_read_raw, flash_encryption_enabled,
}
use esp32c3_bootloader_rust.Flash.Window.{length-window_from, window_from-IsByte}

-- `esp_rom_spiflash_read` fills the destination with as many bytes as it was asked for.
pub record Delivers {Chip : Type 0} (env : Platform Chip) : Type 0 where
  pub size :
      (c : Chip) (addr n : ℕ) (bytes : List ℕ)
      → env.spiflash_read c addr n ≡ some bytes
      → length bytes ≡ n
  pub bytes :
      (c : Chip) (addr n : ℕ) (bytes : List ℕ)
      → env.spiflash_read c addr n ≡ some bytes
      → All IsByte bytes

pub All-take : (n : ℕ) (xs : List ℕ) → All IsByte xs → All IsByte (take n xs)
All-take zero xs h = tt
All-take (suc n) [] h = tt
All-take (suc n) (x ∷ xs) h = (h.0, All-take n xs h.1)

pub All-drop : (n : ℕ) (xs : List ℕ) → All IsByte xs → All IsByte (drop n xs)
All-drop zero xs h = h
All-drop (suc n) [] h = tt
All-drop (suc n) (x ∷ xs) h = All-drop n xs h.1

-- A byte of the list, or the 0 behind its end.
pub byte_at-lt : (xs : List ℕ) (i : ℕ) → All IsByte xs → byte_at xs i < 256
byte_at-lt [] i h = omega arith
byte_at-lt (x ∷ xs) zero h = h.0
byte_at-lt (x ∷ xs) (suc i) h = byte_at-lt xs i h.1

pub u32_at-lt : (xs : List ℕ) (i : ℕ) → All IsByte xs → u32_at xs i < 2 ^ 32
u32_at-lt xs i h = omega (
  arith,
  byte_at-lt xs i h,
  byte_at-lt xs (i + 1) h,
  byte_at-lt xs (i + 2) h,
  byte_at-lt xs (i + 3) h,
)

module _ {Chip : Type 0} (env : Platform Chip) where
  -- The bytes come through the cache window or from the ROM.
  mmap-source :
      (m : Machine Chip) (addr size : ℕ) (bytes : List ℕ)
      → (bootloader_mmap env m addr size).0 ≡ some bytes
      → (take size
            (flash_read_via_cache env
              (flash_encryption_enabled env m).1
              addr
              ((size + 3) / 4 * 4)).0
          ≡ bytes)
        ⊎ (env.spiflash_read (flash_encryption_enabled env m).1.chip (sub32 addr 1) size
            ≡ some bytes)
  unfolding bootloader_mmap flash_encryption_enabled flash_read_raw
  mmap-source m addr size bytes e = ground arith

  pub window-contents :
      (m : Machine Chip) (addr size : ℕ)
      → (length (take size (flash_read_via_cache env m addr ((size + 3) / 4 * 4)).0) ≡ size)
        × All IsByte (take size (flash_read_via_cache env m addr ((size + 3) / 4 * 4)).0)
  unfolding flash_read_via_cache
  window-contents m addr size =
      let n = (size + 3) / 4 * 4 / 4 in
      (
        omega (
          arith,
          length-window_from env n 0 m.chip addr m.current_read_mapping m.cache_calls,
          length-take {0} size (flash_read_via_cache env m addr ((size + 3) / 4 * 4)).0,
        ),
        All-take size _
            (window_from-IsByte env n 0 m.chip addr m.current_read_mapping m.cache_calls),
      )

  -- If the ROM's flash read delivers as many bytes as it is asked for, then a mapping that
  -- `bootloader_mmap` makes for `size` bytes holds exactly `size` numbers, each of them a byte,
  -- whether it was filled through the cache window (with encryption) or by the ROM.
  pub mmap-contents :
      (m : Machine Chip) (addr size : ℕ) (bytes : List ℕ)
      → Delivers env
      → (bootloader_mmap env m addr size).0 ≡ some bytes
      → (length bytes ≡ size) × All IsByte bytes
  mmap-contents m addr size bytes d e = elim (mmap-source m addr size bytes e) [
    | inl cached ↦
        subst (λ bs. (length bs ≡ size) × All IsByte bs) cached
          (window-contents (flash_encryption_enabled env m).1 addr size)
    | inr raw ↦ (d.size _ _ _ _ raw, d.bytes _ _ _ _ raw)
  ]
