-- ===== src/Boot/Order.antt =====
-- The order of the candidates in `bootloader_utility_load_boot_image`, and the anti-rollback check
-- that each of them passes.
use esp32c3_bootloader_rust.Common.{
  ℕ, zero, suc, ◌+◌, ◌-◌, ◌<◌, ◌≡◌, ◌↔◌, refl, sym, ap, ap₂, arith, List, [], ◌∷◌, true, false,
  Option, Option-cases, none, some, inl, inr, u32_at, add32, fun_ext,
}
use esp32c3_bootloader_rust.Platform.{Platform, efuse_get_secure_version}
use esp32c3_bootloader_rust.Flash.{Machine, bootloader_mmap}
use esp32c3_bootloader_rust.Image.{EspImageMetadata}
use esp32c3_bootloader_rust.Image.Segments.{PartitionPos}
use esp32c3_bootloader_rust.Partition.{BootloaderState}
use esp32c3_bootloader_rust.Ota.{PartIndex, test_app_index, factory_index, slot_index}
use esp32c3_bootloader_rust.Boot.{
  Attempt, attempt, or_else, backward_sweep, forward_sweep, test_attempt, search_from,
  check_anti_rollback, launched, failed,
}
use Prim.Native.String.{String}

-- The slots below `n`, from the highest down, and then the factory partition.
pub downwards : ℕ → List PartIndex
downwards zero = factory_index ∷ []
downwards (suc n) = slot_index n ∷ downwards n

-- `n` slots from slot `i` on.
pub upwards : ℕ → ℕ → List PartIndex
upwards zero i = []
upwards (suc n) i = slot_index i ∷ upwards n (i + 1)

module _ {Chip : Type 0} (env : Platform Chip) where
  -- The candidates one after the other, until one is launched.
  pub try_all :
      String → List PartIndex → BootloaderState → EspImageMetadata → Machine Chip → Attempt env
  try_all tag [] bs meta m = failed meta m
  try_all tag (index ∷ rest) bs meta m =
      or_else env (attempt env tag bs index meta m) (try_all tag rest bs)

  or_else-failed : (x : Attempt env) → or_else env x failed ≡ x
  or_else-failed (launched e) = refl
  or_else-failed (failed meta m) = refl

  backward_sweep-try_all :
      (n : ℕ) (bs : BootloaderState) (meta : EspImageMetadata) (m : Machine Chip)
      → backward_sweep env n bs meta m ≡ try_all "[J]" (downwards n) bs meta m
  unfolding backward_sweep try_all downwards
  backward_sweep-try_all zero bs meta m =
      sym (or_else-failed (attempt env "[J]" bs factory_index meta m))
  backward_sweep-try_all (suc n) bs meta m =
      ap (or_else env (attempt env "[J]" bs (slot_index n) meta m))
        (fun_ext λ meta'. fun_ext λ m'. backward_sweep-try_all n bs meta' m')

  forward_sweep-try_all :
      (n i : ℕ) (bs : BootloaderState) (meta : EspImageMetadata) (m : Machine Chip)
      → forward_sweep env n i bs meta m ≡ try_all "[K]" (upwards n i) bs meta m
  unfolding forward_sweep try_all upwards
  forward_sweep-try_all zero i bs meta m = refl
  forward_sweep-try_all (suc n) i bs meta m =
      ap (or_else env (attempt env "[K]" bs (slot_index i) meta m))
        (fun_ext λ meta'. fun_ext λ m'. forward_sweep-try_all n (i + 1) bs meta' m')

  -- A descriptor with the right magic word and a secure version below the one in the eFuses.
  abbrev pub IsStale : Option (List ℕ) → Type 0
  IsStale none = ⊥
  IsStale (some bytes) =
      (u32_at bytes 0 ≡ 0xABCD_5432) × (u32_at bytes 4 < efuse_get_secure_version env)

  -- The anti-rollback check refuses a partition exactly when its application descriptor is mapped,
  -- the descriptor's magic word is right, and its secure version lies below the one in the eFuses.
  pub check_anti_rollback-refuses :
      (part : PartitionPos) (m : Machine Chip)
      → ((check_anti_rollback env part m).0 ≡ false)
        ↔ IsStale (bootloader_mmap env m (add32 part.offset 32) 8).0
  unfolding check_anti_rollback
  check_anti_rollback-refuses part m =
      elim (Option-cases (bootloader_mmap env m (add32 part.offset 32) 8).0) [
        | inl e ↦ rw (e, IsStale, check_anti_rollback) ((λ (r : true ≡ false). cc r), λ r. absurd r)
        | inr (bytes, e) ↦ rw (e, IsStale, check_anti_rollback) (ground arith, ground arith)
      ]

  -- The factory partition, and then every slot.
  pub from_factory : BootloaderState → EspImageMetadata → Machine Chip → Attempt env
  from_factory bs meta m =
      or_else env (try_all "[J]" (downwards 0) bs meta m)
        (try_all "[K]" (upwards bs.app_count 0) bs)

  -- The search visits the candidates in this order: from slot `k`, the slots downwards, the
  -- factory partition, and then the slots above `k`; from the test application, the test
  -- application first; otherwise the factory partition and then every slot.
  pub search_from-try_all :
      (k : ℕ) (bs : BootloaderState) (meta : EspImageMetadata) (m : Machine Chip)
      → (search_from env (slot_index k) bs meta m
          ≡ or_else env
              (try_all "[J]" (downwards (suc k)) bs meta m)
              (try_all "[K]" (upwards (bs.app_count - (k + 1)) (k + 1)) bs))
        × (search_from env test_app_index bs meta m
            ≡ or_else env (test_attempt env bs meta m) (from_factory bs))
        × (search_from env factory_index bs meta m ≡ from_factory bs meta m)
  unfolding search_from from_factory
  search_from-try_all k bs meta m = (
    sweeps (suc k) (bs.app_count - (k + 1)) (k + 1) meta m,
    ap (or_else env (test_attempt env bs meta m))
        (fun_ext λ meta'. fun_ext λ m'. sweeps 0 bs.app_count 0 meta' m'),
    sweeps 0 bs.app_count 0 meta m,
  )
    where
      sweeps :
          (n l i : ℕ) (meta : EspImageMetadata) (m : Machine Chip)
          → or_else env (backward_sweep env n bs meta m) (forward_sweep env l i bs)
            ≡ or_else env (try_all "[J]" (downwards n) bs meta m) (try_all "[K]" (upwards l i) bs)
      sweeps n l i meta m =
          ap₂ (or_else env) (backward_sweep-try_all n bs meta m)
            (fun_ext λ meta'. fun_ext λ m'. forward_sweep-try_all l i bs meta' m')
