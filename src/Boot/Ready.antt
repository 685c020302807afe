-- ===== src/Boot/Ready.antt =====
-- Loading an image from a partition, in src/utility.rs: it leaves the machine ready for the next
-- candidate, and where it succeeds the image is intact.
use esp32c3_bootloader_rust.Common.{
  ◌≡◌, refl, ap, true, false, Bool-cases, Option-cases, inl, inr, not, some, length, get_or, ◌==◌,
  ltb, u32_at, add32,
}
use esp32c3_bootloader_rust.Platform.{Platform, efuse_get_secure_version}
use esp32c3_bootloader_rust.Flash.{Machine, bootloader_mmap, bootloader_munmap, debug_tx_str}
use esp32c3_bootloader_rust.Flash.Mapping.{mmap-Frame}
use esp32c3_bootloader_rust.Sha256.Pool.{Pool, start_from, bootloader_sha256_start}
use esp32c3_bootloader_rust.Image.{EspImageMetadata}
use esp32c3_bootloader_rust.Image.Segments.{PartitionPos}
use esp32c3_bootloader_rust.Image.Process.{bootloader_load_image}
use esp32c3_bootloader_rust.Image.Process.Layout.{IsIntact}
use esp32c3_bootloader_rust.Image.Process.Intact.{process_image-IsIntact}
use esp32c3_bootloader_rust.Image.Process.Steady.{IsSteady, mmap-IsSteady, same-IsSteady}
use esp32c3_bootloader_rust.Image.Process.Frame.{process_image-IsSteady}
use esp32c3_bootloader_rust.Image.Process.Release.{process_image-used}
use esp32c3_bootloader_rust.Boot.{check_anti_rollback, try_load_partition}
use Prim.Native.String.{String}

-- A machine that is ready to load an image: a SHA-256 context is free.
pub record IsReady {Chip : Type 0} (env : Platform Chip) (c : Chip) (m : Machine Chip)
    : Type 0 where
  pub steady : IsSteady env c m
  pub used_size : length m.pool.used ≡ 2
  pub free : get_or m.pool.used 0 true ≡ false

first_free :
    (p : Pool)
    → get_or p.used 0 true ≡ false
    → bootloader_sha256_start p ≡ (some 0, (bootloader_sha256_start p).1)
unfolding bootloader_sha256_start start_from
first_free p e = rw e refl

module _ {Chip : Type 0} (env : Platform Chip) (c : Chip) where
  abbrev pub Ready : Machine Chip → Type 0
  Ready m = IsReady env c m

  -- A step that keeps the flags of the contexts.
  keeps :
      (m m' : Machine Chip) → m'.pool.used ≡ m.pool.used → IsSteady env c m' → Ready m → Ready m'
  keeps m m' e s r = record { steady = s; used_size = rw e r.used_size; free = rw e r.free }

  pub said : (tag : String) (m : Machine Chip) → Ready m → Ready (debug_tx_str tag m)
  said tag m r = keeps m _ refl (same-IsSteady env c m _ refl refl refl refl refl r.steady) r

  unmapped : (m : Machine Chip) → Ready m → Ready (bootloader_munmap m)
  unfolding bootloader_munmap
  unmapped m r = keeps m _ refl (same-IsSteady env c m _ refl refl refl refl refl r.steady) r

  check_anti_rollback-Ready :
      (part : PartitionPos) (m : Machine Chip) → Ready m → Ready (check_anti_rollback env part m).1
  unfolding check_anti_rollback
  check_anti_rollback-Ready part m r =
      elim (Option-cases (bootloader_mmap env m (add32 part.offset 32) 8).0) [
        | inl e ↦ rw (e, check_anti_rollback) mapped
        | inr (bytes, e) ↦ elim (Bool-cases (not (u32_at bytes 0 == 0xABCD_5432))) [
          | inl other ↦ rw (e, check_anti_rollback) (rw (other) (unmapped _ mapped))
          | inr described ↦
              elim (Bool-cases (ltb (u32_at bytes 4) (efuse_get_secure_version env))) [
                | inl old ↦
                    rw (e, check_anti_rollback)
                      (rw (described, old) (said "[R]" _ (unmapped _ mapped)))
                | inr new ↦ rw (e, check_anti_rollback) (rw (described, new) (unmapped _ mapped))
              ]
        ]
      ]
    where
      mapped : Ready (bootloader_mmap env m (add32 part.offset 32) 8).1
      mapped =
          keeps m _
            (ap (λ (p : Pool). p.used) (mmap-Frame env m (add32 part.offset 32) 8).same_pool)
            (mmap-IsSteady env c m (add32 part.offset 32) 8 r.steady) r

  -- A load, whatever comes of it, leaves the machine ready; one that succeeds has found an image
  -- intact.
  load_image-Ready :
      (part : PartitionPos) (meta : EspImageMetadata) (m : Machine Chip)
      → Ready m
      → Ready (bootloader_load_image env part meta m).2
  unfolding bootloader_load_image
  load_image-Ready part meta m r =
      keeps m _ (process_image-used env part meta _ m)
        (process_image-IsSteady env c part meta _ m r.steady) r

  load_image-IsIntact :
      (part : PartitionPos) (meta : EspImageMetadata) (m : Machine Chip)
      → Ready m
      → (bootloader_load_image env part meta m).0 ≡ true
      → IsIntact env c part.offset (bootloader_load_image env part meta m).1
  unfolding bootloader_load_image
  load_image-IsIntact part meta m r ok = rw (← r.steady.same_chip) (
      process_image-IsIntact env part meta (record { verify = true; load = true }) m 0
        (bootloader_sha256_start m.pool).1 refl r.steady.knows
        (record { used_size = r.used_size; contexts_size = r.steady.contexts_size })
        (first_free m.pool r.free) ok)

  -- The machine at the load of `try_load_partition`.
  loading :
      (part : PartitionPos) (m : Machine Chip)
      → Ready m
      → Ready (debug_tx_str "[L]" (check_anti_rollback env part m).1)
  loading part m r = said "[L]" _ (check_anti_rollback-Ready part m r)

  pub try_load_partition-Ready :
      (part : PartitionPos) (meta : EspImageMetadata) (m : Machine Chip)
      → Ready m
      → Ready (try_load_partition env part meta m).2
  unfolding try_load_partition
  try_load_partition-Ready part meta m r = elim (Bool-cases (part.size == 0)) [
    | inl empty ↦ rw (empty) (said "[z]" m r)
    | inr sized ↦ elim (Bool-cases (not (check_anti_rollback env part m).0)) [
      | inl old ↦ rw (sized, old) (said "[a]" _ (check_anti_rollback-Ready part m r))
      | inr fresh ↦ rw (sized, fresh) (said _ _ (load_image-Ready part meta _ (loading part m r)))
    ]
  ]

  pub try_load_partition-IsIntact :
      (part : PartitionPos) (meta : EspImageMetadata) (m : Machine Chip)
      → Ready m
      → (try_load_partition env part meta m).0 ≡ true
      → IsIntact env c part.offset (try_load_partition env part meta m).1
  unfolding try_load_partition
  try_load_partition-IsIntact part meta m r ok = elim (Bool-cases (part.size == 0)) [
    | inl empty ↦ absurd (cc (rw empty at ok))
    | inr sized ↦ elim (Bool-cases (not (check_anti_rollback env part m).0)) [
      | inl old ↦ absurd (cc (rw (sized, old) at ok))
      | inr fresh ↦
          rw (sized, fresh)
            (load_image-IsIntact part meta _ (loading part m r) (rw (sized, fresh) at ok))
    ]
  ]
