-- ===== src/Image/Process/Opened.antt =====
-- What `process_image` of src/image.rs does before its segment loop: the header and the start of
-- the hash.
use esp32c3_bootloader_rust.Common.{
  ℕ, ◌≡◌, inl, inr, refl, sym, ap, ◌∙◌, List, [], Bool, true, false, ◌&&◌, not, Bool-cases, some,
  ◌==◌, add32,
}
use esp32c3_bootloader_rust.Common.Exit.{Ends, Ends-and_then, Left}
use esp32c3_bootloader_rust.Platform.{Platform}
use esp32c3_bootloader_rust.Flash.{Machine, bootloader_munmap}
use esp32c3_bootloader_rust.Flash.Mapping.{mmap-Frame}
use esp32c3_bootloader_rust.Flash.Stored.{stored, Knows, mmap-Knows, mmap-stored}
use esp32c3_bootloader_rust.Sha256.Pool.{Pool, bootloader_sha256_start}
use esp32c3_bootloader_rust.Sha256.Pool.Session.{IsPool, start-Hashing, data-Hashing}
use esp32c3_bootloader_rust.Image.{EspImageMetadata, parse_header, verify_image_header}
use esp32c3_bootloader_rust.Image.Segments.{
  Work, ProcessFlags, PartitionPos, map_or_exit, hash_bytes, unmap, on_machine, on_pool,
}
use esp32c3_bootloader_rust.Image.Process.{read_header, start_hash, start_work}
use esp32c3_bootloader_rust.Image.Process.Kept.{map_or_exit-Ends}
use esp32c3_bootloader_rust.Image.Process.Reading.{At}

-- Whether the image has a hash that is to be checked.
abbrev pub needs : ProcessFlags → List ℕ → Bool
needs flags header = flags.verify && not ((parse_header header).hash_appended == 0)

module _ {Chip : Type 0} (env : Platform Chip) (chip : Chip) (before q : Pool) (h : ℕ)
    (pool : IsPool before) (started : bootloader_sha256_start before ≡ (some h, q)) where
  -- The state behind the header, before the hash is started.
  pub record Opened (header : List ℕ) (w : Work Chip) : Type 0 where
    pub same_chip : w.machine.chip ≡ chip
    pub knows : Knows env w.machine
    pub summed : w.checksum ≡ 0xEF
    pub unhashed : w.sha_needed ≡ false
    pub same_pool : w.machine.pool ≡ before
    pub parsed : w.metadata.image ≡ parse_header header

  pub read_header-Opened :
      (part : PartitionPos) (metadata : EspImageMetadata) (m : Machine Chip)
      → m.chip ≡ chip
      → m.pool ≡ before
      → Knows env m
      → Ends
          (λ header w.
            (stored env chip part.offset 24 ≡ some header)
            × (verify_image_header env (parse_header header) ≡ true)
            × Opened header w)
          Left
          (read_header env part (start_work env m metadata))
  unfolding read_header unmap on_machine bootloader_munmap
  read_header-Opened part metadata m ec ep k =
      Ends-and_then _ _ Left (map_or_exit env "[h]" part.offset 24 (start_work env m metadata)) _
        (map_or_exit-Ends env
          (λ bytes w.
            (stored env chip part.offset 24 ≡ some bytes)
            × Opened bytes
                (record w { metadata = record w.metadata { image = parse_header bytes } }))
          Left "[h]" part.offset 24 (start_work env m metadata) (λ e. tt)
          (λ bytes e.
            let frame = mmap-Frame env m part.offset 24 in
            (
              rw (← ec) (mmap-stored env m part.offset 24 bytes k e),
              record {
                same_chip = frame.same_chip ∙ ec;
                knows = mmap-Knows env m part.offset 24 k;
                summed = refl;
                unhashed = refl;
                same_pool = frame.same_pool ∙ ep;
                parsed = refl;
              },
            )))
        λ header w1 (e, o). elim (Bool-cases (verify_image_header env (parse_header header))) [
          | inl t ↦
              rw (t, Ends)
                (
                  e,
                  t,
                  record {
                    same_chip = o.same_chip;
                    knows = o.knows;
                    summed = o.summed;
                    unhashed = o.unhashed;
                    same_pool = o.same_pool;
                    parsed = refl;
                  },
                )
          | inr f ↦ rw (f, Ends) tt
        ]

  pub start_hash-At :
      (flags : ProcessFlags) (part : PartitionPos) (header : List ℕ) (w : Work Chip)
      → Opened header w
      → At env chip
          (needs flags header)
          before
          h
          (parse_header header)
          header
          0xEF
          (add32 part.offset 24)
          (start_hash env flags part header w)
  unfolding start_hash hash_bytes on_pool
  start_hash-At flags part header w o =
      either (needs flags header)
        (ap (λ image. flags.verify && not (image.hash_appended == 0)) (sym o.parsed))
    where
      either :
          (needed : Bool)
          → needed ≡ (flags.verify && not (w.metadata.image.hash_appended == 0))
          → At env chip needed before h
              (parse_header header)
              header
              0xEF
              (add32 part.offset 24)
              (start_hash env flags part header w)
      either true e = rw (← e) (record {
        same_chip = o.same_chip;
        knows = o.knows;
        summed = o.summed;
        reached = refl;
        wanted = refl;
        parsed = o.parsed;
        fed =
            rw (o.same_pool, started)
              (inr
                (refl, data-Hashing before q h [] header (start-Hashing before h q pool started)));
      })
      either false e = rw (← e) (record {
        same_chip = o.same_chip;
        knows = o.knows;
        summed = o.summed;
        reached = refl;
        wanted = o.unhashed;
        parsed = o.parsed;
        fed = inl refl;
      })
