-- ===== src/Image/Process/Intact.antt =====
-- An image that `process_image` of src/image.rs verifies is intact in the flash.
use esp32c3_bootloader_rust.Common.{
  ℕ, ◌≡◌, inl, inr, refl, sym, ap, ◌∙◌, arith, List, [], ◌∷◌, ◌++◌, append_assoc, Bool, true, false,
  ◌&&◌, not, some, if◌then◌else◌, ◌==◌, add32, byte_at,
}
use esp32c3_bootloader_rust.Common.Exit.{
  Outcome, done, exit, give, and_then, Ends, Ends-and_then, Ends-mono, Left,
}
use esp32c3_bootloader_rust.Platform.{Platform}
use esp32c3_bootloader_rust.Flash.{Machine}
use esp32c3_bootloader_rust.Flash.Stored.{stored, Knows}
use esp32c3_bootloader_rust.Sha256.Pool.{Pool, bootloader_sha256_start}
use esp32c3_bootloader_rust.Sha256.Pool.Session.{IsPool}
use esp32c3_bootloader_rust.Image.{EspImageMetadata, parse_header, verify_image_header}
use esp32c3_bootloader_rust.Image.Segments.{
  Work, ProcessFlags, PartitionPos, xor_bytes, process_segments, hash_bytes, on_pool,
}
use esp32c3_bootloader_rust.Image.Process.{
  read_header, start_hash, check_checksum, checksum_addr_of, check_hash, process_body,
  process_image, start_work,
}
use esp32c3_bootloader_rust.Image.Process.Layout.{Body, segments_at, IsIntact}
use esp32c3_bootloader_rust.Image.Process.Feed.{process_segments-At}
use esp32c3_bootloader_rust.Image.Process.Reading.{At, reached-At, moved-At}
use esp32c3_bootloader_rust.Image.Process.Opened.{needs, read_header-Opened, start_hash-At}
use esp32c3_bootloader_rust.Image.Process.Checks.{check_checksum-At, check_hash-At}

-- A hash that is not asked for although the image is verified is not there.
unneeded : (n : ℕ) (verify : Bool) → verify ≡ true → (verify && not (n == 0)) ≡ false → n ≡ 0
unneeded n verify v f = ground arith

module _ {Chip : Type 0} (env : Platform Chip) (chip : Chip) (before q : Pool) (h : ℕ)
    (pool : IsPool before) (started : bootloader_sha256_start before ≡ (some h, q))
    (part : PartitionPos) (flags : ProcessFlags) (verified : flags.verify ≡ true) where
  start_hash-image :
      (header : List ℕ) (w : Work Chip)
      → (start_hash env flags part header w).metadata.image ≡ w.metadata.image
  unfolding start_hash hash_bytes on_pool
  start_hash-image header w = ground arith

  -- What is known behind the segment loop.
  record Looped (header : List ℕ) (body : Body) (v : Work Chip) : Type 0 where
    header_at : stored env chip part.offset 24 ≡ some header
    accepted : verify_image_header env (parse_header header) ≡ true
    body_at :
        segments_at env chip (parse_header header).segment_count (add32 part.offset 24) ≡ some body
    at :
        At env chip
          (needs flags header)
          before
          h
          (parse_header header)
          (header ++ body.bytes)
          (xor_bytes 0xEF body.payload)
          body.next
          v

  abbrev Intact : Work Chip → Type 0
  Intact w = IsIntact env chip part.offset w.metadata

  -- The end of the body, once the checksum byte is found right.
  hash_step :
      (header : List ℕ) (body : Body) (v : Work Chip)
      → Looped header body v
      → (check : List ℕ) → stored env chip (checksum_addr_of env body.next) 1 ≡ some check
      → byte_at check 0 ≡ xor_bytes 0xEF body.payload
      → (w : Work Chip)
      → At env chip
          (needs flags header)
          before
          h
          (parse_header header)
          ((header ++ body.bytes) ++ byte_at check 0 ∷ [])
          (xor_bytes 0xEF body.payload)
          (add32 (checksum_addr_of env body.next) 1)
          w
      → (b : Bool) → w.sha_needed ≡ b
      → Ends (λ (_ : Unit {0}). Intact) Left ((if b then check_hash env flags else give tt) w)
  hash_step header body v l check e sums w a true t =
      Ends-mono _ _ Left Left (check_hash env flags w)
        (check_hash-At env chip (needs flags header) before h (parse_header header) _ _ w
          (reached-At env chip (needs flags header) before h (parse_header header) w a) flags
          (sym a.wanted ∙ t))
        (λ _ x (found, digest, image). record {
          header = header;
          body = body;
          check = check;
          header_at = l.header_at;
          accepted = l.accepted;
          parsed = image;
          body_at = l.body_at;
          check_at = e;
          checksum = sums;
          hash = inr (
            rw (← a.reached, ← append_assoc header body.bytes) found,
            rw (← append_assoc header body.bytes) digest,
          );
        })
        λ x t. tt
  hash_step header body v l check e sums w a false f = record {
    header = header;
    body = body;
    check = check;
    header_at = l.header_at;
    accepted = l.accepted;
    parsed = a.parsed;
    body_at = l.body_at;
    check_at = e;
    checksum = sums;
    hash =
        inl (unneeded (parse_header header).hash_appended flags.verify verified (sym a.wanted ∙ f));
  }

  checks-Intact :
      (header : List ℕ) (body : Body) (v : Work Chip)
      → Looped header body v
      → Ends
          (λ (_ : Unit {0}). Intact)
          Left
          (and_then
            (check_checksum env flags part v)
            (λ _ w. (if w.sha_needed then check_hash env flags else give tt) w))
  checks-Intact header body v l =
      Ends-and_then _ _ Left (check_checksum env flags part v) _
        (check_checksum-At env chip (needs flags header) before h (parse_header header) _ _ v
          (reached-At env chip (needs flags header) before h (parse_header header) v l.at) flags
          part verified)
        λ _ w (check, e, sums, a).
          hash_step header body v l check (rw (← l.at.reached) e) sums w
            (moved-At env chip (needs flags header) before h (parse_header header) w
              (ap (λ k. add32 (checksum_addr_of env k) 1) l.at.reached) a)
            w.sha_needed refl

  process_body-Intact :
      (metadata : EspImageMetadata) (m : Machine Chip)
      → m.chip ≡ chip
      → m.pool ≡ before
      → Knows env m
      → Ends
          (λ (_ : Unit {0}). Intact)
          Left
          (process_body env part flags (start_work env m metadata))
  unfolding process_body
  process_body-Intact metadata m ec ep k =
      Ends-and_then _ _ Left (read_header env part (start_work env m metadata)) _
        (read_header-Opened env chip before q h pool started part metadata m ec ep k)
        λ header w1 (e0, acc, o).
          let s0 = start_hash env flags part header w1 in
          Ends-and_then _ _ Left (process_segments env s0.metadata.image.segment_count 0 flags s0) _
            (process_segments-At env chip (needs flags header) before h (parse_header header)
              s0.metadata.image.segment_count 0 header 0xEF (add32 part.offset 24) flags s0
              (start_hash-At env chip before q h pool started flags part header w1 o))
            λ _ w2 (body, e1, a). checks-Intact header body w2 (record {
              header_at = e0;
              accepted = acc;
              body_at = rw (← o.parsed, ← start_hash-image header w1) e1;
              at = a;
            })

  result_of :
      (o : Outcome (Work Chip) (Unit {0}))
      → Ends (λ (_ : Unit {0}). Intact) Left o
      → let r = elim o as (λ _. Bool × EspImageMetadata × Machine Chip) [
        | done _ w ↦ (true, w.metadata, w.machine)
        | exit w ↦ (false, w.metadata, w.machine)
      ] in
        r.0 ≡ true → IsIntact env chip part.offset r.1
  result_of (done _ w) intact e = intact
  result_of (exit w) left e = absurd (cc e)

-- What it means that an image verifies, with or without loading it: if a SHA-256 context is free,
-- and the driver remembers of the eFuse what it says and has no page of the cache window recorded,
-- then an image that is processed with success and with `verify` is intact in the flash. Its header
-- passes the header checks, its checksum byte is the exclusive or of 0xEF and of all the bytes of
-- its segments, and, unless it says that no hash is appended, the 32 bytes behind the checksum byte
-- are the SHA-256 digest of its header, its segments with their headers, and the checksum byte; the
-- same digest is in the metadata.
pub process_image-IsIntact :
    {Chip : Type 0} (env : Platform Chip) (part : PartitionPos) (metadata : EspImageMetadata)
    (flags : ProcessFlags) (m : Machine Chip) (h : ℕ) (q : Pool)
    → flags.verify ≡ true
    → Knows env m
    → IsPool m.pool
    → bootloader_sha256_start m.pool ≡ (some h, q)
    → (process_image env part metadata flags m).0 ≡ true
    → IsIntact env m.chip part.offset (process_image env part metadata flags m).1
unfolding process_image
process_image-IsIntact env part metadata flags m h q v k p started =
    result_of env m.chip m.pool q h p started part flags v
      (process_body env part flags (start_work env m metadata))
      (process_body-Intact env m.chip m.pool q h p started part flags v metadata m refl refl k)
