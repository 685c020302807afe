-- ===== src/Image/Process/Release.antt =====
-- Every path through `process_image` gives the SHA-256 context back that it takes.
use esp32c3_bootloader_rust.Common.{
  ℕ, ◌≡◌, refl, ap, ◌∙◌, arith, List, Bool, true, false, not, Bool-cases, Option-cases, inl, inr,
  none, add32, if◌then◌else◌, ◌==◌, ◌&&◌,
}
use esp32c3_bootloader_rust.Common.Exit.{Outcome, done, exit, Code, give, Ends, Ends-and_then}
use esp32c3_bootloader_rust.Platform.{Platform}
use esp32c3_bootloader_rust.Flash.{Machine, bootloader_mmap, bootloader_munmap}
use esp32c3_bootloader_rust.Flash.Mapping.{mmap-Frame}
use esp32c3_bootloader_rust.Sha256.Pool.{Pool, bootloader_sha256_start}
use esp32c3_bootloader_rust.Image.{EspImageMetadata, parse_header, verify_image_header}
use esp32c3_bootloader_rust.Image.Process.{
  read_header, start_hash, check_checksum, verify_secure_boot_sig, check_signature, finish_hash,
  check_hash, process_body, process_image, start_work,
}
use esp32c3_bootloader_rust.Image.Segments.{
  Work, ProcessFlags, PartitionPos, give_up, map_or_exit, process_segments, hash_bytes, unmap,
  require, on_machine, on_pool, bytes_eq,
}
use esp32c3_bootloader_rust.Image.Process.Kept.{map_or_exit-Ends}
use esp32c3_bootloader_rust.Image.Process.Walk.{process_segments-Goes}
use Prim.Native.String.{String}
use esp32c3_bootloader_rust.Image.Process.Held.{
  HeldBy, start_from-HeldBy, data-used, finish-used, Holds, Free, unneeded-Free, give_up-Free,
  map_or_exit-Holds, hash_bytes-Holds, steps,
}

module _ {Chip : Type 0} (env : Platform Chip) (u0 : List Bool) where
  -- Before the hash is started there is no handle.
  abbrev Fresh : Work Chip → Type 0
  Fresh w = (w.sha_handle ≡ none) × (Free env u0) w

  Fresh-Holds : (w : Work Chip) → Fresh w → (Holds env u0) w
  Fresh-Holds w h = rw (h.0) h.1

  read_header-Fresh :
      (part : PartitionPos) (w : Work Chip)
      → Fresh w
      → Ends (λ (_ : List ℕ). Fresh) (Free env u0) (read_header env part w)
  unfolding read_header unmap on_machine bootloader_munmap
  read_header-Fresh part w h =
      let mapped : (Free env u0)
          (record w { machine = (bootloader_mmap env w.machine part.offset 24).1 }) =
        ap (λ (p : Pool). p.used) (mmap-Frame env w.machine part.offset 24).same_pool ∙ h.1 in
      Ends-and_then (λ _. Fresh) (λ _. Fresh) (Free env u0) (map_or_exit env "[h]" part.offset 24 w)
        _
        (map_or_exit-Ends env (λ _. Fresh) (Free env u0) "[h]" part.offset 24 w
          (λ e.
            let failed = record w { machine = (bootloader_mmap env w.machine part.offset 24).1 } in
            (give_up-Free env u0) "[h]" failed (Fresh-Holds failed (h.0, mapped)))
          (λ bytes e. (h.0, mapped)))
        λ hdr_raw w1 h1. elim (Bool-cases (verify_image_header env (parse_header hdr_raw))) [
          | inl t ↦ rw (t, Ends) h1
          | inr f ↦ rw (f, Ends) h1.1
        ]

  started-Holds :
      (p : Pool)
      → p.used ≡ u0
      → HeldBy u0 true (bootloader_sha256_start p).0 (bootloader_sha256_start p).1.used
  unfolding bootloader_sha256_start
  started-Holds p e = rw (← e) (start_from-HeldBy 2 0 p)

  start_hash-Holds :
      (flags : ProcessFlags) (part : PartitionPos) (hdr_raw : List ℕ) (w : Work Chip)
      → Fresh w
      → (Holds env u0) (start_hash env flags part hdr_raw w)
  unfolding start_hash hash_bytes on_pool
  start_hash-Holds flags part hdr_raw w h =
      let started = bootloader_sha256_start w.machine.pool in
      elim (Bool-cases (flags.verify && not (w.metadata.image.hash_appended == 0))) [
        | inl needed ↦
            rw (needed)
              (rw (data-used started.1 started.0 hdr_raw) (started-Holds w.machine.pool h.1))
        | inr idle ↦ rw (idle) (Fresh-Holds w h)
      ]

  require_lem :
      (test : Bool) (tag : String) (w : Work Chip)
      → (Holds env u0) w
      → Ends (λ (_ : Unit {0}). (Holds env u0)) (Free env u0) (require test (give_up tag) w)
  require_lem true tag w h = h
  require_lem false tag w h = (give_up-Free env u0) tag w h

  optional_hash-Holds :
      (bytes : List ℕ) (w : Work Chip)
      → (Holds env u0) w
      → (Holds env u0) (if w.sha_needed then hash_bytes bytes w else w)
  optional_hash-Holds bytes w h = either w.sha_needed
    where
      either : (b : Bool) → (Holds env u0) (if b then hash_bytes bytes w else w)
      either true = (hash_bytes-Holds env u0) bytes w h
      either false = h

  check_checksum-Holds :
      (flags : ProcessFlags) (part : PartitionPos) (w : Work Chip)
      → (Holds env u0) w
      → Ends (λ (_ : Unit {0}). (Holds env u0)) (Free env u0) (check_checksum env flags part w)
  unfolding check_checksum unmap on_machine bootloader_munmap
  check_checksum-Holds flags part w h =
      Ends-and_then (λ _. (Holds env u0)) (λ _. (Holds env u0)) (Free env u0)
        (map_or_exit env "[c]" _ 1 w) _ ((map_or_exit-Holds env u0) "[c]" _ 1 w h)
        λ ck w1 h1. require_lem _ "[C]" _ (optional_hash-Holds _ (unmap w1) h1)

  finish_hash-Free : (w : Work Chip) → (Holds env u0) w → (Free env u0) (finish_hash env w).1
  unfolding finish_hash
  finish_hash-Free w h = ground (arith, finish-used u0 w.sha_needed w.sha_handle w.machine.pool h)

  verify_secure_boot_sig-Free :
      (digest : List ℕ) (addr : ℕ) (w : Work Chip)
      → (Free env u0) w
      → (Free env u0) (verify_secure_boot_sig env digest addr w).1
  unfolding verify_secure_boot_sig unmap on_machine bootloader_munmap
  verify_secure_boot_sig-Free digest addr w h =
      let mapped = ap (λ (p : Pool). p.used) (mmap-Frame env w.machine addr 4096).same_pool ∙ h in
      elim (Option-cases (bootloader_mmap env w.machine addr 4096).0) [
        | inl e ↦ rw (e, verify_secure_boot_sig) mapped
        | inr (bytes, e) ↦ rw (e, verify_secure_boot_sig) mapped
      ]

  check_signature-Free :
      (flags : ProcessFlags) (digest : List ℕ) (w : Work Chip)
      → (Free env u0) w
      → Ends (λ (_ : Unit {0}). (Free env u0)) (Free env u0) (check_signature env flags digest w)
  unfolding check_signature on_machine
  check_signature-Free flags digest w h =
      ground (arith, verify_secure_boot_sig-Free digest (add32 w.next_addr 32) w h)

  check_hash-Free :
      (flags : ProcessFlags) (w : Work Chip)
      → (Holds env u0) w
      → Ends (λ (_ : Unit {0}). (Free env u0)) (Free env u0) (check_hash env flags w)
  unfolding check_hash unmap on_machine bootloader_munmap
  check_hash-Free flags w h =
      Ends-and_then (λ _. (Holds env u0)) (λ _. (Free env u0)) (Free env u0)
        (map_or_exit env "[g]" w.next_addr 32 w) _
        ((map_or_exit-Holds env u0) "[g]" w.next_addr 32 w h)
        λ stored w1 h1. elim (Bool-cases (bytes_eq (finish_hash env (unmap w1)).0 stored)) [
          | inl t ↦ rw (t, Ends) (check_signature-Free flags _ _ (finish_hash-Free (unmap w1) h1))
          | inr f ↦ rw (f, Ends) (finish_hash-Free (unmap w1) h1)
        ]

  optional-Free :
      (b : Bool) (k : Code (Work Chip) (Unit {0})) (w : Work Chip)
      → Ends (λ (_ : Unit {0}). (Free env u0)) (Free env u0) (k w)
      → (b ≡ false → (Free env u0) w)
      → Ends (λ (_ : Unit {0}). (Free env u0)) (Free env u0) ((if b then k else give tt) w)
  optional-Free true k w hk h = hk
  optional-Free false k w hk h = h refl

  process_body-Free :
      (part : PartitionPos) (flags : ProcessFlags) (w : Work Chip)
      → Fresh w
      → Ends (λ (_ : Unit {0}). (Free env u0)) (Free env u0) (process_body env part flags w)
  unfolding process_body
  process_body-Free part flags w h =
      Ends-and_then (λ _. Fresh) (λ _. (Free env u0)) (Free env u0) (read_header env part w) _
        (read_header-Fresh part w h)
        λ hdr_raw w1 h1.
          Ends-and_then (λ _. (Holds env u0)) (λ _. (Free env u0)) (Free env u0)
            (process_segments env _ 0 flags (start_hash env flags part hdr_raw w1)) _
            (process_segments-Goes env (Holds env u0) (Holds env u0) (Free env u0) (steps env u0) _
              0 flags _ (start_hash-Holds flags part hdr_raw w1 h1))
            λ _ w2 h2.
              Ends-and_then (λ _. (Holds env u0)) (λ _. (Free env u0)) (Free env u0)
                (check_checksum env flags part w2) _ (check_checksum-Holds flags part w2 h2)
                λ _ w3 h3.
                  optional-Free w3.sha_needed (check_hash env flags) w3
                    (check_hash-Free flags w3 h3)
                    (λ e.
                      (unneeded-Free env u0) w3.sha_needed w3.sha_handle w3.machine.pool.used e h3)

  result-Free :
      (o : Outcome (Work Chip) (Unit {0}))
      → Ends (λ (_ : Unit {0}). (Free env u0)) (Free env u0) o
      → (elim o as (λ _. Bool × EspImageMetadata × Machine Chip) [
        | done _ w ↦ (true, w.metadata, w.machine)
        | exit w ↦ (false, w.metadata, w.machine)
      ]).2.pool.used
        ≡ u0
  result-Free (done _ w) h = h
  result-Free (exit w) h = h

-- Whatever the flash holds, in any mode and on every way out, an early return included, processing
-- an image leaves the flags of the SHA-256 contexts as they were: a context that it takes is given
-- back.
pub process_image-used :
    {Chip : Type 0} (env : Platform Chip) (part : PartitionPos) (metadata : EspImageMetadata)
    (flags : ProcessFlags) (m : Machine Chip)
    → (process_image env part metadata flags m).2.pool.used ≡ m.pool.used
unfolding process_image
process_image-used env part metadata flags m =
    result-Free env m.pool.used (process_body env part flags (start_work env m metadata))
      (process_body-Free env m.pool.used part flags (start_work env m metadata) (refl, refl))
