-- ===== src/Image/Process/Frame.antt =====
-- Processing an image leaves the chip alone, what the driver knows of the eFuse, and the size of
-- the array of SHA-256 contexts: the steps around the segment loop.
use esp32c3_bootloader_rust.Common.{
  ℕ, refl, ◌∙◌, List, Bool, true, false, Bool-cases, Option-cases, inl, inr, add32, if◌then◌else◌,
  ◌==◌, ◌&&◌, not,
}
use esp32c3_bootloader_rust.Common.Exit.{Outcome, done, exit, Code, give, Ends, Ends-and_then}
use esp32c3_bootloader_rust.Platform.{Platform}
use esp32c3_bootloader_rust.Flash.{Machine, bootloader_mmap, bootloader_munmap}
use esp32c3_bootloader_rust.Sha256.Pool.{bootloader_sha256_start, bootloader_sha256_finish}
use esp32c3_bootloader_rust.Image.{EspImageMetadata, parse_header, verify_image_header}
use esp32c3_bootloader_rust.Image.Process.{
  read_header, start_hash, check_checksum, verify_secure_boot_sig, check_signature, finish_hash,
  check_hash, process_body, process_image, start_work,
}
use esp32c3_bootloader_rust.Image.Segments.{
  Work, ProcessFlags, PartitionPos, give_up, map_or_exit, process_segments, hash_bytes, unmap,
  require, on_machine, on_pool, bytes_eq,
}
use esp32c3_bootloader_rust.Image.Process.Walk.{process_segments-Goes}
use esp32c3_bootloader_rust.Sha256.Pool.Size.{start-size, data-size, finish-size}
use esp32c3_bootloader_rust.Image.Process.Steady.{
  IsSteady, mmap-IsSteady, same-IsSteady, Steady, SteadyBy, give_up-Steady, map_or_exit-Steady,
  unmap-Steady, optional_hash-Steady, steps,
}

module _ {Chip : Type 0} (env : Platform Chip) (c : Chip) where
  -- A step that keeps the claim on both ways out.
  abbrev Kept : Work Chip → Type 0
  Kept = Steady env c

  abbrev KeptBy : (A : Type 0) → Outcome (Work Chip) A → Type 0
  KeptBy = SteadyBy env c

  read_header-Steady :
      (part : PartitionPos) (w : Work Chip) → Kept w → KeptBy (List ℕ) (read_header env part w)
  unfolding read_header unmap on_machine bootloader_munmap
  read_header-Steady part w h =
      Ends-and_then (λ _. Kept) (λ _. Kept) Kept (map_or_exit env "[h]" part.offset 24 w) _
        (map_or_exit-Steady env c "[h]" part.offset 24 w h)
        λ hdr_raw w1 h1. elim (Bool-cases (verify_image_header env (parse_header hdr_raw))) [
          | inl t ↦ rw (t, Ends) (same-IsSteady env c w1.machine _ refl refl refl refl refl h1)
          | inr f ↦ rw (f, Ends) (same-IsSteady env c w1.machine _ refl refl refl refl refl h1)
        ]

  start_hash-Steady :
      (flags : ProcessFlags) (part : PartitionPos) (hdr_raw : List ℕ) (w : Work Chip)
      → Kept w
      → Kept (start_hash env flags part hdr_raw w)
  unfolding start_hash hash_bytes on_pool
  start_hash-Steady flags part hdr_raw w h =
      let started = bootloader_sha256_start w.machine.pool in
      elim (Bool-cases (flags.verify && not (w.metadata.image.hash_appended == 0))) [
        | inl needed ↦ rw (needed) (
            same-IsSteady env c w.machine _ refl refl refl refl
              (data-size started.1 started.0 hdr_raw ∙ start-size w.machine.pool) h)
        | inr idle ↦ rw (idle) (same-IsSteady env c w.machine _ refl refl refl refl refl h)
      ]

  require-Steady :
      (test : Bool) (quit : Work Chip → Work Chip) (w : Work Chip)
      → Kept w
      → Kept (quit w)
      → KeptBy (Unit {0}) (require test quit w)
  require-Steady true quit w h q = h
  require-Steady false quit w h q = q

  check_checksum-Steady :
      (flags : ProcessFlags) (part : PartitionPos) (w : Work Chip)
      → Kept w
      → KeptBy (Unit {0}) (check_checksum env flags part w)
  unfolding check_checksum
  check_checksum-Steady flags part w h =
      Ends-and_then (λ _. Kept) (λ _. Kept) Kept (map_or_exit env "[c]" _ 1 w) _
        (map_or_exit-Steady env c "[c]" _ 1 w h)
        λ ck w1 h1.
          let fed = optional_hash-Steady env c _ _ _ (unmap-Steady env c w1 h1) in
          require-Steady _ (give_up "[C]") _ fed (give_up-Steady env c "[C]" _ fed)

  finish_hash-Steady : (w : Work Chip) → Kept w → Kept (finish_hash env w).1
  unfolding finish_hash
  finish_hash-Steady w h =
      let p = bootloader_sha256_finish w.machine.pool w.sha_handle in
      elim (Option-cases p.0) [
        | inl e ↦
            rw (e, finish_hash)
              (same-IsSteady env c w.machine _ refl refl refl refl
                (finish-size w.machine.pool w.sha_handle) h)
        | inr (bytes, e) ↦
            rw (e, finish_hash)
              (same-IsSteady env c w.machine _ refl refl refl refl
                (finish-size w.machine.pool w.sha_handle) h)
      ]

  verify_secure_boot_sig-Steady :
      (digest : List ℕ) (addr : ℕ) (w : Work Chip)
      → Kept w
      → Kept (verify_secure_boot_sig env digest addr w).1
  unfolding verify_secure_boot_sig
  verify_secure_boot_sig-Steady digest addr w h =
      let s = mmap-IsSteady env c w.machine addr 4096 h in
      elim (Option-cases (bootloader_mmap env w.machine addr 4096).0) [
        | inl e ↦ rw (e, verify_secure_boot_sig) s
        | inr (bytes, e) ↦
            rw (e, verify_secure_boot_sig)
              (unmap-Steady env c
                (record w { machine = (bootloader_mmap env w.machine addr 4096).1 }) s)
      ]

  check_signature-Steady :
      (flags : ProcessFlags) (digest : List ℕ) (w : Work Chip)
      → Kept w
      → KeptBy (Unit {0}) (check_signature env flags digest w)
  unfolding check_signature on_machine
  check_signature-Steady flags digest w h =
      let after = verify_secure_boot_sig-Steady digest (add32 w.next_addr 32) w h in
      elim (Bool-cases (env.feature_secure_boot && flags.verify && env.secure_boot_enabled)) [
        | inr off ↦ rw (off, Ends) h
        | inl on ↦
            rw (on)
              (elim (Bool-cases (verify_secure_boot_sig env digest (add32 w.next_addr 32) w).0) [
                | inl ok ↦ rw (ok, Ends) after
                | inr ko ↦
                    rw (ko, Ends)
                      (same-IsSteady env c
                        (verify_secure_boot_sig env digest (add32 w.next_addr 32) w).1.machine _
                        refl refl refl refl refl after)
              ])
      ]

  check_hash-Steady :
      (flags : ProcessFlags) (w : Work Chip) → Kept w → KeptBy (Unit {0}) (check_hash env flags w)
  unfolding check_hash on_machine
  check_hash-Steady flags w h =
      Ends-and_then (λ _. Kept) (λ _. Kept) Kept (map_or_exit env "[g]" w.next_addr 32 w) _
        (map_or_exit-Steady env c "[g]" w.next_addr 32 w h)
        λ kept w1 h1.
          let after = finish_hash-Steady (unmap w1) (unmap-Steady env c w1 h1) in
          elim (Bool-cases (bytes_eq (finish_hash env (unmap w1)).0 kept)) [
            | inl t ↦ rw (t, Ends) (check_signature-Steady flags _ _ after)
            | inr f ↦
                rw (f, Ends)
                  (same-IsSteady env c (finish_hash env (unmap w1)).1.machine _ refl refl refl refl
                    refl after)
          ]

  optional-Steady :
      (b : Bool) (k : Code (Work Chip) (Unit {0})) (w : Work Chip)
      → KeptBy (Unit {0}) (k w)
      → Kept w
      → KeptBy (Unit {0}) ((if b then k else give tt) w)
  optional-Steady true k w hk h = hk
  optional-Steady false k w hk h = h

  process_body-Steady :
      (part : PartitionPos) (flags : ProcessFlags) (w : Work Chip)
      → Kept w
      → KeptBy (Unit {0}) (process_body env part flags w)
  unfolding process_body
  process_body-Steady part flags w h =
      Ends-and_then (λ _. Kept) (λ _. Kept) Kept (read_header env part w) _
        (read_header-Steady part w h)
        λ hdr_raw w1 h1.
          Ends-and_then (λ _. Kept) (λ _. Kept) Kept
            (process_segments env _ 0 flags (start_hash env flags part hdr_raw w1)) _
            (process_segments-Goes env Kept Kept Kept (steps env c) _ 0 flags _
              (start_hash-Steady flags part hdr_raw w1 h1))
            λ _ w2 h2.
              Ends-and_then (λ _. Kept) (λ _. Kept) Kept (check_checksum env flags part w2) _
                (check_checksum-Steady flags part w2 h2)
                λ _ w3 h3.
                  optional-Steady w3.sha_needed (check_hash env flags) w3
                    (check_hash-Steady flags w3 h3) h3

  result-Steady :
      (o : Outcome (Work Chip) (Unit {0}))
      → KeptBy (Unit {0}) o
      → IsSteady env c
          (elim o as (λ _. Bool × EspImageMetadata × Machine Chip) [
            | done _ w ↦ (true, w.metadata, w.machine)
            | exit w ↦ (false, w.metadata, w.machine)
          ]).2
  result-Steady (done _ w) h = h
  result-Steady (exit w) h = h

pub process_image-IsSteady :
    {Chip : Type 0} (env : Platform Chip) (c : Chip) (part : PartitionPos)
    (metadata : EspImageMetadata) (flags : ProcessFlags) (m : Machine Chip)
    → IsSteady env c m
    → IsSteady env c (process_image env part metadata flags m).2
unfolding process_image
process_image-IsSteady env c part metadata flags m h =
    result-Steady env c (process_body env part flags (start_work env m metadata))
      (process_body-Steady env c part flags (start_work env m metadata) h)
