-- ===== src/Image/Process/Balance.antt =====
-- Every path through `process_image` releases the mappings that it makes.
use esp32c3_bootloader_rust.Common.{
  ℕ, ◌≡◌, refl, sym, ◌∙◌, arith, List, Bool, true, false, Bool-cases, Option-cases, inl, inr, add32,
  if◌then◌else◌, ◌==◌,
}
use esp32c3_bootloader_rust.Common.Exit.{Outcome, done, exit, Code, give, Ends, Ends-and_then}
use esp32c3_bootloader_rust.Platform.{Platform}
use esp32c3_bootloader_rust.Flash.{Machine, bootloader_mmap, bootloader_munmap}
use esp32c3_bootloader_rust.Flash.Mapping.{mmap-none, mmap-some}
use esp32c3_bootloader_rust.Image.{EspImageMetadata, parse_header, verify_image_header}
use esp32c3_bootloader_rust.Image.Process.{
  read_header, start_hash, check_checksum, verify_secure_boot_sig, check_signature, finish_hash,
  check_hash, process_body, process_image, start_work,
}
use esp32c3_bootloader_rust.Image.Segments.{
  Work, ProcessFlags, PartitionPos, give_up, map_or_exit, process_segment_data, record_segment,
  advance, process_segments, hash_bytes, unmap, on_machine, sha_abort, bytes_eq,
}
use esp32c3_bootloader_rust.Image.Process.Kept.{map_or_exit-Ends}
use esp32c3_bootloader_rust.Image.Process.Walk.{Steps, process_segments-Goes}
use Prim.Native.String.{String}

module _ {Chip : Type 0} (env : Platform Chip) (v : Bool) where
  -- `MAPPED` is as it was at the start.
  abbrev Level : Work Chip → Type 0
  Level w = w.machine.mapped ≡ v

  abbrev LevelBy : (A : Type 0) → Outcome (Work Chip) A → Type 0
  LevelBy A o = Ends (λ (_ : A). Level) Level o

  -- A mapping that is held: it was made from the unmapped state.
  abbrev Held : List ℕ → Work Chip → Type 0
  Held bytes w = false ≡ v

  give_up-Level : (tag : String) (w : Work Chip) → Level w → Level (give_up tag w)
  unfolding give_up
  give_up-Level tag w h = ground arith

  map_or_exit-Held :
      (tag : String) (addr size : ℕ) (w : Work Chip)
      → Level w
      → Ends Held Level (map_or_exit env tag addr size w)
  map_or_exit-Held tag addr size w h =
      map_or_exit-Ends env Held Level tag addr size w
        (λ e. give_up-Level tag _ (mmap-none env w.machine addr size e ∙ h))
        (λ bytes e. sym ((mmap-some env w.machine addr size bytes e).0) ∙ h)

  process_segment_data-Level :
      (load_addr data_addr data_len : ℕ) (do_load : Bool) (w : Work Chip)
      → Level w
      → Level (process_segment_data env load_addr data_addr data_len do_load w).1
  unfolding process_segment_data bootloader_munmap
  process_segment_data-Level load_addr data_addr data_len do_load w h =
      elim (Bool-cases (data_len == 0)) [
        | inl empty ↦ rw empty h
        | inr more ↦
            rw more (elim (Option-cases (bootloader_mmap env w.machine data_addr data_len).0) [
              | inl e ↦ rw e (mmap-none env w.machine data_addr data_len e ∙ h)
              | inr (bytes, e) ↦
                  rw e (sym ((mmap-some env w.machine data_addr data_len bytes e).0) ∙ h)
            ])
      ]

  record_segment-Level :
      (i : ℕ) (seg_raw : List ℕ) (data_addr : ℕ) (w : Work Chip)
      → Held seg_raw w
      → Level (record_segment env i seg_raw data_addr w)
  unfolding record_segment unmap on_machine bootloader_munmap hash_bytes
  record_segment-Level i seg_raw data_addr w h = ground arith

  steps : Steps env Level (λ _. false ≡ v) Level
  unfolding advance
  steps = record {
    leave = give_up-Level;
    header = map_or_exit-Held;
    note = record_segment-Level;
    data_of = process_segment_data-Level;
    further = λ seg w h. h;
  }

  read_header-Level :
      (part : PartitionPos) (w : Work Chip) → Level w → LevelBy (List ℕ) (read_header env part w)
  unfolding read_header unmap on_machine bootloader_munmap
  read_header-Level part w h =
      Ends-and_then Held (λ _. Level) Level (map_or_exit env "[h]" part.offset 24 w) _
        (map_or_exit-Held "[h]" part.offset 24 w h)
        λ hdr_raw w1 h1. elim (Bool-cases (verify_image_header env (parse_header hdr_raw))) [
          | inl t ↦ rw (t, Ends) h1
          | inr f ↦ rw (f, Ends) h1
        ]

  start_hash-Level :
      (flags : ProcessFlags) (part : PartitionPos) (hdr_raw : List ℕ) (w : Work Chip)
      → Level w
      → Level (start_hash env flags part hdr_raw w)
  unfolding start_hash hash_bytes
  start_hash-Level flags part hdr_raw w h = ground arith

  check_checksum-Level :
      (flags : ProcessFlags) (part : PartitionPos) (w : Work Chip)
      → Level w
      → LevelBy (Unit {0}) (check_checksum env flags part w)
  unfolding check_checksum unmap on_machine bootloader_munmap hash_bytes give_up sha_abort
  check_checksum-Level flags part w h =
      Ends-and_then Held (λ _. Level) Level (map_or_exit env "[c]" _ 1 w) _
        (map_or_exit-Held "[c]" _ 1 w h) λ ck w1 h1. ground arith

  verify_secure_boot_sig-Level :
      (digest : List ℕ) (addr : ℕ) (w : Work Chip)
      → Level w
      → Level (verify_secure_boot_sig env digest addr w).1
  unfolding verify_secure_boot_sig unmap on_machine bootloader_munmap
  verify_secure_boot_sig-Level digest addr w h =
      elim (Option-cases (bootloader_mmap env w.machine addr 4096).0) [
        | inl e ↦ rw (e, verify_secure_boot_sig) (mmap-none env w.machine addr 4096 e ∙ h)
        | inr (bytes, e) ↦
            rw (e, verify_secure_boot_sig) (sym ((mmap-some env w.machine addr 4096 bytes e).0) ∙ h)
      ]

  check_signature-Level :
      (flags : ProcessFlags) (digest : List ℕ) (w : Work Chip)
      → Level w
      → LevelBy (Unit {0}) (check_signature env flags digest w)
  unfolding check_signature on_machine
  check_signature-Level flags digest w h = ground (arith, after)
    where
      after : Level (verify_secure_boot_sig env digest (add32 w.next_addr 32) w).1
      after = verify_secure_boot_sig-Level digest (add32 w.next_addr 32) w h

  finish_hash-Level : (w : Work Chip) → Level w → Level (finish_hash env w).1
  unfolding finish_hash
  finish_hash-Level w h = ground arith

  check_hash-Level :
      (flags : ProcessFlags) (w : Work Chip) → Level w → LevelBy (Unit {0}) (check_hash env flags w)
  unfolding check_hash unmap on_machine bootloader_munmap
  check_hash-Level flags w h =
      Ends-and_then Held (λ _. Level) Level (map_or_exit env "[g]" w.next_addr 32 w) _
        (map_or_exit-Held "[g]" w.next_addr 32 w h)
        λ stored w1 h1. elim (Bool-cases (bytes_eq (finish_hash env (unmap w1)).0 stored)) [
          | inl t ↦ rw (t, Ends) (check_signature-Level flags _ _ (finish_hash-Level (unmap w1) h1))
          | inr f ↦ rw (f, Ends) (finish_hash-Level (unmap w1) h1)
        ]

  optional-Level :
      (b : Bool) (k : Code (Work Chip) (Unit {0})) (w : Work Chip)
      → LevelBy (Unit {0}) (k w)
      → Level w
      → LevelBy (Unit {0}) ((if b then k else give tt) w)
  optional-Level true k w hk h = hk
  optional-Level false k w hk h = h

  process_body-Level :
      (part : PartitionPos) (flags : ProcessFlags) (w : Work Chip)
      → Level w
      → LevelBy (Unit {0}) (process_body env part flags w)
  unfolding process_body
  process_body-Level part flags w h =
      Ends-and_then (λ _. Level) (λ _. Level) Level (read_header env part w) _
        (read_header-Level part w h)
        λ hdr_raw w1 h1.
          Ends-and_then (λ _. Level) (λ _. Level) Level
            (process_segments env _ 0 flags (start_hash env flags part hdr_raw w1)) _
            (process_segments-Goes env Level (λ _. false ≡ v) Level steps _ 0 flags _
              (start_hash-Level flags part hdr_raw w1 h1))
            λ _ w2 h2.
              Ends-and_then (λ _. Level) (λ _. Level) Level (check_checksum env flags part w2) _
                (check_checksum-Level flags part w2 h2)
                λ _ w3 h3.
                  optional-Level w3.sha_needed (check_hash env flags) w3
                    (check_hash-Level flags w3 h3) h3

  result-Level :
      (o : Outcome (Work Chip) (Unit {0}))
      → LevelBy (Unit {0}) o
      → (elim o as (λ _. Bool × EspImageMetadata × Machine Chip) [
        | done _ w ↦ (true, w.metadata, w.machine)
        | exit w ↦ (false, w.metadata, w.machine)
      ]).2.mapped
        ≡ v
  result-Level (done _ w) h = h
  result-Level (exit w) h = h

-- Whatever the flash holds, in any mode and on every way out, an early return included, processing
-- an image leaves the flag that a mapping is held as it was.
pub process_image-mapped :
    {Chip : Type 0} (env : Platform Chip) (part : PartitionPos) (metadata : EspImageMetadata)
    (flags : ProcessFlags) (m : Machine Chip)
    → (process_image env part metadata flags m).2.mapped ≡ m.mapped
unfolding process_image
process_image-mapped env part metadata flags m =
    result-Level env m.mapped (process_body env part flags (start_work env m metadata))
      (process_body-Level env m.mapped part flags (start_work env m metadata) refl)
