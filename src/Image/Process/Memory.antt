-- ===== src/Image/Process/Memory.antt =====
-- Loading an image never writes to the bootloader's own code or data.
use esp32c3_bootloader_rust.Common.{
  ℕ, ◌≡◌, inl, inr, refl, arith, List, Bool, true, false, Bool-cases, Option-cases, add32,
  if◌then◌else◌,
}
use esp32c3_bootloader_rust.Common.Exit.{Outcome, done, exit, Code, give, Ends, Ends-and_then}
use esp32c3_bootloader_rust.Platform.{Platform}
use esp32c3_bootloader_rust.Flash.{Machine, bootloader_mmap, bootloader_munmap}
use esp32c3_bootloader_rust.Flash.Contents.{Delivers}
use esp32c3_bootloader_rust.Image.{EspImageMetadata, verify_image_header, parse_header}
use esp32c3_bootloader_rust.Image.Process.{
  read_header, start_hash, check_checksum, verify_secure_boot_sig, check_signature, finish_hash,
  check_hash, process_body, process_image, start_work,
}
use esp32c3_bootloader_rust.Image.Segments.{
  Work, ProcessFlags, PartitionPos, give_up, map_or_exit, process_segments, hash_bytes, unmap,
  on_machine, sha_abort, bytes_eq,
}
use esp32c3_bootloader_rust.Image.Process.Kept.{
  IsProtected, Kept, KeptBy, mmap-Kept, map_or_exit-Kept, process_segments-Kept,
}

module _ {Chip : Type 0} (env : Platform Chip) (d : Delivers env) (a v : ℕ)
    (inside : IsProtected env a) where
  read_header-Kept :
      (part : PartitionPos) (w : Work Chip)
      → (Kept env d a v inside) w
      → (KeptBy env d a v inside) (List ℕ) (read_header env part w)
  unfolding read_header unmap on_machine bootloader_munmap
  read_header-Kept part w h =
      Ends-and_then (λ _. (Kept env d a v inside)) (λ _. (Kept env d a v inside))
        (Kept env d a v inside) (map_or_exit env "[h]" part.offset 24 w) _
        ((map_or_exit-Kept env d a v inside) "[h]" part.offset 24 w h)
        λ hdr_raw w1 h1. elim (Bool-cases (verify_image_header env (parse_header hdr_raw))) [
          | inl t ↦ rw (t, Ends) h1
          | inr f ↦ rw (f, Ends) h1
        ]

  start_hash-Kept :
      (flags : ProcessFlags) (part : PartitionPos) (hdr_raw : List ℕ) (w : Work Chip)
      → (Kept env d a v inside) w
      → (Kept env d a v inside) (start_hash env flags part hdr_raw w)
  unfolding start_hash hash_bytes
  start_hash-Kept flags part hdr_raw w h = ground arith

  check_checksum-Kept :
      (flags : ProcessFlags) (part : PartitionPos) (w : Work Chip)
      → (Kept env d a v inside) w
      → (KeptBy env d a v inside) (Unit {0}) (check_checksum env flags part w)
  unfolding check_checksum unmap on_machine bootloader_munmap hash_bytes give_up sha_abort
  check_checksum-Kept flags part w h =
      Ends-and_then (λ _. (Kept env d a v inside)) (λ _. (Kept env d a v inside))
        (Kept env d a v inside) (map_or_exit env "[c]" _ 1 w) _
        ((map_or_exit-Kept env d a v inside) "[c]" _ 1 w h) λ ck w1 h1. ground arith

  verify_secure_boot_sig-Kept :
      (digest : List ℕ) (addr : ℕ) (w : Work Chip)
      → (Kept env d a v inside) w
      → (Kept env d a v inside) (verify_secure_boot_sig env digest addr w).1
  unfolding verify_secure_boot_sig unmap on_machine bootloader_munmap
  verify_secure_boot_sig-Kept digest addr w h =
      elim (Option-cases (bootloader_mmap env w.machine addr 4096).0) [
        | inl e ↦ rw (e, verify_secure_boot_sig) ((mmap-Kept env d a v inside) w addr 4096 h)
        | inr (bytes, e) ↦
            rw (e, verify_secure_boot_sig) ((mmap-Kept env d a v inside) w addr 4096 h)
      ]

  check_signature-Kept :
      (flags : ProcessFlags) (digest : List ℕ) (w : Work Chip)
      → (Kept env d a v inside) w
      → (KeptBy env d a v inside) (Unit {0}) (check_signature env flags digest w)
  unfolding check_signature on_machine
  check_signature-Kept flags digest w h = ground (arith, after)
    where
      after : (Kept env d a v inside) (verify_secure_boot_sig env digest (add32 w.next_addr 32) w).1
      after = verify_secure_boot_sig-Kept digest (add32 w.next_addr 32) w h

  finish_hash-Kept :
      (w : Work Chip) → (Kept env d a v inside) w → (Kept env d a v inside) (finish_hash env w).1
  unfolding finish_hash
  finish_hash-Kept w h = ground arith

  check_hash-Kept :
      (flags : ProcessFlags) (w : Work Chip)
      → (Kept env d a v inside) w
      → (KeptBy env d a v inside) (Unit {0}) (check_hash env flags w)
  unfolding check_hash unmap on_machine bootloader_munmap
  check_hash-Kept flags w h =
      Ends-and_then (λ _. (Kept env d a v inside)) (λ _. (Kept env d a v inside))
        (Kept env d a v inside) (map_or_exit env "[g]" w.next_addr 32 w) _
        ((map_or_exit-Kept env d a v inside) "[g]" w.next_addr 32 w h)
        λ stored w1 h1. elim (Bool-cases (bytes_eq (finish_hash env (unmap w1)).0 stored)) [
          | inl t ↦ rw (t, Ends) (check_signature-Kept flags _ _ (finish_hash-Kept (unmap w1) h1))
          | inr f ↦ rw (f, Ends) (finish_hash-Kept (unmap w1) h1)
        ]

  optional-Kept :
      (b : Bool) (k : Code (Work Chip) (Unit {0})) (w : Work Chip)
      → (KeptBy env d a v inside) (Unit {0}) (k w)
      → (Kept env d a v inside) w
      → (KeptBy env d a v inside) (Unit {0}) ((if b then k else give tt) w)
  optional-Kept true k w hk h = hk
  optional-Kept false k w hk h = h

  process_body-Kept :
      (part : PartitionPos) (flags : ProcessFlags) (w : Work Chip)
      → (Kept env d a v inside) w
      → (KeptBy env d a v inside) (Unit {0}) (process_body env part flags w)
  unfolding process_body
  process_body-Kept part flags w h =
      Ends-and_then (λ _. (Kept env d a v inside)) (λ _. (Kept env d a v inside))
        (Kept env d a v inside) (read_header env part w) _ (read_header-Kept part w h)
        λ hdr_raw w1 h1.
          Ends-and_then (λ _. (Kept env d a v inside)) (λ _. (Kept env d a v inside))
            (Kept env d a v inside)
            (process_segments env _ 0 flags (start_hash env flags part hdr_raw w1)) _
            ((process_segments-Kept env d a v inside) _ 0 flags _
              (start_hash-Kept flags part hdr_raw w1 h1))
            λ _ w2 h2.
              Ends-and_then (λ _. (Kept env d a v inside)) (λ _. (Kept env d a v inside))
                (Kept env d a v inside) (check_checksum env flags part w2) _
                (check_checksum-Kept flags part w2 h2)
                λ _ w3 h3.
                  optional-Kept w3.sha_needed (check_hash env flags) w3
                    (check_hash-Kept flags w3 h3) h3

  result-Kept :
      (o : Outcome (Work Chip) (Unit {0}))
      → (KeptBy env d a v inside) (Unit {0}) o
      → (elim o as (λ _. Bool × EspImageMetadata × Machine Chip) [
        | done _ w ↦ (true, w.metadata, w.machine)
        | exit w ↦ (false, w.metadata, w.machine)
      ]).2.ram
          a
        ≡ v
  result-Kept (done _ w) h = h
  result-Kept (exit w) h = h

-- Where the flash reads deliver bytes, processing an image, in any mode and with any outcome,
-- leaves every address of the bootloader's code and static data as it was.
pub process_image-ram :
    {Chip : Type 0} (env : Platform Chip) (d : Delivers env) (part : PartitionPos)
    (metadata : EspImageMetadata) (flags : ProcessFlags) (m : Machine Chip) (a : ℕ)
    → IsProtected env a
    → (process_image env part metadata flags m).2.ram a ≡ m.ram a
unfolding process_image
process_image-ram env d part metadata flags m a inside =
    result-Kept env d a (m.ram a) inside (process_body env part flags (start_work env m metadata))
      (process_body-Kept env d a (m.ram a) inside part flags (start_work env m metadata) refl)
