-- ===== src/Image/Process/Checks.antt =====
-- What `process_image` of src/image.rs compares behind its segment loop: the checksum byte and the
-- appended hash.
use esp32c3_bootloader_rust.Common.{
  ℕ, ◌≡◌, inl, inr, refl, sym, ap, ◌∙◌, arith, List, [], ◌∷◌, ◌++◌, Bool, true, Bool-cases, some,
  Option-cases, ◌==◌, add32, byte_at, ==_iff, &&-true,
}
use esp32c3_bootloader_rust.Common.Exit.{Ends, Ends-and_then, Ends-mono, Left}
use esp32c3_bootloader_rust.Platform.{Platform}
use esp32c3_bootloader_rust.Flash.{bootloader_mmap}
use esp32c3_bootloader_rust.Flash.Stored.{stored}
use esp32c3_bootloader_rust.Sha256.Reference.{sha256}
use esp32c3_bootloader_rust.Sha256.Pool.{Pool, bootloader_sha256_finish}
use esp32c3_bootloader_rust.Sha256.Pool.Session.{finish-Hashing}
use esp32c3_bootloader_rust.Image.{EspImageHeader, EspImageMetadata}
use esp32c3_bootloader_rust.Image.Segments.{
  Work, ProcessFlags, PartitionPos, bytes_eq, map_or_exit, unmap, on_machine,
}
use esp32c3_bootloader_rust.Image.Process.{
  check_checksum, checksum_addr_of, verify_secure_boot_sig, check_signature, finish_hash,
  check_hash,
}
use esp32c3_bootloader_rust.Image.Process.Reading.{At, map_or_exit-At, hash_bytes-At, unmap-At}

bytes_eq_lem : (xs ys : List ℕ) → bytes_eq xs ys ≡ true → xs ≡ ys
unfolding bytes_eq
bytes_eq_lem [] [] e = refl
bytes_eq_lem [] (y ∷ ys) e = absurd (cc e)
bytes_eq_lem (x ∷ xs) [] e = absurd (cc e)
bytes_eq_lem (x ∷ xs) (y ∷ ys) e =
    let both = &&-true (x == y) (bytes_eq xs ys) e in
    rw ((==_iff x y).0 both.0, bytes_eq_lem xs ys both.1) refl

module _ {Chip : Type 0} (env : Platform Chip) where
  verify_secure_boot_sig-metadata :
      (digest : List ℕ) (addr : ℕ) (w : Work Chip)
      → (verify_secure_boot_sig env digest addr w).1.metadata ≡ w.metadata
  unfolding verify_secure_boot_sig unmap on_machine
  verify_secure_boot_sig-metadata digest addr w =
      elim (Option-cases (bootloader_mmap env w.machine addr 4096).0) [
        | inl e ↦ rw (e, verify_secure_boot_sig) refl
        | inr (bytes, e) ↦ rw (e, verify_secure_boot_sig) refl
      ]

  check_signature-metadata :
      (flags : ProcessFlags) (digest : List ℕ) (w : Work Chip)
      → Ends (λ (_ : Unit {0}) v. v.metadata ≡ w.metadata) Left (check_signature env flags digest w)
  unfolding check_signature on_machine
  check_signature-metadata flags digest w =
      ground (arith, verify_secure_boot_sig-metadata digest (add32 w.next_addr 32) w)

  finish_hash-image : (w : Work Chip) → (finish_hash env w).1.metadata.image ≡ w.metadata.image
  unfolding finish_hash
  finish_hash-image w = ground arith

  -- The computed hash is that of what was fed.
  finish_hash-digest :
      (chip : Chip) (needed : Bool) (before : Pool) (h : ℕ) (image : EspImageHeader) (m : List ℕ)
      (sum addr : ℕ) (w : Work Chip)
      → At env chip needed before h image m sum addr w
      → needed ≡ true
      → (finish_hash env w).0 ≡ sha256 m
  unfolding finish_hash
  finish_hash-digest chip needed before h image m sum addr w a n = ground (arith, digest)
    where
      digest : (bootloader_sha256_finish w.machine.pool w.sha_handle).0 ≡ some (sha256 m)
      digest = elim a.fed [
        | inl f ↦ absurd (cc (sym n ∙ f))
        | inr (e, f) ↦ rw (e) ((finish-Hashing before w.machine.pool h m f).0)
      ]

module _ {Chip : Type 0} (env : Platform Chip) (chip : Chip) (needed : Bool) (before : Pool) (h : ℕ)
    (image : EspImageHeader) (m : List ℕ) (sum : ℕ) (w : Work Chip)
    (a : At env chip needed before h image m sum w.next_addr w) where
  pub check_checksum-At :
      (flags : ProcessFlags) (part : PartitionPos)
      → flags.verify ≡ true
      → Ends
          (λ (_ : Unit {0}) v.
            (check : List ℕ) × (stored env chip (checksum_addr_of env w.next_addr) 1 ≡ some check)
            × (byte_at check 0 ≡ sum)
            × At env chip needed before h image
                (m ++ byte_at check 0 ∷ [])
                sum
                (add32 (checksum_addr_of env w.next_addr) 1)
                v)
          Left
          (check_checksum env flags part w)
  unfolding check_checksum
  check_checksum-At flags part verified =
      Ends-and_then _ _ Left (map_or_exit env "[c]" (checksum_addr_of env w.next_addr) 1 w) _
        (map_or_exit-At env chip needed before h image m sum w.next_addr _ 1 "[c]" w a)
        λ check w1 (e, b).
          let c =
            hash_bytes-At env chip needed before h image m (byte_at check 0 ∷ []) sum w.next_addr _
              (unmap-At env chip needed before h image m sum w.next_addr w1 b) in
          elim (Bool-cases (w.checksum == byte_at check 0)) [
            | inl t ↦
                rw (verified, t, Ends)
                  (
                    check,
                    e,
                    sym ((==_iff w.checksum (byte_at check 0)).0 t) ∙ a.summed,
                    record {
                      same_chip = c.same_chip;
                      knows = c.knows;
                      summed = c.summed;
                      reached = refl;
                      wanted = c.wanted;
                      parsed = c.parsed;
                      fed = c.fed;
                    },
                  )
            | inr f ↦ rw (verified, f, Ends) tt
          ]

  pub check_hash-At :
      (flags : ProcessFlags)
      → needed ≡ true
      → Ends
          (λ (_ : Unit {0}) v.
            (stored env chip w.next_addr 32 ≡ some (sha256 m))
            × (v.metadata.image_digest ≡ sha256 m)
            × (v.metadata.image ≡ image))
          Left
          (check_hash env flags w)
  unfolding check_hash
  check_hash-At flags n =
      Ends-and_then _ _ Left (map_or_exit env "[g]" w.next_addr 32 w) _
        (map_or_exit-At env chip needed before h image m sum w.next_addr _ 32 "[g]" w a)
        λ kept w1 (e, b).
          let c = unmap-At env chip needed before h image m sum w.next_addr w1 b in
          let digest = finish_hash-digest env chip needed before h image m sum w.next_addr _ c n in
          elim (Bool-cases (bytes_eq (finish_hash env (unmap w1)).0 kept)) [
            | inl t ↦
                rw (t, Ends)
                  (Ends-mono _ _ Left Left (check_signature env flags _ _)
                    (check_signature-metadata env flags _ _)
                    (λ _ v same. (
                      e ∙ ap some (sym (bytes_eq_lem _ kept t) ∙ digest),
                      ap (λ (d : EspImageMetadata). d.image_digest) same ∙ digest,
                      ap (λ (d : EspImageMetadata). d.image) same
                          ∙ finish_hash-image env (unmap w1)
                          ∙ c.parsed,
                    ))
                    λ v l. tt)
            | inr f ↦ rw (f, Ends) tt
          ]
