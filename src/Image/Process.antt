-- ===== src/Image/Process.antt =====
-- `process_image` of src/image.rs with the functions that it calls: the segment loop, the
-- checksum, the appended SHA-256 hash and the Secure Boot signature block.
pub mod Kept
pub mod Memory
pub mod Limits
pub mod Walk
pub mod Balance
pub mod Held
pub mod Release
pub mod Layout
pub mod Reading
pub mod Feed
pub mod Opened
pub mod Checks
pub mod Intact
pub mod Steady
pub mod Frame
mod Tests
use esp32c3_bootloader_rust.Common.{
  ℕ, zero, suc, ◌+◌, ◌-◌, ◌*◌, ◌/◌, ◌%◌, ◌^◌, bit_xor, List, [], ◌∷◌, ◌++◌, Bool, true, false, ◌&&◌,
  ◌||◌, not, Option, none, some, if◌then◌else◌, ltb, leb, ◌==◌, byte_at, u32_at, take, drop,
  replicate, length, set, add32, sub32,
}
use esp32c3_bootloader_rust.Common.Exit.{
  Outcome, done, exit, Code, ◌>>=◌, ◌>>◌, and_then, give, modify,
}
use esp32c3_bootloader_rust.Crc.{crc32_bytes}
use esp32c3_bootloader_rust.Sha256.Pool.{
  Pool, Handle, bootloader_sha256_start, bootloader_sha256_data, bootloader_sha256_finish,
}
use esp32c3_bootloader_rust.Platform.{Platform}
use esp32c3_bootloader_rust.Flash.{Machine, bootloader_mmap, bootloader_munmap, debug_tx_str}
use esp32c3_bootloader_rust.Image.{
  EspImageHeader, EspImageSegmentHeader, EspImageMetadata, parse_header, parse_segment, should_load,
  verify_image_header, verify_load_addresses,
}
use Prim.Native.String.{String}
use esp32c3_bootloader_rust.Image.Segments.{
  ProcessFlags, PartitionPos, Work, bytes_eq, xor_bytes, copy_to_ram, sec1_key, on_machine, on_pool,
  hash_bytes, sha_abort, give_up, unmap, current, require, map_or_exit, process_segment_data,
  check_addresses, load_segment, record_segment, advance, process_segment, process_segments,
}

module _ {Chip : Type 0} (env : Platform Chip) where
  -- Step 1: the header.
  unfoldable pub read_header : PartitionPos → Code (Work Chip) (List ℕ)
  unfolding unmap on_machine
  read_header part = do
    hdr_raw ← map_or_exit env "[h]" part.offset 24
    modify (λ w. unmap (record w { metadata = record w.metadata { image = parse_header hdr_raw } }))
    require (verify_image_header env (parse_header hdr_raw)) (on_machine (debug_tx_str "[H]"))
    give hdr_raw

  -- Step 2: the SHA-256 context, if there is one, and the hash of the header.
  unfoldable pub start_hash : ProcessFlags → PartitionPos → List ℕ → Work Chip → Work Chip
  unfolding hash_bytes
  start_hash flags part hdr_raw w =
      let needed = flags.verify && not (w.metadata.image.hash_appended == 0) in
      let (handle, pool) = bootloader_sha256_start w.machine.pool in
      let started = record w {
        machine = record w.machine { pool = pool };
        sha_needed = true;
        sha_handle = handle;
      } in
      let hashed = if needed then hash_bytes hdr_raw started else w in
      record hashed {
        metadata = record hashed.metadata { start_addr = part.offset; image_len = 24 };
        next_addr = add32 part.offset 24;
      }

  -- `((next_addr + 16) & !0x0f).wrapping_sub(1)`
  abbrev pub checksum_addr_of : ℕ → ℕ
  checksum_addr_of next_addr = sub32 (add32 next_addr 16 / 16 * 16) 1

  -- Step 4: the checksum byte.
  unfoldable pub check_checksum : ProcessFlags → PartitionPos → Code (Work Chip) (Unit {0})
  unfolding unmap hash_bytes
  check_checksum flags part = do
    w ← current
    let checksum_addr = checksum_addr_of w.next_addr
    ck ← map_or_exit env "[c]" checksum_addr 1
    modify unmap
    modify (λ v. if v.sha_needed then hash_bytes (byte_at ck 0 ∷ []) v else v)
    modify (λ v. record v {
      metadata = record v.metadata { image_len = add32 (sub32 checksum_addr part.offset) 1 };
      next_addr = add32 checksum_addr 1;
    })
    require (not flags.verify || w.checksum == byte_at ck 0) (give_up "[C]")

  -- `verify_secure_boot_sig`
  unfoldable pub verify_secure_boot_sig : List ℕ → ℕ → Work Chip → Bool × Work Chip
  unfolding unmap
  verify_secure_boot_sig image_digest sig_flash_addr w =
      let (mapping, machine) = bootloader_mmap env w.machine sig_flash_addr 4096 in
      elim mapping [
        | none ↦ (false, record w { machine = machine })
        | some block ↦
            let hdr_ok = byte_at block 0 == 0xE7 && byte_at block 1 == 0x02 in
            let crc_ok = u32_at block 164 == crc32_bytes (take 164 block) in
            let digest_ok = bytes_eq (take 32 (drop 4 block)) image_digest in
            let sig_bytes = take 64 (drop 36 block) in
            (
              hdr_ok && crc_ok && digest_ok && env.verify_prehash sec1_key image_digest sig_bytes,
              unmap (record w { machine = machine }),
            )
      ]

  -- The signature is asked for in a build with the feature, where the eFuse is set.
  unfoldable pub check_signature : ProcessFlags → List ℕ → Code (Work Chip) (Unit {0})
  unfolding on_machine
  check_signature flags digest w =
      let (ok, after) = verify_secure_boot_sig digest (add32 w.next_addr 32) w in
      if env.feature_secure_boot && flags.verify && env.secure_boot_enabled
      then (if ok then done tt after else exit (on_machine (debug_tx_str "[S]") after))
      else done tt w

  -- The computed hash: the buffer stays zero without a context.
  unfoldable pub finish_hash : Work Chip → List ℕ × Work Chip
  finish_hash w =
      let (digest, pool) = bootloader_sha256_finish w.machine.pool w.sha_handle in
      let finished = record w { machine = record w.machine { pool = pool } } in
      elim digest [ none ↦ (replicate 32 0, finished) | some bytes ↦ (bytes, finished) ]

  -- Step 5: the appended hash.
  unfoldable pub check_hash : ProcessFlags → Code (Work Chip) (Unit {0})
  unfolding unmap on_machine
  check_hash flags = do
    w ← current
    stored_hash ← map_or_exit env "[g]" w.next_addr 32
    modify unmap
    computed_hash ← (λ v. done (finish_hash v).0 (finish_hash v).1)
    require (bytes_eq computed_hash stored_hash) (on_machine (debug_tx_str "[G]"))
    modify (λ v. record v {
      metadata = record v.metadata {
        image_digest = computed_hash;
        image_len = add32 v.metadata.image_len 32;
      };
    })
    check_signature flags computed_hash

  unfoldable pub process_body : PartitionPos → ProcessFlags → Code (Work Chip) (Unit {0})
  process_body part flags = do
    hdr_raw ← read_header part
    modify (start_hash flags part hdr_raw)
    w ← current
    process_segments env w.metadata.image.segment_count 0 flags
    check_checksum flags part
    v ← current
    if v.sha_needed then check_hash flags else give tt

  abbrev pub start_work : Machine Chip → EspImageMetadata → Work Chip
  start_work machine metadata = record {
    machine = machine;
    metadata = metadata;
    checksum = 0xEF;
    next_addr = 0;
    sha_needed = false;
    sha_handle = none;
  }

  unfoldable pub process_image :
      PartitionPos
      → EspImageMetadata
      → ProcessFlags
      → Machine Chip
      → Bool × EspImageMetadata × Machine Chip
  process_image part metadata flags machine =
      elim (process_body part flags (start_work machine metadata)) [
        | done _ w ↦ (true, w.metadata, w.machine)
        | exit w ↦ (false, w.metadata, w.machine)
      ]

  unfoldable pub bootloader_load_image :
      PartitionPos → EspImageMetadata → Machine Chip → Bool × EspImageMetadata × Machine Chip
  bootloader_load_image part metadata =
      process_image part metadata (record { verify = true; load = true })

  unfoldable pub bootloader_load_image_no_verify :
      PartitionPos → EspImageMetadata → Machine Chip → Bool × EspImageMetadata × Machine Chip
  bootloader_load_image_no_verify part metadata =
      process_image part metadata (record { verify = false; load = true })

  -- The mode only silences messages, which are not printed in any mode.
  unfoldable pub esp_image_verify :
      ℕ → PartitionPos → EspImageMetadata → Machine Chip → Bool × EspImageMetadata × Machine Chip
  esp_image_verify mode part metadata =
      process_image part metadata (record { verify = true; load = false })

  unfoldable pub esp_image_get_metadata :
      PartitionPos → EspImageMetadata → Machine Chip → Bool × EspImageMetadata × Machine Chip
  esp_image_get_metadata part metadata =
      process_image part metadata (record { verify = false; load = false })
