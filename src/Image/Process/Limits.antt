-- ===== src/Image/Process/Limits.antt =====
-- What the size of the bounce buffer, 4093 bytes, means for `process_segment_data` and for
-- `verify_secure_boot_sig`.
use esp32c3_bootloader_rust.Common.{
  ℕ, ◌<◌, ◌≡◌, arith, List, Bool, false, Option-cases, none, inl, inr,
}
use esp32c3_bootloader_rust.Platform.{Platform}
use esp32c3_bootloader_rust.Flash.{Machine, bootloader_mmap}
use esp32c3_bootloader_rust.Flash.Mapping.{mmap-some}
use esp32c3_bootloader_rust.Image.Process.{verify_secure_boot_sig}
use esp32c3_bootloader_rust.Image.Segments.{Work, process_segment_data}

module _ {Chip : Type 0} (env : Platform Chip) where
  -- A request for more than 4093 bytes is refused.
  mmap-too_large :
      (m : Machine Chip) (addr size : ℕ) → 4093 < size → (bootloader_mmap env m addr size).0 ≡ none
  mmap-too_large m addr size h = elim (Option-cases (bootloader_mmap env m addr size).0) [
    | inl e ↦ e
    | inr (bytes, e) ↦ absurd (omega (arith, (mmap-some env m addr size bytes e).2))
  ]

  -- A segment of more than 4093 bytes is never processed: its data is mapped in one piece.
  pub process_segment_data-too_large :
      (load_addr data_addr data_len : ℕ) (do_load : Bool) (w : Work Chip)
      → 4093 < data_len
      → (process_segment_data env load_addr data_addr data_len do_load w).0 ≡ false
  unfolding process_segment_data
  process_segment_data-too_large load_addr data_addr data_len do_load w h =
      ground (arith, mmap-too_large w.machine data_addr data_len h)

  -- No image passes the check of its signature block, whatever the block holds: the block is asked
  -- for in one piece of 4096 bytes, which is never mapped.
  pub verify_secure_boot_sig-false :
      (image_digest : List ℕ) (sig_flash_addr : ℕ) (w : Work Chip)
      → (verify_secure_boot_sig env image_digest sig_flash_addr w).0 ≡ false
  unfolding verify_secure_boot_sig
  verify_secure_boot_sig-false image_digest sig_flash_addr w =
      ground (arith, mmap-too_large w.machine sig_flash_addr 4096 (omega arith))
