-- ===== src/SignImage/Verify.antt =====
-- tools/sign_image/src/verify.rs: a signed image is checked against a key.
use esp32c3_bootloader_rust.Common.{
  ℕ, ◌+◌, ◌-◌, List, ◌∷◌, Bool, true, false, not, ◌||◌, if◌then◌else◌, ltb, ◌==◌, byte_at, take,
  drop, length,
}
use esp32c3_bootloader_rust.Common.Exit.{done, Code, ◌>>=◌, ◌>>◌}
use esp32c3_bootloader_rust.Image.Segments.{bytes_eq}
use esp32c3_bootloader_rust.SigBlock.{SigBlock, from_bytes, block_size}
use esp32c3_bootloader_rust.SignImage.{
  Host, World, SignError, invalid_block, bad_public_key, key_mismatch, bad_signature,
  verification_failed, digest_mismatch, too_small, no_block, image_digest, signature_ok, fail,
  or_fail, read, print,
}
use esp32c3_bootloader_rust.SignImage.Keygen.{load_signing_key}
use esp32c3_bootloader_rust.SignImage.Sign.{compute_digest}
use Prim.Native.String.{String}

-- `if !ok { bail!(..) }`
unfoldable pub ensure : SignError → Bool → Code World (Unit {0})
ensure e true w = done tt w
ensure e false w = fail e w

-- The 4096 bytes at the end of the image.
unfoldable pub read_sig_block : List ℕ → Code World (List ℕ)
read_sig_block image w =
    let offset = length image - block_size in
    if ltb (length image) block_size
    then fail (too_small (length image)) w
    else if not (byte_at image offset == 0xE7) || not (byte_at image (offset + 1) == 0x02)
    then fail (no_block (byte_at image offset) (byte_at image (offset + 1))) w
    else done (drop offset image) w

module _ (host : Host) where
  -- What `verify` asks of a block that is read, for a content and a key.
  unfoldable pub check_block : host.SigningKey → List ℕ → SigBlock → Code World (Unit {0})
  unfolding ensure or_fail compute_digest
  check_block key content block = do
    let digest = compute_digest host content
    ensure (digest_mismatch (host.hex digest) (host.hex block.image_digest))
        (bytes_eq digest block.image_digest)
    encoded ← or_fail bad_public_key (host.from_bytes (0x04 ∷ block.pub_key))
    block_vk ← or_fail bad_public_key (host.from_encoded_point encoded)
    ensure key_mismatch (host.same_key block_vk (host.verifying_key key))
    sig ← or_fail bad_signature (host.from_slice block.signature)
    ensure verification_failed (host.verify (host.verifying_key key) content sig)
    print signature_ok
    print (image_digest (host.hex digest))

  unfoldable pub verify : String → String → Code World (Unit {0})
  unfolding load_signing_key read read_sig_block or_fail check_block
  verify key_path in_path = do
    key ← load_signing_key host key_path
    image ← read in_path
    block_raw ← read_sig_block image
    block ← or_fail invalid_block (from_bytes host.hash block_raw)
    check_block key (take (length image - block_size) image) block
