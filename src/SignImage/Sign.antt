-- ===== src/SignImage/Sign.antt =====
-- tools/sign_image/src/sign.rs: an image is signed by a block that is put behind its content.
use esp32c3_bootloader_rust.Common.{ℕ, List, ◌++◌, take, drop, length}
use esp32c3_bootloader_rust.Common.Exit.{Code, ◌>>=◌, ◌>>◌}
use esp32c3_bootloader_rust.SigBlock.{SigBlock, to_bytes, image_content_len}
use esp32c3_bootloader_rust.SignImage.{Host, World, signed_image, image_digest, read, write, print}
use esp32c3_bootloader_rust.SignImage.Keygen.{load_signing_key}
use Prim.Native.String.{String}

module _ (host : Host) where
  unfoldable pub compute_digest : List ℕ → List ℕ
  compute_digest bytes = host.sha256 bytes

  -- The block for a content.
  unfoldable pub block_for : host.SigningKey → List ℕ → SigBlock
  unfolding compute_digest
  block_for key content =
      let sig = host.sign key content in
      record {
        image_digest = compute_digest content;
        signature = host.r sig ++ host.s sig;
        pub_key = drop 1 (host.to_encoded_point (host.verifying_key key));
      }

  unfoldable pub sign : String → String → String → Code World (Unit {0})
  unfolding load_signing_key read block_for write compute_digest
  sign key_path in_path out_path = do
    key ← load_signing_key host key_path
    image ← read in_path
    let content_len = image_content_len image
    let content = take content_len image
    let out = content ++ to_bytes host.hash (block_for key content)
    write host out_path out
    print (signed_image out_path content_len (length out))
    print (image_digest (host.hex (compute_digest content)))
