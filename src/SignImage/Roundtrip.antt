-- ===== src/SignImage/Roundtrip.antt =====
-- An image that the tool signs is an image that it verifies.
use esp32c3_bootloader_rust.Common.{
  ℕ, ◌≤◌, ◌≡◌, refl, arith, List, ◌∷◌, ◌++◌, true, some, if◌then◌else◌, take, length,
}
use esp32c3_bootloader_rust.Common.Exit.{Outcome, done, exit, Ends}
use esp32c3_bootloader_rust.SigBlock.{SigBlock, to_bytes, image_content_len}
use esp32c3_bootloader_rust.SignImage.{
  Host, World, signed_image, image_digest, is_utf8, read_to_string, or_fail,
}
use esp32c3_bootloader_rust.SignImage.Keygen.{load_signing_key}
use esp32c3_bootloader_rust.SignImage.Sign
use esp32c3_bootloader_rust.SignImage.Sign.{block_for}
use esp32c3_bootloader_rust.SignImage.Verify
use esp32c3_bootloader_rust.SignImage.Main.{Cmd, main, dispatch}
use Prim.Native.String.{String}
use text.Mathlib.Text.{◌==◌ as same_path}

-- The length of the content is that of the image, or 4096 less.
pub image_content_len_le : (image : List ℕ) → image_content_len image ≤ length image
unfolding image_content_len
image_content_len_le image = ground arith

module _ (host : Host) where
  -- The content of an image, and the image that is written for it.
  abbrev pub content_of : List ℕ → List ℕ
  content_of image = take (image_content_len image) image

  abbrev pub signed_file : host.SigningKey → List ℕ → List ℕ
  signed_file key image =
      content_of image ++ to_bytes host.hash (block_for host key (content_of image))

  -- The key is at the path.
  pub record HasKey (w : World) (path : String) (key : host.SigningKey) : Type 0 where
    pub pem : List ℕ
    pub readable : w.files path ≡ some pem
    pub text : is_utf8 0 0 0 pem ≡ true
    pub decoded : host.from_pkcs8_pem pem ≡ some key

  pub load_signing_key_lem :
      (w : World) (path : String) (key : host.SigningKey)
      → HasKey w path key
      → load_signing_key host path w ≡ done key w
  unfolding load_signing_key read_to_string or_fail
  load_signing_key_lem w path key k = ground (arith, k.readable, k.text, k.decoded)

  -- The world behind `sign`.
  abbrev signed : World → String → host.SigningKey → List ℕ → World
  signed w out_path key image = record w {
    files = λ p. if same_path p out_path then some (signed_file key image) else w.files p;
    lines =
        image_digest (host.hex (host.sha256 (content_of image)))
        ∷ signed_image out_path (image_content_len image) (length (signed_file key image))
        ∷ w.lines;
  }

-- A normal end is exit status 0.
pub main_verify_of :
    (host : Host) (cmd : Cmd) (w : World)
    → Ends (λ (_ : Unit {0}) (v : World). v.files ≡ w.files) (λ v. ⊥) (dispatch host cmd w)
    → ((main host cmd w).0 ≡ 0) × ((main host cmd w).1.files ≡ w.files)
unfolding main
main_verify_of host cmd w e = of (dispatch host cmd w) e
  where
    of :
        (o : Outcome World (Unit {0}))
        → Ends (λ (_ : Unit {0}) (v : World). v.files ≡ w.files) (λ v. ⊥) o
        → let r = elim o as (λ _. ℕ × World) [ done _ v ↦ (0, v) | exit v ↦ (1, v) ] in
          (r.0 ≡ 0) × (r.1.files ≡ w.files)
    of (done _ v) e = (refl, e)
    of (exit v) e = absurd e
