-- ===== src/SignImage/Tests.antt =====
-- The signing tool with a toy signature scheme: a key is a number, and its signatures repeat it.
use esp32c3_bootloader_rust.Common.{
  ℕ, ◌%◌, ◌^◌, ◌≡◌, ◌↔◌, refl, arith, List, [], ◌∷◌, true, Option, none, some, if◌then◌else◌, ◌==◌,
  replicate, length, get_or,
}
use esp32c3_bootloader_rust.Crc.{crc32_bytes}
use esp32c3_bootloader_rust.SignImage.{Host, World, is_utf8}
use esp32c3_bootloader_rust.SignImage.Keygen.{fmt_byte_array, codes}
use esp32c3_bootloader_rust.SignImage.Main.{Cmd, main}
use esp32c3_bootloader_rust.SignImage.Roundtrip.{HasKey, signed_file}
use esp32c3_bootloader_rust.SignImage.Accepted.{IsSigned, verify-IsSigned_iff}
use esp32c3_bootloader_rust.SignImage.Files.{main-IsOutput, IsOutput}
use text.Mathlib.Text.{◌==◌ as same_path}
use text.Mathlib.TextEquality.{eq_iff}

abbrev first_of : List ℕ → Option ℕ
first_of [] = none
first_of (b ∷ bs) = some b

abbrev toy : Host
toy = record {
  SigningKey = ℕ;
  VerifyingKey = ℕ;
  EncodedPoint = ℕ;
  Signature = ℕ;
  random = 66;
  to_pkcs8_pem = λ key. some (key ∷ []);
  from_pkcs8_pem = first_of;
  verifying_key = λ key. key;
  to_encoded_point = λ vk. 0x04 ∷ replicate 64 vk;
  from_bytes = λ bytes. some (get_or bytes 1 0);
  from_encoded_point = λ point. some point;
  same_key = λ a b. a == b;
  sign = λ key content. key;
  r = λ sig. replicate 32 sig;
  s = λ sig. replicate 32 sig;
  from_slice = λ bytes. some (get_or bytes 0 0);
  verify = λ vk content sig. vk == sig;
  sha256 = λ bytes. replicate 32 (length bytes);
  hash = λ bytes. crc32_bytes bytes % 2 ^ 32;
  hex = λ bytes. bytes;
  writable = λ path. true;
}

-- A directory with a key and an image.
abbrev directory : List ℕ → World
directory image = record {
  files = λ p.
      if same_path p "key.pem"
      then some (65 ∷ [])
      else if same_path p "app.bin"
      then some image
      else none;
  lines = [];
  error = none;
}

directory-HasKey : (image : List ℕ) → HasKey toy (directory image) "key.pem" 65
unfolding is_utf8
directory-HasKey image = record { pem = 65 ∷ []; readable = refl; text = refl; decoded = refl }

abbrev image : List ℕ
image = 1 ∷ 2 ∷ 3 ∷ []

two_bytes : fmt_byte_array (0x0A ∷ 0xFF ∷ []) ≡ codes "[0x0a, 0xff]"
unfolding codes fmt_byte_array
two_bytes = refl

verify-IsSigned_iff_example :
    ((main toy (Cmd.verify "key.pem" "app.bin") (directory (signed_file toy 65 image))).0 ≡ 0)
    ↔ IsSigned toy 65 (signed_file toy 65 image)
verify-IsSigned_iff_example =
    verify-IsSigned_iff toy (directory (signed_file toy 65 image)) "key.pem" "app.bin" 65
      (signed_file toy 65 image) (directory-HasKey (signed_file toy 65 image)) refl

main-IsOutput_example :
    (main toy (Cmd.sign "key.pem" "app.bin" "out.bin") (directory image)).1.files "key.pem"
    ≡ (directory image).files "key.pem"
unfolding IsOutput
main-IsOutput_example =
    main-IsOutput toy (Cmd.sign "key.pem" "app.bin" "out.bin") (directory image) "key.pem"
      (ground (arith, eq_iff "key.pem" "out.bin"))
