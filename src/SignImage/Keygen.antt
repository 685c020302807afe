-- ===== src/SignImage/Keygen.antt =====
-- tools/sign_image/src/keygen.rs: a new key, with its public half as Rust constants, and the key
-- that the other commands load. A path in the constants' comment is ASCII text.
use esp32c3_bootloader_rust.Common.{
  ℕ, ◌+◌, ◌-◌, ◌/◌, ◌%◌, List, [], ◌∷◌, ◌++◌, Option, none, some, if◌then◌else◌, ltb, take, drop,
}
use esp32c3_bootloader_rust.Common.Exit.{Code, ◌>>=◌, ◌>>◌, give}
use esp32c3_bootloader_rust.SignImage.{
  Host, World, key_encoding, key_decoding, key_written, rust_written, fingerprint, or_fail, print,
  read_to_string, write,
}
use Prim.Native.Char.{code}
use Prim.Native.String.{String}

-- The bytes of an ASCII text.
unfoldable pub codes : String → List ℕ
codes String.[] = []
codes (String.◌∷◌ c s) = code c ∷ codes s

unfoldable pub hex_digit : ℕ → ℕ
hex_digit d = if ltb d 10 then b'0' + d else b'a' + (d - 10)

-- `format!("0x{:02x}", b)`
unfoldable pub hex_byte : ℕ → List ℕ
unfolding hex_digit
hex_byte b = b'0' ∷ b'x' ∷ hex_digit (b / 16) ∷ hex_digit (b % 16) ∷ []

-- `join(", ")` of the bytes behind the first one.
unfoldable pub joined_bytes : List ℕ → List ℕ
unfolding hex_byte
joined_bytes [] = []
joined_bytes (b ∷ bs) = b',' ∷ b' ' ∷ (hex_byte b ++ joined_bytes bs)

unfoldable pub fmt_byte_array : List ℕ → List ℕ
unfolding hex_byte joined_bytes
fmt_byte_array [] = b'[' ∷ b']' ∷ []
fmt_byte_array (b ∷ bs) = b'[' ∷ (hex_byte b ++ (joined_bytes bs ++ b']' ∷ []))

-- The content of the file of constants.
unfoldable pub rust_constants : String → String → List ℕ → List ℕ → List ℕ → List ℕ
unfolding codes fmt_byte_array
rust_constants out_path rust_path fp x y =
    codes "// Generated by: sign-image keygen --out "
    ++ (codes out_path
        ++ (codes " --out-rust "
            ++ (codes rust_path
                ++ (10 ∷ codes "// Fingerprint (SHA-256 of uncompressed point): "
                    ++ (fp
                        ++ (10 ∷ codes "pub const PUB_KEY_X: [u8; 32] = "
                            ++ (fmt_byte_array x
                                ++ (b';' ∷ 10 ∷ codes "pub const PUB_KEY_Y: [u8; 32] = "
                                    ++ (fmt_byte_array y ++ b';' ∷ 10 ∷ [])))))))))

module _ (host : Host) where
  unfoldable pub pubkey_fingerprint : host.VerifyingKey → List ℕ
  pubkey_fingerprint vk = host.hex (host.sha256 (host.to_encoded_point vk))

  unfoldable pub load_signing_key : String → Code World host.SigningKey
  unfolding read_to_string or_fail
  load_signing_key pem_path = do
    pem ← read_to_string pem_path
    or_fail key_decoding (host.from_pkcs8_pem pem)

  -- The constants, where a path for them is given.
  unfoldable pub write_constants : String → Option String → Code World (Unit {0})
  unfolding write rust_constants pubkey_fingerprint
  write_constants out_path none = give tt
  write_constants out_path (some rust_path) = do
    let vk = host.verifying_key host.random
    let coords = host.to_encoded_point vk
    let x = take 32 (drop 1 coords)
    let y = take 32 (drop 33 coords)
    write host rust_path (rust_constants out_path rust_path (pubkey_fingerprint vk) x y)
    print (rust_written rust_path)

  unfoldable pub generate : String → Option String → Code World (Unit {0})
  unfolding or_fail write pubkey_fingerprint write_constants
  generate out_path out_rust = do
    pem ← or_fail key_encoding (host.to_pkcs8_pem host.random)
    write host out_path pem
    print (key_written out_path)
    print (fingerprint (pubkey_fingerprint (host.verifying_key host.random)))
    write_constants out_path out_rust
