-- ===== src/SignImage.antt =====
-- tools/sign_image/src: the tool that makes signing keys and signs and verifies images. This file
-- has what its commands share: the third-party crates, the files, the errors and the command line.
pub mod Keygen
pub mod Sign
pub mod Verify
pub mod Main
pub mod Laws
pub mod Roundtrip
pub mod Accepted
pub mod Files
mod Tests
use esp32c3_bootloader_rust.Common.{
  ℕ, zero, suc, List, [], ◌∷◌, Bool, true, false, ◌&&◌, Option, none, some, if◌then◌else◌, leb, ltb,
  ◌==◌,
}
use esp32c3_bootloader_rust.Common.Exit.{done, exit, Code}
use Prim.Native.String.{String}
use text.Mathlib.Text.{◌==◌ as same_path}

-- What the crates `p256`, `sha2`, `crc32fast`, `hex` and `rand_core` and the operating system give.
pub record Host : Type 1 where
  pub SigningKey : Type 0
  pub VerifyingKey : Type 0
  pub EncodedPoint : Type 0
  pub Signature : Type 0
  -- the key that `SigningKey::random` draws in this run
  pub random : SigningKey
  pub to_pkcs8_pem : SigningKey → Option (List ℕ)
  pub from_pkcs8_pem : List ℕ → Option SigningKey
  pub verifying_key : SigningKey → VerifyingKey
  -- `to_encoded_point(false)`: the 65 bytes of the uncompressed point
  pub to_encoded_point : VerifyingKey → List ℕ
  pub from_bytes : List ℕ → Option EncodedPoint
  pub from_encoded_point : EncodedPoint → Option VerifyingKey
  pub same_key : VerifyingKey → VerifyingKey → Bool
  pub sign : SigningKey → List ℕ → Signature
  pub r : Signature → List ℕ
  pub s : Signature → List ℕ
  pub from_slice : List ℕ → Option Signature
  pub verify : VerifyingKey → List ℕ → Signature → Bool
  -- `Sha256::new`, `update` and `finalize`
  pub sha256 : List ℕ → List ℕ
  -- `crc32fast::hash`
  pub hash : List ℕ → ℕ
  -- `hex::encode`
  pub hex : List ℕ → List ℕ
  -- the paths that can be written
  pub writable : String → Bool

-- The errors that a command ends with.
pub data SignError : Type 0 where
  io key_encoding key_decoding invalid_block bad_public_key key_mismatch bad_signature : SignError
  verification_failed : SignError
  -- computed, and in the block
  digest_mismatch : List ℕ → List ℕ → SignError
  too_small : ℕ → SignError
  no_block : ℕ → ℕ → SignError

-- A line that a command prints.
pub data Line : Type 0 where
  key_written rust_written : String → Line
  fingerprint image_digest : List ℕ → Line
  signed_image : String → ℕ → ℕ → Line
  signature_ok : Line

-- The files, the lines printed (latest first), and the error that the command has ended with.
pub record World : Type 0 where
  pub files : String → Option (List ℕ)
  pub lines : List Line
  pub error : Option SignError

-- `bail!`, and `?` on an error
abbrev pub fail : {A : Type 0} → SignError → Code World A
fail e w = exit (record w { error = some e })

unfoldable pub or_fail : {A : Type 0} → SignError → Option A → Code World A
or_fail e none = fail e
or_fail e (some a) = λ w. done a w

-- `println!`
abbrev pub print : Line → Code World (Unit {0})
print line w = done tt (record w { lines = line ∷ w.lines })

-- `std::fs::read`
unfoldable pub read : String → Code World (List ℕ)
unfolding or_fail
read path w = or_fail io (w.files path) w

-- What the first byte of a character asks for: whether it can stand there, how many bytes follow,
-- and between which bounds the next one lies.
unfoldable pub utf8_lead : ℕ → Bool × ℕ × ℕ × ℕ
utf8_lead b =
    if ltb b 0x80
    then (true, 0, 0x80, 0xBF)
    else if leb 0xC2 b && leb b 0xDF
    then (true, 1, 0x80, 0xBF)
    else if b == 0xE0
    then (true, 2, 0xA0, 0xBF)
    else if b == 0xED
    then (true, 2, 0x80, 0x9F)
    else if leb 0xE1 b && leb b 0xEF
    then (true, 2, 0x80, 0xBF)
    else if b == 0xF0
    then (true, 3, 0x90, 0xBF)
    else if leb 0xF1 b && leb b 0xF3
    then (true, 3, 0x80, 0xBF)
    else if b == 0xF4
    then (true, 3, 0x80, 0x8F)
    else (false, 0, 0, 0)

-- Whether bytes are UTF-8, where `n` bytes of a character are still to come.
unfoldable pub is_utf8 : ℕ → ℕ → ℕ → List ℕ → Bool
unfolding utf8_lead
is_utf8 zero lo hi [] = true
is_utf8 (suc n) lo hi [] = false
is_utf8 zero lo hi (b ∷ bs) =
    let (ok, n, lo', hi') = utf8_lead b in let rest = is_utf8 n lo' hi' bs in ok && rest
is_utf8 (suc n) lo hi (b ∷ bs) = let rest = is_utf8 n 0x80 0xBF bs in leb lo b && leb b hi && rest

-- `std::fs::read_to_string`
unfoldable pub read_to_string : String → Code World (List ℕ)
unfolding is_utf8
read_to_string path w = elim (w.files path) [
  | none ↦ fail io w
  | some bytes ↦ if is_utf8 0 0 0 bytes then done bytes w else fail io w
]

module _ (host : Host) where
  -- `std::fs::write`
  unfoldable pub write : String → List ℕ → Code World (Unit {0})
  write path bytes w =
      if host.writable path
      then done tt (record w { files = λ p. if same_path p path then some bytes else w.files p })
      else fail io w
