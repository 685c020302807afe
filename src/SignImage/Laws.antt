-- ===== src/SignImage/Laws.antt =====
-- What the crates promise, as far as the signing tool relies on it, and what `verify` accepts.
use esp32c3_bootloader_rust.Common.{
  ℕ, ◌^◌, ◌<◌, ◌≡◌, refl, arith, List, [], ◌∷◌, ◌++◌, Bool, true, false, Option, none, some, drop,
  length, length-append, length-drop,
}
use esp32c3_bootloader_rust.Common.Exit.{Outcome, Code, and_then, Ends, Left}
use esp32c3_bootloader_rust.Image.Segments.{bytes_eq}
use esp32c3_bootloader_rust.SigBlock.{SigBlock, IsSigBlock}
use esp32c3_bootloader_rust.SignImage.{Host, World, SignError, or_fail}
use esp32c3_bootloader_rust.SignImage.Sign.{compute_digest, block_for}
use esp32c3_bootloader_rust.SignImage.Verify.{ensure, check_block}

pub record IsLawful (host : Host) : Type 0 where
  -- a checksum has 32 bits, and the arrays have their sizes
  pub small : (bytes : List ℕ) → host.hash bytes < 2 ^ 32
  pub digest_size : (bytes : List ℕ) → length (host.sha256 bytes) ≡ 32
  pub r_size : (sig : host.Signature) → length (host.r sig) ≡ 32
  pub s_size : (sig : host.Signature) → length (host.s sig) ≡ 32
  pub point_size : (vk : host.VerifyingKey) → length (host.to_encoded_point vk) ≡ 65
  pub point_prefix :
      (vk : host.VerifyingKey) → 0x04 ∷ drop 1 (host.to_encoded_point vk) ≡ host.to_encoded_point vk
  -- encoded keys and signatures are read back
  pub point_of :
      (vk : host.VerifyingKey)
      → (p : host.EncodedPoint) × (host.from_bytes (host.to_encoded_point vk) ≡ some p)
        × (host.from_encoded_point p ≡ some vk)
  pub slice_of : (sig : host.Signature) → host.from_slice (host.r sig ++ host.s sig) ≡ some sig
  pub same_key_refl : (vk : host.VerifyingKey) → host.same_key vk vk ≡ true
  -- a signature verifies
  pub sign_verifies :
      (key : host.SigningKey) (content : List ℕ)
      → host.verify (host.verifying_key key) content (host.sign key content) ≡ true

-- A command goes on behind a guard only if the guard holds.
pub ensure-Ends :
    {A : Type 0} (R : A → World → Type 0) (e : SignError) (b : Bool) (k : Unit {0} → Code World A)
    (w : World)
    → (b ≡ true → Ends R Left (k tt w))
    → Ends R Left (and_then (ensure e b w) k)
unfolding ensure
ensure-Ends R e true k w next = next refl
ensure-Ends R e false k w next = tt

pub or_fail-Ends :
    {A B : Type 0} (R : B → World → Type 0) (e : SignError) (o : Option A) (k : A → Code World B)
    (w : World)
    → ((a : A) → o ≡ some a → Ends R Left (k a w))
    → Ends R Left (and_then (or_fail e o w) k)
unfolding or_fail
or_fail-Ends R e none k w next = tt
or_fail-Ends R e (some a) k w next = next a refl

pub bytes_eq_refl : (xs : List ℕ) → bytes_eq xs xs ≡ true
unfolding bytes_eq
bytes_eq_refl [] = refl
bytes_eq_refl (x ∷ xs) = ground (arith, bytes_eq_refl xs)

module _ (host : Host) where
  -- A block that belongs to a content and a key.
  pub record Accepts (key : host.SigningKey) (content : List ℕ) (block : SigBlock) : Type 0 where
    pub point : host.EncodedPoint
    pub block_key : host.VerifyingKey
    pub sig : host.Signature
    pub digest : bytes_eq (host.sha256 content) block.image_digest ≡ true
    pub decoded : host.from_bytes (0x04 ∷ block.pub_key) ≡ some point
    pub parsed : host.from_encoded_point point ≡ some block_key
    pub same : host.same_key block_key (host.verifying_key key) ≡ true
    pub sliced : host.from_slice block.signature ≡ some sig
    pub verified : host.verify (host.verifying_key key) content sig ≡ true

  -- The result of a command that may fail, without its files.
  abbrev pub Succeeds : Outcome World (Unit {0}) → Type 0
  Succeeds o = Ends (λ (_ : Unit {0}) (v : World). Unit {0}) (λ v. ⊥) o

  pub check_block-Succeeds :
      (key : host.SigningKey) (content : List ℕ) (block : SigBlock) (w : World)
      → Accepts key content block
      → Ends
          (λ (_ : Unit {0}) (v : World). v.files ≡ w.files)
          (λ v. ⊥)
          (check_block host key content block w)
  unfolding check_block ensure or_fail compute_digest
  check_block-Succeeds key content block w a =
      rw (a.digest, a.decoded, a.parsed, a.same, a.sliced, a.verified, Ends) refl

  pub check_block-Accepts :
      (key : host.SigningKey) (content : List ℕ) (block : SigBlock) (w : World)
      → Ends
          (λ (_ : Unit {0}) (v : World). Accepts key content block)
          Left
          (check_block host key content block w)
  unfolding check_block compute_digest
  check_block-Accepts key content block w =
      ensure-Ends _ _ (bytes_eq (host.sha256 content) block.image_digest) _ w λ digest.
        or_fail-Ends _ _ (host.from_bytes (0x04 ∷ block.pub_key)) _ w λ point decoded.
          or_fail-Ends _ _ (host.from_encoded_point point) _ w λ block_key parsed.
            ensure-Ends _ _ (host.same_key block_key (host.verifying_key key)) _ w λ same.
              or_fail-Ends _ _ (host.from_slice block.signature) _ w λ sig sliced.
                ensure-Ends _ _ (host.verify (host.verifying_key key) content sig) _ w λ verified.
                  record {
                    point = point;
                    block_key = block_key;
                    sig = sig;
                    digest = digest;
                    decoded = decoded;
                    parsed = parsed;
                    same = same;
                    sliced = sliced;
                    verified = verified;
                  }

  -- The block that `sign` makes is accepted.
  pub block_for-Accepts :
      IsLawful host
      → (key : host.SigningKey) (content : List ℕ)
      → Accepts key content (block_for host key content)
  unfolding block_for compute_digest
  block_for-Accepts l key content =
      let point = l.point_of (host.verifying_key key) in
      record {
        point = point.0;
        block_key = host.verifying_key key;
        sig = host.sign key content;
        digest = bytes_eq_refl (host.sha256 content);
        decoded = rw (l.point_prefix) point.1;
        parsed = point.2;
        same = l.same_key_refl (host.verifying_key key);
        sliced = l.slice_of (host.sign key content);
        verified = l.sign_verifies key content;
      }

  pub block_for-IsSigBlock :
      IsLawful host
      → (key : host.SigningKey) (content : List ℕ) → IsSigBlock (block_for host key content)
  unfolding block_for compute_digest
  block_for-IsSigBlock l key content = record {
    digest_size = l.digest_size content;
    signature_size = omega (
      arith,
      l.r_size (host.sign key content),
      l.s_size (host.sign key content),
      length-append {0} (host.r (host.sign key content)) (host.s (host.sign key content)),
    );
    key_size = omega (
      arith,
      l.point_size (host.verifying_key key),
      length-drop {0} {A = ℕ} 1 (host.to_encoded_point (host.verifying_key key)),
    );
  }
