-- ===== src/SignImage/Files.antt =====
-- Which files the commands of the signing tool may change.
use esp32c3_bootloader_rust.Common.{
  ℕ, ◌≡◌, ◌≢◌, refl, sym, ◌∙◌, arith, List, ◌∷◌, Bool, true, false, inl, inr, Option, none, some,
  ◌⊎◌,
}
use esp32c3_bootloader_rust.Common.Exit.{Outcome, Code, done, exit, and_then, Ends, Ends-and_then}
use esp32c3_bootloader_rust.Image.Segments.{bytes_eq}
use esp32c3_bootloader_rust.SignImage.Sign.{compute_digest}
use esp32c3_bootloader_rust.SigBlock.{SigBlock, from_bytes}
use esp32c3_bootloader_rust.SignImage.{Host, World, SignError, read, or_fail, write, read_to_string}
use esp32c3_bootloader_rust.SignImage.Keygen.{load_signing_key, generate, write_constants}
use esp32c3_bootloader_rust.SignImage.Sign
use esp32c3_bootloader_rust.SignImage.Verify
use esp32c3_bootloader_rust.SignImage.Verify.{ensure, read_sig_block, check_block}
use esp32c3_bootloader_rust.SignImage.Main.{Cmd, main, dispatch}
use Prim.Native.String.{String}
use text.Mathlib.TextEquality.{eq_iff}

-- The paths that a command is given to write to.
unfoldable pub IsOutput : Cmd → String → Type 0
IsOutput (Cmd.keygen out none) p = p ≡ out
IsOutput (Cmd.keygen out (some rust)) p = (p ≡ out) ⊎ (p ≡ rust)
IsOutput (Cmd.sign key input out) p = p ≡ out
IsOutput (Cmd.verify key input) p = ⊥

module _ (host : Host) (p : String) (c : Option (List ℕ)) where
  abbrev Has : World → Type 0
  Has w = w.files p ≡ c

  abbrev Holds : {A : Type 0} → Outcome World A → Type 0
  Holds {A} o = Ends (λ (_ : A). Has) Has o

  -- A guard stops with the files as they are, or the command goes on.
  or_fail-Has :
      {A B : Type 0} (e : SignError) (o : Option A) (k : A → Code World B) (w : World)
      → Has w
      → ((a : A) → Holds (k a w))
      → Holds (and_then (or_fail e o w) k)
  unfolding or_fail
  or_fail-Has e none k w h next = h
  or_fail-Has e (some a) k w h next = next a

  ensure-Has :
      {B : Type 0} (e : SignError) (b : Bool) (k : Unit {0} → Code World B) (w : World)
      → Has w
      → Holds (k tt w)
      → Holds (and_then (ensure e b w) k)
  unfolding ensure
  ensure-Has e true k w h next = next
  ensure-Has e false k w h next = h

  write-Has :
      (path : String) (bytes : List ℕ) (w : World)
      → p ≢ path
      → Has w
      → Holds (write host path bytes w)
  unfolding write
  write-Has path bytes w other h = ground (arith, eq_iff p path)

  load_signing_key-Has : (path : String) (w : World) → Has w → Holds (load_signing_key host path w)
  unfolding load_signing_key read_to_string or_fail
  load_signing_key-Has path w h = ground arith

  -- One step, and the steps behind it.
  then_Has :
      {A B : Type 0} (o : Outcome World A) (k : A → Code World B)
      → Holds o
      → ((a : A) (w : World) → Has w → Holds (k a w))
      → Holds (and_then o k)
  then_Has o k h next = Ends-and_then (λ _. Has) (λ _. Has) Has o k h next

  write_constants-Has :
      (out : String) (rust : Option String) (w : World)
      → ((path : String) → rust ≡ some path → p ≢ path)
      → Has w
      → Holds (write_constants host out rust w)
  unfolding write_constants
  write_constants-Has out none w other h = h
  write_constants-Has out (some path) w other h =
      then_Has (write host path _ w) _ (write-Has path _ w (other path refl) h) λ _ v hv. hv

  generate-Has :
      (out : String) (rust : Option String) (w : World)
      → p ≢ out
      → ((path : String) → rust ≡ some path → p ≢ path)
      → Has w
      → Holds (generate host out rust w)
  unfolding generate
  generate-Has out rust w other others h =
      or_fail-Has _ (host.to_pkcs8_pem host.random) _ w h λ pem.
        then_Has (write host out pem w) _ (write-Has out pem w other h)
          λ _ w2 h2. write_constants-Has out rust _ others h2

  sign-Has :
      (key_path in_path out : String) (w : World)
      → p ≢ out
      → Has w
      → Holds (Sign.sign host key_path in_path out w)
  unfolding Sign.sign read
  sign-Has key_path in_path out w other h =
      then_Has (load_signing_key host key_path w) _ (load_signing_key-Has key_path w h) λ key w1 h1.
        or_fail-Has _ (w1.files in_path) _ w1 h1
          λ image. then_Has (write host out _ w1) _ (write-Has out _ w1 other h1) λ _ w2 h2. h2

  check_block-Has :
      (key : host.SigningKey) (content : List ℕ) (block : SigBlock) (w : World)
      → Has w
      → Holds (check_block host key content block w)
  unfolding check_block compute_digest
  check_block-Has key content block w h =
      ensure-Has _ (bytes_eq (host.sha256 content) block.image_digest) _ w h (
        or_fail-Has _ (host.from_bytes (0x04 ∷ block.pub_key)) _ w h λ point.
          or_fail-Has _ (host.from_encoded_point point) _ w h λ vk.
            ensure-Has _ (host.same_key vk (host.verifying_key key)) _ w h (
              or_fail-Has _ (host.from_slice block.signature) _ w h
                λ sig. ensure-Has _ (host.verify (host.verifying_key key) content sig) _ w h h))

  read_sig_block-Has : (image : List ℕ) (w : World) → Has w → Holds (read_sig_block image w)
  unfolding read_sig_block
  read_sig_block-Has image w h = ground arith

  verify-Has :
      (key_path in_path : String) (w : World)
      → Has w
      → Holds (Verify.verify host key_path in_path w)
  unfolding Verify.verify read
  verify-Has key_path in_path w h =
      then_Has (load_signing_key host key_path w) _ (load_signing_key-Has key_path w h) λ key w1 h1.
        or_fail-Has _ (w1.files in_path) _ w1 h1 λ image.
          then_Has (read_sig_block image w1) _ (read_sig_block-Has image w1 h1) λ raw w2 h2.
            or_fail-Has _ (from_bytes host.hash raw) _ w2 h2
              λ block. check_block-Has key _ block w2 h2

  dispatch-Has : (cmd : Cmd) (w : World) → ¬ IsOutput cmd p → Has w → Holds (dispatch host cmd w)
  unfolding dispatch IsOutput
  dispatch-Has (Cmd.keygen out none) w other h =
      generate-Has out none w other (λ path e. absurd (cc e)) h
  dispatch-Has (Cmd.keygen out (some rust)) w other h =
      generate-Has out (some rust) w (λ e. other (inl e)) (λ path e f. other (inr (f ∙ cc (sym e))))
        h
  dispatch-Has (Cmd.sign key input out) w other h = sign-Has key input out w other h
  dispatch-Has (Cmd.verify key input) w other h = verify-Has key input w h

-- A command, whether it succeeds or fails, leaves every file alone that is not one of its outputs;
-- `verify` has none, so it changes no file at all.
pub main-IsOutput :
    (host : Host) (cmd : Cmd) (w : World) (p : String)
    → ¬ IsOutput cmd p
    → (main host cmd w).1.files p ≡ w.files p
unfolding main
main-IsOutput host cmd w p other =
    of (dispatch host cmd w) (dispatch-Has host p (w.files p) cmd w other refl)
  where
    of :
        (o : Outcome World (Unit {0}))
        → Holds host p (w.files p) o
        → (elim o as (λ _. ℕ × World) [ done _ v ↦ (0, v) | exit v ↦ (1, v) ]).1.files p ≡ w.files p
    of (done _ v) e = e
    of (exit v) e = e
