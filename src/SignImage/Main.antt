-- ===== src/SignImage/Main.antt =====
-- tools/sign_image/src/main.rs: the commands of the signing tool. The crate `clap` parses them.
use esp32c3_bootloader_rust.Common.{ℕ, Option}
use esp32c3_bootloader_rust.Common.Exit.{done, exit, Code}
use esp32c3_bootloader_rust.SignImage.{Host, World}
use esp32c3_bootloader_rust.SignImage.Keygen.{generate}
use esp32c3_bootloader_rust.SignImage.Sign
use esp32c3_bootloader_rust.SignImage.Verify
use Prim.Native.String.{String}

pub data Cmd : Type 0 where
  keygen : String → Option String → Cmd
  -- the key, the input and the output
  sign : String → String → String → Cmd
  verify : String → String → Cmd

module _ (host : Host) where
  unfoldable pub dispatch : Cmd → Code World (Unit {0})
  unfolding generate Sign.sign Verify.verify
  dispatch (Cmd.keygen out out_rust) = generate host out out_rust
  dispatch (Cmd.sign key input out) = Sign.sign host key input out
  dispatch (Cmd.verify key input) = Verify.verify host key input

  -- The exit status, with the world behind the command; its error is printed.
  unfoldable pub main : Cmd → World → ℕ × World
  unfolding dispatch
  main cmd w = elim (dispatch cmd w) [ done _ v ↦ (0, v) | exit v ↦ (1, v) ]
