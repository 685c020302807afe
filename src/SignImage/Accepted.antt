-- ===== src/SignImage/Accepted.antt =====
-- Which images `verify` accepts: the two directions of its checks, from the file to the exit status.
use esp32c3_bootloader_rust.Common.{
  ℕ, ◌+◌, ◌-◌, ◌≤◌, ◌≡◌, ◌↔◌, arith, List, not, ◌||◌, Bool-cases, inl, inr, some, ltb, ◌==◌, take,
  drop, length, byte_at, get_or-drop,
}
use esp32c3_bootloader_rust.Common.Exit.{Outcome, Code, done, exit, and_then, Ends, Ends-mono, Left}
use esp32c3_bootloader_rust.SigBlock.{SigBlock, from_bytes}
use esp32c3_bootloader_rust.SignImage.{Host, World, invalid_block, read, or_fail}
use esp32c3_bootloader_rust.SignImage.Verify
use esp32c3_bootloader_rust.SignImage.Verify.{read_sig_block, check_block}
use esp32c3_bootloader_rust.SignImage.Main.{Cmd, main, dispatch}
use esp32c3_bootloader_rust.SignImage.Laws.{
  Accepts, or_fail-Ends, check_block-Succeeds, check_block-Accepts,
}
use esp32c3_bootloader_rust.SignImage.Roundtrip.{HasKey, main_verify_of, load_signing_key_lem}
use Prim.Native.String.{String}

-- A block that is read has the two marks.
from_bytes-marks :
    (hash : List ℕ → ℕ) (raw : List ℕ) (b : SigBlock)
    → from_bytes hash raw ≡ some b
    → (byte_at raw 0 ≡ 0xE7) × (byte_at raw 1 ≡ 0x02)
unfolding from_bytes
from_bytes-marks hash raw b e = ground (arith, e)

module _ (host : Host) where
  -- The image ends with a block that belongs to what stands before it and to the key.
  pub record IsSigned (key : host.SigningKey) (image : List ℕ) : Type 0 where
    pub block : SigBlock
    pub long : 4096 ≤ length image
    pub read_back : from_bytes host.hash (drop (length image - 4096) image) ≡ some block
    pub accepted : Accepts host key (take (length image - 4096) image) block

  read_sig_block-Ends :
      (R : Unit {0} → World → Type 0) (image : List ℕ) (k : List ℕ → Code World (Unit {0}))
      (w : World)
      → (4096 ≤ length image → Ends R Left (k (drop (length image - 4096) image) w))
      → Ends R Left (and_then (read_sig_block image w) k)
  unfolding read_sig_block
  read_sig_block-Ends R image k w next = elim (Bool-cases (ltb (length image) 4096)) [
    | inl short ↦ rw (short, Ends) tt
    | inr long ↦
        rw (long)
          (elim (Bool-cases (
            not (byte_at image (length image - 4096) == 0xE7)
            || not (byte_at image (length image - 4096 + 1) == 0x02))) [
              | inl other ↦ rw (other, Ends) tt
              | inr block ↦ rw (block, Ends) (next (ground arith))
            ])
  ]

  verify-IsSigned :
      (w : World) (key_path in_path : String) (key : host.SigningKey) (image : List ℕ)
      → HasKey host w key_path key
      → w.files in_path ≡ some image
      → Ends
          (λ (_ : Unit {0}) (v : World). IsSigned key image)
          Left
          (Verify.verify host key_path in_path w)
  unfolding Verify.verify read
  verify-IsSigned w key_path in_path key image k i =
      rw (load_signing_key_lem host w key_path key k, i)
        (read_sig_block-Ends _ image _ w λ long.
          or_fail-Ends _ invalid_block (from_bytes host.hash (drop (length image - 4096) image)) _ w
            λ block read_back.
              Ends-mono _ (λ _ _. IsSigned key image) Left Left _
                (check_block-Accepts host key _ block w)
                (λ _ v accepted. record {
                  block = block;
                  long = long;
                  read_back = read_back;
                  accepted = accepted;
                })
                λ v l. l)

  -- Where a block is read back, `read_sig_block` finds it.
  read_sig_block_lem :
      (image : List ℕ) (b : SigBlock) (w : World)
      → 4096 ≤ length image
      → from_bytes host.hash (drop (length image - 4096) image) ≡ some b
      → read_sig_block image w ≡ done (drop (length image - 4096) image) w
  unfolding read_sig_block
  read_sig_block_lem image b w long e =
      let marks = from_bytes-marks host.hash _ b e in
      ground (
        arith,
        get_or-drop {0} (length image - 4096) 0 image 0,
        get_or-drop {0} (length image - 4096) 1 image 0,
        marks.0,
        marks.1,
      )

  -- A signed image passes.
  IsSigned-verify :
      (w : World) (key_path in_path : String) (key : host.SigningKey) (image : List ℕ)
      → HasKey host w key_path key
      → w.files in_path ≡ some image
      → IsSigned key image
      → Ends
          (λ (_ : Unit {0}) (v : World). v.files ≡ w.files)
          (λ v. ⊥)
          (Verify.verify host key_path in_path w)
  unfolding Verify.verify read or_fail
  IsSigned-verify w key_path in_path key image k i s =
      rw
        (
          load_signing_key_lem host w key_path key k,
          i,
          read_sig_block_lem image s.block w s.long s.read_back,
          s.read_back,
        )
        (check_block-Succeeds host key _ s.block w s.accepted)

-- The exit status is 0 exactly after a normal end.
main_zero :
    (host : Host) (cmd : Cmd) (w : World) (P : Type 0)
    → Ends (λ (_ : Unit {0}) (v : World). P) Left (dispatch host cmd w)
    → (main host cmd w).0 ≡ 0
    → P
unfolding main
main_zero host cmd w P e z = of (dispatch host cmd w) e z
  where
    of :
        (o : Outcome World (Unit {0}))
        → Ends (λ (_ : Unit {0}) (v : World). P) Left o
        → (elim o as (λ _. ℕ × World) [ done _ v ↦ (0, v) | exit v ↦ (1, v) ]).0 ≡ 0
        → P
    of (done _ v) e z = e
    of (exit v) e z = absurd (omega arith)

-- With a readable key and a readable image, `verify` exits with 0 exactly for the images that end
-- with a signature block whose digest is that of the bytes before it, whose public key decodes to
-- the one of the given key, and whose signature of those bytes the public key verifies.
pub verify-IsSigned_iff :
    (host : Host) (w : World) (key_path in_path : String) (key : host.SigningKey) (image : List ℕ)
    → HasKey host w key_path key
    → w.files in_path ≡ some image
    → ((main host (Cmd.verify key_path in_path) w).0 ≡ 0) ↔ IsSigned host key image
unfolding dispatch
verify-IsSigned_iff host w key_path in_path key image k i = (
  main_zero host (Cmd.verify key_path in_path) w (IsSigned host key image)
      (verify-IsSigned host w key_path in_path key image k i),
  λ s.
      (main_verify_of host (Cmd.verify key_path in_path) w
        (IsSigned-verify host w key_path in_path key image k i s)).0,
)
