-- ===== src/Image/Process/Layout.antt =====
-- What an image is, as it lies in the flash: the segments behind its header, the checksum byte and
-- the appended hash. A description that keeps no state, for what `process_image` of src/image.rs
-- reads piece by piece.
use esp32c3_bootloader_rust.Common.{
  ℕ, zero, suc, ◌≡◌, ◌⊎◌, List, [], ◌∷◌, ◌++◌, true, Option, none, some, if◌then◌else◌, ◌==◌,
  byte_at, add32,
}
use esp32c3_bootloader_rust.Platform.{Platform}
use esp32c3_bootloader_rust.Sha256.Reference.{sha256}
use esp32c3_bootloader_rust.Flash.Stored.{stored}
use esp32c3_bootloader_rust.Image.{
  EspImageMetadata, parse_header, parse_segment, verify_image_header,
}
use esp32c3_bootloader_rust.Image.Segments.{xor_bytes}
use esp32c3_bootloader_rust.Image.Process.{checksum_addr_of}

-- All bytes of the segments, those of their data alone, and the address behind them.
pub record Body : Type 0 where
  pub bytes : List ℕ
  pub payload : List ℕ
  pub next : ℕ

module _ {Chip : Type 0} (env : Platform Chip) (chip : Chip) where
  -- The data of a segment, which may be empty.
  unfoldable pub data_at : ℕ → ℕ → Option (List ℕ)
  data_at addr data_len = if data_len == 0 then some [] else stored env chip addr data_len

  -- `n` segments that follow each other from an address.
  unfoldable pub segments_at : ℕ → ℕ → Option Body
  segments_at zero addr = some (record { bytes = []; payload = []; next = addr })
  segments_at (suc n) addr = elim (stored env chip addr 8) [
    | none ↦ none
    | some header ↦
        let data_len = (parse_segment header).data_len in
        let rest = segments_at n (add32 addr (add32 8 data_len)) in
        elim (data_at (add32 addr 8) data_len) [
          | none ↦ none
          | some bytes ↦ elim rest [
            | none ↦ none
            | some body ↦ some (record {
              bytes = header ++ (bytes ++ body.bytes);
              payload = bytes ++ body.payload;
              next = body.next;
            })
          ]
        ]
  ]

  -- The image at an address: its header is accepted, the checksum byte is that of the data of all
  -- segments, and the appended hash, if there is one, is that of the header, the segments and the
  -- checksum byte; it is also the digest that the metadata records.
  pub record IsIntact (offset : ℕ) (metadata : EspImageMetadata) : Type 0 where
    pub header : List ℕ
    pub body : Body
    pub check : List ℕ
    pub header_at : stored env chip offset 24 ≡ some header
    pub accepted : verify_image_header env (parse_header header) ≡ true
    pub parsed : metadata.image ≡ parse_header header
    pub body_at : segments_at (parse_header header).segment_count (add32 offset 24) ≡ some body
    pub check_at : stored env chip (checksum_addr_of env body.next) 1 ≡ some check
    pub checksum : byte_at check 0 ≡ xor_bytes 0xEF body.payload
    pub hash :
        ((parse_header header).hash_appended ≡ 0)
        ⊎ ((stored env chip (add32 (checksum_addr_of env body.next) 1) 32
              ≡ some (sha256 (header ++ (body.bytes ++ byte_at check 0 ∷ []))))
            × (metadata.image_digest ≡ sha256 (header ++ (body.bytes ++ byte_at check 0 ∷ []))))
