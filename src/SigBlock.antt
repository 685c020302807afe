-- ===== src/SigBlock.antt =====
-- tools/sign_image/src/sig_block.rs: the Secure Boot signature block that the signing tool appends
-- to an image. `hash` stands for the third-party `crc32fast::hash`.
use esp32c3_bootloader_rust.Common.{
  ℕ, zero, suc, ◌+◌, ◌-◌, ◌^◌, ◌<◌, ◌≡◌, refl, sym, ap, ◌∙◌, arith, List, [], ◌∷◌, ◌++◌,
  append_assoc, not, ◌&&◌, ◌||◌, Option, none, some, if◌then◌else◌, leb, ◌==◌, byte_at, u32_at,
  take, drop, replicate, length, length-append, length-replicate, get_or, take-append, drop-append,
  drop-drop, to_le_bytes, u32_at-to_le_bytes,
}

pub record SigBlock : Type 0 where
  pub image_digest : List ℕ
  pub signature : List ℕ
  pub pub_key : List ℕ

abbrev pub block_size : ℕ
block_size = 4096

-- The three arrays have their declared lengths.
pub record IsSigBlock (b : SigBlock) : Type 0 where
  pub digest_size : length b.image_digest ≡ 32
  pub signature_size : length b.signature ≡ 64
  pub key_size : length b.pub_key ≡ 64

-- `image_content_len`: a block at the end is left out.
unfoldable pub image_content_len : List ℕ → ℕ
image_content_len image =
    let tail_offset = length image - block_size in
    if leb block_size (length image)
      && (byte_at image tail_offset == 0xE7 && byte_at image (tail_offset + 1) == 0x02)
    then tail_offset
    else length image

get_or-append :
    (xs ys : List ℕ) (n i : ℕ) → n ≡ length xs → get_or (xs ++ ys) (n + i) 0 ≡ get_or ys i 0
get_or-append [] ys n i h = ap (λ t. get_or ys t 0) (omega arith)
get_or-append (x ∷ xs) ys zero i h = absurd (omega arith)
get_or-append (x ∷ xs) ys (suc n) i h =
    ap (λ t. get_or (x ∷ (xs ++ ys)) t 0) (shift n i) ∙ get_or-append xs ys n i (omega arith)
  where
    shift : (n i : ℕ) → suc n + i ≡ suc (n + i)
    shift n i = omega arith

u32_at-append : (xs ys : List ℕ) (n : ℕ) → n ≡ length xs → u32_at (xs ++ ys) n ≡ u32_at ys 0
u32_at-append xs ys n h = omega (arith, first, byte 1, byte 2, byte 3)
  where
    byte : (i : ℕ) → byte_at (xs ++ ys) (n + i) ≡ byte_at ys i
    byte i = get_or-append xs ys n i h

    first : byte_at (xs ++ ys) n ≡ byte_at ys 0
    first = ap (byte_at (xs ++ ys)) (omega arith) ∙ byte 0

module _ (hash : List ℕ → ℕ) where
  -- The first 164 bytes of the block.
  unfoldable pub signed_head : SigBlock → List ℕ
  signed_head b = 0xE7 ∷ 0x02 ∷ 0x00 ∷ 0x00 ∷ (b.image_digest ++ (b.signature ++ b.pub_key))

  unfoldable pub to_bytes : SigBlock → List ℕ
  unfolding signed_head
  to_bytes b = signed_head b ++ (to_le_bytes (hash (signed_head b)) ++ replicate 3928 0xFF)

  unfoldable pub from_bytes : List ℕ → Option SigBlock
  from_bytes raw =
      if not (byte_at raw 0 == 0xE7) || not (byte_at raw 1 == 0x02)
      then none
      else if not (u32_at raw 164 == hash (take 164 raw))
      then none
      else some (record {
        image_digest = take 32 (drop 4 raw);
        signature = take 64 (drop 36 raw);
        pub_key = take 64 (drop 100 raw);
      })

  module _ (b : SigBlock) (sizes : IsSigBlock b) where
    abbrev tail : List ℕ
    tail = to_le_bytes (hash (signed_head b)) ++ replicate 3928 0xFF

    length-signed_head : 164 ≡ length (signed_head b)
    unfolding signed_head
    length-signed_head = omega (
      arith,
      sizes.digest_size,
      sizes.signature_size,
      sizes.key_size,
      length-append {0} b.image_digest (b.signature ++ b.pub_key),
      length-append {0} b.signature b.pub_key,
    )

    marks : (byte_at (to_bytes b) 0 ≡ 0xE7) × (byte_at (to_bytes b) 1 ≡ 0x02)
    unfolding to_bytes signed_head
    marks = (refl, refl)

    head_of : take 164 (to_bytes b) ≡ signed_head b
    unfolding to_bytes
    head_of = take-append 164 (signed_head b) tail length-signed_head

    length-to_bytes : length (to_bytes b) ≡ 4096
    unfolding to_bytes
    length-to_bytes = omega (
      arith,
      length-signed_head,
      length-append {0} (signed_head b) tail,
      length-replicate {A = ℕ} 3928 0xFF,
    )

    -- The block from its digest on, from its signature on and from its key on.
    from_digest : drop 4 (to_bytes b) ≡ b.image_digest ++ (b.signature ++ (b.pub_key ++ tail))
    unfolding to_bytes signed_head
    from_digest =
        append_assoc b.image_digest (b.signature ++ b.pub_key) tail
        ∙ ap (λ t. b.image_digest ++ t) (append_assoc b.signature b.pub_key tail)

    from_signature : drop 36 (to_bytes b) ≡ b.signature ++ (b.pub_key ++ tail)
    from_signature =
        sym (drop-drop 32 4 (to_bytes b))
        ∙ ap (drop 32) from_digest
        ∙ drop-append 32 b.image_digest _ (sym sizes.digest_size)

    from_key : drop 100 (to_bytes b) ≡ b.pub_key ++ tail
    from_key =
        sym (drop-drop 64 36 (to_bytes b))
        ∙ ap (drop 64) from_signature
        ∙ drop-append 64 b.signature _ (sym sizes.signature_size)

    stored_crc : hash (signed_head b) < 2 ^ 32 → u32_at (to_bytes b) 164 ≡ hash (signed_head b)
    unfolding to_bytes
    stored_crc h =
        u32_at-append (signed_head b) tail 164 length-signed_head
        ∙ u32_at-to_le_bytes (hash (signed_head b)) h

  -- A block whose arrays have their declared lengths is read back from its bytes, for every 32-bit
  -- checksum function.
  pub from_bytes-to_bytes :
      (b : SigBlock)
      → IsSigBlock b
      → ((bytes : List ℕ) → hash bytes < 2 ^ 32)
      → from_bytes (to_bytes b) ≡ some b
  unfolding from_bytes
  from_bytes-to_bytes b sizes small =
      rw
        (
          head_of b sizes,
          stored_crc b sizes (small (signed_head b)),
          from_digest b sizes,
          from_signature b sizes,
          from_key b sizes,
          take-append 32 b.image_digest _ (sym sizes.digest_size),
          take-append 64 b.signature _ (sym sizes.signature_size),
          take-append 64 b.pub_key _ (sym sizes.key_size),
        )
        (ground (arith, marks b sizes))

  -- Behind an image, the block begins 4096 bytes before the end.
  pub length-append_block :
      (image : List ℕ) (b : SigBlock)
      → IsSigBlock b
      → length (image ++ to_bytes b) ≡ length image + 4096
  length-append_block image b sizes =
      omega (arith, length-append {0} image (to_bytes b), length-to_bytes b sizes)

  pub marks_at_end :
      (image : List ℕ) (b : SigBlock)
      → IsSigBlock b
      → let at = length (image ++ to_bytes b) - 4096 in
        (byte_at (image ++ to_bytes b) at ≡ 0xE7) × (byte_at (image ++ to_bytes b) (at + 1) ≡ 0x02)
  marks_at_end image b sizes =
      let whole = length-append_block image b sizes in
      (
        ap (byte_at (image ++ to_bytes b)) (omega (arith, whole)) ∙ byte 0 ∙ (marks b sizes).0,
        ap (byte_at (image ++ to_bytes b)) (omega (arith, whole)) ∙ byte 1 ∙ (marks b sizes).1,
      )
    where
      byte : (i : ℕ) → byte_at (image ++ to_bytes b) (length image + i) ≡ byte_at (to_bytes b) i
      byte i = get_or-append image (to_bytes b) (length image) i refl

  -- Behind an image, the tool finds where the block that it appended begins.
  pub image_content_len-append :
      (image : List ℕ) (b : SigBlock)
      → IsSigBlock b
      → image_content_len (image ++ to_bytes b) ≡ length image
  unfolding image_content_len
  image_content_len-append image b sizes =
      ground (arith, length-append_block image b sizes, marks_at_end image b sizes)
