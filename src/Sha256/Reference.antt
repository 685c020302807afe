-- ===== src/Sha256/Reference.antt =====
-- SHA-256 of a whole message, as FIPS 180-4 describes it: pad, cut into blocks, fold.
use esp32c3_bootloader_rust.Common.{
  ℕ, zero, suc, ◌+◌, ◌-◌, ◌*◌, ◌/◌, ◌%◌, ◌^◌, List, [], ◌∷◌, ◌++◌, length, take, drop, replicate,
}
use esp32c3_bootloader_rust.Sha256.{compress, h_init, be_bytes64, digest_bytes}

-- One block holds the mark and the length if at most 55 bytes are left over, else two do.
abbrev pub block_count : ℕ → ℕ
block_count len = (len + 8) / 64 + 1

-- The message, a byte 0x80, zeros up to the length, and the length in bits.
abbrev pub pad : List ℕ → List ℕ
pad m =
    m
    ++ 0x80 ∷ replicate (64 * block_count (length m) - length m - 9) 0
    ++ be_bytes64 (length m * 8 % 2 ^ 64)

unfoldable pub chunks : ℕ → List ℕ → List (List ℕ)
chunks zero bytes = []
chunks (suc n) bytes = take 64 bytes ∷ chunks n (drop 64 bytes)

unfoldable pub fold_blocks : List ℕ → List (List ℕ) → List ℕ
fold_blocks state [] = state
fold_blocks state (b ∷ bs) = fold_blocks (compress state b) bs

unfoldable pub sha256 : List ℕ → List ℕ
unfolding chunks fold_blocks
sha256 m = digest_bytes (fold_blocks h_init (chunks (block_count (length m)) (pad m)))
