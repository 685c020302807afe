-- ===== src/Sha256/Padding.antt =====
-- The padding of a message: zero runs, closed blocks and their digest.
use native.Mathlib.Nat.{add-zero}
use native.Mathlib.Numerals.{add-one}
use esp32c3_bootloader_rust.Common.{
  ℕ, zero, suc, ◌+◌, ◌-◌, ◌*◌, ◌%◌, ◌^◌, ◌≤◌, ◌<◌, ◌≡◌, refl, sym, ap, ap₂, ◌∙◌, arith, List, [],
  ◌∷◌, ◌++◌, append_assoc, append-nil, length, take, replicate, set, All, length-append,
  length-replicate, length-set, take-append, drop-append, drop-length,
}
use esp32c3_bootloader_rust.Sha256.{
  Sha256Context, h_init, compress, zero_fill, close_block, be_bytes64, digest_bytes,
}
use esp32c3_bootloader_rust.Sha256.Reference.{fold_blocks, chunks, pad, block_count, sha256}
use esp32c3_bootloader_rust.Sha256.Buffer.{IsBlock, concat_blocks}

-- Cutting whole blocks gives the blocks back.
pub chunks-concat_blocks :
    (bs : List (List ℕ)) → All IsBlock bs → chunks (length bs) (concat_blocks bs) ≡ bs
unfolding chunks
chunks-concat_blocks [] h = refl
chunks-concat_blocks (b ∷ bs) h = ap₂ ◌∷◌ (take-append 64 b (concat_blocks bs) (sym h.0)) (
    ap (chunks (length bs)) (drop-append 64 b (concat_blocks bs) (sym h.0))
    ∙ chunks-concat_blocks bs h.1)

pub length-concat_blocks :
    (bs : List (List ℕ)) → All IsBlock bs → length (concat_blocks bs) ≡ 64 * length bs
length-concat_blocks [] h = refl
length-concat_blocks (b ∷ bs) h =
    omega (arith, h.0, length-append {0} b (concat_blocks bs), length-concat_blocks bs h.1)

-- The loop that zeroes `n` bytes writes a run of zeros.
pub take-set :
    (xs : List ℕ) (i v : ℕ) → i < length xs → take (i + 1) (set xs i v) ≡ take i xs ++ v ∷ []
take-set [] i v h = absurd (omega arith)
take-set (x ∷ xs) zero v h = refl
take-set (x ∷ xs) (suc i) v h =
    rw add-one (ap (λ t. x ∷ t) (rw add-one at (take-set xs i v (omega arith))))

pub take-zero_fill :
    (n i : ℕ) (buf : List ℕ)
    → i + n ≤ length buf
    → take (i + n) (zero_fill n i buf) ≡ take i buf ++ replicate n 0
unfolding zero_fill
take-zero_fill zero i buf h = rw (add-zero, append-nil)
take-zero_fill (suc n) i buf h =
    ap (λ k. take k (zero_fill n (i + 1) (set buf i 0))) shift
    ∙ take-zero_fill n (i + 1) (set buf i 0) (omega (arith, length-set buf i 0))
    ∙ ap (λ t. t ++ replicate n 0) (take-set buf i 0 (omega arith))
    ∙ append_assoc (take i buf) (0 ∷ []) (replicate n 0)
  where
    shift : i + suc n ≡ i + 1 + n
    shift = omega arith

pub length-zero_fill : (n i : ℕ) (buf : List ℕ) → length (zero_fill n i buf) ≡ length buf
unfolding zero_fill
length-zero_fill zero i buf = refl
length-zero_fill (suc n) i buf = length-zero_fill n (i + 1) (set buf i 0) ∙ length-set buf i 0

pub close_block-state :
    (ctx : Sha256Context)
    → length ctx.buffer ≡ 64
    → ctx.index ≤ 56
    → (close_block ctx).state
      ≡ compress ctx.state
          (take ctx.index ctx.buffer ++ replicate (56 - ctx.index) 0 ++ be_bytes64 ctx.count)
unfolding close_block
close_block-state ctx size h = ap (compress ctx.state) (
    ap (λ t. take 56 zeroed ++ be_bytes64 ctx.count ++ t)
      (drop-length zeroed 64 (omega (arith, size, same)))
    ∙ append-nil (take 56 zeroed ++ be_bytes64 ctx.count)
    ∙ ap (λ t. t ++ be_bytes64 ctx.count)
        (ap (λ k. take k zeroed) upto
          ∙ take-zero_fill (56 - ctx.index) ctx.index ctx.buffer (omega arith)))
  where
    zeroed : List ℕ
    zeroed = zero_fill (56 - ctx.index) ctx.index ctx.buffer

    same : length zeroed ≡ length ctx.buffer
    same = length-zero_fill (56 - ctx.index) ctx.index ctx.buffer

    upto : 56 ≡ ctx.index + (56 - ctx.index)
    upto = omega arith

pub regroup_one : (c t z e : List ℕ) (x : ℕ) → c ++ (t ++ x ∷ [] ++ z ++ e) ≡ c ++ t ++ x ∷ z ++ e
regroup_one c t z e x = simp append_assoc

pub regroup_two :
    (c t z y e : List ℕ) (x : ℕ)
    → c ++ (t ++ x ∷ [] ++ z ++ (y ++ e ++ [])) ≡ c ++ t ++ x ∷ (z ++ y) ++ e
regroup_two c t z y e x = simp (append_assoc, append-nil)

-- The blocks of a closed context are the padded message.
pub record Closes (m : List ℕ) (state : List ℕ) : Type 0 where
  pub blocks : List (List ℕ)
  pub full : All IsBlock blocks
  pub whole : concat_blocks blocks ≡ pad m
  pub folded : state ≡ fold_blocks h_init blocks

pub length-pad : (m : List ℕ) → length (pad m) ≡ 64 * block_count (length m)
length-pad m = omega (
  arith,
  length-append {0} (m ++ 0x80 ∷ zeros) (be_bytes64 (length m * 8 % 2 ^ 64)),
  length-append {0} m (0x80 ∷ zeros),
  length-replicate {A = ℕ} (64 * block_count (length m) - length m - 9) 0,
)
  where
    zeros : List ℕ
    zeros = replicate (64 * block_count (length m) - length m - 9) 0

pub Closes-digest : (m state : List ℕ) → Closes m state → digest_bytes state ≡ sha256 m
unfolding sha256
Closes-digest m state c = ap digest_bytes (
    c.folded
    ∙ ap (fold_blocks h_init)
        (sym (chunks-concat_blocks c.blocks c.full) ∙ ap₂ chunks count c.whole))
  where
    count : length c.blocks ≡ block_count (length m)
    count = omega (arith, length-pad m, ap length c.whole, length-concat_blocks c.blocks c.full)
