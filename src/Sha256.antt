-- ===== src/Sha256.antt =====
-- src/sha256.rs: the SHA-256 context, its compression function, and the pool of two contexts.
-- Words are numbers below 2 ^ 32, blocks and digests are lists of bytes.
pub mod Reference
pub mod Buffer
pub mod Stream
pub mod Padding
pub mod Digest
pub mod Pool
mod Tests
use esp32c3_bootloader_rust.Common.{
  ℕ, zero, suc, ◌+◌, ◌-◌, ◌*◌, ◌/◌, ◌%◌, ◌^◌, bit_and, bit_xor, List, [], ◌∷◌, ◌++◌, Bool, true,
  false, ◌&&◌, Option, none, some, if◌then◌else◌, ltb, leb, length, get_or, set, take, drop,
  replicate, add32, not32, rotr32, byte_at,
}

-- `H` and `K`
abbrev pub h_init : List ℕ
h_init =
    0x6A09_E667 ∷ 0xBB67_AE85 ∷ 0x3C6E_F372 ∷ 0xA54F_F53A ∷ 0x510E_527F ∷ 0x9B05_688C ∷ 0x1F83_D9AB
    ∷ 0x5BE0_CD19 ∷ []

k_table : List ℕ
k_table =
    0x428A_2F98 ∷ 0x7137_4491 ∷ 0xB5C0_FBCF ∷ 0xE9B5_DBA5 ∷ 0x3956_C25B ∷ 0x59F1_11F1 ∷ 0x923F_82A4
    ∷ 0xAB1C_5ED5 ∷ 0xD807_AA98 ∷ 0x1283_5B01 ∷ 0x2431_85BE ∷ 0x550C_7DC3 ∷ 0x72BE_5D74
    ∷ 0x80DE_B1FE ∷ 0x9BDC_06A7 ∷ 0xC19B_F174 ∷ 0xE49B_69C1 ∷ 0xEFBE_4786 ∷ 0x0FC1_9DC6
    ∷ 0x240C_A1CC ∷ 0x2DE9_2C6F ∷ 0x4A74_84AA ∷ 0x5CB0_A9DC ∷ 0x76F9_88DA ∷ 0x983E_5152
    ∷ 0xA831_C66D ∷ 0xB003_27C8 ∷ 0xBF59_7FC7 ∷ 0xC6E0_0BF3 ∷ 0xD5A7_9147 ∷ 0x06CA_6351
    ∷ 0x1429_2967 ∷ 0x27B7_0A85 ∷ 0x2E1B_2138 ∷ 0x4D2C_6DFC ∷ 0x5338_0D13 ∷ 0x650A_7354
    ∷ 0x766A_0ABB ∷ 0x81C2_C92E ∷ 0x9272_2C85 ∷ 0xA2BF_E8A1 ∷ 0xA81A_664B ∷ 0xC24B_8B70
    ∷ 0xC76C_51A3 ∷ 0xD192_E819 ∷ 0xD699_0624 ∷ 0xF40E_3585 ∷ 0x106A_A070 ∷ 0x19A4_C116
    ∷ 0x1E37_6C08 ∷ 0x2748_774C ∷ 0x34B0_BCB5 ∷ 0x391C_0CB3 ∷ 0x4ED8_AA4A ∷ 0x5B9C_CA4F
    ∷ 0x682E_6FF3 ∷ 0x748F_82EE ∷ 0x78A5_636F ∷ 0x84C8_7814 ∷ 0x8CC7_0208 ∷ 0x90BE_FFFA
    ∷ 0xA450_6CEB ∷ 0xBEF9_A3F7 ∷ 0xC671_78F2 ∷ []

ch : ℕ → ℕ → ℕ → ℕ
ch x y z = bit_xor (bit_and x y) (bit_and (not32 x) z)

maj : ℕ → ℕ → ℕ → ℕ
maj x y z = bit_xor (bit_xor (bit_and x y) (bit_and x z)) (bit_and y z)

sigma0 : ℕ → ℕ
sigma0 x = bit_xor (bit_xor (rotr32 x 2) (rotr32 x 13)) (rotr32 x 22)

sigma1 : ℕ → ℕ
sigma1 x = bit_xor (bit_xor (rotr32 x 6) (rotr32 x 11)) (rotr32 x 25)

gamma0 : ℕ → ℕ
gamma0 x = bit_xor (bit_xor (rotr32 x 7) (rotr32 x 18)) (x / 2 ^ 3)

gamma1 : ℕ → ℕ
gamma1 x = bit_xor (bit_xor (rotr32 x 17) (rotr32 x 19)) (x / 2 ^ 10)

-- `u32::from_be_bytes` of the bytes from index `i` on
be_word : List ℕ → ℕ → ℕ
be_word bs i =
    byte_at bs i * 0x100_0000
    + byte_at bs (i + 1) * 0x1_0000
    + byte_at bs (i + 2) * 0x100
    + byte_at bs (i + 3)

-- `for t in 0..16` of the message schedule, with `n` rounds left.
schedule_head : ℕ → ℕ → List ℕ → List ℕ → List ℕ
unfolding be_word
schedule_head zero t block w = w
schedule_head (suc n) t block w = schedule_head n (t + 1) block (set w t (be_word block (t * 4)))

-- `for t in 16..64`
schedule_tail : ℕ → ℕ → List ℕ → List ℕ
unfolding gamma0 gamma1
schedule_tail zero t w = w
schedule_tail (suc n) t w =
    let sum =
      add32
        (add32 (add32 (gamma1 (get_or w (t - 2) 0)) (get_or w (t - 7) 0))
          (gamma0 (get_or w (t - 15) 0)))
        (get_or w (t - 16) 0) in
    schedule_tail n (t + 1) (set w t sum)

-- The working variables a to h.
record Working : Type 0 where
  a : ℕ
  b : ℕ
  c : ℕ
  d : ℕ
  e : ℕ
  f : ℕ
  g : ℕ
  h : ℕ

compress_round : ℕ → ℕ → Working → Working
unfolding ch maj sigma0 sigma1
compress_round kt wt v =
    let t1 = add32 (add32 (add32 (add32 v.h (sigma1 v.e)) (ch v.e v.f v.g)) kt) wt in
    let t2 = add32 (sigma0 v.a) (maj v.a v.b v.c) in
    record {
      a = add32 t1 t2;
      b = v.a;
      c = v.b;
      d = v.c;
      e = add32 v.d t1;
      f = v.e;
      g = v.f;
      h = v.g;
    }

-- `for t in 0..64`
compress_rounds : ℕ → ℕ → List ℕ → Working → Working
unfolding compress_round k_table
compress_rounds zero t w v = v
compress_rounds (suc n) t w v =
    compress_rounds n (t + 1) w (compress_round (get_or k_table t 0) (get_or w t 0) v)

-- `compress`: the new state `H0 .. H7` from the old one and a block of 64 bytes.
unfoldable pub compress : List ℕ → List ℕ → List ℕ
unfolding schedule_head schedule_tail compress_rounds
compress state block =
    let w = schedule_tail 48 16 (schedule_head 16 0 block (replicate 64 0)) in
    let s = λ (i : ℕ). get_or state i 0 in
    let v =
      compress_rounds 64 0 w
        (record { a = s 0; b = s 1; c = s 2; d = s 3; e = s 4; f = s 5; g = s 6; h = s 7 }) in
    add32 (s 0) v.a
    ∷ add32 (s 1) v.b
    ∷ add32 (s 2) v.c
    ∷ add32 (s 3) v.d
    ∷ add32 (s 4) v.e
    ∷ add32 (s 5) v.f
    ∷ add32 (s 6) v.g
    ∷ add32 (s 7) v.h
    ∷ []

pub record Sha256Context : Type 0 where
  pub state : List ℕ
  pub buffer : List ℕ
  pub count : ℕ
  pub index : ℕ

-- `Sha256Context::new`
unfoldable pub new_context : Sha256Context
new_context = record { state = h_init; buffer = replicate 64 0; count = 0; index = 0 }

-- `copy_nonoverlapping` of `xs` into `buf` at index `i`
abbrev pub copy_into : List ℕ → ℕ → List ℕ → List ℕ
copy_into buf i xs = take i buf ++ xs ++ drop (i + length xs) buf

-- `while remaining >= 64`; the fuel is the number of bytes.
unfoldable pub full_blocks : ℕ → List ℕ → List ℕ → List ℕ × List ℕ
full_blocks zero state bytes = (state, bytes)
full_blocks (suc fuel) state bytes =
    let next = full_blocks fuel (compress state (take 64 bytes)) (drop 64 bytes) in
    if leb 64 (length bytes) then next else (state, bytes)

-- The first part of `update`: completes a block that was begun before.
unfoldable pub fill_buffer : Sha256Context → List ℕ → Sha256Context × List ℕ
fill_buffer ctx bytes =
    if ltb 0 ctx.index && leb 64 (ctx.index + length bytes)
    then (let copy = 64 - ctx.index in
        let buffer = copy_into ctx.buffer ctx.index (take copy bytes) in
        (
          record ctx { state = compress ctx.state buffer; buffer = buffer; index = 0 },
          drop copy bytes,
        ))
    else (ctx, bytes)

-- `update`. A null pointer is the empty list.
unfoldable pub update : Sha256Context → List ℕ → Sha256Context
unfolding fill_buffer full_blocks
update ctx [] = ctx
update ctx (byte ∷ rest) =
    let bytes = byte ∷ rest in
    let counted = record ctx { count = (ctx.count + length bytes * 8) % 2 ^ 64 } in
    let (filled, left) = fill_buffer counted bytes in
    let (state, tail) = full_blocks (length left) filled.state left in
    if ltb 0 (length tail)
    then record filled {
      state = state;
      buffer = copy_into filled.buffer filled.index tail;
      index = filled.index + length tail;
    }
    else record filled { state = state }

-- `for i in index..end { buffer[i] = 0 }`, with `n` rounds left.
unfoldable pub zero_fill : ℕ → ℕ → List ℕ → List ℕ
zero_fill zero i buf = buf
zero_fill (suc n) i buf = zero_fill n (i + 1) (set buf i 0)

-- `u64::to_be_bytes` and `u32::to_be_bytes`
abbrev pub be_bytes64 : ℕ → List ℕ
be_bytes64 n =
    n / 2 ^ 56 % 256
    ∷ n / 2 ^ 48 % 256
    ∷ n / 2 ^ 40 % 256
    ∷ n / 2 ^ 32 % 256
    ∷ n / 2 ^ 24 % 256
    ∷ n / 2 ^ 16 % 256
    ∷ n / 2 ^ 8 % 256
    ∷ n % 256
    ∷ []

abbrev pub be_bytes32 : ℕ → List ℕ
be_bytes32 n = n / 2 ^ 24 % 256 ∷ n / 2 ^ 16 % 256 ∷ n / 2 ^ 8 % 256 ∷ n % 256 ∷ []

-- The state as 32 bytes.
unfoldable pub digest_bytes : List ℕ → List ℕ
digest_bytes [] = []
digest_bytes (w ∷ ws) = be_bytes32 w ++ digest_bytes ws

-- The end of `finalize`: the zeros up to byte 56, the bit count, and the last block.
unfoldable pub close_block : Sha256Context → Sha256Context
close_block ctx =
    let zeroed = zero_fill (56 - ctx.index) ctx.index ctx.buffer in
    let buffer = copy_into zeroed 56 (be_bytes64 ctx.count) in
    record ctx { state = compress ctx.state buffer; buffer = buffer }

-- `finalize`: the context that is left, and the digest.
unfoldable pub finalize : Sha256Context → Sha256Context × List ℕ
finalize ctx =
    let marked = record ctx { buffer = set ctx.buffer ctx.index 0x80; index = ctx.index + 1 } in
    let buffer = zero_fill (64 - marked.index) marked.index marked.buffer in
    let closed = close_block (
      if ltb 56 marked.index
      then record marked { state = compress marked.state buffer; buffer = buffer; index = 0 }
      else marked) in
    (closed, digest_bytes closed.state)
