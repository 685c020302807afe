-- ===== src/Sha256/Buffer.antt =====
-- What a streaming context holds, and how `update` completes its buffer and folds whole blocks.
use esp32c3_bootloader_rust.Common.{
  ℕ, zero, suc, ◌+◌, ◌-◌, ◌*◌, ◌%◌, ◌^◌, ◌≤◌, ◌<◌, ◌≡◌, ◌⊎◌, inl, inr, refl, sym, ap, ap₂, ◌∙◌,
  arith, List, [], ◌∷◌, ◌++◌, append_assoc, append-nil, Bool-cases, ltb, leb, ◌&&◌, length, take,
  drop, All, length-append, length-take, length-drop, take-append-drop, drop-length,
}
use esp32c3_bootloader_rust.Sha256.{
  Sha256Context, h_init, compress, copy_into, full_blocks, fill_buffer,
}
use esp32c3_bootloader_rust.Sha256.Reference.{fold_blocks}

abbrev pub IsBlock : List ℕ → Type 0
IsBlock b = length b ≡ 64

abbrev pub concat_blocks : List (List ℕ) → List ℕ
concat_blocks [] = []
concat_blocks (b ∷ bs) = b ++ concat_blocks bs

-- The context holds the bytes `m`: whole blocks into its state, the rest into its buffer.
pub record Holds (m : List ℕ) (ctx : Sha256Context) : Type 0 where
  pub blocks : List (List ℕ)
  pub full : All IsBlock blocks
  pub message : m ≡ concat_blocks blocks ++ take ctx.index ctx.buffer
  pub folded : ctx.state ≡ fold_blocks h_init blocks
  pub room : ctx.index < 64
  pub size : length ctx.buffer ≡ 64

-- Its bit count is that of `m` too, modulo 2 ^ 64.
pub record Absorbs (m : List ℕ) (ctx : Sha256Context) : Type 0 where
  pub held : Holds m ctx
  pub counted : ctx.count ≡ length m * 8 % 2 ^ 64

pub fold_blocks-append :
    (s : List ℕ) (bs cs : List (List ℕ))
    → fold_blocks s (bs ++ cs) ≡ fold_blocks (fold_blocks s bs) cs
unfolding fold_blocks
fold_blocks-append s [] cs = refl
fold_blocks-append s (b ∷ bs) cs = fold_blocks-append (compress s b) bs cs

pub fold_blocks-snoc :
    (s : List ℕ) (bs : List (List ℕ)) (b : List ℕ)
    → fold_blocks s (bs ++ b ∷ []) ≡ compress (fold_blocks s bs) b
unfolding fold_blocks
fold_blocks-snoc s bs b = fold_blocks-append s bs (b ∷ [])

pub concat_blocks-append :
    (bs cs : List (List ℕ)) → concat_blocks (bs ++ cs) ≡ concat_blocks bs ++ concat_blocks cs
concat_blocks-append [] cs = refl
concat_blocks-append (b ∷ bs) cs =
    rw (concat_blocks-append bs cs) (sym (append_assoc b (concat_blocks bs) (concat_blocks cs)))

pub concat_blocks-snoc :
    (bs : List (List ℕ)) (b : List ℕ) → concat_blocks (bs ++ b ∷ []) ≡ concat_blocks bs ++ b
concat_blocks-snoc bs b =
    concat_blocks-append bs (b ∷ []) ∙ ap (λ t. concat_blocks bs ++ t) (append-nil b)

pub regroup_filled : (c t g d : List ℕ) → c ++ t ++ (g ++ d) ≡ c ++ (t ++ g) ++ [] ++ d
regroup_filled c t g d = simp (append_assoc, append-nil)

-- Bytes that stand in the buffer come before the blocks, if one of the two is empty.
pub regroup_tail :
    (n : ℕ) (buf c t : List ℕ) (bs : List (List ℕ))
    → (n ≡ 0) ⊎ (bs ≡ [])
    → c ++ take n buf ++ (concat_blocks bs ++ t) ≡ c ++ concat_blocks bs ++ (take n buf ++ t)
regroup_tail n buf c t bs (inl e) = rw e (simp (append_assoc, append-nil))
regroup_tail n buf c t bs (inr e) = rw e (simp (append_assoc, append-nil))

pub All-append_blocks :
    (bs cs : List (List ℕ)) → All IsBlock bs → All IsBlock cs → All IsBlock (bs ++ cs)
All-append_blocks [] cs h k = k
All-append_blocks (b ∷ bs) cs h k = (h.0, All-append_blocks bs cs h.1 k)

pub nil_of_length : (xs : List ℕ) → length xs ≡ 0 → xs ≡ []
nil_of_length [] e = refl
nil_of_length (x ∷ xs) e = absurd (omega arith)

-- What the block loop does: it folds whole blocks and leaves less than one.
pub record Splits (state bytes : List ℕ) (out : List ℕ × List ℕ) : Type 0 where
  pub blocks : List (List ℕ)
  pub full : All IsBlock blocks
  pub whole : bytes ≡ concat_blocks blocks ++ out.1
  pub folded : out.0 ≡ fold_blocks state blocks
  pub short : length out.1 < 64

pub Splits-cons :
    (state bytes : List ℕ) (out : List ℕ × List ℕ)
    → 64 ≤ length bytes
    → Splits (compress state (take 64 bytes)) (drop 64 bytes) out
    → Splits state bytes out
unfolding fold_blocks
Splits-cons state bytes out long r = record {
  blocks = take 64 bytes ∷ r.blocks;
  full = (omega (arith, length-take {0} 64 bytes), r.full);
  whole =
      sym (take-append-drop 64 bytes)
      ∙ ap (λ t. take 64 bytes ++ t) r.whole
      ∙ sym (append_assoc (take 64 bytes) (concat_blocks r.blocks) out.1);
  folded = r.folded;
  short = r.short;
}

pub full_blocks-Splits :
    (fuel : ℕ) (state bytes : List ℕ)
    → length bytes ≤ fuel
    → Splits state bytes (full_blocks fuel state bytes)
unfolding full_blocks fold_blocks
full_blocks-Splits zero state bytes h = record {
  blocks = [];
  full = tt;
  whole = refl;
  folded = refl;
  short = omega arith;
}
full_blocks-Splits (suc fuel) state bytes h = elim (Bool-cases (leb 64 (length bytes))) [
  | inl long ↦ rw long (
      Splits-cons state bytes _ (ground arith)
        (full_blocks-Splits fuel _ (drop 64 bytes) (ground (arith, length-drop {0} 64 bytes))))
  | inr small ↦
      rw small
        (record { blocks = []; full = tt; whole = refl; folded = refl; short = ground arith })
]

-- A context after the buffer was completed, or left alone, with the input that is still to come.
pub record Fills (m : List ℕ) (bytes : List ℕ) (ctx : Sha256Context) (left : List ℕ) : Type 0 where
  pub blocks : List (List ℕ)
  pub full : All IsBlock blocks
  pub message : m ++ bytes ≡ concat_blocks blocks ++ take ctx.index ctx.buffer ++ left
  pub folded : ctx.state ≡ fold_blocks h_init blocks
  pub room : (ctx.index ≡ 0) ⊎ (ctx.index + length left < 64)
  pub size : length ctx.buffer ≡ 64

module _ (m bytes : List ℕ) (ctx : Sha256Context) (v : Holds m ctx) where
  abbrev gap : ℕ
  gap = 64 - ctx.index

  abbrev completed : List ℕ
  completed = copy_into ctx.buffer ctx.index (take gap bytes)

  completed_lem : gap ≤ length bytes → completed ≡ take ctx.index ctx.buffer ++ take gap bytes
  completed_lem h =
      ap (λ t. take ctx.index ctx.buffer ++ take gap bytes ++ t)
        (drop-length ctx.buffer _ (omega (arith, v.size, v.room, length-take {0} gap bytes)))
      ∙ append-nil (take ctx.index ctx.buffer ++ take gap bytes)

  Fills-completed :
      gap ≤ length bytes
      → Fills m bytes
          (record ctx { state = compress ctx.state completed; buffer = completed; index = 0 })
          (drop gap bytes)
  Fills-completed h = record {
    blocks = v.blocks ++ completed ∷ [];
    full = All-append_blocks v.blocks (completed ∷ []) v.full (is_block, tt);
    message =
        ap₂ (λ a b. a ++ b) v.message (sym (take-append-drop gap bytes))
        ∙ regroup_filled (concat_blocks v.blocks) (take ctx.index ctx.buffer) (take gap bytes) _
        ∙ ap (λ t. concat_blocks v.blocks ++ t ++ [] ++ drop gap bytes) (sym (completed_lem h))
        ∙ ap (λ t. t ++ [] ++ drop gap bytes) (sym (concat_blocks-snoc v.blocks completed));
    folded =
        ap (λ s. compress s completed) v.folded ∙ sym (fold_blocks-snoc h_init v.blocks completed);
    room = inl refl;
    size = is_block;
  }
    where
      is_block : length completed ≡ 64
      is_block =
          ap length (completed_lem h)
          ∙ omega (
            arith,
            v.size,
            v.room,
            length-append {0} (take ctx.index ctx.buffer) (take gap bytes),
            length-take {0} ctx.index ctx.buffer,
            length-take {0} gap bytes,
          )

  -- The first part of `update`, on each of its branches.
  pub fill_buffer-Fills : Fills m bytes (fill_buffer ctx bytes).0 (fill_buffer ctx bytes).1
  unfolding fill_buffer
  fill_buffer-Fills = elim (Bool-cases (ltb 0 ctx.index && leb 64 (ctx.index + length bytes))) [
    | inl begun ↦ rw begun (Fills-completed (ground (arith, v.room)))
    | inr alone ↦ rw alone (record {
      blocks = v.blocks;
      full = v.full;
      message = ap (λ t. t ++ bytes) v.message;
      folded = v.folded;
      room = ground (arith, v.room);
      size = v.size;
    })
  ]
