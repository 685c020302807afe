-- ===== src/Sha256/Stream.antt =====
-- The streaming context stands for the bytes that it was fed: however the message is cut into
-- calls of `update`, `finalize` gives the digest of the whole.
use esp32c3_bootloader_rust.Common.{
  ℕ, ◌+◌, ◌*◌, ◌%◌, ◌^◌, ◌<◌, ◌≡◌, ◌⊎◌, inl, inr, refl, sym, ap, ◌∙◌, arith, List, [], ◌∷◌, ◌++◌,
  append-nil, Bool-cases, ltb, length, take, drop, All, length-append, length-take, length-drop,
  take-append,
}
use esp32c3_bootloader_rust.Sha256.{
  Sha256Context, h_init, new_context, copy_into, full_blocks, fill_buffer, update,
}
use esp32c3_bootloader_rust.Sha256.Reference.{fold_blocks}
use esp32c3_bootloader_rust.Sha256.Buffer.{
  IsBlock, concat_blocks, fold_blocks-append, concat_blocks-append, regroup_tail, All-append_blocks,
  nil_of_length, full_blocks-Splits, fill_buffer-Fills, Holds, Absorbs, Splits, Fills,
}

-- The last part of `update`: the blocks of what is left are folded, and the rest is buffered.
module _ (m bytes left : List ℕ) (ctx : Sha256Context) (f : Fills m bytes ctx left)
    (out : List ℕ × List ℕ) (s : Splits ctx.state left out) where
  one_side : (ctx.index ≡ 0) ⊎ (s.blocks ≡ [])
  one_side = no_blocks s.blocks s.full s.whole f.room
    where
      no_blocks :
          (bs : List (List ℕ))
          → All IsBlock bs
          → left ≡ concat_blocks bs ++ out.1
          → (ctx.index ≡ 0) ⊎ (ctx.index + length left < 64)
          → (ctx.index ≡ 0) ⊎ (bs ≡ [])
      no_blocks [] h w r = inr refl
      no_blocks (b ∷ bs) h w (inl e) = inl e
      no_blocks (b ∷ bs) h w (inr lt) = absurd (
          omega (
            arith,
            h.0,
            ap length w,
            length-append {0} (b ++ concat_blocks bs) out.1,
            length-append {0} b (concat_blocks bs),
          ))

  fits : ctx.index + length out.1 < 64
  fits = elim f.room [
    | inl e ↦ omega (arith, e, s.short)
    | inr lt ↦
        omega (arith, lt, ap length s.whole, length-append {0} (concat_blocks s.blocks) out.1)
  ]

  abbrev buffered : List ℕ
  buffered = copy_into ctx.buffer ctx.index out.1

  take-buffered : take (ctx.index + length out.1) buffered ≡ take ctx.index ctx.buffer ++ out.1
  take-buffered = take-append _ _ _ (
      omega (
        arith,
        f.size,
        fits,
        length-append {0} (take ctx.index ctx.buffer) out.1,
        length-take {0} ctx.index ctx.buffer,
      ))

  length-buffered : length buffered ≡ 64
  length-buffered = omega (
    arith,
    f.size,
    fits,
    length-append {0} (take ctx.index ctx.buffer ++ out.1)
        (drop (ctx.index + length out.1) ctx.buffer),
    length-append {0} (take ctx.index ctx.buffer) out.1,
    length-take {0} ctx.index ctx.buffer,
    length-drop {0} (ctx.index + length out.1) ctx.buffer,
  )

  message_after :
      m ++ bytes ≡ concat_blocks (f.blocks ++ s.blocks) ++ (take ctx.index ctx.buffer ++ out.1)
  message_after =
      f.message
      ∙ ap (λ t. concat_blocks f.blocks ++ take ctx.index ctx.buffer ++ t) s.whole
      ∙ regroup_tail ctx.index ctx.buffer (concat_blocks f.blocks) out.1 s.blocks one_side
      ∙ ap (λ t. t ++ (take ctx.index ctx.buffer ++ out.1))
          (sym (concat_blocks-append f.blocks s.blocks))

  folded_after : out.0 ≡ fold_blocks h_init (f.blocks ++ s.blocks)
  folded_after =
      s.folded
      ∙ ap (λ t. fold_blocks t s.blocks) f.folded
      ∙ sym (fold_blocks-append h_init f.blocks s.blocks)

  buffered-Holds :
      {c : ℕ}
      → Holds
          (m ++ bytes)
          (record { state = out.0; buffer = buffered; count = c; index = ctx.index + length out.1 })
  buffered-Holds = record {
    blocks = f.blocks ++ s.blocks;
    full = All-append_blocks f.blocks s.blocks f.full s.full;
    message =
        message_after ∙ ap (λ t. concat_blocks (f.blocks ++ s.blocks) ++ t) (sym take-buffered);
    folded = folded_after;
    room = fits;
    size = length-buffered;
  }

  unbuffered-Holds :
      {c : ℕ}
      → length out.1 ≡ 0
      → Holds
          (m ++ bytes)
          (record { state = out.0; buffer = ctx.buffer; count = c; index = ctx.index })
  unbuffered-Holds e = record {
    blocks = f.blocks ++ s.blocks;
    full = All-append_blocks f.blocks s.blocks f.full s.full;
    message =
        message_after
        ∙ ap (λ t. concat_blocks (f.blocks ++ s.blocks) ++ (take ctx.index ctx.buffer ++ t))
            (nil_of_length out.1 e)
        ∙ ap (λ t. concat_blocks (f.blocks ++ s.blocks) ++ t)
            (append-nil (take ctx.index ctx.buffer));
    folded = folded_after;
    room = omega (arith, fits);
    size = f.size;
  }

count-fill_buffer :
    (ctx : Sha256Context) (bytes : List ℕ) → (fill_buffer ctx bytes).0.count ≡ ctx.count
unfolding fill_buffer
count-fill_buffer ctx bytes = ground arith

Holds-update :
    (m : List ℕ) (x : ℕ) (rest : List ℕ) (ctx : Sha256Context)
    → Holds m ctx
    → Holds (m ++ x ∷ rest) (update ctx (x ∷ rest))
unfolding update
Holds-update m x rest ctx v =
    elim (Bool-cases (ltb 0 (length (full_blocks (length filled.1) filled.0.state filled.1).1))) [
      | inl some_left ↦ rw some_left (buffered-Holds m (x ∷ rest) filled.1 filled.0 fills _ splits)
      | inr none_left ↦
          rw none_left
            (unbuffered-Holds m (x ∷ rest) filled.1 filled.0 fills _ splits (ground arith))
    ]
  where
    counted : Sha256Context
    counted = record ctx { count = (ctx.count + length (x ∷ rest) * 8) % 2 ^ 64 }

    filled : Sha256Context × List ℕ
    filled = fill_buffer counted (x ∷ rest)

    fills : Fills m (x ∷ rest) filled.0 filled.1
    fills = fill_buffer-Fills m (x ∷ rest) counted (record {
      blocks = v.blocks;
      full = v.full;
      message = v.message;
      folded = v.folded;
      room = v.room;
      size = v.size;
    })

    splits : Splits filled.0.state filled.1 (full_blocks (length filled.1) filled.0.state filled.1)
    splits = full_blocks-Splits (length filled.1) filled.0.state filled.1 (omega arith)

count-update :
    (ctx : Sha256Context) (bytes : List ℕ)
    → ctx.count < 2 ^ 64
    → (update ctx bytes).count ≡ (ctx.count + length bytes * 8) % 2 ^ 64
unfolding update
count-update ctx [] h = omega arith
count-update ctx (x ∷ rest) h = ground (
  arith,
  count-fill_buffer (record ctx { count = (ctx.count + length (x ∷ rest) * 8) % 2 ^ 64 })
      (x ∷ rest),
)

-- Feeding bytes to a context that has absorbed `m` gives one that has absorbed `m` and then these.
pub update-Absorbs :
    (m bytes : List ℕ) (ctx : Sha256Context)
    → Absorbs m ctx
    → Absorbs (m ++ bytes) (update ctx bytes)
update-Absorbs m [] ctx v = rw append-nil (unfold update in v)
update-Absorbs m (x ∷ rest) ctx v = record {
  held = Holds-update m x rest ctx v.held;
  counted =
      count-update ctx (x ∷ rest) (omega (arith, v.counted))
      ∙ omega (arith, v.counted, length-append {0} m (x ∷ rest));
}

pub new_context-Absorbs : Absorbs [] new_context
unfolding new_context fold_blocks
new_context-Absorbs = record {
  held = record {
    blocks = [];
    full = tt;
    message = refl;
    folded = refl;
    room = omega arith;
    size = refl;
  };
  counted = refl;
}
