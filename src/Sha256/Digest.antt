-- ===== src/Sha256/Digest.antt =====
-- `finalize` completes a context to the digest of what it has absorbed.
use esp32c3_bootloader_rust.Common.{
  ℕ, ◌+◌, ◌-◌, ◌*◌, ◌≤◌, ◌<◌, ◌≡◌, inl, inr, refl, sym, ap, ap₂, ◌∙◌, arith, List, [], ◌∷◌, ◌++◌,
  append_assoc, append-nil, Bool-cases, ltb, length, take, replicate, set, length-append,
  length-take, length-replicate, length-set, take_all, replicate-append,
}
use esp32c3_bootloader_rust.Sha256.{
  Sha256Context, h_init, compress, new_context, update, zero_fill, finalize, be_bytes64,
  digest_bytes,
}
use esp32c3_bootloader_rust.Sha256.Reference.{fold_blocks, block_count, sha256}
use esp32c3_bootloader_rust.Sha256.Stream.{update-Absorbs, new_context-Absorbs}
use esp32c3_bootloader_rust.Sha256.Buffer.{
  Absorbs, IsBlock, concat_blocks, fold_blocks-append, All-append_blocks, concat_blocks-append,
  concat_blocks-snoc, fold_blocks-snoc,
}
use esp32c3_bootloader_rust.Sha256.Padding.{
  length-concat_blocks, take-set, take-zero_fill, length-zero_fill, close_block-state, regroup_one,
  regroup_two, Closes-digest, Closes,
}

module _ (m : List ℕ) (ctx : Sha256Context) (v : Absorbs m ctx) where
  open v.held use {blocks, full, message, folded, room, size}

  abbrev held_bytes : List ℕ
  held_bytes = take ctx.index ctx.buffer

  abbrev marked : List ℕ
  marked = set ctx.buffer ctx.index 0x80

  length-marked : length marked ≡ 64
  length-marked = length-set ctx.buffer ctx.index 0x80 ∙ size

  take-marked : take (ctx.index + 1) marked ≡ held_bytes ++ 0x80 ∷ []
  take-marked = take-set ctx.buffer ctx.index 0x80 (omega (arith, room, size))

  length-held_bytes : length held_bytes ≡ ctx.index
  length-held_bytes = omega (arith, length-take {0} ctx.index ctx.buffer, room, size)

  length-message : length m ≡ 64 * length blocks + ctx.index
  length-message = omega (
    arith,
    ap length message,
    length-append {0} (concat_blocks blocks) held_bytes,
    length-concat_blocks blocks full,
    length-held_bytes,
  )

  abbrev zeros_left : ℕ
  zeros_left = 64 * block_count (length m) - length m - 9

  -- The length fits the block of the last bytes.
  abbrev one_block : List ℕ
  one_block = held_bytes ++ 0x80 ∷ [] ++ replicate (56 - (ctx.index + 1)) 0 ++ be_bytes64 ctx.count

  one_block-Closes :
      ctx.index + 1 ≤ 56 → (state : List ℕ) → state ≡ compress ctx.state one_block → Closes m state
  one_block-Closes h state e = record {
    blocks = blocks ++ one_block ∷ [];
    full = All-append_blocks blocks (one_block ∷ []) full (is_block, tt);
    whole =
        concat_blocks-snoc blocks one_block
        ∙ regroup_one (concat_blocks blocks) held_bytes _ _ 0x80
        ∙ ap₂ (λ (t : List ℕ) (n : ℕ). t ++ 0x80 ∷ replicate n 0 ++ be_bytes64 ctx.count)
            (sym message) zeros
        ∙ ap (λ c. m ++ 0x80 ∷ replicate zeros_left 0 ++ be_bytes64 c) v.counted;
    folded =
        e ∙ ap (λ s. compress s one_block) folded ∙ sym (fold_blocks-snoc h_init blocks one_block);
  }
    where
      is_block : IsBlock one_block
      is_block = omega (
        arith,
        length-append {0} (held_bytes ++ 0x80 ∷ [] ++ replicate (56 - (ctx.index + 1)) 0)
            (be_bytes64 ctx.count),
        length-append {0} (held_bytes ++ 0x80 ∷ []) (replicate (56 - (ctx.index + 1)) 0),
        length-append {0} held_bytes (0x80 ∷ []),
        length-replicate {A = ℕ} (56 - (ctx.index + 1)) 0,
        length-held_bytes,
      )

      zeros : 56 - (ctx.index + 1) ≡ zeros_left
      zeros = omega (arith, length-message)

  -- The mark fills one block, and the length takes another.
  abbrev mark_block : List ℕ
  mark_block = held_bytes ++ 0x80 ∷ [] ++ replicate (64 - (ctx.index + 1)) 0

  abbrev last_block : List ℕ
  last_block = replicate 56 0 ++ be_bytes64 ctx.count

  two_blocks-Closes :
      56 < ctx.index + 1
      → (state : List ℕ) → state ≡ compress (compress ctx.state mark_block) last_block
      → Closes m state
  two_blocks-Closes h state e = record {
    blocks = blocks ++ mark_block ∷ last_block ∷ [];
    full = All-append_blocks blocks _ full (is_block, (refl, tt));
    whole =
        concat_blocks-append blocks (mark_block ∷ last_block ∷ [])
        ∙ regroup_two (concat_blocks blocks) held_bytes _ _ _ 0x80
        ∙ ap₂ (λ (t z : List ℕ). t ++ 0x80 ∷ z ++ be_bytes64 ctx.count) (sym message)
            (replicate-append (64 - (ctx.index + 1)) 56 0 ∙ ap (λ n. replicate n 0) zeros)
        ∙ ap (λ c. m ++ 0x80 ∷ replicate zeros_left 0 ++ be_bytes64 c) v.counted;
    folded =
        e
        ∙ ap (λ s. compress (compress s mark_block) last_block) folded
        ∙ sym
            (unfold fold_blocks in fold_blocks-append h_init blocks (mark_block ∷ last_block ∷ []));
  }
    where
      is_block : IsBlock mark_block
      is_block = omega (
        arith,
        length-append {0} (held_bytes ++ 0x80 ∷ []) (replicate (64 - (ctx.index + 1)) 0),
        length-append {0} held_bytes (0x80 ∷ []),
        length-replicate {A = ℕ} (64 - (ctx.index + 1)) 0,
        length-held_bytes,
        room,
      )

      zeros : 64 - (ctx.index + 1) + 56 ≡ zeros_left
      zeros = omega (arith, length-message, room)

  abbrev filled : List ℕ
  filled = zero_fill (64 - (ctx.index + 1)) (ctx.index + 1) marked

  length-filled : length filled ≡ 64
  length-filled = length-zero_fill (64 - (ctx.index + 1)) (ctx.index + 1) marked ∙ length-marked

  filled_lem : filled ≡ mark_block
  filled_lem =
      sym (take_all 64 filled (omega (arith, length-filled)))
      ∙ ap (λ k. take k filled) upto
      ∙ take-zero_fill (64 - (ctx.index + 1)) (ctx.index + 1) marked
          (omega (arith, length-marked, room))
      ∙ ap (λ t. t ++ replicate (64 - (ctx.index + 1)) 0) take-marked
    where
      upto : 64 ≡ ctx.index + 1 + (64 - (ctx.index + 1))
      upto = omega (arith, room)

  finalize-Closes : Closes m (finalize ctx).0.state
  unfolding finalize
  finalize-Closes = elim (Bool-cases (ltb 56 (ctx.index + 1))) [
    | inl late ↦ rw late (
        two_blocks-Closes (ground arith) _ (
          close_block-state
            (record ctx { state = compress ctx.state filled; buffer = filled; index = 0 })
            length-filled (omega arith)
          ∙ ap (λ b. compress (compress ctx.state b) last_block) filled_lem))
    | inr early ↦ rw early (
        one_block-Closes (ground arith) _ (
          close_block-state (record ctx { buffer = marked; index = ctx.index + 1 }) length-marked
            (ground arith)
          ∙ ap
              (λ t.
                compress ctx.state
                  (t ++ replicate (56 - (ctx.index + 1)) 0 ++ be_bytes64 ctx.count))
              take-marked))
  ]

-- A context that has absorbed `m` is finalized to the SHA-256 digest of `m`.
pub finalize-Absorbs :
    (m : List ℕ) (ctx : Sha256Context) → Absorbs m ctx → (finalize ctx).1 ≡ sha256 m
finalize-Absorbs m ctx v =
    digest_of_state ctx ∙ Closes-digest m (finalize ctx).0.state (finalize-Closes m ctx v)
  where
    digest_of_state : (c : Sha256Context) → (finalize c).1 ≡ digest_bytes (finalize c).0.state
    digest_of_state c = unfold finalize in refl

-- `update` for each of a list of inputs in turn.
unfoldable pub update_all : Sha256Context → List (List ℕ) → Sha256Context
update_all ctx [] = ctx
update_all ctx (part ∷ parts) = update_all (update ctx part) parts

unfoldable pub joined : List (List ℕ) → List ℕ
joined [] = []
joined (part ∷ parts) = part ++ joined parts

update_all-Absorbs :
    (parts : List (List ℕ)) (m : List ℕ) (ctx : Sha256Context)
    → Absorbs m ctx
    → Absorbs (m ++ joined parts) (update_all ctx parts)
unfolding update_all joined
update_all-Absorbs [] m ctx v = rw append-nil v
update_all-Absorbs (part ∷ parts) m ctx v =
    rw (← append_assoc)
      (update_all-Absorbs parts (m ++ part) (update ctx part) (update-Absorbs m part ctx v))

-- A fresh context, fed a message cut into parts in any way and then finalized, gives the SHA-256
-- digest of the whole message: its padding, its blocks and its length are those of the standard.
pub finalize-update_all :
    (parts : List (List ℕ)) → (finalize (update_all new_context parts)).1 ≡ sha256 (joined parts)
finalize-update_all parts =
    finalize-Absorbs (joined parts) _ (update_all-Absorbs parts [] new_context new_context-Absorbs)
