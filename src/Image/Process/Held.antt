-- ===== src/Image/Process/Held.antt =====
-- While an image is processed, the work state holds at most the SHA-256 context that it has taken.
use esp32c3_bootloader_rust.Common.{
  ℕ, zero, suc, ◌+◌, ◌≡◌, refl, sym, ap, ◌∙◌, List, Bool, true, false, Bool-cases, Option-cases,
  inl, inr, none, some, ◌==◌, get_or, set,
}
use esp32c3_bootloader_rust.Common.Exit.{Ends}
use esp32c3_bootloader_rust.Platform.{Platform}
use esp32c3_bootloader_rust.Flash.{bootloader_mmap, bootloader_munmap}
use esp32c3_bootloader_rust.Flash.Mapping.{mmap-Frame}
use esp32c3_bootloader_rust.Sha256.Pool.{
  Pool, Handle, start_from, bootloader_sha256_data, bootloader_sha256_finish,
}
use esp32c3_bootloader_rust.Sha256.Pool.Session.{set_back}
use esp32c3_bootloader_rust.Image.Segments.{
  Work, give_up, map_or_exit, process_segment_data, record_segment, advance, hash_bytes, unmap,
  on_machine, on_pool, sha_abort,
}
use esp32c3_bootloader_rust.Image.Process.Kept.{map_or_exit-Ends}
use esp32c3_bootloader_rust.Image.Process.Walk.{Steps}
use Prim.Native.String.{String}

-- The flags `u` are those of `u0`, but for the context of the handle, which was free and is taken.
-- A context is held only when `sha_needed` says so.
abbrev pub HeldBy : List Bool → Bool → Handle → List Bool → Type 0
HeldBy u0 needed none u = u ≡ u0
HeldBy u0 needed (some i) u = (needed ≡ true) × (get_or u0 i true ≡ false) × (u ≡ set u0 i true)

pub start_from-HeldBy :
    (n i : ℕ) (p : Pool) → HeldBy p.used true (start_from n i p).0 (start_from n i p).1.used
unfolding start_from
start_from-HeldBy zero i p = refl
start_from-HeldBy (suc n) i p = elim (Bool-cases (get_or p.used i true)) [
  | inl busy ↦ rw (busy, start_from) (start_from-HeldBy n (i + 1) p)
  | inr free ↦ rw (free, start_from) (refl, free, refl)
]

-- Feeding a context does not touch the flags.
pub data-used :
    (p : Pool) (h : Handle) (bytes : List ℕ) → (bootloader_sha256_data p h bytes).used ≡ p.used
unfolding bootloader_sha256_data
data-used p none bytes = refl
data-used p (some i) bytes = refl

-- Finishing gives the context back.
pub finish-used :
    (u0 : List Bool) (needed : Bool) (h : Handle) (p : Pool)
    → HeldBy u0 needed h p.used
    → (bootloader_sha256_finish p h).1.used ≡ u0
unfolding bootloader_sha256_finish
finish-used u0 needed none p h = h
finish-used u0 needed (some i) p h = ap (λ u. set u i false) h.2 ∙ set_back u0 i h.1

module _ {Chip : Type 0} (env : Platform Chip) (u0 : List Bool) where
  abbrev pub Holds : Work Chip → Type 0
  Holds w = HeldBy u0 w.sha_needed w.sha_handle w.machine.pool.used

  abbrev pub Free : Work Chip → Type 0
  Free w = w.machine.pool.used ≡ u0

  -- A work state with the same handle and the same flags.
  same-Holds :
      (w w' : Work Chip)
      → w'.sha_needed ≡ w.sha_needed
      → w'.sha_handle ≡ w.sha_handle
      → w'.machine.pool.used ≡ w.machine.pool.used
      → Holds w
      → Holds w'
  same-Holds w w' e f g h = rw (e, f, g) h

  -- Nothing is held when no hash is needed.
  pub unneeded-Free :
      (needed : Bool) (h : Handle) (u : List Bool) → needed ≡ false → HeldBy u0 needed h u → u ≡ u0
  unneeded-Free needed none u e h = h
  unneeded-Free needed (some i) u e h = absurd (cc (sym e ∙ h.0))

  pub give_up-Free : (tag : String) (w : Work Chip) → Holds w → Free (give_up tag w)
  unfolding give_up on_machine sha_abort on_pool
  give_up-Free tag w h = elim (Bool-cases w.sha_needed) [
    | inl needed ↦ rw (needed) (finish-used u0 w.sha_needed w.sha_handle w.machine.pool h)
    | inr idle ↦ rw (idle) (unneeded-Free w.sha_needed w.sha_handle w.machine.pool.used idle h)
  ]

  mmap-Holds :
      (w : Work Chip) (addr size : ℕ)
      → Holds w
      → Holds (record w { machine = (bootloader_mmap env w.machine addr size).1 })
  mmap-Holds w addr size h =
      rw (ap (λ (p : Pool). p.used) (mmap-Frame env w.machine addr size).same_pool) h

  pub map_or_exit-Holds :
      (tag : String) (addr size : ℕ) (w : Work Chip)
      → Holds w
      → Ends (λ (_ : List ℕ). Holds) Free (map_or_exit env tag addr size w)
  map_or_exit-Holds tag addr size w h =
      map_or_exit-Ends env (λ _. Holds) Free tag addr size w
        (λ e. give_up-Free tag _ (mmap-Holds w addr size h)) (λ bytes e. mmap-Holds w addr size h)

  pub hash_bytes-Holds : (bytes : List ℕ) (w : Work Chip) → Holds w → Holds (hash_bytes bytes w)
  unfolding hash_bytes on_pool
  hash_bytes-Holds bytes w h = rw (data-used w.machine.pool w.sha_handle bytes) h

  process_segment_data-Holds :
      (load_addr data_addr data_len : ℕ) (do_load : Bool) (w : Work Chip)
      → Holds w
      → Holds (process_segment_data env load_addr data_addr data_len do_load w).1
  unfolding process_segment_data unmap on_machine bootloader_munmap hash_bytes on_pool
  process_segment_data-Holds load_addr data_addr data_len do_load w h =
      elim (Bool-cases (data_len == 0)) [
        | inl empty ↦ rw empty h
        | inr more ↦
            rw more (elim (Option-cases (bootloader_mmap env w.machine data_addr data_len).0) [
              | inl e ↦ rw e (mmap-Holds w data_addr data_len h)
              | inr (bytes, e) ↦ rw e (
                  rw
                    (data-used (bootloader_mmap env w.machine data_addr data_len).1.pool
                      w.sha_handle bytes)
                    (mmap-Holds w data_addr data_len h))
            ])
      ]

  record_segment-Holds :
      (i : ℕ) (seg_raw : List ℕ) (data_addr : ℕ) (w : Work Chip)
      → Holds w
      → Holds (record_segment env i seg_raw data_addr w)
  unfolding record_segment unmap on_machine bootloader_munmap hash_bytes on_pool
  record_segment-Holds i seg_raw data_addr w h = elim (Bool-cases w.sha_needed) [
    | inl needed ↦ rw (needed) (rw (data-used w.machine.pool w.sha_handle seg_raw, ← needed) h)
    | inr idle ↦ rw (idle) (rw (← idle) h)
  ]

  pub steps : Steps env Holds Holds Free
  unfolding advance
  steps = record {
    leave = give_up-Free;
    header = map_or_exit-Holds;
    note = record_segment-Holds;
    data_of = process_segment_data-Holds;
    further = λ seg w h. h;
  }
