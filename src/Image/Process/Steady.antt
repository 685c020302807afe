-- ===== src/Image/Process/Steady.antt =====
-- Processing an image leaves the chip alone, what the driver knows of the eFuse, and the size of
-- the array of SHA-256 contexts.
use esp32c3_bootloader_rust.Common.{
  ℕ, ◌≡◌, refl, ap, ◌∙◌, List, Bool, true, false, Bool-cases, Option-cases, inl, inr, length,
  if◌then◌else◌, ◌==◌,
}
use esp32c3_bootloader_rust.Common.Exit.{Outcome, Ends}
use esp32c3_bootloader_rust.Platform.{Platform}
use esp32c3_bootloader_rust.Flash.{Machine, bootloader_mmap, bootloader_munmap}
use esp32c3_bootloader_rust.Flash.Mapping.{mmap-Frame}
use esp32c3_bootloader_rust.Flash.Stored.{Knows, mmap-Knows}
use esp32c3_bootloader_rust.Sha256.Pool.{Pool}
use esp32c3_bootloader_rust.Image.Segments.{
  Work, give_up, map_or_exit, process_segment_data, record_segment, advance, hash_bytes, unmap,
  on_machine, on_pool, sha_abort,
}
use esp32c3_bootloader_rust.Image.Process.Kept.{map_or_exit-Ends}
use esp32c3_bootloader_rust.Image.Process.Walk.{Steps}
use Prim.Native.String.{String}
use esp32c3_bootloader_rust.Sha256.Pool.Size.{data-size, finish-size}

-- What holds of the machine between two attempts to load an image.
pub record IsSteady {Chip : Type 0} (env : Platform Chip) (c : Chip) (m : Machine Chip)
    : Type 0 where
  pub same_chip : m.chip ≡ c
  pub knows : Knows env m
  pub contexts_size : length m.pool.contexts ≡ 2

pub mmap-IsSteady :
    {Chip : Type 0} (env : Platform Chip) (c : Chip) (m : Machine Chip) (addr size : ℕ)
    → IsSteady env c m
    → IsSteady env c (bootloader_mmap env m addr size).1
mmap-IsSteady env c m addr size h =
    let frame = mmap-Frame env m addr size in
    record {
      same_chip = frame.same_chip ∙ h.same_chip;
      knows = mmap-Knows env m addr size h.knows;
      contexts_size = ap (λ (p : Pool). length p.contexts) frame.same_pool ∙ h.contexts_size;
    }

-- A change of the machine that leaves the three alone.
pub same-IsSteady :
    {Chip : Type 0} (env : Platform Chip) (c : Chip) (m m' : Machine Chip)
    → m'.chip ≡ m.chip
    → m'.enc_checked ≡ m.enc_checked
    → m'.encrypted ≡ m.encrypted
    → m'.current_read_mapping ≡ m.current_read_mapping
    → length m'.pool.contexts ≡ length m.pool.contexts
    → IsSteady env c m
    → IsSteady env c m'
same-IsSteady env c m m' e f g n s h = record {
  same_chip = e ∙ h.same_chip;
  knows = rw (f, g, n) h.knows;
  contexts_size = s ∙ h.contexts_size;
}

module _ {Chip : Type 0} (env : Platform Chip) (c : Chip) where
  abbrev pub Steady : Work Chip → Type 0
  Steady w = IsSteady env c w.machine

  abbrev pub SteadyBy : (A : Type 0) → Outcome (Work Chip) A → Type 0
  SteadyBy A o = Ends (λ (_ : A). Steady) Steady o

  pub give_up-Steady : (tag : String) (w : Work Chip) → Steady w → Steady (give_up tag w)
  unfolding give_up on_machine sha_abort on_pool
  give_up-Steady tag w h = elim (Bool-cases w.sha_needed) [
    | inl needed ↦ rw (needed) (
        same-IsSteady env c w.machine _ refl refl refl refl
          (finish-size w.machine.pool w.sha_handle) h)
    | inr idle ↦ rw (idle) (same-IsSteady env c w.machine _ refl refl refl refl refl h)
  ]

  pub map_or_exit-Steady :
      (tag : String) (addr size : ℕ) (w : Work Chip)
      → Steady w
      → SteadyBy (List ℕ) (map_or_exit env tag addr size w)
  map_or_exit-Steady tag addr size w h =
      map_or_exit-Ends env (λ _. Steady) Steady tag addr size w
        (λ e. give_up-Steady tag _ (mmap-IsSteady env c w.machine addr size h))
        (λ bytes e. mmap-IsSteady env c w.machine addr size h)

  hash_bytes-Steady : (bytes : List ℕ) (w : Work Chip) → Steady w → Steady (hash_bytes bytes w)
  unfolding hash_bytes on_pool
  hash_bytes-Steady bytes w h =
      same-IsSteady env c w.machine _ refl refl refl refl
        (data-size w.machine.pool w.sha_handle bytes) h

  pub unmap-Steady : (w : Work Chip) → Steady w → Steady (unmap w)
  unfolding unmap on_machine bootloader_munmap
  unmap-Steady w h = same-IsSteady env c w.machine _ refl refl refl refl refl h

  process_segment_data-Steady :
      (load_addr data_addr data_len : ℕ) (do_load : Bool) (w : Work Chip)
      → Steady w
      → Steady (process_segment_data env load_addr data_addr data_len do_load w).1
  unfolding process_segment_data unmap on_machine bootloader_munmap hash_bytes on_pool
  process_segment_data-Steady load_addr data_addr data_len do_load w h =
      elim (Bool-cases (data_len == 0)) [
        | inl empty ↦ rw empty h
        | inr more ↦
            let mapped = record w {
              machine = (bootloader_mmap env w.machine data_addr data_len).1;
            } in
            let s = mmap-IsSteady env c w.machine data_addr data_len h in
            rw more (elim (Option-cases (bootloader_mmap env w.machine data_addr data_len).0) [
              | inl e ↦ rw e s
              | inr (bytes, e) ↦ rw e (
                  same-IsSteady env c mapped.machine _ refl refl refl refl
                    (data-size mapped.machine.pool w.sha_handle bytes) s)
            ])
      ]

  pub optional_hash-Steady :
      (bytes : List ℕ) (w : Work Chip) (b : Bool)
      → Steady w
      → Steady (if b then hash_bytes bytes w else w)
  optional_hash-Steady bytes w true h = hash_bytes-Steady bytes w h
  optional_hash-Steady bytes w false h = h

  record_segment-Steady :
      (i : ℕ) (seg_raw : List ℕ) (data_addr : ℕ) (w : Work Chip)
      → Steady w
      → Steady (record_segment env i seg_raw data_addr w)
  unfolding record_segment
  record_segment-Steady i seg_raw data_addr w h =
      optional_hash-Steady seg_raw _ _ (unmap-Steady w h)

  pub steps : Steps env Steady Steady Steady
  unfolding advance
  steps = record {
    leave = give_up-Steady;
    header = map_or_exit-Steady;
    note = record_segment-Steady;
    data_of = process_segment_data-Steady;
    further = λ seg w h. h;
  }
