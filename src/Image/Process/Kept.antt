-- ===== src/Image/Process/Kept.antt =====
-- Processing the segments of an image writes nothing to the bootloader's own code or data.
use esp32c3_bootloader_rust.Common.{
  ℕ, zero, suc, ◌+◌, ◌≤◌, ◌<◌, ◌≡◌, ◌⊎◌, inl, inr, refl, ap, ◌∙◌, arith, List, [], ◌∷◌, Bool, true,
  ◌&&◌, ◌||◌, not, Bool-cases, some, Option-cases, none, length, add32, if◌then◌else◌, ◌==◌,
  &&-true,
}
use esp32c3_bootloader_rust.Common.Exit.{Outcome, Ends, Ends-and_then}
use esp32c3_bootloader_rust.Platform.{Platform}
use Prim.Native.String.{String}
use native.Mathlib.Decide.{dec_lt}
use esp32c3_bootloader_rust.Flash.{bootloader_mmap, bootloader_munmap}
use esp32c3_bootloader_rust.Flash.Mapping.{mmap-Frame, mmap-some}
use esp32c3_bootloader_rust.Flash.Contents.{Delivers, mmap-contents}
use esp32c3_bootloader_rust.Image.{
  EspImageSegmentHeader, parse_segment, should_load, verify_load_addresses,
}
use esp32c3_bootloader_rust.Image.Header.{should_load-should_map, verify_load_addresses_lem}
use esp32c3_bootloader_rust.Image.Segments.{
  Work, ProcessFlags, copy_to_ram, give_up, map_or_exit, process_segment_data, check_addresses,
  load_segment, record_segment, advance, process_segment, process_segments, hash_bytes, unmap,
  on_machine,
}

-- The bootloader's code and its static data.
abbrev pub IsProtected : {Chip : Type 0} → Platform Chip → ℕ → Type 0
IsProtected env a = ((env.stext ≤ a) × (a < env.etext)) ⊎ ((env.data_start ≤ a) × (a < env.bss_end))

-- A copy writes only its own range.
pub copy_to_ram-outside :
    (bytes : List ℕ) (ram : ℕ → ℕ) (addr a : ℕ)
    → (a < addr) ⊎ (addr + length bytes ≤ a)
    → copy_to_ram ram addr bytes a ≡ ram a
unfolding copy_to_ram
copy_to_ram-outside [] ram addr a h = refl
copy_to_ram-outside (b ∷ bs) ram addr a h =
    copy_to_ram-outside bs (λ x. if x == addr then b else ram x) (addr + 1) a (omega arith)
    ∙ ground arith

module _ {Chip : Type 0} (env : Platform Chip) where
  -- The two ends of a mapping with an early return.
  pub map_or_exit-Ends :
      (Q : List ℕ → Work Chip → Type 0) (E : Work Chip → Type 0) (tag : String) (addr size : ℕ)
      (w : Work Chip)
      → ((bootloader_mmap env w.machine addr size).0 ≡ none
          → E (give_up tag (record w { machine = (bootloader_mmap env w.machine addr size).1 })))
      → ((bytes : List ℕ)
          → (bootloader_mmap env w.machine addr size).0 ≡ some bytes
          → Q bytes (record w { machine = (bootloader_mmap env w.machine addr size).1 }))
      → Ends Q E (map_or_exit env tag addr size w)
  unfolding map_or_exit
  map_or_exit-Ends Q E tag addr size w failed mapped =
      elim (Option-cases (bootloader_mmap env w.machine addr size).0) [
        | inl e ↦ rw (e, Ends) (failed e)
        | inr (bytes, e) ↦ rw (e, Ends) (mapped bytes e)
      ]

module _ {Chip : Type 0} (env : Platform Chip) (d : Delivers env) (a v : ℕ)
    (inside : IsProtected env a) where
  abbrev pub Kept : Work Chip → Type 0
  Kept w = w.machine.ram a ≡ v

  abbrev pub KeptBy : (A : Type 0) → Outcome (Work Chip) A → Type 0
  KeptBy A o = Ends (λ (_ : A). Kept) Kept o

  pub give_up-Kept : (tag : String) (w : Work Chip) → Kept w → Kept (give_up tag w)
  unfolding give_up
  give_up-Kept tag w h = ground arith

  pub mmap-Kept :
      (w : Work Chip) (addr size : ℕ)
      → Kept w
      → (bootloader_mmap env w.machine addr size).1.ram a ≡ v
  mmap-Kept w addr size h =
      ap (λ (r : ℕ → ℕ). r a) (mmap-Frame env w.machine addr size).same_ram ∙ h

  pub map_or_exit-Kept :
      (tag : String) (addr size : ℕ) (w : Work Chip)
      → Kept w
      → KeptBy (List ℕ) (map_or_exit env tag addr size w)
  map_or_exit-Kept tag addr size w h =
      map_or_exit-Ends env (λ _. Kept) Kept tag addr size w
        (λ e. give_up-Kept tag _ (mmap-Kept w addr size h)) (λ bytes e. mmap-Kept w addr size h)

  -- A copied segment was checked: its range avoids the protected address.
  abbrev IsChecked : ℕ → ℕ → Bool → Type 0
  IsChecked load_addr data_len do_load =
      do_load ≡ true
      → (should_load load_addr ≡ true)
        × (verify_load_addresses env load_addr (add32 load_addr data_len) ≡ true)

  copy-Kept :
      (ram : ℕ → ℕ) (load_addr data_len : ℕ) (bytes : List ℕ)
      → ram a ≡ v
      → length bytes ≡ data_len
      → data_len ≤ 4093
      → should_load load_addr ≡ true
      → verify_load_addresses env load_addr (add32 load_addr data_len) ≡ true
      → copy_to_ram ram load_addr bytes a ≡ v
  copy-Kept ram load_addr data_len bytes h len small sl va =
      copy_to_ram-outside bytes ram load_addr a (elim (dec_lt a load_addr) [
        | yes below ↦ inl below
        | no not_below ↦ elim (dec_lt a (load_addr + data_len)) [
          | yes within ↦ absurd (
              apart (
                verify_load_addresses_lem env load_addr data_len a (rw no_wrap at va) (omega arith)
                  within))
          | no above ↦ inr (omega arith)
        ]
      ])
      ∙ h
    where
      no_wrap : add32 load_addr data_len ≡ load_addr + data_len
      no_wrap =
          omega (
            arith,
            (should_load-should_map load_addr sl).1,
            (should_load-should_map load_addr sl).2,
          )

      apart : ((a < env.stext) ⊎ (env.etext ≤ a)) × ((a < env.data_start) ⊎ (env.bss_end ≤ a)) → ⊥
      apart h = omega arith

  process_segment_data-Kept :
      (load_addr data_addr data_len : ℕ) (do_load : Bool) (w : Work Chip)
      → Kept w
      → IsChecked load_addr data_len do_load
      → Kept (process_segment_data env load_addr data_addr data_len do_load w).1
  unfolding process_segment_data bootloader_munmap
  process_segment_data-Kept load_addr data_addr data_len do_load w h checked =
      elim (Bool-cases (data_len == 0)) [
        | inl empty ↦ rw empty h
        | inr more ↦
            rw more (elim (Option-cases (bootloader_mmap env w.machine data_addr data_len).0) [
              | inl e ↦ rw e (mmap-Kept w data_addr data_len h)
              | inr (bytes, e) ↦ rw e (elim (Bool-cases do_load) [
                | inl yes_load ↦ rw yes_load (
                    copy-Kept _ load_addr data_len bytes (mmap-Kept w data_addr data_len h)
                      (mmap-contents env w.machine data_addr data_len bytes d e).0
                      (mmap-some env w.machine data_addr data_len bytes e).2 (checked yes_load).0
                      (checked yes_load).1)
                | inr no_load ↦ rw no_load (mmap-Kept w data_addr data_len h)
              ])
            ])
      ]

  record_segment-Kept :
      (i : ℕ) (seg_raw : List ℕ) (data_addr : ℕ) (w : Work Chip)
      → Kept w
      → Kept (record_segment env i seg_raw data_addr w)
  unfolding record_segment unmap on_machine bootloader_munmap hash_bytes
  record_segment-Kept i seg_raw data_addr w h = ground arith

  check_addresses-Kept :
      (flags : ProcessFlags) (seg : EspImageSegmentHeader) (w : Work Chip)
      → Kept w
      → Ends
          (λ (_ : Unit {0}) s.
            Kept s × IsChecked seg.load_addr seg.data_len (flags.load && should_load seg.load_addr))
          Kept
          (check_addresses env (flags.load && should_load seg.load_addr) seg w)
  unfolding check_addresses
  check_addresses-Kept flags seg w h = elim (Bool-cases test) [
    | inl t ↦
        rw (t, Ends)
          (
            h,
            λ yes. ((&&-true flags.load (should_load seg.load_addr) yes).1, ground (arith, t, yes)),
          )
    | inr f ↦ rw (f, Ends) (give_up-Kept "[v]" w h)
  ]
    where
      test : Bool
      test =
          not (flags.load && should_load seg.load_addr)
          || verify_load_addresses env seg.load_addr (add32 seg.load_addr seg.data_len)

  load_segment-Kept :
      (flags : ProcessFlags) (seg : EspImageSegmentHeader) (data_addr : ℕ) (w : Work Chip)
      → Kept w × IsChecked seg.load_addr seg.data_len (flags.load && should_load seg.load_addr)
      → KeptBy (Unit {0}) (load_segment env flags seg data_addr w)
  unfolding load_segment
  load_segment-Kept flags seg data_addr w (h, c) =
      elim (Bool-cases
        (process_segment_data env seg.load_addr data_addr seg.data_len
          (flags.load && should_load seg.load_addr) w).0) [
            | inl t ↦ rw (t, Ends) after
            | inr f ↦ rw (f, Ends) (give_up-Kept "[d]" _ after)
          ]
    where
      after :
          Kept
            (process_segment_data env seg.load_addr data_addr seg.data_len
              (flags.load && should_load seg.load_addr)
              w).1
      after =
          process_segment_data-Kept seg.load_addr data_addr seg.data_len
            (flags.load && should_load seg.load_addr) w h c

  process_segment-Kept :
      (flags : ProcessFlags) (i : ℕ) (w : Work Chip)
      → Kept w
      → KeptBy (Unit {0}) (process_segment env flags i w)
  unfolding process_segment advance
  process_segment-Kept flags i w h =
      Ends-and_then (λ _. Kept) (λ _. Kept) Kept (map_or_exit env "[s]" w.next_addr 8 w) _
        (map_or_exit-Kept "[s]" w.next_addr 8 w h)
        λ seg_raw w1 h1.
          Ends-and_then _ (λ _. Kept) Kept
            (check_addresses env _ _ (record_segment env i seg_raw _ w1)) _
            (check_addresses-Kept flags (parse_segment seg_raw) _
              (record_segment-Kept i seg_raw _ w1 h1))
            λ _ w2 h2.
              Ends-and_then (λ _. Kept) (λ _. Kept) Kept (load_segment env flags _ _ w2) _
                (load_segment-Kept flags _ _ w2 h2) λ _ w3 h3. h3

  pub process_segments-Kept :
      (n i : ℕ) (flags : ProcessFlags) (w : Work Chip)
      → Kept w
      → KeptBy (Unit {0}) (process_segments env n i flags w)
  unfolding process_segments
  process_segments-Kept zero i flags w h = h
  process_segments-Kept (suc n) i flags w h =
      Ends-and_then (λ _. Kept) (λ _. Kept) Kept (process_segment env flags i w) _
        (process_segment-Kept flags i w h) λ _. process_segments-Kept n (i + 1) flags
