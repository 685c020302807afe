-- ===== src/Image/Process/Walk.antt =====
-- The segment loop keeps whatever its steps keep. `In` is the claim between the mappings, `Mapped`
-- the one while a segment header is mapped, and `Out` the one on an early return.
use esp32c3_bootloader_rust.Common.{
  ℕ, zero, suc, ◌+◌, arith, List, Bool, Bool-cases, inl, inr, ◌&&◌,
}
use esp32c3_bootloader_rust.Common.Exit.{Outcome, Ends, Ends-and_then}
use esp32c3_bootloader_rust.Platform.{Platform}
use esp32c3_bootloader_rust.Image.{EspImageSegmentHeader, parse_segment, should_load}
use esp32c3_bootloader_rust.Image.Segments.{
  Work, ProcessFlags, give_up, map_or_exit, process_segment_data, check_addresses, load_segment,
  record_segment, advance, process_segment, process_segments,
}
use Prim.Native.String.{String}

-- What a claim needs of the steps.
pub record Steps {Chip : Type 0} (env : Platform Chip) (In Mapped Out : Work Chip → Type 0)
    : Type 0 where
  pub leave : (tag : String) (w : Work Chip) → In w → Out (give_up tag w)
  pub header :
      (tag : String) (addr size : ℕ) (w : Work Chip)
      → In w
      → Ends (λ (_ : List ℕ). Mapped) Out (map_or_exit env tag addr size w)
  pub note :
      (i : ℕ) (seg_raw : List ℕ) (data_addr : ℕ) (w : Work Chip)
      → Mapped w
      → In (record_segment env i seg_raw data_addr w)
  pub data_of :
      (load_addr data_addr data_len : ℕ) (do_load : Bool) (w : Work Chip)
      → In w
      → In (process_segment_data env load_addr data_addr data_len do_load w).1
  pub further : (seg : EspImageSegmentHeader) (w : Work Chip) → In w → In (advance env seg w)

module _ {Chip : Type 0} (env : Platform Chip) (In Mapped Out : Work Chip → Type 0)
    (steps : Steps env In Mapped Out) where
  abbrev Goes : Outcome (Work Chip) (Unit {0}) → Type 0
  Goes o = Ends (λ (_ : Unit {0}). In) Out o

  check_addresses-Goes :
      (do_load : Bool) (seg : EspImageSegmentHeader) (w : Work Chip)
      → In w
      → Goes (check_addresses env do_load seg w)
  unfolding check_addresses
  check_addresses-Goes do_load seg w h = ground (arith, steps.leave "[v]" w h)

  load_segment-Goes :
      (flags : ProcessFlags) (seg : EspImageSegmentHeader) (data_addr : ℕ) (w : Work Chip)
      → In w
      → Goes (load_segment env flags seg data_addr w)
  unfolding load_segment
  load_segment-Goes flags seg data_addr w h =
      let do_load = flags.load && should_load seg.load_addr in
      let after = steps.data_of seg.load_addr data_addr seg.data_len do_load w h in
      elim (Bool-cases
        (process_segment_data env seg.load_addr data_addr seg.data_len do_load w).0) [
          | inl t ↦ rw (t, Ends) after
          | inr f ↦ rw (f, Ends) (steps.leave "[d]" _ after)
        ]

  process_segment-Goes :
      (flags : ProcessFlags) (i : ℕ) (w : Work Chip) → In w → Goes (process_segment env flags i w)
  unfolding process_segment
  process_segment-Goes flags i w h =
      Ends-and_then (λ _. Mapped) (λ _. In) Out (map_or_exit env "[s]" w.next_addr 8 w) _
        (steps.header "[s]" w.next_addr 8 w h)
        λ seg_raw w1 h1.
          Ends-and_then (λ _. In) (λ _. In) Out
            (check_addresses env _ _ (record_segment env i seg_raw _ w1)) _
            (check_addresses-Goes _ (parse_segment seg_raw) _ (steps.note i seg_raw _ w1 h1))
            λ _ w2 h2.
              Ends-and_then (λ _. In) (λ _. In) Out (load_segment env flags _ _ w2) _
                (load_segment-Goes flags _ _ w2 h2)
                λ _ w3 h3. steps.further (parse_segment seg_raw) w3 h3

  pub process_segments-Goes :
      (n i : ℕ) (flags : ProcessFlags) (w : Work Chip)
      → In w
      → Ends (λ (_ : Unit {0}). In) Out (process_segments env n i flags w)
  unfolding process_segments
  process_segments-Goes zero i flags w h = h
  process_segments-Goes (suc n) i flags w h =
      Ends-and_then (λ _. In) (λ _. In) Out (process_segment env flags i w) _
        (process_segment-Goes flags i w h) λ _. process_segments-Goes n (i + 1) flags
