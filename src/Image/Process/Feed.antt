-- ===== src/Image/Process/Feed.antt =====
-- What the segment loop of `process_image` reads: the bytes it feeds to the hash, the bytes it adds
-- to the checksum, and where it stops.
use esp32c3_bootloader_rust.Common.{
  ℕ, zero, suc, ◌+◌, ◌≡◌, ◌⊎◌, inl, inr, refl, sym, ap, ◌∙◌, arith, subst, List, [], ◌++◌,
  append_assoc, append-nil, Bool, false, ◌&&◌, Bool-cases, Option-cases, some, ◌==◌, add32,
}
use esp32c3_bootloader_rust.Common.Exit.{Ends, Ends-and_then, Ends-mono, Left}
use esp32c3_bootloader_rust.Platform.{Platform}
use esp32c3_bootloader_rust.Flash.{bootloader_mmap, bootloader_munmap}
use esp32c3_bootloader_rust.Flash.Stored.{stored, mmap-stored}
use esp32c3_bootloader_rust.Sha256.Pool.{Pool}
use esp32c3_bootloader_rust.Image.{
  EspImageHeader, EspImageSegmentHeader, parse_segment, should_load,
}
use esp32c3_bootloader_rust.Image.Segments.{
  Work, ProcessFlags, xor_bytes, map_or_exit, process_segment_data, check_addresses, load_segment,
  record_segment, advance, process_segment, process_segments, hash_bytes, unmap, on_machine,
  on_pool,
}
use esp32c3_bootloader_rust.Image.Process.Layout.{Body, data_at, segments_at}
use esp32c3_bootloader_rust.Image.Process.Reading.{
  xor_bytes-append, At, data-Fed, mapped-At, reached-At, map_or_exit-At, unmap-At, metadata-At,
  hash_bytes-At,
}

module _ {Chip : Type 0} (env : Platform Chip) (chip : Chip) (needed : Bool) (before : Pool) (h : ℕ)
    (image : EspImageHeader) where
  abbrev Stage : List ℕ → ℕ → ℕ → Work Chip → Type 0
  Stage = At env chip needed before h image

  record_segment-At :
      (m seg_raw : List ℕ) (sum addr i data_addr : ℕ) (w : Work Chip)
      → Stage m sum addr w
      → Stage (m ++ seg_raw) sum addr (record_segment env i seg_raw data_addr w)
  unfolding record_segment
  record_segment-At m seg_raw sum addr i data_addr w a =
      metadata-At env chip needed before h image _ sum addr _ _ refl (
        hash_bytes-At env chip needed before h image m seg_raw sum addr _ (
          unmap-At env chip needed before h image m sum addr _
            (metadata-At env chip needed before h image m sum addr _ w refl a)))

  -- The data of a segment is what the flash holds there; it is fed, and added to the checksum.
  process_segment_data-At :
      (m : List ℕ) (sum addr load_addr data_addr data_len : ℕ) (do_load : Bool) (w : Work Chip)
      → Stage m sum addr w
      → let (ok, v) = process_segment_data env load_addr data_addr data_len do_load w in
        (ok ≡ false)
        ⊎ ((bytes : List ℕ) × (data_at env chip data_addr data_len ≡ some bytes)
            × Stage (m ++ bytes) (xor_bytes sum bytes) addr v)
  unfolding process_segment_data unmap on_machine bootloader_munmap hash_bytes on_pool data_at
      xor_bytes
  process_segment_data-At m sum addr load_addr data_addr data_len do_load w a =
      elim (Bool-cases (data_len == 0)) [
        | inl empty ↦ rw empty (inr ([], refl, rw append-nil a))
        | inr more ↦
            rw more (elim (Option-cases (bootloader_mmap env w.machine data_addr data_len).0) [
              | inl e ↦ rw e (inl refl)
              | inr (bytes, e) ↦
                  let b =
                    mapped-At env chip needed before h image m sum addr data_addr data_len w a in
                  rw e (
                    inr (
                      bytes,
                      rw (← a.same_chip)
                          (mmap-stored env w.machine data_addr data_len bytes a.knows e),
                      record {
                        same_chip = b.same_chip;
                        knows = b.knows;
                        summed = ap (λ c. xor_bytes c bytes) b.summed;
                        reached = b.reached;
                        wanted = b.wanted;
                        parsed = b.parsed;
                        fed = data-Fed env chip needed before h image m bytes _ _ b.fed;
                      },
                    ))
            ])
      ]

  check_addresses-At :
      (m : List ℕ) (sum addr : ℕ) (do_load : Bool) (seg : EspImageSegmentHeader) (w : Work Chip)
      → Stage m sum addr w
      → Ends (λ (_ : Unit {0}). Stage m sum addr) Left (check_addresses env do_load seg w)
  unfolding check_addresses
  check_addresses-At m sum addr do_load seg w a = ground (arith, a)

  load_segment-At :
      (m : List ℕ) (sum addr : ℕ) (flags : ProcessFlags) (seg : EspImageSegmentHeader)
      (data_addr : ℕ) (w : Work Chip)
      → Stage m sum addr w
      → Ends
          (λ (_ : Unit {0}) v.
            (bytes : List ℕ) × (data_at env chip data_addr seg.data_len ≡ some bytes)
            × Stage (m ++ bytes) (xor_bytes sum bytes) addr v)
          Left
          (load_segment env flags seg data_addr w)
  unfolding load_segment
  load_segment-At m sum addr flags seg data_addr w a =
      let do_load = flags.load && should_load seg.load_addr in
      let r = process_segment_data env seg.load_addr data_addr seg.data_len do_load w in
      elim (Bool-cases r.0) [
        | inl t ↦
            rw (t, Ends)
              (elim (process_segment_data-At m sum addr seg.load_addr data_addr seg.data_len do_load
                w a) [ inl f ↦ absurd (cc (sym t ∙ f)) | inr found ↦ found ])
        | inr f ↦ rw (f, Ends) tt
      ]

  process_segment-At :
      (m : List ℕ) (sum i : ℕ) (flags : ProcessFlags) (w : Work Chip)
      → Stage m sum w.next_addr w
      → Ends
          (λ (_ : Unit {0}) v.
            (header bytes : List ℕ) × (stored env chip w.next_addr 8 ≡ some header)
            × (data_at env chip (add32 w.next_addr 8) (parse_segment header).data_len ≡ some bytes)
            × Stage
                (m ++ (header ++ bytes))
                (xor_bytes sum bytes)
                (add32 w.next_addr (add32 8 (parse_segment header).data_len))
                v)
          Left
          (process_segment env flags i w)
  unfolding process_segment advance
  process_segment-At m sum i flags w a =
      Ends-and_then _ _ Left (map_or_exit env "[s]" w.next_addr 8 w) _
        (map_or_exit-At env chip needed before h image m sum w.next_addr w.next_addr 8 "[s]" w a)
        λ seg_raw w1 h1.
          Ends-and_then _ _ Left (check_addresses env _ _ (record_segment env i seg_raw _ w1)) _
            (check_addresses-At _ sum w.next_addr _ (parse_segment seg_raw) _
              (record_segment-At m seg_raw sum w.next_addr i _ w1 h1.1))
            λ _ w2 h2.
              Ends-and_then _ _ Left (load_segment env flags _ _ w2) _
                (load_segment-At _ sum w.next_addr flags (parse_segment seg_raw) _ w2 h2)
                λ _ w3 (bytes, found, b). (
                  seg_raw,
                  bytes,
                  h1.0,
                  found,
                  record {
                    same_chip = b.same_chip;
                    knows = b.knows;
                    summed = b.summed;
                    reached =
                        ap (λ n. add32 n (add32 8 (parse_segment seg_raw).data_len)) b.reached;
                    wanted = b.wanted;
                    parsed = b.parsed;
                    fed = rw (← append_assoc) b.fed;
                  },
                )

  -- Where the loop ends normally, the flash holds the segments that it went through.
  pub process_segments-At :
      (n i : ℕ) (m : List ℕ) (sum addr : ℕ) (flags : ProcessFlags) (w : Work Chip)
      → Stage m sum addr w
      → Ends
          (λ (_ : Unit {0}) v.
            (body : Body) × (segments_at env chip n addr ≡ some body)
            × Stage (m ++ body.bytes) (xor_bytes sum body.payload) body.next v)
          Left
          (process_segments env n i flags w)
  unfolding process_segments segments_at xor_bytes
  process_segments-At zero i m sum addr flags w a =
      (record { bytes = []; payload = []; next = addr }, refl, rw append-nil a)
  process_segments-At (suc n) i m sum addr flags w a =
      Ends-and_then _ _ Left (process_segment env flags i w) _
        (process_segment-At m sum i flags w (reached-At env chip needed before h image w a))
        λ _ w1 (header, bytes, e1, e2, b).
          Ends-mono _ _ Left Left (process_segments env n (i + 1) flags w1)
            (process_segments-At n (i + 1) _ _ _ flags w1 b)
            (λ _ v (body, e3, c). (
              record {
                bytes = header ++ (bytes ++ body.bytes);
                payload = bytes ++ body.payload;
                next = body.next;
              },
              rw (← a.reached) (rw (segments_at, e1, e2, e3) refl),
              rw (xor_bytes-append bytes body.payload sum) (
                  subst (λ l. Stage l (xor_bytes (xor_bytes sum bytes) body.payload) body.next v)
                    (append_assoc m (header ++ bytes) body.bytes
                      ∙ ap (λ l. m ++ l) (append_assoc header bytes body.bytes))
                    c),
            ))
            λ v t. tt
