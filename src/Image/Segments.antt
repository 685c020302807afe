-- ===== src/Image/Segments.antt =====
-- The segment loop of `process_image` in src/image.rs, on its local variables `Work`.
use esp32c3_bootloader_rust.Common.{
  ℕ, zero, suc, ◌+◌, bit_xor, List, [], ◌∷◌, Bool, true, false, ◌&&◌, ◌||◌, not, none, some,
  if◌then◌else◌, ◌==◌, replicate, set, add32,
}
use esp32c3_bootloader_rust.Common.Exit.{done, exit, Code, ◌>>=◌, ◌>>◌, give, modify}
use esp32c3_bootloader_rust.Sha256.Pool.{
  Pool, Handle, bootloader_sha256_data, bootloader_sha256_finish,
}
use esp32c3_bootloader_rust.Platform.{Platform}
use esp32c3_bootloader_rust.Flash.{Machine, bootloader_mmap, bootloader_munmap, debug_tx_str}
use esp32c3_bootloader_rust.Image.{
  EspImageSegmentHeader, EspImageMetadata, parse_segment, should_load, verify_load_addresses,
}
use Prim.Native.String.{String}

pub record ProcessFlags : Type 0 where
  pub verify : Bool
  pub load : Bool

pub record PartitionPos : Type 0 where
  pub offset : ℕ
  pub size : ℕ

-- The machine, the caller's metadata, and the local variables of `process_image`.
pub record Work (Chip : Type 0) : Type 0 where
  pub machine : Machine Chip
  pub metadata : EspImageMetadata
  pub checksum : ℕ
  pub next_addr : ℕ
  pub sha_needed : Bool
  pub sha_handle : Handle

-- Two lists of bytes compare equal.
unfoldable pub bytes_eq : List ℕ → List ℕ → Bool
bytes_eq [] [] = true
bytes_eq [] (y ∷ ys) = false
bytes_eq (x ∷ xs) [] = false
bytes_eq (x ∷ xs) (y ∷ ys) = x == y && bytes_eq xs ys

-- `for &byte in data { *checksum ^= byte; }`
unfoldable pub xor_bytes : ℕ → List ℕ → ℕ
xor_bytes checksum [] = checksum
xor_bytes checksum (byte ∷ rest) = xor_bytes (bit_xor checksum byte) rest

-- `copy_nonoverlapping(data, load_addr, len)`
unfoldable pub copy_to_ram : (ℕ → ℕ) → ℕ → List ℕ → ℕ → ℕ
copy_to_ram ram addr [] = ram
copy_to_ram ram addr (byte ∷ rest) =
    copy_to_ram (λ a. if a == addr then byte else ram a) (addr + 1) rest

-- `PUB_KEY_X` and `PUB_KEY_Y`, behind the SEC1 prefix
abbrev pub sec1_key : List ℕ
sec1_key = 0x04 ∷ replicate 64 0

module _ {Chip : Type 0} where
  unfoldable pub on_machine : (Machine Chip → Machine Chip) → Work Chip → Work Chip
  on_machine f w = record w { machine = f w.machine }

  unfoldable pub on_pool : (Pool → Pool) → Work Chip → Work Chip
  on_pool f w = record w { machine = record w.machine { pool = f w.machine.pool } }

  -- `bootloader_sha256_data`, which does nothing without a context.
  unfoldable pub hash_bytes : List ℕ → Work Chip → Work Chip
  unfolding on_pool
  hash_bytes bytes w = on_pool (λ p. bootloader_sha256_data p w.sha_handle bytes) w

  -- `sha_abort`: the digest goes to a dummy buffer.
  unfoldable pub sha_abort : Work Chip → Work Chip
  unfolding on_pool
  sha_abort w = on_pool (λ p. (bootloader_sha256_finish p w.sha_handle).1) w

  -- The way out of a failed step: the tag is printed, and a context that is held is released.
  unfoldable pub give_up : String → Work Chip → Work Chip
  unfolding on_machine sha_abort
  give_up tag w =
      let told = on_machine (debug_tx_str tag) w in if told.sha_needed then sha_abort told else told

  unfoldable pub unmap : Work Chip → Work Chip
  unfolding on_machine
  unmap w = on_machine bootloader_munmap w

  abbrev pub current : Code (Work Chip) (Work Chip)
  current w = done w w

  -- `if !ok { .. return false; }`
  abbrev pub require : Bool → (Work Chip → Work Chip) → Code (Work Chip) (Unit {0})
  require true quit w = done tt w
  require false quit w = exit (quit w)

module _ {Chip : Type 0} (env : Platform Chip) where
  -- `bootloader_mmap` with the early return on null.
  unfoldable pub map_or_exit : String → ℕ → ℕ → Code (Work Chip) (List ℕ)
  map_or_exit tag addr size w =
      let (mapping, machine) = bootloader_mmap env w.machine addr size in
      elim mapping [
        | none ↦ exit (give_up tag (record w { machine = machine }))
        | some bytes ↦ done bytes (record w { machine = machine })
      ]

  unfoldable pub process_segment_data : ℕ → ℕ → ℕ → Bool → Work Chip → Bool × Work Chip
  unfolding unmap hash_bytes
  process_segment_data load_addr data_addr data_len do_load w =
      if data_len == 0
      then (true, w)
      else (let (mapping, machine) = bootloader_mmap env w.machine data_addr data_len in
          elim mapping [
            | none ↦ (false, record w { machine = machine })
            | some bytes ↦
                let summed = record w {
                  machine = machine;
                  checksum = xor_bytes w.checksum bytes;
                } in
                let hashed = hash_bytes bytes summed in
                let ram = copy_to_ram hashed.machine.ram load_addr bytes in
                let loaded = record hashed {
                  machine = record hashed.machine {
                    ram = if do_load then ram else hashed.machine.ram;
                  };
                } in
                (true, unmap loaded)
          ])

  -- The load addresses are checked only for a segment that is copied to RAM.
  unfoldable pub check_addresses : Bool → EspImageSegmentHeader → Code (Work Chip) (Unit {0})
  check_addresses do_load seg =
      require
        (not do_load || verify_load_addresses env seg.load_addr (add32 seg.load_addr seg.data_len))
        (give_up "[v]")

  unfoldable pub load_segment :
      ProcessFlags → EspImageSegmentHeader → ℕ → Code (Work Chip) (Unit {0})
  load_segment flags seg data_addr w =
      let do_load = flags.load && should_load seg.load_addr in
      let (ok, after) = process_segment_data seg.load_addr data_addr seg.data_len do_load w in
      if ok then done tt after else exit (give_up "[d]" after)

  -- `data.segments[i] = ..`, then the hash of the segment header and `data.segment_data[i] = ..`
  unfoldable pub record_segment : ℕ → List ℕ → ℕ → Work Chip → Work Chip
  unfolding unmap hash_bytes
  record_segment i seg_raw data_addr w =
      let noted = unmap (record w {
        metadata = record w.metadata {
          segments = set w.metadata.segments i (parse_segment seg_raw);
        };
      }) in
      let hashed = if noted.sha_needed then hash_bytes seg_raw noted else noted in
      record hashed {
        metadata = record hashed.metadata {
          segment_data = set hashed.metadata.segment_data i data_addr;
        };
      }

  unfoldable pub advance : EspImageSegmentHeader → Work Chip → Work Chip
  advance seg w =
      let seg_total = add32 8 seg.data_len in
      record w {
        next_addr = add32 w.next_addr seg_total;
        metadata = record w.metadata { image_len = add32 w.metadata.image_len seg_total };
      }

  -- One round of the segment loop.
  unfoldable pub process_segment : ProcessFlags → ℕ → Code (Work Chip) (Unit {0})
  process_segment flags i = do
    w ← current
    seg_raw ← map_or_exit "[s]" w.next_addr 8
    let seg = parse_segment seg_raw
    let data_addr = add32 w.next_addr 8
    modify (record_segment i seg_raw data_addr)
    check_addresses (flags.load && should_load seg.load_addr) seg
    load_segment flags seg data_addr
    modify (advance seg)

  -- `for i in 0..segment_count`, with `n` segments to go.
  unfoldable pub process_segments : ℕ → ℕ → ProcessFlags → Code (Work Chip) (Unit {0})
  process_segments zero i flags = give tt
  process_segments (suc n) i flags = process_segment flags i >> process_segments n (i + 1) flags
