-- ===== src/Image/Process/Reading.antt =====
-- The state of `process_image` between two steps of its segment loop, as a claim about what has been
-- fed to the hash and added to the checksum.
use esp32c3_bootloader_rust.Common.{
  ℕ, ◌≡◌, ◌⊎◌, inl, inr, refl, sym, ◌∙◌, subst, bit_xor, List, [], ◌∷◌, ◌++◌, Bool, true, false,
  some, if◌then◌else◌,
}
use esp32c3_bootloader_rust.Common.Exit.{Ends, Left}
use esp32c3_bootloader_rust.Platform.{Platform}
use esp32c3_bootloader_rust.Flash.{bootloader_mmap, bootloader_munmap}
use esp32c3_bootloader_rust.Flash.Mapping.{mmap-Frame}
use esp32c3_bootloader_rust.Flash.Stored.{stored, Knows, mmap-Knows, mmap-stored}
use esp32c3_bootloader_rust.Sha256.Pool.{Pool, Handle, bootloader_sha256_data}
use esp32c3_bootloader_rust.Sha256.Pool.Session.{Hashing, data-Hashing}
use esp32c3_bootloader_rust.Image.{EspImageHeader, EspImageMetadata}
use esp32c3_bootloader_rust.Image.Segments.{
  Work, xor_bytes, map_or_exit, hash_bytes, unmap, on_machine, on_pool,
}
use esp32c3_bootloader_rust.Image.Process.Kept.{map_or_exit-Ends}
use Prim.Native.String.{String}

pub xor_bytes-append :
    (xs ys : List ℕ) (c : ℕ) → xor_bytes c (xs ++ ys) ≡ xor_bytes (xor_bytes c xs) ys
unfolding xor_bytes
xor_bytes-append [] ys c = refl
xor_bytes-append (x ∷ xs) ys c = xor_bytes-append xs ys (bit_xor c x)

module _ {Chip : Type 0} (env : Platform Chip) (chip : Chip) (needed : Bool) (before : Pool) (h : ℕ)
    (image : EspImageHeader) where
  -- The context has absorbed `m`, if a hash is needed at all.
  abbrev pub Fed : List ℕ → Handle → Pool → Type 0
  Fed m handle pool = (needed ≡ false) ⊎ ((handle ≡ some h) × Hashing before h m pool)

  -- The state between two steps: `m` is fed, the checksum is `sum`, and `addr` is next.
  pub record At (m : List ℕ) (sum addr : ℕ) (w : Work Chip) : Type 0 where
    pub same_chip : w.machine.chip ≡ chip
    pub knows : Knows env w.machine
    pub summed : w.checksum ≡ sum
    pub reached : w.next_addr ≡ addr
    pub wanted : w.sha_needed ≡ needed
    pub fed : Fed m w.sha_handle w.machine.pool
    pub parsed : w.metadata.image ≡ image

  pub reached-At :
      {m : List ℕ} {sum addr : ℕ} (w : Work Chip) → At m sum addr w → At m sum w.next_addr w
  reached-At {m} {sum} w a = subst (λ k. At m sum k w) (sym a.reached) a

  -- The claim at an equal address.
  pub moved-At :
      {m : List ℕ} {sum from to : ℕ} (w : Work Chip) → from ≡ to → At m sum from w → At m sum to w
  moved-At {m} {sum} w e a = subst (λ k. At m sum k w) e a

  pub data-Fed :
      (m bytes : List ℕ) (handle : Handle) (pool : Pool)
      → Fed m handle pool
      → Fed (m ++ bytes) handle (bootloader_sha256_data pool handle bytes)
  data-Fed m bytes handle pool (inl idle) = inl idle
  data-Fed m bytes handle pool (inr (e, f)) = inr (e, rw e (data-Hashing before pool h m bytes f))

  pub mapped-At :
      (m : List ℕ) (sum addr from size : ℕ) (w : Work Chip)
      → At m sum addr w
      → At m sum addr (record w { machine = (bootloader_mmap env w.machine from size).1 })
  mapped-At m sum addr from size w a =
      let frame = mmap-Frame env w.machine from size in
      record {
        same_chip = frame.same_chip ∙ a.same_chip;
        knows = mmap-Knows env w.machine from size a.knows;
        summed = a.summed;
        reached = a.reached;
        wanted = a.wanted;
        parsed = a.parsed;
        fed = rw (frame.same_pool) a.fed;
      }

  -- Bytes that are mapped are those that the flash holds.
  pub map_or_exit-At :
      (m : List ℕ) (sum addr from size : ℕ) (tag : String) (w : Work Chip)
      → At m sum addr w
      → Ends
          (λ bytes v. (stored env chip from size ≡ some bytes) × At m sum addr v)
          Left
          (map_or_exit env tag from size w)
  map_or_exit-At m sum addr from size tag w a =
      map_or_exit-Ends env _ Left tag from size w (λ e. tt)
        (λ bytes e. (
          rw (← a.same_chip) (mmap-stored env w.machine from size bytes a.knows e),
          mapped-At m sum addr from size w a,
        ))

  pub unmap-At :
      (m : List ℕ) (sum addr : ℕ) (w : Work Chip) → At m sum addr w → At m sum addr (unmap w)
  unfolding unmap on_machine bootloader_munmap
  unmap-At m sum addr w a = record {
    same_chip = a.same_chip;
    knows = a.knows;
    summed = a.summed;
    reached = a.reached;
    wanted = a.wanted;
    parsed = a.parsed;
    fed = a.fed;
  }

  -- The caller's metadata plays no part.
  pub metadata-At :
      (m : List ℕ) (sum addr : ℕ) (d : EspImageMetadata) (w : Work Chip)
      → d.image ≡ w.metadata.image
      → At m sum addr w
      → At m sum addr (record w { metadata = d })
  metadata-At m sum addr d w same a = record {
    same_chip = a.same_chip;
    knows = a.knows;
    summed = a.summed;
    reached = a.reached;
    wanted = a.wanted;
    parsed = same ∙ a.parsed;
    fed = a.fed;
  }

  -- A step that hashes, if a hash is needed.
  pub hash_bytes-At :
      (m bytes : List ℕ) (sum addr : ℕ) (w : Work Chip)
      → At m sum addr w
      → At (m ++ bytes) sum addr (if w.sha_needed then hash_bytes bytes w else w)
  unfolding hash_bytes on_pool
  hash_bytes-At m bytes sum addr w a = either w.sha_needed refl
    where
      either :
          (b : Bool)
          → w.sha_needed ≡ b
          → At (m ++ bytes) sum addr (if b then hash_bytes bytes w else w)
      either true e = record {
        same_chip = a.same_chip;
        knows = a.knows;
        summed = a.summed;
        reached = a.reached;
        wanted = a.wanted;
        parsed = a.parsed;
        fed = data-Fed m bytes _ _ a.fed;
      }
      either false e = record {
        same_chip = a.same_chip;
        knows = a.knows;
        summed = a.summed;
        reached = a.reached;
        wanted = a.wanted;
        parsed = a.parsed;
        fed = inl (sym a.wanted ∙ e);
      }
