-- ===== src/Sha256/Pool/Session.antt =====
-- A hash taken through the pool, from start to finish.
use esp32c3_bootloader_rust.Common.{
  ℕ, zero, suc, ◌+◌, ◌≤◌, ◌<◌, ◌≡◌, inl, inr, refl, sym, ap, ◌∙◌, arith, List, [], ◌∷◌, ◌++◌,
  append-nil, append_assoc, Bool, true, false, Bool-cases, Option, some, length, get_or, set,
  length-set, get_or-set_self,
}
use esp32c3_bootloader_rust.Sha256.{Sha256Context, new_context, update}
use esp32c3_bootloader_rust.Sha256.Reference.{sha256}
use esp32c3_bootloader_rust.Sha256.Stream.{update-Absorbs, new_context-Absorbs}
use esp32c3_bootloader_rust.Sha256.Buffer.{Absorbs}
use esp32c3_bootloader_rust.Sha256.Digest.{finalize-Absorbs, joined}
use esp32c3_bootloader_rust.Sha256.Pool.{
  Pool, Handle, start_from, bootloader_sha256_start, bootloader_sha256_data,
  bootloader_sha256_finish,
}

-- Both arrays have their declared length.
pub record IsPool (p : Pool) : Type 0 where
  pub used_size : length p.used ≡ 2
  pub contexts_size : length p.contexts ≡ 2

-- Context `i` is in use and has absorbed `m`; the flags are those of `before` but for its own.
pub record Hashing (before : Pool) (i : ℕ) (m : List ℕ) (p : Pool) : Type 0 where
  pub free : get_or before.used i true ≡ false
  pub flags : p.used ≡ set before.used i true
  pub size : length p.contexts ≡ 2
  pub slot : i < 2
  pub absorbed : Absorbs m (get_or p.contexts i new_context)

start_from-Hashing :
    (n i h : ℕ) (p q : Pool)
    → IsPool p
    → i + n ≤ 2
    → start_from n i p ≡ (some h, q)
    → Hashing p h [] q
unfolding start_from
start_from-Hashing zero i h p q v b e = cc
start_from-Hashing (suc n) i h p q v b e = elim (Bool-cases (get_or p.used i true)) [
  | inl busy ↦ start_from-Hashing n (i + 1) h p q v (omega arith) (rw busy at e)
  | inr free ↦
      let e' = rw free at e in
      let eq : record { used = set p.used i true; contexts = set p.contexts i new_context } ≡ q =
        ap (λ r. r.1) e' in
      let es : ◌≡◌ {A = Option ℕ} (some i) (some h) = ap (λ r. r.0) e' in
      let ei : i ≡ h = cc in
      rw (← eq, ← ei)
        (record {
          free = free;
          flags = refl;
          size = omega (arith, length-set p.contexts i new_context, v.contexts_size);
          slot = omega arith;
          absorbed =
              rw
                (get_or-set_self p.contexts i new_context new_context
                  (omega (arith, v.contexts_size)))
                new_context-Absorbs;
        })
]

pub start-Hashing :
    (p : Pool) (h : ℕ) (q : Pool)
    → IsPool p
    → bootloader_sha256_start p ≡ (some h, q)
    → Hashing p h [] q
unfolding bootloader_sha256_start
start-Hashing p h q v e = start_from-Hashing 2 0 h p q v (omega arith) e

pub data-Hashing :
    (before p : Pool) (i : ℕ) (m bytes : List ℕ)
    → Hashing before i m p
    → Hashing before i (m ++ bytes) (bootloader_sha256_data p (some i) bytes)
unfolding bootloader_sha256_data
data-Hashing before p i m bytes v = record {
  free = v.free;
  flags = v.flags;
  size = omega (arith, v.size, length-set p.contexts i fed);
  slot = v.slot;
  absorbed =
      rw (get_or-set_self p.contexts i fed new_context (omega (arith, v.size, v.slot)))
        (update-Absorbs m bytes _ v.absorbed);
}
  where
    fed : Sha256Context
    fed = update (get_or p.contexts i new_context) bytes

-- Taking a free flag and giving it back restores the flags.
pub set_back :
    (xs : List Bool) (i : ℕ) → get_or xs i true ≡ false → set (set xs i true) i false ≡ xs
set_back [] i e = refl
set_back (x ∷ xs) zero e = ap (λ t. t ∷ xs) (sym e)
set_back (x ∷ xs) (suc i) e = ap (λ t. x ∷ t) (set_back xs i e)

pub finish-Hashing :
    (before p : Pool) (i : ℕ) (m : List ℕ)
    → Hashing before i m p
    → ((bootloader_sha256_finish p (some i)).0 ≡ some (sha256 m))
      × ((bootloader_sha256_finish p (some i)).1.used ≡ before.used)
      × (length (bootloader_sha256_finish p (some i)).1.contexts ≡ 2)
unfolding bootloader_sha256_finish
finish-Hashing before p i m v = (
  ap some (finalize-Absorbs m _ v.absorbed),
  ap (λ u. set u i false) v.flags ∙ set_back before.used i v.free,
  length-set p.contexts i _ ∙ v.size,
)

-- `bootloader_sha256_data` for each of a list of inputs.
pub data_all : Pool → Handle → List (List ℕ) → Pool
data_all p h [] = p
data_all p h (part ∷ parts) = data_all (bootloader_sha256_data p h part) h parts

data_all-Hashing :
    (parts : List (List ℕ)) (before p : Pool) (i : ℕ) (m : List ℕ)
    → Hashing before i m p
    → Hashing before i (m ++ joined parts) (data_all p (some i) parts)
unfolding data_all joined
data_all-Hashing [] before p i m v = rw append-nil v
data_all-Hashing (part ∷ parts) before p i m v =
    rw (← append_assoc) (data_all-Hashing parts before _ i _ (data-Hashing before p i m part v))

-- A hash taken through the pool: once `bootloader_sha256_start` has given a handle, feeding parts
-- to it and finishing gives the SHA-256 digest of the parts joined, and leaves every `CTX_USED`
-- flag as it was before the start, so the context is free again.
pub hash_session :
    (p q : Pool) (h : ℕ) (parts : List (List ℕ))
    → IsPool p
    → bootloader_sha256_start p ≡ (some h, q)
    → let r = bootloader_sha256_finish (data_all q (some h) parts) (some h) in
      (r.0 ≡ some (sha256 (joined parts))) × (r.1.used ≡ p.used)
hash_session p q h parts v e =
    let done = finish-Hashing p _ h _ (data_all-Hashing parts p q h [] (start-Hashing p h q v e)) in
    (done.0, done.1)
