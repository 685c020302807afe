-- ===== src/Sha256/Pool.antt =====
-- The static pool of two contexts: `bootloader_sha256_start`, `_data` and `_finish`.
-- A handle is the index of its context.
pub mod Session
pub mod Size
use esp32c3_bootloader_rust.Common.{
  ℕ, zero, suc, ◌+◌, List, [], ◌∷◌, Bool, true, false, Option, none, some, if◌then◌else◌, get_or,
  set,
}
use esp32c3_bootloader_rust.Sha256.{Sha256Context, new_context, update, finalize}

abbrev pub pool_size : ℕ
pool_size = 2

abbrev pub Handle : Type 0
Handle = Option ℕ

-- `CTX_USED` and `CTX_POOL`
pub record Pool : Type 0 where
  pub used : List Bool
  pub contexts : List Sha256Context

-- The static's initial value.
abbrev pub empty_pool : Pool
empty_pool = record { used = false ∷ false ∷ []; contexts = new_context ∷ new_context ∷ [] }

-- The search of `bootloader_sha256_start` from index `i`, with `n` slots to go.
unfoldable pub start_from : ℕ → ℕ → Pool → Handle × Pool
start_from zero i p = (none, p)
start_from (suc n) i p =
    let rest = start_from n (i + 1) p in
    if get_or p.used i true
    then rest
    else (some i, record { used = set p.used i true; contexts = set p.contexts i new_context })

unfoldable pub bootloader_sha256_start : Pool → Handle × Pool
unfolding start_from
bootloader_sha256_start p = start_from pool_size 0 p

unfoldable pub bootloader_sha256_data : Pool → Handle → List ℕ → Pool
bootloader_sha256_data p none bytes = p
bootloader_sha256_data p (some i) bytes = record p {
  contexts = set p.contexts i (update (get_or p.contexts i new_context) bytes);
}

-- The digest is `none` where nothing is written to the caller's buffer.
unfoldable pub bootloader_sha256_finish : Pool → Handle → Option (List ℕ) × Pool
bootloader_sha256_finish p none = (none, p)
bootloader_sha256_finish p (some i) =
    let (ctx, digest) = finalize (get_or p.contexts i new_context) in
    (some digest, record { used = set p.used i false; contexts = set p.contexts i ctx })
