-- ===== src/Sha256/Pool/Size.antt =====
-- The array of SHA-256 contexts keeps its size.
use esp32c3_bootloader_rust.Common.{
  ℕ, zero, suc, ◌+◌, ◌≡◌, refl, List, true, Bool-cases, inl, inr, none, some, length, length-set,
  get_or,
}
use esp32c3_bootloader_rust.Sha256.Pool.{
  Pool, Handle, start_from, bootloader_sha256_start, bootloader_sha256_data,
  bootloader_sha256_finish,
}

start_from-size : (n i : ℕ) (p : Pool) → length (start_from n i p).1.contexts ≡ length p.contexts
unfolding start_from
start_from-size zero i p = refl
start_from-size (suc n) i p = elim (Bool-cases (get_or p.used i true)) [
  | inl busy ↦ rw (busy, start_from) (start_from-size n (i + 1) p)
  | inr free ↦ rw (free, start_from) (length-set p.contexts i _)
]

pub start-size : (p : Pool) → length (bootloader_sha256_start p).1.contexts ≡ length p.contexts
unfolding bootloader_sha256_start
start-size p = start_from-size 2 0 p

pub data-size :
    (p : Pool) (h : Handle) (bytes : List ℕ)
    → length (bootloader_sha256_data p h bytes).contexts ≡ length p.contexts
unfolding bootloader_sha256_data
data-size p none bytes = refl
data-size p (some i) bytes = length-set p.contexts i _

pub finish-size :
    (p : Pool) (h : Handle) → length (bootloader_sha256_finish p h).1.contexts ≡ length p.contexts
unfolding bootloader_sha256_finish
finish-size p none = refl
finish-size p (some i) = length-set p.contexts i _
