-- ===== src/Sha256/Tests.antt =====
-- A known digest, and concrete messages for the theorems about SHA-256.
use esp32c3_bootloader_rust.Common.{List, ℕ, [], ◌∷◌, ◌≡◌, refl, some}
use esp32c3_bootloader_rust.Sha256.{
  new_context, update, finalize, compress, digest_bytes, close_block, zero_fill,
}
use esp32c3_bootloader_rust.Sha256.Reference.{sha256}
use esp32c3_bootloader_rust.Sha256.Digest.{update_all, joined, finalize-update_all}
use esp32c3_bootloader_rust.Sha256.Pool.{
  empty_pool, bootloader_sha256_start, bootloader_sha256_finish,
}
use esp32c3_bootloader_rust.Sha256.Pool.Session.{IsPool, data_all, hash_session}

-- SHA-256 of "abc".
abc_digest :
    (finalize (update new_context (97 ∷ 98 ∷ 99 ∷ []))).1
    ≡ digest_bytes (
        0xba7816bf ∷ 0x8f01cfea ∷ 0x414140de ∷ 0x5dae2223 ∷ 0xb00361a3 ∷ 0x96177a9c ∷ 0xb410ff61
        ∷ 0xf20015ad ∷ [])
unfolding finalize update new_context compress digest_bytes close_block zero_fill
abc_digest = refl

abbrev two_parts : List (List ℕ)
two_parts = (97 ∷ []) ∷ (98 ∷ 99 ∷ []) ∷ []

finalize-update_all_example :
    (finalize (update_all new_context two_parts)).1 ≡ sha256 (joined two_parts)
finalize-update_all_example = finalize-update_all two_parts

empty_pool-IsPool : IsPool empty_pool
empty_pool-IsPool = record { used_size = refl; contexts_size = refl }

hash_session_example :
    let q = (bootloader_sha256_start empty_pool).1 in
    let r = bootloader_sha256_finish (data_all q (some 0) two_parts) (some 0) in
    (r.0 ≡ some (sha256 (joined two_parts))) × (r.1.used ≡ empty_pool.used)
unfolding bootloader_sha256_start
hash_session_example =
    hash_session empty_pool (bootloader_sha256_start empty_pool).1 0 two_parts empty_pool-IsPool
      refl
