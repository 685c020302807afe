-- ===== src/Flash/Window.antt =====
-- Reads through the cache window: keeping the page that is mapped changes no byte.
use esp32c3_bootloader_rust.Common.{
  ℕ, zero, suc, ◌+◌, ◌-◌, ◌*◌, ◌/◌, ◌≡◌, ◌⊎◌, inl, inr, refl, ap, ap₂, sym, ◌∙◌, arith, List, [],
  ◌++◌, Bool-cases, if◌then◌else◌, ◌==◌, add32, to_le_bytes, length, All, IsByte, All-append,
}
use esp32c3_bootloader_rust.Platform.{Platform, RomCall}
use esp32c3_bootloader_rust.Flash.{
  Machine, page_of, flash_read_vaddr, remap_window, window_from, flash_read_via_cache,
}

module _ {Chip : Type 0} (env : Platform Chip) where
  -- Each word read through a mapping of its own page.
  unfoldable pub words_from : ℕ → ℕ → Chip → ℕ → List ℕ
  words_from zero i chip src_addr = []
  words_from (suc n) i chip src_addr =
      let a = add32 src_addr (i * 4) in
      to_le_bytes (env.cached_word chip (page_of a) (flash_read_vaddr + (a - page_of a)))
      ++ words_from n (i + 1) chip src_addr

  -- The recorded page is the one that the window shows, or no page is recorded.
  abbrev pub IsShown : ℕ → List RomCall → Type 0
  IsShown mapping calls = (mapping ≡ env.window_page calls) ⊎ (mapping ≡ 0xffff_ffff)

  -- The page that is recorded, and the calls, once the word at an address is to be read.
  abbrev mapping_for : ℕ → ℕ → ℕ
  mapping_for a mapping = if mapping == page_of a then mapping else page_of a

  abbrev calls_for : ℕ → ℕ → List RomCall → List RomCall
  calls_for a mapping calls = if mapping == page_of a then calls else remap_window (page_of a) calls

  -- The hardware then shows the page of the address.
  shown_page :
      (a mapping : ℕ) (calls : List RomCall)
      → IsShown mapping calls
      → env.window_page (calls_for a mapping calls) ≡ page_of a
  unfolding remap_window
  shown_page a mapping calls h = elim (Bool-cases (mapping == page_of a)) [
    | inl hit ↦ rw (hit) (ground (arith, h))
    | inr miss ↦ rw (miss) (env.window_set calls (page_of a))
  ]

  recorded_page : (a mapping : ℕ) → mapping_for a mapping ≡ page_of a
  recorded_page a mapping = ground arith

  window_from_lem :
      (n i : ℕ) (chip : Chip) (src_addr mapping : ℕ) (calls : List RomCall)
      → IsShown mapping calls
      → (window_from env n i chip src_addr mapping calls).0 ≡ words_from n i chip src_addr
  unfolding window_from words_from
  window_from_lem zero i chip src_addr mapping calls h = refl
  window_from_lem (suc n) i chip src_addr mapping calls h =
      let a = add32 src_addr (i * 4) in
      let shown = shown_page a mapping calls h in
      ap₂
        (λ p (r : List ℕ).
          to_le_bytes (env.cached_word chip p (flash_read_vaddr + (a - page_of a))) ++ r)
        shown
        (window_from_lem n (i + 1) chip src_addr _ _ (inl (recorded_page a mapping ∙ sym shown)))

  length-words_from :
      (n i : ℕ) (chip : Chip) (src_addr : ℕ) → length (words_from n i chip src_addr) ≡ n * 4
  unfolding words_from
  length-words_from zero i chip src_addr = omega arith
  length-words_from (suc n) i chip src_addr =
      omega (arith, length-words_from n (i + 1) chip src_addr)

  -- Whatever is recorded, a read gives four bytes for each word.
  pub length-window_from :
      (n i : ℕ) (chip : Chip) (src_addr mapping : ℕ) (calls : List RomCall)
      → length (window_from env n i chip src_addr mapping calls).0 ≡ n * 4
  unfolding window_from
  length-window_from zero i chip src_addr mapping calls = omega arith
  length-window_from (suc n) i chip src_addr mapping calls =
      omega (arith, length-window_from n (i + 1) chip src_addr _ _)

  pub window_from-IsByte :
      (n i : ℕ) (chip : Chip) (src_addr mapping : ℕ) (calls : List RomCall)
      → All IsByte (window_from env n i chip src_addr mapping calls).0
  unfolding window_from
  window_from-IsByte zero i chip src_addr mapping calls = tt
  window_from-IsByte (suc n) i chip src_addr mapping calls =
      All-append IsByte (to_le_bytes _) _ (omega arith)
        (window_from-IsByte n (i + 1) chip src_addr _ _)

  -- If the page that the driver has recorded is the one that the hardware shows, or none is
  -- recorded, then a read through the cache window returns what reading each word through a
  -- mapping of its own 64 KiB page returns, however many pages the read crosses; it leaves no page
  -- recorded, and returns four bytes for each word.
  pub flash_read_via_cache_lem :
      (m : Machine Chip) (src_addr size : ℕ)
      → IsShown m.current_read_mapping m.cache_calls
      → let (bytes, m') = flash_read_via_cache env m src_addr size in
        (bytes ≡ words_from (size / 4) 0 m.chip src_addr)
        × (length bytes ≡ size / 4 * 4)
        × (m'.current_read_mapping ≡ 0xffff_ffff)
  unfolding flash_read_via_cache
  flash_read_via_cache_lem m src_addr size h =
      let read =
        window_from_lem (size / 4) 0 m.chip src_addr m.current_read_mapping m.cache_calls h in
      (read, ap length read ∙ length-words_from (size / 4) 0 m.chip src_addr, refl)
