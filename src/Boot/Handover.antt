-- ===== src/Boot/Handover.antt =====
-- The hand-over to the application in src/utility.rs: the mappings of its segments and the jump.
use esp32c3_bootloader_rust.Common.{
  ℕ, zero, suc, ◌+◌, ◌-◌, ◌*◌, ◌/◌, ◌^◌, bit_and, Bool, ◌&&◌, not, if◌then◌else◌, ltb, leb, ◌==◌,
  add32, sub32, not32, get_or,
}
use esp32c3_bootloader_rust.Platform.{
  Platform, RomCall, cache_disable_icache, cache_invalidate_icache_all, cache_mmu_init,
  cache_dbus_mmu_set, cache_ibus_mmu_set, cache_enable_icache, output_tx_wait_idle, delay_us,
}
use esp32c3_bootloader_rust.Flash.{Machine, debug_tx_str}
use esp32c3_bootloader_rust.Image.{EspImageSegmentHeader, EspImageMetadata, no_segment}

-- The six numbers of `extract_segment_info`.
pub record SegmentInfo : Type 0 where
  pub drom_addr : ℕ
  pub drom_load : ℕ
  pub drom_size : ℕ
  pub irom_addr : ℕ
  pub irom_load : ℕ
  pub irom_size : ℕ

abbrev pub no_info : SegmentInfo
no_info = record {
  drom_addr = 0;
  drom_load = 0;
  drom_size = 0;
  irom_addr = 0;
  irom_load = 0;
  irom_size = 0;
}

abbrev pub is_drom : ℕ → Bool
is_drom a = leb 0x3C00_0000 a && ltb a 0x3E00_0000

abbrev pub is_irom : ℕ → Bool
is_irom a = leb 0x4200_0000 a && ltb a 0x4400_0000

-- One round of its loop.
unfoldable pub note_segment : SegmentInfo → EspImageSegmentHeader → ℕ → SegmentInfo
note_segment info seg data_addr =
    if seg.data_len == 0
    then info
    else if is_drom seg.load_addr
    then (if info.drom_size == 0
        then record info {
          drom_addr = data_addr;
          drom_load = seg.load_addr;
          drom_size = seg.data_len;
        }
        else info)
    else if is_irom seg.load_addr
    then (if info.irom_size == 0
        then record info {
          irom_addr = data_addr;
          irom_load = seg.load_addr;
          irom_size = seg.data_len;
        }
        else info)
    else info

-- Segments from index `i` on, with `n` to go.
unfoldable pub extract_from : ℕ → ℕ → EspImageMetadata → SegmentInfo → SegmentInfo
unfolding note_segment
extract_from zero i meta info = info
extract_from (suc n) i meta info =
    extract_from n (i + 1) meta
      (note_segment info (get_or meta.segments i no_segment) (get_or meta.segment_data i 0))

unfoldable pub extract_segment_info : EspImageMetadata → SegmentInfo
unfolding extract_from
extract_segment_info meta = extract_from meta.image.segment_count 0 meta no_info

-- How a boot ends: a jump to an address, or a reset of the chip.
pub data BootEnd (Chip : Type 0) : Type 0 where
  jump : ℕ → Machine Chip → BootEnd Chip
  reset : Machine Chip → BootEnd Chip

-- `x & !(PAGE_SIZE - 1)`
abbrev pub page_base : ℕ → ℕ
page_base a = a / 65536 * 65536

-- The pages that cover `size` bytes from `load` on.
abbrev pub page_count : ℕ → ℕ → ℕ
page_count load size = sub32 (add32 (add32 size (load - page_base load)) 65536) 1 / 65536

module _ {Chip : Type 0} (env : Platform Chip) where
  abbrev rom : RomCall → Machine Chip → Machine Chip
  rom call m = record m { chip = env.rom_call m.chip call }

  -- `write(reg, read(reg) & mask)`
  abbrev clear_bits : ℕ → ℕ → Machine Chip → Machine Chip
  clear_bits reg mask m = record m {
    chip = env.reg_write m.chip reg (bit_and (env.reg_read m.chip reg) (not32 mask));
  }

  unfoldable pub bootloader_atexit : Machine Chip → Machine Chip
  bootloader_atexit m = rom (output_tx_wait_idle 0) m

  unfoldable pub bootloader_reset : Machine Chip → BootEnd Chip
  unfolding bootloader_atexit
  bootloader_reset m = reset (rom (delay_us 1000) (bootloader_atexit (debug_tx_str "[R]" m)))

  unfoldable pub set_cache_and_start_app : SegmentInfo → ℕ → Machine Chip → BootEnd Chip
  unfolding bootloader_atexit
  set_cache_and_start_app s entry_addr m =
      let ready =
        rom cache_mmu_init (rom cache_invalidate_icache_all (rom cache_disable_icache m)) in
      let with_drom =
        if ltb 0 s.drom_size && not (s.drom_addr == 0)
        then rom
            (cache_dbus_mmu_set 0 (page_base s.drom_load) (page_base s.drom_addr) 64
              (page_count s.drom_load s.drom_size) 0)
            ready
        else ready in
      let with_irom =
        if ltb 0 s.irom_size && not (s.irom_addr == 0)
        then rom
            (cache_ibus_mmu_set 0 (page_base s.irom_load) (page_base s.irom_addr) 64
              (page_count s.irom_load s.irom_size) 0)
            with_drom
        else with_drom in
      jump entry_addr (bootloader_atexit (rom (cache_enable_icache 0) with_irom))

  -- `load_image`: the RNG clock and the glitch reset are switched off first.
  unfoldable pub load_image : EspImageMetadata → Machine Chip → BootEnd Chip
  unfolding set_cache_and_start_app extract_segment_info
  load_image meta m =
      set_cache_and_start_app (extract_segment_info meta) meta.image.entry_addr
        (clear_bits 0x6000_8034 (2 ^ 18) (clear_bits 0x600C_0000 1 m))
