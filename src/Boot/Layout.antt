-- ===== src/Boot/Layout.antt =====
-- The cache pages that the application's two flash-mapped segments get, and which segments these
-- are: `extract_segment_info` and the page arithmetic of `set_cache_and_start_app`.
use esp32c3_bootloader_rust.Common.{
  ℕ, zero, suc, ◌+◌, ◌-◌, ◌*◌, ◌^◌, ◌≤◌, ◌<◌, ◌≡◌, arith, ◌==◌, ◌&&◌, Bool, get_or, if◌then◌else◌,
  not, ◌∙◌,
}
use esp32c3_bootloader_rust.Image.{EspImageMetadata, no_segment}
use esp32c3_bootloader_rust.Boot.Handover.{
  SegmentInfo, no_info, is_drom, is_irom, note_segment, extract_from, extract_segment_info,
  page_base, page_count,
}

-- For a non-empty segment inside the 32-bit address space, with a page to spare, the mapped pages
-- cover it, and one page fewer would not.
pub page_count-covers :
    (load size : ℕ)
    → 0 < size
    → load + size + 65536 < 2 ^ 32
    → (page_base load ≤ load)
      × (load + size ≤ page_base load + page_count load size * 65536)
      × (page_base load + (page_count load size - 1) * 65536 < load + size)
page_count-covers load size h k = omega arith

-- The first non-empty segment of a kind, as its address in flash, load address and size.
abbrev pub Found : Type 0
Found = ℕ × ℕ × ℕ

pub first_from : (ℕ → Bool) → ℕ → ℕ → EspImageMetadata → Found → Found
first_from kind zero i meta missing = missing
first_from kind (suc n) i meta missing =
    let seg = get_or meta.segments i no_segment in
    let rest = first_from kind n (i + 1) meta missing in
    if not (seg.data_len == 0) && kind seg.load_addr
    then (get_or meta.segment_data i 0, seg.load_addr, seg.data_len)
    else rest

abbrev pub drom : SegmentInfo → Found
drom s = (s.drom_addr, s.drom_load, s.drom_size)

abbrev pub irom : SegmentInfo → Found
irom s = (s.irom_addr, s.irom_load, s.irom_size)

-- Once a size is noted, the later segments of that kind are passed over.
extract_from-drom :
    (n i : ℕ) (meta : EspImageMetadata) (info : SegmentInfo)
    → drom (extract_from n i meta info)
      ≡ (if info.drom_size == 0 then first_from is_drom n i meta (drom info) else drom info)
unfolding extract_from first_from note_segment
extract_from-drom zero i meta info = ground arith
extract_from-drom (suc n) i meta info =
    extract_from-drom n (i + 1) meta
      (note_segment info (get_or meta.segments i no_segment) (get_or meta.segment_data i 0))
    ∙ ground arith

extract_from-irom :
    (n i : ℕ) (meta : EspImageMetadata) (info : SegmentInfo)
    → irom (extract_from n i meta info)
      ≡ (if info.irom_size == 0 then first_from is_irom n i meta (irom info) else irom info)
unfolding extract_from first_from note_segment
extract_from-irom zero i meta info = ground arith
extract_from-irom (suc n) i meta info =
    extract_from-irom n (i + 1) meta
      (note_segment info (get_or meta.segments i no_segment) (get_or meta.segment_data i 0))
    ∙ ground arith

-- The extracted data and code segments are the first non-empty segments that load into the data
-- and the instruction window, or three zeros where there is none.
pub extract_segment_info-first :
    (meta : EspImageMetadata)
    → (drom (extract_segment_info meta)
        ≡ first_from is_drom meta.image.segment_count 0 meta (0, 0, 0))
      × (irom (extract_segment_info meta)
          ≡ first_from is_irom meta.image.segment_count 0 meta (0, 0, 0))
unfolding extract_segment_info
extract_segment_info-first meta = (
  extract_from-drom meta.image.segment_count 0 meta no_info,
  extract_from-irom meta.image.segment_count 0 meta no_info,
)
