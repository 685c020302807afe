-- ===== src/Board.antt =====
-- A board for the tests: a flash chip whose reads deliver the bytes of a function from addresses,
-- with no eFuse burnt.
use esp32c3_bootloader_rust.Common.{
  ℕ, zero, suc, ◌+◌, ◌-◌, ◌%◌, ◌^◌, ◌≡◌, refl, arith, ap, ◌∙◌, sym, List, [], ◌∷◌, true, false,
  none, some, if◌then◌else◌, ltb, ◌==◌, length, replicate, u32_at, ◌++◌, All, IsByte, get_or,
}
use esp32c3_bootloader_rust.Platform.{Platform, RomCall, cache_dbus_mmu_set}
use esp32c3_bootloader_rust.Console.{uart_status_reg}
use esp32c3_bootloader_rust.Flash.{Machine}
use esp32c3_bootloader_rust.Spi.{spi1, spi_mem_cmd}
use esp32c3_bootloader_rust.Flash.Contents.{Delivers}
use esp32c3_bootloader_rust.Sha256.Pool.{empty_pool}

unfoldable pub read_bytes : (ℕ → ℕ) → ℕ → ℕ → List ℕ
read_bytes flash addr zero = []
read_bytes flash addr (suc n) = flash addr % 256 ∷ read_bytes flash (addr + 1) n

-- The page that was set last.
unfoldable pub latest_page : List RomCall → ℕ
latest_page [] = 0
latest_page (cache_dbus_mmu_set ext vaddr page kib count fixed ∷ calls) = page
latest_page (_ ∷ calls) = latest_page calls

-- The ROM's read adds 1 to the address, which `flash_read_raw` allows for.
unfoldable pub board : Platform (ℕ → ℕ)
unfolding read_bytes latest_page
board = record {
  spiflash_read = λ flash addr n. some (read_bytes flash ((addr + 1) % 2 ^ 32) n);
  cached_word = λ flash page vaddr. u32_at (read_bytes flash (page + (vaddr - 0x3DFF_0000)) 4) 0;
  window_page = latest_page;
  window_set = λ calls page. refl;
  spiflash_write = λ flash addr bytes. (true, flash);
  spiflash_erase_sector = λ flash sector. (true, flash);
  spiflash_wait_idle = λ flash. flash;
  spiflash_write_encrypted = λ flash addr bytes. (true, flash);
  spiflash_config_param = λ flash id size block sector page mask. flash;
  flashchip_device_id = λ flash. 0;
  set_flashchip_device_id = λ flash id. flash;
  set_flashchip_size = λ flash size. flash;
  dummy_len_plus = 0;
  rom_call = λ flash call. flash;
  reg_read = λ flash reg. 0;
  reg_write = λ flash reg value. flash;
  fifo_read = λ flash reg. (0, flash);
  tick = λ flash. flash;
  patience = 1;
  hang = λ flash. flash;
  reset_reason = 1;
  efuse = λ offset. 0;
  secure_boot_enabled = false;
  verify_prehash = λ key digest signature. false;
  feature_secure_boot = false;
  feature_factory_reset = false;
  feature_app_test = false;
  stext = 0x403C_C000;
  etext = 0x403D_0000;
  data_start = 0x3FCD_0000;
  data_end = 0x3FCD_2000;
  bss_start = 0x3FCD_2000;
  bss_end = 0x3FCD_4000;
}

-- A chip of registers that keep what is written to them, and whose flash commands end in one round.
unfoldable pub registers : Platform (ℕ → ℕ)
unfolding board
registers = record board {
  reg_read = λ regs reg. regs reg;
  reg_write = λ regs reg value a. if reg == a then value else regs a;
  tick = λ regs a. if a == spi1 spi_mem_cmd then 0 else regs a;
}

-- The next byte of the input.
abbrev next_key : List ℕ → ℕ × List ℕ
next_key [] = (0, [])
next_key (b ∷ bs) = (b, bs)

-- A UART whose FIFO holds the bytes that are still to come.
unfoldable pub keyboard : Platform (List ℕ)
unfolding latest_page
keyboard = record {
  spiflash_read = λ keys addr n. none;
  cached_word = λ keys page vaddr. 0;
  window_page = latest_page;
  window_set = λ calls page. refl;
  spiflash_write = λ keys addr bytes. (true, keys);
  spiflash_erase_sector = λ keys sector. (true, keys);
  spiflash_wait_idle = λ keys. keys;
  spiflash_write_encrypted = λ keys addr bytes. (true, keys);
  spiflash_config_param = λ keys id size block sector page mask. keys;
  flashchip_device_id = λ keys. 0;
  set_flashchip_device_id = λ keys id. keys;
  set_flashchip_size = λ keys size. keys;
  dummy_len_plus = 0;
  rom_call = λ keys call. keys;
  reg_read = λ keys reg. if reg == uart_status_reg then length keys else 0;
  reg_write = λ keys reg value. keys;
  fifo_read = λ keys reg. next_key keys;
  tick = λ keys. keys;
  patience = 1;
  hang = λ keys. keys;
  reset_reason = 1;
  efuse = λ offset. 0;
  secure_boot_enabled = false;
  verify_prehash = λ key digest signature. false;
  feature_secure_boot = false;
  feature_factory_reset = false;
  feature_app_test = false;
  stext = 0x403C_C000;
  etext = 0x403D_0000;
  data_start = 0x3FCD_0000;
  data_end = 0x3FCD_2000;
  bss_start = 0x3FCD_2000;
  bss_end = 0x3FCD_4000;
}

length-read_bytes : (flash : ℕ → ℕ) (addr n : ℕ) → length (read_bytes flash addr n) ≡ n
unfolding read_bytes
length-read_bytes flash addr zero = refl
length-read_bytes flash addr (suc n) = omega (arith, length-read_bytes flash (addr + 1) n)

read_bytes-IsByte : (flash : ℕ → ℕ) (addr n : ℕ) → All IsByte (read_bytes flash addr n)
unfolding read_bytes
read_bytes-IsByte flash addr zero = tt
read_bytes-IsByte flash addr (suc n) = (omega arith, read_bytes-IsByte flash (addr + 1) n)

some-inj : {x y : List ℕ} → some x ≡ some y → x ≡ y
some-inj e = cc e

pub board-Delivers : Delivers board
unfolding board
board-Delivers = record {
  size = λ c addr n bytes e. ap length (sym (some-inj e)) ∙ length-read_bytes c _ n;
  bytes = λ c addr n bytes e. rw⁻¹ (some-inj e) (read_bytes-IsByte c _ n);
}

-- The flash with a list of bytes at an address, and the machine at power-on.
abbrev pub flash_with : ℕ → List ℕ → ℕ → ℕ
flash_with base bytes a = if ltb a base then 255 else get_or bytes (a - base) 255

abbrev pub powered_on : (ℕ → ℕ) → Machine (ℕ → ℕ)
powered_on flash = record {
  chip = flash;
  enc_checked = false;
  encrypted = false;
  mapped = false;
  current_mapped_size = 0;
  current_read_mapping = 0xffff_ffff;
  cache_calls = [];
  pool = empty_pool;
  ram = λ a. 0;
  console = [];
}

-- A header that says that a hash is appended, one segment of four bytes, the checksum behind the
-- padding, and the digest of what is hashed.
abbrev pub hashed_image : List ℕ
hashed_image =
    0xE9
    ∷ 1
    ∷ 0
    ∷ 0
    ∷ 0
    ∷ 0
    ∷ 0x38
    ∷ 0x40
    ∷ 0xEE
    ∷ 0
    ∷ 0
    ∷ 0
    ∷ 5
    ∷ 0
    ∷ (replicate 9 0
        ++ 1
          ∷ 0
          ∷ 0
          ∷ 0xC9
          ∷ 0x3F
          ∷ 4
          ∷ 0
          ∷ 0
          ∷ 0
          ∷ 1
          ∷ 2
          ∷ 3
          ∷ 4
          ∷ (replicate 11 0
              ++ 0xEB ∷ 0x55 ∷ 0xE3 ∷ 0x1D ∷ 0x05 ∷ 0x96 ∷ 0x31 ∷ 0x6F ∷ 0xD8 ∷ 0x28 ∷ 0x89 ∷ 0xAC
                ∷ 0x9E ∷ 0x53 ∷ 0x3E ∷ 0x88 ∷ 0x86 ∷ 0x2A ∷ 0x43 ∷ 0xCB ∷ 0x9F ∷ 0x35 ∷ 0xC0 ∷ 0x12
                ∷ 0x49 ∷ 0x8F ∷ 0xEC ∷ 0x8E ∷ 0x14 ∷ 0xB2 ∷ 0x34 ∷ 0xA8 ∷ 0x2C ∷ []))

-- A factory partition at 0x1_0000 and the OTA data at 0x2_0000, and then blank flash.
abbrev pub table_bytes : List ℕ
table_bytes =
    0xAA
    ∷ 0x50
    ∷ 0
    ∷ 0
    ∷ 0
    ∷ 0
    ∷ 1
    ∷ 0
    ∷ 0
    ∷ 0
    ∷ 1
    ∷ 0
    ∷ 0x66
    ∷ (replicate 19 0
        ++ 0xAA ∷ 0x50 ∷ 1 ∷ 0 ∷ 0 ∷ 0 ∷ 2 ∷ 0 ∷ 0 ∷ 0x20 ∷ 0 ∷ 0 ∷ 0x6F ∷ replicate 19 0)

-- A flash with that table, and the image in the factory partition.
abbrev pub bootable : ℕ → ℕ
bootable a =
    if ltb a 0x9000 then flash_with 0x8000 table_bytes a else flash_with 0x1_0000 hashed_image a
