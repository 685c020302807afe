-- ===== src/Spi.antt =====
-- The SPI flash commands of src/flash.rs, on the registers of the SPI1 controller.
pub mod Vendor
pub mod Saves
pub mod Waits
pub mod FlashId
mod Tests
use esp32c3_bootloader_rust.Common.{
  ℕ, zero, suc, ◌+◌, ◌-◌, ◌*◌, ◌/◌, ◌%◌, ◌^◌, List, [], ◌∷◌, Bool, true, false, ◌&&◌, ◌||◌, not,
  Option, none, some, if◌then◌else◌, ltb, leb, ◌==◌, bit_and, bit_or, not32, sub32, byte_at,
}
use esp32c3_bootloader_rust.Platform.{Platform, cache_suspend_icache, cache_resume_icache, delay_us}
use esp32c3_bootloader_rust.Regs.{reg_set_bit, reg_clr_bit, reg_set_bits, reg_has, spin}

abbrev pub spi1 : ℕ → ℕ
spi1 offset = 0x6000_2000 + offset

abbrev pub spi0 : ℕ → ℕ
spi0 offset = 0x6000_3000 + offset

-- Register offsets.
abbrev pub spi_mem_cmd : ℕ
spi_mem_cmd = 0x00

abbrev pub spi_mem_addr : ℕ
spi_mem_addr = 0x04

abbrev pub spi_mem_ctrl : ℕ
spi_mem_ctrl = 0x08

abbrev pub spi_mem_ctrl2 : ℕ
spi_mem_ctrl2 = 0x10

abbrev pub spi_mem_clock : ℕ
spi_mem_clock = 0x14

abbrev pub spi_mem_user : ℕ
spi_mem_user = 0x18

abbrev pub spi_mem_user1 : ℕ
spi_mem_user1 = 0x1C

abbrev pub spi_mem_user2 : ℕ
spi_mem_user2 = 0x20

abbrev pub spi_mem_mosi_dlen : ℕ
spi_mem_mosi_dlen = 0x24

abbrev pub spi_mem_miso_dlen : ℕ
spi_mem_miso_dlen = 0x28

abbrev pub spi_mem_w0 : ℕ
spi_mem_w0 = 0x80

-- `SPI_MEM_USR`, the bit that starts a command and reads as set until it is done
abbrev pub spi_mem_usr : ℕ
spi_mem_usr = 2 ^ 18

-- `SPI_MEM_USR_ADDR_BITLEN_M | SPI_MEM_USR_DUMMY_CYCLELEN_M`
abbrev user1_fields : ℕ
user1_fields = 0xFC00_00FF

pub data SpiFlashReadMode : Type 0 where
  qio qout dio dout fast_rd slow_rd : SpiFlashReadMode

-- The registers that a command saves and puts back.
pub record Saved : Type 0 where
  pub ctrl : ℕ
  pub user : ℕ
  pub user1 : ℕ
  pub user2 : ℕ
  pub mosi_dlen : ℕ
  pub miso_dlen : ℕ

module _ {Chip : Type 0} (env : Platform Chip) where
  unfoldable pub spi1_wait_ready : Chip → Chip
  spi1_wait_ready c = spin env env.patience (reg_has env (spi1 spi_mem_cmd) spi_mem_usr) c

  unfoldable pub save : Chip → Saved
  save c = record {
    ctrl = env.reg_read c (spi1 spi_mem_ctrl);
    user = env.reg_read c (spi1 spi_mem_user);
    user1 = env.reg_read c (spi1 spi_mem_user1);
    user2 = env.reg_read c (spi1 spi_mem_user2);
    mosi_dlen = env.reg_read c (spi1 spi_mem_mosi_dlen);
    miso_dlen = env.reg_read c (spi1 spi_mem_miso_dlen);
  }

  unfoldable pub restore : Saved → Chip → Chip
  restore old c =
      let c1 = env.reg_write c (spi1 spi_mem_ctrl) old.ctrl in
      let c2 = env.reg_write c1 (spi1 spi_mem_user) old.user in
      let c3 = env.reg_write c2 (spi1 spi_mem_user1) old.user1 in
      let c4 = env.reg_write c3 (spi1 spi_mem_user2) old.user2 in
      let c5 = env.reg_write c4 (spi1 spi_mem_mosi_dlen) old.mosi_dlen in
      env.reg_write c5 (spi1 spi_mem_miso_dlen) old.miso_dlen

  -- The registers of a command are set up. Lengths are in bits, and `u8`.
  unfoldable pub set_up : ℕ → ℕ → ℕ → ℕ → Chip → Chip
  set_up command mosi_data mosi_len miso_len c =
      let c1 = env.reg_write c (spi1 spi_mem_user2) (bit_or command (7 * 2 ^ 28)) in
      let kept = bit_and (env.reg_read c1 (spi1 spi_mem_user1)) (not32 user1_fields) in
      let dummy_len = if ltb 0 miso_len then env.dummy_len_plus else 0 in
      let user1 = if ltb 0 dummy_len then bit_or kept (bit_and (dummy_len - 1) 0xFF) else kept in
      let c2 = env.reg_write c1 (spi1 spi_mem_user1) user1 in
      let user_command : ℕ = 2 ^ 31 in
      let with_dummy = if ltb 0 dummy_len then bit_or user_command (2 ^ 29) else user_command in
      let with_mosi = if ltb 0 mosi_len then bit_or with_dummy (2 ^ 27) else with_dummy in
      let with_miso = if ltb 0 miso_len then bit_or with_mosi (2 ^ 28) else with_mosi in
      let c3 =
        if ltb 0 mosi_len then env.reg_write c2 (spi1 spi_mem_mosi_dlen) (mosi_len - 1) else c2 in
      let c4 =
        if ltb 0 miso_len then env.reg_write c3 (spi1 spi_mem_miso_dlen) (miso_len - 1) else c3 in
      let c5 = env.reg_write c4 (spi1 spi_mem_user) with_miso in
      let num_bytes = (mosi_len + 7) % 256 / 8 in
      let w0 =
        if leb 4 num_bytes then mosi_data else bit_and mosi_data (sub32 (2 ^ (num_bytes * 8)) 1) in
      if ltb 0 mosi_len then env.reg_write c5 (spi1 spi_mem_w0) w0 else c5

  unfoldable pub bootloader_execute_flash_command : ℕ → ℕ → ℕ → ℕ → Chip → ℕ × Chip
  unfolding spi1_wait_ready save set_up restore
  bootloader_execute_flash_command command mosi_data mosi_len miso_len c =
      let ready = spi1_wait_ready c in
      let ready_to_go = set_up command mosi_data mosi_len miso_len ready in
      let triggered = reg_set_bit env (spi1 spi_mem_cmd) spi_mem_usr ready_to_go in
      let finished = spi1_wait_ready triggered in
      let out = if ltb 0 miso_len then env.reg_read finished (spi1 spi_mem_w0) else 0 in
      (out, restore (save ready) finished)

  -- A command without data.
  unfoldable pub command : ℕ → Chip → Chip
  unfolding bootloader_execute_flash_command
  command code c = (bootloader_execute_flash_command code 0 0 0 c).1

  -- `CMD_RDID`; the bytes change places.
  unfoldable pub bootloader_read_flash_id : Chip → ℕ × Chip
  unfolding bootloader_execute_flash_command
  bootloader_read_flash_id c =
      let (raw, c1) = bootloader_execute_flash_command 0x9F 0 0 24 c in
      (bit_or (bit_or (raw % 256 * 2 ^ 16) (raw / 2 ^ 16 % 256)) (raw / 256 % 256 * 256), c1)

  unfoldable pub bootloader_flash_read_sfdp : ℕ → ℕ → Chip → ℕ × Chip
  unfolding spi1_wait_ready
  bootloader_flash_read_sfdp sfdp_addr miso_byte_num c =
      let c0 = spi1_wait_ready c in
      let old_ctrl = env.reg_read c0 (spi1 spi_mem_ctrl) in
      let old_user = env.reg_read c0 (spi1 spi_mem_user) in
      let old_user1 = env.reg_read c0 (spi1 spi_mem_user1) in
      let old_user2 = env.reg_read c0 (spi1 spi_mem_user2) in
      let miso_bits = miso_byte_num * 8 % 2 ^ 32 in
      let c1 = env.reg_write c0 (spi1 spi_mem_user2) (bit_or 0x5A (7 * 2 ^ 28)) in
      let c2 = env.reg_write c1 (spi1 spi_mem_addr) (sfdp_addr % 2 ^ 24) in
      let kept = bit_and (env.reg_read c2 (spi1 spi_mem_user1)) (not32 user1_fields) in
      let c3 = env.reg_write c2 (spi1 spi_mem_user1) (bit_or (bit_or kept (23 * 2 ^ 26)) 7) in
      let c4 = env.reg_write c3 (spi1 spi_mem_miso_dlen) (sub32 miso_bits 1) in
      let c5 = env.reg_write c4 (spi1 spi_mem_user) (2 ^ 31 + 2 ^ 30 + 2 ^ 29 + 2 ^ 28) in
      let c6 = spi1_wait_ready (reg_set_bit env (spi1 spi_mem_cmd) spi_mem_usr c5) in
      let r1 = env.reg_write c6 (spi1 spi_mem_ctrl) old_ctrl in
      let r2 = env.reg_write r1 (spi1 spi_mem_user) old_user in
      let r3 = env.reg_write r2 (spi1 spi_mem_user1) old_user1 in
      (env.reg_read c6 (spi1 spi_mem_w0), env.reg_write r3 (spi1 spi_mem_user2) old_user2)

  unfoldable pub spi_flash_resume : Chip → Chip
  unfolding command
  spi_flash_resume c = env.rom_call (command 0xAB c) (delay_us 20)

  -- The magic byte, the SPI mode and the speed and size byte of the header at flash offset 0; the
  -- buffer stays zero where the ROM delivers nothing.
  unfoldable pub read_flash_config_from_header : Chip → ℕ × ℕ × ℕ × Chip
  read_flash_config_from_header c =
      let suspended = env.rom_call c cache_suspend_icache in
      let hdr = elim (env.spiflash_read suspended 0 8) as (λ _. List ℕ) [
        | none ↦ []
        | some bytes ↦ bytes
      ] in
      (byte_at hdr 0, byte_at hdr 2, byte_at hdr 3, env.rom_call suspended cache_resume_icache)

  unfoldable pub bootloader_enable_wp : Chip → Chip
  unfolding command
  bootloader_enable_wp c = command 0x04 c

  unfoldable pub bootloader_spi_flash_reset : Chip → Chip
  unfolding command
  bootloader_spi_flash_reset c = command 0x99 (command 0x66 c)

  unfoldable pub bootloader_flash_get_spi_mode : Chip → SpiFlashReadMode
  bootloader_flash_get_spi_mode c =
      let has = λ (mask : ℕ). reg_has env (spi0 spi_mem_ctrl) mask c in
      if has (2 ^ 24)
      then qio
      else if has (2 ^ 23)
      then dio
      else if has (2 ^ 20)
      then qout
      else if has (2 ^ 21)
      then dout
      else if has (2 ^ 13)
      then fast_rd
      else slow_rd

  unfoldable pub bootloader_flash_reset_chip : Chip → Chip
  unfolding command spi1_wait_ready
  bootloader_flash_reset_chip c =
      command 0x99 (command 0x66 (spi1_wait_ready (reg_set_bit env (spi1 spi_mem_ctrl) (2 ^ 27) c)))
