-- ===== src/Lib.antt =====
-- A verification library for the second-stage bootloader esp32c3-bootloader-rust, written in
-- Rust.
--
-- The bootloader initialises the hardware, offers a serial shell, reads the partition table,
-- lets the OTA data choose an application partition, checks and loads its image, and jumps to
-- it. The parts and the files that model them:
--
-- - Crc: the two CRC-32 routines, `bootloader_crc32_le` and `crc32_bytes` of src/sha256.rs and
--   `esp_rom_crc32_le` of src/rom.rs.
-- - Sha256, Sha256/Pool: the streaming SHA-256 and the static pool of two contexts of
--   src/sha256.rs. Sha256/Reference holds the standard's description by blocks.
-- - Platform: what the bootloader runs on, as a record of operations on the state of the chip:
--   the ROM's flash routines, the words behind the cache window and the page that it shows after
--   the cache calls (with the law `window_set`), registers,
--   eFuses, linker symbols, cargo features and the P-256 verification.
-- - Flash: the bounce buffer of src/flash.rs that every other part reads flash through.
--   `Machine` holds its statics, the cache calls so far, the SHA-256 pool, the RAM that images are copied to and the
--   console.
-- - Image, Image/Segments, Image/Process: src/image.rs: the headers, the segment loop and the
--   rest of `process_image`. `Work` holds the local variables of `process_image`; its early
--   returns are the `exit` ends of Common/Exit, so that the state left behind by a failed step
--   is kept.
-- - Partition: src/partition.rs and the `BootloaderState` of src/main.rs.
-- - Ota, Ota/Choice: the OTA select entries of src/utility.rs: which slot they choose, the
--   rollback of a pending update and the entry that records a boot; the choice of a partition
--   from them and from the pins that are held.
-- - Gpio, FactoryReset, Retain: the long hold of a pin, the erase of the data partitions that a
--   label list names, and the RTC retain memory of src/utility.rs, with the pad functions of
--   src/rom.rs. Ota calls them where the features `factory_reset` and `app_test` are on.
-- - Boot, Boot/Handover: the rest of the boot path in src/utility.rs, from a candidate partition to the jump.
--   `BootEnd` is the jump or the reset. Boot/DeepSleep: the boot from deep sleep.
-- - Regs, Spi, Spi/Vendor: the register helpers and the SPI flash commands of src/flash.rs: a
--   command saves six registers, sets them up, runs and puts them back; the unlock, the QIO
--   table, the clock and the set-up of the flash are built from such commands.
-- - Console, Shell: the byte routines and the shell of src/init.rs. `handle_byte` is one round
--   of its loop, on the line buffer.
-- - Init, Init/Clock: the rest of src/init.rs, and the clock functions of src/rom.rs.
-- - Start: `rust_start`, `call_start_cpu0` and the panic handler of src/main.rs, which compose
--   the initialisation, the shell and the boot.
-- - Efuse: the eFuse fields and the queries of src/soc.rs and src/rom.rs that no other part names.
-- - SigBlock: the signature block of the signing tool, tools/sign_image/src/sig_block.rs.
-- - SignImage: the rest of that tool: its files, its errors and what it takes from the crates
--   (`Host`). SignImage/Keygen, Sign, Verify and Main are keygen.rs, sign.rs, verify.rs and
--   main.rs of tools/sign_image/src. SignImage/Laws names what the crates promise.
-- - Board: a concrete platform that the tests of each part run on. Common: shared notation and
--   lemmas on lists, bits, words and early returns.
--
-- Numbers are naturals; a `u32` or `u64` operation that can wrap is written with its `% 2 ^ w`,
-- as in a release build. A list of bytes stands for a slice, `none` for a null pointer. A loop
-- over a range recurses on the number of rounds left, which the source's bound gives; the loop
-- over whole SHA-256 blocks recurses on the number of bytes left, which is enough since each
-- round takes 64 of them. The machine's effects are in the order of the source's calls.
--
-- A loop that polls a register without a bound is followed for `patience` rounds of the platform.
-- A loop that has not ended within them is a boot that stops there: its state is handed to `hang`
-- of the platform, of which nothing is assumed but, where the registers matter, that polling
-- leaves them alone. Regs and Spi/Waits show that a loop which the hardware ends within the rounds
-- is followed to its end; `Finishes` of Spi/Saves says that the SPI1 controller does so.
-- The shell's loop runs for a number of polls, and returns `none` when no command has come by
-- then. A loop with a timeout of its own has that many rounds. The fields of the retain memory
-- and of a partition's position lie in the order of their declaration.
--
-- Flash/Stored and Image/Process/Layout describe, without any state, what the flash holds at an
-- address and what an image is there. The proofs about `process_image` are under Image/Process,
-- those about the search for a boot image under Boot.
--
-- The signing tool's commands run on a table of files. An error ends a command, with the files
-- that it has written so far. A file is written whole or not at all. Paths in the generated Rust
-- constants are ASCII. Its console lines are kept as values, not as text.
--
-- Not modelled: the assembly before `rust_start`, the ROM functions and the cache (parameters);
-- the crates of the signing tool, its command-line parser among them; the build script and the
-- file of key constants, which `keygen` writes.
-- The boot path keeps what it prints as strings; the loops that send their bytes are in Console,
-- apart from it. Log messages without output are left out, and the flag that only silences them.
pub mod Board
pub mod Boot
pub mod Common
pub mod Console
pub mod Crc
pub mod Efuse
pub mod FactoryReset
pub mod Flash
pub mod Gpio
pub mod Image
pub mod Init
pub mod Ota
pub mod Partition
pub mod Platform
pub mod Regs
pub mod Retain
pub mod Sha256
pub mod Shell
pub mod SigBlock
pub mod SignImage
pub mod Spi
pub mod Start
