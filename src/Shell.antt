-- ===== src/Shell.antt =====
-- The serial shell of src/init.rs, `run_shell`. What it prints is kept as a list, latest first;
-- the bytes that it reads come from the chip.
pub mod Lines
mod Tests
use esp32c3_bootloader_rust.Common.{
  ℕ, zero, suc, ◌+◌, ◌-◌, List, [], ◌∷◌, ◌++◌, Bool, true, false, ◌&&◌, ◌||◌, not, Option, none,
  some, if◌then◌else◌, ltb, leb, ◌==◌, length, take,
}
use esp32c3_bootloader_rust.Platform.{Platform, delay_us}
use esp32c3_bootloader_rust.Console.{console_rx_byte}
use esp32c3_bootloader_rust.Image.Segments.{bytes_eq}
use Prim.Native.String.{String}

pub data ShellAction : Type 0 where
  boot reset : ShellAction

-- A string, or an echoed byte.
pub data Output : Type 0 where
  text : String → Output
  echo : ℕ → Output

-- The filled part of the line buffer, and the output.
pub record Shell : Type 0 where
  pub buf : List ℕ
  pub output : List Output

abbrev pub buf_size : ℕ
buf_size = 64

abbrev pub help_command : List ℕ
help_command = b'h' ∷ b'e' ∷ b'l' ∷ b'p' ∷ []

abbrev pub boot_command : List ℕ
boot_command = b'b' ∷ b'o' ∷ b'o' ∷ b't' ∷ []

abbrev pub reboot_command : List ℕ
reboot_command = b'r' ∷ b'e' ∷ b'b' ∷ b'o' ∷ b'o' ∷ b't' ∷ []

abbrev pub reset_command : List ℕ
reset_command = b'r' ∷ b'e' ∷ b's' ∷ b'e' ∷ b't' ∷ []

abbrev say : String → Shell → Shell
say line s = record s { output = text line ∷ s.output }

abbrev pub welcomed : Shell
welcomed =
    say "\r\nShell active. Commands: help, boot, reboot\r\n> " (
      say "Press any key for shell, or auto-booting in 5s...\r\n"
        (record { buf = []; output = [] }))

-- After a byte the shell goes on, or is left.
pub data Next : Type 0 where
  go : Shell → Next
  stop : ShellAction → Shell → Next

-- A completed line; the buffer is empty again.
unfoldable pub run_command : List ℕ → Shell → Next
run_command cmd s =
    let cleared = record s { buf = [] } in
    if bytes_eq cmd help_command
    then go (
        say "> " (
          say "  reboot - reset the chip\r\n" (
            say "  boot   - proceed with normal boot\r\n"
              (say "  help   - show this list\r\n" cleared))))
    else if bytes_eq cmd boot_command
    then stop boot cleared
    else if bytes_eq cmd reboot_command || bytes_eq cmd reset_command
    then stop reset cleared
    else if not (length cmd == 0)
    then go (say "> " (say "Unknown command. Type 'help'.\r\n" cleared))
    else go (say "> " cleared)

-- The `match` on a byte.
unfoldable pub handle_byte : Shell → ℕ → Next
unfolding run_command
handle_byte s b =
    if b == 13 || b == 10
    then run_command s.buf (say "\r\n" s)
    else if b == 0x08 || b == 0x7F
    then go (
        if ltb 0 (length s.buf)
        then say "\u{8} \u{8}" (record s { buf = take (length s.buf - 1) s.buf })
        else s)
    else if leb 0x20 b && ltb b 0x7F
    then go (
        if ltb (length s.buf) (buf_size - 1)
        then record s { buf = s.buf ++ b ∷ []; output = echo b ∷ s.output }
        else s)
    else go s

module _ {Chip : Type 0} (env : Platform Chip) where
  -- The window before the automatic boot, with `n` rounds left: was a byte read?
  unfoldable pub countdown : ℕ → Chip → Bool × Chip
  countdown zero c = (false, c)
  countdown (suc n) c =
      let (byte, c1) = console_rx_byte env (env.rom_call c (delay_us 100_000)) in
      elim byte [ none ↦ countdown n c1 | some b ↦ (true, c1) ]

  -- The loop over bytes, for `n` polls of the console; `none` while no command has ended it.
  unfoldable pub shell_loop : ℕ → Shell → Chip → Option ShellAction × Shell × Chip
  shell_loop zero s c = (none, s, c)
  shell_loop (suc n) s c =
      let (byte, c1) = console_rx_byte env (env.tick c) in
      elim byte [
        | none ↦ shell_loop n s c1
        | some b ↦ elim (handle_byte s b) [
          | go s' ↦ shell_loop n s' c1
          | stop action s' ↦ (some action, s', c1)
        ]
      ]

  unfoldable pub run_shell : ℕ → Chip → Option ShellAction × Chip
  unfolding countdown shell_loop
  run_shell polls c =
      let (interactive, c1) = countdown 50 c in
      let (action, s, c2) = shell_loop polls welcomed c1 in
      if interactive then (action, c2) else (some boot, c1)
