-- ===== src/Shell/Tests.antt =====
-- Lines typed at the shell.
use esp32c3_bootloader_rust.Common.{
  ℕ, ◌≡◌, refl, arith, List, [], ◌∷◌, some, if◌then◌else◌, replicate,
}
use esp32c3_bootloader_rust.Regs.{reg_has}
use esp32c3_bootloader_rust.Image.Segments.{bytes_eq}
use esp32c3_bootloader_rust.Board.{keyboard}
use esp32c3_bootloader_rust.Console.{console_rx_byte}
use esp32c3_bootloader_rust.Shell.{
  ShellAction, boot, reset, handle_byte, countdown, run_shell, shell_loop,
}
use esp32c3_bootloader_rust.Shell.Lines.{
  received, first_command, Fits, run_shell-first_command, run_shell-returns, boot_line,
  handle_byte-Fits,
}

-- A key, an unknown command with a correction, and the command to reset.
abbrev keys : List ℕ
keys = b'x' ∷ b'l' ∷ b's' ∷ 8 ∷ 13 ∷ b'r' ∷ b'e' ∷ b's' ∷ b'e' ∷ b't' ∷ 13 ∷ []

resets : (run_shell keyboard 12 keys).0 ≡ some reset
unfolding run_shell keyboard countdown shell_loop handle_byte console_rx_byte reg_has bytes_eq
resets = refl

auto_boots : (run_shell keyboard 12 []).0 ≡ some boot
unfolding run_shell keyboard countdown shell_loop handle_byte console_rx_byte reg_has
auto_boots = refl

run_shell-first_command_example :
    let window = countdown keyboard 50 keys in
    (run_shell keyboard 12 keys).0
    ≡ (if window.0 then first_command [] (received keyboard 12 window.1) else some boot)
run_shell-first_command_example = run_shell-first_command keyboard 12 keys

handle_byte-Fits_example : Fits (handle_byte (record { buf = replicate 63 b'a'; output = [] }) b'b')
handle_byte-Fits_example =
    handle_byte-Fits (record { buf = replicate 63 b'a'; output = [] }) b'b' (omega arith)

-- A key, a broken line, and then the command to boot on a line of its own.
abbrev boot_keys : List ℕ
boot_keys = b'x' ∷ b'l' ∷ boot_line

run_shell-returns_example : (a : ShellAction) × ((run_shell keyboard 12 boot_keys).0 ≡ some a)
unfolding keyboard countdown received console_rx_byte reg_has
run_shell-returns_example = run_shell-returns keyboard 12 boot_keys (b'l' ∷ []) [] refl
