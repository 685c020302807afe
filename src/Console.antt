-- ===== src/Console.antt =====
-- The console of src/init.rs: bytes to and from UART0 and the USB serial port.
use esp32c3_bootloader_rust.Common.{
  ℕ, zero, suc, ◌/◌, ◌%◌, ◌^◌, List, [], ◌∷◌, Option, none, some, if◌then◌else◌, ltb, leb, ◌==◌,
}
use esp32c3_bootloader_rust.Platform.{Platform}
use esp32c3_bootloader_rust.Regs.{reg_has, spin}

abbrev pub uart_fifo_reg : ℕ
uart_fifo_reg = 0x6000_0000

abbrev pub uart_status_reg : ℕ
uart_status_reg = 0x6000_001C

abbrev pub usb_device_ep1_reg : ℕ
usb_device_ep1_reg = 0x6004_3000

abbrev pub usb_device_ep1_conf_reg : ℕ
usb_device_ep1_conf_reg = 0x6004_3004

module _ {Chip : Type 0} (env : Platform Chip) where
  unfoldable pub uart_rx_byte : Chip → Option ℕ × Chip
  uart_rx_byte c =
      let (byte, c1) = env.fifo_read c uart_fifo_reg in
      if ltb 0 (env.reg_read c uart_status_reg % 256) then (some (byte % 256), c1) else (none, c)

  unfoldable pub usb_serial_jtag_rx_byte : Chip → Option ℕ × Chip
  usb_serial_jtag_rx_byte c =
      let (byte, c1) = env.fifo_read c usb_device_ep1_reg in
      if reg_has env usb_device_ep1_conf_reg (2 ^ 2) c then (some (byte % 256), c1) else (none, c)

  -- UART0 first.
  unfoldable pub console_rx_byte : Chip → Option ℕ × Chip
  unfolding uart_rx_byte usb_serial_jtag_rx_byte
  console_rx_byte c =
      let (byte, c1) = uart_rx_byte c in
      elim byte [ none ↦ usb_serial_jtag_rx_byte c1 | some b ↦ (some b, c1) ]

  -- The transmit FIFO is waited for until it holds less than 128 bytes.
  unfoldable pub uart_tx_byte : ℕ → Chip → Chip
  uart_tx_byte b c =
      let ready =
        spin env env.patience (λ c. leb 128 (env.reg_read c uart_status_reg / 2 ^ 16 % 256)) c in
      env.reg_write ready uart_fifo_reg b

  -- The wait for room in the endpoint, with `n` rounds left; `none` when they have run out.
  unfoldable pub usb_wait : ℕ → Chip → Option Chip
  usb_wait zero c = none
  usb_wait (suc n) c =
      let rest = usb_wait n (env.tick c) in
      if reg_has env usb_device_ep1_conf_reg (2 ^ 1) c then some c else rest

  unfoldable pub usb_serial_jtag_tx_byte : ℕ → ℕ → Chip → Chip
  unfolding usb_wait
  usb_serial_jtag_tx_byte timeout b c = elim (usb_wait timeout c) [
    | none ↦ c
    | some ready ↦
        env.reg_write (env.reg_write ready usb_device_ep1_reg b) usb_device_ep1_conf_reg 1
  ]

  -- Up to the first zero, with a carriage return before each line feed.
  unfoldable pub uart_tx_str : List ℕ → Chip → Chip
  unfolding uart_tx_byte
  uart_tx_str [] c = c
  uart_tx_str (b ∷ rest) c =
      let next = uart_tx_str rest (uart_tx_byte b (if b == 10 then uart_tx_byte 13 c else c)) in
      if b == 0 then c else next

  unfoldable pub usb_tx_str : ℕ → List ℕ → Chip → Chip
  unfolding usb_serial_jtag_tx_byte
  usb_tx_str timeout [] c = c
  usb_tx_str timeout (b ∷ rest) c =
      let next = usb_tx_str timeout rest (usb_serial_jtag_tx_byte timeout b c) in
      if b == 0 then c else next

  -- `debug_tx_byte` and `debug_tx_str`, with 100000 rounds for each byte on the USB port.
  unfoldable pub debug_tx_byte : ℕ → Chip → Chip
  unfolding uart_tx_byte usb_serial_jtag_tx_byte
  debug_tx_byte b c = uart_tx_byte b (usb_serial_jtag_tx_byte 100_000 b c)

  unfoldable pub debug_tx_bytes : List ℕ → Chip → Chip
  unfolding uart_tx_str usb_tx_str
  debug_tx_bytes bytes c = uart_tx_str bytes (usb_tx_str 100_000 bytes c)
