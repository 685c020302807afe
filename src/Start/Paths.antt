-- ===== src/Start/Paths.antt =====
-- The bootloader from its start to its end.
use esp32c3_bootloader_rust.Flash.Stored.{Knows}
use esp32c3_bootloader_rust.Sha256.Pool.{Pool}
use esp32c3_bootloader_rust.Boot.Sound.{IsSound, same-IsSound}
use esp32c3_bootloader_rust.Boot.Verified.{IsVerified}
use esp32c3_bootloader_rust.Boot.Outcome.{IsIdle, searched_chip, boot-IsVerified}
use esp32c3_bootloader_rust.Common.{
  ℕ, ◌≡◌, refl, ap, not, Bool-cases, inl, inr, List, ◌++◌, none, some,
}
use esp32c3_bootloader_rust.Platform.{Platform}
use esp32c3_bootloader_rust.Flash.{Machine}
use esp32c3_bootloader_rust.Shell.{ShellAction, countdown, run_shell}
use esp32c3_bootloader_rust.Shell
use esp32c3_bootloader_rust.Shell.Lines.{received, boot_line, run_shell-returns}
use esp32c3_bootloader_rust.Boot.Handover.{BootEnd, bootloader_reset}
use esp32c3_bootloader_rust.Boot.Loaded.{IsSafe, boot-IsSafe, bootloader_reset-IsSafe}
use esp32c3_bootloader_rust.Init.{
  bootloader_init, bootloader_init_mem, bootloader_print_banner, bootloader_clear_bss_section,
}
use esp32c3_bootloader_rust.Start.{act, call_start_cpu0, rust_start}

module _ {Chip : Type 0} (env : Platform Chip) where
  act-IsSafe : (a : ShellAction) (m : Machine Chip) → IsSafe env (act env a m)
  unfolding act
  act-IsSafe Shell.reset m = bootloader_reset-IsSafe env m
  act-IsSafe Shell.boot m = boot-IsSafe env m

  -- The machine after the initialisation, from a machine whose .bss is cleared.
  abbrev pub started : Machine Chip → Machine Chip
  started m = (bootloader_init env (record m { ram = bootloader_clear_bss_section env m.ram })).1

  -- Once the polls of the shell have delivered a line end, `boot` and a line end, wherever these
  -- stand in the input, the model has come to an end, also where a polling loop in between is
  -- handed to `hang`; and the end is a reset, or a jump to the entry point of an image that was
  -- loaded with verification.
  rust_start-ends :
      (polls : ℕ) (m : Machine Chip) (before after : List ℕ)
      → received env polls (countdown env 50 (started m).chip).1 ≡ before ++ (boot_line ++ after)
      → (e : BootEnd Chip) × (rust_start env polls m ≡ some e) × IsSafe env e
  unfolding rust_start call_start_cpu0
  rust_start-ends polls m before after h =
      let (a, e) = run_shell-returns env polls (started m).chip before after h in
      let m2 = record (started m) { chip = (run_shell env polls (started m).chip).1 } in
      (
        act env a m2,
        ap (λ o. elim o [ none ↦ none | some a' ↦ some (act env a' m2) ]) e,
        act-IsSafe a m2,
      )

  -- The machine once `polls` polls of the shell are over.
  abbrev pub shelled : ℕ → Machine Chip → Machine Chip
  shelled polls m = record (started m) { chip = (run_shell env polls (started m).chip).1 }

  -- The initialisation uses the chip and the console only.
  bootloader_init-IsSound :
      (p : Pool) (m : Machine Chip) → IsSound env p m → IsSound env p (bootloader_init env m).1
  unfolding bootloader_init bootloader_print_banner
  bootloader_init-IsSound p m s = elim (Bool-cases (not (bootloader_init_mem env))) [
    | inl bad ↦ rw (bad) (same-IsSound env p m _ refl refl refl refl s)
    | inr good ↦ rw (good) (same-IsSound env p m _ refl refl refl refl s)
  ]

  started-IsSound : (m : Machine Chip) → Knows env m → IsSound env m.pool (started m)
  started-IsSound m knows =
      bootloader_init-IsSound m.pool _ (record { same_pool = refl; knows = knows })

  act-IsVerified :
      (a : ShellAction) (m : Machine Chip)
      → IsIdle m.pool
      → Knows env m
      → IsVerified env (searched_chip env m) (act env a m)
  unfolding act bootloader_reset
  act-IsVerified Shell.reset m idle knows = tt
  act-IsVerified Shell.boot m idle knows = boot-IsVerified env m idle knows

  -- The bootloader starts on a machine whose SHA-256 contexts are free and that has not misread
  -- the flash encryption eFuse. Once the polls of the shell have delivered a line end, `boot` and
  -- a line end, wherever these stand in the input, its model has come to an end, also where a
  -- polling loop in between is handed to `hang`; and the end is a reset,
  -- or a jump to the entry point of an image that is intact in the flash as the search for an
  -- image finds it: an accepted header, the right checksum byte, and the right appended hash
  -- unless the header says that there is none.
  pub rust_start-IsVerified :
      (polls : ℕ) (m : Machine Chip) (before after : List ℕ)
      → received env polls (countdown env 50 (started m).chip).1 ≡ before ++ (boot_line ++ after)
      → IsIdle m.pool
      → Knows env m
      → (e : BootEnd Chip) × (rust_start env polls m ≡ some e)
        × IsVerified env (searched_chip env (shelled polls m)) e
  unfolding rust_start call_start_cpu0
  rust_start-IsVerified polls m before after h idle knows =
      let (a, e) = run_shell-returns env polls (started m).chip before after h in
      let s = started-IsSound m knows in
      (
        act env a (shelled polls m),
        ap (λ o. elim o [ none ↦ none | some a' ↦ some (act env a' (shelled polls m)) ]) e,
        act-IsVerified a (shelled polls m) (rw (s.same_pool) idle) s.knows,
      )
