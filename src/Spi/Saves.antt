-- ===== src/Spi/Saves.antt =====
-- A flash command leaves the SPI1 controller as it found it, and idle.
use esp32c3_bootloader_rust.Common.{
  ℕ, zero, suc, ◌≤◌, ◌≡◌, ◌⊎◌, inl, inr, refl, ap, ◌∙◌, arith, List, [], ◌∷◌, Bool, true, false,
  if◌then◌else◌, ◌==◌,
}
use esp32c3_bootloader_rust.Platform.{Platform}
use esp32c3_bootloader_rust.Regs.{reg_has, spin, ticks, spin-ends}
use esp32c3_bootloader_rust.Spi.{
  spi1, spi_mem_cmd, spi_mem_ctrl, spi_mem_user, spi_mem_user1, spi_mem_user2, spi_mem_mosi_dlen,
  spi_mem_miso_dlen, spi_mem_usr, Saved, spi1_wait_ready, save, restore,
  bootloader_execute_flash_command, command, bootloader_read_flash_id,
}
use esp32c3_bootloader_rust.Spi.Vendor.{read_status, wait_written, bootloader_flash_unlock}

-- The registers that a command saves.
abbrev pub IsSaved : ℕ → Type 0
IsSaved b =
    (b ≡ spi1 spi_mem_ctrl)
    ⊎ (b ≡ spi1 spi_mem_user)
    ⊎ (b ≡ spi1 spi_mem_user1)
    ⊎ (b ≡ spi1 spi_mem_user2)
    ⊎ (b ≡ spi1 spi_mem_mosi_dlen)
    ⊎ (b ≡ spi1 spi_mem_miso_dlen)

-- A saved register reads back what was written to it last, also while a command runs; the command
-- register is changed only by writes to it and by the hardware.
pub record Latches {Chip : Type 0} (env : Platform Chip) : Type 0 where
  pub read_write :
      (c : Chip) (a v b : ℕ)
      → IsSaved b ⊎ (b ≡ spi1 spi_mem_cmd)
      → env.reg_read (env.reg_write c a v) b ≡ (if a == b then v else env.reg_read c b)
  pub read_tick : (c : Chip) (b : ℕ) → IsSaved b → env.reg_read (env.tick c) b ≡ env.reg_read c b
  pub read_hang : (c : Chip) (b : ℕ) → IsSaved b → env.reg_read (env.hang c) b ≡ env.reg_read c b

-- The controller finishes what it does before its rounds of its polling loop are over.
pub record Finishes {Chip : Type 0} (env : Platform Chip) : Type 0 where
  pub rounds : Chip → ℕ
  pub few : (c : Chip) → rounds c ≤ env.patience
  pub idle :
      (c : Chip) → reg_has env (spi1 spi_mem_cmd) spi_mem_usr (ticks env (rounds c) c) ≡ false

module _ {Chip : Type 0} (env : Platform Chip) where
  -- The wait of a command ends with the bit of a running command clear.
  pub spi1_wait_ready-idle :
      (c : Chip)
      → Finishes env
      → reg_has env (spi1 spi_mem_cmd) spi_mem_usr (spi1_wait_ready env c) ≡ false
  unfolding spi1_wait_ready
  spi1_wait_ready-idle c f =
      spin-ends env env.patience (f.rounds c) (reg_has env (spi1 spi_mem_cmd) spi_mem_usr) c
        (f.few c) (f.idle c)

  -- Register writes, one after the other.
  writes : List (ℕ × ℕ) → Chip → Chip
  writes [] c = c
  writes ((a, v) ∷ rest) c = writes rest (env.reg_write c a v)

  last_write : ℕ → List (ℕ × ℕ) → ℕ → ℕ
  last_write b [] v = v
  last_write b ((a, w) ∷ rest) v = last_write b rest (if a == b then w else v)

  module _ (l : Latches env) where
    read-writes :
        (ws : List (ℕ × ℕ)) (c : Chip) (b : ℕ)
        → IsSaved b ⊎ (b ≡ spi1 spi_mem_cmd)
        → env.reg_read (writes ws c) b ≡ last_write b ws (env.reg_read c b)
    unfolding writes last_write
    read-writes [] c b s = refl
    read-writes ((a, v) ∷ ws) c b s =
        read-writes ws (env.reg_write c a v) b s ∙ ap (last_write b ws) (l.read_write c a v b s)

    abbrev restores : Saved → List (ℕ × ℕ)
    restores old =
        (spi1 spi_mem_ctrl, old.ctrl)
        ∷ (spi1 spi_mem_user, old.user)
        ∷ (spi1 spi_mem_user1, old.user1)
        ∷ (spi1 spi_mem_user2, old.user2)
        ∷ (spi1 spi_mem_mosi_dlen, old.mosi_dlen)
        ∷ (spi1 spi_mem_miso_dlen, old.miso_dlen)
        ∷ []

    read-restore :
        (old : Saved) (c : Chip) (b : ℕ)
        → IsSaved b ⊎ (b ≡ spi1 spi_mem_cmd)
        → env.reg_read (restore env old c) b ≡ last_write b (restores old) (env.reg_read c b)
    unfolding restore writes
    read-restore old c b s = read-writes (restores old) c b s

    -- Each saved register is put back.
    read-restore-save :
        (r c : Chip) (b : ℕ)
        → IsSaved b
        → env.reg_read (restore env (save env r) c) b ≡ env.reg_read r b
    unfolding save last_write
    read-restore-save r c b s = read-restore (save env r) c b (inl s) ∙ ground (arith, s)

    -- The command register is left alone.
    cmd-restore :
        (old : Saved) (c : Chip)
        → env.reg_read (restore env old c) (spi1 spi_mem_cmd) ≡ env.reg_read c (spi1 spi_mem_cmd)
    unfolding last_write
    cmd-restore old c = read-restore old c (spi1 spi_mem_cmd) (inr refl)

    read-spin :
        (n : ℕ) (busy : Chip → Bool) (c : Chip) (b : ℕ)
        → IsSaved b
        → env.reg_read (spin env n busy c) b ≡ env.reg_read c b
    unfolding spin
    read-spin zero busy c b s = ground (arith, l.read_hang c b s)
    read-spin (suc n) busy c b s =
        ground (arith, read-spin n busy (env.tick c) b s, l.read_tick c b s)

    read-spi1_wait_ready :
        (c : Chip) (b : ℕ) → IsSaved b → env.reg_read (spi1_wait_ready env c) b ≡ env.reg_read c b
    unfolding spi1_wait_ready
    read-spi1_wait_ready c b s = read-spin env.patience _ c b s

    -- The registers read as before.
    abbrev Same : Chip → Chip → Type 0
    Same c c' = (b : ℕ) → IsSaved b → env.reg_read c' b ≡ env.reg_read c b

    Same-trans : (c c' c'' : Chip) → Same c c' → Same c' c'' → Same c c''
    Same-trans c c' c'' h k b s = k b s ∙ h b s

    execute-Same :
        (code mosi_data mosi_len miso_len : ℕ) (c : Chip)
        → Same c (bootloader_execute_flash_command env code mosi_data mosi_len miso_len c).1
    unfolding bootloader_execute_flash_command
    execute-Same code mosi_data mosi_len miso_len c b s =
        read-restore-save (spi1_wait_ready env c) _ b s ∙ read-spi1_wait_ready c b s

    idle_after :
        (code mosi_data mosi_len miso_len : ℕ) (c : Chip)
        → Finishes env
        → reg_has env
            (spi1 spi_mem_cmd)
            spi_mem_usr
            (bootloader_execute_flash_command env code mosi_data mosi_len miso_len c).1
          ≡ false
    unfolding bootloader_execute_flash_command reg_has
    idle_after code mosi_data mosi_len miso_len c f = rw cmd-restore (spi1_wait_ready-idle _ f)

    -- Whatever the command, its data and its lengths are, on a chip that latches its registers and
    -- finishes its commands: each of the six registers that a flash command uses reads after it as
    -- before it, and no command is left running.
    pub execute_flash_command-restores :
        (code mosi_data mosi_len miso_len : ℕ) (c : Chip) (b : ℕ)
        → IsSaved b
        → Finishes env
        → let after = (bootloader_execute_flash_command env code mosi_data mosi_len miso_len c).1 in
          (env.reg_read after b ≡ env.reg_read c b)
          × (reg_has env (spi1 spi_mem_cmd) spi_mem_usr after ≡ false)
    execute_flash_command-restores code mosi_data mosi_len miso_len c b s f = (
      execute-Same code mosi_data mosi_len miso_len c b s,
      idle_after code mosi_data mosi_len miso_len c f,
    )

    command-Same : (code : ℕ) (c : Chip) → Same c (command env code c)
    unfolding command
    command-Same code c = execute-Same code 0 0 0 c

    read_status-Same : (code : ℕ) (c : Chip) → Same c (read_status env code c).1
    unfolding read_status
    read_status-Same code c = execute-Same code 0 0 8 c

    read_flash_id-Same : (c : Chip) → Same c (bootloader_read_flash_id env c).1
    unfolding bootloader_read_flash_id
    read_flash_id-Same c = execute-Same 0x9F 0 0 24 c

    wait_written-Same : (n : ℕ) (c : Chip) → Same c (wait_written env n c)
    unfolding wait_written
    wait_written-Same zero c b s =
        ground (arith, read_status-Same 0x05 c b s, l.read_hang (read_status env 0x05 c).1 b s)
    wait_written-Same (suc n) c b s =
        ground
          (arith, read_status-Same 0x05 c b s, wait_written-Same n (read_status env 0x05 c).1 b s)

    if-Same : (c x y : Chip) (test : Bool) → Same c x → Same c y → Same c (if test then x else y)
    if-Same c x y true h k = h
    if-Same c x y false h k = k

    -- A status write of either length, and the wait for its end.
    write_status-Same :
        (c : Chip) (both one : ℕ) (second : Bool)
        → Same c (
            wait_written env env.patience (
              if second
              then (bootloader_execute_flash_command env 0x01 both 16 0 (command env 0x06 c)).1
              else (bootloader_execute_flash_command env 0x01 one 8 0 (command env 0x06 c)).1))
    write_status-Same c both one second = Same-trans _ _ _ (command-Same 0x06 c) (
        Same-trans _ _ _
          (if-Same _ _ _ second (execute-Same 0x01 both 16 0 _) (execute-Same 0x01 one 8 0 _))
          (wait_written-Same env.patience _))

    unlock-Same : (c : Chip) → Same c (bootloader_flash_unlock env c)
    unfolding bootloader_flash_unlock
    unlock-Same c = Same-trans _ _ _ (read_flash_id-Same c) (
        Same-trans _ _ _ (read_status-Same 0x05 _) (
          Same-trans _ _ _ (read_status-Same 0x35 _) (
            Same-trans _ _ _ (if-Same _ _ _ _ (write_status-Same _ _ _ _) (λ b s. refl))
              (command-Same 0x04 _))))

    -- Unlocking the flash, with all its commands and status writes, on a chip that latches its
    -- registers: each of the six registers of a flash command reads after it as before it.
    pub flash_unlock-restores :
        (c : Chip) (b : ℕ)
        → IsSaved b
        → env.reg_read (bootloader_flash_unlock env c) b ≡ env.reg_read c b
    flash_unlock-restores c = unlock-Same c
