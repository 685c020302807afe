-- ===== src/Shell/Lines.antt =====
-- The shell as a reader of lines: the first line that names a command decides.
use esp32c3_bootloader_rust.Common.{
  ℕ, zero, suc, ◌-◌, ◌≤◌, ◌≡◌, ◌⊎◌, inl, inr, refl, sym, ap, ◌∙◌, arith, List, [], ◌∷◌, ◌++◌, Bool,
  true, false, ◌&&◌, ◌||◌, Option, none, some, if◌then◌else◌, ltb, leb, ◌==◌, length, take,
  length-append, length-take, Bool-cases, Option-cases,
}
use esp32c3_bootloader_rust.Platform.{Platform}
use esp32c3_bootloader_rust.Console.{console_rx_byte}
use esp32c3_bootloader_rust.Image.Segments.{bytes_eq}
use esp32c3_bootloader_rust.Shell.{
  ShellAction, boot, reset, Shell, Next, go, stop, handle_byte, run_command, shell_loop, run_shell,
  text, countdown, boot_command, reboot_command, reset_command, help_command, welcomed,
}

-- What a byte other than a line end does to the line that is typed.
pub edit : List ℕ → ℕ → List ℕ
edit line b =
    if b == 0x08 || b == 0x7F
    then take (length line - 1) line
    else if leb 0x20 b && ltb b 0x7F && ltb (length line) 63
    then line ++ b ∷ []
    else line

pub edited : List ℕ → List ℕ → List ℕ
edited line [] = line
edited line (b ∷ rest) = edited (edit line b) rest

-- The action that a line names.
pub action_of : List ℕ → Option ShellAction
action_of line =
    if bytes_eq line boot_command
    then some boot
    else if bytes_eq line reboot_command || bytes_eq line reset_command
    then some reset
    else none

abbrev pub ends_line : ℕ → Bool
ends_line b = b == 13 || b == 10

abbrev pub or_else : Option ShellAction → Option ShellAction → Option ShellAction
or_else (some a) later = some a
or_else none later = later

-- The bytes of the line so far, and those to come.
pub first_command : List ℕ → List ℕ → Option ShellAction
first_command raw [] = none
first_command raw (b ∷ rest) =
    let this = or_else (action_of (edited [] raw)) (first_command [] rest) in
    let more = first_command (raw ++ b ∷ []) rest in if ends_line b then this else more

module _ {Chip : Type 0} (env : Platform Chip) where
  -- The bytes that a number of polls deliver.
  unfoldable pub received : ℕ → Chip → List ℕ
  received zero c = []
  received (suc n) c =
      let (byte, c1) = console_rx_byte env (env.tick c) in
      elim byte [ none ↦ received n c1 | some b ↦ b ∷ received n c1 ]

-- The loop over bytes alone.
shell_bytes : Shell → List ℕ → Option ShellAction
shell_bytes s [] = none
shell_bytes s (b ∷ rest) = elim (handle_byte s b) [
  | go s' ↦ shell_bytes s' rest
  | stop action s' ↦ some action
]

Next-cases :
    (n : Next) → ((s : Shell) × (n ≡ go s)) ⊎ ((a : ShellAction) × (s : Shell) × (n ≡ stop a s))
Next-cases (go s) = inl (s, refl)
Next-cases (stop a s) = inr (a, s, refl)

shell_loop-received :
    {Chip : Type 0} (env : Platform Chip) (n : ℕ) (s : Shell) (c : Chip)
    → (shell_loop env n s c).0 ≡ shell_bytes s (received env n c)
unfolding shell_loop received shell_bytes
shell_loop-received env zero s c = refl
shell_loop-received env (suc n) s c =
    let next = (console_rx_byte env (env.tick c)).1 in
    elim (Option-cases (console_rx_byte env (env.tick c)).0) [
      | inl quiet ↦ rw (quiet, shell_loop, received) (shell_loop-received env n s next)
      | inr (b, read) ↦
          rw (read, shell_loop, received)
            (elim (Next-cases (handle_byte s b)) [
              | inl (s', e) ↦ rw (e, shell_bytes) (shell_loop-received env n s' next)
              | inr (a, s', e) ↦ rw (e, shell_bytes)
            ])
    ]

-- The shell's buffer holds the edited line.
edited-append : (line xs ys : List ℕ) → edited line (xs ++ ys) ≡ edited (edited line xs) ys
unfolding edited
edited-append line [] ys = refl
edited-append line (x ∷ xs) ys = edited-append (edit line x) xs ys

-- A byte inside a line edits the buffer.
abbrev Edits : Shell → ℕ → Next → Type 0
Edits s b (go s') = s'.buf ≡ edit s.buf b
Edits s b (stop a s') = ⊥

handle_byte-Edits : (s : Shell) (b : ℕ) → ends_line b ≡ false → Edits s b (handle_byte s b)
unfolding handle_byte edit
handle_byte-Edits s b h = ground arith

-- A line end acts on the buffer.
abbrev Obeys : Shell → Next → Type 0
Obeys s (go s') = (s'.buf ≡ []) × (action_of s.buf ≡ none)
Obeys s (stop a s') = action_of s.buf ≡ some a

bytes_eq-eq : (xs ys : List ℕ) → bytes_eq xs ys ≡ true → xs ≡ ys
unfolding bytes_eq
bytes_eq-eq [] [] h = refl
bytes_eq-eq [] (y ∷ ys) h = cc
bytes_eq-eq (x ∷ xs) [] h = cc
bytes_eq-eq (x ∷ xs) (y ∷ ys) h = ground (arith, bytes_eq-eq xs ys)

help_is_no_action : action_of help_command ≡ none
unfolding action_of bytes_eq
help_is_no_action = refl

run_command-Obeys : (s t : Shell) → Obeys s (run_command s.buf t)
unfolding run_command
run_command-Obeys s t = elim (Bool-cases (bytes_eq s.buf help_command)) [
  | inl help ↦
      rw (help, run_command, Obeys)
        (refl, ap action_of (bytes_eq-eq s.buf help_command help) ∙ help_is_no_action)
  | inr other ↦ unfold action_of in ground arith
]

handle_byte-Obeys : (s : Shell) (b : ℕ) → ends_line b ≡ true → Obeys s (handle_byte s b)
unfolding handle_byte
handle_byte-Obeys s b h =
    rw (h, handle_byte) (run_command-Obeys s (record s { output = text "\r\n" ∷ s.output }))

-- Along the bytes the buffer is the edited line.
shell_bytes-first_command :
    (bytes raw : List ℕ) (s : Shell)
    → s.buf ≡ edited [] raw
    → shell_bytes s bytes ≡ first_command raw bytes
unfolding shell_bytes first_command edited
shell_bytes-first_command [] raw s e = refl
shell_bytes-first_command (b ∷ rest) raw s e = elim (Bool-cases (ends_line b)) [
  | inl line_end ↦
      rw (line_end, first_command)
        (at_end (handle_byte s b) (handle_byte-Obeys s b line_end)
          (λ t h. shell_bytes-first_command rest [] t h))
  | inr inside ↦
      rw (inside, first_command)
        (within (handle_byte s b) (handle_byte-Edits s b inside)
          (λ t h. shell_bytes-first_command rest (raw ++ b ∷ []) t h))
]
  where
    at_end :
        (n : Next)
        → Obeys s n
        → ((t : Shell) → t.buf ≡ [] → shell_bytes t rest ≡ first_command [] rest)
        → (elim n as (λ _. Option ShellAction) [
          | go s' ↦ shell_bytes s' rest
          | stop action s' ↦ some action
        ])
          ≡ or_else (action_of (edited [] raw)) (first_command [] rest)
    at_end (go t) o ih = rw (← e) (rw (o.1) (ih t o.0))
    at_end (stop a t) o ih = rw (← e) (rw o)

    within :
        (n : Next)
        → Edits s b n
        → ((t : Shell)
            → t.buf ≡ edited [] (raw ++ b ∷ [])
            → shell_bytes t rest ≡ first_command (raw ++ b ∷ []) rest)
        → (elim n as (λ _. Option ShellAction) [
          | go s' ↦ shell_bytes s' rest
          | stop action s' ↦ some action
        ])
          ≡ first_command (raw ++ b ∷ []) rest
    within (go t) o ih = ih t (o ∙ ap (λ l. edit l b) e ∙ sym (edited-append [] raw (b ∷ [])))
    within (stop a t) o ih = absurd o

-- With a key pressed in the first window, the shell's action after some polls is that of the first
-- line that names one, among the bytes that the polls deliver; each line is edited on its own. With
-- no key pressed, the shell boots.
pub run_shell-first_command :
    {Chip : Type 0} (env : Platform Chip) (polls : ℕ) (c : Chip)
    → let window = countdown env 50 c in
      (run_shell env polls c).0
      ≡ (if window.0 then first_command [] (received env polls window.1) else some boot)
unfolding run_shell edited
run_shell-first_command env polls c = elim (Bool-cases (countdown env 50 c).0) [
  | inl key ↦
      rw (key, run_shell)
        (shell_loop-received env polls welcomed _
          ∙ shell_bytes-first_command (received env polls (countdown env 50 c).1) [] welcomed refl)
  | inr quiet ↦ rw (quiet, run_shell)
]

-- A line end, `boot` and a line end.
abbrev pub boot_line : List ℕ
boot_line = 13 ∷ b'b' ∷ b'o' ∷ b'o' ∷ b't' ∷ 13 ∷ []

some_action :
    (o later : Option ShellAction)
    → (a : ShellAction) × (later ≡ some a)
    → (a : ShellAction) × (or_else o later ≡ some a)
some_action (some a) later h = (a, refl)
some_action none later h = h

boot_line-decides :
    (before after raw : List ℕ)
    → (a : ShellAction) × (first_command raw (before ++ (boot_line ++ after)) ≡ some a)
unfolding first_command edited edit action_of bytes_eq
boot_line-decides [] after raw = some_action (action_of (edited [] raw)) _ (boot, refl)
boot_line-decides (b ∷ before) after raw = elim (Bool-cases (ends_line b)) [
  | inl line_end ↦
      let r = some_action (action_of (edited [] raw)) _ (boot_line-decides before after []) in
      (r.0, rw (line_end, first_command) r.1)
  | inr inside ↦
      let r = boot_line-decides before after (raw ++ b ∷ []) in
      (r.0, rw (inside, first_command) r.1)
]

-- The shell is always left in the end: once the polls have delivered a line end, `boot` and a line
-- end, wherever that stands in the input, it has returned an action.
pub run_shell-returns :
    {Chip : Type 0} (env : Platform Chip) (polls : ℕ) (c : Chip) (before after : List ℕ)
    → received env polls (countdown env 50 c).1 ≡ before ++ (boot_line ++ after)
    → (a : ShellAction) × ((run_shell env polls c).0 ≡ some a)
run_shell-returns env polls c before after e = elim (Bool-cases (countdown env 50 c).0) [
  | inl key ↦
      let r = boot_line-decides before after [] in
      (r.0, run_shell-first_command env polls c ∙ rw key (ap (first_command []) e ∙ r.1))
  | inr quiet ↦ (boot, run_shell-first_command env polls c ∙ rw quiet)
]

-- At most 63 bytes are in the line buffer.
abbrev pub Fits : Next → Type 0
Fits (go s) = length s.buf ≤ 63
Fits (stop a s) = length s.buf ≤ 63

-- No byte makes a line buffer of at most 63 bytes longer than that.
pub handle_byte-Fits : (s : Shell) (b : ℕ) → length s.buf ≤ 63 → Fits (handle_byte s b)
unfolding handle_byte run_command
handle_byte-Fits s b h =
    ground (arith, length-append {0} s.buf (b ∷ []), length-take {0} (length s.buf - 1) s.buf)
