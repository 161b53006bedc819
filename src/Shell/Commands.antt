-- ===== src/Shell/Commands.antt =====
-- The commands of the shell: `decode` of test/test_shell.c.
use tina.Base.{length, ltb, ℕ, Bool, Option, none, some, List, [], ◌∷◌, if◌then◌else◌}
use tina.Base.Bytes.{Buffer}
use tina.Kernel.{Kernel, TaskInfo}
use tina.Fs.{Device, Fs}
use tina.Fs.Format.{do_makefs, deletefs, statfs}
use tina.Fs.Path.{change_directory, list_directory, make_directory, remove_directory, remove_file}
use tina.Fs.Text.{touch_file}
use tina.Shell.{exec, killer}
use tina.Kernel.Outcome.{Outcome, ok}
use tina.Tokens.{split, same_string}

abbrev pub cmd_max_count : ℕ
cmd_max_count = 16

-- What the shell works on: the kernel's tasks and the file system.
pub record System (S : Type 0) : Type 0 where
  pub kernel : Kernel
  pub fs : Fs S

-- Is the name of the command this one?
abbrev is_command : List ℕ → List ℕ → Bool
is_command = same_string

abbrev returned : Outcome Kernel → Option Kernel
returned (ok k) = some k
returned _ = none

module _ {S : Type 0} where
  abbrev with_fs : System S → Option (Fs S) → Option (System S)
  with_fs sys none = none
  with_fs sys (some fs) = some (record sys { fs = fs })

  abbrev with_kernel : System S → Option Kernel → Option (System S)
  with_kernel sys none = none
  with_kernel sys (some k) = some (record sys { kernel = k })

  abbrev first : {A : Type 0} → Option (Fs S × A) → Option (Fs S)
  first none = none
  first (some r) = some r.0

  abbrev second : {A : Type 0} → Option (A × Fs S) → Option (Fs S)
  second none = none
  second (some r) = some r.1

module _ {S : Type 0} (D : Device S) (inode0 block0 : Buffer) (now embryo_start : ℕ)
    (tasks : ℕ → Option TaskInfo) where
  -- The commands of `decode`; `ps`, `clear` and `cat` only print, and so does what is no command.
  unfoldable pub decode_args :
      System S → (cmd : List ℕ) → (argv : List (List ℕ)) → Option (System S)
  decode_args sys cmd argv =
      let args = cmd ∷ argv in
      if is_command cmd (b'e' ∷ b'x' ∷ b'e' ∷ b'c' ∷ [])
      then with_kernel sys (exec embryo_start tasks sys.kernel argv)
      else if is_command cmd (b'k' ∷ b'i' ∷ b'l' ∷ b'l' ∷ [])
      then with_kernel sys (returned (killer sys.kernel argv))
      else if is_command cmd (b'm' ∷ b'k' ∷ b'f' ∷ b's' ∷ [])
      then with_fs sys (second (do_makefs D inode0 block0 now sys.fs))
      else if is_command cmd (b's' ∷ b't' ∷ b'a' ∷ b't' ∷ b'f' ∷ b's' ∷ [])
      then with_fs sys (some (statfs D sys.fs).0)
      else if is_command cmd (b'd' ∷ b'e' ∷ b'l' ∷ b'f' ∷ b's' ∷ [])
      then with_fs sys (some (deletefs D sys.fs).1)
      else if is_command cmd (b'm' ∷ b'k' ∷ b'd' ∷ b'i' ∷ b'r' ∷ [])
      then with_fs sys (make_directory D inode0 block0 now sys.fs args)
      else if is_command cmd (b'l' ∷ b's' ∷ [])
      then with_fs sys (first (list_directory D block0 sys.fs args))
      else if is_command cmd (b'r' ∷ b'm' ∷ [])
      then with_fs sys (some (remove_file D block0 sys.fs args))
      else if is_command cmd (b'r' ∷ b'm' ∷ b'd' ∷ b'i' ∷ b'r' ∷ [])
      then with_fs sys (some (remove_directory D block0 sys.fs args))
      else if is_command cmd (b'c' ∷ b'd' ∷ [])
      then with_fs sys (change_directory D block0 sys.fs args)
      else if is_command cmd (b't' ∷ b'o' ∷ b'u' ∷ b'c' ∷ b'h' ∷ [])
      then with_fs sys (touch_file D inode0 block0 now sys.fs args)
      else some sys

  -- `none` without a word, since `args[0]` is not set then.
  unfoldable pub decode_words : System S → (args : List (List ℕ)) → Option (System S)
  decode_words sys [] = none
  decode_words sys (cmd ∷ argv) = decode_args sys cmd argv

  -- `none` when there are more words than `args` has entries.
  unfoldable pub decode : System S → (origin_cmd : List ℕ) → Option (System S)
  decode sys origin_cmd =
      let args = split b' ' origin_cmd in
      if ltb cmd_max_count (length args) then none else decode_words sys args
