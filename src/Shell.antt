-- ===== src/Shell.antt =====
-- The shell: test/test_shell.c. The characters come from the serial port, a parameter; what is only
-- printed is left out. A string is the list of its characters, without the `\0`.
pub mod Commands
pub mod Editing
pub mod Typing
mod Tests
use tina.Base.{
  ℕ, zero, suc, ◌+◌, ◌-◌, ◌*◌, ◌/◌, ◌%◌, ◌^◌, ◌≤◌, ◌<◌, min, max, ◌≡◌, ◌≢◌, ◌↔◌, ◌⊎◌, inl, inr,
  refl, sym, ap, ap₂, subst, ◌∙◌, fun_ext, Bool, true, false, not, ◌&&◌, ◌||◌, false≢true, Option,
  none, some, List, [], ◌∷◌, ◌++◌, map, append-nil, append_assoc, arith, ltb, leb, ◌==◌, ==_iff,
  ==_ne, ltb→lt, lt→ltb, leb_lt, leb_le, ltb_le, dec_lt, ℕ_discrete, if◌then◌else◌, Bool-cases,
  Option-cases, update, update-ne, update-eq, length, get_or, set, take, drop, replicate, All, has,
  ◌∈◌, ◌∉◌, Distinct, has-append, not-mem-cons, not-mem-append, mem_middle, mem-append_left,
  length-append, length-set, get_or-set, length-replicate, get_or-replicate,
}
use tina.Base.Bytes.{Buffer, string_at}
use tina.Kernel.{
  Kernel, TaskInfo, Status, embryo, sleeping, blocked, running, ready, exited, num_max_task,
  is_exited,
}
use tina.Queue.{pcb}
use tina.Kernel.Outcome.{Outcome, ok, ◌>>=◌}
use tina.Proc.{spawn, kill}
use tina.Fs.{Device, Fs}
use tina.Fs.Format.{do_makefs, deletefs, statfs}
use tina.Fs.Path.{change_directory, list_directory, make_directory, remove_directory, remove_file}
use tina.Fs.Text.{touch_file, cat_file}
use tina.Tokens.{same_string}

abbrev pub cmd_len : ℕ
cmd_len = 128

-- `n = 10 * n + (c - '0')`, in 32 bits.
unfoldable pub digits_loop : (n : ℕ) → List ℕ → ℕ
digits_loop n [] = n
digits_loop n (c ∷ cs) = digits_loop ((10 * n + c + (2 ^ 32 - b'0')) % 2 ^ 32) cs

unfoldable pub atoi : List ℕ → ℕ
atoi [] = 0
atoi (c ∷ cs) =
    if c == b'-'
    then (2 ^ 32 - digits_loop 0 cs) % 2 ^ 32
    else if c == b'+'
    then digits_loop 0 cs
    else digits_loop 0 (c ∷ cs)

-- The table `test_tasks`; the entries behind the third are NULL.
unfoldable pub test_tasks : (task0 task1 task2 : TaskInfo) → ℕ → Option TaskInfo
test_tasks task0 task1 task2 zero = some task0
test_tasks task0 task1 task2 (suc zero) = some task1
test_tasks task0 task1 task2 (suc (suc zero)) = some task2
test_tasks task0 task1 task2 i = none

-- What `process_show` prints of a status.
unfoldable pub status_name : Status → List ℕ
status_name embryo = b'e' ∷ b'm' ∷ b'b' ∷ b'r' ∷ b'y' ∷ b'o' ∷ []
status_name sleeping = b's' ∷ b'l' ∷ b'e' ∷ b'e' ∷ b'p' ∷ b'i' ∷ b'n' ∷ b'g' ∷ []
status_name blocked = b'b' ∷ b'l' ∷ b'o' ∷ b'c' ∷ b'k' ∷ b'e' ∷ b'd' ∷ []
status_name running = b'r' ∷ b'u' ∷ b'n' ∷ b'n' ∷ b'i' ∷ b'n' ∷ b'g' ∷ []
status_name ready = b'r' ∷ b'e' ∷ b'a' ∷ b'd' ∷ b'y' ∷ []
status_name exited = b'e' ∷ b'x' ∷ b'i' ∷ b't' ∷ b'e' ∷ b'd' ∷ []

-- A line of `process_show`: the slot, the pointer to the name, the pid and the status.
pub record Shown : Type 0 where
  pub slot : ℕ
  pub name : ℕ
  pub pid : ℕ
  pub status : List ℕ

unfoldable pub process_show : (left i : ℕ) → Kernel → List Shown
process_show zero i k = []
process_show (suc left) i k =
    let rest = process_show left (i + 1) k in
    let p = pcb + i in
    if is_exited (k.status p)
    then rest
    else record {
      slot = i;
      name = (k.image p).name;
      pid = k.pid p;
      status = status_name (k.status p);
    }
      ∷ rest

unfoldable pub has_exited : (left i : ℕ) → Kernel → Bool
has_exited zero i k = false
has_exited (suc left) i k = is_exited (k.status (pcb + i)) || has_exited left (i + 1) k

-- `sys_spawn` of an entry of the table; `none` is a read through NULL, which there is with a free slot only.
unfoldable pub spawn_task : (embryo_start : ℕ) → Kernel → Option TaskInfo → Option Kernel
spawn_task embryo_start k none = if has_exited num_max_task 0 k then none else some k
spawn_task embryo_start k (some task) = some (spawn embryo_start k task)

-- `exec all`, from entry `i`
unfoldable pub spawn_all :
    (embryo_start : ℕ)
    → (tasks : ℕ → Option TaskInfo) → (left i : ℕ) → Option Kernel
    → Option Kernel
spawn_all embryo_start tasks left i none = none
spawn_all embryo_start tasks zero i (some k) = some k
spawn_all embryo_start tasks (suc left) i (some k) =
    spawn_all embryo_start tasks left (i + 1) (spawn_task embryo_start k (tasks i))

unfoldable pub spawn_args :
    (embryo_start : ℕ)
    → (tasks : ℕ → Option TaskInfo) → (argv : List (List ℕ)) → Option Kernel
    → Option Kernel
spawn_args embryo_start tasks argv none = none
spawn_args embryo_start tasks [] (some k) = some k
spawn_args embryo_start tasks (arg ∷ argv) (some k) =
    let i = atoi arg in
    spawn_args embryo_start tasks argv
      (if ltb i 16 then spawn_task embryo_start k (tasks i) else some k)

abbrev pub all_word : List ℕ
all_word = b'a' ∷ b'l' ∷ b'l' ∷ []

-- The arguments behind the name of the command.
unfoldable pub exec :
    (embryo_start : ℕ)
    → (tasks : ℕ → Option TaskInfo) → Kernel
    → (argv : List (List ℕ)) → Option Kernel
exec embryo_start tasks k [] = some k
exec embryo_start tasks k (arg ∷ argv) =
    if same_string arg all_word
    then spawn_all embryo_start tasks 15 0 (some k)
    else spawn_args embryo_start tasks (arg ∷ argv) (some k)

unfoldable pub kill_all : (left i : ℕ) → Kernel → Outcome Kernel
kill_all zero i k = ok k
kill_all (suc left) i k = kill k (k.pid (pcb + i)) >>= kill_all left (i + 1)

unfoldable pub kill_args : (argv : List (List ℕ)) → Kernel → Outcome Kernel
kill_args [] k = ok k
kill_args (arg ∷ argv) k =
    let i = atoi arg in (if ltb i 16 then kill k i else ok k) >>= kill_args argv

unfoldable pub killer : Kernel → (argv : List (List ℕ)) → Outcome Kernel
killer k [] = ok k
killer k (arg ∷ argv) =
    if same_string arg all_word then kill_all 31 1 k else kill_args (arg ∷ argv) k

-- The last of the characters that wait at the port, and `\0` if there is none.
unfoldable pub read_uart_ch : (waiting : List ℕ) → ℕ
read_uart_ch [] = 0
read_uart_ch (ch ∷ []) = ch
read_uart_ch (ch ∷ next ∷ waiting) = read_uart_ch (next ∷ waiting)

-- The line of the shell, `buf` and `i` of `test_shell`.
pub record Line : Type 0 where
  pub buf : Buffer
  pub i : ℕ

unfoldable pub press : Line → (ch : ℕ) → Line × Option (List ℕ)
press line ch =
    if ch == 0
    then (line, none)
    else if (ch == 8) || (ch == 127)
    then (record line { i = line.i - 1 }, none)
    else if (ch == 13) || (ch == 10)
    then (
      record { buf = update line.buf line.i 0; i = 0 },
      some (string_at cmd_len (update line.buf line.i 0) 0),
    )
    else (record { buf = update line.buf line.i ch; i = line.i + 1 }, none)

-- One round of the loop of `test_shell`, with the command that is decoded; `none` where the source writes
-- behind `buf`.
unfoldable pub key : Line → (ch : ℕ) → Option (Line × Option (List ℕ))
key line ch =
    let (line', command) = press line ch in
    if ltb line.i cmd_len && ltb (line'.i + 1) cmd_len
    then some (record line' { buf = update line'.buf (line'.i + 1) 0 }, command)
    else none
