-- ===== src/Shell/Tests.antt =====
-- Runs of test/test_shell.c.
use tina.Base.{
  Option, ℕ, zero, suc, ◌-◌, ◌^◌, ◌≡◌, refl, false, none, some, List, [], ◌∷◌, arith, ◌==◌,
  if◌then◌else◌,
}
use tina.Base.Bytes.{Buffer}
use tina.Kernel.{Kernel, Image, user_process, exited}
use tina.Fs.{Device}
use tina.Shell.{Line, key, atoi, digits_loop, read_uart_ch}
use tina.Shell.Typing.{typed, decode-typed}
use tina.Shell.Commands.{System, decode, decode_words}
use tina.Shell.Editing.{NoZero, Edited, edit, key-Edited}

test_atoi : atoi (b'-' ∷ b'4' ∷ b'2' ∷ []) ≡ 2 ^ 32 - 42
unfolding atoi digits_loop
test_atoi = refl

test_uart : read_uart_ch (b'a' ∷ b'b' ∷ []) ≡ b'b'
unfolding read_uart_ch
test_uart = refl

abbrev ls_line : Line
ls_line = record { buf = λ j. if j == 0 then b'l' else if j == 1 then b's' else 0; i = 2 }

ls_line-NoZero : NoZero ls_line
ls_line-NoZero zero l e = absurd (omega (arith, e))
ls_line-NoZero (suc zero) l e = absurd (omega (arith, e))
ls_line-NoZero (suc (suc j)) l e = absurd (omega (arith, l))

key-Edited_example :
    (line' : Line) × (command : Option (List ℕ)) × (key ls_line 8 ≡ some (line', command))
    × Edited line' command (edit (b'l' ∷ b's' ∷ []) 8)
key-Edited_example = key-Edited ls_line 8 ls_line-NoZero (omega arith) (omega arith)

abbrev blank : Image
blank = record {
  name = 0;
  type = user_process;
  kernel_stack_top = 0;
  user_stack_top = 0;
  kernel_sp = 0;
  kernel_ra = 0;
  kernel_epc = 0;
  kernel_status = 0;
  user_sp = 0;
  user_ra = 0;
  user_epc = 0;
  user_status = 0;
}

abbrev zero_buffer : Buffer
zero_buffer a = 0

abbrev no_tasks : Kernel
no_tasks = record {
  links = record { next = zero_buffer; prev = zero_buffer; head = zero_buffer; tail = zero_buffer };
  status = λ p. exited;
  pid = zero_buffer;
  sleep_end = zero_buffer;
  chan = zero_buffer;
  cursor_x = zero_buffer;
  cursor_y = zero_buffer;
  image = λ p. blank;
  locked = λ l. false;
  overlaps = λ l. false;
  current_running = 1;
  process_id = 1;
  screen_cursor_x = 0;
  screen_cursor_y = 0;
  time_elapsed = 0;
}

-- A disk of zeros that keeps nothing.
abbrev empty_disk : Device ℕ
empty_disk = record { byte = λ s a. 0; sdread = λ s o n i. 0; sdwrite = λ s src o n. s }

abbrev start : System ℕ
start = record {
  kernel = no_tasks;
  fs = record {
    disk = 0;
    superblock = zero_buffer;
    inode_map = [];
    shell_path_inode = zero_buffer;
    shell_path_head = [];
    cur_dir = zero_buffer;
    fd_ino = zero_buffer;
    fd_pos = zero_buffer;
    fd_index = 0;
  };
}

abbrev empty_line : Line
empty_line = record { buf = zero_buffer; i = 0 }

abbrev kill_two : List ℕ
kill_two = b'k' ∷ b'i' ∷ b'l' ∷ b'l' ∷ b' ' ∷ b'2' ∷ []

decode-typed_example :
    (whole : Line) × (typed (some empty_line) kill_two ≡ some whole)
    × (after : Line) × (key whole 13 ≡ some (after, some kill_two))
    × (after.i ≡ 0)
    × (decode empty_disk zero_buffer zero_buffer 0 0 (λ i. none) start kill_two
        ≡ decode_words empty_disk zero_buffer zero_buffer 0 0
            (λ i. none)
            start
            ((b'k' ∷ b'i' ∷ b'l' ∷ b'l' ∷ []) ∷ (b'2' ∷ []) ∷ []))
decode-typed_example =
    decode-typed empty_disk zero_buffer zero_buffer 0 0 (λ i. none) empty_line start 0
      ((b'k' ∷ b'i' ∷ b'l' ∷ b'l' ∷ []) ∷ (b'2' ∷ []) ∷ []) refl (omega arith) (omega arith)
      (omega arith) (omega arith)
