-- ===== src/Boot.antt =====
-- The initialisation: `_start` of init/main.c up to the shell. The handlers of arch/mips/kernel/entry.S are
-- bytes of the memory; `asm_start` and `fire`, in assembler, and what is printed are left out.
pub mod First
mod Tests
use tina.Base.{
  ℕ, zero, suc, ◌+◌, ◌-◌, ◌*◌, ◌/◌, ◌%◌, ◌^◌, ◌≤◌, ◌<◌, min, max, ◌≡◌, ◌≢◌, ◌↔◌, ◌⊎◌, inl, inr,
  refl, sym, ap, ap₂, subst, ◌∙◌, fun_ext, Bool, true, false, not, ◌&&◌, ◌||◌, false≢true, Option,
  none, some, List, [], ◌∷◌, ◌++◌, map, append-nil, append_assoc, arith, ltb, leb, ◌==◌, ==_iff,
  ==_ne, ltb→lt, lt→ltb, leb_lt, leb_le, ltb_le, dec_lt, ℕ_discrete, if◌then◌else◌, Bool-cases,
  Option-cases, update, update-ne, update-eq, length, get_or, set, take, drop, replicate, All, has,
  ◌∈◌, ◌∉◌, Distinct, has-append, not-mem-cons, not-mem-append, mem_middle, mem-append_left,
  length-append, length-set, get_or-set, length-replicate, get_or-replicate,
}
use tina.Kernel.{Kernel, TaskInfo}
use tina.Proc.{init_pcb}
use tina.Memory.{Memory, init_page_table}
use tina.Syscall.{Handler, init_syscall}
use tina.Screen.{Screen, Event, init_screen}
use tina.Strings.{memcpy}

-- The globals of the kernel, the bytes of its memory, and what has gone out of the serial port.
pub record Machine : Type 0 where
  pub kernel : Kernel
  pub memory : Memory
  pub bytes : ℕ → ℕ
  pub syscall : ℕ → Option Handler
  pub screen : Screen
  pub sent : List Event

-- The labels of entry.S: where the code of the two handlers begins, and its size; and `embryo_start`.
pub record Labels : Type 0 where
  pub exception_handler_entry : ℕ
  pub exception_handler_size : ℕ
  pub tlb_exception_handler_entry : ℕ
  pub tlb_exception_handler_size : ℕ
  pub embryo_start : ℕ

unfoldable pub init_memory : Machine → Machine
init_memory m = record m { memory = init_page_table m.memory }

unfoldable pub init_variables : Machine → Machine
init_variables m = record m { kernel = record m.kernel { time_elapsed = 0; process_id = 1 } }

unfoldable pub init_exception_handler : Labels → Machine → Machine
init_exception_handler l m = record m {
  bytes =
      memcpy (memcpy m.bytes 0x80000180 l.exception_handler_entry l.exception_handler_size)
        0x80000000 l.tlb_exception_handler_entry l.tlb_exception_handler_size;
}

unfoldable pub init_exception : Labels → Machine → Machine
init_exception l m = init_exception_handler l m

-- The cursor is one variable, which the screen writes and the scheduler reads.
abbrev pub screen_started : Machine → Screen × List Event → Machine
screen_started m (screen, sent) = record m {
  kernel = record m.kernel {
    screen_cursor_x = screen.screen_cursor_x;
    screen_cursor_y = screen.screen_cursor_y;
  };
  screen = screen;
  sent = m.sent ++ sent;
}

-- Up to the call of `test_shell`.
unfoldable pub start : Labels → (shell : TaskInfo) → Machine → Machine
start l shell m =
    let m1 = init_memory (init_exception l (init_variables m)) in
    let m2 = record m1 { syscall = init_syscall m1.syscall } in
    let m3 = record m2 { kernel = init_pcb l.embryo_start m2.kernel shell } in
    screen_started m3 (init_screen m3.screen)
