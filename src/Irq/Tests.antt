-- ===== src/Irq/Tests.antt =====
-- Runs of kernel/irq/irq.c and kernel/syscall/syscall.c.
use tina.Base.{ℕ, ◌≡◌, refl, Option, some, none}
use tina.Syscall.{
  Handler, semaphore_init, do_semaphore_init, sys_spawn, invoke, init_syscall, system_call_helper,
}
use tina.Irq.{
  system_call, irq_timer, exception_handler, tlb_handler, tlb_refill, other_exception,
  interrupt_helper,
}
use tina.Irq.Dispatch.{exception-handled}

-- The exception code of a system call, and a timer interrupt.
abbrev sys_cause : ℕ
sys_cause = 0x20

abbrev empty : ℕ → Option Handler
empty fn = none

abbrev timer_cause : ℕ
timer_cause = 0x8000

test_timer :
    exception_handler (init_syscall empty) 0 timer_cause 80 (invoke (sys_spawn 5)) ≡ (irq_timer, 80)
unfolding exception_handler interrupt_helper
test_timer = refl

test_null :
    system_call_helper (init_syscall empty) (record { fn = 21; arg1 = 0; arg2 = 0; arg3 = 0 })
    ≡ none
unfolding system_call_helper init_syscall
test_null = refl

test_refill : tlb_handler 0x8 ≡ tlb_refill
unfolding tlb_handler
test_refill = refl

exception-handled_example :
    (exception_handler (init_syscall empty) 0 sys_cause 80 (invoke (semaphore_init 100 3)) ≡ (
      system_call (some (record { handler = do_semaphore_init; arg1 = 100; arg2 = 3; arg3 = 0 })),
      84,
    ))
    × (tlb_handler sys_cause ≡ other_exception 8)
exception-handled_example = exception-handled empty 0 sys_cause 80 (semaphore_init 100 3)
