-- ===== src/Irq/Dispatch.antt =====
-- The exceptions reach their handlers: kernel/irq/irq.c.
use tina.Base.{
  ◌+◌, bit_and, ℕ, zero, suc, ◌*◌, ◌/◌, ◌%◌, ◌^◌, ◌<◌, ◌≡◌, refl, ap, ◌∙◌, not, ◌||◌, Option, some,
  arith, ◌==◌, ==_ne, if◌then◌else◌,
}
use tina.Base.Bits.{bit_and-halves, bit_and-mask, bit_and-one}
use tina.Syscall.{Handler, Request, Invoked, invoke, init_syscall}
use tina.Syscall.Calls.{asked, helper-invoke}
use tina.Irq.{
  user_epc_plus4, Action, interrupt_helper, exception_handler, tlb_handler, exc_code, irq_mac,
  irq_timer, no_action, other_interrupt, tlb_refill, system_call, other_exception,
}

half-and : (a b : ℕ) → bit_and a b / 2 ≡ bit_and (a / 2) (b / 2)
half-and a b = omega (arith, bit_and-halves a b)

exc_code-field : (cause : ℕ) → exc_code cause ≡ cause / 4 % 32
exc_code-field cause =
    let two : bit_and cause 0x7c / 4 ≡ bit_and cause 0x7c / 2 / 2 = omega arith in
    two
    ∙ rw (half-and cause 0x7c, half-and (cause / 2) 0x3e)
        (bit_and-mask 5 (cause / 2 / 2) ∙ omega arith)

even-and : (w m : ℕ) → bit_and w (2 * m) ≡ bit_and (w / 2) m * 2
even-and w m =
    let half : 2 * m / 2 ≡ m = omega arith in
    let even : 2 * m % 2 ≡ 0 = omega arith in
    bit_and-halves w (2 * m) ∙ rw (half, even) (omega arith)

and_eight : (w : ℕ) → bit_and w 8 ≡ w / 8 % 2 * 8
and_eight w =
    even-and w 4
    ∙ ap (λ b. b * 2)
        (even-and (w / 2) 2
          ∙ ap (λ b. b * 2)
              (even-and (w / 2 / 2) 1 ∙ ap (λ b. b * 2) (bit_and-one (w / 2 / 2 / 2))))
    ∙ omega arith

and_high : (w : ℕ) → bit_and w 128 ≡ w / 128 % 2 * 128
and_high w =
    even-and w 64
    ∙ ap (λ b. b * 2)
        (even-and (w / 2) 32
          ∙ ap (λ b. b * 2)
              (even-and (w / 2 / 2) 16
                ∙ ap (λ b. b * 2)
                    (even-and (w / 2 / 2 / 2) 8 ∙ ap (λ b. b * 2) (and_eight (w / 2 / 2 / 2 / 2)))))
    ∙ omega arith

-- What an interrupt and an exception do, by the fields of the two registers.
abbrev pub interrupted : (int1_sr cause : ℕ) → Action
interrupted int1_sr cause =
    if cause / 2 ^ 11 % 2 == 1
    then (if int1_sr / 2 ^ 3 % 2 == 1 then irq_mac else no_action)
    else if cause / 2 ^ 15 % 2 == 1
    then irq_timer
    else other_interrupt (cause / 2 ^ 8 % 2 ^ 8)

abbrev pub handled : (int1_sr cause epc : ℕ) → (called : Option Invoked) → Action × ℕ
handled int1_sr cause epc called =
    let code = cause / 2 ^ 2 % 32 in
    if code == 0
    then (interrupted int1_sr cause, epc)
    else if (code == 2) || (code == 3)
    then (tlb_refill, epc)
    else if code == 8
    then (system_call called, (epc + 4) % 2 ^ 32)
    else (other_exception code, epc)

zero-mul : (m : ℕ) → 0 * m ≡ 0
zero-mul m = omega arith

one-mul : (m : ℕ) → 1 * m ≡ m
one-mul m = omega arith

bit_test : (b m : ℕ) → b < 2 → 0 < m → not (b * m == 0) ≡ (b == 1)
bit_test zero m l h = rw (zero-mul m) refl
bit_test (suc zero) m l h = rw (one-mul m, ==_ne m 0 (omega arith)) refl
bit_test (suc (suc b)) m l h = absurd (omega arith)

helper-interrupted :
    (int1_sr cause : ℕ) → interrupt_helper int1_sr cause ≡ interrupted int1_sr cause
unfolding interrupt_helper
helper-interrupted int1_sr cause =
    let low_byte : bit_and (cause / 2 ^ 8) 0xff ≡ cause / 2 ^ 8 % 2 ^ 8 =
      bit_and-mask 8 (cause / 2 ^ 8) ∙ omega arith in
    let mac : cause / 2 ^ 8 % 2 ^ 8 / 8 % 2 ≡ cause / 2 ^ 11 % 2 = omega arith in
    let timer : cause / 2 ^ 8 % 2 ^ 8 / 128 % 2 ≡ cause / 2 ^ 15 % 2 = omega arith in
    rw
      (
        low_byte,
        and_eight (cause / 2 ^ 8 % 2 ^ 8),
        and_eight int1_sr,
        and_high (cause / 2 ^ 8 % 2 ^ 8),
        mac,
        timer,
        bit_test (cause / 2 ^ 11 % 2) 8 (omega arith) (omega arith),
        bit_test (int1_sr / 8 % 2) 8 (omega arith) (omega arith),
        bit_test (cause / 2 ^ 15 % 2) 128 (omega arith) (omega arith),
      )
      refl

abbrev pub refilled : (cause : ℕ) → Action
refilled cause =
    let code = cause / 2 ^ 2 % 32 in
    if (code == 2) || (code == 3) then tlb_refill else other_exception code

-- For every call of a task and every content of the two registers, `exception_handler` with the table
-- as `init_syscall` leaves it, whatever it held, does what the fields say: an interrupt goes by bits
-- 11 and 15 of `cause` and bit 3 of the board register, a TLB miss refills, code 8 calls the kernel's
-- function of that call with its arguments and moves the `epc` of the task on by 4, modulo 2 ^ 32,
-- which it keeps otherwise, and any other code is reported; `TLB_handler` refills for the same two
-- codes.
pub exception-handled :
    (table : ℕ → Option Handler) (int1_sr cause epc : ℕ) (r : Request)
    → (exception_handler (init_syscall table) int1_sr cause epc (invoke r)
        ≡ handled int1_sr cause epc (some (asked r)))
      × (tlb_handler cause ≡ refilled cause)
unfolding exception_handler user_epc_plus4 tlb_handler
exception-handled table int1_sr cause epc r = (
  rw (exc_code-field cause, helper-interrupted int1_sr cause, helper-invoke table r) refl,
  rw (exc_code-field cause) refl,
)
