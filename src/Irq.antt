-- ===== src/Irq.antt =====
-- Interrupts and exceptions: kernel/irq/irq.c. The registers of CP0 and the register of the interrupts of
-- the board are arguments.
pub mod Dispatch
mod Tests
use tina.Base.{
  bit_and, ℕ, zero, suc, ◌+◌, ◌-◌, ◌*◌, ◌/◌, ◌%◌, ◌^◌, ◌≤◌, ◌<◌, min, max, ◌≡◌, ◌≢◌, ◌↔◌, ◌⊎◌, inl,
  inr, refl, sym, ap, ap₂, subst, ◌∙◌, fun_ext, Bool, true, false, not, ◌&&◌, ◌||◌, false≢true,
  Option, none, some, List, [], ◌∷◌, ◌++◌, map, append-nil, append_assoc, arith, ltb, leb, ◌==◌,
  ==_iff, ==_ne, ltb→lt, lt→ltb, leb_lt, leb_le, ltb_le, dec_lt, ℕ_discrete, if◌then◌else◌,
  Bool-cases, Option-cases, update, update-ne, update-eq, length, get_or, set, take, drop,
  replicate, All, has, ◌∈◌, ◌∉◌, Distinct, has-append, not-mem-cons, not-mem-append, mem_middle,
  mem-append_left, length-append, length-set, get_or-set, length-replicate, get_or-replicate,
}
use tina.Syscall.{Handler, Call, Invoked, system_call_helper}

-- What an exception does.
pub data Action : Type 0 where
  irq_mac irq_timer no_action : Action
  other_interrupt : (cos : ℕ) → Action
  tlb_refill : Action
  system_call : Option Invoked → Action
  other_exception : (code : ℕ) → Action

unfoldable pub interrupt_helper : (int1_sr cause : ℕ) → Action
interrupt_helper int1_sr cause =
    let cos = bit_and (cause / 2 ^ 8) 0xff in
    if not (bit_and cos 0x08 == 0)
    then (if not (bit_and int1_sr 0x08 == 0) then irq_mac else no_action)
    else (if not (bit_and cos 0x80 == 0) then irq_timer else other_interrupt cos)

-- The code of an exception, its names, and the two handlers.
abbrev pub exc_code : ℕ → ℕ
exc_code cause = bit_and cause 0x7c / 2 ^ 2

abbrev pub exc_int : ℕ
exc_int = 0

abbrev pub exc_tlbl : ℕ
exc_tlbl = 2

abbrev pub exc_tlbs : ℕ
exc_tlbs = 3

abbrev pub exc_sys : ℕ
exc_sys = 8

-- The `epc` of the running task's user context, which `user_epc_plus4` of entry.S moves to the next
-- instruction.
unfoldable pub user_epc_plus4 : (epc : ℕ) → ℕ
user_epc_plus4 epc = (epc + 4) % 2 ^ 32

-- With the user context's `epc`, before and behind it.
unfoldable pub exception_handler :
    (ℕ → Option Handler) → (int1_sr cause epc : ℕ) → Call → Action × ℕ
exception_handler syscall int1_sr cause epc call =
    let code = exc_code cause in
    if code == exc_int
    then (interrupt_helper int1_sr cause, epc)
    else if (code == exc_tlbl) || (code == exc_tlbs)
    then (tlb_refill, epc)
    else if code == exc_sys
    then (system_call (system_call_helper syscall call), user_epc_plus4 epc)
    else (other_exception code, epc)

unfoldable pub tlb_handler : (cause : ℕ) → Action
tlb_handler cause =
    let code = exc_code cause in
    if (code == exc_tlbl) || (code == exc_tlbs) then tlb_refill else other_exception code
