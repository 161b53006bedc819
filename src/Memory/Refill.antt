-- ===== src/Memory/Refill.antt =====
-- The refill of the TLB: kernel/mm/memory.c.
use tina.Base.{
  ℕ, ◌+◌, ◌-◌, ◌*◌, ◌/◌, ◌%◌, ◌^◌, ◌≤◌, ◌<◌, ◌≡◌, refl, ap, ap₂, ◌∙◌, false, none, some, arith, ltb,
  lt→ltb, ltb_le,
}
use Prim.Native.Nat.{bit_and, bit_or}
use tina.Base.Bits.{bit_and-mask, bit_or-shift, bit_or-zero}
use tina.Kernel.{u32}
use tina.Proc.{ustack_base, ustack_size}
use tina.Memory.{Memory, Tlb, fault_unless_valid, frame, entrylo, do_tlb_refill, page_entry_number}
use tina.Memory.Frames.{Valid, IsTable, Ensured, fault-Ensured}

-- The frame stands in the bits of `entrylo` from 6 on.
entrylo-frame : (pfn : ℕ) → entrylo pfn / 2 ^ 6 ≡ pfn
unfolding entrylo
entrylo-frame pfn =
    rw
      (
        bit_or-shift 6 (bit_or (bit_or (bit_or (pfn * 2 ^ 6) 16) 4) 2) 1,
        bit_or-shift 6 (bit_or (bit_or (pfn * 2 ^ 6) 16) 4) 2,
        bit_or-shift 6 (bit_or (pfn * 2 ^ 6) 16) 4,
        bit_or-shift 6 (pfn * 2 ^ 6) 16,
        bit_or-zero (pfn * 64 / 64),
        bit_or-zero (pfn * 64 / 64),
        bit_or-zero (pfn * 64 / 64),
        bit_or-zero (pfn * 64 / 64),
      )
      (omega arith)

entryhi-page :
    (vpn2 pid : ℕ) → vpn2 < 2 ^ 19 → bit_or (vpn2 * 2 ^ 13 % u32) (bit_and pid 0xff) / 2 ^ 13 ≡ vpn2
entryhi-page vpn2 pid h =
    let asid : bit_and pid 0xff / 2 ^ 13 ≡ 0 = omega (arith, bit_and-mask 8 pid) in
    let page : vpn2 * 2 ^ 13 % u32 / 2 ^ 13 ≡ vpn2 = omega arith in
    bit_or-shift 13 (vpn2 * 2 ^ 13 % u32) (bit_and pid 0xff)
    ∙ ap₂ bit_or page asid
    ∙ bit_or-zero vpn2

-- The pair of pages `v`, `v + 1` has entered the TLB.
pub record Refilled (m : Memory) (vpn2 : ℕ) (m' : Memory) (t : Tlb) : Type 0 where
  pub table : IsTable m'
  pub even : Valid m' (vpn2 * 2)
  pub odd : Valid m' (vpn2 * 2 + 1)
  pub kept : (v : ℕ) → Valid m v → m'.page_entrys v ≡ m.page_entrys v
  pub page : t.entryhi / 2 ^ 13 ≡ vpn2
  pub frame0 : t.entrylo0 / 2 ^ 6 ≡ frame m' (vpn2 * 2)
  pub frame1 : t.entrylo1 / 2 ^ 6 ≡ frame m' (vpn2 * 2 + 1)

-- In a table whose valid entries are those that page faults wrote, each for one page, with room for
-- two more of the 0x1000 frames, the refill at an address of the first 0x2000 pages gives both pages
-- of the pair a valid entry, keeps the valid entries and that form of the table, and its registers
-- hold the number of the pair and the frames of the two pages.
pub refill_lem :
    (badvaddr pid : ℕ) (m : Memory)
    → IsTable m
    → m.count + 2 ≤ 0x1000
    → badvaddr < page_entry_number * 2 ^ 12
    → (m' : Memory) × (t : Tlb) × (do_tlb_refill badvaddr pid m ≡ some (m', t))
      × Refilled m (badvaddr / 2 ^ 12 / 2) m' t
unfolding do_tlb_refill
refill_lem badvaddr pid m t room inside =
    let v : ℕ = badvaddr / 2 ^ 12 / 2 in
    let m1 : Memory = fault_unless_valid m (v * 2) in
    let m2 : Memory = fault_unless_valid m1 (v * 2 + 1) in
    let e1 : Ensured m (v * 2) m1 = fault-Ensured m (v * 2) (omega arith) t in
    let e2 : Ensured m1 (v * 2 + 1) m2 =
      fault-Ensured m1 (v * 2 + 1) (omega (arith, e1.count)) e1.table in
    let tlb : Tlb = record {
      entryhi = bit_or (v * 2 ^ 13 % u32) (bit_and pid 0xff);
      entrylo0 = entrylo (frame m2 (v * 2));
      entrylo1 = entrylo (frame m2 (v * 2 + 1));
      pagemask = 0;
    } in
    (
      m2,
      tlb,
      rw (lt→ltb (v * 2 + 1) page_entry_number (omega arith)) refl,
      record {
        table = e2.table;
        even = ap (λ x. x / 2 ^ 28) (e2.kept (v * 2) e1.valid) ∙ e1.valid;
        odd = e2.valid;
        kept = λ u k. e2.kept u (ap (λ x. x / 2 ^ 28) (e1.kept u k) ∙ k) ∙ e1.kept u k;
        page = entryhi-page v pid (omega arith);
        frame0 = entrylo-frame (frame m2 (v * 2));
        frame1 = entrylo-frame (frame m2 (v * 2 + 1));
      },
    )

-- For each slot from 8 on, the refill at an address of the last `ustack_size` bytes below its stack
-- top runs behind the page table.
pub refill_behind :
    (i o pid : ℕ) (m : Memory)
    → 8 ≤ i
    → 1 ≤ o
    → o ≤ ustack_size
    → do_tlb_refill (ustack_base + i * ustack_size - o) pid m ≡ none
unfolding do_tlb_refill
refill_behind i o pid m h l k =
    let v : ℕ = (ustack_base + i * ustack_size - o) / 2 ^ 12 / 2 in
    let out : ltb (v * 2 + 1) page_entry_number ≡ false =
      ltb_le (v * 2 + 1) page_entry_number (omega arith) in
    rw out refl
