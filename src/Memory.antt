-- ===== src/Memory.antt =====
-- Virtual memory: kernel/mm/memory.c and `init_page_table` of init/main.c. The table is a function
-- from the numbers of virtual pages, of which PAGE_ENTRY_NUMBER are inside.
pub mod Frames
pub mod Refill
mod Tests
use tina.Base.{
  ℕ, zero, suc, ◌+◌, ◌-◌, ◌*◌, ◌/◌, ◌%◌, ◌^◌, ◌≤◌, ◌<◌, min, max, ◌≡◌, ◌≢◌, ◌↔◌, ◌⊎◌, inl, inr,
  refl, sym, ap, ap₂, subst, ◌∙◌, fun_ext, Bool, true, false, not, ◌&&◌, ◌||◌, false≢true, Option,
  none, some, List, [], ◌∷◌, ◌++◌, map, append-nil, append_assoc, arith, ltb, leb, ◌==◌, ==_iff,
  ==_ne, ltb→lt, lt→ltb, leb_lt, leb_le, ltb_le, dec_lt, ℕ_discrete, if◌then◌else◌, Bool-cases,
  Option-cases, update, update-ne, update-eq, length, get_or, set, take, drop, replicate, All, has,
  ◌∈◌, ◌∉◌, Distinct, has-append, not-mem-cons, not-mem-append, mem_middle, mem-append_left,
  length-append, length-set, get_or-set, length-replicate, get_or-replicate,
}
use Prim.Native.Nat.{bit_and, bit_or}
use tina.Kernel.{u32}

abbrev pub page_entry_number : ℕ
page_entry_number = 0x2000

abbrev pub pte_valid : ℕ
pte_valid = 0xb

-- The `pfn` of the page entries, and the `count` of `do_page_fault`.
pub record Memory : Type 0 where
  pub page_entrys : ℕ → ℕ
  pub count : ℕ

-- The CP0 registers that the refill sets before `tlbwr`.
pub record Tlb : Type 0 where
  pub entryhi : ℕ
  pub entrylo0 : ℕ
  pub entrylo1 : ℕ
  pub pagemask : ℕ

unfoldable pub do_page_fault : Memory → (vpn : ℕ) → Memory
do_page_fault m vpn = record {
  page_entrys = update m.page_entrys vpn ((0xb0001000 + m.count) % u32);
  count = m.count + 1;
}

-- The two tests of `do_tlb_refill`.
unfoldable pub fault_unless_valid : Memory → (vpn : ℕ) → Memory
fault_unless_valid m vpn =
    let faulted = do_page_fault m vpn in
    if m.page_entrys vpn / 2 ^ 28 == pte_valid then m else faulted

-- `pfn << 6 | coherency << 3 | dirt << 2 | valid << 1 | global`
unfoldable pub entrylo : (pfn : ℕ) → ℕ
entrylo pfn = bit_or (bit_or (bit_or (bit_or (pfn * 2 ^ 6) (2 * 2 ^ 3)) (1 * 2 ^ 2)) (1 * 2 ^ 1)) 1

unfoldable pub frame : Memory → (vpn : ℕ) → ℕ
frame m vpn = bit_and (m.page_entrys vpn) 0x1fff

-- `none` where the source reads and writes behind the table.
unfoldable pub do_tlb_refill : (badvaddr pid : ℕ) → Memory → Option (Memory × Tlb)
do_tlb_refill badvaddr pid m =
    let vpn2 = badvaddr / 2 ^ 12 / 2 in
    let m' = fault_unless_valid (fault_unless_valid m (vpn2 * 2)) (vpn2 * 2 + 1) in
    let tlb : Tlb = record {
      entryhi = bit_or (vpn2 * 2 ^ 13 % u32) (bit_and pid 0xff);
      entrylo0 = entrylo (frame m' (vpn2 * 2));
      entrylo1 = entrylo (frame m' (vpn2 * 2 + 1));
      pagemask = 0;
    } in
    if ltb (vpn2 * 2 + 1) page_entry_number then some (m', tlb) else none

-- `init_page_table` of init/main.c: its loop from entry `i`, with `left` entries to go.
unfoldable pub clear_entries : (left i : ℕ) → (page_entrys : ℕ → ℕ) → ℕ → ℕ
clear_entries zero i page_entrys = page_entrys
clear_entries (suc left) i page_entrys = clear_entries left (i + 1) (update page_entrys i 0)

unfoldable pub init_page_table : Memory → Memory
init_page_table m = record m { page_entrys = clear_entries page_entry_number 0 m.page_entrys }
