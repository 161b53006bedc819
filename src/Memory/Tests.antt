-- ===== src/Memory/Tests.antt =====
-- Runs of kernel/mm/memory.c, and its theorems at them.
use tina.Base.{◌/◌, ◌^◌, ◌≤◌, ◌≡◌, refl, some, arith}
use tina.Memory.{Memory, Tlb, do_page_fault, do_tlb_refill}
use tina.Memory.Frames.{Valid, IsTable, clean-IsTable, fault-IsTable}
use tina.Memory.Refill.{Refilled, refill_lem}

abbrev clean : Memory
clean = record { page_entrys = λ v. 0; count = 0 }

-- Pages 3 and 4 have been touched.
abbrev two_faults : Memory
two_faults = do_page_fault (do_page_fault clean 3) 4

touched : Valid two_faults 3 × Valid two_faults 4
unfolding do_page_fault
touched = (refl, refl)

few_faults : two_faults.count ≤ 0x1000
unfolding do_page_fault
few_faults = omega arith

two_faults-IsTable : IsTable two_faults
unfolding do_page_fault
two_faults-IsTable =
    fault-IsTable (do_page_fault clean 3) 4 (omega arith)
      (fault-IsTable clean 3 (omega arith) (clean-IsTable clean (λ v. refl)))

refill_lem_example :
    (m' : Memory) × (t : Tlb) × (do_tlb_refill 0x5008 1 two_faults ≡ some (m', t))
    × Refilled two_faults (0x5008 / 2 ^ 12 / 2) m' t
unfolding do_page_fault
refill_lem_example = refill_lem 0x5008 1 two_faults two_faults-IsTable (omega arith) (omega arith)

-- The table after 0x1005 faults.
abbrev overfull : Memory
overfull = record { page_entrys = λ v. 0; count = 0x1005 }
