-- ===== src/Kernel/Outcome.antt =====
-- How a run of kernel code ends.

-- `stopped` is a read or write through NULL, or of the links of a lock over another object, `out_of_fuel` a loop that has not ended yet.
pub data Outcome (A : Type 0) : Type 0 where
  ok : A → Outcome A
  stopped : Outcome A
  out_of_fuel : Outcome A

infixl 5 ◌>>=◌
abbrev pub ◌>>=◌ : {A B : Type 0} → Outcome A → (A → Outcome B) → Outcome B
ok a >>= f = f a
stopped >>= f = stopped
out_of_fuel >>= f = out_of_fuel
