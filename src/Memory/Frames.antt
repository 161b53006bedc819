-- ===== src/Memory/Frames.antt =====
-- Which frames the page faults give out: kernel/mm/memory.c.
use tina.Base.{
  zero, update, suc, ℕ, ◌+◌, ◌/◌, ◌%◌, ◌^◌, ◌≤◌, ◌<◌, ◌≡◌, ◌≢◌, inl, inr, refl, sym, ap, subst, ◌∙◌,
  false≢true, arith, ◌==◌, ==_iff, ℕ_discrete, Bool-cases, update-ne, update-eq,
}
use tina.Base.Bits.{bit_and-mask}
use tina.Kernel.{u32}
use tina.Memory.{
  clear_entries, page_entry_number, Memory, do_page_fault, fault_unless_valid, frame, pte_valid,
  init_page_table,
}

abbrev pub Valid : Memory → ℕ → Type 0
Valid m v = m.page_entrys v / 2 ^ 28 ≡ pte_valid

-- The valid entries are those that page faults wrote, each for one page.
pub record IsTable (m : Memory) : Type 0 where
  pub faulted : (v : ℕ) → Valid m v → (c : ℕ) × (c < m.count) × (m.page_entrys v ≡ 0xb0001000 + c)
  pub distinct : (v w : ℕ) → Valid m v → Valid m w → m.page_entrys v ≡ m.page_entrys w → v ≡ w

pub clean-IsTable : (m : Memory) → ((v : ℕ) → m.page_entrys v ≡ 0) → IsTable m
clean-IsTable m zeros = record {
  faulted = λ v h. absurd (invalid v h);
  distinct = λ v w h i e. absurd (invalid v h);
}
  where
    invalid : (v : ℕ) → ¬ Valid m v
    invalid v h = let z = zeros v in omega (arith, z, h)

clear_keeps : (left i : ℕ) (f : ℕ → ℕ) (v : ℕ) → f v ≡ 0 → clear_entries left i f v ≡ 0
unfolding clear_entries
clear_keeps zero i f v z = z
clear_keeps (suc left) i f v z =
    clear_keeps left (i + 1) (update f i 0) v
      (elim (Bool-cases (i == v)) [ inl e ↦ rw e refl | inr e ↦ rw e z ])

clear_lem : (left i : ℕ) (f : ℕ → ℕ) (v : ℕ) → i ≤ v → v < i + left → clear_entries left i f v ≡ 0
unfolding clear_entries
clear_lem zero i f v a b = absurd (omega arith)
clear_lem (suc left) i f v a b = elim (Bool-cases (i == v)) [
  | inl e ↦
      clear_keeps left (i + 1) (update f i 0) v
        (ap (λ j. update f i 0 j) (sym ((==_iff i v).0 e)) ∙ update-eq f i 0)
  | inr e ↦
      let ne : i ≢ v = λ h. false≢true (sym e ∙ (==_iff i v).1 h) in
      clear_lem left (i + 1) (update f i 0) v (omega (arith, ne)) (omega arith)
]

-- Every entry of the table is 0 behind `init_page_table`.
pub init-clears :
    (m : Memory) (v : ℕ) → v < page_entry_number → (init_page_table m).page_entrys v ≡ 0
unfolding init_page_table
init-clears m v h = clear_lem page_entry_number 0 m.page_entrys v (omega arith) (omega arith)

fault_at :
    (m : Memory) (p : ℕ)
    → m.count < 0x1000
    → (do_page_fault m p).page_entrys p ≡ 0xb0001000 + m.count
unfolding do_page_fault
fault_at m p h = update-eq m.page_entrys p _ ∙ omega arith

fault_away : (m : Memory) (p v : ℕ) → p ≢ v → (do_page_fault m p).page_entrys v ≡ m.page_entrys v
unfolding do_page_fault
fault_away m p v ne = update-ne m.page_entrys p _ v ne

Valid-away : (m : Memory) (p v : ℕ) → p ≢ v → Valid (do_page_fault m p) v → Valid m v
Valid-away m p v ne h = sym (ap (λ x. x / 2 ^ 28) (fault_away m p v ne)) ∙ h

-- A page that was valid before has not the frame of the fault.
fault_new :
    (m : Memory) (p v : ℕ)
    → m.count < 0x1000
    → IsTable m
    → p ≢ v
    → Valid (do_page_fault m p) v
    → (do_page_fault m p).page_entrys v ≢ 0xb0001000 + m.count
fault_new m p v h t ne k e =
    let (c, l, old) = t.faulted v (Valid-away m p v ne k) in
    let same : 0xb0001000 + c ≡ 0xb0001000 + m.count = sym old ∙ sym (fault_away m p v ne) ∙ e in
    absurd (omega arith)

pub fault-IsTable :
    (m : Memory) (p : ℕ) → m.count < 0x1000 → IsTable m → IsTable (do_page_fault m p)
unfolding do_page_fault
fault-IsTable m p h t = record { faulted = faulted; distinct = distinct }
  where
    n : Memory
    n = do_page_fault m p

    faulted : (v : ℕ) → Valid n v → (c : ℕ) × (c < n.count) × (n.page_entrys v ≡ 0xb0001000 + c)
    faulted v k = elim (ℕ_discrete p v) [
      | yes e ↦ (
        m.count,
        omega arith,
        subst (λ u. n.page_entrys u ≡ 0xb0001000 + m.count) e (fault_at m p h),
      )
      | no ne ↦
          let (c, l, old) = t.faulted v (Valid-away m p v ne k) in
          (c, omega arith, fault_away m p v ne ∙ old)
    ]

    distinct : (v w : ℕ) → Valid n v → Valid n w → n.page_entrys v ≡ n.page_entrys w → v ≡ w
    distinct v w i j e = elim (ℕ_discrete p v) [
      | yes pv ↦ elim (ℕ_discrete p w) [
        | yes pw ↦ omega arith
        | no nw ↦ absurd (
            fault_new m p w h t nw j
              (sym e ∙ subst (λ u. n.page_entrys u ≡ 0xb0001000 + m.count) pv (fault_at m p h)))
      ]
      | no nv ↦ elim (ℕ_discrete p w) [
        | yes pw ↦ absurd (
            fault_new m p v h t nv i
              (e ∙ subst (λ u. n.page_entrys u ≡ 0xb0001000 + m.count) pw (fault_at m p h)))
        | no nw ↦
            t.distinct v w (Valid-away m p v nv i) (Valid-away m p w nw j)
              (sym (fault_away m p v nv) ∙ e ∙ fault_away m p w nw)
      ]
    ]

-- The frame of an entry that a fault wrote.
frame-eq : (m : Memory) (v : ℕ) → frame m v ≡ m.page_entrys v % 0x2000
unfolding frame
frame-eq m v = bit_and-mask 13 (m.page_entrys v) ∙ omega arith

-- In a table whose valid entries are those that at most 0x1000 page faults wrote, each for one page,
-- two different valid pages have different frames.
pub frame-distinct :
    (m : Memory) (v w : ℕ)
    → IsTable m
    → m.count ≤ 0x1000
    → Valid m v
    → Valid m w
    → v ≢ w
    → frame m v ≢ frame m w
frame-distinct m v w t h i j ne e =
    let (c, lc, ec) = t.faulted v i in
    let (d, ld, ed) = t.faulted w j in
    ne (t.distinct v w i j (omega (arith, frame-eq m v, frame-eq m w)))

-- The page fault with the count 0x1000 + c, for c below 0x1000, gives out frame c.
pub fault_full :
    (m : Memory) (v c : ℕ) → m.count ≡ 0x1000 + c → c < 0x1000 → frame (do_page_fault m v) v ≡ c
unfolding do_page_fault
fault_full m v c e l = frame-eq (do_page_fault m v) v ∙ fault_low
  where
    fault_low : (do_page_fault m v).page_entrys v % 0x2000 ≡ c
    fault_low = rw (update-eq m.page_entrys v ((0xb0001000 + m.count) % u32)) (omega arith)

-- A page that is valid, or has just been made so.
pub record Ensured (m : Memory) (p : ℕ) (n : Memory) : Type 0 where
  pub table : IsTable n
  pub valid : Valid n p
  pub kept : (v : ℕ) → Valid m v → n.page_entrys v ≡ m.page_entrys v
  pub count : n.count ≤ m.count + 1

pub fault-Ensured :
    (m : Memory) (p : ℕ) → m.count < 0x1000 → IsTable m → Ensured m p (fault_unless_valid m p)
unfolding fault_unless_valid do_page_fault
fault-Ensured m p h t = elim (Bool-cases (m.page_entrys p / 2 ^ 28 == pte_valid)) [
  | inl e ↦
      rw e (record { table = t; valid = (==_iff _ _).0 e; kept = λ v k. refl; count = omega arith })
  | inr e ↦ rw e (record {
    table = fault-IsTable m p h t;
    valid = ap (λ x. x / 2 ^ 28) (fault_at m p h) ∙ omega arith;
    kept = λ v k.
        fault_away m p v
          (λ pv. false≢true (sym e ∙ (==_iff _ _).1 (subst (λ u. Valid m u) (sym pv) k)));
    count = counted;
  })
]
  where
    counted : (do_page_fault m p).count ≤ m.count + 1
    counted = omega arith
