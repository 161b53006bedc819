-- ===== src/Base/Poll.antt =====
-- Loops that wait for something outside the program: `while (test);`.
use tina.Base.{
  ℕ, zero, suc, ◌≤◌, ◌<◌, ◌≡◌, inl, inr, refl, Bool, true, false, Option, none, some, arith,
  if◌then◌else◌, Bool-cases,
}

-- A test gives its result and the state after it, and is repeated while it is true; `none` without fuel.
unfoldable pub poll {ℓ} : {S : Type ℓ} → (fuel : ℕ) → (S → Bool × S) → S → Option S
poll zero test s = none
poll (suc fuel) test s =
    let rest = poll fuel test (test s).1 in if (test s).0 then rest else some (test s).1

-- The state after `n` tests.
unfoldable pub tests {ℓ} : {S : Type ℓ} → (n : ℕ) → (S → Bool × S) → S → S
tests zero test s = s
tests (suc n) test s = tests n test (test s).1

-- The loop has ended with test `m`, the first that was false.
pub record Ended {ℓ} {S : Type ℓ} (test : S → Bool × S) (s s' : S) (m : ℕ) : Type ℓ where
  pub last : (test (tests m test s)).0 ≡ false
  pub after : s' ≡ (test (tests m test s)).1
  pub before : (j : ℕ) → j < m → (test (tests j test s)).0 ≡ true

before-suc {ℓ} :
    {S : Type ℓ} (test : S → Bool × S) (s : S) (m : ℕ)
    → (test s).0 ≡ true
    → ((j : ℕ) → j < m → (test (tests j test (test s).1)).0 ≡ true)
    → (j : ℕ) → j < suc m
    → (test (tests j test s)).0 ≡ true
unfolding tests
before-suc test s m e h zero l = e
before-suc test s m e h (suc j) l = h j (omega arith)

pub poll_ends {ℓ} :
    {S : Type ℓ} (fuel n : ℕ) (test : S → Bool × S) (s : S)
    → n < fuel
    → (test (tests n test s)).0 ≡ false
    → (s' : S) × (m : ℕ) × (m ≤ n) × (poll fuel test s ≡ some s') × Ended test s s' m
unfolding poll tests
poll_ends zero n test s l e = absurd (omega arith)
poll_ends (suc fuel) zero test s l e = rw e (
  (test s).1,
  0,
  omega arith,
  refl,
  record { last = e; after = refl; before = λ j b. absurd (omega arith) },
)
poll_ends (suc fuel) (suc n) test s l e = elim (Bool-cases (test s).0) [
  | inr now ↦ rw now (
    (test s).1,
    0,
    omega arith,
    refl,
    record { last = now; after = refl; before = λ j b. absurd (omega arith) },
  )
  | inl busy ↦
      let (s', m, le, ends, h) = poll_ends fuel n test (test s).1 (omega arith) e in
      rw busy (
        s',
        suc m,
        omega arith,
        ends,
        record { last = h.last; after = h.after; before = before-suc test s m busy h.before },
      )
]
