-- ===== src/Sched/Clock.antt =====
-- The busy wait of kernel/sched/time.c ends with the clock.
use tina.Base.{
  ℕ, zero, suc, ◌+◌, ◌-◌, ◌*◌, ◌/◌, ◌%◌, ◌≤◌, ◌<◌, ◌≡◌, sym, ap, subst, ◌∙◌, true, false, Option,
  some, arith, ltb, ltb→lt, ltb_le,
}
use tina.Base.Poll.{tests, poll_ends}
use tina.Kernel.{u32}
use tina.Sched.{still_waiting, latency}

-- The seconds that `latency` counts from reading `i` to reading `j`.
abbrev pub waited : (clock : ℕ → ℕ) → (i j : ℕ) → ℕ
waited clock i j = (clock j / 1000000 + (u32 - clock i / 1000000)) % u32

tests-still_waiting :
    (n : ℕ) (clock : ℕ → ℕ) (b time j : ℕ) → tests n (still_waiting clock b time) j ≡ j + n
unfolding tests still_waiting
tests-still_waiting zero clock b time j = omega arith
tests-still_waiting (suc n) clock b time j =
    tests-still_waiting n clock b time (j + 1) ∙ omega arith

ltb-false_le : (a b : ℕ) → ltb a b ≡ false → b ≤ a
ltb-false_le a b h = ground arith

-- What the loop finds at its test `n`.
test-at :
    (n : ℕ) (clock : ℕ → ℕ) (i time : ℕ)
    → still_waiting clock
        (clock i / 1000000)
        time
        (tests n (still_waiting clock (clock i / 1000000) time) (i + 1))
      ≡ (ltb (waited clock i (i + 1 + n)) time, i + 1 + n + 1)
unfolding still_waiting
test-at n clock i time =
    ap (λ j. (ltb (waited clock i j) time, j + 1))
      (tests-still_waiting n clock (clock i / 1000000) time (i + 1))

-- The reading `i + 1 + n` counts enough.
enough :
    (n : ℕ) (clock : ℕ → ℕ) (i time : ℕ)
    → clock (i + 1 + n) < u32
    → clock i + (time + 1) * 1000000 ≤ clock (i + 1 + n)
    → time ≤ waited clock i (i + 1 + n)
enough n clock i time l h = omega (arith, l, h)

-- `latency` ends before reading `k`, the first at which it counts `time`.
pub record Late (clock : ℕ → ℕ) (i time last : ℕ) (r : Option ℕ) : Type 0 where
  pub k : ℕ
  pub returned : r ≡ some (k + 1)
  pub soon : k ≤ last
  pub long : time ≤ waited clock i k
  pub first : (j : ℕ) → i < j → j < k → waited clock i j < time

-- `latency` returns, with fuel for the readings up to one that is `time + 1` seconds above the reading
-- it begins with, if the clock has not wrapped round there: it ends at the first reading at which it
-- counts `time`, and no later than that one.
pub latency-Late :
    (fuel n : ℕ) (clock : ℕ → ℕ) (i time : ℕ)
    → n < fuel
    → clock (i + 1 + n) < u32
    → clock i + (time + 1) * 1000000 ≤ clock (i + 1 + n)
    → Late clock i time (i + 1 + n) (latency fuel clock i time)
unfolding latency
latency-Late fuel n clock i time f l h =
    let (s', m, le, e, ended) =
      poll_ends fuel n (still_waiting clock (clock i / 1000000) time) (i + 1) f (
        ap (λ p. p.0) (test-at n clock i time)
        ∙ ltb_le (waited clock i (i + 1 + n)) time (enough n clock i time l h)) in
    record {
      k = i + 1 + m;
      returned = e ∙ ap some (ended.after ∙ ap (λ p. p.1) (test-at m clock i time));
      soon = omega (arith, le);
      long =
          ltb-false_le (waited clock i (i + 1 + m)) time
            (sym (ap (λ p. p.0) (test-at m clock i time)) ∙ ended.last);
      first = λ j lo hi. short j lo (
          sym (ap (λ p. p.0) (test-at (j - (i + 1)) clock i time))
          ∙ ended.before (j - (i + 1)) (omega arith));
    }
  where
    short :
        (j : ℕ)
        → i < j
        → ltb (waited clock i (i + 1 + (j - (i + 1)))) time ≡ true
        → waited clock i j < time
    short j lo g =
        let e : i + 1 + (j - (i + 1)) ≡ j = omega arith in
        subst (λ j. waited clock i j < time) e (ltb→lt _ _ g)
