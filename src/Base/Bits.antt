-- ===== src/Base/Bits.antt =====
-- Bits of a machine word. `bit x k` is bit `k` of `x`; the native bit operations act bit by bit.
use Prim.Native.Nat.{
  ℕ, zero, suc, ◌+◌, ◌-◌, ◌*◌, ◌/◌, ◌%◌, ◌^◌, ◌≤◌, ◌<◌, min, max, bit_and, bit_or, digits,
  bit_and-bitwise, bit_or-bitwise,
}
use mathlib.Core.Path.{sym, ◌≡◌, refl, ◌∙◌}
use native.Mathlib.Omega.{arith}
use native.Mathlib.Nat.{mul_assoc, pow-le-pow_right, pow-suc, pow-succ', div-div-eq-div-mul}
use tina.Base.Tests.{◌==◌, if◌then◌else◌}

abbrev pub bit : ℕ → ℕ → ℕ
bit x zero = x % 2
bit x (suc k) = bit (x / 2) k

pub bit-le-one : (x k : ℕ) → bit x k ≤ 1
bit-le-one x zero = omega arith
bit-le-one x (suc k) = bit-le-one (x / 2) k

pub bit-zero : (k : ℕ) → bit 0 k ≡ 0
bit-zero zero = refl
bit-zero (suc k) = bit-zero k

-- What holds of an operation on digits holds bit by bit: `f` is the operation on two digits, and
-- `z b` what is left of `b` when the first number has none.
module _ (z : ℕ → ℕ) (f : ℕ → ℕ → ℕ) (digit : (x y : ℕ) → x ≤ 1 → y ≤ 1 → f x y ≤ 1)
    (tail : (b k : ℕ) → bit (z b) k ≡ f 0 (bit b k)) where
  bit-digits : (left a b k : ℕ) → a ≤ left → bit (digits z f left a b) k ≡ f (bit a k) (bit b k)
  bit-digits zero zero b k h = rw (bit-zero k) (tail b k)
  bit-digits zero (suc a) b k h = absurd (omega arith)
  bit-digits (suc left) zero b k h = rw (bit-zero k) (tail b k)
  bit-digits (suc left) (suc a) b zero h =
      omega (arith, digit (suc a % 2) (b % 2) (omega arith) (omega arith))
  bit-digits (suc left) (suc a) b (suc i) h =
      rw upper (bit-digits left (suc a / 2) (b / 2) i (omega arith))
    where
      upper :
          (digits z f left (suc a / 2) (b / 2) * 2 + f (suc a % 2) (b % 2)) / 2
          ≡ digits z f left (suc a / 2) (b / 2)
      upper = omega (arith, digit (suc a % 2) (b % 2) (omega arith) (omega arith))

  digits-lt :
      (w left a b : ℕ)
      → ((c : ℕ) → z c ≤ c)
      → a ≤ left
      → a < 2 ^ w
      → b < 2 ^ w
      → digits z f left a b < 2 ^ w
  digits-lt w zero a b short h la lb = omega (arith, short b)
  digits-lt w (suc left) zero b short h la lb = omega (arith, short b)
  digits-lt zero (suc left) (suc a) b short h la lb = absurd (omega arith)
  digits-lt (suc w) (suc left) (suc a) b short h la lb = omega (
    arith,
    pow-suc 2 w,
    digit (suc a % 2) (b % 2) (omega arith) (omega arith),
    digits-lt w left (suc a / 2) (b / 2) short (omega arith) (omega (arith, pow-suc 2 w))
        (omega (arith, pow-suc 2 w)),
  )

pub bit-bit_and : (a b k : ℕ) → bit (bit_and a b) k ≡ min (bit a k) (bit b k)
bit-bit_and a b k = rw (bit_and-bitwise a b) (
    bit-digits (λ c. 0) min (λ x y p q. omega arith) (λ c i. bit-zero i ∙ omega arith) a a b k
      (omega arith))

pub bit-bit_or : (a b k : ℕ) → bit (bit_or a b) k ≡ max (bit a k) (bit b k)
bit-bit_or a b k =
    rw (bit_or-bitwise a b)
      (bit-digits (λ c. c) max (λ x y p q. omega arith) (λ c i. omega arith) a a b k (omega arith))

-- Masking does not make a number greater.
masked-le : (left a b : ℕ) → a ≤ left → digits (λ c. 0) min left a b ≤ a
masked-le zero a b h = omega arith
masked-le (suc left) zero b h = omega arith
masked-le (suc left) (suc a) b h = omega (arith, masked-le left (suc a / 2) (b / 2) (omega arith))

pub bit_and-le : (a b : ℕ) → bit_and a b ≤ a
bit_and-le a b = rw (bit_and-bitwise a b) (masked-le a a b (omega arith))

-- Below a width both operations stay below it.
pub bit_and-lt : (n a b : ℕ) → a < 2 ^ n → bit_and a b < 2 ^ n
bit_and-lt n a b h = omega (arith, bit_and-le a b)

pub bit_or-lt : (n a b : ℕ) → a < 2 ^ n → b < 2 ^ n → bit_or a b < 2 ^ n
bit_or-lt n a b h k = rw (bit_or-bitwise a b) (
    digits-lt (λ c. c) max (λ x y p q. omega arith) (λ c i. omega arith) n a a b (λ c. omega arith)
      (omega arith) h k)

-- `t << j` at a bit `t`.
pub bit-shift : (t j k : ℕ) → t ≤ 1 → bit (t * 2 ^ j) k ≡ (if j == k then t else 0)
bit-shift t zero zero h = omega arith
bit-shift t zero (suc k) h =
    let e : (t * 1) / 2 ≡ 0 = omega arith in rw e (ground (arith, bit-zero k))
bit-shift t (suc j) zero h =
    let e : (t * 2 ^ suc j) % 2 ≡ 0 = rw (pow-suc, ← mul_assoc) (omega arith) in rw e (ground arith)
bit-shift t (suc j) (suc k) h =
    let e : (t * 2 ^ suc j) / 2 ≡ t * 2 ^ j = rw (pow-suc, ← mul_assoc) (omega arith) in
    rw e (bit-shift t j k h ∙ ground arith)

-- `~x` over `n` bits.
abbrev pub bit_not : ℕ → ℕ → ℕ
bit_not n x = 2 ^ n - 1 - x

pub bit-bit_not : (n x k : ℕ) → x < 2 ^ n → k < n → bit (bit_not n x) k ≡ 1 - bit x k
bit-bit_not zero x k h l = absurd (omega arith)
bit-bit_not (suc n) x zero h l = omega (arith, pow-suc 2 n)
bit-bit_not (suc n) x (suc k) h l =
    let e : bit_not (suc n) x / 2 ≡ bit_not n (x / 2) = omega (arith, pow-suc 2 n) in
    rw e (bit-bit_not n (x / 2) k (omega (arith, pow-suc 2 n)) (omega arith))

-- `x >> k` masked by one is the bit.
pub bit-eq-div-mod : (x k : ℕ) → bit x k ≡ x / 2 ^ k % 2
bit-eq-div-mod x zero = omega arith
bit-eq-div-mod x (suc k) = rw (pow-succ', ← div-div-eq-div-mul) (bit-eq-div-mod (x / 2) k)

pub eq_of_bits : (n x y : ℕ) → x < 2 ^ n → y < 2 ^ n → ((k : ℕ) → k < n → bit x k ≡ bit y k) → x ≡ y
eq_of_bits zero x y h k e = omega arith
eq_of_bits (suc n) x y h k e = omega (
  arith,
  e 0 (omega arith),
  eq_of_bits n (x / 2) (y / 2) (omega (arith, pow-suc 2 n)) (omega (arith, pow-suc 2 n))
      (λ k l. e (suc k) (omega arith)),
)

lt-pow : (a : ℕ) → a < 2 ^ suc a
lt-pow zero = omega arith
lt-pow (suc a) = omega (arith, lt-pow a, pow-suc 2 (suc a))

pub bit_and-one : (a : ℕ) → bit_and a 1 ≡ a % 2
bit_and-one a =
    eq_of_bits (suc a) _ _ (bit_and-lt (suc a) a 1 (lt-pow a)) (omega (arith, lt-pow a)) same
  where
    same : (k : ℕ) → k < suc a → bit (bit_and a 1) k ≡ bit (a % 2) k
    same zero l = omega (arith, bit-bit_and a 1 0)
    same (suc k) l =
        let none : a % 2 / 2 ≡ 0 = omega arith in
        rw none (omega (arith, bit-bit_and a 1 (suc k), bit-zero k))

-- A power below the width of a word fits in it.
pub pow-lt_word : (n j : ℕ) → j < n → 2 * 2 ^ j ≤ 2 ^ n
pow-lt_word n j h = rw (← pow-succ') (pow-le-pow_right (omega arith) h)

pub pow-pos : (j : ℕ) → 0 < 2 ^ j
pow-pos zero = omega arith
pow-pos (suc j) = omega (arith, pow-suc 2 j, pow-pos j)

-- A word masked by `1 << j` keeps bit `j` in its place.
pub bit_and-pow : (n j w : ℕ) → j < n → bit_and (1 * 2 ^ j) w ≡ bit w j * 2 ^ j
bit_and-pow n j w h =
    eq_of_bits n _ _ (bit_and-lt n (1 * 2 ^ j) w (omega (arith, pow-lt_word n j h, pow-pos j)))
      (grind (arith, pow-lt_word n j h, bit-le-one w j, pow-pos j))
      λ k l. ground (
        arith,
        bit-bit_and (1 * 2 ^ j) w k,
        bit-shift 1 j k,
        bit-shift (bit w j) j k,
        bit-le-one w j,
        bit-le-one w k,
      )

-- The lowest digit and the others.
pub bit_and-halves : (a b : ℕ) → bit_and a b ≡ bit_and (a / 2) (b / 2) * 2 + min (a % 2) (b % 2)
bit_and-halves a b = omega (arith, bit-bit_and a b 0, rest)
  where
    rest : bit_and a b / 2 ≡ bit_and (a / 2) (b / 2)
    rest =
        eq_of_bits (suc a) _ _ (omega (arith, bit_and-le a b, lt-pow a))
          (omega (arith, bit_and-le (a / 2) (b / 2), lt-pow a))
          (λ k l. bit-bit_and a b (suc k) ∙ sym (bit-bit_and (a / 2) (b / 2) k))

bit_or-half : (a b : ℕ) → bit_or a b / 2 ≡ bit_or (a / 2) (b / 2)
bit_or-half a b =
    eq_of_bits (suc (a + b)) _ _ (omega (arith, wide a b (omega arith) (omega arith)))
      (wide (a / 2) (b / 2) (omega arith) (omega arith))
      (λ k l. bit-bit_or a b (suc k) ∙ sym (bit-bit_or (a / 2) (b / 2) k))
  where
    wide : (x y : ℕ) → x ≤ a + b → y ≤ a + b → bit_or x y < 2 ^ suc (a + b)
    wide x y p q =
        bit_or-lt (suc (a + b)) x y (omega (arith, lt-pow (a + b))) (omega (arith, lt-pow (a + b)))

-- `x | y` shifted to the right.
pub bit_or-shift : (n a b : ℕ) → bit_or a b / 2 ^ n ≡ bit_or (a / 2 ^ n) (b / 2 ^ n)
bit_or-shift zero a b = ground arith
bit_or-shift (suc n) a b =
    rw (pow-succ', ← div-div-eq-div-mul, ← div-div-eq-div-mul, ← div-div-eq-div-mul, bit_or-half)
      (bit_or-shift n (a / 2) (b / 2))

pub bit_or-zero : (a : ℕ) → bit_or a 0 ≡ a
bit_or-zero a =
    eq_of_bits (suc a) _ _ (bit_or-lt (suc a) a 0 (lt-pow a) (omega (arith, lt-pow a))) (lt-pow a)
      (λ k l. omega (arith, bit-bit_or a 0 k, bit-zero k))

-- The `n` lowest digits.
abbrev pub low : ℕ → ℕ → ℕ
low zero a = 0
low (suc n) a = low n (a / 2) * 2 + a % 2

pub low-lt : (n a : ℕ) → low n a < 2 ^ n
low-lt zero a = omega arith
low-lt (suc n) a = omega (arith, low-lt n (a / 2))

pub bit_and-mask : (n a : ℕ) → bit_and a (2 ^ n - 1) ≡ low n a
bit_and-mask zero a = omega (arith, bit_and-comm_zero)
  where
    bit_and-comm_zero : bit_and a 0 ≡ 0
    bit_and-comm_zero =
        eq_of_bits (suc a) _ _ (bit_and-lt (suc a) a 0 (lt-pow a)) (omega (arith, lt-pow a))
          (λ k l. omega (arith, bit-bit_and a 0 k, bit-zero k))
bit_and-mask (suc n) a =
    let half : (2 ^ suc n - 1) / 2 ≡ 2 ^ n - 1 = omega (arith, pow-suc 2 n, pow-pos n) in
    let odd : (2 ^ suc n - 1) % 2 ≡ 1 = omega (arith, pow-suc 2 n, pow-pos n) in
    bit_and-halves a (2 ^ suc n - 1) ∙ rw (half, odd, bit_and-mask n (a / 2)) (omega arith)
