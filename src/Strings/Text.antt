-- ===== src/Strings/Text.antt =====
-- A string in memory and its length: libs/string.c.
use tina.Base.{
  ℕ, zero, suc, ◌+◌, ◌<◌, ◌≡◌, ◌≢◌, ap, subst, ◌∙◌, some, List, [], ◌∷◌, arith, ==_ne, length,
}
use tina.Strings.{strlen, strlen_loop}

-- The characters `cs` stand at `p`, with a `\0` behind them.
abbrev pub Text : (ℕ → ℕ) → ℕ → List ℕ → Type 0
Text mem p [] = mem p ≡ 0
Text mem p (c ∷ cs) = (mem p ≡ c) × (c ≢ 0) × Text mem (p + 1) cs

strlen_loop_lem :
    (fuel i : ℕ) (mem : ℕ → ℕ) (p : ℕ) (cs : List ℕ)
    → Text mem (p + i) cs
    → length cs < fuel
    → strlen_loop fuel i mem p ≡ some (i + length cs)
unfolding strlen_loop
strlen_loop_lem zero i mem p cs t l = absurd (omega arith)
strlen_loop_lem (suc fuel) i mem p [] t l = let end : i + 0 ≡ i = omega arith in rw (t, end)
strlen_loop_lem (suc fuel) i mem p (c ∷ cs) t l =
    let shift : p + i + 1 ≡ p + (i + 1) = omega arith in
    let sum : i + suc (length cs) ≡ i + 1 + length cs = omega arith in
    rw (t.0, ==_ne c 0 t.1, sum)
      (strlen_loop_lem fuel (i + 1) mem p cs (subst (λ a. Text mem a cs) shift t.2) (omega arith))

-- For a string `cs`, `strlen` ends with fuel above the length of `cs` and returns it.
pub strlen_lem :
    (fuel : ℕ) (mem : ℕ → ℕ) (p : ℕ) (cs : List ℕ)
    → Text mem p cs
    → length cs < fuel
    → strlen fuel mem p ≡ some (length cs)
unfolding strlen
strlen_lem fuel mem p cs t l =
    let start : p ≡ p + 0 = omega arith in
    let sum : 0 + length cs ≡ length cs = omega arith in
    strlen_loop_lem fuel 0 mem p cs (subst (λ a. Text mem a cs) start t) l ∙ ap some sum
