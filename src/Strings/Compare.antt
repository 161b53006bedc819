-- ===== src/Strings/Compare.antt =====
-- Comparison: libs/string.c.
use tina.Base.{
  ℕ, zero, suc, ◌+◌, ◌<◌, ◌≡◌, ◌≢◌, inl, inr, refl, sym, ap, subst, ◌∙◌, false≢true, some, List, [],
  ◌∷◌, ◌++◌, arith, ◌==◌, ==_iff, ==_ne, Bool-cases, length,
}
use tina.Strings.{Order, same, shorter, other, strcmp}
use tina.Strings.Text.{Text}

-- What a result says of two strings.
abbrev pub Compared : List ℕ → List ℕ → Order → Type 0
Compared xs ys same = xs ≡ ys
Compared xs ys shorter = (z : ℕ) × (zs : List ℕ) × (ys ≡ xs ++ z ∷ zs)
Compared xs ys other = (xs ≢ ys) × ((z : ℕ) (zs : List ℕ) → ys ≢ xs ++ z ∷ zs)

Compared-cons :
    (x : ℕ) (xs ys : List ℕ) (r : Order) → Compared xs ys r → Compared (x ∷ xs) (x ∷ ys) r
Compared-cons x xs ys same h = ap (λ s. x ∷ s) h
Compared-cons x xs ys shorter (z, zs, e) = (z, zs, ap (λ s. x ∷ s) e)
Compared-cons x xs ys other (ne, longer) = (λ e. ne cc, λ z zs e. longer z zs cc)

-- For strings `xs` and `ys`, `strcmp` ends with fuel above the length of `xs`: its result is 0 only if
-- they are equal, -1 only if `xs` is a proper prefix of `ys`, and 1 only if neither holds.
pub strcmp_lem :
    (fuel : ℕ) (mem : ℕ → ℕ) (a b : ℕ) (xs ys : List ℕ)
    → Text mem a xs
    → Text mem b ys
    → length xs < fuel
    → (r : Order) × (strcmp fuel mem a b ≡ some r) × Compared xs ys r
unfolding strcmp
strcmp_lem zero mem a b xs ys t u l = absurd (omega arith)
strcmp_lem (suc fuel) mem a b [] [] t u l = (same, rw (t, u) refl, refl)
strcmp_lem (suc fuel) mem a b [] (y ∷ ys) t u l =
    (shorter, rw (t, u.0, ==_ne y 0 u.1) refl, (y, ys, refl))
strcmp_lem (suc fuel) mem a b (x ∷ xs) [] t u l =
    (other, rw (t.0, u, ==_ne x 0 t.1) refl, (λ e. cc, λ z zs e. cc))
strcmp_lem (suc fuel) mem a b (x ∷ xs) (y ∷ ys) t u l = elim (Bool-cases (x == y)) [
  | inl e ↦
      let (r, run, c) = strcmp_lem fuel mem (a + 1) (b + 1) xs ys t.2 u.2 (omega arith) in
      (
        r,
        rw (t.0, u.0, ==_ne x 0 t.1, ==_ne y 0 u.1, e) run,
        subst (λ w. Compared (x ∷ xs) (w ∷ ys) r) ((==_iff x y).0 e) (Compared-cons x xs ys r c),
      )
  | inr e ↦ (
    other,
    rw (t.0, u.0, ==_ne x 0 t.1, ==_ne y 0 u.1, e) refl,
    (λ p. false≢true (sym e ∙ (==_iff x y).1 cc), λ z zs p. false≢true (sym e ∙ (==_iff x y).1 cc)),
  )
]
