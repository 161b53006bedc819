-- ===== src/Screen/Rows.antt =====
-- What the loops over lines and columns write: drivers/screen.c.
use tina.Base.{
  ℕ, zero, suc, ◌+◌, ◌*◌, ◌≤◌, ◌<◌, ◌≡◌, inl, inr, refl, subst, ◌∙◌, arith, ◌==◌, Bool-cases,
  update-ne, update-eq,
}
use tina.Screen.{screen_width, row, rows, scroll_cell}

-- An assignment that reads only what the loops have not reached.
abbrev pub Ahead : ((ℕ → ℕ) → ℕ → ℕ → ℕ) → Type 0
Ahead cell =
    (f g : ℕ → ℕ) (i j : ℕ)
    → ((k : ℕ) → i * screen_width + j < k → f k ≡ g k)
    → cell f i j ≡ cell g i j

pub scroll-Ahead : (line2 : ℕ) → Ahead (scroll_cell line2)
scroll-Ahead line2 f g i j h = elim (Bool-cases (i == line2)) [
  | inl e ↦ rw e
  | inr e ↦ rw e (h ((i + 1) * screen_width + j) (omega arith))
]

module _ (cell : (ℕ → ℕ) → ℕ → ℕ → ℕ) where
  row-before :
      (left i j : ℕ) (f : ℕ → ℕ) (k : ℕ) → k < i * screen_width + j → row left i j cell f k ≡ f k
  unfolding row
  row-before zero i j f k h = refl
  row-before (suc left) i j f k h =
      row-before left i (j + 1) _ k (omega arith)
      ∙ update-ne f (i * screen_width + j) _ k (omega arith)

  row-behind :
      (left i j : ℕ) (f : ℕ → ℕ) (k : ℕ)
      → i * screen_width + j + left ≤ k
      → row left i j cell f k ≡ f k
  unfolding row
  row-behind zero i j f k h = refl
  row-behind (suc left) i j f k h =
      row-behind left i (j + 1) _ k (omega arith)
      ∙ update-ne f (i * screen_width + j) _ k (omega arith)

  row-at :
      (left i j : ℕ) (f : ℕ → ℕ) (n : ℕ)
      → Ahead cell
      → n < left
      → row left i j cell f (i * screen_width + (j + n)) ≡ cell f i (j + n)
  unfolding row
  row-at zero i j f n ahead h = absurd (omega arith)
  row-at (suc left) i j f zero ahead h =
      let here : j + 0 ≡ j = omega arith in
      rw here (
        row-before left i (j + 1) _ (i * screen_width + j) (omega arith)
        ∙ update-eq f (i * screen_width + j) _)
  row-at (suc left) i j f (suc n) ahead h =
      let shift : j + suc n ≡ j + 1 + n = omega arith in
      rw shift (
        row-at left i (j + 1) _ n ahead (omega arith)
        ∙ ahead _ f i (j + 1 + n) (λ k l. update-ne f (i * screen_width + j) _ k (omega arith)))

  row-first :
      (i : ℕ) (f : ℕ → ℕ) (j : ℕ)
      → Ahead cell
      → j < screen_width
      → row screen_width i 0 cell f (i * screen_width + j) ≡ cell f i j
  row-first i f j ahead l =
      let from_zero : 0 + j ≡ j = omega arith in
      subst (λ n. row screen_width i 0 cell f (i * screen_width + n) ≡ cell f i n) from_zero
        (row-at screen_width i 0 f j ahead l)

  rows-before : (left i : ℕ) (f : ℕ → ℕ) (k : ℕ) → k < i * screen_width → rows left i cell f k ≡ f k
  unfolding rows
  rows-before zero i f k h = refl
  rows-before (suc left) i f k h =
      rows-before left (i + 1) _ k (omega arith) ∙ row-before screen_width i 0 f k (omega arith)

  pub rows-behind :
      (left i : ℕ) (f : ℕ → ℕ) (k : ℕ) → (i + left) * screen_width ≤ k → rows left i cell f k ≡ f k
  unfolding rows
  rows-behind zero i f k h = refl
  rows-behind (suc left) i f k h =
      rows-behind left (i + 1) _ k (omega arith) ∙ row-behind screen_width i 0 f k (omega arith)

  pub rows-at :
      (left i : ℕ) (f : ℕ → ℕ) (n j : ℕ)
      → Ahead cell
      → n < left
      → j < screen_width
      → rows left i cell f ((i + n) * screen_width + j) ≡ cell f (i + n) j
  unfolding rows
  rows-at zero i f n j ahead h l = absurd (omega arith)
  rows-at (suc left) i f zero j ahead h l =
      let here : i + 0 ≡ i = omega arith in
      rw here
        (rows-before left (i + 1) _ (i * screen_width + j) (omega arith) ∙ row-first i f j ahead l)
  rows-at (suc left) i f (suc n) j ahead h l =
      let shift : i + suc n ≡ i + 1 + n = omega arith in
      rw shift (
        rows-at left (i + 1) _ n j ahead (omega arith) l
        ∙ ahead _ f (i + 1 + n) j (λ k b. row-behind screen_width i 0 f k (omega arith)))
