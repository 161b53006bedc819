-- ===== src/Tokens/Words.antt =====
-- Words with separators between them are cut apart: kernel/fs/path.c and test/test_shell.c.
use tina.Base.{
  ℕ, zero, suc, ◌≡◌, ◌≢◌, refl, sym, ap, ◌∙◌, none, some, List, [], ◌∷◌, ◌++◌, append-nil,
  append_assoc, ==_iff, ==_ne, replicate, All,
}
use tina.Tokens.{split_loop, split}

-- A word has a character, and none is the separator.
abbrev pub IsWord : (separator : ℕ) → List ℕ → Type 0
IsWord sep [] = ⊥
IsWord sep (c ∷ cs) = (c ≢ sep) × All (λ d. d ≢ sep) cs

abbrev pub join : (separator : ℕ) → List (List ℕ) → List ℕ
join sep [] = []
join sep (w ∷ []) = w
join sep (w ∷ v ∷ ws) = w ++ sep ∷ join sep (v ∷ ws)

-- In a part, the characters that are not the separator are added to it.
split_loop-word :
    (sep : ℕ) (part w rest : List ℕ)
    → All (λ d. d ≢ sep) w
    → split_loop sep (some part) (w ++ rest) ≡ split_loop sep (some (part ++ w)) rest
unfolding split_loop
split_loop-word sep part [] rest h = ap (λ p. split_loop sep (some p) rest) (sym (append-nil part))
split_loop-word sep part (c ∷ w) rest (ne, h) = rw (==_ne c sep ne) (
    split_loop-word sep (part ++ c ∷ []) w rest h
    ∙ ap (λ p. split_loop sep (some p) rest) (append_assoc part (c ∷ []) w))

split_loop-begin :
    (sep c : ℕ) (w rest : List ℕ)
    → IsWord sep (c ∷ w)
    → split_loop sep none (c ∷ w ++ rest) ≡ split_loop sep (some (c ∷ w)) rest
unfolding split_loop
split_loop-begin sep c w rest (ne, h) = rw (==_ne c sep ne) (split_loop-word sep (c ∷ []) w rest h)

split_loop-end :
    (sep : ℕ) (part rest : List ℕ)
    → split_loop sep (some part) (sep ∷ rest) ≡ part ∷ split_loop sep none rest
unfolding split_loop
split_loop-end sep part rest = rw ((==_iff sep sep).1 refl) refl

split_loop-join :
    (sep : ℕ) (ws : List (List ℕ)) → All (IsWord sep) ws → split_loop sep none (join sep ws) ≡ ws
unfolding split_loop
split_loop-join sep [] h = refl
split_loop-join sep ([] ∷ ws) h = absurd h.0
split_loop-join sep ((c ∷ w) ∷ []) h =
    ap (split_loop sep none) (sym (append-nil (c ∷ w))) ∙ split_loop-begin sep c w [] h.0
split_loop-join sep ((c ∷ w) ∷ v ∷ ws) h =
    split_loop-begin sep c w (sep ∷ join sep (v ∷ ws)) h.0
    ∙ split_loop-end sep (c ∷ w) (join sep (v ∷ ws))
    ∙ ap (λ r. (c ∷ w) ∷ r) (split_loop-join sep (v ∷ ws) h.1)

split_loop-leading :
    (sep n : ℕ) (cs : List ℕ) → split_loop sep none (replicate n sep ++ cs) ≡ split_loop sep none cs
unfolding split_loop
split_loop-leading sep zero cs = refl
split_loop-leading sep (suc n) cs = rw ((==_iff sep sep).1 refl) (split_loop-leading sep n cs)

-- Words without the separator and not empty, with one separator between them and any number in front,
-- are cut into these words.
pub split-join :
    (sep n : ℕ) (ws : List (List ℕ))
    → All (IsWord sep) ws
    → split sep (replicate n sep ++ join sep ws) ≡ ws
unfolding split
split-join sep n ws h = split_loop-leading sep n (join sep ws) ∙ split_loop-join sep ws h
