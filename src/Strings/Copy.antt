-- ===== src/Strings/Copy.antt =====
-- Copies: libs/string.c.
use tina.Base.{
  ℕ, zero, suc, ◌+◌, ◌≤◌, ◌<◌, ◌≡◌, ◌⊎◌, inl, inr, refl, sym, subst, ◌∙◌, false, some, List, [],
  ◌∷◌, arith, ◌==◌, ==_ne, ℕ_discrete, if◌then◌else◌, update, update-ne, update-eq, length,
}
use tina.Strings.{memcpy, memset, strcpy}
use tina.Strings.Text.{Text}

-- Addresses that are not from `p` on, for `n` bytes.
abbrev pub Outside : (p n k : ℕ) → Type 0
Outside p n k = (k < p) ⊎ (p + n ≤ k)

memcpy-Outside : (mem : ℕ → ℕ) (d s n k : ℕ) → Outside d n k → memcpy mem d s n k ≡ mem k
unfolding memcpy
memcpy-Outside mem d s zero k o = refl
memcpy-Outside mem d s (suc n) k o =
    memcpy-Outside (update mem d (mem s)) (d + 1) (s + 1) n k
      (elim o [ inl h ↦ inl (omega arith) | inr h ↦ inr (omega arith) ])
    ∙ update-ne mem d (mem s) k (elim o [ inl h ↦ omega arith | inr h ↦ omega arith ])

-- If the destination starts at or before the source, or at or behind its end, `memcpy` makes the
-- destination a copy of what the source was, and changes no other byte.
pub memcpy_lem :
    (mem : ℕ → ℕ) (d s n : ℕ)
    → (d ≤ s) ⊎ (s + n ≤ d)
    → ((i : ℕ) → i < n → memcpy mem d s n (d + i) ≡ mem (s + i))
      × ((k : ℕ) → Outside d n k → memcpy mem d s n k ≡ mem k)
unfolding memcpy
memcpy_lem mem d s n apart = (copied mem d s n apart, memcpy-Outside mem d s n)
  where
    copied :
        (mem : ℕ → ℕ) (d s n : ℕ)
        → (d ≤ s) ⊎ (s + n ≤ d)
        → (i : ℕ) → i < n
        → memcpy mem d s n (d + i) ≡ mem (s + i)
    copied mem d s zero apart i l = absurd (omega arith)
    copied mem d s (suc n) apart zero l =
        let d0 : d + 0 ≡ d = omega arith in
        let s0 : s + 0 ≡ s = omega arith in
        rw (d0, s0)
          (memcpy-Outside (update mem d (mem s)) (d + 1) (s + 1) n d (inl (omega arith))
            ∙ update-eq mem d (mem s))
    copied mem d s (suc n) apart (suc i) l =
        let dn : d + suc i ≡ d + 1 + i = omega arith in
        let sn : s + suc i ≡ s + 1 + i = omega arith in
        rw (dn, sn)
          (copied (update mem d (mem s)) (d + 1) (s + 1) n
              (elim apart [ inl h ↦ inl (omega arith) | inr h ↦ inr (omega arith) ]) i (omega arith)
            ∙ update-ne mem d (mem s) (s + 1 + i)
                (elim apart [ inl h ↦ omega arith | inr h ↦ omega arith ]))

-- `memset` gives every byte of the range the value and changes no byte outside it.
pub memset_lem :
    (mem : ℕ → ℕ) (d v n k : ℕ)
    → ((d ≤ k) × (k < d + n) → memset mem d v n k ≡ v)
      × (Outside d n k → memset mem d v n k ≡ mem k)
unfolding memset
memset_lem mem d v zero k = (λ h. absurd (omega arith), λ o. refl)
memset_lem mem d v (suc n) k =
    let rest = memset_lem (update mem d v) (d + 1) v n k in
    (
      λ h. elim (ℕ_discrete d k) [
        | yes e ↦
            rest.1 (inl (omega arith)) ∙ subst (λ a. update mem d v a ≡ v) e (update-eq mem d v)
        | no ne ↦ rest.0 (omega arith)
      ],
      λ o.
          rest.1 (elim o [ inl h ↦ inl (omega arith) | inr h ↦ inr (omega arith) ])
          ∙ update-ne mem d v k (elim o [ inl h ↦ omega arith | inr h ↦ omega arith ]),
    )

-- A string that stands where nothing was written.
Text-update :
    (mem : ℕ → ℕ) (a v p : ℕ) (cs : List ℕ)
    → Outside p (length cs + 1) a
    → Text mem p cs
    → Text (update mem a v) p cs
Text-update mem a v p [] o t =
    update-ne mem a v p (elim o [ inl h ↦ omega arith | inr h ↦ omega arith ]) ∙ t
Text-update mem a v p (c ∷ cs) o t = (
  update-ne mem a v p (elim o [ inl h ↦ omega arith | inr h ↦ omega arith ]) ∙ t.0,
  t.1,
  Text-update mem a v (p + 1) cs (elim o [ inl h ↦ inl (omega arith) | inr h ↦ inr (omega arith) ])
      t.2,
)

-- For a string `cs` at `s` and a destination at or before `s` or behind the `\0` of the string,
-- `strcpy` ends with fuel above the length of `cs`: the string stands at the destination too, and no
-- byte outside its place is changed.
pub strcpy_lem :
    (fuel : ℕ) (mem : ℕ → ℕ) (d s : ℕ) (cs : List ℕ)
    → Text mem s cs
    → length cs < fuel
    → (d ≤ s) ⊎ (s + length cs < d)
    → (m : ℕ → ℕ) × (strcpy fuel mem d s ≡ some m)
      × Text m d cs
      × ((k : ℕ) → Outside d (length cs + 1) k → m k ≡ mem k)
unfolding strcpy
strcpy_lem zero mem d s cs t l apart = absurd (omega arith)
strcpy_lem (suc fuel) mem d s [] t l apart = (
  update mem d 0,
  rw t refl,
  update-eq mem d 0,
  λ k o. update-ne mem d 0 k (elim o [ inl h ↦ omega arith | inr h ↦ omega arith ]),
)
strcpy_lem (suc fuel) mem d s (c ∷ cs) t l apart =
    let test : (mem s == 0) ≡ false = rw t.0 (==_ne c 0 t.1) in
    let ahead : Text (update mem d (mem s)) (s + 1) cs =
      Text-update mem d (mem s) (s + 1) cs
        (elim apart [ inl h ↦ inl (omega arith) | inr h ↦ inr (omega arith) ]) t.2 in
    let (m, run, text, out) =
      strcpy_lem fuel (update mem d (mem s)) (d + 1) (s + 1) cs ahead (omega arith)
        (elim apart [ inl h ↦ inl (omega arith) | inr h ↦ inr (omega arith) ]) in
    (
      m,
      subst
          (λ b.
            (if b
              then some (update mem d 0)
              else strcpy fuel (update mem d (mem s)) (d + 1) (s + 1))
            ≡ some m)
          (sym test) run,
      (out d (inl (omega arith)) ∙ update-eq mem d (mem s) ∙ t.0, t.1, text),
      λ k o.
          out k (elim o [ inl h ↦ inl (omega arith) | inr h ↦ inr (omega arith) ])
          ∙ update-ne mem d (mem s) k (elim o [ inl h ↦ omega arith | inr h ↦ omega arith ]),
    )
