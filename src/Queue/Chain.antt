-- ===== src/Queue/Chain.antt =====
-- What a queue's links stand for: the list of its items. kernel/sched/queue.c.
use tina.Base.{
  not-mem-append, ==_iff, subst, ◌==◌, ◌||◌, ap, sym, inr, false≢true, inl, Bool-cases, ◌∙◌, ℕ, ◌≡◌,
  ◌≢◌, refl, List, [], ◌∷◌, ◌++◌, arith, update, has, ◌∈◌, ◌∉◌, Distinct, has-append,
}
use tina.Queue.{Links, null}

abbrev pub first : List ℕ → ℕ
first [] = null
first (x ∷ xs) = x

abbrev pub last_or : ℕ → List ℕ → ℕ
last_or b [] = b
last_or b (x ∷ xs) = last_or x xs

-- The `next` fields lead through the items to NULL.
abbrev pub Chain : (ℕ → ℕ) → List ℕ → Type 0
Chain nx [] = Unit
Chain nx (p ∷ xs) = (p ≢ null) × (nx p ≡ first xs) × Chain nx xs

-- The `prev` fields lead back to `before`.
abbrev pub Back : (ℕ → ℕ) → ℕ → List ℕ → Type 0
Back pv before [] = Unit
Back pv before (p ∷ xs) = (pv p ≡ before) × Back pv p xs

-- Queue `q` holds the items `xs`, in order, as far as `head`, `tail` and `next` say.
pub record IsQueue (s : Links) (q : ℕ) (xs : List ℕ) : Type 0 where
  pub front : s.head q ≡ first xs
  pub back : s.tail q ≡ last_or null xs
  pub forward : Chain s.next xs
  pub distinct : Distinct xs

abbrev pub Disjoint : List ℕ → List ℕ → Type 0
Disjoint xs ys = (a : ℕ) → a ∈ xs → a ∉ ys

pub Disjoint-sym : (xs ys : List ℕ) → Disjoint xs ys → Disjoint ys xs
Disjoint-sym xs ys d a i = elim (Bool-cases (has a xs)) [
  | inl e ↦ absurd (false≢true (sym (d a e) ∙ i))
  | inr e ↦ e
]

pub Disjoint-tail : (x : ℕ) (xs ys : List ℕ) → Disjoint (x ∷ xs) ys → Disjoint xs ys
Disjoint-tail x xs ys d a i = d a (ground arith)

pub Disjoint-head : (x : ℕ) (xs ys : List ℕ) → Disjoint (x ∷ xs) ys → x ∉ ys
Disjoint-head x xs ys d = d x (ground arith)

pub Disjoint-append : (xs ys zs : List ℕ) → Disjoint xs zs → Disjoint ys zs → Disjoint (xs ++ ys) zs
Disjoint-append xs ys zs d e a i = elim (Bool-cases (has a xs)) [
  | inl h ↦ d a h
  | inr h ↦ e a (ground (arith, has-append a xs ys))
]

pub Disjoint-left : (xs ys zs : List ℕ) → Disjoint (xs ++ ys) zs → Disjoint xs zs
Disjoint-left xs ys zs d a i = d a (has-append a xs ys ∙ ap (λ b. b || has a ys) i)

pub Disjoint-right : (xs ys zs : List ℕ) → Disjoint (xs ++ ys) zs → Disjoint ys zs
Disjoint-right xs ys zs d a i = d a (ground (arith, has-append a xs ys))

pub Disjoint-single : (x : ℕ) (ys : List ℕ) → x ∉ ys → Disjoint (x ∷ []) ys
Disjoint-single x ys out a i = rw (← one) out
  where
    one : x ≡ a
    one = ground arith

pub Chain-update :
    (nx : ℕ → ℕ) (p v : ℕ) (xs : List ℕ) → p ∉ xs → Chain nx xs → Chain (update nx p v) xs
Chain-update nx p v [] out c = tt
Chain-update nx p v (x ∷ xs) out c = (c.0, ground arith, Chain-update nx p v xs (ground arith) c.2)

pub Back-update :
    (pv : ℕ → ℕ) (p v b : ℕ) (xs : List ℕ) → p ∉ xs → Back pv b xs → Back (update pv p v) b xs
Back-update pv p v b [] out c = tt
Back-update pv p v b (x ∷ xs) out c = (ground arith, Back-update pv p v x xs (ground arith) c.1)

pub Back-same :
    (pv pv' : ℕ → ℕ) (b : ℕ) (xs : List ℕ)
    → ((a : ℕ) → a ∈ xs → pv' a ≡ pv a)
    → Back pv b xs
    → Back pv' b xs
Back-same pv pv' b [] same c = tt
Back-same pv pv' b (x ∷ xs) same c =
    (same x (ground arith) ∙ c.0, Back-same pv pv' x xs (λ a i. same a (ground arith)) c.1)

pub Distinct-split : (xs ys : List ℕ) → Distinct (xs ++ ys) → Disjoint xs ys
Distinct-split [] ys d a i = absurd (false≢true i)
Distinct-split (x ∷ xs) ys d a i = elim (Bool-cases (x == a)) [
  | inl e ↦ subst (λ j. j ∉ ys) ((==_iff x a).0 e) (not-mem-append x xs ys d.0).1
  | inr e ↦ Distinct-split xs ys d.1 a (ground arith)
]

pub last_or-mem : (x : ℕ) (xs : List ℕ) → last_or x xs ∈ (x ∷ xs)
last_or-mem x [] = ground arith
last_or-mem x (y ∷ ys) = ground (arith, last_or-mem y ys)

pub last_or-append : (b p : ℕ) (xs zs : List ℕ) → last_or b (xs ++ p ∷ zs) ≡ last_or p zs
last_or-append b p [] zs = refl
last_or-append b p (x ∷ xs) zs = last_or-append x p xs zs

update-skip : (f : ℕ → ℕ) (a v b w x : ℕ) → x ≢ a → x ≢ b → update (update f a v) b w x ≡ f x
update-skip f a v b w x na nb = ground arith

pub ne_of_mem : (a b : ℕ) (xs : List ℕ) → a ∉ xs → b ∈ xs → a ≢ b
ne_of_mem a b xs out i e = cc

-- Linking `p` behind the last item.
pub Chain-snoc :
    (nx : ℕ → ℕ) (p x : ℕ) (xs : List ℕ)
    → p ≢ null
    → p ∉ (x ∷ xs)
    → Distinct (x ∷ xs)
    → Chain nx (x ∷ xs)
    → Chain (update (update nx (last_or x xs) p) p null) ((x ∷ xs) ++ p ∷ [])
Chain-snoc nx p x [] ne out d c = (c.0, ground arith, (ne, ground arith, tt))
Chain-snoc nx p x (y ∷ ys) ne out d c = (
  c.0,
  update-skip nx (last_or y ys) p p null x (ne_of_mem x _ (y ∷ ys) d.0 (last_or-mem y ys))
        (ground arith)
      ∙ c.1,
  Chain-snoc nx p y ys ne (ground arith) d.1 c.2,
)

pub Back-snoc :
    (pv : ℕ → ℕ) (p b : ℕ) (xs : List ℕ)
    → p ∉ xs
    → Back pv b xs
    → Back (update pv p (last_or b xs)) b (xs ++ p ∷ [])
Back-snoc pv p b [] out c = (ground arith, tt)
Back-snoc pv p b (x ∷ xs) out c = (ground arith, Back-snoc pv p x xs (ground arith) c.1)

pub Distinct-snoc : (p : ℕ) (xs : List ℕ) → p ∉ xs → Distinct xs → Distinct (xs ++ p ∷ [])
Distinct-snoc p [] out d = (refl, tt)
Distinct-snoc p (x ∷ xs) out d =
    (ground (arith, has-append x xs (p ∷ [])), Distinct-snoc p xs (ground arith) d.1)

-- A queue depends on its own two ends and on the `next` fields of its items.
pub IsQueue-frame :
    {s : Links} {r : ℕ} {ys : List ℕ} (t : Links)
    → t.head r ≡ s.head r
    → t.tail r ≡ s.tail r
    → ((a : ℕ) → a ∈ ys → t.next a ≡ s.next a)
    → IsQueue s r ys
    → IsQueue t r ys
IsQueue-frame {s} {ys} t h l same w = record {
  front = h ∙ w.front;
  back = l ∙ w.back;
  forward = keep ys same w.forward;
  distinct = w.distinct;
}
  where
    keep :
        (zs : List ℕ) → ((a : ℕ) → a ∈ zs → t.next a ≡ s.next a) → Chain s.next zs → Chain t.next zs
    keep [] e c = tt
    keep (z ∷ zs) e c = (c.0, e z (ground arith) ∙ c.1, keep zs (λ a i. e a (ground arith)) c.2)
