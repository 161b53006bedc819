-- ===== src/Mailbox/Open.antt =====
-- A name is opened once and found from then on: libs/mailbox.c.
use tina.Base.{
  ℕ, zero, suc, ◌+◌, ◌≤◌, ◌<◌, ◌≡◌, ◌≢◌, inl, inr, refl, ap, subst, Bool, true, false, Option, none,
  some, List, [], ◌∷◌, arith, ==_iff, ==_ne, ℕ_discrete, Bool-cases, take,
}
use tina.Tokens.{same_string}
use tina.Mailbox.{
  Boxes, max_num_box, set_box, one_init, find_box, is_free_box, is_box_named, take_box,
  create_found, mbox_create, open_found, first_init, mbox_open,
}

-- What a search over the boxes from `i` on finds.
abbrev pub FoundBox : (left i : ℕ) → (ℕ → Bool) → Option ℕ → Type 0
FoundBox left i p none = (j : ℕ) → i ≤ j → j < i + left → p j ≡ false
FoundBox left i p (some k) =
    (i ≤ k) × (k < i + left) × (p k ≡ true) × ((j : ℕ) → i ≤ j → j < k → p j ≡ false)

find_next :
    (left i : ℕ) (p : ℕ → Bool) (r : Option ℕ)
    → p i ≡ false
    → FoundBox left (i + 1) p r
    → FoundBox (suc left) i p r
find_next left i p none e h = λ j lo hi. elim (ℕ_discrete i j) [
  | yes s ↦ subst (λ k. p k ≡ false) s e
  | no ne ↦ h j (omega arith) (omega arith)
]
find_next left i p (some k) e (lo, hi, at, before) = (
  omega arith,
  omega arith,
  at,
  λ j l b. elim (ℕ_discrete i j) [
    | yes s ↦ subst (λ k. p k ≡ false) s e
    | no ne ↦ before j (omega arith) b
  ],
)

find_box-FoundBox : (left i : ℕ) (p : ℕ → Bool) → FoundBox left i p (find_box left i p)
unfolding find_box
find_box-FoundBox zero i p = λ j lo hi. absurd (omega arith)
find_box-FoundBox (suc left) i p = elim (Bool-cases (p i)) [
  | inl e ↦ rw e (omega arith, omega arith, e, λ j lo hi. absurd (omega arith))
  | inr e ↦ rw e (find_next left i p (find_box left (i + 1) p) e (find_box-FoundBox left (i + 1) p))
]

find_box-first :
    (left i k : ℕ) (p : ℕ → Bool)
    → i ≤ k
    → k < i + left
    → ((m : ℕ) → i ≤ m → m < k → p m ≡ false)
    → p k ≡ true
    → find_box left i p ≡ some k
unfolding find_box
find_box-first zero i k p h l before here = absurd (omega arith)
find_box-first (suc left) i k p h l before here = elim (ℕ_discrete i k) [
  | yes e ↦ rw (e, here) refl
  | no ne ↦ rw (before i (omega arith) (omega arith)) (
      find_box-first left (i + 1) k p (omega arith) (omega arith)
        (λ m a b. before m (omega arith) b) here)
]

same_string_refl : (cs : List ℕ) → same_string cs cs ≡ true
unfolding same_string
same_string_refl [] = refl
same_string_refl (c ∷ cs) = rw ((==_iff c c).1 refl) (same_string_refl cs)

-- One more reference to box `i`.
abbrev pub refer : Boxes → ℕ → Boxes
refer b i = set_box b i (record (b.mboxs i) { ref_count = (b.mboxs i).ref_count + 1 })

-- What `mbox_open` gives: no box has the name and none is free, or a box that has the name from now on, the
-- one that the next call finds, while the others are as before.
abbrev pub Opened : Boxes → (name : List ℕ) → Boxes × Option ℕ → Type 0
Opened b name (b', none) =
    (b' ≡ b)
    × ((j : ℕ)
        → j < max_num_box
        → (is_box_named b (take 15 name) j ≡ false) × (is_free_box b j ≡ false))
Opened b name (b', some i) =
    (i < max_num_box)
    × (is_box_named b' (take 15 name) i ≡ true)
    × (mbox_open b' name ≡ (refer b' i, some i))
    × ((j : ℕ) → i ≢ j → b'.mboxs j ≡ b.mboxs j)

-- The next call, in boxes that have been initialised.
open-found :
    (b : Boxes) (name : List ℕ) (i : ℕ)
    → b.mboxinit ≢ 0
    → i < max_num_box
    → ((m : ℕ) → m < i → is_box_named b (take 15 name) m ≡ false)
    → is_box_named b (take 15 name) i ≡ true
    → mbox_open b name ≡ (refer b i, some i)
unfolding mbox_open first_init open_found
open-found b name i init l before here = rw (==_ne b.mboxinit 0 init) (
    ap (open_found b (take 15 name)) (
      find_box-first max_num_box 0 i (is_box_named b (take 15 name)) (omega arith) (omega arith)
        (λ m lo hi. before m hi) here))

create_found-Opened :
    (b : Boxes) (name : List ℕ) (r : Option ℕ)
    → b.mboxinit ≢ 0
    → ((j : ℕ) → j < max_num_box → is_box_named b (take 15 name) j ≡ false)
    → FoundBox max_num_box 0 (is_free_box b) r
    → Opened b name (create_found b (take 15 name) r)
unfolding create_found take_box one_init is_box_named
create_found-Opened b name none init other h =
    (refl, λ j l. (other j l, h j (omega arith) (omega arith)))
create_found-Opened b name (some i) init other (lo, hi, free, before) = (
  hi,
  here,
  open-found (take_box b (take 15 name) i) name i init hi
      (λ m l. rw (==_ne i m (omega arith)) (other m (omega arith))) here,
  λ j ne. rw (==_ne i j ne) refl,
)
  where
    here : is_box_named (take_box b (take 15 name) i) (take 15 name) i ≡ true
    here = rw ((==_iff i i).1 refl) (same_string_refl (take 15 name))

open_found-Opened :
    (b : Boxes) (name : List ℕ) (r : Option ℕ)
    → b.mboxinit ≢ 0
    → FoundBox max_num_box 0 (is_box_named b (take 15 name)) r
    → Opened b name (open_found b (take 15 name) r)
unfolding open_found mbox_create is_box_named
open_found-Opened b name none init h =
    create_found-Opened b name (find_box max_num_box 0 (is_free_box b)) init
      (λ j l. h j (omega arith) (omega arith)) (find_box-FoundBox max_num_box 0 (is_free_box b))
open_found-Opened b name (some i) init (lo, hi, at, before) = (
  hi,
  here,
  open-found (refer b i) name i init hi
      (λ m l. rw (==_ne i m (omega arith)) (before m (omega arith) l)) here,
  λ j ne. rw (==_ne i j ne) refl,
)
  where
    here : is_box_named (refer b i) (take 15 name) i ≡ true
    here = rw ((==_iff i i).1 refl) at

-- In boxes that have been initialised, `mbox_open` gives NULL, and changes nothing, only if no box has
-- the first 15 characters of the name and none is free; else it gives a box that has them, the others
-- are as before, and the next `mbox_open` of that name finds the same box and counts one reference
-- more.
pub mbox_open-Opened :
    (b : Boxes) (name : List ℕ) → b.mboxinit ≢ 0 → Opened b name (mbox_open b name)
unfolding mbox_open first_init
mbox_open-Opened b name init = rw (==_ne b.mboxinit 0 init) (
    open_found-Opened b name (find_box max_num_box 0 (is_box_named b (take 15 name))) init
      (find_box-FoundBox max_num_box 0 (is_box_named b (take 15 name))))
