-- ===== src/Lock/Exit.antt =====
-- A process that exits gives back its locks: `release_holding` of kernel/sched/sched.c.
use tina.Base.{
  ℕ, zero, suc, ◌+◌, ◌≤◌, ◌<◌, ◌≡◌, refl, sym, ap, subst, ◌∙◌, Bool, true, false, ◌||◌, List, [],
  ◌∷◌, ◌++◌, append-nil, append_assoc, arith, ◌==◌, if◌then◌else◌, length, All, has, ◌∉◌,
  has-append, not-mem-cons,
}
use tina.Queue.Chain.{IsQueue, Disjoint}
use tina.Queue.Fifo.{is_empty_lem}
use tina.Kernel.Outcome.{ok}
use tina.Kernel.{Kernel, ready, ready_queue, holding, block_queue}
use tina.Sched.{release_holding}
use tina.Lock.Round.{Round, round, released}

-- The tasks that wait for the locks `hs`, in order.
abbrev pub waiters_of : (ws : ℕ → List ℕ) → List ℕ → List ℕ
waiters_of ws [] = []
waiters_of ws (l ∷ hs) = ws l ++ waiters_of ws hs

-- No task and no lock stands in two of the queues: those of the locks `hs`, the ready one and the locks
-- themselves.
abbrev pub Apart : (ws : ℕ → List ℕ) → (hs xs : List ℕ) → Type 0
Apart ws [] xs = Unit
Apart ws (l ∷ hs) xs =
    Disjoint (l ∷ hs) xs
    × Disjoint (l ∷ hs) (ws l)
    × Disjoint (ws l) xs
    × All (λ m. Disjoint (l ∷ hs) (ws m) × Disjoint (ws l) (ws m) × Disjoint xs (ws m)) hs
    × Apart ws hs (xs ++ ws l)

-- The locks `hs` have been released.
pub record GaveBack (k : Kernel) (c : ℕ) (ws : ℕ → List ℕ) (hs xs : List ℕ) (k' : Kernel)
    : Type 0 where
  pub held : IsQueue k'.links (holding c) []
  pub readied : IsQueue k'.links ready_queue (xs ++ waiters_of ws hs)
  pub locked : (m : ℕ) → k'.locked m ≡ (if has m hs then false else k.locked m)
  pub status : (p : ℕ) → k'.status p ≡ (if has p (waiters_of ws hs) then ready else k.status p)
  pub same :
      k' ≡ record k { links = k'.links; locked = k'.locked; status = k'.status; chan = k'.chan }

-- The queues of the locks still held are as before the round.
others_kept :
    {k k' : Kernel} {c l : ℕ} {ws xs : List ℕ} (hs all : List ℕ) (q : ℕ → List ℕ)
    → Round k c l all ws xs k'
    → l ∉ hs
    → All (λ m. Disjoint (l ∷ all) (q m) × Disjoint ws (q m) × Disjoint xs (q m)) hs
    → All (λ m. IsQueue k.links (block_queue m) (q m)) hs
    → All (λ m. IsQueue k'.links (block_queue m) (q m)) hs
others_kept [] all q r new apart valid = tt
others_kept {l} (h ∷ hs) all q r new apart valid = (
  r.others h (q h) (λ e. (not-mem-cons l h hs new).0 (sym e)) apart.0.0 apart.0.1 apart.0.2 valid.0,
  others_kept hs all q r (not-mem-cons l h hs new).1 apart.1 valid.1,
)

pub if_or {ℓ} :
    {A : Type ℓ} (a b : Bool) (x y : A)
    → (if b then x else if a then x else y) ≡ (if a || b then x else y)
if_or true true x y = refl
if_or true false x y = refl
if_or false true x y = refl
if_or false false x y = refl

module _ {k k1 k2 : Kernel} {c l : ℕ} {ws : ℕ → List ℕ} {hs xs : List ℕ}
    (r : Round k c l hs (ws l) xs k1) (g : GaveBack k1 c ws hs (xs ++ ws l) k2) where
  both-locked : (m : ℕ) → k2.locked m ≡ (if has m (l ∷ hs) then false else k.locked m)
  both-locked m =
      g.locked m
      ∙ ap (λ f. if has m hs then false else f m) r.locked
      ∙ if_or (l == m) (has m hs) false (k.locked m)

  both-status :
      (p : ℕ) → k2.status p ≡ (if has p (waiters_of ws (l ∷ hs)) then ready else k.status p)
  both-status p =
      g.status p
      ∙ ap (λ s. if has p (waiters_of ws hs) then ready else s) (r.status p)
      ∙ if_or (has p (ws l)) (has p (waiters_of ws hs)) ready (k.status p)
      ∙ ap (λ b. if b then ready else k.status p) (sym (has-append p (ws l) (waiters_of ws hs)))

  both : GaveBack k c ws (l ∷ hs) xs k2
  both = record {
    held = g.held;
    readied =
        subst (IsQueue k2.links ready_queue) (append_assoc xs (ws l) (waiters_of ws hs)) g.readied;
    locked = both-locked;
    status = both-status;
    same =
        g.same
        ∙ ap
            (λ (j : Kernel). record j {
              links = k2.links;
              locked = k2.locked;
              status = k2.status;
              chan = k2.chan;
            })
            r.same;
  }

ended :
    (fuel : ℕ) (k : Kernel) (c : ℕ)
    → k.current_running ≡ c
    → IsQueue k.links (holding c) []
    → release_holding (suc fuel) k ≡ ok k
unfolding release_holding
ended fuel k c cur wh = rw (cur, (is_empty_lem [] wh).1 refl) refl

pub release_holding-GaveBack :
    (fuel : ℕ) (k : Kernel) (c b : ℕ) (ws : ℕ → List ℕ) (hs xs : List ℕ)
    → k.current_running ≡ c
    → All (λ l. k.overlaps l ≡ false) hs
    → IsQueue k.links (holding c) hs
    → IsQueue k.links ready_queue xs
    → All (λ l. IsQueue k.links (block_queue l) (ws l)) hs
    → Apart ws hs xs
    → All (λ l. length (ws l) ≤ b) hs
    → length hs + b < fuel
    → (k' : Kernel) × (release_holding fuel k ≡ ok k') × GaveBack k c ws hs xs k'
release_holding-GaveBack zero k c b ws hs xs cur own wh wr wq apart few h =
    absurd (omega (arith, h))
release_holding-GaveBack (suc fuel) k c b ws [] xs cur own wh wr wq apart few h = (
  k,
  ended fuel k c cur wh,
  record {
    held = wh;
    readied = subst (IsQueue k.links ready_queue) (sym (append-nil xs)) wr;
    locked = λ m. refl;
    status = λ p. refl;
    same = refl;
  },
)
release_holding-GaveBack (suc fuel) k c b ws (l ∷ hs) xs cur own wh wr wq apart few h =
    let (k1, run, r) =
      round fuel k c l hs (ws l) xs cur own.0 wh wr wq.0 apart.0 apart.1 apart.2 (omega arith)
        (omega arith) in
    let (k2, run', g) =
      release_holding-GaveBack fuel k1 c b ws hs (xs ++ ws l) r.running_task
        (subst (λ f. All (λ m. f m ≡ false) hs) (sym (ap (λ (j : Kernel). j.overlaps) r.same))
          own.1)
        r.held r.readied (others_kept hs hs ws r wh.distinct.0 apart.3 wq.1) apart.4 few.1
        (omega arith) in
    (
      k2,
      released fuel k c l hs (ws l) xs cur own.0 wh wr wq.0 apart.0 apart.1 apart.2 (omega arith)
            (omega arith) k1 run
          ∙ run',
      both r g,
    )
