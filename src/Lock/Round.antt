-- ===== src/Lock/Round.antt =====
-- One round of the loop of `release_holding`, kernel/sched/sched.c.
use tina.Base.{
  ℕ, suc, ◌<◌, ◌≡◌, ◌≢◌, inl, inr, refl, sym, ap, subst, ◌∙◌, Bool, false, Option, none, some, List,
  [], ◌∷◌, ◌++◌, append-nil, arith, if◌then◌else◌, Bool-cases, update, length, has, ◌∉◌,
}
use tina.Queue.{null, queue_is_empty, queue_dequeue}
use tina.Queue.Chain.{IsQueue, Disjoint, Disjoint-sym, Disjoint-tail}
use tina.Queue.Fifo.{is_empty_lem, dequeue-cons, has_lem}
use tina.Queue.Frame.{dequeue-frame}
use tina.Kernel.Outcome.{ok, out_of_fuel, ◌>>=◌}
use tina.Kernel.{Kernel, ready, ready_queue, holding, block_queue}
use tina.Sched.{drop_held, has_held, do_mutex_lock_release, release_holding}
use tina.Lock.Mutex.{release-drop}
use tina.Sched.Wake.{Woken, unblock_all_lem}

not_held :
    (fuel : ℕ) (k : Kernel) (l : ℕ) (hs : List ℕ)
    → l ≢ null
    → IsQueue k.links (holding k.current_running) hs
    → l ∉ hs
    → length hs < fuel
    → has_held fuel k l ≡ ok false
unfolding has_held
not_held fuel k l hs valid w new h =
    ap (λ (o : Option Bool). elim o [ none ↦ out_of_fuel | some b ↦ ok b ])
      (has_lem fuel l hs w valid h ∙ ap some new)

-- The release of a lock that is not in `holding` any more.
release-Woken :
    (fuel : ℕ) (k : Kernel) (l : ℕ) (hs ws xs : List ℕ)
    → l ≢ null
    → IsQueue k.links (holding k.current_running) hs
    → l ∉ hs
    → length hs < fuel
    → IsQueue k.links (block_queue l) ws
    → IsQueue k.links ready_queue xs
    → Disjoint ws xs
    → length ws < fuel
    → (k' : Kernel) × (do_mutex_lock_release fuel k l ≡ ok k')
      × Woken (record k { locked = update k.locked l false }) (block_queue l) ws [] xs k'
unfolding drop_held
release-Woken fuel k l hs ws xs valid wh new lh wq wr apart lw =
    let (k', run, b) =
      unblock_all_lem fuel {k = record k { locked = update k.locked l false }} ws xs wq wr
        (omega arith) apart lw in
    (k', release-drop fuel k k l false (not_held fuel k l hs valid wh new lh) refl ∙ run, b)

-- One round of the loop: lock `l` leaves `holding`, and is released.
pub record Round (k : Kernel) (c l : ℕ) (hs ws xs : List ℕ) (k' : Kernel) : Type 0 where
  pub running_task : k'.current_running ≡ c
  pub held : IsQueue k'.links (holding c) hs
  pub readied : IsQueue k'.links ready_queue (xs ++ ws)
  pub locked : k'.locked ≡ update k.locked l false
  pub status : (p : ℕ) → k'.status p ≡ (if has p ws then ready else k.status p)
  pub same :
      k' ≡ record k { links = k'.links; locked = k'.locked; status = k'.status; chan = k'.chan }
  pub others :
      (m : ℕ) (os : List ℕ)
      → l ≢ m
      → Disjoint (l ∷ hs) os
      → Disjoint ws os
      → Disjoint xs os
      → IsQueue k.links (block_queue m) os
      → IsQueue k'.links (block_queue m) os

goes_on :
    (fuel : ℕ) (k : Kernel) (c : ℕ)
    → k.current_running ≡ c
    → queue_is_empty k.links (holding c) ≡ false
    → k.overlaps (queue_dequeue k.links (holding c)).1 ≡ false
    → release_holding (suc fuel) k ≡ (
        do_mutex_lock_release fuel
          (record k { links = (queue_dequeue k.links (holding c)).0 })
          (queue_dequeue k.links (holding c)).1
        >>= release_holding fuel)
unfolding release_holding
goes_on fuel k c cur e own = rw (cur, e, own) refl

no_nil : {l : ℕ} {hs : List ℕ} → l ∷ hs ≢ []
no_nil e = cc

module _ (fuel : ℕ) (k : Kernel) (c l : ℕ) (hs ws xs : List ℕ) (cur : k.current_running ≡ c)
    (own : k.overlaps l ≡ false) (wh : IsQueue k.links (holding c) (l ∷ hs))
    (wr : IsQueue k.links ready_queue xs) (wq : IsQueue k.links (block_queue l) ws)
    (hx : Disjoint (l ∷ hs) xs) (hw : Disjoint (l ∷ hs) ws) (wx : Disjoint ws xs)
    (lh : length hs < fuel) (lw : length ws < fuel) where
  abbrev pub taken : Kernel
  taken = record k { links = (queue_dequeue k.links (holding c)).0 }

  pub round : (k' : Kernel) × (do_mutex_lock_release fuel taken l ≡ ok k') × Round k c l hs ws xs k'
  round =
      let after : IsQueue taken.links (holding c) hs = (dequeue-cons hs wh).1 in
      let (k', run, b) =
        release-Woken fuel taken l hs ws xs wh.forward.0
          (subst (λ p. IsQueue taken.links (holding p) hs) (sym cur) after) wh.distinct.0 lh
          (dequeue-frame (omega arith) wq (l ∷ hs) wh hw)
          (dequeue-frame (omega arith) wr (l ∷ hs) wh hx) wx lw in
      (
        k',
        run,
        record {
          running_task = ap (λ (j : Kernel). j.current_running) b.same ∙ cur;
          held =
              b.others (holding c) hs (omega arith) (omega arith)
                (subst (λ us. Disjoint us hs) (sym (append-nil ws))
                  (Disjoint-sym hs ws (Disjoint-tail l hs ws hw)))
                (Disjoint-sym hs xs (Disjoint-tail l hs xs hx)) after;
          readied = b.readied;
          locked = ap (λ (j : Kernel). j.locked) b.same;
          status = b.status;
          same =
              subst
                (λ f.
                  k'
                  ≡ record k { links = k'.links; locked = f; status = k'.status; chan = k'.chan })
                (sym (ap (λ (j : Kernel). j.locked) b.same)) b.same;
          others = λ m os ne dh dw dx other.
              b.others (block_queue m) os (λ e. ne (omega (arith, e))) (omega arith)
                (subst (λ us. Disjoint us os) (sym (append-nil ws)) dw) dx
                (dequeue-frame (omega arith) other (l ∷ hs) wh dh);
        },
      )

  pub released :
      (k' : Kernel)
      → do_mutex_lock_release fuel taken l ≡ ok k'
      → release_holding (suc fuel) k ≡ release_holding fuel k'
  released k' run = elim (Bool-cases (queue_is_empty k.links (holding c))) [
    | inl e ↦ absurd (no_nil ((is_empty_lem (l ∷ hs) wh).0 e))
    | inr e ↦
        goes_on fuel k c cur e (ap k.overlaps (dequeue-cons hs wh).0 ∙ own)
        ∙ ap (λ j. do_mutex_lock_release fuel taken j >>= release_holding fuel)
            (dequeue-cons hs wh).0
        ∙ ap (λ o. o >>= release_holding fuel) run
  ]
