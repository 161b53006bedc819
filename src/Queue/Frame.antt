-- ===== src/Queue/Frame.antt =====
-- An operation on one queue leaves the others alone: kernel/sched/queue.c.
use tina.Base.{
  ℕ, ◌≡◌, ◌≢◌, inl, inr, refl, sym, ◌∙◌, false, ◌&&◌, false≢true, List, [], ◌∷◌, ◌++◌, arith, ◌==◌,
  ==_iff, ==_ne, Bool-cases, update, update-ne, ◌∈◌, ◌∉◌, not-mem-cons, mem_middle, mem-append_left,
}
use tina.Queue.{unlink, Links, null, queue_push, queue_dequeue}
use tina.Queue.Fifo.{pushed}
use tina.Queue.Remove.{Back-at}
use tina.Queue.Chain.{Back, last_or, IsQueue, IsQueue-frame, Disjoint, ne_of_mem, last_or-mem}

module _ {s : Links} {q r : ℕ} {ys : List ℕ} (qr : q ≢ r) (other : IsQueue s r ys) where
  -- `queue_push` on one queue keeps every other queue that shares no item with it and does not hold the
  -- new item.
  pub push-frame :
      (p : ℕ) (xs : List ℕ)
      → IsQueue s q xs
      → Disjoint xs ys
      → p ∉ ys
      → IsQueue (queue_push s q p) r ys
  push-frame p [] w apart out =
      unfold queue_push in
      rw w.front (
        IsQueue-frame _ (update-ne s.head q p r qr) (update-ne s.tail q p r qr)
          (λ a i. update-ne s.next p null a (ne_of_mem p a ys out i)) other)
  push-frame p (x ∷ xs) w apart out =
      rw (pushed s q p x (last_or x xs) w.front w.forward.0 w.back) (
        IsQueue-frame _ refl (update-ne s.tail q p r qr)
          (λ a i.
            update-ne (update s.next (last_or x xs) p) p null a (ne_of_mem p a ys out i)
            ∙ update-ne s.next (last_or x xs) p a
                (ne_of_mem (last_or x xs) a ys (apart (last_or x xs) (last_or-mem x xs)) i))
          other)

  -- `queue_dequeue` on `q` keeps a queue `r` that shares no item with `q`.
  pub dequeue-frame :
      (xs : List ℕ) → IsQueue s q xs → Disjoint xs ys → IsQueue (queue_dequeue s q).0 r ys
  unfolding queue_dequeue
  dequeue-frame [] w apart = rw w.front other
  dequeue-frame (x ∷ xs) w apart = elim (Bool-cases (s.next x == null)) [
    | inl e ↦
        rw (w.front, ==_ne x null w.forward.0, e)
          (IsQueue-frame _ (update-ne s.head q null r qr) (update-ne s.tail q null r qr) same other)
    | inr e ↦
        rw (w.front, ==_ne x null w.forward.0, e)
          (IsQueue-frame _ (update-ne s.head q (s.next x) r qr) refl same other)
  ]
    where
      same : (a : ℕ) → a ∈ ys → update s.next x null a ≡ s.next a
      same a i = update-ne s.next x null a (ne_of_mem x a ys (apart x (ground arith)) i)

-- The item before one that is not the first belongs to the same queue.
prev_ne :
    {s : Links} {q : ℕ} (os : List ℕ) (p : ℕ) (ys zs : List ℕ)
    → IsQueue s q (ys ++ p ∷ zs)
    → Back s.prev null (ys ++ p ∷ zs)
    → Disjoint (ys ++ p ∷ zs) os
    → p ≢ s.head q
    → (a : ℕ) → a ∈ os
    → s.prev p ≢ a
prev_ne os p [] zs w b apart ne a i e = ne (sym w.front)
prev_ne {s} os p (y ∷ ys) zs w b apart ne a i e =
    ne_of_mem (last_or y ys) a os
      (apart (last_or y ys) (mem-append_left (last_or y ys) (y ∷ ys) (p ∷ zs) (last_or-mem y ys))) i
      (sym (Back-at s.prev null p (y ∷ ys) zs b) ∙ e)

-- The writes of `queue_remove` on `q` keep a queue `r` that shares no item with `q`.
pub remove-frame :
    {s : Links} {q r : ℕ} {os : List ℕ} (p : ℕ) (ys zs : List ℕ)
    → q ≢ r
    → IsQueue s r os
    → IsQueue s q (ys ++ p ∷ zs)
    → Back s.prev null (ys ++ p ∷ zs)
    → Disjoint (ys ++ p ∷ zs) os
    → IsQueue (unlink s q p).0 r os
unfolding unlink
remove-frame {s} {q} {r} {os} p ys zs qr other w b apart =
    elim (Bool-cases ((p == s.head q) && (p == s.tail q))) [
      | inl e ↦
          rw e (
            IsQueue-frame _ (update-ne s.head q null r qr) (update-ne s.tail q null r qr) one other)
      | inr e ↦ elim (Bool-cases (p == s.head q)) [
        | inl h ↦ rw (e, h) (IsQueue-frame _ (update-ne s.head q (s.next p) r qr) refl one other)
        | inr h ↦ elim (Bool-cases (p == s.tail q)) [
          | inl t ↦
              rw (e, h, t)
                (IsQueue-frame _ refl (update-ne s.tail q (s.prev p) r qr) (two null h) other)
          | inr t ↦ rw (e, h, t) (IsQueue-frame _ refl refl (two (s.next p) h) other)
        ]
      ]
    ]
  where
    one : (a : ℕ) → a ∈ os → update s.next p null a ≡ s.next a
    one a i = update-ne s.next p null a (ne_of_mem p a os (apart p (mem_middle p ys zs)) i)

    two :
        (v : ℕ)
        → (p == s.head q) ≡ false
        → (a : ℕ) → a ∈ os
        → update (update s.next (s.prev p) v) p null a ≡ s.next a
    two v h a i =
        update-ne (update s.next (s.prev p) v) p null a
          (ne_of_mem p a os (apart p (mem_middle p ys zs)) i)
        ∙ update-ne s.next (s.prev p) v a
            (prev_ne os p ys zs w b apart (λ e. false≢true (sym h ∙ (==_iff _ _).1 e)) a i)

-- The backward link of an item that is not pushed is kept.
pub push-prev : (s : Links) (q p x : ℕ) → x ≢ p → (queue_push s q p).prev x ≡ s.prev x
unfolding queue_push
push-prev s q p x ne = elim (Bool-cases (s.head q == null)) [
  | inl e ↦ rw e (update-ne s.prev p null x (λ f. ne (sym f)))
  | inr e ↦ rw e (update-ne s.prev p (s.tail q) x (λ f. ne (sym f)))
]

-- The backward link of an item that is not in the queue is kept when the queue loses its first item.
pub dequeue-prev :
    {s : Links} {q : ℕ} (xs : List ℕ) (x : ℕ)
    → IsQueue s q xs
    → x ∉ xs
    → (queue_dequeue s q).0.prev x ≡ s.prev x
unfolding queue_dequeue
dequeue-prev [] x w out = rw w.front refl
dequeue-prev {s} (y ∷ []) x w out =
    rw (w.front, ==_ne y null w.forward.0, w.forward.1)
      (update-ne s.prev y null x (not-mem-cons x y [] out).0)
dequeue-prev {s} (y ∷ z ∷ ys) x w out =
    rw (w.front, ==_ne y null w.forward.0, w.forward.1, ==_ne z null w.forward.2.0)
      (update-ne (update s.prev z null) y null x (not-mem-cons x y (z ∷ ys) out).0
        ∙ update-ne s.prev z null x (not-mem-cons x z ys (not-mem-cons x y (z ∷ ys) out).1).0)
