-- ===== src/Queue/Remove.antt =====
-- `queue_remove`: kernel/sched/queue.c.
use tina.Base.{
  ◌==◌, inr, inl, Bool-cases, ◌⊎◌, ℕ, ◌≡◌, ◌≢◌, refl, sym, ◌∙◌, List, [], ◌∷◌, ◌++◌, append-nil,
  arith, ==_iff, ==_ne, update, update-ne, update-eq, ◌∉◌, Distinct, has-append, not-mem-cons,
  not-mem-append,
}
use tina.Kernel.Outcome.{ok}
use tina.Queue.{Links, null, pcb, unlink, writes_null, queue_remove}
use tina.Queue.Chain.{
  first, last_or, Chain, Back, IsQueue, Chain-update, last_or-mem, last_or-append, ne_of_mem,
}

-- Of a chain cut at an item: the part behind it, and what the links beside it are.
pub Chain-drop : (nx : ℕ → ℕ) (p : ℕ) (ys zs : List ℕ) → Chain nx (ys ++ p ∷ zs) → Chain nx (p ∷ zs)
Chain-drop nx p [] zs c = c
Chain-drop nx p (y ∷ ys) zs c = Chain-drop nx p ys zs c.2

pub Back-at :
    (pv : ℕ → ℕ) (b p : ℕ) (ys zs : List ℕ) → Back pv b (ys ++ p ∷ zs) → pv p ≡ last_or b ys
Back-at pv b p [] zs c = c.0
Back-at pv b p (y ∷ ys) zs c = Back-at pv y p ys zs c.1

Back-next : (pv : ℕ → ℕ) (b p z : ℕ) (ys zs : List ℕ) → Back pv b (ys ++ p ∷ z ∷ zs) → pv z ≡ p
Back-next pv b p z [] zs c = c.1.0
Back-next pv b p z (y ∷ ys) zs c = Back-next pv y p z ys zs c.1

-- Distinct items on the two sides of a cut.
pub Distinct-cut :
    (p : ℕ) (ys zs : List ℕ) → Distinct (ys ++ p ∷ zs) → (p ∉ ys) × (p ∉ zs) × Distinct (ys ++ zs)
Distinct-cut p [] zs d = (refl, d.0, d.1)
Distinct-cut p (y ∷ ys) zs d =
    let (a, b, c) = Distinct-cut p ys zs d.1 in
    ground (arith, has-append y ys (p ∷ zs), has-append y ys zs)

head_ne : (p y : ℕ) (ys zs : List ℕ) → Distinct ((y ∷ ys) ++ p ∷ zs) → p ≢ y
head_ne p y ys zs d = (not-mem-cons y p zs (not-mem-append y ys (p ∷ zs) d.0).1).0

tail_ne : (p y z : ℕ) (ys zs : List ℕ) → Distinct ((y ∷ ys) ++ p ∷ z ∷ zs) → p ≢ last_or z zs
tail_ne p y z ys zs d =
    ne_of_mem p (last_or z zs) (z ∷ zs) (Distinct-cut p (y ∷ ys) (z ∷ zs) d).1 (last_or-mem z zs)

-- The item before the cut now leads to what stood behind it.
Chain-cut :
    (nx : ℕ → ℕ) (p x : ℕ) (ys zs : List ℕ)
    → Distinct ((x ∷ ys) ++ p ∷ zs)
    → Chain nx ((x ∷ ys) ++ p ∷ zs)
    → Chain (update (update nx (last_or x ys) (first zs)) p null) ((x ∷ ys) ++ zs)
Chain-cut nx p x [] zs d c =
    let (px, out) = not-mem-cons x p zs d.0 in
    (
      c.0,
      update-ne (update nx x (first zs)) p null x px ∙ update-eq nx x (first zs),
      Chain-update (update nx x (first zs)) p null zs d.1.0
          (Chain-update nx x (first zs) zs out c.2.2),
    )
Chain-cut nx p x (y ∷ ys) zs d c =
    let (out, rest) = not-mem-append x (y ∷ ys) (p ∷ zs) d.0 in
    (
      c.0,
      update-ne (update nx (last_or y ys) (first zs)) p null x (not-mem-cons x p zs rest).0
          ∙ update-ne nx (last_or y ys) (first zs) x
              (λ e. ne_of_mem x (last_or y ys) (y ∷ ys) out (last_or-mem y ys) (sym e))
          ∙ c.1,
      Chain-cut nx p y ys zs d.1 c.2,
    )

-- The writes of `queue_remove` of an item of a queue whose backward links are right take it out of the list
-- and the item behind it is returned.
pub remove-IsQueue :
    {s : Links} {q : ℕ} (p : ℕ) (ys zs : List ℕ)
    → IsQueue s q (ys ++ p ∷ zs)
    → Back s.prev null (ys ++ p ∷ zs)
    → IsQueue (unlink s q p).0 q (ys ++ zs) × ((unlink s q p).1 ≡ first zs)
unfolding unlink
remove-IsQueue {s} {q} p [] [] w b =
    rw (w.front, w.back, (==_iff p p).1 refl)
      (
        record {
          front = update-eq s.head q null;
          back = update-eq s.tail q null;
          forward = tt;
          distinct = tt;
        },
        w.forward.1,
      )
remove-IsQueue {s} {q} p [] (z ∷ zs) w b =
    rw
      (
        w.front,
        w.back,
        (==_iff p p).1 refl,
        ==_ne p (last_or z zs) (ne_of_mem p _ (z ∷ zs) w.distinct.0 (last_or-mem z zs)),
        w.forward.1,
      )
      (
        record {
          front = update-eq s.head q z;
          back = w.back;
          forward = Chain-update s.next p null (z ∷ zs) w.distinct.0 w.forward.2;
          distinct = w.distinct.1;
        },
        refl,
      )
remove-IsQueue {s} {q} p (y ∷ ys) [] w b =
    rw
      (
        w.front,
        w.back,
        last_or-append null p (y ∷ ys) [],
        Back-at s.prev null p (y ∷ ys) [] b,
        (==_iff p p).1 refl,
        ==_ne p y (head_ne p y ys [] w.distinct),
      )
      (
        record {
          front = w.front;
          back = update-eq s.tail q _ ∙ rw append-nil;
          forward = Chain-cut s.next p y ys [] w.distinct w.forward;
          distinct = (Distinct-cut p (y ∷ ys) [] w.distinct).2;
        },
        (Chain-drop s.next p (y ∷ ys) [] w.forward).1,
      )
remove-IsQueue {s} {q} p (y ∷ ys) (z ∷ zs) w b =
    rw
      (
        w.front,
        w.back,
        last_or-append null p (y ∷ ys) (z ∷ zs),
        Back-at s.prev null p (y ∷ ys) (z ∷ zs) b,
        (Chain-drop s.next p (y ∷ ys) (z ∷ zs) w.forward).1,
        ==_ne p y (head_ne p y ys (z ∷ zs) w.distinct),
        ==_ne p (last_or z zs) (tail_ne p y z ys zs w.distinct),
      )
      (
        record {
          front = w.front;
          back = w.back ∙ last_or-append y p ys (z ∷ zs) ∙ sym (last_or-append y z ys zs);
          forward = Chain-cut s.next p y ys (z ∷ zs) w.distinct w.forward;
          distinct = (Distinct-cut p (y ∷ ys) (z ∷ zs) w.distinct).2;
        },
        refl,
      )

last_or-null :
    (nx : ℕ → ℕ) (y : ℕ) (ys zs : List ℕ) → Chain nx ((y ∷ ys) ++ zs) → last_or y ys ≢ null
last_or-null nx y [] zs c = c.0
last_or-null nx y (x ∷ ys) zs c = last_or-null nx x ys zs c.2

pcb_next : (s : Links) (p z : ℕ) → z ≢ null → s.next pcb ≢ null → update s.next p z pcb ≢ null
pcb_next s p z nz nn = elim (Bool-cases (p == pcb)) [ inl e ↦ rw e nz | inr e ↦ rw e nn ]

some_cons : {x : ℕ} {xs : List ℕ} → x ∷ xs ≢ []
some_cons e = cc

-- With neighbours on both sides `queue_remove` writes through the `next` of `pcb[0]`.
abbrev pub Removable : Links → (ys zs : List ℕ) → Type 0
Removable s ys zs = (ys ≡ []) ⊎ ((zs ≡ []) ⊎ (s.next pcb ≢ null))

pub remove-unlink :
    {s : Links} {q : ℕ} (p : ℕ) (ys zs : List ℕ)
    → IsQueue s q (ys ++ p ∷ zs)
    → Back s.prev null (ys ++ p ∷ zs)
    → Removable s ys zs
    → queue_remove s q p ≡ ok (unlink s q p)
unfolding queue_remove writes_null
remove-unlink {s} {q} p [] [] w b r = rw (w.front, w.back, (==_iff p p).1 refl) refl
remove-unlink {s} {q} p [] (z ∷ zs) w b r =
    rw
      (
        w.front,
        w.back,
        (==_iff p p).1 refl,
        ==_ne p (last_or z zs) (ne_of_mem p _ (z ∷ zs) w.distinct.0 (last_or-mem z zs)),
        w.forward.1,
        ==_ne z null w.forward.2.0,
      )
      refl
remove-unlink {s} {q} p (y ∷ ys) [] w b r =
    rw
      (
        w.front,
        w.back,
        last_or-append null p (y ∷ ys) [],
        Back-at s.prev null p (y ∷ ys) [] b,
        (==_iff p p).1 refl,
        ==_ne p y (head_ne p y ys [] w.distinct),
        ==_ne (last_or y ys) null (last_or-null s.next y ys (p ∷ []) w.forward),
      )
      refl
remove-unlink {s} {q} p (y ∷ ys) (z ∷ zs) w b r =
    rw
      (
        w.front,
        w.back,
        last_or-append null p (y ∷ ys) (z ∷ zs),
        Back-at s.prev null p (y ∷ ys) (z ∷ zs) b,
        (Chain-drop s.next p (y ∷ ys) (z ∷ zs) w.forward).1,
        ==_ne p y (head_ne p y ys (z ∷ zs) w.distinct),
        ==_ne p (last_or z zs) (tail_ne p y z ys zs w.distinct),
        ==_ne (last_or y ys) null (last_or-null s.next y ys (p ∷ z ∷ zs) w.forward),
        ==_ne (update s.next (last_or y ys) z pcb) null (
            pcb_next s (last_or y ys) z (Chain-drop s.next p (y ∷ ys) (z ∷ zs) w.forward).2.0
              (elim r [
                | inl e ↦ absurd (some_cons e)
                | inr (inl e) ↦ absurd (some_cons e)
                | inr (inr h) ↦ h
              ])),
      )
      refl

-- If an item with neighbours on both sides is removed from a queue whose backward links are right,
-- `pcb[0]` does not stand just before it, and the `next` of `pcb[0]` is not the item behind it, the
-- `prev` of that item still names the removed one, so the backward links are wrong.
pub remove_stale :
    {s : Links} {q : ℕ} (p y z : ℕ) (ys zs : List ℕ)
    → IsQueue s q ((y ∷ ys) ++ p ∷ z ∷ zs)
    → Back s.prev null ((y ∷ ys) ++ p ∷ z ∷ zs)
    → last_or y ys ≢ pcb
    → s.next pcb ≢ z
    → ((unlink s q p).0.prev z ≡ p) × (¬ Back (unlink s q p).0.prev null ((y ∷ ys) ++ z ∷ zs))
unfolding unlink
remove_stale {s} {q} p y z ys zs w b before other = (
  stale,
  λ back.
      ne_of_mem p (last_or y ys) (y ∷ ys) cut.0 (last_or-mem y ys)
        (sym stale ∙ Back-at (unlink s q p).0.prev null z (y ∷ ys) zs back),
)
  where
    cut : (p ∉ (y ∷ ys)) × (p ∉ (z ∷ zs)) × Distinct ((y ∷ ys) ++ z ∷ zs)
    cut = Distinct-cut p (y ∷ ys) (z ∷ zs) w.distinct

    written : ℕ
    written = update s.next (last_or y ys) z pcb

    stale : (unlink s q p).0.prev z ≡ p
    stale =
        rw
          (
            w.front,
            w.back,
            last_or-append null p (y ∷ ys) (z ∷ zs),
            Back-at s.prev null p (y ∷ ys) (z ∷ zs) b,
            (Chain-drop s.next p (y ∷ ys) (z ∷ zs) w.forward).1,
            ==_ne p y (head_ne p y ys (z ∷ zs) w.distinct),
            ==_ne p (last_or z zs) (tail_ne p y z ys zs w.distinct),
          )
          (update-ne (update s.prev written (last_or y ys)) p null z
              (λ e. (not-mem-cons p z zs cut.1).0 (sym e))
            ∙ update-ne s.prev written (last_or y ys) z
                (λ e. other (sym (update-ne s.next (last_or y ys) z pcb before) ∙ e))
            ∙ Back-next s.prev null p z (y ∷ ys) zs b)
