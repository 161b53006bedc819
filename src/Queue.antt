-- ===== src/Queue.antt =====
-- The intrusive queues of kernel/sched/queue.c. A pointer is a number and NULL is 0; the fields that
-- the queues use are functions from pointers. The link fields are those of `pcb_t`, to which queue.c
-- casts each item.
pub mod Chain
pub mod Fifo
pub mod Frame
pub mod Remove
mod Tests
use tina.Kernel.Outcome.{Outcome, ok, stopped}
use tina.Base.{
  ◌||◌, ℕ, zero, suc, ◌≡◌, Bool, true, false, ◌&&◌, Option, none, some, ◌==◌, if◌then◌else◌, update,
}

pub record Links : Type 0 where
  -- of an item
  pub next : ℕ → ℕ
  pub prev : ℕ → ℕ
  -- of a `queue_t`
  pub head : ℕ → ℕ
  pub tail : ℕ → ℕ

abbrev pub null : ℕ
null = 0

-- `&pcb[0]`; `&pcb[i]` is `pcb + i`.
abbrev pub pcb : ℕ
pcb = 1

unfoldable pub queue_init : Links → ℕ → Links
queue_init s q = record s { head = update s.head q null; tail = update s.tail q null }

unfoldable pub queue_is_empty : Links → ℕ → Bool
queue_is_empty s q = s.head q == null

unfoldable pub queue_push : Links → (q item : ℕ) → Links
queue_push s q item =
    if s.head q == null
    then record s {
      head = update s.head q item;
      tail = update s.tail q item;
      next = update s.next item null;
      prev = update s.prev item null;
    }
    else record s {
      next = update (update s.next (s.tail q) item) item null;
      prev = update s.prev item (s.tail q);
      tail = update s.tail q item;
    }

-- Takes `temp` out of its links: the two writes at the end of `queue_dequeue` and `queue_remove`.
clear_links : Links → ℕ → Links
clear_links s item = record s { prev = update s.prev item null; next = update s.next item null }

unfoldable pub queue_dequeue : Links → ℕ → Links × ℕ
unfolding clear_links
queue_dequeue s q =
    let temp = s.head q in
    if temp == null
    then (s, null)
    else if s.next temp == null
    then (
      clear_links (record s { head = update s.head q null; tail = update s.tail q null }) temp,
      temp,
    )
    else (
      clear_links
          (record s {
            head = update s.head q (s.next temp);
            prev = update s.prev (s.next temp) null;
          })
          temp,
      temp,
    )

-- Does `queue_remove` write through NULL, in the branch that it takes? The last branch writes through
-- `pcb->next`, the link of `pcb[0]`, as the source does.
unfoldable pub writes_null : Links → (q item : ℕ) → Bool
writes_null s q item =
    if (item == s.head q) && (item == s.tail q)
    then false
    else if item == s.head q
    then s.next item == null
    else if item == s.tail q
    then s.prev item == null
    else (s.prev item == null) || (update s.next (s.prev item) (s.next item) pcb == null)

-- The writes of `queue_remove`, and what it returns.
unfoldable pub unlink : Links → (q item : ℕ) → Links × ℕ
unfolding clear_links
unlink s q item =
    if (item == s.head q) && (item == s.tail q)
    then (
      clear_links (record s { head = update s.head q null; tail = update s.tail q null }) item,
      s.next item,
    )
    else if item == s.head q
    then (
      clear_links
          (record s {
            head = update s.head q (s.next item);
            prev = update s.prev (s.next item) null;
          })
          item,
      s.next item,
    )
    else if item == s.tail q
    then (
      clear_links
          (record s {
            tail = update s.tail q (s.prev item);
            next = update s.next (s.prev item) null;
          })
          item,
      s.next item,
    )
    else (
      clear_links
          (record s {
            next = update s.next (s.prev item) (s.next item);
            prev = update s.prev (update s.next (s.prev item) (s.next item) pcb) (s.prev item);
          })
          item,
      s.next item,
    )

unfoldable pub queue_remove : Links → (q item : ℕ) → Outcome (Links × ℕ)
queue_remove s q item = if writes_null s q item then stopped else ok (unlink s q item)

-- The loop of `queue_has`; `none` when the fuel runs out.
has_loop : ℕ → Links → (q item iterator : ℕ) → Option Bool
has_loop zero s q item iterator = none
has_loop (suc fuel) s q item iterator =
    let rest = has_loop fuel s q item (s.next iterator) in
    if iterator == s.tail q
    then some (iterator == item)
    else if iterator == null
    then some false
    else if iterator == item
    then some true
    else rest

unfoldable pub queue_has : ℕ → Links → (q item : ℕ) → Option Bool
unfolding has_loop
queue_has fuel s q item = has_loop fuel s q item (s.head q)
