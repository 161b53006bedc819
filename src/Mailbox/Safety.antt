-- ===== src/Mailbox/Safety.antt =====
-- One sender and one receiver share a box as a queue, and two senders do not: libs/mailbox.c.
use tina.Base.{
  ℕ, zero, suc, ◌+◌, ◌-◌, ◌%◌, ◌≤◌, ◌≡◌, ◌⊎◌, inl, inr, refl, sym, ap, ap₂, ◌∙◌, List, [], ◌∷◌,
  ◌++◌, append-nil, append_assoc, arith, ==_iff, dec_lt, update, length,
}
use tina.Mailbox.{Mailbox, Boxes, buffer_size, one_init}
use tina.Mailbox.Ring.{ring, ring-push, ring-pop, ring-same, length-ring}
use tina.Mailbox.Tasks.{
  Sender, Receiver, Send, Recv, SharedBox, sender, receiver, Reach, start, later, ready, reduced,
  storing, stored, listening, wanting, loading, loaded,
}

-- The places and characters that a task has counted already, and those that it has yet to count.
abbrev held : Sender → ℕ
held (storing _) = 1
held _ = 0

abbrev uncounted : Sender → ℕ
uncounted stored = 1
uncounted _ = 0

abbrev untaken : Receiver → ℕ
untaken loading = 1
untaken _ = 0

abbrev freed : Receiver → ℕ
freed loaded = 1
freed _ = 0

-- The largest position in front of a statement: an access is inside the buffer up to 31.
abbrev pub last_wp : Sender → ℕ
last_wp (reduced _) = 31
last_wp (storing _) = 31
last_wp _ = 32

abbrev pub last_rp : Receiver → ℕ
last_rp wanting = 31
last_rp loading = 31
last_rp _ = 32

-- The characters stored and not loaded.
abbrev unread : Mailbox → Sender → Receiver → ℕ
unread box p q = box.rsem + uncounted p + untaken q

record IsShared (box : Mailbox) (p : Sender) (q : Receiver) (sent got : List ℕ) : Type 0 where
  room : box.wsem + unread box p q + held p + freed q ≡ buffer_size
  ends : (box.rp + unread box p q) % buffer_size ≡ box.wp % buffer_size
  inside_w : box.wp ≤ last_wp p
  inside_r : box.rp ≤ last_rp q
  same : got ++ ring box.rp (unread box p q) box.buffer ≡ sent

Send-IsShared :
    {box box' : Mailbox} {p p' : Sender} {q : Receiver} {sent got cs : List ℕ}
    → IsShared box p q sent got
    → Send box p box' p' cs
    → IsShared box' p' q (sent ++ cs) got
Send-IsShared {box} {q} {sent} {got} h (Send.reduce ch) = record {
  room = h.room;
  ends = omega (arith, h.ends);
  inside_w = omega arith;
  inside_r = h.inside_r;
  same = h.same ∙ sym (append-nil sent);
}
Send-IsShared {box} {q} {sent} {got} h (Send.down l) = record {
  room = omega (arith, h.room, l);
  ends = h.ends;
  inside_w = h.inside_w;
  inside_r = h.inside_r;
  same = h.same ∙ sym (append-nil sent);
}
Send-IsShared {box} {q} {sent} {got} h (Send.store {ch}) = record {
  room = omega (arith, h.room);
  ends = omega (arith, h.ends);
  inside_w = omega (arith, h.inside_w);
  inside_r = h.inside_r;
  same =
      let e : box.rsem + 1 + untaken q ≡ unread box (storing ch) q + 1 = omega arith in
      ap (λ n. got ++ ring box.rp n (update box.buffer box.wp ch)) e
      ∙ ap (λ cs. got ++ cs)
          (ring-push box.rp (unread box (storing ch) q) box.buffer box.wp ch (omega (arith, h.room))
            (omega (arith, h.ends, h.inside_w)))
      ∙ sym (append_assoc got (ring box.rp (unread box (storing ch) q) box.buffer) (ch ∷ []))
      ∙ ap (λ cs. cs ++ ch ∷ []) h.same;
}
Send-IsShared {box} {q} {sent} {got} h Send.up = record {
  room = omega (arith, h.room);
  ends = omega (arith, h.ends);
  inside_w = h.inside_w;
  inside_r = h.inside_r;
  same =
      let e : box.rsem + 1 + 0 + untaken q ≡ unread box stored q = omega arith in
      ap (λ n. got ++ ring box.rp n box.buffer) e ∙ h.same ∙ sym (append-nil sent);
}

Recv-IsShared :
    {box box' : Mailbox} {p : Sender} {q q' : Receiver} {sent got cs : List ℕ}
    → IsShared box p q sent got
    → Recv box q box' q' cs
    → IsShared box' p q' sent (got ++ cs)
Recv-IsShared {box} {p} {sent} {got} h Recv.reduce = record {
  room = h.room;
  ends = omega (arith, h.ends);
  inside_w = h.inside_w;
  inside_r = omega arith;
  same =
      ap₂ (λ cs ds. cs ++ ds) (append-nil got)
        (ring-same (box.rp % buffer_size) box.rp (unread box p listening) box.buffer (omega arith))
      ∙ h.same;
}
Recv-IsShared {box} {p} {sent} {got} h (Recv.down l) = record {
  room = omega (arith, h.room, l);
  ends = omega (arith, h.ends, l);
  inside_w = h.inside_w;
  inside_r = h.inside_r;
  same =
      let e : box.rsem - 1 + uncounted p + 1 ≡ unread box p wanting = omega (arith, l) in
      ap₂ (λ cs n. cs ++ ring box.rp n box.buffer) (append-nil got) e ∙ h.same;
}
Recv-IsShared {box} {p} {sent} {got} h Recv.load = record {
  room = omega (arith, h.room);
  ends = omega (arith, h.ends);
  inside_w = h.inside_w;
  inside_r = omega (arith, h.inside_r);
  same =
      append_assoc got (box.buffer box.rp ∷ []) (ring (box.rp + 1) (unread box p loaded) box.buffer)
      ∙ ap (λ cs. got ++ cs)
          (sym (
            ring-pop box.rp (unread box p loading) box.buffer (omega arith)
            ∙ ap₂ (λ j n. box.buffer j ∷ ring (box.rp + 1) n box.buffer) (omega (arith, h.inside_r))
                (omega arith)))
      ∙ h.same;
}
Recv-IsShared {box} {p} {sent} {got} h Recv.up = record {
  room = omega (arith, h.room);
  ends = h.ends;
  inside_w = h.inside_w;
  inside_r = h.inside_r;
  same = ap (λ cs. cs ++ ring box.rp (unread box p loaded) box.buffer) (append-nil got) ∙ h.same;
}

Reach-IsShared :
    {b : Boxes} {i : ℕ} {s : SharedBox}
    → Reach b i 1 1 s
    → IsShared s.box (s.senders 0) (s.receivers 0) s.sent s.got
unfolding one_init
Reach-IsShared {b} {i} start = rw ((==_iff i i).1 refl) (record {
  room = refl;
  ends = refl;
  inside_w = omega arith;
  inside_r = omega arith;
  same = refl;
})
Reach-IsShared (later r (sender zero l mv)) = Send-IsShared (Reach-IsShared r) mv
Reach-IsShared (later r (sender (suc k) l mv)) = absurd (omega (arith, l))
Reach-IsShared (later r (receiver zero l mv)) = Recv-IsShared (Reach-IsShared r) mv
Reach-IsShared (later r (receiver (suc k) l mv)) = absurd (omega (arith, l))

-- While one sender and one receiver use a box after `one_init`, statement by statement and in any
-- order, both positions are at most 31 in front of an access and never above 32, and the characters
-- loaded, followed by at most 32 that wait, are the characters stored, in order.
pub in_order :
    {b : Boxes} {i : ℕ} {s : SharedBox}
    → Reach b i 1 1 s
    → (s.box.wp ≤ last_wp (s.senders 0))
      × (s.box.rp ≤ last_rp (s.receivers 0))
      × ((waiting : List ℕ) × (length waiting ≤ buffer_size) × (s.got ++ waiting ≡ s.sent))
in_order {s} r = (
  h.inside_w,
  h.inside_r,
  (
    waiting,
    rw (length-ring s.box.rp (unread s.box (s.senders 0) (s.receivers 0)) s.box.buffer)
        (omega (arith, h.room)),
    h.same,
  ),
)
  where
    h : IsShared s.box (s.senders 0) (s.receivers 0) s.sent s.got
    h = Reach-IsShared r

    waiting : List ℕ
    waiting = ring s.box.rp (unread s.box (s.senders 0) (s.receivers 0)) s.box.buffer

-- A task of two has a next statement.
abbrev pub Runs : Mailbox → Sender → Receiver → Type 0
Runs box p q =
    ((box' : Mailbox) × (p' : Sender) × (cs : List ℕ) × Send box p box' p' cs)
    ⊎ ((box' : Mailbox) × (q' : Receiver) × (cs : List ℕ) × Recv box q box' q' cs)

shared-Runs :
    (box : Mailbox) (p : Sender) (q : Receiver)
    → box.wsem + unread box p q + held p + freed q ≡ buffer_size
    → Runs box p q
shared-Runs box ready q h = inl (_, _, _, Send.reduce 0)
shared-Runs box (storing ch) q h = inl (_, _, _, Send.store)
shared-Runs box stored q h = inl (_, _, _, Send.up)
shared-Runs box (reduced ch) listening h = inr (_, _, _, Recv.reduce)
shared-Runs box (reduced ch) loading h = inr (_, _, _, Recv.load)
shared-Runs box (reduced ch) loaded h = inr (_, _, _, Recv.up)
shared-Runs box (reduced ch) wanting h = elim (dec_lt 0 box.wsem) [
  | yes l ↦ inl (_, _, _, Send.down l)
  | no l ↦ inr (_, _, _, Recv.down (omega (arith, h, l)))
]

-- One sender and one receiver of a box after `one_init` never wait for each other: in every reachable
-- state one of them has a next statement.
pub no_deadlock :
    {b : Boxes} {i : ℕ} {s : SharedBox} → Reach b i 1 1 s → Runs s.box (s.senders 0) (s.receivers 0)
no_deadlock {s} r =
    shared-Runs s.box (s.senders 0) (s.receivers 0) (IsShared.room (Reach-IsShared r))
