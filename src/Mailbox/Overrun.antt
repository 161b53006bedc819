-- ===== src/Mailbox/Overrun.antt =====
-- Two senders of one box: libs/mailbox.c.
use tina.Base.{
  ℕ, zero, suc, ◌+◌, ◌-◌, ◌≤◌, ◌<◌, ◌≡◌, refl, sym, subst, List, ◌++◌, arith, ==_iff, update,
}
use tina.Mailbox.{Mailbox, Boxes, buffer_size, one_init}
use tina.Mailbox.Tasks.{
  Sender, Receiver, Send, Recv, SharedBox, sender, receiver, Reach, start, later, ready, storing,
  listening,
}

-- A state between the messages of two senders, when no one has received.
record AreIdle (s : SharedBox) (n w r : ℕ) : Type 0 where
  wp : s.box.wp ≡ n
  wsem : s.box.wsem ≡ w
  rsem : s.box.rsem ≡ r
  first : s.senders 0 ≡ ready
  second : s.senders 1 ≡ ready
  receiver : s.receivers 0 ≡ listening

abbrev Sent : (b : Boxes) (i m n : ℕ) → Type 0
Sent b i m n = (s : SharedBox) × Reach b i 2 m s × AreIdle s n (buffer_size - n) n

move :
    {b : Boxes} {i m : ℕ} {s : SharedBox} {box : Mailbox} {p q : Sender} {cs : List ℕ}
    → Reach b i 2 m s
    → (k : ℕ) → k < 2
    → s.senders k ≡ p
    → Send s.box p box q cs
    → Reach b i 2 m (record s { box = box; senders = update s.senders k q; sent = s.sent ++ cs })
move {m} {s} {box} {q} {cs} r k l e mv =
    later r (sender k l (subst (λ p. Send s.box p box q cs) (sym e) mv))

-- A whole message of one character by the first sender.
send_one : {b : Boxes} {i m n : ℕ} → (ch : ℕ) → n < 31 → Sent b i m n → Sent b i m (n + 1)
send_one {n} ch l (s, r, h) = (
  _,
  move
      (move
        (move (move r 0 (omega arith) h.first (Send.reduce ch)) 0 (omega arith) refl
          (Send.down (omega (arith, h.wsem, l))))
        0 (omega arith) refl Send.store)
      0 (omega arith) refl Send.up,
  record {
    wp = omega (arith, h.wp, l);
    wsem = omega (arith, h.wsem, l);
    first = refl;
    second = h.second;
    receiver = h.receiver;
    rsem = omega (arith, h.rsem);
  },
)

send_many : {b : Boxes} {i m : ℕ} → (ch n : ℕ) → n ≤ 31 → Sent b i m n
unfolding one_init
send_many {b} {i} ch zero l = (
  _,
  start,
  rw ((==_iff i i).1 refl) (record {
    wp = refl;
    wsem = refl;
    first = refl;
    second = refl;
    receiver = refl;
    rsem = refl;
  }),
)
send_many {b} {i} {m} ch (suc n) l =
    let e : n + 1 ≡ suc n = omega arith in
    subst (λ k. Sent b i m k) e (send_one ch (omega (arith, l)) (send_many ch n (omega (arith, l))))

listen :
    {b : Boxes} {i n : ℕ} {s : SharedBox} {box : Mailbox} {p q : Receiver} {cs : List ℕ}
    → Reach b i n 1 s
    → s.receivers 0 ≡ p
    → Recv s.box p box q cs
    → Reach b i n 1 (record s { box = box; receivers = update s.receivers 0 q; got = s.got ++ cs })
listen {s} {box} {q} {cs} r e mv =
    later r (receiver 0 (omega arith) (subst (λ p. Recv s.box p box q cs) (sym e) mv))

-- The receiver takes the first of 31 characters.
take_one :
    {b : Boxes} {i : ℕ} → Sent b i 1 31 → (s : SharedBox) × Reach b i 2 1 s × AreIdle s 31 2 30
take_one (s, r, h) = (
  _,
  listen
      (listen (listen (listen r h.receiver Recv.reduce) refl (Recv.down (omega (arith, h.rsem))))
        refl Recv.load)
      refl Recv.up,
  record {
    wp = h.wp;
    wsem = omega (arith, h.wsem);
    rsem = omega (arith, h.rsem);
    first = h.first;
    second = h.second;
    receiver = refl;
  },
)

-- With two senders and a receiver the sender that waited can stand before its store with the position
-- 32, behind the buffer, whatever the box and the two characters: `mbox_send` reduces the position
-- before it waits.
pub two_senders :
    (b : Boxes) (i c d : ℕ)
    → (s : SharedBox) × Reach b i 2 1 s × (s.senders 1 ≡ storing d) × (s.box.wp ≡ buffer_size)
two_senders b i c d =
    let (s, q, g) = take_one (send_many {b = b} {i = i} {m = 1} c 31 (omega arith)) in
    (
      _,
      move
          (move
            (move
              (move (move q 0 (omega arith) g.first (Send.reduce c)) 1 (omega arith) g.second
                (Send.reduce d))
              1 (omega arith) refl (Send.down (omega (arith, g.wsem))))
            0 (omega arith) refl (Send.down (omega (arith, g.wsem))))
          0 (omega arith) refl Send.store,
      refl,
      omega (arith, g.wp),
    )
