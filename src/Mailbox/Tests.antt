-- ===== src/Mailbox/Tests.antt =====
-- Runs of libs/mailbox.c.
use tina.Base.{ℕ, List, length, ◌≤◌, ◌++◌, ◌≡◌, refl, [], ◌∷◌, arith}
use tina.Mailbox.{Mailbox, Boxes, one_init, no_name, mbox_open, mbox_send, mbox_recv, recv_ch}
use tina.Mailbox.Ring.{IsBox, SentAll, ReceivedAll, transfer_lem}
use tina.Mailbox.Tasks.{SharedBox, Reach, start, later, sender, receiver, Send, Recv, storing}
use tina.Mailbox.Safety.{last_wp, last_rp, in_order, Runs, no_deadlock}
use tina.Mailbox.Overrun.{two_senders}
use tina.Mailbox.Open.{Opened, mbox_open-Opened}

-- A box that holds two characters at the end of its buffer.
abbrev wrapping : Mailbox
wrapping = record {
  boxid = 0;
  ref_count = 1;
  name = b'a' ∷ [];
  volume = 32;
  wp = 32;
  rp = 30;
  buffer = λ j. j;
  rsem = 2;
  wsem = 30;
}

wrapping-IsBox : IsBox wrapping
wrapping-IsBox = record { room = refl; ends = refl; inside = omega arith }

test_recv : (mbox_recv 3 wrapping).1 ≡ 30 ∷ 31 ∷ []
unfolding mbox_recv recv_ch
test_recv = refl

transfer_lem_example :
    SentAll wrapping (b'x' ∷ b'y' ∷ []) (mbox_send wrapping (b'x' ∷ b'y' ∷ []))
    × ReceivedAll 1 wrapping (mbox_recv 1 wrapping)
transfer_lem_example = transfer_lem wrapping (b'x' ∷ b'y' ∷ []) 1 wrapping-IsBox

abbrev boxes : Boxes
boxes = record {
  mboxs = λ i. record wrapping { boxid = i; ref_count = 0; name = no_name };
  mboxinit = 1;
}

mbox_open-Opened_example : Opened boxes (b'a' ∷ []) (mbox_open boxes (b'a' ∷ []))
mbox_open-Opened_example = mbox_open-Opened boxes (b'a' ∷ []) (omega arith)

-- One character has been sent and is being received.
abbrev one_char : (s : SharedBox) × Reach boxes 3 1 1 s
unfolding one_init
one_char = (
  _,
  later
      (later
        (later
          (later
            (later (later start (sender 0 (omega arith) (Send.reduce b'x')))
              (sender 0 (omega arith) (Send.down (omega arith))))
            (sender 0 (omega arith) Send.store))
          (sender 0 (omega arith) Send.up))
        (receiver 0 (omega arith) Recv.reduce))
      (receiver 0 (omega arith) (Recv.down (omega arith))),
)

in_order_example :
    (one_char.0.box.wp ≤ last_wp (one_char.0.senders 0))
    × (one_char.0.box.rp ≤ last_rp (one_char.0.receivers 0))
    × ((waiting : List ℕ) × (length waiting ≤ 32) × (one_char.0.got ++ waiting ≡ one_char.0.sent))
in_order_example = in_order one_char.1

no_deadlock_example : Runs one_char.0.box (one_char.0.senders 0) (one_char.0.receivers 0)
no_deadlock_example = no_deadlock one_char.1

two_senders_example :
    (s : SharedBox) × Reach boxes 3 2 1 s × (s.senders 1 ≡ storing b'y') × (s.box.wp ≡ 32)
two_senders_example = two_senders boxes 3 b'x' b'y'
