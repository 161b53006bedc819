-- ===== src/Mailbox/Tasks.antt =====
-- The tasks that use one box at the same time: `mbox_send` and `mbox_recv` of libs/mailbox.c, a statement
-- of their loops at a time. The statement between `disable_interrupt` and `enable_interrupt` is one step,
-- and so is a call of a semaphore.
use tina.Base.{ℕ, ◌+◌, ◌-◌, ◌%◌, ◌<◌, List, [], ◌∷◌, ◌++◌, update}
use tina.Mailbox.{Mailbox, Boxes, buffer_size, one_init}

-- Where a sender stands: at the head of its loop, before `semaphore_down`, before the store, before
-- `semaphore_up`; and the character it sends.
pub data Sender : Type 0 where
  ready : Sender
  reduced : (ch : ℕ) → Sender
  storing : (ch : ℕ) → Sender
  stored : Sender

pub data Receiver : Type 0 where
  listening : Receiver
  wanting : Receiver
  loading : Receiver
  loaded : Receiver

-- One statement of `mbox_send`, with the characters that it stores.
pub data Send (box : Mailbox) : Sender → Mailbox → Sender → List ℕ → Type 0 where
  reduce : (ch : ℕ) → Send box ready (record box { wp = box.wp % buffer_size }) (reduced ch) []
  down :
      {ch : ℕ}
      → 0 < box.wsem
      → Send box (reduced ch) (record box { wsem = box.wsem - 1 }) (storing ch) []
  store :
      {ch : ℕ}
      → Send box
          (storing ch)
          (record box { buffer = update box.buffer box.wp ch; wp = box.wp + 1 })
          stored
          (ch ∷ [])
  up : Send box stored (record box { rsem = box.rsem + 1 }) ready []

-- One statement of `mbox_recv`, with the characters that it loads.
pub data Recv (box : Mailbox) : Receiver → Mailbox → Receiver → List ℕ → Type 0 where
  reduce : Recv box listening (record box { rp = box.rp % buffer_size }) wanting []
  down : 0 < box.rsem → Recv box wanting (record box { rsem = box.rsem - 1 }) loading []
  load : Recv box loading (record box { rp = box.rp + 1 }) loaded (box.buffer box.rp ∷ [])
  up : Recv box loaded (record box { wsem = box.wsem + 1 }) listening []

-- The box, its tasks, and the characters stored and loaded so far.
pub record SharedBox : Type 0 where
  pub box : Mailbox
  pub senders : ℕ → Sender
  pub receivers : ℕ → Receiver
  pub sent : List ℕ
  pub got : List ℕ

-- `n` senders and `m` receivers, in any order.
pub data Turn (n m : ℕ) (s : SharedBox) : SharedBox → Type 0 where
  sender :
      (i : ℕ) {box : Mailbox} {p : Sender} {cs : List ℕ}
      → i < n
      → Send s.box (s.senders i) box p cs
      → Turn n m s (record s { box = box; senders = update s.senders i p; sent = s.sent ++ cs })
  receiver :
      (i : ℕ) {box : Mailbox} {p : Receiver} {cs : List ℕ}
      → i < m
      → Recv s.box (s.receivers i) box p cs
      → Turn n m s (record s { box = box; receivers = update s.receivers i p; got = s.got ++ cs })

-- A box after `one_init`, with no task inside a loop.
abbrev pub new_box : Boxes → ℕ → SharedBox
new_box b i = record {
  box = (one_init b i).mboxs i;
  senders = λ _. ready;
  receivers = λ _. listening;
  sent = [];
  got = [];
}

pub data Reach (b : Boxes) (i n m : ℕ) : SharedBox → Type 0 where
  start : Reach b i n m (new_box b i)
  later : {s t : SharedBox} → Reach b i n m s → Turn n m s t → Reach b i n m t
