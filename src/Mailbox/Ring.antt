-- ===== src/Mailbox/Ring.antt =====
-- The characters of a box come out in the order in which they went in: libs/mailbox.c.
use tina.Base.{
  ℕ, zero, suc, ◌+◌, ◌-◌, ◌%◌, ◌≤◌, ◌<◌, ◌≡◌, ◌≢◌, ◌⊎◌, inl, inr, refl, sym, ap, ap₂, ◌∙◌, Bool,
  true, false, Option, none, some, List, [], ◌∷◌, ◌++◌, append_assoc, arith, ==_iff, ==_ne,
  ℕ_discrete, if◌then◌else◌, update, update-ne, update-eq, length,
}
use tina.Base.Bytes.{Buffer}
use tina.Mailbox.{Mailbox, buffer_size, send_ch, recv_ch, mbox_send, recv_rest, mbox_recv}

-- The characters of the ring from `o` on.
abbrev pub ring : (o n : ℕ) → Buffer → List ℕ
ring o zero buf = []
ring o (suc n) buf = buf (o % buffer_size) ∷ ring (o + 1) n buf

-- The characters that wait in a box.
abbrev pub contents : Mailbox → List ℕ
contents box = ring box.rp box.rsem box.buffer

pub record IsBox (box : Mailbox) : Type 0 where
  pub room : box.rsem + box.wsem ≡ buffer_size
  pub ends : (box.rp + box.rsem) % buffer_size ≡ box.wp % buffer_size
  pub inside : (box.rp ≤ buffer_size) × (box.wp ≤ buffer_size)

ring-snoc :
    (o n : ℕ) (buf : Buffer) → ring o (suc n) buf ≡ ring o n buf ++ buf ((o + n) % buffer_size) ∷ []
ring-snoc o zero buf =
    let e : o + 0 ≡ o = omega arith in ap (λ j. buf (j % buffer_size) ∷ []) (sym e)
ring-snoc o (suc n) buf =
    let e : o + 1 + n ≡ o + suc n = omega arith in
    ap (λ cs. buf (o % buffer_size) ∷ cs)
      (ring-snoc (o + 1) n buf ∙ ap (λ j. ring (o + 1) n buf ++ buf (j % buffer_size) ∷ []) e)

ring-update :
    (o n : ℕ) (buf : Buffer) (j c : ℕ)
    → ((k : ℕ) → o ≤ k → k < o + n → k % buffer_size ≢ j)
    → ring o n (update buf j c) ≡ ring o n buf
ring-update o zero buf j c h = refl
ring-update o (suc n) buf j c h =
    ap₂ (λ d ds. d ∷ ds)
      (update-ne buf j c (o % buffer_size) (λ e. h o (omega arith) (omega arith) (sym e)))
      (ring-update (o + 1) n buf j c (λ k l b. h k (omega arith) (omega arith)))

pub ring-same :
    (o p n : ℕ) (buf : Buffer) → o % buffer_size ≡ p % buffer_size → ring o n buf ≡ ring p n buf
ring-same o p zero buf e = refl
ring-same o p (suc n) buf e =
    ap₂ (λ j ds. buf j ∷ ds) e (ring-same (o + 1) (p + 1) n buf (omega arith))

pub length-ring : (o n : ℕ) (buf : Buffer) → length (ring o n buf) ≡ n
length-ring o zero buf = refl
length-ring o (suc n) buf = ap suc (length-ring (o + 1) n buf)

-- One more character at the end.
pub ring-push :
    (o n : ℕ) (buf : Buffer) (w ch : ℕ)
    → n < buffer_size
    → w ≡ (o + n) % buffer_size
    → ring o (n + 1) (update buf w ch) ≡ ring o n buf ++ ch ∷ []
ring-push o n buf w ch l e =
    let e' : n + 1 ≡ suc n = omega arith in
    ap (λ n. ring o n (update buf w ch)) e'
    ∙ ring-snoc o n (update buf w ch)
    ∙ ap₂ (λ cs c. cs ++ c ∷ []) (ring-update o n buf w ch (λ k lo hi. λ f. absurd (omega arith)))
        (ap (update buf w ch) (sym e) ∙ update-eq buf w ch)

-- The first character, and the rest.
pub ring-pop :
    (o n : ℕ) (buf : Buffer)
    → 0 < n
    → ring o n buf ≡ buf (o % buffer_size) ∷ ring (o + 1) (n - 1) buf
ring-pop o n buf l = let e : n ≡ suc (n - 1) = omega arith in ap (λ n. ring o n buf) e

-- After an attempt to send: the box has the character behind the others, or it was full and has what it had.
abbrev pub Sent : Mailbox → (ch : ℕ) → Mailbox × Bool → Type 0
Sent box ch (box', true) = IsBox box' × (contents box' ≡ contents box ++ ch ∷ [])
Sent box ch (box', false) =
    IsBox box' × (contents box' ≡ contents box) × (length (contents box) ≡ buffer_size)

abbrev pub Received : Mailbox → Mailbox × Option ℕ → Type 0
Received box (box', some ch) = IsBox box' × (contents box ≡ ch ∷ contents box')
Received box (box', none) = IsBox box' × (contents box' ≡ contents box) × (contents box ≡ [])

send_ch-Sent : (box : Mailbox) (ch : ℕ) → IsBox box → Sent box ch (send_ch box ch)
unfolding send_ch
send_ch-Sent box ch h = elim (ℕ_discrete box.wsem 0) [
  | yes e ↦ rw ((==_iff box.wsem 0).1 e) (
    record { room = h.room; ends = omega (arith, h.ends); inside = (h.inside.0, omega arith) },
    refl,
    length-ring box.rp box.rsem box.buffer ∙ omega (arith, h.room, e),
  )
  | no ne ↦ rw (==_ne box.wsem 0 ne) (
    record {
      room = omega (arith, h.room);
      ends = omega (arith, h.ends);
      inside = (h.inside.0, omega arith);
    },
    added (omega (arith, h.room)),
  )
]
  where
    added :
        box.rsem < buffer_size
        → ring box.rp (box.rsem + 1) (update box.buffer (box.wp % buffer_size) ch)
          ≡ contents box ++ ch ∷ []
    added l = ring-push box.rp box.rsem box.buffer (box.wp % buffer_size) ch l (sym h.ends)

recv_ch-Received : (box : Mailbox) → IsBox box → Received box (recv_ch box)
unfolding recv_ch
recv_ch-Received box h = elim (ℕ_discrete box.rsem 0) [
  | yes e ↦ rw ((==_iff box.rsem 0).1 e) (
    record { room = h.room; ends = omega (arith, h.ends); inside = (omega arith, h.inside.1) },
    ring-same (box.rp % buffer_size) box.rp box.rsem box.buffer (omega arith),
    ap (λ n. ring box.rp n box.buffer) e,
  )
  | no ne ↦ rw (==_ne box.rsem 0 ne) (
    record {
      room = omega (arith, h.room);
      ends = omega (arith, h.ends, ne);
      inside = (omega arith, h.inside.1);
    },
    taken (omega (arith, ne)),
  )
]
  where
    r : ℕ
    r = box.rp % buffer_size

    taken : 0 < box.rsem → contents box ≡ box.buffer r ∷ ring (r + 1) (box.rsem - 1) box.buffer
    taken l =
        let e : box.rsem ≡ suc (box.rsem - 1) = omega arith in
        ap (λ n. ring box.rp n box.buffer) e
        ∙ ap (λ cs. box.buffer r ∷ cs)
            (ring-same (box.rp + 1) (r + 1) (box.rsem - 1) box.buffer (omega arith))

-- What is in the box and what is left to send are what was in it and the message; nothing is left, or the
-- box is full.
abbrev pub SentAll : Mailbox → (msg : List ℕ) → Mailbox × List ℕ → Type 0
SentAll box msg (box', rest) =
    IsBox box'
    × (contents box' ++ rest ≡ contents box ++ msg)
    × ((rest ≡ []) ⊎ (length (contents box') ≡ buffer_size))

-- What has been received and what is in the box are what was in it; `n` are received, or the box is empty.
abbrev pub ReceivedAll : (n : ℕ) → Mailbox → Mailbox × List ℕ → Type 0
ReceivedAll n box (box', msg) =
    IsBox box' × (msg ++ contents box' ≡ contents box) × ((length msg ≡ n) ⊎ (contents box' ≡ []))

send-step :
    (box : Mailbox) (ch : ℕ) (msg : List ℕ) (r : Mailbox × Bool) (rest : Mailbox × List ℕ)
    → Sent box ch r
    → (IsBox r.0 → SentAll r.0 msg rest)
    → SentAll box (ch ∷ msg) (if r.1 then rest else (r.0, ch ∷ msg))
send-step box ch msg (box', true) rest (valid, added) h =
    let (v, all, done) = h valid in
    (v, all ∙ ap (λ cs. cs ++ msg) added ∙ append_assoc (contents box) (ch ∷ []) msg, done)
send-step box ch msg (box', false) rest (valid, same, full) h =
    (valid, ap (λ cs. cs ++ ch ∷ msg) same, inr (ap length same ∙ full))

mbox_send-SentAll : (box : Mailbox) (msg : List ℕ) → IsBox box → SentAll box msg (mbox_send box msg)
unfolding mbox_send
mbox_send-SentAll box [] h = (h, refl, inl refl)
mbox_send-SentAll box (ch ∷ msg) h =
    send-step box ch msg (send_ch box ch) (mbox_send (send_ch box ch).0 msg) (send_ch-Sent box ch h)
      (λ v. mbox_send-SentAll (send_ch box ch).0 msg v)

recv-step :
    (n : ℕ) (box : Mailbox) (r : Mailbox × Option ℕ) (rest : Mailbox × List ℕ)
    → Received box r
    → (IsBox r.0 → ReceivedAll n r.0 rest)
    → ReceivedAll (suc n) box (recv_rest r rest)
recv-step n box (box', none) rest (valid, same, empty) h = (valid, same, inr (same ∙ empty))
recv-step n box (box', some ch) (last, msg) (valid, taken) h =
    let (v, all, done) = h valid in
    (v, ap (λ cs. ch ∷ cs) all ∙ sym taken, elim done [ inl e ↦ inl (ap suc e) | inr e ↦ inr e ])

mbox_recv-ReceivedAll : (n : ℕ) (box : Mailbox) → IsBox box → ReceivedAll n box (mbox_recv n box)
unfolding mbox_recv
mbox_recv-ReceivedAll zero box h = (h, refl, inl refl)
mbox_recv-ReceivedAll (suc n) box h =
    recv-step n box (recv_ch box) (mbox_recv n (recv_ch box).0) (recv_ch-Received box h)
      (λ v. mbox_recv-ReceivedAll n (recv_ch box).0 v)

-- A box whose counts make up its size and whose two positions lie that far apart is a queue of
-- characters: `mbox_send` puts the characters of a message behind those in the box, until none is left
-- or the box is full, and `mbox_recv` takes them from the front, until it has as many as it asks for
-- or the box is empty; what is in the box and what is not are together what was there, in order, and
-- the box is well-formed again.
pub transfer_lem :
    (box : Mailbox) (msg : List ℕ) (n : ℕ)
    → IsBox box
    → SentAll box msg (mbox_send box msg) × ReceivedAll n box (mbox_recv n box)
transfer_lem box msg n h = (mbox_send-SentAll box msg h, mbox_recv-ReceivedAll n box h)
