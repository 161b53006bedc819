-- ===== src/Mailbox.antt =====
-- Mail boxes: libs/mailbox.c. A semaphore is its count, and a call that has to wait gives `none`. A box
-- is its index in `mboxs`, a name the list of its characters.
pub mod Ring
pub mod Open
pub mod Tasks
pub mod Safety
pub mod Overrun
mod Tests
use tina.Base.{
  ℕ, zero, suc, ◌+◌, ◌-◌, ◌*◌, ◌/◌, ◌%◌, ◌^◌, ◌≤◌, ◌<◌, min, max, ◌≡◌, ◌≢◌, ◌↔◌, ◌⊎◌, inl, inr,
  refl, sym, ap, ap₂, subst, ◌∙◌, fun_ext, Bool, true, false, not, ◌&&◌, ◌||◌, false≢true, Option,
  none, some, List, [], ◌∷◌, ◌++◌, map, append-nil, append_assoc, arith, ltb, leb, ◌==◌, ==_iff,
  ==_ne, ltb→lt, lt→ltb, leb_lt, leb_le, ltb_le, dec_lt, ℕ_discrete, if◌then◌else◌, Bool-cases,
  Option-cases, update, update-ne, update-eq, length, get_or, set, take, drop, replicate, All, has,
  ◌∈◌, ◌∉◌, Distinct, has-append, not-mem-cons, not-mem-append, mem_middle, mem-append_left,
  length-append, length-set, get_or-set, length-replicate, get_or-replicate,
}
use tina.Base.Bytes.{Buffer}
use tina.Tokens.{same_string}

abbrev pub max_num_box : ℕ
max_num_box = 32

abbrev pub buffer_size : ℕ
buffer_size = 32

abbrev pub maxlen : ℕ
maxlen = 16

-- `mailbox_t`
pub record Mailbox : Type 0 where
  pub boxid : ℕ
  pub ref_count : ℕ
  pub name : List ℕ
  pub volume : ℕ
  pub wp : ℕ
  pub rp : ℕ
  pub buffer : Buffer
  pub rsem : ℕ
  pub wsem : ℕ

-- The globals.
pub record Boxes : Type 0 where
  pub mboxs : ℕ → Mailbox
  pub mboxinit : ℕ

-- The name of a box that is not in use.
abbrev pub no_name : List ℕ
no_name = b'$' ∷ b'$' ∷ b'$' ∷ []

abbrev pub set_box : Boxes → ℕ → Mailbox → Boxes
set_box b i box = record b { mboxs = λ j. if i == j then box else b.mboxs j }

unfoldable pub one_init : Boxes → (i : ℕ) → Boxes
one_init b i = set_box b i (record {
  boxid = i;
  name = no_name;
  ref_count = 0;
  volume = buffer_size;
  rp = 0;
  wp = 0;
  buffer = update (b.mboxs i).buffer 0 0xff;
  rsem = 0;
  wsem = buffer_size;
})

unfoldable pub init_loop : (left i : ℕ) → Boxes → Boxes
init_loop zero i b = b
init_loop (suc left) i b = init_loop left (i + 1) (one_init b i)

unfoldable pub mbox_init : Boxes → Boxes
mbox_init b = init_loop max_num_box 0 b

-- The loops that stop at the first box with a property.
unfoldable pub find_box : (left i : ℕ) → (ℕ → Bool) → Option ℕ
find_box zero i p = none
find_box (suc left) i p = let rest = find_box left (i + 1) p in if p i then some i else rest

unfoldable pub is_free_box : Boxes → ℕ → Bool
is_free_box b i = ((b.mboxs i).ref_count == 0) && same_string (b.mboxs i).name no_name

unfoldable pub is_box_named : Boxes → (name : List ℕ) → ℕ → Bool
is_box_named b name i = same_string name (b.mboxs i).name

-- What `mbox_create` does to the box that it has found, with `ref_count` 0 after `one_init`.
unfoldable pub take_box : Boxes → (name : List ℕ) → (i : ℕ) → Boxes
take_box b name i =
    let fresh = one_init b i in
    set_box fresh i
      (record (fresh.mboxs i) { name = name; ref_count = (fresh.mboxs i).ref_count + 1 })

-- `none` is NULL.
unfoldable pub create_found : Boxes → (name : List ℕ) → Option ℕ → Boxes × Option ℕ
create_found b name none = (b, none)
create_found b name (some i) = (take_box b name i, some i)

unfoldable pub mbox_create : Boxes → (name : List ℕ) → Boxes × Option ℕ
mbox_create b name = create_found b name (find_box max_num_box 0 (is_free_box b))

unfoldable pub mbox_destroy : Boxes → (i : ℕ) → Boxes
mbox_destroy b i = one_init b i

unfoldable pub open_found : Boxes → (name : List ℕ) → Option ℕ → Boxes × Option ℕ
open_found b name none = mbox_create b name
open_found b name (some i) =
    (set_box b i (record (b.mboxs i) { ref_count = (b.mboxs i).ref_count + 1 }), some i)

unfoldable pub first_init : Boxes → Boxes
first_init b = if b.mboxinit == 0 then record (mbox_init b) { mboxinit = b.mboxinit + 1 } else b

unfoldable pub mbox_open : Boxes → (name : List ℕ) → Boxes × Option ℕ
mbox_open b name =
    let b' = first_init b in
    let tmp = take 15 name in open_found b' tmp (find_box max_num_box 0 (is_box_named b' tmp))

-- `ref_count` is an int, and the word of -1 is no 0.
unfoldable pub mbox_close : Boxes → (i : ℕ) → Boxes
mbox_close b i =
    let count = ((b.mboxs i).ref_count + (2 ^ 32 - 1)) % 2 ^ 32 in
    let b' = set_box b i (record (b.mboxs i) { ref_count = count }) in
    if count == 0 then mbox_destroy b' (b'.mboxs i).boxid else b'

-- One character; a task that waits has `wp` reduced already.
unfoldable pub send_ch : Mailbox → (ch : ℕ) → Mailbox × Bool
send_ch box ch =
    let w = box.wp % buffer_size in
    if box.wsem == 0 then (record box { wp = w }, false) else (
      record box {
        wp = w + 1;
        buffer = update box.buffer w ch;
        wsem = box.wsem - 1;
        rsem = box.rsem + 1;
      },
      true,
    )

unfoldable pub recv_ch : Mailbox → Mailbox × Option ℕ
recv_ch box =
    let r = box.rp % buffer_size in
    if box.rsem == 0
    then (record box { rp = r }, none)
    else (record box { rp = r + 1; rsem = box.rsem - 1; wsem = box.wsem + 1 }, some (box.buffer r))

-- The loops, up to the end or to the first character that has to wait; what is left to send, and what
-- has been received.
unfoldable pub mbox_send : Mailbox → (msg : List ℕ) → Mailbox × List ℕ
mbox_send box [] = (box, [])
mbox_send box (ch ∷ msg) =
    let (box', sent) = send_ch box ch in
    let rest = mbox_send box' msg in if sent then rest else (box', ch ∷ msg)

abbrev pub recv_rest : Mailbox × Option ℕ → Mailbox × List ℕ → Mailbox × List ℕ
recv_rest (box, none) rest = (box, [])
recv_rest (box, some ch) (last, msg) = (last, ch ∷ msg)

unfoldable pub mbox_recv : (msg_length : ℕ) → Mailbox → Mailbox × List ℕ
mbox_recv zero box = (box, [])
mbox_recv (suc n) box = let rest = mbox_recv n (recv_ch box).0 in recv_rest (recv_ch box) rest
