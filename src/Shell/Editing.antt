-- ===== src/Shell/Editing.antt =====
-- The line of the shell holds what has been typed: test/test_shell.c.
use tina.Base.{
  lt→ltb, length, ℕ, zero, suc, ◌+◌, ◌-◌, ◌≤◌, ◌<◌, ◌≡◌, ◌≢◌, inl, inr, refl, sym, ap, ap₂, subst,
  ◌∙◌, ◌||◌, Option, none, some, List, [], ◌∷◌, ◌++◌, arith, ◌==◌, ==_ne, ℕ_discrete, if◌then◌else◌,
  Bool-cases, update, update-ne, update-eq,
}
use tina.Base.Bytes.{Buffer, string_at}
use tina.Shell.{Line, press, key, cmd_len}

-- The characters from `o` on.
abbrev pub segment : (o n : ℕ) → Buffer → List ℕ
segment o zero buf = []
segment o (suc n) buf = buf o ∷ segment (o + 1) n buf

abbrev pub text : Line → List ℕ
text line = segment 0 line.i line.buf

abbrev pub but_last : List ℕ → List ℕ
but_last [] = []
but_last (c ∷ []) = []
but_last (c ∷ d ∷ cs) = c ∷ but_last (d ∷ cs)

-- What a key does to the characters that have been typed, and the command it gives.
abbrev pub edit : List ℕ → (ch : ℕ) → List ℕ × Option (List ℕ)
edit cs ch =
    if ch == 0
    then (cs, none)
    else if (ch == 8) || (ch == 127)
    then (but_last cs, none)
    else if (ch == 13) || (ch == 10)
    then ([], some cs)
    else (cs ++ ch ∷ [], none)

but_last-snoc : (cs : List ℕ) (c : ℕ) → but_last (cs ++ c ∷ []) ≡ cs
but_last-snoc [] c = refl
but_last-snoc (d ∷ []) c = refl
but_last-snoc (d ∷ e ∷ cs) c = ap (λ r. d ∷ r) (but_last-snoc (e ∷ cs) c)

segment-cong :
    (o n : ℕ) (f g : Buffer)
    → ((j : ℕ) → o ≤ j → j < o + n → f j ≡ g j)
    → segment o n f ≡ segment o n g
segment-cong o zero f g h = refl
segment-cong o (suc n) f g h =
    ap₂ (λ c cs. c ∷ cs) (h o (omega arith) (omega arith))
      (segment-cong (o + 1) n f g (λ j l b. h j (omega arith) (omega arith)))

segment-update :
    (n : ℕ) (buf : Buffer) (j c : ℕ) → n ≤ j → segment 0 n (update buf j c) ≡ segment 0 n buf
segment-update n buf j c h =
    segment-cong 0 n (update buf j c) buf (λ k l b. update-ne buf j c k (omega arith))

segment-snoc :
    (o n : ℕ) (buf : Buffer) → segment o (suc n) buf ≡ segment o n buf ++ buf (o + n) ∷ []
segment-snoc o zero buf = let e : o + 0 ≡ o = omega arith in ap (λ j. buf j ∷ []) (sym e)
segment-snoc o (suc n) buf =
    let e : o + 1 + n ≡ o + suc n = omega arith in
    ap (λ cs. buf o ∷ cs)
      (segment-snoc (o + 1) n buf ∙ ap (λ j. segment (o + 1) n buf ++ buf j ∷ []) e)

-- A string is what stands in front of the first `\0`.
string_at-segment :
    (n o i : ℕ) (buf : Buffer)
    → i < n
    → ((j : ℕ) → o ≤ j → j < o + i → buf j ≢ 0)
    → buf (o + i) ≡ 0
    → string_at n buf o ≡ segment o i buf
unfolding string_at
string_at-segment zero o i buf h full e = absurd (omega arith)
string_at-segment (suc n) o zero buf h full e =
    let at : o + 0 ≡ o = omega arith in rw (subst (λ j. buf j ≡ 0) at e) refl
string_at-segment (suc n) o (suc i) buf h full e =
    let at : o + suc i ≡ o + 1 + i = omega arith in
    rw (==_ne (buf o) 0 (full o (omega arith) (omega arith))) (
      ap (λ cs. buf o ∷ cs)
        (string_at-segment n (o + 1) i buf (omega arith)
          (λ j l b. full j (omega arith) (omega arith)) (subst (λ j. buf j ≡ 0) at e)))

-- The characters that have been typed are not `\0`.
abbrev pub NoZero : Line → Type 0
NoZero line = (j : ℕ) → j < line.i → line.buf j ≢ 0

-- The line and the command after a key are those that are expected.
pub record Edited (line : Line) (command : Option (List ℕ)) (expected : List ℕ × Option (List ℕ))
    : Type 0 where
  pub typed : text line ≡ expected.0
  pub given : command ≡ expected.1
  pub no_zero : NoZero line

press-Edited :
    (line : Line) (ch : ℕ)
    → NoZero line
    → line.i < cmd_len
    → Edited (press line ch).0 (press line ch).1 (edit (text line) ch)
unfolding press
press-Edited line ch full fits = elim (ℕ_discrete ch 0) [
  | yes e ↦ rw e (record { typed = refl; given = refl; no_zero = full })
  | no nz ↦ rw (==_ne ch 0 nz) (elim (Bool-cases ((ch == 8) || (ch == 127))) [
    | inl e ↦ rw e (record {
      typed = erased line.i line.buf;
      given = refl;
      no_zero = λ j l. full j (omega arith);
    })
    | inr e ↦ rw e (elim (Bool-cases ((ch == 13) || (ch == 10))) [
      | inl r ↦
          rw r (record {
            typed = refl;
            given = ap some entered;
            no_zero = λ j l. absurd (omega arith);
          })
      | inr r ↦ rw r (record { typed = added; given = refl; no_zero = new nz })
    ])
  ])
]
  where
    erased : (n : ℕ) (buf : Buffer) → segment 0 (n - 1) buf ≡ but_last (segment 0 n buf)
    erased zero buf = refl
    erased (suc n) buf =
        let e : suc n - 1 ≡ n = omega arith in
        ap (λ m. segment 0 m buf) e
        ∙ sym (ap but_last (segment-snoc 0 n buf) ∙ but_last-snoc (segment 0 n buf) (buf (0 + n)))

    entered : string_at cmd_len (update line.buf line.i 0) 0 ≡ text line
    entered =
        string_at-segment cmd_len 0 line.i (update line.buf line.i 0) fits
          (λ j o b e. full j (omega arith) (sym (update-ne line.buf line.i 0 j (omega arith)) ∙ e))
          (let e : 0 + line.i ≡ line.i = omega arith in
            ap (update line.buf line.i 0) e ∙ update-eq line.buf line.i 0)
        ∙ segment-update line.i line.buf line.i 0 (omega arith)

    added : segment 0 (line.i + 1) (update line.buf line.i ch) ≡ text line ++ ch ∷ []
    added =
        let e : line.i + 1 ≡ suc line.i = omega arith in
        ap (λ m. segment 0 m (update line.buf line.i ch)) e
        ∙ segment-snoc 0 line.i (update line.buf line.i ch)
        ∙ ap₂ (λ cs c. cs ++ c ∷ []) (segment-update line.i line.buf line.i ch (omega arith))
            (let e : 0 + line.i ≡ line.i = omega arith in
              ap (update line.buf line.i ch) e ∙ update-eq line.buf line.i ch)

    new : ch ≢ 0 → (j : ℕ) → j < line.i + 1 → update line.buf line.i ch j ≢ 0
    new nz j l = elim (ℕ_discrete line.i j) [
      | yes e ↦ λ z.
          nz (
            sym (subst (λ k. update line.buf line.i ch k ≡ ch) e (update-eq line.buf line.i ch))
            ∙ z)
      | no ne ↦ λ z. full j (omega arith) (sym (update-ne line.buf line.i ch j ne) ∙ z)
    ]

pub length-segment : (o n : ℕ) (buf : Buffer) → length (segment o n buf) ≡ n
length-segment o zero buf = refl
length-segment o (suc n) buf = ap suc (length-segment (o + 1) n buf)

-- On a line within its buffer and without a zero, a round of the shell does to the characters typed
-- what the key says, if what is typed then leaves room for two characters: a character is added,
-- backspace takes the last one away, enter gives them as the command and empties the line, and a zero
-- changes nothing; the line has no zero then either.
pub key-Edited :
    (line : Line) (ch : ℕ)
    → NoZero line
    → line.i < cmd_len
    → length (edit (text line) ch).0 + 1 < cmd_len
    → (line' : Line) × (command : Option (List ℕ)) × (key line ch ≡ some (line', command))
      × Edited line' command (edit (text line) ch)
unfolding key
key-Edited line ch full fits room = (
  record { buf = update buf (n + 1) 0; i = n },
  (press line ch).1,
  rw
      (
        lt→ltb line.i cmd_len fits,
        lt→ltb (n + 1) cmd_len (subst (λ m. m + 1 < cmd_len) (sym size) room),
      )
      refl,
  record {
    typed = segment-update n buf (n + 1) 0 (omega arith) ∙ e.typed;
    given = e.given;
    no_zero = λ j l z. e.no_zero j l (sym (update-ne buf (n + 1) 0 j (omega arith)) ∙ z);
  },
)
  where
    e : Edited (press line ch).0 (press line ch).1 (edit (text line) ch)
    e = press-Edited line ch full fits

    n : ℕ
    n = (press line ch).0.i

    buf : Buffer
    buf = (press line ch).0.buf

    size : n ≡ length (edit (text line) ch).0
    size = sym (length-segment 0 n buf) ∙ ap length e.typed
