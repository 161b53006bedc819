-- ===== src/Shell/Typing.antt =====
-- A command that is typed is decoded: test/test_shell.c.
use tina.Base.{
  ◌≤◌, ltb, ltb_le, false, ℕ, ◌+◌, ◌<◌, ◌≡◌, ◌≢◌, refl, sym, ap, subst, ◌∙◌, Option, none, some,
  List, [], ◌∷◌, ◌++◌, append-nil, append_assoc, arith, ==_ne, length, replicate, All,
  length-append, length-replicate,
}
use tina.Base.Bytes.{Buffer}
use tina.Kernel.{TaskInfo}
use tina.Fs.{Device}
use tina.Tokens.Words.{IsWord, join, split-join}
use tina.Shell.{Line, key, cmd_len}
use tina.Shell.Commands.{cmd_max_count, System, decode, decode_words}
use tina.Shell.Editing.{length-segment, segment, text, edit, NoZero, key-Edited}

-- The line after several keys, `none` when the source writes behind it.
abbrev pub stepped : Option (Line × Option (List ℕ)) → Option Line
stepped none = none
stepped (some r) = some r.0

abbrev pub typed : Option Line → List ℕ → Option Line
typed line [] = line
typed none (ch ∷ chs) = none
typed (some line) (ch ∷ chs) = typed (stepped (key line ch)) chs

-- A character that is added to the line.
abbrev pub IsPlain : ℕ → Type 0
IsPlain ch = (ch ≢ 0) × (ch ≢ 8) × (ch ≢ 127) × (ch ≢ 13) × (ch ≢ 10)

edit-plain : (cs : List ℕ) (ch : ℕ) → IsPlain ch → edit cs ch ≡ (cs ++ ch ∷ [], none)
edit-plain cs ch h =
    rw (==_ne ch 0 h.0, ==_ne ch 8 h.1, ==_ne ch 127 h.2, ==_ne ch 13 h.3, ==_ne ch 10 h.4) refl

typed-plain :
    (line : Line) (cs : List ℕ)
    → NoZero line
    → line.i + length cs + 1 < cmd_len
    → All IsPlain cs
    → (line' : Line) × (typed (some line) cs ≡ some line')
      × NoZero line'
      × (text line' ≡ text line ++ cs)
typed-plain line [] full fits h = (line, refl, full, sym (append-nil (text line)))
typed-plain line (ch ∷ cs) full fits h =
    let t : edit (text line) ch ≡ (text line ++ ch ∷ [], none) = edit-plain (text line) ch h.0 in
    let grown : length (text line ++ ch ∷ []) ≡ line.i + 1 =
      length-append (text line) (ch ∷ []) ∙ ap (λ k. k + 1) (length-segment 0 line.i line.buf) in
    let (line1, command, run, e) = key-Edited line ch full (omega arith) (
      subst (λ r. length r.0 + 1 < cmd_len) (sym t)
        (subst (λ k. k + 1 < cmd_len) (sym grown) (omega arith))) in
    let now : text line1 ≡ text line ++ ch ∷ [] = e.typed ∙ ap (λ r. r.0) t in
    let n : line1.i ≡ line.i + 1 =
      sym (length-segment 0 line1.i line1.buf) ∙ ap length now ∙ grown in
    let (line2, run2, full2, rest) = typed-plain line1 cs e.no_zero (omega arith) h.1 in
    (
      line2,
      ap (λ o. typed (stepped o) cs) run ∙ run2,
      full2,
      rest ∙ ap (λ r. r ++ cs) now ∙ append_assoc (text line) (ch ∷ []) cs,
    )

module _ {S : Type 0} (D : Device S) (inode0 block0 : Buffer) (now embryo_start : ℕ)
    (tasks : ℕ → Option TaskInfo) where
  -- On an empty line, typing at most 16 words of plain characters with one space between them, and any
  -- spaces in front, of at most 126 characters together, and then enter gives this text to `decode`,
  -- which runs the command with exactly these words, and the line is empty.
  pub decode-typed :
      (line : Line) (sys : System S) (n : ℕ) (ws : List (List ℕ))
      → line.i ≡ 0
      → n + length (join b' ' ws) + 1 < cmd_len
      → length ws ≤ cmd_max_count
      → All (IsWord b' ') ws
      → All IsPlain (replicate n b' ' ++ join b' ' ws)
      → let cs = replicate n b' ' ++ join b' ' ws in
        (whole : Line) × (typed (some line) cs ≡ some whole)
        × (after : Line) × (key whole 13 ≡ some (after, some cs))
        × (after.i ≡ 0)
        × (decode D inode0 block0 now embryo_start tasks sys cs
            ≡ decode_words D inode0 block0 now embryo_start tasks sys ws)
  unfolding decode
  decode-typed line sys n ws start fits few words plain =
      let (whole, run, full', t) = typed-plain line cs full (small (line.i) start) plain in
      let held : text whole ≡ cs = t ∙ ap (λ k. segment 0 k line.buf ++ cs) start in
      let size : whole.i ≡ length cs = sym (length-segment 0 whole.i whole.buf) ∙ ap length held in
      let (after, command, entered, e) =
        key-Edited whole 13 full' (subst (λ k. k < cmd_len) (sym (size ∙ len)) (omega arith))
          (omega arith) in
      (
        whole,
        run,
        after,
        entered ∙ ap (λ c. some (after, c)) (e.given ∙ ap some held),
        sym (length-segment 0 after.i after.buf) ∙ ap length e.typed,
        rw (split-join b' ' n ws words, fits_args) refl,
      )
    where
      cs : List ℕ
      cs = replicate n b' ' ++ join b' ' ws

      len : length cs ≡ n + length (join b' ' ws)
      len =
          length-append (replicate n b' ') (join b' ' ws)
          ∙ ap (λ k. k + length (join b' ' ws)) (length-replicate n b' ')

      small : (k : ℕ) → k ≡ 0 → k + length cs + 1 < cmd_len
      small k e = subst (λ l. k + l + 1 < cmd_len) (sym len) (omega arith)

      full : NoZero line
      full = λ j l. absurd (omega arith)

      fits_args : ltb cmd_max_count (length ws) ≡ false
      fits_args = ltb_le cmd_max_count (length ws) few
