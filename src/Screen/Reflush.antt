-- ===== src/Screen/Reflush.antt =====
-- The refresh of the terminal: drivers/screen.c.
use tina.Base.{
  ℕ, zero, suc, ◌+◌, ◌*◌, ◌/◌, ◌%◌, ◌≤◌, ◌<◌, ◌≡◌, inl, inr, refl, sym, ap, subst, ◌∙◌, List, [],
  ◌∷◌, ◌++◌, arith, ◌==◌, ==_iff, ℕ_discrete, Bool-cases, update, update-ne, update-eq,
}
use tina.Screen.{
  Screen, Event, move_cursor, write_ch, screen_width, screen_height, reflush_row, reflush_rows,
  screen_reflush, screen_clear, space_cell, zero_cell, rows,
}
use tina.Screen.Rows.{rows-at}

-- A terminal at the serial port: `cell` is what it shows at an offset of the screen, line by line, and
-- `send` what it does with the next item. A character stands where the cursor has been moved to, with
-- columns and lines counted from 1, and a movement of the cursor changes no cell.
module _ {T : Type 0} (cell : T → ℕ → ℕ) (send : T → Event → T)
    (draws : (t : T) (x y c k : ℕ)
      → x < screen_width
      → y < screen_height
      → cell (send (send t (move_cursor (x + 1) (y + 1))) (write_ch c)) k
        ≡ update (cell t) (y * screen_width + x) c k)
    (moves : (t : T) (x y k : ℕ) → cell (send t (move_cursor x y)) k ≡ cell t k) where
  abbrev pub send_all : T → List Event → T
  send_all t [] = t
  send_all t (e ∷ es) = send_all (send t e) es

  send_all-append :
      (t : T) (xs ys : List Event) → send_all t (xs ++ ys) ≡ send_all (send_all t xs) ys
  send_all-append t [] ys = refl
  send_all-append t (x ∷ xs) ys = send_all-append (send t x) xs ys

  -- Below `n` the old screen is the new one, and where it is, the terminal shows it.
  record Synced (n : ℕ) (new_screen old_screen : ℕ → ℕ) (t : T) : Type 0 where
    done : (k : ℕ) → k < n → old_screen k ≡ new_screen k
    shown :
        (k : ℕ)
        → k < screen_height * screen_width
        → old_screen k ≡ new_screen k
        → cell t k ≡ new_screen k

  -- A cell that differs is drawn.
  draw-Synced :
      (i j : ℕ) (new old : ℕ → ℕ) (t : T)
      → i < screen_height
      → j < screen_width
      → Synced (i * screen_width + j) new old t
      → Synced
          (i * screen_width + (j + 1))
          new
          (update old (i * screen_width + j) (new (i * screen_width + j)))
          (send (send t (move_cursor (j + 1) (i + 1))) (write_ch (new (i * screen_width + j))))
  draw-Synced i j new old t hi hj y = record {
    done = λ k h. elim (ℕ_discrete (i * screen_width + j) k) [
      | yes e ↦
          subst (λ n. update old (i * screen_width + j) (new (i * screen_width + j)) n ≡ new n) e
            (update-eq old (i * screen_width + j) _)
      | no ne ↦ update-ne old (i * screen_width + j) _ k ne ∙ y.done k (omega arith)
    ];
    shown = λ k h same. draws t j i _ k hj hi ∙ elim (ℕ_discrete (i * screen_width + j) k) [
      | yes e ↦
          subst (λ n. update (cell t) (i * screen_width + j) (new (i * screen_width + j)) n ≡ new n)
            e (update-eq (cell t) (i * screen_width + j) _)
      | no ne ↦
          update-ne (cell t) (i * screen_width + j) _ k ne
          ∙ y.shown k h (sym (update-ne old (i * screen_width + j) _ k ne) ∙ same)
    ];
  }

  -- A cell that does not is passed over.
  skip-Synced :
      (i j : ℕ) (new old : ℕ → ℕ) (t : T)
      → new (i * screen_width + j) ≡ old (i * screen_width + j)
      → Synced (i * screen_width + j) new old t
      → Synced (i * screen_width + (j + 1)) new old t
  skip-Synced i j new old t e y = record {
    done = λ k h. elim (ℕ_discrete (i * screen_width + j) k) [
      | yes at ↦ subst (λ n. old n ≡ new n) at (sym e)
      | no ne ↦ y.done k (omega arith)
    ];
    shown = y.shown;
  }

  row-Synced :
      (left i j : ℕ) (new old : ℕ → ℕ) (t : T)
      → i < screen_height
      → j + left ≤ screen_width
      → Synced (i * screen_width + j) new old t
      → Synced
          (i * screen_width + (j + left))
          new
          (reflush_row left i j new old).0
          (send_all t (reflush_row left i j new old).1)
  unfolding reflush_row
  row-Synced zero i j new old t hi hj y = record {
    done = λ k h. y.done k (omega arith);
    shown = y.shown;
  }
  row-Synced (suc left) i j new old t hi hj y =
      let shift : j + suc left ≡ j + 1 + left = omega arith in
      elim (Bool-cases (new (i * screen_width + j) == old (i * screen_width + j))) [
        | inl e ↦
            rw (e, shift)
              (row-Synced left i (j + 1) new old t hi (omega arith)
                (skip-Synced i j new old t ((==_iff _ _).0 e) y))
        | inr e ↦
            rw (e, shift)
              (row-Synced left i (j + 1) new _ _ hi (omega arith)
                (draw-Synced i j new old t hi (omega arith) y))
      ]

  rows-Synced :
      (left i : ℕ) (new old : ℕ → ℕ) (t : T)
      → i + left ≤ screen_height
      → Synced (i * screen_width) new old t
      → Synced
          ((i + left) * screen_width)
          new
          (reflush_rows left i new old).0
          (send_all t (reflush_rows left i new old).1)
  unfolding reflush_rows
  rows-Synced zero i new old t hi y = record {
    done = λ k h. y.done k (omega arith);
    shown = y.shown;
  }
  rows-Synced (suc left) i new old t hi y =
      let shift : i + suc left ≡ i + 1 + left = omega arith in
      let start : Synced (i * screen_width + 0) new old t = record {
        done = λ k h. y.done k (omega arith);
        shown = y.shown;
      } in
      let line = row-Synced screen_width i 0 new old t (omega arith) (omega arith) start in
      rw (shift, send_all-append t (reflush_row screen_width i 0 new old).1)
        (rows-Synced left (i + 1) new _ _ (omega arith)
          (record { done = λ k h. line.done k (omega arith); shown = line.shown }))

  -- For any terminal that draws a character where the cursor has been moved to, and that shows the new
  -- screen in every cell where the old and the new screen agree, what `screen_reflush` sends makes it
  -- show the new screen in every cell, and the old screen becomes the new one.
  pub reflush_lem :
      (s : Screen) (t : T)
      → ((k : ℕ)
          → k < screen_height * screen_width
          → s.old_screen k ≡ s.new_screen k
          → cell t k ≡ s.new_screen k)
      → ((k : ℕ)
          → k < screen_height * screen_width
          → cell (send_all t (screen_reflush s).1) k ≡ s.new_screen k)
        × ((k : ℕ)
            → k < screen_height * screen_width
            → (screen_reflush s).0.old_screen k ≡ s.new_screen k)
  unfolding screen_reflush
  reflush_lem s t same =
      let all =
        rows-Synced screen_height 0 s.new_screen s.old_screen t (omega arith)
          (record { done = λ k h. absurd (omega arith); shown = same }) in
      let es : List Event = (reflush_rows screen_height 0 s.new_screen s.old_screen).1 in
      (
        λ k h.
            ap (λ u. cell u k)
              (send_all-append t es (move_cursor s.screen_cursor_x s.screen_cursor_y ∷ []))
            ∙ moves (send_all t es) s.screen_cursor_x s.screen_cursor_y k
            ∙ all.shown k h (all.done k h),
        λ k h. all.done k h,
      )

  -- For any terminal that draws a character where the cursor has been moved to, whatever it shows,
  -- `screen_clear` with any arguments makes every cell of it a space, and those of both screens.
  pub clear_lem :
      (line1 line2 : ℕ) (s : Screen) (t : T) (k : ℕ)
      → k < screen_height * screen_width
      → (cell (send_all t (screen_clear line1 line2 s).1) k ≡ 32)
        × ((screen_clear line1 line2 s).0.new_screen k ≡ 32)
        × ((screen_clear line1 line2 s).0.old_screen k ≡ 32)
  unfolding screen_clear screen_reflush
  clear_lem line1 line2 s t k h =
      let both =
        reflush_lem cleared t (λ n l e. absurd (omega (arith, zeros n l, e, spaces n l))) in
      (both.0 k h ∙ spaces k h, spaces k h, both.1 k h ∙ spaces k h)
    where
      cleared : Screen
      cleared = record {
        new_screen = rows screen_height 0 space_cell s.new_screen;
        old_screen = rows screen_height 0 zero_cell s.old_screen;
        screen_cursor_x = 0;
        screen_cursor_y = 0;
      }

      split : (n : ℕ) → (0 + n / screen_width) * screen_width + n % screen_width ≡ n
      split n = omega arith

      spaces : (n : ℕ) → n < screen_height * screen_width → cleared.new_screen n ≡ 32
      spaces n l =
          subst (λ m. rows screen_height 0 space_cell s.new_screen m ≡ 32) (split n)
            (rows-at space_cell screen_height 0 s.new_screen (n / screen_width) (n % screen_width)
              (λ f g i j _. refl) (omega arith) (omega arith))

      zeros : (n : ℕ) → n < screen_height * screen_width → cleared.old_screen n ≡ 0
      zeros n l =
          subst (λ m. rows screen_height 0 zero_cell s.old_screen m ≡ 0) (split n)
            (rows-at zero_cell screen_height 0 s.old_screen (n / screen_width) (n % screen_width)
              (λ f g i j _. refl) (omega arith) (omega arith))
