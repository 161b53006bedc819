-- ===== src/Screen/Cursor.antt =====
-- The cursor and the cells that a character writes: drivers/screen.c.
use tina.Base.{
  lt_of_leb, ℕ, ◌+◌, ◌-◌, ◌*◌, ◌≤◌, ◌<◌, ◌≡◌, ◌≢◌, inl, inr, refl, subst, ◌∙◌, ◌||◌, List, [], ◌∷◌,
  arith, ltb, leb, ◌==◌, ==_ne, leb_lt, leb_le, dec_lt, if◌then◌else◌, Bool-cases, update-ne,
}
use tina.Screen.{
  zero_cell, Screen, screen_width, screen_height, screen_scroll, scroll_cell, put_ch, wrap_line,
  wrap_screen, screen_write_ch, screen_write, rows,
}
use tina.Screen.Rows.{rows-at, rows-behind, scroll-Ahead}

-- The cursor is on the screen.
pub record IsInside (s : Screen) : Type 0 where
  pub column : s.screen_cursor_x < screen_width
  pub line : s.screen_cursor_y < screen_height

wrap_line-column : (s : Screen) → (wrap_line s).screen_cursor_x < screen_width
unfolding wrap_line
wrap_line-column s = elim (Bool-cases (leb screen_width s.screen_cursor_x)) [
  | inl e ↦ rw e (omega arith)
  | inr e ↦ rw e (lt_of_leb screen_width s.screen_cursor_x e)
]

wrap_screen-IsInside : (s : Screen) → s.screen_cursor_x < screen_width → IsInside (wrap_screen s)
unfolding wrap_screen screen_scroll
wrap_screen-IsInside s h = elim (Bool-cases (leb screen_height s.screen_cursor_y)) [
  | inl e ↦ rw e (record { column = omega arith; line = omega arith })
  | inr e ↦ rw e (record { column = h; line = lt_of_leb screen_height s.screen_cursor_y e })
]

-- After `screen_write_ch`, wherever the cursor was, it is on the screen.
pub write_ch-IsInside : (ch : ℕ) (s : Screen) → IsInside (screen_write_ch ch s)
unfolding screen_write_ch
write_ch-IsInside ch s =
    wrap_screen-IsInside (wrap_line (put_ch ch s)) (wrap_line-column (put_ch ch s))

pub write-IsInside : (buff : List ℕ) (s : Screen) → IsInside s → IsInside (screen_write buff s)
unfolding screen_write
write-IsInside [] s i = i
write-IsInside (ch ∷ buff) s i = write-IsInside buff (screen_write_ch ch s) (write_ch-IsInside ch s)

-- Cells behind the screen are not touched.
record Kept (s s' : Screen) : Type 0 where
  new : (k : ℕ) → screen_height * screen_width ≤ k → s'.new_screen k ≡ s.new_screen k
  old : (k : ℕ) → screen_height * screen_width ≤ k → s'.old_screen k ≡ s.old_screen k

put_ch-Kept : (ch : ℕ) (s : Screen) → IsInside s → Kept s (put_ch ch s)
unfolding put_ch
put_ch-Kept ch s i = elim (Bool-cases ((ch == 10) || (ch == 13))) [
  | inl e ↦ rw e (record { new = λ k h. refl; old = λ k h. refl })
  | inr e ↦ elim (Bool-cases (ch == 8)) [
    | inl b ↦ elim (Bool-cases (ltb 0 s.screen_cursor_x)) [
      | inl c ↦
          rw (e, b, c)
            (record {
              new = λ k h. update-ne s.new_screen _ 32 k (omega (arith, i.column, i.line));
              old = λ k h. refl;
            })
      | inr c ↦ rw (e, b, c) (record { new = λ k h. refl; old = λ k h. refl })
    ]
    | inr b ↦
        rw (e, b)
          (record {
            new = λ k h. update-ne s.new_screen _ ch k (omega (arith, i.column, i.line));
            old = λ k h. refl;
          })
  ]
]

wrap_line-Kept : (s : Screen) → Kept s (wrap_line s)
unfolding wrap_line
wrap_line-Kept s = elim (Bool-cases (leb screen_width s.screen_cursor_x)) [
  | inl e ↦ rw e (record { new = λ k h. refl; old = λ k h. refl })
  | inr e ↦ rw e (record { new = λ k h. refl; old = λ k h. refl })
]

wrap_screen-Kept : (s : Screen) → Kept s (wrap_screen s)
unfolding wrap_screen screen_scroll
wrap_screen-Kept s = elim (Bool-cases (leb screen_height s.screen_cursor_y)) [
  | inl e ↦ rw e (record {
    new = λ k h. rows-behind (scroll_cell 29) 14 16 s.new_screen k h;
    old = λ k h. rows-behind zero_cell 14 16 s.old_screen k h;
  })
  | inr e ↦ rw e (record { new = λ k h. refl; old = λ k h. refl })
]

-- With the cursor on the screen, `screen_write_ch` writes nothing behind the end of either buffer.
pub write_ch-Kept :
    (ch : ℕ) (s : Screen) (k : ℕ)
    → IsInside s
    → screen_height * screen_width ≤ k
    → ((screen_write_ch ch s).new_screen k ≡ s.new_screen k)
      × ((screen_write_ch ch s).old_screen k ≡ s.old_screen k)
unfolding screen_write_ch
write_ch-Kept ch s k i h =
    let p = put_ch-Kept ch s i in
    let l = wrap_line-Kept (put_ch ch s) in
    let w = wrap_screen-Kept (wrap_line (put_ch ch s)) in
    (w.new k h ∙ l.new k h ∙ p.new k h, w.old k h ∙ l.old k h ∙ p.old k h)

-- With the cursor on the screen but not in its last cell, `screen_write_ch` of a character that is no
-- backspace, newline or return puts it in the cell of the cursor, changes no other cell of the new
-- screen, and moves the cursor to the next cell, line by line.
pub write_ch-plain :
    (ch : ℕ) (s : Screen)
    → IsInside s
    → ch ≢ 8
    → ch ≢ 10
    → ch ≢ 13
    → s.screen_cursor_y * screen_width + s.screen_cursor_x + 1 < screen_height * screen_width
    → ((k : ℕ)
        → (screen_write_ch ch s).new_screen k ≡ (
            if s.screen_cursor_y * screen_width + s.screen_cursor_x == k
            then ch
            else s.new_screen k))
      × ((screen_write_ch ch s).screen_cursor_y * screen_width
            + (screen_write_ch ch s).screen_cursor_x
          ≡ s.screen_cursor_y * screen_width + s.screen_cursor_x + 1)
unfolding screen_write_ch put_ch wrap_line wrap_screen
write_ch-plain ch s i n8 n10 n13 room = elim (dec_lt (s.screen_cursor_x + 1) screen_width) [
  | yes l ↦
      rw
        (
          ==_ne ch 10 n10,
          ==_ne ch 13 n13,
          ==_ne ch 8 n8,
          leb_lt screen_width (s.screen_cursor_x + 1) l,
          leb_lt screen_height s.screen_cursor_y i.line,
        )
        (λ k. refl, omega arith)
  | no l ↦
      rw
        (
          ==_ne ch 10 n10,
          ==_ne ch 13 n13,
          ==_ne ch 8 n8,
          leb_le screen_width (s.screen_cursor_x + 1) (omega arith),
          leb_lt screen_height (s.screen_cursor_y + 1) (omega (arith, i.column)),
        )
        (λ k. refl, omega (arith, i.column))
]

-- A newline on the last line gives each of the lines from 16 on the contents of the line below it, and
-- fills the last line with spaces.
pub newline-scrolls :
    (s : Screen) (i j : ℕ)
    → s.screen_cursor_y ≡ screen_height - 1
    → j < screen_width
    → 16 ≤ i
    → i < screen_height
    → (screen_write_ch 10 s).new_screen (i * screen_width + j)
      ≡ (if i == screen_height - 1 then 32 else s.new_screen ((i + 1) * screen_width + j))
unfolding screen_write_ch put_ch wrap_line wrap_screen screen_scroll
newline-scrolls s i j bottom l lo hi =
    let n : ℕ = i - 16 in
    let at : 16 + n ≡ i = omega arith in
    rw bottom (
      subst
        (λ m.
          rows 14 16 (scroll_cell 29) s.new_screen (m * screen_width + j)
          ≡ scroll_cell 29 s.new_screen m j)
        at (rows-at (scroll_cell 29) 14 16 s.new_screen n j (scroll-Ahead 29) (omega arith) l))
