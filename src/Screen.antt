-- ===== src/Screen.antt =====
-- The screen: drivers/screen.c. A buffer is a function from offsets; the cursor is never negative, as
-- the arguments of `screen_move_cursor` are taken to be, so that the tests for a negative one fail.
pub mod Rows
pub mod Cursor
pub mod Reflush
mod Tests
use tina.Base.{
  ℕ, zero, suc, ◌+◌, ◌-◌, ◌*◌, ◌/◌, ◌%◌, ◌^◌, ◌≤◌, ◌<◌, min, max, ◌≡◌, ◌≢◌, ◌↔◌, ◌⊎◌, inl, inr,
  refl, sym, ap, ap₂, subst, ◌∙◌, fun_ext, Bool, true, false, not, ◌&&◌, ◌||◌, false≢true, Option,
  none, some, List, [], ◌∷◌, ◌++◌, map, append-nil, append_assoc, arith, ltb, leb, ◌==◌, ==_iff,
  ==_ne, ltb→lt, lt→ltb, leb_lt, leb_le, ltb_le, dec_lt, ℕ_discrete, if◌then◌else◌, Bool-cases,
  Option-cases, update, update-ne, update-eq, length, get_or, set, take, drop, replicate, All, has,
  ◌∈◌, ◌∉◌, Distinct, has-append, not-mem-cons, not-mem-append, mem_middle, mem-append_left,
  length-append, length-set, get_or-set, length-replicate, get_or-replicate,
}

abbrev pub screen_width : ℕ
screen_width = 80

abbrev pub screen_height : ℕ
screen_height = 30

pub record Screen : Type 0 where
  pub new_screen : ℕ → ℕ
  pub old_screen : ℕ → ℕ
  pub screen_cursor_x : ℕ
  pub screen_cursor_y : ℕ

-- What goes out of the serial port: `vt100_move_cursor(x, y)`, a character, and the two other
-- sequences of `init_screen`.
pub data Event : Type 0 where
  move_cursor : (x y : ℕ) → Event
  write_ch : ℕ → Event
  hidden_cursor : Event
  clear : Event

-- The loop over the columns `j` of line `i`, and the loop over the lines, with `left` to go; `cell`
-- is the value assigned.
row : (left i j : ℕ) → (cell : (ℕ → ℕ) → ℕ → ℕ → ℕ) → (ℕ → ℕ) → ℕ → ℕ
row zero i j cell f = f
row (suc left) i j cell f = row left i (j + 1) cell (update f (i * screen_width + j) (cell f i j))

unfoldable pub rows : (left i : ℕ) → (cell : (ℕ → ℕ) → ℕ → ℕ → ℕ) → (ℕ → ℕ) → ℕ → ℕ
unfolding row
rows zero i cell f = f
rows (suc left) i cell f = rows left (i + 1) cell (row screen_width i 0 cell f)

-- The assignments of the two loops of `screen_scroll`.
abbrev pub zero_cell : (ℕ → ℕ) → ℕ → ℕ → ℕ
zero_cell f i j = 0

abbrev pub scroll_cell : (line2 : ℕ) → (ℕ → ℕ) → ℕ → ℕ → ℕ
scroll_cell line2 f i j = if i == line2 then 32 else f ((i + 1) * screen_width + j)

abbrev pub space_cell : (ℕ → ℕ) → ℕ → ℕ → ℕ
space_cell f i j = 32

unfoldable pub screen_scroll : (line1 line2 : ℕ) → Screen → Screen
screen_scroll line1 line2 s = record s {
  old_screen = rows (line2 + 1 - line1) line1 zero_cell s.old_screen;
  new_screen = rows (line2 + 1 - line1) line1 (scroll_cell line2) s.new_screen;
}

-- The first part of `screen_write_ch`, up to the tests of the cursor.
unfoldable pub put_ch : (ch : ℕ) → Screen → Screen
put_ch ch s =
    if (ch == 10) || (ch == 13)
    then record s { screen_cursor_x = 0; screen_cursor_y = s.screen_cursor_y + 1 }
    else (if ch == 8
        then (if ltb 0 s.screen_cursor_x
            then record s {
              screen_cursor_x = s.screen_cursor_x - 1;
              new_screen =
                  update s.new_screen (s.screen_cursor_y * screen_width + (s.screen_cursor_x - 1))
                    32;
            }
            else s)
        else record s {
          new_screen =
              update s.new_screen (s.screen_cursor_y * screen_width + s.screen_cursor_x) ch;
          screen_cursor_x = s.screen_cursor_x + 1;
        })

unfoldable pub wrap_line : Screen → Screen
wrap_line s =
    if leb screen_width s.screen_cursor_x
    then record s { screen_cursor_y = s.screen_cursor_y + 1; screen_cursor_x = 0 }
    else s

unfoldable pub wrap_screen : Screen → Screen
wrap_screen s =
    let up = screen_scroll (screen_height / 2 + 1) (screen_height - 1) s in
    if leb screen_height s.screen_cursor_y
    then record up { screen_cursor_x = 0; screen_cursor_y = screen_height - 1 }
    else s

unfoldable pub screen_write_ch : (ch : ℕ) → Screen → Screen
screen_write_ch ch s = wrap_screen (wrap_line (put_ch ch s))

unfoldable pub screen_move_cursor : (x y : ℕ) → Screen → Screen
screen_move_cursor x y s = record s { screen_cursor_x = x; screen_cursor_y = y }

-- The characters of the string in front of its `\0`.
unfoldable pub screen_write : (buff : List ℕ) → Screen → Screen
screen_write [] s = s
screen_write (ch ∷ buff) s = screen_write buff (screen_write_ch ch s)

-- The loops of `screen_reflush`: the old screen and what is sent.
reflush_row : (left i j : ℕ) → (new_screen old_screen : ℕ → ℕ) → (ℕ → ℕ) × List Event
reflush_row zero i j new_screen old_screen = (old_screen, [])
reflush_row (suc left) i j new_screen old_screen =
    let at = i * screen_width + j in
    let same = new_screen at == old_screen at in
    let old = if same then old_screen else update old_screen at (new_screen at) in
    let sent = if same then [] else move_cursor (j + 1) (i + 1) ∷ write_ch (new_screen at) ∷ [] in
    let (old', rest) = reflush_row left i (j + 1) new_screen old in (old', sent ++ rest)

reflush_rows : (left i : ℕ) → (new_screen old_screen : ℕ → ℕ) → (ℕ → ℕ) × List Event
unfolding reflush_row
reflush_rows zero i new_screen old_screen = (old_screen, [])
reflush_rows (suc left) i new_screen old_screen =
    let (old, sent) = reflush_row screen_width i 0 new_screen old_screen in
    let (old', rest) = reflush_rows left (i + 1) new_screen old in (old', sent ++ rest)

unfoldable pub screen_reflush : Screen → Screen × List Event
unfolding reflush_rows
screen_reflush s =
    let (old, sent) = reflush_rows screen_height 0 s.new_screen s.old_screen in
    (record s { old_screen = old }, sent ++ move_cursor s.screen_cursor_x s.screen_cursor_y ∷ [])

unfoldable pub screen_clear : (line1 line2 : ℕ) → Screen → Screen × List Event
screen_clear line1 line2 s = screen_reflush (record {
  new_screen = rows screen_height 0 space_cell s.new_screen;
  old_screen = rows screen_height 0 zero_cell s.old_screen;
  screen_cursor_x = 0;
  screen_cursor_y = 0;
})

unfoldable pub init_screen : Screen → Screen × List Event
init_screen s =
    let (s', sent) = screen_clear 0 (screen_height - 1) s in (s', hidden_cursor ∷ clear ∷ sent)

unfoldable pub command_clear : Screen → Screen × List Event
command_clear s = screen_clear 0 0 s
