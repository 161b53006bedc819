-- ===== src/Screen/Tests.antt =====
-- Runs of drivers/screen.c, and its theorems at them.
use tina.Base.{
  ℕ, ◌+◌, ◌-◌, ◌*◌, ◌<◌, ◌≡◌, ◌≢◌, inl, inr, refl, ap, ◌∙◌, arith, ◌==◌, if◌then◌else◌, Bool-cases,
  update,
}
use tina.Screen.{Screen, Event, move_cursor, write_ch, screen_width, screen_height, screen_reflush}
use tina.Screen.Cursor.{IsInside}
use tina.Screen.Reflush.{send_all, reflush_lem}

-- A terminal with its cells and the offset of its cursor.
abbrev cell : (ℕ → ℕ) × ℕ → ℕ → ℕ
cell t = t.0

abbrev send : (ℕ → ℕ) × ℕ → Event → (ℕ → ℕ) × ℕ
send t (move_cursor x y) = (t.0, (y - 1) * screen_width + (x - 1))
send t (write_ch c) = (update t.0 t.1 c, t.1 + 1)
send t _ = t

draws :
    (t : (ℕ → ℕ) × ℕ) (x y c k : ℕ)
    → x < screen_width
    → y < screen_height
    → cell (send (send t (move_cursor (x + 1) (y + 1))) (write_ch c)) k
      ≡ update (cell t) (y * screen_width + x) c k
draws t x y c k hx hy =
    let at : (y + 1 - 1) * screen_width + (x + 1 - 1) ≡ y * screen_width + x = omega arith in
    ap (λ n. update t.0 n c k) at

moves : (t : (ℕ → ℕ) × ℕ) (x y k : ℕ) → cell (send t (move_cursor x y)) k ≡ cell t k
moves t x y k = refl

-- An `A` in the middle of the bottom line.
abbrev sample : Screen
sample = record {
  new_screen = λ k. if k == 2340 then 65 else 32;
  old_screen = λ k. if k == 2340 then 0 else 32;
  screen_cursor_x = 21;
  screen_cursor_y = 29;
}

abbrev blank : (ℕ → ℕ) × ℕ
blank = (λ k. 32, 0)

inside : IsInside sample
inside = record { column = omega arith; line = omega arith }

reflush_lem_example :
    ((k : ℕ)
      → k < screen_height * screen_width
      → cell (send_all cell send draws moves blank (screen_reflush sample).1) k
        ≡ sample.new_screen k)
    × ((k : ℕ)
        → k < screen_height * screen_width
        → (screen_reflush sample).0.old_screen k ≡ sample.new_screen k)
reflush_lem_example = reflush_lem cell send draws moves sample blank synced
  where
    zero_ne : (n : ℕ) → n ≡ 0 → n ≢ 65
    zero_ne n e f = omega arith

    synced :
        (k : ℕ)
        → k < screen_height * screen_width
        → sample.old_screen k ≡ sample.new_screen k
        → 32 ≡ sample.new_screen k
    synced k h e = elim (Bool-cases (k == 2340)) [
      | inl b ↦ absurd (zero_ne (sample.old_screen k) (rw b) (e ∙ rw b))
      | inr b ↦ rw b
    ]
