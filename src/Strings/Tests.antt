-- ===== src/Strings/Tests.antt =====
-- Runs of libs/string.c, and its theorems at them.
use tina.Base.{ℕ, refl, [], ◌∷◌, arith, ◌==◌, if◌then◌else◌}
use tina.Strings.Text.{Text}

-- `ls` at 4 and `lsx` at 20.
abbrev mem : ℕ → ℕ
mem a =
    if a == 4
    then 108
    else (if a == 5
        then 115
        else (if a == 20 then 108 else (if a == 21 then 115 else (if a == 22 then 120 else 0))))

ls : Text mem 4 (108 ∷ 115 ∷ [])
ls = (refl, omega arith, (refl, omega arith, refl))

lsx : Text mem 20 (108 ∷ 115 ∷ 120 ∷ [])
lsx = (refl, omega arith, (refl, omega arith, (refl, omega arith, refl)))
