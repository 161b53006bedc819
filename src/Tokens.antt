-- ===== src/Tokens.antt =====
-- Cutting a string into its parts: the loops of `decode_path` of kernel/fs/path.c, at `/`, and of
-- `decode` of test/test_shell.c, at ` `. A part is the list of its characters.
pub mod Words
use tina.Base.{
  false, ◌&&◌, true, Bool, ℕ, Option, none, some, List, [], ◌∷◌, ◌++◌, ◌==◌, if◌then◌else◌,
}

-- `none` is the outer loop, between the parts, and `some part` the inner one, in the part.
abbrev pub begun : Option (List ℕ) → List ℕ
begun none = []
begun (some part) = part

abbrev pub ended : Option (List ℕ) → List (List ℕ)
ended none = []
ended (some part) = part ∷ []

unfoldable pub split_loop : (separator : ℕ) → Option (List ℕ) → List ℕ → List (List ℕ)
split_loop sep part [] = ended part
split_loop sep part (c ∷ cs) =
    let next = if c == sep then none else some (begun part ++ c ∷ []) in
    let out = if c == sep then ended part else [] in out ++ split_loop sep next cs

unfoldable pub split : (separator : ℕ) → List ℕ → List (List ℕ)
split sep cs = split_loop sep none cs

-- Do two strings have the same characters? `strcmp` is 0 then.
unfoldable pub same_string : List ℕ → List ℕ → Bool
same_string [] [] = true
same_string (c ∷ cs) (d ∷ ds) = (c == d) && same_string cs ds
same_string cs ds = false
