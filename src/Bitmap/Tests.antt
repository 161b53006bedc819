-- ===== src/Bitmap/Tests.antt =====
-- Runs of kernel/fs/bitmap.c at small maps, and its theorems there.
use tina.Base.{ℕ, ◌≡◌, refl, true, List, [], ◌∷◌, arith}
use tina.Bitmap.{
  IsMap, found, bad_target, not_found, full_word, bitmap_search, bitmap_getbit, bitmap_modify,
}
use tina.Bitmap.Search.{First, search-First}

-- a full word, then one whose low three bits are set
abbrev used : List ℕ
used = full_word ∷ 7 ∷ []

search_free : bitmap_search used 0 64 ≡ found 35
unfolding bitmap_search
search_free = refl

search_full : bitmap_search (full_word ∷ []) 0 32 ≡ not_found
unfolding bitmap_search
search_full = refl

search_bad : bitmap_search used 2 64 ≡ bad_target
unfolding bitmap_search
search_bad = refl

modify_then_get : bitmap_modify used 1 35 ≡ (full_word ∷ 15 ∷ [], true)
unfolding bitmap_modify
modify_then_get = refl

used-IsMap : IsMap used
used-IsMap = omega arith

search-First_example : First (bitmap_getbit used) 0 0 64 (bitmap_search used 0 64)
search-First_example = search-First used 0 64 (omega arith)
