-- ===== src/Bitmap.antt =====
-- The bit map of inodes: kernel/fs/bitmap.c. A map is a list of 32-bit words; bit `offset` is bit
-- `offset % 32` of word `offset / 32`.
pub mod Modify
pub mod Search
mod Tests
use tina.Base.{
  ℕ, zero, suc, ◌+◌, ◌-◌, ◌*◌, ◌/◌, ◌%◌, ◌^◌, ◌≤◌, ◌<◌, ◌≡◌, Bool, true, false, List, All, bit_and,
  bit_or, ◌==◌, ltb, if◌then◌else◌, length, get_or, set,
}
use tina.Base.Bits.{bit_not}

abbrev pub word_size : ℕ
word_size = 32

-- `0xffffffff`
abbrev pub full_word : ℕ
full_word = 2 ^ 32 - 1

abbrev pub IsMap : List ℕ → Type 0
IsMap = All (λ w. w < 2 ^ 32)

-- The int that `bitmap_search` returns: an index, -1 for a target that is no bit, -2 for no hit.
pub data Found : Type 0 where
  found : ℕ → Found
  bad_target : Found
  not_found : Found

-- The loop over `j`: the first bit of the word, from `j` on, that is the target. The fuel is the
-- number of bits left, 32 at the start.
search_word : (left j target word : ℕ) → Found
search_word zero j target word = not_found
search_word (suc left) j target word =
    let rest = search_word left (j + 1) target word in
    if bit_and (1 * 2 ^ j) word == target * 2 ^ j then found j else rest

-- What a word's result is in the map, when `i` words stand before it.
offset_by : ℕ → Found → Found → Found
offset_by i (found j) rest = found (32 * i + j)
offset_by i _ rest = rest

-- The loop over `i`, with `left` words to go: a word that is all `flat` is passed over.
search_words : (left i target flat : ℕ) → List ℕ → Found
search_words zero i target flat map = not_found
search_words (suc left) i target flat map =
    let rest = search_words left (i + 1) target flat map in
    if get_or map i 0 == flat
    then rest
    else offset_by i (search_word 32 0 target (get_or map i 0)) rest

-- A word without the target: all ones for 0, all zeros for 1.
flat_of : ℕ → ℕ
flat_of target = if target == 1 then 0 else full_word

unfoldable pub bitmap_search : List ℕ → (target bound : ℕ) → Found
unfolding search_word offset_by search_words flat_of
bitmap_search map target bound =
    if ltb target 2 then search_words (bound / 32) 0 target (flat_of target) map else bad_target

unfoldable pub bitmap_getbit : List ℕ → ℕ → ℕ
bitmap_getbit map offset = bit_and (get_or map (offset / 32) 0 / 2 ^ (offset % 32)) 1

-- The new word of `bitmap_modify`.
modify_word : (target j word : ℕ) → ℕ
modify_word target j word = bit_or (bit_and word (bit_not 32 (1 * 2 ^ j))) (target * 2 ^ j)

-- The map beside the status: `true` for 0, `false` for -1.
unfoldable pub bitmap_modify : List ℕ → (target offset : ℕ) → List ℕ × Bool
unfolding modify_word
bitmap_modify map target offset =
    if ltb target 2
    then (
      set map (offset / 32) (modify_word target (offset % 32) (get_or map (offset / 32) 0)),
      true,
    )
    else (map, false)
