-- ===== src/Bitmap/Search.antt =====
-- What `bitmap_search` finds: kernel/fs/bitmap.c.
use tina.Base.{
  ℕ, zero, suc, ◌+◌, ◌-◌, ◌*◌, ◌/◌, ◌%◌, ◌^◌, ◌≤◌, ◌<◌, ◌≡◌, ◌≢◌, ◌↔◌, refl, ap, sym, inl, inr,
  true, List, arith, bit_and, false≢true, ◌==◌, ==_iff, lt→ltb, dec_lt, get_or, Bool-cases, ◌∙◌,
  subst,
}
use tina.Base.Bits.{bit, bit-zero, bit-bit_not, bit-le-one, bit_and-pow, pow-pos}
use tina.Bitmap.{
  Found, found, bad_target, not_found, search_word, offset_by, search_words, flat_of, bitmap_search,
  bitmap_getbit,
}
use tina.Bitmap.Modify.{getbit-eq-bit}

-- The result is the first index from `lo` to `hi` at which `f` is `t`, and `not_found` if there is none.
abbrev pub First : (ℕ → ℕ) → (t lo hi : ℕ) → Found → Type 0
First f t lo hi (found k) = (lo ≤ k) × (k < hi) × (f k ≡ t) × ((i : ℕ) → lo ≤ i → i < k → f i ≢ t)
First f t lo hi not_found = (i : ℕ) → lo ≤ i → i < hi → f i ≢ t
First f t lo hi bad_target = ⊥

cancel_pow : (a b j : ℕ) → a ≤ 1 → b ≤ 1 → a * 2 ^ j ≡ b * 2 ^ j → a ≡ b
cancel_pow a b j ha hb e = grind (arith, pow-pos j)

test_bit :
    (j t w : ℕ) → j < 32 → t ≤ 1 → ((bit_and (1 * 2 ^ j) w == t * 2 ^ j) ≡ true) ↔ (bit w j ≡ t)
test_bit j t w hj ht = rw (bit_and-pow 32 j w hj) (
  λ h. cancel_pow (bit w j) t j (bit-le-one w j) ht ((==_iff _ _).0 h),
  λ e. (==_iff _ _).1 (ap (λ b. b * 2 ^ j) e),
)

-- Indices that miss can be put in front.
First-skip :
    (f : ℕ → ℕ) (t lo mid hi : ℕ) (r : Found)
    → lo ≤ mid
    → ((i : ℕ) → lo ≤ i → i < mid → f i ≢ t)
    → First f t mid hi r
    → First f t lo hi r
First-skip f t lo mid hi (found k) le miss (a, b, c, d) = (
  omega arith,
  b,
  c,
  λ i l h. elim (dec_lt i mid) [ yes q ↦ miss i l q | no q ↦ d i (omega arith) h ],
)
First-skip f t lo mid hi bad_target le miss h = h
First-skip f t lo mid hi not_found le miss d =
    λ i l h. elim (dec_lt i mid) [ yes q ↦ miss i l q | no q ↦ d i (omega arith) h ]

search_word-First :
    (left j t w : ℕ) → j + left ≡ 32 → t ≤ 1 → First (bit w) t j 32 (search_word left j t w)
unfolding search_word
search_word-First zero j t w e ht = λ i lo hi. absurd (omega arith)
search_word-First (suc left) j t w e ht = elim (Bool-cases (bit_and (1 * 2 ^ j) w == t * 2 ^ j)) [
  | inl hit ↦ rw hit (
    omega arith,
    omega arith,
    (test_bit j t w (omega arith) ht).0 hit,
    λ i lo hi. absurd (omega arith),
  )
  | inr miss ↦ rw miss (
      First-skip (bit w) t j (j + 1) 32 (search_word left (j + 1) t w) (omega arith)
        (λ i lo hi q.
          let at : i ≡ j = omega arith in
          false≢true (sym miss ∙ (test_bit j t w (omega arith) ht).1 (rw (← at) q)))
        (search_word-First left (j + 1) t w (omega arith) ht))
]

-- A word equal to `flat` holds no target.
flat_misses : (t k : ℕ) → t ≤ 1 → k < 32 → bit (flat_of t) k ≢ t
unfolding flat_of
flat_misses t k ht hk q = ground (arith, bit-zero k, bit-bit_not 32 0 k)

word_bits :
    (map : List ℕ) (i o : ℕ)
    → 32 * i ≤ o
    → o < 32 * i + 32
    → bitmap_getbit map o ≡ bit (get_or map i 0) (o - 32 * i)
word_bits map i o lo hi =
    let a : o / 32 ≡ i = omega arith in
    let b : o % 32 ≡ o - 32 * i = omega arith in getbit-eq-bit map o ∙ rw (a, b)

-- A result in word `i` is a result in the map.
offset-First :
    (map : List ℕ) (t i hi : ℕ) (r rest : Found)
    → 32 * i + 32 ≤ hi
    → First (bit (get_or map i 0)) t 0 32 r
    → First (bitmap_getbit map) t (32 * (i + 1)) hi rest
    → First (bitmap_getbit map) t (32 * i) hi (offset_by i r rest)
unfolding offset_by
offset-First map t i hi (found k) rest le (a, b, c, d) h = (
  omega arith,
  omega arith,
  word_bits map i (32 * i + k) (omega arith) (omega arith)
      ∙ at k (32 * i + k - 32 * i) (omega arith) c,
  λ o lo hi q.
      d (o - 32 * i) (omega arith) (omega arith) (sym (word_bits map i o lo (omega arith)) ∙ q),
)
  where
    at : (a b : ℕ) → b ≡ a → bit (get_or map i 0) a ≡ t → bit (get_or map i 0) b ≡ t
    at a b e q = rw e q
offset-First map t i hi bad_target rest le w h = absurd w
offset-First map t i hi not_found rest le d h =
    First-skip (bitmap_getbit map) t (32 * i) (32 * (i + 1)) hi rest (omega arith)
      (λ o lo hi q.
        d (o - 32 * i) (omega arith) (omega arith) (sym (word_bits map i o lo (omega arith)) ∙ q))
      h

search_words-First :
    (left i t : ℕ) (map : List ℕ)
    → t ≤ 1
    → First (bitmap_getbit map) t (32 * i) (32 * (i + left)) (search_words left i t (flat_of t) map)
unfolding search_words
search_words-First zero i t map ht = λ o lo hi. absurd (omega arith)
search_words-First (suc left) i t map ht =
    let ih : First (bitmap_getbit map) t (32 * (i + 1)) (32 * (i + suc left))
        (search_words left (i + 1) t (flat_of t) map) =
      subst
        (λ n.
          First (bitmap_getbit map) t (32 * (i + 1)) (32 * n)
            (search_words left (i + 1) t (flat_of t) map))
        (omega arith) (search_words-First left (i + 1) t map ht) in
    elim (Bool-cases (get_or map i 0 == flat_of t)) [
      | inl flat ↦ rw flat (
          First-skip (bitmap_getbit map) t (32 * i) (32 * (i + 1)) (32 * (i + suc left))
            (search_words left (i + 1) t (flat_of t) map) (omega arith)
            (λ o lo hi q.
              flat_misses t (o - 32 * i) ht (omega arith)
                (rw (← ((==_iff _ _).0 flat)) (sym (word_bits map i o lo (omega arith)) ∙ q)))
            ih)
      | inr other ↦ rw other (
          offset-First map t i (32 * (i + suc left)) _ _ (omega arith)
            (search_word-First 32 0 t (get_or map i 0) refl ht) ih)
    ]

-- For a target that is a bit, `bitmap_search` finds the first index below the bound, rounded down to
-- whole words, whose bit is the target, and reports none exactly when there is none (where the bound
-- is behind the map, words there count as 0).
pub search-First :
    (map : List ℕ) (t bound : ℕ)
    → t < 2
    → First (bitmap_getbit map) t 0 (32 * (bound / 32)) (bitmap_search map t bound)
unfolding bitmap_search
search-First map t bound ht = rw (lt→ltb t 2 ht) (
    subst
      (λ n. First (bitmap_getbit map) t 0 (32 * n) (search_words (bound / 32) 0 t (flat_of t) map))
      (omega arith) (search_words-First (bound / 32) 0 t map (omega arith)))
