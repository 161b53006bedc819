-- ===== src/Bitmap/Modify.antt =====
-- `bitmap_modify` against `bitmap_getbit`: kernel/fs/bitmap.c.
use tina.Base.{
  inr, length-set, inl, ltb, Bool-cases, ℕ, zero, suc, ◌*◌, ◌/◌, ◌%◌, ◌^◌, ◌≤◌, ◌<◌, ◌≡◌, sym, List,
  [], ◌∷◌, arith, bit_and, ◌==◌, lt→ltb, dec_lt, if◌then◌else◌, length, get_or, set, get_or-set,
  ◌∙◌,
}
use tina.Base.Bits.{
  bit, bit-le-one, bit-bit_and, bit-bit_or, bit-shift, bit-bit_not, bit_not, bit_and-lt, bit_or-lt,
  bit-eq-div-mod, bit_and-one, pow-lt_word, pow-pos,
}
use tina.Bitmap.{IsMap, modify_word, bitmap_modify, bitmap_getbit}

pub get_or-lt : (map : List ℕ) (i : ℕ) → IsMap map → get_or map i 0 < 2 ^ 32
get_or-lt [] i h = omega arith
get_or-lt (w ∷ ws) zero h = h.0
get_or-lt (w ∷ ws) (suc i) h = get_or-lt ws i h.1

pub getbit-eq-bit :
    (map : List ℕ) (o : ℕ) → bitmap_getbit map o ≡ bit (get_or map (o / 32) 0) (o % 32)
unfolding bitmap_getbit
getbit-eq-bit map o =
    bit_and-one (get_or map (o / 32) 0 / 2 ^ (o % 32))
    ∙ sym (bit-eq-div-mod (get_or map (o / 32) 0) (o % 32))

bit-modify_word :
    (t j w k : ℕ)
    → t ≤ 1
    → j < 32
    → k < 32
    → w < 2 ^ 32
    → bit (modify_word t j w) k ≡ (if j == k then t else bit w k)
unfolding modify_word
bit-modify_word t j w k ht hj hk hw = ground (
  arith,
  bit-bit_or (bit_and w (bit_not 32 (1 * 2 ^ j))) (t * 2 ^ j) k,
  bit-bit_and w (bit_not 32 (1 * 2 ^ j)) k,
  bit-bit_not 32 (1 * 2 ^ j) k,
  bit-shift t j k,
  bit-shift 1 j k,
  bit-le-one w k,
  pow-lt_word 32 j hj,
  pow-pos j,
)

modify_word-lt : (t j w : ℕ) → t ≤ 1 → j < 32 → w < 2 ^ 32 → modify_word t j w < 2 ^ 32
unfolding modify_word
modify_word-lt t j w ht hj hw =
    bit_or-lt 32 (bit_and w (bit_not 32 (1 * 2 ^ j))) (t * 2 ^ j)
      (bit_and-lt 32 w (bit_not 32 (1 * 2 ^ j)) hw) (grind (arith, pow-lt_word 32 j hj, pow-pos j))

IsMap-set : (map : List ℕ) (i w : ℕ) → IsMap map → w < 2 ^ 32 → IsMap (set map i w)
IsMap-set [] i w h l = tt
IsMap-set (x ∷ xs) zero w h l = (l, h.1)
IsMap-set (x ∷ xs) (suc i) w h l = (h.0, IsMap-set xs i w h.1 l)

-- `bitmap_modify` keeps the words of a map within 32 bits.
pub modify-IsMap : (map : List ℕ) (t o : ℕ) → IsMap map → IsMap (bitmap_modify map t o).0
unfolding bitmap_modify
modify-IsMap map t o h = elim (dec_lt t 2) [
  | yes p ↦ rw (lt→ltb t 2 p) (
      IsMap-set map (o / 32) _ h
        (modify_word-lt t (o % 32) _ (omega arith) (omega arith) (get_or-lt map (o / 32) h)))
  | no p ↦ ground arith
]

-- In a map of words within 32 bits, after `bitmap_modify` with a bit for its target and an offset
-- inside the map, the bit at the offset is the target and every other bit is as before.
pub getbit-modify :
    (map : List ℕ) (t o k : ℕ)
    → IsMap map
    → t < 2
    → o < 32 * length map
    → bitmap_getbit (bitmap_modify map t o).0 k ≡ (if o == k then t else bitmap_getbit map k)
unfolding bitmap_modify
getbit-modify map t o k h ht ho = ground (
  arith,
  get_or-set map (o / 32) (k / 32) (modify_word t (o % 32) (get_or map (o / 32) 0)) 0,
  bit-modify_word t (o % 32) (get_or map (o / 32) 0) (k % 32),
  get_or-lt map (o / 32) h,
  lt→ltb t 2 ht,
  getbit-eq-bit map k,
  getbit-eq-bit (bitmap_modify map t o).0 k,
)

pub length-modify : (map : List ℕ) (t o : ℕ) → length (bitmap_modify map t o).0 ≡ length map
unfolding bitmap_modify
length-modify map t o = elim (Bool-cases (ltb t 2)) [
  | inl e ↦ rw e (length-set map (o / 32) (modify_word t (o % 32) (get_or map (o / 32) 0)))
  | inr e ↦ rw e
]
