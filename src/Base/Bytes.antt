-- ===== src/Base/Bytes.antt =====
-- Objects as bytes: a buffer is a function from the offsets of an object, and a 32-bit word is four
-- bytes, the lowest one first.
use Prim.Native.Nat.{zero, suc, ℕ, ◌+◌, ◌-◌, ◌*◌, ◌/◌, ◌%◌, ◌^◌, ◌≤◌, ◌<◌}
use mathlib.Core.Path.{ap, sym, subst, ◌≡◌, refl, ◌∙◌}
use mathlib.Core.Logic.{◌≢◌, ◌⊎◌, inl, inr}
use mathlib.Core.Bool.{Bool, true, ◌&&◌}
use mathlib.Core.List.{List, [], ◌∷◌}
use native.Mathlib.Omega.{arith}
use native.Mathlib.Decide.{dec_lt}
use tina.Base.Tests.{
  ==_iff, ==_ne, ◌==◌, ltb, leb, ltb_le, lt→ltb, leb_le, leb_lt, if◌then◌else◌, update, update-ne,
  update-eq,
}
use tina.Base.Lists.{length}

abbrev pub Buffer : Type 0
Buffer = ℕ → ℕ

unfoldable pub word : Buffer → ℕ → ℕ
word f o = f o + f (o + 1) * 2 ^ 8 + f (o + 2) * 2 ^ 16 + f (o + 3) * 2 ^ 24

unfoldable pub put_word : Buffer → (o w : ℕ) → Buffer
put_word f o w =
    update
      (update (update (update f o (w % 2 ^ 8)) (o + 1) (w / 2 ^ 8 % 2 ^ 8)) (o + 2)
        (w / 2 ^ 16 % 2 ^ 8))
      (o + 3) (w / 2 ^ 24 % 2 ^ 8)

-- The characters `cs` and a `\0` from offset `o` on.
unfoldable pub put_string : Buffer → ℕ → List ℕ → Buffer
put_string f o [] = update f o 0
put_string f o (c ∷ cs) = put_string (update f o c) (o + 1) cs

-- Does `strcmp` of the string at `o` with the string `cs` return 0?
unfoldable pub is_string : Buffer → ℕ → List ℕ → Bool
is_string f o [] = f o == 0
is_string f o (c ∷ cs) = (f o == c) && is_string f (o + 1) cs

-- The string at `o`, of at most `left` characters.
unfoldable pub string_at : (left : ℕ) → Buffer → ℕ → List ℕ
string_at zero f o = []
string_at (suc left) f o =
    let rest = string_at left f (o + 1) in if f o == 0 then [] else f o ∷ rest

-- `n` bytes of `src` copied to offset `at` of `f`.
abbrev pub overlay : Buffer → (at n : ℕ) → Buffer → Buffer
overlay f at n src i = if leb at i && ltb i (at + n) then src (i - at) else f i

pub overlay-inside :
    (f : Buffer) (at n : ℕ) (src : Buffer) (i : ℕ) → i < n → overlay f at n src (at + i) ≡ src i
overlay-inside f at n src i h =
    let back : at + i - at ≡ i = omega arith in
    rw (leb_le at (at + i) (omega arith), lt→ltb (at + i) (at + n) (omega arith), back)

pub overlay-at :
    (f : Buffer) (at n : ℕ) (src : Buffer) (i : ℕ)
    → at ≤ i
    → i < at + n
    → overlay f at n src i ≡ src (i - at)
overlay-at f at n src i h l = rw (leb_le at i h, lt→ltb i (at + n) l)

pub overlay-zero : (f : Buffer) (n : ℕ) (src : Buffer) (i : ℕ) → i < n → overlay f 0 n src i ≡ src i
overlay-zero f n src i h =
    let same : i - 0 ≡ i = omega arith in
    overlay-at f 0 n src i (omega arith) (omega arith) ∙ ap src same

pub overlay-outside :
    (f : Buffer) (at n : ℕ) (src : Buffer) (i : ℕ)
    → (i < at) ⊎ (at + n ≤ i)
    → overlay f at n src i ≡ f i
overlay-outside f at n src i (inl h) = rw (leb_lt at i h)
overlay-outside f at n src i (inr h) = rw (leb_le at i (omega arith), ltb_le i (at + n) h)

pub put_word-outside : (f : Buffer) (o w i : ℕ) → (i < o) ⊎ (o + 4 ≤ i) → put_word f o w i ≡ f i
unfolding put_word
put_word-outside f o w i h = rw (
  ==_ne (o + 3) i (away 3 (omega arith)),
  ==_ne (o + 2) i (away 2 (omega arith)),
  ==_ne (o + 1) i (away 1 (omega arith)),
  ==_ne o i (elim h [ inl l ↦ omega arith | inr l ↦ omega arith ]),
)
  where
    away : (d : ℕ) → d < 4 → o + d ≢ i
    away d l = elim h [ inl b ↦ omega arith | inr b ↦ omega arith ]

-- A word that does not overlap the one written.
pub word-put_ne :
    (f : Buffer) (o w p : ℕ) → (p + 4 ≤ o) ⊎ (o + 4 ≤ p) → word (put_word f o w) p ≡ word f p
unfolding word
word-put_ne f o w p h = cc (
  put_word-outside f o w p (elim h [ inl b ↦ inl (omega arith) | inr b ↦ inr (omega arith) ]),
  byte 1 (omega arith),
  byte 2 (omega arith),
  byte 3 (omega arith),
)
  where
    byte : (d : ℕ) → d < 4 → put_word f o w (p + d) ≡ f (p + d)
    byte d l =
        put_word-outside f o w (p + d)
          (elim h [ inl b ↦ inl (omega arith) | inr b ↦ inr (omega arith) ])

pub word-put_word : (f : Buffer) (o w : ℕ) → w < 2 ^ 32 → word (put_word f o w) o ≡ w
unfolding word put_word
word-put_word f o w h =
    rw
      (
        (==_iff o o).1 refl,
        (==_iff (o + 1) (o + 1)).1 refl,
        (==_iff (o + 2) (o + 2)).1 refl,
        (==_iff (o + 3) (o + 3)).1 refl,
        ==_ne (o + 3) o (omega arith),
        ==_ne (o + 2) o (omega arith),
        ==_ne (o + 1) o (omega arith),
        ==_ne (o + 3) (o + 1) (omega arith),
        ==_ne (o + 2) (o + 1) (omega arith),
        ==_ne (o + 3) (o + 2) (omega arith),
      )
      (omega arith)

-- Words of buffers that agree.
pub word-cong :
    (f g : Buffer) (o : ℕ) → ((i : ℕ) → i < 4 → f (o + i) ≡ g (o + i)) → word f o ≡ word g o
unfolding word
word-cong f g o h =
    let start : o + 0 ≡ o = omega arith in
    cc (
      subst (λ a. f a ≡ g a) start (h 0 (omega arith)),
      h 1 (omega arith),
      h 2 (omega arith),
      h 3 (omega arith),
    )

-- A string that was put somewhere is the one that is there, and the bytes outside are kept.
pub put_string-outside :
    (f : Buffer) (o : ℕ) (cs : List ℕ) (i : ℕ)
    → (i < o) ⊎ (o + length cs < i)
    → put_string f o cs i ≡ f i
unfolding put_string
put_string-outside f o [] i h =
    update-ne f o 0 i (elim h [ inl b ↦ omega arith | inr b ↦ omega arith ])
put_string-outside f o (c ∷ cs) i h =
    put_string-outside (update f o c) (o + 1) cs i
      (elim h [ inl b ↦ inl (omega arith) | inr b ↦ inr (omega arith) ])
    ∙ update-ne f o c i (elim h [ inl b ↦ omega arith | inr b ↦ omega arith ])

pub is_string-put : (f : Buffer) (o : ℕ) (cs : List ℕ) → is_string (put_string f o cs) o cs ≡ true
unfolding is_string put_string
is_string-put f o [] = rw ((==_iff o o).1 refl) refl
is_string-put f o (c ∷ cs) = rw (
  put_string-outside (update f o c) (o + 1) cs o (inl (omega arith)),
  update-eq f o c,
  (==_iff c c).1 refl,
  is_string-put (update f o c) (o + 1) cs,
)

pub is_string-cong :
    (f g : Buffer) (o : ℕ) (cs : List ℕ)
    → ((i : ℕ) → i ≤ length cs → f (o + i) ≡ g (o + i))
    → is_string f o cs ≡ is_string g o cs
unfolding is_string
is_string-cong f g o [] h =
    let start : o + 0 ≡ o = omega arith in cc (subst (λ a. f a ≡ g a) start (h 0 (omega arith)))
is_string-cong f g o (c ∷ cs) h =
    let start : o + 0 ≡ o = omega arith in
    let next : (i : ℕ) → o + 1 + i ≡ o + suc i = λ i. omega arith in
    cc (
      subst (λ a. f a ≡ g a) start (h 0 (omega arith)),
      is_string-cong f g (o + 1) cs
          (λ i l. subst (λ a. f a ≡ g a) (sym (next i)) (h (suc i) (omega arith))),
    )

-- Where an offset lies with respect to a range.
pub range_cases : (at n i : ℕ) → (((at ≤ i) × (i < at + n)) ⊎ ((i < at) ⊎ (at + n ≤ i)))
range_cases at n i = elim (dec_lt i at) [
  | yes l ↦ inr (inl l)
  | no g ↦ elim (dec_lt i (at + n)) [
    | yes l ↦ inl (omega arith, l)
    | no h ↦ inr (inr (omega arith))
  ]
]

-- A copy of a part of `f` that was changed in a range, written back.
pub overlay-within :
    (f g : Buffer) (at n o m : ℕ) (src : Buffer) (a : ℕ)
    → o + m ≤ n
    → ((i : ℕ) → i < n → g i ≡ f (at + i))
    → overlay f at n (overlay g o m src) a ≡ overlay f (at + o) m src a
overlay-within f g at n o m src a fits copy = elim (range_cases at n a) [
  | inl (lo, hi) ↦ overlay-at f at n (overlay g o m src) a lo hi ∙ elim (range_cases (at + o) m a) [
    | inl (b, c) ↦
        let back : a - at - o ≡ a - (at + o) = omega arith in
        overlay-at g o m src (a - at) (omega arith) (omega arith)
        ∙ ap src back
        ∙ sym (overlay-at f (at + o) m src a b c)
    | inr out ↦
        let back : at + (a - at) ≡ a = omega arith in
        overlay-outside g o m src (a - at)
          (elim out [ inl b ↦ inl (omega arith) | inr b ↦ inr (omega arith) ])
        ∙ copy (a - at) (omega arith)
        ∙ ap f back
        ∙ sym (overlay-outside f (at + o) m src a out)
  ]
  | inr out ↦
      overlay-outside f at n (overlay g o m src) a out
      ∙ sym (
          overlay-outside f (at + o) m src a
            (elim out [ inl b ↦ inl (omega arith) | inr b ↦ inr (omega arith) ]))
]

-- Two ranges written one behind the other.
pub overlay-join :
    (f : Buffer) (at n m : ℕ) (src : Buffer) (a : ℕ)
    → overlay (overlay f at n src) (at + n) m (λ c. src (n + c)) a ≡ overlay f at (n + m) src a
overlay-join f at n m src a = elim (range_cases (at + n) m a) [
  | inl (lo, hi) ↦
      let back : n + (a - (at + n)) ≡ a - at = omega arith in
      overlay-at (overlay f at n src) (at + n) m (λ c. src (n + c)) a lo hi
      ∙ ap src back
      ∙ sym (overlay-at f at (n + m) src a (omega arith) (omega arith))
  | inr out ↦
      overlay-outside (overlay f at n src) (at + n) m (λ c. src (n + c)) a out
      ∙ elim (range_cases at n a) [
        | inl (lo, hi) ↦
            overlay-at f at n src a lo hi ∙ sym (overlay-at f at (n + m) src a lo (omega arith))
        | inr off ↦
            overlay-outside f at n src a off
            ∙ sym (
                overlay-outside f at (n + m) src a (elim off [
                  | inl b ↦ inl b
                  | inr b ↦ inr (elim out [ inl c ↦ absurd (omega arith) | inr c ↦ omega arith ])
                ]))
      ]
]

pub overlay-cong :
    (f g : Buffer) (at n : ℕ) (src : Buffer) (a : ℕ)
    → f a ≡ g a
    → overlay f at n src a ≡ overlay g at n src a
overlay-cong f g at n src a e = elim (range_cases at n a) [
  | inl (lo, hi) ↦ overlay-at f at n src a lo hi ∙ sym (overlay-at g at n src a lo hi)
  | inr out ↦ overlay-outside f at n src a out ∙ e ∙ sym (overlay-outside g at n src a out)
]
