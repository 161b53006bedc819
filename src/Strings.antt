-- ===== src/Strings.antt =====
-- Strings: libs/string.c. The memory is a function from addresses to bytes; loops that end at a `\0`
-- run on fuel, since there may be none.
pub mod Text
pub mod Copy
pub mod Compare
mod Tests
use tina.Base.{
  ℕ, zero, suc, ◌+◌, ◌-◌, ◌*◌, ◌/◌, ◌%◌, ◌^◌, ◌≤◌, ◌<◌, min, max, ◌≡◌, ◌≢◌, ◌↔◌, ◌⊎◌, inl, inr,
  refl, sym, ap, ap₂, subst, ◌∙◌, fun_ext, Bool, true, false, not, ◌&&◌, ◌||◌, false≢true, Option,
  none, some, List, [], ◌∷◌, ◌++◌, map, append-nil, append_assoc, arith, ltb, leb, ◌==◌, ==_iff,
  ==_ne, ltb→lt, lt→ltb, leb_lt, leb_le, ltb_le, dec_lt, ℕ_discrete, if◌then◌else◌, Bool-cases,
  Option-cases, update, update-ne, update-eq, length, get_or, set, take, drop, replicate, All, has,
  ◌∈◌, ◌∉◌, Distinct, has-append, not-mem-cons, not-mem-append, mem_middle, mem-append_left,
  length-append, length-set, get_or-set, length-replicate, get_or-replicate,
}

strlen_loop : (fuel i : ℕ) → (ℕ → ℕ) → (src : ℕ) → Option ℕ
strlen_loop zero i mem src = none
strlen_loop (suc fuel) i mem src =
    let rest = strlen_loop fuel (i + 1) mem src in if mem (src + i) == 0 then some i else rest

unfoldable pub strlen : (fuel : ℕ) → (ℕ → ℕ) → (src : ℕ) → Option ℕ
unfolding strlen_loop
strlen fuel mem src = strlen_loop fuel 0 mem src

unfoldable pub memcpy : (ℕ → ℕ) → (dest src len : ℕ) → ℕ → ℕ
memcpy mem dest src zero = mem
memcpy mem dest src (suc len) = memcpy (update mem dest (mem src)) (dest + 1) (src + 1) len

unfoldable pub memset : (ℕ → ℕ) → (dest val len : ℕ) → ℕ → ℕ
memset mem dest val zero = mem
memset mem dest val (suc len) = memset (update mem dest val) (dest + 1) val len

unfoldable pub bzero : (ℕ → ℕ) → (dest len : ℕ) → ℕ → ℕ
bzero mem dest len = memset mem dest 0 len

-- The results 0, -1 and 1 of `strcmp`.
pub data Order : Type 0 where
  same : Order
  shorter : Order
  other : Order

unfoldable pub strcmp : (fuel : ℕ) → (ℕ → ℕ) → (str1 str2 : ℕ) → Option Order
strcmp zero mem str1 str2 = none
strcmp (suc fuel) mem str1 str2 =
    let rest = strcmp fuel mem (str1 + 1) (str2 + 1) in
    if not (mem str1 == 0) && (not (mem str2 == 0) && (mem str1 == mem str2))
    then rest
    else (if (mem str1 == 0) && (mem str2 == 0)
        then some same
        else (if mem str1 == 0 then some shorter else some other))

-- The result is the memory: the pointer that is returned is `dest`.
unfoldable pub strcpy : (fuel : ℕ) → (ℕ → ℕ) → (dest src : ℕ) → Option (ℕ → ℕ)
strcpy zero mem dest src = none
strcpy (suc fuel) mem dest src =
    let rest = strcpy fuel (update mem dest (mem src)) (dest + 1) (src + 1) in
    if mem src == 0 then some (update mem dest 0) else rest
