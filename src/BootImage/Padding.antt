-- ===== src/BootImage/Padding.antt =====
-- The segments and the padding of the image: tools/createimage.c.
use tina.Base.{
  ℕ, zero, suc, ◌+◌, ◌-◌, ◌*◌, ◌/◌, ◌%◌, ◌^◌, ◌≤◌, ◌<◌, ◌≡◌, ◌≢◌, inl, inr, refl, sym, ap, ◌∙◌,
  false≢true, List, [], ◌∷◌, ◌++◌, arith, ◌==◌, ==_iff, ==_ne, lt→ltb, ltb_le, dec_lt,
  if◌then◌else◌, Bool-cases, length, take, drop, replicate, All, length-append, length-replicate,
}
use tina.Kernel.Outcome.{Outcome, ok, stopped, ◌>>=◌}
use tina.Kernel.{u32}
use tina.BootImage.{
  sector_size, ProgHdr, copy_segment, write_segments, write_to_image, size_loop,
  count_kernel_sectors,
}

pub length-take : (n : ℕ) (xs : List ℕ) → n ≤ length xs → length (take n xs) ≡ n
length-take zero xs h = refl
length-take (suc n) [] h = absurd (omega arith)
length-take (suc n) (x ∷ xs) h = ap suc (length-take n xs (omega arith))

pub length-drop : (n : ℕ) (xs : List ℕ) → length (drop n xs) ≡ length xs - n
length-drop zero xs = omega arith
length-drop (suc n) [] = omega arith
length-drop (suc n) (x ∷ xs) = omega (arith, length-drop n xs)

pub drop-drop : (m n : ℕ) (xs : List ℕ) → drop n (drop m xs) ≡ drop (m + n) xs
drop-drop zero n xs = let e : 0 + n ≡ n = omega arith in rw e
drop-drop (suc m) zero [] = let e : suc m + 0 ≡ suc (m + 0) = omega arith in rw e
drop-drop (suc m) (suc n) [] = let e : suc m + suc n ≡ suc (m + suc n) = omega arith in rw e
drop-drop (suc m) n (x ∷ xs) =
    let e : suc m + n ≡ suc (m + n) = omega arith in rw e (drop-drop m n xs)

take-split : (m n : ℕ) (xs : List ℕ) → take m xs ++ take n (drop m xs) ≡ take (m + n) xs
take-split zero n xs = let e : 0 + n ≡ n = omega arith in rw e
take-split (suc m) zero [] = let e : suc m + 0 ≡ suc (m + 0) = omega arith in rw e
take-split (suc m) (suc n) [] = let e : suc m + suc n ≡ suc (m + suc n) = omega arith in rw e
take-split (suc m) n (x ∷ xs) =
    let e : suc m + n ≡ suc (m + n) = omega arith in rw e (ap (λ ys. x ∷ ys) (take-split m n xs))

-- One block of `m` bytes, and what follows it.
copy_block :
    (rest : Outcome (List ℕ)) (readfile : List ℕ) (at n m : ℕ)
    → m ≤ n
    → at + n ≤ length readfile
    → rest ≡ ok (take (n - m) (drop (at + m) readfile))
    → (if length (take m (drop at readfile)) == m
        then rest >>= (λ out. ok (take m (drop at readfile) ++ out))
        else stopped)
      ≡ ok (take n (drop at readfile))
copy_block rest readfile at n m le inside e =
    let full : length (take m (drop at readfile)) ≡ m =
      length-take m (drop at readfile) (omega (arith, length-drop at readfile)) in
    let sum : m + (n - m) ≡ n = omega arith in
    rw (
      full,
      (==_iff m m).1 refl,
      e,
      ← drop-drop at m readfile,
      take-split m (n - m) (drop at readfile),
      sum,
    )

-- The segment is copied as it stands in the file.
copy_segment_lem :
    (fuel : ℕ) (readfile : List ℕ) (at n : ℕ)
    → n < fuel
    → at + n ≤ length readfile
    → copy_segment fuel readfile at n ≡ ok (take n (drop at readfile))
unfolding copy_segment
copy_segment_lem zero readfile at n h inside = absurd (omega arith)
copy_segment_lem (suc fuel) readfile at zero h inside = refl
copy_segment_lem (suc fuel) readfile at (suc n) h inside = elim (dec_lt (suc n) sector_size) [
  | yes l ↦
      rw (lt→ltb (suc n) sector_size l, ==_ne (suc n) 0 (omega arith))
        (copy_block _ readfile at (suc n) (suc n) (omega arith) inside
          (copy_segment_lem fuel readfile (at + suc n) (suc n - suc n) (omega arith) (omega arith)))
  | no g ↦
      rw (ltb_le (suc n) sector_size (omega arith), ==_ne (suc n) 0 (omega arith))
        (copy_block _ readfile at (suc n) sector_size (omega arith) inside (
          copy_segment_lem fuel readfile (at + sector_size) (suc n - sector_size) (omega arith)
            (omega arith)))
]

-- A segment that lies inside the file and does not shrink in memory, with fuel above its size.
pub record Fits (readfile : List ℕ) (fuel : ℕ) (ph : ProgHdr) : Type 0 where
  pub inside : ph.p_offset + ph.p_filesz ≤ length readfile
  pub grows : ph.p_filesz ≤ ph.p_memsz
  pub enough : ph.p_filesz < fuel

-- The segments one after the other, each filled up with zeros to its size in memory.
abbrev pub layout : List ℕ → List ProgHdr → List ℕ
layout readfile [] = []
layout readfile (ph ∷ phs) =
    take ph.p_filesz (drop ph.p_offset readfile)
    ++ replicate (ph.p_memsz - ph.p_filesz) 0
    ++ layout readfile phs

abbrev pub memory_size : List ProgHdr → ℕ
memory_size [] = 0
memory_size (ph ∷ phs) = ph.p_memsz + memory_size phs

write_segments_lem :
    (fuel : ℕ) (readfile : List ℕ) (phs : List ProgHdr) (total : ℕ)
    → All (Fits readfile fuel) phs
    → total + memory_size phs < u32
    → write_segments fuel readfile phs total ≡ ok (layout readfile phs, total + memory_size phs)
unfolding write_segments
write_segments_lem fuel readfile [] total f h = let e : total + 0 ≡ total = omega arith in rw e
write_segments_lem fuel readfile (ph ∷ phs) total (f, fs) h =
    let copied : length (take ph.p_filesz (drop ph.p_offset readfile)) ≡ ph.p_filesz =
      length-take ph.p_filesz (drop ph.p_offset readfile)
        (omega (arith, length-drop ph.p_offset readfile, f.inside)) in
    let pad : (ph.p_memsz + u32 - ph.p_filesz) % u32 ≡ ph.p_memsz - ph.p_filesz =
      omega (arith, f.grows) in
    let next : (total + ph.p_filesz + (ph.p_memsz - ph.p_filesz)) % u32 ≡ total + ph.p_memsz =
      omega (arith, f.grows) in
    let sum : total + ph.p_memsz + memory_size phs ≡ total + (ph.p_memsz + memory_size phs) =
      omega arith in
    rw (
      copy_segment_lem fuel readfile ph.p_offset ph.p_filesz f.enough f.inside,
      copied,
      pad,
      next,
      write_segments_lem fuel readfile phs (total + ph.p_memsz) fs (omega arith),
      sum,
    )

length-layout :
    (fuel : ℕ) (readfile : List ℕ) (phs : List ProgHdr)
    → All (Fits readfile fuel) phs
    → length (layout readfile phs) ≡ memory_size phs
length-layout fuel readfile [] f = refl
length-layout fuel readfile (ph ∷ phs) (f, fs) =
    rw
      (
        length-append,
        length-append,
        length-replicate,
        length-layout fuel readfile phs fs,
        length-take ph.p_filesz (drop ph.p_offset readfile)
            (omega (arith, length-drop ph.p_offset readfile, f.inside)),
      )
      (omega (arith, f.grows))

size_loop-sum :
    (n : ℕ) (phs : List ProgHdr) → n + memory_size phs < u32 → size_loop n phs ≡ n + memory_size phs
unfolding size_loop
size_loop-sum n [] h = omega arith
size_loop-sum n (ph ∷ phs) h =
    let small : (n + ph.p_memsz) % u32 ≡ n + ph.p_memsz = omega arith in
    rw small (size_loop-sum (n + ph.p_memsz) phs (omega arith) ∙ omega arith)

-- For segments that lie inside the file, do not shrink in memory and have together less than 2 ^ 31
-- bytes there, `write_to_image` ends with fuel above the size of each in the file: it writes the
-- segments one after the other, each filled up with zeros, and less than a sector of zeros behind,
-- which makes exactly `count_kernel_sectors` sectors.
pub image-sectors :
    (fuel : ℕ) (readfile : List ℕ) (phs : List ProgHdr)
    → All (Fits readfile fuel) phs
    → memory_size phs < 2 ^ 31
    → (m : ℕ) × (m < sector_size)
      × (write_to_image fuel readfile phs ≡ ok (layout readfile phs ++ replicate m 0))
      × (length (layout readfile phs ++ replicate m 0) ≡ count_kernel_sectors phs * sector_size)
unfolding write_to_image count_kernel_sectors
image-sectors fuel readfile phs f h =
    let n : ℕ = memory_size phs in
    let m : ℕ = (sector_size + u32 - (0 + n)) % u32 % sector_size in
    let size : size_loop 0 phs ≡ n = size_loop-sum 0 phs (omega arith) ∙ omega arith in
    (
      m,
      omega arith,
      rw (write_segments_lem fuel readfile phs 0 f (omega arith)),
      rw (length-append, length-layout fuel readfile phs f, length-replicate, size) (rounded n h),
    )
  where
    rounded :
        (n : ℕ)
        → n < 2 ^ 31
        → n + (sector_size + u32 - (0 + n)) % u32 % sector_size
          ≡ (n / sector_size + (if n % sector_size == 0 then 0 else 1)) * sector_size
    rounded n h = elim (Bool-cases (n % sector_size == 0)) [
      | inl e ↦ let z : n % sector_size ≡ 0 = (==_iff _ _).0 e in rw e (omega arith)
      | inr e ↦
          let z : n % sector_size ≢ 0 = λ q. false≢true (sym e ∙ (==_iff _ _).1 q) in
          rw e (omega arith)
    ]
