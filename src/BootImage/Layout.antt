-- ===== src/BootImage/Layout.antt =====
-- Where the parts of the image lie: tools/createimage.c.
use tina.Base.{
  ℕ, zero, suc, ◌+◌, ◌-◌, ◌*◌, ◌^◌, ◌≤◌, ◌<◌, ◌≡◌, ◌⊎◌, inl, inr, refl, sym, ap, ap₂, ◌∙◌, true,
  ◌||◌, Option, List, [], ◌∷◌, ◌++◌, append-nil, append_assoc, arith, ◌==◌, length, take, drop,
  replicate, All, length-append,
}
use tina.Kernel.Outcome.{ok}
use tina.BootImage.{ProgHdr, write_to_image, count_kernel_sectors}
use tina.BootImage.Padding.{length-take, length-drop, Fits, memory_size, layout, image-sectors}
use tina.BootImage.Tool.{
  ElfFormat, write_at, read_exec_file, write_bootblock, write_kernel, int_bytes,
  record_kernel_sectors, main,
}

take-append_left : (n : ℕ) (xs ys : List ℕ) → n ≤ length xs → take n (xs ++ ys) ≡ take n xs
take-append_left zero xs ys l = refl
take-append_left (suc n) [] ys l = absurd (omega arith)
take-append_left (suc n) (x ∷ xs) ys l = ap (λ zs. x ∷ zs) (take-append_left n xs ys (omega arith))

drop-append_left : (n : ℕ) (xs ys : List ℕ) → n ≤ length xs → drop n (xs ++ ys) ≡ drop n xs ++ ys
drop-append_left zero xs ys l = refl
drop-append_left (suc n) [] ys l = absurd (omega arith)
drop-append_left (suc n) (x ∷ xs) ys l = drop-append_left n xs ys (omega arith)

take_all : (xs : List ℕ) → take (length xs) xs ≡ xs
take_all [] = refl
take_all (x ∷ xs) = ap (λ zs. x ∷ zs) (take_all xs)

drop_all : (n : ℕ) (xs : List ℕ) → length xs ≤ n → drop n xs ≡ []
drop_all zero [] l = refl
drop_all zero (x ∷ xs) l = absurd (omega arith)
drop_all (suc n) [] l = refl
drop_all (suc n) (x ∷ xs) l = drop_all n xs (omega arith)

take-take : (m n : ℕ) (xs : List ℕ) → m ≤ n → take m (take n xs) ≡ take m xs
take-take zero n xs l = refl
take-take (suc m) zero xs l = absurd (omega arith)
take-take (suc m) (suc n) [] l = refl
take-take (suc m) (suc n) (x ∷ xs) l = ap (λ zs. x ∷ zs) (take-take m n xs (omega arith))

drop-take : (m n : ℕ) (xs : List ℕ) → drop m (take (m + n) xs) ≡ take n (drop m xs)
drop-take zero n xs = let e : 0 + n ≡ n = omega arith in rw e
drop-take (suc m) zero [] = let e : suc m + 0 ≡ suc (m + 0) = omega arith in rw e
drop-take (suc m) (suc n) [] = let e : suc m + suc n ≡ suc (m + suc n) = omega arith in rw e
drop-take (suc m) n (x ∷ xs) =
    let e : suc m + n ≡ suc (m + n) = omega arith in rw e (drop-take m n xs)

-- A write that begins inside the image or at its end.
write_at-inside :
    (image : List ℕ) (pos : ℕ) (bytes : List ℕ)
    → pos ≤ length image
    → write_at image pos bytes ≡ take pos image ++ (bytes ++ drop (pos + length bytes) image)
unfolding write_at
write_at-inside image pos bytes l =
    let none_missing : pos - length image ≡ 0 = omega arith in rw none_missing

write_at-end :
    (image : List ℕ) (pos : ℕ) (bytes : List ℕ)
    → pos ≡ length image
    → write_at image pos bytes ≡ image ++ bytes
write_at-end image pos bytes e =
    write_at-inside image pos bytes (omega (arith, e))
    ∙ ap₂ (λ xs ys. xs ++ (bytes ++ ys)) (rw e (take_all image))
        (drop_all (pos + length bytes) image (omega (arith, e)))
    ∙ ap (λ xs. image ++ xs) (append-nil bytes)

-- The boot sector `b` with the mark of a boot sector at its end, and the kernel behind it.
abbrev marked : (b kernel : List ℕ) → List ℕ
marked b kernel = take 510 b ++ 0x55 ∷ 0xaa ∷ kernel

write_bootblock-marked :
    (b : List ℕ)
    → length b ≡ 512
    → write_at (write_at [] 0 b) 0x1fe (0x55 ∷ 0xaa ∷ []) ≡ marked b []
write_bootblock-marked b e =
    ap (λ image. write_at image 0x1fe (0x55 ∷ 0xaa ∷ [])) (write_at-end [] 0 b refl)
    ∙ write_at-inside b 0x1fe (0x55 ∷ 0xaa ∷ []) (omega (arith, e))
    ∙ ap (λ bs. take 510 b ++ 0x55 ∷ 0xaa ∷ bs) (drop_all 512 b (omega (arith, e)))

length-marked : (b : List ℕ) → length b ≡ 512 → length (marked b []) ≡ 512
length-marked b e =
    length-append (take 510 b) (0x55 ∷ 0xaa ∷ [])
    ∙ ap (λ n. n + 2) (length-take 510 b (omega (arith, e)))

write_kernel-marked :
    (b kernel : List ℕ) → length b ≡ 512 → write_at (marked b []) 512 kernel ≡ marked b kernel
write_kernel-marked b kernel e =
    write_at-end (marked b []) 512 kernel (sym (length-marked b e))
    ∙ append_assoc (take 510 b) (0x55 ∷ 0xaa ∷ []) kernel

-- The image: the boot block up to 0x1e0, the number of sectors of the kernel, the rest of the boot block up to
-- the two bytes of the mark, and the kernel.
abbrev pub whole_image : (b : List ℕ) → (num_sec : ℕ) → (kernel : List ℕ) → List ℕ
whole_image b num_sec kernel =
    take 0x1e0 b ++ (int_bytes num_sec ++ (take 26 (drop 0x1e4 b) ++ 0x55 ∷ 0xaa ∷ kernel))

record_kernel_sectors-whole :
    (b kernel : List ℕ) (num_sec : ℕ)
    → length b ≡ 512
    → record_kernel_sectors (marked b kernel) num_sec ≡ whole_image b num_sec kernel
unfolding record_kernel_sectors
record_kernel_sectors-whole b kernel n e =
    let l : length (take 510 b) ≡ 510 = length-take 510 b (omega (arith, e)) in
    write_at-inside (marked b kernel) 0x1e0 (int_bytes n) (rw length-append (omega (arith, l)))
    ∙ ap₂ (λ xs ys. xs ++ (int_bytes n ++ ys))
        (take-append_left 480 (take 510 b) (0x55 ∷ 0xaa ∷ kernel) (omega (arith, l))
          ∙ take-take 480 510 b (omega arith))
        (drop-append_left 484 (take 510 b) (0x55 ∷ 0xaa ∷ kernel) (omega (arith, l))
          ∙ ap (λ xs. xs ++ 0x55 ∷ 0xaa ∷ kernel) (drop-take 484 26 b))

length-whole_image :
    (b kernel : List ℕ) (n : ℕ)
    → length b ≡ 512
    → length (whole_image b n kernel) ≡ 512 + length kernel
length-whole_image b kernel n e =
    rw
      (
        length-append,
        length-append,
        length-append,
        length-take 0x1e0 b (omega (arith, e)),
        length-take 26 (drop 0x1e4 b) (omega (arith, length-drop 0x1e4 b, e)),
      )
      (omega arith)

main-steps :
    (fuel : ℕ) (F : ElfFormat) (argc : ℕ) (boot kernel : Option (List ℕ))
    (bootfile kernelfile : List ℕ) (bs ks : List ProgHdr)
    → (argc ≡ 3) ⊎ (argc ≡ 4)
    → read_exec_file F boot ≡ ok (bootfile, bs)
    → read_exec_file F kernel ≡ ok (kernelfile, ks)
    → (b k : List ℕ) → write_to_image fuel bootfile bs ≡ ok b
    → write_to_image fuel kernelfile ks ≡ ok k
    → length b ≡ 512
    → main fuel F argc true boot kernel ≡ ok (whole_image b (count_kernel_sectors ks) k)
unfolding main write_bootblock write_kernel
main-steps fuel F argc boot kernel bootfile kernelfile bs ks args rb rk b k run run' e =
    rw (called args, rb, run, rk, run', write_bootblock-marked b e, write_kernel-marked b k e)
      (ap ok (record_kernel_sectors-whole b k (count_kernel_sectors ks) e))
  where
    called : (argc ≡ 3) ⊎ (argc ≡ 4) → ((argc == 3) || (argc == 4)) ≡ true
    called (inl e) = rw e refl
    called (inr e) = rw e refl

-- Two files whose headers can be read, the first of one sector.
module _ (fuel : ℕ) (F : ElfFormat) (argc : ℕ) (boot kernel : Option (List ℕ))
    (bootfile kernelfile : List ℕ) (bs ks : List ProgHdr) (args : (argc ≡ 3) ⊎ (argc ≡ 4))
    (read_boot : read_exec_file F boot ≡ ok (bootfile, bs))
    (read_kernel : read_exec_file F kernel ≡ ok (kernelfile, ks))
    (fit_boot : All (Fits bootfile fuel) bs) (fit_kernel : All (Fits kernelfile fuel) ks)
    (one : count_kernel_sectors bs ≡ 1) (small_boot : memory_size bs < 2 ^ 31)
    (small_kernel : memory_size ks < 2 ^ 31) where
  -- With three or four arguments, two files whose headers can be read, segments that lie inside their
  -- file, do not shrink in memory and have together less than 2 ^ 31 bytes there, a boot block of one
  -- sector, and fuel above the size of each segment in its file, `main` writes the image: the segments
  -- of the boot block filled up with zeros to a sector, but with the number of sectors of the kernel at
  -- 0x1e0 and 0x55 0xaa at 0x1fe, and behind it the segments of the kernel filled up with zeros, 512
  -- bytes for the boot block and each of these sectors.
  pub main-whole :
      (m n : ℕ) × (main fuel F argc true boot kernel
        ≡ ok (
            whole_image
              (layout bootfile bs ++ replicate m 0)
              (count_kernel_sectors ks)
              (layout kernelfile ks ++ replicate n 0)))
      × (length (
            whole_image
              (layout bootfile bs ++ replicate m 0)
              (count_kernel_sectors ks)
              (layout kernelfile ks ++ replicate n 0))
          ≡ 512 * (1 + count_kernel_sectors ks))
  main-whole =
      let (m, _, run, size) = image-sectors fuel bootfile bs fit_boot small_boot in
      let (n, _, run', size') = image-sectors fuel kernelfile ks fit_kernel small_kernel in
      let e : length (layout bootfile bs ++ replicate {A = ℕ} m 0) ≡ 512 =
        omega (arith, size, one) in
      (
        m,
        n,
        main-steps fuel F argc boot kernel bootfile kernelfile bs ks args read_boot read_kernel
            (layout bootfile bs ++ replicate m 0) (layout kernelfile ks ++ replicate n 0) run run'
            e,
        length-whole_image (layout bootfile bs ++ replicate m 0)
              (layout kernelfile ks ++ replicate n 0) (count_kernel_sectors ks) e
            ∙ omega (arith, size'),
      )
