-- ===== src/BootImage.antt =====
-- The image of the kernel: tools/createimage.c. A file is the list of its bytes; `stopped` is a failed
-- assertion. Sums of sizes are 32-bit words.
pub mod Padding
pub mod Tool
pub mod Layout
mod Tests
use tina.Base.{
  ℕ, zero, suc, ◌+◌, ◌-◌, ◌*◌, ◌/◌, ◌%◌, ◌^◌, ◌≤◌, ◌<◌, min, max, ◌≡◌, ◌≢◌, ◌↔◌, ◌⊎◌, inl, inr,
  refl, sym, ap, ap₂, subst, ◌∙◌, fun_ext, Bool, true, false, not, ◌&&◌, ◌||◌, false≢true, Option,
  none, some, List, [], ◌∷◌, ◌++◌, map, append-nil, append_assoc, arith, ltb, leb, ◌==◌, ==_iff,
  ==_ne, ltb→lt, lt→ltb, leb_lt, leb_le, ltb_le, dec_lt, ℕ_discrete, if◌then◌else◌, Bool-cases,
  Option-cases, update, update-ne, update-eq, length, get_or, set, take, drop, replicate, All, has,
  ◌∈◌, ◌∉◌, Distinct, has-append, not-mem-cons, not-mem-append, mem_middle, mem-append_left,
  length-append, length-set, get_or-set, length-replicate, get_or-replicate,
}
use tina.Kernel.Outcome.{Outcome, ok, stopped, out_of_fuel, ◌>>=◌}
use tina.Kernel.{u32}

abbrev pub sector_size : ℕ
sector_size = 512

-- The fields of a program header that the tool reads.
pub record ProgHdr : Type 0 where
  pub p_offset : ℕ
  pub p_filesz : ℕ
  pub p_memsz : ℕ

-- The loop over `numremaining`: blocks of at most one sector from position `at` of the file.
unfoldable pub copy_segment :
    (fuel : ℕ) → (readfile : List ℕ) → (at numremaining : ℕ) → Outcome (List ℕ)
copy_segment zero readfile at numremaining = out_of_fuel
copy_segment (suc fuel) readfile at numremaining =
    let num2read = if ltb numremaining sector_size then numremaining else sector_size in
    let buffer = take num2read (drop at readfile) in
    let rest = copy_segment fuel readfile (at + num2read) (numremaining - num2read) in
    if numremaining == 0
    then ok []
    else (if length buffer == num2read then rest >>= (λ out. ok (buffer ++ out)) else stopped)

-- The loop over the program headers: what is written, and `totalread`.
unfoldable pub write_segments :
    (fuel : ℕ) → (readfile : List ℕ) → List ProgHdr → (totalread : ℕ) → Outcome (List ℕ × ℕ)
write_segments fuel readfile [] totalread = ok ([], totalread)
write_segments fuel readfile (ph ∷ prog_hdr) totalread =
    let required_padding = (ph.p_memsz + u32 - ph.p_filesz) % u32 in
    copy_segment fuel readfile ph.p_offset ph.p_filesz >>= λ data_out.
    write_segments fuel readfile prog_hdr ((totalread + length data_out + required_padding) % u32)
    >>= λ rest. ok (data_out ++ replicate required_padding 0 ++ rest.0, rest.1)

-- What `write_to_image` appends at the position of the image file.
unfoldable pub write_to_image : (fuel : ℕ) → (readfile : List ℕ) → List ProgHdr → Outcome (List ℕ)
write_to_image fuel readfile prog_hdr = write_segments fuel readfile prog_hdr 0 >>= λ w.
    ok (w.0 ++ replicate ((sector_size + u32 - w.1) % u32 % sector_size) 0)

unfoldable pub size_loop : (kernel_size : ℕ) → List ProgHdr → ℕ
size_loop kernel_size [] = kernel_size
size_loop kernel_size (ph ∷ kernel_phdr) = size_loop ((kernel_size + ph.p_memsz) % u32) kernel_phdr

-- Without the wrap of the cast to `int`, which a size below `2 ^ 31` does not reach.
unfoldable pub count_kernel_sectors : List ProgHdr → ℕ
count_kernel_sectors kernel_phdr =
    let kernel_size = size_loop 0 kernel_phdr in
    kernel_size / sector_size + (if kernel_size % sector_size == 0 then 0 else 1)
