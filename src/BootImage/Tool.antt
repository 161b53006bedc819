-- ===== src/BootImage/Tool.antt =====
-- The steps of tools/createimage.c at fixed positions of the image, and its `main`. A file is the list of its
-- bytes, or `none` where it cannot be opened; `stopped` is a failed assertion or exit(EXIT_FAILURE). What is
-- only printed is left out.
use tina.Base.{
  ℕ, zero, suc, ◌+◌, ◌-◌, ◌*◌, ◌/◌, ◌%◌, ◌^◌, Bool, not, ◌&&◌, ◌||◌, Option, none, some, List, [],
  ◌∷◌, ◌++◌, ltb, leb, ◌==◌, if◌then◌else◌, length, take, drop, replicate,
}
use tina.Kernel.Outcome.{Outcome, ok, stopped, ◌>>=◌}
use tina.BootImage.{ProgHdr, sector_size, write_to_image, count_kernel_sectors}

-- The layout of an executable file, from <elf.h>: the sizes of the two kinds of header, and their fields.
pub record ElfFormat : Type 0 where
  pub ehdr_size : ℕ
  pub phdr_size : ℕ
  pub e_phoff : List ℕ → ℕ
  pub e_phentsize : List ℕ → ℕ
  pub e_phnum : List ℕ → ℕ
  pub prog_hdr : List ℕ → ProgHdr

abbrev pub bootloader_sig_offset : ℕ
bootloader_sig_offset = 0x1fe

abbrev pub kernel_sector_offset : ℕ
kernel_sector_offset = 0x1e0

-- `fseek` to a position and a write there: a gap behind the end is filled up with zeros.
unfoldable pub write_at : (image : List ℕ) → (pos : ℕ) → List ℕ → List ℕ
write_at image pos bytes =
    take pos image
    ++ (replicate (pos - length image) 0 ++ (bytes ++ drop (pos + length bytes) image))

-- `fread` of the program headers.
unfoldable pub read_headers : ElfFormat → (file : List ℕ) → (left at : ℕ) → List ProgHdr
read_headers F file zero at = []
read_headers F file (suc left) at =
    F.prog_hdr (take F.phdr_size (drop at file)) ∷ read_headers F file left (at + F.phdr_size)

-- The file and its headers. Their number is kept in a byte, and the loops run on all 16 bits of `e_phnum`:
-- from 256 headers on they read behind the array, which gives `stopped` here.
unfoldable pub read_exec_file : ElfFormat → Option (List ℕ) → Outcome (List ℕ × List ProgHdr)
read_exec_file F none = stopped
read_exec_file F (some file) =
    let ehdr = take F.ehdr_size file in
    let end = F.e_phoff ehdr + F.e_phnum ehdr * F.phdr_size in
    if ltb (length file) F.ehdr_size || not (F.e_phentsize ehdr == F.phdr_size)
    then stopped
    else if ltb (F.e_phnum ehdr) 256 && leb end (length file)
    then ok (file, read_headers F file (F.e_phnum ehdr) (F.e_phoff ehdr))
    else stopped

unfoldable pub write_bootblock :
    (fuel : ℕ) → (image bootfile : List ℕ) → List ProgHdr → Outcome (List ℕ)
write_bootblock fuel image bootfile boot_phdr = write_to_image fuel bootfile boot_phdr >>= λ bytes.
    ok (write_at (write_at image 0 bytes) bootloader_sig_offset (0x55 ∷ 0xaa ∷ []))

unfoldable pub write_kernel :
    (fuel : ℕ) → (image kernelfile : List ℕ) → List ProgHdr → Outcome (List ℕ)
write_kernel fuel image kernelfile kernel_phdr =
    write_to_image fuel kernelfile kernel_phdr >>= λ bytes. ok (write_at image sector_size bytes)

-- The bytes of an int, the low one first.
abbrev pub int_bytes : ℕ → List ℕ
int_bytes n = n % 2 ^ 8 ∷ n / 2 ^ 8 % 2 ^ 8 ∷ n / 2 ^ 16 % 2 ^ 8 ∷ n / 2 ^ 24 % 2 ^ 8 ∷ []

unfoldable pub record_kernel_sectors : (image : List ℕ) → (num_sec : ℕ) → List ℕ
record_kernel_sectors image num_sec = write_at image kernel_sector_offset (int_bytes num_sec)

-- The image, from the number of arguments, whether the image could be created, and the two files.
unfoldable pub main :
    (fuel : ℕ)
    → ElfFormat
    → (argc : ℕ) → (created : Bool) → (boot kernel : Option (List ℕ)) → Outcome (List ℕ)
main fuel F argc created boot kernel =
    if not ((argc == 3) || (argc == 4)) || not created
    then stopped
    else (read_exec_file F boot >>= λ b. write_bootblock fuel [] b.0 b.1 >>= λ image.
        read_exec_file F kernel >>= λ k. write_kernel fuel image k.0 k.1 >>= λ image'.
        ok (record_kernel_sectors image' (count_kernel_sectors k.1)))
