-- ===== src/BootImage/Tests.antt =====
-- A run of tools/createimage.c, and its theorem at it.
use tina.Base.{
  none, inl, some, true, get_or, ℕ, ◌≡◌, refl, List, [], ◌∷◌, ◌++◌, arith, length, replicate, All,
}
use tina.Kernel.Outcome.{ok, stopped}
use tina.BootImage.{
  ProgHdr, write_to_image, count_kernel_sectors, size_loop, write_segments, copy_segment,
}
use tina.BootImage.Tool.{ElfFormat, write_at, read_headers, read_exec_file, write_bootblock, main}
use tina.BootImage.Layout.{whole_image, main-whole}
use tina.BootImage.Padding.{Fits, layout}

abbrev file : List ℕ
file = 0x7f ∷ 0x45 ∷ 1 ∷ 2 ∷ 3 ∷ 4 ∷ []

-- Two bytes at 2 that grow to 600 in memory, and two at 4.
abbrev headers : List ProgHdr
headers =
    record { p_offset = 2; p_filesz = 2; p_memsz = 600 }
    ∷ record { p_offset = 4; p_filesz = 2; p_memsz = 2 }
    ∷ []

fit : All (Fits file 5) headers
fit = (
  record { inside = omega arith; grows = omega arith; enough = omega arith },
  (record { inside = omega arith; grows = omega arith; enough = omega arith }, tt),
)

-- A small format: a byte for the number of headers and one for their size, and headers of three bytes behind.
abbrev small_format : ElfFormat
small_format = record {
  ehdr_size = 2;
  phdr_size = 3;
  e_phoff = λ bytes. 2;
  e_phentsize = λ bytes. get_or {A = ℕ} bytes 1 0;
  e_phnum = λ bytes. get_or {A = ℕ} bytes 0 0;
  prog_hdr = λ bytes. record {
    p_offset = get_or {A = ℕ} bytes 0 0;
    p_filesz = get_or {A = ℕ} bytes 1 0;
    p_memsz = get_or {A = ℕ} bytes 2 0;
  };
}

-- Two bytes in ten, and two segments of 1 byte in 250 and 2 bytes in 2.
abbrev boot_file : List ℕ
boot_file = 1 ∷ 3 ∷ 5 ∷ 2 ∷ 10 ∷ 0xab ∷ 0xcd ∷ []

abbrev kernel_file : List ℕ
kernel_file = 2 ∷ 3 ∷ 8 ∷ 1 ∷ 250 ∷ 9 ∷ 2 ∷ 2 ∷ 0x11 ∷ 0x22 ∷ 0x33 ∷ []

abbrev boot_headers : List ProgHdr
boot_headers = record { p_offset = 5; p_filesz = 2; p_memsz = 10 } ∷ []

abbrev kernel_headers : List ProgHdr
kernel_headers =
    record { p_offset = 8; p_filesz = 1; p_memsz = 250 }
    ∷ record { p_offset = 9; p_filesz = 2; p_memsz = 2 }
    ∷ []

abbrev boot_bytes : (m : ℕ) → List ℕ
boot_bytes m = layout boot_file boot_headers ++ replicate m 0

abbrev kernel_bytes : (n : ℕ) → List ℕ
kernel_bytes n = layout kernel_file kernel_headers ++ replicate n 0

main-whole_example :
    (m n : ℕ) × (main 3 small_format 3 true (some boot_file) (some kernel_file)
      ≡ ok (whole_image (boot_bytes m) 1 (kernel_bytes n)))
    × (length (whole_image (boot_bytes m) 1 (kernel_bytes n)) ≡ 1024)
unfolding read_exec_file read_headers count_kernel_sectors size_loop
main-whole_example =
    main-whole 3 small_format 3 (some boot_file) (some kernel_file) boot_file kernel_file
      boot_headers kernel_headers (inl refl) refl refl
      (record { inside = omega arith; grows = omega arith; enough = omega arith }, tt)
      (
        record { inside = omega arith; grows = omega arith; enough = omega arith },
        (record { inside = omega arith; grows = omega arith; enough = omega arith }, tt),
      )
      refl (omega arith) (omega arith)

-- A file that cannot be opened ends the tool.
test_no_kernel : main 3 small_format 4 true (some boot_file) none ≡ stopped
unfolding main write_bootblock write_to_image write_segments copy_segment read_exec_file
    read_headers write_at
test_no_kernel = refl
