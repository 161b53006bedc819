-- ===== src/Fs/Text/ReadWrite.antt =====
-- Reading what was written: kernel/fs/text.c.
use tina.Base.{
  true, some, sym, subst, lt→ltb, ℕ, ◌+◌, ◌%◌, ◌^◌, ◌≤◌, ◌<◌, ◌≡◌, ◌≢◌, ◌⊎◌, refl, ap, ◌∙◌, arith,
  ==_iff, ==_ne, update, update-eq,
}
use tina.Base.Bytes.{Buffer, overlay, overlay-zero, overlay-inside, overlay-outside}
use tina.Fs.{Device, IsDevice, Fs, sector_size, fd_num}
use tina.Fs.Disk.{file_block_read, file_block_write}
use tina.Fs.Disk.Layout.{block_read-write}
use tina.Fs.Text.{in_reach, sys_fread, sys_fwrite, sys_fseek}

module _ {S : Type 0} (D : Device S) (L : IsDevice D) where
  -- For a disk on which `sdread` reads what `sdwrite` has written and a descriptor of the table whose
  -- block lies at an address that is an int: a `sys_fwrite` that stays inside the block of the file, a
  -- `sys_fseek` back and a `sys_fread` of the same size return the size, and give the bytes that were
  -- written and the position behind them; the other bytes of the file and the blocks of all other inodes
  -- at such addresses are kept.
  pub fread-fwrite :
      (fs : Fs S) (block0 block1 buf buf0 : Buffer) (index size : ℕ)
      → index < fd_num
      → in_reach D (fs.fd_ino index) ≡ true
      → fs.fd_pos index + size ≤ sector_size
      → (fs1 : Fs S) × (sys_fwrite D block0 fs index buf size ≡ some (size, fs1))
        × (fs2 : Fs S) × (sys_fseek D fs1 index (fs.fd_pos index) ≡ some fs2)
        × (got : Buffer) × (fs3 : Fs S) × (sys_fread D block1 fs2 index buf0 size
            ≡ some (got, size, fs3))
        × ((i : ℕ) → i < size → got i ≡ buf i)
        × (fs3.fd_pos index ≡ fs.fd_pos index + size)
        × ((i : ℕ)
            → i < sector_size
            → (i < fs.fd_pos index) ⊎ (fs.fd_pos index + size ≤ i)
            → file_block_read D fs1.disk block1 (fs.fd_ino index) i
              ≡ file_block_read D fs.disk block0 (fs.fd_ino index) i)
        × ((m i : ℕ)
            → fs.fd_ino index ≢ m
            → in_reach D m ≡ true
            → i < sector_size
            → file_block_read D fs1.disk block1 m i ≡ file_block_read D fs.disk block1 m i)
  unfolding sys_fread sys_fwrite sys_fseek
  fread-fwrite fs block0 block1 buf buf0 index size named reach fits = (
    fs1,
    rw (lt→ltb index fd_num named, reach, lt→ltb (p + size) (sector_size + 1) (omega arith)) refl,
    fs2,
    rw (lt→ltb index fd_num named) refl,
    overlay buf0 0 size (λ a. read (moved index + a)),
    record fs2 { fd_pos = update moved index ((moved index + size) % 2 ^ 32) },
    rw
        (
          lt→ltb index fd_num named,
          reach,
          lt→ltb (moved index + size) (sector_size + 1)
              (subst (λ q. q + size < sector_size + 1) (sym back) (omega arith)),
        )
        refl,
    λ i h.
        overlay-zero buf0 size (λ a. read (moved index + a)) i h
        ∙ ap (λ q. read (q + i)) back
        ∙ written (p + i) (omega arith)
        ∙ overlay-inside old p size buf i h,
    update-eq moved index ((moved index + size) % 2 ^ 32) ∙ rw back (omega arith),
    λ i h out. written i h ∙ overlay-outside old p size buf i out,
    λ m i ne _ h.
        block_read-write D L fs.disk new block1 (fs.fd_ino index) m i h
        ∙ rw (==_ne (fs.fd_ino index) m ne),
  )
    where
      p : ℕ
      p = fs.fd_pos index

      moved : ℕ → ℕ
      moved = update (update fs.fd_pos index ((p + size) % 2 ^ 32)) index p

      back : moved index ≡ p
      back = update-eq (update fs.fd_pos index ((p + size) % 2 ^ 32)) index p

      old : Buffer
      old = file_block_read D fs.disk block0 (fs.fd_ino index)

      new : Buffer
      new = overlay old p size buf

      fs1 : Fs S
      fs1 = record fs {
        disk = file_block_write D fs.disk new (fs.fd_ino index);
        fd_pos = update fs.fd_pos index ((p + size) % 2 ^ 32);
      }

      fs2 : Fs S
      fs2 = record fs1 { fd_pos = moved }

      read : Buffer
      read =
          file_block_read D (file_block_write D fs.disk new (fs.fd_ino index)) block1
            (fs.fd_ino index)

      written : (i : ℕ) → i < sector_size → read i ≡ new i
      written i h =
          block_read-write D L fs.disk new block1 (fs.fd_ino index) (fs.fd_ino index) i h
          ∙ rw ((==_iff (fs.fd_ino index) (fs.fd_ino index)).1 refl)
