-- ===== src/Fs/Disk/Layout.antt =====
-- Where sectors, inodes and the inode map stand on the disk: kernel/fs/disk.c.
use tina.Base.{
  ℕ, zero, suc, ◌+◌, ◌*◌, ◌/◌, ◌%◌, ◌<◌, ◌≡◌, inl, inr, refl, sym, ap, ap₂, ◌∙◌, fun_ext, true,
  arith, ◌==◌, ==_iff, ==_ne, dec_lt, ℕ_discrete, if◌then◌else◌,
}
use tina.Base.Bytes.{
  overlay-zero, overlay-join, overlay-within, overlay-cong, Buffer, overlay, overlay-inside,
  overlay-outside,
}
use tina.Fs.{Device, IsDevice, fs_base, sector_size, fs_inode_table_base, fs_inode_size}
use tina.Fs.Disk.{
  check_ino, do_sdread, do_sdwrite, sector_read, sector_write, sectors_read, sectors_write,
  inode_read, inode_write, file_block_read, file_block_write, dir_block_read, dir_block_write,
}

-- The address of a sector, and of an inode of the table.
abbrev pub sector_at : ℕ → ℕ
sector_at k = k * sector_size + fs_base * sector_size

abbrev pub inode_at : ℕ → ℕ
inode_at ino = (fs_inode_table_base + fs_base) * sector_size + ino * fs_inode_size

module _ {S : Type 0} (D : Device S) (L : IsDevice D) where
  pub sector_read-byte :
      (s : S) (k i : ℕ) → i < sector_size → sector_read D s k i ≡ D.byte s (sector_at k + i)
  unfolding sector_read do_sdread
  sector_read-byte s k i h = L.reads s (sector_at k) sector_size i h

  pub sector_write-byte :
      (s : S) (src : Buffer) (k a : ℕ)
      → D.byte (sector_write D s src k) a ≡ overlay (D.byte s) (sector_at k) sector_size src a
  unfolding sector_write do_sdwrite
  sector_write-byte s src k a = L.writes s src (sector_at k) sector_size a

  pub inode_read-byte :
      (s : S) (dest : Buffer) (ino i : ℕ)
      → check_ino ino ≡ true
      → i < fs_inode_size
      → inode_read D s dest ino i ≡ D.byte s (inode_at ino + i)
  unfolding inode_read do_sdread
  inode_read-byte s dest ino i ok h =
      let at : fs_inode_table_base * sector_size + ino * fs_inode_size + fs_base * sector_size + i
          ≡ inode_at ino + i =
        omega arith in
      rw ok (
        overlay-zero dest fs_inode_size
          (D.sdread s
            (fs_inode_table_base * sector_size + ino * fs_inode_size + fs_base * sector_size)
            fs_inode_size)
          i h
        ∙ L.reads s
            (fs_inode_table_base * sector_size + ino * fs_inode_size + fs_base * sector_size)
            fs_inode_size i h
        ∙ ap (D.byte s) at)

  -- What `inode_write` writes is one entry of the table.
  pub inode_write-byte :
      (s : S) (src : Buffer) (ino a : ℕ)
      → check_ino ino ≡ true
      → D.byte (inode_write D s src ino) a ≡ overlay (D.byte s) (inode_at ino) fs_inode_size src a
  unfolding inode_write
  inode_write-byte s src ino a ok =
      let k : ℕ = ino / 8 + fs_inode_table_base in
      let o : ℕ = ino % 8 * fs_inode_size in
      let ie : Buffer = overlay (sector_read D s k) o fs_inode_size src in
      let at : sector_at k + o ≡ inode_at ino = omega arith in
      rw ok (
        sector_write-byte s ie k a
        ∙ overlay-within (D.byte s) (sector_read D s k) (sector_at k) sector_size o fs_inode_size
            src a (omega arith) (λ i h. sector_read-byte s k i h)
        ∙ ap (λ b. overlay (D.byte s) b fs_inode_size src a) at)

  -- An object of several sectors, `i` of which are written already.
  pub sectors_write-byte :
      (left i : ℕ) (s : S) (src : Buffer) (k a : ℕ)
      → D.byte (sectors_write D left i s src k) a
        ≡ overlay
            (D.byte s)
            (sector_at (k + i))
            (left * sector_size)
            (λ c. src (i * sector_size + c))
            a
  unfolding sectors_write
  sectors_write-byte zero i s src k a = sym (
      overlay-outside (D.byte s) (sector_at (k + i)) 0 (λ c. src (i * sector_size + c)) a
        (elim (dec_lt a (sector_at (k + i))) [ yes l ↦ inl l | no g ↦ inr (omega arith) ]))
  sectors_write-byte (suc left) i s src k a =
      let one : Buffer = λ c. src (i * sector_size + c) in
      let next : sector_at (k + (i + 1)) ≡ sector_at (k + i) + sector_size = omega arith in
      let size : sector_size + left * sector_size ≡ suc left * sector_size = omega arith in
      let shift : (λ c. src ((i + 1) * sector_size + c)) ≡ (λ c. one (sector_size + c)) =
        fun_ext (λ c.
          let e : (i + 1) * sector_size + c ≡ i * sector_size + (sector_size + c) = omega arith in
          ap src e) in
      sectors_write-byte left (i + 1) (sector_write D s one (k + i)) src k a
      ∙ overlay-cong (D.byte (sector_write D s one (k + i)))
          (overlay (D.byte s) (sector_at (k + i)) sector_size one) (sector_at (k + (i + 1)))
          (left * sector_size) (λ c. src ((i + 1) * sector_size + c)) a
          (sector_write-byte s one (k + i) a)
      ∙ ap₂
          (λ p g.
            overlay (overlay (D.byte s) (sector_at (k + i)) sector_size one) p (left * sector_size)
              g a)
          next shift
      ∙ overlay-join (D.byte s) (sector_at (k + i)) sector_size (left * sector_size) one a
      ∙ ap (λ n. overlay (D.byte s) (sector_at (k + i)) n one a) size

  pub block_read-byte :
      (s : S) (fb : Buffer) (n i : ℕ)
      → i < sector_size
      → file_block_read D s fb n i ≡ D.byte s (sector_at n + i)
  unfolding file_block_read sectors_read
  block_read-byte s fb n i h =
      let k : n * 1 + 0 + 0 ≡ n = omega arith in
      overlay-zero fb sector_size (sector_read D s (n * 1 + 0 + 0)) i h
      ∙ sector_read-byte s (n * 1 + 0 + 0) i h
      ∙ ap (λ m. D.byte s (sector_at m + i)) k

  pub block_write-byte :
      (s : S) (fb : Buffer) (n a : ℕ)
      → D.byte (file_block_write D s fb n) a ≡ overlay (D.byte s) (sector_at n) sector_size fb a
  unfolding file_block_write
  block_write-byte s fb n a =
      let k : n * 1 + 0 + 0 ≡ n = omega arith in
      let src : (λ c. fb (0 * sector_size + c)) ≡ fb =
        fun_ext (λ c. let e : 0 * sector_size + c ≡ c = omega arith in ap fb e) in
      sectors_write-byte 1 0 s fb (n * 1 + 0) a
      ∙ ap₂ (λ m g. overlay (D.byte s) (sector_at m) sector_size g a) k src

  -- The block that `file_block_read` reads after a `file_block_write` is the one written, and the blocks
  -- of other inodes are as before.
  pub block_read-write :
      (s : S) (fb buf : Buffer) (n m i : ℕ)
      → i < sector_size
      → file_block_read D (file_block_write D s fb n) buf m i
        ≡ (if n == m then fb i else file_block_read D s buf m i)
  block_read-write s fb buf n m i h =
      block_read-byte (file_block_write D s fb n) buf m i h
      ∙ block_write-byte s fb n (sector_at m + i)
      ∙ elim (ℕ_discrete n m) [
        | yes e ↦
            rw (e, (==_iff m m).1 refl) (overlay-inside (D.byte s) (sector_at m) sector_size fb i h)
        | no ne ↦ rw (==_ne n m ne) (
            overlay-outside (D.byte s) (sector_at n) sector_size fb (sector_at m + i)
              (elim (dec_lt m n) [ yes l ↦ inl (omega arith) | no g ↦ inr (omega arith) ])
            ∙ sym (block_read-byte s buf m i h))
      ]

  -- For numbers that pass `check_ino`, the inode that `inode_read` reads after an `inode_write` is the
  -- one written, and every other inode is as before.
  pub inode_read-write :
      (s : S) (src dest : Buffer) (n m i : ℕ)
      → check_ino n ≡ true
      → check_ino m ≡ true
      → i < fs_inode_size
      → inode_read D (inode_write D s src n) dest m i
        ≡ (if n == m then src i else inode_read D s dest m i)
  inode_read-write s src dest n m i okn okm h =
      inode_read-byte (inode_write D s src n) dest m i okm h
      ∙ inode_write-byte s src n (inode_at m + i) okn
      ∙ elim (ℕ_discrete n m) [
        | yes e ↦
            rw (e, (==_iff m m).1 refl)
              (overlay-inside (D.byte s) (inode_at m) fs_inode_size src i h)
        | no ne ↦ rw (==_ne n m ne) (
            overlay-outside (D.byte s) (inode_at n) fs_inode_size src (inode_at m + i)
              (elim (dec_lt m n) [ yes l ↦ inl (omega arith) | no g ↦ inr (omega arith) ])
            ∙ sym (inode_read-byte s dest m i okm h))
      ]

  -- Directories are blocks like files.
  pub dir_block_read-eq :
      (s : S) (db : Buffer) (n : ℕ) → dir_block_read D s db n ≡ file_block_read D s db n
  unfolding dir_block_read file_block_read
  dir_block_read-eq s db n = refl

  pub dir_block_write-eq :
      (s : S) (db : Buffer) (n : ℕ) → dir_block_write D s db n ≡ file_block_write D s db n
  unfolding dir_block_write file_block_write
  dir_block_write-eq s db n = refl

  pub dir_read-byte :
      (s : S) (db : Buffer) (n i : ℕ)
      → i < sector_size
      → dir_block_read D s db n i ≡ D.byte s (sector_at n + i)
  dir_read-byte s db n i h = ap (λ f. f i) (dir_block_read-eq s db n) ∙ block_read-byte s db n i h

  pub dir_write-byte :
      (s : S) (db : Buffer) (n a : ℕ)
      → D.byte (dir_block_write D s db n) a ≡ overlay (D.byte s) (sector_at n) sector_size db a
  dir_write-byte s db n a =
      ap (λ t. D.byte t a) (dir_block_write-eq s db n) ∙ block_write-byte s db n a
