-- ===== src/Fs/Disk.antt =====
-- Sectors, inodes and blocks on the disk: kernel/fs/disk.c.
pub mod Layout
pub mod Alloc
use tina.Base.{
  ℕ, zero, suc, ◌+◌, ◌-◌, ◌*◌, ◌/◌, ◌%◌, ◌^◌, ◌≤◌, ◌<◌, min, max, ◌≡◌, ◌≢◌, ◌↔◌, ◌⊎◌, inl, inr,
  refl, sym, ap, ap₂, subst, ◌∙◌, fun_ext, Bool, true, false, not, ◌&&◌, ◌||◌, false≢true, Option,
  none, some, List, [], ◌∷◌, ◌++◌, map, append-nil, append_assoc, arith, ltb, leb, ◌==◌, ==_iff,
  ==_ne, ltb→lt, lt→ltb, leb_lt, leb_le, ltb_le, dec_lt, ℕ_discrete, if◌then◌else◌, Bool-cases,
  Option-cases, update, update-ne, update-eq, length, get_or, set, take, drop, replicate, All, has,
  ◌∈◌, ◌∉◌, Distinct, has-append, not-mem-cons, not-mem-append, mem_middle, mem-append_left,
  length-append, length-set, get_or-set, length-replicate, get_or-replicate,
}
use tina.Base.Bytes.{Buffer, word, put_word, overlay}
use tina.Bitmap.{Found, found, bitmap_search, bitmap_modify}
use tina.Fs.{
  Device, Fs, fs_base, sector_size, fs_data_base, fs_superblock_base, fs_inode_map_base,
  fs_inode_map_size, fs_inode_table_base, fs_inode_table_size, fs_block_size, fs_inode_size,
}

-- The macro `check_ino`, of an int as a 32-bit word: negative ones are above all others.
unfoldable pub check_ino : ℕ → Bool
check_ino ino = ltb ino (fs_inode_table_size * 8)

-- The bytes of the words of the inode map, and back.
unfoldable pub map_bytes : List ℕ → Buffer
map_bytes map a = get_or map (a / 4) 0 / 2 ^ (8 * (a % 4)) % 2 ^ 8

unfoldable pub words : (n : ℕ) → Buffer → ℕ → List ℕ
words zero f o = []
words (suc n) f o = word f o ∷ words n f (o + 4)

module _ {S : Type 0} (D : Device S) where
  unfoldable pub do_sdread : S → (offset size : ℕ) → Buffer
  do_sdread s offset size = D.sdread s (offset + fs_base * sector_size) size

  unfoldable pub do_sdwrite : S → Buffer → (offset size : ℕ) → S
  do_sdwrite s src offset size = D.sdwrite s src (offset + fs_base * sector_size) size

  unfoldable pub sector_write : S → Buffer → (sector : ℕ) → S
  sector_write s src sector = do_sdwrite s src (sector * sector_size) sector_size

  unfoldable pub sector_read : S → (sector : ℕ) → Buffer
  sector_read s sector = do_sdread s (sector * sector_size) sector_size

  unfoldable pub inode_write : S → Buffer → (ino : ℕ) → S
  inode_write s src ino =
      let sector = ino / 8 + fs_inode_table_base in
      let ie = overlay (sector_read s sector) (ino % 8 * fs_inode_size) fs_inode_size src in
      if check_ino ino then sector_write s ie sector else s

  -- The object read to; a bad number leaves it as it was.
  unfoldable pub inode_read : S → (dest : Buffer) → (ino : ℕ) → Buffer
  inode_read s dest ino =
      if check_ino ino
      then overlay dest 0 fs_inode_size
          (do_sdread s (fs_inode_table_base * sector_size + ino * fs_inode_size) fs_inode_size)
      else dest

  -- The loops over the sectors of an object of several.
  unfoldable pub sectors_read : (left i : ℕ) → S → (dest : Buffer) → (sector : ℕ) → Buffer
  sectors_read zero i s dest sector = dest
  sectors_read (suc left) i s dest sector =
      sectors_read left (i + 1) s
        (overlay dest (i * sector_size) sector_size (sector_read s (sector + i))) sector

  unfoldable pub sectors_write : (left i : ℕ) → S → (src : Buffer) → (sector : ℕ) → S
  sectors_write zero i s src sector = s
  sectors_write (suc left) i s src sector =
      sectors_write left (i + 1) (sector_write s (λ a. src (i * sector_size + a)) (sector + i)) src
        sector

  unfoldable pub inode_map_read : Fs S → Fs S
  inode_map_read fs = record fs {
    inode_map =
        words 0x400
          (sectors_read fs_inode_map_size 0 fs.disk (map_bytes fs.inode_map) fs_inode_map_base) 0;
  }

  unfoldable pub inode_map_write : Fs S → Fs S
  inode_map_write fs = record fs {
    disk = sectors_write fs_inode_map_size 0 fs.disk (map_bytes fs.inode_map) fs_inode_map_base;
  }

  -- The rest of `inode_alloc`, with what the search has found.
  unfoldable pub alloc_found : Fs S → Found → Option (ℕ × Fs S)
  alloc_found fs (found i) =
      some (i, inode_map_write (record fs { inode_map = (bitmap_modify fs.inode_map 1 i).0 }))
  alloc_found fs _ = none

  -- `none` if the map is full: the code shifts by a negative number.
  unfoldable pub inode_alloc : Fs S → Option (ℕ × Fs S)
  inode_alloc fs = alloc_found fs (bitmap_search fs.inode_map 0 (fs_inode_table_size * 8))

  unfoldable pub inode_free : Fs S → (ino : ℕ) → Fs S
  inode_free fs ino =
      if check_ino ino
      then inode_map_write (record fs { inode_map = (bitmap_modify fs.inode_map 0 ino).0 })
      else fs

  unfoldable pub superblock_read : Fs S → Fs S
  superblock_read fs = record fs {
    superblock = overlay fs.superblock 0 sector_size (sector_read fs.disk fs_superblock_base);
  }

  unfoldable pub superblock_write : Fs S → Fs S
  superblock_write fs = record fs { disk = sector_write fs.disk fs.superblock fs_superblock_base }

  unfoldable pub file_block_read : S → (fb : Buffer) → (ino : ℕ) → Buffer
  file_block_read s fb ino = sectors_read fs_block_size 0 s fb (ino * fs_block_size + fs_data_base)

  unfoldable pub file_block_write : S → (fb : Buffer) → (ino : ℕ) → S
  file_block_write s fb ino =
      sectors_write fs_block_size 0 s fb (ino * fs_block_size + fs_data_base)

  unfoldable pub dir_block_read : S → (db : Buffer) → (ino : ℕ) → Buffer
  dir_block_read s db ino = sectors_read fs_block_size 0 s db (ino * fs_block_size + fs_data_base)

  unfoldable pub dir_block_write : S → (db : Buffer) → (ino : ℕ) → S
  dir_block_write s db ino = sectors_write fs_block_size 0 s db (ino * fs_block_size + fs_data_base)
