-- ===== src/Fs/Path/Remove.antt =====
-- Removing a directory or a file: kernel/fs/path.c.
use tina.Base.{
  ℕ, ◌+◌, ◌*◌, ◌≤◌, ◌<◌, ◌≡◌, ◌⊎◌, inl, inr, refl, sym, ◌∙◌, true, false, false≢true, List, ◌∷◌,
  arith, ◌==◌, ==_iff, ==_ne, if◌then◌else◌, Bool-cases, length,
}
use tina.Base.Bytes.{
  Buffer, word, put_word, word-put_word, word-cong, put_word-outside, overlay-outside,
}
use tina.Bitmap.{IsMap, bitmap_getbit, bitmap_modify}
use tina.Bitmap.Modify.{getbit-modify, modify-IsMap, length-modify}
use tina.Fs.{
  Device, IsDevice, Fs, sector_size, fs_inode_table_size, fs_inode_map_base, file_mode, dir_mode,
  inode_ino, dentrys_per_block, dentry_ino, no_ino,
}
use tina.Fs.Disk.{inode_map_read, inode_map_write, dir_block_read, dir_block_write}
use tina.Fs.Disk.Layout.{sector_at, dir_write-byte}
use tina.Fs.Disk.Alloc.{map_read-kept, map_write-outside}
use tina.Fs.Format.{inode_delete}
use tina.Fs.Path.{
  is_free, is_named, first_entry, remove_entry, is_dots, remove_directory, remove_file,
}
use tina.Fs.Path.Rewrite.{first_entry-FirstEntry, Rewritten, write-Rewritten}

named-used :
    (mode : ℕ) (name : List ℕ) (db : Buffer) (i : ℕ)
    → is_named mode name db i ≡ true
    → is_free db i ≡ false
unfolding is_named
named-used mode name db i e = elim (Bool-cases (is_free db i)) [
  | inl f ↦ absurd (false≢true (sym (used f) ∙ e))
  | inr f ↦ f
]
  where
    used : is_free db i ≡ true → is_named mode name db i ≡ false
    used f = rw f refl

module _ {S : Type 0} (D : Device S) (L : IsDevice D) where
  -- Entry `i` of directory `h`, which was inode `n`, is free, and so is the inode, on the disk too; the other
  -- bytes of the block, `db`, are as before.
  pub record Removed (fs : Fs S) (db : Buffer) (h n i : ℕ) (fs' : Fs S) : Type 0 where
    pub free : (buf : Buffer) → is_free (dir_block_read D fs'.disk buf h) i ≡ true
    pub others :
        (buf : Buffer) (a : ℕ)
        → a < sector_size
        → (a < 32 * i) ⊎ (32 * i + 4 ≤ a)
        → dir_block_read D fs'.disk buf h a ≡ db a
    pub bits :
        (k : ℕ)
        → bitmap_getbit fs'.inode_map k ≡ (if n == k then 0 else bitmap_getbit fs.inode_map k)
    pub valid : IsMap fs'.inode_map
    pub stored : (inode_map_read D fs').inode_map ≡ fs'.inode_map
    pub rest : Rewritten D L fs.disk h (put_word db (dentry_ino i) no_ino) fs'.disk
    pub same : fs' ≡ record fs { disk = fs'.disk; inode_map = fs'.inode_map }

  -- The branch of an entry that has been found.
  abbrev pub clear_entry : (fs : Fs S) → (db : Buffer) → (h n i : ℕ) → Fs S
  clear_entry fs db h n i =
      let gone = inode_delete D fs n in
      record gone { disk = dir_block_write D gone.disk (put_word db (dentry_ino i) no_ino) h }

  pub clear_entry-Removed :
      (fs : Fs S) (db : Buffer) (h n i : ℕ)
      → IsMap fs.inode_map
      → length fs.inode_map ≡ 0x400
      → h < fs_inode_table_size * 8
      → n < fs_inode_table_size * 8
      → i < dentrys_per_block
      → Removed fs db h n i (clear_entry fs db h n i)
  unfolding inode_delete is_free inode_map_write
  clear_entry-Removed fs db h n i w len hh hn hi = record {
    free = λ buf. (==_iff _ _).1 (
        word-cong _ new (dentry_ino i) (λ a l. r.own buf (dentry_ino i + a) (omega arith))
        ∙ word-put_word db (dentry_ino i) no_ino (omega arith));
    others = λ buf a l out.
        r.own buf a l ∙ put_word-outside db (dentry_ino i) no_ino a (ground (arith, out));
    bits = λ k. getbit-modify fs.inode_map 0 n k w (omega arith) (omega (arith, len, hn));
    valid = modify-IsMap fs.inode_map 0 n w;
    stored =
        map_read-kept D L cleared (clear_entry fs db h n i) (modify-IsMap fs.inode_map 0 n w)
          (length-modify fs.inode_map 0 n ∙ len)
          (λ c l.
            dir_write-byte D L (inode_map_write D cleared).disk new h
              (sector_at fs_inode_map_base + c)
            ∙ overlay-outside (D.byte (inode_map_write D cleared).disk) (sector_at h) sector_size
                new (sector_at fs_inode_map_base + c) (inr (omega arith)));
    rest = r;
    same = refl;
  }
    where
      cleared : Fs S
      cleared = record fs { inode_map = (bitmap_modify fs.inode_map 0 n).0 }

      new : Buffer
      new = put_word db (dentry_ino i) no_ino

      r : Rewritten D L fs.disk h new (clear_entry fs db h n i).disk
      r =
          write-Rewritten D L fs.disk (inode_map_write D cleared).disk h new hh
            (λ a o. map_write-outside D L cleared a o)

  -- What `remove_entry` gives: the first entry of the name is gone, or there is none, and the block is written
  -- as it was.
  abbrev pub Gone :
      (mode : ℕ) → (name : List ℕ) → (fs : Fs S) → (db : Buffer) → (h : ℕ) → Fs S → Type 0
  Gone mode name fs db h fs' =
      ((i : ℕ) × (i < dentrys_per_block)
        × (is_named mode name db i ≡ true)
        × ((j : ℕ) → j < i → is_named mode name db j ≡ false)
        × Removed fs db h (word db (dentry_ino i)) i fs')
      ⊎ (((j : ℕ) → j < dentrys_per_block → is_named mode name db j ≡ false)
          × Rewritten D L fs.disk h db fs'.disk
          × (fs' ≡ record fs { disk = fs'.disk }))

  -- The numbers of the entries in use are numbers of inodes.
  abbrev pub IsDirBlock : Buffer → Type 0
  IsDirBlock db =
      (j : ℕ)
      → j < dentrys_per_block
      → (is_free db j ≡ true) ⊎ (word db (dentry_ino j) < fs_inode_table_size * 8)

  remove_entry-Gone :
      (block0 : Buffer) (mode : ℕ) (name : List ℕ) (fs : Fs S)
      → let h = word fs.shell_path_inode inode_ino in
        let db = dir_block_read D fs.disk block0 h in
        IsMap fs.inode_map
        → length fs.inode_map ≡ 0x400
        → h < fs_inode_table_size * 8
        → IsDirBlock db
        → Gone mode name fs db h (remove_entry D block0 mode name fs)
  unfolding remove_entry
  remove_entry-Gone block0 mode name fs w len hh dir =
      elim (first_entry-FirstEntry dentrys_per_block 0 (is_named mode name db)) [
        | inl (lo, hi, at, before) ↦ rw (==_ne i dentrys_per_block (omega arith)) (
            inl (
              i,
              hi,
              at,
              λ j l. before j (omega arith) l,
              clear_entry-Removed fs db h (word db (dentry_ino i)) i w len hh (used at (dir i hi))
                  hi,
            ))
        | inr (end, all) ↦ rw end (
            inr (
              λ j l. all j (omega arith) l,
              write-Rewritten D L fs.disk fs.disk h db hh (λ a o. refl),
              refl,
            ))
      ]
    where
      h : ℕ
      h = word fs.shell_path_inode inode_ino

      db : Buffer
      db = dir_block_read D fs.disk block0 h

      i : ℕ
      i = first_entry dentrys_per_block 0 (is_named mode name db)

      used :
          is_named mode name db i ≡ true
          → (is_free db i ≡ true) ⊎ (word db (dentry_ino i) < fs_inode_table_size * 8)
          → word db (dentry_ino i) < fs_inode_table_size * 8
      used at (inl f) = absurd (false≢true (sym (named-used mode name db i at) ∙ f))
      used at (inr l) = l

  -- For a disk on which `sdread` reads what `sdwrite` has written, a valid inode map and a directory
  -- whose entries are free or have numbers of inodes, `rmdir` of `.` or `..` changes nothing; else, if a
  -- directory has the name, the first such entry is free after it, its inode is free in the map and on
  -- the disk, and the other bytes of the block, the other blocks and all inodes are as before; and if
  -- none has, the block is written as it was, and nothing has changed.
  pub remove_directory-Gone :
      (block0 : Buffer) (fs : Fs S) (cmd name : List ℕ) (argv : List (List ℕ))
      → let h = word fs.shell_path_inode inode_ino in
        let db = dir_block_read D fs.disk block0 h in
        IsMap fs.inode_map
        → length fs.inode_map ≡ 0x400
        → h < fs_inode_table_size * 8
        → IsDirBlock db
        → ((is_dots D name ≡ true) × (remove_directory D block0 fs (cmd ∷ name ∷ argv) ≡ fs))
          ⊎ ((is_dots D name ≡ false)
              × Gone dir_mode name fs db h (remove_directory D block0 fs (cmd ∷ name ∷ argv)))
  unfolding remove_directory
  remove_directory-Gone block0 fs cmd name argv w len hh dir = elim (Bool-cases (is_dots D name)) [
    | inl e ↦ rw e (inl (refl, refl))
    | inr e ↦ rw e (inr (refl, remove_entry-Gone block0 dir_mode name fs w len hh dir))
  ]

  pub remove_file-Gone :
      (block0 : Buffer) (fs : Fs S) (cmd name : List ℕ) (argv : List (List ℕ))
      → let h = word fs.shell_path_inode inode_ino in
        let db = dir_block_read D fs.disk block0 h in
        IsMap fs.inode_map
        → length fs.inode_map ≡ 0x400
        → h < fs_inode_table_size * 8
        → IsDirBlock db
        → Gone file_mode name fs db h (remove_file D block0 fs (cmd ∷ name ∷ argv))
  unfolding remove_file
  remove_file-Gone block0 fs cmd name argv w len hh dir =
      remove_entry-Gone block0 file_mode name fs w len hh dir
