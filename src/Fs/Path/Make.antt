-- ===== src/Fs/Path/Make.antt =====
-- A directory that has been made can be entered: kernel/fs/path.c.
use tina.Base.{
  ℕ, ◌+◌, ◌*◌, ◌≤◌, ◌<◌, ◌≡◌, ◌==◌, if◌then◌else◌, ◌≢◌, ◌⊎◌, inl, inr, refl, sym, ap, subst, ◌∙◌,
  true, Option, none, some, List, ◌∷◌, map, arith, lt→ltb, dec_lt, length,
}
use tina.Base.Bytes.{Buffer, word, overlay-inside, overlay-outside}
use tina.Bitmap.{IsMap, bitmap_getbit}
use tina.Fs.{
  Device, IsDevice, Fs, sector_size, fs_inode_size, fs_inode_table_size, dir_mode, inode_ino,
  dentrys_per_block,
}
use tina.Fs.Disk.{check_ino, inode_read, inode_alloc, dir_block_read, dir_block_write}
use tina.Fs.Disk.Layout.{sector_at, inode_at, inode_read-byte, dir_read-byte, dir_write-byte}
use tina.Fs.Disk.Alloc.{Allocated, IsAlloc, inode_alloc-IsAlloc}
use tina.Fs.Format.{put_entry, inode_create}
use tina.Fs.Format.Entry.{
  FitsEntry, IsEntry, IsEntry-cong, put_entry-IsEntry, put_entry-outside, IsInode, IsInode-cong,
}
use tina.Fs.Format.Create.{IsEmptyDir, IsEmptyDir-cong, CreatedDir, create-CreatedDir}
use tina.Fs.Path.{is_free, first_entry, add_allocated, add_entry, make_directory}

module _ {S : Type 0} (D : Device S) (L : IsDevice D) where
  -- The directory `n` with this name is entry `i` of the directory `h` now; `db` was the block of `h`.
  pub record Added (fs : Fs S) (db : Buffer) (h n i : ℕ) (cs : List ℕ) (fs' : Fs S) : Type 0 where
    pub entry : (buf : Buffer) → IsEntry (dir_block_read D fs'.disk buf h) i n dir_mode cs
    pub others :
        (buf : Buffer) (a : ℕ)
        → a < sector_size
        → (a < 32 * i) ⊎ (32 * i + 32 ≤ a)
        → dir_block_read D fs'.disk buf h a ≡ db a
    pub inode : (dest : Buffer) → IsInode (inode_read D fs'.disk dest n) n dir_mode h
    pub block : (buf : Buffer) → IsEmptyDir (dir_block_read D fs'.disk buf n) n h
    pub inodes :
        (dest : Buffer) (m a : ℕ)
        → m < fs_inode_table_size * 8
        → m ≢ n
        → a < fs_inode_size
        → inode_read D fs'.disk dest m a ≡ inode_read D fs.disk dest m a
    pub blocks :
        (buf : Buffer) (m a : ℕ)
        → m < fs_inode_table_size * 8
        → m ≢ n
        → m ≢ h
        → a < sector_size
        → dir_block_read D fs'.disk buf m a ≡ dir_block_read D fs.disk buf m a
    pub shell : fs'.shell_path_inode ≡ fs.shell_path_inode
    pub bits :
        (k : ℕ)
        → bitmap_getbit fs'.inode_map k ≡ (if n == k then 1 else bitmap_getbit fs.inode_map k)
    pub valid : IsMap fs'.inode_map
    pub length_map : length fs'.inode_map ≡ length fs.inode_map

  add_allocated-Added :
      (fs fs1 : Fs S) (inode0 block0 db : Buffer) (now n i : ℕ) (name : List ℕ) (h : ℕ)
      → Allocated D L fs n fs1
      → word fs.shell_path_inode inode_ino ≡ h
      → h < fs_inode_table_size * 8
      → h ≢ n
      → i < dentrys_per_block
      → FitsEntry name
      → (fs' : Fs S) × (add_allocated D inode0 block0 db now i dir_mode name (some (n, fs1))
          ≡ some fs')
        × Added fs db h n i name fs'
  unfolding add_allocated check_ino
  add_allocated-Added fs fs1 inode0 block0 db now n i name h al eh hh ne hi fits = (
    record fs1 { disk = last },
    rw here refl,
    record {
      entry = λ buf.
          IsEntry-cong (dir_block_read D last buf h) new i n dir_mode name fits
            (λ a l. own buf (32 * i + a) (omega arith))
            (put_entry-IsEntry db i n dir_mode name (omega (arith, al.small)) (omega arith));
      others = λ buf a l out. own buf a l ∙ put_entry-outside db i n dir_mode name a fits out;
      inode = λ dest.
          IsInode-cong (inode_read D last dest n) (inode_read D made dest n) n dir_mode h
            (λ a l. inode_made dest n a al.small l) (c.inode dest);
      block = λ buf.
          IsEmptyDir-cong (dir_block_read D last buf n) (dir_block_read D made buf n) n h
            (λ a l. block_made buf n a (λ e. ne (sym e)) l) (c.block buf);
      inodes = λ dest m a hm nm l. inode_made dest m a hm l ∙ inode_old dest m a hm nm l;
      blocks = λ buf m a hm nm nh l. block_made buf m a nh l ∙ block_old buf m a hm nm l;
      shell = ap (λ (f : Fs S). f.shell_path_inode) al.same;
      bits = al.bits;
      valid = al.valid;
      length_map = al.length_map;
    },
  )
    where
      here : word fs1.shell_path_inode inode_ino ≡ h
      here = ap (λ (f : Fs S). word f.shell_path_inode inode_ino) al.same ∙ eh

      new : Buffer
      new = put_entry db i n dir_mode name

      made : S
      made = inode_create D fs1.disk inode0 block0 n dir_mode name h now

      c : CreatedDir D L fs1.disk n h made
      c = create-CreatedDir D L fs1.disk inode0 block0 n name h now al.small hh (omega arith)

      last : S
      last = dir_block_write D made new h

      own : (buf : Buffer) (a : ℕ) → a < sector_size → dir_block_read D last buf h a ≡ new a
      own buf a l =
          dir_read-byte D L last buf h a l
          ∙ dir_write-byte D L made new h (sector_at h + a)
          ∙ overlay-inside (D.byte made) (sector_at h) sector_size new a l

      ok : (m : ℕ) → m < fs_inode_table_size * 8 → check_ino m ≡ true
      ok m l = lt→ltb m (fs_inode_table_size * 8) l

      inode_made :
          (dest : Buffer) (m a : ℕ)
          → m < fs_inode_table_size * 8
          → a < fs_inode_size
          → inode_read D last dest m a ≡ inode_read D made dest m a
      inode_made dest m a hm l =
          inode_read-byte D L last dest m a (ok m hm) l
          ∙ dir_write-byte D L made new h (inode_at m + a)
          ∙ overlay-outside (D.byte made) (sector_at h) sector_size new (inode_at m + a)
              (inr (omega arith))
          ∙ sym (inode_read-byte D L made dest m a (ok m hm) l)

      inode_old :
          (dest : Buffer) (m a : ℕ)
          → m < fs_inode_table_size * 8
          → m ≢ n
          → a < fs_inode_size
          → inode_read D made dest m a ≡ inode_read D fs.disk dest m a
      inode_old dest m a hm nm l =
          inode_read-byte D L made dest m a (ok m hm) l
          ∙ c.kept (inode_at m + a) (inr (omega (arith, al.small)))
              (elim (dec_lt m n) [ yes b ↦ inl (omega arith) | no b ↦ inr (omega arith) ])
          ∙ al.kept (inode_at m + a) (inr (omega arith))
          ∙ sym (inode_read-byte D L fs.disk dest m a (ok m hm) l)

      block_made :
          (buf : Buffer) (m a : ℕ)
          → m ≢ h
          → a < sector_size
          → dir_block_read D last buf m a ≡ dir_block_read D made buf m a
      block_made buf m a nh l =
          dir_read-byte D L last buf m a l
          ∙ dir_write-byte D L made new h (sector_at m + a)
          ∙ overlay-outside (D.byte made) (sector_at h) sector_size new (sector_at m + a)
              (elim (dec_lt m h) [ yes b ↦ inl (omega arith) | no b ↦ inr (omega arith) ])
          ∙ sym (dir_read-byte D L made buf m a l)

      block_old :
          (buf : Buffer) (m a : ℕ)
          → m < fs_inode_table_size * 8
          → m ≢ n
          → a < sector_size
          → dir_block_read D made buf m a ≡ dir_block_read D fs.disk buf m a
      block_old buf m a hm nm l =
          dir_read-byte D L made buf m a l
          ∙ c.kept (sector_at m + a)
              (elim (dec_lt m n) [ yes b ↦ inl (omega arith) | no b ↦ inr (omega arith) ])
              (inl (omega arith))
          ∙ al.kept (sector_at m + a) (inl (omega arith))
          ∙ sym (dir_read-byte D L fs.disk buf m a l)

  -- What `make_directory` may give: there is no free inode, or a free one has been made a directory.
  abbrev pub MadeDir : (fs : Fs S) → (db : Buffer) → (h i : ℕ) → List ℕ → Option (Fs S) → Type 0
  MadeDir fs db h i cs none =
      (k : ℕ) → k < fs_inode_table_size * 8 → bitmap_getbit fs.inode_map k ≢ 0
  MadeDir fs db h i cs (some fs') =
      (n : ℕ) × (n < fs_inode_table_size * 8)
      × (bitmap_getbit fs.inode_map n ≡ 0)
      × Added fs db h n i cs fs'

  add_allocated-MadeDir :
      (fs : Fs S) (inode0 block0 db : Buffer) (now i : ℕ) (name : List ℕ) (h : ℕ)
      (r : Option (ℕ × Fs S))
      → IsAlloc D L fs r
      → word fs.shell_path_inode inode_ino ≡ h
      → h < fs_inode_table_size * 8
      → bitmap_getbit fs.inode_map h ≢ 0
      → i < dentrys_per_block
      → FitsEntry name
      → MadeDir fs db h i name (add_allocated D inode0 block0 db now i dir_mode name r)
  unfolding add_allocated
  add_allocated-MadeDir fs inode0 block0 db now i name h none full eh hh used hi fits = full
  add_allocated-MadeDir fs inode0 block0 db now i name h (some (n, fs1)) al eh hh used hi fits =
      let ne : h ≢ n = λ e. used (ap (bitmap_getbit fs.inode_map) e ∙ al.free) in
      let (fs', eq, added) =
        add_allocated-Added fs fs1 inode0 block0 db now n i name h al eh hh ne hi fits in
      subst (λ r. MadeDir fs db h i name r) (sym eq) (n, al.small, al.free, added)

  -- For a disk on which `sdread` reads what `sdwrite` has written, `mkdir` of a name of less than 24
  -- characters in a directory with a free entry, whose own inode is taken, with a valid inode map: it
  -- gives no result only if every inode is taken; else a free inode `n` is the new one, the first free
  -- entry is (`n`, dir, the name), the other entries of the block are kept, `n` is a directory with `.`,
  -- `..` and free entries, the inodes of all others and the blocks of all but these two are kept, and
  -- the shell stays where it is.
  pub make_directory-MadeDir :
      (fs : Fs S) (inode0 block0 : Buffer) (now : ℕ) (cmd name : List ℕ) (argv : List (List ℕ))
      → let here = word fs.shell_path_inode inode_ino in
        let db = dir_block_read D fs.disk block0 here in
        let i = first_entry dentrys_per_block 0 (is_free db) in
        IsMap fs.inode_map
        → length fs.inode_map ≡ 0x400
        → here < fs_inode_table_size * 8
        → bitmap_getbit fs.inode_map here ≢ 0
        → i < dentrys_per_block
        → FitsEntry name
        → MadeDir fs db here i name (make_directory D inode0 block0 now fs (cmd ∷ name ∷ argv))
  unfolding make_directory add_entry
  make_directory-MadeDir fs inode0 block0 now cmd name argv map len hh used hi fits =
      add_allocated-MadeDir fs inode0 block0 db now (first_entry dentrys_per_block 0 (is_free db))
        name here (inode_alloc D fs) (inode_alloc-IsAlloc D L fs map len) refl hh used hi fits
    where
      here : ℕ
      here = word fs.shell_path_inode inode_ino

      db : Buffer
      db = dir_block_read D fs.disk block0 here
