-- ===== src/Fs/Format.antt =====
-- Making a file system, and new inodes: kernel/fs/fs.c, and `mount` of kernel/fs/path.c. `inode0` and
-- `block0` are what the uninitialised local objects hold, `now` is what `get_timer` returns.
pub mod Entry
pub mod Create
pub mod Root
use tina.Base.{
  ℕ, zero, suc, ◌+◌, ◌-◌, ◌*◌, ◌/◌, ◌%◌, ◌^◌, ◌≤◌, ◌<◌, min, max, ◌≡◌, ◌≢◌, ◌↔◌, ◌⊎◌, inl, inr,
  refl, sym, ap, ap₂, subst, ◌∙◌, fun_ext, Bool, true, false, not, ◌&&◌, ◌||◌, false≢true, Option,
  none, some, List, [], ◌∷◌, ◌++◌, map, append-nil, append_assoc, arith, ltb, leb, ◌==◌, ==_iff,
  ==_ne, ltb→lt, lt→ltb, leb_lt, leb_le, ltb_le, dec_lt, ℕ_discrete, if◌then◌else◌, Bool-cases,
  Option-cases, update, update-ne, update-eq, length, get_or, set, take, drop, replicate, All, has,
  ◌∈◌, ◌∉◌, Distinct, has-append, not-mem-cons, not-mem-append, mem_middle, mem-append_left,
  length-append, length-set, get_or-set, length-replicate, get_or-replicate,
}
use tina.Base.Bytes.{Buffer, word, put_word, put_string, string_at}
use tina.Bitmap.{bitmap_modify}
use tina.Fs.{
  Device, Fs, fs_magic, fs_data_base, fs_inode_map_base, fs_inode_map_size, fs_inode_table_base,
  fs_inode_table_size, fs_block_size, dentrys_per_block, root_dir_ino, no_ino, file_mode, dir_mode,
  sb_magic, sb_root_dir_ino, inode_ino, inode_field_size, inode_mode, inode_timestamp,
  inode_father_ino, inode_ptr, dentry_ino, dentry_mode, dentry_name,
}
use tina.Fs.Disk.{
  inode_write, inode_read, inode_map_read, inode_map_write, inode_alloc, superblock_read,
  superblock_write, file_block_write, dir_block_write,
}

unfoldable pub superblock_init : Buffer → Buffer
superblock_init sb =
    put_word
      (put_word
        (put_word
          (put_word
            (put_word (put_word (put_word sb sb_magic fs_magic) sb_root_dir_ino root_dir_ino) 4
              0x20000000)
            8 fs_inode_map_base)
          12 fs_inode_map_size)
        16 fs_inode_table_base)
      20 fs_inode_table_size

unfoldable pub inode_map_init : List ℕ
inode_map_init = replicate 0x400 0

-- The loop of `dir_init`: every entry is free.
unfoldable pub free_entries : (left i : ℕ) → Buffer → Buffer
free_entries zero i db = db
free_entries (suc left) i db = free_entries left (i + 1) (put_word db (dentry_ino i) no_ino)

-- An entry: its `ino`, its `mode` and its name.
unfoldable pub put_entry : Buffer → (i ino mode : ℕ) → (name : List ℕ) → Buffer
put_entry db i ino mode name =
    put_string (put_word (put_word db (dentry_ino i) ino) (dentry_mode i) mode) (dentry_name i) name

-- The block that `dir_init` writes, with `.` and `..`.
unfoldable pub dir_block_init : (block0 inode : Buffer) → Buffer
dir_block_init block0 inode =
    put_entry
      (put_entry (free_entries dentrys_per_block 0 block0) 0 (word inode inode_ino) dir_mode
        (b'.' ∷ []))
      1 (word inode inode_father_ino) dir_mode (b'.' ∷ b'.' ∷ [])

-- The fields in the order of `inode_create`.
unfoldable pub inode_init :
    (inode0 : Buffer) → (ino mode : ℕ) → (name : List ℕ) → (father_ino now : ℕ) → Buffer
inode_init inode0 ino mode name father_ino now =
    put_word
      (put_word
        (put_word
          (put_string
            (put_word (put_word (put_word inode0 inode_father_ino father_ino) inode_ino ino)
              inode_mode mode)
            0 name)
          inode_ptr (fs_data_base + ino * fs_block_size))
        inode_field_size fs_block_size)
      inode_timestamp now

-- The disk holds a file system already, the map has given a wrong number, or one has been made.
pub data Made : Type 0 where
  already map_error made : Made

module _ {S : Type 0} (D : Device S) where
  unfoldable pub dir_init : S → (block0 inode : Buffer) → S
  dir_init s block0 inode = dir_block_write D s (dir_block_init block0 inode) (word inode inode_ino)

  unfoldable pub file_init : S → (block0 inode : Buffer) → S
  file_init s block0 inode = file_block_write D s (put_word block0 0 0) (word inode inode_ino)

  unfoldable pub inode_create :
      S → (inode0 block0 : Buffer) → (ino mode : ℕ) → (name : List ℕ) → (father_ino now : ℕ) → S
  inode_create s inode0 block0 ino mode name father_ino now =
      let inode = inode_init inode0 ino mode name father_ino now in
      let s' =
        if word inode inode_mode == dir_mode
        then dir_init s block0 inode
        else file_init s block0 inode in
      inode_write D s' inode ino

  unfoldable pub inode_delete : Fs S → (ino : ℕ) → Fs S
  inode_delete fs ino =
      inode_map_write D (record fs { inode_map = (bitmap_modify fs.inode_map 0 ino).0 })

  -- The head of the prompt is a copy of the name; its buffer has 128 characters.
  unfoldable pub mount : Fs S → Fs S
  mount fs =
      let inode = inode_read D fs.disk fs.shell_path_inode (word fs.superblock sb_root_dir_ino) in
      record fs { shell_path_inode = inode; shell_path_head = string_at 128 inode 0 }

  -- The rest of `do_makefs`, with what `inode_alloc` has given.
  unfoldable pub format_rest :
      (inode0 block0 : Buffer) → (now : ℕ) → Option (ℕ × Fs S) → Option (Made × Fs S)
  format_rest inode0 block0 now none = none
  format_rest inode0 block0 now (some (i, fs)) =
      let disk' =
        inode_create fs.disk inode0 block0 root_dir_ino dir_mode (b'~' ∷ []) root_dir_ino now in
      let done = mount (inode_map_write D (superblock_write D (record fs { disk = disk' }))) in
      if i == 0 then some (made, done) else some (map_error, fs)

  -- The branch of a disk without a file system.
  unfoldable pub format : (inode0 block0 : Buffer) → (now : ℕ) → Fs S → Option (Made × Fs S)
  format inode0 block0 now fs = format_rest inode0 block0 now (
      inode_alloc D
        (record fs { superblock = superblock_init fs.superblock; inode_map = inode_map_init }))

  unfoldable pub do_makefs : (inode0 block0 : Buffer) → (now : ℕ) → Fs S → Option (Made × Fs S)
  do_makefs inode0 block0 now fs =
      let fs' = superblock_read D fs in
      if word fs'.superblock sb_magic == fs_magic
      then some (already, mount (inode_map_read D fs'))
      else format inode0 block0 now fs'

  -- `false` if there is no file system.
  unfoldable pub deletefs : Fs S → Bool × Fs S
  deletefs fs =
      let fs' = superblock_read D fs in
      if word fs'.superblock sb_magic == fs_magic
      then (
        true,
        superblock_write D (record fs' { superblock = put_word fs'.superblock sb_magic 0 }),
      )
      else (false, fs')

  -- The words that are printed: magic, size, base and size of the inode map and of the inode table.
  unfoldable pub statfs : Fs S → Fs S × List ℕ
  statfs fs =
      let fs' = superblock_read D fs in
      (fs', map (word fs'.superblock) (0 ∷ 4 ∷ 8 ∷ 12 ∷ 16 ∷ 20 ∷ []))
