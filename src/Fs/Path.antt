-- ===== src/Fs/Path.antt =====
-- Directories and paths: kernel/fs/path.c. A string is the list of its characters, without the `\0`.
-- `none` is a copy through the pointer `dir_name` that has not been set, or a full inode map.
pub mod Make
pub mod Enter
pub mod Fresh
pub mod Rewrite
pub mod Remove
pub mod Undo
use tina.Base.{
  ℕ, zero, suc, ◌+◌, ◌-◌, ◌*◌, ◌/◌, ◌%◌, ◌^◌, ◌≤◌, ◌<◌, min, max, ◌≡◌, ◌≢◌, ◌↔◌, ◌⊎◌, inl, inr,
  refl, sym, ap, ap₂, subst, ◌∙◌, fun_ext, Bool, true, false, not, ◌&&◌, ◌||◌, false≢true, Option,
  none, some, List, [], ◌∷◌, ◌++◌, map, append-nil, append_assoc, arith, ltb, leb, ◌==◌, ==_iff,
  ==_ne, ltb→lt, lt→ltb, leb_lt, leb_le, ltb_le, dec_lt, ℕ_discrete, if◌then◌else◌, Bool-cases,
  Option-cases, update, update-ne, update-eq, length, get_or, set, take, drop, replicate, All, has,
  ◌∈◌, ◌∉◌, Distinct, has-append, not-mem-cons, not-mem-append, mem_middle, mem-append_left,
  length-append, length-set, get_or-set, length-replicate, get_or-replicate,
}
use tina.Base.Bytes.{Buffer, word, put_word, put_string, is_string, string_at}
use tina.Fs.{
  Device, Fs, dentrys_per_block, root_dir_ino, no_ino, file_mode, dir_mode, sb_root_dir_ino,
  inode_ino, dentry_ino, dentry_mode, dentry_name,
}
use tina.Fs.Disk.{inode_read, inode_alloc, dir_block_read, dir_block_write}
use tina.Fs.Format.{put_entry, inode_create, inode_delete}
use tina.Tokens.{split}

-- Is the entry free? Is it one of this mode and name?
unfoldable pub is_free : Buffer → ℕ → Bool
is_free db i = word db (dentry_ino i) == no_ino

unfoldable pub is_named : (mode : ℕ) → (name : List ℕ) → Buffer → ℕ → Bool
is_named mode name db i =
    not (is_free db i) && ((word db (dentry_mode i) == mode) && is_string db (dentry_name i) name)

-- The entries at which `decode_path` stops: those that are no file and have the name.
unfoldable pub is_step : (name : List ℕ) → Buffer → ℕ → Bool
is_step name db i =
    not (is_free db i)
    && (not (word db (dentry_mode i) == file_mode) && is_string db (dentry_name i) name)

-- The loops that stop at the first entry with a property; the index behind the last one if none has it.
unfoldable pub first_entry : (left i : ℕ) → (ℕ → Bool) → ℕ
first_entry zero i p = i
first_entry (suc left) i p = let rest = first_entry left (i + 1) p in if p i then i else rest

-- The names that `list_directory` prints; `printf` takes the characters up to a `\0`.
unfoldable pub names : (left i : ℕ) → Buffer → List (List ℕ)
names zero i db = []
names (suc left) i db =
    let rest = names left (i + 1) db in
    if is_free db i then rest else string_at 256 db (dentry_name i) ∷ rest

module _ {S : Type 0} (D : Device S) where
  unfoldable pub init_cur_dir : Fs S → (s : ℕ) → Fs S
  init_cur_dir fs s = record fs {
    cur_dir = inode_read D fs.disk fs.cur_dir (
        if s == b'/'
        then word fs.superblock sb_root_dir_ino
        else word fs.shell_path_inode inode_ino);
  }

  -- The loop over the names of the path; `false` is -1.
  unfoldable pub walk : (block0 : Buffer) → Fs S → List (List ℕ) → Fs S × Bool
  walk block0 fs [] = (fs, true)
  walk block0 fs (name ∷ path) =
      let db = dir_block_read D fs.disk block0 (word fs.cur_dir inode_ino) in
      let j = first_entry dentrys_per_block 0 (is_step name db) in
      let rest =
        walk block0
          (record fs { cur_dir = inode_read D fs.disk fs.cur_dir (word db (dentry_ino j)) }) path in
      if j == dentrys_per_block then (fs, false) else rest

  -- The first character, `\0` if there is none.
  abbrev pub first_char : List ℕ → ℕ
  first_char [] = 0
  first_char (c ∷ cs) = c

  unfoldable pub decode_path : (block0 : Buffer) → Fs S → (dir_name : List ℕ) → Fs S × Bool
  decode_path block0 fs dir_name =
      walk block0 (init_cur_dir fs (first_char dir_name)) (split b'/' dir_name)

  unfoldable pub change_directory :
      (block0 : Buffer) → Fs S → (argv : List (List ℕ)) → Option (Fs S)
  change_directory block0 fs (cmd ∷ dir_name ∷ argv) =
      let (fs', found) = decode_path block0 fs dir_name in
      let inode = inode_read D fs'.disk fs'.shell_path_inode (word fs'.cur_dir inode_ino) in
      if found
      then some (record fs' { shell_path_inode = inode; shell_path_head = string_at 128 inode 0 })
      else some fs'
  change_directory block0 fs argv = none

  -- Nothing is printed if the path is not found.
  unfoldable pub list_directory :
      (block0 : Buffer) → Fs S → (argv : List (List ℕ)) → Option (Fs S × List (List ℕ))
  list_directory block0 fs (cmd ∷ dir_name ∷ argv) =
      let (fs', found) = decode_path block0 fs dir_name in
      if found
      then some (
        fs',
        names dentrys_per_block 0 (dir_block_read D fs'.disk block0 (word fs'.cur_dir inode_ino)),
      )
      else some (fs', [])
  list_directory block0 fs argv = none

  -- What follows the allocation: a new inode of a mode, and its entry `i` in the directory of the shell.
  unfoldable pub add_allocated :
      (inode0 block0 db : Buffer)
      → (now i mode : ℕ) → (name : List ℕ) → Option (ℕ × Fs S)
      → Option (Fs S)
  add_allocated inode0 block0 db now i mode name none = none
  add_allocated inode0 block0 db now i mode name (some (ino, fs)) =
      let here = word fs.shell_path_inode inode_ino in
      let disk' = inode_create D fs.disk inode0 block0 ino mode name here now in
      some (record fs { disk = dir_block_write D disk' (put_entry db i ino mode name) here })

  unfoldable pub add_entry :
      (inode0 block0 db : Buffer) → (now i mode : ℕ) → (name : List ℕ) → Fs S → Option (Fs S)
  add_entry inode0 block0 db now i mode name fs =
      add_allocated inode0 block0 db now i mode name (inode_alloc D fs)

  unfoldable pub make_directory :
      (inode0 block0 : Buffer) → (now : ℕ) → Fs S → (argv : List (List ℕ)) → Option (Fs S)
  make_directory inode0 block0 now fs (cmd ∷ dir_name ∷ argv) =
      let db = dir_block_read D fs.disk block0 (word fs.shell_path_inode inode_ino) in
      add_entry inode0 block0 db now (first_entry dentrys_per_block 0 (is_free db)) dir_mode
        dir_name fs
  make_directory inode0 block0 now fs argv = some fs

  -- The loops of `remove_directory` and `remove_file`, and the writing of the block.
  unfoldable pub remove_entry : (block0 : Buffer) → (mode : ℕ) → (name : List ℕ) → Fs S → Fs S
  remove_entry block0 mode name fs =
      let here = word fs.shell_path_inode inode_ino in
      let db = dir_block_read D fs.disk block0 here in
      let i = first_entry dentrys_per_block 0 (is_named mode name db) in
      let gone = inode_delete D fs (word db (dentry_ino i)) in
      if i == dentrys_per_block
      then record fs { disk = dir_block_write D fs.disk db here }
      else record gone {
        disk = dir_block_write D gone.disk (put_word db (dentry_ino i) no_ino) here;
      }

  -- The names `.` and `..`
  unfoldable pub is_dots : List ℕ → Bool
  is_dots (c ∷ []) = c == b'.'
  is_dots (c ∷ d ∷ []) = (c == b'.') && (d == b'.')
  is_dots cs = false

  unfoldable pub remove_directory : (block0 : Buffer) → Fs S → (argv : List (List ℕ)) → Fs S
  remove_directory block0 fs (cmd ∷ dir_name ∷ argv) =
      let removed = remove_entry block0 dir_mode dir_name fs in
      if is_dots dir_name then fs else removed
  remove_directory block0 fs argv = fs

  unfoldable pub remove_file : (block0 : Buffer) → Fs S → (argv : List (List ℕ)) → Fs S
  remove_file block0 fs (cmd ∷ file_name ∷ argv) = remove_entry block0 file_mode file_name fs
  remove_file block0 fs argv = fs
