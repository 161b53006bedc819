-- ===== src/Fs/Text.antt =====
-- Files: kernel/fs/text.c. The loops run over 0x200 entries of a block that has 16; what lies behind it
-- in the buffer stands for the memory there.
pub mod ReadWrite
use tina.Base.{
  ℕ, zero, suc, ◌+◌, ◌-◌, ◌*◌, ◌/◌, ◌%◌, ◌^◌, ◌≤◌, ◌<◌, min, max, ◌≡◌, ◌≢◌, ◌↔◌, ◌⊎◌, inl, inr,
  refl, sym, ap, ap₂, subst, ◌∙◌, fun_ext, Bool, true, false, not, ◌&&◌, ◌||◌, false≢true, Option,
  none, some, List, [], ◌∷◌, ◌++◌, map, append-nil, append_assoc, arith, ltb, leb, ◌==◌, ==_iff,
  ==_ne, ltb→lt, lt→ltb, leb_lt, leb_le, ltb_le, dec_lt, ℕ_discrete, if◌then◌else◌, Bool-cases,
  Option-cases, update, update-ne, update-eq, length, get_or, set, take, drop, replicate, All, has,
  ◌∈◌, ◌∉◌, Distinct, has-append, not-mem-cons, not-mem-append, mem_middle, mem-append_left,
  length-append, length-set, get_or-set, length-replicate, get_or-replicate,
}
use tina.Base.Bytes.{Buffer, word, overlay, string_at}
use tina.Fs.{
  fs_base, sector_size, fs_data_base, fs_block_size, fd_num, Device, Fs, file_mode, inode_ino,
  dentry_ino,
}
use tina.Fs.Disk.{dir_block_read, file_block_read, file_block_write}
use tina.Fs.Path.{is_free, is_named, first_entry, add_entry}

module _ {S : Type 0} (D : Device S) where
  unfoldable pub touch_file :
      (inode0 block0 : Buffer) → (now : ℕ) → Fs S → (argv : List (List ℕ)) → Option (Fs S)
  touch_file inode0 block0 now fs (cmd ∷ file_name ∷ argv) =
      let db = dir_block_read D fs.disk block0 (word fs.shell_path_inode inode_ino) in
      add_entry D inode0 block0 db now (first_entry 0x200 0 (is_free db)) file_mode file_name fs
  touch_file inode0 block0 now fs argv = some fs

  -- What is printed, cut off by the buffer of `printf`; `none` if there is no such file.
  unfoldable pub cat_file : (block0 : Buffer) → Fs S → (argv : List (List ℕ)) → Option (List ℕ)
  cat_file block0 fs (cmd ∷ file_name ∷ argv) =
      let db = dir_block_read D fs.disk block0 (word fs.shell_path_inode inode_ino) in
      let i = first_entry 0x200 0 (is_named file_mode file_name db) in
      let fb = file_block_read D fs.disk block0 (word db (dentry_ino i)) in
      if i == 0x200 then none else some (string_at 255 fb 0)
  cat_file block0 fs argv = some []

  -- A new file descriptor for entry `i`, and its index; `none` behind the table.
  unfoldable pub open_entry : Fs S → (db : Buffer) → (i : ℕ) → Option (ℕ × Fs S)
  open_entry fs db i =
      if ltb fs.fd_index fd_num
      then some (
        fs.fd_index,
        record fs {
          fd_ino = update fs.fd_ino fs.fd_index (word db (dentry_ino i));
          fd_pos = update fs.fd_pos fs.fd_index 0;
          fd_index = (fs.fd_index + 1) % 2 ^ 32;
        },
      )
      else none

  -- The second search of `sys_fopen`, behind `touch`; 0 is returned if it fails.
  unfoldable pub reopen : (block0 : Buffer) → (name : List ℕ) → Fs S → Option (ℕ × Fs S)
  reopen block0 name fs =
      let db = dir_block_read D fs.disk block0 (word fs.shell_path_inode inode_ino) in
      let i = first_entry 0x200 0 (is_named file_mode name db) in
      if i == 0x200 then some (0, fs) else open_entry fs db i

  unfoldable pub sys_fopen :
      (inode0 block0 : Buffer) → (now : ℕ) → Fs S → (name : List ℕ) → Option (ℕ × Fs S)
  sys_fopen inode0 block0 now fs name =
      let db = dir_block_read D fs.disk block0 (word fs.shell_path_inode inode_ino) in
      let i = first_entry 0x200 0 (is_named file_mode name db) in
      let created =
        touch_file inode0 block0 now fs ((b't' ∷ b'o' ∷ b'u' ∷ b'c' ∷ b'h' ∷ []) ∷ name ∷ []) in
      if i == 0x200
      then elim created [ none ↦ none | some fs' ↦ reopen block0 name fs' ]
      else open_entry fs db i

  -- Is the address on the disk of the block an int?
  abbrev pub in_reach : (ino : ℕ) → Bool
  in_reach ino = ltb ((ino * fs_block_size + fs_data_base + fs_base) * sector_size) (2 ^ 31)

  -- Does an access of `size` bytes stay in the table of the descriptors, on the disk and in the block?
  abbrev pub usable : Fs S → (index size : ℕ) → Bool
  usable fs index size =
      ltb index fd_num
      && (in_reach (fs.fd_ino index) && ltb (fs.fd_pos index + size) (sector_size + 1))

  -- The bytes read, the size and the state; `none` where the source reads outside of its objects.
  unfoldable pub sys_fread :
      (block0 : Buffer)
      → Fs S
      → (index : ℕ) → (buf : Buffer) → (size : ℕ) → Option (Buffer × ℕ × Fs S)
  sys_fread block0 fs index buf size =
      let fb = file_block_read D fs.disk block0 (fs.fd_ino index) in
      if usable fs index size
      then some (
        overlay buf 0 size (λ a. fb (fs.fd_pos index + a)),
        size,
        record fs { fd_pos = update fs.fd_pos index ((fs.fd_pos index + size) % 2 ^ 32) },
      )
      else none

  unfoldable pub sys_fwrite :
      (block0 : Buffer) → Fs S → (index : ℕ) → (buf : Buffer) → (size : ℕ) → Option (ℕ × Fs S)
  sys_fwrite block0 fs index buf size =
      let fb =
        overlay (file_block_read D fs.disk block0 (fs.fd_ino index)) (fs.fd_pos index) size buf in
      if usable fs index size
      then some (
        size,
        record fs {
          disk = file_block_write D fs.disk fb (fs.fd_ino index);
          fd_pos = update fs.fd_pos index ((fs.fd_pos index + size) % 2 ^ 32);
        },
      )
      else none

  unfoldable pub sys_fseek : Fs S → (index pos : ℕ) → Option (Fs S)
  sys_fseek fs index pos =
      if ltb index fd_num then some (record fs { fd_pos = update fs.fd_pos index pos }) else none

  -- The string `""` is one `\0`.
  unfoldable pub sys_fclose : (block0 : Buffer) → Fs S → (index : ℕ) → Option (Fs S)
  sys_fclose block0 fs index = elim (sys_fwrite block0 fs index (λ a. 0) 1) [
    | none ↦ none
    | some r ↦ sys_fseek r.1 index 0
  ]
