-- ===== src/Fs/Path/Undo.antt =====
-- A directory that has been made can be removed: kernel/fs/path.c.
use tina.Base.{
  ℕ, zero, suc, ◌+◌, ◌*◌, ◌≤◌, ◌<◌, ◌≡◌, ◌≢◌, ◌⊎◌, inl, refl, sym, ap, subst, ◌∙◌, true, false,
  ◌&&◌, Option, none, some, List, [], ◌∷◌, map, arith, ◌==◌, ==_iff, ==_ne, ℕ_discrete,
  if◌then◌else◌, length,
}
use tina.Base.Bytes.{Buffer, word, word-cong, is_string-cong}
use tina.Bitmap.{IsMap, bitmap_getbit}
use tina.Fs.{
  Device, IsDevice, Fs, sector_size, fs_inode_table_size, dir_mode, inode_ino, dentrys_per_block,
  dentry_ino, dentry_mode, dentry_name, no_ino,
}
use tina.Fs.Disk.{dir_block_read}
use tina.Fs.Format.Entry.{FitsEntry, IsEntry}
use tina.Fs.Path.{
  is_free, is_named, first_entry, remove_entry, is_dots, make_directory, remove_directory,
}
use tina.Fs.Path.Make.{Added, MadeDir, make_directory-MadeDir}
use tina.Fs.Format.Create.{IsEmptyDir}
use tina.Fs.Path.Fresh.{is_string-head, and-false}
use tina.Fs.Path.Enter.{first_entry-first}
use tina.Fs.Path.Remove.{Removed, clear_entry, clear_entry-Removed}

-- The test reads the bytes of its entry only.
is_named-cong :
    (f g : Buffer) (i mode : ℕ) (name : List ℕ)
    → FitsEntry name
    → ((a : ℕ) → 32 * i ≤ a → a < 32 * i + 32 → f a ≡ g a)
    → is_named mode name f i ≡ is_named mode name g i
unfolding is_named is_free
is_named-cong f g i mode name fits same =
    rw
      (
        word-cong f g (dentry_ino i) (λ a l. same (dentry_ino i + a) (omega arith) (omega arith)),
        word-cong f g (dentry_mode i) (λ a l. same (dentry_mode i + a) (omega arith) (omega arith)),
        is_string-cong f g (dentry_name i) name
            (λ a l. same (dentry_name i + a) (omega arith) (omega arith)),
      )
      refl

is_named-here :
    (db : Buffer) (i n mode : ℕ) (name : List ℕ)
    → IsEntry db i n mode name
    → n ≢ no_ino
    → is_named mode name db i ≡ true
unfolding is_named is_free
is_named-here db i n mode name e ne = rw (e.ino, e.name, ==_ne n no_ino ne) (mode_is e.mode)
  where
    mode_is : word db (dentry_mode i) ≡ mode → ((word db (dentry_mode i) == mode) && true) ≡ true
    mode_is e = rw (e, (==_iff mode mode).1 refl) refl

-- In an empty directory `.` and `..` have other names.
pub new_named :
    (db : Buffer) (n f c : ℕ) (cs : List ℕ)
    → IsEmptyDir db n f
    → c ≢ b'.'
    → (k : ℕ) → k < 2
    → is_named dir_mode (c ∷ cs) db k ≡ false
unfolding is_named
new_named db n f c cs d ne zero l =
    rw (is_string-head db (dentry_name 0) b'.' c [] cs d.dot.name (λ e. ne (sym e))) (and-false _ _)
new_named db n f c cs d ne (suc zero) l =
    rw (is_string-head db (dentry_name 1) b'.' c (b'.' ∷ []) cs d.dots.name (λ e. ne (sym e)))
      (and-false _ _)
new_named db n f c cs d ne (suc (suc k)) l = absurd (omega (arith, l))

module _ {S : Type 0} (D : Device S) (L : IsDevice D) where
  remove_entry-found :
      (block0 : Buffer) (mode : ℕ) (name : List ℕ) (fs : Fs S) (h n i : ℕ)
      → word fs.shell_path_inode inode_ino ≡ h
      → first_entry dentrys_per_block 0 (is_named mode name (dir_block_read D fs.disk block0 h)) ≡ i
      → i < dentrys_per_block
      → word (dir_block_read D fs.disk block0 h) (dentry_ino i) ≡ n
      → remove_entry D block0 mode name fs
        ≡ clear_entry D L fs (dir_block_read D fs.disk block0 h) h n i
  unfolding remove_entry
  remove_entry-found block0 mode name fs h n i eh ei hi en =
      rw (eh, ei, ==_ne i dentrys_per_block (omega arith), en) refl

  -- Every inode is as free as before, entry `i` of directory `h` is free again, and its other entries are as
  -- before.
  pub record Undone (fs : Fs S) (db : Buffer) (h i : ℕ) (fs' : Fs S) : Type 0 where
    pub bits : (k : ℕ) → bitmap_getbit fs'.inode_map k ≡ bitmap_getbit fs.inode_map k
    pub free : (buf : Buffer) → is_free (dir_block_read D fs'.disk buf h) i ≡ true
    pub others :
        (buf : Buffer) (a : ℕ)
        → a < sector_size
        → (a < 32 * i) ⊎ (32 * i + 32 ≤ a)
        → dir_block_read D fs'.disk buf h a ≡ db a
    pub shell : fs'.shell_path_inode ≡ fs.shell_path_inode

  removed-Undone :
      (fs fs' : Fs S) (db block1 : Buffer) (h n i : ℕ) (name : List ℕ)
      → Added D L fs db h n i name fs'
      → bitmap_getbit fs.inode_map n ≡ 0
      → length fs.inode_map ≡ 0x400
      → word fs.shell_path_inode inode_ino ≡ h
      → h < fs_inode_table_size * 8
      → n < fs_inode_table_size * 8
      → i < dentrys_per_block
      → FitsEntry name
      → ((k : ℕ) → k < i → is_named dir_mode name db k ≡ false)
      → Undone fs db h i (remove_entry D block1 dir_mode name fs')
  removed-Undone fs fs' db block1 h n i name added nfree len eh hh hn hi fits new =
      subst (Undone fs db h i) (sym found) (record {
        bits = λ k. r.bits k ∙ bit_back k;
        free = r.free;
        others =
            λ buf a l out. r.others buf a l (ground (arith, out)) ∙ added.others block1 a l out;
        shell = ap (λ (f : Fs S). f.shell_path_inode) r.same ∙ added.shell;
      })
    where
      block : Buffer
      block = dir_block_read D fs'.disk block1 h

      first : first_entry dentrys_per_block 0 (is_named dir_mode name block) ≡ i
      first =
          first_entry-first dentrys_per_block 0 i (is_named dir_mode name block) (omega arith)
            (omega arith)
            (λ m a b.
              is_named-cong block db m dir_mode name fits
                (λ p lo hi'. added.others block1 p (omega arith) (inl (omega arith)))
              ∙ new m b)
            (is_named-here block i n dir_mode name (added.entry block1) (omega arith))

      found : remove_entry D block1 dir_mode name fs' ≡ clear_entry D L fs' block h n i
      found =
          remove_entry-found block1 dir_mode name fs' h n i
            (ap (λ b. word b inode_ino) added.shell ∙ eh) first hi (added.entry block1).ino

      r : Removed D L fs' block h n i (clear_entry D L fs' block h n i)
      r = clear_entry-Removed D L fs' block h n i added.valid (added.length_map ∙ len) hh hn hi

      bit_back :
          (k : ℕ)
          → (if n == k then 0 else bitmap_getbit fs'.inode_map k) ≡ bitmap_getbit fs.inode_map k
      bit_back k = elim (ℕ_discrete n k) [
        | yes e ↦
            subst
              (λ m.
                (if n == m then 0 else bitmap_getbit fs'.inode_map m)
                ≡ bitmap_getbit fs.inode_map m)
              e (rw ((==_iff n n).1 refl) (sym nfree))
        | no ne ↦ rw (==_ne n k ne) (added.bits k ∙ rw (==_ne n k ne) refl)
      ]

  -- `rmdir` behind `mkdir`
  abbrev pub then_rmdir : (block1 : Buffer) → (cmd name : List ℕ) → Option (Fs S) → Option (Fs S)
  then_rmdir block1 cmd name none = none
  then_rmdir block1 cmd name (some fs') = some (remove_directory D block1 fs' (cmd ∷ name ∷ []))

  -- There is no free inode, or all is as it was.
  abbrev pub Restored : (fs : Fs S) → (db : Buffer) → (h i : ℕ) → Option (Fs S) → Type 0
  Restored fs db h i none = (k : ℕ) → k < fs_inode_table_size * 8 → bitmap_getbit fs.inode_map k ≢ 0
  Restored fs db h i (some fs') = Undone fs db h i fs'

  then_rmdir-Restored :
      (fs : Fs S) (db block1 : Buffer) (cmd name : List ℕ) (h i : ℕ) (r : Option (Fs S))
      → MadeDir D L fs db h i name r
      → length fs.inode_map ≡ 0x400
      → word fs.shell_path_inode inode_ino ≡ h
      → h < fs_inode_table_size * 8
      → i < dentrys_per_block
      → FitsEntry name
      → is_dots D name ≡ false
      → ((k : ℕ) → k < i → is_named dir_mode name db k ≡ false)
      → Restored fs db h i (then_rmdir block1 cmd name r)
  unfolding remove_directory
  then_rmdir-Restored fs db block1 cmd name h i none full len eh hh hi fits plain new = full
  then_rmdir-Restored fs db block1 cmd name h i (some fs') (n, hn, free, added) len eh hh hi fits
        plain new =
      rw plain (removed-Undone fs fs' db block1 h n i name added free len eh hh hn hi fits new)

  -- For a disk on which `sdread` reads what `sdwrite` has written, `mkdir` of a name of less than 24
  -- characters other than `.` and `..`, which no directory in front of the first free entry has, in a
  -- directory with a free entry, whose own inode is taken, with a valid inode map, and then `rmdir` of
  -- that name: either every inode was taken, or every inode is as free as before, the entry is free
  -- again, the bytes of the other entries are as before, and the shell stays where it is.
  pub rmdir-mkdir :
      (fs : Fs S) (inode0 block0 block1 : Buffer) (now : ℕ) (cmd cmd' name : List ℕ)
      → let here = word fs.shell_path_inode inode_ino in
        let db = dir_block_read D fs.disk block0 here in
        let i = first_entry dentrys_per_block 0 (is_free db) in
        IsMap fs.inode_map
        → length fs.inode_map ≡ 0x400
        → here < fs_inode_table_size * 8
        → bitmap_getbit fs.inode_map here ≢ 0
        → i < dentrys_per_block
        → FitsEntry name
        → is_dots D name ≡ false
        → ((k : ℕ) → k < i → is_named dir_mode name db k ≡ false)
        → Restored fs db here i
            (then_rmdir block1 cmd' name (make_directory D inode0 block0 now fs (cmd ∷ name ∷ [])))
  rmdir-mkdir fs inode0 block0 block1 now cmd cmd' name map len hh used hi fits plain new =
      then_rmdir-Restored fs _ block1 cmd' name _ _ _
        (make_directory-MadeDir D L fs inode0 block0 now cmd name [] map len hh used hi fits) len
        refl hh hi fits plain new
