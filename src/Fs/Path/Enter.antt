-- ===== src/Fs/Path/Enter.antt =====
-- Entering a directory that has been made: kernel/fs/path.c.
use tina.Base.{
  ℕ, zero, suc, ◌+◌, ◌*◌, ◌≤◌, ◌<◌, ◌≡◌, ◌≢◌, inl, refl, sym, ap, subst, ◌∙◌, Bool, true, false,
  Option, none, some, List, [], ◌∷◌, ◌++◌, map, append-nil, append_assoc, arith, ==_ne, ℕ_discrete,
  length, All,
}
use tina.Base.Bytes.{Buffer, word, word-cong, is_string-cong}
use tina.Fs.{
  Device, IsDevice, Fs, fs_inode_table_size, no_ino, dir_mode, inode_ino, dentry_ino, dentry_mode,
  dentry_name, dentrys_per_block,
}
use tina.Fs.Disk.{inode_read, dir_block_read}
use tina.Fs.Format.Entry.{FitsEntry, IsEntry, IsInode}
use tina.Fs.Path.{
  is_free, is_step, first_entry, init_cur_dir, walk, decode_path, change_directory, make_directory,
}
use tina.Fs.Path.Make.{Added, MadeDir, make_directory-MadeDir}
use tina.Bitmap.{IsMap, bitmap_getbit}
use tina.Tokens.{split, split_loop}

-- The first entry with the property.
pub first_entry-first :
    (left i k : ℕ) (p : ℕ → Bool)
    → i ≤ k
    → k < i + left
    → ((m : ℕ) → i ≤ m → m < k → p m ≡ false)
    → p k ≡ true
    → first_entry left i p ≡ k
unfolding first_entry
first_entry-first zero i k p h l before here = absurd (omega arith)
first_entry-first (suc left) i k p h l before here = elim (ℕ_discrete i k) [
  | yes e ↦ rw (e, here) refl
  | no ne ↦ rw (before i (omega arith) (omega arith)) (
      first_entry-first left (i + 1) k p (omega arith) (omega arith)
        (λ m a b. before m (omega arith) b) here)
]

-- A string without the separator is one part.
split_loop-one :
    (sep : ℕ) (part cs : List ℕ)
    → All (λ c. c ≢ sep) cs
    → split_loop sep (some part) cs ≡ (part ++ cs) ∷ []
unfolding split_loop
split_loop-one sep part [] h = ap (λ p. p ∷ []) (sym (append-nil part))
split_loop-one sep part (c ∷ cs) (ne, h) =
    rw (==_ne c sep ne)
      (split_loop-one sep (part ++ c ∷ []) cs h ∙ ap (λ p. p ∷ []) (append_assoc part (c ∷ []) cs))

pub split-one :
    (sep c : ℕ) (cs : List ℕ) → c ≢ sep → All (λ d. d ≢ sep) cs → split sep (c ∷ cs) ≡ (c ∷ cs) ∷ []
unfolding split split_loop
split-one sep c cs ne h = rw (==_ne c sep ne) (split_loop-one sep (c ∷ []) cs h)

-- The test of `decode_path` reads the bytes of its entry only.
is_step-cong :
    (f g : Buffer) (i : ℕ) (name : List ℕ)
    → FitsEntry name
    → ((a : ℕ) → 32 * i ≤ a → a < 32 * i + 32 → f a ≡ g a)
    → is_step name f i ≡ is_step name g i
unfolding is_step is_free
is_step-cong f g i name fits same =
    rw
      (
        word-cong f g (dentry_ino i) (λ a l. same (dentry_ino i + a) (omega arith) (omega arith)),
        word-cong f g (dentry_mode i) (λ a l. same (dentry_mode i + a) (omega arith) (omega arith)),
        is_string-cong f g (dentry_name i) name
            (λ a l. same (dentry_name i + a) (omega arith) (omega arith)),
      )
      refl

is_step-here :
    (db : Buffer) (i n : ℕ) (name : List ℕ)
    → IsEntry db i n dir_mode name
    → n ≢ no_ino
    → is_step name db i ≡ true
unfolding is_step is_free
is_step-here db i n name e ne = rw (e.ino, e.mode, e.name, ==_ne n no_ino ne) refl

module _ {S : Type 0} (D : Device S) (L : IsDevice D) where
  -- A path of one name.
  walk-one :
      (b : Buffer) (fs : Fs S) (name : List ℕ) (h n i : ℕ)
      → word fs.cur_dir inode_ino ≡ h
      → first_entry dentrys_per_block 0 (is_step name (dir_block_read D fs.disk b h)) ≡ i
      → i < dentrys_per_block
      → word (dir_block_read D fs.disk b h) (dentry_ino i) ≡ n
      → walk D b fs (name ∷ []) ≡ (record fs { cur_dir = inode_read D fs.disk fs.cur_dir n }, true)
  unfolding walk
  walk-one b fs name h n i eh ei hi en =
      rw (eh, ei, ==_ne i dentrys_per_block (omega arith), en) refl

  decode_path-one :
      (b : Buffer) (fs : Fs S) (c : ℕ) (cs : List ℕ) (h n i : ℕ)
      → All (λ d. d ≢ b'/') (c ∷ cs)
      → word fs.shell_path_inode inode_ino ≡ h
      → ((dest : Buffer) → word (inode_read D fs.disk dest h) inode_ino ≡ h)
      → first_entry dentrys_per_block 0 (is_step (c ∷ cs) (dir_block_read D fs.disk b h)) ≡ i
      → i < dentrys_per_block
      → word (dir_block_read D fs.disk b h) (dentry_ino i) ≡ n
      → decode_path D b fs (c ∷ cs)
        ≡ (record fs { cur_dir = inode_read D fs.disk (inode_read D fs.disk fs.cur_dir h) n }, true)
  unfolding decode_path init_cur_dir
  decode_path-one b fs c cs h n i (nc, ncs) here own ei hi en =
      rw (==_ne c b'/' nc, here, split-one b'/' c cs nc ncs)
        (walk-one b (record fs { cur_dir = inode_read D fs.disk fs.cur_dir h }) (c ∷ cs) h n i
          (own fs.cur_dir) ei hi en)

  -- about
  pub cd-made :
      (fs fs' : Fs S) (db block1 : Buffer) (cmd : List ℕ) (argv : List (List ℕ)) (h n i c : ℕ)
      (cs : List ℕ)
      → Added D L fs db h n i (c ∷ cs) fs'
      → word fs.shell_path_inode inode_ino ≡ h
      → h < fs_inode_table_size * 8
      → h ≢ n
      → n < fs_inode_table_size * 8
      → i < dentrys_per_block
      → FitsEntry (c ∷ cs)
      → All (λ d. d ≢ b'/') (c ∷ cs)
      → ((k : ℕ) → k < i → is_step (c ∷ cs) db k ≡ false)
      → ((dest : Buffer) → word (inode_read D fs.disk dest h) inode_ino ≡ h)
      → (fs2 : Fs S) × (change_directory D block1 fs' (cmd ∷ (c ∷ cs) ∷ argv) ≡ some fs2)
        × IsInode fs2.shell_path_inode n dir_mode h
  unfolding change_directory
  cd-made fs fs' db block1 cmd argv h n i c cs added eh hh ne hn hi fits plain new own =
      rw
        (
          decode_path-one block1 fs' c cs h n i plain here start found hi (added.entry block1).ino,
          (added.inode cur).ino,
        )
        (_, refl, added.inode fs'.shell_path_inode)
    where
      here : word fs'.shell_path_inode inode_ino ≡ h
      here = ap (λ b. word b inode_ino) added.shell ∙ eh

      start : (dest : Buffer) → word (inode_read D fs'.disk dest h) inode_ino ≡ h
      start dest =
          word-cong (inode_read D fs'.disk dest h) (inode_read D fs.disk dest h) inode_ino
            (λ a l. added.inodes dest h (inode_ino + a) hh ne (omega arith))
          ∙ own dest

      cur : Buffer
      cur = inode_read D fs'.disk fs'.cur_dir h

      block : Buffer
      block = dir_block_read D fs'.disk block1 h

      found : first_entry dentrys_per_block 0 (is_step (c ∷ cs) block) ≡ i
      found =
          first_entry-first dentrys_per_block 0 i (is_step (c ∷ cs) block) (omega arith)
            (omega arith)
            (λ m a b.
              is_step-cong block db m (c ∷ cs) fits
                (λ p lo hi'. added.others block1 p (omega arith) (inl (omega arith)))
              ∙ new m b)
            (is_step-here block i n (c ∷ cs) (added.entry block1) (omega arith))

  -- There is no free inode, or `n` was free and the shell is in the new directory `n` now.
  abbrev pub Entered : (fs : Fs S) → (h : ℕ) → Option (Fs S) → Type 0
  Entered fs h none = (k : ℕ) → k < fs_inode_table_size * 8 → bitmap_getbit fs.inode_map k ≢ 0
  Entered fs h (some fs2) =
      (n : ℕ) × (bitmap_getbit fs.inode_map n ≡ 0) × IsInode fs2.shell_path_inode n dir_mode h

  -- `cd` behind `mkdir`
  abbrev pub then_cd : (block1 : Buffer) → (cmd name : List ℕ) → Option (Fs S) → Option (Fs S)
  then_cd block1 cmd name none = none
  then_cd block1 cmd name (some fs') = change_directory D block1 fs' (cmd ∷ name ∷ [])

  then_cd-Entered :
      (fs : Fs S) (db block1 : Buffer) (cmd : List ℕ) (h i c : ℕ) (cs : List ℕ) (r : Option (Fs S))
      → MadeDir D L fs db h i (c ∷ cs) r
      → word fs.shell_path_inode inode_ino ≡ h
      → h < fs_inode_table_size * 8
      → bitmap_getbit fs.inode_map h ≢ 0
      → i < dentrys_per_block
      → FitsEntry (c ∷ cs)
      → All (λ d. d ≢ b'/') (c ∷ cs)
      → ((k : ℕ) → k < i → is_step (c ∷ cs) db k ≡ false)
      → ((dest : Buffer) → word (inode_read D fs.disk dest h) inode_ino ≡ h)
      → Entered fs h (then_cd block1 cmd (c ∷ cs) r)
  then_cd-Entered fs db block1 cmd h i c cs none full eh hh used hi fits plain new own = full
  then_cd-Entered fs db block1 cmd h i c cs (some fs') (n, hn, free, added) eh hh used hi fits plain
        new own =
      let ne : h ≢ n = λ e. used (ap (bitmap_getbit fs.inode_map) e ∙ free) in
      let (fs2, eq, is) =
        cd-made fs fs' db block1 cmd [] h n i c cs added eh hh ne hn hi fits plain new own in
      subst (Entered fs h) (sym eq) (n, free, is)

  -- For a disk on which `sdread` reads what `sdwrite` has written, `mkdir` of a name of less than 24
  -- characters without `/`, which no directory in front of the first free entry has, in a directory with
  -- a free entry, whose own inode is taken and has its number, and a valid inode map, and then `cd` to
  -- that name: either every inode was taken, or the inode of the shell is that of a new directory, whose
  -- number was free and whose father is the directory before.
  pub cd-make_directory :
      (fs : Fs S) (inode0 block0 block1 : Buffer) (now : ℕ) (cmd cmd' : List ℕ) (c : ℕ)
      (cs : List ℕ)
      → let here = word fs.shell_path_inode inode_ino in
        let db = dir_block_read D fs.disk block0 here in
        let i = first_entry dentrys_per_block 0 (is_free db) in
        IsMap fs.inode_map
        → length fs.inode_map ≡ 0x400
        → here < fs_inode_table_size * 8
        → bitmap_getbit fs.inode_map here ≢ 0
        → i < dentrys_per_block
        → FitsEntry (c ∷ cs)
        → All (λ d. d ≢ b'/') (c ∷ cs)
        → ((k : ℕ) → k < i → is_step (c ∷ cs) db k ≡ false)
        → ((dest : Buffer) → word (inode_read D fs.disk dest here) inode_ino ≡ here)
        → Entered fs here (
            then_cd block1 cmd'
              (c ∷ cs)
              (make_directory D inode0 block0 now fs (cmd ∷ (c ∷ cs) ∷ [])))
  cd-make_directory fs inode0 block0 block1 now cmd cmd' c cs map len hh used hi fits plain new
        own =
      then_cd-Entered fs db block1 cmd' here (first_entry dentrys_per_block 0 (is_free db)) c cs
        (make_directory D inode0 block0 now fs (cmd ∷ (c ∷ cs) ∷ []))
        (make_directory-MadeDir D L fs inode0 block0 now cmd (c ∷ cs) [] map len hh used hi fits)
        refl hh used hi fits plain new own
    where
      here : ℕ
      here = word fs.shell_path_inode inode_ino

      db : Buffer
      db = dir_block_read D fs.disk block0 here
