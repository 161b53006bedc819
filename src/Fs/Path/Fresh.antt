-- ===== src/Fs/Path/Fresh.antt =====
-- A new file system takes a new directory: kernel/fs/path.c.
use tina.Base.{
  ℕ, zero, suc, ◌<◌, ◌≡◌, ◌≢◌, refl, sym, ap, subst, ◌∙◌, Bool, true, false, ◌&&◌, Option, none,
  some, List, [], ◌∷◌, arith, ==_ne, All,
}
use tina.Base.Bytes.{Buffer, word, is_string}
use tina.Bitmap.{bitmap_getbit}
use tina.Fs.{
  Device, IsDevice, Fs, root_dir_ino, no_ino, dir_mode, inode_ino, dentry_name, dentrys_per_block,
}
use tina.Fs.Disk.{inode_read, dir_block_read}
use tina.Fs.Format.Entry.{FitsEntry, IsInode}
use tina.Fs.Format.Create.{IsEmptyDir}
use tina.Fs.Format.Root.{IsRoot}
use tina.Fs.Path.{is_free, is_step, first_entry, make_directory}
use tina.Fs.Path.Enter.{first_entry-first, Entered, then_cd, cd-make_directory}

dots-taken :
    (db : Buffer) (n f k : ℕ)
    → IsEmptyDir db n f
    → n ≢ no_ino
    → f ≢ no_ino
    → k < 2
    → is_free db k ≡ false
unfolding is_free
dots-taken db n f zero d hn hf l = rw d.dot.ino (==_ne n no_ino hn)
dots-taken db n f (suc zero) d hn hf l = rw d.dots.ino (==_ne f no_ino hf)
dots-taken db n f (suc (suc k)) d hn hf l = absurd (omega (arith, l))

-- An empty directory has its first free entry behind `..`.
pub first_free :
    (db : Buffer) (n f : ℕ)
    → IsEmptyDir db n f
    → n ≢ no_ino
    → f ≢ no_ino
    → first_entry dentrys_per_block 0 (is_free db) ≡ 2
unfolding is_free
first_free db n f d hn hf =
    first_entry-first dentrys_per_block 0 2 (is_free db) (omega arith) (omega arith)
      (λ m a b. dots-taken db n f m d hn hf b) (rw (d.free 2 (omega arith) (omega arith)) refl)

-- A string that starts otherwise is another one.
pub is_string-head :
    (f : Buffer) (o c d : ℕ) (cs ds : List ℕ)
    → is_string f o (c ∷ cs) ≡ true
    → c ≢ d
    → is_string f o (d ∷ ds) ≡ false
unfolding is_string
is_string-head f o c d cs ds e ne = ground (arith, e)

pub and-false : (b c : Bool) → b && (c && false) ≡ false
and-false true true = refl
and-false true false = refl
and-false false c = refl

pub new_name :
    (db : Buffer) (n f c : ℕ) (cs : List ℕ)
    → IsEmptyDir db n f
    → c ≢ b'.'
    → (k : ℕ) → k < 2
    → is_step (c ∷ cs) db k ≡ false
unfolding is_step
new_name db n f c cs d ne zero l =
    rw (is_string-head db (dentry_name 0) b'.' c [] cs d.dot.name (λ e. ne (sym e))) (and-false _ _)
new_name db n f c cs d ne (suc zero) l =
    rw (is_string-head db (dentry_name 1) b'.' c (b'.' ∷ []) cs d.dots.name (λ e. ne (sym e)))
      (and-false _ _)
new_name db n f c cs d ne (suc (suc k)) l = absurd (omega (arith, l))

module _ {S : Type 0} (D : Device S) (L : IsDevice D) where
  -- A directory has been entered that is not the root and whose father is the root.
  abbrev pub InNew : Option (Fs S) → Type 0
  InNew none = ⊥
  InNew (some fs2) =
      (n : ℕ) × (n ≢ root_dir_ino) × IsInode fs2.shell_path_inode n dir_mode root_dir_ino

  Entered-InNew : (fs : Fs S) (r : Option (Fs S)) → IsRoot D L fs → Entered D L fs 0 r → InNew r
  Entered-InNew fs none is full = absurd (full 1 (omega arith) (is.bits 1))
  Entered-InNew fs (some fs2) is (n, free, inode) = (
    n,
    λ e. absurd (omega (arith, is.bits 0, sym (ap (bitmap_getbit fs.inode_map) e) ∙ free)),
    inode,
  )

  -- For a disk on which `sdread` reads what `sdwrite` has written: on a new file system, `mkdir` of a
  -- name of less than 24 characters, without `/` and not starting with a dot, and then `cd` to it
  -- succeed, and the shell is in a directory that is not the root and has the root for its father.
  pub enter-root :
      (fs : Fs S) (inode0 block0 block1 : Buffer) (now : ℕ) (cmd cmd' : List ℕ) (c : ℕ)
      (cs : List ℕ)
      → IsRoot D L fs
      → c ≢ b'.'
      → FitsEntry (c ∷ cs)
      → All (λ d. d ≢ b'/') (c ∷ cs)
      → InNew (
          then_cd D L block1 cmd'
            (c ∷ cs)
            (make_directory D inode0 block0 now fs (cmd ∷ (c ∷ cs) ∷ [])))
  enter-root fs inode0 block0 block1 now cmd cmd' c cs is nd fits plain =
      Entered-InNew fs
        (then_cd D L block1 cmd' (c ∷ cs)
          (make_directory D inode0 block0 now fs (cmd ∷ (c ∷ cs) ∷ [])))
        is
        (subst
          (λ h. Entered D L fs h (
            then_cd D L block1 cmd' (c ∷ cs)
              (make_directory D inode0 block0 now fs (cmd ∷ (c ∷ cs) ∷ []))))
          here
          (cd-make_directory D L fs inode0 block0 block1 now cmd cmd' c cs is.valid is.length_map
            (subst (λ h. h < 0x8000) (sym here) (omega arith))
            (subst (λ h. bitmap_getbit fs.inode_map h ≢ 0) (sym here)
              (λ e. absurd (omega (arith, is.bits 0, e))))
            (subst (λ i. i < dentrys_per_block) (sym room) (omega arith)) fits plain
            (λ k l.
              subst (λ b. is_step (c ∷ cs) b k ≡ false) (sym db-eq)
                (new_name root 0 0 c cs (is.block block0) nd k (subst (λ i. k < i) room l)))
            (λ dest.
              ap (λ h. word (inode_read D fs.disk dest h) inode_ino) here
              ∙ (is.inode dest).ino
              ∙ sym here)))
    where
      here : word fs.shell_path_inode inode_ino ≡ 0
      here = is.shell.ino

      root : Buffer
      root = dir_block_read D fs.disk block0 0

      db-eq : dir_block_read D fs.disk block0 (word fs.shell_path_inode inode_ino) ≡ root
      db-eq = ap (dir_block_read D fs.disk block0) here

      room :
          first_entry dentrys_per_block 0
            (is_free (dir_block_read D fs.disk block0 (word fs.shell_path_inode inode_ino)))
          ≡ 2
      room =
          ap (λ db. first_entry dentrys_per_block 0 (is_free db)) db-eq
          ∙ first_free root 0 0 (is.block block0) (omega arith) (omega arith)
