-- ===== src/Fs/Format/Create.antt =====
-- A new directory: kernel/fs/fs.c.
use tina.Base.{
  ℕ, zero, suc, ◌+◌, ◌*◌, ◌^◌, ◌≤◌, ◌<◌, ◌≡◌, ◌⊎◌, inl, inr, refl, subst, ◌∙◌, true, List, [], ◌∷◌,
  arith, lt→ltb, ℕ_discrete, length,
}
use tina.Base.Bytes.{
  Buffer, word, put_word, overlay-inside, overlay-outside, word-put_word, word-put_ne, word-cong,
}
use tina.Fs.{
  Device, IsDevice, sector_size, fs_inode_size, fs_inode_table_size, no_ino, dir_mode, dentry_ino,
  dentrys_per_block,
}
use tina.Fs.Disk.{check_ino, inode_read, inode_write, dir_block_read, dir_block_write}
use tina.Fs.Disk.Layout.{
  sector_at, inode_at, inode_read-byte, inode_write-byte, dir_read-byte, dir_write-byte,
}
use tina.Fs.Format.{free_entries, put_entry, dir_block_init, inode_init, dir_init, inode_create}
use tina.Fs.Format.Entry.{
  IsEntry, IsEntry-cong, IsEntry-other, put_entry-IsEntry, put_entry-outside, IsInode, IsInode-cong,
  init-IsInode,
}

free_entries-before :
    (left i : ℕ) (db : Buffer) (p : ℕ)
    → p + 4 ≤ 32 * i
    → word (free_entries left i db) p ≡ word db p
unfolding free_entries
free_entries-before zero i db p h = refl
free_entries-before (suc left) i db p h =
    free_entries-before left (i + 1) (put_word db (dentry_ino i) no_ino) p (omega arith)
    ∙ word-put_ne db (dentry_ino i) no_ino p (inl h)

free_entries-free :
    (left i : ℕ) (db : Buffer) (k : ℕ)
    → i ≤ k
    → k < i + left
    → word (free_entries left i db) (dentry_ino k) ≡ no_ino
unfolding free_entries
free_entries-free zero i db k h l = absurd (omega arith)
free_entries-free (suc left) i db k h l = elim (ℕ_discrete i k) [
  | yes e ↦
      subst
        (λ m.
          word (free_entries left (i + 1) (put_word db (dentry_ino i) no_ino)) (dentry_ino m)
          ≡ no_ino)
        e
        (free_entries-before left (i + 1) (put_word db (dentry_ino i) no_ino) (dentry_ino i)
            (omega arith)
          ∙ word-put_word db (dentry_ino i) no_ino (omega arith))
  | no ne ↦
      free_entries-free left (i + 1) (put_word db (dentry_ino i) no_ino) k (omega arith)
        (omega arith)
]

-- The block of a directory with no entries but `.` and `..`.
pub record IsEmptyDir (db : Buffer) (n f : ℕ) : Type 0 where
  pub dot : IsEntry db 0 n dir_mode (b'.' ∷ [])
  pub dots : IsEntry db 1 f dir_mode (b'.' ∷ b'.' ∷ [])
  pub free : (k : ℕ) → 2 ≤ k → k < dentrys_per_block → word db (dentry_ino k) ≡ no_ino

pub IsEmptyDir-cong :
    (f g : Buffer) (n fa : ℕ)
    → ((a : ℕ) → a < sector_size → f a ≡ g a)
    → IsEmptyDir g n fa
    → IsEmptyDir f n fa
IsEmptyDir-cong f g n fa same d = record {
  dot =
      IsEntry-cong f g 0 n dir_mode (b'.' ∷ []) (omega arith)
        (λ a l. same (32 * 0 + a) (omega arith)) d.dot;
  dots =
      IsEntry-cong f g 1 fa dir_mode (b'.' ∷ b'.' ∷ []) (omega arith)
        (λ a l. same (32 * 1 + a) (omega arith)) d.dots;
  free = λ k h l.
      word-cong f g (dentry_ino k) (λ a b. same (dentry_ino k + a) (omega arith)) ∙ d.free k h l;
}

block_init-IsEmptyDir :
    (block0 inode : Buffer) (n m f : ℕ)
    → n < 2 ^ 32
    → f < 2 ^ 32
    → IsInode inode n m f
    → IsEmptyDir (dir_block_init block0 inode) n f
unfolding dir_block_init
block_init-IsEmptyDir block0 inode n m f hn hf e =
    rw (e.ino, e.father)
      (record {
        dot =
            IsEntry-other one 0 n dir_mode (b'.' ∷ []) 1 f dir_mode (b'.' ∷ b'.' ∷ []) (omega arith)
              (omega arith) (omega arith)
              (put_entry-IsEntry bare 0 n dir_mode (b'.' ∷ []) hn (omega arith));
        dots = put_entry-IsEntry one 1 f dir_mode (b'.' ∷ b'.' ∷ []) hf (omega arith);
        free = λ k h l.
            word-cong (put_entry one 1 f dir_mode (b'.' ∷ b'.' ∷ [])) one (dentry_ino k) (λ a b.
              put_entry-outside one 1 f dir_mode (b'.' ∷ b'.' ∷ []) (dentry_ino k + a) (omega arith)
                (inr (omega arith)))
            ∙ word-cong one bare (dentry_ino k) (λ a b.
              put_entry-outside bare 0 n dir_mode (b'.' ∷ []) (dentry_ino k + a) (omega arith)
                (inr (omega arith)))
            ∙ free_entries-free dentrys_per_block 0 block0 k (omega arith) (omega arith);
      })
  where
    bare : Buffer
    bare = free_entries dentrys_per_block 0 block0

    one : Buffer
    one = put_entry bare 0 n dir_mode (b'.' ∷ [])

module _ {S : Type 0} (D : Device S) (L : IsDevice D) where
  -- A new directory `n` in the directory `f`.
  pub record CreatedDir (s : S) (n f : ℕ) (s' : S) : Type 0 where
    pub inode : (dest : Buffer) → IsInode (inode_read D s' dest n) n dir_mode f
    pub block : (buf : Buffer) → IsEmptyDir (dir_block_read D s' buf n) n f
    pub kept :
        (a : ℕ)
        → (a < sector_at n) ⊎ (sector_at n + sector_size ≤ a)
        → (a < inode_at n) ⊎ (inode_at n + fs_inode_size ≤ a)
        → D.byte s' a ≡ D.byte s a

  -- `inode_create` of a directory with a name of less than 32 characters: its inode has its number, its
  -- mode and its father, its block has `.`, `..` and free entries, and every byte of the disk outside of
  -- both is kept.
  pub create-CreatedDir :
      (s : S) (inode0 block0 : Buffer) (n : ℕ) (name : List ℕ) (f now : ℕ)
      → n < fs_inode_table_size * 8
      → f < fs_inode_table_size * 8
      → length name < 32
      → CreatedDir s n f (inode_create D s inode0 block0 n dir_mode name f now)
  unfolding inode_create dir_init check_ino
  create-CreatedDir s inode0 block0 n name f now hn hf fits =
      rw (is.mode, is.ino)
        (record {
          inode = λ dest.
              IsInode-cong (inode_read D last dest n) new n dir_mode f
                (λ a l.
                  inode_read-byte D L last dest n a ok l
                  ∙ inode_write-byte D L mid new n (inode_at n + a) ok
                  ∙ overlay-inside (D.byte mid) (inode_at n) fs_inode_size new a l)
                is;
          block = λ buf.
              IsEmptyDir-cong (dir_block_read D last buf n) db n f
                (λ a l.
                  dir_read-byte D L last buf n a l
                  ∙ inode_write-byte D L mid new n (sector_at n + a) ok
                  ∙ overlay-outside (D.byte mid) (inode_at n) fs_inode_size new (sector_at n + a)
                      (inl (omega arith))
                  ∙ dir_write-byte D L s db n (sector_at n + a)
                  ∙ overlay-inside (D.byte s) (sector_at n) sector_size db a l)
                (block_init-IsEmptyDir block0 new n dir_mode f (omega arith) (omega arith) is);
          kept = λ a out off.
              inode_write-byte D L mid new n a ok
              ∙ overlay-outside (D.byte mid) (inode_at n) fs_inode_size new a off
              ∙ dir_write-byte D L s db n a
              ∙ overlay-outside (D.byte s) (sector_at n) sector_size db a out;
        })
    where
      new : Buffer
      new = inode_init inode0 n dir_mode name f now

      is : IsInode new n dir_mode f
      is = init-IsInode inode0 n dir_mode name f now (omega arith) (omega arith) (omega arith) fits

      db : Buffer
      db = dir_block_init block0 new

      mid : S
      mid = dir_block_write D s db n

      last : S
      last = inode_write D mid new n

      ok : check_ino n ≡ true
      ok = lt→ltb n (fs_inode_table_size * 8) hn
