-- ===== src/Fs/Format/Root.antt =====
-- A new file system: kernel/fs/fs.c.
use tina.Base.{
  ℕ, zero, suc, ◌+◌, ◌/◌, ◌%◌, ◌≤◌, ◌<◌, ◌≡◌, ◌≢◌, ◌⊎◌, inl, inr, refl, sym, ap, subst, ◌∙◌, Option,
  none, some, [], ◌∷◌, arith, ◌==◌, ==_ne, if◌then◌else◌, length, get_or, replicate,
  length-replicate,
}
use tina.Base.Bytes.{
  Buffer, word, word-put_word, word-put_ne, word-cong, overlay-inside, overlay-zero,
  overlay-outside,
}
use tina.Bitmap.{IsMap, bitmap_getbit}
use tina.Bitmap.Modify.{getbit-eq-bit}
use tina.Base.Bits.{bit-zero}
use tina.Fs.{
  Device, IsDevice, Fs, sector_size, fs_superblock_base, fs_inode_map_base, fs_magic, root_dir_ino,
  dir_mode, sb_magic, sb_root_dir_ino,
}
use tina.Fs.Disk.{
  sector_read, inode_read, inode_alloc, inode_map_read, inode_map_write, superblock_read,
  superblock_write, dir_block_read, check_ino,
}
use tina.Fs.Disk.Layout.{
  sector_at, inode_at, sector_read-byte, sector_write-byte, inode_read-byte, dir_read-byte,
}
use tina.Fs.Disk.Alloc.{Allocated, IsAlloc, inode_alloc-IsAlloc, map_read-write, map_write-outside}
use tina.Fs.Format.{
  Made, already, made, superblock_init, inode_map_init, inode_create, mount, format_rest, format,
  do_makefs,
}
use tina.Fs.Format.Entry.{IsInode, IsInode-cong}
use tina.Fs.Format.Create.{IsEmptyDir, IsEmptyDir-cong, CreatedDir, create-CreatedDir}

magic_init : (sb : Buffer) → word (superblock_init sb) sb_magic ≡ fs_magic
unfolding superblock_init
magic_init sb =
    word-put_ne _ 20 0x1000 0 (inl (omega arith))
    ∙ word-put_ne _ 16 0xfe000 0 (inl (omega arith))
    ∙ word-put_ne _ 12 8 0 (inl (omega arith))
    ∙ word-put_ne _ 8 0xfdff8 0 (inl (omega arith))
    ∙ word-put_ne _ 4 0x20000000 0 (inl (omega arith))
    ∙ word-put_ne _ 24 0 0 (inl (omega arith))
    ∙ word-put_word sb 0 0x711 (omega arith)

root_init : (sb : Buffer) → word (superblock_init sb) sb_root_dir_ino ≡ root_dir_ino
unfolding superblock_init
root_init sb =
    word-put_ne _ 20 0x1000 24 (inr (omega arith))
    ∙ word-put_ne _ 16 0xfe000 24 (inr (omega arith))
    ∙ word-put_ne _ 12 8 24 (inr (omega arith))
    ∙ word-put_ne _ 8 0xfdff8 24 (inr (omega arith))
    ∙ word-put_ne _ 4 0x20000000 24 (inr (omega arith))
    ∙ word-put_word _ 24 0 (omega arith)

pub zeros-IsMap : (n : ℕ) → IsMap (replicate n 0)
zeros-IsMap zero = tt
zeros-IsMap (suc n) = (omega arith, zeros-IsMap n)

init-IsMap : IsMap inode_map_init
unfolding inode_map_init
init-IsMap = zeros-IsMap 0x400

init-length : length inode_map_init ≡ 0x400
unfolding inode_map_init
init-length = length-replicate {A = ℕ} 0x400 0

get_or-zeros : (n i : ℕ) → get_or {A = ℕ} (replicate n 0) i 0 ≡ 0
get_or-zeros zero i = refl
get_or-zeros (suc n) zero = refl
get_or-zeros (suc n) (suc i) = get_or-zeros n i

init-free : (k : ℕ) → bitmap_getbit inode_map_init k ≡ 0
unfolding inode_map_init
init-free k =
    getbit-eq-bit (replicate 0x400 0) k ∙ rw (get_or-zeros 0x400 (k / 32)) (bit-zero (k % 32))

module _ {S : Type 0} (D : Device S) (L : IsDevice D) where
  -- A file system whose only directory is the root, and the shell in it.
  pub record IsRoot (fs : Fs S) : Type 0 where
    pub shell : IsInode fs.shell_path_inode root_dir_ino dir_mode root_dir_ino
    pub inode :
        (dest : Buffer)
        → IsInode (inode_read D fs.disk dest root_dir_ino) root_dir_ino dir_mode root_dir_ino
    pub block :
        (buf : Buffer)
        → IsEmptyDir (dir_block_read D fs.disk buf root_dir_ino) root_dir_ino root_dir_ino
    pub valid : IsMap fs.inode_map
    pub length_map : length fs.inode_map ≡ 0x400
    pub bits : (k : ℕ) → bitmap_getbit fs.inode_map k ≡ (if 0 == k then 1 else 0)
    pub stored : (fs' : Fs S) → fs'.disk ≡ fs.disk → (inode_map_read D fs').inode_map ≡ fs.inode_map
    pub magic :
        (sb : Fs S) → sb.disk ≡ fs.disk → word (superblock_read D sb).superblock sb_magic ≡ fs_magic
    pub root :
        (sb : Fs S)
        → sb.disk ≡ fs.disk
        → word (superblock_read D sb).superblock sb_root_dir_ino ≡ root_dir_ino

  -- What the superblock and the map are written over, all else is kept.
  final-byte :
      (fs : Fs S) (a : ℕ)
      → (a < sector_at fs_superblock_base) ⊎ (sector_at (fs_inode_map_base + 8) ≤ a)
      → D.byte (inode_map_write D (superblock_write D fs)).disk a ≡ D.byte fs.disk a
  unfolding superblock_write
  final-byte fs a out =
      map_write-outside D L (superblock_write D fs) a
        (elim out [ inl b ↦ inl (omega arith) | inr b ↦ inr b ])
      ∙ sector_write-byte D L fs.disk fs.superblock fs_superblock_base a
      ∙ overlay-outside (D.byte fs.disk) (sector_at fs_superblock_base) sector_size fs.superblock a
          (elim out [ inl b ↦ inl b | inr b ↦ inr (omega arith) ])

  -- The superblock that is read then is the one that was written.
  final-superblock :
      (fs sb : Fs S) (p : ℕ)
      → sb.disk ≡ (inode_map_write D (superblock_write D fs)).disk
      → p + 4 ≤ sector_size
      → word (superblock_read D sb).superblock p ≡ word fs.superblock p
  unfolding superblock_read superblock_write
  final-superblock fs sb p e h = word-cong (superblock_read D sb).superblock fs.superblock p (λ i l.
      overlay-zero sb.superblock sector_size (sector_read D sb.disk fs_superblock_base) (p + i)
        (omega arith)
      ∙ sector_read-byte D L sb.disk fs_superblock_base (p + i) (omega arith)
      ∙ ap (λ s. D.byte s (sector_at fs_superblock_base + (p + i))) e
      ∙ map_write-outside D L (superblock_write D fs) (sector_at fs_superblock_base + (p + i))
          (inl (omega arith))
      ∙ sector_write-byte D L fs.disk fs.superblock fs_superblock_base
          (sector_at fs_superblock_base + (p + i))
      ∙ overlay-inside (D.byte fs.disk) (sector_at fs_superblock_base) sector_size fs.superblock
          (p + i) (omega arith))

  made-IsRoot :
      (fs fs1 : Fs S) (inode0 block0 : Buffer) (now : ℕ)
      → Allocated D L fs root_dir_ino fs1
      → fs.inode_map ≡ inode_map_init
      → length fs1.inode_map ≡ 0x400
      → word fs.superblock sb_root_dir_ino ≡ root_dir_ino
      → word fs.superblock sb_magic ≡ fs_magic
      → let disk' =
          inode_create D fs1.disk inode0 block0 root_dir_ino dir_mode
            (b'~' ∷ [])
            root_dir_ino
            now in
        IsRoot (mount D (inode_map_write D (superblock_write D (record fs1 { disk = disk' }))))
  unfolding mount check_ino inode_map_write superblock_write
  made-IsRoot fs fs1 inode0 block0 now al em len er eg = rw here (record {
    shell = root fs1.shell_path_inode;
    inode = root;
    block = λ buf.
        IsEmptyDir-cong (dir_block_read D last buf 0) (dir_block_read D disk' buf 0) 0 0
          (λ a l.
            dir_read-byte D L last buf 0 a l
            ∙ final-byte mid (sector_at 0 + a) (inl (omega arith))
            ∙ sym (dir_read-byte D L disk' buf 0 a l))
          (c.block buf);
    valid = al.valid;
    length_map = len;
    bits = λ k.
        al.bits k
        ∙ ap (λ b. if 0 == k then 1 else b) (ap (λ m. bitmap_getbit m k) em ∙ init-free k);
    stored = λ fs' e. map_read-write D L (superblock_write D mid) fs' al.valid len e;
    magic = λ sb e.
        final-superblock mid sb 0 e (omega arith)
        ∙ ap (λ (f : Fs S). word f.superblock sb_magic) al.same
        ∙ eg;
    root = λ sb e. final-superblock mid sb 24 e (omega arith) ∙ here;
  })
    where
      here : word fs1.superblock sb_root_dir_ino ≡ root_dir_ino
      here = ap (λ (f : Fs S). word f.superblock sb_root_dir_ino) al.same ∙ er

      disk' : S
      disk' =
          inode_create D fs1.disk inode0 block0 root_dir_ino dir_mode (b'~' ∷ []) root_dir_ino now

      c : CreatedDir D L fs1.disk 0 0 disk'
      c =
          create-CreatedDir D L fs1.disk inode0 block0 0 (b'~' ∷ []) 0 now (omega arith)
            (omega arith) (omega arith)

      mid : Fs S
      mid = record fs1 { disk = disk' }

      last : S
      last = (inode_map_write D (superblock_write D mid)).disk

      root : (dest : Buffer) → IsInode (inode_read D last dest 0) 0 dir_mode 0
      root dest =
          IsInode-cong (inode_read D last dest 0) (inode_read D disk' dest 0) 0 dir_mode 0
            (λ a l.
              inode_read-byte D L last dest 0 a refl l
              ∙ final-byte mid (inode_at 0 + a) (inr (omega arith))
              ∙ sym (inode_read-byte D L disk' dest 0 a refl l))
            (c.inode dest)

  -- `makefs` has made a file system.
  abbrev pub MadeRoot : Option (Made × Fs S) → Type 0
  MadeRoot none = ⊥
  MadeRoot (some (r, fs')) = (r ≡ made) × IsRoot fs'

  format_rest-MadeRoot :
      (fs : Fs S) (inode0 block0 : Buffer) (now : ℕ) (r : Option (ℕ × Fs S))
      → IsAlloc D L fs r
      → fs.inode_map ≡ inode_map_init
      → word fs.superblock sb_root_dir_ino ≡ root_dir_ino
      → word fs.superblock sb_magic ≡ fs_magic
      → MadeRoot (format_rest D inode0 block0 now r)
  unfolding format_rest
  format_rest-MadeRoot fs inode0 block0 now none full em er eg =
      absurd (full 0 (omega arith) (ap (λ m. bitmap_getbit m 0) em ∙ init-free 0))
  format_rest-MadeRoot fs inode0 block0 now (some (zero, fs1)) al em er eg = (
    refl,
    made-IsRoot fs fs1 inode0 block0 now al em (al.length_map ∙ ap (λ m. length m) em ∙ init-length)
        er eg,
  )
  format_rest-MadeRoot fs inode0 block0 now (some (suc i, fs1)) al em er eg =
      absurd (al.first 0 (omega arith) (ap (λ m. bitmap_getbit m 0) em ∙ init-free 0))

  -- For a disk on which `sdread` reads what `sdwrite` has written, `do_makefs` on a disk whose
  -- superblock has another magic word makes a file system: the inode map is valid and stored, inode 0
  -- alone is taken, it is a directory and its own father, its block has `.`, `..` and free entries, the
  -- superblock is stored with the magic word and the root, and the shell is in the root.
  pub makefs-MadeRoot :
      (fs : Fs S) (inode0 block0 : Buffer) (now : ℕ)
      → word (superblock_read D fs).superblock sb_magic ≢ fs_magic
      → MadeRoot (do_makefs D inode0 block0 now fs)
  unfolding do_makefs format
  makefs-MadeRoot fs inode0 block0 now ne =
      rw (==_ne (word (superblock_read D fs).superblock sb_magic) fs_magic ne) (
        format_rest-MadeRoot start inode0 block0 now (inode_alloc D start)
          (inode_alloc-IsAlloc D L start init-IsMap init-length) refl
          (root_init (superblock_read D fs).superblock)
          (magic_init (superblock_read D fs).superblock))
    where
      start : Fs S
      start = record (superblock_read D fs) {
        superblock = superblock_init (superblock_read D fs).superblock;
        inode_map = inode_map_init;
      }

  root-again :
      (fs fs' : Fs S) (inode0 block0 : Buffer) (now : ℕ)
      → IsRoot fs
      → fs'.disk ≡ fs.disk
      → (fs2 : Fs S) × (do_makefs D inode0 block0 now fs' ≡ some (already, fs2))
        × (fs2.disk ≡ fs.disk)
        × (fs2.inode_map ≡ fs.inode_map)
        × IsInode fs2.shell_path_inode root_dir_ino dir_mode root_dir_ino
  unfolding do_makefs mount inode_map_read superblock_read
  root-again fs fs' inode0 block0 now is e =
      rw (is.magic fs' e, is.root fs' e)
        (
          _,
          refl,
          e,
          is.stored (superblock_read D fs') e,
          subst (λ d. IsInode (inode_read D d fs'.shell_path_inode 0) 0 dir_mode 0) (sym e)
              (is.inode fs'.shell_path_inode),
        )

  abbrev made_state : Fs S → Option (Made × Fs S) → Fs S
  made_state fs none = fs
  made_state fs (some r) = r.1

  made-IsRoot_of :
      (r : Option (Made × Fs S)) (fs1 : Fs S) → MadeRoot r → r ≡ some (made, fs1) → IsRoot fs1
  made-IsRoot_of none fs1 h e = absurd h
  made-IsRoot_of (some (m, fs)) fs1 h e = subst IsRoot (ap (made_state fs) e) h.1

  -- When `do_makefs` has made a file system on a disk whose superblock had another magic word, in the
  -- state `fs1`, then a later `do_makefs`, in any state of the memory over the same disk, finds that
  -- system: the disk is kept, the inode map is that of `fs1` and the shell is in the root. `sdread`
  -- reads what `sdwrite` has written.
  pub makefs-again :
      (fs fs1 fs' : Fs S) (inode0 inode1 block0 block1 : Buffer) (now later : ℕ)
      → word (superblock_read D fs).superblock sb_magic ≢ fs_magic
      → do_makefs D inode0 block0 now fs ≡ some (made, fs1)
      → fs'.disk ≡ fs1.disk
      → (fs2 : Fs S) × (do_makefs D inode1 block1 later fs' ≡ some (already, fs2))
        × (fs2.disk ≡ fs1.disk)
        × (fs2.inode_map ≡ fs1.inode_map)
        × IsInode fs2.shell_path_inode root_dir_ino dir_mode root_dir_ino
  makefs-again fs fs1 fs' inode0 inode1 block0 block1 now later ne run same =
      root-again fs1 fs' inode1 block1 later
        (made-IsRoot_of (do_makefs D inode0 block0 now fs) fs1
          (makefs-MadeRoot fs inode0 block0 now ne) run)
        same
