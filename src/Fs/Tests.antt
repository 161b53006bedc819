-- ===== src/Fs/Tests.antt =====
-- Runs of kernel/fs, and its theorems on a disk that is its own contents.
mod Removal
use tina.Base.{
  ◌⊎◌, ◌≢◌, ◌<◌, ◌≤◌, true, inl, suc, inr, true, ℕ, ◌+◌, ◌<◌, ◌≡◌, ◌≢◌, refl, sym, ap, subst, ◌∙◌,
  false, Option, none, some, List, [], ◌∷◌, arith, length, replicate, length-replicate,
}
use tina.Base.Bytes.{Buffer, word, overlay}
use tina.Bitmap.{IsMap, bitmap_modify, bitmap_getbit}
use tina.Bitmap.Modify.{modify-IsMap, length-modify, getbit-modify}
use tina.Fs.Path.Undo.{Restored, then_rmdir, rmdir-mkdir, new_named}
use tina.Fs.Path.Remove.{IsDirBlock, Gone, remove_directory-Gone}
use tina.Fs.{
  Device, IsDevice, Fs, fs_magic, sb_magic, dir_mode, inode_ino, root_dir_ino, dentrys_per_block,
}
use tina.Fs.Disk.{
  file_block_read, superblock_read, sector_read, do_sdread, inode_read, dir_block_read, inode_alloc,
}
use tina.Fs.Disk.Alloc.{IsAlloc, inode_alloc-IsAlloc}
use tina.Fs.Format.{made, inode_create, Made, already, do_makefs}
use tina.Fs.Format.Root.{zeros-IsMap, IsRoot, MadeRoot, makefs-MadeRoot, makefs-again}
use tina.Fs.Format.Entry.{IsInode}
use tina.Fs.Format.Create.{IsEmptyDir, CreatedDir, create-CreatedDir}
use tina.Fs.Path.{
  is_free, is_step, is_named, is_dots, first_entry, make_directory, remove_directory,
}
use tina.Fs.Path.Make.{MadeDir, make_directory-MadeDir}
use tina.Fs.Path.Fresh.{InNew, first_free, new_name, enter-root}
use tina.Fs.Path.Enter.{Entered, then_cd, cd-make_directory}
use tina.Fs.Text.{in_reach, sys_fread, sys_fwrite, sys_fseek}
use tina.Fs.Text.ReadWrite.{fread-fwrite}

-- The state of the disk is the map from addresses to bytes.
abbrev memory_disk : Device Buffer
memory_disk = record {
  byte = λ s a. s a;
  sdread = λ s o n i. s (o + i);
  sdwrite = λ s src o n. overlay s o n src;
}

memory_disk-IsDevice : IsDevice memory_disk
unfolding overlay
memory_disk-IsDevice = record { reads = λ s o n i h. refl; writes = λ s src o n a. refl }

abbrev blank : Buffer
blank a = 0

abbrev root_map : List ℕ
root_map = (bitmap_modify (replicate 0x400 0) 1 0).0

root_map-IsMap : IsMap root_map
root_map-IsMap = modify-IsMap (replicate 0x400 0) 1 0 (zeros-IsMap 0x400)

root_map-length : length root_map ≡ 0x400
root_map-length = length-modify (replicate 0x400 0) 1 0 ∙ length-replicate {A = ℕ} 0x400 0

root_map-used : bitmap_getbit root_map 0 ≢ 0
root_map-used = λ e.
    let set : bitmap_getbit root_map 0 ≡ 1 =
      getbit-modify (replicate 0x400 0) 1 0 0 (zeros-IsMap 0x400) (omega arith)
        (omega (arith, length-replicate {A = ℕ} 0x400 0)) in
    absurd (omega (arith, e, set))

-- A disk with an empty root directory, and the shell in it.
abbrev root_disk : Buffer
root_disk = inode_create memory_disk blank blank blank 0 dir_mode (b'~' ∷ []) 0 0

root_disk-Created : CreatedDir memory_disk memory_disk-IsDevice blank 0 0 root_disk
root_disk-Created =
    create-CreatedDir memory_disk memory_disk-IsDevice blank blank blank 0 (b'~' ∷ []) 0 0
      (omega arith) (omega arith) (omega arith)

abbrev root_fs : Fs Buffer
root_fs = record {
  disk = root_disk;
  superblock = blank;
  inode_map = root_map;
  shell_path_inode = inode_read memory_disk root_disk blank 0;
  shell_path_head = b'~' ∷ [];
  cur_dir = blank;
  fd_ino = blank;
  fd_pos = blank;
  fd_index = 0;
}

root_fs-here : word root_fs.shell_path_inode inode_ino ≡ 0
root_fs-here = (root_disk-Created.inode blank).ino

root_block-IsEmptyDir : IsEmptyDir (dir_block_read memory_disk root_disk blank 0) 0 0
root_block-IsEmptyDir = root_disk-Created.block blank

abbrev root_here : ℕ
root_here = word root_fs.shell_path_inode inode_ino

abbrev root_db : Buffer
root_db = dir_block_read memory_disk root_disk blank root_here

abbrev root_room : ℕ
root_room = first_entry dentrys_per_block 0 (is_free root_db)

root_db-eq : root_db ≡ dir_block_read memory_disk root_disk blank 0
root_db-eq = ap (dir_block_read memory_disk root_disk blank) root_fs-here

root_room-eq : root_room ≡ 2
root_room-eq =
    ap (λ db. first_entry dentrys_per_block 0 (is_free db)) root_db-eq
    ∙ first_free (dir_block_read memory_disk root_disk blank 0) 0 0 root_block-IsEmptyDir
        (omega arith) (omega arith)

root_here-small : root_here < 0x8000
root_here-small = subst (λ h. h < 0x8000) (sym root_fs-here) (omega arith)

root_here-used : bitmap_getbit root_map root_here ≢ 0
root_here-used = subst (λ h. bitmap_getbit root_map h ≢ 0) (sym root_fs-here) root_map-used

root_room-small : root_room < dentrys_per_block
root_room-small = subst (λ i. i < dentrys_per_block) (sym root_room-eq) (omega arith)

root_new : (k : ℕ) → k < root_room → is_step (b'a' ∷ []) root_db k ≡ false
root_new k l =
    subst (λ db. is_step (b'a' ∷ []) db k ≡ false) (sym root_db-eq)
      (new_name (dir_block_read memory_disk root_disk blank 0) 0 0 b'a' [] root_block-IsEmptyDir
        (omega arith) k (subst (λ i. k < i) root_room-eq l))

root_own :
    (dest : Buffer) → word (inode_read memory_disk root_disk dest root_here) inode_ino ≡ root_here
root_own dest =
    ap (λ h. word (inode_read memory_disk root_disk dest h) inode_ino) root_fs-here
    ∙ (root_disk-Created.inode dest).ino
    ∙ sym root_fs-here

make_directory-MadeDir_example :
    MadeDir memory_disk memory_disk-IsDevice root_fs root_db root_here root_room
      (b'a' ∷ [])
      (make_directory memory_disk blank blank 7 root_fs ((b'm' ∷ []) ∷ (b'a' ∷ []) ∷ []))
make_directory-MadeDir_example =
    make_directory-MadeDir memory_disk memory_disk-IsDevice root_fs blank blank 7 (b'm' ∷ [])
      (b'a' ∷ []) [] root_map-IsMap root_map-length root_here-small root_here-used root_room-small
      (omega arith)

cd-make_directory_example : Entered memory_disk memory_disk-IsDevice root_fs root_here (
    then_cd memory_disk memory_disk-IsDevice blank
      (b'c' ∷ [])
      (b'a' ∷ [])
      (make_directory memory_disk blank blank 7 root_fs ((b'm' ∷ []) ∷ (b'a' ∷ []) ∷ [])))
cd-make_directory_example =
    cd-make_directory memory_disk memory_disk-IsDevice root_fs blank blank blank 7 (b'm' ∷ [])
      (b'c' ∷ []) b'a' [] root_map-IsMap root_map-length root_here-small root_here-used
      root_room-small (omega arith) (omega arith, tt) root_new root_own

inode_alloc-IsAlloc_example :
    IsAlloc memory_disk memory_disk-IsDevice root_fs (inode_alloc memory_disk root_fs)
inode_alloc-IsAlloc_example =
    inode_alloc-IsAlloc memory_disk memory_disk-IsDevice root_fs root_map-IsMap root_map-length

abbrev open_fs : Fs Buffer
open_fs = record root_fs { fd_ino = λ i. 4; fd_pos = λ i. 10 }

fread-fwrite_example :
    (fs1 : Fs Buffer) × (sys_fwrite memory_disk blank open_fs 0 (λ a. a) 3 ≡ some (3, fs1))
    × (fs2 : Fs Buffer) × (sys_fseek memory_disk fs1 0 10 ≡ some fs2)
    × (got : Buffer) × (fs3 : Fs Buffer) × (sys_fread memory_disk blank fs2 0 blank 3
        ≡ some (got, 3, fs3))
    × ((i : ℕ) → i < 3 → got i ≡ i)
    × (fs3.fd_pos 0 ≡ 13)
    × ((i : ℕ)
        → i < 512
        → (i < 10) ⊎ (13 ≤ i)
        → file_block_read memory_disk fs1.disk blank 4 i
          ≡ file_block_read memory_disk open_fs.disk blank 4 i)
    × ((m i : ℕ)
        → 4 ≢ m
        → in_reach memory_disk m ≡ true
        → i < 512
        → file_block_read memory_disk fs1.disk blank m i
          ≡ file_block_read memory_disk open_fs.disk blank m i)
fread-fwrite_example =
    fread-fwrite memory_disk memory_disk-IsDevice open_fs blank blank (λ a. a) blank 0 3
      (omega arith) refl (omega arith)

abbrev blank_fs : Fs Buffer
blank_fs = record root_fs { disk = blank; inode_map = [] }

blank_fs-unmade : word (superblock_read memory_disk blank_fs).superblock sb_magic ≢ fs_magic
unfolding superblock_read sector_read do_sdread word overlay
blank_fs-unmade = omega arith

makefs_run :
    MadeRoot memory_disk memory_disk-IsDevice (do_makefs memory_disk blank blank 5 blank_fs)
makefs_run = makefs-MadeRoot memory_disk memory_disk-IsDevice blank_fs blank blank 5 blank_fs-unmade

root_of :
    (r : Option (Made × Fs Buffer))
    → MadeRoot memory_disk memory_disk-IsDevice r
    → (fs : Fs Buffer) × IsRoot memory_disk memory_disk-IsDevice fs
root_of none h = absurd h
root_of (some (m, fs)) h = (fs, h.1)

root_of-eq :
    (r : Option (Made × Fs Buffer)) (h : MadeRoot memory_disk memory_disk-IsDevice r)
    → r ≡ some (made, (root_of r h).0)
unfolding root_of
root_of-eq none h = absurd h
root_of-eq (some (m, fs)) h = ap (λ n. some (n, fs)) h.0

makefs-MadeRoot_example :
    MadeRoot memory_disk memory_disk-IsDevice (do_makefs memory_disk blank blank 5 blank_fs)
makefs-MadeRoot_example =
    makefs-MadeRoot memory_disk memory_disk-IsDevice blank_fs blank blank 5 blank_fs-unmade

made_fs : (fs : Fs Buffer) × IsRoot memory_disk memory_disk-IsDevice fs
made_fs = root_of (do_makefs memory_disk blank blank 5 blank_fs) makefs_run

made_run : do_makefs memory_disk blank blank 5 blank_fs ≡ some (made, made_fs.0)
unfolding made_fs root_of
made_run = root_of-eq (do_makefs memory_disk blank blank 5 blank_fs) makefs_run

makefs-again_example :
    (fs2 : Fs Buffer) × (do_makefs memory_disk
        (λ a. 1)
        (λ a. 2)
        9
        (record root_fs { disk = made_fs.0.disk })
      ≡ some (already, fs2))
    × (fs2.disk ≡ made_fs.0.disk)
    × (fs2.inode_map ≡ made_fs.0.inode_map)
    × IsInode fs2.shell_path_inode root_dir_ino dir_mode root_dir_ino
makefs-again_example =
    makefs-again memory_disk memory_disk-IsDevice blank_fs made_fs.0
      (record root_fs { disk = made_fs.0.disk }) blank (λ a. 1) blank (λ a. 2) 5 9 blank_fs-unmade
      made_run refl

enter-root_example : InNew memory_disk memory_disk-IsDevice (
    then_cd memory_disk memory_disk-IsDevice blank
      (b'c' ∷ [])
      (b'a' ∷ [])
      (make_directory memory_disk blank blank 7 made_fs.0 ((b'm' ∷ []) ∷ (b'a' ∷ []) ∷ [])))
enter-root_example =
    enter-root memory_disk memory_disk-IsDevice made_fs.0 blank blank blank 7 (b'm' ∷ [])
      (b'c' ∷ []) b'a' [] made_fs.1 (omega arith) (omega arith) (omega arith, tt)
