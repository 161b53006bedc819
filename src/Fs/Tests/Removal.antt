-- ===== src/Fs/Tests/Removal.antt =====
-- Runs of `rmdir`: kernel/fs/path.c.
use tina.Base.{ℕ, zero, suc, ◌<◌, ◌≡◌, ◌⊎◌, inl, inr, refl, sym, subst, true, false, [], ◌∷◌, arith}
use tina.Fs.{dir_mode}
use tina.Fs.Disk.{dir_block_read}
use tina.Fs.Path.{is_free, is_named, is_dots, make_directory, remove_directory}
use tina.Fs.Path.Undo.{Restored, then_rmdir, rmdir-mkdir, new_named}
use tina.Fs.Path.Remove.{IsDirBlock, Gone, remove_directory-Gone}
use tina.Fs.Tests.{
  memory_disk, memory_disk-IsDevice, blank, root_map-IsMap, root_map-length, root_disk, root_fs,
  root_db, root_db-eq, root_here, root_room, root_room-eq, root_block-IsEmptyDir, root_here-small,
  root_here-used, root_room-small,
}

root_new_named : (k : ℕ) → k < root_room → is_named dir_mode (b'a' ∷ []) root_db k ≡ false
root_new_named k l =
    subst (λ db. is_named dir_mode (b'a' ∷ []) db k ≡ false) (sym root_db-eq)
      (new_named (dir_block_read memory_disk root_disk blank 0) 0 0 b'a' [] root_block-IsEmptyDir
        (omega arith) k (subst (λ i. k < i) root_room-eq l))

rmdir-mkdir_example :
    Restored memory_disk memory_disk-IsDevice root_fs root_db root_here root_room (
      then_rmdir memory_disk memory_disk-IsDevice blank
        (b'r' ∷ [])
        (b'a' ∷ [])
        (make_directory memory_disk blank blank 5 root_fs ((b'm' ∷ []) ∷ (b'a' ∷ []) ∷ [])))
unfolding is_dots
rmdir-mkdir_example =
    rmdir-mkdir memory_disk memory_disk-IsDevice root_fs blank blank blank 5 (b'm' ∷ []) (b'r' ∷ [])
      (b'a' ∷ []) root_map-IsMap root_map-length root_here-small root_here-used root_room-small
      (omega arith) refl root_new_named

root_db-IsDirBlock : IsDirBlock memory_disk memory_disk-IsDevice root_db
unfolding is_free
root_db-IsDirBlock = subst (IsDirBlock memory_disk memory_disk-IsDevice) (sym root_db-eq) entries
  where
    entries :
        IsDirBlock memory_disk memory_disk-IsDevice (dir_block_read memory_disk root_disk blank 0)
    entries zero l = inr (rw root_block-IsEmptyDir.dot.ino (omega arith))
    entries (suc zero) l = inr (rw root_block-IsEmptyDir.dots.ino (omega arith))
    entries (suc (suc j)) l =
        inl (rw (root_block-IsEmptyDir.free (suc (suc j)) (omega arith) l) refl)

remove_directory-Gone_example :
    ((is_dots memory_disk (b'a' ∷ []) ≡ true)
      × (remove_directory memory_disk blank root_fs ((b'r' ∷ []) ∷ (b'a' ∷ []) ∷ []) ≡ root_fs))
    ⊎ ((is_dots memory_disk (b'a' ∷ []) ≡ false)
        × Gone memory_disk memory_disk-IsDevice dir_mode
            (b'a' ∷ [])
            root_fs
            root_db
            root_here
            (remove_directory memory_disk blank root_fs ((b'r' ∷ []) ∷ (b'a' ∷ []) ∷ [])))
remove_directory-Gone_example =
    remove_directory-Gone memory_disk memory_disk-IsDevice blank root_fs (b'r' ∷ []) (b'a' ∷ []) []
      root_map-IsMap root_map-length root_here-small root_db-IsDirBlock
