-- ===== src/Fs.antt =====
-- The file system: its layout and its state, include/os/fs.h. Structures are buffers of bytes, and
-- the disk is a parameter, the firmware calls `sdread` and `sdwrite` of arch/mips/pmon/common.c.
pub mod Disk
pub mod Format
pub mod Path
pub mod Text
mod Tests
use tina.Base.{
  ℕ, zero, suc, ◌+◌, ◌-◌, ◌*◌, ◌/◌, ◌%◌, ◌^◌, ◌≤◌, ◌<◌, min, max, ◌≡◌, ◌≢◌, ◌↔◌, ◌⊎◌, inl, inr,
  refl, sym, ap, ap₂, subst, ◌∙◌, fun_ext, Bool, true, false, not, ◌&&◌, ◌||◌, false≢true, Option,
  none, some, List, [], ◌∷◌, ◌++◌, map, append-nil, append_assoc, arith, ltb, leb, ◌==◌, ==_iff,
  ==_ne, ltb→lt, lt→ltb, leb_lt, leb_le, ltb_le, dec_lt, ℕ_discrete, if◌then◌else◌, Bool-cases,
  Option-cases, update, update-ne, update-eq, length, get_or, set, take, drop, replicate, All, has,
  ◌∈◌, ◌∉◌, Distinct, has-append, not-mem-cons, not-mem-append, mem_middle, mem-append_left,
  length-append, length-set, get_or-set, length-replicate, get_or-replicate,
}
use tina.Base.Bytes.{Buffer, word, put_word}

-- What `sdread` and `sdwrite` do to the bytes of the disk, `byte`.
pub record Device (S : Type 0) : Type 0 where
  pub byte : S → ℕ → ℕ
  pub sdread : S → (offset size : ℕ) → Buffer
  pub sdwrite : S → Buffer → (offset size : ℕ) → S

pub record IsDevice {S : Type 0} (D : Device S) : Type 0 where
  pub reads : (s : S) (o n i : ℕ) → i < n → D.sdread s o n i ≡ D.byte s (o + i)
  pub writes :
      (s : S) (src : Buffer) (o n a : ℕ)
      → D.byte (D.sdwrite s src o n) a
        ≡ (if leb o a && ltb a (o + n) then src (a - o) else D.byte s a)

abbrev pub fs_base : ℕ
fs_base = 0x100000

abbrev pub sector_size : ℕ
sector_size = 0x200

abbrev pub fs_magic : ℕ
fs_magic = 0x0711

abbrev pub fs_data_base : ℕ
fs_data_base = 0

abbrev pub fs_superblock_base : ℕ
fs_superblock_base = 0xfdff7

abbrev pub fs_inode_map_base : ℕ
fs_inode_map_base = 0xfdff8

abbrev pub fs_inode_map_size : ℕ
fs_inode_map_size = 8

abbrev pub fs_inode_table_base : ℕ
fs_inode_table_base = 0xfe000

abbrev pub fs_inode_table_size : ℕ
fs_inode_table_size = 0x1000

abbrev pub fd_num : ℕ
fd_num = 0x10

abbrev pub fs_block_size : ℕ
fs_block_size = 1

abbrev pub fs_inode_size : ℕ
fs_inode_size = 0x40

abbrev pub fs_dentry_size : ℕ
fs_dentry_size = 0x20

abbrev pub dentrys_per_block : ℕ
dentrys_per_block = 16

abbrev pub root_dir_ino : ℕ
root_dir_ino = 0

-- The `ino` of a free entry, -1.
abbrev pub no_ino : ℕ
no_ino = 0xffffffff

-- `enum inode_mode`
abbrev pub file_mode : ℕ
file_mode = 0

abbrev pub dir_mode : ℕ
dir_mode = 1

-- Offsets of the fields of `superblock_t`,
abbrev pub sb_magic : ℕ
sb_magic = 0

abbrev pub sb_root_dir_ino : ℕ
sb_root_dir_ino = 24

-- of `inode_entry_t`, whose name comes first,
abbrev pub inode_ino : ℕ
inode_ino = 32

abbrev pub inode_field_size : ℕ
inode_field_size = 36

abbrev pub inode_mode : ℕ
inode_mode = 40

abbrev pub inode_timestamp : ℕ
inode_timestamp = 44

abbrev pub inode_father_ino : ℕ
inode_father_ino = 48

abbrev pub inode_ptr : ℕ
inode_ptr = 52

-- and of the entry `i` of `dir_block_t`.
abbrev pub dentry_ino : ℕ → ℕ
dentry_ino i = 32 * i

abbrev pub dentry_mode : ℕ → ℕ
dentry_mode i = 32 * i + 4

abbrev pub dentry_name : ℕ → ℕ
dentry_name i = 32 * i + 8

-- The globals of kernel/fs/fs.c and kernel/fs/path.c, and the disk. `superblock` holds what lies behind
-- the structure too: the code reads and writes a whole sector there.
pub record Fs (S : Type 0) : Type 0 where
  pub disk : S
  pub superblock : Buffer
  pub inode_map : List ℕ
  pub shell_path_inode : Buffer
  pub shell_path_head : List ℕ
  pub cur_dir : Buffer
  pub fd_ino : ℕ → ℕ
  pub fd_pos : ℕ → ℕ
  pub fd_index : ℕ
