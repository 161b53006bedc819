-- ===== src/Fs/Format/Entry.antt =====
-- An entry of a directory block, and the fields of a new inode: kernel/fs/fs.c.
use tina.Base.{
  ℕ, ◌+◌, ◌*◌, ◌^◌, ◌≤◌, ◌<◌, ◌≡◌, ◌≢◌, ◌⊎◌, inl, inr, subst, ◌∙◌, true, List, arith, dec_lt,
  length,
}
use tina.Base.Bytes.{
  Buffer, word, put_word, put_string, is_string, word-put_word, word-put_ne, word-cong,
  put_word-outside, put_string-outside, is_string-put, is_string-cong,
}
use tina.Fs.{
  fs_data_base, fs_block_size, inode_ino, inode_field_size, inode_mode, inode_timestamp,
  inode_father_ino, inode_ptr, dentry_ino, dentry_mode, dentry_name,
}
use tina.Fs.Format.{put_entry, inode_init}

-- A word outside the place of a string.
pub word-put_string :
    (f : Buffer) (o : ℕ) (cs : List ℕ) (p : ℕ)
    → (p + 4 ≤ o) ⊎ (o + length cs < p)
    → word (put_string f o cs) p ≡ word f p
word-put_string f o cs p h = word-cong (put_string f o cs) f p (λ i l.
    put_string-outside f o cs (p + i)
      (elim h [ inl b ↦ inl (omega arith) | inr b ↦ inr (omega arith) ]))

-- The entry `i` of a block.
pub record IsEntry (db : Buffer) (i n m : ℕ) (cs : List ℕ) : Type 0 where
  pub ino : word db (dentry_ino i) ≡ n
  pub mode : word db (dentry_mode i) ≡ m
  pub name : is_string db (dentry_name i) cs ≡ true

-- The name fits in its field.
abbrev pub FitsEntry : List ℕ → Type 0
FitsEntry name = length name < 24

pub put_entry-IsEntry :
    (db : Buffer) (i ino mode : ℕ) (name : List ℕ)
    → ino < 2 ^ 32
    → mode < 2 ^ 32
    → IsEntry (put_entry db i ino mode name) i ino mode name
unfolding put_entry
put_entry-IsEntry db i ino mode name hi hm = record {
  ino =
      word-put_string _ (dentry_name i) name (dentry_ino i) (inl (omega arith))
      ∙ word-put_ne (put_word db (dentry_ino i) ino) (dentry_mode i) mode (dentry_ino i)
          (inl (omega arith))
      ∙ word-put_word db (dentry_ino i) ino hi;
  mode =
      word-put_string _ (dentry_name i) name (dentry_mode i) (inl (omega arith))
      ∙ word-put_word (put_word db (dentry_ino i) ino) (dentry_mode i) mode hm;
  name =
      is_string-put (put_word (put_word db (dentry_ino i) ino) (dentry_mode i) mode) (dentry_name i)
        name;
}

-- The bytes of the other entries are kept.
pub put_entry-outside :
    (db : Buffer) (i ino mode : ℕ) (name : List ℕ) (a : ℕ)
    → FitsEntry name
    → (a < 32 * i) ⊎ (32 * i + 32 ≤ a)
    → put_entry db i ino mode name a ≡ db a
unfolding put_entry
put_entry-outside db i ino mode name a fits h =
    put_string-outside (put_word (put_word db (dentry_ino i) ino) (dentry_mode i) mode)
      (dentry_name i) name a (elim h [ inl b ↦ inl (omega arith) | inr b ↦ inr (omega arith) ])
    ∙ put_word-outside (put_word db (dentry_ino i) ino) (dentry_mode i) mode a
        (elim h [ inl b ↦ inl (omega arith) | inr b ↦ inr (omega arith) ])
    ∙ put_word-outside db (dentry_ino i) ino a
        (elim h [ inl b ↦ inl (omega arith) | inr b ↦ inr (omega arith) ])

-- The fields of a new inode.
pub record IsInode (inode : Buffer) (n m f : ℕ) : Type 0 where
  pub ino : word inode inode_ino ≡ n
  pub mode : word inode inode_mode ≡ m
  pub father : word inode inode_father_ino ≡ f

pub init-IsInode :
    (inode0 : Buffer) (ino mode : ℕ) (name : List ℕ) (father now : ℕ)
    → ino < 2 ^ 32
    → mode < 2 ^ 32
    → father < 2 ^ 32
    → length name < 32
    → IsInode (inode_init inode0 ino mode name father now) ino mode father
unfolding inode_init
init-IsInode inode0 ino mode name father now hi hm hf fits = record {
  ino =
      tail inode_ino (omega arith) (inl (omega arith)) (inl (omega arith)) (inl (omega arith))
      ∙ word-put_ne (put_word (put_word inode0 inode_father_ino father) inode_ino ino) inode_mode
          mode inode_ino (inl (omega arith))
      ∙ word-put_word (put_word inode0 inode_father_ino father) inode_ino ino hi;
  mode =
      tail inode_mode (omega arith) (inl (omega arith)) (inr (omega arith)) (inl (omega arith))
      ∙ word-put_word (put_word (put_word inode0 inode_father_ino father) inode_ino ino) inode_mode
          mode hm;
  father =
      tail inode_father_ino (omega arith) (inl (omega arith)) (inr (omega arith))
        (inr (omega arith))
      ∙ word-put_ne (put_word (put_word inode0 inode_father_ino father) inode_ino ino) inode_mode
          mode inode_father_ino (inr (omega arith))
      ∙ word-put_ne (put_word inode0 inode_father_ino father) inode_ino ino inode_father_ino
          (inr (omega arith))
      ∙ word-put_word inode0 inode_father_ino father hf;
}
  where
    numbers : Buffer
    numbers =
        put_word (put_word (put_word inode0 inode_father_ino father) inode_ino ino) inode_mode mode

    named : Buffer
    named = put_string numbers 0 name

    placed : Buffer
    placed = put_word named inode_ptr (fs_data_base + ino * fs_block_size)

    -- A word from 32 on that none of the last three assignments touches.
    tail :
        (p : ℕ)
        → 32 ≤ p
        → (p + 4 ≤ inode_ptr) ⊎ (inode_ptr + 4 ≤ p)
        → (p + 4 ≤ inode_field_size) ⊎ (inode_field_size + 4 ≤ p)
        → (p + 4 ≤ inode_timestamp) ⊎ (inode_timestamp + 4 ≤ p)
        → word (inode_init inode0 ino mode name father now) p ≡ word numbers p
    tail p h a b c =
        word-put_ne (put_word placed inode_field_size fs_block_size) inode_timestamp now p c
        ∙ word-put_ne placed inode_field_size fs_block_size p b
        ∙ word-put_ne named inode_ptr (fs_data_base + ino * fs_block_size) p a
        ∙ word-put_string numbers 0 name p (inr (omega arith))

-- Buffers that agree on the bytes of the entry.
pub IsEntry-cong :
    (f g : Buffer) (i n m : ℕ) (cs : List ℕ)
    → length cs < 24
    → ((a : ℕ) → a < 32 → f (32 * i + a) ≡ g (32 * i + a))
    → IsEntry g i n m cs
    → IsEntry f i n m cs
IsEntry-cong f g i n m cs fits same e = record {
  ino = word-cong f g (dentry_ino i) (λ a l. same a (omega arith)) ∙ e.ino;
  mode = word-cong f g (dentry_mode i) (λ a l. at 4 a (omega arith)) ∙ e.mode;
  name = is_string-cong f g (dentry_name i) cs (λ a l. at 8 a (omega arith)) ∙ e.name;
}
  where
    at : (d a : ℕ) → d + a < 32 → f (32 * i + d + a) ≡ g (32 * i + d + a)
    at d a l =
        let sum : 32 * i + (d + a) ≡ 32 * i + d + a = omega arith in
        subst (λ b. f b ≡ g b) sum (same (d + a) l)

pub IsEntry-other :
    (db : Buffer) (i n m : ℕ) (cs : List ℕ) (j ino mode : ℕ) (name : List ℕ)
    → i ≢ j
    → length cs < 24
    → FitsEntry name
    → IsEntry db i n m cs
    → IsEntry (put_entry db j ino mode name) i n m cs
IsEntry-other db i n m cs j ino mode name ne fits room e =
    IsEntry-cong (put_entry db j ino mode name) db i n m cs fits
      (λ a l.
        put_entry-outside db j ino mode name (32 * i + a) room
          (elim (dec_lt i j) [ yes b ↦ inl (omega arith) | no b ↦ inr (omega arith) ]))
      e

pub IsInode-cong :
    (f g : Buffer) (n m fa : ℕ)
    → ((a : ℕ) → a < 64 → f a ≡ g a)
    → IsInode g n m fa
    → IsInode f n m fa
IsInode-cong f g n m fa same e = record {
  ino = word-cong f g inode_ino (λ a l. same (inode_ino + a) (omega arith)) ∙ e.ino;
  mode = word-cong f g inode_mode (λ a l. same (inode_mode + a) (omega arith)) ∙ e.mode;
  father =
      word-cong f g inode_father_ino (λ a l. same (inode_father_ino + a) (omega arith)) ∙ e.father;
}
