-- ===== src/Fs/Path/Rewrite.antt =====
-- A search in a directory block, and the write of one: kernel/fs/path.c.
use tina.Base.{
  ℕ, zero, suc, ◌+◌, ◌*◌, ◌≤◌, ◌<◌, ◌≡◌, ◌≢◌, ◌⊎◌, inl, inr, sym, subst, ◌∙◌, Bool, true, false,
  arith, lt→ltb, dec_lt, ℕ_discrete, Bool-cases,
}
use tina.Base.Bytes.{Buffer, overlay-inside, overlay-outside}
use tina.Fs.{Device, IsDevice, sector_size, fs_inode_size, fs_inode_table_size, fs_inode_map_base}
use tina.Fs.Disk.{check_ino, inode_read, dir_block_read, dir_block_write}
use tina.Fs.Disk.Layout.{sector_at, inode_at, inode_read-byte, dir_read-byte, dir_write-byte}
use tina.Fs.Path.{first_entry}

-- What a search over the entries from `i` on has found.
abbrev pub FirstEntry : (left i : ℕ) → (ℕ → Bool) → ℕ → Type 0
FirstEntry left i p k =
    ((i ≤ k) × (k < i + left) × (p k ≡ true) × ((j : ℕ) → i ≤ j → j < k → p j ≡ false))
    ⊎ ((k ≡ i + left) × ((j : ℕ) → i ≤ j → j < i + left → p j ≡ false))

pub first_entry-FirstEntry :
    (left i : ℕ) (p : ℕ → Bool) → FirstEntry left i p (first_entry left i p)
unfolding first_entry
first_entry-FirstEntry zero i p = inr (omega arith, λ j lo hi. absurd (omega arith))
first_entry-FirstEntry (suc left) i p = elim (Bool-cases (p i)) [
  | inl e ↦ rw e (inl (omega arith, omega arith, e, λ j lo hi. absurd (omega arith)))
  | inr e ↦ rw e (elim (first_entry-FirstEntry left (i + 1) p) [
    | inl (lo, hi, at, before) ↦
        inl
          (omega arith, omega arith, at, λ j l b. next (first_entry left (i + 1) p) e before j l b)
    | inr (end, all) ↦ inr (
      end ∙ omega arith,
      λ j l b. next (i + suc left) e (λ m lm bm. all m lm (omega arith)) j l b,
    )
  ])
]
  where
    next :
        (k : ℕ)
        → p i ≡ false
        → ((m : ℕ) → i + 1 ≤ m → m < k → p m ≡ false)
        → (j : ℕ) → i ≤ j
        → j < k
        → p j ≡ false
    next k e h j lo hi = elim (ℕ_discrete i j) [
      | yes q ↦ subst (λ m. p m ≡ false) q e
      | no ne ↦ h j (omega arith) hi
    ]

module _ {S : Type 0} (D : Device S) (L : IsDevice D) where
  -- Block `h` is `new` now, and no other block and no inode has changed.
  pub record Rewritten (s : S) (h : ℕ) (new : Buffer) (s' : S) : Type 0 where
    pub own : (buf : Buffer) (a : ℕ) → a < sector_size → dir_block_read D s' buf h a ≡ new a
    pub inodes :
        (dest : Buffer) (m a : ℕ)
        → m < fs_inode_table_size * 8
        → a < fs_inode_size
        → inode_read D s' dest m a ≡ inode_read D s dest m a
    pub blocks :
        (buf : Buffer) (m a : ℕ)
        → m < fs_inode_table_size * 8
        → m ≢ h
        → a < sector_size
        → dir_block_read D s' buf m a ≡ dir_block_read D s buf m a

  -- Disks that differ in the inode map alone, and a write of block `h`.
  pub write-Rewritten :
      (s t : S) (h : ℕ) (new : Buffer)
      → h < fs_inode_table_size * 8
      → ((a : ℕ)
          → (a < sector_at fs_inode_map_base) ⊎ (sector_at (fs_inode_map_base + 8) ≤ a)
          → D.byte t a ≡ D.byte s a)
      → Rewritten s h new (dir_block_write D t new h)
  unfolding check_ino
  write-Rewritten s t h new hh kept = record {
    own = λ buf a l.
        dir_read-byte D L (dir_block_write D t new h) buf h a l
        ∙ dir_write-byte D L t new h (sector_at h + a)
        ∙ overlay-inside (D.byte t) (sector_at h) sector_size new a l;
    inodes = λ dest m a hm l.
        inode_read-byte D L (dir_block_write D t new h) dest m a (ok m hm) l
        ∙ dir_write-byte D L t new h (inode_at m + a)
        ∙ overlay-outside (D.byte t) (sector_at h) sector_size new (inode_at m + a)
            (inr (omega arith))
        ∙ kept (inode_at m + a) (inr (omega arith))
        ∙ sym (inode_read-byte D L s dest m a (ok m hm) l);
    blocks = λ buf m a hm nh l.
        dir_read-byte D L (dir_block_write D t new h) buf m a l
        ∙ dir_write-byte D L t new h (sector_at m + a)
        ∙ overlay-outside (D.byte t) (sector_at h) sector_size new (sector_at m + a)
            (elim (dec_lt m h) [ yes b ↦ inl (omega arith) | no b ↦ inr (omega arith) ])
        ∙ kept (sector_at m + a) (inl (omega arith))
        ∙ sym (dir_read-byte D L s buf m a l);
  }
    where
      ok : (m : ℕ) → m < fs_inode_table_size * 8 → check_ino m ≡ true
      ok m l = lt→ltb m (fs_inode_table_size * 8) l
