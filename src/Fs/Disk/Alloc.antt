-- ===== src/Fs/Disk/Alloc.antt =====
-- The inode map on the disk, and the allocation of inodes: kernel/fs/disk.c.
use tina.Base.{
  ℕ, zero, suc, ◌+◌, ◌-◌, ◌*◌, ◌/◌, ◌%◌, ◌≤◌, ◌<◌, ◌≡◌, ◌≢◌, ◌⊎◌, inl, inr, refl, ap, ap₂, subst,
  ◌∙◌, Option, none, some, List, [], ◌∷◌, map, arith, ◌==◌, dec_lt, if◌then◌else◌, length, get_or,
}
use tina.Base.Bytes.{word-cong, Buffer, word, overlay, overlay-at, overlay-outside}
use tina.Bitmap.{
  IsMap, Found, found, not_found, bad_target, bitmap_search, bitmap_getbit, bitmap_modify,
}
use tina.Bitmap.Modify.{length-modify, modify-IsMap, getbit-modify, get_or-lt}
use tina.Bitmap.Search.{First, search-First}
use tina.Fs.{Device, IsDevice, Fs, sector_size, fs_inode_map_base, fs_inode_table_size}
use tina.Fs.Disk.{
  alloc_found, sector_read, sectors_read, map_bytes, words, inode_map_read, inode_map_write,
  inode_alloc,
}
use tina.Fs.Disk.Layout.{sector_at, sector_read-byte, sectors_write-byte}

words-eq :
    (n : ℕ) (f : Buffer) (o : ℕ) (xs : List ℕ)
    → length xs ≡ n
    → ((i : ℕ) → i < n → word f (o + 4 * i) ≡ get_or xs i 0)
    → words n f o ≡ xs
unfolding words
words-eq zero f o [] e h = refl
words-eq zero f o (x ∷ xs) e h = absurd (omega arith)
words-eq (suc n) f o [] e h = absurd (omega arith)
words-eq (suc n) f o (x ∷ xs) e h =
    let start : o + 4 * 0 ≡ o = omega arith in
    ap₂ (λ y ys. y ∷ ys) (subst (λ a. word f a ≡ x) start (h 0 (omega arith)))
      (words-eq n f (o + 4) xs (omega arith) (λ i l.
        let e : o + 4 * suc i ≡ o + 4 + 4 * i = omega arith in
        subst (λ a. word f a ≡ get_or xs i 0) e (h (suc i) (omega arith))))

-- The bytes of a word of the map make that word.
word-map_bytes : (map : List ℕ) (i : ℕ) → IsMap map → word (map_bytes map) (4 * i) ≡ get_or map i 0
unfolding word map_bytes
word-map_bytes map i w =
    let b0 : 4 * i / 4 ≡ i = omega arith in
    let b1 : (4 * i + 1) / 4 ≡ i = omega arith in
    let b2 : (4 * i + 2) / 4 ≡ i = omega arith in
    let b3 : (4 * i + 3) / 4 ≡ i = omega arith in
    let c0 : 4 * i % 4 ≡ 0 = omega arith in
    let c1 : (4 * i + 1) % 4 ≡ 1 = omega arith in
    let c2 : (4 * i + 2) % 4 ≡ 2 = omega arith in
    let c3 : (4 * i + 3) % 4 ≡ 3 = omega arith in
    rw (b0, b1, b2, b3, c0, c1, c2, c3) (omega (arith, get_or-lt map i w))

module _ {S : Type 0} (D : Device S) (L : IsDevice D) where
  sectors_read-before :
      (left i : ℕ) (s : S) (dest : Buffer) (k c : ℕ)
      → c < i * sector_size
      → sectors_read D left i s dest k c ≡ dest c
  unfolding sectors_read
  sectors_read-before zero i s dest k c h = refl
  sectors_read-before (suc left) i s dest k c h =
      sectors_read-before left (i + 1) s
        (overlay dest (i * sector_size) sector_size (sector_read D s (k + i))) k c (omega arith)
      ∙ overlay-outside dest (i * sector_size) sector_size (sector_read D s (k + i)) c (inl h)

  sectors_read-byte :
      (left i : ℕ) (s : S) (dest : Buffer) (k c : ℕ)
      → i * sector_size ≤ c
      → c < (i + left) * sector_size
      → sectors_read D left i s dest k c ≡ D.byte s (sector_at k + c)
  unfolding sectors_read
  sectors_read-byte zero i s dest k c h l = absurd (omega arith)
  sectors_read-byte (suc left) i s dest k c h l = elim (dec_lt c ((i + 1) * sector_size)) [
    | yes here ↦
        let at : sector_at (k + i) + (c - i * sector_size) ≡ sector_at k + c = omega arith in
        sectors_read-before left (i + 1) s
          (overlay dest (i * sector_size) sector_size (sector_read D s (k + i))) k c here
        ∙ overlay-at dest (i * sector_size) sector_size (sector_read D s (k + i)) c h (omega arith)
        ∙ sector_read-byte D L s (k + i) (c - i * sector_size) (omega arith)
        ∙ ap (D.byte s) at
    | no g ↦
        sectors_read-byte left (i + 1) s
          (overlay dest (i * sector_size) sector_size (sector_read D s (k + i))) k c (omega arith)
          (omega arith)
  ]

  map_byte :
      (fs : Fs S) (s : S) (c : ℕ)
      → s ≡ (inode_map_write D fs).disk
      → c < 0x1000
      → D.byte s (sector_at fs_inode_map_base + c) ≡ map_bytes fs.inode_map c
  unfolding inode_map_write
  map_byte fs s c e h =
      let from : 0 * sector_size
            + (sector_at fs_inode_map_base + c - sector_at (fs_inode_map_base + 0))
          ≡ c =
        omega arith in
      ap (λ t. D.byte t (sector_at fs_inode_map_base + c)) e
      ∙ sectors_write-byte D L 8 0 fs.disk (map_bytes fs.inode_map) fs_inode_map_base
          (sector_at fs_inode_map_base + c)
      ∙ overlay-at (D.byte fs.disk) (sector_at (fs_inode_map_base + 0)) (8 * sector_size)
          (λ b. map_bytes fs.inode_map (0 * sector_size + b)) (sector_at fs_inode_map_base + c)
          (omega arith) (omega arith)
      ∙ ap (map_bytes fs.inode_map) from

  -- A valid inode map of 0x400 words is what `inode_map_read` reads from a disk that has the bytes that
  -- `inode_map_write` has written, whatever the memory held.
  pub map_read-kept :
      (fs fs' : Fs S)
      → IsMap fs.inode_map
      → length fs.inode_map ≡ 0x400
      → ((c : ℕ)
          → c < 0x1000
          → D.byte fs'.disk (sector_at fs_inode_map_base + c)
            ≡ D.byte (inode_map_write D fs).disk (sector_at fs_inode_map_base + c))
      → (inode_map_read D fs').inode_map ≡ fs.inode_map
  unfolding inode_map_read
  map_read-kept fs fs' w l e = words-eq 0x400 read 0 fs.inode_map l (λ i h.
      let at : 0 + 4 * i ≡ 4 * i = omega arith in
      ap (word read) at
      ∙ word-cong read (map_bytes fs.inode_map) (4 * i) (λ b small.
        sectors_read-byte 8 0 fs'.disk (map_bytes fs'.inode_map) fs_inode_map_base (4 * i + b)
          (omega arith) (omega arith)
        ∙ e (4 * i + b) (omega arith)
        ∙ map_byte fs (inode_map_write D fs).disk (4 * i + b) refl (omega arith))
      ∙ word-map_bytes fs.inode_map i w)
    where
      read : Buffer
      read = sectors_read D 8 0 fs'.disk (map_bytes fs'.inode_map) fs_inode_map_base

  pub map_read-write :
      (fs fs' : Fs S)
      → IsMap fs.inode_map
      → length fs.inode_map ≡ 0x400
      → fs'.disk ≡ (inode_map_write D fs).disk
      → (inode_map_read D fs').inode_map ≡ fs.inode_map
  map_read-write fs fs' w l e =
      map_read-kept fs fs' w l (λ c h. ap (λ t. D.byte t (sector_at fs_inode_map_base + c)) e)

  -- What the write of the inode map leaves as it is.
  pub map_write-outside :
      (fs : Fs S) (a : ℕ)
      → (a < sector_at fs_inode_map_base) ⊎ (sector_at (fs_inode_map_base + 8) ≤ a)
      → D.byte (inode_map_write D fs).disk a ≡ D.byte fs.disk a
  unfolding inode_map_write
  map_write-outside fs a h =
      sectors_write-byte D L 8 0 fs.disk (map_bytes fs.inode_map) fs_inode_map_base a
      ∙ overlay-outside (D.byte fs.disk) (sector_at (fs_inode_map_base + 0)) (8 * sector_size)
          (λ b. map_bytes fs.inode_map (0 * sector_size + b)) a
          (elim h [ inl b ↦ inl (omega arith) | inr b ↦ inr (omega arith) ])

  -- The inode `i` was free and is taken now, on the disk too, and no block and no inode has changed.
  pub record Allocated (fs : Fs S) (i : ℕ) (fs' : Fs S) : Type 0 where
    pub small : i < fs_inode_table_size * 8
    pub first : (k : ℕ) → k < i → bitmap_getbit fs.inode_map k ≢ 0
    pub free : bitmap_getbit fs.inode_map i ≡ 0
    pub bits :
        (k : ℕ)
        → bitmap_getbit fs'.inode_map k ≡ (if i == k then 1 else bitmap_getbit fs.inode_map k)
    pub valid : IsMap fs'.inode_map
    pub length_map : length fs'.inode_map ≡ length fs.inode_map
    pub stored : (inode_map_read D fs').inode_map ≡ fs'.inode_map
    pub kept :
        (a : ℕ)
        → (a < sector_at fs_inode_map_base) ⊎ (sector_at (fs_inode_map_base + 8) ≤ a)
        → D.byte fs'.disk a ≡ D.byte fs.disk a
    pub same : fs' ≡ record fs { disk = fs'.disk; inode_map = fs'.inode_map }

  -- The result of `inode_alloc`.
  abbrev pub IsAlloc : Fs S → Option (ℕ × Fs S) → Type 0
  IsAlloc fs none = (k : ℕ) → k < fs_inode_table_size * 8 → bitmap_getbit fs.inode_map k ≢ 0
  IsAlloc fs (some (i, fs')) = Allocated fs i fs'

  alloc_found-IsAlloc :
      (fs : Fs S)
      → IsMap fs.inode_map
      → length fs.inode_map ≡ 0x400
      → (r : Found) → First (bitmap_getbit fs.inode_map) 0 0 (fs_inode_table_size * 8) r
      → IsAlloc fs (alloc_found D fs r)
  unfolding alloc_found inode_map_write
  alloc_found-IsAlloc fs w l (found i) h = record {
    small = h.1;
    first = λ k l. h.3 k (omega arith) l;
    free = h.2;
    bits = λ k. getbit-modify fs.inode_map 1 i k w (omega arith) (omega (arith, h.1));
    valid = modify-IsMap fs.inode_map 1 i w;
    length_map = length-modify fs.inode_map 1 i;
    stored =
        map_read-write taken (inode_map_write D taken) (modify-IsMap fs.inode_map 1 i w)
          (length-modify fs.inode_map 1 i ∙ l) refl;
    kept = λ a o. map_write-outside taken a o;
    same = refl;
  }
    where
      taken : Fs S
      taken = record fs { inode_map = (bitmap_modify fs.inode_map 1 i).0 }
  alloc_found-IsAlloc fs w l not_found h = λ k b. h k (omega arith) b
  alloc_found-IsAlloc fs w l bad_target h = absurd h

  -- With a valid inode map of 0x400 words, `inode_alloc` gives no result only if every inode is taken;
  -- else it gives the first free inode, that bit alone is set, the map is valid and the one that is on
  -- the disk, and neither blocks nor inodes have changed.
  pub inode_alloc-IsAlloc :
      (fs : Fs S) → IsMap fs.inode_map → length fs.inode_map ≡ 0x400 → IsAlloc fs (inode_alloc D fs)
  unfolding inode_alloc
  inode_alloc-IsAlloc fs w l =
      alloc_found-IsAlloc fs w l (bitmap_search fs.inode_map 0 0x8000)
        (search-First fs.inode_map 0 0x8000 (omega arith))
