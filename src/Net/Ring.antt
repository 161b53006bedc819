-- ===== src/Net/Ring.antt =====
-- The descriptors form a ring of 64 in memory: drivers/mac_support.c.
use tina.Base.{
  ℕ, ◌+◌, ◌*◌, ◌%◌, ◌^◌, ◌≤◌, ◌<◌, ◌≡◌, ◌⊎◌, sym, ap₂, subst, arith, ◌==◌, ==_iff, ==_ne,
  ℕ_discrete, if◌then◌else◌,
}
use tina.Base.Bits.{low-lt, bit_and-mask}
use tina.Net.{
  Board, Places, Mac, Desc, pnum, phy, owned, send_addr, recv_addr, next_desc, send_desc, recv_desc,
  send_desc_init, recv_desc_init,
}
use tina.Net.Ram.{IsRam, Holds, IsDesc, Holds-kept, desc_loop-other, desc_loop-Holds}

-- Descriptor `j` of a ring: its buffer of 1024 bytes, and the next descriptor, the first behind the last.
abbrev pub ring_desc : (base buffers status flags last : ℕ) → (j : ℕ) → Desc
ring_desc base buffers status flags last j = record {
  tdes0 = status;
  tdes1 = if j == 63 then last else flags;
  tdes2 = buffers + 1024 * j;
  tdes3 = phy (base + 16 * ((j + 1) % 64));
}

next_desc_lem : (base j : ℕ) → j < pnum → next_desc base j ≡ base + 16 * ((j + 1) % 64)
next_desc_lem base j l = elim (ℕ_discrete j 63) [
  | yes e ↦ rw ((==_iff j 63).1 e) (omega (arith, e))
  | no ne ↦ rw (==_ne j 63 ne) (omega (arith, ne, l))
]

abbrev made_desc : (base at : ℕ) → (status flags last next : ℕ) → (j : ℕ) → Desc
made_desc base at status flags last next j = record {
  tdes0 = status;
  tdes1 = if j == 63 then last else flags;
  tdes2 = at;
  tdes3 = phy next;
}

made_desc-ring :
    (base buffers size status flags last j : ℕ)
    → j < pnum
    → size ≡ 1024
    → buffers + 1024 * 64 ≤ 2 ^ 32
    → made_desc base ((buffers + j * size) % 2 ^ 32) status flags last (next_desc base j) j
      ≡ ring_desc base buffers status flags last j
made_desc-ring base buffers size status flags last j l e b =
    let at : (buffers + j * size) % 2 ^ 32 ≡ buffers + 1024 * j = rw e (omega arith) in
    ap₂ (λ at next. made_desc base at status flags last next j) at (next_desc_lem base j l)

made_desc-IsDesc :
    (base at status flags last next j : ℕ)
    → at < 2 ^ 32
    → status < 2 ^ 32
    → flags < 2 ^ 32
    → last < 2 ^ 32
    → IsDesc (made_desc base at status flags last next j)
made_desc-IsDesc base at status flags last next j a s f l = record {
  tdes0 = s;
  tdes1 = ground (arith, f, l);
  tdes2 = a;
  tdes3 = subst (λ n. n < 2 ^ 32) (sym (bit_and-mask 29 next)) (omega (arith, low-lt 29 next));
}

-- The places of the two arrays: aligned, inside the memory, and apart.
pub record ArePlaced (lo hi : ℕ) (a : Places) : Type 0 where
  pub send_above : lo ≤ a.dma_send_desc
  pub send_below : a.dma_send_desc + 1024 ≤ hi
  pub send_aligned : a.dma_send_desc % 4 ≡ 0
  pub recv_above : lo ≤ a.dma_recv_desc
  pub recv_below : a.dma_recv_desc + 1024 ≤ hi
  pub recv_aligned : a.dma_recv_desc % 4 ≡ 0
  pub apart :
      (a.dma_send_desc + 1024 ≤ a.dma_recv_desc) ⊎ (a.dma_recv_desc + 1024 ≤ a.dma_send_desc)

-- Descriptor `j` of either array, after both functions.
abbrev pub AreRings : {S : Type 0} (B : Board S) (a : Places) (j : ℕ) (s : S) → Type 0
AreRings B a j s =
    Holds B s (a.dma_send_desc + 16 * j)
      (ring_desc a.dma_send_desc 0xa0830000 0 0x61000400 0x63000400 j)
    × Holds B s (a.dma_recv_desc + 16 * j)
        (ring_desc a.dma_recv_desc 0xa0820000 0x80000000 0x01000400 0x03000400 j)

-- On a bus whose words between two addresses are memory, with the two arrays of descriptors aligned,
-- inside it and apart, and with packages of 1024 bytes, `send_desc_init` and then `recv_desc_init`
-- leave two rings: descriptor j of either has buffer j of 1024 bytes and the physical address of
-- descriptor (j + 1) % 64, the status 0 to send and 0x80000000 to receive, and the mark of the last in
-- descriptor 63 alone.
pub rings_lem :
    {S : Type 0} (B : Board S) {lo hi : ℕ} (M : IsRam B lo hi) (a : Places) (s : S) (mac mac' : Mac)
    → ArePlaced lo hi a
    → mac.psize ≡ 1024
    → mac'.psize ≡ 1024
    → (j : ℕ) → j < 64
    → AreRings B a j (recv_desc_init B a (send_desc_init B a s mac).0 mac').0
unfolding send_desc_init recv_desc_init send_desc recv_desc
rings_lem {S} B {lo} {hi} M a s mac mac' p e e' j l = (
  subst (λ d. Holds B last (a.dma_send_desc + 16 * j) d)
      (made_desc-ring a.dma_send_desc send_addr mac.psize 0 0x61000400 0x63000400 j l e
        (omega arith))
      (Holds-kept B M {s = first} (omega (arith, p.send_above)) (omega (arith, p.send_below, l))
        (omega (arith, p.send_aligned))
        (λ b pb lb hb.
          desc_loop-other B M pnum 0 a.dma_recv_desc _ first p.recv_above p.recv_below
            p.recv_aligned pb (ground (arith, p.apart, lb, hb, l)))
        (desc_loop-Holds B M pnum 0 a.dma_send_desc _ s p.send_above p.send_below p.send_aligned
          (λ i.
            made_desc-IsDesc a.dma_send_desc _ 0 0x61000400 0x63000400 (next_desc a.dma_send_desc i)
              i (omega arith) (omega arith) (omega arith) (omega arith))
          j (omega arith) l)),
  subst (λ d. Holds B last (a.dma_recv_desc + 16 * j) d)
      (made_desc-ring a.dma_recv_desc recv_addr mac'.psize owned 0x01000400 0x03000400 j l e'
        (omega arith))
      (desc_loop-Holds B M pnum 0 a.dma_recv_desc _ first p.recv_above p.recv_below p.recv_aligned
        (λ i.
          made_desc-IsDesc a.dma_recv_desc _ owned 0x01000400 0x03000400
            (next_desc a.dma_recv_desc i) i (omega arith) (omega arith) (omega arith) (omega arith))
        j (omega arith) l),
)
  where
    first : S
    first = (send_desc_init B a s mac).0

    last : S
    last = (recv_desc_init B a first mac').0
