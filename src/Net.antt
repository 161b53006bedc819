-- ===== src/Net.antt =====
-- The network driver: drivers/mac.c, drivers/mac_support.c and drivers/mac.h. The bus is a parameter: a load
-- or a store of a word is an access to memory or to a register of the board, where a load may have an
-- effect too. What is only printed is left out.
pub mod Transfer
pub mod Tasks
pub mod Ram
pub mod Ring
pub mod Wake
mod Tests
use tina.Base.{
  bit_and, bit_or, ℕ, zero, suc, ◌+◌, ◌-◌, ◌*◌, ◌/◌, ◌%◌, ◌^◌, ◌≤◌, ◌<◌, min, max, ◌≡◌, ◌≢◌, ◌↔◌,
  ◌⊎◌, inl, inr, refl, sym, ap, ap₂, subst, ◌∙◌, fun_ext, Bool, true, false, not, ◌&&◌, ◌||◌,
  false≢true, Option, none, some, List, [], ◌∷◌, ◌++◌, map, append-nil, append_assoc, arith, ltb,
  leb, ◌==◌, ==_iff, ==_ne, ltb→lt, lt→ltb, leb_lt, leb_le, ltb_le, dec_lt, ℕ_discrete,
  if◌then◌else◌, Bool-cases, Option-cases, update, update-ne, update-eq, length, get_or, set, take,
  drop, replicate, All, has, ◌∈◌, ◌∉◌, Distinct, has-append, not-mem-cons, not-mem-append,
  mem_middle, mem-append_left, length-append, length-set, get_or-set, length-replicate,
  get_or-replicate,
}
use tina.Base.Poll.{poll}

pub record Board (S : Type 0) : Type 0 where
  pub load : S → (addr : ℕ) → ℕ × S
  pub store : S → (addr word : ℕ) → S
  pub store_byte : S → (addr word : ℕ) → S

-- The addresses of the arrays of descriptors, and the queue of the tasks that wait for packages.
pub record Places : Type 0 where
  pub dma_recv_desc : ℕ
  pub dma_send_desc : ℕ
  pub recv_block_queue : ℕ

abbrev pub gmac_base_addr : ℕ
gmac_base_addr = 0xbfe10000

abbrev pub dma_base_addr : ℕ
dma_base_addr = 0xbfe11000

abbrev pub psize : ℕ
psize = 256

abbrev pub pnum : ℕ
pnum = 64

abbrev pub send_addr : ℕ
send_addr = 0xa0830000

abbrev pub recv_addr : ℕ
recv_addr = 0xa0820000

-- The physical address of an address of the kernel.
abbrev pub phy : ℕ → ℕ
phy addr = bit_and addr 0x1fffffff

abbrev pub int1_en_addr : ℕ
int1_en_addr = 0xbfd0105c

abbrev pub int1_clr_addr : ℕ
int1_clr_addr = 0xbfd01064

abbrev pub int1_pol_addr : ℕ
int1_pol_addr = 0xbfd01068

abbrev pub int1_edge_addr : ℕ
int1_edge_addr = 0xbfd0106c

abbrev pub dma_status : ℕ
dma_status = 0x14

abbrev pub dma_control : ℕ
dma_control = 0x18

abbrev pub dma_interrupt : ℕ
dma_interrupt = 0x1c

abbrev pub gmac_addr0_high : ℕ
gmac_addr0_high = 0x40

abbrev pub gmac_addr0_low : ℕ
gmac_addr0_low = 0x44

-- The bit of a descriptor that the board owns.
abbrev pub owned : ℕ
owned = 0x80000000

-- `desc_t`
pub record Desc : Type 0 where
  pub tdes0 : ℕ
  pub tdes1 : ℕ
  pub tdes2 : ℕ
  pub tdes3 : ℕ

-- `mac_t`
pub record Mac : Type 0 where
  pub psize : ℕ
  pub pnum : ℕ
  pub mac_addr : ℕ
  pub dma_addr : ℕ
  pub saddr : ℕ
  pub daddr : ℕ
  pub saddr_phy : ℕ
  pub daddr_phy : ℕ
  pub td : ℕ
  pub rd : ℕ
  pub td_phy : ℕ
  pub rd_phy : ℕ

-- The descriptor behind descriptor `i` of an array, the first behind the last.
abbrev pub next_desc : (base i : ℕ) → ℕ
next_desc base i = if i == pnum - 1 then base else base + 16 * (i + 1)

unfoldable pub send_desc : (base size : ℕ) → (i : ℕ) → Desc
send_desc base size i = record {
  tdes0 = 0;
  tdes1 = if i == pnum - 1 then 0x63000400 else 0x61000400;
  tdes2 = (send_addr + i * size) % 2 ^ 32;
  tdes3 = phy (next_desc base i);
}

unfoldable pub recv_desc : (base size : ℕ) → (i : ℕ) → Desc
recv_desc base size i = record {
  tdes0 = owned;
  tdes1 = if i == pnum - 1 then 0x03000400 else 0x01000400;
  tdes2 = (recv_addr + i * size) % 2 ^ 32;
  tdes3 = phy (next_desc base i);
}

module _ {S : Type 0} (B : Board S) where
  unfoldable pub clear_interrupt : S → S
  clear_interrupt s =
      let (word, s') = B.load s (dma_base_addr + dma_status) in
      B.store s' (dma_base_addr + dma_status) word

  -- The stores of one round, in their order.
  unfoldable pub store_desc : S → (at : ℕ) → Desc → S
  store_desc s at d =
      B.store (B.store (B.store (B.store s at d.tdes0) (at + 8) d.tdes2) (at + 4) d.tdes1) (at + 12)
        d.tdes3

  unfoldable pub desc_loop : (left i base : ℕ) → (ℕ → Desc) → S → S
  desc_loop zero i base d s = s
  desc_loop (suc left) i base d s =
      desc_loop left (i + 1) base d (store_desc s (base + 16 * i) (d i))

  unfoldable pub send_desc_init : Places → S → Mac → S × Mac
  send_desc_init a s mac = (
    desc_loop pnum 0 a.dma_send_desc (send_desc a.dma_send_desc mac.psize) s,
    record mac {
      saddr = send_addr;
      saddr_phy = phy send_addr;
      td = a.dma_send_desc;
      td_phy = phy a.dma_send_desc;
    },
  )

  unfoldable pub recv_desc_init : Places → S → Mac → S × Mac
  recv_desc_init a s mac = (
    desc_loop pnum 0 a.dma_recv_desc (recv_desc a.dma_recv_desc mac.psize) s,
    record mac {
      daddr = recv_addr;
      daddr_phy = phy recv_addr;
      rd = a.dma_recv_desc;
      rd_phy = phy a.dma_recv_desc;
    },
  )

  -- `|=` on a word of the bus.
  unfoldable pub or_word : S → (addr bits : ℕ) → S
  or_word s addr bits = let (word, s') = B.load s addr in B.store s' addr (bit_or word bits)

  unfoldable pub mii_dul_force : S → Mac → S
  mii_dul_force s mac =
      or_word (or_word (B.store s mac.dma_addr 0) mac.mac_addr (bit_or 0xc800 (2 ^ 8)))
        (mac.mac_addr + 4) 0x80000001

  unfoldable pub dma_control_init : S → Mac → (init_value : ℕ) → S
  dma_control_init s mac init_value = B.store s (mac.dma_addr + dma_control) init_value
