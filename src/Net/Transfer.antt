-- ===== src/Net/Transfer.antt =====
-- The operations of drivers/mac.c on the bus and the scheduler. A wait for the board runs on fuel.
use tina.Base.{
  bit_and, bit_or, ℕ, zero, suc, ◌+◌, ◌-◌, ◌*◌, ◌/◌, ◌%◌, ◌^◌, Bool, true, false, not, Option, none,
  some, List, [], ◌∷◌, ◌++◌, ◌==◌, if◌then◌else◌, replicate,
}
use tina.Base.Poll.{poll}
use tina.Kernel.Outcome.{Outcome, ok, ◌>>=◌}
use tina.Kernel.{Kernel}
use tina.Sched.{do_block, do_unblock_all}
use tina.Net.{
  Board, Places, Mac, gmac_base_addr, dma_base_addr, psize, pnum, int1_en_addr, int1_clr_addr,
  int1_pol_addr, int1_edge_addr, dma_control, dma_interrupt, gmac_addr0_high, gmac_addr0_low, owned,
  clear_interrupt, or_word,
}

-- The packet in `buffer`, 22 words and zeros up to `PSIZE`.
abbrev pub packet : List ℕ
packet =
    (0xffffffff ∷ 0x5500ffff ∷ 0xf77db57d ∷ 0x00450008 ∷ 0x0000d400 ∷ 0x11ff0040 ∷ 0xa8c073d8
      ∷ 0x00e00101 ∷ 0xe914fb00 ∷ 0x0004e914 ∷ 0x0000 ∷ 0x005e0001 ∷ 0x2300fb00 ∷ 0x84b7f28b
      ∷ 0x00450008 ∷ 0x0000d400 ∷ 0x11ff0040 ∷ 0xa8c073d8 ∷ 0x00e00101 ∷ 0xe914fb00 ∷ 0x0801e914
      ∷ 0x0000 ∷ [])
    ++ replicate (psize - 22) 0

-- The bytes of words in memory, the low one first.
unfoldable pub word_bytes : List ℕ → List ℕ
word_bytes [] = []
word_bytes (w ∷ ws) =
    w % 2 ^ 8 ∷ w / 2 ^ 8 % 2 ^ 8 ∷ w / 2 ^ 16 % 2 ^ 8 ∷ w / 2 ^ 24 % 2 ^ 8 ∷ word_bytes ws

-- The six bytes of an address.
abbrev pub mac_bytes : (low high : ℕ) → List ℕ
mac_bytes low high =
    bit_and low 0xff
    ∷ bit_and (low / 2 ^ 8) 0xff
    ∷ bit_and (low / 2 ^ 16) 0xff
    ∷ bit_and (low / 2 ^ 24) 0xff
    ∷ bit_and high 0xff
    ∷ bit_and (high / 2 ^ 8) 0xff
    ∷ []

-- What follows a wait, if it ends.
unfoldable pub and_then {ℓ} : {A B : Type ℓ} → Option A → (A → Option B) → Option B
and_then none f = none
and_then (some a) f = f a

module _ {S : Type 0} (B : Board S) where
  unfoldable pub gmac_get_mac_addr : S → List ℕ × S
  gmac_get_mac_addr s =
      let (low, s1) = B.load s (gmac_base_addr + gmac_addr0_low) in
      let (high, s2) = B.load s1 (gmac_base_addr + gmac_addr0_high) in (mac_bytes low high, s2)

  unfoldable pub irq_enable : S → S
  irq_enable s = or_word B s int1_en_addr 0x08

  -- A test of the loop of `s_reset`: another store of 1 while the bit is set. The loop on `time` only waits.
  unfoldable pub still_resetting : Mac → S → Bool × S
  still_resetting mac s =
      let (word, s') = B.load s mac.dma_addr in
      if bit_and word 1 == 0 then (false, s') else (true, B.store s' mac.dma_addr 1)

  unfoldable pub s_reset : (fuel : ℕ) → Mac → S → Option S
  s_reset fuel mac s = poll fuel (still_resetting mac) (B.store s mac.dma_addr 1)

  unfoldable pub disable_interrupt_all : Mac → S → S
  disable_interrupt_all mac s = B.store s (mac.dma_addr + dma_interrupt) 0

  -- The address 00:55:7b:b5:7d:f7.
  unfoldable pub set_mac_addr : Mac → S → S
  set_mac_addr mac s =
      B.store (B.store s (mac.mac_addr + 0x40) (bit_or (0xf7 * 2 ^ 8) 0x7d)) (mac.mac_addr + 0x44)
        (bit_or (bit_or (bit_or (0xb5 * 2 ^ 24) (0x7b * 2 ^ 16)) (0x55 * 2 ^ 8)) 0x00)

  unfoldable pub do_init_mac : (fuel : ℕ) → Mac → S → Option S
  do_init_mac fuel on_stack s =
      let mac = record on_stack {
        mac_addr = gmac_base_addr;
        dma_addr = dma_base_addr;
        psize = psize * 4;
        pnum = pnum;
      } in
      and_then (s_reset fuel mac (B.store s 0xbfd00420 0x8000)) (λ s'. some (
        B.store
          (B.store
            (B.store (set_mac_addr mac (disable_interrupt_all mac s')) int1_clr_addr 0xffffffff)
            int1_pol_addr 0xffffffff)
          int1_edge_addr 0))

  -- The registers that both directions set: the list of descriptors, the direction, and the interrupts.
  unfoldable pub start_dma : (list list_addr direction control : ℕ) → S → S
  start_dma list list_addr direction control s =
      B.store
        (or_word B (or_word B (B.store s (dma_base_addr + list) list_addr) gmac_base_addr direction)
          (dma_base_addr + dma_control) control)
        (dma_base_addr + dma_interrupt) (bit_or 0x10001 (2 ^ 6))

  unfoldable pub recv_loop : Places → (left i : ℕ) → S → S
  recv_loop a zero i s = s
  recv_loop a (suc left) i s =
      recv_loop a left (i + 1)
        (B.store (or_word B s (a.dma_recv_desc + 16 * i) owned) (dma_base_addr + 0x8) 1)

  -- The result, 0, goes to the register of the caller.
  unfoldable pub do_net_recv : Places → (rd_phy : ℕ) → S → S
  do_net_recv a rd_phy s = irq_enable (recv_loop a pnum 0 (start_dma 0x0c rd_phy 0x04 0x02200002 s))

  unfoldable pub store_bytes : S → (at : ℕ) → List ℕ → S
  store_bytes s at [] = s
  store_bytes s at (b ∷ bs) = store_bytes (B.store_byte s at b) (at + 1) bs

  -- The wait for the board to send the package.
  unfoldable pub still_sending : (at : ℕ) → S → Bool × S
  still_sending at s = let (word, s') = B.load s at in (not (word / 2 ^ 31 == 0), s')

  -- `buffer` in the place of the package, the descriptor to the board, and the demand to send.
  unfoldable pub offer_package : (at : ℕ) → S → S
  offer_package at s =
      let (dest, s') = B.load s (at + 8) in
      B.store (or_word B (store_bytes s' dest (word_bytes packet)) at owned) (dma_base_addr + 0x4) 1

  unfoldable pub send_loop : (fuel : ℕ) → Places → (left i : ℕ) → S → Option S
  send_loop fuel a zero i s = some s
  send_loop fuel a (suc left) i s =
      let at = a.dma_send_desc + 16 * i in
      and_then (poll fuel (still_sending at) (offer_package at s))
        (λ s'. send_loop fuel a left (i + 1) s')

  unfoldable pub do_net_send : (fuel : ℕ) → Places → (td_phy : ℕ) → S → Option S
  do_net_send fuel a td_phy s = send_loop fuel a pnum 0 (start_dma 0x10 td_phy 0x08 0x02202000 s)

  -- The last descriptor of the ring has been filled: the tasks that wait become ready.
  unfoldable pub irq_mac : (fuel : ℕ) → Places → Kernel → S → Outcome (Kernel × S)
  irq_mac fuel a k s =
      let (word, s') = B.load s (a.dma_recv_desc + 16 * 63) in
      if word / 2 ^ 31 == 0
      then do_unblock_all fuel k a.recv_block_queue >>= (λ k'. ok (k', clear_interrupt B s'))
      else ok (k, s')

unfoldable pub do_wait_recv_package : (fuel count : ℕ) → Places → Kernel → Outcome Kernel
do_wait_recv_package fuel count a k = do_block fuel count k a.recv_block_queue
