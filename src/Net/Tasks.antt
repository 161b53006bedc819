-- ===== src/Net/Tasks.antt =====
-- The tasks of drivers/mac_support.c, without their messages.
use tina.Base.{bit_or, bit_and, ℕ, zero, suc, ◌+◌, ◌-◌, ◌*◌, Option, some, ◌==◌, if◌then◌else◌}
use tina.Queue.{queue_init}
use tina.Kernel.Outcome.{Outcome, ok, ◌>>=◌}
use tina.Kernel.{Kernel}
use tina.Net.{
  Board, Places, Mac, gmac_base_addr, dma_base_addr, psize, pnum, owned, clear_interrupt,
  send_desc_init, recv_desc_init, mii_dul_force, dma_control_init,
}
use tina.Net.Transfer.{and_then, do_net_send, do_net_recv, do_init_mac, do_wait_recv_package}

-- The fields that every task sets in its `mac_t`, an object of the stack.
abbrev pub test_mac : (on_stack : Mac) → Mac
test_mac on_stack = record on_stack {
  mac_addr = gmac_base_addr;
  dma_addr = dma_base_addr;
  psize = psize * 4;
  pnum = pnum;
}

-- `DmaStoreAndForward | DmaTxSecondFrame | DmaRxThreshCtrl128`
abbrev control : ℕ
control = bit_or (bit_or 0x00200000 0x4) 0x18

-- A round of the task that receives: on to the next, or with the processor given to another task, after
-- which it clears the interrupt.
pub data Round (S : Type 0) : Type 0 where
  went_on : S → Round S
  waits : Kernel → S → Round S

module _ {S : Type 0} (B : Board S) where
  -- The task that sends, up to its end, without its messages.
  unfoldable pub repeat_send : (rounds fuel : ℕ) → Places → (td_phy : ℕ) → S → Option S
  repeat_send zero fuel a td_phy s = some s
  repeat_send (suc rounds) fuel a td_phy s =
      and_then (do_net_send B fuel a td_phy s) (λ s'. repeat_send rounds fuel a td_phy s')

  unfoldable pub phy_regs_task1 : (fuel : ℕ) → Places → (on_stack : Mac) → S → Option S
  phy_regs_task1 fuel a on_stack s =
      let (s1, mac) = send_desc_init B a s (test_mac on_stack) in
      let s2 = clear_interrupt B (dma_control_init B s1 mac control) in
      repeat_send 4 fuel a mac.td_phy (mii_dul_force B s2 mac)

  -- `phy_regs_task2` up to its loop.
  unfoldable pub task2_start : Places → (on_stack : Mac) → Kernel → S → Kernel × Mac × S
  task2_start a on_stack k s =
      let (s1, mac) = recv_desc_init B a s (test_mac on_stack) in
      let s2 = clear_interrupt B (dma_control_init B s1 mac control) in
      (record k { links = queue_init k.links a.recv_block_queue }, mac, mii_dul_force B s2 mac)

  unfoldable pub task2_round : (fuel count : ℕ) → Places → Mac → Kernel → S → Outcome (Round S)
  task2_round fuel count a mac k s =
      let (word, s') = B.load (do_net_recv B a mac.rd_phy s) (mac.rd + (pnum - 1) * 16) in
      if bit_and word owned == owned
      then do_wait_recv_package fuel count a k >>= (λ k'. ok (waits k' s'))
      else ok (went_on s')

  unfoldable pub phy_regs_task3 : (fuel : ℕ) → (on_stack : Mac) → S → Option S
  phy_regs_task3 fuel on_stack s = do_init_mac B fuel on_stack s
