-- ===== src/Net/Tests.antt =====
-- Runs of the network driver on boards that answer at once.
use tina.Base.{
  ℕ, ◌≡◌, inl, inr, refl, false, [], ◌∷◌, arith, ltb, ◌==◌, ==_ne, if◌then◌else◌, update, update-ne,
  update-eq,
}
use tina.Queue.{Links}
use tina.Queue.Chain.{IsQueue}
use tina.Kernel.Outcome.{ok}
use tina.Kernel.{Kernel, Image, user_process, running, ready, blocked, ready_queue}
use tina.Net.{Board, Places, Mac, clear_interrupt, send_desc_init, recv_desc_init}
use tina.Net.Transfer.{irq_mac, do_wait_recv_package, gmac_get_mac_addr, set_mac_addr}
use tina.Net.Ram.{IsRam}
use tina.Net.Ring.{ArePlaced, AreRings, rings_lem}
use tina.Net.Wake.{wait-irq}

-- A store to the bus mode resets at once, and a demand sends everything; else the bus is memory.
abbrev quick : Board (ℕ → ℕ)
quick = record {
  load = λ s a. (s a, s);
  store = λ s a v.
      if a == 0xbfe11000 then update s a 0 else if a == 0xbfe11004 then (λ b. 0) else update s a v;
  store_byte = λ s a v. update s a v;
}

abbrev places : Places
places = record { dma_recv_desc = 0x80001000; dma_send_desc = 0x80001400; recv_block_queue = 90 }

abbrev mac : Mac
mac = record {
  psize = 1024;
  pnum = 64;
  mac_addr = 0xbfe10000;
  dma_addr = 0xbfe11000;
  saddr = 0;
  daddr = 0;
  saddr_phy = 0;
  daddr_phy = 0;
  td = 0;
  rd = 0;
  td_phy = 0;
  rd_phy = 0;
}

quick-IsRam : IsRam quick 0x80000000 0x80002000
quick-IsRam = record {
  same = λ s at v p l.
      rw
        (==_ne at 0xbfe11000 (omega (arith, p.below)), ==_ne at 0xbfe11004 (omega (arith, p.below)))
        (update-eq s at v);
  other = λ s at v b p q ne.
      rw
        (==_ne at 0xbfe11000 (omega (arith, p.below)), ==_ne at 0xbfe11004 (omega (arith, p.below)))
        (update-ne s at v b ne);
}

places-ArePlaced : ArePlaced 0x80000000 0x80002000 places
places-ArePlaced = record {
  send_above = omega arith;
  send_below = omega arith;
  send_aligned = refl;
  recv_above = omega arith;
  recv_below = omega arith;
  recv_aligned = refl;
  apart = inr (omega arith);
}

rings_lem_example :
    AreRings quick places 63
      (recv_desc_init quick places (send_desc_init quick places (λ b. 0) mac).0 mac).0
rings_lem_example =
    rings_lem quick quick-IsRam places (λ b. 0) mac mac places-ArePlaced refl refl 63 (omega arith)

-- The address that has been set is read back.
test_mac_addr :
    (gmac_get_mac_addr quick (set_mac_addr quick mac (λ b. 0))).0
    ≡ 0x00 ∷ 0x55 ∷ 0x7b ∷ 0xb5 ∷ 0x7d ∷ 0xf7 ∷ []
unfolding gmac_get_mac_addr set_mac_addr
test_mac_addr = refl

abbrev links : Links
links = record {
  next = λ p. if p == 2 then 3 else if p == 5 then 6 else 0;
  prev = λ p. if p == 3 then 2 else if p == 6 then 5 else 0;
  head = λ q. if q == 1 then 2 else if q == 90 then 5 else 0;
  tail = λ q. if q == 1 then 3 else if q == 90 then 6 else 0;
}

abbrev blank : Image
blank = record {
  name = 0;
  type = user_process;
  kernel_stack_top = 0;
  user_stack_top = 0;
  kernel_sp = 0;
  kernel_ra = 0;
  kernel_epc = 0;
  kernel_status = 0;
  user_sp = 0;
  user_ra = 0;
  user_epc = 0;
  user_status = 0;
}

-- Task 1 runs, 2 and 3 are ready, 5 and 6 wait for packages.
abbrev sample : Kernel
sample = record {
  links = links;
  status = λ p. if p == 1 then running else if ltb p 4 then ready else blocked;
  pid = λ p. p;
  sleep_end = λ p. 0;
  chan = λ p. if ltb p 5 then 0 else 90;
  cursor_x = λ p. 0;
  cursor_y = λ p. 0;
  image = λ p. blank;
  locked = λ l. false;
  overlaps = λ l. false;
  current_running = 1;
  process_id = 7;
  screen_cursor_x = 0;
  screen_cursor_y = 0;
  time_elapsed = 0;
}

ready-IsQueue : IsQueue sample.links ready_queue (2 ∷ 3 ∷ [])
ready-IsQueue = record {
  front = refl;
  back = refl;
  forward = omega arith;
  distinct = (refl, (refl, tt));
}

waiting-IsQueue : IsQueue sample.links 90 (5 ∷ 6 ∷ [])
waiting-IsQueue = record {
  front = refl;
  back = refl;
  forward = omega arith;
  distinct = (refl, (refl, tt));
}

wait-irq_example :
    (k' k'' : Kernel) × (do_wait_recv_package 5 600 places sample ≡ ok k')
    × (irq_mac quick 5 places k' (λ b. 0) ≡ ok (k'', clear_interrupt quick (λ b. 0)))
    × (k''.current_running ≡ 2)
    × IsQueue k''.links 90 []
    × IsQueue k''.links ready_queue (3 ∷ 5 ∷ 6 ∷ 1 ∷ [])
    × (k''.status 1 ≡ ready)
wait-irq_example =
    wait-irq 5 600 sample [] 2 (3 ∷ []) ready-IsQueue tt (inl refl) (omega arith) refl (omega arith)
      places (5 ∷ 6 ∷ []) (omega arith) waiting-IsQueue (λ a i. ground arith) refl (omega arith)
      quick (λ b. 0) (omega arith)
