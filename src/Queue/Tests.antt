-- ===== src/Queue/Tests.antt =====
-- Runs of kernel/sched/queue.c, and its theorems at them.
use tina.Base.{ℕ, ◌≡◌, refl, List, [], ◌∷◌, arith}
use tina.Queue.{Links, null, queue_init, queue_push, queue_dequeue}
use tina.Queue.Chain.{IsQueue, Back}

abbrev zeros : Links
zeros = record { next = λ _. 0; prev = λ _. 0; head = λ _. 0; tail = λ _. 0 }

-- queue 7 with the items 2, 3, 4 and 5, and an empty queue 9
abbrev four : Links
unfolding queue_push queue_init
four = queue_push (queue_push (queue_push (queue_push (queue_init zeros 7) 7 2) 7 3) 7 4) 7 5

abbrev items : List ℕ
items = 2 ∷ 3 ∷ 4 ∷ 5 ∷ []

four-IsQueue : IsQueue four 7 items
unfolding queue_push queue_init
four-IsQueue = record {
  front = refl;
  back = refl;
  forward = omega arith;
  distinct = (refl, (refl, (refl, (refl, tt))));
}

four-Back : Back four.prev null items
unfolding queue_push queue_init
four-Back = (refl, (refl, (refl, (refl, tt))))

spare-IsQueue : IsQueue four 9 []
unfolding queue_push queue_init
spare-IsQueue = record { front = refl; back = refl; forward = tt; distinct = tt }

first_out : (queue_dequeue four 7).1 ≡ 2
unfolding queue_dequeue queue_push queue_init
first_out = refl
