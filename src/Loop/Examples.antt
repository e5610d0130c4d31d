-- ===== src/Loop/Examples.antt =====
-- A thread with one port (src/thread.c), whose epoll_wait reports two or three ready descriptors.
use ixmap.Base.{◌≡◌, refl, List, [], ◌∷◌, some, arith}
use ixmap.Netlink.Examples.{quiet}
use ixmap.Loop.{Event, epoll_irq_rx, epoll_irq_tx, epoll_tun, Reads, events_loop}
use ixmap.Loop.Batches.{first_busy, IsFinished, events_loop-first_busy, events_loop-IsFinished}

abbrev two_ready : List Event
two_ready = epoll_irq_rx 0 1 ∷ epoll_irq_tx 0 2 ∷ []

abbrev three_ready : List Event
three_ready = epoll_irq_rx 0 1 ∷ epoll_irq_tx 0 2 ∷ epoll_tun 0 ∷ []

abbrev counters : Reads
counters = some (1 ∷ []) ∷ some (1 ∷ []) ∷ some (1 ∷ []) ∷ []

events_loop-first_busy_example :
    events_loop 1 3 two_ready 0 quiet counters ≡ first_busy 1 two_ready quiet counters
events_loop-first_busy_example = events_loop-first_busy 1 two_ready quiet counters (omega arith)

events_loop-IsFinished_example : ¬ IsFinished (events_loop 1 100 three_ready 0 quiet counters)
events_loop-IsFinished_example =
    events_loop-IsFinished 1 100 three_ready (epoll_irq_rx 0 1) (epoll_tun 0) quiet counters refl tt
      refl tt
