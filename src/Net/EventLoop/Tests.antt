-- ===== src/Net/EventLoop/Tests.antt =====
-- The theorems on net/EventLoop.cc at concrete loops.
use leaf.Shared.{refl, List, [], ◌∷◌}
use leaf.Net.EventLoop.{
  EventLoop, handling, new_loop, wakeup, push, queue_there, poll_returns, begin_loop, Event, begins,
  queues_there, wakes, returns, step, and_then, run,
}
use leaf.Net.EventLoop.Order.{Inv}
use leaf.Net.EventLoop.Functors.{run-new_loop}

-- Another thread asks for a functor, and its wakeup ends the poll.
abbrev events : List Event
events = begins ∷ queues_there 4 ∷ wakes ∷ returns ∷ []

abbrev woken : EventLoop
woken = record (new_loop) {
  phase = handling;
  pending_functors = 4 ∷ [];
  wakeups = 1;
  asked = 4 ∷ [];
}

run-new_loop_example : Inv woken
unfolding new_loop wakeup push queue_there begin_loop poll_returns step and_then run
run-new_loop_example = run-new_loop events woken refl
