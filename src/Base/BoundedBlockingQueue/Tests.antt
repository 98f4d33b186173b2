-- ===== src/Base/BoundedBlockingQueue/Tests.antt =====
-- The theorems on base/BoundedBlockingQueue.h at concrete queues.
use leaf.Shared.{ℕ, refl, List, [], ◌∷◌}
use leaf.Base.BoundedBlockingQueue.{
  BoundedBlockingQueue, new_queue, full, notify_not_empty, put, take_from, take, Event, puts, takes,
  step, and_then, run,
}
use leaf.Base.BoundedBlockingQueue.Wakeups.{Inv, run-new_queue}

-- A taker waits; a putter wakes it; a second putter finds no room and sleeps.
abbrev events : List (Event ℕ)
events = takes ∷ puts 7 ∷ puts 8 ∷ []

abbrev crowded : BoundedBlockingQueue ℕ
crowded = record {
  queue = 7 ∷ [];
  max_size = 1;
  takers_asleep = 0;
  takers_woken = 1;
  putters_asleep = 1;
  putters_woken = 0;
  were_put = 7 ∷ [];
  were_taken = [];
}

run-new_queue_example : Inv crowded
unfolding new_queue full notify_not_empty put take_from take step and_then run
run-new_queue_example = run-new_queue 1 events crowded refl
