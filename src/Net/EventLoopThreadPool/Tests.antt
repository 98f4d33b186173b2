-- ===== src/Net/EventLoopThreadPool/Tests.antt =====
-- The theorems on net/EventLoopThreadPool.cc at concrete pools.
use leaf.Shared.{◌≡◌, refl, true, [], ◌∷◌, arith}
use leaf.Shared.Outcome.{ok}
use leaf.Net.EventLoopThreadPool.{
  EventLoopThreadPool, new_pool, set_thread_num, start, start_loops, next_loops,
}
use leaf.Net.EventLoopThreadPool.Turns.{Answers, next_loops-queue}

-- Three loops, and the second has its turn.
abbrev second_next : EventLoopThreadPool
second_next = record {
  started = true;
  num_threads = 3;
  next = 1;
  loops = 1 ∷ 2 ∷ 3 ∷ [];
  initialised = [];
}

next_loops-queue_example : Answers (2 ∷ 3 ∷ 1 ∷ []) (2 ∷ 3 ∷ 1 ∷ []) (next_loops 3 second_next)
next_loops-queue_example = next_loops-queue second_next (omega arith)

start_three :
    start (set_thread_num new_pool 3) true
    ≡ ok (record {
      started = true;
      num_threads = 3;
      next = 0;
      loops = 1 ∷ 2 ∷ 3 ∷ [];
      initialised = 1 ∷ 2 ∷ 3 ∷ [];
    })
unfolding start set_thread_num new_pool start_loops
start_three = refl
