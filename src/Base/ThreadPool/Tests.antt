-- ===== src/Base/ThreadPool/Tests.antt =====
-- The theorems on base/ThreadPool.cc at concrete pools.
use leaf.Shared.{ℕ, ◌≡◌, refl, true, false, [], ◌∷◌, some}
use leaf.Base.ThreadPool.{
  ThreadPool, new_pool, set_max_queue_size, start, is_full, notify_not_empty, notify_not_full, put,
  run_task, take_from, run_in_thread, stop, runs, loops, enters, takes_on, stops, step, and_then,
  run,
}
use leaf.Base.ThreadPool.Waits.{Inv, run-start_pool}
use leaf.Base.ThreadPool.Stopping.{Stuck, stop-strands}

-- One thread, and room for one task.
abbrev pool : ThreadPool ℕ
pool = record {
  queue = [];
  max_queue_size = 1;
  running = true;
  threads = 1;
  tops = 1;
  entering = 0;
  ended = 0;
  takers_asleep = 0;
  takers_woken = 0;
  putters_asleep = 0;
  putters_woken = 0;
  accepted = [];
  begun = [];
  direct = [];
}

pool_starts : start (set_max_queue_size new_pool 1) 1 ≡ some pool
unfolding start set_max_queue_size new_pool
pool_starts = refl

-- The thread sleeps, gets a task, and while it runs two more come, of which one has no room.
abbrev busy : ThreadPool ℕ
busy = record pool { queue = 8 ∷ []; putters_asleep = 1; accepted = 7 ∷ 8 ∷ []; begun = 7 ∷ [] }

run-start_pool_example : Inv busy
unfolding run and_then step run_in_thread take_from run_task put is_full notify_not_empty
    notify_not_full
run-start_pool_example =
    run-start_pool 1 1 pool busy (loops ∷ enters ∷ runs 7 ∷ takes_on ∷ runs 8 ∷ runs 9 ∷ [])
      pool_starts refl

-- The pool stops, and its thread ends.
abbrev joined : ThreadPool ℕ
joined = record busy { running = false; tops = 0; ended = 1 }

busy_joins : run busy (stops ∷ loops ∷ []) ≡ some joined
unfolding run and_then step run_in_thread stop
busy_joins = refl

stop-strands_example : Stuck joined (record joined { putters_asleep = 2 })
unfolding run and_then step run_task put is_full
stop-strands_example =
    stop-strands (runs 10 ∷ []) joined (record joined { putters_asleep = 2 })
      (record { stopped = refl; no_top = refl; no_entering = refl; no_taker = refl }) tt refl
