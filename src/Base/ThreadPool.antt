-- ===== src/Base/ThreadPool.antt =====
-- base/ThreadPool.h and base/ThreadPool.cc. A step is what one thread does while it holds the mutex, up
-- to its `wait` or its end, or one test without it. `tops` counts the pool's threads that run a task or
-- stand at the test of `running_` in `runInThread`, `entering` those that have passed the test and not
-- yet locked the mutex in `take`, `ended` those that have left; threads that wait for tasks (takers) or
-- for room (putters) are counted asleep and woken. `accepted` and `begun` are the tasks that were put
-- into the queue and that were taken out, `direct` those that the caller ran, each oldest first.
pub mod Waits
pub mod Stopping
mod Tests
use leaf.Shared.{
  ℕ, zero, suc, ◌+◌, ◌-◌, Bool, true, false, ◌&&◌, List, [], ◌∷◌, ◌++◌, Option, none, some, ltb,
  leb, ◌==◌, if◌then◌else◌, length,
}

pub record ThreadPool {ℓ} (A : Type ℓ) : Type ℓ where
  pub queue : List A
  pub max_queue_size : ℕ
  pub running : Bool
  pub threads : ℕ
  pub tops : ℕ
  pub entering : ℕ
  pub ended : ℕ
  pub takers_asleep : ℕ
  pub takers_woken : ℕ
  pub putters_asleep : ℕ
  pub putters_woken : ℕ
  pub accepted : List A
  pub begun : List A
  pub direct : List A

-- The constructor.
module _ {ℓ} {A : Type ℓ} where
  unfoldable pub new_pool : ThreadPool A
  new_pool = record {
    queue = [];
    max_queue_size = 0;
    running = false;
    threads = 0;
    tops = 0;
    entering = 0;
    ended = 0;
    takers_asleep = 0;
    takers_woken = 0;
    putters_asleep = 0;
    putters_woken = 0;
    accepted = [];
    begun = [];
    direct = [];
  }

  unfoldable pub set_max_queue_size : ThreadPool A → ℕ → ThreadPool A
  set_max_queue_size p max_size = record p { max_queue_size = max_size }

  -- None where `assert(threads_.empty())` fails.
  unfoldable pub start : ThreadPool A → ℕ → Option (ThreadPool A)
  start p num_threads =
      if p.threads == 0
      then some (record p { running = true; threads = num_threads; tops = num_threads })
      else none

  unfoldable pub is_full : ThreadPool A → Bool
  is_full p = ltb 0 p.max_queue_size && leb p.max_queue_size (length p.queue)

  -- `notEmpty_.notify()`
  unfoldable pub notify_not_empty : ThreadPool A → ThreadPool A
  notify_not_empty p =
      if ltb 0 p.takers_asleep
      then record p { takers_asleep = p.takers_asleep - 1; takers_woken = p.takers_woken + 1 }
      else p

  -- `notFull_.notify()`
  unfoldable pub notify_not_full : ThreadPool A → ThreadPool A
  notify_not_full p =
      if ltb 0 p.putters_asleep
      then record p { putters_asleep = p.putters_asleep - 1; putters_woken = p.putters_woken + 1 }
      else p

  -- `run` from its loop's test on.
  unfoldable pub put : ThreadPool A → A → ThreadPool A
  put p task =
      if is_full p
      then record p { putters_asleep = p.putters_asleep + 1 }
      else notify_not_empty
          (record p { queue = p.queue ++ task ∷ []; accepted = p.accepted ++ task ∷ [] })

  unfoldable pub run_task : ThreadPool A → A → ThreadPool A
  run_task p task =
      if p.threads == 0 then record p { direct = p.direct ++ task ∷ [] } else put p task

  -- `take` from its loop's test on. The thread sleeps, or goes on to run the task, or without one.
  unfoldable pub take_from : ThreadPool A → List A → ThreadPool A
  take_from p [] =
      if p.running
      then record p { takers_asleep = p.takers_asleep + 1 }
      else record p { tops = p.tops + 1 }
  take_from p (task ∷ rest) =
      let p' = record p { queue = rest; begun = p.begun ++ task ∷ []; tops = p.tops + 1 } in
      if ltb 0 p.max_queue_size then notify_not_full p' else p'

  -- The test of `running_`, without the mutex.
  unfoldable pub run_in_thread : ThreadPool A → ThreadPool A
  run_in_thread p =
      if p.running then record p { entering = p.entering + 1 } else record p { ended = p.ended + 1 }

  -- `stop` before it joins: `notEmpty_.notifyAll()` wakes every taker.
  unfoldable pub stop : ThreadPool A → ThreadPool A
  stop p = record p {
    running = false;
    takers_asleep = 0;
    takers_woken = p.takers_woken + p.takers_asleep;
  }

-- A thread calls `run` or `stop`, goes on after it was woken, or wakes for no reason; a thread of the
-- pool comes to the test of `running_`, or enters `take` after it.
pub data Event {ℓ} (A : Type ℓ) : Type ℓ where
  runs : A → Event A
  runs_on : A → Event A
  loops : Event A
  enters : Event A
  takes_on : Event A
  stops : Event A
  putter_wakes : Event A
  taker_wakes : Event A

module _ {ℓ} {A : Type ℓ} where
  -- None where no thread can do this.
  unfoldable pub step : ThreadPool A → Event A → Option (ThreadPool A)
  step p (runs task) = some (run_task p task)
  step p (runs_on task) =
      if ltb 0 p.putters_woken
      then some (put (record p { putters_woken = p.putters_woken - 1 }) task)
      else none
  step p loops =
      if ltb 0 p.tops then some (run_in_thread (record p { tops = p.tops - 1 })) else none
  step p enters =
      if ltb 0 p.entering
      then some (take_from (record p { entering = p.entering - 1 }) p.queue)
      else none
  step p takes_on =
      if ltb 0 p.takers_woken
      then some (take_from (record p { takers_woken = p.takers_woken - 1 }) p.queue)
      else none
  step p stops = some (stop p)
  step p putter_wakes =
      if ltb 0 p.putters_asleep
      then some
          (record p { putters_asleep = p.putters_asleep - 1; putters_woken = p.putters_woken + 1 })
      else none
  step p taker_wakes =
      if ltb 0 p.takers_asleep
      then some
          (record p { takers_asleep = p.takers_asleep - 1; takers_woken = p.takers_woken + 1 })
      else none

  unfoldable pub and_then :
      Option (ThreadPool A) → (ThreadPool A → Option (ThreadPool A)) → Option (ThreadPool A)
  and_then none k = none
  and_then (some p) k = k p

  unfoldable pub run : ThreadPool A → List (Event A) → Option (ThreadPool A)
  run p [] = some p
  run p (e ∷ es) = and_then (step p e) (λ p'. run p' es)
