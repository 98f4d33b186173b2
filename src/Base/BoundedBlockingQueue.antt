-- ===== src/Base/BoundedBlockingQueue.antt =====
-- base/BoundedBlockingQueue.h. A step is what one thread does while it holds the mutex, up to its
-- `wait` or its end. Threads that wait are counted, those that sleep and those that a notification
-- has woken apart; `were_put` and `were_taken` are the elements that passed, oldest first.
pub mod Wakeups
mod Tests
use leaf.Shared.{
  ℕ, ◌+◌, ◌-◌, Bool, List, [], ◌∷◌, ◌++◌, Option, none, some, ltb, ◌==◌, if◌then◌else◌, length,
}

pub record BoundedBlockingQueue {ℓ} (A : Type ℓ) : Type ℓ where
  pub queue : List A
  pub max_size : ℕ
  pub takers_asleep : ℕ
  pub takers_woken : ℕ
  pub putters_asleep : ℕ
  pub putters_woken : ℕ
  pub were_put : List A
  pub were_taken : List A

module _ {ℓ} {A : Type ℓ} where
  pub new_queue : ℕ → BoundedBlockingQueue A
  new_queue max_size = record {
    queue = [];
    max_size = max_size;
    takers_asleep = 0;
    takers_woken = 0;
    putters_asleep = 0;
    putters_woken = 0;
    were_put = [];
    were_taken = [];
  }

  pub full : BoundedBlockingQueue A → Bool
  full q = length q.queue == q.max_size

  -- `notEmpty_.notify()`
  pub notify_not_empty : BoundedBlockingQueue A → BoundedBlockingQueue A
  notify_not_empty q =
      if ltb 0 q.takers_asleep
      then record q { takers_asleep = q.takers_asleep - 1; takers_woken = q.takers_woken + 1 }
      else q

  -- `notFull_.notify()`
  pub notify_not_full : BoundedBlockingQueue A → BoundedBlockingQueue A
  notify_not_full q =
      if ltb 0 q.putters_asleep
      then record q { putters_asleep = q.putters_asleep - 1; putters_woken = q.putters_woken + 1 }
      else q

  -- `put` from its loop's test on.
  pub put : BoundedBlockingQueue A → A → BoundedBlockingQueue A
  put q x =
      if full q
      then record q { putters_asleep = q.putters_asleep + 1 }
      else notify_not_empty
          (record q { queue = q.queue ++ x ∷ []; were_put = q.were_put ++ x ∷ [] })

  pub take_from : BoundedBlockingQueue A → List A → BoundedBlockingQueue A
  take_from q [] = record q { takers_asleep = q.takers_asleep + 1 }
  take_from q (front ∷ rest) =
      notify_not_full (record q { queue = rest; were_taken = q.were_taken ++ front ∷ [] })

  -- `take` from its loop's test on.
  pub take : BoundedBlockingQueue A → BoundedBlockingQueue A
  take q = take_from q q.queue

-- A thread calls `put` or `take`, goes on after it was woken, or wakes for no reason.
pub data Event {ℓ} (A : Type ℓ) : Type ℓ where
  puts : A → Event A
  puts_on : A → Event A
  takes : Event A
  takes_on : Event A
  putter_wakes : Event A
  taker_wakes : Event A

module _ {ℓ} {A : Type ℓ} where
  -- None where no thread can do this.
  pub step : BoundedBlockingQueue A → Event A → Option (BoundedBlockingQueue A)
  step q (puts x) = some (put q x)
  step q (puts_on x) =
      if ltb 0 q.putters_woken
      then some (put (record q { putters_woken = q.putters_woken - 1 }) x)
      else none
  step q takes = some (take q)
  step q takes_on =
      if ltb 0 q.takers_woken
      then some (take (record q { takers_woken = q.takers_woken - 1 }))
      else none
  step q putter_wakes =
      if ltb 0 q.putters_asleep
      then some
          (record q { putters_asleep = q.putters_asleep - 1; putters_woken = q.putters_woken + 1 })
      else none
  step q taker_wakes =
      if ltb 0 q.takers_asleep
      then some
          (record q { takers_asleep = q.takers_asleep - 1; takers_woken = q.takers_woken + 1 })
      else none

  pub and_then :
      Option (BoundedBlockingQueue A)
      → (BoundedBlockingQueue A → Option (BoundedBlockingQueue A))
      → Option (BoundedBlockingQueue A)
  and_then none k = none
  and_then (some q) k = k q

  pub run : BoundedBlockingQueue A → List (Event A) → Option (BoundedBlockingQueue A)
  run q [] = some q
  run q (e ∷ es) = and_then (step q e) (λ q'. run q' es)
