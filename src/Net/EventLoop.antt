-- ===== src/Net/EventLoop.antt =====
-- The loop of net/EventLoop.cc and its pending functors. Functors are named by numbers. A step is one
-- that no other thread can divide: another thread first appends its functor under the mutex, and
-- writes to the eventfd later. `wakeups` is the eventfd's counter, `on_the_way` counts the threads
-- between the two; `asked` and `ran` are all functors so far, oldest first.
pub mod Order
pub mod Functors
mod Tests
use leaf.Shared.{
  ℕ, ◌+◌, ◌-◌, Bool, true, false, not, ◌&&◌, ◌||◌, List, [], ◌∷◌, ◌++◌, Option, none, some, ltb,
  if◌then◌else◌,
}

-- Where the loop's thread is: in poll(2), in the handlers of events, in `doPendingFunctors` after the
-- exchange, or not in `loop()`. It is `polling_first` in the first poll, if functors wait there that
-- were queued before `loop()`.
pub data Phase : Type 0 where
  polling polling_first handling calling stopped : Phase

pub record EventLoop : Type 0 where
  pub phase : Phase
  pub quit_flag : Bool
  pub pending_functors : List ℕ
  pub functors : List ℕ
  pub wakeups : ℕ
  pub on_the_way : ℕ
  pub asked : List ℕ
  pub ran : List ℕ

-- The constructor.
pub new_loop : EventLoop
new_loop = record {
  phase = stopped;
  quit_flag = false;
  pending_functors = [];
  functors = [];
  wakeups = 0;
  on_the_way = 0;
  asked = [];
  ran = [];
}

pub wakeup : EventLoop → EventLoop
wakeup l = record l { wakeups = l.wakeups + 1 }

pub push : EventLoop → ℕ → EventLoop
push l cb = record l {
  pending_functors = l.pending_functors ++ cb ∷ [];
  asked = l.asked ++ cb ∷ [];
}

-- `queueInLoop` in the loop's thread, where `callingPendingFunctors_` is the phase `calling`; it may be
-- called before `loop()`, too.
pub queue_here : EventLoop → ℕ → Phase → Option EventLoop
queue_here l cb handling = some (push l cb)
queue_here l cb calling = some (wakeup (push l cb))
queue_here l cb stopped = some (push l cb)
queue_here l cb _ = none

-- The first part of `queueInLoop` in another thread, which will write to the eventfd.
pub queue_there : EventLoop → ℕ → EventLoop
queue_there l cb = record (push l cb) { on_the_way = l.on_the_way + 1 }

-- `doPendingFunctors` up to the exchange.
pub swap_functors : EventLoop → Phase → Option EventLoop
swap_functors l handling =
    some (record l { phase = calling; functors = l.pending_functors; pending_functors = [] })
swap_functors l _ = none

pub call_functor : EventLoop → List ℕ → Phase → Option EventLoop
call_functor l (cb ∷ cbs) calling = some (record l { functors = cbs; ran = l.ran ++ cb ∷ [] })
call_functor l _ _ = none

-- The end of a round, and the test of `quit_`.
pub next_round : EventLoop → List ℕ → Phase → Option EventLoop
next_round l [] calling = some (record l { phase = if l.quit_flag then stopped else polling })
next_round l _ _ = none

-- `loop()` begins, with the functors that wait.
pub begin_loop : EventLoop → List ℕ → Phase → Option EventLoop
begin_loop l [] stopped = some (record l { phase = polling; quit_flag = false })
begin_loop l (cb ∷ cbs) stopped = some (record l { phase = polling_first; quit_flag = false })
begin_loop l _ _ = none

pub poll_returns : EventLoop → Phase → Option EventLoop
poll_returns l polling = some (record l { phase = handling })
poll_returns l polling_first = some (record l { phase = handling })
poll_returns l _ = none

-- The wakeup channel's handler, `handleRead`.
pub handle_wakeup : EventLoop → Phase → Option EventLoop
handle_wakeup l handling = some (record l { wakeups = 0 })
handle_wakeup l _ = none

pub data Event : Type 0 where
  queues_here : ℕ → Event
  queues_there : ℕ → Event
  wakes : Event
  quits_here : Event
  quits_there : Event
  begins : Event
  returns : Event
  reads_wakeup : Event
  swaps : Event
  calls : Event
  goes_on : Event

pub step : EventLoop → Event → Option EventLoop
step l (queues_here cb) = queue_here l cb l.phase
step l (queues_there cb) = some (queue_there l cb)
step l wakes =
    if ltb 0 l.on_the_way then some (wakeup (record l { on_the_way = l.on_the_way - 1 })) else none
step l quits_here = some (record l { quit_flag = true })
step l quits_there = some (record l { quit_flag = true; on_the_way = l.on_the_way + 1 })
step l begins = begin_loop l l.pending_functors l.phase
step l returns = poll_returns l l.phase
step l reads_wakeup = handle_wakeup l l.phase
step l swaps = swap_functors l l.phase
step l calls = call_functor l l.functors l.phase
step l goes_on = next_round l l.functors l.phase

pub and_then : Option EventLoop → (EventLoop → Option EventLoop) → Option EventLoop
and_then none k = none
and_then (some l) k = k l

pub run : EventLoop → List Event → Option EventLoop
run l [] = some l
run l (e ∷ es) = and_then (step l e) (λ l'. run l' es)
