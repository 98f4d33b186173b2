-- ===== src/Net/TimerQueue.antt =====
-- net/TimerQueue.h, net/TimerQueue.cc and net/Timer.cc. Times and intervals are microseconds, and
-- `repeat` stands apart, as an interval below one microsecond repeats, too. A `Timer*` is the number
-- `address`, by which `timers_` orders what expires together; `active` and `canceling` are the two
-- other sets, by address and sequence. What the callbacks do to the queue comes between `get_expired`
-- and `reset`.
pub mod Expiry
pub mod Agreement
pub mod Insertion
pub mod Cancelling
mod Tests
use leaf.Shared.{
  ℕ, ◌+◌, Bool, true, false, not, ◌&&◌, ◌||◌, List, [], ◌∷◌, ◌++◌, Option, none, some, ltb, leb,
  ◌==◌, if◌then◌else◌, length,
}
use leaf.Shared.Outcome.{Outcome, ok, assert_failed, ◌>>=◌, ◌>>◌, assert}

pub record Timer : Type 0 where
  pub address : ℕ
  pub sequence : ℕ
  pub expiration : ℕ
  pub interval : ℕ
  pub repeat : Bool

-- `TimerId` and `ActiveTimer`.
pub record TimerId : Type 0 where
  pub address : ℕ
  pub sequence : ℕ

pub record TimerQueue : Type 0 where
  pub timers : List Timer
  pub active : List TimerId
  pub canceling : List TimerId
  pub calling_expired_timers : Bool
  pub armed : List ℕ

pub new_timer_queue : TimerQueue
new_timer_queue = record {
  timers = [];
  active = [];
  canceling = [];
  calling_expired_timers = false;
  armed = [];
}

pub id_of : Timer → TimerId
id_of t = record { address = t.address; sequence = t.sequence }

pub same_id : TimerId → TimerId → Bool
same_id a b = a.address == b.address && a.sequence == b.sequence

-- The order of `Entry`, a pair of a time and a pointer.
pub entry_less : Timer → Timer → Bool
entry_less s t =
    ltb s.expiration t.expiration || (s.expiration == t.expiration && ltb s.address t.address)

pub put_behind : Timer → Option (List Timer) → Option (List Timer)
put_behind s none = none
put_behind s (some us) = some (s ∷ us)

-- `std::set::insert` on sorted entries; none if the entry is there.
pub insert_entry : Timer → List Timer → Option (List Timer)
insert_entry t [] = some (t ∷ [])
insert_entry t (s ∷ ss) =
    let rest = insert_entry t ss in
    if entry_less t s then some (t ∷ s ∷ ss) else if entry_less s t then put_behind s rest else none

pub has_id : TimerId → List TimerId → Bool
has_id i [] = false
has_id i (j ∷ js) = same_id i j || has_id i js

pub erase_id : TimerId → List TimerId → List TimerId
erase_id i [] = []
erase_id i (j ∷ js) = let rest = erase_id i js in if same_id i j then js else j ∷ rest

-- `earliestChanged`
pub is_earliest : Timer → List Timer → Bool
is_earliest t [] = true
is_earliest t (s ∷ ss) = ltb t.expiration s.expiration

pub insert_at : TimerQueue → Timer → Option (List Timer) → Outcome TimerQueue
insert_at q t none = assert_failed
insert_at q t (some ts) = do
  assert (not (has_id (id_of t) q.active))
  ok (record q { timers = ts; active = id_of t ∷ q.active })

pub insert : TimerQueue → Timer → Outcome TimerQueue
insert q t = do
  assert (length q.timers == length q.active)
  q' ← insert_at q t (insert_entry t q.timers)
  assert (length q'.timers == length q'.active)
  ok q'

-- `armed` lists the times that the timerfd was set to, latest first.
pub reset_timerfd : TimerQueue → ℕ → TimerQueue
reset_timerfd q expiration = record q { armed = expiration ∷ q.armed }

pub add_timer_in_loop : TimerQueue → Timer → Outcome TimerQueue
add_timer_in_loop q t = do
  q' ← insert q t
  ok (if is_earliest t q.timers then reset_timerfd q' t.expiration else q')

-- The entry of the timer with this address.
pub erase_timer : ℕ → List Timer → Option (List Timer)
erase_timer a [] = none
erase_timer a (t ∷ ts) =
    let rest = erase_timer a ts in if t.address == a then some ts else put_behind t rest

pub cancel_active : TimerQueue → TimerId → Option (List Timer) → Outcome TimerQueue
cancel_active q i none = assert_failed
cancel_active q i (some ts) = ok (record q { timers = ts; active = erase_id i q.active })

pub cancel_in_loop : TimerQueue → TimerId → Outcome TimerQueue
cancel_in_loop q i = do
  assert (length q.timers == length q.active)
  q' ←
      if has_id i q.active
      then cancel_active q i (erase_timer i.address q.timers)
      else ok (if q.calling_expired_timers then record q { canceling = i ∷ q.canceling } else q)
  assert (length q'.timers == length q'.active)
  ok q'

-- The entries before `lower_bound(sentry)`: no address is above the sentry's.
pub expired_prefix : ℕ → List Timer → List Timer
expired_prefix now [] = []
expired_prefix now (t ∷ ts) =
    let rest = expired_prefix now ts in if leb t.expiration now then t ∷ rest else []

pub from_lower_bound : ℕ → List Timer → List Timer
from_lower_bound now [] = []
from_lower_bound now (t ∷ ts) =
    let rest = from_lower_bound now ts in if leb t.expiration now then rest else t ∷ ts

-- `assert(end == timers_.end() || now < end->first)`
pub begins_after : ℕ → List Timer → Bool
begins_after now [] = true
begins_after now (t ∷ ts) = ltb now t.expiration

pub erase_all : List TimerId → List Timer → Outcome (List TimerId)
erase_all active [] = ok active
erase_all active (t ∷ ts) = do
  assert (has_id (id_of t) active)
  erase_all (erase_id (id_of t) active) ts

pub get_expired : TimerQueue → ℕ → Outcome (List Timer × TimerQueue)
get_expired q now = do
  assert (length q.timers == length q.active)
  let expired = expired_prefix now q.timers
  let rest = from_lower_bound now q.timers
  assert (begins_after now rest)
  active ← erase_all q.active expired
  assert (length rest == length active)
  ok (expired, record q { timers = rest; active = active })

-- `Timer::restart`; the invalid time is 0.
pub restart : Timer → ℕ → Timer
restart t now = record t { expiration = if t.repeat then now + t.interval else 0 }

pub reset_all : TimerQueue → List Timer → ℕ → Outcome TimerQueue
reset_all q [] now = ok q
reset_all q (t ∷ ts) now =
    if t.repeat && not (has_id (id_of t) q.canceling)
    then (insert q (restart t now) >>= λ q'. reset_all q' ts now)
    else reset_all q ts now

-- A time of 0 is not valid.
pub arm_first : TimerQueue → List Timer → TimerQueue
arm_first q [] = q
arm_first q (t ∷ ts) = if ltb 0 t.expiration then reset_timerfd q t.expiration else q

pub reset : TimerQueue → List Timer → ℕ → Outcome TimerQueue
reset q expired now = do q' ← reset_all q expired now; ok (arm_first q' q'.timers)

-- `handleRead` up to the callbacks.
pub begin_read : TimerQueue → ℕ → Outcome (List Timer × TimerQueue)
begin_read q now = do
  r ← get_expired q now
  ok (r.0, record (r.1) { calling_expired_timers = true; canceling = [] })

-- `handleRead` behind the callbacks.
pub end_read : TimerQueue → List Timer → ℕ → Outcome TimerQueue
end_read q expired now = reset (record q { calling_expired_timers = false }) expired now
