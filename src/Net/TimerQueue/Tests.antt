-- ===== src/Net/TimerQueue/Tests.antt =====
-- The theorems on net/TimerQueue.cc at concrete queues.
use leaf.Shared.{true, false, ◌≡◌, refl, List, [], ◌∷◌, arith}
use leaf.Shared.Outcome.{ok}
use leaf.Net.TimerQueue.{
  Timer, TimerQueue, id_of, same_id, entry_less, put_behind, insert_entry, has_id, insert_at,
  insert, is_earliest, reset_timerfd, add_timer_in_loop, get_expired, restart, reset_all, arm_first,
  reset, cancel_in_loop,
}
use leaf.Net.TimerQueue.Expiry.{Sorted, Splits}
use leaf.Net.TimerQueue.Agreement.{Agree, get_expired-Splits}
use leaf.Net.TimerQueue.Insertion.{Kept, timers-Kept}
use leaf.Net.TimerQueue.Cancelling.{Cancels, cancel_in_loop-Cancels}

-- One timer that fires once at 10, and one that fires every 5 from 20 on.
abbrev single : Timer
single = record { address = 1; sequence = 1; expiration = 10; interval = 0; repeat = false }

abbrev periodic : Timer
periodic = record { address = 2; sequence = 2; expiration = 20; interval = 5; repeat = true }

abbrev both : TimerQueue
both = record {
  timers = single ∷ periodic ∷ [];
  active = id_of single ∷ id_of periodic ∷ [];
  canceling = [];
  calling_expired_timers = false;
  armed = 10 ∷ [];
}

both-Agree : Agree both
both-Agree = record { same = λ i. refl; lengths = refl }

get_expired-Splits_example :
    (expired : List Timer) × (q' : TimerQueue) × (get_expired both 15 ≡ ok (expired, q'))
    × Splits 15 both.timers expired q'.timers
    × Sorted q'.timers
    × Agree q'
get_expired-Splits_example = get_expired-Splits both 15 ((omega arith, tt), (tt, tt)) both-Agree

abbrev none_left : TimerQueue
none_left = record {
  timers = [];
  active = [];
  canceling = [];
  calling_expired_timers = false;
  armed = [];
}

abbrev added : TimerQueue
added = record (none_left) { timers = single ∷ []; active = id_of single ∷ []; armed = 10 ∷ [] }

-- The periodic timer has fired at 21.
abbrev again : TimerQueue
again = record (none_left) {
  timers = record periodic { expiration = 26 } ∷ [];
  active = id_of periodic ∷ [];
  armed = 26 ∷ [];
}

timers-Kept_example : Kept added × Kept again
unfolding id_of same_id entry_less put_behind insert_entry has_id insert_at insert is_earliest
    reset_timerfd add_timer_in_loop restart reset_all arm_first reset
timers-Kept_example =
    timers-Kept none_left added again single (periodic ∷ []) 21
      (record { sorted = tt; agree = record { same = λ i. refl; lengths = refl } }) refl refl

cancel_in_loop-Cancels_example : Cancels both (id_of single) (cancel_in_loop both (id_of single))
cancel_in_loop-Cancels_example =
    cancel_in_loop-Cancels both (id_of single)
      (record { sorted = ((omega arith, tt), (tt, tt)); agree = both-Agree })
      (unfold id_of in omega arith)
