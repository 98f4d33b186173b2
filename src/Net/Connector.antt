-- ===== src/Net/Connector.antt =====
-- net/Connector.h and net/Connector.cc. A member function takes the connector, and what the kernel
-- answers, to the new connector. Functors given to the loop are in `queued`, the delays of the timers
-- that call `startInLoop` in `timers`, from the first on. `opened`, `closed` and `handed_over` are the descriptors
-- that were made, closed, and given to the callback so far.
pub mod Sound
pub mod Descriptors
pub mod Retry
pub mod Handing
mod Tests
use leaf.Shared.{
  ℕ, zero, suc, ◌+◌, ◌*◌, ◌≡◌, Bool, true, false, not, ◌||◌, List, [], ◌∷◌, ◌++◌, Option, none,
  some, ◌==◌, if◌then◌else◌, min,
}
use leaf.Shared.Outcome.{Outcome, ok, assert_failed, ◌>>=◌, ◌>>◌, assert}
use leaf.Net.Channel.{Channel, Callbacks, new_channel, enable_writing, disable_all, remove}

pub data States : Type 0 where
  k_disconnected k_connecting k_connected : States

pub data Functor : Type 0 where
  start_functor stop_functor reset_functor : Functor

pub record Connector : Type 0 where
  pub connect_flag : Bool
  pub state : States
  pub channel : Option Channel
  pub retry_delay_ms : ℕ
  pub queued : List Functor
  pub timers : List ℕ
  pub opened : List ℕ
  pub closed : List ℕ
  pub handed_over : List ℕ

abbrev pub init_retry_delay_ms : ℕ
init_retry_delay_ms = 500

abbrev pub max_retry_delay_ms : ℕ
max_retry_delay_ms = 30000

unfoldable pub new_connector : Connector
new_connector = record {
  connect_flag = false;
  state = k_disconnected;
  channel = none;
  retry_delay_ms = init_retry_delay_ms;
  queued = [];
  timers = [];
  opened = [];
  closed = [];
  handed_over = [];
}

-- What `connect` gets from the kernel: the descriptor, and errno, 0 where there is no error.
pub record Attempt : Type 0 where
  pub sockfd : ℕ
  pub saved_errno : ℕ

unfoldable pub is_disconnected : States → Bool
is_disconnected k_disconnected = true
is_disconnected _ = false

unfoldable pub is_connecting : States → Bool
is_connecting k_connecting = true
is_connecting _ = false

unfoldable pub queue_in_loop : Connector → Functor → Connector
queue_in_loop c f = record c { queued = c.queued ++ f ∷ [] }

unfoldable pub close : Connector → ℕ → Connector
close c sockfd = record c { closed = sockfd ∷ c.closed }

-- 0, EINPROGRESS, EINTR and EISCONN.
unfoldable pub is_under_way : ℕ → Bool
is_under_way errno = errno == 0 || errno == 115 || errno == 4 || errno == 106

-- EAGAIN, EADDRINUSE, EADDRNOTAVAIL and ECONNREFUSED.
unfoldable pub is_retried : ℕ → Bool
is_retried errno = errno == 11 || errno == 98 || errno == 99 || errno == 111

unfoldable pub retry : Connector → ℕ → Connector
retry c sockfd =
    let c' = record (close c sockfd) { state = k_disconnected } in
    if c'.connect_flag
    then record c' {
      timers = c'.timers ++ c'.retry_delay_ms ∷ [];
      retry_delay_ms = min (c'.retry_delay_ms * 2) max_retry_delay_ms;
    }
    else c'

unfoldable pub no_channel : Option Channel → Bool
no_channel none = true
no_channel (some ch) = false

-- The channel for a connect that is under way; no other may be there.
unfoldable pub connecting : Connector → ℕ → Outcome Connector
connecting c sockfd = do
  assert (no_channel c.channel)
  let callbacks : Callbacks = record {
    read_callback = false;
    write_callback = true;
    close_callback = false;
    error_callback = true;
  }
  let ch = enable_writing (new_channel sockfd callbacks)
  ok (record c { state = k_connecting; channel = some ch })

unfoldable pub connect : Connector → Attempt → Outcome Connector
connect c a =
    let c' = record c { opened = a.sockfd ∷ c.opened } in
    if is_under_way a.saved_errno
    then connecting c' a.sockfd
    else if is_retried a.saved_errno
    then ok (retry c' a.sockfd)
    else ok (close c' a.sockfd)

unfoldable pub start_in_loop : Connector → Attempt → Outcome Connector
start_in_loop c a = do
  assert (is_disconnected c.state)
  if c.connect_flag then connect c a else ok c

unfoldable pub start : Connector → Bool → Attempt → Outcome Connector
start c in_loop a =
    let c' = record c { connect_flag = true } in
    if in_loop then start_in_loop c' a else ok (queue_in_loop c' start_functor)

unfoldable pub restart : Connector → Attempt → Outcome Connector
restart c a =
    start_in_loop
      (record c {
        state = k_disconnected;
        retry_delay_ms = init_retry_delay_ms;
        connect_flag = true;
      })
      a

unfoldable pub take_out : Connector → Option Channel → Outcome (ℕ × Connector)
take_out c none = assert_failed
take_out c (some ch) = do
  ch' ← remove (disable_all ch)
  ok (ch'.fd, queue_in_loop (record c { channel = some ch' }) reset_functor)

-- The descriptor of the channel, which is reset later by a functor. The pointer must not be null.
unfoldable pub remove_and_reset_channel : Connector → Outcome (ℕ × Connector)
remove_and_reset_channel c = take_out c c.channel

unfoldable pub reset_channel : Connector → Connector
reset_channel c = record c { channel = none }

unfoldable pub stop : Connector → Connector
stop c = queue_in_loop (record c { connect_flag = false }) stop_functor

unfoldable pub stop_in_loop : Connector → Outcome Connector
stop_in_loop c =
    if is_connecting c.state
    then (do r ← remove_and_reset_channel (record c { state = k_disconnected }); ok (retry r.1 r.0))
    else ok c

-- A connected descriptor goes to the callback, unless `stop` was called.
unfoldable pub hand_over : Connector → ℕ → Connector
hand_over c sockfd =
    let c' = record c { state = k_connected } in
    if c'.connect_flag then record c' { handed_over = sockfd ∷ c'.handed_over } else close c' sockfd

-- `failed`: SO_ERROR is set, or the socket is connected to itself.
unfoldable pub handle_write : Connector → Bool → Outcome Connector
handle_write c failed =
    if is_connecting c.state
    then (do
      r ← remove_and_reset_channel c
      ok (if failed then retry r.1 r.0 else hand_over r.1 r.0))
    else (do assert (is_disconnected c.state); ok c)

unfoldable pub handle_error : Connector → Outcome Connector
handle_error c =
    if is_connecting c.state then (do r ← remove_and_reset_channel c; ok (retry r.1 r.0)) else ok c

unfoldable pub run_functor : Connector → Functor → Attempt → Outcome Connector
run_functor c start_functor a = start_in_loop c a
run_functor c stop_functor a = stop_in_loop c
run_functor c reset_functor a = ok (reset_channel c)

-- The loop runs the functor that has waited longest.
unfoldable pub run_first : Connector → List Functor → Attempt → Outcome Connector
run_first c [] a = ok c
run_first c (f ∷ fs) a = run_functor (record c { queued = fs }) f a

unfoldable pub put_timer : ℕ → Option (List ℕ) → Option (List ℕ)
put_timer t none = none
put_timer t (some ts) = some (t ∷ ts)

-- The timers without the one at this place.
unfoldable pub take_timer : ℕ → List ℕ → Option (List ℕ)
take_timer i [] = none
take_timer zero (t ∷ ts) = some ts
take_timer (suc i) (t ∷ ts) = put_timer t (take_timer i ts)

-- A timer that was started fires, in whatever order; if there is none, nothing happens.
unfoldable pub fire : Connector → Option (List ℕ) → Attempt → Outcome Connector
fire c none a = ok c
fire c (some ts) a = start_in_loop (record c { timers = ts }) a

-- What can happen to a connector: calls by the user, events of its channel, and functors and timers
-- of the loop.
pub data Event : Type 0 where
  starts : Bool → Attempt → Event
  restarts : Attempt → Event
  stops : Event
  runs : Attempt → Event
  fires : ℕ → Attempt → Event
  writable : Bool → Event
  errs : Event

unfoldable pub step : Connector → Event → Outcome Connector
step c (starts in_loop a) = start c in_loop a
step c (restarts a) = restart c a
step c stops = ok (stop c)
step c (runs a) = run_first c c.queued a
step c (fires i a) = fire c (take_timer i c.timers) a
step c (writable failed) = handle_write c failed
step c errs = handle_error c

unfoldable pub run : Connector → List Event → Outcome Connector
run c [] = ok c
run c (e ∷ es) = step c e >>= λ c'. run c' es
