-- ===== src/Net/TcpConnection.antt =====
-- net/TcpConnection.h and net/TcpConnection.cc. A member function takes the connection, and what the
-- kernel answers, to the new connection. User callbacks are recorded in `calls`, functors given to
-- the loop in `queued`; their own calls on the connection are later steps. `sent` is what the socket
-- has accepted so far.
pub mod Bytes
pub mod Order
pub mod Protocol
pub mod Steps
pub mod Life
pub mod Closing
mod Tests
use leaf.Shared.{
  ℕ, ◌+◌, ◌-◌, Bool, true, false, not, ◌&&◌, ◌||◌, List, [], ◌∷◌, ◌++◌, Option, none, some, ltb,
  leb, ◌==◌, if◌then◌else◌, length, take, drop,
}
use leaf.Shared.Outcome.{Outcome, ok, ◌>>=◌, ◌>>◌, assert}
use leaf.Net.Buffer.{Buffer, new_buffer, readable_bytes, append, retrieve, peek_range}
use leaf.Net.Buffer.Transfer.{Readv, failed, delivered, read_fd}
use leaf.Net.Channel.{
  Channel, new_channel, is_writing, tie, enable_reading, enable_writing, disable_writing,
  disable_all, remove,
}

pub data StateE : Type 0 where
  disconnected connecting connected disconnecting : StateE

-- Functors that the connection hands to its loop.
pub data Task : Type 0 where
  send_task : List ℕ → Task
  shutdown_task : Task
  force_close_task : Task
  write_complete : Task
  high_water_mark : ℕ → Task

-- Calls of the user's callbacks.
pub data UserCall : Type 0 where
  up : UserCall
  down : UserCall
  message : UserCall
  closed : UserCall

pub record Conn : Type 0 where
  pub state : StateE
  pub channel : Channel
  pub input_buffer : Buffer
  pub output_buffer : Buffer
  pub high_water : ℕ
  pub has_write_complete : Bool
  pub has_high_water : Bool
  pub write_shutdown : Bool
  pub sent : List ℕ
  pub queued : List Task
  pub calls : List UserCall

-- The constructor, on a connected socket.
unfoldable pub new_connection : ℕ → Conn
new_connection sockfd = record {
  state = connecting;
  channel = new_channel sockfd (record {
    read_callback = true;
    write_callback = true;
    close_callback = true;
    error_callback = true;
  });
  input_buffer = new_buffer;
  output_buffer = new_buffer;
  high_water = 67108864;
  has_write_complete = false;
  has_high_water = false;
  write_shutdown = false;
  sent = [];
  queued = [];
  calls = [];
}

-- The answer of write(2): a number of bytes, or errno.
pub data Write : Type 0 where
  wrote : ℕ → Write
  refused : ℕ → Write

abbrev pub ewouldblock : ℕ
ewouldblock = 11

abbrev pub epipe : ℕ
epipe = 32

abbrev pub econnreset : ℕ
econnreset = 104

unfoldable pub is_disconnected : StateE → Bool
is_disconnected disconnected = true
is_disconnected _ = false

unfoldable pub is_connected : StateE → Bool
is_connected connected = true
is_connected _ = false

unfoldable pub is_open : StateE → Bool
is_open connected = true
is_open disconnecting = true
is_open _ = false

pub queue_in_loop : Conn → Task → Conn
queue_in_loop c t = record c { queued = c.queued ++ t ∷ [] }

unfoldable pub call_user : Conn → UserCall → Conn
call_user c u = record c { calls = c.calls ++ u ∷ [] }

-- What the direct write of `sendInLoop` leaves: the connection, `nwrote`, and `faultError`.
-- A return of 0 is treated as an error, with whatever errno holds.
pub record Direct : Type 0 where
  pub conn : Conn
  pub nwrote : ℕ
  pub fault : Bool

pub fault_error : ℕ → Bool
fault_error errno = not (errno == ewouldblock) && (errno == epipe || errno == econnreset)

pub direct_write : Conn → List ℕ → ℕ → Write → Direct
direct_write c data_ errno (refused e) = record { conn = c; nwrote = 0; fault = fault_error e }
direct_write c data_ errno (wrote n) =
    if ltb 0 n
    then record {
      conn =
          if length data_ - n == 0 && c.has_write_complete
          then queue_in_loop (record c { sent = c.sent ++ take n data_ }) write_complete
          else record c { sent = c.sent ++ take n data_ };
      nwrote = n;
      fault = false;
    }
    else record { conn = c; nwrote = 0; fault = fault_error errno }

-- The call of the high water mark callback is queued when the buffer grows past the mark.
pub notice_high_water : Conn → ℕ → Conn
notice_high_water c n =
    let old_len = readable_bytes c.output_buffer in
    if leb c.high_water (old_len + n) && ltb old_len c.high_water && c.has_high_water
    then queue_in_loop c (high_water_mark (old_len + n))
    else c

pub watch_writing : Channel → Channel
watch_writing ch = if is_writing ch then ch else enable_writing ch

-- The second half of `sendInLoop`: the rest goes to the output buffer.
pub buffer_rest : Conn → List ℕ → Outcome Conn
buffer_rest c rest = do
  let c' = notice_high_water c (length rest)
  b ← append c.output_buffer rest
  ok (record c' { output_buffer = b; channel = watch_writing c.channel })

-- Nothing waits to be written.
pub is_idle : Conn → Bool
is_idle c = not (is_writing c.channel) && readable_bytes c.output_buffer == 0

-- The part of `sendInLoop` behind the direct write.
pub keep_rest : Direct → List ℕ → Outcome Conn
keep_rest d data_ =
    if not d.fault && ltb 0 (length data_ - d.nwrote)
    then buffer_rest d.conn (drop d.nwrote data_)
    else ok d.conn

-- What follows the write. `remaining` is at most `len` exactly when `nwrote` is: the subtraction wraps
-- around when the kernel says that it took more.
pub send_rest : Direct → List ℕ → Outcome Conn
send_rest d data_ = do assert (leb d.nwrote (length data_)); keep_rest d data_

-- `sendInLoop`; `errno` is what errno holds before the write.
pub send_in_loop : Conn → List ℕ → ℕ → Write → Outcome Conn
send_in_loop c data_ errno w =
    if is_disconnected c.state
    then ok c
    else if is_idle c
    then send_rest (direct_write c data_ errno w) data_
    else send_rest (record { conn = c; nwrote = 0; fault = false }) data_

pub shutdown_in_loop : Conn → Conn
shutdown_in_loop c = if is_writing c.channel then c else record c { write_shutdown = true }

-- What follows when the output buffer has become empty.
pub drained : Conn → Conn
drained c =
    let c1 = record c { channel = disable_writing (disable_writing c.channel) } in
    let c2 = if c1.has_write_complete then queue_in_loop c1 write_complete else c1 in
    elim c2.state [ disconnecting ↦ shutdown_in_loop c2 | _ ↦ c2 ]

pub handle_write : Conn → Write → Outcome Conn
handle_write c (refused e) = ok c
handle_write c (wrote n) =
    if is_writing c.channel && ltb 0 n
    then (do
      bs ← peek_range c.output_buffer
      b ← retrieve c.output_buffer n
      let c' = record c { output_buffer = b; sent = c.sent ++ take n bs }
      ok (if readable_bytes b == 0 then drained c' else c'))
    else ok c

unfoldable pub handle_close : Conn → Outcome Conn
handle_close c = do
  assert (is_open c.state)
  let c' = record c { state = disconnected; channel = disable_all c.channel }
  ok (call_user (call_user c' down) closed)

-- `handleRead`; `handleError` only logs.
unfoldable pub handle_read : Conn → Readv → Outcome Conn
handle_read c (failed e) = ok c
handle_read c (delivered []) = handle_close c
handle_read c (delivered (x ∷ xs)) = do
  r ← read_fd c.input_buffer (delivered (x ∷ xs))
  ok (call_user (record c { input_buffer = r.1 }) message)

-- `runInLoop` from the loop's thread runs the functor, from another thread queues it.
pub send : Conn → Bool → List ℕ → ℕ → Write → Outcome Conn
send c in_loop message_ errno w =
    if is_connected c.state
    then (if in_loop
        then send_in_loop c message_ errno w
        else ok (queue_in_loop c (send_task message_)))
    else ok c

pub shutdown : Conn → Bool → Conn
shutdown c in_loop =
    let c' = record c { state = disconnecting } in
    if is_connected c.state
    then (if in_loop then shutdown_in_loop c' else queue_in_loop c' shutdown_task)
    else c

-- Also what the timer of `forceCloseWithDelay` calls, through a weak pointer.
pub force_close_in_loop : Conn → Outcome Conn
force_close_in_loop c = if is_open c.state then handle_close c else ok c

pub force_close : Conn → Conn
force_close c =
    if is_open c.state
    then queue_in_loop (record c { state = disconnecting }) force_close_task
    else c

-- The timer that it starts is the loop's.
pub force_close_with_delay : Conn → Conn
force_close_with_delay c = if is_open c.state then record c { state = disconnecting } else c

unfoldable pub is_connecting : StateE → Bool
is_connecting connecting = true
is_connecting _ = false

unfoldable pub connect_established : Conn → Outcome Conn
connect_established c = do
  assert (is_connecting c.state)
  ok (call_user (record c { state = connected; channel = enable_reading (tie c.channel) }) up)

-- The first half of `connectDestroyed`.
unfoldable pub leave_connected : Conn → Conn
leave_connected c =
    if is_connected c.state
    then call_user (record c { state = disconnected; channel = disable_all c.channel }) down
    else c

unfoldable pub connect_destroyed : Conn → Outcome Conn
connect_destroyed c = do
  let c' = leave_connected c
  ch ← remove c'.channel
  ok (record c' { channel = ch })

-- A functor of the loop runs. The two user callbacks change nothing here.
pub run_task : Conn → Task → ℕ → Write → Outcome Conn
run_task c (send_task bs) errno w = send_in_loop c bs errno w
run_task c shutdown_task errno w = ok (shutdown_in_loop c)
run_task c force_close_task errno w = force_close_in_loop c
run_task c write_complete errno w = ok c
run_task c (high_water_mark n) errno w = ok c

-- What can happen to a connection. Every answer of the kernel is in the event.
pub data Event : Type 0 where
  sends : Bool → List ℕ → ℕ → Write → Event
  shuts : Bool → Event
  forces : Event
  forces_later : Event
  delay_over : Event
  establishes : Event
  destroys : Event
  reads : Readv → Event
  writes : Write → Event
  closes : Event
  runs : Task → ℕ → Write → Event

unfoldable pub step : Conn → Event → Outcome Conn
step c (sends in_loop bs errno w) = send c in_loop bs errno w
step c (shuts in_loop) = ok (shutdown c in_loop)
step c forces = ok (force_close c)
step c forces_later = ok (force_close_with_delay c)
step c delay_over = force_close_in_loop c
step c establishes = connect_established c
step c destroys = connect_destroyed c
step c (reads r) = handle_read c r
step c (writes w) = handle_write c w
step c closes = handle_close c
step c (runs t errno w) = run_task c t errno w

pub run : Conn → List Event → Outcome Conn
run c [] = ok c
run c (e ∷ es) = step c e >>= λ c'. run c' es
