-- ===== src/Net/Channel.antt =====
-- net/Channel.h and net/Channel.cc. A set of poll(2) bits is a record with a field for each bit. A
-- channel's callbacks are named, not run: `handle_event` lists the calls that it makes. `added`
-- tells whether the poller has the channel.
use leaf.Shared.{ℕ, Bool, true, false, not, ◌&&◌, ◌||◌, List, [], ◌∷◌, ◌++◌, if◌then◌else◌}
use leaf.Shared.Outcome.{Outcome, ok, ◌>>◌, assert}

-- `events_`: POLLIN, POLLPRI and POLLOUT.
pub record Events : Type 0 where
  pub pollin : Bool
  pub pollpri : Bool
  pub pollout : Bool

-- `revents_`
pub record Revents : Type 0 where
  pub pollin : Bool
  pub pollpri : Bool
  pub pollout : Bool
  pub pollhup : Bool
  pub pollerr : Bool
  pub pollnval : Bool
  pub pollrdhup : Bool

abbrev pub none_event : Events
none_event = record { pollin = false; pollpri = false; pollout = false }

-- Which of the four callbacks are set.
pub record Callbacks : Type 0 where
  pub read_callback : Bool
  pub write_callback : Bool
  pub close_callback : Bool
  pub error_callback : Bool

pub record Channel : Type 0 where
  pub fd : ℕ
  pub events : Events
  pub revents : Revents
  pub added : Bool
  pub log_hup : Bool
  pub tied : Bool
  pub callbacks : Callbacks

abbrev pub no_revents : Revents
no_revents = record {
  pollin = false;
  pollpri = false;
  pollout = false;
  pollhup = false;
  pollerr = false;
  pollnval = false;
  pollrdhup = false;
}

-- The constructor, with the callbacks that are set right after it.
unfoldable pub new_channel : ℕ → Callbacks → Channel
new_channel fd callbacks = record {
  fd = fd;
  events = none_event;
  revents = no_revents;
  added = false;
  log_hup = true;
  tied = false;
  callbacks = callbacks;
}

unfoldable pub is_none_event : Channel → Bool
is_none_event c = not (c.events.pollin || c.events.pollpri || c.events.pollout)

unfoldable pub is_writing : Channel → Bool
is_writing c = c.events.pollout

unfoldable pub tie : Channel → Channel
tie c = record c { tied = true }

-- `EventLoop::updateChannel` adds a channel that the poller does not have.
unfoldable pub update : Channel → Channel
update c = record c { added = true }

unfoldable pub enable_reading : Channel → Channel
enable_reading c =
    update (record c { events = record (c.events) { pollin = true; pollpri = true } })

unfoldable pub disable_reading : Channel → Channel
disable_reading c =
    update (record c { events = record (c.events) { pollin = false; pollpri = false } })

unfoldable pub enable_writing : Channel → Channel
enable_writing c = update (record c { events = record (c.events) { pollout = true } })

unfoldable pub disable_writing : Channel → Channel
disable_writing c = update (record c { events = record (c.events) { pollout = false } })

unfoldable pub disable_all : Channel → Channel
disable_all c = update (record c { events = none_event })

-- The poller's `removeChannel` asserts that it has the channel.
unfoldable pub remove : Channel → Outcome Channel
remove c = do assert (is_none_event c); assert c.added; ok (record c { added = false })

pub data Call : Type 0 where
  close error read write : Call

abbrev when : Bool → Call → List Call
when b call = if b then call ∷ [] else []

-- The calls of `handleEventWithGuard`, in order.
pub handle_event_with_guard : Channel → List Call
handle_event_with_guard c =
    when (c.revents.pollhup && not c.revents.pollin && c.callbacks.close_callback) close
    ++ (when ((c.revents.pollerr || c.revents.pollnval) && c.callbacks.error_callback) error
        ++ (when
              ((c.revents.pollin || c.revents.pollpri || c.revents.pollrdhup)
                && c.callbacks.read_callback)
              read
            ++ when (c.revents.pollout && c.callbacks.write_callback) write))

-- `alive`: whether the tied object still exists.
pub handle_event : Channel → Bool → List Call
handle_event c alive =
    if c.tied then (if alive then handle_event_with_guard c else []) else handle_event_with_guard c
