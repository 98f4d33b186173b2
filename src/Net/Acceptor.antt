-- ===== src/Net/Acceptor.antt =====
-- net/Acceptor.h, net/Acceptor.cc, and `sockets::accept` of net/SocketsOps.cc. The answers of accept(2)
-- and open(2) are arguments. `opened`, `closed` and `handed_over` are the descriptors that were made,
-- closed, and given to the callback so far; a descriptor below 0 is `none`.
pub mod Descriptors
mod Tests
use leaf.Shared.{ℕ, Bool, true, false, ◌||◌, List, [], ◌∷◌, Option, none, some, ◌==◌, if◌then◌else◌}
use leaf.Shared.Outcome.{Outcome, ok, assert_failed, ◌>>=◌, ◌>>◌, assert}
use leaf.Net.Channel.{Channel, new_channel, enable_reading, disable_all, remove}

pub record Acceptor : Type 0 where
  pub accept_channel : Channel
  pub has_callback : Bool
  pub listenning : Bool
  pub idle_fd : Option ℕ
  pub opened : List ℕ
  pub closed : List ℕ
  pub handed_over : List ℕ

-- What accept(2) answers: a descriptor, or errno.
pub data Accept : Type 0 where
  accepted : ℕ → Accept
  refused : ℕ → Accept

abbrev pub emfile : ℕ
emfile = 24

-- EAGAIN, ECONNABORTED, EINTR, EPROTO, EPERM and EMFILE.
unfoldable pub is_expected : ℕ → Bool
is_expected errno =
    errno == 11
    || (errno == 103 || (errno == 4 || (errno == 71 || (errno == 1 || errno == emfile))))

-- `sockets::accept`: LOG_FATAL ends the process, like a failed assertion.
unfoldable pub accept : Accept → Outcome Accept
accept (accepted fd) = ok (accepted fd)
accept (refused errno) = if is_expected errno then ok (refused errno) else assert_failed

unfoldable pub is_some : Option ℕ → Bool
is_some none = false
is_some (some fd) = true

abbrev pub with_fd : Option ℕ → List ℕ → List ℕ
with_fd none fds = fds
with_fd (some fd) fds = fd ∷ fds

-- The constructor: `sockfd` is the listening socket, `idle` what open("/dev/null") answers.
unfoldable pub new_acceptor : ℕ → Option ℕ → Outcome Acceptor
new_acceptor sockfd idle = do
  assert (is_some idle)
  ok (record {
    accept_channel = new_channel sockfd (record {
      read_callback = true;
      write_callback = false;
      close_callback = false;
      error_callback = false;
    });
    has_callback = false;
    listenning = false;
    idle_fd = idle;
    opened = with_fd idle [];
    closed = [];
    handed_over = [];
  })

unfoldable pub set_new_connection_callback : Acceptor → Acceptor
set_new_connection_callback a = record a { has_callback = true }

unfoldable pub listen : Acceptor → Acceptor
listen a = record a { listenning = true; accept_channel = enable_reading a.accept_channel }

-- `close(idleFd_)`; with a descriptor below 0 it does nothing.
unfoldable pub close_idle : Acceptor → Acceptor
close_idle a = record a { closed = with_fd a.idle_fd a.closed; idle_fd = none }

unfoldable pub open_idle : Acceptor → Option ℕ → Acceptor
open_idle a fd = record a { idle_fd = fd; opened = with_fd fd a.opened }

abbrev pub fd_of : Accept → Option ℕ
fd_of (accepted fd) = some fd
fd_of (refused errno) = none

-- No descriptor is left: the idle one makes room to accept the connection and to close it.
unfoldable pub drop_connection : Acceptor → Accept → Option ℕ → Acceptor
drop_connection a second idle =
    open_idle (close_idle (open_idle (close_idle a) (fd_of second))) idle

unfoldable pub take_connection : Acceptor → ℕ → Acceptor
take_connection a connfd =
    let a' = record a { opened = connfd ∷ a.opened } in
    if a.has_callback
    then record a' { handed_over = connfd ∷ a.handed_over }
    else record a' { closed = connfd ∷ a.closed }

unfoldable pub accept_result : Acceptor → Accept → Accept → Option ℕ → Acceptor
accept_result a (accepted connfd) second idle = take_connection a connfd
accept_result a (refused errno) second idle =
    if errno == emfile then drop_connection a second idle else a

-- `handleRead`: `second` is what the accept(2) behind the closed idle descriptor answers, `idle` what
-- the open(2) after it does.
unfoldable pub handle_read : Acceptor → Accept → Accept → Option ℕ → Outcome Acceptor
handle_read a first second idle = do r ← accept first; ok (accept_result a r second idle)

-- The destructor.
unfoldable pub destroy : Acceptor → Outcome Acceptor
destroy a = do
  ch ← remove (disable_all a.accept_channel)
  ok (close_idle (record a { accept_channel = ch }))

-- Events of the listening socket, one after the other.
pub record Readable : Type 0 where
  pub first : Accept
  pub second : Accept
  pub idle : Option ℕ

unfoldable pub run : Acceptor → List Readable → Outcome Acceptor
run a [] = ok a
run a (r ∷ rs) = handle_read a r.first r.second r.idle >>= λ a'. run a' rs
