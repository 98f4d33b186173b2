-- ===== src/Base/AsyncLogging/Tests.antt =====
-- The theorems on base/AsyncLogging.cc at concrete states.
use leaf.Shared.{ℕ, ◌≡◌, refl, List, [], ◌∷◌, some, true, false, arith}
use leaf.Shared.Outcome.{Outcome, ok, ◌>>=◌}
use leaf.Shared.Memory.{write_at}
use leaf.Base.LogStream.{
  FixedBuffer, fixed_buffer, bzero, append, avail, write_current, add, as_string, reset,
}
use leaf.Base.AsyncLogging.{AsyncLogging, append_line, append_current, rotate, next_or_new}
use leaf.Base.AsyncLogging.Lines.{IsSound}
use leaf.Base.AsyncLogging.Writer.{
  Logger, new_logger, Event, line, writer, stop, step, run, advance, test_running, append_front,
  finish, collect, collect_with, fill_next, shrink, write_buffers, reuse, refill,
}
use leaf.Base.AsyncLogging.Writer.Rounds.{Keeps, Returns}
use leaf.Base.AsyncLogging.Writer.Runs.{run-new_logger, lines}
use leaf.Base.AsyncLogging.Writer.Drain.{Drains, advance-Drains, stop-loses}

abbrev buffer_of : List ℕ → ℕ → FixedBuffer
buffer_of bytes cur = record { bytes = bytes; cur = cur }

abbrev empty4 : FixedBuffer
empty4 = buffer_of (0 ∷ 0 ∷ 0 ∷ 0 ∷ []) 0

-- Buffers of four bytes; the current one holds two, and there is a spare one.
abbrev half_full : AsyncLogging
half_full = record {
  size = 4;
  current_buffer = buffer_of (97 ∷ 98 ∷ 0 ∷ 0 ∷ []) 2;
  next_buffer = some empty4;
  buffers = [];
}

half_full-IsSound : IsSound half_full
half_full-IsSound = record {
  valid = omega arith;
  sized = refl;
  spare = record { sized = refl; cleared = refl };
  others = tt;
  used = tt;
}

abbrev half_full_logger : Logger
half_full_logger = record {
  running = true;
  front = half_full;
  new_buffer1 = some empty4;
  new_buffer2 = some empty4;
  collecting = true;
  writing = false;
  buffers_to_write = [];
  output = 120 ∷ [];
  overloaded = false;
}

half_full_logger-Keeps : Keeps half_full_logger (120 ∷ 97 ∷ 98 ∷ [])
unfolding as_string
half_full_logger-Keeps = record {
  front = half_full-IsSound;
  at = record {
    first = record { sized = refl; cleared = refl };
    second = record { sized = refl; cleared = refl };
    written = refl;
  };
  text = λ e. refl;
}

abbrev no_message : ℕ → List ℕ
no_message n = []

abbrev events : List Event
events =
    line (1 ∷ 2 ∷ [])
    ∷ line (3 ∷ 4 ∷ 5 ∷ [])
    ∷ writer no_message
    ∷ writer no_message
    ∷ line (6 ∷ [])
    ∷ line (1 ∷ 2 ∷ 3 ∷ 4 ∷ [])
    ∷ writer no_message
    ∷ writer no_message
    ∷ []

run-new_logger_example : Returns 4 (lines 4 events) (run events (new_logger 4))
run-new_logger_example = run-new_logger 4 events

advance-Drains_example :
    Drains (120 ∷ 97 ∷ 98 ∷ []) (advance no_message half_full_logger >>= advance no_message)
advance-Drains_example =
    advance-Drains no_message half_full_logger (120 ∷ 97 ∷ 98 ∷ []) half_full_logger-Keeps refl refl
      refl (omega arith)

abbrev stopped_logger : Logger
stopped_logger = record half_full_logger { running = false; collecting = false }

abbrev ended_round : Logger
ended_round = record half_full_logger { collecting = false }

stopped_run : run (stop ∷ writer no_message ∷ []) ended_round ≡ ok stopped_logger
unfolding run step advance test_running
stopped_run = refl

stop-loses_example : stopped_logger.output ≡ ended_round.output
stop-loses_example =
    stop-loses ended_round stopped_logger (writer no_message ∷ []) refl refl stopped_run

-- The output after the second round.
written : Outcome Logger → List ℕ
written (ok l) = l.output
written r = []

events_written : written (run events (new_logger 4)) ≡ 1 ∷ 2 ∷ 3 ∷ 4 ∷ 5 ∷ []
unfolding written run step append_front append_line append_current rotate next_or_new new_logger
    advance test_running finish collect collect_with fill_next shrink write_buffers reuse refill
    append avail write_current add as_string reset fixed_buffer bzero write_at
events_written = refl
