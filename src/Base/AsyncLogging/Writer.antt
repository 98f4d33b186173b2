-- ===== src/Base/AsyncLogging/Writer.antt =====
-- `threadFunc` of base/AsyncLogging.cc: the thread that writes the log, beside the threads that call
-- `append`. `output` is what the calls of `output.append` were given.
pub mod Rounds
pub mod Runs
pub mod Drain
use leaf.Shared.{
  ℕ, ◌-◌, Bool, true, false, List, [], ◌∷◌, ◌++◌, Option, none, some, ltb, if◌then◌else◌, length,
  take,
}
use leaf.Shared.Outcome.{Outcome, ok, assert_failed, out_of_bounds, ◌>>=◌, ◌>>◌, assert}
use leaf.Base.LogStream.{FixedBuffer, fixed_buffer, reset, bzero}
use leaf.Base.AsyncLogging.{AsyncLogging, append_line}
use leaf.Base.AsyncLogging.Lines.{texts}

-- The objects of one log: `front` is what `mutex_` guards, the other fields are local to the thread.
-- `collecting` holds from a test of `running_` that succeeds to the exchange of buffers, the wait for
-- the condition included; `writing` from there to the end of the loop's body; `overloaded` notes that
-- buffers were dropped.
pub record Logger : Type 0 where
  pub running : Bool
  pub front : AsyncLogging
  pub new_buffer1 : Option FixedBuffer
  pub new_buffer2 : Option FixedBuffer
  pub collecting : Bool
  pub writing : Bool
  pub buffers_to_write : List FixedBuffer
  pub output : List ℕ
  pub overloaded : Bool

-- The constructor, and the thread up to its loop. The code's size is `large_buffer`.
unfoldable pub new_logger : ℕ → Logger
new_logger size = record {
  running = true;
  front = record {
    size = size;
    current_buffer = bzero (fixed_buffer size);
    next_buffer = some (bzero (fixed_buffer size));
    buffers = [];
  };
  new_buffer1 = some (bzero (fixed_buffer size));
  new_buffer2 = some (bzero (fixed_buffer size));
  collecting = false;
  writing = false;
  buffers_to_write = [];
  output = [];
  overloaded = false;
}

-- `if (not nextBuffer_) nextBuffer_ = move(newBuffer2)`: the spare buffer and what is left.
unfoldable pub fill_next :
    Option FixedBuffer → Option FixedBuffer → Option FixedBuffer × Option FixedBuffer
fill_next none new2 = (new2, none)
fill_next (some f) new2 = (some f, new2)

-- The exchange, with the mutex held. A null `currentBuffer_` would be used by the next `append`.
unfoldable pub collect_with : Logger → Option FixedBuffer → Outcome Logger
collect_with l none = out_of_bounds
collect_with l (some new1) =
    let spare = fill_next l.front.next_buffer l.new_buffer2 in
    ok (record l {
      front = record l.front { current_buffer = new1; next_buffer = spare.0; buffers = [] };
      new_buffer1 = none;
      new_buffer2 = spare.1;
      collecting = false;
      writing = true;
      buffers_to_write = l.front.buffers ++ l.front.current_buffer ∷ [];
    })

unfoldable pub collect : Logger → Outcome Logger
collect l = collect_with l l.new_buffer1

-- More than 25 buffers: a message is written, and all but the first two are dropped. The message is
-- what snprintf prints for the number of these.
unfoldable pub shrink : (ℕ → List ℕ) → Logger → Logger
shrink message l =
    if ltb 25 (length l.buffers_to_write)
    then record l {
      output = l.output ++ message (length l.buffers_to_write - 2);
      buffers_to_write = take 2 l.buffers_to_write;
      overloaded = true;
    }
    else l

-- The loop that writes the buffers.
unfoldable pub write_buffers : Logger → Logger
write_buffers l = record l { output = l.output ++ texts l.buffers_to_write }

-- `pop_back`: the last element, and the others.
abbrev pub pop_back : FixedBuffer → List FixedBuffer → FixedBuffer × List FixedBuffer
pop_back f [] = (f, [])
pop_back f (g ∷ gs) = let r = pop_back g gs in (r.0, f ∷ r.1)

-- `if (not newBuffer)`: the last buffer is used again.
unfoldable pub refill :
    Option FixedBuffer → List FixedBuffer → Outcome (FixedBuffer × List FixedBuffer)
refill (some f) bs = ok (f, bs)
refill none [] = assert_failed
refill none (b ∷ bs) = let r = pop_back b bs in ok (reset r.0, r.1)

-- The end of the loop's body: at most two buffers are kept, to be used again.
unfoldable pub reuse : Logger → Outcome Logger
reuse l = do
  r1 ← refill l.new_buffer1 (take 2 l.buffers_to_write)
  r2 ← refill l.new_buffer2 r1.1
  ok (record l {
    new_buffer1 = some r1.0;
    new_buffer2 = some r2.0;
    writing = false;
    buffers_to_write = [];
  })

-- The loop's body after the exchange.
unfoldable pub finish : (ℕ → List ℕ) → Logger → Outcome Logger
finish message l = do
  assert (ltb 0 (length l.buffers_to_write))
  reuse (write_buffers (shrink message l))

-- What comes next: a thread appends a line, the writing thread goes on to where it waits for the mutex
-- or the condition, has given the mutex back, or tests `running_`, or `stop` is called.
pub data Event : Type 0 where
  line : List ℕ → Event
  writer : (ℕ → List ℕ) → Event
  stop : Event

unfoldable pub append_front : Logger → List ℕ → Outcome Logger
append_front l text = do f ← append_line l.front text; ok (record l { front = f })

-- The test of `running_`. The thread ends when it fails.
unfoldable pub test_running : Logger → Logger
test_running l = if l.running then record l { collecting = true } else l

unfoldable pub advance : (ℕ → List ℕ) → Logger → Outcome Logger
advance message l =
    if l.writing then finish message l else if l.collecting then collect l else ok (test_running l)

unfoldable pub step : Logger → Event → Outcome Logger
step l (line text) = append_front l text
step l (writer message) = advance message l
step l stop = ok (record l { running = false })

unfoldable pub run : List Event → Logger → Outcome Logger
run [] l = ok l
run (e ∷ es) l = step l e >>= run es
