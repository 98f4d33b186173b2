-- ===== src/Base/AsyncLogging.antt =====
-- `append` of base/AsyncLogging.cc: the buffers that the threads which log fill. The size of a buffer
-- is a field; the code uses `large_buffer`.
pub mod Lines
pub mod Writer
mod Tests
use leaf.Shared.{
  ℕ, ◌+◌, ◌-◌, Bool, List, [], ◌∷◌, ◌++◌, Option, none, some, ltb, leb, if◌then◌else◌, length, take,
}
use leaf.Shared.Outcome.{Outcome, ok, assert_failed, out_of_bounds, ◌>>=◌, ◌>>◌, assert}
use leaf.Base.LogStream.{FixedBuffer, fixed_buffer, avail, as_string, reset, append}

pub record AsyncLogging : Type 0 where
  pub size : ℕ
  pub current_buffer : FixedBuffer
  pub next_buffer : Option FixedBuffer
  pub buffers : List FixedBuffer

-- The spare buffer, or a new one.
unfoldable pub next_or_new : ℕ → Option FixedBuffer → FixedBuffer
next_or_new size none = fixed_buffer size
next_or_new size (some f) = f

-- The full buffer goes to the others, and the spare one takes its place.
unfoldable pub rotate : AsyncLogging → AsyncLogging
rotate a = record a {
  buffers = a.buffers ++ a.current_buffer ∷ [];
  current_buffer = next_or_new a.size a.next_buffer;
  next_buffer = none;
}

unfoldable pub append_current : AsyncLogging → List ℕ → Outcome AsyncLogging
append_current a logline = do
  f ← append a.current_buffer logline
  ok (record a { current_buffer = f })

-- `AsyncLogging::append`
unfoldable pub append_line : AsyncLogging → List ℕ → Outcome AsyncLogging
append_line a logline =
    if ltb (length logline) (avail a.current_buffer)
    then append_current a logline
    else append_current (rotate a) logline
