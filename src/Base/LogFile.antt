-- ===== src/Base/LogFile.antt =====
-- base/LogFile.h and base/LogFile.cc: a log file that starts anew when it is long, or on a new day.
-- The clock, fopen and fwrite are in `Env`, what one call finds of the system.
pub mod Writes
pub mod Rolls
pub mod Bounds
mod Tests
use leaf.Shared.{
  ℕ, zero, suc, ◌+◌, ◌*◌, ◌/◌, Bool, true, false, not, ◌||◌, List, [], ◌∷◌, ◌++◌, Option, none,
  some, ltb, ◌==◌, if◌then◌else◌, length, take, drop,
}
use leaf.Shared.Outcome.{Outcome, ok, out_of_bounds, ◌>>=◌, ◌>>◌, assert}

-- `LogFile::File`. The name of a file differs from the others' only in the second in which it is
-- opened; `contents` is what fwrite took, `flushes` counts the calls of fflush.
pub record File : Type 0 where
  pub opened : ℕ
  pub contents : List ℕ
  pub written_bytes : ℕ
  pub flushes : ℕ

-- `write i bs` is what the call `i` of fwrite answers to these bytes; time() answers `now` when the
-- day is looked at and `roll_now` in `rollFile`.
pub record Env : Type 0 where
  pub write : ℕ → List ℕ → ℕ
  pub now : ℕ
  pub roll_now : ℕ
  pub can_open : Bool

pub record LogFile : Type 0 where
  pub roll_size : ℕ
  pub flush_interval : ℕ
  pub count : ℕ
  pub start_of_period : ℕ
  pub last_roll : ℕ
  pub last_flush : ℕ
  pub file : Option File
  pub closed : List File

abbrev pub check_time_roll : ℕ
check_time_roll = 1024

abbrev pub roll_per_seconds : ℕ
roll_per_seconds = 86400

-- The loop of `File::append`, on fuel: what fwrite takes of the rest, until it takes nothing.
unfoldable pub write_loop : ℕ → (ℕ → List ℕ → ℕ) → ℕ → List ℕ → List ℕ → List ℕ
write_loop zero write i rest contents = contents
write_loop (suc fuel) write i rest contents =
    let x = write i rest in
    let more = write_loop fuel write (suc i) (drop x rest) (contents ++ take x rest) in
    if ltb 0 (length rest) then (if x == 0 then contents else more) else contents

-- `File::append`. Each round of the loop takes a byte at least, so that the length is fuel enough.
unfoldable pub file_append : (ℕ → List ℕ → ℕ) → File → List ℕ → File
file_append write f logline =
    let n = write 0 logline in
    record f {
      contents =
          write_loop (length logline) write 1 (drop n logline) (f.contents ++ take n logline);
      written_bytes = f.written_bytes + length logline;
    }

unfoldable pub file_flush : File → File
file_flush f = record f { flushes = f.flushes + 1 }

unfoldable pub new_file : ℕ → File
new_file now = record { opened = now; contents = []; written_bytes = 0; flushes = 0 }

-- `file_.reset(…)` closes the file that was there.
unfoldable pub close_old : Option File → List File → List File
close_old none closed = closed
close_old (some f) closed = closed ++ f ∷ []

unfoldable pub roll_file : Env → LogFile → Outcome LogFile
roll_file env l =
    let now = env.roll_now in
    if ltb l.last_roll now
    then (do
      assert env.can_open
      ok (record l {
        last_roll = now;
        last_flush = now;
        start_of_period = now / roll_per_seconds * roll_per_seconds;
        file = some (new_file now);
        closed = close_old l.file l.closed;
      }))
    else ok l

-- Every 1025th call that does not roll looks at the day and at the last flush.
unfoldable pub check_time : Env → LogFile → File → Outcome LogFile
check_time env l f =
    let this_period = env.now / roll_per_seconds * roll_per_seconds in
    if this_period == l.start_of_period
    then ok (
        if ltb (l.last_flush + l.flush_interval) env.now
        then record l { last_flush = env.now; file = some (file_flush f) }
        else l)
    else roll_file env l

unfoldable pub after_append : Env → LogFile → File → Outcome LogFile
after_append env l f =
    if ltb l.roll_size f.written_bytes
    then roll_file env l
    else if ltb check_time_roll l.count
    then check_time env (record l { count = 0 }) f
    else ok (record l { count = l.count + 1 })

-- `append_unlocked`; `append` calls it with or without the mutex.
unfoldable pub append_to : Env → LogFile → Option File → List ℕ → Outcome LogFile
append_to env l none logline = out_of_bounds
append_to env l (some f) logline =
    let f' = file_append env.write f logline in after_append env (record l { file = some f' }) f'

unfoldable pub append : Env → LogFile → List ℕ → Outcome LogFile
append env l logline = append_to env l l.file logline

unfoldable pub flush_file : LogFile → Option File → Outcome LogFile
flush_file l none = out_of_bounds
flush_file l (some f) = ok (record l { file = some (file_flush f) })

unfoldable pub flush : LogFile → Outcome LogFile
flush l = flush_file l l.file

abbrev pub slash : ℕ
slash = 47

unfoldable pub has_slash : List ℕ → Bool
has_slash [] = false
has_slash (c ∷ cs) = c == slash || has_slash cs

-- The constructor.
unfoldable pub new_log_file : Env → List ℕ → ℕ → ℕ → Outcome LogFile
new_log_file env basename roll_size flush_interval = do
  assert (not (has_slash basename))
  roll_file env (record {
    roll_size = roll_size;
    flush_interval = flush_interval;
    count = 0;
    start_of_period = 0;
    last_roll = 0;
    last_flush = 0;
    file = none;
    closed = [];
  })

-- Calls of `append`, each with what it finds of the system.
unfoldable pub append_all : LogFile → List (Env × List ℕ) → Outcome LogFile
append_all l [] = ok l
append_all l ((env, logline) ∷ rest) = append env l logline >>= λ l'. append_all l' rest
