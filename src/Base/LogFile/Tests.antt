-- ===== src/Base/LogFile/Tests.antt =====
-- The theorems on base/LogFile.cc at concrete states.
use leaf.Shared.{ℕ, ◌+◌, ◌≡◌, refl, true, List, [], ◌∷◌, some, arith}
use leaf.Shared.Outcome.{◌>>=◌}
use leaf.Base.LogFile.{File, Env, LogFile, file_append, append, new_log_file, append_all, has_slash}
use leaf.Base.LogFile.Writes.{TakesSome, file_append_complete}
use leaf.Base.LogFile.Rolls.{Works, Returns, append_all-new_log_file}
use leaf.Base.LogFile.Bounds.{turns, Starts, append-Starts}

-- fwrite takes one byte at a time.
abbrev one_byte : ℕ → List ℕ → ℕ
one_byte i bs = 1

one_byte-TakesSome : TakesSome one_byte
one_byte-TakesSome i bs h = (omega arith, omega (arith, h))

abbrev at_time : ℕ → Env
at_time t = record { write = one_byte; now = t; roll_now = t; can_open = true }

at_time-Works : (t : ℕ) → Works (at_time t)
at_time-Works t = record { opens = refl; writes = one_byte-TakesSome }

abbrev some_file : File
some_file = record { opened = 100; contents = 7 ∷ []; written_bytes = 1; flushes = 0 }

abbrev in_use : LogFile
in_use = record {
  roll_size = 3;
  flush_interval = 3;
  count = 0;
  start_of_period = 0;
  last_roll = 100;
  last_flush = 100;
  file = some some_file;
  closed = [];
}

file_append_complete_example :
    ((file_append one_byte some_file (1 ∷ 2 ∷ 3 ∷ [])).contents ≡ 7 ∷ 1 ∷ 2 ∷ 3 ∷ [])
    × ((file_append one_byte some_file (1 ∷ 2 ∷ 3 ∷ [])).written_bytes ≡ 1 + 3)
    × ((file_append one_byte some_file (1 ∷ 2 ∷ 3 ∷ [])).opened ≡ 100)
file_append_complete_example =
    file_append_complete one_byte one_byte-TakesSome some_file (1 ∷ 2 ∷ 3 ∷ [])

append-Starts_example :
    Starts
      (at_time 101)
      in_use
      (file_append one_byte some_file (1 ∷ 2 ∷ 3 ∷ []))
      (turns (at_time 101) in_use (file_append one_byte some_file (1 ∷ 2 ∷ 3 ∷ [])))
      (append (at_time 101) in_use (1 ∷ 2 ∷ 3 ∷ []))
append-Starts_example =
    append-Starts (at_time 101) in_use some_file (1 ∷ 2 ∷ 3 ∷ []) refl (omega arith) refl

abbrev calls : List (Env × List ℕ)
calls = (at_time 100, 1 ∷ 2 ∷ 3 ∷ 4 ∷ []) ∷ (at_time 101, 5 ∷ []) ∷ (at_time 102, 6 ∷ []) ∷ []

append_all-new_log_file_example :
    Returns
      (1 ∷ 2 ∷ 3 ∷ 4 ∷ 5 ∷ 6 ∷ [])
      (new_log_file (at_time 100) (108 ∷ []) 3 3 >>= λ l. append_all l calls)
unfolding has_slash
append_all-new_log_file_example =
    append_all-new_log_file (at_time 100) (108 ∷ []) 3 3 calls (at_time-Works 100) (omega arith)
      refl (at_time-Works 100, (at_time-Works 101, (at_time-Works 102, tt)))
