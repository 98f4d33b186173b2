-- ===== src/Base/Logging.antt =====
-- base/Logging.h and base/Logging.cc: the statements of one thread that logs, on the stream of
-- Base/LogStream. A statement is a macro with the operands that the user streams into it. What
-- gmtime_r, snprintf and strerror_r print, and the text of the thread's id, stand in Env.
pub mod Lines
pub mod Statements
mod Tests
use leaf.Shared.{
  ℕ, zero, suc, ◌+◌, ◌/◌, ◌%◌, Bool, true, false, not, List, [], ◌∷◌, ◌++◌, leb, ◌==◌,
  if◌then◌else◌, length,
}
use leaf.Shared.Int.{pos}
use leaf.Shared.Outcome.{Outcome, ok, ◌>>=◌, ◌>>◌, assert}
use leaf.Base.LogStream.{
  FixedBuffer, fixed_buffer, small_buffer, as_string, append, Operand, char, integer, text, put_all,
}

pub data LogLevel : Type 0 where
  level_trace level_debug level_info level_warn level_error level_fatal : LogLevel

-- The value of the enumerator.
abbrev pub rank : LogLevel → ℕ
rank level_trace = 0
rank level_debug = 1
rank level_info = 2
rank level_warn = 3
rank level_error = 4
rank level_fatal = 5

unfoldable pub is_fatal : LogLevel → Bool
is_fatal level_fatal = true
is_fatal _ = false

-- `initLogLevel`, by which of the two variables stand in the environment.
unfoldable pub init_log_level : Bool → Bool → LogLevel
init_log_level has_trace has_debug =
    if has_trace then level_trace else if has_debug then level_debug else level_info

-- "TRACE ", "DEBUG ", "INFO  ", "WARN  ", "ERROR ", "FATAL "
abbrev pub log_level_name : LogLevel → List ℕ
log_level_name level_trace = 84 ∷ 82 ∷ 65 ∷ 67 ∷ 69 ∷ 32 ∷ []
log_level_name level_debug = 68 ∷ 69 ∷ 66 ∷ 85 ∷ 71 ∷ 32 ∷ []
log_level_name level_info = 73 ∷ 78 ∷ 70 ∷ 79 ∷ 32 ∷ 32 ∷ []
log_level_name level_warn = 87 ∷ 65 ∷ 82 ∷ 78 ∷ 32 ∷ 32 ∷ []
log_level_name level_error = 69 ∷ 82 ∷ 82 ∷ 79 ∷ 82 ∷ 32 ∷ []
log_level_name level_fatal = 70 ∷ 65 ∷ 84 ∷ 65 ∷ 76 ∷ 32 ∷ []

-- The path behind the last slash.
unfoldable pub behind_slash : List ℕ → List ℕ → List ℕ
behind_slash base [] = base
behind_slash base (c ∷ cs) = if c == 47 then behind_slash cs cs else behind_slash base cs

unfoldable pub source_file : List ℕ → List ℕ
source_file path = behind_slash path path

pub record Env : Type 0 where
  pub time_text : ℕ → List ℕ
  pub micros_text : ℕ → List ℕ
  pub errno_text : ℕ → List ℕ
  pub tid_text : List ℕ

-- The level and the output of all, and the time that the thread last printed.
pub record Log : Type 0 where
  pub log_level : LogLevel
  pub t_time : List ℕ
  pub t_last_second : ℕ
  pub output : List ℕ
  pub flushes : ℕ
  pub aborted : Bool

unfoldable pub new_log : LogLevel → Log
new_log level = record {
  log_level = level;
  t_time = [];
  t_last_second = 0;
  output = [];
  flushes = 0;
  aborted = false;
}

unfoldable pub set_log_level : Log → LogLevel → Log
set_log_level l level = record l { log_level = level }

-- A text whose length the code knows.
unfoldable pub put_known : FixedBuffer → List ℕ → ℕ → Outcome FixedBuffer
put_known f str len = do assert (length str == len); append f str

-- The text of a second is kept until another second comes.
unfoldable pub refresh_time : Env → Log → ℕ → Outcome Log
refresh_time env l seconds = if seconds == l.t_last_second then ok l else (do
  assert (length (env.time_text seconds) == 17)
  ok (record l { t_last_second = seconds; t_time = env.time_text seconds }))

-- `formatTime`, with the time in microseconds since the epoch.
unfoldable pub format_time : Env → Log → FixedBuffer → ℕ → Outcome (Log × FixedBuffer)
format_time env l f micros = do
  l' ← refresh_time env l (micros / 1000000)
  let us = env.micros_text (micros % 1000000)
  assert (length us == 9)
  f1 ← put_known f l'.t_time 17
  f2 ← put_known f1 us 9
  ok (l', f2)

-- " (errno=" and ") "
abbrev pub errno_operands : Env → ℕ → List Operand
errno_operands env saved_errno =
    text (env.errno_text saved_errno)
    ∷ text (32 ∷ 40 ∷ 101 ∷ 114 ∷ 114 ∷ 110 ∷ 111 ∷ 61 ∷ [])
    ∷ integer (pos saved_errno)
    ∷ text (41 ∷ 32 ∷ [])
    ∷ []

-- The constructor of Impl.
unfoldable pub begin_line : Env → Log → LogLevel → ℕ → ℕ → Outcome (Log × FixedBuffer)
begin_line env l level saved_errno micros = do
  r ← format_time env l (fixed_buffer small_buffer) micros
  f1 ← put_known r.1 env.tid_text 6
  f2 ← put_known f1 (log_level_name level) 6
  f3 ← if saved_errno == 0 then ok f2 else put_all f2 (errno_operands env saved_errno)
  ok (r.0, f3)

-- " - ", the file, ':', the line and a newline.
abbrev pub finish_operands : List ℕ → ℕ → List Operand
finish_operands path line =
    text (32 ∷ 45 ∷ 32 ∷ []) ∷ text (source_file path) ∷ char 58 ∷ integer (pos line) ∷ char 10 ∷ []

-- LOG_TRACE to LOG_FATAL, LOG_SYSERR and LOG_SYSFATAL.
pub data Macro : Type 0 where
  log_trace log_debug log_info log_warn log_error log_fatal log_syserr log_sysfatal : Macro

-- The statement runs if the level that is set is at most this.
unfoldable pub threshold : Macro → LogLevel
threshold log_trace = level_trace
threshold log_debug = level_debug
threshold log_info = level_info
threshold log_warn = level_info
threshold log_error = level_info
threshold log_fatal = level_info
threshold log_syserr = level_info
threshold log_sysfatal = level_info

-- The level that its line has.
unfoldable pub level_of : Macro → LogLevel
level_of log_trace = level_trace
level_of log_debug = level_debug
level_of log_info = level_info
level_of log_warn = level_warn
level_of log_error = level_error
level_of log_fatal = level_fatal
level_of log_syserr = level_error
level_of log_sysfatal = level_fatal

-- LOG_SYSERR and LOG_SYSFATAL print errno instead of the function.
unfoldable pub is_sys : Macro → Bool
is_sys log_syserr = true
is_sys log_sysfatal = true
is_sys _ = false

pub record Statement : Type 0 where
  pub kind : Macro
  pub path : List ℕ
  pub line : ℕ
  pub func : List ℕ
  pub operands : List Operand
  pub errno : ℕ
  pub micros : ℕ

unfoldable pub func_operands : Statement → List Operand
func_operands s = if is_sys s.kind then [] else text s.func ∷ char 32 ∷ []

unfoldable pub saved_errno : Statement → ℕ
saved_errno s = if is_sys s.kind then s.errno else 0

-- The destructor gives the line to the output; a fatal one ends the process.
unfoldable pub end_line : Log → LogLevel → FixedBuffer → Log
end_line l level f =
    let l' = record l { output = l.output ++ as_string f } in
    if is_fatal level then record l' { flushes = l'.flushes + 1; aborted = true } else l'

unfoldable pub write_line : Env → Log → Statement → Outcome Log
write_line env l s = do
  r ← begin_line env l (level_of s.kind) (saved_errno s) s.micros
  f1 ← put_all r.1 (func_operands s)
  f2 ← put_all f1 s.operands
  f3 ← put_all f2 (finish_operands s.path s.line)
  ok (end_line r.0 (level_of s.kind) f3)

unfoldable pub log : Env → Log → Statement → Outcome Log
log env l s = if leb (rank l.log_level) (rank (threshold s.kind)) then write_line env l s else ok l

-- Statements one after the other, as long as the process lives.
unfoldable pub log_all : Env → Log → List Statement → Outcome Log
log_all env l [] = ok l
log_all env l (s ∷ ss) = if l.aborted then ok l else log env l s >>= λ l'. log_all env l' ss
