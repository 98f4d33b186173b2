-- ===== src/Base/Logging/Tests.antt =====
-- The theorems on base/Logging.cc at concrete statements.
use leaf.Shared.{List, [], ◌∷◌, replicate, arith}
use leaf.Base.LogStream.{text}
use leaf.Base.Logging.{
  level_info, Env, new_log, log_info, log_debug, log_sysfatal, Statement, log_all, func_operands,
  is_sys, saved_errno, source_file, behind_slash, level_of,
}
use leaf.Base.Logging.Lines.{Documented, IsPlain}
use leaf.Base.Logging.Statements.{lines_of, ends, Logs, log_all-new_log}

abbrev env : Env
env = record {
  time_text = λ seconds. replicate 17 48;
  micros_text = λ us. replicate 9 48;
  errno_text = λ n. 101 ∷ [];
  tid_text = replicate 6 32;
}

env-Documented : Documented env
env-Documented = record {
  times = λ seconds h. omega arith;
  micros = λ us h. omega arith;
  tid = omega arith;
}

-- "a/b.cc"
abbrev greeting : Statement
greeting = record {
  kind = log_info;
  path = 97 ∷ 47 ∷ 98 ∷ 46 ∷ 99 ∷ 99 ∷ [];
  line = 7;
  func = 102 ∷ [];
  operands = text (104 ∷ 105 ∷ []) ∷ [];
  errno = 0;
  micros = 1500000;
}

abbrev detail : Statement
detail = record greeting { kind = log_debug }

abbrev failure : Statement
failure = record greeting { kind = log_sysfatal; errno = 24; micros = 2500000 }

greeting-IsPlain : IsPlain env greeting
unfolding func_operands is_sys saved_errno source_file behind_slash level_of
greeting-IsPlain = record {
  after = omega arith;
  before = omega arith;
  in_range = (tt, (tt, (tt, (tt, (tt, (tt, (tt, (tt, (tt, (tt, (omega arith, (tt, tt))))))))))));
  room = omega arith;
}

detail-IsPlain : IsPlain env detail
unfolding func_operands is_sys saved_errno source_file behind_slash level_of
detail-IsPlain = record {
  after = omega arith;
  before = omega arith;
  in_range = (tt, (tt, (tt, (tt, (tt, (tt, (tt, (tt, (tt, (tt, (omega arith, (tt, tt))))))))))));
  room = omega arith;
}

failure-IsPlain : IsPlain env failure
unfolding func_operands is_sys saved_errno source_file behind_slash level_of
failure-IsPlain = record {
  after = omega arith;
  before = omega arith;
  in_range = (
    tt,
    (
      tt,
      (tt, (tt, (tt, (tt, (omega arith, (tt, (tt, (tt, (tt, (tt, (omega arith, (tt, tt)))))))))))),
    ),
  );
  room = omega arith;
}

abbrev statements : List Statement
statements = greeting ∷ detail ∷ failure ∷ greeting ∷ []

log_all-new_log_example :
    Logs env
      (new_log level_info)
      (lines_of env level_info statements)
      (ends level_info statements)
      (log_all env (new_log level_info) statements)
log_all-new_log_example =
    log_all-new_log env env-Documented level_info statements
      (greeting-IsPlain, (detail-IsPlain, (failure-IsPlain, (greeting-IsPlain, tt))))
