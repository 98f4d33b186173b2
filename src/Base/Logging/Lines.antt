-- ===== src/Base/Logging/Lines.antt =====
-- What the statements of base/Logging.cc print, and that the time that is kept is never an old one.
use leaf.Shared.{
  ℕ, ◌/◌, ◌%◌, ◌≤◌, ◌<◌, ◌≡◌, refl, sym, ap, ◌∙◌, inl, inr, true, Bool-cases, List, [], ◌∷◌, ◌++◌,
  ◌==◌, if◌then◌else◌, length, arith,
}
use leaf.Shared.Outcome.{ok, >>=-eq-ok}
use leaf.Base.LogStream.{FixedBuffer, fixed_buffer, small_buffer, Operand, text, put, put_all}
use leaf.Base.LogStream.Stream.{AllInRange}
use leaf.Base.LogStream.Rendering.{cost_all, put_all-append}
use leaf.Base.Logging.{
  LogLevel, level_trace, level_debug, level_info, level_warn, level_error, level_fatal,
  log_level_name, Env, Log, put_known, refresh_time, format_time, errno_operands, begin_line,
  finish_operands, level_of, Statement, func_operands, saved_errno, end_line, write_line,
}

-- The operands of a line: the time, the thread, the level, errno, the function, what the user
-- streams, and the place.
abbrev errno_part : Env → ℕ → List Operand
errno_part env n = if n == 0 then [] else errno_operands env n

abbrev tail_of : Env → Statement → List Operand
tail_of env s =
    errno_part env (saved_errno s)
    ++ (func_operands s ++ (s.operands ++ finish_operands s.path s.line))

abbrev pub pieces : Env → Statement → List Operand
pieces env s =
    text (env.time_text (s.micros / 1000000))
    ∷ text (env.micros_text (s.micros % 1000000))
    ∷ text env.tid_text
    ∷ text (log_level_name (level_of s.kind))
    ∷ tail_of env s

-- The documented widths of what snprintf prints: 17 bytes for a time before the year 10000, 9 for
-- ".%06dZ ", and 6 for the id of a thread below 100000.
pub record Documented (env : Env) : Type 0 where
  pub times : (seconds : ℕ) → seconds < 253402300800 → length (env.time_text seconds) ≡ 17
  pub micros : (us : ℕ) → us < 1000000 → length (env.micros_text us) ≡ 9
  pub tid : length env.tid_text ≡ 6

-- A statement after the first second of 1970 and before the year 10000, whose line has room in the
-- stream's buffer.
pub record IsPlain (env : Env) (s : Statement) : Type 0 where
  pub after : 1000000 ≤ s.micros
  pub before : s.micros < 253402300800000000
  pub in_range : AllInRange (pieces env s)
  pub room : cost_all (pieces env s) ≤ small_buffer

-- The text that is kept is that of its second, if there was one.
abbrev pub Kept : Env → Log → Type 0
Kept env l = 0 < l.t_last_second → l.t_time ≡ env.time_text l.t_last_second

-- The log after a look at the time.
pub record Refreshed (env : Env) (l : Log) (seconds : ℕ) : Type 0 where
  pub result : Log
  pub returns : refresh_time env l seconds ≡ ok result
  pub time : result.t_time ≡ env.time_text seconds
  pub kept : Kept env result
  pub level : result.log_level ≡ l.log_level
  pub output : result.output ≡ l.output
  pub aborted : result.aborted ≡ l.aborted

refresh_time-Refreshed :
    (env : Env) (l : Log) (seconds : ℕ)
    → Kept env l
    → 0 < seconds
    → length (env.time_text seconds) ≡ 17
    → Refreshed env l seconds
unfolding refresh_time
refresh_time-Refreshed env l seconds k h long = elim (Bool-cases (seconds == l.t_last_second)) [
  | inl same ↦
      let e : seconds ≡ l.t_last_second = ground arith in
      record {
        result = l;
        returns = rw same refl;
        time = k (omega (arith, h, e)) ∙ ap env.time_text (sym e);
        kept = k;
        level = refl;
        output = refl;
        aborted = refl;
      }
  | inr other ↦
      let wide : (length (env.time_text seconds) == 17) ≡ true = ground (arith, long) in
      record {
        result = record l { t_last_second = seconds; t_time = env.time_text seconds };
        returns = simp (other, wide);
        time = refl;
        kept = λ _. refl;
        level = refl;
        output = refl;
        aborted = refl;
      }
]

put_known-put :
    (f : FixedBuffer) (str : List ℕ) (n : ℕ) → length str ≡ n → put_known f str n ≡ put f (text str)
unfolding put_known put
put_known-put f str n h = let e : (length str == n) ≡ true = ground (arith, h) in simp e

put_errno :
    (env : Env) (f : FixedBuffer) (n : ℕ)
    → (if n == 0 then ok f else put_all f (errno_operands env n)) ≡ put_all f (errno_part env n)
unfolding put_all
put_errno env f n = elim (Bool-cases (n == 0)) [
  | inl none_ ↦ rw none_ refl
  | inr some_ ↦ rw some_ refl
]

length-log_level_name : (level : LogLevel) → length (log_level_name level) ≡ 6
length-log_level_name level_trace = refl
length-log_level_name level_debug = refl
length-log_level_name level_info = refl
length-log_level_name level_warn = refl
length-log_level_name level_error = refl
length-log_level_name level_fatal = refl

module _ (env : Env) (d : Documented env) (l : Log) (s : Statement) (p : IsPlain env s)
    (k : Kept env l) where
  pub fresh : Refreshed env l (s.micros / 1000000)
  fresh =
      refresh_time-Refreshed env l (s.micros / 1000000) k (omega (arith, p.after))
        (d.times (s.micros / 1000000) (omega (arith, p.before)))

  -- The head of the line.
  begin_line-puts :
      (f1 f2 f3 f4 f5 : FixedBuffer)
      → put (fixed_buffer small_buffer) (text (env.time_text (s.micros / 1000000))) ≡ ok f1
      → put f1 (text (env.micros_text (s.micros % 1000000))) ≡ ok f2
      → put f2 (text env.tid_text) ≡ ok f3
      → put f3 (text (log_level_name (level_of s.kind))) ≡ ok f4
      → put_all f4 (errno_part env (saved_errno s)) ≡ ok f5
      → begin_line env l (level_of s.kind) (saved_errno s) s.micros ≡ ok (fresh.result, f5)
  unfolding begin_line format_time
  begin_line-puts f1 f2 f3 f4 f5 e1 e2 e3 e4 e5 =
      let us = env.micros_text (s.micros % 1000000) in
      let wide : length us ≡ 9 = d.micros (s.micros % 1000000) (omega arith) in
      let wide' : (length us == 9) ≡ true = ground (arith, wide) in
      let t17 : length fresh.result.t_time ≡ 17 =
        ap length fresh.time ∙ d.times (s.micros / 1000000) (omega (arith, p.before)) in
      let k1 : put_known (fixed_buffer small_buffer) fresh.result.t_time 17 ≡ ok f1 =
        put_known-put _ fresh.result.t_time 17 t17
        ∙ ap (λ x. put (fixed_buffer small_buffer) (text x)) fresh.time
        ∙ e1 in
      let k2 : put_known f1 us 9 ≡ ok f2 = put_known-put f1 us 9 wide ∙ e2 in
      let k3 : put_known f2 env.tid_text 6 ≡ ok f3 = put_known-put f2 env.tid_text 6 d.tid ∙ e3 in
      let k4 : put_known f3 (log_level_name (level_of s.kind)) 6 ≡ ok f4 =
        put_known-put f3 _ 6 (length-log_level_name (level_of s.kind)) ∙ e4 in
      let k5 = put_errno env f4 (saved_errno s) ∙ e5 in
      simp (fresh.returns, wide', k1, k2, k3, k4, k5)

  line-puts :
      (f5 f6 f7 g : FixedBuffer)
      → begin_line env l (level_of s.kind) (saved_errno s) s.micros ≡ ok (fresh.result, f5)
      → put_all f5 (func_operands s) ≡ ok f6
      → put_all f6 s.operands ≡ ok f7
      → put_all f7 (finish_operands s.path s.line) ≡ ok g
      → write_line env l s ≡ ok (end_line fresh.result (level_of s.kind) g)
  unfolding write_line
  line-puts f5 f6 f7 g b e6 e7 e8 = simp (b, e6, e7, e8)

  -- The whole line.
  pub write_line-puts :
      (g : FixedBuffer)
      → put_all (fixed_buffer small_buffer) (pieces env s) ≡ ok g
      → write_line env l s ≡ ok (end_line fresh.result (level_of s.kind) g)
  unfolding put_all
  write_line-puts g e =
      let (f1, e1, r1) = >>=-eq-ok (put (fixed_buffer small_buffer) _) _ e in
      let (f2, e2, r2) = >>=-eq-ok (put f1 _) _ r1 in
      let (f3, e3, r3) = >>=-eq-ok (put f2 _) _ r2 in
      let (f4, e4, r4) = >>=-eq-ok (put f3 _) _ r3 in
      let (f5, e5, r5) =
        >>=-eq-ok (put_all f4 (errno_part env (saved_errno s))) _
          (sym (put_all-append f4 (errno_part env (saved_errno s)) _) ∙ r4) in
      let (f6, e6, r6) =
        >>=-eq-ok (put_all f5 (func_operands s)) _
          (sym (put_all-append f5 (func_operands s) _) ∙ r5) in
      let (f7, e7, r7) =
        >>=-eq-ok (put_all f6 s.operands) _ (sym (put_all-append f6 s.operands _) ∙ r6) in
      line-puts f5 f6 f7 g (begin_line-puts f1 f2 f3 f4 f5 e1 e2 e3 e4 e5) e6 e7 r7
