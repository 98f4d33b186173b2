-- ===== src/Base/Logging/Statements.antt =====
-- Sequences of statements of base/Logging.cc against what a reader of the log sees.
use leaf.Shared.{
  ℕ, ◌+◌, ◌≡◌, refl, sym, ap, ◌∙◌, inl, inr, Bool, true, false, Bool-cases, List, [], ◌∷◌, ◌++◌,
  leb, if◌then◌else◌, arith, append-nil, append_assoc,
}
use leaf.Shared.Outcome.{Outcome, ok}
use leaf.Base.LogStream.{FixedBuffer, fixed_buffer, small_buffer, as_string}
use leaf.Base.LogStream.Fresh.{
  fixed_buffer-IsFresh, IsFresh-valid, avail-IsFresh, as_string-IsFresh,
}
use leaf.Base.LogStream.Rendering.{render_all, put_all-Renders}
use leaf.Base.Logging.{
  LogLevel, rank, is_fatal, Env, Log, new_log, threshold, level_of, Statement, end_line, write_line,
  log, log_all,
}
use leaf.Base.Logging.Lines.{pieces, Documented, IsPlain, Kept, fresh, write_line-puts}

-- What is printed of a sequence, and whether it ends the process.
abbrev pub is_shown : LogLevel → Statement → Bool
is_shown level s = leb (rank level) (rank (threshold s.kind))

abbrev pub lines_of : Env → LogLevel → List Statement → List ℕ
lines_of env level [] = []
lines_of env level (s ∷ ss) =
    let rest = lines_of env level ss in
    if is_shown level s
    then render_all (pieces env s) ++ (if is_fatal (level_of s.kind) then [] else rest)
    else rest

abbrev pub ends : LogLevel → List Statement → Bool
ends level [] = false
ends level (s ∷ ss) =
    let rest = ends level ss in
    if is_shown level s then (if is_fatal (level_of s.kind) then true else rest) else rest

abbrev pub AllPlain : Env → List Statement → Type 0
AllPlain env [] = Unit {0}
AllPlain env (s ∷ ss) = IsPlain env s × AllPlain env ss

-- A log after statements that printed `lines`, and whether the last one ended the process.
pub record Logs (env : Env) (l : Log) (lines : List ℕ) (over : Bool) (r : Outcome Log)
    : Type 0 where
  pub result : Log
  pub returns : r ≡ ok result
  pub output : result.output ≡ l.output ++ lines
  pub aborted : result.aborted ≡ over
  pub level : result.log_level ≡ l.log_level
  pub kept : Kept env result

end_line-Logs :
    (env : Env) (l l' : Log) (level : LogLevel) (f : FixedBuffer)
    → l.aborted ≡ false
    → l'.output ≡ l.output
    → l'.aborted ≡ l.aborted
    → l'.log_level ≡ l.log_level
    → Kept env l'
    → Logs env l (as_string f) (is_fatal level) (ok (end_line l' level f))
unfolding end_line
end_line-Logs env l l' level f alive o a v k = elim (Bool-cases (is_fatal level)) [
  | inl fatal ↦ rw fatal (record {
    result = record l' {
      output = l'.output ++ as_string f;
      flushes = l'.flushes + 1;
      aborted = true;
    };
    returns = refl;
    output = ap (λ x. x ++ as_string f) o;
    aborted = refl;
    level = v;
    kept = k;
  })
  | inr other ↦ rw other (record {
    result = record l' { output = l'.output ++ as_string f };
    returns = refl;
    output = ap (λ x. x ++ as_string f) o;
    aborted = a ∙ alive;
    level = v;
    kept = k;
  })
]

module _ (env : Env) (d : Documented env) where
  write_line-Logs :
      (l : Log) (s : Statement)
      → IsPlain env s
      → Kept env l
      → l.aborted ≡ false
      → Logs env l (render_all (pieces env s)) (is_fatal (level_of s.kind)) (write_line env l s)
  write_line-Logs l s p k alive =
      let z = fixed_buffer-IsFresh small_buffer in
      let h =
        put_all-Renders (fixed_buffer small_buffer) (pieces env s) (IsFresh-valid z) p.in_range
          (omega (arith, p.room, avail-IsFresh z)) in
      let text_is : as_string h.result ≡ render_all (pieces env s) =
        h.holds ∙ ap (λ x. x ++ render_all (pieces env s)) (as_string-IsFresh z) in
      let r = fresh env d l s p k in
      let e =
        end_line-Logs env l r.result (level_of s.kind) h.result alive r.output r.aborted r.level
          r.kept in
      record {
        result = e.result;
        returns = write_line-puts env d l s p k h.result h.returns ∙ e.returns;
        output = e.output ∙ ap (λ x. l.output ++ x) text_is;
        aborted = e.aborted;
        level = e.level;
        kept = e.kept;
      }

  -- A log that has aborted takes nothing more.
  dead : (l : Log) (ss : List Statement) → l.aborted ≡ true → log_all env l ss ≡ ok l
  unfolding log_all
  dead l [] h = refl
  dead l (s ∷ ss) h = rw h refl

  log_all-Logs :
      (l : Log) (ss : List Statement)
      → AllPlain env ss
      → Kept env l
      → l.aborted ≡ false
      → Logs env l (lines_of env l.log_level ss) (ends l.log_level ss) (log_all env l ss)
  unfolding log_all log
  log_all-Logs l [] p k alive = record {
    result = l;
    returns = refl;
    output = sym (append-nil l.output);
    aborted = alive;
    level = refl;
    kept = k;
  }
  log_all-Logs l (s ∷ ss) p k alive = elim (Bool-cases (is_shown l.log_level s)) [
    | inr silent ↦
        let r = log_all-Logs l ss p.1 k alive in
        record {
          result = r.result;
          returns = simp (alive, silent, r.returns);
          output = r.output ∙ ap (λ x. l.output ++ x) (sym (rw silent refl));
          aborted = r.aborted ∙ rw silent refl;
          level = r.level;
          kept = r.kept;
        }
    | inl shown ↦
        let w = write_line-Logs l s p.0 k alive in
        let on : log_all env l (s ∷ ss) ≡ log_all env w.result ss =
          simp (alive, shown, w.returns) in
        elim (Bool-cases (is_fatal (level_of s.kind))) [
          | inl fatal ↦
              let line : lines_of env l.log_level (s ∷ ss) ≡ render_all (pieces env s) ++ [] =
                rw (shown, fatal) refl in
              let over : ends l.log_level (s ∷ ss) ≡ true = rw (shown, fatal) refl in
              record {
                result = w.result;
                returns = on ∙ dead w.result ss (w.aborted ∙ fatal);
                output =
                    w.output
                    ∙ ap (λ x. l.output ++ x) (sym (append-nil _))
                    ∙ ap (λ x. l.output ++ x) (sym line);
                aborted = w.aborted ∙ fatal ∙ sym over;
                level = w.level;
                kept = w.kept;
              }
          | inr other ↦
              let rest = lines_of env l.log_level ss in
              let line : lines_of env l.log_level (s ∷ ss) ≡ render_all (pieces env s) ++ rest =
                rw (shown, other) refl in
              let over : ends l.log_level (s ∷ ss) ≡ ends l.log_level ss = rw (shown, other) refl in
              let r = log_all-Logs w.result ss p.1 w.kept (w.aborted ∙ other) in
              record {
                result = r.result;
                returns = on ∙ r.returns;
                output =
                    r.output
                    ∙ ap (λ x. x ++ lines_of env w.result.log_level ss) w.output
                    ∙ ap (λ v. (l.output ++ render_all (pieces env s)) ++ lines_of env v ss) w.level
                    ∙ append_assoc l.output (render_all (pieces env s)) rest
                    ∙ ap (λ x. l.output ++ x) (sym line);
                aborted = r.aborted ∙ ap (λ v. ends v ss) w.level ∙ sym over;
                level = r.level ∙ w.level;
                kept = r.kept;
              }
        ]
  ]

  -- In a thread whose id prints as 6 bytes, which is one below 100000, and for statements from
  -- 1970-01-01 00:00:01 to the year 9999 whose lines have room in the buffer of their
  -- stream, no statement fails: the output is the line of each statement that the level lets through,
  -- in order, up to the first fatal one, which ends the process; and each line has the time of its own
  -- statement, whichever text was kept before.
  pub log_all-new_log :
      (level : LogLevel) (ss : List Statement)
      → AllPlain env ss
      → Logs env
          (new_log level)
          (lines_of env level ss)
          (ends level ss)
          (log_all env (new_log level) ss)
  unfolding new_log
  log_all-new_log level ss p =
      log_all-Logs (new_log level) ss p (λ h. absurd (omega (arith, h))) refl
