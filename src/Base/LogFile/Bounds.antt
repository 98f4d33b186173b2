-- ===== src/Base/LogFile/Bounds.antt =====
-- When `append` of base/LogFile.cc starts a new file.
use leaf.Shared.{
  ℕ, ◌+◌, ◌*◌, ◌/◌, ◌≤◌, ◌<◌, ◌≡◌, refl, inl, inr, Bool, true, false, not, ◌&&◌, ◌||◌, List, [],
  ◌∷◌, ◌++◌, some, ltb, ◌==◌, if◌then◌else◌, arith, lt→ltb, le→ltb, lt_or_le, Bool-cases,
}
use leaf.Shared.Outcome.{Outcome, ok}
use leaf.Base.LogFile.{
  File, Env, LogFile, check_time_roll, roll_per_seconds, file_append, file_flush, new_file,
  close_old, roll_file, check_time, after_append, append_to, append,
}

-- The file has become too long, or a look at the clock finds another day.
abbrev pub turns : Env → LogFile → File → Bool
turns env l f =
    ltb l.roll_size f.written_bytes
    || (ltb check_time_roll l.count
        && not (env.now / roll_per_seconds * roll_per_seconds == l.start_of_period))

-- A new file was started behind `f`, or `f` is still in use, with the same content.
pub record Starts (env : Env) (l : LogFile) (f : File) (started : Bool) (r : Outcome LogFile)
    : Type 0 where
  pub result : LogFile
  pub returns : r ≡ ok result
  pub current : File
  pub file : result.file ≡ some current
  pub closed : result.closed ≡ (if started then l.closed ++ f ∷ [] else l.closed)
  pub contents : current.contents ≡ (if started then [] else f.contents)
  pub bound : current.written_bytes ≤ l.roll_size

module _ (env : Env) (l : LogFile) (f : File) (later : l.last_roll < env.roll_now)
    (opens : env.can_open ≡ true) (file : l.file ≡ some f) where
  roll_file-Starts : (n : ℕ) → Starts env l f true (roll_file env (record l { count = n }))
  unfolding roll_file close_old new_file
  roll_file-Starts n =
      rw (lt→ltb _ _ later, opens, file)
        (record {
          result = record l {
            count = n;
            last_roll = env.roll_now;
            last_flush = env.roll_now;
            start_of_period = env.roll_now / roll_per_seconds * roll_per_seconds;
            file = some (new_file env.roll_now);
            closed = l.closed ++ f ∷ [];
          };
          returns = refl;
          current = new_file env.roll_now;
          file = refl;
          closed = refl;
          contents = refl;
          bound = omega arith;
        })

  check_time-Starts :
      f.written_bytes ≤ l.roll_size
      → Starts env l f
          (not (env.now / roll_per_seconds * roll_per_seconds == l.start_of_period))
          (check_time env (record l { count = 0 }) f)
  unfolding check_time file_flush
  check_time-Starts short =
      elim (Bool-cases (env.now / roll_per_seconds * roll_per_seconds == l.start_of_period)) [
        | inl same ↦ rw same (flushed (ltb (l.last_flush + l.flush_interval) env.now))
        | inr other ↦ rw other (roll_file-Starts 0)
      ]
    where
      flushed :
          (b : Bool)
          → Starts env l f false (
              ok (
                if b
                then record l { count = 0; last_flush = env.now; file = some (file_flush f) }
                else record l { count = 0 }))
      flushed true = record {
        result = record l { count = 0; last_flush = env.now; file = some (file_flush f) };
        returns = refl;
        current = file_flush f;
        file = refl;
        closed = refl;
        contents = refl;
        bound = short;
      }
      flushed false = record {
        result = record l { count = 0 };
        returns = refl;
        current = f;
        file = file;
        closed = refl;
        contents = refl;
        bound = short;
      }

  after_append-Starts : Starts env l f (turns env l f) (after_append env l f)
  unfolding after_append
  after_append-Starts = elim (lt_or_le (l.roll_size) f.written_bytes) [
    | inl long ↦ rw (lt→ltb _ _ long) (roll_file-Starts l.count)
    | inr short ↦ rw (le→ltb _ _ short) (elim (Bool-cases (ltb check_time_roll l.count)) [
      | inl due ↦ rw due (check_time-Starts short)
      | inr undue ↦ rw undue (record {
        result = record l { count = l.count + 1 };
        returns = refl;
        current = f;
        file = file;
        closed = refl;
        contents = refl;
        bound = short;
      })
    ])
  ]

-- A call in a later second than the last roll, where the new file can be opened, starts a new file
-- exactly when the line has made the current one longer than the limit, or, when it has not, the
-- count of calls stands above 1024 and the day is another; the line then ends the old file. The count
-- leaves out the calls that made a file longer than the limit. Whatever the call does, the file in use
-- is not longer than the limit when it returns.
pub append-Starts :
    (env : Env) (l : LogFile) (f : File) (line : List ℕ)
    → l.file ≡ some f
    → l.last_roll < env.roll_now
    → env.can_open ≡ true
    → Starts env l
        (file_append env.write f line)
        (turns env l (file_append env.write f line))
        (append env l line)
unfolding append append_to
append-Starts env l f line file later opens =
    let f' = file_append env.write f line in
    let r = after_append-Starts env (record l { file = some f' }) f' later opens refl in
    rw file (record {
      result = r.result;
      returns = r.returns;
      current = r.current;
      file = r.file;
      closed = r.closed;
      contents = r.contents;
      bound = r.bound;
    })
