-- ===== src/Base/LogFile/Rolls.antt =====
-- A sequence of calls of `append` of base/LogFile.cc, against the files that they leave.
use leaf.Shared.{
  ℕ, ◌+◌, ◌*◌, ◌/◌, ◌≤◌, ◌<◌, ◌≡◌, refl, sym, ap, ◌∙◌, inl, inr, Bool, true, false, List, [], ◌∷◌,
  ◌++◌, some, ltb, ◌==◌, if◌then◌else◌, length, arith, lt→ltb, le→ltb, lt_or_le, append-nil,
  append_assoc, length-append, subst,
}
use leaf.Shared.Outcome.{Outcome, ok, ◌>>=◌}
use leaf.Base.LogFile.{
  File, Env, LogFile, check_time_roll, roll_per_seconds, file_append, file_flush, new_file,
  close_old, roll_file, check_time, after_append, append_to, append, has_slash, new_log_file,
  append_all,
}
use leaf.Base.LogFile.Writes.{TakesSome, file_append_complete}

-- The text of files, oldest first.
abbrev pub texts : List File → List ℕ
texts [] = []
texts (f ∷ fs) = f.contents ++ texts fs

-- Opened after this one, each.
abbrev Newer : ℕ → List File → Type 0
Newer s [] = Unit {0}
Newer s (f ∷ fs) = (s < f.opened) × Newer s fs

-- The files were opened in their order, in different seconds, and all before `t`.
abbrev pub Before : ℕ → List File → Type 0
Before t [] = Unit {0}
Before t (f ∷ fs) = (f.opened < t) × Newer f.opened fs × Before t fs

-- These lines are in the files, in order; no two files have one name.
pub record Keeps (l : LogFile) (lines : List ℕ) : Type 0 where
  pub current : File
  pub file : l.file ≡ some current
  pub opened : current.opened ≡ l.last_roll
  pub named : Before l.last_roll l.closed
  pub text : texts l.closed ++ current.contents ≡ lines
  pub size : current.written_bytes ≡ length current.contents
  pub counted : l.count ≤ 1025

pub record Returns (lines : List ℕ) (r : Outcome LogFile) : Type 0 where
  pub result : LogFile
  pub returns : r ≡ ok result
  pub keeps : Keeps result lines

-- fopen and fwrite succeed.
pub record Works (env : Env) : Type 0 where
  pub opens : env.can_open ≡ true
  pub writes : TakesSome env.write

texts-append : (fs : List File) (f : File) → texts (fs ++ f ∷ []) ≡ texts fs ++ f.contents
texts-append [] f = append-nil f.contents
texts-append (g ∷ fs) f =
    ap (◌++◌ g.contents) (texts-append fs f) ∙ sym (append_assoc g.contents (texts fs) f.contents)

Newer-append :
    (s : ℕ) (fs : List File) (f : File) → Newer s fs → s < f.opened → Newer s (fs ++ f ∷ [])
Newer-append s [] f h k = (k, tt)
Newer-append s (g ∷ fs) f h k = (h.0, Newer-append s fs f h.1 k)

Before-append :
    (t : ℕ) (fs : List File) (f : File)
    → Before f.opened fs
    → f.opened < t
    → Before t (fs ++ f ∷ [])
Before-append t [] f h k = (k, tt, tt)
Before-append t (g ∷ fs) f h k =
    (omega (arith, h.0, k), Newer-append g.opened fs f h.1 h.0, Before-append t fs f h.2 k)

ok-Returns : (l : LogFile) (lines : List ℕ) → Keeps l lines → Returns lines (ok l)
ok-Returns l lines k = record { result = l; returns = refl; keeps = k }

either-Returns :
    {lines : List ℕ} {x y : Outcome LogFile} (b : Bool)
    → Returns lines x
    → (b ≡ false → Returns lines y)
    → Returns lines (if b then x else y)
either-Returns true hx hy = hx
either-Returns false hx hy = hy refl

-- The current file is flushed.
flushed-Keeps :
    (l : LogFile) (lines : List ℕ) (f : File) (now : ℕ) (k : Keeps l lines)
    → k.current ≡ f
    → Keeps (record l { last_flush = now; file = some (file_flush f) }) lines
unfolding file_flush
flushed-Keeps l lines f now k e = record {
  current = file_flush f;
  file = refl;
  opened = ap (λ (x : File). x.opened) (sym e) ∙ k.opened;
  named = k.named;
  text = ap (λ (x : File). texts l.closed ++ x.contents) (sym e) ∙ k.text;
  size = subst (λ (x : File). x.written_bytes ≡ length x.contents) e k.size;
  counted = k.counted;
}

counted-Keeps :
    (l : LogFile) (lines : List ℕ) (n : ℕ)
    → Keeps l lines
    → n ≤ 1025
    → Keeps (record l { count = n }) lines
counted-Keeps l lines n k h = record {
  current = k.current;
  file = k.file;
  opened = k.opened;
  named = k.named;
  text = k.text;
  size = k.size;
  counted = h;
}

ok_if :
    {lines : List ℕ} (b : Bool) {x y : LogFile}
    → Keeps x lines
    → Keeps y lines
    → Returns lines (ok (if b then x else y))
ok_if true {x} {y} kx ky = ok-Returns x _ kx
ok_if false {x} {y} kx ky = ok-Returns y _ ky

module _ (env : Env) (works : Works env) where
  roll_file-Returns :
      (l : LogFile) (lines : List ℕ) → Keeps l lines → Returns lines (roll_file env l)
  unfolding roll_file close_old new_file
  roll_file-Returns l lines k = elim (lt_or_le l.last_roll env.roll_now) [
    | inl later ↦
        let f = k.current in
        rw (lt→ltb _ _ later, works.opens, k.file)
          (record {
            result = record l {
              last_roll = env.roll_now;
              last_flush = env.roll_now;
              start_of_period = env.roll_now / roll_per_seconds * roll_per_seconds;
              file = some (new_file env.roll_now);
              closed = l.closed ++ f ∷ [];
            };
            returns = refl;
            keeps = record {
              current = new_file env.roll_now;
              file = refl;
              opened = refl;
              named =
                  Before-append env.roll_now l.closed f
                    (subst (λ t. Before t l.closed) (sym k.opened) k.named)
                    (omega (arith, k.opened, later));
              text = append-nil (texts (l.closed ++ f ∷ [])) ∙ texts-append l.closed f ∙ k.text;
              size = refl;
              counted = k.counted;
            };
          })
    | inr early ↦ rw (le→ltb _ _ early) (ok-Returns l lines k)
  ]

  check_time-Returns :
      (l : LogFile) (lines : List ℕ) (f : File) (k : Keeps l lines)
      → k.current ≡ f
      → Returns lines (check_time env l f)
  unfolding check_time
  check_time-Returns l lines f k e =
      either-Returns (env.now / roll_per_seconds * roll_per_seconds == l.start_of_period)
        (ok_if (ltb (l.last_flush + l.flush_interval) env.now) (flushed-Keeps l lines f env.now k e)
          k)
        (λ _. roll_file-Returns l lines k)

  after_append-Returns :
      (l : LogFile) (lines : List ℕ) (f : File) (k : Keeps l lines)
      → k.current ≡ f
      → Returns lines (after_append env l f)
  unfolding after_append counted-Keeps
  after_append-Returns l lines f k e =
      either-Returns (ltb l.roll_size f.written_bytes) (roll_file-Returns l lines k) (λ _.
        either-Returns (ltb check_time_roll l.count)
          (check_time-Returns (record l { count = 0 }) lines f
            (counted-Keeps l lines 0 k (omega arith)) e)
          (λ t.
            let few : l.count + 1 ≤ 1025 = ground arith in
            ok-Returns (record l { count = l.count + 1 }) lines
              (counted-Keeps l lines (l.count + 1) k few)))

  append-Returns :
      (l : LogFile) (lines logline : List ℕ)
      → Keeps l lines
      → Returns (lines ++ logline) (append env l logline)
  unfolding append append_to
  append-Returns l lines logline k =
      let f = k.current in
      let f' = file_append env.write f logline in
      let w = file_append_complete env.write works.writes f logline in
      rw k.file (
        after_append-Returns (record l { file = some f' }) (lines ++ logline) f'
          (record {
            current = f';
            file = refl;
            opened = w.2 ∙ k.opened;
            named = k.named;
            text =
                ap (◌++◌ (texts l.closed)) w.0
                ∙ sym (append_assoc (texts l.closed) f.contents logline)
                ∙ ap (λ xs. xs ++ logline) k.text;
            size = omega (arith, w.1, k.size, ap length w.0, length-append f.contents logline);
            counted = k.counted;
          })
          refl)

abbrev pub AllWork : List (Env × List ℕ) → Type 0
AllWork [] = Unit {0}
AllWork ((env, line) ∷ rest) = Works env × AllWork rest

abbrev pub lines_of : List (Env × List ℕ) → List ℕ
lines_of [] = []
lines_of ((env, line) ∷ rest) = line ++ lines_of rest

append_all-Returns :
    (calls : List (Env × List ℕ)) (l : LogFile) (lines : List ℕ)
    → Keeps l lines
    → AllWork calls
    → Returns (lines ++ lines_of calls) (append_all l calls)
unfolding append_all
append_all-Returns [] l lines k h =
    subst (λ xs. Returns xs (ok l)) (sym (append-nil lines)) (ok-Returns l lines k)
append_all-Returns ((env, line) ∷ rest) l lines k h =
    let r = append-Returns env h.0 l lines line k in
    let all = append_all-Returns rest r.result (lines ++ line) r.keeps h.1 in
    rw r.returns (
      subst (λ xs. Returns xs (append_all r.result rest)) (append_assoc lines line (lines_of rest))
        all)

new_log_file-Returns :
    (env : Env) (basename : List ℕ) (roll_size flush_interval : ℕ)
    → Works env
    → 0 < env.roll_now
    → has_slash basename ≡ false
    → Returns [] (new_log_file env basename roll_size flush_interval)
unfolding new_log_file roll_file close_old new_file
new_log_file-Returns env basename roll_size flush_interval works late plain =
    rw (plain, lt→ltb _ _ late, works.opens)
      (record {
        result = record {
          roll_size = roll_size;
          flush_interval = flush_interval;
          count = 0;
          start_of_period = env.roll_now / roll_per_seconds * roll_per_seconds;
          last_roll = env.roll_now;
          last_flush = env.roll_now;
          file = some (new_file env.roll_now);
          closed = [];
        };
        returns = refl;
        keeps = record {
          current = new_file env.roll_now;
          file = refl;
          opened = refl;
          named = tt;
          text = refl;
          size = refl;
          counted = omega arith;
        };
      })

-- However the clock runs and fwrite cuts the lines up, while fopen and fwrite succeed no call fails,
-- and all lines are in the files, in order; the files were opened in different seconds, each after the
-- one before, so that no two have one name; and the count never leaves 0 to 1025.
pub append_all-new_log_file :
    (env : Env) (basename : List ℕ) (roll_size flush_interval : ℕ) (calls : List (Env × List ℕ))
    → Works env
    → 0 < env.roll_now
    → has_slash basename ≡ false
    → AllWork calls
    → Returns
        (lines_of calls)
        (new_log_file env basename roll_size flush_interval >>= λ l. append_all l calls)
append_all-new_log_file env basename roll_size flush_interval calls works late plain all =
    let r = new_log_file-Returns env basename roll_size flush_interval works late plain in
    rw r.returns (append_all-Returns calls r.result [] r.keeps all)
