-- ===== src/Base/AsyncLogging/Writer/Runs.antt =====
-- The exchange of buffers in `threadFunc` of base/AsyncLogging.cc, and any sequence of turns of the
-- threads.
use leaf.Shared.{
  ℕ, ◌≡◌, refl, sym, Bool-cases, inl, inr, ap, ◌∙◌, Bool, true, false, List, [], ◌∷◌, ◌++◌, Option,
  none, some, if◌then◌else◌, arith, append_assoc, append-nil, length-append, subst,
}
use leaf.Shared.Outcome.{Outcome, ok}
use leaf.Base.LogStream.{FixedBuffer, as_string}
use leaf.Base.LogStream.Fresh.{
  IsFresh, fixed_buffer-IsFresh, bzero-IsFresh, IsFresh-valid, as_string-IsFresh,
}
use leaf.Base.AsyncLogging.{AsyncLogging}
use leaf.Base.AsyncLogging.Lines.{
  texts, waiting, kept, IsSpare, AllSized, Explains, IsSound, texts-append, AllSized-append,
  append_line-Appends,
}
use leaf.Base.AsyncLogging.Writer.{
  Logger, new_logger, fill_next, collect_with, collect, Event, line, writer, stop, append_front,
  test_running, advance, step, run,
}
use leaf.Base.AsyncLogging.Writer.Rounds.{
  history, IsFilled, Suffices, IsIdle, At, Keeps, Returns, finish-Returns,
}

fill_next-IsSpare :
    (size : ℕ) (next new2 : Option FixedBuffer)
    → IsSpare size next
    → IsFilled size new2
    → IsSpare size (fill_next next new2).0 × IsSpare size (fill_next next new2).1
unfolding fill_next
fill_next-IsSpare size next none h k = elim k [ ]
fill_next-IsSpare size none (some g) h k = (k, tt)
fill_next-IsSpare size (some f) (some g) h k = (h, k)

fill_next-Explains :
    (size : ℕ) (next new2 : Option FixedBuffer) (fs : List FixedBuffer)
    → IsFilled size new2
    → Explains [] (fill_next next new2).0
unfolding fill_next
fill_next-Explains size next none fs k = elim k [ ]
fill_next-Explains size none (some g) fs k = tt
fill_next-Explains size (some f) (some g) fs k = tt

fill_next-Suffices :
    (size : ℕ) (next new2 : Option FixedBuffer) (fs : List FixedBuffer) (f : FixedBuffer)
    → Explains fs next
    → IsFilled size new2
    → Suffices (fs ++ f ∷ []) (fill_next next new2).1
unfolding fill_next
fill_next-Suffices size next none fs f h k = elim k [ ]
fill_next-Suffices size none (some g) fs f h k = omega (arith, length-append fs (f ∷ []))
fill_next-Suffices size (some g) (some b) fs f h k = omega (arith, length-append fs (f ∷ []))

pub collect_with-Returns :
    (l : Logger) (logged : List ℕ) (o : Option FixedBuffer)
    → IsSound l.front
    → IsIdle l
    → IsFilled l.front.size o
    → (l.overloaded ≡ false → history l ≡ logged)
    → Returns l.front.size logged (collect_with l o)
unfolding collect_with
collect_with-Returns l logged none s w k t = elim k [ ]
collect_with-Returns l logged (some new1) s w k t =
    let size = l.front.size in
    let next = l.front.next_buffer in
    let spare = fill_next-IsSpare size next l.new_buffer2 s.spare w.second in
    record {
      result = record l {
        front = record l.front {
          current_buffer = new1;
          next_buffer = (fill_next next l.new_buffer2).0;
          buffers = [];
        };
        new_buffer1 = none;
        new_buffer2 = (fill_next next l.new_buffer2).1;
        collecting = false;
        writing = true;
        buffers_to_write = l.front.buffers ++ l.front.current_buffer ∷ [];
      };
      returns = refl;
      size = refl;
      keeps = record {
        front = record {
          valid = IsFresh-valid k;
          sized = k.sized;
          spare = spare.0;
          others = tt;
          used = fill_next-Explains size next l.new_buffer2 l.front.buffers w.second;
        };
        at = record {
          given = refl;
          second = spare.1;
          enough =
              fill_next-Suffices size next l.new_buffer2 l.front.buffers l.front.current_buffer
                s.used w.second;
          sized = AllSized-append size l.front.buffers l.front.current_buffer s.others s.sized;
        };
        text = λ e. ap (◌++◌ l.output) (moved new1 k) ∙ t e;
      };
    }
  where
    moved :
        (f : FixedBuffer)
        → IsFresh l.front.size f
        → texts (l.front.buffers ++ l.front.current_buffer ∷ []) ++ as_string f
          ≡ texts l.buffers_to_write ++ waiting l.front
    moved f k =
        ap (◌++◌ (texts (l.front.buffers ++ l.front.current_buffer ∷ []))) (as_string-IsFresh k)
        ∙ append-nil (texts (l.front.buffers ++ l.front.current_buffer ∷ []))
        ∙ texts-append l.front.buffers l.front.current_buffer
        ∙ ap (λ fs. texts fs ++ waiting l.front) (sym w.written)

same-Returns : (l : Logger) (logged : List ℕ) → Keeps l logged → Returns l.front.size logged (ok l)
same-Returns l logged k = record { result = l; returns = refl; size = refl; keeps = k }

advance_if :
    (size : ℕ) (logged : List ℕ) {x y z : Outcome Logger} (w r : Bool)
    → (w ≡ true → Returns size logged x)
    → (w ≡ false → Returns size logged y)
    → Returns size logged z
    → Returns size logged (if w then x else if r then y else z)
advance_if size logged true r hx hy hz = hx refl
advance_if size logged false true hx hy hz = hy refl
advance_if size logged false false hx hy hz = hz

at_test : (l : Logger) (w : Bool) → At w l → At w (record l { collecting = true })
at_test l true h = record { given = h.given; second = h.second; enough = h.enough; sized = h.sized }
at_test l false h = record { first = h.first; second = h.second; written = h.written }

stays : (l : Logger) → l.running ≡ false → test_running l ≡ l
unfolding test_running
stays l over = simp over

enters : (l : Logger) → l.running ≡ true → test_running l ≡ record l { collecting = true }
unfolding test_running
enters l on = simp on

test_running-Returns :
    (l : Logger) (logged : List ℕ)
    → Keeps l logged
    → Returns l.front.size logged (ok (test_running l))
test_running-Returns l logged k = elim (Bool-cases l.running) [
  | inr over ↦
      subst (λ x. Returns l.front.size logged (ok x)) (sym (stays l over)) (same-Returns l logged k)
  | inl on ↦
      subst (λ x. Returns l.front.size logged (ok x)) (sym (enters l on))
        (record {
          result = record l { collecting = true };
          returns = refl;
          size = refl;
          keeps = record { front = k.front; at = at_test l l.writing k.at; text = k.text };
        })
]

pub advance-Returns :
    (message : ℕ → List ℕ) (l : Logger) (logged : List ℕ)
    → Keeps l logged
    → Returns l.front.size logged (advance message l)
unfolding advance collect
advance-Returns message l logged k =
    advance_if l.front.size logged l.writing l.collecting
      (λ e. finish-Returns message l logged (subst (λ w. At w l) e k.at) k.front k.text)
      (λ e.
        let idle : IsIdle l = subst (λ w. At w l) e k.at in
        collect_with-Returns l logged l.new_buffer1 k.front idle idle.first k.text)
      (test_running-Returns l logged k)

-- What an event adds to the log of buffers of this size.
abbrev pub added : ℕ → Event → List ℕ
added size (line text) = kept size text
added size (writer message) = []
added size stop = []

at_front :
    (l : Logger) (a : AsyncLogging) (w : Bool)
    → a.size ≡ l.front.size
    → At w l
    → At w (record l { front = a })
at_front l a true e h = record {
  given = h.given;
  second = subst (λ n. IsSpare n l.new_buffer2) (sym e) h.second;
  enough = h.enough;
  sized = subst (λ n. AllSized n l.buffers_to_write) (sym e) h.sized;
}
at_front l a false e h = record {
  first = subst (λ n. IsFilled n l.new_buffer1) (sym e) h.first;
  second = subst (λ n. IsFilled n l.new_buffer2) (sym e) h.second;
  written = h.written;
}

at_stop : (l : Logger) (w : Bool) → At w l → At w (record l { running = false })
at_stop l true h = record { given = h.given; second = h.second; enough = h.enough; sized = h.sized }
at_stop l false h = record { first = h.first; second = h.second; written = h.written }

regroup : (a b c d : List ℕ) → a ++ (b ++ (c ++ d)) ≡ (a ++ (b ++ c)) ++ d
regroup a b c d = simp append_assoc

pub step-Returns :
    (l : Logger) (logged : List ℕ) (e : Event)
    → Keeps l logged
    → Returns l.front.size (logged ++ added l.front.size e) (step l e)
unfolding step append_front
step-Returns l logged (line text) k =
    let r = append_line-Appends l.front text k.front in
    record {
      result = record l { front = r.result };
      returns = rw r.returns refl;
      size = r.size;
      keeps = record {
        front = r.sound;
        at = at_front l r.result l.writing r.size k.at;
        text = λ e.
            ap (λ xs. l.output ++ (texts l.buffers_to_write ++ xs)) r.text
            ∙ regroup l.output (texts l.buffers_to_write) (waiting l.front) (kept l.front.size text)
            ∙ ap (λ xs. xs ++ kept l.front.size text) (k.text e);
      };
    }
step-Returns l logged (writer message) k =
    subst (λ xs. Returns l.front.size xs (advance message l)) (sym (append-nil logged))
      (advance-Returns message l logged k)
step-Returns l logged stop k = record {
  result = record l { running = false };
  returns = refl;
  size = refl;
  keeps = record {
    front = k.front;
    at = at_stop l l.writing k.at;
    text = λ e. k.text e ∙ sym (append-nil logged);
  };
}

-- What the lines add, in their order.
abbrev pub lines : ℕ → List Event → List ℕ
lines size [] = []
lines size (e ∷ es) = added size e ++ lines size es

run-Returns :
    (size : ℕ) (es : List Event) (l : Logger) (logged : List ℕ)
    → l.front.size ≡ size
    → Keeps l logged
    → Returns size (logged ++ lines size es) (run es l)
unfolding run
run-Returns size [] l logged e k = record {
  result = l;
  returns = refl;
  size = e;
  keeps = subst (Keeps l) (sym (append-nil logged)) k;
}
run-Returns size (v ∷ es) l logged e k =
    let r = step-Returns l logged v k in
    let rest = run-Returns size es r.result _ (r.size ∙ e) r.keeps in
    let same : (logged ++ added l.front.size v) ++ lines size es ≡ logged ++ lines size (v ∷ es) =
      append_assoc logged (added l.front.size v) (lines size es)
      ∙ ap (λ n. logged ++ (added n v ++ lines size es)) e in
    record {
      result = rest.result;
      returns = rw r.returns rest.returns;
      size = rest.size;
      keeps = subst (Keeps rest.result) same rest.keeps;
    }

new_logger-Keeps : (size : ℕ) → Keeps (new_logger size) []
unfolding new_logger
new_logger-Keeps size =
    let fresh = bzero-IsFresh (fixed_buffer-IsFresh size) in
    record {
      front = record {
        valid = IsFresh-valid fresh;
        sized = fresh.sized;
        spare = fresh;
        others = tt;
        used = tt;
      };
      at = record { first = fresh; second = fresh; written = refl };
      text = λ e. as_string-IsFresh fresh;
    }

-- However the threads that log and the thread that writes take turns, no call and no round fails, and
-- no assertion; and unless more than 25 buffers waited at once, what is written, what is being written
-- and what waits are together exactly the lines that were appended, each whole and in order. A line
-- that is not shorter than a buffer counts as empty.
pub run-new_logger :
    (size : ℕ) (es : List Event) → Returns size (lines size es) (run es (new_logger size))
unfolding new_logger
run-new_logger size es = run-Returns size es (new_logger size) [] refl (new_logger-Keeps size)
