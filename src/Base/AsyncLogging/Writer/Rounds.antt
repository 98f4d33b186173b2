-- ===== src/Base/AsyncLogging/Writer/Rounds.antt =====
-- The invariant of base/AsyncLogging.cc, and what `threadFunc` does after the exchange of buffers.
use leaf.Shared.{
  ℕ, suc, ◌+◌, ◌-◌, ◌≤◌, ◌<◌, ◌≡◌, refl, ap, ◌∙◌, inl, inr, Bool, true, false, List, [], ◌∷◌, ◌++◌,
  Option, none, some, length, take, arith, append_assoc, lt→ltb, le→ltb, lt_or_le,
}
use leaf.Shared.Outcome.{Outcome, ok}
use leaf.Base.LogStream.{FixedBuffer, reset}
use leaf.Base.LogStream.Fresh.{IsFresh, reset-IsFresh}
use leaf.Base.AsyncLogging.Lines.{texts, waiting, IsSpare, AllSized, Explains, IsSound}
use leaf.Base.AsyncLogging.Writer.{Logger, shrink, write_buffers, pop_back, refill, reuse, finish}

-- Everything that the log was given, oldest first.
abbrev pub history : Logger → List ℕ
history l = l.output ++ (texts l.buffers_to_write ++ waiting l.front)

abbrev pub IsFilled : ℕ → Option FixedBuffer → Type 0
IsFilled size none = ⊥
IsFilled size (some f) = IsFresh size f

-- The buffers at hand are enough to fill both places.
abbrev pub Suffices : List FixedBuffer → Option FixedBuffer → Type 0
Suffices fs none = 2 ≤ length fs
Suffices fs (some f) = 1 ≤ length fs

pub record IsIdle (l : Logger) : Type 0 where
  pub first : IsFilled l.front.size l.new_buffer1
  pub second : IsFilled l.front.size l.new_buffer2
  pub written : l.buffers_to_write ≡ []

pub record IsWriting (l : Logger) : Type 0 where
  pub given : l.new_buffer1 ≡ none
  pub second : IsSpare l.front.size l.new_buffer2
  pub enough : Suffices l.buffers_to_write l.new_buffer2
  pub sized : AllSized l.front.size l.buffers_to_write

abbrev pub At : Bool → Logger → Type 0
At true l = IsWriting l
At false l = IsIdle l

-- The invariant, after these bytes were appended.
pub record Keeps (l : Logger) (logged : List ℕ) : Type 0 where
  pub front : IsSound l.front
  pub at : At l.writing l
  pub text : l.overloaded ≡ false → history l ≡ logged

pub record Returns (bytes : ℕ) (logged : List ℕ) (r : Outcome Logger) : Type 0 where
  pub result : Logger
  pub returns : r ≡ ok result
  pub size : result.front.size ≡ bytes
  pub keeps : Keeps result logged

module _ (size : ℕ) where
  take2-AllSized : (fs : List FixedBuffer) → AllSized size fs → AllSized size (take 2 fs)
  take2-AllSized [] h = tt
  take2-AllSized (f ∷ []) h = h
  take2-AllSized (f ∷ g ∷ fs) h = (h.0, (h.1.0, tt))

  pop_back-sized :
      (f : FixedBuffer) (fs : List FixedBuffer)
      → AllSized size (f ∷ fs)
      → (length (pop_back f fs).0.bytes ≡ size) × AllSized size (pop_back f fs).1
  pop_back-sized f [] h = h
  pop_back-sized f (g ∷ gs) h = let r = pop_back-sized g gs h.1 in (r.0, (h.0, r.1))

  length-pop_back : (f : FixedBuffer) (fs : List FixedBuffer) → length (pop_back f fs).1 ≡ length fs
  length-pop_back f [] = refl
  length-pop_back f (g ∷ gs) = ap suc (length-pop_back g gs)

  record Refills (fs : List FixedBuffer) (r : Outcome (FixedBuffer × List FixedBuffer))
      : Type 0 where
    result : FixedBuffer × List FixedBuffer
    returns : r ≡ ok result
    fresh : IsFresh size result.0
    sized : AllSized size result.1
    left : length fs ≤ length result.1 + 1

  refill-Refills :
      (o : Option FixedBuffer) (fs : List FixedBuffer)
      → IsSpare size o
      → AllSized size fs
      → Explains fs o
      → Refills fs (refill o fs)
  unfolding refill
  refill-Refills (some f) fs s h e = record {
    result = (f, fs);
    returns = refl;
    fresh = s;
    sized = h;
    left = omega arith;
  }
  refill-Refills none [] s h e = absurd (omega arith)
  refill-Refills none (f ∷ fs) s h e =
      let p = pop_back-sized f fs h in
      record {
        result = (reset (pop_back f fs).0, (pop_back f fs).1);
        returns = refl;
        fresh = reset-IsFresh (pop_back f fs).0 p.0;
        sized = p.1;
        left = omega (arith, length-pop_back f fs);
      }

-- What is left for the second place.
second-Explains :
    (o : Option FixedBuffer) (fs rest : List FixedBuffer)
    → Suffices fs o
    → length (take 2 fs) ≤ length rest + 1
    → Explains rest o
second-Explains (some f) fs rest h k = tt
second-Explains none [] rest h k = absurd (omega arith)
second-Explains none (f ∷ []) rest h k = absurd (omega arith)
second-Explains none (f ∷ g ∷ fs) rest h k = omega arith

first-Explains :
    (o : Option FixedBuffer) (fs : List FixedBuffer) → Suffices fs o → Explains (take 2 fs) none
first-Explains none [] h = absurd (omega arith)
first-Explains (some f) [] h = absurd (omega arith)
first-Explains o (f ∷ []) h = omega arith
first-Explains o (f ∷ g ∷ fs) h = omega arith

reuse-Returns :
    (l : Logger) (logged : List ℕ)
    → IsSound l.front
    → IsWriting l
    → (l.overloaded ≡ false → l.output ++ waiting l.front ≡ logged)
    → Returns l.front.size logged (reuse l)
unfolding reuse
reuse-Returns l logged s w t =
    let size = l.front.size in
    let bs = take 2 l.buffers_to_write in
    let r1 =
      refill-Refills size none bs tt (take2-AllSized size l.buffers_to_write w.sized)
        (first-Explains l.new_buffer2 l.buffers_to_write w.enough) in
    let r2 =
      refill-Refills size l.new_buffer2 r1.result.1 w.second r1.sized
        (second-Explains l.new_buffer2 l.buffers_to_write r1.result.1 w.enough r1.left) in
    record {
      result = record l {
        new_buffer1 = some r1.result.0;
        new_buffer2 = some r2.result.0;
        writing = false;
        buffers_to_write = [];
      };
      returns = rw (w.given, r1.returns, r2.returns) refl;
      size = refl;
      keeps = record {
        front = s;
        at = record { first = r1.fresh; second = r2.fresh; written = refl };
        text = t;
      };
    }

two_suffice :
    (fs : List FixedBuffer) (o : Option FixedBuffer) → 2 ≤ length fs → Suffices (take 2 fs) o
two_suffice [] o h = absurd (omega arith)
two_suffice (f ∷ []) o h = absurd (omega arith)
two_suffice (f ∷ g ∷ fs) none h = omega arith
two_suffice (f ∷ g ∷ fs) (some b) h = omega arith

one_at_least : (fs : List FixedBuffer) (o : Option FixedBuffer) → Suffices fs o → 0 < length fs
one_at_least fs none h = omega arith
one_at_least fs (some b) h = omega arith

pub finish-Returns :
    (message : ℕ → List ℕ) (l : Logger) (logged : List ℕ)
    → IsWriting l
    → IsSound l.front
    → (l.overloaded ≡ false → history l ≡ logged)
    → Returns l.front.size logged (finish message l)
unfolding finish shrink write_buffers
finish-Returns message l logged w s t =
    rw
      (lt→ltb 0 (length l.buffers_to_write)
        (one_at_least l.buffers_to_write l.new_buffer2 w.enough))
      (elim (lt_or_le 25 (length l.buffers_to_write)) [
        | inl many ↦
            let cut = record l {
              output = l.output ++ message (length l.buffers_to_write - 2);
              buffers_to_write = take 2 l.buffers_to_write;
              overloaded = true;
            } in
            rw (lt→ltb _ _ many) (
              reuse-Returns (write_buffers cut) logged s
                (record {
                  given = w.given;
                  second = w.second;
                  enough = two_suffice l.buffers_to_write l.new_buffer2 (omega (arith, many));
                  sized = take2-AllSized l.front.size l.buffers_to_write w.sized;
                })
                (λ e. absurd (cc)))
        | inr few ↦ rw (le→ltb _ _ few) (
            reuse-Returns (write_buffers l) logged s
              (record { given = w.given; second = w.second; enough = w.enough; sized = w.sized })
              (λ e. append_assoc l.output (texts l.buffers_to_write) (waiting l.front) ∙ t e))
      ])
