-- ===== src/Base/AsyncLogging/Lines.antt =====
-- The lines that `append` of base/AsyncLogging.cc takes, against the text of all buffers.
use leaf.Shared.{
  ℕ, ◌≤◌, ◌<◌, ◌≡◌, refl, sym, ap, ◌∙◌, inl, inr, Bool, true, false, List, [], ◌∷◌, ◌++◌, Option,
  none, some, ltb, if◌then◌else◌, length, arith, append_assoc, append-nil, lt→ltb, le→ltb, lt_or_le,
  length-append,
}
use leaf.Shared.Outcome.{Outcome, ok}
use leaf.Base.LogStream.{FixedBuffer, avail, as_string}
use leaf.Base.LogStream.Stream.{IsValid, append-Holds}
use leaf.Base.LogStream.Fresh.{
  IsFresh, fixed_buffer-IsFresh, IsFresh-valid, avail-IsFresh, as_string-IsFresh, avail-le-length,
}
use leaf.Base.AsyncLogging.{AsyncLogging, next_or_new, rotate, append_current, append_line}

-- The text of all buffers, oldest first.
abbrev pub texts : List FixedBuffer → List ℕ
texts [] = []
texts (f ∷ fs) = as_string f ++ texts fs

abbrev pub waiting : AsyncLogging → List ℕ
waiting a = texts a.buffers ++ as_string a.current_buffer

-- What is left of a line: the buffer drops a line that is not shorter than itself.
abbrev pub kept : ℕ → List ℕ → List ℕ
kept size line = if ltb (length line) size then line else []

abbrev pub IsSpare : ℕ → Option FixedBuffer → Type 0
IsSpare size none = Unit {0}
IsSpare size (some f) = IsFresh size f

abbrev pub AllSized : ℕ → List FixedBuffer → Type 0
AllSized size [] = Unit {0}
AllSized size (f ∷ fs) = (length f.bytes ≡ size) × AllSized size fs

-- The spare buffer is in use only when a full one waits.
abbrev pub Explains : List FixedBuffer → Option FixedBuffer → Type 0
Explains fs none = 1 ≤ length fs
Explains fs (some f) = Unit {0}

pub record IsSound (a : AsyncLogging) : Type 0 where
  pub valid : IsValid a.current_buffer
  pub sized : length a.current_buffer.bytes ≡ a.size
  pub spare : IsSpare a.size a.next_buffer
  pub others : AllSized a.size a.buffers
  pub used : Explains a.buffers a.next_buffer

-- The call returns, and `added` stands behind everything that waits to be written.
pub record Appends (a : AsyncLogging) (added : List ℕ) (r : Outcome AsyncLogging) : Type 0 where
  pub result : AsyncLogging
  pub returns : r ≡ ok result
  pub sound : IsSound result
  pub size : result.size ≡ a.size
  pub text : waiting result ≡ waiting a ++ added

pub texts-append :
    (fs : List FixedBuffer) (f : FixedBuffer) → texts (fs ++ f ∷ []) ≡ texts fs ++ as_string f
texts-append [] f = append-nil (as_string f)
texts-append (g ∷ fs) f =
    ap (◌++◌ (as_string g)) (texts-append fs f)
    ∙ sym (append_assoc (as_string g) (texts fs) (as_string f))

pub AllSized-append :
    (size : ℕ) (fs : List FixedBuffer) (f : FixedBuffer)
    → AllSized size fs
    → length f.bytes ≡ size
    → AllSized size (fs ++ f ∷ [])
AllSized-append size [] f h k = (k, tt)
AllSized-append size (g ∷ fs) f h k = (h.0, AllSized-append size fs f h.1 k)

-- What the current buffer does with a text.
current_text :
    (a : AsyncLogging) (line text : List ℕ)
    → IsSound a
    → (if ltb (length line) (avail a.current_buffer)
        then as_string a.current_buffer ++ line
        else as_string a.current_buffer)
      ≡ as_string a.current_buffer ++ text
    → Appends a text (append_current a line)
unfolding append_current
current_text a line text s same =
    let h = append-Holds a.current_buffer s.valid line in
    record {
      result = record a { current_buffer = h.result };
      returns = rw h.returns;
      sound = record {
        valid = h.valid;
        sized = h.size ∙ s.sized;
        spare = s.spare;
        others = s.others;
        used = s.used;
      };
      size = refl;
      text =
          ap (◌++◌ (texts a.buffers)) (h.holds ∙ same)
          ∙ sym (append_assoc (texts a.buffers) (as_string a.current_buffer) text);
    }

next-IsFresh :
    (size : ℕ) (o : Option FixedBuffer) → IsSpare size o → IsFresh size (next_or_new size o)
unfolding next_or_new
next-IsFresh size none h = fixed_buffer-IsFresh size
next-IsFresh size (some f) h = h

module _ (a : AsyncLogging) (s : IsSound a) where
  rotated-IsFresh : IsFresh a.size (rotate a).current_buffer
  unfolding rotate
  rotated-IsFresh = next-IsFresh a.size a.next_buffer s.spare

  rotate-IsSound : IsSound (rotate a)
  unfolding rotate
  rotate-IsSound = record {
    valid = IsFresh-valid rotated-IsFresh;
    sized = rotated-IsFresh.sized;
    spare = tt;
    others = AllSized-append a.size a.buffers a.current_buffer s.others s.sized;
    used = omega (arith, length-append a.buffers (a.current_buffer ∷ []));
  }

  waiting-rotate : waiting (rotate a) ≡ waiting a
  unfolding rotate
  waiting-rotate =
      ap (◌++◌ (texts (a.buffers ++ a.current_buffer ∷ []))) (as_string-IsFresh rotated-IsFresh)
      ∙ append-nil (texts (a.buffers ++ a.current_buffer ∷ []))
      ∙ texts-append a.buffers a.current_buffer

added_if :
    (held line : List ℕ) (b : Bool)
    → (if b then held ++ line else held) ≡ held ++ (if b then line else [])
added_if held line true = refl
added_if held line false = sym (append-nil held)

module _ (a : AsyncLogging) (line : List ℕ) (s : IsSound a) where
  fits-Appends :
      length line < avail a.current_buffer → Appends a (kept a.size line) (append_current a line)
  fits-Appends h =
      let short : length line < a.size = omega (arith, h, avail-le-size) in
      current_text a line (kept a.size line) s (rw (lt→ltb _ _ h, lt→ltb _ _ short) refl)
    where
      avail-le-size : avail a.current_buffer ≤ a.size
      avail-le-size = omega (arith, avail-le-length a.current_buffer, s.sized)

  rotated-Appends : Appends a (kept a.size line) (append_current (rotate a) line)
  unfolding rotate
  rotated-Appends =
      let held = as_string (rotate a).current_buffer in
      let r = current_text (rotate a) line (kept a.size line) (rotate-IsSound a s) (
        ap (λ n. if ltb (length line) n then held ++ line else held)
          (avail-IsFresh (rotated-IsFresh a s))
        ∙ added_if held line (ltb (length line) a.size)) in
      record {
        result = r.result;
        returns = r.returns;
        sound = r.sound;
        size = r.size;
        text = r.text ∙ ap (λ xs. xs ++ kept a.size line) (waiting-rotate a s);
      }

  -- `append` always returns. A line that is shorter than a buffer is never lost: it stands behind
  -- everything that waits to be written. A longer one is dropped whole.
  pub append_line-Appends : Appends a (kept a.size line) (append_line a line)
  unfolding append_line
  append_line-Appends = elim (lt_or_le (length line) (avail a.current_buffer)) [
    | inl h ↦ rw (lt→ltb _ _ h) (fits-Appends h)
    | inr h ↦ rw (le→ltb _ _ h) rotated-Appends
  ]
