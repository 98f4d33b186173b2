-- ===== src/Base/LogStream/Stream.antt =====
-- The stream operators of base/LogStream.h and base/LogStream.cc against the text that a buffer
-- holds.
use leaf.Shared.{
  ℕ, ◌+◌, ◌^◌, ◌≤◌, ◌<◌, ◌≡◌, refl, sym, ap, ◌∙◌, inl, inr, Bool, true, false, List, [], ◌∷◌, ◌++◌,
  Option, some, arith, length, take, drop, ltb, leb, if◌then◌else◌, lt_or_le, lt→ltb, le→ltb,
  le→leb, lt→leb, append-nil, subst, length-take, length-write, take_append_exact, length-append,
  append_assoc,
}
use leaf.Shared.Memory.{write_at_lem}
use leaf.Shared.Outcome.{Outcome, ok, ◌>>=◌}
use leaf.Base.LogStream.{
  FixedBuffer, avail, as_string, add, write_current, append, convert, max_numeric_size, write_text,
  format_integer, put_char, put_pointer, put_double, Operand, bool, char, integer, pointer, double,
  text, put, put_all,
}
use leaf.Base.LogStream.Convert.{magnitude, convert-IsTextOf, read_int}
use leaf.Base.LogStream.Hex.{read_hex, convert_hex-reads}

-- The cursor stands in the array.
abbrev pub IsValid : FixedBuffer → Type 0
IsValid f = f.cur ≤ length f.bytes

-- The call ends, the array keeps its size, and the buffer holds `held`.
pub record Holds (f : FixedBuffer) (held : List ℕ) (r : Outcome FixedBuffer) : Type 0 where
  pub result : FixedBuffer
  pub returns : r ≡ ok result
  pub valid : IsValid result
  pub size : length result.bytes ≡ length f.bytes
  pub holds : as_string result ≡ held

module _ (f : FixedBuffer) (v : IsValid f) where
  -- Bytes are written, of which the first ones count.
  write-Holds :
      (xs pad : List ℕ)
      → length xs + length pad ≤ avail f
      → Holds f (as_string f ++ xs) (write_current f (xs ++ pad) >>= λ f'. ok (add f' (length xs)))
  unfolding avail as_string write_current add
  write-Holds xs pad room = record {
    result = f';
    returns = rw (write_at_lem f.bytes f.cur (xs ++ pad) fits);
    valid = omega (arith, size, length-append xs pad);
    size = size;
    holds =
        ap (take (f.cur + length xs)) regroup
        ∙ take_append_exact _ (take f.cur f.bytes ++ xs) _ len;
  }
    where
      fits : f.cur + length (xs ++ pad) ≤ length f.bytes
      fits = omega (arith, length-append xs pad, v)

      rest : List ℕ
      rest = drop (f.cur + length (xs ++ pad)) f.bytes

      f' : FixedBuffer
      f' = record { bytes = take f.cur f.bytes ++ ((xs ++ pad) ++ rest); cur = f.cur + length xs }

      size : length f'.bytes ≡ length f.bytes
      size = length-write f.bytes (xs ++ pad) f.cur fits

      regroup :
          take f.cur f.bytes ++ ((xs ++ pad) ++ rest) ≡ (take f.cur f.bytes ++ xs) ++ (pad ++ rest)
      regroup =
          ap (◌++◌ (take f.cur f.bytes)) (append_assoc xs pad rest)
          ∙ sym (append_assoc (take f.cur f.bytes) xs (pad ++ rest))

      len : length (take f.cur f.bytes ++ xs) ≡ f.cur + length xs
      len = omega (arith, length-append (take f.cur f.bytes) xs, length-take f.cur f.bytes, v)

  pub same-Holds : Holds f (as_string f) (ok f)
  same-Holds = record { result = f; returns = refl; valid = v; size = refl; holds = refl }

  -- `append` adds the text if more than its length is free, and drops it whole otherwise.
  pub append-Holds :
      (xs : List ℕ)
      → Holds f (if ltb (length xs) (avail f) then as_string f ++ xs else as_string f) (append f xs)
  unfolding append
  append-Holds xs = elim (lt_or_le (length xs) (avail f)) [
    | inl less ↦ rw (lt→ltb _ _ less) (
        subst
          (λ ys. Holds f (as_string f ++ xs) (write_current f ys >>= λ f'. ok (add f' (length xs))))
          (append-nil xs) (write-Holds xs [] (omega arith)))
    | inr more ↦ rw (le→ltb _ _ more) same-Holds
  ]

  write_text-Holds :
      (xs : List ℕ) → length xs < avail f → Holds f (as_string f ++ xs) (write_text f (some xs))
  unfolding write_text
  write_text-Holds xs room = write-Holds xs (0 ∷ []) (omega arith)

-- The text that stands for an operand, as a reader of the log sees it.
abbrev pub PrintsAs : Operand → List ℕ → Type 0
PrintsAs (bool b) xs = xs ≡ (if b then 49 else 48) ∷ []
PrintsAs (char c) xs = xs ≡ c ∷ []
PrintsAs (integer v) xs = read_int xs ≡ v
PrintsAs (pointer p) xs = (hex : List ℕ) × (xs ≡ 48 ∷ 120 ∷ hex) × (read_hex hex ≡ p)
PrintsAs (double t) xs = xs ≡ t
PrintsAs (text t) xs = xs ≡ t

-- Integers and addresses are of 64 bits; "%.12g" prints fewer than 32 bytes.
abbrev pub InRange : Operand → Type 0
InRange (bool b) = Unit {0}
InRange (char c) = Unit {0}
InRange (integer v) = magnitude v < 2 ^ 64
InRange (pointer p) = p < 2 ^ 64
InRange (double t) = length t < max_numeric_size
InRange (text t) = Unit {0}

-- The free bytes that an operand asks for.
abbrev pub has_room : Operand → ℕ → Bool
has_room (bool b) free = ltb 1 free
has_room (char c) free = leb 1 free
has_room (integer v) free = leb max_numeric_size free
has_room (pointer p) free = leb max_numeric_size free
has_room (double t) free = leb max_numeric_size free
has_room (text t) free = ltb (length t) free

module _ (f : FixedBuffer) (v : IsValid f) where
  pub numeric-Holds :
      (xs : List ℕ) (r : Option (List ℕ))
      → r ≡ some xs
      → length xs < max_numeric_size
      → Holds f
          (if leb max_numeric_size (avail f) then as_string f ++ xs else as_string f)
          (if leb max_numeric_size (avail f) then write_text f r else ok f)
  numeric-Holds xs r e short = elim (lt_or_le (avail f) max_numeric_size) [
    | inl less ↦ rw (lt→leb max_numeric_size (avail f) less) (same-Holds f v)
    | inr more ↦
        rw (le→leb max_numeric_size (avail f) more, e) (write_text-Holds f v xs (omega arith))
  ]

  pub char-Holds :
      (c : ℕ)
      → Holds f (if leb 1 (avail f) then as_string f ++ c ∷ [] else as_string f) (put_char f c)
  unfolding put_char
  char-Holds c = elim (lt_or_le (avail f) 1) [
    | inl less ↦ rw (lt→leb 1 (avail f) less) (same-Holds f v)
    | inr more ↦ rw (le→leb 1 (avail f) more) (write-Holds f v (c ∷ []) [] (omega arith))
  ]

  -- Each operator prints its operand behind what the stream held if it has room, and nothing
  -- otherwise.
  pub put-Holds :
      (o : Operand)
      → InRange o
      → (xs : List ℕ) × PrintsAs o xs
        × Holds f (if has_room o (avail f) then as_string f ++ xs else as_string f) (put f o)
  unfolding put format_integer put_pointer put_double
  put-Holds (bool true) h = (49 ∷ [], refl, append-Holds f v (49 ∷ []))
  put-Holds (bool false) h = (48 ∷ [], refl, append-Holds f v (48 ∷ []))
  put-Holds (char c) h = (c ∷ [], refl, char-Holds c)
  put-Holds (integer z) h =
      let t = convert-IsTextOf z h in
      (t.text, t.reads, numeric-Holds t.text (convert z) t.returns (omega (arith, t.short)))
  put-Holds (pointer p) h =
      let (hex, e, reads, short) = convert_hex-reads p h in
      (48 ∷ 120 ∷ hex, (hex, refl, reads), numeric-Holds (48 ∷ 120 ∷ hex) _ (rw e) (omega arith))
  put-Holds (double t) h = (t, refl, numeric-Holds t (some t) refl h)
  put-Holds (text t) h = (t, refl, append-Holds f v t)

abbrev pub AllInRange : List Operand → Type 0
AllInRange [] = Unit {0}
AllInRange (o ∷ os) = InRange o × AllInRange os

extends :
    (b : Bool) (old xs : List ℕ) → (ys : List ℕ) × ((if b then old ++ xs else old) ≡ old ++ ys)
extends true old xs = (xs, refl)
extends false old xs = ([], sym (append-nil old))

-- A chain of operators never writes outside the array, and keeps what was printed before.
pub put_all-Holds :
    (f : FixedBuffer) (os : List Operand)
    → IsValid f
    → AllInRange os
    → (xs : List ℕ) × Holds f (as_string f ++ xs) (put_all f os)
unfolding put_all
put_all-Holds f [] v h = ([], subst (λ ys. Holds f ys (ok f)) (sym (append-nil _)) (same-Holds f v))
put_all-Holds f (o ∷ os) v h =
    let (xs, _, m) = put-Holds f v o h.0 in
    let (ys, e) = extends (has_room o (avail f)) (as_string f) xs in
    let (zs, n) = put_all-Holds m.result os m.valid h.1 in
    (
      ys ++ zs,
      record {
        result = n.result;
        returns = rw m.returns n.returns;
        valid = n.valid;
        size = n.size ∙ m.size;
        holds = n.holds ∙ ap (λ s. s ++ zs) (m.holds ∙ e) ∙ append_assoc (as_string f) ys zs;
      },
    )
