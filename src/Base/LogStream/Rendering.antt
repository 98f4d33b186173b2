-- ===== src/Base/LogStream/Rendering.antt =====
-- What a chain of operators of base/LogStream.h prints into a buffer that has room for it.
use leaf.Shared.{
  ℕ, ◌+◌, ◌≤◌, ◌≡◌, refl, sym, ap, ◌∙◌, subst, Bool, true, false, List, [], ◌∷◌, ◌++◌, some, arith,
  length, append-nil, append_assoc, length-append, length-take, ltb, leb, if◌then◌else◌,
}
use leaf.Shared.Outcome.{Outcome, ok, assert_failed, out_of_bounds, length_error, ◌>>=◌}
use leaf.Base.LogStream.{
  FixedBuffer, avail, as_string, convert, convert_hex, max_numeric_size, format_integer,
  put_pointer, put_double, Operand, bool, char, integer, pointer, double, text, put, put_all,
}
use leaf.Base.LogStream.Convert.{convert-IsTextOf}
use leaf.Base.LogStream.Hex.{convert_hex-reads}
use leaf.Base.LogStream.Decimal.{text_or_nil}
use leaf.Base.LogStream.Stream.{
  IsValid, Holds, append-Holds, same-Holds, numeric-Holds, char-Holds, InRange, AllInRange,
}

-- The text of an operand.
abbrev pub render : Operand → List ℕ
render (bool v) = (if v then 49 else 48) ∷ []
render (char c) = c ∷ []
render (integer v) = text_or_nil (convert v)
render (pointer p) = 48 ∷ 120 ∷ text_or_nil (convert_hex p)
render (double t) = t
render (text t) = t

abbrev pub render_all : List Operand → List ℕ
render_all [] = []
render_all (o ∷ os) = render o ++ render_all os

-- As much room as an operand can ask for.
abbrev pub cost : Operand → ℕ
cost (bool v) = 2
cost (char c) = 1
cost (integer v) = max_numeric_size
cost (pointer p) = max_numeric_size
cost (double t) = max_numeric_size
cost (text t) = length t + 1

abbrev pub cost_all : List Operand → ℕ
cost_all [] = 0
cost_all (o ∷ os) = cost o + cost_all os

-- A buffer that is full to its cursor.
length-as_string : (f : FixedBuffer) → IsValid f → length (as_string f) ≡ f.cur
unfolding as_string
length-as_string f v = omega (arith, length-take f.cur f.bytes, v)

-- The operand is printed whole, and is not longer than its cost.
module _ (f : FixedBuffer) (v : IsValid f) where
  chosen :
      (b : Bool) (xs : List ℕ) (r : Outcome FixedBuffer)
      → b ≡ true
      → Holds f (if b then as_string f ++ xs else as_string f) r
      → Holds f (as_string f ++ xs) r
  chosen true xs r e h = h
  chosen false xs r e h = absurd (cc)

  pub put-Renders :
      (o : Operand)
      → InRange o
      → cost o ≤ avail f
      → (length (render o) ≤ cost o) × Holds f (as_string f ++ render o) (put f o)
  unfolding put format_integer put_pointer put_double
  put-Renders (bool true) h c = (
    omega arith,
    chosen (ltb 1 (avail f)) (49 ∷ []) _ (ground arith) (append-Holds f v (49 ∷ [])),
  )
  put-Renders (bool false) h c = (
    omega arith,
    chosen (ltb 1 (avail f)) (48 ∷ []) _ (ground arith) (append-Holds f v (48 ∷ [])),
  )
  put-Renders (char x) h c =
      (omega arith, chosen (leb 1 (avail f)) (x ∷ []) _ (ground arith) (char-Holds f v x))
  put-Renders (integer z) h c =
      let t = convert-IsTextOf z h in
      let is : text_or_nil (convert z) ≡ t.text = ap text_or_nil t.returns in
      (
        omega (arith, ap length is, t.short),
        subst (λ xs. Holds f (as_string f ++ xs) (format_integer f z)) (sym is)
            (chosen (leb max_numeric_size (avail f)) t.text _ (ground arith)
              (numeric-Holds f v t.text (convert z) t.returns (omega (arith, t.short)))),
      )
  put-Renders (pointer p) h c =
      let (hex, e, reads, short) = convert_hex-reads p h in
      let is : text_or_nil (convert_hex p) ≡ hex = ap text_or_nil e in
      (
        omega (arith, ap length is, short),
        subst (λ xs. Holds f (as_string f ++ 48 ∷ 120 ∷ xs) (put_pointer f p)) (sym is)
            (chosen (leb max_numeric_size (avail f)) (48 ∷ 120 ∷ hex) _ (ground arith)
              (numeric-Holds f v (48 ∷ 120 ∷ hex) _ (rw e) (omega arith))),
      )
  put-Renders (double t) h c = (
    omega (arith, h),
    chosen (leb max_numeric_size (avail f)) t _ (ground arith)
        (numeric-Holds f v t (some t) refl h),
  )
  put-Renders (text t) h c =
      (omega arith, chosen (ltb (length t) (avail f)) t _ (ground arith) (append-Holds f v t))

-- A chain with enough room prints each of its operands.
pub put_all-Renders :
    (f : FixedBuffer) (os : List Operand)
    → IsValid f
    → AllInRange os
    → cost_all os ≤ avail f
    → Holds f (as_string f ++ render_all os) (put_all f os)
unfolding put_all avail
put_all-Renders f [] v h c = subst (λ ys. Holds f ys (ok f)) (sym (append-nil _)) (same-Holds f v)
put_all-Renders f (o ∷ os) v h c =
    let p = put-Renders f v o h.0 (unfold avail in omega (arith, c)) in
    let m = p.1 in
    let moved : m.result.cur ≡ f.cur + length (render o) = omega (
      arith,
      length-as_string f v,
      length-as_string m.result m.valid,
      ap length m.holds,
      length-append (as_string f) (render o),
    ) in
    let n =
      put_all-Renders m.result os m.valid h.1
        (unfold avail in omega (arith, moved, m.size, p.0, c)) in
    record {
      result = n.result;
      returns = rw m.returns n.returns;
      valid = n.valid;
      size = n.size ∙ m.size;
      holds =
          n.holds
          ∙ ap (λ s. s ++ render_all os) m.holds
          ∙ append_assoc (as_string f) (render o) (render_all os);
    }

pub put_all-append :
    (f : FixedBuffer) (os ps : List Operand)
    → put_all f (os ++ ps) ≡ (put_all f os >>= λ g. put_all g ps)
unfolding put_all
put_all-append f [] ps = refl
put_all-append f (o ∷ os) ps = go (put f o) (λ g. put_all-append g os ps)
  where
    go :
        (r : Outcome FixedBuffer)
        → ((g : FixedBuffer) → put_all g (os ++ ps) ≡ (put_all g os >>= λ k. put_all k ps))
        → (r >>= λ g. put_all g (os ++ ps)) ≡ ((r >>= λ g. put_all g os) >>= λ g. put_all g ps)
    go (ok g) h = h g
    go assert_failed h = refl
    go out_of_bounds h = refl
    go length_error h = refl
