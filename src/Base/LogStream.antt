-- ===== src/Base/LogStream.antt =====
-- base/LogStream.h and base/LogStream.cc: the fixed buffer, the conversion of integers, and the
-- stream operators. Bytes are numbers; a string is the list of its bytes.
pub mod Convert
pub mod Hex
pub mod Stream
pub mod Fresh
pub mod Decimal
pub mod Rendering
use mathlib.Core.List.{reverse}
use leaf.Shared.{
  ℕ, zero, suc, ◌+◌, ◌-◌, ◌/◌, ◌%◌, Bool, true, false, not, List, [], ◌∷◌, ◌++◌, Option, none, some,
  ltb, leb, ◌==◌, if◌then◌else◌, length, take, replicate, get_elem?,
}
use leaf.Shared.Int.{ℤ, pos, negsuc, ◌+ℤ◌, ◌/ℤ◌, rem_ℤ, ltb_ℤ, is_zero}
use leaf.Shared.Memory.{write_at}
use leaf.Shared.Outcome.{Outcome, ok, out_of_bounds, ◌>>=◌}

abbrev pub small_buffer : ℕ
small_buffer = 4096

abbrev pub large_buffer : ℕ
large_buffer = 4194304

-- `FixedBuffer<SIZE>`: `data_` has SIZE bytes, `cur` is the index that `cur_` points to.
pub record FixedBuffer : Type 0 where
  pub bytes : List ℕ
  pub cur : ℕ

-- The array is not initialised; zeros stand for its bytes.
unfoldable pub fixed_buffer : ℕ → FixedBuffer
fixed_buffer size = record { bytes = replicate size 0; cur = 0 }

unfoldable pub avail : FixedBuffer → ℕ
avail f = length f.bytes - f.cur

-- `length()` and `asString()`.
pub buffer_length : FixedBuffer → ℕ
buffer_length f = f.cur

unfoldable pub as_string : FixedBuffer → List ℕ
as_string f = take f.cur f.bytes

unfoldable pub add : FixedBuffer → ℕ → FixedBuffer
add f len = record f { cur = f.cur + len }

-- Bytes written through `current()`.
unfoldable pub write_current : FixedBuffer → List ℕ → Outcome FixedBuffer
write_current f bs = do v ← write_at f.bytes f.cur bs; ok (record f { bytes = v })

-- A text that does not fit is dropped whole.
unfoldable pub append : FixedBuffer → List ℕ → Outcome FixedBuffer
append f buf =
    if ltb (length buf) (avail f)
    then (do f' ← write_current f buf; ok (add f' (length buf)))
    else ok f

unfoldable pub reset : FixedBuffer → FixedBuffer
reset f = record f { cur = 0 }

unfoldable pub bzero : FixedBuffer → FixedBuffer
bzero f = record f { bytes = replicate (length f.bytes) 0 }

-- "9876543210123456789": `zero[lsd]` for lsd from -9 to 9.
abbrev pub digits : List ℕ
digits =
    57 ∷ 56 ∷ 55 ∷ 54 ∷ 53 ∷ 52 ∷ 51 ∷ 50 ∷ 49 ∷ 48 ∷ 49 ∷ 50 ∷ 51 ∷ 52 ∷ 53 ∷ 54 ∷ 55 ∷ 56 ∷ 57
    ∷ []

-- "0123456789ABCDEF"
abbrev pub digits_hex : List ℕ
digits_hex = 48 ∷ 49 ∷ 50 ∷ 51 ∷ 52 ∷ 53 ∷ 54 ∷ 55 ∷ 56 ∷ 57 ∷ 65 ∷ 66 ∷ 67 ∷ 68 ∷ 69 ∷ 70 ∷ []

abbrev pub minus : ℕ
minus = 45

abbrev digit_at : ℤ → Option ℕ
digit_at (pos i) = get_elem? digits i
digit_at (negsuc i) = none

-- `zero[lsd]`, where `zero` points to the tenth of the digits.
unfoldable pub zero_at : ℤ → Option ℕ
zero_at lsd = digit_at (lsd +ℤ pos 9)

-- The do-while loop of `convert`, on fuel, with what stands in `buf` so far. None: a digit outside
-- the table, or out of fuel.
unfoldable pub convert_loop : ℕ → ℤ → List ℕ → Option (List ℕ)
convert_loop zero i p = none
convert_loop (suc fuel) i p = elim (zero_at (rem_ℤ i (pos 10))) [
  | none ↦ none
  | some c ↦
      let i' = i /ℤ pos 10 in
      let p' = p ++ c ∷ [] in
      let rest = convert_loop fuel i' p' in if is_zero i' then some p' else rest
]

-- Twenty digits are enough for the values of a 64-bit type.
abbrev pub max_digits : ℕ
max_digits = 20

-- The bytes that `convert` leaves before its NUL.
unfoldable pub convert : ℤ → Option (List ℕ)
convert value = elim (convert_loop max_digits value []) [
  | none ↦ none
  | some p ↦ some (reverse (if ltb_ℤ value (pos 0) then p ++ minus ∷ [] else p))
]

convert_hex_loop : ℕ → ℕ → List ℕ → Option (List ℕ)
convert_hex_loop zero i p = none
convert_hex_loop (suc fuel) i p = elim (get_elem? digits_hex (i % 16)) [
  | none ↦ none
  | some c ↦
      let i' = i / 16 in
      let p' = p ++ c ∷ [] in
      let rest = convert_hex_loop fuel i' p' in if i' == 0 then some p' else rest
]

-- Sixteen digits are enough for a `uintptr_t`.
pub convert_hex : ℕ → Option (List ℕ)
convert_hex value = elim (convert_hex_loop 16 value []) [ none ↦ none | some p ↦ some (reverse p) ]

abbrev pub max_numeric_size : ℕ
max_numeric_size = 32

-- Text and its NUL written through `current()`; the cursor moves past the text.
pub write_text : FixedBuffer → Option (List ℕ) → Outcome FixedBuffer
write_text f none = out_of_bounds
write_text f (some text) = do f' ← write_current f (text ++ 0 ∷ []); ok (add f' (length text))

pub format_integer : FixedBuffer → ℤ → Outcome FixedBuffer
format_integer f v = if leb max_numeric_size (avail f) then write_text f (convert v) else ok f

-- `operator<<(char)`
pub put_char : FixedBuffer → ℕ → Outcome FixedBuffer
put_char f c = if leb 1 (avail f) then (do f' ← write_current f (c ∷ []); ok (add f' 1)) else ok f

-- `operator<<(const void*)`
pub put_pointer : FixedBuffer → ℕ → Outcome FixedBuffer
put_pointer f p =
    if leb max_numeric_size (avail f)
    then write_text f (elim (convert_hex p) [ none ↦ none | some hex ↦ some (48 ∷ 120 ∷ hex) ])
    else ok f

-- `operator<<(double)`: what snprintf prints for "%.12g" is a parameter.
pub put_double : FixedBuffer → List ℕ → Outcome FixedBuffer
put_double f text = if leb max_numeric_size (avail f) then write_text f (some text) else ok f

-- The operands of `operator<<`. A `short` is passed on as an `int`, a `float` as a `double`.
pub data Operand : Type 0 where
  bool : Bool → Operand
  char : ℕ → Operand
  integer : ℤ → Operand
  pointer : ℕ → Operand
  double : List ℕ → Operand
  text : List ℕ → Operand

unfoldable pub put : FixedBuffer → Operand → Outcome FixedBuffer
put f (bool v) = append f (if v then 49 ∷ [] else 48 ∷ [])
put f (char c) = put_char f c
put f (integer v) = format_integer f v
put f (pointer p) = put_pointer f p
put f (double t) = put_double f t
put f (text t) = append f t

-- `stream << a << b << …`
unfoldable pub put_all : FixedBuffer → List Operand → Outcome FixedBuffer
put_all f [] = ok f
put_all f (o ∷ os) = put f o >>= λ f'. put_all f' os
