-- ===== src/Net/Buffer.antt =====
-- The byte buffer of net/Buffer.h and net/Buffer.cc. A byte is a number below 256, `size_t`
-- arithmetic wraps at 2 ^ 64. Pointers into the buffer are indices; a copy outside the vector is
-- `out_of_bounds`, and a resize past `max_size()` throws `length_error`.
pub mod Content
pub mod Space
pub mod Integers
pub mod Search
pub mod Transfer
mod Tests
use leaf.Shared.{
  ℕ, zero, suc, ◌+◌, ◌-◌, ◌≤◌, ◌<◌, Bool, true, false, List, [], ◌∷◌, ◌++◌, ◌&&◌, Option, none,
  some, ltb, leb, ◌==◌, if◌then◌else◌, length, take, drop, replicate,
}
use leaf.Shared.Words.{max_size, add_size, sub_size}
use leaf.Shared.Memory.{read_range, write_at}
use leaf.Shared.Outcome.{
  Outcome, ok, assert_failed, out_of_bounds, length_error, ◌>>=◌, ◌>>◌, assert,
}

abbrev pub cheap_prepend : ℕ
cheap_prepend = 8

abbrev pub initial_size : ℕ
initial_size = 1024

pub record Buffer : Type 0 where
  pub buffer : List ℕ
  pub reader_index : ℕ
  pub writer_index : ℕ

-- The constructor.
unfoldable pub new_buffer : Buffer
new_buffer = record {
  buffer = replicate (cheap_prepend + initial_size) 0;
  reader_index = cheap_prepend;
  writer_index = cheap_prepend;
}

unfoldable pub readable_bytes : Buffer → ℕ
readable_bytes b = sub_size b.writer_index b.reader_index

unfoldable pub writable_bytes : Buffer → ℕ
writable_bytes b = sub_size (length b.buffer) b.writer_index

unfoldable pub prependable_bytes : Buffer → ℕ
prependable_bytes b = b.reader_index

-- `std::vector::resize`: new elements are zero.
unfoldable pub resize : List ℕ → ℕ → Outcome (List ℕ)
resize v n = if leb n max_size then ok (take n v ++ replicate (n - length v) 0) else length_error

-- The bytes from `peek()` to `beginWrite()`.
unfoldable pub peek_range : Buffer → Outcome (List ℕ)
peek_range b = read_range b.buffer b.reader_index b.writer_index

unfoldable pub retrieve_all : Buffer → Buffer
retrieve_all b = record b { reader_index = cheap_prepend; writer_index = cheap_prepend }

unfoldable pub retrieve : Buffer → ℕ → Outcome Buffer
retrieve b len = do
  assert (leb len (readable_bytes b))
  if ltb len (readable_bytes b)
      then ok (record b { reader_index = add_size b.reader_index len })
      else ok (retrieve_all b)

-- `end` is an index into the vector.
unfoldable pub retrieve_until : Buffer → ℕ → Outcome Buffer
retrieve_until b end = do
  assert (leb b.reader_index end)
  assert (leb end b.writer_index)
  retrieve b (end - b.reader_index)

pub retrieve_as_string : Buffer → ℕ → Outcome (List ℕ × Buffer)
retrieve_as_string b len = do
  assert (leb len (readable_bytes b))
  result ← read_range b.buffer b.reader_index (b.reader_index + len)
  b' ← retrieve b len
  ok (result, b')

pub retrieve_all_as_string : Buffer → Outcome (List ℕ × Buffer)
retrieve_all_as_string b = retrieve_as_string b (readable_bytes b)

-- The update of the second branch of `makeSpace`. `readableBytes()` is read after the store to
-- `readerIndex_`.
unfoldable pub compact : Buffer → Outcome Buffer
compact b = do
  bs ← peek_range b
  v ← write_at b.buffer cheap_prepend bs
  let b' = record b { buffer = v; reader_index = cheap_prepend }
  ok (record b' { writer_index = add_size b'.reader_index (readable_bytes b') })

unfoldable pub make_space : Buffer → ℕ → Outcome Buffer
make_space b len =
    if ltb (add_size (writable_bytes b) (prependable_bytes b)) (add_size len cheap_prepend)
    then (do v ← resize b.buffer (add_size b.writer_index len); ok (record b { buffer = v }))
    else (do
      assert (ltb cheap_prepend b.reader_index)
      b' ← compact b
      assert (readable_bytes b == readable_bytes b')
      ok b')

unfoldable pub ensure_writable_bytes : Buffer → ℕ → Outcome Buffer
ensure_writable_bytes b len = do
  b' ← if ltb (writable_bytes b) len then make_space b len else ok b
  assert (leb len (writable_bytes b'))
  ok b'

unfoldable pub has_written : Buffer → ℕ → Buffer
has_written b len = record b { writer_index = add_size b.writer_index len }

unfoldable pub append : Buffer → List ℕ → Outcome Buffer
append b data_ = do
  b' ← ensure_writable_bytes b (length data_)
  v ← write_at b'.buffer b'.writer_index data_
  ok (has_written (record b' { buffer = v }) (length data_))

pub prepend : Buffer → List ℕ → Outcome Buffer
prepend b data_ = do
  assert (leb (length data_) (prependable_bytes b))
  let reader = sub_size b.reader_index (length data_)
  v ← write_at b.buffer reader data_
  ok (record b { buffer = v; reader_index = reader })
