-- ===== src/Net/Buffer/Integers.antt =====
-- The integers of net/Buffer.h, in network order. An `int32_t`, `int16_t` or `int8_t` is its bit
-- pattern, a number below 2 ^ 32, 2 ^ 16 or 2 ^ 8.
pub mod Laws
use leaf.Shared.{ℕ, ◌+◌, ◌%◌, List, [], ◌∷◌, Bool, leb, ltb, if◌then◌else◌}
use leaf.Shared.Memory.{read_range}
use leaf.Shared.Outcome.{Outcome, ok, ◌>>=◌, ◌>>◌, assert}
use leaf.Net.Endian.{to_bytes, from_bytes, host_to_network32, host_to_network16, network_to_host32}
use leaf.Net.Buffer.{Buffer, readable_bytes, append, prepend, retrieve}

pub append_int32 : Buffer → ℕ → Outcome Buffer
append_int32 b x = append b (to_bytes 4 (host_to_network32 x))

pub append_int16 : Buffer → ℕ → Outcome Buffer
append_int16 b x = append b (to_bytes 2 (host_to_network16 x))

pub append_int8 : Buffer → ℕ → Outcome Buffer
append_int8 b x = append b (to_bytes 1 x)

-- `memcpy` of `n` bytes from `peek()` into a word.
copy_word : Buffer → ℕ → Outcome ℕ
copy_word b n = do bs ← read_range b.buffer b.reader_index (b.reader_index + n); ok (from_bytes bs)

pub peek_int32 : Buffer → Outcome ℕ
peek_int32 b = do
  assert (leb 4 (readable_bytes b))
  be32 ← copy_word b 4
  ok (network_to_host32 be32)

-- The conversion of an `int16_t` argument to `uint32_t` extends its sign.
pub sign_extend : ℕ → ℕ
sign_extend x = if ltb x 32768 then x else x + 4294901760

-- `peekInt16` converts by the function for 32 bits; the result is cut to 16.
pub peek_int16 : Buffer → Outcome ℕ
peek_int16 b = do
  assert (leb 2 (readable_bytes b))
  be16 ← copy_word b 2
  ok (network_to_host32 (sign_extend be16) % 65536)

pub peek_int8 : Buffer → Outcome ℕ
peek_int8 b = do assert (leb 1 (readable_bytes b)); copy_word b 1

pub read_int32 : Buffer → Outcome (ℕ × Buffer)
read_int32 b = do result ← peek_int32 b; b' ← retrieve b 4; ok (result, b')

pub read_int16 : Buffer → Outcome (ℕ × Buffer)
read_int16 b = do result ← peek_int16 b; b' ← retrieve b 2; ok (result, b')

pub read_int8 : Buffer → Outcome (ℕ × Buffer)
read_int8 b = do result ← peek_int8 b; b' ← retrieve b 1; ok (result, b')

pub prepend_int32 : Buffer → ℕ → Outcome Buffer
prepend_int32 b x = prepend b (to_bytes 4 (host_to_network32 x))

-- `preprendint16` of the source.
pub prepend_int16 : Buffer → ℕ → Outcome Buffer
prepend_int16 b x = prepend b (to_bytes 2 (host_to_network16 x))

pub prepend_int8 : Buffer → ℕ → Outcome Buffer
prepend_int8 b x = prepend b (to_bytes 1 x)
