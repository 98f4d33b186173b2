-- ===== src/Net/Buffer/Search.antt =====
-- The searches of net/Buffer.h. A `const char*` result is an index into the vector, or none for
-- NULL.
pub mod Laws
use leaf.Shared.{
  ℕ, zero, suc, ◌+◌, ◌-◌, Bool, true, false, ◌&&◌, List, [], ◌∷◌, Option, none, some, leb, ◌==◌,
  if◌then◌else◌, drop, slice,
}
use leaf.Shared.Memory.{read_range}
use leaf.Shared.Outcome.{Outcome, ok, out_of_bounds, ◌>>=◌, ◌>>◌, assert}
use leaf.Net.Buffer.{Buffer, readable_bytes}

-- "\r\n"
abbrev pub cr : ℕ
cr = 13

abbrev pub lf : ℕ
lf = 10

-- `std::search` for `kCRLF` in the bytes that stand from index `i` on. One recursive call.
pub search_crlf : List ℕ → ℕ → Option ℕ
search_crlf [] i = none
search_crlf (x ∷ []) i = none
search_crlf (x ∷ (y ∷ ys)) i = if x == cr && y == lf then some i else search_crlf (y ∷ ys) (i + 1)

pub find_crlf : Buffer → Outcome (Option ℕ)
find_crlf b = do
  bs ← read_range b.buffer b.reader_index b.writer_index
  ok (search_crlf bs b.reader_index)

-- `findCRLF(start)`
pub find_crlf_from : Buffer → ℕ → Outcome (Option ℕ)
find_crlf_from b start = do
  assert (leb b.reader_index start)
  assert (leb start b.writer_index)
  bs ← read_range b.buffer start b.writer_index
  ok (search_crlf bs start)

-- `memchr` for '\n' over `n` bytes from index `i`: it stops at the first hit, and reads past the end
-- of the vector if it has none before.
pub memchr_lf : List ℕ → ℕ → ℕ → Outcome (Option ℕ)
memchr_lf xs zero i = ok none
memchr_lf [] (suc n) i = out_of_bounds
memchr_lf (x ∷ xs) (suc n) i = if x == lf then ok (some i) else memchr_lf xs n (i + 1)

pub find_eol : Buffer → Outcome (Option ℕ)
find_eol b = memchr_lf (drop b.reader_index b.buffer) (readable_bytes b) b.reader_index

-- `findEOL(start)` searches `readableBytes()` bytes, also from a later start.
pub find_eol_from : Buffer → ℕ → Outcome (Option ℕ)
find_eol_from b start = do
  assert (leb b.reader_index start)
  assert (leb start b.writer_index)
  memchr_lf (drop start b.buffer) (readable_bytes b) start
