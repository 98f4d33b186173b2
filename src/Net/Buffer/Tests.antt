-- ===== src/Net/Buffer/Tests.antt =====
-- The theorems on net/Buffer.h and net/Buffer.cc at concrete buffers.
use leaf.Shared.{
  ℕ, zero, suc, ◌<◌, ◌≡◌, refl, inr, List, [], ◌∷◌, ◌++◌, Option, none, some, arith, replicate,
}
use leaf.Shared.Outcome.{ok, assert_failed}
use leaf.Net.Buffer.{Buffer, append, retrieve, retrieve_until}
use leaf.Net.Buffer.Content.{IsValid, Holds, content, retrieve-Holds, retrieve_until-Holds}
use leaf.Net.Buffer.Space.{append-Holds, append-Compacts}
use leaf.Net.Buffer.Transfer.{delivered, read_fd, read_fd-Gets}
use leaf.Net.Buffer.Integers.{prepend_int32, read_int32, read_int16}
use leaf.Net.Buffer.Integers.Laws.{read_int16-loses, read_int32-prepend_int32}
use leaf.Net.Buffer.Search.{find_crlf, find_eol, find_eol_from}
use leaf.Net.Buffer.Search.Laws.{IsFirst, CrlfAt, LfAt, find-IsFirst, find_eol_from-stale}

-- "hi", and four free bytes behind it.
abbrev hi : Buffer
hi = record {
  buffer = replicate 8 0 ++ (104 ∷ 105 ∷ 0 ∷ 0 ∷ 0 ∷ 0 ∷ []);
  reader_index = 8;
  writer_index = 10;
}

hi-IsValid : IsValid hi
hi-IsValid = omega arith

-- "hi" after sixteen bytes that were read, and two free bytes.
abbrev moved : Buffer
moved = record {
  buffer = replicate 16 7 ++ (104 ∷ 105 ∷ 0 ∷ 0 ∷ []);
  reader_index = 16;
  writer_index = 18;
}

moved-IsValid : IsValid moved
moved-IsValid = omega arith

abbrev hello : List ℕ
hello = 104 ∷ 101 ∷ 108 ∷ 108 ∷ 111 ∷ []

append-Holds_example : Holds (content hi ++ hello) (append hi hello)
append-Holds_example =
    append-Holds hi hi-IsValid hello (inr ((omega arith, omega arith), omega arith))

append-Compacts_example : append moved hello ≡ assert_failed
append-Compacts_example = append-Compacts moved moved-IsValid hello (omega arith, omega arith)

retrieve-Holds_example : Holds (105 ∷ []) (retrieve hi 1)
retrieve-Holds_example = retrieve-Holds hi hi-IsValid 1 (omega arith)

retrieve_until-Holds_example : Holds (105 ∷ []) (retrieve_until hi 9)
retrieve_until-Holds_example = retrieve_until-Holds hi hi-IsValid 9 (omega arith) (omega arith)

read_fd-Gets_example :
    (b' : Buffer) × (read_fd hi (delivered hello) ≡ ok (none, b'))
    × IsValid b'
    × (content b' ≡ content hi ++ hello)
read_fd-Gets_example =
    read_fd-Gets hi hi-IsValid hello (inr (omega arith, omega arith, omega arith))

read_int32-prepend_int32_example :
    (b1 b2 : Buffer) × (prepend_int32 hi 258 ≡ ok b1)
    × (read_int32 b1 ≡ ok (258, b2))
    × IsValid b2
    × (content b2 ≡ content hi)
read_int32-prepend_int32_example =
    read_int32-prepend_int32 hi hi-IsValid 258 (omega arith) (omega arith)

read_int16-loses_example :
    (b' : Buffer) × (read_int16 hi ≡ ok (0, b')) × IsValid b' × (content b' ≡ [])
read_int16-loses_example =
    read_int16-loses hi hi-IsValid 104 105 [] (omega arith) (omega arith) refl

find-IsFirst_example :
    ((r : Option ℕ) × (find_crlf hi ≡ ok r) × IsFirst (CrlfAt (content hi)) 8 r)
    × ((r : Option ℕ) × (find_eol hi ≡ ok r) × IsFirst (LfAt (content hi)) 8 r)
find-IsFirst_example = find-IsFirst hi hi-IsValid

-- "hi", and an old '\n' behind it.
abbrev stale : Buffer
stale = record {
  buffer = replicate 8 0 ++ (104 ∷ 105 ∷ 10 ∷ []);
  reader_index = 8;
  writer_index = 10;
}

stale-IsValid : IsValid stale
stale-IsValid = omega arith

no_newline : (k : ℕ) → k < 1 → LfAt (105 ∷ 10 ∷ []) k → ⊥
no_newline zero h p = absurd (cc)
no_newline (suc k) h p = omega arith

find_eol_from-stale_example : find_eol_from stale 9 ≡ ok (some 10)
find_eol_from-stale_example =
    find_eol_from-stale stale stale-IsValid 9 (omega arith) (omega arith) no_newline refl
