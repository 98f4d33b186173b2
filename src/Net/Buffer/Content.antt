-- ===== src/Net/Buffer/Content.antt =====
-- What a buffer holds: the bytes between its two indices. Laws of net/Buffer.h against that view,
-- for the operations that take bytes out or put them in front.
use leaf.Shared.{
  ℕ, ◌+◌, ◌-◌, ◌≤◌, ◌<◌, ◌≡◌, refl, sym, ap, ◌∙◌, subst, inl, inr, List, [], ◌++◌, arith, length,
  take, drop, slice, length-slice, drop-slice, take-take, slice-write_front, length-write, drop_all,
  take_all, lt_or_le, lt→ltb, le→ltb, le→leb, lt→leb,
}
use leaf.Shared.Words.{max_size, add_size, sub_size, add_size-eq, sub_size-eq}
use leaf.Shared.Memory.{read_range, write_at_lem}
use leaf.Shared.Outcome.{Outcome, ok, assert_failed}
use leaf.Net.Buffer.{
  Buffer, cheap_prepend, readable_bytes, writable_bytes, prependable_bytes, peek_range,
  retrieve_all, retrieve, retrieve_until, retrieve_as_string, retrieve_all_as_string, prepend,
}

-- `readerIndex_ <= writerIndex_ <= buffer_.size() <= max_size()`, and there is room for the prepend
-- area.
pub record IsValid (b : Buffer) : Type 0 where
  pub ordered : b.reader_index ≤ b.writer_index
  pub inside : b.writer_index ≤ length b.buffer
  pub fits : length b.buffer ≤ max_size
  pub roomy : cheap_prepend ≤ length b.buffer

-- The abstract view: the readable bytes.
abbrev pub content : Buffer → List ℕ
content b = slice b.buffer b.reader_index b.writer_index

-- The call ends with a valid buffer that holds `bytes`.
pub record Holds (bytes : List ℕ) (r : Outcome Buffer) : Type 0 where
  pub result : Buffer
  pub returns : r ≡ ok result
  pub valid : IsValid result
  pub holds : content result ≡ bytes

pub Holds-ok :
    {bytes : List ℕ} {r : Outcome Buffer} (b : Buffer)
    → Holds bytes r
    → r ≡ ok b
    → IsValid b × (content b ≡ bytes)
Holds-ok {bytes} b h e =
    let p : h.result ≡ b = cc (h.returns, e) in
    (subst IsValid p h.valid, subst (λ c. content c ≡ bytes) p h.holds)

module _ (b : Buffer) (v : IsValid b) where
  pub readable_bytes-eq : readable_bytes b ≡ b.writer_index - b.reader_index
  unfolding readable_bytes
  readable_bytes-eq = sub_size-eq b.writer_index b.reader_index v.ordered (omega arith)

  pub writable_bytes-eq : writable_bytes b ≡ length b.buffer - b.writer_index
  unfolding writable_bytes
  writable_bytes-eq = sub_size-eq (length b.buffer) b.writer_index v.inside (omega arith)

  pub length-content : length (content b) ≡ b.writer_index - b.reader_index
  length-content = length-slice b.buffer b.reader_index b.writer_index v.ordered v.inside

  -- `readableBytes` is the length of the content.
  pub readable_bytes-length : readable_bytes b ≡ length (content b)
  readable_bytes-length = readable_bytes-eq ∙ sym length-content

  pub read_range-slice :
      (n : ℕ)
      → b.reader_index + n ≤ length b.buffer
      → read_range b.buffer b.reader_index (b.reader_index + n)
        ≡ ok (take n (drop b.reader_index b.buffer))
  unfolding read_range
  read_range-slice n h =
      let e : b.reader_index + n - b.reader_index ≡ n = omega arith in
      rw (le→leb b.reader_index (b.reader_index + n) (omega arith), le→leb _ _ h)
        (ap (λ k. ok (take k (drop b.reader_index b.buffer))) e)

  pub peek_range-content : peek_range b ≡ ok (content b)
  unfolding peek_range read_range
  peek_range-content = rw (le→leb _ _ v.ordered, le→leb _ _ v.inside)

  retrieve_all-Holds : Holds [] (ok (retrieve_all b))
  unfolding retrieve_all
  retrieve_all-Holds = record {
    result = retrieve_all b;
    returns = refl;
    valid = omega arith;
    holds = refl;
  }

  retrieve_some-Holds :
      (n : ℕ)
      → n < b.writer_index - b.reader_index
      → Holds (drop n (content b)) (ok (record b { reader_index = add_size b.reader_index n }))
  retrieve_some-Holds n h = record {
    result = record b { reader_index = add_size b.reader_index n };
    returns = refl;
    valid = omega (arith, e);
    holds = rw e (sym (drop-slice n b.buffer b.reader_index b.writer_index));
  }
    where
      e : add_size b.reader_index n ≡ b.reader_index + n
      e = add_size-eq b.reader_index n (omega arith)

  -- `retrieve` drops the first `n` readable bytes, and its assertion holds when there are so many.
  pub retrieve-Holds : (n : ℕ) → n ≤ length (content b) → Holds (drop n (content b)) (retrieve b n)
  unfolding retrieve
  retrieve-Holds n h =
      rw (readable_bytes-length, le→leb n (length (content b)) h)
        (elim (lt_or_le n (length (content b))) [
          | inl lt ↦ rw (lt→ltb _ _ lt) (retrieve_some-Holds n (omega (arith, length-content)))
          | inr ge ↦ rw (le→ltb _ _ ge, drop_all n (content b) ge) retrieve_all-Holds
        ])

  pub retrieve-refused : (n : ℕ) → length (content b) < n → retrieve b n ≡ assert_failed
  unfolding retrieve
  retrieve-refused n h = rw (readable_bytes-length, lt→leb n (length (content b)) h)

  -- `retrieveUntil` drops the bytes before `end`.
  pub retrieve_until-Holds :
      (end : ℕ)
      → b.reader_index ≤ end
      → end ≤ b.writer_index
      → Holds (drop (end - b.reader_index) (content b)) (retrieve_until b end)
  unfolding retrieve_until
  retrieve_until-Holds end h k =
      rw (le→leb _ _ h, le→leb _ _ k)
        (retrieve-Holds (end - b.reader_index) (omega (arith, length-content)))

  -- `retrieveAsString` returns the first `n` readable bytes and drops them.
  pub retrieve_as_string-Takes :
      (n : ℕ)
      → n ≤ length (content b)
      → (b' : Buffer) × (retrieve_as_string b n ≡ ok (take n (content b), b'))
        × IsValid b'
        × (content b' ≡ drop n (content b))
  unfolding retrieve_as_string
  retrieve_as_string-Takes n h = (
    r.result,
    rw (
      readable_bytes-length,
      le→leb n (length (content b)) h,
      read_range-slice n (omega (arith, length-content, v.inside)),
      r.returns,
      take-take n (b.writer_index - b.reader_index) (drop b.reader_index b.buffer)
          (omega (arith, length-content)),
    ),
    r.valid,
    r.holds,
  )
    where
      r : Holds (drop n (content b)) (retrieve b n)
      r = retrieve-Holds n h

  -- `retrieveAllAsString` returns the content and empties the buffer.
  pub retrieve_all_as_string-Takes :
      (b' : Buffer) × (retrieve_all_as_string b ≡ ok (content b, b'))
      × IsValid b'
      × (content b' ≡ [])
  unfolding retrieve_all_as_string
  retrieve_all_as_string-Takes =
      let n = length (content b) in
      let (b', e, w, c) = retrieve_as_string-Takes n (omega arith) in
      (
        b',
        rw readable_bytes-length
            (e ∙ ap (λ xs. ok (xs, b')) (take_all n (content b) (omega arith))),
        w,
        c ∙ drop_all n (content b) (omega arith),
      )

  -- `prepend` puts the bytes in front, when they fit before the reader's index.
  pub prepend-Holds :
      (xs : List ℕ) → length xs ≤ b.reader_index → Holds (xs ++ content b) (prepend b xs)
  unfolding prepend prependable_bytes
  prepend-Holds xs h = record {
    result = b';
    returns = rw (le→leb _ _ h, e, write_at_lem b.buffer i xs room);
    valid = omega (arith, length-write b.buffer xs i room);
    holds =
        slice-write_front b.buffer xs i b.writer_index (omega arith) v.inside
        ∙ ap (λ k. xs ++ slice b.buffer k b.writer_index) back;
  }
    where
      i : ℕ
      i = b.reader_index - length xs

      e : sub_size b.reader_index (length xs) ≡ i
      e = sub_size-eq b.reader_index (length xs) h (omega arith)

      back : i + length xs ≡ b.reader_index
      back = omega arith

      room : i + length xs ≤ length b.buffer
      room = omega arith

      b' : Buffer
      b' = record b {
        buffer = take i b.buffer ++ (xs ++ drop (i + length xs) b.buffer);
        reader_index = i;
      }

  pub prepend-refused : (xs : List ℕ) → b.reader_index < length xs → prepend b xs ≡ assert_failed
  unfolding prepend prependable_bytes
  prepend-refused xs h = rw (lt→leb (length xs) b.reader_index h)
