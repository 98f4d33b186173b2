-- ===== src/Net/Buffer/Space.antt =====
-- The write side of net/Buffer.h: `append`, and the space that `makeSpace` finds for it.
use leaf.Shared.{
  ℕ, ◌+◌, ◌-◌, ◌≤◌, ◌<◌, ◌≡◌, refl, ap, ◌∙◌, ◌⊎◌, inl, inr, List, ◌++◌, arith, length, take, drop,
  replicate, slice, length-slice, length-append, length-replicate, take_all, slice-write_end,
  slice-write_front, slice-resize, length-write, lt_or_le, ne_of_lt, lt→ltb, le→ltb, le→leb, lt→leb,
}
use leaf.Shared.Words.{max_size, add_size, add_size-eq}
use leaf.Shared.Memory.{write_at, write_at_lem}
use leaf.Shared.Outcome.{Outcome, ok, assert_failed, length_error, ◌>>=◌}
use leaf.Net.Buffer.{
  Buffer, cheap_prepend, writable_bytes, prependable_bytes, resize, compact, make_space,
  ensure_writable_bytes, has_written, append,
}
use leaf.Net.Buffer.Content.{
  IsValid, Holds, Holds-ok, content, readable_bytes-eq, writable_bytes-eq, length-content,
  peek_range-content, readable_bytes-length,
}

module _ (b : Buffer) (v : IsValid b) where
  -- The write itself, once there is room behind the content.
  pub write_tail-Holds :
      (xs : List ℕ)
      → b.writer_index + length xs ≤ length b.buffer
      → Holds (content b ++ xs) (do
        w ← write_at b.buffer b.writer_index xs
        ok (has_written (record b { buffer = w }) (length xs)))
  unfolding has_written
  write_tail-Holds xs room = record {
    result = b';
    returns = rw (write_at_lem b.buffer b.writer_index xs room, e);
    valid = omega (arith, length-write b.buffer xs b.writer_index room);
    holds = slice-write_end b.buffer xs b.reader_index b.writer_index v.ordered room;
  }
    where
      e : add_size b.writer_index (length xs) ≡ b.writer_index + length xs
      e = add_size-eq b.writer_index (length xs) (omega arith)

      b' : Buffer
      b' = record b {
        buffer = take b.writer_index b.buffer ++ (xs ++ drop (b.writer_index + length xs) b.buffer);
        writer_index = b.writer_index + length xs;
      }

module _ (b : Buffer) (v : IsValid b) where
  -- Enough room behind the content: nothing is moved.
  pub append-Holds_room :
      (xs : List ℕ)
      → b.writer_index + length xs ≤ length b.buffer
      → Holds (content b ++ xs) (append b xs)
  unfolding append ensure_writable_bytes
  append-Holds_room xs room =
      let enough : length xs ≤ length b.buffer - b.writer_index = omega arith in
      rw (writable_bytes-eq b v, le→ltb _ _ enough, ◌>>=◌, writable_bytes-eq b v, le→leb _ _ enough)
        (write_tail-Holds b v xs room)

  -- The call ends with a valid buffer of the same content and room for `n` more bytes.
  pub record Makes (n : ℕ) (r : Outcome Buffer) : Type 0 where
    pub result : Buffer
    pub returns : r ≡ ok result
    pub valid : IsValid result
    pub same : content result ≡ content b
    pub room : result.writer_index + n ≤ length result.buffer

  -- `makeSpace` grows the vector when even the whole free space is too small.
  abbrev pub Grows : ℕ → Type 0
  Grows n =
      (length b.buffer - b.writer_index + b.reader_index < n + cheap_prepend)
      × (length b.buffer < b.writer_index + n)

  free-eq :
      add_size (writable_bytes b) (prependable_bytes b)
      ≡ length b.buffer - b.writer_index + b.reader_index
  unfolding prependable_bytes
  free-eq = rw (writable_bytes-eq b v) (
      add_size-eq (length b.buffer - b.writer_index) b.reader_index
        (omega (arith, v.ordered, v.fits)))

  make_space-Makes : (n : ℕ) → Grows n → b.writer_index + n ≤ max_size → Makes n (make_space b n)
  unfolding make_space resize
  make_space-Makes n g fits = record {
    result = b';
    returns = rw (free-eq, need, lt→ltb _ _ g.0, ◌>>=◌, e, le→leb _ _ fits, all);
    valid = omega (arith, len);
    same = slice-resize b.buffer zeros b.reader_index b.writer_index v.ordered v.inside;
    room = omega (arith, len);
  }
    where
      zeros : List ℕ
      zeros = replicate (b.writer_index + n - length b.buffer) 0

      b' : Buffer
      b' = record b { buffer = b.buffer ++ zeros }

      e : add_size b.writer_index n ≡ b.writer_index + n
      e = add_size-eq b.writer_index n (omega arith)

      need : add_size n cheap_prepend ≡ n + cheap_prepend
      need = add_size-eq n cheap_prepend (omega arith)

      all : take (b.writer_index + n) b.buffer ≡ b.buffer
      all = take_all (b.writer_index + n) b.buffer (omega arith)

      len : length (b.buffer ++ zeros) ≡ b.writer_index + n
      len = omega (
        arith,
        length-append b.buffer zeros,
        length-replicate {A = ℕ} (b.writer_index + n - length b.buffer) 0,
      )

  append-Holds_grow :
      (xs : List ℕ)
      → Grows (length xs)
      → b.writer_index + length xs ≤ max_size
      → Holds (content b ++ xs) (append b xs)
  unfolding append ensure_writable_bytes
  append-Holds_grow xs g fits =
      let short : length b.buffer - b.writer_index < length xs = omega arith in
      let enough : length xs ≤ length m.result.buffer - m.result.writer_index =
        omega (arith, m.room) in
      rw
        (
          writable_bytes-eq b v,
          lt→ltb _ _ short,
          m.returns,
          ◌>>=◌,
          writable_bytes-eq m.result m.valid,
          le→leb _ _ enough,
          ← m.same,
        )
        (write_tail-Holds m.result m.valid xs m.room)
    where
      m : Makes (length xs) (make_space b (length xs))
      m = make_space-Makes (length xs) g fits

  -- The vector cannot grow past `max_size()`.
  pub append-too_long :
      (xs : List ℕ)
      → Grows (length xs)
      → length xs ≤ max_size
      → max_size < b.writer_index + length xs
      → append b xs ≡ length_error
  unfolding append ensure_writable_bytes make_space resize
  append-too_long xs g small big =
      let n = length xs in
      let short : length b.buffer - b.writer_index < n = omega arith in
      let need : add_size n cheap_prepend ≡ n + cheap_prepend =
        add_size-eq n cheap_prepend (omega arith) in
      let e : add_size b.writer_index n ≡ b.writer_index + n =
        add_size-eq b.writer_index n (omega (arith, v.inside, v.fits)) in
      rw (
        writable_bytes-eq b v,
        lt→ltb _ _ short,
        ← writable_bytes-eq b v,
        free-eq,
        need,
        lt→ltb _ _ g.0,
        ◌>>=◌,
        e,
        lt→leb _ _ big,
      )

  -- `makeSpace` compacts when the free space suffices, but only in front and behind together.
  abbrev pub Compacts : ℕ → Type 0
  Compacts n =
      (length b.buffer - b.writer_index < n)
      × (n + cheap_prepend ≤ length b.buffer - b.writer_index + b.reader_index)

  -- What the compaction leaves: the content, and behind it as many old bytes as it was moved by.
  pub compact-Holds :
      cheap_prepend < b.reader_index
      → Holds
          (content b ++ slice b.buffer (cheap_prepend + length (content b)) b.writer_index)
          (compact b)
  unfolding compact
  compact-Holds far = record {
    result = b';
    returns = rw (
      peek_range-content b v,
      ◌>>=◌,
      write_at_lem b.buffer cheap_prepend (content b) room,
      ◌>>=◌,
      readable_bytes-eq b' valid,
      back,
    );
    valid = valid;
    holds = slice-write_front b.buffer (content b) cheap_prepend b.writer_index fits v.inside;
  }
    where
      fits : cheap_prepend + length (content b) ≤ b.writer_index
      fits = omega (arith, length-content b v)

      room : cheap_prepend + length (content b) ≤ length b.buffer
      room = omega (arith, fits, v.inside)

      b' : Buffer
      b' = record {
        buffer =
            take cheap_prepend b.buffer
            ++ (content b ++ drop (cheap_prepend + length (content b)) b.buffer);
        reader_index = cheap_prepend;
        writer_index = b.writer_index;
      }

      valid : IsValid b'
      valid = omega (arith, length-write b.buffer (content b) cheap_prepend room, fits)

      back : add_size cheap_prepend (b.writer_index - cheap_prepend) ≡ b.writer_index
      back = add_size-eq _ _ (omega (arith, v.inside, v.fits)) ∙ omega (arith, fits)

  -- When the bytes would fit only after the content has moved to the front, `append` ends at a failed
  -- assertion.
  pub append-Compacts : (xs : List ℕ) → Compacts (length xs) → append b xs ≡ assert_failed
  unfolding append ensure_writable_bytes make_space
  append-Compacts xs c =
      let far : cheap_prepend < b.reader_index = omega arith in
      let m = compact-Holds far in
      let need : add_size (length xs) cheap_prepend ≡ length xs + cheap_prepend =
        add_size-eq (length xs) cheap_prepend (omega (arith, v.inside, v.fits)) in
      let old = slice b.buffer (cheap_prepend + length (content b)) b.writer_index in
      let longer : length (content b) < length (content m.result) = omega (
        arith,
        ap length m.holds,
        length-append (content b) old,
        length-content b v,
        length-slice b.buffer (cheap_prepend + length (content b)) b.writer_index
            (omega (arith, length-content b v, v.ordered)) v.inside,
      ) in
      rw (
        writable_bytes-eq b v,
        lt→ltb _ _ c.0,
        ← writable_bytes-eq b v,
        free-eq,
        need,
        le→ltb _ _ c.1,
        lt→ltb _ _ far,
        m.returns,
        ◌>>=◌,
        readable_bytes-length b v,
        readable_bytes-length m.result m.valid,
        ne_of_lt _ _ longer,
      )

  -- `append` has a place for `n` bytes without moving any.
  abbrev pub CanTake : ℕ → Type 0
  CanTake n = (b.writer_index + n ≤ length b.buffer) ⊎ (Grows n × (b.writer_index + n ≤ max_size))

  -- `ensureWritableBytes` makes the room, and its assertion holds.
  pub ensure-Makes : (n : ℕ) → CanTake n → Makes n (ensure_writable_bytes b n)
  unfolding ensure_writable_bytes
  ensure-Makes n (inl room) =
      let enough : n ≤ length b.buffer - b.writer_index = omega arith in
      record {
        result = b;
        returns = rw (
          writable_bytes-eq b v,
          le→ltb _ _ enough,
          ◌>>=◌,
          writable_bytes-eq b v,
          le→leb _ _ enough,
        );
        valid = v;
        same = refl;
        room = room;
      }
  ensure-Makes n (inr (g, fits)) =
      let m = make_space-Makes n g fits in
      let short : length b.buffer - b.writer_index < n = omega arith in
      let enough : n ≤ length m.result.buffer - m.result.writer_index = omega (arith, m.room) in
      record {
        result = m.result;
        returns = rw (
          writable_bytes-eq b v,
          lt→ltb _ _ short,
          m.returns,
          ◌>>=◌,
          writable_bytes-eq m.result m.valid,
          le→leb _ _ enough,
        );
        valid = m.valid;
        same = m.same;
        room = m.room;
      }

  -- `append` puts the bytes behind the content when they fit there, or when the vector has to grow and
  -- may.
  pub append-Holds : (xs : List ℕ) → CanTake (length xs) → Holds (content b ++ xs) (append b xs)
  append-Holds xs (inl room) = append-Holds_room xs room
  append-Holds xs (inr (g, fits)) = append-Holds_grow xs g fits

  data Case (n : ℕ) : Type 0 where
    takes : CanTake n → Case n
    too_long : Grows n → max_size < b.writer_index + n → Case n
    compacts : Compacts n → Case n

  cases : (n : ℕ) → Case n
  cases n = elim (lt_or_le (length b.buffer) (b.writer_index + n)) [
    | inr room ↦ takes (inl room)
    | inl short ↦
        elim (lt_or_le (length b.buffer - b.writer_index + b.reader_index) (n + cheap_prepend)) [
          | inr far ↦ compacts (omega arith, far)
          | inl near ↦ elim (lt_or_le max_size (b.writer_index + n)) [
            | inl long ↦ too_long (near, short) long
            | inr fits ↦ takes (inr ((near, short), fits))
          ]
        ]
  ]

  -- Whenever `append` returns, the bytes stand behind the content.
  pub append-ok :
      (xs : List ℕ) (b' : Buffer)
      → length xs ≤ max_size
      → append b xs ≡ ok b'
      → IsValid b' × (content b' ≡ content b ++ xs)
  append-ok xs b' small e = elim (cases (length xs)) [
    | takes t ↦ Holds-ok b' (append-Holds xs t) e
    | too_long g long ↦ absurd (cc (append-too_long xs g small long, e))
    | compacts c ↦ absurd (cc (append-Compacts xs c, e))
  ]
