-- ===== src/Net/Buffer/Transfer.antt =====
-- `readFd` of net/Buffer.cc and `shrind` of net/Buffer.h. What readv(2) delivers is a parameter.
use leaf.Shared.{
  ℕ, [], ◌+◌, ◌-◌, ◌≤◌, ◌<◌, ◌≡◌, refl, sym, ap, ◌∙◌, subst, ◌⊎◌, inl, inr, List, ◌++◌, Option,
  none, some, arith, length, take, drop, ltb, leb, if◌then◌else◌, length-take, length-drop,
  take-append-drop, lt→leb, le→leb, take_all, slice, slice-write_end, length-write, lt_or_le,
  append_assoc,
}
use leaf.Shared.Words.{max_size, add_size, add_size-eq}
use leaf.Shared.Memory.{write_at, write_at_lem}
use leaf.Shared.Outcome.{>>=-eq-ok, ok-injective, Outcome, ok, assert_failed, ◌>>=◌}
use leaf.Net.Buffer.{
  Buffer, new_buffer, cheap_prepend, initial_size, readable_bytes, writable_bytes, peek_range,
  ensure_writable_bytes, append, has_written,
}
use leaf.Net.Buffer.Content.{
  IsValid, Holds, Holds-ok, content, writable_bytes-eq, readable_bytes-length, peek_range-content,
}
use leaf.Net.Buffer.Space.{
  CanTake, Compacts, ensure-Makes, write_tail-Holds, append-Holds, append-ok, append-Compacts,
}

-- The answer of readv(2): an errno, or the bytes that were read.
pub data Readv : Type 0 where
  failed : ℕ → Readv
  delivered : List ℕ → Readv

abbrev pub extrabuf_size : ℕ
extrabuf_size = 65536

-- The bytes that the call offers room for: the second vector is used if the first is short.
pub offered : Buffer → ℕ
offered b =
    let writable = writable_bytes b in
    if ltb writable extrabuf_size then writable + extrabuf_size else writable

-- The saved errno, where there is one, and the buffer. The kernel has written the first bytes behind
-- the content and the rest to `extrabuf`.
pub read_fd : Buffer → Readv → Outcome (Option ℕ × Buffer)
read_fd b (failed errno) = ok (some errno, b)
read_fd b (delivered bs) =
    let writable = writable_bytes b in
    do
      v ← write_at b.buffer b.writer_index (take writable bs)
      let b' = record b { buffer = v }
      if leb (length bs) writable
          then ok (none, record b' { writer_index = add_size b.writer_index (length bs) })
          else (do
            b'' ← append (record b' { writer_index = length v }) (drop writable bs)
            ok (none, b''))

pub shrind : Buffer → ℕ → Outcome Buffer
shrind b reserve = do
  other ← ensure_writable_bytes new_buffer (add_size (readable_bytes b) reserve)
  bs ← peek_range b
  append other bs

module _ (b : Buffer) (v : IsValid b) (bs : List ℕ) where
  abbrev free : ℕ
  free = length b.buffer - b.writer_index

  -- The buffer once the kernel has filled it to the end.
  filled : Buffer
  filled = record b {
    buffer =
        take b.writer_index b.buffer
        ++ (take free bs ++ drop (b.writer_index + length (take free bs)) b.buffer);
    writer_index = length b.buffer;
  }

  module _ (long : free < length bs) where
    length-head : b.writer_index + length (take free bs) ≡ length b.buffer
    length-head = omega (arith, length-take free bs, v.inside)

    filled_room : b.writer_index + length (take free bs) ≤ length b.buffer
    filled_room = omega (arith, length-head)

    length-filled : length filled.buffer ≡ length b.buffer
    length-filled = unfold filled in length-write b.buffer (take free bs) b.writer_index filled_room

    filled-IsValid : IsValid filled
    unfolding filled
    filled-IsValid = omega (arith, length-filled, v.ordered, v.inside, v.fits, v.roomy)

    content-filled : content filled ≡ content b ++ take free bs
    unfolding filled
    content-filled =
        ap (slice filled.buffer b.reader_index) (sym length-head)
        ∙ slice-write_end b.buffer (take free bs) b.reader_index b.writer_index v.ordered
            filled_room

    read_fd-filled :
        read_fd b (delivered bs) ≡ (do b' ← append filled (drop free bs); ok (none, b'))
    unfolding read_fd filled
    read_fd-filled = rw (
      writable_bytes-eq b v,
      write_at_lem b.buffer b.writer_index (take free bs) filled_room,
      ◌>>=◌,
      lt→leb _ _ long,
      length-filled,
    )

    filled-grows :
        b.reader_index < length bs - free + cheap_prepend
        → b.writer_index + length bs ≤ max_size
        → CanTake filled filled-IsValid (length (drop free bs))
    unfolding filled
    filled-grows near fits =
        inr (omega (arith, length-filled, length-drop free bs), omega (arith, length-drop free bs))

    filled-Compacts :
        length bs - free + cheap_prepend ≤ b.reader_index
        → Compacts filled filled-IsValid (length (drop free bs))
    unfolding filled
    filled-Compacts far = omega (arith, length-filled, length-drop free bs)

    joined : (content b ++ take free bs) ++ drop free bs ≡ content b ++ bs
    joined =
        append_assoc (content b) (take free bs) (drop free bs)
        ∙ ap (◌++◌ (content b)) (take-append-drop free bs)

  -- The bytes fit behind the content, or the rest of them makes the vector grow.
  abbrev pub Fits : Type 0
  Fits =
      (length bs ≤ free)
      ⊎ ((free < length bs)
          × (b.reader_index < length bs - free + cheap_prepend)
          × (b.writer_index + length bs ≤ max_size))

  -- The call ends with no errno and the bytes behind the content.
  abbrev Gets : Outcome (Option ℕ × Buffer) → Type 0
  Gets r = (b' : Buffer) × (r ≡ ok (none, b')) × IsValid b' × (content b' ≡ content b ++ bs)

  read_fd-fits : length bs ≤ free → Gets (read_fd b (delivered bs))
  unfolding read_fd has_written
  read_fd-fits small =
      let room : b.writer_index + length bs ≤ length b.buffer = omega (arith, v.inside) in
      let m = write_tail-Holds b v bs room in
      let w = write_at_lem b.buffer b.writer_index bs room in
      let b' : Buffer = record b {
        buffer = take b.writer_index b.buffer ++ (bs ++ drop (b.writer_index + length bs) b.buffer);
        writer_index = add_size b.writer_index (length bs);
      } in
      let good = Holds-ok b' m (rw w refl) in
      (
        b',
        rw (writable_bytes-eq b v, take_all _ bs small, w, ◌>>=◌, le→leb _ _ small),
        good.0,
        good.1,
      )

  spill-Gets :
      {r : Outcome Buffer}
      → Holds ((content b ++ take free bs) ++ drop free bs) r
      → free < length bs
      → Gets (do b' ← r; ok (none, b'))
  spill-Gets m long = (m.result, rw m.returns, m.valid, m.holds ∙ joined long)

  -- `readFd` appends what was delivered to the content, in both of its cases.
  pub read_fd-Gets : Fits → Gets (read_fd b (delivered bs))
  read_fd-Gets (inl small) = read_fd-fits small
  read_fd-Gets (inr (long, near, fits)) =
      let m =
        append-Holds filled (filled-IsValid long) (drop free bs) (filled-grows long near fits) in
      rw (read_fd-filled long) (
        spill-Gets
          (subst (λ c. Holds (c ++ drop free bs) (append filled (drop free bs)))
            (content-filled long) m)
          long)

  -- Whenever `readFd` returns, what was delivered stands behind the content.
  pub read_fd-ok :
      (r : Option ℕ × Buffer)
      → length bs ≤ max_size
      → read_fd b (delivered bs) ≡ ok r
      → IsValid r.1 × (content r.1 ≡ content b ++ bs)
  read_fd-ok r small e = elim (lt_or_le free (length bs)) [
    | inr fits ↦
        let (b', returns, w, holds) = read_fd-fits fits in
        let same : b' ≡ r.1 =
          ap (λ (t : Option ℕ × Buffer). t.1) (ok-injective (sym returns ∙ e)) in
        (subst IsValid same w, subst (λ x. content x ≡ content b ++ bs) same holds)
    | inl long ↦
        let (b', e1, e2) =
          >>=-eq-ok (append filled (drop free bs)) _ (sym (read_fd-filled long) ∙ e) in
        let (w, holds) =
          append-ok filled (filled-IsValid long) (drop free bs) b'
            (omega (arith, length-drop free bs)) e1 in
        let same : b' ≡ r.1 = ap (λ (t : Option ℕ × Buffer). t.1) (ok-injective e2) in
        (
          subst IsValid same w,
          subst (λ x. content x ≡ content b ++ bs) same
              (holds ∙ ap (λ xs. xs ++ drop free bs) (content-filled long) ∙ joined long),
        )
  ]

  -- If the rest would fit in front of the content, the process aborts in `makeSpace`.
  pub read_fd-aborts :
      free < length bs
      → length bs - free + cheap_prepend ≤ b.reader_index
      → read_fd b (delivered bs) ≡ assert_failed
  read_fd-aborts long far = rw (
    read_fd-filled long,
    append-Compacts filled (filled-IsValid long) (drop free bs) (filled-Compacts long far),
  )

pub new_buffer-IsValid : IsValid new_buffer
unfolding new_buffer
new_buffer-IsValid = omega arith

pub new_buffer-content : content new_buffer ≡ []
unfolding new_buffer
new_buffer-content = refl

new_buffer-CanTake :
    (n : ℕ) → n + cheap_prepend ≤ max_size → CanTake new_buffer new_buffer-IsValid n
unfolding new_buffer
new_buffer-CanTake n small = elim (lt_or_le initial_size n) [
  | inl big ↦ inr (omega arith, omega arith)
  | inr fits ↦ inl (omega arith)
]

-- `shrind` ends with a valid buffer of the same content, whatever the state of the old one.
pub shrind-Holds :
    (b : Buffer) (reserve : ℕ)
    → IsValid b
    → length (content b) + reserve + cheap_prepend ≤ max_size
    → Holds (content b) (shrind b reserve)
unfolding shrind
shrind-Holds b reserve v small =
    let n = length (content b) + reserve in
    let wrap : add_size (length (content b)) reserve ≡ n = add_size-eq _ _ (omega arith) in
    let m = ensure-Makes new_buffer new_buffer-IsValid n (new_buffer-CanTake n small) in
    let room : m.result.writer_index + length (content b) ≤ length m.result.buffer =
      omega (arith, m.room) in
    let e : content m.result ++ content b ≡ content b = rw m.same (unfold new_buffer in refl) in
    rw (readable_bytes-length b v, wrap, m.returns, ◌>>=◌, peek_range-content b v, ◌>>=◌)
      (subst (λ c. Holds c (append m.result (content b))) e
        (append-Holds m.result m.valid (content b) (inl room)))
