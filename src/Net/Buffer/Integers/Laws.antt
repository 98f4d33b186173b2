-- ===== src/Net/Buffer/Integers/Laws.antt =====
-- The integers of net/Buffer.h as they are put in and read back.
use leaf.Shared.{
  ℕ, ◌+◌, ◌-◌, ◌*◌, ◌%◌, ◌/◌, ◌^◌, ◌≤◌, ◌<◌, ◌≡◌, sym, ap, ◌∙◌, List, ◌∷◌, ◌++◌, arith, length,
  length-append, take, drop, take_append_exact, drop_append_exact, take-take, le→leb, ltb,
  if◌then◌else◌,
}
use leaf.Shared.Outcome.{ok, ◌>>=◌}
use leaf.Net.Endian.{to_bytes, from_bytes, swap_bytes, host_to_network32, network_to_host32}
use leaf.Net.Endian.Laws.{
  network_bytes, length-network_bytes, to_bytes-swap_bytes, swap_bytes-swap_bytes,
}
use leaf.Net.Buffer.{Buffer, prepend, retrieve}
use leaf.Net.Buffer.Content.{
  IsValid, Holds, content, readable_bytes-length, length-content, read_range-slice, retrieve-Holds,
  prepend-Holds,
}
use leaf.Net.Buffer.Space.{CanTake, append-Holds}
use leaf.Net.Buffer.Integers.{
  append_int32, copy_word, peek_int32, sign_extend, peek_int16, read_int32, read_int16,
  prepend_int32,
}

top_bytes : ℕ → ℕ
top_bytes x = network_to_host32 x % 65536

-- Only the two highest bytes of the word reach the 16-bit result.
top_bytes_lem : (x : ℕ) → top_bytes x ≡ x / 256 / 256 / 256 % 256 + 256 * (x / 256 / 256 % 256)
unfolding top_bytes network_to_host32 swap_bytes to_bytes from_bytes
top_bytes_lem x = omega arith

swapped_wide :
    (b0 b1 : ℕ)
    → b0 < 256
    → b1 < 256
    → network_to_host32 (sign_extend (b0 + 256 * (b1 + 256 * 0))) % 65536
      ≡ (if ltb b1 128 then 0 else 65535)
unfolding sign_extend top_bytes
swapped_wide b0 b1 h0 h1 =
    let e = top_bytes_lem (sign_extend (b0 + 256 * (b1 + 256 * 0))) in ground (arith, e)

module _ (b : Buffer) (v : IsValid b) where
  copy_word-take :
      (n : ℕ) → n ≤ length (content b) → copy_word b n ≡ ok (from_bytes (take n (content b)))
  unfolding copy_word
  copy_word-take n h =
      let fits : n ≤ b.writer_index - b.reader_index = omega (arith, length-content b v) in
      rw (read_range-slice b v n (omega (arith, v.inside, v.ordered)), ◌>>=◌)
        (ap (λ bs. ok (from_bytes bs)) (sym (take-take n _ (drop b.reader_index b.buffer) fits)))

  -- After its four bytes in network order, an `int32_t` is read back, and the bytes are gone.
  pub read_int32-network_bytes :
      (x : ℕ) (rest : List ℕ)
      → x < 2 ^ 32
      → content b ≡ network_bytes 4 x ++ rest
      → (b' : Buffer) × (read_int32 b ≡ ok (x, b')) × IsValid b' × (content b' ≡ rest)
  unfolding read_int32 peek_int32 network_to_host32
  read_int32-network_bytes x rest small e = (
    r.result,
    rw (
      readable_bytes-length b v,
      le→leb _ _ long,
      copy_word-take 4 long,
      r.returns,
      ◌>>=◌,
      word,
      swap_bytes-swap_bytes 4 x small,
    ),
    r.valid,
    r.holds
        ∙ ap (drop 4) e
        ∙ drop_append_exact 4 (network_bytes 4 x) rest (length-network_bytes 4 x),
  )
    where
      long : 4 ≤ length (content b)
      long =
          omega
            (arith, ap length e, length-append (network_bytes 4 x) rest, length-network_bytes 4 x)

      r : Holds (drop 4 (content b)) (retrieve b 4)
      r = retrieve-Holds b v 4 long

      word : from_bytes (take 4 (content b)) ≡ swap_bytes 4 x
      word =
          unfold swap_bytes in
          ap (λ c. from_bytes (take 4 c)) e
          ∙ ap from_bytes (take_append_exact 4 (network_bytes 4 x) rest (length-network_bytes 4 x))

  -- `appendInt32` appends the four bytes in network order.
  pub append_int32-Holds :
      (x : ℕ) → CanTake b v 4 → Holds (content b ++ network_bytes 4 x) (append_int32 b x)
  unfolding append_int32 host_to_network32
  append_int32-Holds x room =
      rw (to_bytes-swap_bytes 4 x)
        (append-Holds b v (network_bytes 4 x) (rw (length-network_bytes 4 x) room))

  -- Whatever two bytes stand in front, `readInt16` returns 0, or -1 if the second is above 127.
  pub read_int16-loses :
      (b0 b1 : ℕ) (rest : List ℕ)
      → b0 < 256
      → b1 < 256
      → content b ≡ b0 ∷ b1 ∷ rest
      → (b' : Buffer) × (read_int16 b ≡ ok (if ltb b1 128 then 0 else 65535, b'))
        × IsValid b'
        × (content b' ≡ rest)
  unfolding read_int16 peek_int16
  read_int16-loses b0 b1 rest h0 h1 e = (
    r.result,
    rw (
      readable_bytes-length b v,
      le→leb _ _ long,
      copy_word-take 2 long,
      r.returns,
      ◌>>=◌,
      word,
      swapped_wide b0 b1 h0 h1,
    ),
    r.valid,
    r.holds ∙ ap (drop 2) e,
  )
    where
      long : 2 ≤ length (content b)
      long = omega (arith, ap length e)

      r : Holds (drop 2 (content b)) (retrieve b 2)
      r = retrieve-Holds b v 2 long

      word : from_bytes (take 2 (content b)) ≡ b0 + 256 * (b1 + 256 * 0)
      word = unfold from_bytes in ap (λ c. from_bytes (take 2 c)) e

module _ (b : Buffer) (v : IsValid b) where
  -- A length header put in front by `prependInt32` is what `readInt32` reads; the rest stays.
  pub read_int32-prepend_int32 :
      (x : ℕ)
      → x < 2 ^ 32
      → 4 ≤ b.reader_index
      → (b1 b2 : Buffer) × (prepend_int32 b x ≡ ok b1)
        × (read_int32 b1 ≡ ok (x, b2))
        × IsValid b2
        × (content b2 ≡ content b)
  unfolding prepend_int32 host_to_network32
  read_int32-prepend_int32 x small room =
      let p : Holds (network_bytes 4 x ++ content b) (prepend b (network_bytes 4 x)) =
        prepend-Holds b v (network_bytes 4 x) (rw (length-network_bytes 4 x) room) in
      let (b2, e, w, c) = read_int32-network_bytes p.result p.valid x (content b) small p.holds in
      (p.result, b2, rw (to_bytes-swap_bytes 4 x) p.returns, e, w, c)
