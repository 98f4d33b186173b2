-- ===== src/Net/TcpConnection/Bytes.antt =====
-- The stream of a connection of net/TcpConnection.cc: what the socket has accepted, then what waits
-- in the output buffer.
use leaf.Shared.{
  leb, ℕ, ◌-◌, ◌≤◌, ◌≡◌, ◌≢◌, refl, sym, ap, ap₂, ◌∙◌, inl, inr, subst, true, false, ◌&&◌, List, [],
  ◌∷◌, ◌++◌, arith, ltb, ◌==◌, length, take, drop, append_assoc, append-nil, Bool-cases,
  take-append-drop, length-drop, lt→ltb, le→ltb, lt_or_le, take_all,
}
use leaf.Shared.Words.{max_size}
use leaf.Shared.Outcome.{ok, assert, >>=-eq-ok, ok-injective}
use leaf.Net.Buffer.{append}
use leaf.Net.Buffer.Content.{IsValid, content}
use leaf.Net.Buffer.Space.{append-ok}
use leaf.Net.Channel.{Channel, is_writing, enable_writing, update}
use leaf.Net.TcpConnection.{
  Conn, Write, wrote, refused, Direct, direct_write, buffer_rest, queue_in_loop, is_disconnected,
  send_rest, keep_rest, notice_high_water, watch_writing,
}

-- The bytes that the connection has taken over and not lost.
abbrev pub stream : Conn → List ℕ
stream c = c.sent ++ content c.output_buffer

-- The kernel never accepts more than it is given.
abbrev pub WithinWrite : ℕ → Write → Type 0
WithinWrite len (wrote n) = n ≤ len
WithinWrite len (refused e) = Unit {0}

-- Both buffers are sound, and an open connection waits for POLLOUT exactly when bytes wait.
pub record Inv (c : Conn) : Type 0 where
  pub output_valid : IsValid c.output_buffer
  pub input_valid : IsValid c.input_buffer
  pub idle :
      is_disconnected c.state ≡ false → is_writing c.channel ≡ false → content c.output_buffer ≡ []
  pub busy :
      is_disconnected c.state ≡ false → is_writing c.channel ≡ true → content c.output_buffer ≢ []

ne_nil-append : (xs ys : List ℕ) → ys ≢ [] → xs ++ ys ≢ []
ne_nil-append [] ys h e = h e
ne_nil-append (x ∷ xs) ys h e = cc

watch_writing-is_writing : (ch : Channel) → is_writing (watch_writing ch) ≡ true
unfolding watch_writing is_writing enable_writing update
watch_writing-is_writing ch = ground arith

watch_writing-reading : (ch : Channel) → (watch_writing ch).events.pollin ≡ ch.events.pollin
unfolding watch_writing is_writing enable_writing update
watch_writing-reading ch = ground arith

-- Only `queued` changes.
notice_fields :
    (c : Conn) (n : ℕ)
    → let c' = notice_high_water c n in
      (c'.sent ≡ c.sent)
      × (c'.state ≡ c.state)
      × (c'.input_buffer ≡ c.input_buffer)
      × (c'.calls ≡ c.calls)
unfolding notice_high_water queue_in_loop
notice_fields c n = ground arith

-- What a call keeps: `added` has joined the stream.
pub record Adds (c : Conn) (added : List ℕ) (c' : Conn) : Type 0 where
  pub inv : Inv c'
  pub joined : stream c' ≡ stream c ++ added
  pub state : c'.state ≡ c.state
  pub calls : c'.calls ≡ c.calls
  pub reading : c'.channel.events.pollin ≡ c.channel.events.pollin

buffer_rest-Adds :
    (c : Conn) (rest : List ℕ) (c' : Conn)
    → Inv c
    → rest ≢ []
    → length rest ≤ max_size
    → buffer_rest c rest ≡ ok c'
    → Adds c rest c'
unfolding buffer_rest
buffer_rest-Adds c rest c' v some_rest small e =
    let (b, e1, e2) = >>=-eq-ok (append c.output_buffer rest) _ e in
    let (w, holds) = append-ok c.output_buffer v.output_valid rest b small e1 in
    let (s, st, i, u) = notice_fields c (length rest) in
    subst (Adds c rest) (ok-injective e2) (record {
      inv = record {
        output_valid = w;
        input_valid = subst IsValid (sym i) v.input_valid;
        idle = λ _ q. absurd (cc (watch_writing-is_writing c.channel, q));
        busy = λ _ _. subst (λ xs. xs ≢ []) (sym holds) (ne_nil-append _ rest some_rest);
      };
      joined = ap₂ ◌++◌ s holds ∙ sym (append_assoc c.sent (content c.output_buffer) rest);
      state = st;
      calls = u;
      reading = watch_writing-reading c.channel;
    })

-- A direct write of `n` bytes moves them to the socket, and may queue the completion callback.
direct_fields :
    (c : Conn) (bs : List ℕ) (errno : ℕ) (w : Write)
    → let d = direct_write c bs errno w in
      (d.conn.sent ≡ c.sent ++ take d.nwrote bs)
      × (d.conn.state ≡ c.state)
      × (d.conn.input_buffer ≡ c.input_buffer)
      × (d.conn.output_buffer ≡ c.output_buffer)
      × (d.conn.channel ≡ c.channel)
      × (d.conn.calls ≡ c.calls)
unfolding direct_write queue_in_loop
direct_fields c bs errno (refused e) = (sym (append-nil c.sent), refl, refl, refl, refl, refl)
direct_fields c bs errno (wrote n) = elim (Bool-cases (ltb 0 n)) [
  | inl some ↦ elim (Bool-cases (length bs - n == 0 && c.has_write_complete)) [
    | inl done ↦ rw (some, done) (refl, refl, refl, refl, refl, refl)
    | inr more ↦ rw (some, more) (refl, refl, refl, refl, refl, refl)
  ]
  | inr no_bytes ↦ rw no_bytes (sym (append-nil c.sent), refl, refl, refl, refl, refl)
]

-- The direct write leaves a connection whose stream has what the socket took.
pub direct-Adds :
    (c : Conn) (bs : List ℕ) (errno : ℕ) (w : Write)
    → Inv c
    → content c.output_buffer ≡ []
    → let d = direct_write c bs errno w in Adds c (take d.nwrote bs) d.conn
direct-Adds c bs errno w v empty =
    let d = direct_write c bs errno w in
    let (s, st, i, o, ch, u) = direct_fields c bs errno w in
    let old : c.sent ≡ stream c = sym (ap (◌++◌ c.sent) empty ∙ append-nil c.sent) in
    record {
      inv = record {
        output_valid = subst IsValid (sym o) v.output_valid;
        input_valid = subst IsValid (sym i) v.input_valid;
        idle = λ p q.
            ap content o ∙ v.idle (sym (ap is_disconnected st) ∙ p) (sym (ap is_writing ch) ∙ q);
        busy = λ p q e.
            v.busy (sym (ap is_disconnected st) ∙ p) (sym (ap is_writing ch) ∙ q)
              (sym (ap content o) ∙ e);
      };
      joined =
          ap₂ ◌++◌ s (ap content o ∙ empty)
          ∙ append-nil (c.sent ++ take d.nwrote bs)
          ∙ ap (λ xs. xs ++ take d.nwrote bs) old;
      state = st;
      calls = u;
      reading = ap (λ x. x.events.pollin) ch;
    }

pub send_rest-Adds :
    (c : Conn) (d : Direct) (bs : List ℕ) (c' : Conn)
    → Adds c (take d.nwrote bs) d.conn
    → d.fault ≡ false
    → length bs ≤ max_size
    → send_rest d bs ≡ ok c'
    → Adds c bs c'
unfolding send_rest keep_rest
send_rest-Adds c d bs c' a sane small e0 =
    let (u, e1, e) = >>=-eq-ok (assert (leb d.nwrote (length bs))) _ e0 in
    elim (lt_or_le 0 (length bs - d.nwrote)) [
      | inl left ↦
          let rest = drop d.nwrote bs in
          let some_rest : rest ≢ [] = λ q. omega (arith, ap length q, length-drop d.nwrote bs) in
          let more : buffer_rest d.conn rest ≡ ok c' = rw (sane, lt→ltb _ _ left) at e in
          let m =
            buffer_rest-Adds d.conn rest c' a.inv some_rest (omega (arith, length-drop d.nwrote bs))
              more in
          record {
            inv = m.inv;
            joined =
                m.joined
                ∙ ap (λ xs. xs ++ rest) a.joined
                ∙ append_assoc (stream c) (take d.nwrote bs) rest
                ∙ ap (◌++◌ (stream c)) (take-append-drop d.nwrote bs);
            state = m.state ∙ a.state;
            calls = m.calls ∙ a.calls;
            reading = m.reading ∙ a.reading;
          }
      | inr none_left ↦
          let done : d.conn ≡ c' = ok-injective (rw (sane, le→ltb _ _ none_left) at e) in
          let all : take d.nwrote bs ≡ bs = take_all d.nwrote bs (omega arith) in
          subst (Adds c bs) done (subst (λ xs. Adds c xs d.conn) all a)
    ]
