-- ===== src/Net/TcpConnection/Order.antt =====
-- `sendInLoop` and `handleWrite` of net/TcpConnection.cc against the stream of a connection.
use leaf.Shared.{
  le→leb, ℕ, ◌-◌, ◌≤◌, ◌<◌, ◌≡◌, refl, sym, ap, ap₂, ◌∙◌, inl, inr, subst, true, false, ◌&&◌, List,
  [], ◌++◌, arith, ltb, ◌==◌, if◌then◌else◌, length, take, drop, append_assoc, append-nil,
  Bool-cases, take-append-drop, lt→ltb, nil_of_length,
}
use leaf.Shared.Words.{max_size}
use leaf.Shared.Outcome.{ok, assert_failed, ◌>>=◌, ok-injective}
use leaf.Net.Buffer.{readable_bytes, retrieve}
use leaf.Net.Buffer.Content.{
  IsValid, Holds, content, readable_bytes-length, retrieve-Holds, peek_range-content,
}
use leaf.Net.Buffer.Space.{Compacts, append-Compacts}
use leaf.Net.Channel.{is_writing, disable_writing, update}
use leaf.Net.TcpConnection.{
  Conn, Write, wrote, refused, fault_error, direct_write, buffer_rest, send_in_loop, send_rest,
  keep_rest, is_idle, drained, shutdown_in_loop, handle_write, queue_in_loop, is_disconnected,
}
use leaf.Net.TcpConnection.Bytes.{stream, Inv, Adds, WithinWrite, direct-Adds, send_rest-Adds}

-- What `sendInLoop` takes over: all of it, unless the connection is down or the direct write met a
-- broken pipe.
abbrev pub taken : Conn → List ℕ → ℕ → Write → List ℕ
taken c bs errno w =
    if is_disconnected c.state
    then []
    else if is_idle c && (direct_write c bs errno w).fault
    then []
    else bs

fault-nwrote :
    (c : Conn) (bs : List ℕ) (errno : ℕ) (w : Write)
    → (direct_write c bs errno w).fault ≡ true
    → direct_write c bs errno w ≡ record { conn = c; nwrote = 0; fault = true }
unfolding direct_write
fault-nwrote c bs errno (refused e) h = rw h
fault-nwrote c bs errno (wrote n) h = elim (Bool-cases (ltb 0 n)) [
  | inl some ↦ absurd (let q : false ≡ true = rw some at h in cc)
  | inr none_sent ↦
      let q : fault_error errno ≡ true = rw none_sent at h in
      rw none_sent (ap (λ b. record { conn = c; nwrote = 0; fault = b }) q)
]

idle-content : (c : Conn) → Inv c → is_idle c ≡ true → content c.output_buffer ≡ []
unfolding is_idle
idle-content c v h =
    let z : readable_bytes c.output_buffer ≡ 0 = ground arith in
    nil_of_length _ (sym (readable_bytes-length c.output_buffer v.output_valid) ∙ z)

pub Adds-refl : (c : Conn) → Inv c → Adds c [] c
Adds-refl c v = record {
  inv = v;
  joined = sym (append-nil (stream c));
  state = refl;
  calls = refl;
  reading = refl;
}

broken-same :
    (c : Conn) (bs : List ℕ) (errno : ℕ) (w : Write)
    → (direct_write c bs errno w).fault ≡ true
    → send_rest (direct_write c bs errno w) bs ≡ ok c
unfolding send_rest keep_rest
broken-same c bs errno w h = rw (fault-nwrote c bs errno w h, le→leb 0 (length bs) (omega arith))

-- Whenever `sendInLoop` returns, what it took over has joined the end of the stream: written to the
-- socket or waiting behind what already waits.
pub send_in_loop-Adds :
    (c : Conn) (bs : List ℕ) (errno : ℕ) (w : Write) (c' : Conn)
    → Inv c
    → length bs ≤ max_size
    → send_in_loop c bs errno w ≡ ok c'
    → Adds c (taken c bs errno w) c'
unfolding send_in_loop
send_in_loop-Adds c bs errno w c' v small e = elim (Bool-cases (is_disconnected c.state)) [
  | inl down ↦
      let same : c ≡ c' = ok-injective (rw down at e) in
      rw down (subst (Adds c []) same (Adds-refl c v))
  | inr open_ ↦ elim (Bool-cases (is_idle c)) [
    | inl idle ↦
        let r : send_rest (direct_write c bs errno w) bs ≡ ok c' = rw (open_, idle) at e in
        elim (Bool-cases (direct_write c bs errno w).fault) [
          | inl broken ↦
              let same : c ≡ c' = ok-injective (sym (broken-same c bs errno w broken) ∙ r) in
              rw (open_, idle, broken) (subst (Adds c []) same (Adds-refl c v))
          | inr sane ↦
              rw (open_, idle, sane)
                (send_rest-Adds c (direct_write c bs errno w) bs c'
                  (direct-Adds c bs errno w v (idle-content c v idle)) sane small r)
        ]
    | inr busy ↦
        let r : send_rest (record { conn = c; nwrote = 0; fault = false }) bs ≡ ok c' =
          rw (open_, busy) at e in
        rw (open_, busy) (send_rest-Adds c _ bs c' (Adds-refl c v) refl small r)
  ]
]

drained_fields :
    (c : Conn)
    → let c' = drained c in
      (c'.sent ≡ c.sent)
      × (c'.state ≡ c.state)
      × (c'.input_buffer ≡ c.input_buffer)
      × (c'.output_buffer ≡ c.output_buffer)
      × (is_writing c'.channel ≡ false)
      × (c'.calls ≡ c.calls)
      × (c'.channel.events.pollin ≡ c.channel.events.pollin)
unfolding drained shutdown_in_loop queue_in_loop is_writing disable_writing update
drained_fields c = ground arith

module _ (c : Conn) (n : ℕ) (v : Inv c)
    (r : Holds (drop n (content c.output_buffer)) (retrieve c.output_buffer n)) where
  abbrev moved : Conn
  moved = record c { output_buffer = r.result; sent = c.sent ++ take n (content c.output_buffer) }

  moved-joined : stream moved ≡ stream c ++ []
  moved-joined =
      ap (◌++◌ (c.sent ++ take n (content c.output_buffer))) r.holds
      ∙ append_assoc c.sent (take n (content c.output_buffer)) (drop n (content c.output_buffer))
      ∙ ap (◌++◌ c.sent) (take-append-drop n (content c.output_buffer))
      ∙ sym (append-nil (stream c))

  moved-Adds :
      is_writing c.channel ≡ true
      → Adds c [] (if readable_bytes r.result == 0 then drained moved else moved)
  moved-Adds watching = elim (Bool-cases (readable_bytes r.result == 0)) [
    | inl empty ↦
        let z : readable_bytes r.result ≡ 0 = ground arith in
        let nothing : content r.result ≡ [] =
          nil_of_length _ (sym (readable_bytes-length r.result r.valid) ∙ z) in
        let (s, st, i, o, off, u, rd) = drained_fields moved in
        rw empty (record {
          inv = record {
            output_valid = subst IsValid (sym o) r.valid;
            input_valid = subst IsValid (sym i) v.input_valid;
            idle = λ _ _. ap content o ∙ nothing;
            busy = λ _ q. absurd (cc (off, q));
          };
          joined = ap₂ ◌++◌ s (ap content o) ∙ moved-joined;
          state = st;
          calls = u;
          reading = rd;
        })
    | inr more ↦ rw more (record {
      inv = record {
        output_valid = r.valid;
        input_valid = v.input_valid;
        idle = λ _ q. absurd (cc (watching, q));
        busy = λ _ _ q. absurd (
            let z : readable_bytes r.result ≡ 0 =
              readable_bytes-length r.result r.valid ∙ ap length q in
            ground arith);
      };
      joined = moved-joined;
      state = refl;
      calls = refl;
      reading = refl;
    })
  ]

-- Whenever `handleWrite` returns, it has moved bytes from the front of the output buffer to the
-- socket, and POLLOUT is watched exactly while bytes wait.
pub handle_write-Adds :
    (c : Conn) (w : Write) (c' : Conn)
    → Inv c
    → WithinWrite (length (content c.output_buffer)) w
    → handle_write c w ≡ ok c'
    → Adds c [] c'
unfolding handle_write
handle_write-Adds c (refused errno) c' v h e = subst (Adds c []) (ok-injective e) (Adds-refl c v)
handle_write-Adds c (wrote n) c' v h e = elim (Bool-cases (is_writing c.channel && ltb 0 n)) [
  | inr skip ↦
      let same : c ≡ c' = ok-injective (rw skip at e) in subst (Adds c []) same (Adds-refl c v)
  | inl go ↦
      let r = retrieve-Holds c.output_buffer v.output_valid n h in
      let watching : is_writing c.channel ≡ true = ground arith in
      let p = peek_range-content c.output_buffer v.output_valid in
      subst (Adds c []) (ok-injective (rw (go, p, ◌>>=◌, r.returns) at e))
        (moved-Adds c n v r watching)
]

-- `handleWrite` never fails: it always finds as many bytes as the kernel took.
pub handle_write-returns :
    (c : Conn) (w : Write)
    → Inv c
    → WithinWrite (length (content c.output_buffer)) w
    → (c' : Conn) × (handle_write c w ≡ ok c')
unfolding handle_write
handle_write-returns c (refused errno) v h = (c, refl)
handle_write-returns c (wrote n) v h = elim (Bool-cases (is_writing c.channel && ltb 0 n)) [
  | inr skip ↦ (c, rw skip)
  | inl go ↦
      let r = retrieve-Holds c.output_buffer v.output_valid n h in
      let p = peek_range-content c.output_buffer v.output_valid in
      (
        if readable_bytes r.result == 0 then drained (moved c n v r) else moved c n v r,
        rw (go, p, ◌>>=◌, r.returns),
      )
]

-- While bytes wait, a message that would make the output buffer compact ends the process: the
-- assertion in `makeSpace` fails.
pub send_in_loop-aborts :
    (c : Conn) (bs : List ℕ) (errno : ℕ) (w : Write) (v : Inv c)
    → is_disconnected c.state ≡ false
    → is_writing c.channel ≡ true
    → Compacts c.output_buffer v.output_valid (length bs)
    → send_in_loop c bs errno w ≡ assert_failed
unfolding send_in_loop send_rest keep_rest buffer_rest is_idle
send_in_loop-aborts c bs errno w v open_ watching far =
    let some_left : 0 < length bs - 0 = omega (arith, far.0) in
    rw (
      open_,
      watching,
      le→leb 0 (length bs) (omega arith),
      lt→ltb _ _ some_left,
      append-Compacts c.output_buffer v.output_valid bs far,
    )
