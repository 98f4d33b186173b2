-- ===== src/Net/TcpServer/Stages.antt =====
-- The stages in the life of a connection of net/TcpServer.cc.
use leaf.Shared.{ℕ, ◌≡◌, refl, ap, ◌∙◌, true, false, List, [], ◌∷◌, ◌++◌, arith}
use leaf.Shared.Outcome.{Outcome, ok, ◌>>=◌}
use leaf.Net.Channel.{Channel, is_none_event, remove, enable_reading, tie}
use leaf.Net.TcpConnection.{
  StateE, disconnected, connecting, connected, disconnecting, Conn, up, is_open, is_disconnected,
  is_connecting, is_connected, call_user, new_connection, connect_established, leave_connected,
  connect_destroyed,
}
use leaf.Net.TcpConnection.Closing.{count_closed, Stays, Closes, count_closed_one}
use leaf.Net.TcpServer.{Bound, establish, destroy, Connection}

-- Made; established; closed, with its removal on the way; removed from the map, with its end on the
-- way; ended.
pub data Stage : Type 0 where
  fresh live leaving removed ended : Stage

abbrev pub ConnAt : Stage → Conn → Type 0
ConnAt fresh c = (is_connecting c.state ≡ true) × (count_closed c.calls ≡ 0)
ConnAt live c = (is_open c.state ≡ true) × (count_closed c.calls ≡ 0)
ConnAt ended c =
    (c.state ≡ disconnected) × (count_closed c.calls ≡ 1) × (is_none_event c.channel ≡ true)
ConnAt leaving c =
    (c.state ≡ disconnected)
    × (count_closed c.calls ≡ 1)
    × (is_none_event c.channel ≡ true)
    × (c.channel.added ≡ true)
ConnAt removed c =
    (c.state ≡ disconnected)
    × (count_closed c.calls ≡ 1)
    × (is_none_event c.channel ≡ true)
    × (c.channel.added ≡ true)

-- How often the map has the connection, and how many removals wait in the server's loop.
abbrev pub in_map : Stage → ℕ
in_map fresh = 1
in_map live = 1
in_map leaving = 1
in_map removed = 0
in_map ended = 0

abbrev pub removals : Stage → ℕ
removals leaving = 1
removals fresh = 0
removals live = 0
removals removed = 0
removals ended = 0

abbrev pub queue_at : Stage → List Bound
queue_at fresh = establish ∷ []
queue_at removed = destroy ∷ []
queue_at live = []
queue_at leaving = []
queue_at ended = []

-- A connection that the map has `m` times, with `p` removals on the way.
pub record IsAt (stage : Stage) (c : Connection) (m p : ℕ) : Type 0 where
  pub conn : ConnAt stage c.conn
  pub queue : c.queued ≡ queue_at stage
  pub mapped : m ≡ in_map stage
  pub waits : p ≡ removals stage

still_open :
    (s s' : StateE)
    → is_open s ≡ true
    → is_disconnected s' ≡ is_disconnected s
    → is_connecting s' ≡ is_connecting s
    → is_open s' ≡ true
unfolding is_open is_disconnected is_connecting
still_open connected connected h a b = refl
still_open connected disconnecting h a b = refl
still_open connected connecting h a b = absurd (cc)
still_open connected disconnected h a b = absurd (cc)
still_open disconnecting connected h a b = refl
still_open disconnecting disconnecting h a b = refl
still_open disconnecting connecting h a b = absurd (cc)
still_open disconnecting disconnected h a b = absurd (cc)
still_open connecting s' h a b = absurd (cc)
still_open disconnected s' h a b = absurd (cc)

is-disconnected : (s : StateE) → is_disconnected s ≡ true → s ≡ disconnected
unfolding is_disconnected
is-disconnected disconnected h = refl
is-disconnected connecting h = absurd (cc)
is-disconnected connected h = absurd (cc)
is-disconnected disconnecting h = absurd (cc)

module _ (c c' : Conn) (s : Stays c c') where
  -- A disconnected connection that stays keeps its channel.
  gone :
      c.state ≡ disconnected
      → is_none_event c.channel ≡ true
      → (c'.state ≡ disconnected) × (c'.channel ≡ c.channel)
  unfolding is_disconnected
  gone d n =
      let was : is_disconnected c.state ≡ true = ap is_disconnected d in
      (is-disconnected c'.state (s.alive ∙ was), s.channel was n)

  shut_stays : ConnAt removed c → ConnAt removed c'
  shut_stays h =
      let g = gone h.0 h.2 in
      (g.0, s.closings ∙ h.1, ap is_none_event g.1 ∙ h.2, ap (λ (ch : Channel). ch.added) g.1 ∙ h.3)

  pub Stays-ConnAt : (stage : Stage) → ConnAt stage c → ConnAt stage c'
  Stays-ConnAt fresh h = (s.fresh ∙ h.0, s.closings ∙ h.1)
  Stays-ConnAt live h = (still_open c.state c'.state h.0 s.alive s.fresh, s.closings ∙ h.1)
  Stays-ConnAt leaving h = shut_stays h
  Stays-ConnAt removed h = shut_stays h
  Stays-ConnAt ended h = let g = gone h.0 h.2 in (g.0, s.closings ∙ h.1, ap is_none_event g.1 ∙ h.2)

-- Only an established connection can close.
pub Closes-ConnAt :
    (c c' : Conn) (stage : Stage)
    → ConnAt stage c
    → Closes c c'
    → (stage ≡ live) × ConnAt leaving c'
unfolding is_open is_connecting
Closes-ConnAt c c' live h k = (refl, (k.ends, omega (arith, k.closings, h.1), k.unwatched, k.added))
Closes-ConnAt c c' fresh h k = absurd (connecting-shut c.state h.0 k.was_open)
  where
    connecting-shut : (s : StateE) → is_connecting s ≡ true → is_open s ≡ true → ⊥
    connecting-shut connecting a b = cc
    connecting-shut connected a b = cc
    connecting-shut disconnecting a b = cc
    connecting-shut disconnected a b = cc
Closes-ConnAt c c' leaving h k = absurd (let e = ap is_open h.0 in let b = k.was_open in cc)
Closes-ConnAt c c' removed h k = absurd (let e = ap is_open h.0 in let b = k.was_open in cc)
Closes-ConnAt c c' ended h k = absurd (let e = ap is_open h.0 in let b = k.was_open in cc)

pub new_connection-ConnAt : (fd : ℕ) → ConnAt fresh (new_connection fd)
unfolding new_connection is_connecting
new_connection-ConnAt fd = (refl, refl)

pub established-ConnAt :
    (c : Conn) → ConnAt fresh c → (d : Conn) × (connect_established c ≡ ok d) × ConnAt live d
unfolding connect_established call_user is_open
established-ConnAt c h = (
  record c {
    state = connected;
    channel = enable_reading (tie c.channel);
    calls = c.calls ++ up ∷ [];
  },
  rw h.0 refl,
  (refl, omega (arith, count_closed_one c.calls up, h.1)),
)

leave_shut : (c : Conn) → c.state ≡ disconnected → leave_connected c ≡ c
unfolding leave_connected is_connected
leave_shut c h = let shut : is_connected c.state ≡ false = ap is_connected h in simp shut

remove_unwatched :
    (ch : Channel)
    → is_none_event ch ≡ true
    → ch.added ≡ true
    → remove ch ≡ ok (record ch { added = false })
unfolding remove
remove_unwatched ch n a = simp (n, a)

pub destroyed-ConnAt :
    (c : Conn) → ConnAt removed c → (d : Conn) × (connect_destroyed c ≡ ok d) × ConnAt ended d
unfolding connect_destroyed is_none_event
destroyed-ConnAt c h =
    let kept =
      ap (λ (x : Conn). remove x.channel >>= λ ch. ok (record x { channel = ch }))
        (leave_shut c h.0) in
    let taken =
      ap (λ (r : Outcome Channel). r >>= λ ch. ok (record c { channel = ch }))
        (remove_unwatched c.channel h.2 h.3) in
    (record c { channel = record (c.channel) { added = false } }, kept ∙ taken, (h.0, h.1, h.2))
