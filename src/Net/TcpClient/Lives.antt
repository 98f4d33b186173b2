-- ===== src/Net/TcpClient/Lives.antt =====
-- The invariant of net/TcpClient.cc, and what each change of one connection keeps.
use leaf.Shared.{ℕ, ◌≤◌, ◌<◌, ◌≡◌, ◌≢◌, sym, ap, ◌∙◌, subst, Bool, true, false, some, arith, count}
use native.Mathlib.Decide.{ℕ_discrete}
use leaf.Shared.Outcome.{Outcome, ok}
use leaf.Net.Connector.{k_connected, Connector}
use leaf.Net.TcpConnection.{Conn}
use leaf.Net.TcpServer.Stages.{Stage, live, removed, ended, ConnAt}
use leaf.Net.TcpClient.{TcpClient, is_connection}

-- Where an object is: the client's connection; closed, with its end on the way; ended.
pub data Place : Type 0 where
  current waiting gone : Place

abbrev pub stage_of : Place → Stage
stage_of current = live
stage_of waiting = removed
stage_of gone = ended

abbrev pub ends_at : Place → ℕ
ends_at current = 0
ends_at waiting = 1
ends_at gone = 0

abbrev pub is_current : Place → Bool
is_current current = true
is_current waiting = false
is_current gone = false

pub record Lives (t : TcpClient) (id : ℕ) (c : Conn) : Type 0 where
  pub place : Place
  pub conn : ConnAt (stage_of place) c
  pub ends : count id t.destroys ≡ ends_at place
  pub held : is_connection t.connection id ≡ is_current place
  pub older : id < t.next_conn_id

-- The client's connection is an object, and the connector is connected.
pub record Current (t : TcpClient) (id : ℕ) : Type 0 where
  pub conn : Conn
  pub found : t.objects id ≡ some conn
  pub connected : t.connector.state ≡ k_connected

pub record Inv (t : TcpClient) : Type 0 where
  pub lives : (id : ℕ) (c : Conn) → t.objects id ≡ some c → Lives t id c
  pub known : (id : ℕ) → 0 < count id t.destroys → (c : Conn) × (t.objects id ≡ some c)
  pub now : (id : ℕ) → t.connection ≡ some id → Current t id

-- The call returns, and the invariant holds again.
pub record Serves (r : Outcome TcpClient) : Type 0 where
  pub result : TcpClient
  pub returns : r ≡ ok result
  pub inv : Inv result

-- One object changes, and what the client keeps of it.
module _ (t t' : TcpClient) (v : Inv t) (id : ℕ) (c : Conn) (here : t'.objects id ≡ some c)
    (there : (j : ℕ) → j ≢ id → t'.objects j ≡ t.objects j) (l : Lives t' id c)
    (more : t.next_conn_id ≤ t'.next_conn_id)
    (same_ends : (j : ℕ) → j ≢ id → count j t'.destroys ≡ count j t.destroys)
    (same_held : (j : ℕ) → j ≢ id → is_connection t'.connection j ≡ is_connection t.connection j)
    (now : (j : ℕ) → t'.connection ≡ some j → Current t' j) where
  changed-Lives : (j : ℕ) (d : Conn) → t'.objects j ≡ some d → Lives t' j d
  changed-Lives j d e = elim (ℕ_discrete j id) [
    | yes same ↦
        let is : some c ≡ some d = sym here ∙ ap t'.objects (sym same) ∙ e in
        let cd : c ≡ d = cc in subst (λ x. Lives t' j x) cd (subst (λ x. Lives t' x c) (sym same) l)
    | no other ↦
        let k = v.lives j d (sym (there j other) ∙ e) in
        record {
          place = k.place;
          conn = k.conn;
          ends = same_ends j other ∙ k.ends;
          held = same_held j other ∙ k.held;
          older = omega (arith, k.older, more);
        }
  ]

  pub changed-Inv : Inv t'
  changed-Inv = record {
    lives = changed-Lives;
    known = λ j k. elim (ℕ_discrete j id) [
      | yes same ↦ (c, ap t'.objects same ∙ here)
      | no other ↦
          let w = v.known j (omega (arith, same_ends j other, k)) in (w.0, there j other ∙ w.1)
    ];
    now = now;
  }

-- Only the connector and the flags change, and a connector that is connected stays so.
pub kept-Inv :
    (t : TcpClient) (retry connect_flag : Bool) (k : Connector)
    → Inv t
    → ((id : ℕ) → t.connection ≡ some id → k.state ≡ k_connected)
    → Inv (record t { connector = k; retry = retry; connect_flag = connect_flag })
kept-Inv t retry connect_flag k v h = record {
  lives = λ id c e.
      let l = v.lives id c e in
      record { place = l.place; conn = l.conn; ends = l.ends; held = l.held; older = l.older };
  known = v.known;
  now = λ id e. let n = v.now id e in record { conn = n.conn; found = n.found; connected = h id e };
}
