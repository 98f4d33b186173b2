-- ===== src/Net/TcpConnection/Protocol.antt =====
-- The order in which net/TcpConnection.cc calls the user, and how it follows the states.
use leaf.Shared.{
  ℕ, ◌≡◌, refl, sym, ap, ap₂, ◌∙◌, ◌⊎◌, inl, inr, subst, true, false, List, [], ◌∷◌, ◌++◌, Option,
  none, some, append-nil,
}
use leaf.Net.Buffer.Content.{IsValid, content}
use leaf.Net.Channel.{is_writing}
use leaf.Net.TcpConnection.{
  StateE, disconnected, connecting, connected, disconnecting, Conn, UserCall, up, down, message,
  closed, is_open, is_disconnected,
}
use leaf.Net.TcpConnection.Bytes.{stream, Inv, Adds}

-- What the user has been told so far.
pub data Phase : Type 0 where
  before opened gone over : Phase

-- The calls that the user can expect: up, then messages, then down, then closed.
abbrev pub after : Phase → UserCall → Option Phase
after before up = some opened
after opened message = some opened
after opened down = some gone
after gone closed = some over
after _ _ = none

abbrev pub then_hear : Option Phase → (Phase → Option Phase) → Option Phase
then_hear none k = none
then_hear (some p) k = k p

abbrev pub hear : Phase → List UserCall → Option Phase
hear p [] = some p
hear p (u ∷ us) = then_hear (after p u) (λ q. hear q us)

then_hear-some :
    (m : Option Phase) (k : Phase → Option Phase) (r : Phase)
    → then_hear m k ≡ some r
    → (p : Phase) × (m ≡ some p) × (k p ≡ some r)
then_hear-some none k r e = absurd (cc)
then_hear-some (some p) k r e = (p, refl, e)

pub hear-append :
    (p : Phase) (us : List UserCall) (u : UserCall) (q r : Phase)
    → hear p us ≡ some q
    → after q u ≡ some r
    → hear p (us ++ u ∷ []) ≡ some r
hear-append p [] u q r e f = let same : p ≡ q = cc in rw same (rw f refl)
hear-append p (x ∷ us) u q r e f =
    let (m, e1, e2) = then_hear-some (after p x) (λ y. hear y us) q e in
    rw e1 (hear-append m us u q r e2 f)

-- What the user has been told in each state; `connectDestroyed` does not call the close callback.
abbrev pub Fits : StateE → Phase → Type 0
Fits connecting p = p ≡ before
Fits connected p = p ≡ opened
Fits disconnecting p = p ≡ opened
Fits disconnected p = (p ≡ gone) ⊎ (p ≡ over)

-- The user's calls follow the states, and a connection waits for input exactly while it is open.
pub record Protocol (c : Conn) : Type 0 where
  pub phase : Phase
  pub heard : hear before c.calls ≡ some phase
  pub fits : Fits c.state phase
  pub reads : c.channel.events.pollin ≡ is_open c.state

-- A step has kept both, and `added` has joined the stream.
pub record Keeps (c : Conn) (added : List ℕ) (c' : Conn) : Type 0 where
  pub inv : Inv c'
  pub protocol : Protocol c'
  pub joined : stream c' ≡ stream c ++ added

pub Adds-Keeps : (c : Conn) (bs : List ℕ) (c' : Conn) → Protocol c → Adds c bs c' → Keeps c bs c'
Adds-Keeps c bs c' p a = record {
  inv = a.inv;
  protocol = record {
    phase = p.phase;
    heard = ap (hear before) a.calls ∙ p.heard;
    fits = subst (λ s. Fits s p.phase) (sym a.state) p.fits;
    reads = a.reading ∙ p.reads ∙ ap is_open (sym a.state);
  };
  joined = a.joined;
}

pub Keeps-refl : (c : Conn) → Inv c → Protocol c → Keeps c [] c
Keeps-refl c v p = record { inv = v; protocol = p; joined = sym (append-nil (stream c)) }

-- An open connection has been announced and not yet ended.
pub open-opened : (s : StateE) (p : Phase) → is_open s ≡ true → Fits s p → p ≡ opened
unfolding is_open
open-opened connected p h f = f
open-opened disconnecting p h f = f
open-opened connecting p h f = absurd (cc)
open-opened disconnected p h f = absurd (cc)

pub open-alive : (s : StateE) → is_open s ≡ true → is_disconnected s ≡ false
unfolding is_open is_disconnected
open-alive connected h = refl
open-alive disconnecting h = refl
open-alive connecting h = absurd (cc)
open-alive disconnected h = absurd (cc)

-- Only `state`, `queued` and `write_shutdown` change, and an open connection stays open.
module _ (c : Conn) (v : Inv c) (p : Protocol c) where
  pub restate :
      (c' : Conn)
      → c'.sent ≡ c.sent
      → c'.output_buffer ≡ c.output_buffer
      → c'.input_buffer ≡ c.input_buffer
      → c'.channel ≡ c.channel
      → c'.calls ≡ c.calls
      → (c'.state ≡ c.state) ⊎ (is_open c.state ≡ true) × (c'.state ≡ disconnecting)
      → Keeps c [] c'
  unfolding is_open is_disconnected
  restate c' s o i ch u st = elim st [
    | inl same ↦ record {
      inv = record {
        output_valid = subst IsValid (sym o) v.output_valid;
        input_valid = subst IsValid (sym i) v.input_valid;
        idle = λ a b.
            ap content o ∙ v.idle (sym (ap is_disconnected same) ∙ a) (sym (ap is_writing ch) ∙ b);
        busy = λ a b e.
            v.busy (sym (ap is_disconnected same) ∙ a) (sym (ap is_writing ch) ∙ b)
              (sym (ap content o) ∙ e);
      };
      protocol = record {
        phase = p.phase;
        heard = ap (hear before) u ∙ p.heard;
        fits = subst (λ s. Fits s p.phase) (sym same) p.fits;
        reads = ap (λ x. x.events.pollin) ch ∙ p.reads ∙ ap is_open (sym same);
      };
      joined = ap₂ ◌++◌ s (ap content o) ∙ sym (append-nil (stream c));
    }
    | inr (was_open, now) ↦
        let alive : is_disconnected c.state ≡ false = open-alive c.state was_open in
        record {
          inv = record {
            output_valid = subst IsValid (sym o) v.output_valid;
            input_valid = subst IsValid (sym i) v.input_valid;
            idle = λ a b. ap content o ∙ v.idle alive (sym (ap is_writing ch) ∙ b);
            busy = λ a b e. v.busy alive (sym (ap is_writing ch) ∙ b) (sym (ap content o) ∙ e);
          };
          protocol = record {
            phase = p.phase;
            heard = ap (hear before) u ∙ p.heard;
            fits =
                subst (λ s. Fits s p.phase) (sym now) (open-opened c.state p.phase was_open p.fits);
            reads = ap (λ x. x.events.pollin) ch ∙ p.reads ∙ was_open ∙ ap is_open (sym now);
          };
          joined = ap₂ ◌++◌ s (ap content o) ∙ sym (append-nil (stream c));
        }
  ]
