-- ===== src/Net/Connector/Retry.antt =====
-- The delays between the attempts of net/Connector.cc, and a timer that comes too late.
use leaf.Shared.{ℕ, suc, ◌*◌, ◌^◌, ◌≡◌, true, List, [], ◌∷◌, none, min}
use leaf.Net.Connector.{
  k_disconnected, Connector, Functor, Event, is_retried, Attempt, retry, fires,
}

-- The delay before attempt `i`, from 0: it doubles up to half a minute.
abbrev pub delay : ℕ → ℕ
delay i = min (500 * 2 ^ i) 30000

-- A connector that may start: no channel, and these functors and timers wait.
pub record Ready (c : Connector) (fs : List Functor) (ts : List ℕ) : Type 0 where
  pub idle : c.state ≡ k_disconnected
  pub free : c.channel ≡ none
  pub functors : c.queued ≡ fs
  pub timers : c.timers ≡ ts

abbrev failed : Connector → Attempt → Connector
failed c a = retry (record c { opened = a.sockfd ∷ c.opened }) a.sockfd

-- The timer of each attempt fires, and the next attempt is made.
abbrev pub fire_each : List Attempt → List Event
fire_each [] = []
fire_each (a ∷ more) = fires 0 a ∷ fire_each more

abbrev pub AllRetried : List Attempt → Type 0
AllRetried [] = Unit {0}
AllRetried (a ∷ more) = (is_retried a.saved_errno ≡ true) × AllRetried more

-- One timer waits, with this delay, and the next one doubles.
pub record Waits (i : ℕ) (c : Connector) : Type 0 where
  pub wanted : c.connect_flag ≡ true
  pub idle : c.state ≡ k_disconnected
  pub timer : c.timers ≡ delay i ∷ []
  pub next : c.retry_delay_ms ≡ delay (suc i)
