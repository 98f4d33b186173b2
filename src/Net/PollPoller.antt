-- ===== src/Net/PollPoller.antt =====
-- net/poller/PollPoller.cc. There is one channel for a descriptor, so a channel is named by it:
-- `index` is the `index_` of each channel, none for -1, and `registered` the keys of `channels_`. The
-- descriptor of an ignored entry, -fd - 1, is `negsuc fd`.
pub mod Entries
pub mod Places
pub mod Swapping
pub mod Removal
pub mod Active
mod Tests
use leaf.Shared.{
  ℕ, zero, suc, ◌+◌, ◌-◌, Bool, true, false, not, ◌&&◌, ◌||◌, List, [], ◌∷◌, ◌++◌, Option, none,
  some, ◌==◌, ltb, if◌then◌else◌, length, get_elem?, take,
}
use leaf.Shared.Int.{ℤ, pos, negsuc}
use leaf.Shared.Outcome.{Outcome, ok, assert_failed, out_of_bounds, ◌>>=◌, ◌>>◌, assert}
use leaf.Net.Channel.{Events}

-- `struct pollfd`; `revents` is the kernel's answer to the last poll(2), 0 for none.
pub record PollFd : Type 0 where
  pub fd : ℤ
  pub events : Events
  pub revents : ℕ

pub record PollPoller : Type 0 where
  pub pollfds : List PollFd
  pub registered : ℕ → Bool
  pub index : ℕ → Option ℕ

pub new_poller : PollPoller
new_poller = record { pollfds = []; registered = λ _. false; index = λ _. none }

abbrev pub assign {ℓ} : {A : Type ℓ} → (ℕ → A) → ℕ → A → ℕ → A
assign f k v x = if x == k then v else f x

-- `v[i] = x`
abbrev pub set_elem {ℓ} : {A : Type ℓ} → List A → ℕ → A → List A
set_elem [] i x = []
set_elem (y ∷ ys) zero x = x ∷ ys
set_elem (y ∷ ys) (suc i) x = y ∷ set_elem ys i x

abbrev pub pop_back {ℓ} : {A : Type ℓ} → List A → List A
pop_back xs = take (length xs - 1) xs

-- `v[i]`
abbrev pub at {ℓ} : {A : Type ℓ} → List A → ℕ → Outcome A
at xs i = elim (get_elem? xs i) [ none ↦ out_of_bounds | some x ↦ ok x ]

abbrev pub is_none : Events → Bool
is_none ev = not (ev.pollin || ev.pollpri || ev.pollout)

-- The descriptor of an entry, ignored or not.
abbrev pub owner : ℤ → ℕ
owner (pos fd) = fd
owner (negsuc fd) = fd

abbrev pub is_ignored : ℤ → Bool
is_ignored (pos fd) = false
is_ignored (negsuc fd) = true

pub add_channel : PollPoller → ℕ → Events → Outcome PollPoller
add_channel p fd events = do
  assert (not (p.registered fd))
  ok (record {
    pollfds = p.pollfds ++ record { fd = pos fd; events = events; revents = 0 } ∷ [];
    registered = assign p.registered fd true;
    index = assign p.index fd (some (length p.pollfds));
  })

-- The entry of a channel that changes its events.
pub changed : PollFd → ℕ → Events → PollFd
changed pfd fd events = record {
  fd = if is_none events then negsuc fd else pfd.fd;
  events = events;
  revents = 0;
}

pub change_channel : PollPoller → ℕ → ℕ → Events → Outcome PollPoller
change_channel p fd idx events = do
  assert (p.registered fd)
  assert (ltb idx (length p.pollfds))
  pfd ← at p.pollfds idx
  assert (owner pfd.fd == fd)
  ok (record p { pollfds = set_elem p.pollfds idx (changed pfd fd events) })

-- What the channel's index decides: -1 is a new channel.
pub update_at : PollPoller → ℕ → Events → Option ℕ → Outcome PollPoller
update_at p fd events none = add_channel p fd events
update_at p fd events (some idx) = change_channel p fd idx events

pub update_channel : PollPoller → ℕ → Events → Outcome PollPoller
update_channel p fd events = update_at p fd events (p.index fd)

-- The last entry takes the place of the removed one, and its channel learns the place.
pub swap_out : PollPoller → ℕ → PollFd → Outcome PollPoller
swap_out p idx pfd =
    let last = length p.pollfds - 1 in
    if idx == last then ok (record p { pollfds = pop_back p.pollfds }) else (do
      back ← at p.pollfds last
      let swapped = set_elem (set_elem p.pollfds idx back) last pfd
      if p.registered (owner back.fd)
          then ok (record p {
            pollfds = pop_back swapped;
            index = assign p.index (owner back.fd) (some idx);
          })
          else out_of_bounds)

pub remove_at : PollPoller → ℕ → Events → Option ℕ → Outcome PollPoller
remove_at p fd events none = assert_failed
remove_at p fd events (some idx) = do
  assert (ltb idx (length p.pollfds))
  pfd ← at p.pollfds idx
  assert (is_ignored pfd.fd && owner pfd.fd == fd && is_none pfd.events)
  swap_out (record p { registered = assign p.registered fd false }) idx pfd

-- `events` are the channel's.
pub remove_channel : PollPoller → ℕ → Events → Outcome PollPoller
remove_channel p fd events = do
  assert (p.registered fd)
  assert (is_none events)
  remove_at p fd events (p.index fd)

-- The channels of the first `n` entries that have an answer, in the order of the entries.
pub fill_active_channels : PollPoller → List PollFd → ℕ → Outcome (List (ℕ × ℕ))
fill_active_channels p [] n = ok []
fill_active_channels p (e ∷ es) zero = ok []
fill_active_channels p (e ∷ es) (suc n) =
    if ltb 0 e.revents
    then (do
      assert (p.registered (owner e.fd))
      assert (not (is_ignored e.fd))
      rest ← fill_active_channels p es n
      ok ((owner e.fd, e.revents) ∷ rest))
    else fill_active_channels p es (suc n)
