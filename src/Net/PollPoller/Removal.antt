-- ===== src/Net/PollPoller/Removal.antt =====
-- `removeChannel` of net/poller/PollPoller.cc, and all of `updateChannel`.
use leaf.Shared.{
  ℕ, ◌≡◌, refl, sym, ap, ◌∙◌, inl, inr, Bool, true, false, Bool-cases, Option, none, some, ◌==◌,
  ltb, length, get_elem?, arith, lt→ltb, ◌||◌,
}
use leaf.Shared.Outcome.{ok}
use leaf.Net.Channel.{Events}
use leaf.Net.PollPoller.{
  PollFd, PollPoller, set_elem, is_none, owner, is_ignored, changed, change_channel, update_at,
  update_channel, remove_at, remove_channel,
}
use leaf.Net.PollPoller.Entries.{at-get, get-set_same, get_inside}
use leaf.Net.PollPoller.Places.{changed-owner, Inv, add_channel-Inv, change_channel-Inv}
use leaf.Net.PollPoller.Swapping.{Removed, swap_out-Removed}

-- A registered channel that watches nothing is removed: its entry goes, the last entry takes the
-- place, every other entry is kept as it is, and every other channel still knows its own.
pub remove_channel-Removed :
    (p : PollPoller) (v : Inv p) (idx : ℕ) (pfd : PollFd)
    (here : get_elem? p.pollfds idx ≡ some pfd) (events : Events)
    → is_none events ≡ true
    → is_ignored pfd.fd ≡ true
    → is_none pfd.events ≡ true
    → Removed p v idx pfd here (remove_channel p (owner pfd.fd) events)
unfolding remove_channel remove_at
remove_channel-Removed p v idx pfd here events quiet ignored same =
    let (r, i) = v.owned idx pfd here in
    let fits : ltb idx (length p.pollfds) ≡ true = lt→ltb _ _ (get_inside p.pollfds idx pfd here) in
    let me : (owner pfd.fd == owner pfd.fd) ≡ true = ground arith in
    let s = swap_out-Removed p v idx pfd here in
    record {
      result = s.result;
      returns = rw (r, quiet, i, fits, at-get p.pollfds idx pfd here, ignored, me, same) s.returns;
      inv = s.inv;
      registered = s.registered;
      shorter = s.shorter;
      others = s.others;
    }

or-true : (b : Bool) → b || true ≡ true
or-true true = refl
or-true false = refl

or-false : (b : Bool) → b || false ≡ b
or-false true = refl
or-false false = refl

changed_events : (pfd : PollFd) (fd : ℕ) (events : Events) → (changed pfd fd events).events ≡ events
unfolding changed
changed_events pfd fd events = refl

changed-is_ignored :
    (pfd : PollFd) (fd : ℕ) (events : Events)
    → is_ignored (changed pfd fd events).fd ≡ is_ignored pfd.fd || is_none events
unfolding changed
changed-is_ignored pfd fd events = elim (Bool-cases (is_none events)) [
  | inl none_left ↦ rw none_left (sym (or-true (is_ignored pfd.fd)))
  | inr some_left ↦ rw some_left (sym (or-false (is_ignored pfd.fd)))
]

by_index :
    (p : PollPoller) (fd : ℕ) (events : Events) (p' : PollPoller)
    → Inv p
    → (o : Option ℕ) → update_at p fd events o ≡ ok p'
    → Inv p'
unfolding update_at
by_index p fd events p' v none e = add_channel-Inv p v fd events p' e
by_index p fd events p' v (some idx) e = change_channel-Inv p v fd idx events p' e

-- Whenever `updateChannel` returns, every registered channel has one entry and knows its place.
pub update_channel-Inv :
    (p : PollPoller) (fd : ℕ) (events : Events) (p' : PollPoller)
    → Inv p
    → update_channel p fd events ≡ ok p'
    → Inv p'
unfolding update_channel
update_channel-Inv p fd events p' v e = by_index p fd events p' v (p.index fd) e

-- `updateChannel` on a registered channel succeeds and writes its events to its entry. The entry is
-- ignored from then on if it was ignored before, or no event is watched.
pub update_channel-changes :
    (p : PollPoller) (fd idx : ℕ) (pfd : PollFd) (events : Events)
    → Inv p
    → get_elem? p.pollfds idx ≡ some pfd
    → owner pfd.fd ≡ fd
    → (p' : PollPoller) × (e : PollFd) × (update_channel p fd events ≡ ok p')
      × (get_elem? p'.pollfds idx ≡ some e)
      × (e.events ≡ events)
      × (owner e.fd ≡ fd)
      × (is_ignored e.fd ≡ is_ignored pfd.fd || is_none events)
unfolding update_channel update_at change_channel
update_channel-changes p fd idx pfd events v here mine =
    let (r, i) = v.owned idx pfd here in
    let fits : ltb idx (length p.pollfds) ≡ true = lt→ltb _ _ (get_inside p.pollfds idx pfd here) in
    let me : (owner pfd.fd == fd) ≡ true = ground arith in
    let reg : p.registered fd ≡ true = ap p.registered (sym mine) ∙ r in
    let ind : p.index fd ≡ some idx = ap p.index (sym mine) ∙ i in
    let new = changed pfd fd events in
    (
      record p { pollfds = set_elem p.pollfds idx new },
      new,
      rw (ind, reg, fits, at-get p.pollfds idx pfd here, me),
      get-set_same p.pollfds idx new (get_inside p.pollfds idx pfd here),
      changed_events pfd fd events,
      changed-owner pfd fd events mine,
      changed-is_ignored pfd fd events,
    )
