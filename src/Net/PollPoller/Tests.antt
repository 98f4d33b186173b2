-- ===== src/Net/PollPoller/Tests.antt =====
-- The theorems on net/poller/PollPoller.cc at concrete pollers.
use leaf.Shared.{
  ℕ, ◌==◌, ltb, zero, suc, sym, ap, ◌∙◌, subst, inl, inr, Bool-cases, ◌≡◌, refl, true, false, [],
  ◌∷◌, none, some, arith, get_elem?,
}
use leaf.Shared.Int.{pos, negsuc}
use leaf.Shared.Outcome.{ok}
use leaf.Net.Channel.{Events, none_event}
use leaf.Net.PollPoller.{
  PollFd, PollPoller, new_poller, owner, is_ignored, assign, update_channel, update_at, add_channel,
  remove_channel, fill_active_channels,
}
use leaf.Net.PollPoller.Places.{Inv}
use leaf.Net.PollPoller.Swapping.{Removed}
use leaf.Net.PollPoller.Removal.{remove_channel-Removed, update_channel-changes, update_channel-Inv}
use leaf.Net.PollPoller.Active.{Answers, fill_active_channels-reported}

abbrev reading : Events
reading = record { pollin = true; pollpri = true; pollout = false }

-- An ignored channel on descriptor 3, and one on descriptor 5 that has an answer.
abbrev ignored : PollFd
ignored = record { fd = negsuc 3; events = none_event; revents = 0 }

abbrev answered : PollFd
answered = record { fd = pos 5; events = reading; revents = 1 }

abbrev two : PollPoller
two = record {
  pollfds = ignored ∷ answered ∷ [];
  registered = assign (assign (λ _. false) 3 true) 5 true;
  index = assign (assign (λ _. none) 3 (some 0)) 5 (some 1);
}

two_owned :
    (i : ℕ) (e : PollFd)
    → get_elem? two.pollfds i ≡ some e
    → (two.registered (owner e.fd) ≡ true) × (two.index (owner e.fd) ≡ some i)
two_owned zero e g =
    let q : ignored ≡ e = cc in
    subst (λ x. (two.registered (owner x.fd) ≡ true) × (two.index (owner x.fd) ≡ some 0)) q
      (refl, refl)
two_owned (suc zero) e g =
    let q : answered ≡ e = cc in
    subst (λ x. (two.registered (owner x.fd) ≡ true) × (two.index (owner x.fd) ≡ some 1)) q
      (refl, refl)
two_owned (suc (suc i)) e g = absurd (cc)

two_placed :
    (f : ℕ)
    → two.registered f ≡ true
    → (i : ℕ) × (e : PollFd) × (two.index f ≡ some i)
      × (get_elem? two.pollfds i ≡ some e)
      × (owner e.fd ≡ f)
two_placed f r = elim (Bool-cases (f == 5)) [
  | inl five ↦ (1, answered, rw five refl, refl, ground arith)
  | inr rest ↦ elim (Bool-cases (f == 3)) [
    | inl three ↦ (0, ignored, rw (rest, three) refl, refl, ground arith)
    | inr other ↦ absurd (let q : false ≡ true = rw (rest, other) at r in cc)
  ]
]

two-Inv : Inv two
two-Inv = record { placed = two_placed; owned = two_owned }

two-Answers : Answers two.pollfds
two-Answers zero e g h =
    let q : ignored ≡ e = cc in
    absurd (let z : false ≡ true = ap (λ (x : PollFd). ltb 0 x.revents) q ∙ h in cc)
two-Answers (suc zero) e g h =
    let q : answered ≡ e = cc in ap (λ (x : PollFd). is_ignored x.fd) (sym q)
two-Answers (suc (suc i)) e g h = absurd (cc)

new_poller-Inv : Inv new_poller
unfolding new_poller
new_poller-Inv = record { placed = λ f r. absurd (cc); owned = λ i e g. absurd (cc) }

-- The first channel of a new poller.
abbrev one : PollPoller
one = record {
  pollfds = record { fd = pos 3; events = reading; revents = 0 } ∷ [];
  registered = assign (λ _. false) 3 true;
  index = assign (λ _. none) 3 (some 0);
}

remove_channel-Removed_example :
    Removed two two-Inv 0 ignored refl (remove_channel two 3 none_event)
remove_channel-Removed_example =
    remove_channel-Removed two two-Inv 0 ignored refl none_event refl refl refl

update_channel-Inv_example : Inv one
unfolding new_poller update_channel update_at add_channel
update_channel-Inv_example = update_channel-Inv new_poller 3 reading one new_poller-Inv refl

update_channel-changes_example :
    (p' : PollPoller) × (e : PollFd) × (update_channel two 3 reading ≡ ok p')
    × (get_elem? p'.pollfds 0 ≡ some e)
    × (e.events ≡ reading)
    × (owner e.fd ≡ 3)
    × (is_ignored e.fd ≡ true)
update_channel-changes_example = update_channel-changes two 3 0 ignored reading two-Inv refl refl

fill_active_channels-reported_example : fill_active_channels two two.pollfds 1 ≡ ok ((5, 1) ∷ [])
fill_active_channels-reported_example = fill_active_channels-reported two two-Inv two-Answers
