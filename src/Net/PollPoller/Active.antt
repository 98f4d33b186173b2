-- ===== src/Net/PollPoller/Active.antt =====
-- `fillActiveChannels` of net/poller/PollPoller.cc.
use leaf.Shared.{
  ℕ, zero, suc, ◌≡◌, refl, sym, ap, inl, inr, true, false, Bool-cases, List, [], ◌∷◌, some, ltb,
  if◌then◌else◌, length, get_elem?, arith, nil_of_length,
}
use leaf.Shared.Outcome.{ok}
use leaf.Net.PollPoller.{PollFd, PollPoller, owner, is_ignored, fill_active_channels}
use leaf.Net.PollPoller.Places.{Inv}

-- The descriptors that have an answer, and the answers.
abbrev pub reported : List PollFd → List (ℕ × ℕ)
reported [] = []
reported (e ∷ es) = if ltb 0 e.revents then (owner e.fd, e.revents) ∷ reported es else reported es

module _ (p : PollPoller) where
  abbrev Registered : List PollFd → Type 0
  Registered es = (i : ℕ) (e : PollFd) → get_elem? es i ≡ some e → p.registered (owner e.fd) ≡ true

-- poll(2) answers for no negative descriptor.
abbrev pub Answers : List PollFd → Type 0
Answers es =
    (i : ℕ) (e : PollFd)
    → get_elem? es i ≡ some e
    → ltb 0 e.revents ≡ true
    → is_ignored e.fd ≡ false

fill-reported :
    (p : PollPoller) (es : List PollFd) (n : ℕ)
    → Registered p es
    → Answers es
    → n ≡ length (reported es)
    → fill_active_channels p es n ≡ ok (reported es)
unfolding fill_active_channels
fill-reported p [] n r a h = refl
fill-reported p (e ∷ es) zero r a h = sym (ap ok (nil_of_length (reported (e ∷ es)) (sym h)))
fill-reported p (e ∷ es) (suc n) r a h = elim (Bool-cases (ltb 0 e.revents)) [
  | inl some_answer ↦
      let k : suc n ≡ suc (length (reported es)) = rw some_answer at h in
      let next = fill-reported p es n (λ i. r (suc i)) (λ i. a (suc i)) (omega (arith, k)) in
      rw (some_answer, r 0 e refl, a 0 e refl some_answer, next)
  | inr no_answer ↦
      let k : suc n ≡ length (reported es) = rw no_answer at h in
      rw no_answer (fill-reported p es (suc n) (λ i. r (suc i)) (λ i. a (suc i)) k)
]

-- When the number of events is what poll(2) returns, exactly the channels with an answer become
-- active, in the order of the entries, and no assertion fails.
pub fill_active_channels-reported :
    (p : PollPoller)
    → Inv p
    → Answers p.pollfds
    → fill_active_channels p p.pollfds (length (reported p.pollfds)) ≡ ok (reported p.pollfds)
fill_active_channels-reported p v a =
    fill-reported p p.pollfds (length (reported p.pollfds)) (λ i e g. (v.owned i e g).0) a refl
