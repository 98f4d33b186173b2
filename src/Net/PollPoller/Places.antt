-- ===== src/Net/PollPoller/Places.antt =====
-- The places of entries in net/poller/PollPoller.cc, which the channels know.
use leaf.Shared.{
  ℕ, ◌≡◌, ◌≢◌, refl, sym, ap, ◌∙◌, subst, inl, inr, Bool, true, false, Bool-cases, not, some, ◌==◌,
  ltb, length, get_elem?, arith,
}
use leaf.Shared.Int.{pos}
use leaf.Shared.Outcome.{ok, assert, >>=-eq-ok, assert-eq-ok, ok-injective}
use leaf.Net.Channel.{Events}
use leaf.Net.PollPoller.{
  PollFd, PollPoller, set_elem, at, is_none, owner, add_channel, changed, change_channel,
}
use leaf.Net.PollPoller.Entries.{
  get-set_same, get-set_other, get_inside, get_append-last, get_append-old, get_append-new,
  at-eq-ok, assign-same, assign-other, eq_or_ne, some-injective,
}

-- A registered channel's index is the place of its entry, and every entry is of a registered channel
-- that knows it.
pub record Inv (p : PollPoller) : Type 0 where
  pub placed :
      (f : ℕ)
      → p.registered f ≡ true
      → (i : ℕ) × (e : PollFd) × (p.index f ≡ some i)
        × (get_elem? p.pollfds i ≡ some e)
        × (owner e.fd ≡ f)
  pub owned :
      (i : ℕ) (e : PollFd)
      → get_elem? p.pollfds i ≡ some e
      → (p.registered (owner e.fd) ≡ true) × (p.index (owner e.fd) ≡ some i)

pub not-true : (b : Bool) → not b ≡ true → b ≡ false
not-true true h = absurd (cc)
not-true false h = refl

pub changed-owner :
    (pfd : PollFd) (fd : ℕ) (events : Events)
    → owner pfd.fd ≡ fd
    → owner (changed pfd fd events).fd ≡ fd
unfolding changed
changed-owner pfd fd events h = elim (Bool-cases (is_none events)) [
  | inl none_left ↦ rw none_left refl
  | inr some_left ↦ rw some_left h
]

module _ (p : PollPoller) (v : Inv p) where
  -- Two places with one owner are one place.
  pub one_place :
      (i j : ℕ) (e e' : PollFd)
      → get_elem? p.pollfds i ≡ some e
      → get_elem? p.pollfds j ≡ some e'
      → owner e.fd ≡ owner e'.fd
      → i ≡ j
  one_place i j e e' a b q =
      some-injective (sym (v.owned i e a).1 ∙ ap p.index q ∙ (v.owned j e' b).1)

  pub add_channel-Inv :
      (fd : ℕ) (events : Events) (p' : PollPoller) → add_channel p fd events ≡ ok p' → Inv p'
  unfolding add_channel
  add_channel-Inv fd events p' e =
      let (u, e1, e2) = >>=-eq-ok (assert (not (p.registered fd))) _ e in
      let fresh : p.registered fd ≡ false =
        not-true (p.registered fd) (assert-eq-ok (not (p.registered fd)) u e1) in
      let entry : PollFd = record { fd = pos fd; events = events; revents = 0 } in
      subst Inv (ok-injective e2) (record {
        placed = λ f r. elim (eq_or_ne f fd) [
          | inl same ↦ (
            length p.pollfds,
            entry,
            assign-same p.index fd (some (length p.pollfds)) f same,
            get_append-new p.pollfds entry,
            sym same,
          )
          | inr other ↦
              let (i, e', a, b, c) =
                v.placed f (sym (assign-other p.registered fd true f other) ∙ r) in
              (
                i,
                e',
                assign-other p.index fd (some (length p.pollfds)) f other ∙ a,
                get_append-old p.pollfds entry e' i b,
                c,
              )
        ];
        owned = λ i e' g. elim (get_append-last p.pollfds entry e' i g) [
          | inl old ↦
              let (r, a) = v.owned i e' old in
              let other : owner e'.fd ≢ fd =
                λ q. absurd (let t : true ≡ false = sym r ∙ ap p.registered q ∙ fresh in cc) in
              (
                assign-other p.registered fd true (owner e'.fd) other ∙ r,
                assign-other p.index fd (some (length p.pollfds)) (owner e'.fd) other ∙ a,
              )
          | inr (h, q) ↦
              let same : owner e'.fd ≡ fd = sym (ap (λ (t : PollFd). owner t.fd) q) in
              (
                assign-same p.registered fd true (owner e'.fd) same,
                assign-same p.index fd (some (length p.pollfds)) (owner e'.fd) same
                    ∙ ap some (sym h),
              )
        ];
      })

  pub change_channel-Inv :
      (fd idx : ℕ) (events : Events) (p' : PollPoller)
      → change_channel p fd idx events ≡ ok p'
      → Inv p'
  unfolding change_channel
  change_channel-Inv fd idx events p' e =
      let (u, _, e1) = >>=-eq-ok (assert (p.registered fd)) _ e in
      let (u1, _, e2) = >>=-eq-ok (assert (ltb idx (length p.pollfds))) _ e1 in
      let (pfd, a, e3) = >>=-eq-ok (at p.pollfds idx) _ e2 in
      let (u2, b, e4) = >>=-eq-ok (assert (owner pfd.fd == fd)) _ e3 in
      let here = at-eq-ok p.pollfds idx pfd a in
      let mine : owner pfd.fd ≡ fd =
        let q = assert-eq-ok (owner pfd.fd == fd) u2 b in ground arith in
      let kept = changed-owner pfd fd events mine in
      let inside = get_inside p.pollfds idx pfd here in
      let new = changed pfd fd events in
      subst Inv (ok-injective e4) (record {
        placed = λ f r.
            let (i, e', c, g, o) = v.placed f r in
            elim (eq_or_ne i idx) [
              | inl same ↦
                  let q : e' ≡ pfd =
                    some-injective (sym g ∙ ap (get_elem? p.pollfds) same ∙ here) in
                  (
                    i,
                    new,
                    c,
                    ap (get_elem? (set_elem p.pollfds idx new)) same
                        ∙ get-set_same p.pollfds idx new inside,
                    kept ∙ sym mine ∙ sym (ap (λ (t : PollFd). owner t.fd) q) ∙ o,
                  )
              | inr other ↦ (i, e', c, get-set_other p.pollfds i idx new other ∙ g, o)
            ];
        owned = λ i e' g. elim (eq_or_ne i idx) [
          | inl same ↦
              let q : new ≡ e' = some-injective (
                sym (get-set_same p.pollfds idx new inside)
                ∙ sym (ap (get_elem? (set_elem p.pollfds idx new)) same)
                ∙ g) in
              let o : owner e'.fd ≡ owner pfd.fd =
                sym (ap (λ (t : PollFd). owner t.fd) q) ∙ kept ∙ sym mine in
              let (r, c) = v.owned idx pfd here in
              (ap p.registered o ∙ r, ap p.index o ∙ c ∙ ap some (sym same))
          | inr other ↦ v.owned i e' (sym (get-set_other p.pollfds i idx new other) ∙ g)
        ];
      })
