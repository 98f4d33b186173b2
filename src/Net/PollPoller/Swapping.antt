-- ===== src/Net/PollPoller/Swapping.antt =====
-- What `removeChannel` of net/poller/PollPoller.cc does to the entries: the last one takes the place
-- of the removed one.
use leaf.Shared.{
  ℕ, ◌+◌, ◌-◌, ◌<◌, ◌≡◌, ◌≢◌, refl, sym, ap, ◌∙◌, inl, inr, true, false, List, some, ◌==◌,
  if◌then◌else◌, length, get_elem?, take, arith, length-take,
}
use leaf.Shared.Outcome.{Outcome, ok}
use leaf.Net.PollPoller.{PollFd, PollPoller, assign, set_elem, pop_back, owner, swap_out}
use leaf.Net.PollPoller.Entries.{
  get_total, at-get, take_inside, length-set_elem, get-set_same, get-set_other, get_inside,
  get-take, assign-same, assign-other, eq_or_ne, some-injective,
}
use leaf.Net.PollPoller.Places.{Inv, one_place}

-- The entry at `idx` goes, and with it the registration of its channel.
module _ (p : PollPoller) (v : Inv p) (idx : ℕ) (pfd : PollFd)
    (here : get_elem? p.pollfds idx ≡ some pfd) where
  abbrev last : ℕ
  last = length p.pollfds - 1

  abbrev forgotten : PollPoller
  forgotten = record p { registered = assign p.registered (owner pfd.fd) false }

  inside : idx < length p.pollfds
  inside = get_inside p.pollfds idx pfd here

  -- Another entry is of another channel, which stays.
  stays :
      (i : ℕ) (e : PollFd)
      → get_elem? p.pollfds i ≡ some e
      → i ≢ idx
      → forgotten.registered (owner e.fd) ≡ true
  stays i e g h =
      assign-other p.registered (owner pfd.fd) false (owner e.fd)
        (λ q. h (one_place p v i idx e pfd g here q))
      ∙ (v.owned i e g).0

  -- A channel that stays has another place.
  kept :
      (f : ℕ)
      → forgotten.registered f ≡ true
      → (i : ℕ) × (e : PollFd) × (i ≢ idx)
        × (p.index f ≡ some i)
        × (get_elem? p.pollfds i ≡ some e)
        × (owner e.fd ≡ f)
  kept f r = elim (eq_or_ne f (owner pfd.fd)) [
    | inl same ↦ absurd (
        let t : false ≡ true = sym (assign-same p.registered (owner pfd.fd) false f same) ∙ r in cc)
    | inr other ↦
        let (i, e, a, g, o) =
          v.placed f (sym (assign-other p.registered (owner pfd.fd) false f other) ∙ r) in
        (
          i,
          e,
          λ q. other (
              sym o
              ∙ ap (λ (t : PollFd). owner t.fd)
                  (some-injective (sym g ∙ ap (get_elem? p.pollfds) q ∙ here))),
          a,
          g,
          o,
        )
  ]

  popped-Inv : idx ≡ last → Inv (record forgotten { pollfds = pop_back p.pollfds })
  popped-Inv at_end = record {
    placed = λ f r.
        let (i, e, h, a, g, o) = kept f r in
        let lt : i < last = omega (arith, get_inside p.pollfds i e g, at_end, h) in
        (i, e, a, get-take last p.pollfds i lt ∙ g, o);
    owned = λ i e g.
        let lt = take_inside last p.pollfds i e g in
        let old = sym (get-take last p.pollfds i lt) ∙ g in
        (stays i e old (λ q. omega arith), (v.owned i e old).1);
  }

  module _ (back : PollFd) (at_back : get_elem? p.pollfds last ≡ some back)
      (before : idx ≢ last) where
    abbrev swapped : List PollFd
    swapped = set_elem (set_elem p.pollfds idx back) last pfd

    abbrev moved : PollPoller
    moved = record forgotten {
      pollfds = take (length swapped - 1) swapped;
      index = assign p.index (owner back.fd) (some idx);
    }

    length-swapped : length swapped ≡ length p.pollfds
    length-swapped =
        length-set_elem (set_elem p.pollfds idx back) last pfd ∙ length-set_elem p.pollfds idx back

    -- Below the end, only the freed place has changed.
    get_moved :
        (i : ℕ) → i < last → get_elem? moved.pollfds i ≡ get_elem? (set_elem p.pollfds idx back) i
    get_moved i h =
        get-take (length swapped - 1) swapped i (omega (arith, length-swapped))
        ∙ get-set_other (set_elem p.pollfds idx back) i last pfd (λ q. omega arith)

    moved-Inv : Inv moved
    moved-Inv = record {
      placed = λ f r.
          let (i, e, h, a, g, o) = kept f r in
          elim (eq_or_ne f (owner back.fd)) [
            | inl is_back ↦ (
              idx,
              back,
              assign-same p.index (owner back.fd) (some idx) f is_back,
              get_moved idx (omega (arith, inside, before))
                  ∙ get-set_same p.pollfds idx back inside,
              sym is_back,
            )
            | inr other ↦
                let off : i ≢ last = λ q. other (
                  sym o
                  ∙ ap (λ (t : PollFd). owner t.fd)
                      (some-injective (sym g ∙ ap (get_elem? p.pollfds) q ∙ at_back))) in
                (
                  i,
                  e,
                  assign-other p.index (owner back.fd) (some idx) f other ∙ a,
                  get_moved i (omega (arith, off, get_inside p.pollfds i e g))
                      ∙ get-set_other p.pollfds i idx back h
                      ∙ g,
                  o,
                )
          ];
      owned = λ i e g.
          let lt : i < last =
            omega (arith, take_inside (length swapped - 1) swapped i e g, length-swapped) in
          let old = sym (get_moved i lt) ∙ g in
          elim (eq_or_ne i idx) [
            | inl freed ↦
                let q : back ≡ e = some-injective (
                  sym (get-set_same p.pollfds idx back inside)
                  ∙ sym (ap (get_elem? (set_elem p.pollfds idx back)) freed)
                  ∙ old) in
                let o : owner e.fd ≡ owner back.fd = sym (ap (λ (t : PollFd). owner t.fd) q) in
                (
                  ap forgotten.registered o ∙ stays last back at_back (λ t. before (sym t)),
                  assign-same p.index (owner back.fd) (some idx) (owner e.fd) o
                      ∙ ap some (sym freed),
                )
            | inr same ↦
                let g0 = sym (get-set_other p.pollfds i idx back same) ∙ old in
                (
                  stays i e g0 same,
                  assign-other p.index (owner back.fd) (some idx) (owner e.fd) (λ q.
                        absurd (let t = one_place p v i last e back g0 at_back q in omega arith))
                      ∙ (v.owned i e g0).1,
                )
          ];
    }

  -- The other entries are where they were.
  popped-others :
      idx ≡ last
      → (i : ℕ) (e : PollFd) → get_elem? p.pollfds i ≡ some e
      → i ≢ idx
      → get_elem? (pop_back p.pollfds) (if i == last then idx else i) ≡ some e
  popped-others at_end i e g h =
      let lt : i < last = omega (arith, get_inside p.pollfds i e g, at_end, h) in
      let q : (i == last) ≡ false = ground arith in rw q (get-take last p.pollfds i lt ∙ g)

  -- They are where they were, but for the last, which has come to the freed place.
  moved-others :
      (back : PollFd) (at_back : get_elem? p.pollfds last ≡ some back) (before : idx ≢ last) (i : ℕ)
      (e : PollFd)
      → get_elem? p.pollfds i ≡ some e
      → i ≢ idx
      → get_elem? (moved back at_back before).pollfds (if i == last then idx else i) ≡ some e
  moved-others back at_back before i e g h = elim (eq_or_ne i last) [
    | inl end ↦
        let q : (i == last) ≡ true = ground arith in
        let same : some back ≡ some e = sym at_back ∙ ap (get_elem? p.pollfds) (sym end) ∙ g in
        rw q (
          get_moved back at_back before idx (omega (arith, inside, before))
          ∙ get-set_same p.pollfds idx back inside
          ∙ same)
    | inr early ↦
        let q : (i == last) ≡ false = ground arith in
        rw q (
          get_moved back at_back before i (omega (arith, early, get_inside p.pollfds i e g))
          ∙ get-set_other p.pollfds i idx back h
          ∙ g)
  ]

  -- What a removal leaves: the place is found, the channel is forgotten, and every other entry is
  -- kept as it is, the last one at the freed place.
  pub record Removed (r : Outcome PollPoller) : Type 0 where
    pub result : PollPoller
    pub returns : r ≡ ok result
    pub inv : Inv result
    pub registered : result.registered ≡ assign p.registered (owner pfd.fd) false
    pub shorter : length result.pollfds + 1 ≡ length p.pollfds
    pub others :
        (i : ℕ) (e : PollFd)
        → get_elem? p.pollfds i ≡ some e
        → i ≢ idx
        → get_elem? result.pollfds (if i == last then idx else i) ≡ some e

  pub swap_out-Removed : Removed (swap_out forgotten idx pfd)
  unfolding swap_out
  swap_out-Removed = elim (eq_or_ne idx last) [
    | inl at_end ↦
        let q : (idx == last) ≡ true = ground arith in
        record {
          result = record forgotten { pollfds = pop_back p.pollfds };
          returns = rw q;
          inv = popped-Inv at_end;
          registered = refl;
          shorter = omega (arith, length-take last p.pollfds, inside);
          others = popped-others at_end;
        }
    | inr before ↦
        let q : (idx == last) ≡ false = ground arith in
        let (back, at_back) = get_total p.pollfds last (omega (arith, inside)) in
        let r = stays last back at_back (λ t. before (sym t)) in
        record {
          result = moved back at_back before;
          returns = rw (q, at-get p.pollfds last back at_back, r);
          inv = moved-Inv back at_back before;
          registered = refl;
          shorter = omega (
            arith,
            length-take (length (swapped back at_back before) - 1) (swapped back at_back before),
            length-swapped back at_back before,
            inside,
          );
          others = moved-others back at_back before;
        }
  ]
