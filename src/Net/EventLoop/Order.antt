-- ===== src/Net/EventLoop/Order.antt =====
-- The order of the functors of net/EventLoop.cc, and the wakeups for those that wait.
use leaf.Shared.{
  ℕ, ◌+◌, ◌<◌, ◌≡◌, ◌≢◌, refl, sym, ap, ◌∙◌, inl, inr, subst, Bool-cases, List, [], ◌∷◌, ◌++◌, some,
  arith, append_assoc, append-nil,
}
use leaf.Net.EventLoop.{
  Phase, polling, polling_first, handling, calling, stopped, EventLoop, wakeup, push, queue_here,
  swap_functors, call_functor, next_round, begin_loop, poll_returns, handle_wakeup,
}

-- A functor that waits while the loop may go to sleep has a wakeup, written or on its way, unless the
-- loop is in its first poll with functors that were queued before.
abbrev pub Awake : Phase → List ℕ → ℕ → Type 0
Awake handling fs n = Unit {0}
Awake polling_first fs n = Unit {0}
Awake stopped fs n = Unit {0}
Awake _ fs n = fs ≢ [] → 0 < n

-- The functors that were taken out are run before the next round.
abbrev pub Emptied : Phase → List ℕ → Type 0
Emptied calling fs = Unit {0}
Emptied _ fs = fs ≡ []

pub record Inv (l : EventLoop) : Type 0 where
  pub in_order : l.ran ++ (l.functors ++ l.pending_functors) ≡ l.asked
  pub awake : Awake l.phase l.pending_functors (l.wakeups + l.on_the_way)
  pub emptied : Emptied l.phase l.functors

pub some-injective {ℓ} : {A : Type ℓ} {a b : A} → some a ≡ some b → a ≡ b
some-injective e = cc

-- A functor that comes with a wakeup.
pub Awake-more : (ph : Phase) (fs gs : List ℕ) (n m : ℕ) → 0 < m → Awake ph fs m
Awake-more polling fs gs n m h = λ _. h
Awake-more handling fs gs n m h = tt
Awake-more calling fs gs n m h = λ _. h
Awake-more stopped fs gs n m h = tt
Awake-more polling_first fs gs n m h = tt

pub push-order :
    (l : EventLoop) (cb : ℕ)
    → Inv l
    → l.ran ++ (l.functors ++ (l.pending_functors ++ cb ∷ [])) ≡ l.asked ++ cb ∷ []
push-order l cb v =
    ap (λ xs. l.ran ++ xs) (sym (append_assoc l.functors l.pending_functors (cb ∷ [])))
    ∙ sym (append_assoc l.ran (l.functors ++ l.pending_functors) (cb ∷ []))
    ∙ ap (λ xs. xs ++ cb ∷ []) v.in_order

pub queue_here-Inv :
    (l : EventLoop) (cb : ℕ) (ph : Phase) (l' : EventLoop)
    → l.phase ≡ ph
    → Inv l
    → queue_here l cb ph ≡ some l'
    → Inv l'
unfolding queue_here push wakeup
queue_here-Inv l cb handling l' p v e = subst Inv (some-injective e) (record {
  in_order = push-order l cb v;
  awake =
      subst (λ ph. Awake ph (l.pending_functors ++ cb ∷ []) (l.wakeups + l.on_the_way)) (sym p) tt;
  emptied = v.emptied;
})
queue_here-Inv l cb calling l' p v e = subst Inv (some-injective e) (record {
  in_order = push-order l cb v;
  awake = Awake-more l.phase _ [] 0 _ (omega arith);
  emptied = v.emptied;
})
queue_here-Inv l cb polling l' p v e = absurd (cc)
queue_here-Inv l cb polling_first l' p v e = absurd (cc)
queue_here-Inv l cb stopped l' p v e = subst Inv (some-injective e) (record {
  in_order = push-order l cb v;
  awake =
      subst (λ ph. Awake ph (l.pending_functors ++ cb ∷ []) (l.wakeups + l.on_the_way)) (sym p) tt;
  emptied = v.emptied;
})

pub swap_functors-Inv :
    (l : EventLoop) (ph : Phase) (l' : EventLoop)
    → l.phase ≡ ph
    → Inv l
    → swap_functors l ph ≡ some l'
    → Inv l'
unfolding swap_functors
swap_functors-Inv l handling l' p v e =
    let empty : l.functors ≡ [] = subst (λ ph. Emptied ph l.functors) p v.emptied in
    subst Inv (some-injective e) (record {
      in_order =
          ap (λ xs. l.ran ++ xs) (append-nil l.pending_functors)
          ∙ ap (λ fs. l.ran ++ (fs ++ l.pending_functors)) (sym empty)
          ∙ v.in_order;
      awake = λ h. absurd (h refl);
      emptied = tt;
    })
swap_functors-Inv l calling l' p v e = absurd (cc)
swap_functors-Inv l polling l' p v e = absurd (cc)
swap_functors-Inv l stopped l' p v e = absurd (cc)
swap_functors-Inv l polling_first l' p v e = absurd (cc)

pub call_functor-Inv :
    (l : EventLoop) (fs : List ℕ) (ph : Phase) (l' : EventLoop)
    → l.functors ≡ fs
    → l.phase ≡ ph
    → Inv l
    → call_functor l fs ph ≡ some l'
    → Inv l'
unfolding call_functor
call_functor-Inv l (cb ∷ cbs) calling l' q p v e = subst Inv (some-injective e) (record {
  in_order =
      append_assoc l.ran (cb ∷ []) (cbs ++ l.pending_functors)
      ∙ ap (λ xs. l.ran ++ (xs ++ l.pending_functors)) (sym q)
      ∙ v.in_order;
  awake = v.awake;
  emptied = subst (λ ph. Emptied ph cbs) (sym p) tt;
})
call_functor-Inv l (cb ∷ cbs) polling l' q p v e = absurd (cc)
call_functor-Inv l (cb ∷ cbs) handling l' q p v e = absurd (cc)
call_functor-Inv l (cb ∷ cbs) stopped l' q p v e = absurd (cc)
call_functor-Inv l (cb ∷ cbs) polling_first l' q p v e = absurd (cc)
call_functor-Inv l [] ph l' q p v e = absurd (cc)

pub next_round-Inv :
    (l : EventLoop) (fs : List ℕ) (ph : Phase) (l' : EventLoop)
    → l.functors ≡ fs
    → l.phase ≡ ph
    → Inv l
    → next_round l fs ph ≡ some l'
    → Inv l'
unfolding next_round
next_round-Inv l [] calling l' q p v e =
    let awake : Awake calling l.pending_functors (l.wakeups + l.on_the_way) =
      subst (λ ph. Awake ph l.pending_functors (l.wakeups + l.on_the_way)) p v.awake in
    elim (Bool-cases l.quit_flag) [
      | inl quits ↦
          subst Inv (some-injective (rw quits at e))
            (record { in_order = v.in_order; awake = tt; emptied = q })
      | inr stays ↦
          subst Inv (some-injective (rw stays at e))
            (record { in_order = v.in_order; awake = awake; emptied = q })
    ]
next_round-Inv l [] polling l' q p v e = absurd (cc)
next_round-Inv l [] handling l' q p v e = absurd (cc)
next_round-Inv l [] stopped l' q p v e = absurd (cc)
next_round-Inv l [] polling_first l' q p v e = absurd (cc)
next_round-Inv l (cb ∷ cbs) ph l' q p v e = absurd (cc)

pub poll_returns-Inv :
    (l : EventLoop) (ph : Phase) (l' : EventLoop)
    → l.phase ≡ ph
    → Inv l
    → poll_returns l ph ≡ some l'
    → Inv l'
unfolding poll_returns
poll_returns-Inv l polling l' p v e = subst Inv (some-injective e) (record {
  in_order = v.in_order;
  awake = tt;
  emptied = subst (λ ph. Emptied ph l.functors) p v.emptied;
})
poll_returns-Inv l polling_first l' p v e = subst Inv (some-injective e) (record {
  in_order = v.in_order;
  awake = tt;
  emptied = subst (λ ph. Emptied ph l.functors) p v.emptied;
})
poll_returns-Inv l handling l' p v e = absurd (cc)
poll_returns-Inv l calling l' p v e = absurd (cc)
poll_returns-Inv l stopped l' p v e = absurd (cc)

pub handle_wakeup-Inv :
    (l : EventLoop) (ph : Phase) (l' : EventLoop)
    → l.phase ≡ ph
    → Inv l
    → handle_wakeup l ph ≡ some l'
    → Inv l'
unfolding handle_wakeup
handle_wakeup-Inv l handling l' p v e = subst Inv (some-injective e) (record {
  in_order = v.in_order;
  awake = subst (λ ph. Awake ph l.pending_functors (0 + l.on_the_way)) (sym p) tt;
  emptied = v.emptied;
})
handle_wakeup-Inv l polling l' p v e = absurd (cc)
handle_wakeup-Inv l calling l' p v e = absurd (cc)
handle_wakeup-Inv l stopped l' p v e = absurd (cc)
handle_wakeup-Inv l polling_first l' p v e = absurd (cc)

pub begin_loop-Inv :
    (l : EventLoop) (fs : List ℕ) (ph : Phase) (l' : EventLoop)
    → l.pending_functors ≡ fs
    → l.phase ≡ ph
    → Inv l
    → begin_loop l fs ph ≡ some l'
    → Inv l'
unfolding begin_loop
begin_loop-Inv l [] stopped l' q p v e = subst Inv (some-injective e) (record {
  in_order = v.in_order;
  awake = λ h. absurd (h q);
  emptied = subst (λ ph. Emptied ph l.functors) p v.emptied;
})
begin_loop-Inv l (cb ∷ cbs) stopped l' q p v e = subst Inv (some-injective e) (record {
  in_order = v.in_order;
  awake = tt;
  emptied = subst (λ ph. Emptied ph l.functors) p v.emptied;
})
begin_loop-Inv l [] polling l' q p v e = absurd (cc)
begin_loop-Inv l (cb ∷ cbs) polling l' q p v e = absurd (cc)
begin_loop-Inv l [] polling_first l' q p v e = absurd (cc)
begin_loop-Inv l (cb ∷ cbs) polling_first l' q p v e = absurd (cc)
begin_loop-Inv l [] handling l' q p v e = absurd (cc)
begin_loop-Inv l (cb ∷ cbs) handling l' q p v e = absurd (cc)
begin_loop-Inv l [] calling l' q p v e = absurd (cc)
begin_loop-Inv l (cb ∷ cbs) calling l' q p v e = absurd (cc)
