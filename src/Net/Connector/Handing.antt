-- ===== src/Net/Connector/Handing.antt =====
-- When net/Connector.cc hands a descriptor over, and what follows from its state.
use leaf.Shared.{
  ℕ, ◌≡◌, refl, ap, ◌∙◌, ◌⊎◌, inl, inr, subst, Bool, true, false, Bool-cases, List, [], ◌∷◌, Option,
  none, some, if◌then◌else◌,
}
use leaf.Shared.Outcome.{ok, assert_failed, ◌>>=◌, assert, >>=-eq-ok, assert-eq-ok, ok-injective}
use leaf.Net.Channel.{Channel, disable_all, remove}
use leaf.Net.Connector.{
  k_disconnected, k_connected, Connector, Attempt, is_disconnected, is_connecting, queue_in_loop,
  close, is_under_way, is_retried, retry, no_channel, connecting, connect, start_in_loop, start,
  remove_and_reset_channel, take_out, reset_channel, stop, stop_in_loop, hand_over, handle_write,
  handle_error, Functor, start_functor, stop_functor, reset_functor, run_functor, run_first, Event,
  starts, restarts, stops, runs, fires, writable, errs, take_timer, fire, step,
}

-- What the call handed over so far is the same after it, or one more, and then it is connected.
abbrev pub Hands : Connector → Connector → Type 0
Hands c d =
    (d.handed_over ≡ c.handed_over)
    ⊎ ((fd : ℕ) × (d.handed_over ≡ fd ∷ c.handed_over) × (d.state ≡ k_connected))

-- Nothing is handed over.
abbrev Same : Connector → Connector → Type 0
Same c d = d.handed_over ≡ c.handed_over

retry-Same : (c : Connector) (fd : ℕ) → Same c (retry c fd)
unfolding retry close
retry-Same c fd = elim (Bool-cases c.connect_flag) [ inl on ↦ rw on refl | inr off ↦ rw off refl ]

connecting-Same : (c : Connector) (fd : ℕ) (d : Connector) → connecting c fd ≡ ok d → Same c d
unfolding connecting
connecting-Same c fd d e =
    let (u, e1, e2) = >>=-eq-ok (assert (no_channel c.channel)) _ e in
    subst (Same c) (ok-injective e2) refl

connect-Same : (c : Connector) (a : Attempt) (d : Connector) → connect c a ≡ ok d → Same c d
unfolding connect close
connect-Same c a d e =
    let c' = record c { opened = a.sockfd ∷ c.opened } in
    elim (Bool-cases (is_under_way a.saved_errno)) [
      | inl way ↦ connecting-Same c' a.sockfd d (rw way at e)
      | inr other ↦ elim (Bool-cases (is_retried a.saved_errno)) [
        | inl again ↦
            subst (Same c) (ok-injective (rw (other, again) at e)) (retry-Same c' a.sockfd)
        | inr wrong ↦ subst (Same c) (ok-injective (rw (other, wrong) at e)) refl
      ]
    ]

start_in_loop-Same :
    (c : Connector) (a : Attempt) (d : Connector) → start_in_loop c a ≡ ok d → Same c d
unfolding start_in_loop
start_in_loop-Same c a d e =
    let (u, e1, e2) = >>=-eq-ok (assert (is_disconnected c.state)) _ e in
    elim (Bool-cases c.connect_flag) [
      | inl on ↦ connect-Same (record c { connect_flag = true }) a d (rw on at e2)
      | inr off ↦ subst (Same c) (ok-injective (rw off at e2)) refl
    ]

take_out-Same :
    (c : Connector) (o : Option Channel) (r : ℕ × Connector) → take_out c o ≡ ok r → Same c r.1
unfolding take_out queue_in_loop
take_out-Same c none r e = absurd (cc)
take_out-Same c (some ch) r e =
    let (ch', e1, e2) = >>=-eq-ok (remove (disable_all ch)) _ e in
    subst (λ (x : ℕ × Connector). Same c x.1) (ok-injective e2) refl

hand_over-Hands : (c : Connector) (fd : ℕ) → Hands c (hand_over c fd)
unfolding hand_over close
hand_over-Hands c fd = elim (Bool-cases c.connect_flag) [
  | inl on ↦ rw on (inr (fd, refl, refl))
  | inr off ↦ rw off (inl refl)
]

-- A connect that is given up.
given_up :
    (c d : Connector) → (do r ← remove_and_reset_channel c; ok (retry r.1 r.0)) ≡ ok d → Same c d
unfolding remove_and_reset_channel
given_up c d e =
    let (r, e1, e2) = >>=-eq-ok (take_out c c.channel) _ e in
    subst (Same c) (ok-injective e2) (retry-Same r.1 r.0 ∙ take_out-Same c c.channel r e1)

stop_in_loop-Same : (c d : Connector) → stop_in_loop c ≡ ok d → Same c d
unfolding stop_in_loop
stop_in_loop-Same c d e = elim (Bool-cases (is_connecting c.state)) [
  | inl way ↦ given_up (record c { state = k_disconnected }) d (rw way at e)
  | inr idle ↦ subst (Same c) (ok-injective (rw idle at e)) refl
]

handle_error-Same : (c d : Connector) → handle_error c ≡ ok d → Same c d
unfolding handle_error
handle_error-Same c d e = elim (Bool-cases (is_connecting c.state)) [
  | inl way ↦ given_up c d (rw way at e)
  | inr idle ↦ subst (Same c) (ok-injective (rw idle at e)) refl
]

-- The end of a connect that was under way.
connected-Hands :
    (c d : Connector) (failed : Bool)
    → (do r ← remove_and_reset_channel c; ok (if failed then retry r.1 r.0 else hand_over r.1 r.0))
      ≡ ok d
    → Hands c d
unfolding remove_and_reset_channel
connected-Hands c d true e = inl (given_up c d e)
connected-Hands c d false e =
    let (r, e1, e2) = >>=-eq-ok (take_out c c.channel) _ e in
    let same = take_out-Same c c.channel r e1 in
    subst (Hands c) (ok-injective e2) (elim (hand_over-Hands r.1 r.0) [
      | inl none_ ↦ inl (none_ ∙ same)
      | inr h ↦ inr (h.0, h.1 ∙ ap (λ xs. h.0 ∷ xs) same, h.2)
    ])

handle_write-Hands :
    (c : Connector) (failed : Bool) (d : Connector) → handle_write c failed ≡ ok d → Hands c d
unfolding handle_write
handle_write-Hands c failed d e = elim (Bool-cases (is_connecting c.state)) [
  | inl way ↦ connected-Hands c d failed (rw way at e)
  | inr idle ↦
      let (u, e1, e2) = >>=-eq-ok (assert (is_disconnected c.state)) (λ _. ok c) (rw idle at e) in
      inl (subst (Same c) (ok-injective e2) refl)
]

run_first-Same :
    (c : Connector) (fs : List Functor) (a : Attempt) (d : Connector)
    → run_first c fs a ≡ ok d
    → Same c d
unfolding run_first run_functor reset_channel
run_first-Same c [] a d e = subst (Same c) (ok-injective e) refl
run_first-Same c (start_functor ∷ fs) a d e = start_in_loop-Same (record c { queued = fs }) a d e
run_first-Same c (stop_functor ∷ fs) a d e = stop_in_loop-Same (record c { queued = fs }) d e
run_first-Same c (reset_functor ∷ fs) a d e = subst (Same c) (ok-injective e) refl

fire-Same :
    (c : Connector) (o : Option (List ℕ)) (a : Attempt) (d : Connector)
    → fire c o a ≡ ok d
    → Same c d
unfolding fire
fire-Same c none a d e = subst (Same c) (ok-injective e) refl
fire-Same c (some ts) a d e = start_in_loop-Same (record c { timers = ts }) a d e

-- The calls that the client makes.
abbrev pub is_clients : Event → Bool
is_clients (starts in_loop a) = true
is_clients (restarts a) = true
is_clients stops = true
is_clients _ = false

pub step-Hands :
    (c : Connector) (e : Event) (d : Connector) → is_clients e ≡ false → step c e ≡ ok d → Hands c d
unfolding step
step-Hands c (starts in_loop a) d h e = absurd (cc)
step-Hands c (restarts a) d h e = absurd (cc)
step-Hands c stops d h e = absurd (cc)
step-Hands c (runs a) d h e = inl (run_first-Same c c.queued a d e)
step-Hands c (fires i a) d h e = inl (fire-Same c (take_timer i c.timers) a d e)
step-Hands c (writable failed) d h e = handle_write-Hands c failed d e
step-Hands c errs d h e = inl (handle_error-Same c d e)

-- A connector that is connected stays so, and hands nothing over.
abbrev pub Idles : Connector → Connector → Type 0
Idles c d = (d.state ≡ k_connected) × (d.handed_over ≡ c.handed_over)

-- It does not start again.
pub connected-not-started :
    (c : Connector) (a : Attempt) → c.state ≡ k_connected → start_in_loop c a ≡ assert_failed
unfolding start_in_loop is_disconnected
connected-not-started c a h = rw h refl

module _ (c : Connector) (h : c.state ≡ k_connected) where
  not_connecting : is_connecting c.state ≡ false
  unfolding is_connecting
  not_connecting = ap is_connecting h

  run_first-Idles :
      (fs : List Functor) (a : Attempt) (d : Connector) → run_first c fs a ≡ ok d → Idles c d
  unfolding run_first run_functor reset_channel stop_in_loop
  run_first-Idles [] a d e = subst (Idles c) (ok-injective e) (h, refl)
  run_first-Idles (start_functor ∷ fs) a d e =
      absurd (let n = connected-not-started (record c { queued = fs }) a h in cc)
  run_first-Idles (stop_functor ∷ fs) a d e =
      subst (Idles c) (ok-injective (rw not_connecting at e)) (h, refl)
  run_first-Idles (reset_functor ∷ fs) a d e = subst (Idles c) (ok-injective e) (h, refl)

  fire-Idles : (o : Option (List ℕ)) (a : Attempt) (d : Connector) → fire c o a ≡ ok d → Idles c d
  unfolding fire
  fire-Idles none a d e = subst (Idles c) (ok-injective e) (h, refl)
  fire-Idles (some ts) a d e =
      absurd (let k = connected-not-started (record c { timers = ts }) a h in cc)

  pub step-Idles : (e : Event) (d : Connector) → is_clients e ≡ false → step c e ≡ ok d → Idles c d
  unfolding step handle_write handle_error is_disconnected
  step-Idles (starts in_loop a) d n e = absurd (cc)
  step-Idles (restarts a) d n e = absurd (cc)
  step-Idles stops d n e = absurd (cc)
  step-Idles (runs a) d n e = run_first-Idles c.queued a d e
  step-Idles (fires i a) d n e = fire-Idles (take_timer i c.timers) a d e
  step-Idles (writable failed) d n e =
      let (u, e1, e2) =
        >>=-eq-ok (assert (is_disconnected c.state)) (λ _. ok c) (rw not_connecting at e) in
      absurd
        (let k = ap is_disconnected h in let b = assert-eq-ok (is_disconnected c.state) u e1 in cc)
  step-Idles errs d n e = subst (Idles c) (ok-injective (rw not_connecting at e)) (h, refl)

  pub start-Idles :
      (in_loop : Bool) (a : Attempt) (d : Connector)
      → start c in_loop a ≡ ok d
      → d.state ≡ k_connected
  unfolding start queue_in_loop
  start-Idles true a d e =
      absurd (let n = connected-not-started (record c { connect_flag = true }) a h in cc)
  start-Idles false a d e = subst (λ (x : Connector). x.state ≡ k_connected) (ok-injective e) h

pub stop-state : (c : Connector) → (stop c).state ≡ c.state
unfolding stop queue_in_loop
stop-state c = refl

pub start_here-fails :
    (c : Connector) → c.state ≡ k_connected → (a : Attempt) → start c true a ≡ assert_failed
unfolding start
start_here-fails c h a = connected-not-started (record c { connect_flag = true }) a h
