-- ===== src/Net/Connector/Sound.antt =====
-- Where the descriptors of net/Connector.cc are.
use leaf.Shared.{
  ℕ, suc, ◌+◌, ◌≡◌, refl, sym, ap, ap₂, ◌∙◌, inl, inr, subst, Bool, true, false, Bool-cases, List,
  [], ◌∷◌, ◌++◌, Option, none, some, ◌==◌, if◌then◌else◌, arith, count,
}
use leaf.Shared.Outcome.{ok, assert, >>=-eq-ok, ok-injective}
use leaf.Net.Channel.{Channel, new_channel, enable_writing, disable_all, remove, update}
use leaf.Net.Connector.{
  States, k_disconnected, k_connecting, k_connected, Connector, is_disconnected, is_connecting,
  queue_in_loop, close, retry, remove_and_reset_channel, take_out, no_channel, stop_in_loop,
  hand_over, handle_write, handle_error, Functor, start_functor, stop_functor, reset_functor,
}

-- Whether the channel of a connect that is under way has the descriptor.
abbrev pub held : ℕ → States → Option Channel → ℕ
held x k_connecting (some ch) = if ch.fd == x then 1 else 0
held x _ _ = 0

abbrev pub resets : List Functor → ℕ
resets [] = 0
resets (reset_functor ∷ fs) = suc (resets fs)
resets (_ ∷ fs) = resets fs

-- A channel that is no longer used waits for one functor that resets it.
abbrev pub resets_due : States → Option Channel → ℕ
resets_due k_connecting ch = 0
resets_due _ none = 0
resets_due _ (some ch) = 1

-- Every descriptor that was made is at one place, an unused channel will be reset once, and a connect
-- that is under way has a channel.
pub record Sound (c : Connector) : Type 0 where
  pub accounted :
      (x : ℕ)
      → count x c.opened ≡ count x c.closed + count x c.handed_over + held x c.state c.channel
  pub due : resets c.queued ≡ resets_due c.state c.channel
  pub present : is_connecting c.state ≡ true → (ch : Channel) × (c.channel ≡ some ch)

pub resets-append : (fs gs : List Functor) → resets (fs ++ gs) ≡ resets fs + resets gs
resets-append [] gs = omega arith
resets-append (reset_functor ∷ fs) gs = omega (arith, resets-append fs gs)
resets-append (start_functor ∷ fs) gs = resets-append fs gs
resets-append (stop_functor ∷ fs) gs = resets-append fs gs

-- A connector whose channel has just been taken out of use; `fd` is nowhere yet.
pub record Taken (fd : ℕ) (c : Connector) : Type 0 where
  pub apart :
      (x : ℕ)
      → count x c.opened ≡ count x c.closed + count x c.handed_over + (if fd == x then 1 else 0)
  pub due : resets c.queued ≡ resets_due k_disconnected c.channel

-- The other states that are not connecting wait for the same.
pub idle_due :
    (st : States) (o : Option Channel)
    → is_connecting st ≡ false
    → resets_due st o ≡ resets_due k_disconnected o
unfolding is_connecting
idle_due k_disconnected o h = refl
idle_due k_connecting o h = absurd (cc)
idle_due k_connected none h = refl
idle_due k_connected (some ch) h = refl

pub idle_held :
    (x : ℕ) (st : States) (o : Option Channel) → is_connecting st ≡ false → held x st o ≡ 0
unfolding is_connecting
idle_held x k_disconnected o h = refl
idle_held x k_connecting o h = absurd (cc)
idle_held x k_connected o h = refl

pub retry-Sound : (fd : ℕ) (c : Connector) → Taken fd c → Sound (retry c fd)
unfolding retry close is_connecting
retry-Sound fd c t = elim (Bool-cases c.connect_flag) [
  | inl on ↦ rw on (record {
    accounted = λ x. omega (arith, t.apart x);
    due = t.due;
    present = λ q. absurd (cc);
  })
  | inr off ↦ rw off (record {
    accounted = λ x. omega (arith, t.apart x);
    due = t.due;
    present = λ q. absurd (cc);
  })
]

hand_over-Sound : (fd : ℕ) (c : Connector) → Taken fd c → Sound (hand_over c fd)
unfolding hand_over close is_connecting
hand_over-Sound fd c t = elim (Bool-cases c.connect_flag) [
  | inl on ↦ rw on (record {
    accounted = λ x. omega (arith, t.apart x);
    due = t.due ∙ sym (idle_due k_connected c.channel refl);
    present = λ q. absurd (cc);
  })
  | inr off ↦ rw off (record {
    accounted = λ x. omega (arith, t.apart x);
    due = t.due ∙ sym (idle_due k_connected c.channel refl);
    present = λ q. absurd (cc);
  })
]

is-connecting : (s : States) → is_connecting s ≡ true → s ≡ k_connecting
unfolding is_connecting
is-connecting k_connecting h = refl
is-connecting k_disconnected h = absurd (cc)
is-connecting k_connected h = absurd (cc)

pub is-disconnected : (s : States) → is_disconnected s ≡ true → s ≡ k_disconnected
unfolding is_disconnected
is-disconnected k_disconnected h = refl
is-disconnected k_connecting h = absurd (cc)
is-disconnected k_connected h = absurd (cc)

pub is-none : (o : Option Channel) → no_channel o ≡ true → o ≡ none
unfolding no_channel
is-none none h = refl
is-none (some ch) h = absurd (cc)

-- Taking the channel of a connect out of use never fails.
remove-Taken :
    (c d : Connector)
    → Sound c
    → is_connecting c.state ≡ true
    → d.opened ≡ c.opened
    → d.closed ≡ c.closed
    → d.handed_over ≡ c.handed_over
    → d.queued ≡ c.queued
    → d.channel ≡ c.channel
    → (fd : ℕ) × (d' : Connector) × (remove_and_reset_channel d ≡ ok (fd, d')) × Taken fd d'
unfolding remove_and_reset_channel take_out queue_in_loop remove disable_all update
    leaf.Net.Channel.is_none_event
remove-Taken c d s busy o cl ho q ch =
    let (ch0, e) = s.present busy in
    let at : c.state ≡ k_connecting = is-connecting c.state busy in
    let none_due : resets c.queued ≡ 0 = s.due ∙ ap (λ st. resets_due st c.channel) at in
    let alone : (x : ℕ)
        → count x c.opened
          ≡ count x c.closed + count x c.handed_over + held x k_connecting (some ch0) =
      λ x.
        s.accounted x ∙ ap₂ (λ st o. count x c.closed + count x c.handed_over + held x st o) at e in
    (
      ch0.fd,
      queue_in_loop (record d { channel = some (record (disable_all ch0) { added = false }) })
          reset_functor,
      ap (take_out d) (ch ∙ e),
      record {
        apart = λ x. omega (arith, alone x, ap (count x) o, ap (count x) cl, ap (count x) ho);
        due = resets-append d.queued (reset_functor ∷ []) ∙ omega (arith, ap resets q, none_due);
      },
    )

-- The two handlers and `stopInLoop` all end so.
module _ (c : Connector) (s : Sound c) where
  pub handle_error-Sound : (c' : Connector) → handle_error c ≡ ok c' → Sound c'
  unfolding handle_error
  handle_error-Sound c' e = elim (Bool-cases (is_connecting c.state)) [
    | inr idle ↦ subst Sound (ok-injective (rw idle at e)) s
    | inl busy ↦
        let (fd, d, r, t) = remove-Taken c c s busy refl refl refl refl refl in
        subst Sound (ok-injective (rw (busy, r) at e)) (retry-Sound fd d t)
  ]

  pub stop_in_loop-Sound : (c' : Connector) → stop_in_loop c ≡ ok c' → Sound c'
  unfolding stop_in_loop
  stop_in_loop-Sound c' e = elim (Bool-cases (is_connecting c.state)) [
    | inr idle ↦ subst Sound (ok-injective (rw idle at e)) s
    | inl busy ↦
        let (fd, d, r, t) =
          remove-Taken c (record c { state = k_disconnected }) s busy refl refl refl refl refl in
        subst Sound (ok-injective (rw (busy, r) at e)) (retry-Sound fd d t)
  ]

  pub handle_write-Sound :
      (failed : Bool) (c' : Connector) → handle_write c failed ≡ ok c' → Sound c'
  unfolding handle_write
  handle_write-Sound failed c' e = elim (Bool-cases (is_connecting c.state)) [
    | inr idle ↦
        let (u, _, e2) = >>=-eq-ok (assert (is_disconnected c.state)) _ (rw idle at e) in
        subst Sound (ok-injective e2) s
    | inl busy ↦
        let (fd, d, r, t) = remove-Taken c c s busy refl refl refl refl refl in
        elim (Bool-cases failed) [
          | inl bad ↦ subst Sound (ok-injective (rw (busy, r, bad) at e)) (retry-Sound fd d t)
          | inr good ↦ subst Sound (ok-injective (rw (busy, r, good) at e)) (hand_over-Sound fd d t)
        ]
  ]
