-- ===== src/Net/Acceptor/Descriptors.antt =====
-- The descriptors of net/Acceptor.cc.
use leaf.Shared.{
  ℕ, ◌+◌, ◌≡◌, refl, ap, ◌∙◌, inl, inr, true, Bool-cases, List, [], ◌∷◌, Option, none, some, ◌==◌,
  arith, count,
}
use leaf.Shared.Outcome.{Outcome, ok, ◌>>=◌}
use leaf.Net.Acceptor.{
  Acceptor, Accept, accepted, refused, emfile, is_expected, accept, is_some, with_fd, new_acceptor,
  set_new_connection_callback, listen, close_idle, open_idle, fd_of, drop_connection,
  take_connection, accept_result, handle_read, Readable, run,
}

-- Every descriptor that was made is the idle one, closed, or handed over, once.
pub Accounted : Acceptor → Type 0
Accounted a =
    (x : ℕ)
    → count x a.opened ≡ count x a.closed + count x a.handed_over + count x (with_fd a.idle_fd [])

with_fd-count :
    (x : ℕ) (o : Option ℕ) (fds : List ℕ)
    → count x (with_fd o fds) ≡ count x (with_fd o []) + count x fds
with_fd-count x none fds = omega arith
with_fd-count x (some fd) fds = omega arith

close_idle-Accounted : (a : Acceptor) → Accounted a → Accounted (close_idle a)
unfolding close_idle Accounted
close_idle-Accounted a h x = omega (arith, h x, with_fd-count x a.idle_fd a.closed)

open_idle-Accounted :
    (a : Acceptor) (o : Option ℕ) → Accounted a → a.idle_fd ≡ none → Accounted (open_idle a o)
unfolding open_idle Accounted
open_idle-Accounted a o h e x =
    omega (arith, h x, with_fd-count x o a.opened, ap (λ i. count x (with_fd i [])) e)

drop_connection-Accounted :
    (a : Acceptor) (second : Accept) (idle : Option ℕ)
    → Accounted a
    → Accounted (drop_connection a second idle)
unfolding drop_connection
drop_connection-Accounted a second idle h =
    let a1 = open_idle (close_idle a) (fd_of second) in
    open_idle-Accounted (close_idle a1) idle
      (close_idle-Accounted a1 (
        open_idle-Accounted (close_idle a) (fd_of second) (close_idle-Accounted a h) (idle_none a)))
      (idle_none a1)
  where
    idle_none : (b : Acceptor) → (close_idle b).idle_fd ≡ none
    idle_none b = unfold close_idle in refl

take_connection-Accounted :
    (a : Acceptor) (connfd : ℕ) → Accounted a → Accounted (take_connection a connfd)
unfolding take_connection Accounted
take_connection-Accounted a connfd h x = elim (Bool-cases a.has_callback) [
  | inl yes_ ↦ rw yes_ (omega (arith, h x))
  | inr no_ ↦ rw no_ (omega (arith, h x))
]

accept_result-Accounted :
    (a : Acceptor) (first second : Accept) (idle : Option ℕ)
    → Accounted a
    → Accounted (accept_result a first second idle)
unfolding accept_result
accept_result-Accounted a (accepted connfd) second idle h = take_connection-Accounted a connfd h
accept_result-Accounted a (refused errno) second idle h = elim (Bool-cases (errno == emfile)) [
  | inl full ↦ rw full (drop_connection-Accounted a second idle h)
  | inr other ↦ rw other h
]

-- The connections that accept(2) gave to `handleRead` at its first call, the last one first.
abbrev pub taken_by : List Readable → List ℕ → List ℕ
taken_by [] fds = fds
taken_by (r ∷ rs) fds = taken_by rs (with_fd (fd_of r.first) fds)

abbrev pub Expected : Accept → Type 0
Expected (accepted fd) = Unit {0}
Expected (refused errno) = is_expected errno ≡ true

abbrev pub AllExpected : List Readable → Type 0
AllExpected [] = Unit {0}
AllExpected (r ∷ rs) = Expected r.first × AllExpected rs

accept-Expected : (first : Accept) → Expected first → accept first ≡ ok first
unfolding accept
accept-Expected (accepted fd) h = refl
accept-Expected (refused errno) h = rw h

-- With a callback, exactly the connections go to it.
record Hands (a : Acceptor) (first : Accept) (a' : Acceptor) : Type 0 where
  callback : a'.has_callback ≡ a.has_callback
  handed : a'.handed_over ≡ with_fd (fd_of first) a.handed_over

accept_result-Hands :
    (a : Acceptor) (first second : Accept) (idle : Option ℕ)
    → a.has_callback ≡ true
    → Hands a first (accept_result a first second idle)
unfolding accept_result take_connection drop_connection close_idle open_idle
accept_result-Hands a (accepted connfd) second idle h =
    rw h (record { callback = refl; handed = refl })
accept_result-Hands a (refused errno) second idle h = elim (Bool-cases (errno == emfile)) [
  | inl full ↦ rw full (record { callback = refl; handed = refl })
  | inr other ↦ rw other (record { callback = refl; handed = refl })
]

pub record Serves (fds : List ℕ) (r : Outcome Acceptor) : Type 0 where
  pub result : Acceptor
  pub returns : r ≡ ok result
  pub accounted : Accounted result
  pub handed : result.handed_over ≡ fds

run-Serves :
    (rs : List Readable) (a : Acceptor)
    → Accounted a
    → a.has_callback ≡ true
    → AllExpected rs
    → Serves (taken_by rs a.handed_over) (run a rs)
unfolding run handle_read
run-Serves [] a h c e = record { result = a; returns = refl; accounted = h; handed = refl }
run-Serves (r ∷ rs) a h c e =
    let a' = accept_result a r.first r.second r.idle in
    let s = accept_result-Hands a r.first r.second r.idle c in
    let rest =
      run-Serves rs a' (accept_result-Accounted a r.first r.second r.idle h) (s.callback ∙ c) e.1 in
    rw (accept-Expected r.first e.0) (record {
      result = rest.result;
      returns = rest.returns;
      accounted = rest.accounted;
      handed = rest.handed ∙ ap (taken_by rs) s.handed;
    })

-- However many connections come and whenever the descriptors run out, while accept(2) fails only with
-- errors that the code expects, `handleRead` never fails; every connection that it accepts goes to
-- the callback, in their order; and every descriptor that was made is the idle one, closed, or handed
-- over, once: none leaks when the idle one makes room for a connection that is dropped.
pub run-new_acceptor :
    (sockfd idle : ℕ) (rs : List Readable)
    → AllExpected rs
    → Serves
        (taken_by rs [])
        (new_acceptor sockfd (some idle) >>= λ a. run (listen (set_new_connection_callback a)) rs)
unfolding new_acceptor listen set_new_connection_callback Accounted is_some run
run-new_acceptor sockfd idle rs e = run-Serves rs _ (λ x. omega arith) refl e
