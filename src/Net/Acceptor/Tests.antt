-- ===== src/Net/Acceptor/Tests.antt =====
-- The theorems on net/Acceptor.cc at a concrete sequence of events.
use leaf.Shared.{refl, List, [], ◌∷◌, none, some}
use leaf.Shared.Outcome.{◌>>=◌}
use leaf.Net.Acceptor.{
  Readable, accepted, refused, emfile, new_acceptor, set_new_connection_callback, listen, run,
  is_expected,
}
use leaf.Net.Acceptor.Descriptors.{Serves, AllExpected, run-new_acceptor}

-- A connection, one for which no descriptor is left, and another.
abbrev events : List Readable
events =
    record { first = accepted 5; second = refused 11; idle = none }
    ∷ record { first = refused emfile; second = accepted 6; idle = some 6 }
    ∷ record { first = accepted 7; second = refused 11; idle = none }
    ∷ []

events-AllExpected : AllExpected events
unfolding is_expected
events-AllExpected = (tt, (refl, (tt, tt)))

run-new_acceptor_example :
    Serves
      (7 ∷ 5 ∷ [])
      (new_acceptor 3 (some 4) >>= λ a. run (listen (set_new_connection_callback a)) events)
run-new_acceptor_example = run-new_acceptor 3 4 events events-AllExpected
