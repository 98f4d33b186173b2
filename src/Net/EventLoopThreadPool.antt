-- ===== src/Net/EventLoopThreadPool.antt =====
-- net/EventLoopThreadPool.h and net/EventLoopThreadPool.cc. Loops are numbers, the base loop is 0; the
-- loop that a thread starts gets the next number. `initialised` has the loops that the user's callback
-- was called with.
pub mod Turns
mod Tests
use leaf.Shared.{
  ℕ, zero, suc, ◌+◌, ◌≡◌, Bool, true, false, not, ◌&&◌, List, [], ◌∷◌, ◌++◌, Option, none, some,
  leb, ◌==◌, if◌then◌else◌, length, get_elem?,
}
use leaf.Shared.Outcome.{Outcome, ok, out_of_bounds, ◌>>=◌, ◌>>◌, assert}

abbrev pub base_loop : ℕ
base_loop = 0

pub record EventLoopThreadPool : Type 0 where
  pub started : Bool
  pub num_threads : ℕ
  pub next : ℕ
  pub loops : List ℕ
  pub initialised : List ℕ

unfoldable pub new_pool : EventLoopThreadPool
new_pool = record { started = false; num_threads = 0; next = 0; loops = []; initialised = [] }

unfoldable pub set_thread_num : EventLoopThreadPool → ℕ → EventLoopThreadPool
set_thread_num p num_threads = record p { num_threads = num_threads }

-- The loops that `n` threads start.
unfoldable pub start_loops : ℕ → ℕ → List ℕ
start_loops zero i = []
start_loops (suc n) i = i ∷ start_loops n (i + 1)

-- Each thread calls `cb`, if there is one, with its own loop; the base loop is for a pool without
-- threads.
unfoldable pub start : EventLoopThreadPool → Bool → Outcome EventLoopThreadPool
start p cb = do
  assert (not p.started)
  let loops = start_loops p.num_threads 1
  ok (record p {
    started = true;
    loops = p.loops ++ loops;
    initialised =
        if cb
        then p.initialised ++ (loops ++ (if p.num_threads == 0 then base_loop ∷ [] else []))
        else p.initialised;
  })

unfoldable pub advance : EventLoopThreadPool → Option ℕ → Outcome (ℕ × EventLoopThreadPool)
advance p none = out_of_bounds
advance p (some loop) =
    let next = p.next + 1 in
    ok (loop, record p { next = if leb (length p.loops) next then 0 else next })

unfoldable pub is_empty : List ℕ → Bool
is_empty [] = true
is_empty (x ∷ xs) = false

unfoldable pub get_next_loop : EventLoopThreadPool → Outcome (ℕ × EventLoopThreadPool)
get_next_loop p =
    if is_empty p.loops then ok (base_loop, p) else advance p (get_elem? p.loops p.next)

-- The answers of `n` calls.
unfoldable pub next_loops : ℕ → EventLoopThreadPool → Outcome (List ℕ × EventLoopThreadPool)
next_loops zero p = ok ([], p)
next_loops (suc n) p = do r ← get_next_loop p; rest ← next_loops n r.1; ok (r.0 ∷ rest.0, rest.1)
