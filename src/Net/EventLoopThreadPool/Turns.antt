-- ===== src/Net/EventLoopThreadPool/Turns.antt =====
-- The round robin of net/EventLoopThreadPool.cc as a queue of loops.
use leaf.Shared.{
  ℕ, zero, suc, ◌+◌, ◌<◌, ◌≡◌, refl, sym, ap, ◌∙◌, inl, inr, Bool, false, List, [], ◌∷◌, ◌++◌, some,
  length, take, drop, get_elem?, arith, le→leb, lt→leb, lt_or_le, append-nil, append_assoc,
  drop_all, take_all,
}
use leaf.Shared.Outcome.{Outcome, ok}
use leaf.Net.EventLoopThreadPool.{
  EventLoopThreadPool, set_thread_num, new_pool, start_loops, start, advance, is_empty,
  get_next_loop, next_loops,
}

-- The loops in the order in which their turns come.
abbrev pub queue : EventLoopThreadPool → List ℕ
queue p = drop p.next p.loops ++ take p.next p.loops

-- The next index stays in the vector.
abbrev pub IsTurning : EventLoopThreadPool → Type 0
IsTurning p = p.next < length p.loops

record Split (xs : List ℕ) (i : ℕ) : Type 0 where
  here : ℕ
  found : get_elem? xs i ≡ some here
  behind : drop i xs ≡ here ∷ drop (suc i) xs
  upto : take (suc i) xs ≡ take i xs ++ here ∷ []

get_elem?-Split : (xs : List ℕ) (i : ℕ) → i < length xs → Split xs i
get_elem?-Split [] i h = absurd (omega arith)
get_elem?-Split (x ∷ xs) zero h = record { here = x; found = refl; behind = refl; upto = refl }
get_elem?-Split (x ∷ xs) (suc i) h =
    let s = get_elem?-Split xs i (omega (arith, h)) in
    record { here = s.here; found = s.found; behind = s.behind; upto = ap (◌∷◌ x) s.upto }

not_empty : (xs : List ℕ) (i : ℕ) → i < length xs → is_empty xs ≡ false
unfolding is_empty
not_empty [] i h = absurd (omega arith)
not_empty (x ∷ xs) i h = refl

-- The first loop of the queue has its turn, and goes to the end.
pub record Turns (p : EventLoopThreadPool) (r : Outcome (ℕ × EventLoopThreadPool)) : Type 0 where
  pub loop : ℕ
  pub rest : List ℕ
  pub pool : EventLoopThreadPool
  pub returns : r ≡ ok (loop, pool)
  pub turning : IsTurning pool
  pub first : queue p ≡ loop ∷ rest
  pub last : queue pool ≡ rest ++ loop ∷ []

module _ (p : EventLoopThreadPool) (h : IsTurning p) where
  next_found : (s : Split p.loops p.next) → get_next_loop p ≡ advance p (some s.here)
  unfolding get_next_loop
  next_found s = rw (not_empty p.loops p.next h, s.found) refl

  pub get_next_loop-Turns : Turns p (get_next_loop p)
  unfolding advance
  get_next_loop-Turns =
      let s = get_elem?-Split p.loops p.next h in
      let x = s.here in
      let behind = drop (suc p.next) p.loops in
      let before = take p.next p.loops in
      let requeued : behind ++ take (suc p.next) p.loops ≡ (behind ++ before) ++ x ∷ [] =
        ap (◌++◌ behind) s.upto ∙ sym (append_assoc behind before (x ∷ [])) in
      let one : suc p.next ≡ p.next + 1 = omega arith in
      elim (lt_or_le (p.next + 1) (length p.loops)) [
        | inl inside ↦ record {
          loop = x;
          rest = behind ++ before;
          pool = record p { next = p.next + 1 };
          returns = next_found s ∙ rw (lt→leb _ _ inside) refl;
          turning = inside;
          first = ap (λ xs. xs ++ before) s.behind;
          last = ap (λ n. drop n p.loops ++ take n p.loops) (sym one) ∙ requeued;
        }
        | inr ends ↦ record {
          loop = x;
          rest = behind ++ before;
          pool = record p { next = 0 };
          returns = next_found s ∙ rw (le→leb _ _ ends) refl;
          turning = omega (arith, h);
          first = ap (λ xs. xs ++ before) s.behind;
          last =
              append-nil p.loops
              ∙ sym (take_all (suc p.next) p.loops (omega (arith, ends)))
              ∙ ap (λ xs. xs ++ take (suc p.next) p.loops)
                  (sym (drop_all (suc p.next) p.loops (omega (arith, ends))))
              ∙ requeued;
        }
      ]

-- The calls answer with `turns`, and `after` is the queue that they leave.
pub record Answers (turns after : List ℕ) (r : Outcome (List ℕ × EventLoopThreadPool))
    : Type 0 where
  pub pool : EventLoopThreadPool
  pub returns : r ≡ ok (turns, pool)
  pub turning : IsTurning pool
  pub queued : queue pool ≡ after

next_loops-Answers :
    (turns after : List ℕ) (p : EventLoopThreadPool)
    → IsTurning p
    → queue p ≡ turns ++ after
    → Answers turns (after ++ turns) (next_loops (length turns) p)
unfolding next_loops
next_loops-Answers [] after p h e = record {
  pool = p;
  returns = refl;
  turning = h;
  queued = e ∙ sym (append-nil after);
}
next_loops-Answers (x ∷ xs) after p h e =
    let t = get_next_loop-Turns p h in
    let same : t.loop ∷ t.rest ≡ x ∷ (xs ++ after) = sym t.first ∙ e in
    let loop : t.loop ≡ x = cc in
    let rest : t.rest ≡ xs ++ after = cc in
    let requeued : queue t.pool ≡ xs ++ (after ++ x ∷ []) =
      t.last
      ∙ ap (λ ys. ys ++ t.loop ∷ []) rest
      ∙ ap (λ y. (xs ++ after) ++ y ∷ []) loop
      ∙ append_assoc xs after (x ∷ []) in
    let r = next_loops-Answers xs (after ++ x ∷ []) t.pool t.turning requeued in
    record {
      pool = r.pool;
      returns = rw (t.returns, r.returns) (ap (λ y. ok (y ∷ xs, r.pool)) loop);
      turning = r.turning;
      queued = r.queued ∙ append_assoc after (x ∷ []) xs;
    }

-- Of as many calls as there are loops, each loop gets one, in the order in which their turns come;
-- then the turns come in the same order again.
pub next_loops-queue :
    (p : EventLoopThreadPool)
    → IsTurning p
    → Answers (queue p) (queue p) (next_loops (length (queue p)) p)
next_loops-queue p h = next_loops-Answers (queue p) [] p h (sym (append-nil (queue p)))

length-start_loops : (n i : ℕ) → length (start_loops n i) ≡ n
unfolding start_loops
length-start_loops zero i = refl
length-start_loops (suc n) i = ap suc (length-start_loops n (i + 1))

-- A new pool, started with at least one thread, is ready for this.
pub start-IsTurning :
    (n : ℕ) (cb : Bool)
    → 0 < n
    → (p : EventLoopThreadPool) × (start (set_thread_num new_pool n) cb ≡ ok p)
      × IsTurning p
      × (queue p ≡ start_loops n 1)
unfolding start set_thread_num new_pool
start-IsTurning n cb h =
    let loops = start_loops n 1 in
    (_, refl, omega (arith, length-start_loops n 1, h), append-nil loops)
