-- ===== src/Base/AsyncLogging/Writer/Drain.antt =====
-- Two turns of the thread that writes the log of base/AsyncLogging.cc.
use leaf.Shared.{
  ℕ, ◌≤◌, ◌<◌, ◌≡◌, refl, sym, ap, ◌∙◌, true, false, List, [], ◌∷◌, ◌++◌, Option, none, some, ltb,
  length, take, arith, le→ltb, length-append, subst,
}
use leaf.Shared.Outcome.{Outcome, ok, ok-injective, >>=-eq-ok, ◌>>=◌, assert}
use leaf.Base.LogStream.{FixedBuffer}
use leaf.Base.LogStream.Fresh.{as_string-IsFresh}
use leaf.Base.AsyncLogging.{append_line}
use leaf.Base.AsyncLogging.Lines.{texts, waiting, texts-append}
use leaf.Base.AsyncLogging.Writer.{
  Logger, collect_with, collect, shrink, write_buffers, refill, reuse, finish, Event, line, writer,
  stop, append_front, test_running, advance, step, run,
}
use leaf.Base.AsyncLogging.Writer.Rounds.{history, IsFilled, IsIdle, At, Keeps}
use leaf.Base.AsyncLogging.Writer.Runs.{collect_with-Returns, advance-Returns}

-- Reusing the buffers leaves what was written and what waits alone.
reuse-eq-ok : (l l' : Logger) → reuse l ≡ ok l' → (l'.output ≡ l.output) × (l'.front ≡ l.front)
unfolding reuse
reuse-eq-ok l l' h =
    let (r1, e1, h1) = >>=-eq-ok (refill l.new_buffer1 (take 2 l.buffers_to_write)) _ h in
    let (r2, e2, h2) = >>=-eq-ok (refill l.new_buffer2 r1.1) _ h1 in
    let e = ok-injective h2 in
    (ap (λ (x : Logger). x.output) (sym e), ap (λ (x : Logger). x.front) (sym e))

finish-eq-ok :
    (message : ℕ → List ℕ) (l l' : Logger)
    → length l.buffers_to_write ≤ 25
    → finish message l ≡ ok l'
    → (l'.output ≡ l.output ++ texts l.buffers_to_write) × (l'.front ≡ l.front)
unfolding finish shrink write_buffers
finish-eq-ok message l l' few h =
    let (u, e, h1) = >>=-eq-ok (assert (ltb 0 (length l.buffers_to_write))) _ h in
    let h2 : reuse (write_buffers l) ≡ ok l' =
      rw (le→ltb 25 (length l.buffers_to_write) few) at h1 in
    reuse-eq-ok (write_buffers l) l' h2

-- The log ends with everything written.
pub record Drains (logged : List ℕ) (r : Outcome Logger) : Type 0 where
  pub result : Logger
  pub returns : r ≡ ok result
  pub output : result.output ≡ logged
  pub waits : waiting result.front ≡ []

advance_collecting :
    (message : ℕ → List ℕ) (l : Logger)
    → l.collecting ≡ true
    → l.writing ≡ false
    → advance message l ≡ collect_with l l.new_buffer1
unfolding advance collect
advance_collecting message l r w = simp (w, r)

module _ (message : ℕ → List ℕ) (l : Logger) (logged : List ℕ) (k : Keeps l logged) where
  collect_with-Drains :
      (o : Option FixedBuffer)
      → IsIdle l
      → IsFilled l.front.size o
      → l.overloaded ≡ false
      → length l.front.buffers < 25
      → Drains logged (collect_with l o >>= advance message)
  unfolding advance collect_with
  collect_with-Drains none w f calm few = elim f [ ]
  collect_with-Drains (some new1) w f calm few =
      let r1 = collect_with-Returns l logged (some new1) k.front w f k.text in
      let e = ok-injective r1.returns in
      let k' = subst (λ x. Keeps x logged) (sym e) r1.keeps in
      let r2 = advance-Returns message _ logged k' in
      let count : length (l.front.buffers ++ l.front.current_buffer ∷ []) ≤ 25 =
        omega (arith, length-append l.front.buffers (l.front.current_buffer ∷ []), few) in
      let done = finish-eq-ok message _ r2.result count r2.returns in
      record {
        result = r2.result;
        returns = r2.returns;
        output = done.0 ∙ taken w ∙ k.text calm;
        waits = ap waiting done.1 ∙ as_string-IsFresh f;
      }
    where
      taken :
          IsIdle l → l.output ++ texts (l.front.buffers ++ l.front.current_buffer ∷ []) ≡ history l
      taken w = ap (◌++◌ l.output) (
          texts-append l.front.buffers l.front.current_buffer
          ∙ ap (λ fs. texts fs ++ waiting l.front) (sym w.written))

  -- While the thread that writes waits for lines, fewer than 25 full buffers wait and none were ever
  -- dropped, its next turn takes over everything that was appended, and when the turn after it ends, if
  -- no line came in between, all of it is written and nothing waits. A call of `stop` during the wait
  -- changes nothing.
  pub advance-Drains :
      l.collecting ≡ true
      → l.writing ≡ false
      → l.overloaded ≡ false
      → length l.front.buffers < 25
      → Drains logged (advance message l >>= advance message)
  advance-Drains r w calm few =
      let idle : IsIdle l = subst (λ b. At b l) w k.at in
      subst (λ x. Drains logged (x >>= advance message)) (sym (advance_collecting message l r w))
        (collect_with-Drains l.new_buffer1 idle idle.first calm few)

-- The thread has ended a round and will start none; this is what was written.
abbrev IsStopped : List ℕ → Logger → Type 0
IsStopped out l =
    (l.running ≡ false) × (l.writing ≡ false) × (l.collecting ≡ false) × (l.output ≡ out)

step-IsStopped :
    (out : List ℕ) (l l' : Logger) (e : Event)
    → IsStopped out l
    → step l e ≡ ok l'
    → IsStopped out l'
unfolding step append_front advance test_running
step-IsStopped out l l' (line text) s h =
    let (a, e, h1) = >>=-eq-ok (append_line l.front text) _ h in
    subst (IsStopped out) (ok-injective h1) s
step-IsStopped out l l' (writer message) s h =
    let idle : advance message l ≡ ok l = simp (s.0, s.1, s.2) in
    subst (IsStopped out) (ok-injective (sym idle ∙ h)) s
step-IsStopped out l l' stop s h = subst (IsStopped out) (ok-injective h) (refl, s.1, s.2, s.3)

run-IsStopped :
    (out : List ℕ) (es : List Event) (l l' : Logger)
    → IsStopped out l
    → run es l ≡ ok l'
    → IsStopped out l'
unfolding run
run-IsStopped out [] l l' s h = subst (IsStopped out) (ok-injective h) s
run-IsStopped out (e ∷ es) l l' s h =
    let (m, h1, h2) = >>=-eq-ok (step l e) _ h in
    run-IsStopped out es m l' (step-IsStopped out l m e s h1) h2

-- What waits when `stop` is called after the end of a round and before the thread tests `running_`
-- again is never written, whatever happens afterwards.
pub stop-loses :
    (l l' : Logger) (es : List Event)
    → l.writing ≡ false
    → l.collecting ≡ false
    → run (stop ∷ es) l ≡ ok l'
    → l'.output ≡ l.output
unfolding run step
stop-loses l l' es w c h =
    (run-IsStopped l.output es (record l { running = false }) l' (refl, w, c, refl) h).3
