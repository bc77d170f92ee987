-- ===== src/Core/Pending/Settling.antt =====
-- core/__init__.py: how a pending intent is settled, from one loop or from another thread.
use py_fdc3_desktop_agent.Base.{
  same, ℕ, String, ◌≡◌, refl, ap, Bool, false, ◌||◌, Option, none, some, List, [], ◌∷◌, ◌++◌, arith,
  eq_refl, Bool-cases, inl, inr,
}
use py_fdc3_desktop_agent.Base.Dict.{get, remove, get-put, get-remove, remove-remove}
use py_fdc3_desktop_agent.Core.Pending.{
  Outcome, cancelled, Pending, created, create_pending_intent, clear_pending_intent, settle,
  opt_same, outcome_of, settle_on, resolved, resolve_pending_intent, run_each, run_scheduled,
}

module _ {ℓ} {R : Type ℓ} where
  pub data Step (p : Pending R) : Pending R → Type ℓ where
    creates :
        (request_uuid : String) (loop : ℕ)
        → Step p (created p request_uuid loop (get p.pending_intents request_uuid)).0
    clears : (request_uuid : String) → Step p (clear_pending_intent p request_uuid)
    resolves :
        (request_uuid : String) (result : Option R) (error : Option String) (current : Option ℕ)
        → Step p (resolve_pending_intent p request_uuid result error current)
    runs : Step p (run_scheduled p)
    cancels : (future : ℕ) → Step p (settle p future cancelled)

  pub data Steps (p : Pending R) : Pending R → Type ℓ where
    stop : Steps p p
    more : {q r : Pending R} → Steps p q → Step q r → Steps p r

  -- A future that is done stays done, as it was.
  abbrev Keeps : Pending R → Pending R → Type ℓ
  Keeps p q = (f : ℕ) (o : Outcome R) → p.outcomes f ≡ some o → q.outcomes f ≡ some o

  settle-Keeps :
      (p : Pending R) (f' : ℕ) (o' : Outcome R) (f : ℕ) (o : Outcome R)
      → p.outcomes f ≡ some o
      → (settle p f' o').outcomes f ≡ some o
  unfolding settle
  settle-Keeps p f' o' f o h = rw h (ground arith)

  run_each-Keeps :
      (p : Pending R) (l : List (ℕ × ℕ × Outcome R)) (f : ℕ) (o : Outcome R)
      → p.outcomes f ≡ some o
      → (run_each p l).outcomes f ≡ some o
  unfolding run_each
  run_each-Keeps p [] f o h = h
  run_each-Keeps p ((loop, f', o') ∷ l) f o h =
      run_each-Keeps (settle p f' o') l f o (settle-Keeps p f' o' f o h)

  created-Keeps :
      (p : Pending R) (r : String) (loop : ℕ) (entry : Option (ℕ × ℕ))
      → Keeps p (created p r loop entry).0
  created-Keeps p r loop none f o h = h
  created-Keeps p r loop (some e) f o h = h

  settle_on-Keeps :
      (p : Pending R) (current : Option ℕ) (future its_loop : ℕ) (o' : Outcome R)
      (done : Option (Outcome R))
      → Keeps p (settle_on p current future its_loop o' done)
  settle_on-Keeps p current future its_loop o' (some old) f o h = h
  settle_on-Keeps p current future its_loop o' none f o h =
      ground (arith, settle-Keeps p future o' f o h, h)

  resolved-Keeps :
      (p : Pending R) (current : Option ℕ) (o' : Outcome R) (entry : Option (ℕ × ℕ))
      → Keeps p (resolved p current o' entry)
  resolved-Keeps p current o' none f o h = h
  resolved-Keeps p current o' (some (future, its_loop)) f o h =
      settle_on-Keeps p current future its_loop o' (p.outcomes future) f o h

  Step-Keeps : {p q : Pending R} → Step p q → Keeps p q
  unfolding clear_pending_intent resolve_pending_intent run_scheduled
  Step-Keeps {p} (creates r loop) f o h = created-Keeps p r loop (get p.pending_intents r) f o h
  Step-Keeps {p} (clears r) f o h = h
  Step-Keeps {p} (resolves r result error current) f o h =
      resolved-Keeps (clear_pending_intent p r) current (outcome_of result error)
        (get p.pending_intents r) f o h
  Step-Keeps {p} runs f o h = run_each-Keeps (record p { scheduled = [] }) p.scheduled f o h
  Step-Keeps {p} (cancels future) f o h = settle-Keeps p future cancelled f o h

  -- However the calls, the runs of what is scheduled, and cancellations follow one another, a future
  -- that is done keeps its outcome.
  pub Steps-settled :
      {p q : Pending R} (f : ℕ) (o : Outcome R)
      → Steps p q
      → p.outcomes f ≡ some o
      → q.outcomes f ≡ some o
  Steps-settled f o stop h = h
  Steps-settled f o (more steps st) h = Step-Keeps st f o (Steps-settled f o steps h)

  created-create :
      (p : Pending R) (r : String) (loop loop' : ℕ) (entry : Option (ℕ × ℕ))
      → get p.pending_intents r ≡ entry
      → create_pending_intent (created p r loop entry).0 r (some loop')
        ≡ some (created p r loop entry)
  unfolding create_pending_intent
  created-create p r loop loop' none h =
      ground (arith, get-put p.pending_intents r r (p.made, loop), eq_refl r)
  created-create p r loop loop' (some e) h = rw h refl

  -- Registering a request again, on any loop, returns the future of the first time and changes
  -- nothing.
  pub create-create :
      (p p' : Pending R) (r : String) (loop loop' f : ℕ)
      → create_pending_intent p r (some loop) ≡ some (p', f)
      → create_pending_intent p' r (some loop') ≡ some (p', f)
  unfolding create_pending_intent
  create-create p p' r loop loop' f h =
      ground (arith, created-create p r loop loop' (get p.pending_intents r) refl, h)

  resolve_idle :
      (p : Pending R) (r : String) (a : Option R) (e : Option String) (current : Option ℕ)
      → remove p.pending_intents r ≡ p.pending_intents
      → get p.pending_intents r ≡ none
      → resolve_pending_intent p r a e current ≡ p
  unfolding resolve_pending_intent clear_pending_intent
  resolve_idle p r a e current h g = rw g (ap (λ d. record p { pending_intents = d }) h)

  pending-settle_on :
      (p : Pending R) (current : Option ℕ) (f loop : ℕ) (o : Outcome R) (done : Option (Outcome R))
      → (settle_on p current f loop o done).pending_intents ≡ p.pending_intents
  unfolding settle
  pending-settle_on p current f loop o (some old) = refl
  pending-settle_on p current f loop o none = ground arith

  pending-resolved :
      (p : Pending R) (current : Option ℕ) (o : Outcome R) (entry : Option (ℕ × ℕ))
      → (resolved p current o entry).pending_intents ≡ p.pending_intents
  pending-resolved p current o none = refl
  pending-resolved p current o (some (f, loop)) =
      pending-settle_on p current f loop o (p.outcomes f)

  pending-resolve :
      (p : Pending R) (r : String) (a : Option R) (e : Option String) (current : Option ℕ)
      → (resolve_pending_intent p r a e current).pending_intents ≡ remove p.pending_intents r
  unfolding resolve_pending_intent clear_pending_intent
  pending-resolve p r a e current =
      pending-resolved (clear_pending_intent p r) current (outcome_of a e) (get p.pending_intents r)

  -- Resolving a request again changes nothing, whatever the second answer is.
  pub resolve-resolve :
      (p : Pending R) (r : String) (a a' : Option R) (e e' : Option String)
      (current current' : Option ℕ)
      → (resolve_pending_intent (resolve_pending_intent p r a e current) r a' e' current')
        ≡ resolve_pending_intent p r a e current
  resolve-resolve p r a a' e e' current current' =
      resolve_idle (resolve_pending_intent p r a e current) r a' e' current'
        (rw pending-resolve (remove-remove p.pending_intents r))
        (rw pending-resolve (ground (arith, get-remove p.pending_intents r r, eq_refl r)))

  abbrev pub meant_for : ℕ → List (ℕ × ℕ × Outcome R) → Bool
  meant_for f [] = false
  meant_for f ((loop, f', o) ∷ l) = same f' f || meant_for f l

  outcome-run_each :
      (p : Pending R) (l : List (ℕ × ℕ × Outcome R)) (f loop : ℕ) (o : Outcome R)
      → meant_for f l ≡ false
      → p.outcomes f ≡ none
      → (run_each p (l ++ (loop, f, o) ∷ [])).outcomes f ≡ some o
  unfolding run_each settle
  outcome-run_each p [] f loop o s h = rw h (ground arith)
  outcome-run_each p ((loop', f', o') ∷ l) f loop o s h =
      outcome-run_each (settle p f' o') l f loop o (ground (arith, s)) (ground (arith, s, h))

  run-settle :
      (p : Pending R) (f loop : ℕ) (o : Outcome R)
      → meant_for f p.scheduled ≡ false
      → p.outcomes f ≡ none
      → (run_scheduled (settle p f o)).outcomes f ≡ some o
  unfolding run_scheduled settle
  run-settle p f loop o s d =
      run_each-Keeps (record (settle p f o) { scheduled = [] }) p.scheduled f o
        (rw d (ground arith))

  run-settle_on :
      (p : Pending R) (current : Option ℕ) (f loop : ℕ) (o : Outcome R)
      → meant_for f p.scheduled ≡ false
      → p.outcomes f ≡ none
      → (run_scheduled (settle_on p current f loop o none)).outcomes f ≡ some o
  run-settle_on p current f loop o s d = elim (Bool-cases (opt_same current loop)) [
    | inl e ↦ rw e (run-settle p f loop o s d)
    | inr e ↦ rw e (
        unfold run_scheduled in
        outcome-run_each (record p { scheduled = [] }) p.scheduled f loop o s d)
  ]

  -- The answer of a request whose future is not done, and for which nothing is scheduled, is its
  -- outcome once the loops have run, wherever the answer was given.
  pub resolve-run :
      (p : Pending R) (r : String) (f loop : ℕ) (a : Option R) (e : Option String)
      (current : Option ℕ)
      → get p.pending_intents r ≡ some (f, loop)
      → p.outcomes f ≡ none
      → meant_for f p.scheduled ≡ false
      → (run_scheduled (resolve_pending_intent p r a e current)).outcomes f ≡ some (outcome_of a e)
  unfolding resolve_pending_intent clear_pending_intent
  resolve-run p r f loop a e current g d s =
      rw (g, d) (run-settle_on (clear_pending_intent p r) current f loop (outcome_of a e) s d)
