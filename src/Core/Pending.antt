-- ===== src/Core/Pending.antt =====
-- core/__init__.py: the pending intents of `CoreServices`, which an external handler's answer
-- settles; with what the methods use of `asyncio`: futures, and callbacks scheduled on a loop.
pub mod Settling
mod Tests
use py_fdc3_desktop_agent.Base.{
  same, ℕ, zero, suc, ◌+◌, String, Bool, true, false, ◌&&◌, ◌||◌, not, Option, none, some, List, [],
  ◌∷◌, ◌++◌, if◌then◌else◌, ltb,
}
use py_fdc3_desktop_agent.Base.Dict.{Dict, get, put, remove}

-- How a future is done: `set_result`, `set_exception(RuntimeError(…))`, or `cancel`, which
-- `asyncio.wait_for` calls at its timeout.
pub data Outcome {ℓ} (R : Type ℓ) : Type ℓ where
  returned : Option R → Outcome R
  raised : String → Outcome R
  cancelled : Outcome R

-- Futures and loops are objects, known by a number. `outcomes` says how a future is done, if it
-- is; `made` is the number of futures made.
pub record Pending {ℓ} (R : Type ℓ) : Type ℓ where
  pub pending_intents : Dict (ℕ × ℕ)
  pub outcomes : ℕ → Option (Outcome R)
  pub made : ℕ
  pub scheduled : List (ℕ × ℕ × Outcome R)

abbrev pub opt_same : Option ℕ → ℕ → Bool
opt_same none l = false
opt_same (some k) l = same k l

module _ {ℓ} {R : Type ℓ} where
  abbrev pub no_pending : Pending R
  no_pending = record { pending_intents = []; outcomes = λ f. none; made = 0; scheduled = [] }

  -- `_register_pending_intent`, on the running loop, if there is one: `RuntimeError` is `none`.
  abbrev pub created : Pending R → String → ℕ → Option (ℕ × ℕ) → Pending R × ℕ
  created p request_uuid loop none = (
    record p {
      pending_intents = put p.pending_intents request_uuid (p.made, loop);
      made = suc p.made;
    },
    p.made,
  )
  created p request_uuid loop (some (future, its_loop)) = (p, future)

  unfoldable pub create_pending_intent : Pending R → String → Option ℕ → Option (Pending R × ℕ)
  create_pending_intent p request_uuid none = none
  create_pending_intent p request_uuid (some loop) =
      some (created p request_uuid loop (get p.pending_intents request_uuid))

  unfoldable pub clear_pending_intent : Pending R → String → Pending R
  clear_pending_intent p request_uuid = record p {
    pending_intents = remove p.pending_intents request_uuid;
  }

  abbrev pub settled_with : Option (Outcome R) → Outcome R → Option (Outcome R)
  settled_with none o = some o
  settled_with (some old) o = some old

  -- `fut.set_result` and `fut.set_exception`. On a future that is done they raise
  -- `InvalidStateError` and change nothing.
  unfoldable pub settle : Pending R → ℕ → Outcome R → Pending R
  settle p future o = record p {
    outcomes = λ f. if same future f then settled_with (p.outcomes f) o else p.outcomes f;
  }

  abbrev pub outcome_of : Option R → Option String → Outcome R
  outcome_of result none = returned result
  outcome_of result (some e) = raised e

  -- The body under `fut, fut_loop = entry`: nothing if the future is done, else it is settled
  -- here, or on its own loop.
  abbrev pub settle_on : Pending R → Option ℕ → ℕ → ℕ → Outcome R → Option (Outcome R) → Pending R
  settle_on p current future its_loop o (some old) = p
  settle_on p current future its_loop o none =
      if opt_same current its_loop
      then settle p future o
      else record p { scheduled = p.scheduled ++ (its_loop, future, o) ∷ [] }

  abbrev pub resolved : Pending R → Option ℕ → Outcome R → Option (ℕ × ℕ) → Pending R
  resolved p current o none = p
  resolved p current o (some (future, its_loop)) =
      settle_on p current future its_loop o (p.outcomes future)

  unfoldable pub resolve_pending_intent :
      Pending R → String → Option R → Option String → Option ℕ → Pending R
  unfolding clear_pending_intent
  resolve_pending_intent p request_uuid result error current =
      resolved (clear_pending_intent p request_uuid) current (outcome_of result error)
        (get p.pending_intents request_uuid)

  -- The loops run what was scheduled on them, in order.
  unfoldable pub run_each : Pending R → List (ℕ × ℕ × Outcome R) → Pending R
  run_each p [] = p
  run_each p ((loop, future, o) ∷ rest) = run_each (settle p future o) rest

  unfoldable pub run_scheduled : Pending R → Pending R
  run_scheduled p = run_each (record p { scheduled = [] }) p.scheduled
