-- ===== src/Dacp/Raising/External.antt =====
-- handlers/dacp/intent.py: an intent that is forwarded to an external handler.
use py_fdc3_desktop_agent.Base.{
  ◌∙◌, not, ◌&&◌, ◌==◌, ℕ, String, ◌≡◌, refl, Bool, true, Option, none, some, List, [], ◌∷◌, arith,
  eq_refl, ap, concat, same,
}
use py_fdc3_desktop_agent.Base.Dict.{get, put, remove, get-put, get-remove}
use py_fdc3_desktop_agent.Core.Channels.State.{Context}
use py_fdc3_desktop_agent.Core.External.{ExternalHandler, get_handlers_for_intent}
use py_fdc3_desktop_agent.Core.Pending.{
  Outcome, returned, cancelled, create_pending_intent, resolve_pending_intent, settle,
  clear_pending_intent,
}
use py_fdc3_desktop_agent.Dacp.Agent.{Call}
use py_fdc3_desktop_agent.Plugins.{get_plugins_for_intent}
use py_fdc3_desktop_agent.SystemIntents.{system_intents, handle_system_intent}
use py_fdc3_desktop_agent.Dacp.Raising.{
  Services, intent_resolution, forwarded_intent, RaiseIntent, PluginResult, Bridge, try_bridge,
  try_plugins, resolve_locally,
}
use py_fdc3_desktop_agent.Dacp.Raising.Handling.{
  waiting, try_external, resume_external, after_wait, handle_raise_intent,
  handle_external_intent_result,
}

same_refl : (n : ℕ) → same n n ≡ true
same_refl n = ground arith

-- Answers of external handlers: the uuid, the result, the error, and the loop that it comes in on.
abbrev pub Results : Type 0
Results = List (String × Option String × Option String × ℕ)

unfoldable pub results_come : Services → Results → Services
results_come s [] = s
results_come s ((uuid, result, error, loop) ∷ results) =
    results_come (handle_external_intent_result s uuid result error loop) results

-- No answer is under the uuid.
abbrev pub others : String → Results → Bool
others uuid [] = true
others uuid ((uuid', result, error, loop) ∷ results) = not (uuid' == uuid) && others uuid results

pending-result :
    (s : Services) (uuid : String) (result error : Option String) (loop : ℕ)
    → (handle_external_intent_result s uuid result error loop).pending.pending_intents
      ≡ remove s.pending.pending_intents uuid
unfolding handle_external_intent_result resolve_pending_intent clear_pending_intent settle
pending-result s uuid result error loop = ground arith

-- A future that is done stays as it is.
outcome-result :
    (s : Services) (uuid : String) (result error : Option String) (loop future : ℕ)
    (o : Outcome String)
    → s.pending.outcomes future ≡ some o
    → (handle_external_intent_result s uuid result error loop).pending.outcomes future ≡ some o
unfolding handle_external_intent_result resolve_pending_intent clear_pending_intent settle
outcome-result s uuid result error loop future o h = ground (arith, h)

pending-results :
    (s : Services) (results : Results) (uuid : String)
    → others uuid results ≡ true
    → get (results_come s results).pending.pending_intents uuid ≡ get s.pending.pending_intents uuid
unfolding results_come
pending-results s [] uuid h = refl
pending-results s ((uuid', result, error, loop) ∷ results) uuid h =
    let s' = handle_external_intent_result s uuid' result error loop in
    pending-results s' results uuid (ground (arith, h))
    ∙ rw (pending-result s uuid' result error loop)
        (ground (arith, h, get-remove s.pending.pending_intents uuid' uuid))

outcome-results :
    (s : Services) (results : Results) (future : ℕ) (o : Outcome String)
    → s.pending.outcomes future ≡ some o
    → (results_come s results).pending.outcomes future ≡ some o
unfolding results_come
outcome-results s [] future o h = h
outcome-results s ((uuid, result, error, loop) ∷ results) future o h =
    outcome-results (handle_external_intent_result s uuid result error loop) results future o
      (outcome-result s uuid result error loop future o h)

module _ (launch : String → Option Context → Option Bool) (open_path : String → Bool)
    (plugin_name : String → String) (handle_intent : String → RaiseIntent → PluginResult)
    (bridge : Bridge) (s : Services) (k : Call) (q : RaiseIntent) (uuid : String) (loop : ℕ)
    (h : ExternalHandler) (hs : List ExternalHandler) (here : q.desktop_agent ≡ none)
    (no_system : get system_intents q.intent ≡ none)
    (no_plugin : get_plugins_for_intent s.plugin_registry q.intent ≡ [])
    (external : get_handlers_for_intent s.external_registry q.intent ≡ h ∷ hs)
    (fresh : get s.pending.pending_intents uuid ≡ none) where
  local : try_bridge bridge k q q.desktop_agent ≡ none
  unfolding try_bridge
  local = ap (try_bridge bridge k q) here

  unserved : handle_system_intent launch open_path q.intent (some q.context) ≡ none
  unfolding handle_system_intent
  unserved = rw (no_system, handle_system_intent) refl

  unplugged :
      try_plugins plugin_name handle_intent (get_plugins_for_intent s.plugin_registry q.intent) q
      ≡ none
  unfolding try_plugins
  unplugged = ap (λ ps. try_plugins plugin_name handle_intent ps q) no_plugin

  raised_lem :
      handle_raise_intent launch open_path plugin_name handle_intent bridge s k q uuid loop
      ≡ try_external s q uuid loop (h ∷ hs)
  unfolding handle_raise_intent
  raised_lem = rw (local, unserved, unplugged, external) refl

  entry :
      get (put s.pending.pending_intents uuid (s.pending.made, loop)) uuid
      ≡ some (s.pending.made, loop)
  entry =
      ground
        (arith, get-put s.pending.pending_intents uuid uuid (s.pending.made, loop), eq_refl uuid)

  -- An intent that no other agent, no system method and no plugin serves is forwarded to the first
  -- handler that the registry has for it, and the request waits for a new future under the new
  -- uuid; when that handler answers with a result under the uuid, the future has the result, the
  -- uuid is no longer pending, and the request is answered with the handler as the source.
  pub forwarded_answered :
      (result : String)
      → s.pending.outcomes s.pending.made ≡ none
      → (let out =
            handle_raise_intent launch open_path plugin_name handle_intent bridge s k q uuid loop in
          let s' = handle_external_intent_result out.services uuid (some result) none loop in
          (out.progress ≡ waiting uuid s.pending.made h)
          × (out.messages ≡ forwarded_intent h.instance_uuid uuid q.intent q.context q.source ∷ [])
          × (s'.pending.outcomes s.pending.made ≡ some (returned (some result)))
          × (get s'.pending.pending_intents uuid ≡ none)
          × ((resume_external s' q h s.pending.made (s'.pending.outcomes s.pending.made)).1
              ≡ intent_resolution (concat "external:" h.handler_id) none ∷ []))
  unfolding try_external create_pending_intent handle_external_intent_result resolve_pending_intent
      clear_pending_intent settle resume_external after_wait
  forwarded_answered result undone =
      rw (raised_lem, fresh, entry, undone, same_refl loop, undone, same_refl s.pending.made)
        (
          refl,
          refl,
          refl,
          ground (
            arith,
            get-remove (put s.pending.pending_intents uuid (s.pending.made, loop)) uuid uuid,
            eq_refl uuid,
          ),
          refl,
        )

  timed_out :
      s.pending.outcomes s.pending.made ≡ none
      → (let out =
            handle_raise_intent launch open_path plugin_name handle_intent bridge s k q uuid loop in
          let late = resume_external out.services q h s.pending.made none in
          (late.1 ≡ resolve_locally out.services q)
          × (late.0.pending.outcomes s.pending.made ≡ some cancelled)
          × (get late.0.pending.pending_intents uuid ≡ some (s.pending.made, loop)))
  unfolding try_external create_pending_intent settle resume_external after_wait
  timed_out undone = rw (raised_lem, fresh, undone, same_refl s.pending.made) (refl, refl, entry)

  -- If the handler does not answer in time, the request is resolved among the listeners, and its
  -- future is cancelled. After that its uuid stays pending whatever answers come under other uuids;
  -- when an answer comes under its own uuid after all, the uuid is no longer pending, and the future
  -- is still cancelled.
  pub timeout_kept :
      (others_come : Results) (result error : Option String) (loop' : ℕ)
      → s.pending.outcomes s.pending.made ≡ none
      → others uuid others_come ≡ true
      → (let out =
            handle_raise_intent launch open_path plugin_name handle_intent bridge s k q uuid loop in
          let late = resume_external out.services q h s.pending.made none in
          let later = results_come late.0 others_come in
          let answered = handle_external_intent_result later uuid result error loop' in
          (late.1 ≡ resolve_locally out.services q)
          × (get later.pending.pending_intents uuid ≡ some (s.pending.made, loop))
          × (get answered.pending.pending_intents uuid ≡ none)
          × (answered.pending.outcomes s.pending.made ≡ some cancelled))
  timeout_kept others_come result error loop' undone differ =
      let out =
        handle_raise_intent launch open_path plugin_name handle_intent bridge s k q uuid loop in
      let late = resume_external out.services q h s.pending.made none in
      let later = results_come late.0 others_come in
      let timed = timed_out undone in
      (
        timed.0,
        pending-results late.0 others_come uuid differ ∙ timed.2,
        rw (pending-result later uuid result error loop')
            (ground (arith, get-remove later.pending.pending_intents uuid uuid, eq_refl uuid)),
        outcome-result later uuid result error loop' s.pending.made cancelled
            (outcome-results late.0 others_come s.pending.made cancelled timed.1),
      )
