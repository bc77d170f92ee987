-- ===== src/Dacp/Raising/Answers.antt =====
-- handlers/dacp/intent.py: how often a raised intent is answered.
use py_fdc3_desktop_agent.Base.{
  ℕ, suc, String, ◌≡◌, refl, Bool, true, false, Option, none, some, List, [], ◌∷◌, map, arith,
  if◌then◌else◌, truthy, not, ◌&&◌,
}
use py_fdc3_desktop_agent.Core.Channels.State.{Context}
use py_fdc3_desktop_agent.Core.External.{ExternalHandler, get_handlers_for_intent}
use py_fdc3_desktop_agent.Core.Intents.{
  IntentResolution, resolve_intent, deliver_intent_event_with_resolution,
}
use py_fdc3_desktop_agent.Core.Pending.{Outcome, returned, raised, cancelled, create_pending_intent}
use py_fdc3_desktop_agent.Dacp.Agent.{Call, AppIdentifier}
use py_fdc3_desktop_agent.Plugins.{get_plugins_for_intent}
use py_fdc3_desktop_agent.SystemIntents.{
  SystemResponse, resolved, handling_failed, handle_system_intent,
}
use py_fdc3_desktop_agent.Dacp.Raising.{
  Services, RaiseMessage, intent_resolution, bridged_resolution, raise_error, intent_event,
  forwarded_intent, bridged_request, RaiseIntent, PluginResult, handled, not_handled, plugin_raised,
  BridgeAnswer, timed_out, not_connected, agent_disconnected, bridge_raised, bridge_error,
  bridge_resolution, Bridge, after_bridge, sent_over, try_bridge, answered_system, plugin_answer,
  first_of, try_plugins, resolver_of, resolve_with, resolve_locally,
}
use py_fdc3_desktop_agent.Dacp.Raising.Handling.{
  Raising, done, waiting, Raised, try_external, after_plugins, after_local, after_wait,
  resume_external, handle_raise_intent,
}

-- How many of the messages answer the request.
abbrev pub answers : List RaiseMessage → ℕ
answers [] = 0
answers (intent_resolution app_id instance_id ∷ rest) = suc (answers rest)
answers (bridged_resolution app_id ∷ rest) = suc (answers rest)
answers (raise_error error ∷ rest) = suc (answers rest)
answers (intent_event i intent x source ∷ rest) = answers rest
answers (forwarded_intent i uuid intent x source ∷ rest) = answers rest
answers (bridged_request intent x ∷ rest) = answers rest

-- How many answers are due: none yet while an external handler is waited for.
abbrev pub due : Raising → ℕ
due done = 1
due (waiting uuid future h) = 0

answers-events :
    (is : List String) (intent : String) (x : Context) (source : Option AppIdentifier)
    → answers (map (λ i. intent_event i intent x source) is) ≡ 0
answers-events [] intent x source = refl
answers-events (i ∷ is) intent x source = answers-events is intent x source

resolved_once :
    (s : Services) (q : RaiseIntent) (o : Option IntentResolution)
    → answers (resolve_with s q o) ≡ 1
resolved_once s q none = refl
resolved_once s q (some resolution) = ground (
  arith,
  answers-events (deliver_intent_event_with_resolution (resolver_of s) q.intent (some resolution))
      q.intent q.context q.source,
)

local_once : (s : Services) (q : RaiseIntent) → answers (resolve_locally s q) ≡ 1
unfolding resolve_locally
local_once s q = resolved_once s q (resolve_intent (resolver_of s) q.intent)

waited_once :
    (s : Services) (q : RaiseIntent) (h : ExternalHandler) (o : Option (Outcome String))
    → answers (after_wait s q h o) ≡ 1
unfolding after_wait
waited_once s q h none = local_once s q
waited_once s q h (some (returned none)) = local_once s q
waited_once s q h (some (returned (some result))) = refl
waited_once s q h (some (raised error)) = local_once s q
waited_once s q h (some cancelled) = local_once s q

abbrev Answered : Raised → Type 0
Answered out = answers out.messages ≡ due out.progress

forwarded_once :
    (s : Services) (q : RaiseIntent) (uuid : String) (loop : ℕ) (hs : List ExternalHandler)
    → Answered (try_external s q uuid loop hs)
unfolding try_external create_pending_intent
forwarded_once s q uuid loop [] = local_once s q
forwarded_once s q uuid loop (h ∷ hs) = refl

module _ (plugin_name : String → String) (handle_intent : String → RaiseIntent → PluginResult) where
  -- An answer, if there is one, is one.
  abbrev One : Option RaiseMessage → Type 0
  One none = Unit
  One (some m) = answers (m ∷ []) ≡ 1

  One-if : (b : Bool) (o p : Option RaiseMessage) → One o → One p → One (if b then o else p)
  One-if true o p h g = h
  One-if false o p h g = g

  One-plugin :
      (plugin : String) (o : PluginResult) → One (plugin_answer plugin_name handle_intent plugin o)
  One-plugin plugin (handled none) = refl
  One-plugin plugin (handled (some error)) = One-if (truthy error) _ _ refl refl
  One-plugin plugin not_handled = tt
  One-plugin plugin plugin_raised = tt

  One-first :
      (o p : Option RaiseMessage) → One o → One p → One (first_of plugin_name handle_intent o p)
  One-first none p h g = g
  One-first (some m) p h g = h

  One-plugins :
      (ps : List String) (q : RaiseIntent) → One (try_plugins plugin_name handle_intent ps q)
  unfolding try_plugins
  One-plugins [] q = tt
  One-plugins (p ∷ ps) q = One-first _ _ (One-plugin p (handle_intent p q)) (One-plugins ps q)

  One-system : (o : Option SystemResponse) → One (answered_system o)
  One-system none = tt
  One-system (some (resolved intent)) = refl
  One-system (some handling_failed) = refl

  after_once :
      (s : Services) (rest : Raised) (o : Option RaiseMessage)
      → One o
      → Answered rest
      → Answered (after_plugins s rest o)
  after_once s rest none h g = g
  after_once s rest (some m) h g = h

  abbrev OneOf : Option (List RaiseMessage) → Type 0
  OneOf none = Unit
  OneOf (some ms) = answers ms ≡ 1

  OneOf-if :
      (b : Bool) (o p : Option (List RaiseMessage)) → OneOf o → OneOf p → OneOf (if b then o else p)
  OneOf-if true o p h g = h
  OneOf-if false o p h g = g

  OneOf-sent : (q : RaiseIntent) (o : BridgeAnswer) → OneOf (sent_over q (after_bridge o))
  unfolding after_bridge
  OneOf-sent q timed_out = refl
  OneOf-sent q not_connected = refl
  OneOf-sent q agent_disconnected = refl
  OneOf-sent q bridge_raised = tt
  OneOf-sent q (bridge_error error) = refl
  OneOf-sent q (bridge_resolution app_id) = refl

  OneOf-bridge :
      (bridge : Bridge) (k : Call) (q : RaiseIntent) (o : Option String)
      → OneOf (try_bridge bridge k q o)
  unfolding try_bridge
  OneOf-bridge bridge k q none = tt
  OneOf-bridge bridge k q (some d) =
      OneOf-if (truthy d && truthy k.session_id) _ none
        (OneOf-if (not bridge.is_connected) _ _ refl (
          OneOf-if (not (bridge.has_connected_agent d)) _ _ refl
            (OneOf-sent q (bridge.send_agent_request q))))
        tt

  local_after :
      (s : Services) (rest : Raised) (o : Option (List RaiseMessage))
      → OneOf o
      → Answered rest
      → Answered (after_local s rest o)
  local_after s rest none h g = g
  local_after s rest (some ms) h g = h

  -- A raised intent is answered exactly once, whoever serves it: at once, or, if it is forwarded to
  -- an external handler, not before the wait is over; and then exactly once, whether the handler has
  -- answered, has failed or is late, and whatever the services are by then.
  pub answers-raise :
      (launch : String → Option Context → Option Bool) (open_path : String → Bool) (bridge : Bridge)
      (s s' : Services) (k : Call) (q : RaiseIntent) (uuid : String) (loop : ℕ)
      (h : ExternalHandler) (future : ℕ) (o : Option (Outcome String))
      → (answers
            (handle_raise_intent launch open_path plugin_name handle_intent bridge s k q uuid
              loop).messages
          ≡ due
              (handle_raise_intent launch open_path plugin_name handle_intent bridge s k q uuid
                loop).progress)
        × (answers (resume_external s' q h future o).1 ≡ 1)
  unfolding handle_raise_intent resume_external
  answers-raise launch open_path bridge s s' k q uuid loop h future o = (
    local_after s _ _ (OneOf-bridge bridge k q q.desktop_agent) (
        after_once s _ _
          (One-system (handle_system_intent launch open_path q.intent (some q.context)))
          (after_once s _ _ (One-plugins (get_plugins_for_intent s.plugin_registry q.intent) q)
            (forwarded_once s q uuid loop (get_handlers_for_intent s.external_registry q.intent)))),
    waited_once s' q h o,
  )
