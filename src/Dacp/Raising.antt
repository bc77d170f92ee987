-- ===== src/Dacp/Raising.antt =====
-- handlers/dacp/intent.py: raising an intent. A request is answered by another agent, by the agent
-- itself, by a plugin, by an external handler, or by an application that listens, in this order.
pub mod Handling
pub mod Answers
pub mod External
mod Tests
use py_fdc3_desktop_agent.Base.{
  ℕ, String, Bool, true, false, not, ◌&&◌, ◌||◌, Option, none, some, List, [], ◌∷◌, ◌++◌, map, ◌==◌,
  if◌then◌else◌, truthy, text_or, concat, is_some,
}
use py_fdc3_desktop_agent.Base.Int.{ℤ}
use py_fdc3_desktop_agent.Base.Lists.{is_empty}
use py_fdc3_desktop_agent.Base.Dict.{get}
use py_fdc3_desktop_agent.Core.Channels.State.{Context}
use py_fdc3_desktop_agent.Core.External.{
  ExternalHandler, ExternalRegistry, get_handlers_for_intent, register, unregister,
}
use py_fdc3_desktop_agent.Core.Intents.{
  IntentResolution, IntentResolver, resolve_intent, deliver_intent_event_with_resolution,
}
use py_fdc3_desktop_agent.Core.Pending.{
  Outcome, returned, raised, cancelled, Pending, create_pending_intent, resolve_pending_intent,
  settle,
}
use py_fdc3_desktop_agent.Dacp.Agent.{Agent, Call, caller, AppIdentifier, get_session_identity}
use py_fdc3_desktop_agent.Plugins.{PluginRegistry, get_plugins_for_intent}
use py_fdc3_desktop_agent.SystemIntents.{
  SystemResponse, resolved, handling_failed, is_system_intent, handle_system_intent,
}

-- The services of a raise. The result of an external handler is any dict: a text.
pub record Services : Type 0 where
  pub agent : Agent
  pub plugin_registry : PluginRegistry
  pub external_registry : ExternalRegistry
  pub pending : Pending String

-- What is sent. A resolution names the application that serves the intent.
pub data RaiseMessage : Type 0 where
  intent_resolution : String → Option String → RaiseMessage
  bridged_resolution : String → RaiseMessage
  raise_error : String → RaiseMessage
  intent_event : String → String → Context → Option AppIdentifier → RaiseMessage
  forwarded_intent : String → String → String → Context → Option AppIdentifier → RaiseMessage
  bridged_request : String → Context → RaiseMessage

-- A request, with the remote agent that its target names, if it names one.
pub record RaiseIntent : Type 0 where
  pub intent : String
  pub context : Context
  pub desktop_agent : Option String
  pub source : Option AppIdentifier

-- What a plugin does with an intent.
pub data PluginResult : Type 0 where
  handled : Option String → PluginResult
  not_handled : PluginResult
  plugin_raised : PluginResult

-- What comes back over the bridge.
pub data BridgeAnswer : Type 0 where
  timed_out : BridgeAnswer
  not_connected : BridgeAnswer
  agent_disconnected : BridgeAnswer
  bridge_raised : BridgeAnswer
  bridge_error : String → BridgeAnswer
  bridge_resolution : String → BridgeAnswer

-- The bridge: whether it is connected, which agents are, and what it answers.
pub record Bridge : Type 0 where
  pub is_connected : Bool
  pub has_connected_agent : String → Bool
  pub send_agent_request : RaiseIntent → BridgeAnswer

-- `none` goes on with the local resolution.
unfoldable pub after_bridge : BridgeAnswer → Option RaiseMessage
after_bridge timed_out = some (raise_error "ResponseToBridgeTimedOut")
after_bridge not_connected = some (raise_error "NotConnectedToBridge")
after_bridge agent_disconnected = some (raise_error "AgentDisconnected")
after_bridge bridge_raised = none
after_bridge (bridge_error error) = some (raise_error error)
after_bridge (bridge_resolution app_id) = some (bridged_resolution app_id)

-- The messages, if the request is answered without the local resolution.
abbrev pub sent_over : RaiseIntent → Option RaiseMessage → Option (List RaiseMessage)
sent_over q none = none
sent_over q (some answer) = some (bridged_request q.intent q.context ∷ answer ∷ [])

unfoldable pub try_bridge : Bridge → Call → RaiseIntent → Option String → Option (List RaiseMessage)
try_bridge bridge k q none = none
try_bridge bridge k q (some desktop_agent) =
    if truthy desktop_agent && truthy k.session_id
    then (if not bridge.is_connected
        then some (raise_error "NotConnectedToBridge" ∷ [])
        else if not (bridge.has_connected_agent desktop_agent)
        then some (raise_error "DesktopAgentNotFound" ∷ [])
        else sent_over q (after_bridge (bridge.send_agent_request q)))
    else none

abbrev pub system_answer : SystemResponse → RaiseMessage
system_answer (resolved intent) = intent_resolution "fdc3-desktop-agent" none
system_answer handling_failed = raise_error "IntentHandlingFailed"

abbrev pub answered_system : Option SystemResponse → Option RaiseMessage
answered_system none = none
answered_system (some response) = some (system_answer response)

module _ (plugin_name : String → String) (handle_intent : String → RaiseIntent → PluginResult) where
  -- `if result.handled`, and `if result.error`
  abbrev pub plugin_answer : String → PluginResult → Option RaiseMessage
  plugin_answer plugin (handled none) =
      some (intent_resolution (concat "plugin:" (plugin_name plugin)) none)
  plugin_answer plugin (handled (some error)) =
      if truthy error
      then some (raise_error error)
      else some (intent_resolution (concat "plugin:" (plugin_name plugin)) none)
  plugin_answer plugin not_handled = none
  plugin_answer plugin plugin_raised = none

  abbrev pub first_of : Option RaiseMessage → Option RaiseMessage → Option RaiseMessage
  first_of none later = later
  first_of (some answer) later = some answer

  -- `_try_plugin_handler`: the loop over the plugins.
  unfoldable pub try_plugins : List String → RaiseIntent → Option RaiseMessage
  try_plugins [] q = none
  try_plugins (plugin ∷ plugins) q =
      first_of (plugin_answer plugin (handle_intent plugin q)) (try_plugins plugins q)

abbrev pub resolver_of : Services → IntentResolver
resolver_of s = record {
  listener_store = s.agent.listener_store;
  app_registry = s.agent.app_registry;
}

abbrev pub resolve_with : Services → RaiseIntent → Option IntentResolution → List RaiseMessage
resolve_with s q none = raise_error "NoAppsFound" ∷ []
resolve_with s q (some resolution) =
    intent_resolution resolution.source.app_id resolution.source.instance_id
    ∷ map (λ i. intent_event i q.intent q.context q.source)
        (deliver_intent_event_with_resolution (resolver_of s) q.intent (some resolution))

-- "try normal resolution"
unfoldable pub resolve_locally : Services → RaiseIntent → List RaiseMessage
resolve_locally s q = resolve_with s q (resolve_intent (resolver_of s) q.intent)
