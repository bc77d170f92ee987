-- ===== src/Dacp/Raising/Handling.antt =====
-- handlers/dacp/intent.py: the handlers, with the wait for an external handler.
use py_fdc3_desktop_agent.Base.{ℕ, String, Bool, Option, none, some, List, [], ◌∷◌, concat}
use py_fdc3_desktop_agent.Base.Int.{ℤ}
use py_fdc3_desktop_agent.Core.Channels.State.{Context}
use py_fdc3_desktop_agent.Core.External.{
  ExternalHandler, get_handlers_for_intent, register, unregister,
}
use py_fdc3_desktop_agent.Core.Pending.{
  Outcome, returned, raised, cancelled, Pending, create_pending_intent, resolve_pending_intent,
  settle,
}
use py_fdc3_desktop_agent.Dacp.Agent.{Call, caller}
use py_fdc3_desktop_agent.Plugins.{get_plugins_for_intent}
use py_fdc3_desktop_agent.SystemIntents.{handle_system_intent}
use py_fdc3_desktop_agent.Dacp.Raising.{
  Bridge, PluginResult, RaiseIntent, RaiseMessage, Services, answered_system, forwarded_intent,
  intent_resolution, resolve_locally, try_bridge, try_plugins,
}

-- A raise is answered at once, or it waits for an external handler: under the uuid, for the future.
pub data Raising : Type 0 where
  done : Raising
  waiting : String → ℕ → ExternalHandler → Raising

pub record Raised : Type 0 where
  pub services : Services
  pub progress : Raising
  pub messages : List RaiseMessage

abbrev pub finished : Services → List RaiseMessage → Raised
finished s messages = record { services = s; progress = done; messages = messages }

-- After `create_pending_intent`: the intent is forwarded. A send that fails is logged there.
abbrev pub forward_to :
    Services → RaiseIntent → String → ExternalHandler → Option (Pending String × ℕ) → Raised
forward_to s q uuid h none = finished s []
forward_to s q uuid h (some (pending, future)) = record {
  services = record s { pending = pending };
  progress = waiting uuid future h;
  messages = forwarded_intent h.instance_uuid uuid q.intent q.context q.source ∷ [];
}

-- `_try_external_handler`, up to its wait: `loop` is the running loop.
unfoldable pub try_external : Services → RaiseIntent → String → ℕ → List ExternalHandler → Raised
try_external s q uuid loop [] = finished s (resolve_locally s q)
try_external s q uuid loop (h ∷ hs) =
    forward_to s q uuid h (create_pending_intent s.pending uuid (some loop))

abbrev pub after_plugins : Services → Raised → Option RaiseMessage → Raised
after_plugins s rest none = rest
after_plugins s rest (some answer) = finished s (answer ∷ [])

abbrev pub after_local : Services → Raised → Option (List RaiseMessage) → Raised
after_local s rest none = rest
after_local s rest (some messages) = finished s messages

-- What is sent after the wait, by the outcome of the future; `none` is the timeout.
unfoldable pub after_wait :
    Services → RaiseIntent → ExternalHandler → Option (Outcome String) → List RaiseMessage
after_wait s q h none = resolve_locally s q
after_wait s q h (some (returned none)) = resolve_locally s q
after_wait s q h (some (returned (some result))) =
    intent_resolution (concat "external:" h.handler_id) none ∷ []
after_wait s q h (some (raised error)) = resolve_locally s q
after_wait s q h (some cancelled) = resolve_locally s q

-- `asyncio.wait_for` cancels the future when the thirty seconds have passed.
abbrev pub cancel_late : Services → ℕ → Option (Outcome String) → Services
cancel_late s future none = record s { pending = settle s.pending future cancelled }
cancel_late s future (some o) = s

-- The wait is over: the future has an outcome, or the time has passed.
unfoldable pub resume_external :
    Services
    → RaiseIntent
    → ExternalHandler
    → ℕ
    → Option (Outcome String)
    → Services × List RaiseMessage
resume_external s q h future o = (cancel_late s future o, after_wait s q h o)

module _ (launch : String → Option Context → Option Bool) (open_path : String → Bool)
    (plugin_name : String → String) (handle_intent : String → RaiseIntent → PluginResult) where
  -- `_handle_raise_intent`
  unfoldable pub handle_raise_intent : Bridge → Services → Call → RaiseIntent → String → ℕ → Raised
  handle_raise_intent bridge s k q uuid loop =
      let external =
        try_external s q uuid loop (get_handlers_for_intent s.external_registry q.intent) in
      let plugins =
        try_plugins plugin_name handle_intent (get_plugins_for_intent s.plugin_registry q.intent)
          q in
      let system =
        answered_system (handle_system_intent launch open_path q.intent (some q.context)) in
      after_local s (after_plugins s (after_plugins s external plugins) system)
        (try_bridge bridge k q q.desktop_agent)

-- `_handle_register_external_handler`, with the uuid that it draws.
unfoldable pub handle_register_external_handler :
    Services → Call → String → String → List String → ℤ → Option String → Services × String
handle_register_external_handler s k uuid handler_id intents priority metadata =
    let out = register s.external_registry uuid (caller k) handler_id intents priority metadata in
    (record s { external_registry = out.0 }, out.1)

unfoldable pub handle_unregister_external_handler : Services → String → Services
handle_unregister_external_handler s handler_uuid = record s {
  external_registry = unregister s.external_registry handler_uuid;
}

-- `_handle_external_intent_result`, on the running loop
unfoldable pub handle_external_intent_result :
    Services → String → Option String → Option String → ℕ → Services
handle_external_intent_result s request_uuid result error loop = record s {
  pending = resolve_pending_intent s.pending request_uuid result error (some loop);
}
