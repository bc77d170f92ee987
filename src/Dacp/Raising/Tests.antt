-- ===== src/Dacp/Raising/Tests.antt =====
-- Examples of handlers/dacp/intent.py: an intent that an external handler serves.
use py_fdc3_desktop_agent.Base.{◌≡◌, refl, String, Bool, true, false, Option, none, some, [], ◌∷◌}
use py_fdc3_desktop_agent.Base.Int.{pos}
use py_fdc3_desktop_agent.Base.Dict.{get}
use py_fdc3_desktop_agent.Core.Apps.{empty_registry}
use py_fdc3_desktop_agent.Core.Channels.State.{init, Context}
use py_fdc3_desktop_agent.Core.External.{ExternalHandler, get_handlers_for_intent}
use py_fdc3_desktop_agent.Core.Listeners.{empty_store}
use py_fdc3_desktop_agent.Core.Pending.{no_pending, returned, cancelled}
use py_fdc3_desktop_agent.Dacp.Agent.{Call}
use py_fdc3_desktop_agent.Plugins.{no_plugins, get_plugins_for_intent}
use py_fdc3_desktop_agent.SystemIntents.{system_intents}
use py_fdc3_desktop_agent.Dacp.Raising.{
  Services, RaiseIntent, PluginResult, not_handled, Bridge, timed_out, intent_resolution,
  forwarded_intent, resolve_locally,
}
use py_fdc3_desktop_agent.Dacp.Raising.Handling.{
  waiting, handle_raise_intent, handle_external_intent_result, resume_external,
}
use py_fdc3_desktop_agent.Dacp.Raising.Answers.{answers, due, answers-raise}
use py_fdc3_desktop_agent.Dacp.Raising.External.{results_come, forwarded_answered, timeout_kept}

abbrev launch : String → Option Context → Option Bool
launch url context = some true

abbrev open_path : String → Bool
open_path path = true

abbrev name_of : String → String
name_of plugin = plugin

abbrev declines : String → RaiseIntent → PluginResult
declines plugin q = not_handled

abbrev no_bridge : Bridge
no_bridge = record {
  is_connected = false;
  has_connected_agent = λ agent. false;
  send_agent_request = λ q. timed_out;
}

abbrev charts : ExternalHandler
charts = record {
  handler_uuid = "h1";
  instance_uuid = "u1";
  handler_id = "charts";
  intents = "ViewChart" ∷ [];
  priority = pos 1;
  metadata = none;
}

abbrev services : Services
services = record {
  agent = record {
    channel_manager = init;
    listener_store = empty_store;
    app_registry = empty_registry;
    default_user_channels_ready = false;
    bridged = false;
  };
  plugin_registry = no_plugins;
  external_registry = record {
    handlers = ("h1", charts) ∷ [];
    intent_map = ("ViewChart", charts ∷ []) ∷ [];
  };
  pending = no_pending;
}

abbrev call : Call
call = record {
  wcp_sessions = [];
  session_id = "s";
  request_uuid = "r1";
  now = "t1";
  later = "t2";
  fresh_uuid = "f1";
}

abbrev asks : RaiseIntent
asks = record {
  intent = "ViewChart";
  context = record { type = some "fdc3.instrument"; entries = [] };
  desktop_agent = none;
  source = none;
}

answers-raise_example :
    (answers
        (handle_raise_intent launch open_path name_of declines no_bridge services call asks "q1"
          0).messages
      ≡ due
          (handle_raise_intent launch open_path name_of declines no_bridge services call asks "q1"
            0).progress)
    × (answers (resume_external services asks charts 0 none).1 ≡ 1)
answers-raise_example =
    answers-raise name_of declines launch open_path no_bridge services services call asks "q1" 0
      charts 0 none

forwarded_answered_example :
    (let out =
        handle_raise_intent launch open_path name_of declines no_bridge services call asks "q1" 0 in
      let s' = handle_external_intent_result out.services "q1" (some "shown") none 0 in
      (out.progress ≡ waiting "q1" 0 charts)
      × (out.messages ≡ forwarded_intent "u1" "q1" "ViewChart" asks.context none ∷ [])
      × (s'.pending.outcomes 0 ≡ some (returned (some "shown")))
      × (get s'.pending.pending_intents "q1" ≡ none)
      × ((resume_external s' asks charts 0 (s'.pending.outcomes 0)).1
          ≡ intent_resolution "external:charts" none ∷ []))
unfolding get system_intents get_plugins_for_intent get_handlers_for_intent
forwarded_answered_example =
    forwarded_answered launch open_path name_of declines no_bridge services call asks "q1" 0 charts
      [] refl refl refl refl refl "shown" refl

timeout_kept_example :
    (let out =
        handle_raise_intent launch open_path name_of declines no_bridge services call asks "q1" 0 in
      let late = resume_external out.services asks charts 0 none in
      let later = results_come late.0 (("q2", none, some "failed", 0) ∷ []) in
      let answered = handle_external_intent_result later "q1" (some "shown") none 0 in
      (late.1 ≡ resolve_locally out.services asks)
      × (get later.pending.pending_intents "q1" ≡ some (0, 0))
      × (get answered.pending.pending_intents "q1" ≡ none)
      × (answered.pending.outcomes 0 ≡ some cancelled))
unfolding get system_intents get_plugins_for_intent get_handlers_for_intent
timeout_kept_example =
    timeout_kept launch open_path name_of declines no_bridge services call asks "q1" 0 charts []
      refl refl refl refl refl (("q2", none, some "failed", 0) ∷ []) (some "shown") none 0 refl refl
