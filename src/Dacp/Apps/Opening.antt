-- ===== src/Dacp/Apps/Opening.antt =====
-- handlers/dacp/app.py: opening an application. A request waits for the launcher, and then for the
-- application to connect; the registry may change during each wait, so there are three functions.
use py_fdc3_desktop_agent.Base.{
  String, Bool, not, ◌&&◌, Option, none, some, List, [], ◌∷◌, ◌==◌, if◌then◌else◌, truthy,
  opt_truthy, text_or, is_some,
}
use py_fdc3_desktop_agent.Core.Apps.{AppInstance, AppRegistry, get_instances_for_app}
use py_fdc3_desktop_agent.Core.Channels.State.{Context}
use py_fdc3_desktop_agent.Dacp.Agent.{AppIdentifier, Call, get_session_identity}
use py_fdc3_desktop_agent.Sessions.{WcpIdentity}
use py_fdc3_desktop_agent.Dacp.Apps.{
  Storage, AppTarget, AppMessage, open_response, app_error, bridged_open, normalize_app_id, found,
  resolve_app_id_by_name,
}

-- The application of a request is an identifier or a name.
pub data OpenApp : Type 0 where
  by_identifier : AppTarget → OpenApp
  by_name : String → OpenApp

pub record OpenRequest : Type 0 where
  pub app : OpenApp
  pub context : Option Context

-- What comes back over the bridge; any other exception, and a payload that is no response, is
-- `bridge_raised`.
pub data OpenAnswer : Type 0 where
  timed_out : OpenAnswer
  not_connected : OpenAnswer
  agent_disconnected : OpenAnswer
  bridge_raised : OpenAnswer
  bridge_error : String → OpenAnswer
  bridge_opened : Option AppTarget → OpenAnswer

-- The bridge client, if there is one: `is_connected` is false without it.
pub record OpenBridge : Type 0 where
  pub is_connected : Bool
  pub has_connected_agent : String → Bool
  pub send_agent_request : AppTarget → Option Context → AppIdentifier → OpenAnswer

pub record LaunchResult : Type 0 where
  pub success : Bool
  pub instance_id : Option String
  pub instance_uuid : Option String

-- A request is answered, or the application is launched with its configuration.
pub data OpenStep : Type 0 where
  done : List AppMessage → OpenStep
  launch : String → String → AppTarget → OpenStep

-- `DACPError`
abbrev pub fail : String → List AppMessage
fail code = app_error "openResponse" code ∷ []

abbrev pub named_target : String → AppTarget
named_target app_id = record { app_id = app_id; instance_id = none; desktop_agent = none }

abbrev pub opened : String → String → List AppMessage
opened app_id instance_id =
    open_response
      (some (record { app_id = app_id; instance_id = some instance_id; desktop_agent = none }))
    ∷ []

module _ (casefold : String → String) where
  abbrev pub named : Storage → String → Option String → Option String
  named storage name none = resolve_app_id_by_name casefold storage name
  named storage name (some app_id) =
      if is_some (found (storage.get_app_metadata app_id))
      then some app_id
      else resolve_app_id_by_name casefold storage name

  abbrev pub if_given : Option String → Option AppTarget
  if_given none = none
  if_given (some app_id) = if truthy app_id then some (named_target app_id) else none

  -- `app_identity`
  unfoldable pub app_identity : Storage → OpenApp → Option AppTarget
  unfolding normalize_app_id resolve_app_id_by_name
  app_identity storage (by_identifier app) =
      if opt_truthy app.desktop_agent then some app else elim (normalize_app_id app.app_id) [
        | none ↦ none
        | some app_id ↦ some (record app { app_id = app_id })
      ]
  app_identity storage (by_name name) = if_given (named storage name (normalize_app_id name))

unfoldable pub after_open_bridge : OpenAnswer → AppMessage
after_open_bridge timed_out = app_error "openResponse" "ResponseToBridgeTimedOut"
after_open_bridge not_connected = app_error "openResponse" "NotConnectedToBridge"
after_open_bridge agent_disconnected = app_error "openResponse" "AgentDisconnected"
after_open_bridge bridge_raised = app_error "openResponse" "ErrorOnLaunch"
after_open_bridge (bridge_error error) = app_error "openResponse" error
after_open_bridge (bridge_opened app) = open_response app

abbrev pub source_of : WcpIdentity → AppIdentifier
source_of identity = record {
  app_id = text_or identity.app_id "unknown";
  instance_id = identity.instance_id;
}

-- "forward it"
unfoldable pub open_remotely :
    OpenBridge → Call → AppTarget → Option Context → String → List AppMessage
unfolding after_open_bridge
open_remotely bridge k app context target_da =
    let source = source_of (get_session_identity k.wcp_sessions k.session_id) in
    if not bridge.is_connected
    then fail "NotConnectedToBridge"
    else if not (bridge.has_connected_agent target_da)
    then fail "DesktopAgentNotFound"
    else bridged_open app context source
      ∷ after_open_bridge (bridge.send_agent_request app context source)
      ∷ []

-- `getattr(request.payload.app, "instanceId", None)`
abbrev pub requested_instance_id : OpenApp → Option String
requested_instance_id (by_identifier app) = app.instance_id
requested_instance_id (by_name name) = none

-- The loop of `next(…)`.
unfoldable pub instance_with : String → List AppInstance → Option String
instance_with i [] = none
instance_with i (inst ∷ rest) =
    if inst.instance_id == i then some inst.instance_id else instance_with i rest

abbrev pub first_instance : List AppInstance → Option String
first_instance [] = none
first_instance (inst ∷ rest) = some inst.instance_id

-- The instance that is there already, if the request is answered with one.
unfoldable pub reusable : Option String → List AppInstance → Option String
unfolding instance_with
reusable none instances = first_instance instances
reusable (some i) instances =
    if truthy i then instance_with i instances else first_instance instances

-- "Get launch config"
unfoldable pub configured : Storage → AppTarget → OpenStep
configured storage app = elim (storage.get_launch_config app.app_id) [
  | none ↦ done (fail "ErrorOnLaunch")
  | some config ↦ elim config [
    | none ↦ done (fail "AppNotFound")
    | some c ↦ launch app.app_id c app
  ]
]

unfoldable pub open_here : Storage → AppRegistry → AppTarget → Option String → OpenStep
unfolding reusable configured get_instances_for_app
open_here storage r app requested = elim (storage.get_app_metadata app.app_id) [
  | none ↦ done (fail "ErrorOnLaunch")
  | some meta ↦ elim meta [
    | none ↦ done (fail "AppNotFound")
    | some m ↦ elim (reusable requested (get_instances_for_app r app.app_id)) [
      | some instance_id ↦ done (opened app.app_id instance_id)
      | none ↦ configured storage app
    ]
  ]
]

-- The desktop agent of a request that is forwarded.
abbrev pub target_agent : Call → AppTarget → Option String
target_agent k app = elim app.desktop_agent [
  | none ↦ none
  | some d ↦ if truthy d && truthy k.session_id then some d else none
]

module _ (casefold : String → String) where
  -- `_handle_open`, up to the launch.
  unfoldable pub handle_open : Storage → OpenBridge → AppRegistry → Call → OpenRequest → OpenStep
  unfolding app_identity open_remotely open_here
  handle_open storage bridge r k q = elim (app_identity casefold storage q.app) [
    | none ↦ done (fail "AppNotFound")
    | some app ↦ elim (target_agent k app) [
      | some target_da ↦ done (open_remotely bridge k app q.context target_da)
      | none ↦ open_here storage r app (requested_instance_id q.app)
    ]
  ]
