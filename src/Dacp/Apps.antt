-- ===== src/Dacp/Apps.antt =====
-- handlers/dacp/app.py: getInfo, getAppMetadata and findInstances, with the helpers of
-- handlers/dacp/base.py and intent.py on the names of applications.
pub mod Opening
pub mod Waiting
pub mod Answers
pub mod Reuse
pub mod Launching
mod Tests
use Prim.Native.String.{slice}
use text.Mathlib.Text.{find?}
use py_fdc3_desktop_agent.Base.{
  String, Bool, true, false, not, ◌&&◌, ◌||◌, Option, none, some, List, [], ◌∷◌, map, ◌==◌,
  if◌then◌else◌, truthy, opt_truthy, text_or,
}
use py_fdc3_desktop_agent.Base.Lists.{filter}
use py_fdc3_desktop_agent.Core.Apps.{AppInstance, AppRegistry, get_instances_for_app}
use py_fdc3_desktop_agent.Core.Channels.State.{Context}
use py_fdc3_desktop_agent.Dacp.Agent.{AppIdentifier, Call, get_session_identity}
use py_fdc3_desktop_agent.Sessions.{WcpIdentity}
use py_fdc3_desktop_agent.Wcp.{ImplementationMetadata}

-- An application of the directory, as the storage has it. The class has no `resultType`, which the
-- handlers read with `getattr`: it is `none` in every object of the class.
pub record StoredAppMetadata : Type 0 where
  pub app_id : String
  pub name : String
  pub version : String
  pub description : String
  pub icons : List String
  pub intents : List String
  pub result_type : Option String

-- The storage: `none` is an exception, and `some none` is nothing found. A launch configuration is
-- passed on to the launcher.
pub record Storage : Type 0 where
  pub get_app_metadata : String → Option (Option StoredAppMetadata)
  pub list_apps : Option (List StoredAppMetadata)
  pub get_launch_config : String → Option (Option String)

-- An identifier of an application, with the desktop agent that has it if it names one.
pub record AppTarget : Type 0 where
  pub app_id : String
  pub instance_id : Option String
  pub desktop_agent : Option String

-- What is sent: the responses, and a request over the bridge.
pub data AppMessage : Type 0 where
  get_info_response : ImplementationMetadata → AppMessage
  get_app_metadata_response : String → StoredAppMetadata → AppMessage
  find_instances_response : List AppTarget → AppMessage
  open_response : Option AppTarget → AppMessage
  app_error : String → String → AppMessage
  bridged_open : AppTarget → Option Context → AppIdentifier → AppMessage

-- `base or app_id`, for the text before the first "@"
unfoldable pub normalize_app_id : String → Option String
normalize_app_id app_id =
    if truthy app_id
    then (elim (find? app_id "@") [
      | none ↦ some app_id
      | some i ↦ if truthy (slice app_id 0 i) then some (slice app_id 0 i) else some app_id
    ])
    else none

-- The metadata, where an exception is logged and nothing is found.
abbrev pub found : Option (Option StoredAppMetadata) → Option StoredAppMetadata
found none = none
found (some meta) = meta

-- `casefold` is Unicode's.
module _ (casefold : String → String) where
  unfoldable pub app_id_named : List StoredAppMetadata → String → Option String
  app_id_named [] app_name = none
  app_id_named (meta ∷ listed) app_name =
      if meta.name == app_name || casefold meta.name == casefold app_name
      then some meta.app_id
      else app_id_named listed app_name

  unfoldable pub resolve_app_id_by_name : Storage → String → Option String
  unfolding app_id_named
  resolve_app_id_by_name storage app_name =
      if truthy app_name
      then (elim storage.list_apps [ none ↦ none | some listed ↦ app_id_named listed app_name ])
      else none

abbrev info_of : Bool → WcpIdentity → Option StoredAppMetadata → ImplementationMetadata
info_of bridge_client identity none = record {
  desktop_agent_bridging = bridge_client;
  app_id = text_or identity.app_id "unknown";
  instance_id = identity.instance_id;
  name = none;
  version = none;
  description = none;
  icons = [];
}
info_of bridge_client identity (some meta) = record {
  desktop_agent_bridging = bridge_client;
  app_id = text_or identity.app_id "unknown";
  instance_id = identity.instance_id;
  name = some meta.name;
  version = some meta.version;
  description = some meta.description;
  icons = meta.icons;
}

-- `bridge_client` says whether there is one.
unfoldable pub handle_get_info : Storage → Bool → Call → List AppMessage
handle_get_info storage bridge_client k =
    let identity = get_session_identity k.wcp_sessions k.session_id in
    let app_id = text_or identity.app_id "unknown" in
    get_info_response (
      info_of bridge_client identity
        (if app_id == "unknown" then none else found (storage.get_app_metadata app_id)))
    ∷ []

unfoldable pub handle_get_app_metadata : Storage → AppTarget → List AppMessage
unfolding normalize_app_id
handle_get_app_metadata storage app = elim (normalize_app_id app.app_id) [
  | none ↦ app_error "getAppMetadataResponse" "AppNotFound" ∷ []
  | some app_id ↦ elim (found (storage.get_app_metadata app_id)) [
    | none ↦ app_error "getAppMetadataResponse" "AppNotFound" ∷ []
    | some meta ↦
        get_app_metadata_response (if truthy meta.app_id then meta.app_id else app_id) meta ∷ []
  ]
]

abbrev pub is_requested : Option String → AppInstance → Bool
is_requested none inst = true
is_requested (some i) inst = if truthy i then inst.instance_id == i else true

abbrev pub local_target : String → AppInstance → AppTarget
local_target app_id inst = record {
  app_id = app_id;
  instance_id = some inst.instance_id;
  desktop_agent = none;
}

unfoldable pub handle_find_instances : AppRegistry → AppTarget → List AppMessage
unfolding normalize_app_id get_instances_for_app
handle_find_instances r app = elim (normalize_app_id app.app_id) [
  | none ↦ find_instances_response [] ∷ []
  | some app_id ↦
      find_instances_response (
        map (local_target app_id)
          (filter (is_requested app.instance_id) (get_instances_for_app r app_id)))
      ∷ []
]
