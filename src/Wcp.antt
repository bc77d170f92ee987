-- ===== src/Wcp.antt =====
-- handlers/wcp.py: the handshake of a connection, by which an application says who it is.
pub mod Handling
pub mod Handshake
pub mod Phases
pub mod Registry
mod Tests
use py_fdc3_desktop_agent.Base.{
  String, Bool, true, false, not, ◌&&◌, ◌||◌, Option, none, some, List, [], ◌∷◌, if◌then◌else◌,
  truthy, opt_truthy, text_or,
}
use py_fdc3_desktop_agent.Base.Lists.{is_empty, contains}
use py_fdc3_desktop_agent.Base.Dict.{Dict, get, put, remove, has, modify}
use py_fdc3_desktop_agent.AccessControl.Text.{codes, starts_with}
use py_fdc3_desktop_agent.Sessions.{
  WcpIdentity, Wcp1Identity, WcpSession, WcpSessions, empty_session,
}
use py_fdc3_desktop_agent.Core.Apps.{AppInstance, AppRegistry, register_instance, get_instance}

-- The payload of a `WCP4ValidateAppIdentity`, with the uuid of its `meta`.
pub record ValidateAppIdentity : Type 0 where
  pub instance_id : Option String
  pub instance_uuid : Option String
  pub app_id : Option String
  pub connection_attempt : String

-- A message by its `type`. A hello has the uuid that stands in its `meta`, if that is a dict, and
-- what it says if it is well formed; an ill-formed validation has the uuid that can be read from it.
pub data Incoming : Type 0 where
  hello : Option String → Option Wcp1Identity → Incoming
  validate_app_identity : ValidateAppIdentity → Incoming
  invalid_validate_app_identity : Option String → Incoming
  goodbye : Incoming
  another : Incoming

-- What the storage knows of an application.
pub record AppMetadata : Type 0 where
  pub name : Option String
  pub version : Option String
  pub description : Option String
  pub icons : List String
  pub allowed_origins : List String

-- The parts of the implementation metadata that depend on the handler's state.
pub record ImplementationMetadata : Type 0 where
  pub desktop_agent_bridging : Bool
  pub app_id : String
  pub instance_id : Option String
  pub name : Option String
  pub version : Option String
  pub description : Option String
  pub icons : List String

pub data Reply : Type 0 where
  wcp3_handshake : Option String → Reply
  wcp5_response : String → String → String → ImplementationMetadata → String → Reply
  wcp5_failed : String → Option String → Reply

-- What the validation returns; `raised` is an exception that it lets through.
pub data Validation : Type 0 where
  valid : WcpIdentity → Validation
  invalid : String → Validation
  raised : Validation

-- What `handle_message` returns, or that it raises.
pub data Transition : Type 0 where
  stay : Transition
  dacp : Transition
  disconnected : Transition
  failed : Transition

-- The services and the sessions.
pub record Handshakes : Type 0 where
  pub app_registry : AppRegistry
  pub wcp_sessions : WcpSessions

pub record Answer : Type 0 where
  pub handshakes : Handshakes
  pub transition : Transition
  pub replies : List Reply

unfoldable pub is_external : Option String → Bool
unfolding starts_with
is_external none = false
is_external (some app_id) = truthy app_id && starts_with (codes app_id) (codes "external-handler:")

abbrev pub identity_of : Option String → String → String → WcpIdentity
identity_of app_id instance_id i = record {
  app_id = app_id;
  instance_id = some instance_id;
  instance_uuid = some i;
}

abbrev pub origins_of : Option AppMetadata → List String
origins_of none = []
origins_of (some app_meta) = app_meta.allowed_origins

abbrev pub wcp1_of : Option WcpSession → Option Wcp1Identity
wcp1_of none = none
wcp1_of (some session) = session.wcp1_identity

-- The session after `wcp_sessions.get(session_id)`, or a new one.
abbrev pub session_or_new : Option WcpSession → WcpSession
session_or_new none = empty_session
session_or_new (some session) = session
