-- ===== src/Dacp/Agent.antt =====
-- handlers/dacp/base.py: the state of `DACPHandler`, sessions, and the messages that it sends.
use py_fdc3_desktop_agent.Base.{String, Bool, Option, none, some, List, [], ◌∷◌, map}
use py_fdc3_desktop_agent.Base.Dict.{get}
use py_fdc3_desktop_agent.Core.Apps.{AppRegistry}
use py_fdc3_desktop_agent.Core.Channels.State.{
  ChannelInstance, ChannelManager, Context, DisplayMetadata, Effect,
}
use py_fdc3_desktop_agent.Core.Listeners.{ListenerStore}
use py_fdc3_desktop_agent.Sessions.{WcpIdentity, WcpSession, WcpSessions}

-- The services that the channel handlers use. `bridged` says that there is a bridge client and that
-- it is connected.
pub record Agent : Type 0 where
  pub channel_manager : ChannelManager
  pub listener_store : ListenerStore
  pub app_registry : AppRegistry
  pub default_user_channels_ready : Bool
  pub bridged : Bool

abbrev pub no_identity : WcpIdentity
no_identity = record { app_id = none; instance_id = none; instance_uuid = none }

abbrev given_identity : Option WcpIdentity → WcpIdentity
given_identity none = no_identity
given_identity (some identity) = identity

abbrev identity_or_empty : Option WcpSession → WcpIdentity
identity_or_empty none = no_identity
identity_or_empty (some session) = given_identity session.identity

unfoldable pub get_session_identity : WcpSessions → String → WcpIdentity
get_session_identity sessions session_id = identity_or_empty (get sessions session_id)

abbrev text_or_empty : Option String → String
text_or_empty none = ""
text_or_empty (some t) = t

-- `identity.instanceUuid or ""`
unfoldable pub get_instance_uuid : WcpSessions → String → String
get_instance_uuid sessions session_id =
    text_or_empty (get_session_identity sessions session_id).instance_uuid

-- A channel without its members, as it is sent.
pub record WireChannel : Type 0 where
  pub id : String
  pub type : String
  pub display_metadata : Option DisplayMetadata

unfoldable pub wire_channel : ChannelInstance → WireChannel
wire_channel ch = record { id = ch.id; type = ch.type; display_metadata = ch.display_metadata }

-- The payload of a response.
pub data Payload : Type 0 where
  channels : List WireChannel → Payload
  channel : Option WireChannel → Payload
  context : Option Context → Payload
  invitation_token : String → Payload
  listener_uuid : String → Payload
  nothing : Payload
  error : String → Payload

pub record AppIdentifier : Type 0 where
  pub app_id : String
  pub instance_id : Option String

-- The details of a private channel's event: a dictionary with some of these keys.
pub record Details : Type 0 where
  pub listener_uuid : Option String
  pub instance_uuid : Option String
  pub initiator_instance_uuid : Option String
  pub context_type : Option String

-- `{"initiatorInstanceUuid": instance_uuid}`
abbrev pub initiated_by : String → Details
initiated_by i = record {
  listener_uuid = none;
  instance_uuid = none;
  initiator_instance_uuid = some i;
  context_type = none;
}

-- What a handler does outside the agent's state: the channel manager tells its subscribers; the
-- sender gets a response, with its type and the request's uuid; an instance gets an event on its
-- connection; another desktop agent, or all, get a request over the bridge. A send that fails is
-- logged; if it is one to an instance, the instance's connection is removed, on which the rest of
-- the handler does not depend.
pub data Message : Type 0 where
  told : Effect → Message
  response : String → String → Payload → Message
  user_channel_changed : String → Option String → Message
  private_channel_event : String → String → String → Details → Message
  broadcast_event : String → Context → Message
  bridge_event : String → String → String → Details → AppIdentifier → Message
  bridge_broadcast : Context → Option String → AppIdentifier → Message
  bridge_listener_update : String → Option String → AppIdentifier → Bool → Message

abbrev pub tell : List Effect → List Message
tell = map told

-- What a handler gets besides the payload, and what it reads from the world: two times, and a fresh
-- uuid.
pub record Call : Type 0 where
  pub wcp_sessions : WcpSessions
  pub session_id : String
  pub request_uuid : String
  pub now : String
  pub later : String
  pub fresh_uuid : String

unfoldable abbrev pub caller : Call → String
unfolding get_instance_uuid
caller k = get_instance_uuid k.wcp_sessions k.session_id

-- `_send_model` and `_send_error`
abbrev pub answer : Call → String → Payload → List Message
answer k type payload = response type k.request_uuid payload ∷ []

abbrev pub refuse : Call → String → String → List Message
refuse k type code = response type k.request_uuid (error code) ∷ []
