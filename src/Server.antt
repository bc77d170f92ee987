-- ===== src/Server.antt =====
-- server/websocket.py: the endpoint of a connection, which composes the access control, the
-- handshake and the DACP handlers, and cleans up after the connection.
pub mod Turns
pub mod Cleanup
pub mod Arrival
pub mod Soundness
pub mod History
pub mod Ending
pub mod Gate
mod Tests
use py_fdc3_desktop_agent.Base.{
  ℕ, String, Bool, true, false, not, ◌&&◌, Option, none, some, List, [], ◌∷◌, ◌++◌, map,
  if◌then◌else◌, truthy,
}
use py_fdc3_desktop_agent.Base.Dict.{get, remove, has}
use py_fdc3_desktop_agent.Sessions.{WcpIdentity, WcpSession, WcpSessions}
use py_fdc3_desktop_agent.AccessControl.Text.{Codes}
use py_fdc3_desktop_agent.AccessControl.{validate_connection}
use py_fdc3_desktop_agent.Core.Apps.{unregister_instance}
use py_fdc3_desktop_agent.Core.Listeners.{remove_listeners_for_instance}
use py_fdc3_desktop_agent.Core.Channels.Membership.{leave_current_channel}
use py_fdc3_desktop_agent.Connections.Instances.{Connections, add_connection, remove_connection}
use py_fdc3_desktop_agent.Connections.Clients.{Clients, Sent, disconnect}
use py_fdc3_desktop_agent.Dacp.Agent.{Agent, Message, Call, tell}
use py_fdc3_desktop_agent.Dacp.Channels.Requests.{Request, handle}
use py_fdc3_desktop_agent.Dacp.Listening.Requests.{EventRequest, handle_event}
use py_fdc3_desktop_agent.Wcp.{
  AppMetadata, Incoming, hello, another, Reply, Transition, stay, dacp, disconnected, failed,
  Handshakes, Answer,
}
use py_fdc3_desktop_agent.Wcp.Handling.{handle_message}

-- What the connections share: the services, the two connection managers, the sessions.
pub record Server : Type 0 where
  pub agent : Agent
  pub connections : Connections
  pub clients : Clients
  pub wcp_sessions : WcpSessions

-- The variables of one connection's endpoint.
pub record Socket : Type 0 where
  pub websocket : String
  pub session_id : Option String
  pub dacp_active : Bool

-- What is sent: on the connection during the handshake, by the handlers, to agent clients, the
-- response to a text that is no DACP request, and the closing of the connection with a code.
pub data Output : Type 0 where
  replied : Reply → Output
  messaged : Message → Output
  client_sent : Sent → Output
  parse_error : Output
  closed : ℕ → Output

-- A JSON text that is received: a WCP message, a request on channels, one on listeners or a
-- broadcast, an object that is something else, or no object.
pub data Frame : Type 0 where
  wcp_message : Incoming → Frame
  channel_request : Request → Frame
  event_request : EventRequest → Frame
  unknown_message : Frame
  no_object : Frame

-- What is read from the world while a frame is handled.
pub record Reads : Type 0 where
  pub request_uuid : String
  pub now : String
  pub later : String
  pub fresh_uuid : String
  pub fresh_id : String

abbrev text_or_none : Option WcpIdentity → Option String
text_or_none none = none
text_or_none (some identity) = identity.instance_uuid

-- `session.identity`'s `instanceUuid`, if there are both.
abbrev pub uuid_of : Option WcpSession → Option String
uuid_of none = none
uuid_of (some session) = text_or_none session.identity

-- `session_id or ""`
abbrev pub id_or_empty : Option String → String
id_or_empty none = ""
id_or_empty (some session_id) = session_id

-- `_maybe_set_session_id`, at an object
unfoldable pub maybe_set_session_id : Option String → Frame → Option String
maybe_set_session_id (some session_id) frame = some session_id
maybe_set_session_id none (wcp_message (hello attempt wcp1)) = attempt
maybe_set_session_id none frame = none

-- `_register_instance_connection`, at the uuid of the session's identity
abbrev pub add_if : Connections → String → Option String → Connections
add_if m websocket none = m
add_if m websocket (some i) = if truthy i then add_connection m i websocket else m

unfoldable pub register_instance_connection :
    Connections → Option String → WcpSessions → String → Connections
register_instance_connection m none sessions websocket = m
register_instance_connection m (some session_id) sessions websocket =
    add_if m websocket (uuid_of (get sessions session_id))

-- What the WCP handler reads of a frame that is an object.
abbrev pub incoming_of : Frame → Incoming
incoming_of (wcp_message message) = message
incoming_of (channel_request q) = another
incoming_of (event_request q) = another
incoming_of unknown_message = another
incoming_of no_object = another

-- `delivers` says whether `send_text` succeeds on a socket.
module _ (delivers : String → Bool) where
  -- `_cleanup_instance`
  unfoldable pub cleanup_instance : Server → String → String → String → Server × List Output
  cleanup_instance s websocket i now =
      let left = leave_current_channel s.agent.channel_manager i now in
      let dropped = disconnect delivers s.clients websocket (some i) in
      (
        record s {
          agent = record s.agent {
            app_registry = unregister_instance s.agent.app_registry i;
            listener_store = remove_listeners_for_instance s.agent.listener_store i;
            channel_manager = left.0;
          };
          connections = remove_connection s.connections i;
          clients = dropped.0;
        },
        map messaged (tell left.1) ++ map client_sent dropped.1,
      )

  abbrev pub cleanup_uuid : Server → String → Option String → String → Server × List Output
  cleanup_uuid s websocket none now = (s, [])
  cleanup_uuid s websocket (some i) now =
      if truthy i then cleanup_instance s websocket i now else (s, [])

  -- `del wcp_sessions[session_id]`
  abbrev pub forget_session : Server × List Output → String → Server × List Output
  forget_session out session_id =
      (record out.0 { wcp_sessions = remove out.0.wcp_sessions session_id }, out.1)

  -- `_cleanup`
  unfoldable pub cleanup : Server → Socket → String → Server × List Output
  cleanup s socket now = elim socket.session_id [
    | none ↦ (s, [])
    | some session_id ↦
        if has s.wcp_sessions session_id
        then forget_session
            (cleanup_uuid s socket.websocket (uuid_of (get s.wcp_sessions session_id)) now)
            session_id
        else (s, [])
  ]
