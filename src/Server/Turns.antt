-- ===== src/Server/Turns.antt =====
-- server/websocket.py: one frame, the loop over the frames, and the endpoint.
use py_fdc3_desktop_agent.Sessions.{AnyUrl}
use py_fdc3_desktop_agent.Base.{
  ℕ, String, Bool, true, false, not, ◌&&◌, Option, none, some, List, [], ◌∷◌, ◌++◌, map,
  if◌then◌else◌,
}
use py_fdc3_desktop_agent.AccessControl.Text.{Codes}
use py_fdc3_desktop_agent.AccessControl.{validate_connection}
use py_fdc3_desktop_agent.Connections.Instances.{Connections, send_to_instance}
use py_fdc3_desktop_agent.Dacp.Agent.{
  Call, Message, told, response, user_channel_changed, private_channel_event, broadcast_event,
  bridge_event, bridge_broadcast, bridge_listener_update,
}
use py_fdc3_desktop_agent.Dacp.Channels.Requests.{handle}
use py_fdc3_desktop_agent.Dacp.Listening.Requests.{handle_event}
use py_fdc3_desktop_agent.Wcp.{
  AppMetadata, Transition, stay, dacp, disconnected, failed, Handshakes, Answer,
}
use py_fdc3_desktop_agent.Wcp.Handling.{handle_message}
use py_fdc3_desktop_agent.Server.{
  Frame, Output, Reads, Server, Socket, channel_request, cleanup, closed, event_request, no_object,
  id_or_empty, incoming_of, maybe_set_session_id, messaged, parse_error,
  register_instance_connection, replied, unknown_message, wcp_message,
}

-- What one turn of the endpoint's loop makes: `ended` says that the loop is left.
pub record Turn : Type 0 where
  pub server : Server
  pub socket : Socket
  pub ended : Bool
  pub outputs : List Output

-- The loop is left, and nothing is done.
abbrev pub left : Server → Socket → Turn
left s socket = record { server = s; socket = socket; ended = true; outputs = [] }

abbrev pub is_object : Frame → Bool
is_object (wcp_message message) = true
is_object (channel_request q) = true
is_object (event_request q) = true
is_object unknown_message = true
is_object no_object = false

-- After the access control: what the whole connection makes, if it is granted.
abbrev pub after_access :
    Option (Bool × Option ℕ) → Server → Server × List Output → Server × List Output
after_access none s out = (s, [])
after_access (some (access_granted, code)) s out =
    if access_granted then out else (s, closed 1008 ∷ [])

-- The instance that a message goes to by `send_to_instance`.
abbrev pub recipient : Message → Option String
recipient (told e) = none
recipient (response type request_uuid payload) = none
recipient (user_channel_changed i c) = some i
recipient (private_channel_event i c type details) = some i
recipient (broadcast_event i x) = some i
recipient (bridge_event agent c type details source) = none
recipient (bridge_broadcast x c source) = none
recipient (bridge_listener_update c type source added) = none

-- The connections after a message is sent to the instance; its text is left out.
abbrev pub after_send : (String → Bool) → Connections → Option String → Connections
after_send delivers m none = m
after_send delivers m (some i) = (send_to_instance delivers m i "").0

-- The connections after all the messages of a handler are sent.
unfoldable pub after_sends : (String → Bool) → Connections → List Message → Connections
unfolding send_to_instance
after_sends delivers m [] = m
after_sends delivers m (message ∷ messages) =
    after_sends delivers (after_send delivers m (recipient message)) messages

module _ (netloc : AnyUrl → Option String) (get_app_metadata : String → Option AppMetadata)
    (bridge_enabled : Bool) where
  abbrev pub with_handshakes : Server → Handshakes → Server
  with_handshakes s h = record s {
    agent = record s.agent { app_registry = h.app_registry };
    wcp_sessions = h.wcp_sessions;
  }

  -- After the WCP handler's answer.
  unfoldable pub after_answer : Server → Socket → Answer → Transition → Turn
  after_answer s socket answer dacp = record {
    server = record (with_handshakes s answer.handshakes) {
      connections =
          register_instance_connection s.connections socket.session_id
            answer.handshakes.wcp_sessions socket.websocket;
    };
    socket = record socket { dacp_active = true };
    ended = false;
    outputs = map replied answer.replies;
  }
  after_answer s socket answer failed = record {
    server = with_handshakes s answer.handshakes;
    socket = socket;
    ended = true;
    outputs = map replied answer.replies;
  }
  after_answer s socket answer stay = record {
    server = with_handshakes s answer.handshakes;
    socket = socket;
    ended = false;
    outputs = map replied answer.replies;
  }
  after_answer s socket answer disconnected = record {
    server = with_handshakes s answer.handshakes;
    socket = socket;
    ended = false;
    outputs = map replied answer.replies;
  }

  abbrev pub call_of : Server → Socket → Reads → Call
  call_of s socket w = record {
    wcp_sessions = s.wcp_sessions;
    session_id = id_or_empty socket.session_id;
    request_uuid = w.request_uuid;
    now = w.now;
    later = w.later;
    fresh_uuid = w.fresh_uuid;
  }

  unfoldable pub wcp_turn : Server → Socket → Reads → Frame → Turn
  wcp_turn s socket w frame =
      let answer =
        handle_message netloc get_app_metadata bridge_enabled
          (record { app_registry = s.agent.app_registry; wcp_sessions = s.wcp_sessions })
          (id_or_empty socket.session_id) w.fresh_uuid w.fresh_id (incoming_of frame) in
      after_answer s socket answer answer.transition

module _ (netloc : AnyUrl → Option String) (get_app_metadata : String → Option AppMetadata)
    (bridge_enabled : Bool) (delivers : String → Bool) where
  -- The DACP handler at a frame. It raises at what is no object.
  unfoldable pub dacp_turn : Server → Socket → Reads → Frame → Turn
  unfolding after_sends
  dacp_turn s socket w (channel_request q) =
      let out = handle s.agent (call_of netloc get_app_metadata bridge_enabled s socket w) q in
      record {
        server = record s { agent = out.0; connections = after_sends delivers s.connections out.1 };
        socket = socket;
        ended = false;
        outputs = map messaged out.1;
      }
  dacp_turn s socket w (event_request q) =
      let out =
        handle_event s.agent (call_of netloc get_app_metadata bridge_enabled s socket w) q in
      record {
        server = record s {
          agent = out.0.0;
          connections = after_sends delivers s.connections out.0.1;
        };
        socket = socket;
        ended = out.1;
        outputs = map messaged out.0.1;
      }
  dacp_turn s socket w (wcp_message message) = record {
    server = s;
    socket = socket;
    ended = false;
    outputs = parse_error ∷ [];
  }
  dacp_turn s socket w unknown_message = record {
    server = s;
    socket = socket;
    ended = false;
    outputs = parse_error ∷ [];
  }
  dacp_turn s socket w no_object = left s socket

  -- One turn of the loop, for a text that is JSON. At `null` the loop is left, as for a text that is
  -- not JSON, but with no code; at anything else that is no object `message.get` raises.
  unfoldable pub turn : Server → Socket → Reads → Frame → Turn
  turn s socket w frame =
      let socket' : Socket = record socket {
        session_id = maybe_set_session_id socket.session_id frame;
      } in
      if not (is_object frame)
      then left s socket
      else if socket.dacp_active
      then dacp_turn s socket' w frame
      else wcp_turn netloc get_app_metadata bridge_enabled s socket' w frame

  -- The loop, until the client disconnects or sends a text that is not JSON, or until it is left.
  unfoldable pub received : Server → Socket → List (Reads × Frame) → Turn
  unfolding turn
  received s socket [] = record { server = s; socket = socket; ended = false; outputs = [] }
  received s socket ((w, frame) ∷ frames) =
      let t = turn s socket w frame in
      let rest = received t.server t.socket frames in
      if t.ended then t else record rest { outputs = t.outputs ++ rest.outputs }

  module _ (origin_netloc : Codes → Option Codes) where
    -- `websocket_endpoint` on its own, from a connection's request to its end: what is received,
    -- and whether the last text is not JSON. An exception of the access control goes through, before
    -- anything is accepted.
    unfoldable pub websocket_endpoint :
        Server
        → String
        → Option (List Codes)
        → Option Codes
        → Option Codes
        → List (Reads × Frame)
        → Bool
        → String
        → Server × List Output
    websocket_endpoint s websocket policy origin user_agent frames invalid_json now =
        let socket : Socket = record {
          websocket = websocket;
          session_id = none;
          dacp_active = false;
        } in
        let access = validate_connection origin_netloc policy origin user_agent in
        let out = received s socket frames in
        let last = if not out.ended && invalid_json then closed 1003 ∷ [] else [] in
        let end = cleanup delivers out.server out.socket now in
        after_access access s (end.0, out.outputs ++ (last ++ end.1))
