-- ===== src/Server/Tests.antt =====
-- Examples of server/websocket.py: an external handler that connects, and another connection that
-- gives its session or its instance.
use py_fdc3_desktop_agent.Base.{
  ◌≡◌, refl, true, false, String, Bool, Option, none, some, List, [], ◌∷◌, ◌==◌, opt_eq,
}
use py_fdc3_desktop_agent.Base.Lists.{any, count}
use py_fdc3_desktop_agent.Base.Dict.{get, put, has, modify}
use py_fdc3_desktop_agent.Sessions.{AnyUrl, Wcp1Identity, WcpIdentity}
use py_fdc3_desktop_agent.AccessControl.{validate_connection, check_access}
use py_fdc3_desktop_agent.Core.Apps.{
  AppInstance, get_instance, register_instance, ensure_connection_event, set_connection_event,
}
use py_fdc3_desktop_agent.Core.Channels.Views.{current, is_private}
use py_fdc3_desktop_agent.Core.Channels.Membership.{get_channel_members}
use py_fdc3_desktop_agent.Core.External.{get_handlers_for_intent}
use py_fdc3_desktop_agent.Core.Listeners.{find_listener}
use py_fdc3_desktop_agent.Core.Listeners.Index.{owner}
use py_fdc3_desktop_agent.Connections.Instances.{add_connection}
use py_fdc3_desktop_agent.Dacp.Channels.Requests.{
  join_user_channel_request, create_private_channel_request,
}
use py_fdc3_desktop_agent.Wcp.{
  AppMetadata, ValidateAppIdentity, hello, validate_app_identity, is_external, identity_of,
}
use py_fdc3_desktop_agent.Wcp.Handling.{
  handle_message, handle_wcp1_hello, validate_identity, validate_greeted, after_validation, accept,
  identify,
}
use py_fdc3_desktop_agent.Server.{
  Server, Socket, Reads, Frame, wcp_message, channel_request, no_object, uuid_of,
  maybe_set_session_id, register_instance_connection, cleanup, closed,
}
use py_fdc3_desktop_agent.Server.Turns.{turn, wcp_turn, after_answer, websocket_endpoint}
use py_fdc3_desktop_agent.Server.Arrival.{
  validated, turn-accepted, taken_over, greeted_over, lost-cleanup,
}
use py_fdc3_desktop_agent.Server.Gate.{endpoint-silent}
use py_fdc3_desktop_agent.Server.History.{
  World, Reach, started, start, next, connected_socket, received_frame, Reach-IsSound,
}
use py_fdc3_desktop_agent.Server.Soundness.{IsSound}
use py_fdc3_desktop_agent.Server.Ending.{ended-forgotten}

abbrev netloc : AnyUrl → Option String
netloc url = none

abbrev metadata : String → Option AppMetadata
metadata app_id = none

abbrev delivers : String → Bool
delivers websocket = true

abbrev reads : Reads
reads = record { request_uuid = "r1"; now = "t1"; later = "t2"; fresh_uuid = "f1"; fresh_id = "d1" }

abbrev url : AnyUrl
url = record { text = "http://a.com/" }

abbrev said : Wcp1Identity
said = record { identity_url = url; actual_url = url; fdc3_version = "2.2" }

abbrev asks : ValidateAppIdentity
asks = record {
  instance_id = none;
  instance_uuid = some "u1";
  app_id = some "external-handler:x";
  connection_attempt = "s1";
}

abbrev opened : World
opened = record (started netloc metadata false delivers) {
  sockets = ("w1", record { websocket = "w1"; session_id = none; dacp_active = false }) ∷ [];
}

abbrev first : Socket
first = record { websocket = "w1"; session_id = none; dacp_active = false }

abbrev greeted : World
greeted = record {
  server =
      (turn netloc metadata false delivers opened.server first reads
        (wcp_message (hello (some "s1") (some said)))).server;
  sockets =
      put opened.sockets "w1"
        (turn netloc metadata false delivers opened.server first reads
          (wcp_message (hello (some "s1") (some said)))).socket;
}

abbrev waits : Socket
waits = record { websocket = "w1"; session_id = some "s1"; dacp_active = false }

abbrev active : World
active = record {
  server =
      (turn netloc metadata false delivers greeted.server waits reads
        (wcp_message (validate_app_identity asks))).server;
  sockets =
      put greeted.sockets "w1"
        (turn netloc metadata false delivers greeted.server waits reads
          (wcp_message (validate_app_identity asks))).socket;
}

reached : Reach netloc metadata false delivers active
unfolding turn wcp_turn after_answer maybe_set_session_id handle_message handle_wcp1_hello put get
    find_listener
reached =
    next
      (next (next start (connected_socket "w1"))
        (received_frame "w1" first reads (wcp_message (hello (some "s1") (some said))) refl refl))
      (received_frame "w1" waits reads (wcp_message (validate_app_identity asks)) refl refl)

Reach-IsSound_example : IsSound active.server
Reach-IsSound_example = Reach-IsSound netloc metadata false delivers reached

abbrev as_handler : WcpIdentity
as_handler = identity_of (some "external-handler:x") "d1" "u1"

turn-accepted_example :
    (uuid_of (
        get
          (validated netloc metadata false delivers greeted.server reads "w1" "s1"
            asks).wcp_sessions
          "s1")
      ≡ some "u1")
    × ((validated netloc metadata false delivers greeted.server reads "w1" "s1" asks).connections
        ≡ add_connection greeted.server.connections "u1" "w1")
    × (get_instance
          (validated netloc metadata false delivers greeted.server reads "w1" "s1"
            asks).agent.app_registry
          "u1"
        ≡ some (record {
          app_id = "external-handler:x";
          instance_id = "d1";
          instance_uuid = "u1";
          connected = true;
        }))
unfolding turn wcp_turn after_answer maybe_set_session_id handle_message handle_wcp1_hello put get
    validate_identity validate_greeted is_external get_instance
turn-accepted_example =
    turn-accepted netloc metadata false delivers greeted.server reads "w1" "s1" asks as_handler "u1"
      refl refl refl

abbrev intruded : Server
intruded =
    (turn netloc metadata false delivers active.server
      (record { websocket = "w2"; session_id = none; dacp_active = false }) reads
      (wcp_message (hello (some "s2") (some said)))).server

abbrev its_app : AppInstance
its_app = record {
  app_id = "external-handler:x";
  instance_id = "d1";
  instance_uuid = "u1";
  connected = true;
}

taken_over_example :
    ((validated netloc metadata false delivers intruded reads "w2" "s2" asks).connections
      ≡ add_connection intruded.connections "u1" "w2")
    × (get_instance
          (validated netloc metadata false delivers intruded reads "w2" "s2"
            asks).agent.app_registry
          "u1"
        ≡ some its_app)
unfolding turn wcp_turn after_answer maybe_set_session_id handle_message handle_wcp1_hello put get
    validate_identity validate_greeted is_external get_instance after_validation accept identify
    register_instance set_connection_event ensure_connection_event has modify
    register_instance_connection add_connection
taken_over_example =
    taken_over netloc metadata false delivers intruded reads "w2" "s2" asks said "u1" its_app refl
      refl refl refl refl refl

lost-cleanup_example :
    (let out =
        cleanup delivers
          (greeted_over netloc metadata false delivers active.server reads "w1" "s1" "w2" said)
          (record { websocket = "w1"; session_id = some "s1"; dacp_active = true })
          "t3" in
      (out.0.agent ≡ active.server.agent)
      × (out.0.connections ≡ active.server.connections)
      × (out.0.clients ≡ active.server.clients)
      × (out.1 ≡ []))
lost-cleanup_example =
    lost-cleanup netloc metadata false delivers active.server reads "w1" "s1" "w2" said true "t3"

ended-forgotten_example :
    (let out =
        (cleanup delivers active.server
          (record { websocket = "w1"; session_id = some "s1"; dacp_active = true })
          "t3").0 in
      (get out.wcp_sessions "s1" ≡ none)
      × (get_instance out.agent.app_registry "u1" ≡ none)
      × (current out.agent.channel_manager "u1" ≡ none)
      × (is_private out.agent.channel_manager "red" ≡ false
          → count "u1" (get_channel_members out.agent.channel_manager "red") ≡ 0)
      × (get out.connections.connections "u1" ≡ none)
      × (opt_eq (owner active.server.agent.listener_store "l1") "u1" ≡ true
          → find_listener out.agent.listener_store "l1" ≡ none)
      × (any
            (λ h. h.instance_uuid == "u1")
            (get_handlers_for_intent out.connections.external_registry "ViewChart")
          ≡ false))
unfolding turn wcp_turn after_answer maybe_set_session_id handle_message handle_wcp1_hello put get
    validate_identity validate_greeted is_external after_validation accept identify has
    register_instance_connection add_connection
ended-forgotten_example =
    ended-forgotten netloc metadata false delivers active
      (record { websocket = "w1"; session_id = some "s1"; dacp_active = true }) "s1" "u1" "t3" "l1"
      "ViewChart" "red" reached refl refl refl refl

abbrev eager : List (Reads × Frame)
eager =
    (reads, channel_request (join_user_channel_request "red"))
    ∷ (reads, channel_request (create_private_channel_request none))
    ∷ []

endpoint-silent_example :
    websocket_endpoint netloc metadata false delivers
      (λ c. some c)
      active.server
      "w3"
      none
      none
      none
      eager
      true
      "t4"
    ≡ (active.server, closed 1003 ∷ [])
unfolding validate_connection check_access
endpoint-silent_example =
    endpoint-silent netloc metadata false delivers active.server "w3" (λ c. some c) none none none
      eager true "t4" refl

-- A list ends the connection, and no code is sent.
list_ends :
    websocket_endpoint netloc metadata false delivers
      (λ c. some c)
      active.server
      "w3"
      none
      none
      none
      ((reads, no_object) ∷ eager)
      true
      "t4"
    ≡ (active.server, [])
unfolding validate_connection check_access
list_ends =
    endpoint-silent netloc metadata false delivers active.server "w3" (λ c. some c) none none none
      ((reads, no_object) ∷ eager) true "t4" refl
