-- ===== src/Server/Gate.antt =====
-- server/websocket.py: connections that send no message of the handshake.
use py_fdc3_desktop_agent.Sessions.{AnyUrl}
use py_fdc3_desktop_agent.Base.{
  ◌++◌, ℕ, not, ◌&&◌, some, String, ◌≡◌, refl, Bool, true, false, Option, none, List, [], ◌∷◌,
  arith, if◌then◌else◌,
}
use py_fdc3_desktop_agent.AccessControl.Text.{Codes}
use py_fdc3_desktop_agent.AccessControl.{validate_connection}
use py_fdc3_desktop_agent.Wcp.{AppMetadata}
use py_fdc3_desktop_agent.Wcp.Handling.{handle_message}
use py_fdc3_desktop_agent.Server.{
  Server, Socket, Frame, Reads, wcp_message, channel_request, event_request, unknown_message,
  no_object, Output, maybe_set_session_id, cleanup, closed,
}
use py_fdc3_desktop_agent.Server.Turns.{
  after_access, turn, wcp_turn, after_answer, received, websocket_endpoint, Turn,
}

-- No frame is a message of the handshake.
abbrev is_wcp : Frame → Bool
is_wcp (wcp_message message) = true
is_wcp (channel_request q) = false
is_wcp (event_request q) = false
is_wcp unknown_message = false
is_wcp no_object = false

abbrev pub silent : List (Reads × Frame) → Bool
silent [] = true
silent ((w, frame) ∷ frames) = if is_wcp frame then false else silent frames

-- Every frame is an object.
abbrev pub objects : List (Reads × Frame) → Bool
objects [] = true
objects ((w, no_object) ∷ frames) = false
objects ((w, frame) ∷ frames) = objects frames

module _ (netloc : AnyUrl → Option String) (get_app_metadata : String → Option AppMetadata)
    (bridge_enabled : Bool) (delivers : String → Bool) (s : Server) (websocket : String) where
  abbrev fresh : Socket
  fresh = record { websocket = websocket; session_id = none; dacp_active = false }

  abbrev nothing_done : Bool → Turn
  nothing_done ended = record { server = s; socket = fresh; ended = ended; outputs = [] }

  received-silent :
      (frames : List (Reads × Frame))
      → silent frames ≡ true
      → received netloc get_app_metadata bridge_enabled delivers s fresh frames
        ≡ nothing_done (not (objects frames))
  unfolding received turn wcp_turn after_answer maybe_set_session_id handle_message
  received-silent [] h = refl
  received-silent ((w, wcp_message message) ∷ frames) h = cc
  received-silent ((w, channel_request q) ∷ frames) h = rw (received-silent frames h) refl
  received-silent ((w, event_request q) ∷ frames) h = rw (received-silent frames h) refl
  received-silent ((w, unknown_message) ∷ frames) h = rw (received-silent frames h) refl
  received-silent ((w, no_object) ∷ frames) h = refl

  -- What is sent on a connection that never says hello: the code with which it is closed, if it is.
  -- When the access control raises nothing is sent.
  abbrev pub codes_of : Option (Bool × Option ℕ) → Bool → List Output
  codes_of none bad_text = []
  codes_of (some (true, code)) bad_text = if bad_text then closed 1003 ∷ [] else []
  codes_of (some (false, code)) bad_text = closed 1008 ∷ []

  closing :
      (o : Option (Bool × Option ℕ)) (all_objects invalid_json : Bool)
      → after_access o s (
        s,
        [] ++ ((if not (not all_objects) && invalid_json then closed 1003 ∷ [] else []) ++ []),
      )
        ≡ (s, codes_of o (all_objects && invalid_json))
  closing none all_objects invalid_json = refl
  closing (some (true, code)) all_objects invalid_json = ground arith
  closing (some (false, code)) all_objects invalid_json = refl

  -- A connection that sends whatever it likes except a message of the handshake, whether it is let
  -- in, refused or the access control raises, and however it ends, changes nothing in the server,
  -- and nothing it sends is answered: all that is sent is the code 1008 if it is refused, and, if it
  -- is let in, the code 1003 if it ends with a text that is not JSON and has sent only objects
  -- before.
  pub endpoint-silent :
      (origin_netloc : Codes → Option Codes) (policy : Option (List Codes))
      (origin user_agent : Option Codes) (frames : List (Reads × Frame)) (invalid_json : Bool)
      (now : String)
      → silent frames ≡ true
      → websocket_endpoint netloc get_app_metadata bridge_enabled delivers origin_netloc s websocket
          policy origin user_agent frames invalid_json now
        ≡ (
          s,
          codes_of
              (validate_connection origin_netloc policy origin user_agent)
              (objects frames && invalid_json),
        )
  unfolding websocket_endpoint cleanup
  endpoint-silent origin_netloc policy origin user_agent frames invalid_json now h =
      rw (received-silent frames h) (
        closing (validate_connection origin_netloc policy origin user_agent) (objects frames)
          invalid_json)
