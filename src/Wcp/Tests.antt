-- ===== src/Wcp/Tests.antt =====
-- Examples of handlers/wcp.py: a launched application with and without allowed origins.
use py_fdc3_desktop_agent.Base.{
  refl, ◌==◌, if◌then◌else◌, ◌≡◌, true, false, String, Option, none, some, [], ◌∷◌,
}
use py_fdc3_desktop_agent.Base.Dict.{get, put, has}
use py_fdc3_desktop_agent.Sessions.{AnyUrl, Wcp1Identity}
use py_fdc3_desktop_agent.Core.Apps.{
  AppRegistry, empty_registry, register_pending_instance, get_instance, ensure_connection_event,
}
use py_fdc3_desktop_agent.Wcp.{
  ValidateAppIdentity, AppMetadata, Handshakes, Answer, failed, hello, validate_app_identity,
  is_external,
}
use py_fdc3_desktop_agent.Wcp.Handling.{
  handle_message, handle_wcp1_hello, validate_identity, validate_greeted, validate_standard,
  validate_pending, parse_origins, after_validation,
}
use py_fdc3_desktop_agent.Wcp.Handshake.{is_dacp, is_failed, dacp-validate}
use py_fdc3_desktop_agent.Wcp.Phases.{Refines-handle_message, Refines}

-- A URL is no text.
abbrev netloc : AnyUrl → Option String
netloc url = none

abbrev metadata : String → Option AppMetadata
metadata app_id = some (record {
  name = some app_id;
  version = none;
  description = none;
  icons = [];
  allowed_origins = if app_id == "chart" then [] else "a.com" ∷ [];
})

abbrev url : AnyUrl
url = record { text = "http://a.com/" }

abbrev said : Wcp1Identity
said = record { identity_url = url; actual_url = url; fdc3_version = "2.2" }

abbrev launched : AppRegistry
launched = (register_pending_instance empty_registry "chart" "c1" "u1").0

abbrev greeted_state : Handshakes
greeted_state =
    (handle_message netloc metadata false (record { app_registry = launched; wcp_sessions = [] })
      "s1" "v" "d" (hello (some "s1") (some said))).handshakes

abbrev asks : ValidateAppIdentity
asks = record {
  instance_id = none;
  instance_uuid = some "u1";
  app_id = none;
  connection_attempt = "s1";
}

abbrev validated : Answer
unfolding handle_message
validated =
    handle_message netloc metadata false greeted_state "s1" "v" "d" (validate_app_identity asks)

dacp-validate_example :
    (is_dacp validated.transition ≡ true) × (is_failed validated.transition ≡ false)
unfolding handle_message handle_wcp1_hello register_pending_instance ensure_connection_event get put
    has get_instance is_external
dacp-validate_example =
    dacp-validate netloc metadata (λ u. refl) false greeted_state "s1" "v" "d" asks

-- The same instance, of an application with allowed origins.
restricted_raises :
    (handle_message netloc metadata false
      (record greeted_state {
        app_registry = (register_pending_instance empty_registry "other" "c1" "u1").0;
      })
      "s1"
      "v"
      "d"
      (validate_app_identity asks)).transition
    ≡ failed
unfolding handle_message handle_wcp1_hello register_pending_instance ensure_connection_event get put
    has get_instance is_external validate_identity validate_greeted validate_standard
    validate_pending parse_origins after_validation
restricted_raises = refl

Refines-handle_message_example :
    Refines netloc metadata false greeted_state "s1"
      (handle_message netloc metadata false greeted_state "s1" "v" "d" (validate_app_identity asks))
Refines-handle_message_example =
    Refines-handle_message netloc metadata false greeted_state "s1" "v" "d"
      (validate_app_identity asks)
