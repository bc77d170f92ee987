-- ===== src/Wcp/Handling.antt =====
-- handlers/wcp.py: the handlers of the messages of the handshake.
use py_fdc3_desktop_agent.Base.{
  String, Bool, not, ◌&&◌, ◌||◌, Option, none, some, List, [], ◌∷◌, if◌then◌else◌, truthy, text_or,
}
use py_fdc3_desktop_agent.Base.Lists.{is_empty, contains}
use py_fdc3_desktop_agent.Base.Dict.{get, put, remove, has}
use py_fdc3_desktop_agent.Sessions.{AnyUrl, WcpIdentity, Wcp1Identity, WcpSession, WcpSessions}
use py_fdc3_desktop_agent.Core.Apps.{AppInstance, AppRegistry, register_instance, get_instance}
use py_fdc3_desktop_agent.Wcp.{
  Answer, AppMetadata, Handshakes, ImplementationMetadata, Incoming, ValidateAppIdentity,
  Validation, another, dacp, disconnected, failed, goodbye, hello, identity_of, invalid,
  invalid_validate_app_identity, is_external, origins_of, raised, session_or_new, stay, valid,
  validate_app_identity, wcp1_of, wcp3_handshake, wcp5_failed, wcp5_response,
}

-- `urlparse(url).netloc`, or `none` if it raises, is the parameter `netloc`: what `urlparse`, which
-- takes text and bytes, makes of an object of pydantic's. What the
-- storage has of an application, or `none` if it has nothing or raises, is `get_app_metadata`.
module _ (netloc : AnyUrl → Option String) (get_app_metadata : String → Option AppMetadata) where
  -- `urlparse(url).netloc if url else None`, at a URL, which is an object and so true; the outer
  -- `none` is an exception.
  abbrev pub origin_of : AnyUrl → Option (Option String)
  origin_of url = elim (netloc url) [ none ↦ none | some o ↦ some (some o) ]

  -- The tests of the two origins: what they return, or go on with `result`.
  unfoldable pub check_origins :
      List String → Option String → Option String → Validation → Validation
  check_origins allowed_origins none actual_origin result = invalid "Invalid identity or actual URL"
  check_origins allowed_origins (some o) none result = invalid "Invalid identity or actual URL"
  check_origins allowed_origins (some o) (some a) result =
      if truthy o && truthy a
      then (if not (contains o allowed_origins) || not (contains a allowed_origins)
          then invalid "Origin not allowed for this app"
          else result)
      else invalid "Invalid identity or actual URL"

  -- From `urlparse(identity_url)` on; the identity's URL is parsed first.
  unfoldable pub parse_origins :
      List String → Option (Option String) → Option (Option String) → Validation → Validation
  parse_origins allowed_origins none actual_origin result = raised
  parse_origins allowed_origins (some o) none result = raised
  parse_origins allowed_origins (some o) (some a) result = check_origins allowed_origins o a result

  -- The standard flow, at the pending instance.
  unfoldable pub validate_pending :
      Wcp1Identity → ValidateAppIdentity → String → Option AppInstance → Validation
  validate_pending wcp1 wcp4 i none = invalid "Instance UUID not found or already connected"
  validate_pending wcp1 wcp4 i (some pending) =
      let allowed_origins = origins_of (get_app_metadata pending.app_id) in
      let result =
        valid
          (identity_of (some pending.app_id) (text_or wcp4.instance_id pending.instance_id) i) in
      if pending.connected
      then invalid "Instance UUID not found or already connected"
      else if is_empty allowed_origins
      then result
      else parse_origins allowed_origins (origin_of wcp1.identity_url) (origin_of wcp1.actual_url)
          result

  -- The standard flow, at the uuid of the payload.
  unfoldable pub validate_standard :
      AppRegistry → Wcp1Identity → ValidateAppIdentity → Option String → Validation
  validate_standard r wcp1 wcp4 none = invalid "No instance UUID provided"
  validate_standard r wcp1 wcp4 (some i) =
      if truthy i
      then validate_pending wcp1 wcp4 i (get_instance r i)
      else invalid "No instance UUID provided"

  -- After the session is read. The two uuids are those that `uuid4` gives.
  unfoldable pub validate_greeted :
      AppRegistry → ValidateAppIdentity → String → String → Option Wcp1Identity → Validation
  validate_greeted r wcp4 fresh_uuid fresh_id none = invalid "No WCP1 identity information found"
  validate_greeted r wcp4 fresh_uuid fresh_id (some wcp1) =
      if is_external wcp4.app_id
      then valid (
          identity_of wcp4.app_id (text_or wcp4.instance_id fresh_id)
            (text_or wcp4.instance_uuid fresh_uuid))
      else validate_standard r wcp1 wcp4 wcp4.instance_uuid

  unfoldable pub validate_identity :
      Handshakes → String → ValidateAppIdentity → String → String → Validation
  validate_identity h session_id wcp4 fresh_uuid fresh_id =
      validate_greeted h.app_registry wcp4 fresh_uuid fresh_id
        (wcp1_of (get h.wcp_sessions session_id))

  -- `_handle_wcp1_hello`
  unfoldable pub handle_wcp1_hello :
      Handshakes → String → Option String → Option Wcp1Identity → Answer
  handle_wcp1_hello h session_id attempt none = record {
    handshakes = h;
    transition = stay;
    replies = [];
  }
  handle_wcp1_hello h session_id attempt (some wcp1) =
      let session : WcpSession = record {
        identity = none;
        wcp1_identity = some wcp1;
        state = some "handshake";
      } in
      record {
        handshakes = record h { wcp_sessions = put h.wcp_sessions session_id session };
        transition = stay;
        replies = wcp3_handshake attempt ∷ [];
      }

  -- The metadata of an application, as far as it is known. A metadata object has every attribute.
  abbrev pub metadata_of : Bool → WcpIdentity → Option AppMetadata → ImplementationMetadata
  metadata_of bridge_enabled identity none = record {
    desktop_agent_bridging = bridge_enabled;
    app_id = text_or identity.app_id "unknown";
    instance_id = identity.instance_id;
    name = none;
    version = none;
    description = none;
    icons = [];
  }
  metadata_of bridge_enabled identity (some app_meta) = record {
    desktop_agent_bridging = bridge_enabled;
    app_id = text_or identity.app_id "unknown";
    instance_id = identity.instance_id;
    name = app_meta.name;
    version = app_meta.version;
    description = app_meta.description;
    icons = app_meta.icons;
  }

  abbrev pub metadata_for : Option String → Option AppMetadata
  metadata_for none = none
  metadata_for (some app_id) = if truthy app_id then get_app_metadata app_id else none

  -- The session under `session_id`, made if it is not there, gets the identity.
  unfoldable pub identify : WcpSessions → String → WcpIdentity → WcpSessions
  identify sessions session_id identity =
      put sessions session_id
        (record (session_or_new (get sessions session_id)) { identity = some identity })

  unfoldable pub accept : Bool → Handshakes → String → ValidateAppIdentity → WcpIdentity → Answer
  accept bridge_enabled h session_id wcp4 identity = record {
    handshakes = record {
      app_registry =
          (register_instance h.app_registry (text_or identity.app_id "unknown")
            (text_or identity.instance_id "") (text_or identity.instance_uuid "")).0;
      wcp_sessions = identify h.wcp_sessions session_id identity;
    };
    transition = dacp;
    replies =
        wcp5_response (text_or identity.app_id "unknown") (text_or identity.instance_id "")
          (text_or identity.instance_uuid "")
          (metadata_of bridge_enabled identity (metadata_for identity.app_id))
          wcp4.connection_attempt
        ∷ [];
  }

  unfoldable pub after_validation :
      Bool → Handshakes → String → ValidateAppIdentity → Validation → Answer
  after_validation bridge_enabled h session_id wcp4 (valid identity) =
      accept bridge_enabled h session_id wcp4 identity
  after_validation bridge_enabled h session_id wcp4 (invalid error) = record {
    handshakes = h;
    transition = stay;
    replies = wcp5_failed error (some wcp4.connection_attempt) ∷ [];
  }
  after_validation bridge_enabled h session_id wcp4 raised = record {
    handshakes = h;
    transition = failed;
    replies = [];
  }

  -- `_handle_wcp6_goodbye`
  unfoldable pub handle_wcp6_goodbye : Handshakes → String → Handshakes
  handle_wcp6_goodbye h session_id = record h {
    wcp_sessions =
        if has h.wcp_sessions session_id then remove h.wcp_sessions session_id else h.wcp_sessions;
  }

  -- `handle_message`
  unfoldable pub handle_message : Bool → Handshakes → String → String → String → Incoming → Answer
  handle_message bridge_enabled h session_id fresh_uuid fresh_id (hello attempt wcp1) =
      handle_wcp1_hello h session_id attempt wcp1
  handle_message bridge_enabled h session_id fresh_uuid fresh_id (validate_app_identity wcp4) =
      after_validation bridge_enabled h session_id wcp4
        (validate_identity h session_id wcp4 fresh_uuid fresh_id)
  handle_message bridge_enabled h session_id fresh_uuid fresh_id
        (invalid_validate_app_identity attempt) =
      record {
        handshakes = h;
        transition = stay;
        replies = wcp5_failed "Invalid WCP4ValidateAppIdentity payload" attempt ∷ [];
      }
  handle_message bridge_enabled h session_id fresh_uuid fresh_id goodbye = record {
    handshakes = handle_wcp6_goodbye h session_id;
    transition = disconnected;
    replies = [];
  }
  handle_message bridge_enabled h session_id fresh_uuid fresh_id another = record {
    handshakes = h;
    transition = stay;
    replies = [];
  }
