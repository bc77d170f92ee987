-- ===== src/Wcp/Handshake.antt =====
-- handlers/wcp.py: which validations are accepted, and what an accepted one leaves.
use py_fdc3_desktop_agent.Base.{
  String, ◌≡◌, refl, Bool, true, false, ◌&&◌, ◌||◌, not, ◌∙◌, Option, none, some, List, arith,
  truthy,
}
use py_fdc3_desktop_agent.Base.Lists.{is_empty}
use py_fdc3_desktop_agent.Base.Dict.{get}
use py_fdc3_desktop_agent.Sessions.{AnyUrl, Wcp1Identity}
use py_fdc3_desktop_agent.Core.Apps.{AppInstance, AppRegistry, get_instance}
use py_fdc3_desktop_agent.Wcp.{
  ValidateAppIdentity, AppMetadata, Validation, valid, invalid, raised, Transition, stay, dacp,
  disconnected, failed, Handshakes, is_external, origins_of, wcp1_of, validate_app_identity,
}
use py_fdc3_desktop_agent.Wcp.Handling.{
  parse_origins, validate_pending, validate_standard, validate_greeted, validate_identity, accept,
  after_validation, handle_message,
}

abbrev pub is_dacp : Transition → Bool
is_dacp stay = false
is_dacp dacp = true
is_dacp disconnected = false
is_dacp failed = false

abbrev pub is_failed : Transition → Bool
is_failed stay = false
is_failed dacp = false
is_failed disconnected = false
is_failed failed = true

is_valid : Validation → Bool
is_valid v = elim v [ valid identity ↦ true | invalid error ↦ false | raised ↦ false ]

is_raised : Validation → Bool
is_raised v = elim v [ valid identity ↦ false | invalid error ↦ false | raised ↦ true ]

module _ (netloc : AnyUrl → Option String) (get_app_metadata : String → Option AppMetadata) where
  -- An instance that was launched and has not connected, by the allowed origins of its application.
  abbrev awaits : (List String → Bool) → Option AppInstance → Bool
  awaits test none = false
  awaits test (some pending) =
      not pending.connected && test (origins_of (get_app_metadata pending.app_id))

  abbrev awaited : (List String → Bool) → AppRegistry → Option String → Bool
  awaited test r none = false
  awaited test r (some i) = truthy i && awaits test (get_instance r i)

  abbrev restricted : List String → Bool
  restricted allowed = not (is_empty allowed)

  abbrev greets : Option Wcp1Identity → Bool
  greets none = false
  greets (some wcp1) = true

  abbrev greeted : Handshakes → String → Bool
  greeted h session_id = greets (wcp1_of (get h.wcp_sessions session_id))

  -- The rule: the connection has said hello, and it names itself an external handler or it is the
  -- launched instance that the registry waits for, of an application without allowed origins.
  abbrev pub admits : Handshakes → String → ValidateAppIdentity → Bool
  admits h session_id wcp4 =
      greeted h session_id
      && (is_external wcp4.app_id || awaited is_empty h.app_registry wcp4.instance_uuid)

  -- The validations that raise: those of a launched instance whose application has allowed origins.
  abbrev pub breaks : Handshakes → String → ValidateAppIdentity → Bool
  breaks h session_id wcp4 =
      greeted h session_id
      && (not (is_external wcp4.app_id) && awaited restricted h.app_registry wcp4.instance_uuid)

  after_lem :
      (bridge_enabled : Bool) (h : Handshakes) (session_id : String) (wcp4 : ValidateAppIdentity)
      (v : Validation)
      → (is_dacp
            (after_validation netloc get_app_metadata bridge_enabled h session_id wcp4 v).transition
          ≡ is_valid v)
        × (is_failed
              (after_validation netloc get_app_metadata bridge_enabled h session_id wcp4
                v).transition
            ≡ is_raised v)
  unfolding after_validation accept is_valid is_raised
  after_lem bridge_enabled h session_id wcp4 (valid identity) = (refl, refl)
  after_lem bridge_enabled h session_id wcp4 (invalid error) = (refl, refl)
  after_lem bridge_enabled h session_id wcp4 raised = (refl, refl)

  module _ (no_text : (url : AnyUrl) → netloc url ≡ none) where
    pending_lem :
        (wcp1 : Wcp1Identity) (wcp4 : ValidateAppIdentity) (i : String) (o : Option AppInstance)
        → (is_valid (validate_pending netloc get_app_metadata wcp1 wcp4 i o) ≡ awaits is_empty o)
          × (is_raised (validate_pending netloc get_app_metadata wcp1 wcp4 i o)
              ≡ awaits restricted o)
    unfolding validate_pending parse_origins is_valid is_raised
    pending_lem wcp1 wcp4 i none = (refl, refl)
    pending_lem wcp1 wcp4 i (some pending) =
        (ground (arith, no_text wcp1.identity_url), ground (arith, no_text wcp1.identity_url))

    standard_lem :
        (r : AppRegistry) (wcp1 : Wcp1Identity) (wcp4 : ValidateAppIdentity) (o : Option String)
        → (is_valid (validate_standard netloc get_app_metadata r wcp1 wcp4 o)
            ≡ awaited is_empty r o)
          × (is_raised (validate_standard netloc get_app_metadata r wcp1 wcp4 o)
              ≡ awaited restricted r o)
    unfolding validate_standard is_valid is_raised
    standard_lem r wcp1 wcp4 none = (refl, refl)
    standard_lem r wcp1 wcp4 (some i) =
        let p = pending_lem wcp1 wcp4 i (get_instance r i) in
        (ground (arith, p.0), ground (arith, p.1))

    greeted_lem :
        (r : AppRegistry) (wcp4 : ValidateAppIdentity) (u d : String) (o : Option Wcp1Identity)
        → (is_valid (validate_greeted netloc get_app_metadata r wcp4 u d o)
            ≡ (greets o && (is_external wcp4.app_id || awaited is_empty r wcp4.instance_uuid)))
          × (is_raised (validate_greeted netloc get_app_metadata r wcp4 u d o) ≡ (
              greets o
              && (not (is_external wcp4.app_id) && awaited restricted r wcp4.instance_uuid)))
    unfolding validate_greeted is_valid is_raised
    greeted_lem r wcp4 u d none = (refl, refl)
    greeted_lem r wcp4 u d (some wcp1) =
        let p = standard_lem r wcp1 wcp4 wcp4.instance_uuid in
        (ground (arith, p.0), ground (arith, p.1))

    -- When `urlparse` raises at every URL, since it takes only text and bytes and a URL is an object
    -- of pydantic's: a connection goes on to DACP exactly if it has said hello under its session and
    -- either names itself an external handler, or gives the uuid of an instance that was launched,
    -- is not connected, and whose application has no allowed origins; and the handler raises exactly
    -- if it has said hello, names itself no external handler, and gives the uuid of an instance that
    -- was launched, is not connected, and whose application has allowed origins.
    pub dacp-validate :
        (bridge_enabled : Bool) (h : Handshakes) (session_id u d : String)
        (wcp4 : ValidateAppIdentity)
        → (let transition =
              (handle_message netloc get_app_metadata bridge_enabled h session_id u d
                (validate_app_identity wcp4)).transition in
            (is_dacp transition ≡ admits h session_id wcp4)
            × (is_failed transition ≡ breaks h session_id wcp4))
    unfolding handle_message validate_identity
    dacp-validate bridge_enabled h session_id u d wcp4 =
        let o = wcp1_of (get h.wcp_sessions session_id) in
        let v = validate_greeted netloc get_app_metadata h.app_registry wcp4 u d o in
        let after = after_lem bridge_enabled h session_id wcp4 v in
        let valid_or_raised = greeted_lem h.app_registry wcp4 u d o in
        (after.0 ∙ valid_or_raised.0, after.1 ∙ valid_or_raised.1)
