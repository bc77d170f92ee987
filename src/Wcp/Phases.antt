-- ===== src/Wcp/Phases.antt =====
-- handlers/wcp.py: the phases of a session, as the protocol has them, and the handler beside them.
use py_fdc3_desktop_agent.Base.{
  String, ◌≡◌, refl, Bool, false, Option, none, some, arith, ◌==◌, eq_refl, if◌then◌else◌,
}
use py_fdc3_desktop_agent.Base.Dict.{get, has, get-put, get-remove, put}
use py_fdc3_desktop_agent.Sessions.{AnyUrl, WcpIdentity, Wcp1Identity, WcpSession, WcpSessions}
use py_fdc3_desktop_agent.Wcp.Handshake.{is_dacp}
use py_fdc3_desktop_agent.Wcp.{
  ValidateAppIdentity, AppMetadata, Incoming, hello, validate_app_identity,
  invalid_validate_app_identity, goodbye, another, Validation, valid, invalid, raised, Transition,
  stay, dacp, disconnected, failed, Handshakes, Answer, wcp1_of, session_or_new,
}
use py_fdc3_desktop_agent.Wcp.Handling.{
  handle_wcp1_hello, identify, accept, after_validation, handle_wcp6_goodbye, validate_greeted,
  validate_identity, handle_message,
}

-- Where a session stands: there is none; the connection has said hello; it has been identified.
pub data Phase : Type 0 where
  absent : Phase
  greeted : Phase
  identified : Phase

abbrev phase_with : Option WcpIdentity → Phase
phase_with none = greeted
phase_with (some identity) = identified

abbrev pub phase_of : Option WcpSession → Phase
phase_of none = absent
phase_of (some session) = phase_with session.identity

abbrev pub phase : Handshakes → String → Phase
phase h session_id = phase_of (get h.wcp_sessions session_id)

-- The protocol: what a message may make of a session, and what the connection is told to do.
pub data Move : Phase → Transition → Phase → Type 0 where
  greet : (p : Phase) → Move p stay greeted
  identify_greeted : Move greeted dacp identified
  identify_again : Move identified dacp identified
  remain : (p : Phase) → Move p stay p
  part : (p : Phase) → Move p disconnected absent
  fail : (p : Phase) → Move p failed p

module _ (netloc : AnyUrl → Option String) (get_app_metadata : String → Option AppMetadata)
    (bridge_enabled : Bool) where
  abbrev pub Refines : Handshakes → String → Answer → Type 0
  Refines h session_id out =
      Move (phase h session_id) out.transition (phase out.handshakes session_id)

  abbrev Elsewhere : Handshakes → String → Answer → Type 0
  Elsewhere h session_id out =
      (other : String)
      → get out.handshakes.wcp_sessions other ≡ (
          if session_id == other
          then get out.handshakes.wcp_sessions session_id
          else get h.wcp_sessions other)

  -- The entry of a session after an assignment to it.
  assigned :
      (sessions : WcpSessions) (session_id : String) (session : WcpSession)
      → get (put sessions session_id session) session_id ≡ some session
  assigned sessions session_id session =
      ground (arith, get-put sessions session_id session_id session, eq_refl session_id)

  hello-Refines :
      (h : Handshakes) (session_id : String) (attempt : Option String) (o : Option Wcp1Identity)
      → Refines h session_id (handle_wcp1_hello netloc get_app_metadata h session_id attempt o)
  unfolding handle_wcp1_hello
  hello-Refines h session_id attempt none = remain _
  hello-Refines h session_id attempt (some wcp1) =
      rw
        (assigned h.wcp_sessions session_id
          (record { identity = none; wcp1_identity = some wcp1; state = some "handshake" }))
        (greet (phase h session_id))

  entered : (o : Option WcpIdentity) → Move (phase_with o) dacp identified
  entered none = identify_greeted
  entered (some identity) = identify_again

  entered-wcp1 :
      (o : Option WcpSession) (wcp1 : Wcp1Identity)
      → wcp1_of o ≡ some wcp1
      → Move (phase_of o) dacp identified
  entered-wcp1 none wcp1 e = cc
  entered-wcp1 (some session) wcp1 e = entered session.identity

  outcome-Refines :
      (h : Handshakes) (session_id : String) (wcp4 : ValidateAppIdentity) (wcp1 : Wcp1Identity)
      (v : Validation)
      → wcp1_of (get h.wcp_sessions session_id) ≡ some wcp1
      → Refines h session_id
          (after_validation netloc get_app_metadata bridge_enabled h session_id wcp4 v)
  unfolding after_validation accept identify
  outcome-Refines h session_id wcp4 wcp1 (valid identity) e =
      rw
        (assigned h.wcp_sessions session_id
          (record (session_or_new (get h.wcp_sessions session_id)) { identity = some identity }))
        (entered-wcp1 (get h.wcp_sessions session_id) wcp1 e)
  outcome-Refines h session_id wcp4 wcp1 (invalid error) e = remain _
  outcome-Refines h session_id wcp4 wcp1 raised e = fail _

  validated-Refines :
      (h : Handshakes) (session_id : String) (wcp4 : ValidateAppIdentity) (u d : String)
      (o : Option Wcp1Identity)
      → wcp1_of (get h.wcp_sessions session_id) ≡ o
      → Refines h session_id (
          after_validation netloc get_app_metadata bridge_enabled h session_id wcp4
            (validate_greeted netloc get_app_metadata h.app_registry wcp4 u d o))
  unfolding after_validation
  validated-Refines h session_id wcp4 u d none e =
      unfold validate_greeted in remain (phase h session_id)
  validated-Refines h session_id wcp4 u d (some wcp1) e =
      outcome-Refines h session_id wcp4 wcp1
        (validate_greeted netloc get_app_metadata h.app_registry wcp4 u d (some wcp1)) e

  parted :
      (h : Handshakes) (session_id : String)
      → get (handle_wcp6_goodbye netloc get_app_metadata h session_id).wcp_sessions session_id
        ≡ none
  unfolding handle_wcp6_goodbye has
  parted h session_id =
      ground (arith, get-remove h.wcp_sessions session_id session_id, eq_refl session_id)

  -- Whatever message comes, the handler moves the session as the protocol allows: a session is
  -- identified, and the connection told to go on to DACP, only from a session that has said hello.
  pub Refines-handle_message :
      (h : Handshakes) (session_id u d : String) (message : Incoming)
      → Refines h session_id
          (handle_message netloc get_app_metadata bridge_enabled h session_id u d message)
  unfolding handle_message
  Refines-handle_message h session_id u d (hello attempt wcp1) =
      hello-Refines h session_id attempt wcp1
  Refines-handle_message h session_id u d (validate_app_identity wcp4) =
      unfold validate_identity in validated-Refines h session_id wcp4 u d _ refl
  Refines-handle_message h session_id u d (invalid_validate_app_identity attempt) = remain _
  Refines-handle_message h session_id u d goodbye =
      rw (parted h session_id) (part (phase h session_id))
  Refines-handle_message h session_id u d another = remain _

  abbrev pub KeptElsewhere : Handshakes → String → Answer → String → Type 0
  KeptElsewhere h session_id out other =
      (session_id == other ≡ false
        → get out.handshakes.wcp_sessions other ≡ get h.wcp_sessions other)
      × (is_dacp out.transition ≡ false → out.handshakes.app_registry ≡ h.app_registry)

  hello-elsewhere :
      (h : Handshakes) (session_id other : String) (attempt : Option String)
      (o : Option Wcp1Identity)
      → KeptElsewhere h session_id
          (handle_wcp1_hello netloc get_app_metadata h session_id attempt o)
          other
  unfolding handle_wcp1_hello
  hello-elsewhere h session_id other attempt none = ((λ e. refl), (λ e. refl))
  hello-elsewhere h session_id other attempt (some wcp1) = (
    (λ e. ground (
      arith,
      get-put h.wcp_sessions session_id other
          (record { identity = none; wcp1_identity = some wcp1; state = some "handshake" }),
      e,
    )),
    (λ e. refl),
  )

  validated-elsewhere :
      (h : Handshakes) (session_id other : String) (wcp4 : ValidateAppIdentity) (v : Validation)
      → KeptElsewhere h session_id
          (after_validation netloc get_app_metadata bridge_enabled h session_id wcp4 v)
          other
  unfolding after_validation accept identify
  validated-elsewhere h session_id other wcp4 (valid identity) = (
    (λ e. ground (
      arith,
      get-put h.wcp_sessions session_id other
          (record (session_or_new (get h.wcp_sessions session_id)) { identity = some identity }),
      e,
    )),
    (λ e. cc),
  )
  validated-elsewhere h session_id other wcp4 (invalid error) = ((λ e. refl), (λ e. refl))
  validated-elsewhere h session_id other wcp4 raised = ((λ e. refl), (λ e. refl))

  -- A message changes no other session than the one that it is handled for, and it changes the
  -- registry of instances only if the connection is told to go on to DACP.
  pub elsewhere-handle_message :
      (h : Handshakes) (session_id other u d : String) (message : Incoming)
      → KeptElsewhere h session_id
          (handle_message netloc get_app_metadata bridge_enabled h session_id u d message)
          other
  unfolding handle_message handle_wcp6_goodbye
  elsewhere-handle_message h session_id other u d (hello attempt wcp1) =
      hello-elsewhere h session_id other attempt wcp1
  elsewhere-handle_message h session_id other u d (validate_app_identity wcp4) =
      validated-elsewhere h session_id other wcp4 _
  elsewhere-handle_message h session_id other u d (invalid_validate_app_identity attempt) =
      ((λ e. refl), (λ e. refl))
  elsewhere-handle_message h session_id other u d goodbye = (
    (λ e. unfold has in ground (arith, get-remove h.wcp_sessions session_id other, e)),
    (λ e. refl),
  )
  elsewhere-handle_message h session_id other u d another = ((λ e. refl), (λ e. refl))
