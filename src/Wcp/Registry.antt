-- ===== src/Wcp/Registry.antt =====
-- handlers/wcp.py: the handshake and the registry of instances.
use py_fdc3_desktop_agent.Base.{text_or, String, Bool, Option, none, some}
use py_fdc3_desktop_agent.Sessions.{AnyUrl, Wcp1Identity}
use py_fdc3_desktop_agent.Core.Apps.Connection.{IsTracked, register-IsTracked}
use py_fdc3_desktop_agent.Wcp.{
  ValidateAppIdentity, AppMetadata, Incoming, hello, validate_app_identity,
  invalid_validate_app_identity, goodbye, another, Validation, valid, invalid, raised, Handshakes,
  Answer,
}
use py_fdc3_desktop_agent.Wcp.Handling.{
  handle_wcp1_hello, accept, after_validation, handle_wcp6_goodbye, validate_identity,
  handle_message,
}

module _ (netloc : AnyUrl → Option String) (get_app_metadata : String → Option AppMetadata)
    (bridge_enabled : Bool) (h : Handshakes) (session_id : String)
    (v : IsTracked h.app_registry) where
  Tracks : Answer → Type 0
  Tracks out = IsTracked out.handshakes.app_registry

  hello-IsTracked :
      (attempt : Option String) (o : Option Wcp1Identity)
      → Tracks (handle_wcp1_hello netloc get_app_metadata h session_id attempt o)
  unfolding handle_wcp1_hello Tracks
  hello-IsTracked attempt none = v
  hello-IsTracked attempt (some wcp1) = v

  validated-IsTracked :
      (wcp4 : ValidateAppIdentity) (o : Validation)
      → Tracks (after_validation netloc get_app_metadata bridge_enabled h session_id wcp4 o)
  unfolding after_validation accept Tracks
  validated-IsTracked wcp4 (valid identity) =
      register-IsTracked h.app_registry (text_or identity.app_id "unknown")
        (text_or identity.instance_id "") (text_or identity.instance_uuid "") v
  validated-IsTracked wcp4 (invalid error) = v
  validated-IsTracked wcp4 raised = v

  -- Whatever message is handled, the events of the registry stay right.
  pub handle_message-IsTracked :
      (u d : String) (message : Incoming)
      → IsTracked
          (handle_message netloc get_app_metadata bridge_enabled h session_id u d
            message).handshakes.app_registry
  unfolding handle_message handle_wcp6_goodbye Tracks
  handle_message-IsTracked u d (hello attempt wcp1) = hello-IsTracked attempt wcp1
  handle_message-IsTracked u d (validate_app_identity wcp4) =
      validated-IsTracked wcp4 (validate_identity netloc get_app_metadata h session_id wcp4 u d)
  handle_message-IsTracked u d (invalid_validate_app_identity attempt) = v
  handle_message-IsTracked u d goodbye = v
  handle_message-IsTracked u d another = v
