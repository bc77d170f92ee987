-- ===== src/Server/Arrival.antt =====
-- server/websocket.py and handlers/wcp.py: a connection that is accepted, and connections that give
-- the session or the instance of another.
use py_fdc3_desktop_agent.Base.{
  text_or, String, ◌≡◌, refl, ◌∙◌, ap, Bool, true, false, Option, none, some, [], arith, eq_refl,
  truthy,
}
use py_fdc3_desktop_agent.Base.Dict.{get, has, get-put}
use py_fdc3_desktop_agent.Sessions.{AnyUrl, WcpIdentity, Wcp1Identity}
use py_fdc3_desktop_agent.Core.Apps.{AppInstance, connect, get_instance}
use py_fdc3_desktop_agent.Core.Apps.Connection.{register_instance_lem}
use py_fdc3_desktop_agent.Connections.Instances.{add_connection}
use py_fdc3_desktop_agent.Wcp.{
  ValidateAppIdentity, AppMetadata, hello, validate_app_identity, valid, Handshakes, is_external,
  wcp1_of, identity_of, session_or_new, dacp,
}
use py_fdc3_desktop_agent.Wcp.Handling.{
  handle_message, handle_wcp1_hello, validate_identity, validate_greeted, after_validation, accept,
  identify,
}
use py_fdc3_desktop_agent.Server.{
  Server, Socket, Reads, wcp_message, uuid_of, register_instance_connection, maybe_set_session_id,
  cleanup,
}
use py_fdc3_desktop_agent.Server.Turns.{turn, wcp_turn, after_answer}

module _ (netloc : AnyUrl → Option String) (get_app_metadata : String → Option AppMetadata)
    (bridge_enabled : Bool) (delivers : String → Bool) (s : Server) (w : Reads)
    (websocket session_id : String) where
  -- A connection that has said hello, and has not gone on to DACP.
  abbrev pub waiting : Socket
  waiting = record { websocket = websocket; session_id = some session_id; dacp_active = false }

  abbrev pub handshakes : Handshakes
  handshakes = record { app_registry = s.agent.app_registry; wcp_sessions = s.wcp_sessions }

  -- The server after the connection's validation.
  abbrev pub validated : ValidateAppIdentity → Server
  unfolding turn
  validated wcp4 =
      (turn netloc get_app_metadata bridge_enabled delivers s waiting w
        (wcp_message (validate_app_identity wcp4))).server

  -- The server that an accepted validation leaves.
  accepted :
      (wcp4 : ValidateAppIdentity) (identity : WcpIdentity)
      → validate_identity netloc get_app_metadata handshakes session_id wcp4 w.fresh_uuid w.fresh_id
        ≡ valid identity
      → validated wcp4
        ≡ (after_answer netloc get_app_metadata bridge_enabled s waiting
            (accept netloc get_app_metadata bridge_enabled handshakes session_id wcp4 identity)
            dacp).server
  unfolding turn wcp_turn handle_message after_validation accept maybe_set_session_id
  accepted wcp4 identity e =
      ap
        (λ v.
          let answer =
            after_validation netloc get_app_metadata bridge_enabled handshakes session_id wcp4 v in
          (after_answer netloc get_app_metadata bridge_enabled s waiting answer
            answer.transition).server)
        e

  identified_as :
      (identity : WcpIdentity) (i : String)
      → identity.instance_uuid ≡ some i
      → uuid_of
          (get (identify netloc get_app_metadata s.wcp_sessions session_id identity) session_id)
        ≡ some i
  unfolding identify
  identified_as identity i f = ground (
    arith,
    f,
    get-put s.wcp_sessions session_id session_id
        (record (session_or_new (get s.wcp_sessions session_id)) { identity = some identity }),
    eq_refl session_id,
  )

  -- When the validation of a connection is accepted under an identifier that is not empty, the
  -- session has that identifier, messages to it go to this connection, and the registry has it as a
  -- connected instance: the one that was launched, or a new one of the application that the
  -- identity names.
  pub turn-accepted :
      (wcp4 : ValidateAppIdentity) (identity : WcpIdentity) (i : String)
      → validate_identity netloc get_app_metadata handshakes session_id wcp4 w.fresh_uuid w.fresh_id
        ≡ valid identity
      → identity.instance_uuid ≡ some i
      → truthy i ≡ true
      → (uuid_of (get (validated wcp4).wcp_sessions session_id) ≡ some i)
        × ((validated wcp4).connections ≡ add_connection s.connections i websocket)
        × (get_instance (validated wcp4).agent.app_registry i
            ≡ some (elim (get_instance s.agent.app_registry i) [
              | some a ↦ connect a
              | none ↦ record {
                app_id = text_or identity.app_id "unknown";
                instance_id = text_or identity.instance_id "";
                instance_uuid = i;
                connected = true;
              }
            ]))
  unfolding after_answer accept register_instance_connection
  turn-accepted wcp4 identity i e f t = rw (accepted wcp4 identity e) (
    identified_as identity i f,
    rw (identified_as identity i f, t) refl,
    rw (f, t)
        (ground (
          arith,
          eq_refl i,
          register_instance_lem s.agent.app_registry (text_or identity.app_id "unknown")
              (text_or identity.instance_id "") i i,
        )),
  )

  external_valid :
      (wcp4 : ValidateAppIdentity) (wcp1 : Wcp1Identity) (i : String)
      → wcp1_of (get s.wcp_sessions session_id) ≡ some wcp1
      → is_external wcp4.app_id ≡ true
      → wcp4.instance_uuid ≡ some i
      → truthy i ≡ true
      → validate_identity netloc get_app_metadata handshakes session_id wcp4 w.fresh_uuid w.fresh_id
        ≡ valid (identity_of wcp4.app_id (text_or wcp4.instance_id w.fresh_id) i)
  unfolding validate_identity validate_greeted
  external_valid wcp4 wcp1 i g x f t = rw (g, x, f, t) refl

  -- A connection that has said hello takes over any connected instance whose identifier it gives,
  -- by naming itself an external handler: messages to the instance go to the new connection, while
  -- the registry keeps the instance under the application that it had.
  pub taken_over :
      (wcp4 : ValidateAppIdentity) (wcp1 : Wcp1Identity) (i : String) (a : AppInstance)
      → wcp1_of (get s.wcp_sessions session_id) ≡ some wcp1
      → is_external wcp4.app_id ≡ true
      → wcp4.instance_uuid ≡ some i
      → truthy i ≡ true
      → get_instance s.agent.app_registry i ≡ some a
      → a.connected ≡ true
      → ((validated wcp4).connections ≡ add_connection s.connections i websocket)
        × (get_instance (validated wcp4).agent.app_registry i ≡ some (connect a))
  taken_over wcp4 wcp1 i a g x f t e c =
      let identity = identity_of wcp4.app_id (text_or wcp4.instance_id w.fresh_id) i in
      let out = turn-accepted wcp4 identity i (external_valid wcp4 wcp1 i g x f t) refl t in
      (out.1, out.2 ∙ rw (e) refl)

  -- The server after a well-formed hello of another connection, whose `connectionAttemptUuid` is
  -- the session of this one.
  abbrev pub greeted_over : String → Wcp1Identity → Server
  unfolding turn
  greeted_over other wcp1 =
      (turn netloc get_app_metadata bridge_enabled delivers s
        (record { websocket = other; session_id = none; dacp_active = false }) w
        (wcp_message (hello (some session_id) (some wcp1)))).server

  -- After another connection has said hello with the session of this one, the end of this one
  -- changes none of the services and closes nothing for its instance: no instance is unregistered,
  -- no listener removed, no channel left, no connection removed.
  pub lost-cleanup :
      (other : String) (wcp1 : Wcp1Identity) (is_active : Bool) (now : String)
      → (let socket : Socket = record {
        websocket = websocket;
        session_id = some session_id;
        dacp_active = is_active;
      } in
          let out = cleanup delivers (greeted_over other wcp1) socket now in
          (out.0.agent ≡ s.agent)
          × (out.0.connections ≡ s.connections)
          × (out.0.clients ≡ s.clients)
          × (out.1 ≡ []))
  unfolding turn wcp_turn handle_message handle_wcp1_hello after_answer maybe_set_session_id cleanup
      has
  lost-cleanup other wcp1 is_active now =
      rw
        (
          get-put s.wcp_sessions session_id session_id
              (record { identity = none; wcp1_identity = some wcp1; state = some "handshake" }),
          eq_refl session_id,
        )
        (refl, refl, refl, refl)
