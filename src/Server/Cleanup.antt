-- ===== src/Server/Cleanup.antt =====
-- server/websocket.py: what is left of an instance after its connection has ended.
use py_fdc3_desktop_agent.Base.{
  String, ◌≡◌, refl, Bool, true, Option, none, some, arith, ◌==◌, eq_iff, if◌then◌else◌, truthy,
  opt_eq, is_some,
}
use py_fdc3_desktop_agent.Base.Dict.{get, has, get-remove}
use py_fdc3_desktop_agent.Core.Apps.{get_instance, unregister_instance}
use py_fdc3_desktop_agent.Core.Listeners.{find_listener}
use py_fdc3_desktop_agent.Core.Listeners.Index.{owner, IsIndexed}
use py_fdc3_desktop_agent.Core.Listeners.Removal.{find-remove_instance}
use py_fdc3_desktop_agent.Core.Channels.Views.{current, current-leave}
use py_fdc3_desktop_agent.Connections.Instances.{remove_connection}
use py_fdc3_desktop_agent.Sessions.{WcpSession, WcpSessions}
use py_fdc3_desktop_agent.Server.{
  Server, Socket, uuid_of, cleanup_instance, cleanup, forget_session,
}

module _ (delivers : String → Bool) (s : Server) (websocket i now : String) where
  abbrev pub after : Server
  unfolding cleanup_instance
  after = (cleanup_instance delivers s websocket i now).0

  -- When the connection of an instance is cleaned up, in a server whose listeners are indexed, the
  -- registry no longer has the instance, no listener of any kind belongs to it, it has no current
  -- channel and no connection; and every other instance is as it was in the registry, with its
  -- current channel, its connection and its listeners.
  pub cleanup_instance_lem :
      IsIndexed s.agent.listener_store
      → truthy i ≡ true
      → (k : String)
      → (get_instance after.agent.app_registry k
          ≡ (if i == k then none else get_instance s.agent.app_registry k))
        × (find_listener after.agent.listener_store k ≡ (
            if opt_eq (owner s.agent.listener_store k) i
            then none
            else find_listener s.agent.listener_store k))
        × (current after.agent.channel_manager k
            ≡ (if i == k then none else current s.agent.channel_manager k))
        × (get after.connections.connections k
            ≡ (if i == k then none else get s.connections.connections k))
  unfolding cleanup_instance
  cleanup_instance_lem v t k = (
    unfold get_instance unregister_instance has in
        ground (arith, get-remove s.agent.app_registry.instances i k, eq_iff i k),
    find-remove_instance s.agent.listener_store i k v t,
    current-leave s.agent.channel_manager i now k k,
    unfold remove_connection has in
        ground (arith, get-remove s.connections.connections i k, eq_iff i k),
  )

is_some-uuid : (o : Option WcpSession) (i : String) → uuid_of o ≡ some i → is_some o ≡ true
is_some-uuid none i e = cc
is_some-uuid (some session) i e = refl

has-uuid :
    (sessions : WcpSessions) (session_id i : String)
    → uuid_of (get sessions session_id) ≡ some i
    → has sessions session_id ≡ true
unfolding has
has-uuid sessions session_id i e = is_some-uuid (get sessions session_id) i e

-- What `cleanup` does at a session that is there.
pub cleanup_there :
    (delivers : String → Bool) (s : Server) (socket : Socket) (session_id i now : String)
    → socket.session_id ≡ some session_id
    → uuid_of (get s.wcp_sessions session_id) ≡ some i
    → truthy i ≡ true
    → cleanup delivers s socket now
      ≡ forget_session delivers (cleanup_instance delivers s socket.websocket i now) session_id
unfolding cleanup
cleanup_there delivers s socket session_id i now e f t =
    rw (e, has-uuid s.wcp_sessions session_id i f, f, t, cleanup) refl
