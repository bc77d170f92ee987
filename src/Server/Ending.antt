-- ===== src/Server/Ending.antt =====
-- server/websocket.py: the end of a connection in a state that a server reaches.
use py_fdc3_desktop_agent.Sessions.{AnyUrl}
use py_fdc3_desktop_agent.Base.{
  String, ◌≡◌, Bool, true, false, Option, none, some, arith, ◌==◌, eq_refl, truthy, opt_eq,
}
use py_fdc3_desktop_agent.Base.Lists.{any, count}
use py_fdc3_desktop_agent.Base.Dict.{get, has, get-remove}
use py_fdc3_desktop_agent.Core.Apps.{get_instance}
use py_fdc3_desktop_agent.Core.Channels.Views.{current, is_private}
use py_fdc3_desktop_agent.Core.Channels.Membership.{get_channel_members}
use py_fdc3_desktop_agent.Core.External.{get_handlers_for_intent}
use py_fdc3_desktop_agent.Core.Listeners.{find_listener}
use py_fdc3_desktop_agent.Core.Listeners.Index.{owner}
use py_fdc3_desktop_agent.Connections.Closing.{remove_connection_lem}
use py_fdc3_desktop_agent.Wcp.{AppMetadata}
use py_fdc3_desktop_agent.Server.{Socket, uuid_of, cleanup, cleanup_instance}
use py_fdc3_desktop_agent.Server.Cleanup.{cleanup_there, cleanup_instance_lem}
use py_fdc3_desktop_agent.Server.Soundness.{instance-IsSound}
use py_fdc3_desktop_agent.Server.History.{World, Reach, Reach-IsSound}

module _ (netloc : AnyUrl → Option String) (get_app_metadata : String → Option AppMetadata)
    (bridge_enabled : Bool) (delivers : String → Bool) where
  -- In every state that a server reaches, when a connection ends whose session has the identifier
  -- of a connected instance: the session is gone, the registry no longer has the instance, it has no
  -- current channel, no channel that is not private has it among its members, it has no connection,
  -- no listener of any kind belongs to it, and no intent has an external handler of it. What private
  -- channels keep of it is not said.
  pub ended-forgotten :
      (x : World) (socket : Socket) (session_id i now key intent c : String)
      → Reach netloc get_app_metadata bridge_enabled delivers x
      → socket.session_id ≡ some session_id
      → uuid_of (get x.server.wcp_sessions session_id) ≡ some i
      → truthy i ≡ true
      → has x.server.connections.connections i ≡ true
      → (let out = (cleanup delivers x.server socket now).0 in
          (get out.wcp_sessions session_id ≡ none)
          × (get_instance out.agent.app_registry i ≡ none)
          × (current out.agent.channel_manager i ≡ none)
          × (is_private out.agent.channel_manager c ≡ false
              → count i (get_channel_members out.agent.channel_manager c) ≡ 0)
          × (get out.connections.connections i ≡ none)
          × (opt_eq (owner x.server.agent.listener_store key) i ≡ true
              → find_listener out.agent.listener_store key ≡ none)
          × (any
                (λ h. h.instance_uuid == i)
                (get_handlers_for_intent out.connections.external_registry intent)
              ≡ false))
  unfolding cleanup_instance
  ended-forgotten x socket session_id i now key intent c r e f t has_connection =
      let v = Reach-IsSound netloc get_app_metadata bridge_enabled delivers r in
      let after = instance-IsSound delivers x.server socket.websocket i now v in
      let gone = cleanup_instance_lem delivers x.server socket.websocket i now v.indexed t in
      rw (cleanup_there delivers x.server socket session_id i now e f t) (
        ground (arith, get-remove x.server.wcp_sessions session_id session_id, eq_refl session_id),
        ground (arith, (gone i).0, eq_refl i),
        ground (arith, (gone i).2, eq_refl i),
        (λ h. ground (arith, after.consistent.membership i c h, (gone i).2, eq_refl i)),
        ground (arith, (gone i).3, eq_refl i),
        (λ o. ground (arith, (gone key).1, o)),
        (remove_connection_lem x.server.connections i intent v.filed has_connection).1,
      )
