-- ===== src/Dacp/Channels/Bridged.antt =====
-- handlers/dacp/channel.py: what the disconnect of a private channel sends over the bridge.
use py_fdc3_desktop_agent.Base.{
  String, ◌≡◌, refl, Option, none, some, List, [], ◌∷◌, ◌++◌, map, arith, eq_refl, ℕ, ◌+◌,
}
use py_fdc3_desktop_agent.Base.Dict.{get-remove}
use py_fdc3_desktop_agent.Core.Channels.State.{ChannelInstance, ChannelManager, Effect}
use py_fdc3_desktop_agent.Core.Channels.Membership.{get_channel}
use py_fdc3_desktop_agent.Core.Channels.Private.{private_of, destroy_private_channel}
use py_fdc3_desktop_agent.Core.Channels.Remote.{get_remote_private_channel_listeners}
use py_fdc3_desktop_agent.Core.Listeners.{get_event_listeners, EventListener}
use py_fdc3_desktop_agent.Dacp.Agent.{
  Details, broadcast_event, bridge_broadcast, initiated_by, Agent, nothing, Message, told, response,
  user_channel_changed, private_channel_event, bridge_event, bridge_listener_update, tell, Call,
  caller, answer,
}
use py_fdc3_desktop_agent.Dacp.Events.{emit_private_channel_event, bridge_private_channel_event}
use py_fdc3_desktop_agent.Dacp.PrivateChannels.{handle_private_channel_disconnect}
use py_fdc3_desktop_agent.Dacp.Channels.Cases.{with_channel-cases, with_access-cases}

abbrev pub bridged_events : List Message → ℕ
bridged_events [] = 0
bridged_events (bridge_event g c e d s ∷ rest) = bridged_events rest + 1
bridged_events (m ∷ rest) = bridged_events rest

bridged-append :
    (xs ys : List Message) → bridged_events (xs ++ ys) ≡ bridged_events xs + bridged_events ys
bridged-append [] ys = ground arith
bridged-append (told e ∷ xs) ys = bridged-append xs ys
bridged-append (response t u p ∷ xs) ys = bridged-append xs ys
bridged-append (user_channel_changed i c ∷ xs) ys = bridged-append xs ys
bridged-append (broadcast_event i x ∷ xs) ys = bridged-append xs ys
bridged-append (bridge_broadcast x c s ∷ xs) ys = bridged-append xs ys
bridged-append (private_channel_event i c e d ∷ xs) ys = bridged-append xs ys
bridged-append (bridge_event g c e d s ∷ xs) ys = ground (arith, bridged-append xs ys)
bridged-append (bridge_listener_update c e s b ∷ xs) ys = bridged-append xs ys

bridged-tell : (es : List Effect) → bridged_events (tell es) ≡ 0
bridged-tell [] = refl
bridged-tell (e ∷ es) = bridged-tell es

bridged-events :
    (ls : List EventListener) (c t : String) (i : Details)
    → bridged_events (map (λ l. private_channel_event l.instance_uuid c t i) ls) ≡ 0
bridged-events [] c t i = refl
bridged-events (l ∷ ls) c t i = bridged-events ls c t i

-- A channel that was destroyed has no remote listeners.
remote-destroy :
    (m : ChannelManager) (c now : String) (ch : ChannelInstance)
    → get_channel m c ≡ some ch
    → get_remote_private_channel_listeners (destroy_private_channel m c now).0 c ≡ []
unfolding get_channel destroy_private_channel get_remote_private_channel_listeners
remote-destroy m c now ch e =
    ground (arith, e, get-remove m.remote_private_channel_listeners c c, eq_refl c)

there : (o : Option ChannelInstance) (ch : ChannelInstance) → private_of o ≡ some ch → o ≡ some ch
there none ch h = cc
there (some ch') ch h = ground (arith, h)

bridged-bridged :
    (a : Agent) (c t : String) (i : Details)
    → get_remote_private_channel_listeners a.channel_manager c ≡ []
    → bridged_events (bridge_private_channel_event a c t i) ≡ 0
unfolding bridge_private_channel_event
bridged-bridged a c t i h = rw h (ground arith)

bridged-emit :
    (a : Agent) (c t : String) (i : Details)
    → get_remote_private_channel_listeners a.channel_manager c ≡ []
    → bridged_events (emit_private_channel_event a c t i) ≡ 0
unfolding emit_private_channel_event
bridged-emit a c t i h = ground (
  arith,
  bridged-append
      (map (λ l. private_channel_event l.instance_uuid c t i)
        (get_event_listeners a.listener_store t none (some c)))
      (bridge_private_channel_event a c t i),
  bridged-events (get_event_listeners a.listener_store t none (some c)) c t i,
  bridged-bridged a c t i h,
)

-- No other desktop agent is told that a private channel is disconnected: when the event is sent, the
-- channel's remote listeners are gone with the channel.
pub bridged-disconnect :
    (a : Agent) (k : Call) (c : String)
    → bridged_events (handle_private_channel_disconnect a k c).1 ≡ 0
unfolding handle_private_channel_disconnect
bridged-disconnect a k c =
    with_channel-cases (λ out. bridged_events out.1 ≡ 0) _ _ _ _ refl
      (λ ch e.
        with_access-cases (λ out. bridged_events out.1 ≡ 0) _ _ _ _ refl
          (λ f. ground (
            arith,
            bridged-append (tell (destroy_private_channel a.channel_manager c k.now).1) (
                emit_private_channel_event
                  (record a {
                    channel_manager = (destroy_private_channel a.channel_manager c k.now).0;
                  })
                  c "onDisconnect" (initiated_by (caller k))
                ++ answer k "privateChannelDisconnectResponse" nothing),
            bridged-tell (destroy_private_channel a.channel_manager c k.now).1,
            bridged-append
                (emit_private_channel_event
                  (record a {
                    channel_manager = (destroy_private_channel a.channel_manager c k.now).0;
                  })
                  c "onDisconnect" (initiated_by (caller k)))
                (answer k "privateChannelDisconnectResponse" nothing),
            bridged-emit
                (record a {
                  channel_manager = (destroy_private_channel a.channel_manager c k.now).0;
                })
                c "onDisconnect" (initiated_by (caller k))
                (remote-destroy a.channel_manager c k.now ch
                  (there (get_channel a.channel_manager c) ch e)),
          )))
