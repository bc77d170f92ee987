-- ===== src/Dacp/PrivateChannels.antt =====
-- handlers/dacp/channel.py: the handlers for private channels.
use py_fdc3_desktop_agent.Base.{
  String, Bool, true, false, ◌||◌, Option, none, some, List, [], ◌++◌, if◌then◌else◌, truthy,
  opt_eq,
}
use py_fdc3_desktop_agent.Base.Lists.{contains}
use py_fdc3_desktop_agent.Core.Channels.State.{
  ChannelInstance, ChannelManager, DisplayMetadata, Effect,
}
use py_fdc3_desktop_agent.Core.Channels.Membership.{
  get_channel, get_current_channel, join_channel, leave_current_channel,
}
use py_fdc3_desktop_agent.Core.Channels.Private.{
  private_of, create_private_channel, create_private_channel_invite, consume_private_channel_invite,
  get_private_channel_owner, destroy_private_channel,
}
use py_fdc3_desktop_agent.Core.Listeners.{add_event_listener}
use py_fdc3_desktop_agent.Sessions.{WcpIdentity}
use py_fdc3_desktop_agent.Dacp.Agent.{
  Agent, get_session_identity, wire_channel, initiated_by, channel, invitation_token, listener_uuid,
  nothing, AppIdentifier, Message, tell, Call, caller, answer, refuse,
}
use py_fdc3_desktop_agent.Dacp.Events.{
  emit_private_channel_event, bridge_private_channel_listener_update,
}
use py_fdc3_desktop_agent.Dacp.Guards.{with_channel, with_access, is_on}

-- `instance_uuid != owner`, negated
abbrev pub owns : ChannelManager → String → String → Bool
owns m channel_id i = opt_eq (get_private_channel_owner m channel_id) i

-- Whether the caller may join: the owner, or who shows a token that is accepted; and the manager
-- after the token is consumed.
unfoldable pub admit : ChannelManager → String → Option String → String → ChannelManager × Bool
admit m channel_id token i = if owns m channel_id i then (m, true) else elim token [
  | none ↦ (m, false)
  | some t ↦ if truthy t then consume_private_channel_invite m channel_id t i else (m, false)
]

unfoldable pub handle_join_private_channel :
    Agent → Call → String → Option String → Agent × List Message
handle_join_private_channel a k channel_id token =
    with_channel a (refuse k "joinPrivateChannelResponse" "NoChannelFound")
      (private_of (get_channel a.channel_manager channel_id))
      (λ ch.
        let (m, admitted) = admit a.channel_manager channel_id token (caller k) in
        let (m', joined) = join_channel m (caller k) channel_id k.now k.later in
        with_access (record a { channel_manager = m })
          (refuse k "joinPrivateChannelResponse" "AccessDenied") admitted
          (
            record a { channel_manager = m' },
            tell joined ++ answer k "joinPrivateChannelResponse" (channel (some (wire_channel ch))),
          ))

unfoldable pub handle_leave_private_channel : Agent → Call → String → Agent × List Message
handle_leave_private_channel a k channel_id =
    with_channel a (refuse k "leavePrivateChannelResponse" "NoChannelFound")
      (private_of (get_channel a.channel_manager channel_id))
      (λ ch.
        let (m, left) = leave_current_channel a.channel_manager (caller k) k.now in
        with_access a (refuse k "leavePrivateChannelResponse" "AccessDenied")
          (is_on (get_current_channel a.channel_manager (caller k)) channel_id)
          (
            record a { channel_manager = m },
            tell left ++ answer k "leavePrivateChannelResponse" nothing,
          ))

-- The outcome of `create_private_channel`, where a `ValueError` is an error for the sender.
abbrev pub created_private :
    Agent → Call → Option (ChannelManager × ChannelInstance × List Effect) → Agent × List Message
created_private a k none = (a, refuse k "createPrivateChannelResponse" "CreationFailed")
created_private a k (some (m, ch, effects)) = (
  record a { channel_manager = m },
  tell effects ++ answer k "createPrivateChannelResponse" (channel (some (wire_channel ch))),
)

unfoldable pub handle_create_private_channel :
    Agent → Call → Option DisplayMetadata → Agent × List Message
handle_create_private_channel a k metadata =
    created_private a k
      (create_private_channel a.channel_manager (caller k) none metadata k.fresh_uuid k.now)

-- The outcome of `create_private_channel_invite`: a `ValueError` would leave the handler, with no
-- response.
abbrev pub created_invite : Agent → Call → Option (ChannelManager × String) → Agent × List Message
created_invite a k none = (a, [])
created_invite a k (some (m, token)) = (
  record a { channel_manager = m },
  answer k "createPrivateChannelInvitationResponse" (invitation_token token),
)

unfoldable pub handle_create_private_channel_invitation :
    Agent → Call → String → Option String → Agent × List Message
handle_create_private_channel_invitation a k channel_id instance_id =
    with_channel a (refuse k "createPrivateChannelInvitationResponse" "NoChannelFound")
      (private_of (get_channel a.channel_manager channel_id))
      (λ ch.
        with_access a (refuse k "createPrivateChannelInvitationResponse" "AccessDenied")
          (owns a.channel_manager channel_id (caller k))
          (created_invite a k
            (create_private_channel_invite a.channel_manager channel_id instance_id k.fresh_uuid)))

unfoldable pub handle_private_channel_disconnect : Agent → Call → String → Agent × List Message
handle_private_channel_disconnect a k channel_id =
    with_channel a (refuse k "privateChannelDisconnectResponse" "NoChannelFound")
      (private_of (get_channel a.channel_manager channel_id))
      (λ ch.
        let (m, effects) = destroy_private_channel a.channel_manager channel_id k.now in
        let a' : Agent = record a { channel_manager = m } in
        with_access a (refuse k "privateChannelDisconnectResponse" "AccessDenied")
          (owns a.channel_manager channel_id (caller k) || contains (caller k) ch.members)
          (
            a',
            tell effects
                ++ (emit_private_channel_event a' channel_id "onDisconnect"
                      (initiated_by (caller k))
                    ++ answer k "privateChannelDisconnectResponse" nothing),
          ))

-- `identity.appId or "fdc3-desktop-agent"`
abbrev pub source_of : WcpIdentity → AppIdentifier
source_of identity = record {
  app_id = elim identity.app_id [
    | none ↦ "fdc3-desktop-agent"
    | some t ↦ if truthy t then t else "fdc3-desktop-agent"
  ];
  instance_id = identity.instance_id;
}

unfoldable pub handle_private_channel_add_event_listener :
    Agent → Call → String → Option String → Agent × List Message
handle_private_channel_add_event_listener a k channel_id event_type =
    with_channel a (refuse k "privateChannelAddEventListenerResponse" "NoChannelFound")
      (private_of (get_channel a.channel_manager channel_id))
      (λ ch.
        let (s, l) =
          add_event_listener a.listener_store k.fresh_uuid (caller k) event_type
            (some channel_id) in
        let a' : Agent = record a { listener_store = s } in
        with_access a (refuse k "privateChannelAddEventListenerResponse" "AccessDenied")
          (owns a.channel_manager channel_id (caller k))
          (
            a',
            answer k "privateChannelAddEventListenerResponse" (listener_uuid l.listener_uuid)
                ++ bridge_private_channel_listener_update a' channel_id event_type
                    (source_of (get_session_identity k.wcp_sessions k.session_id)) true,
          ))
