-- ===== src/Dacp/Channels/Refusals.antt =====
-- handlers/dacp/channel.py: the state after a request that is refused.
use py_fdc3_desktop_agent.Base.{
  String, ◌≡◌, refl, ap, ◌∙◌, Bool, true, false, ◌||◌, Option, none, some, List, [], arith,
}
use py_fdc3_desktop_agent.Core.Channels.State.{ChannelInstance, ChannelManager, Effect}
use py_fdc3_desktop_agent.Core.Channels.Membership.{join_channel, leave_current_channel}
use py_fdc3_desktop_agent.Core.Channels.Private.{
  create_private_channel, create_private_channel_invite, consume_private_channel_invite,
  destroy_private_channel,
}
use py_fdc3_desktop_agent.Dacp.Agent.{
  initiated_by, Agent, wire_channel, channel, invitation_token, listener_uuid, nothing, Message,
  Call, caller,
}
use py_fdc3_desktop_agent.Dacp.Defaults.{get_user_channels, ensure_default_user_channels}
use py_fdc3_desktop_agent.Dacp.Events.{emit_private_channel_event}
use py_fdc3_desktop_agent.Dacp.UserChannels.{
  handle_get_user_channels, handle_get_system_channels, handle_get_current_channel,
  handle_get_current_context, join_user, user_channel_id, handle_join_user_channel,
  handle_join_channel, handle_leave_current_channel,
}
use py_fdc3_desktop_agent.Dacp.PrivateChannels.{
  admit, created_private, created_invite, handle_join_private_channel, handle_leave_private_channel,
  handle_create_private_channel, handle_create_private_channel_invitation,
  handle_private_channel_disconnect, handle_private_channel_add_event_listener,
}
use py_fdc3_desktop_agent.Dacp.Channels.Cases.{
  with_channel-cases, with_access-cases, with_access-split,
}
use py_fdc3_desktop_agent.Dacp.Channels.Requests.{
  Request, handle, get_user_channels_request, get_system_channels_request,
  get_current_channel_request, get_current_context_request, join_user_channel_request,
  join_channel_request, leave_current_channel_request, join_private_channel_request,
  leave_private_channel_request, create_private_channel_request,
  create_private_channel_invitation_request, private_channel_disconnect_request,
  private_channel_add_event_listener_request,
}
use py_fdc3_desktop_agent.Dacp.Channels.Errors.{
  refused, refused-append, refused-told, refused-changed, refused-update, refused-private_event,
  refused-answered, refused-last, refused-update_last,
}

-- The agent before the request proper: the requests on user channels make the default channels.
abbrev pub prepared : Agent → Call → Request → Agent
prepared a k (join_user_channel_request c) = (ensure_default_user_channels a k.now).0
prepared a k (join_channel_request c) = (ensure_default_user_channels a k.now).0
prepared a k get_user_channels_request = (ensure_default_user_channels a k.now).0
prepared a k get_system_channels_request = (ensure_default_user_channels a k.now).0
prepared a k q = a

-- A refused token is not consumed.
admit_refused :
    (m : ChannelManager) (c : String) (t : Option String) (i : String)
    → (admit m c t i).1 ≡ false
    → (admit m c t i).0 ≡ m
unfolding admit consume_private_channel_invite
admit_refused m c none i h = ground (arith, h)
admit_refused m c (some t) i h = ground (arith, h)

-- A refusal leaves the agent as it was.
abbrev Leaves : Agent → Agent × List Message → Type 0
Leaves a out = refused out.1 ≡ true → out.0 ≡ a

granted : (a : Agent) (out : Agent × List Message) → refused out.1 ≡ false → Leaves a out
granted a out g h = ground (arith, g, h)

user_channels-Leaves :
    (a : Agent) (k : Call)
    → Leaves (ensure_default_user_channels a k.now).0 (handle_get_user_channels a k)
unfolding handle_get_user_channels get_user_channels
user_channels-Leaves a k h = refl

system_channels-Leaves :
    (a : Agent) (k : Call)
    → Leaves (ensure_default_user_channels a k.now).0 (handle_get_system_channels a k)
unfolding handle_get_system_channels get_user_channels
system_channels-Leaves a k h = refl

current_context-Leaves :
    (a : Agent) (k : Call) (c t : Option String) → Leaves a (handle_get_current_context a k c t)
unfolding handle_get_current_context
current_context-Leaves a k none t h = refl
current_context-Leaves a k (some c) t h = ground arith

or_false : {x y : Bool} → x ≡ false → y ≡ false → (x || y) ≡ false
or_false {x} {y} h g = ground (arith, h, g)

join_user-Leaves :
    (a : Agent) (k : Call) (type c : String)
    → Leaves (ensure_default_user_channels a k.now).0 (join_user a k type c)
unfolding join_user
join_user-Leaves a k type c =
    with_channel-cases (Leaves (ensure_default_user_channels a k.now).0) _ _ _ _ (λ h. refl)
      (λ ch e. granted _ _ (
        refused-told (ensure_default_user_channels a k.now).1 _
        ∙ refused-answered _ k type (channel (some (wire_channel ch))) _ refl
            (refused-changed _ (caller k) (some (user_channel_id c)))))

leave-Leaves : (a : Agent) (k : Call) → Leaves a (handle_leave_current_channel a k)
unfolding handle_leave_current_channel
leave-Leaves a k = granted _ _ (
    refused-answered (leave_current_channel a.channel_manager (caller k) k.now).1 k
      "leaveCurrentChannelResponse" nothing _ refl (refused-changed _ (caller k) none))

join_private-Leaves :
    (a : Agent) (k : Call) (c : String) (t : Option String)
    → Leaves a (handle_join_private_channel a k c t)
unfolding handle_join_private_channel
join_private-Leaves a k c t =
    with_channel-cases (Leaves a) _ _ _ _ (λ h. refl)
      (λ ch e.
        with_access-split (Leaves a) _ _ _ _
          (λ f h.
            ap (λ m. record a { channel_manager = m })
              (admit_refused a.channel_manager c t (caller k) f))
          (λ f. granted _ _ (
            refused-last
              (join_channel (admit a.channel_manager c t (caller k)).0 (caller k) c k.now k.later).1
              k "joinPrivateChannelResponse" (channel (some (wire_channel ch))) refl)))

leave_private-Leaves :
    (a : Agent) (k : Call) (c : String) → Leaves a (handle_leave_private_channel a k c)
unfolding handle_leave_private_channel
leave_private-Leaves a k c =
    with_channel-cases (Leaves a) _ _ _ _ (λ h. refl)
      (λ ch e.
        with_access-cases (Leaves a) _ _ _ _ (λ h. refl)
          (λ f. granted _ _ (
            refused-last (leave_current_channel a.channel_manager (caller k) k.now).1 k
              "leavePrivateChannelResponse" nothing refl)))

created-Leaves :
    (a : Agent) (k : Call) (o : Option (ChannelManager × ChannelInstance × List Effect))
    → Leaves a (created_private a k o)
created-Leaves a k none = λ h. refl
created-Leaves a k (some (m, ch, effects)) =
    granted _ _ (
      refused-last effects k "createPrivateChannelResponse" (channel (some (wire_channel ch))) refl)

invite-Leaves :
    (a : Agent) (k : Call) (o : Option (ChannelManager × String)) → Leaves a (created_invite a k o)
invite-Leaves a k none = λ h. refl
invite-Leaves a k (some (m, token)) =
    granted _ _
      (refused-last [] k "createPrivateChannelInvitationResponse" (invitation_token token) refl)

invitation-Leaves :
    (a : Agent) (k : Call) (c : String) (i : Option String)
    → Leaves a (handle_create_private_channel_invitation a k c i)
unfolding handle_create_private_channel_invitation
invitation-Leaves a k c i =
    with_channel-cases (Leaves a) _ _ _ _ (λ h. refl)
      (λ ch e.
        with_access-cases (Leaves a) _ _ _ _ (λ h. refl)
          (λ f.
            invite-Leaves a k (create_private_channel_invite a.channel_manager c i k.fresh_uuid)))

disconnect-Leaves :
    (a : Agent) (k : Call) (c : String) → Leaves a (handle_private_channel_disconnect a k c)
unfolding handle_private_channel_disconnect
disconnect-Leaves a k c =
    with_channel-cases (Leaves a) _ _ _ _ (λ h. refl)
      (λ ch e.
        with_access-cases (Leaves a) _ _ _ _ (λ h. refl)
          (λ f. granted _ _ (
            refused-told (destroy_private_channel a.channel_manager c k.now).1 _
            ∙ (refused-append
                  (emit_private_channel_event _ c "onDisconnect" (initiated_by (caller k))) _
                ∙ or_false (refused-private_event _ c "onDisconnect" (initiated_by (caller k)))
                    (refused-last [] k "privateChannelDisconnectResponse" nothing refl)))))

add_listener-Leaves :
    (a : Agent) (k : Call) (c : String) (t : Option String)
    → Leaves a (handle_private_channel_add_event_listener a k c t)
unfolding handle_private_channel_add_event_listener
add_listener-Leaves a k c t =
    with_channel-cases (Leaves a) _ _ _ _ (λ h. refl)
      (λ ch e.
        with_access-cases (Leaves a) _ _ _ _ (λ h. refl)
          (λ f. granted _ _ (
            refused-update_last k "privateChannelAddEventListenerResponse" (listener_uuid _) _ refl
              (refused-update _ c t _ true))))

-- A request that is answered with an error changes nothing in the agent: no member, invite, context,
-- event or listener; except that a request on user channels first makes the default channels.
pub handle-refused :
    (a : Agent) (k : Call) (q : Request)
    → refused (handle a k q).1 ≡ true
    → (handle a k q).0 ≡ prepared a k q
unfolding handle
handle-refused a k get_user_channels_request = user_channels-Leaves a k
handle-refused a k get_system_channels_request = system_channels-Leaves a k
handle-refused a k get_current_channel_request = unfold handle_get_current_channel in λ h. refl
handle-refused a k (get_current_context_request c t) = current_context-Leaves a k c t
handle-refused a k (join_user_channel_request c) =
    unfold handle_join_user_channel in join_user-Leaves a k "joinUserChannelResponse" c
handle-refused a k (join_channel_request c) =
    unfold handle_join_channel in join_user-Leaves a k "joinChannelResponse" c
handle-refused a k leave_current_channel_request = leave-Leaves a k
handle-refused a k (join_private_channel_request c t) = join_private-Leaves a k c t
handle-refused a k (leave_private_channel_request c) = leave_private-Leaves a k c
handle-refused a k (create_private_channel_request dm) =
    unfold handle_create_private_channel in
    created-Leaves a k
      (create_private_channel a.channel_manager (caller k) none dm k.fresh_uuid k.now)
handle-refused a k (create_private_channel_invitation_request c i) = invitation-Leaves a k c i
handle-refused a k (private_channel_disconnect_request c) = disconnect-Leaves a k c
handle-refused a k (private_channel_add_event_listener_request c t) = add_listener-Leaves a k c t
