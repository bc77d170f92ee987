-- ===== src/Dacp/Channels/Keeping.antt =====
-- handlers/dacp/channel.py: the handlers and the invariants of the channel manager.
use py_fdc3_desktop_agent.Base.{String, Option, none, some, List, [], ◌∷◌, arith}
use py_fdc3_desktop_agent.Core.Channels.State.{ChannelInstance, ChannelManager, Effect}
use py_fdc3_desktop_agent.Core.Channels.Membership.{
  get_channel, join_channel, leave_current_channel,
}
use py_fdc3_desktop_agent.Core.Channels.Private.{
  create_private_channel, create_private_channel_invite,
}
use py_fdc3_desktop_agent.Dacp.Agent.{Agent, Message, Call, caller}
use py_fdc3_desktop_agent.Dacp.Defaults.{
  create_default, get_user_channels, ensure_default_user_channels, create_each,
  default_user_channels,
}
use py_fdc3_desktop_agent.Dacp.UserChannels.{
  handle_get_user_channels, handle_get_system_channels, handle_get_current_channel,
  handle_get_current_context, join_user, user_channel_id, handle_join_user_channel,
  handle_join_channel, handle_leave_current_channel,
}
use py_fdc3_desktop_agent.Dacp.PrivateChannels.{
  created_private, created_invite, admit, handle_join_private_channel, handle_leave_private_channel,
  handle_create_private_channel, handle_create_private_channel_invitation,
  handle_private_channel_disconnect, handle_private_channel_add_event_listener,
}
use py_fdc3_desktop_agent.Dacp.Channels.Requests.{
  Request, handle, get_user_channels_request, get_system_channels_request,
  get_current_channel_request, get_current_context_request, join_user_channel_request,
  join_channel_request, leave_current_channel_request, join_private_channel_request,
  leave_private_channel_request, create_private_channel_request,
  create_private_channel_invitation_request, private_channel_disconnect_request,
  private_channel_add_event_listener_request,
}
use py_fdc3_desktop_agent.Dacp.Channels.Cases.{with_channel-cases, with_access-cases}
use py_fdc3_desktop_agent.Core.Channels.Steps.{
  Operation, create, create_private, invite, consume, join, leave, destroy, step, after_private,
  after_invite,
}
use py_fdc3_desktop_agent.Core.Channels.Invariant.{IsConsistent, step-IsConsistent}
use py_fdc3_desktop_agent.Core.Channels.Guarding.{IsGuarded}
use py_fdc3_desktop_agent.Core.Channels.Guarded.{step-IsGuarded}

module _ (P : ChannelManager → Type 0)
    (keep : (m : ChannelManager) (op : Operation) → P m → P (step m op)) where
  abbrev Keeps : Agent × List Message → Type 0
  Keeps out = P out.0.channel_manager

  default-Keeps :
      (m : ChannelManager) (d : String × String × String) (now : String)
      (o : Option ChannelInstance)
      → P m
      → P (create_default m d now o).0
  unfolding step
  default-Keeps m (c, name, color) now (some ch) h = h
  default-Keeps m (c, name, color) now none h = keep m (create c "user" _ now) h

  create_each-Keeps :
      (m : ChannelManager) (ds : List (String × String × String)) (now : String)
      → P m
      → P (create_each m ds now).0
  unfolding create_each
  create_each-Keeps m [] now h = h
  create_each-Keeps m (d ∷ ds) now h =
      create_each-Keeps (create_default m d now (get_channel m d.0)).0 ds now
        (default-Keeps m d now (get_channel m d.0) h)

  ensure-Keeps :
      (a : Agent) (now : String)
      → P a.channel_manager
      → P (ensure_default_user_channels a now).0.channel_manager
  unfolding ensure_default_user_channels
  ensure-Keeps a now h =
      ground (arith, create_each-Keeps a.channel_manager default_user_channels now h, h)

  join-Keeps : (m : ChannelManager) (i c l j : String) → P m → P (join_channel m i c l j).0
  unfolding step
  join-Keeps m i c l j h = keep m (join i c l j) h

  leave-Keeps : (m : ChannelManager) (i now : String) → P m → P (leave_current_channel m i now).0
  unfolding step
  leave-Keeps m i now h = keep m (leave i now) h

  admit-Keeps :
      (m : ChannelManager) (c : String) (t : Option String) (i : String) → P m → P (admit m c t i).0
  unfolding step admit
  admit-Keeps m c none i h = ground (arith, h)
  admit-Keeps m c (some t) i h = ground (arith, h, keep m (consume c t i) h)

  created-Keeps :
      (a : Agent) (k : Call) (o : Option (ChannelManager × ChannelInstance × List Effect))
      → P a.channel_manager
      → P (after_private a.channel_manager o)
      → Keeps (created_private a k o)
  created-Keeps a k none h g = h
  created-Keeps a k (some (m, ch, effects)) h g = g

  invited-Keeps :
      (a : Agent) (k : Call) (o : Option (ChannelManager × String))
      → P a.channel_manager
      → P (after_invite a.channel_manager o)
      → Keeps (created_invite a k o)
  invited-Keeps a k none h g = h
  invited-Keeps a k (some (m, token)) h g = g

  join_user-Keeps :
      (a : Agent) (k : Call) (type c : String) → P a.channel_manager → Keeps (join_user a k type c)
  unfolding join_user
  join_user-Keeps a k type c h =
      with_channel-cases Keeps _ _ _ _ (ensure-Keeps a k.now h)
        (λ ch e. join-Keeps _ (caller k) (user_channel_id c) k.now k.later (ensure-Keeps a k.now h))

  current_context-Keeps :
      (a : Agent) (k : Call) (c t : Option String)
      → P a.channel_manager
      → Keeps (handle_get_current_context a k c t)
  unfolding handle_get_current_context
  current_context-Keeps a k none t h = h
  current_context-Keeps a k (some c) t h = ground (arith, h)

  handle-Keeps : (a : Agent) (k : Call) (q : Request) → P a.channel_manager → Keeps (handle a k q)
  unfolding handle step
  handle-Keeps a k get_user_channels_request h =
      unfold handle_get_user_channels get_user_channels in ensure-Keeps a k.now h
  handle-Keeps a k get_system_channels_request h =
      unfold handle_get_system_channels get_user_channels in ensure-Keeps a k.now h
  handle-Keeps a k get_current_channel_request h = unfold handle_get_current_channel in h
  handle-Keeps a k (get_current_context_request c t) h = current_context-Keeps a k c t h
  handle-Keeps a k (join_user_channel_request c) h =
      unfold handle_join_user_channel in join_user-Keeps a k "joinUserChannelResponse" c h
  handle-Keeps a k (join_channel_request c) h =
      unfold handle_join_channel in join_user-Keeps a k "joinChannelResponse" c h
  handle-Keeps a k leave_current_channel_request h =
      unfold handle_leave_current_channel in leave-Keeps a.channel_manager (caller k) k.now h
  handle-Keeps a k (join_private_channel_request c t) h =
      unfold handle_join_private_channel in
      with_channel-cases Keeps _ _ _ _ h (λ ch e.
        with_access-cases Keeps _ _ _ _ (admit-Keeps a.channel_manager c t (caller k) h) (λ f.
          join-Keeps _ (caller k) c k.now k.later (admit-Keeps a.channel_manager c t (caller k) h)))
  handle-Keeps a k (leave_private_channel_request c) h =
      unfold handle_leave_private_channel in
      with_channel-cases Keeps _ _ _ _ h (λ ch e.
        with_access-cases Keeps _ _ _ _ h (λ f. leave-Keeps a.channel_manager (caller k) k.now h))
  handle-Keeps a k (create_private_channel_request dm) h =
      unfold handle_create_private_channel in
      created-Keeps a k
        (create_private_channel a.channel_manager (caller k) none dm k.fresh_uuid k.now) h
        (keep a.channel_manager (create_private (caller k) none dm k.fresh_uuid k.now) h)
  handle-Keeps a k (create_private_channel_invitation_request c i) h =
      unfold handle_create_private_channel_invitation in
      with_channel-cases Keeps _ _ _ _ h (λ ch e. with_access-cases Keeps _ _ _ _ h (λ f.
        invited-Keeps a k (create_private_channel_invite a.channel_manager c i k.fresh_uuid) h
          (keep a.channel_manager (invite c i k.fresh_uuid) h)))
  handle-Keeps a k (private_channel_disconnect_request c) h =
      unfold handle_private_channel_disconnect in
      with_channel-cases Keeps _ _ _ _ h (λ ch e.
        with_access-cases Keeps _ _ _ _ h (λ f. keep a.channel_manager (destroy c k.now) h))
  handle-Keeps a k (private_channel_add_event_listener_request c t) h =
      unfold handle_private_channel_add_event_listener in
      with_channel-cases Keeps _ _ _ _ h (λ ch e. with_access-cases Keeps _ _ _ _ h (λ f. h))

-- Whatever request is handled, granted or refused, the channel manager stays consistent: current
-- channels exist and list their instances, and membership is counted right; and its records stay
-- about private channels that are there.
pub handle-IsConsistent :
    (a : Agent) (k : Call) (q : Request)
    → IsConsistent a.channel_manager
    → IsGuarded a.channel_manager
    → IsConsistent (handle a k q).0.channel_manager × IsGuarded (handle a k q).0.channel_manager
handle-IsConsistent a k q c g = (
  handle-Keeps IsConsistent step-IsConsistent a k q c,
  handle-Keeps IsGuarded step-IsGuarded a k q g,
)
