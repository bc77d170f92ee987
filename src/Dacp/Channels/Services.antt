-- ===== src/Dacp/Channels/Services.antt =====
-- handlers/dacp/channel.py: the handlers, the store of listeners and the registry of instances.
use py_fdc3_desktop_agent.Base.{String, ◌≡◌, Option, none, some, List, arith}
use py_fdc3_desktop_agent.Core.Apps.{AppRegistry}
use py_fdc3_desktop_agent.Core.Channels.State.{ChannelInstance, ChannelManager, Effect}
use py_fdc3_desktop_agent.Core.Channels.Private.{
  create_private_channel, create_private_channel_invite,
}
use py_fdc3_desktop_agent.Core.Listeners.Index.{IsIndexed, IsFresh, add-IsIndexed}
use py_fdc3_desktop_agent.Dacp.Agent.{Agent, Message, Call, caller}
use py_fdc3_desktop_agent.Dacp.Defaults.{get_user_channels, ensure_default_user_channels}
use py_fdc3_desktop_agent.Dacp.UserChannels.{
  handle_get_user_channels, handle_get_system_channels, handle_get_current_channel,
  handle_get_current_context, join_user, handle_join_user_channel, handle_join_channel,
  handle_leave_current_channel,
}
use py_fdc3_desktop_agent.Dacp.PrivateChannels.{
  created_private, created_invite, handle_join_private_channel, handle_leave_private_channel,
  handle_create_private_channel, handle_create_private_channel_invitation,
  handle_private_channel_disconnect, handle_private_channel_add_event_listener,
}
use py_fdc3_desktop_agent.Dacp.Channels.Requests.{
  Request, handle, get_user_channels_request, get_system_channels_request,
  get_current_channel_request, get_current_context_request, join_user_channel_request,
  join_channel_request, leave_current_channel_request, join_private_channel_request,
  leave_private_channel_request, create_private_channel_request,
  create_private_channel_invitation_request, private_channel_disconnect_request,
  private_channel_add_event_listener_request,
}
use py_fdc3_desktop_agent.Dacp.Channels.Cases.{with_channel-cases, with_access-cases}

module _ (r : AppRegistry) where
  -- The store is indexed, and the registry is the one given.
  abbrev pub Kept : Agent × List Message → Type 0
  Kept out = IsIndexed out.0.listener_store × (out.0.app_registry ≡ r)

  ensure-Kept :
      (a : Agent) (now : String)
      → IsIndexed a.listener_store × (a.app_registry ≡ r)
      → IsIndexed (ensure_default_user_channels a now).0.listener_store
        × ((ensure_default_user_channels a now).0.app_registry ≡ r)
  unfolding ensure_default_user_channels
  ensure-Kept a now h = ground (arith, h)

  created-Kept :
      (a : Agent) (k : Call) (o : Option (ChannelManager × ChannelInstance × List Effect))
      → IsIndexed a.listener_store × (a.app_registry ≡ r)
      → Kept (created_private a k o)
  created-Kept a k none h = h
  created-Kept a k (some (m, ch, effects)) h = h

  invited-Kept :
      (a : Agent) (k : Call) (o : Option (ChannelManager × String))
      → IsIndexed a.listener_store × (a.app_registry ≡ r)
      → Kept (created_invite a k o)
  invited-Kept a k none h = h
  invited-Kept a k (some (m, token)) h = h

  join_user-Kept :
      (a : Agent) (k : Call) (type c : String)
      → IsIndexed a.listener_store × (a.app_registry ≡ r)
      → Kept (join_user a k type c)
  unfolding join_user
  join_user-Kept a k type c h =
      with_channel-cases Kept _ _ _ _ (ensure-Kept a k.now h) (λ ch e. ensure-Kept a k.now h)

  current_context-Kept :
      (a : Agent) (k : Call) (c t : Option String)
      → IsIndexed a.listener_store × (a.app_registry ≡ r)
      → Kept (handle_get_current_context a k c t)
  unfolding handle_get_current_context
  current_context-Kept a k none t h = h
  current_context-Kept a k (some c) t h = ground (arith, h)

  -- A handler adds at most one listener, under the uuid that it draws, and changes no instance.
  pub handle-Kept :
      (a : Agent) (k : Call) (q : Request)
      → IsFresh a.listener_store k.fresh_uuid
      → IsIndexed a.listener_store × (a.app_registry ≡ r)
      → Kept (handle a k q)
  unfolding handle
  handle-Kept a k get_user_channels_request fresh h =
      unfold handle_get_user_channels get_user_channels in ensure-Kept a k.now h
  handle-Kept a k get_system_channels_request fresh h =
      unfold handle_get_system_channels get_user_channels in ensure-Kept a k.now h
  handle-Kept a k get_current_channel_request fresh h = unfold handle_get_current_channel in h
  handle-Kept a k (get_current_context_request c t) fresh h = current_context-Kept a k c t h
  handle-Kept a k (join_user_channel_request c) fresh h =
      unfold handle_join_user_channel in join_user-Kept a k "joinUserChannelResponse" c h
  handle-Kept a k (join_channel_request c) fresh h =
      unfold handle_join_channel in join_user-Kept a k "joinChannelResponse" c h
  handle-Kept a k leave_current_channel_request fresh h = unfold handle_leave_current_channel in h
  handle-Kept a k (join_private_channel_request c t) fresh h =
      unfold handle_join_private_channel in
      with_channel-cases Kept _ _ _ _ h (λ ch e. with_access-cases Kept _ _ _ _ h (λ f. h))
  handle-Kept a k (leave_private_channel_request c) fresh h =
      unfold handle_leave_private_channel in
      with_channel-cases Kept _ _ _ _ h (λ ch e. with_access-cases Kept _ _ _ _ h (λ f. h))
  handle-Kept a k (create_private_channel_request dm) fresh h =
      unfold handle_create_private_channel in
      created-Kept a k
        (create_private_channel a.channel_manager (caller k) none dm k.fresh_uuid k.now) h
  handle-Kept a k (create_private_channel_invitation_request c i) fresh h =
      unfold handle_create_private_channel_invitation in
      with_channel-cases Kept _ _ _ _ h (λ ch e. with_access-cases Kept _ _ _ _ h (λ f.
        invited-Kept a k (create_private_channel_invite a.channel_manager c i k.fresh_uuid) h))
  handle-Kept a k (private_channel_disconnect_request c) fresh h =
      unfold handle_private_channel_disconnect in
      with_channel-cases Kept _ _ _ _ h (λ ch e. with_access-cases Kept _ _ _ _ h (λ f. h))
  handle-Kept a k (private_channel_add_event_listener_request c t) fresh h =
      unfold handle_private_channel_add_event_listener in
      with_channel-cases Kept _ _ _ _ h (λ ch e. with_access-cases Kept _ _ _ _ h (λ f.
        ((add-IsIndexed a.listener_store k.fresh_uuid (caller k) "" t (some c) fresh h.0).2, h.1)))
