-- ===== src/Dacp/Channels/Replies.antt =====
-- handlers/dacp/channel.py: the responses of each handler.
use py_fdc3_desktop_agent.Base.{
  String, ◌≡◌, refl, ap, ◌∙◌, true, Option, none, some, List, [], ◌∷◌, ◌++◌, arith, is_some,
}
use py_fdc3_desktop_agent.Core.Channels.State.{ChannelInstance, ChannelManager, Effect}
use py_fdc3_desktop_agent.Core.Channels.Membership.{
  get_channel, join_channel, leave_current_channel,
}
use py_fdc3_desktop_agent.Core.Channels.Private.{
  private_of, create_private_channel, create_private_channel_invite, destroy_private_channel,
}
use py_fdc3_desktop_agent.Dacp.Agent.{
  initiated_by, Agent, wire_channel, channels, channel, nothing, error, Message, Call, caller,
}
use py_fdc3_desktop_agent.Dacp.Channels.Cases.{with_channel-cases, with_access-cases}
use py_fdc3_desktop_agent.Dacp.Defaults.{get_user_channels, ensure_default_user_channels}
use py_fdc3_desktop_agent.Dacp.Events.{emit_private_channel_event}
use py_fdc3_desktop_agent.Dacp.UserChannels.{
  handle_get_user_channels, handle_get_system_channels, handle_get_current_channel,
  handle_get_current_context, join_user, user_channel_id, handle_join_user_channel,
  handle_join_channel, handle_leave_current_channel,
}
use py_fdc3_desktop_agent.Dacp.PrivateChannels.{
  created_private, created_invite, admit, handle_join_private_channel, handle_leave_private_channel,
  handle_create_private_channel, handle_create_private_channel_invitation,
  handle_private_channel_disconnect, handle_private_channel_add_event_listener,
}
use py_fdc3_desktop_agent.Dacp.Channels.Requests.{
  Request, handle, get_user_channels_request, get_system_channels_request,
  get_current_channel_request, get_current_context_request, join_user_channel_request,
  join_channel_request, leave_current_channel_request, join_private_channel_request,
  leave_private_channel_request, create_private_channel_request,
  create_private_channel_invitation_request, private_channel_disconnect_request,
  private_channel_add_event_listener_request,
}
use py_fdc3_desktop_agent.Dacp.Channels.Responses.{
  replies-append, replies-told, replies-changed, replies-update, replies-private_event,
  replies-answered, replies-last, replies,
}

replies-user_channels :
    (a : Agent) (k : Call) → replies (handle_get_user_channels a k).1 ≡ k.request_uuid ∷ []
unfolding handle_get_user_channels
replies-user_channels a k =
    replies-last (get_user_channels a k.now).2 k "getUserChannelsResponse"
      (channels (get_user_channels a k.now).1)

replies-system_channels :
    (a : Agent) (k : Call) → replies (handle_get_system_channels a k).1 ≡ k.request_uuid ∷ []
unfolding handle_get_system_channels
replies-system_channels a k =
    replies-last (get_user_channels a k.now).2 k "getSystemChannelsResponse"
      (channels (get_user_channels a k.now).1)

replies-current_context :
    (a : Agent) (k : Call) (c t : Option String)
    → replies (handle_get_current_context a k c t).1 ≡ k.request_uuid ∷ []
unfolding handle_get_current_context replies
replies-current_context a k none t = refl
replies-current_context a k (some c) t = ground arith

abbrev Answers : Call → Agent × List Message → Type 0
Answers k out = replies out.1 ≡ k.request_uuid ∷ []

replies-join_user :
    (a : Agent) (k : Call) (type c : String)
    → replies (join_user a k type c).1 ≡ k.request_uuid ∷ []
unfolding join_user
replies-join_user a k type c =
    with_channel-cases (Answers k) _ _ _ _
      (replies-last (ensure_default_user_channels a k.now).1 k type (error "NoChannelFound"))
      (λ ch e.
        replies-told (ensure_default_user_channels a k.now).1 _
        ∙ replies-answered _ k type _ _ (replies-changed _ (caller k) (some (user_channel_id c))))

replies-leave :
    (a : Agent) (k : Call) → replies (handle_leave_current_channel a k).1 ≡ k.request_uuid ∷ []
unfolding handle_leave_current_channel
replies-leave a k =
    replies-answered (leave_current_channel a.channel_manager (caller k) k.now).1 k
      "leaveCurrentChannelResponse" nothing _ (replies-changed _ (caller k) none)

replies-join_private :
    (a : Agent) (k : Call) (c : String) (t : Option String)
    → replies (handle_join_private_channel a k c t).1 ≡ k.request_uuid ∷ []
unfolding handle_join_private_channel replies
replies-join_private a k c t = with_channel-cases (Answers k) _ _ _ _ refl (λ ch e.
    with_access-cases (Answers k) _ _ _ _ refl (λ f.
      replies-last
        (join_channel (admit a.channel_manager c t (caller k)).0 (caller k) c k.now k.later).1 k
        "joinPrivateChannelResponse" (channel (some (wire_channel ch)))))

replies-leave_private :
    (a : Agent) (k : Call) (c : String)
    → replies (handle_leave_private_channel a k c).1 ≡ k.request_uuid ∷ []
unfolding handle_leave_private_channel replies
replies-leave_private a k c = with_channel-cases (Answers k) _ _ _ _ refl (λ ch e.
    with_access-cases (Answers k) _ _ _ _ refl (λ f.
      replies-last (leave_current_channel a.channel_manager (caller k) k.now).1 k
        "leavePrivateChannelResponse" nothing))

replies-created :
    (a : Agent) (k : Call) (o : Option (ChannelManager × ChannelInstance × List Effect))
    → replies (created_private a k o).1 ≡ k.request_uuid ∷ []
unfolding replies
replies-created a k none = refl
replies-created a k (some (m, ch, effects)) =
    replies-last effects k "createPrivateChannelResponse" (channel (some (wire_channel ch)))

-- An invite for a private channel is made.
invited :
    (m : ChannelManager) (c : String) (i : Option String) (token : String) (ch : ChannelInstance)
    → private_of (get_channel m c) ≡ some ch
    → is_some (create_private_channel_invite m c i token) ≡ true
unfolding create_private_channel_invite get_channel
invited m c i token ch e = ground (arith, e)

replies-invite :
    (a : Agent) (k : Call) (o : Option (ChannelManager × String))
    → is_some o ≡ true
    → replies (created_invite a k o).1 ≡ k.request_uuid ∷ []
unfolding replies
replies-invite a k none h = cc
replies-invite a k (some (m, token)) h = refl

replies-invitation :
    (a : Agent) (k : Call) (c : String) (i : Option String)
    → replies (handle_create_private_channel_invitation a k c i).1 ≡ k.request_uuid ∷ []
unfolding handle_create_private_channel_invitation replies
replies-invitation a k c i = with_channel-cases (Answers k) _ _ _ _ refl (λ ch e.
    with_access-cases (Answers k) _ _ _ _ refl
      (λ f. replies-invite a k _ (invited a.channel_manager c i k.fresh_uuid ch e)))

replies-disconnect :
    (a : Agent) (k : Call) (c : String)
    → replies (handle_private_channel_disconnect a k c).1 ≡ k.request_uuid ∷ []
unfolding handle_private_channel_disconnect replies
replies-disconnect a k c = with_channel-cases (Answers k) _ _ _ _ refl (λ ch e.
    with_access-cases (Answers k) _ _ _ _ refl (λ f.
      replies-told (destroy_private_channel a.channel_manager c k.now).1 _
      ∙ (replies-append (emit_private_channel_event _ c "onDisconnect" (initiated_by (caller k))) _
          ∙ ap (λ r. r ++ (k.request_uuid ∷ []))
              (replies-private_event _ c "onDisconnect" (initiated_by (caller k))))))

replies-add_listener :
    (a : Agent) (k : Call) (c : String) (t : Option String)
    → replies (handle_private_channel_add_event_listener a k c t).1 ≡ k.request_uuid ∷ []
unfolding handle_private_channel_add_event_listener replies
replies-add_listener a k c t = with_channel-cases (Answers k) _ _ _ _ refl (λ ch e.
    with_access-cases (Answers k) _ _ _ _ refl
      (λ f. ap (λ r. k.request_uuid ∷ r) (replies-update _ c t _ true)))

-- Every request, granted or refused, gets exactly one response, which has the request's uuid.
pub replies-handle :
    (a : Agent) (k : Call) (q : Request) → replies (handle a k q).1 ≡ k.request_uuid ∷ []
unfolding handle
replies-handle a k get_user_channels_request = replies-user_channels a k
replies-handle a k get_system_channels_request = replies-system_channels a k
replies-handle a k get_current_channel_request = unfold handle_get_current_channel replies in refl
replies-handle a k (get_current_context_request c t) = replies-current_context a k c t
replies-handle a k (join_user_channel_request c) =
    unfold handle_join_user_channel in replies-join_user a k "joinUserChannelResponse" c
replies-handle a k (join_channel_request c) =
    unfold handle_join_channel in replies-join_user a k "joinChannelResponse" c
replies-handle a k leave_current_channel_request = replies-leave a k
replies-handle a k (join_private_channel_request c t) = replies-join_private a k c t
replies-handle a k (leave_private_channel_request c) = replies-leave_private a k c
replies-handle a k (create_private_channel_request dm) =
    unfold handle_create_private_channel in
    replies-created a k
      (create_private_channel a.channel_manager (caller k) none dm k.fresh_uuid k.now)
replies-handle a k (create_private_channel_invitation_request c i) = replies-invitation a k c i
replies-handle a k (private_channel_disconnect_request c) = replies-disconnect a k c
replies-handle a k (private_channel_add_event_listener_request c t) = replies-add_listener a k c t
