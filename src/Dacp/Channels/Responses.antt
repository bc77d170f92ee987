-- ===== src/Dacp/Channels/Responses.antt =====
-- handlers/dacp/channel.py: the responses among the messages that a handler sends.
use py_fdc3_desktop_agent.Base.{
  String, ◌≡◌, refl, ap, ◌∙◌, Bool, Option, none, some, List, [], ◌∷◌, ◌++◌, map, arith,
}
use py_fdc3_desktop_agent.Core.Channels.State.{Effect}
use py_fdc3_desktop_agent.Core.Channels.Remote.{get_remote_private_channel_listeners}
use py_fdc3_desktop_agent.Core.Listeners.{get_event_listeners, EventListener}
use py_fdc3_desktop_agent.Dacp.Agent.{
  Details, broadcast_event, bridge_broadcast, Agent, Payload, AppIdentifier, Message, told,
  response, user_channel_changed, private_channel_event, bridge_event, bridge_listener_update, tell,
  Call, answer,
}
use py_fdc3_desktop_agent.Dacp.Events.{
  source_uuid, emit_user_channel_changed_event, emit_private_channel_event,
  bridge_private_channel_listener_update, bridge_private_channel_event,
  bridge_source_from_instance_uuid,
}

-- The requests that the responses among some messages answer.
unfoldable pub replies : List Message → List String
replies [] = []
replies (response type uuid payload ∷ rest) = uuid ∷ replies rest
replies (m ∷ rest) = replies rest

pub replies-append : (xs ys : List Message) → replies (xs ++ ys) ≡ replies xs ++ replies ys
unfolding replies
replies-append [] ys = refl
replies-append (told e ∷ xs) ys = replies-append xs ys
replies-append (response t u p ∷ xs) ys = ap (λ r. u ∷ r) (replies-append xs ys)
replies-append (user_channel_changed i c ∷ xs) ys = replies-append xs ys
replies-append (private_channel_event i c e d ∷ xs) ys = replies-append xs ys
replies-append (bridge_event g c e d s ∷ xs) ys = replies-append xs ys
replies-append (broadcast_event i x ∷ xs) ys = replies-append xs ys
replies-append (bridge_broadcast x c s ∷ xs) ys = replies-append xs ys
replies-append (bridge_listener_update c e s b ∷ xs) ys = replies-append xs ys

pub replies-tell : (es : List Effect) → replies (tell es) ≡ []
unfolding replies
replies-tell [] = refl
replies-tell (e ∷ es) = replies-tell es

pub replies-told : (es : List Effect) (ms : List Message) → replies (tell es ++ ms) ≡ replies ms
replies-told es ms = replies-append (tell es) ms ∙ rw replies-tell refl

pub replies-changed :
    (a : Agent) (i : String) (c : Option String)
    → replies (emit_user_channel_changed_event a i c) ≡ []
unfolding replies emit_user_channel_changed_event
replies-changed a i c = ground arith

pub replies-update :
    (a : Agent) (c : String) (t : Option String) (s : AppIdentifier) (b : Bool)
    → replies (bridge_private_channel_listener_update a c t s b) ≡ []
unfolding replies bridge_private_channel_listener_update
replies-update a c t s b = ground arith

replies-events :
    (ls : List EventListener) (c t : String) (i : Details)
    → replies (map (λ l. private_channel_event l.instance_uuid c t i) ls) ≡ []
unfolding replies
replies-events [] c t i = refl
replies-events (l ∷ ls) c t i = replies-events ls c t i

replies-bridge_events :
    (agents : List String) (c t : String) (i : Details) (s : AppIdentifier)
    → replies (map (λ g. bridge_event g c t i s) agents) ≡ []
unfolding replies
replies-bridge_events [] c t i s = refl
replies-bridge_events (g ∷ gs) c t i s = replies-bridge_events gs c t i s

replies-bridged :
    (a : Agent) (c t : String) (i : Details) → replies (bridge_private_channel_event a c t i) ≡ []
unfolding bridge_private_channel_event replies
replies-bridged a c t i = ground (
  arith,
  replies-bridge_events (get_remote_private_channel_listeners a.channel_manager c) c t i
      (bridge_source_from_instance_uuid a.app_registry (source_uuid i)),
)

pub replies-private_event :
    (a : Agent) (c t : String) (i : Details) → replies (emit_private_channel_event a c t i) ≡ []
unfolding emit_private_channel_event replies
replies-private_event a c t i = ground (
  arith,
  replies-append
      (map (λ l. private_channel_event l.instance_uuid c t i)
        (get_event_listeners a.listener_store t none (some c)))
      (bridge_private_channel_event a c t i),
  replies-events (get_event_listeners a.listener_store t none (some c)) c t i,
  replies-bridged a c t i,
)

pub replies-answered :
    (es : List Effect) (k : Call) (type : String) (p : Payload) (ms : List Message)
    → replies ms ≡ []
    → replies (tell es ++ (answer k type p ++ ms)) ≡ k.request_uuid ∷ []
unfolding replies
replies-answered es k type p ms h =
    replies-told es (answer k type p ++ ms) ∙ ap (λ r. k.request_uuid ∷ r) h

pub replies-last :
    (es : List Effect) (k : Call) (type : String) (p : Payload)
    → replies (tell es ++ answer k type p) ≡ k.request_uuid ∷ []
unfolding replies
replies-last es k type p = replies-told es (answer k type p)
