-- ===== src/Dacp/Channels/Errors.antt =====
-- handlers/dacp/channel.py: the errors among the messages that a handler sends.
use py_fdc3_desktop_agent.Base.{
  String, ◌≡◌, refl, ◌∙◌, Bool, true, false, ◌||◌, Option, none, some, List, [], ◌∷◌, ◌++◌, map,
  arith,
}
use py_fdc3_desktop_agent.Base.Lists.{any}
use py_fdc3_desktop_agent.Core.Channels.State.{Effect}
use py_fdc3_desktop_agent.Core.Channels.Remote.{get_remote_private_channel_listeners}
use py_fdc3_desktop_agent.Core.Listeners.{get_event_listeners, EventListener}
use py_fdc3_desktop_agent.Dacp.Agent.{
  Details, broadcast_event, bridge_broadcast, Agent, Payload, channels, channel, context,
  invitation_token, listener_uuid, nothing, error, AppIdentifier, Message, told, response,
  user_channel_changed, private_channel_event, bridge_event, bridge_listener_update, tell, Call,
  answer,
}
use py_fdc3_desktop_agent.Dacp.Events.{
  source_uuid, emit_user_channel_changed_event, emit_private_channel_event,
  bridge_private_channel_listener_update, bridge_private_channel_event,
  bridge_source_from_instance_uuid,
}

abbrev pub is_error : Payload → Bool
is_error (error code) = true
is_error (channels cs) = false
is_error (channel c) = false
is_error (context x) = false
is_error (invitation_token t) = false
is_error (listener_uuid l) = false
is_error nothing = false

abbrev pub is_refusal : Message → Bool
is_refusal (response type uuid payload) = is_error payload
is_refusal (told e) = false
is_refusal (user_channel_changed i c) = false
is_refusal (private_channel_event i c t d) = false
is_refusal (bridge_event g c t d s) = false
is_refusal (broadcast_event i x) = false
is_refusal (bridge_broadcast x c s) = false
is_refusal (bridge_listener_update c t s b) = false

-- Whether an error is among the messages.
unfoldable pub refused : List Message → Bool
refused ms = any is_refusal ms

pub refused-append : (xs ys : List Message) → refused (xs ++ ys) ≡ (refused xs || refused ys)
unfolding refused
refused-append [] ys = refl
refused-append (m ∷ xs) ys = ground (arith, refused-append xs ys)

pub refused-tell : (es : List Effect) → refused (tell es) ≡ false
unfolding refused
refused-tell [] = refl
refused-tell (e ∷ es) = refused-tell es

pub refused-told : (es : List Effect) (ms : List Message) → refused (tell es ++ ms) ≡ refused ms
refused-told es ms = ground (arith, refused-append (tell es) ms, refused-tell es)

pub refused-changed :
    (a : Agent) (i : String) (c : Option String)
    → refused (emit_user_channel_changed_event a i c) ≡ false
unfolding refused emit_user_channel_changed_event
refused-changed a i c = ground arith

pub refused-update :
    (a : Agent) (c : String) (t : Option String) (s : AppIdentifier) (b : Bool)
    → refused (bridge_private_channel_listener_update a c t s b) ≡ false
unfolding refused bridge_private_channel_listener_update
refused-update a c t s b = ground arith

pub refused-events :
    (ls : List EventListener) (c t : String) (i : Details)
    → refused (map (λ l. private_channel_event l.instance_uuid c t i) ls) ≡ false
unfolding refused
refused-events [] c t i = refl
refused-events (l ∷ ls) c t i = refused-events ls c t i

pub refused-bridge_events :
    (agents : List String) (c t : String) (i : Details) (s : AppIdentifier)
    → refused (map (λ g. bridge_event g c t i s) agents) ≡ false
unfolding refused
refused-bridge_events [] c t i s = refl
refused-bridge_events (g ∷ gs) c t i s = refused-bridge_events gs c t i s

pub refused-private_event :
    (a : Agent) (c t : String) (i : Details) → refused (emit_private_channel_event a c t i) ≡ false
unfolding refused emit_private_channel_event bridge_private_channel_event
refused-private_event a c t i = ground (
  arith,
  refused-append
      (map (λ l. private_channel_event l.instance_uuid c t i)
        (get_event_listeners a.listener_store t none (some c)))
      (bridge_private_channel_event a c t i),
  refused-events (get_event_listeners a.listener_store t none (some c)) c t i,
  refused-bridge_events (get_remote_private_channel_listeners a.channel_manager c) c t i
      (bridge_source_from_instance_uuid a.app_registry (source_uuid i)),
)

pub refused-answered :
    (es : List Effect) (k : Call) (type : String) (p : Payload) (ms : List Message)
    → is_error p ≡ false
    → refused ms ≡ false
    → refused (tell es ++ (answer k type p ++ ms)) ≡ false
refused-answered es k type p ms e h =
    refused-told es (answer k type p ++ ms) ∙ unfold refused in ground (arith, e, h)

pub refused-last :
    (es : List Effect) (k : Call) (type : String) (p : Payload)
    → is_error p ≡ false
    → refused (tell es ++ answer k type p) ≡ false
refused-last es k type p e = refused-told es (answer k type p) ∙ unfold refused in ground (arith, e)

pub refused-update_last :
    (k : Call) (type : String) (p : Payload) (ms : List Message)
    → is_error p ≡ false
    → refused ms ≡ false
    → refused (answer k type p ++ ms) ≡ false
unfolding refused
refused-update_last k type p ms e h = ground (arith, e, h)
