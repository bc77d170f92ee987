-- ===== src/Dacp/Listening/Requests.antt =====
-- handlers/dacp/event.py: the handlers of the other listeners, and the dispatch.
use py_fdc3_desktop_agent.Base.{
  String, Bool, false, Option, none, some, List, [], ◌∷◌, ◌++◌, ◌==◌, if◌then◌else◌, truthy,
}
use py_fdc3_desktop_agent.Core.Channels.State.{ChannelInstance, Context}
use py_fdc3_desktop_agent.Core.Channels.Contexts.{get_channel_context}
use py_fdc3_desktop_agent.Core.Channels.Membership.{get_channel, get_current_channel}
use py_fdc3_desktop_agent.Core.Listeners.{
  ContextListener, Listener, owner_of, add_context_listener, add_intent_listener, remove_listener,
}
use py_fdc3_desktop_agent.Dacp.Agent.{
  Agent, AppIdentifier, Message, broadcast_event, Call, caller, answer, refuse, listener_uuid,
  nothing,
}
use py_fdc3_desktop_agent.Dacp.Events.{emit_private_channel_event}
use py_fdc3_desktop_agent.Dacp.Guards.{is_on, with_channel, with_access}
use py_fdc3_desktop_agent.Dacp.Listening.{
  context_type_of, handle_add_event_listener, handle_broadcast, handle_remove_event_listener, id_of,
}

-- `if context_type: details["contextType"] = context_type`
abbrev pub if_truthy : Option String → Option String
if_truthy none = none
if_truthy (some t) = if truthy t then some t else none

-- The event for a new listener of an instance whose current channel is private.
unfoldable pub announce : Agent → Option ChannelInstance → ContextListener → List Message
announce a none l = []
announce a (some ch) l =
    if ch.type == "private"
    then emit_private_channel_event a ch.id "onAddContextListener" (record {
      listener_uuid = some l.listener_uuid;
      instance_uuid = some l.instance_uuid;
      initiator_instance_uuid = none;
      context_type = if_truthy l.context_type;
    })
    else []

abbrev pub send_context : String → Option Context → List Message
send_context i none = []
send_context i (some x) = broadcast_event i x ∷ []

-- The stored context of the listener's channel.
unfoldable pub replay : Agent → Call → Option String → Option String → List Message
replay a k none context_type = []
replay a k (some channel_id) context_type =
    send_context (caller k) (get_channel_context a.channel_manager channel_id context_type)

-- From `add_context_listener` on, for the listener's channel.
unfoldable pub add_context_on :
    Agent → Call → Option ChannelInstance → Option String → Option String → Agent × List Message
add_context_on a k current target context_type =
    let (s, l) =
      add_context_listener a.listener_store k.fresh_uuid (caller k) context_type target in
    let a' : Agent = record a { listener_store = s } in
    (
      a',
      announce a' current l
          ++ (replay a' k target context_type
              ++ answer k "addContextListenerResponse" (listener_uuid l.listener_uuid)),
    )

-- At the requested channel, if there is one.
unfoldable pub add_context_at :
    Agent → Call → Option ChannelInstance → Option String → Option String → Agent × List Message
add_context_at a k current context_type none =
    add_context_on a k current (id_of current) context_type
add_context_at a k current context_type (some requested) =
    let found =
      with_channel a (refuse k "addContextListenerResponse" "NoChannelFound")
        (get_channel a.channel_manager requested)
        (λ ch.
          with_access a (refuse k "addContextListenerResponse" "AccessDenied")
            (is_on current requested) (add_context_on a k current (some requested) context_type)) in
    if truthy requested then found else add_context_on a k current (id_of current) context_type

unfoldable pub handle_add_context_listener :
    Agent → Call → Option String → Option String → Agent × List Message
handle_add_context_listener a k context_type channel_id =
    add_context_at a k (get_current_channel a.channel_manager (caller k)) context_type channel_id

unfoldable pub handle_add_intent_listener : Agent → Call → String → Agent × List Message
handle_add_intent_listener a k intent =
    let (s, l) = add_intent_listener a.listener_store k.fresh_uuid (caller k) intent in
    (
      record a { listener_store = s },
      answer k "addIntentListenerResponse" (listener_uuid l.listener_uuid),
    )

unfoldable pub handle_intent_listener_unsubscribe : Agent → Call → String → Agent × List Message
handle_intent_listener_unsubscribe a k key = (
  record a { listener_store = (remove_listener a.listener_store key).0 },
  answer k "intentListenerUnsubscribeResponse" nothing,
)

-- The event for a removed listener of an instance whose current channel is private.
abbrev unsubscribed_on : Agent → String → Option String → Option ChannelInstance → List Message
unsubscribed_on a key context_type none = []
unsubscribed_on a key context_type (some ch) =
    if ch.type == "private"
    then emit_private_channel_event a ch.id "onUnsubscribe" (record {
      listener_uuid = some key;
      instance_uuid = none;
      initiator_instance_uuid = none;
      context_type = if_truthy context_type;
    })
    else []

unfoldable pub unsubscribed : Agent → String → Option Listener → List Message
unsubscribed a key none = []
unsubscribed a key (some l) =
    unsubscribed_on a key (context_type_of l) (get_current_channel a.channel_manager (owner_of l))

unfoldable pub handle_context_listener_unsubscribe : Agent → Call → String → Agent × List Message
handle_context_listener_unsubscribe a k key =
    let (s, removed) = remove_listener a.listener_store key in
    let a' : Agent = record a { listener_store = s } in
    (a', unsubscribed a' key removed ++ answer k "contextListenerUnsubscribeResponse" nothing)

unfoldable pub handle_heartbeat_acknowledgment : Agent → Agent × List Message
handle_heartbeat_acknowledgment a = (a, [])

-- A request of these that has been parsed, with the fields of its payload.
pub data EventRequest : Type 0 where
  add_event_listener_request : String → EventRequest
  remove_event_listener_request : String → Option AppIdentifier → EventRequest
  broadcast_request : Context → Option String → EventRequest
  add_context_listener_request : Option String → Option String → EventRequest
  add_intent_listener_request : String → EventRequest
  intent_listener_unsubscribe_request : String → EventRequest
  context_listener_unsubscribe_request : String → EventRequest
  heartbeat_acknowledgment_request : EventRequest

abbrev completed : Agent × List Message → (Agent × List Message) × Bool
completed out = (out, false)

unfoldable pub handle_event : Agent → Call → EventRequest → (Agent × List Message) × Bool
handle_event a k (add_event_listener_request t) = completed (handle_add_event_listener a k t)
handle_event a k (remove_event_listener_request key source) =
    completed (handle_remove_event_listener a k key source)
handle_event a k (broadcast_request x c) = handle_broadcast a k x c
handle_event a k (add_context_listener_request t c) =
    completed (handle_add_context_listener a k t c)
handle_event a k (add_intent_listener_request intent) =
    completed (handle_add_intent_listener a k intent)
handle_event a k (intent_listener_unsubscribe_request key) =
    completed (handle_intent_listener_unsubscribe a k key)
handle_event a k (context_listener_unsubscribe_request key) =
    completed (handle_context_listener_unsubscribe a k key)
handle_event a k heartbeat_acknowledgment_request = completed (handle_heartbeat_acknowledgment a)
