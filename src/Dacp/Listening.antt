-- ===== src/Dacp/Listening.antt =====
-- handlers/dacp/event.py: the handlers of the requests on listeners and of broadcasts.
pub mod Requests
pub mod Keeping
pub mod Delivery
pub mod Replay
mod Tests
use py_fdc3_desktop_agent.Base.{
  String, Bool, true, false, not, ◌&&◌, ◌||◌, Option, none, some, List, [], ◌∷◌, ◌++◌, map, ◌==◌,
  if◌then◌else◌, truthy, text_or,
}
use py_fdc3_desktop_agent.Sessions.{WcpIdentity}
use py_fdc3_desktop_agent.Core.Channels.State.{ChannelInstance, ChannelManager, Context, Effect}
use py_fdc3_desktop_agent.Core.Channels.Contexts.{get_channel_context}
use py_fdc3_desktop_agent.Core.Channels.Membership.{get_channel, get_current_channel}
use py_fdc3_desktop_agent.Core.Channels.Private.{private_of}
use py_fdc3_desktop_agent.Core.Listeners.{
  ContextListener, IntentListener, EventListener, ListenerStore, Listener, context_listener,
  intent_listener, event_listener, owner_of, add_event_listener, add_context_listener,
  add_intent_listener, remove_listener,
}
use py_fdc3_desktop_agent.Core.Routing.{ContextRouter, broadcast_context}
use py_fdc3_desktop_agent.Dacp.Agent.{
  Agent, AppIdentifier, Message, broadcast_event, bridge_broadcast, Details, Call, caller, tell,
  answer, refuse, listener_uuid, nothing, get_session_identity,
}
use py_fdc3_desktop_agent.Dacp.Events.{
  this_agent, emit_private_channel_event, bridge_private_channel_listener_update,
}
use py_fdc3_desktop_agent.Dacp.Guards.{is_on, with_channel, with_access}

unfoldable pub handle_add_event_listener : Agent → Call → String → Agent × List Message
handle_add_event_listener a k event_type =
    let (s, l) =
      add_event_listener a.listener_store k.fresh_uuid (caller k) (some event_type) none in
    (
      record a { listener_store = s },
      answer k "addEventListenerResponse" (listener_uuid l.listener_uuid),
    )

-- `getattr(listener, "channel_id", None)`, and the same of `event_type` and `context_type`
abbrev pub channel_of : Listener → Option String
channel_of (context_listener l) = l.channel_id
channel_of (intent_listener l) = none
channel_of (event_listener l) = l.channel_id

abbrev pub event_type_of : Listener → Option String
event_type_of (context_listener l) = none
event_type_of (intent_listener l) = none
event_type_of (event_listener l) = l.event_type

abbrev pub context_type_of : Listener → Option String
context_type_of (context_listener l) = l.context_type
context_type_of (intent_listener l) = none
context_type_of (event_listener l) = none

-- `PrivateChannelEventListenerTypes(event_type)`, or `None`
abbrev pub resolved_event_type : Option String → Option String
resolved_event_type none = none
resolved_event_type (some t) =
    if t == "onAddContextListener" || t == "onUnsubscribe" || t == "onDisconnect"
    then some t
    else none

-- `request.meta.source`, or this agent
abbrev pub source_or_agent : Option AppIdentifier → AppIdentifier
source_or_agent none = this_agent
source_or_agent (some source) = source

-- What the other agents are told of a listener that was removed from the channel `channel_id`.
unfoldable pub update_removed :
    Agent → Option AppIdentifier → Option String → Option String → List Message
update_removed a source none event_type = []
update_removed a source (some channel_id) event_type =
    if truthy channel_id
    then (elim (private_of (get_channel a.channel_manager channel_id)) [
      | none ↦ []
      | some ch ↦
          bridge_private_channel_listener_update a channel_id (resolved_event_type event_type)
            (source_or_agent source) false
    ])
    else []

unfoldable pub update_of : Agent → Option AppIdentifier → Option Listener → List Message
update_of a source none = []
update_of a source (some l) = update_removed a source (channel_of l) (event_type_of l)

-- `source` is that of the request's `meta`.
unfoldable pub handle_remove_event_listener :
    Agent → Call → String → Option AppIdentifier → Agent × List Message
handle_remove_event_listener a k key source =
    let (s, removed) = remove_listener a.listener_store key in
    let a' : Agent = record a { listener_store = s } in
    (a', update_of a' source removed ++ answer k "removeEventListenerResponse" nothing)

abbrev pub id_of : Option ChannelInstance → Option String
id_of none = none
id_of (some ch) = some ch.id

-- The channel of a broadcast: that of the payload, or the current one.
abbrev pub broadcast_channel : Agent → Call → Option String → Option String
broadcast_channel a k none = id_of (get_current_channel a.channel_manager (caller k))
broadcast_channel a k (some channel_id) = some channel_id

-- `{"context": …, "channelId": channel_id} if channel_id else {"context": …}`
abbrev if_named : Option String → Option String
if_named none = none
if_named (some channel_id) = if truthy channel_id then some channel_id else none

abbrev named_source : WcpIdentity → AppIdentifier
named_source identity = record {
  app_id = text_or identity.app_id "unknown";
  instance_id = identity.instance_id;
}

unfoldable pub forward_broadcast : Agent → Call → Context → Option String → List Message
forward_broadcast a k x channel_id =
    if a.bridged && truthy k.session_id
    then bridge_broadcast x (if_named channel_id)
        (named_source (get_session_identity k.wcp_sessions k.session_id))
      ∷ []
    else []

abbrev pub router_of : Agent → ContextRouter
router_of a = record { listener_store = a.listener_store; channel_manager = a.channel_manager }

-- What the router's outcome makes of the agent; `true` is an exception that leaves the handler.
unfoldable pub routed :
    Agent
    → List Message
    → Context
    → Option (ContextRouter × List String × List Effect)
    → (Agent × List Message) × Bool
routed a forwarded x none = ((a, forwarded), true)
routed a forwarded x (some (r, targets, effects)) = (
  (
    record a { channel_manager = r.channel_manager },
    forwarded ++ (tell effects ++ map (λ i. broadcast_event i x) targets),
  ),
  false,
)

unfoldable pub handle_broadcast :
    Agent → Call → Context → Option String → (Agent × List Message) × Bool
handle_broadcast a k x channel_id =
    let c = broadcast_channel a k channel_id in
    routed a (forward_broadcast a k x c) x (broadcast_context (router_of a) x (caller k) c k.now)
