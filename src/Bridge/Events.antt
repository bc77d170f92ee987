-- ===== src/Bridge/Events.antt =====
-- bridging/router.py: the events of the bridge, which need no response.
use py_fdc3_desktop_agent.Base.{
  String, Bool, true, false, ◌||◌, Option, none, some, List, [], map, ◌==◌, ◌&&◌, if◌then◌else◌,
  truthy, opt_truthy, opt_eq,
}
use py_fdc3_desktop_agent.Base.Lists.{filter}
use py_fdc3_desktop_agent.Base.Json.{Fields, get, text_of, object_of, object_or_empty}
use py_fdc3_desktop_agent.Core.Apps.{AppInstance, get_connected_instances_for_app}
use py_fdc3_desktop_agent.Core.Channels.Remote.{
  add_remote_private_channel_listener, remove_remote_private_channel_listener,
}
use py_fdc3_desktop_agent.Core.Listeners.{get_event_listeners}
use py_fdc3_desktop_agent.Dacp.Agent.{Agent}
use py_fdc3_desktop_agent.Bridge.Requests.{Fdc3EventBridgeDestination, event_meta, event_payload}

-- What `send_to_instance` is given: the instance, and the event with its channel, type and details.
pub data Forwarded : Type 0 where
  private_channel_event : String → String → String → Option Fields → Forwarded
  fdc3_event : String → Fields → Forwarded

-- An exception, or the new state and the sends.
abbrev pub Handled : Type 0
Handled = Option (Agent × List Forwarded)

-- `meta.get("source") or {}`; `none` is a value that has no `get`
abbrev pub source_of : Fields → Option Fields
source_of meta = object_or_empty (get meta "source")

abbrev pub agent_of : Fields → Option String
agent_of source = text_of (get source "desktopAgent")

-- `PrivateChannelEventListenerTypes`
abbrev pub is_listener_type : String → Bool
is_listener_type t = t == "onAddContextListener" || t == "onUnsubscribe" || t == "onDisconnect"

-- Whether the name is this agent's, when it has one and the name is not empty.
abbrev pub is_local : Option String → Option String → Bool
is_local local_name none = false
is_local local_name (some name) = truthy name && opt_eq local_name name

unfoldable pub forward_event : Agent → String → String → Option Fields → Handled
unfolding get_event_listeners
forward_event a channel_id event_type details =
    if is_listener_type event_type
    then some (
      a,
      map (λ l. private_channel_event l.instance_uuid channel_id event_type details)
          (get_event_listeners a.listener_store event_type none (some channel_id)),
    )
    else none

abbrev pub event_from :
    Option String → Agent → String → String → Option Fields → Option Fields → Handled
event_from local_name a channel_id event_type details none = none
event_from local_name a channel_id event_type details (some source) =
    if is_local local_name (agent_of source)
    then some (a, [])
    else forward_event a channel_id event_type details

unfoldable pub handle_private_channel_event : Option String → Agent → Fields → Fields → Handled
unfolding forward_event get
handle_private_channel_event local_name a payload meta = elim (text_of (get payload "channelId")) [
  | none ↦ some (a, [])
  | some channel_id ↦ elim (text_of (get payload "eventType")) [
    | none ↦ some (a, [])
    | some event_type ↦
        event_from local_name a channel_id event_type (object_of (get payload "details"))
          (source_of meta)
  ]
]

abbrev pub update_listeners : Agent → String → String → Bool → Agent
update_listeners a channel_id desktop_agent true = record a {
  channel_manager = add_remote_private_channel_listener a.channel_manager channel_id desktop_agent;
}
update_listeners a channel_id desktop_agent false = record a {
  channel_manager =
      remove_remote_private_channel_listener a.channel_manager channel_id desktop_agent;
}

abbrev pub update_from : Option String → Agent → Option String → Option String → Bool → Agent
update_from local_name a (some channel_id) (some desktop_agent) added =
    if opt_truthy local_name && opt_eq local_name desktop_agent
    then a
    else update_listeners a channel_id desktop_agent added
update_from local_name a _ _ added = a

unfoldable pub handle_private_channel_listener_update :
    Option String → Agent → Fields → Fields → Bool → Handled
unfolding get
handle_private_channel_listener_update local_name a payload meta added = elim (source_of meta) [
  | none ↦ none
  | some source ↦
      some
        (update_from local_name a (text_of (get payload "channelId")) (agent_of source) added, [])
]

-- The instances that an event goes to.
unfoldable pub destinations : Agent → Fdc3EventBridgeDestination → List AppInstance
unfolding get_connected_instances_for_app
destinations a destination =
    let instances = get_connected_instances_for_app a.app_registry destination.app_id in
    elim destination.instance_id [
      | none ↦ instances
      | some i ↦ if truthy i then filter (λ inst. inst.instance_id == i) instances else instances
    ]

unfoldable pub handle_fdc3_event : Agent → Fields → Fields → List Forwarded
unfolding event_meta event_payload destinations
handle_fdc3_event a payload meta = elim (event_meta meta) [
  | none ↦ []
  | some destination ↦ elim (event_payload payload) [
    | none ↦ []
    | some details ↦
        map (λ inst. fdc3_event inst.instance_uuid details) (destinations a destination)
  ]
]
