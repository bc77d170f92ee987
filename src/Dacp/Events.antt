-- ===== src/Dacp/Events.antt =====
-- handlers/dacp/base.py: the events that the channel handlers send to instances and to the bridge.
use py_fdc3_desktop_agent.Base.{
  text_or, String, Bool, Option, none, some, List, [], ◌∷◌, ◌++◌, map, if◌then◌else◌, truthy,
}
use py_fdc3_desktop_agent.Base.Lists.{is_empty}
use py_fdc3_desktop_agent.Core.Apps.{AppInstance, AppRegistry, get_instance}
use py_fdc3_desktop_agent.Core.Channels.Remote.{get_remote_private_channel_listeners}
use py_fdc3_desktop_agent.Core.Listeners.{get_event_listeners}
use py_fdc3_desktop_agent.Dacp.Agent.{
  Agent, AppIdentifier, Message, user_channel_changed, private_channel_event, bridge_event,
  bridge_listener_update, Details,
}

unfoldable pub emit_user_channel_changed_event : Agent → String → Option String → List Message
emit_user_channel_changed_event a instance_uuid current_channel_id =
    if is_empty
      (get_event_listeners a.listener_store "USER_CHANNEL_CHANGED" (some instance_uuid) none)
    then []
    else user_channel_changed instance_uuid current_channel_id ∷ []

abbrev pub this_agent : AppIdentifier
this_agent = record { app_id = "fdc3-desktop-agent"; instance_id = none }

abbrev identifier_of : Option AppInstance → AppIdentifier
identifier_of none = this_agent
identifier_of (some a) =
    if truthy a.app_id
    then record { app_id = a.app_id; instance_id = some a.instance_id }
    else this_agent

unfoldable pub bridge_source_from_instance_uuid : AppRegistry → String → AppIdentifier
bridge_source_from_instance_uuid apps instance_uuid =
    if truthy instance_uuid then identifier_of (get_instance apps instance_uuid) else this_agent

-- `details.get("instanceUuid") or details.get("initiatorInstanceUuid")`, where no instance is "".
abbrev pub source_uuid : Details → String
source_uuid details = text_or details.instance_uuid (text_or details.initiator_instance_uuid "")

unfoldable pub bridge_private_channel_event : Agent → String → String → Details → List Message
bridge_private_channel_event a channel_id event_type details =
    if a.bridged
    then map
        (λ agent.
          bridge_event agent channel_id event_type details
            (bridge_source_from_instance_uuid a.app_registry (source_uuid details)))
        (get_remote_private_channel_listeners a.channel_manager channel_id)
    else []

unfoldable pub emit_private_channel_event : Agent → String → String → Details → List Message
emit_private_channel_event a channel_id event_type details =
    let listeners = get_event_listeners a.listener_store event_type none (some channel_id) in
    if is_empty listeners
    then []
    else (map (λ l. private_channel_event l.instance_uuid channel_id event_type details) listeners
        ++ bridge_private_channel_event a channel_id event_type details)

unfoldable pub bridge_private_channel_listener_update :
    Agent → String → Option String → AppIdentifier → Bool → List Message
bridge_private_channel_listener_update a channel_id event_type source added =
    if a.bridged then bridge_listener_update channel_id event_type source added ∷ [] else []
