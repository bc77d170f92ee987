-- ===== src/Bridge/Tests.antt =====
-- Examples of bridging/router.py: an application that is opened for another agent, and the events of
-- another agent.
use py_fdc3_desktop_agent.Base.{Bool, false, ◌≡◌, refl, String, true, Option, none, some, [], ◌∷◌}
use py_fdc3_desktop_agent.Base.Dict.{values}
use py_fdc3_desktop_agent.Base.Json.{
  Json, json_text, json_list, json_object, item, no_items, Fields, no_fields, field, get,
  text_ends_with, text_front,
}
use py_fdc3_desktop_agent.Core.Channels.State.{init}
use py_fdc3_desktop_agent.Core.Listeners.{empty_store}
use py_fdc3_desktop_agent.Dacp.Agent.{Agent}
use py_fdc3_desktop_agent.Bridge.Requests.{
  ParsedBridgeRequest, extract_fields, event_meta, event_payload, object1,
}
use py_fdc3_desktop_agent.Bridge.Answers.{
  Outcome, bridge_response, no_response, transform_response_for_bridge,
}
use py_fdc3_desktop_agent.Bridge.Routing.{handle}
use py_fdc3_desktop_agent.Bridge.Identifiers.{answer_names, intents_name}
use py_fdc3_desktop_agent.Bridge.Typing.{handle-types}
use py_fdc3_desktop_agent.Bridge.Updates.{listens, handle-update}
use py_fdc3_desktop_agent.Bridge.Delivery.{events_to, handle-deliver}
use py_fdc3_desktop_agent.Bridge.Hiding.{by_context, in_payload, error_hidden}

-- An agent with one connected application.
abbrev agent : Agent
agent = record {
  channel_manager = init;
  listener_store = empty_store;
  app_registry = record {
    instances =
        (
          "uuid-1",
          record {
            app_id = "mail";
            instance_id = "mail-1";
            instance_uuid = "uuid-1";
            connected = true;
          },
        )
        ∷ [];
    connection_events = ("uuid-1", true) ∷ [];
  };
  default_user_channels_ready = true;
  bridged = true;
}

abbrev ours : Option String
ours = some "ours"

-- `{"requestUuid": "u", k: v}`
abbrev meta_with : String → Json → Fields
meta_with k v = field "requestUuid" (json_text "u") (field k v no_fields)

abbrev message : String → Fields → Fields → Fields
message type payload meta =
    field "type" (json_text type)
      (field "payload" (json_object payload) (field "meta" (json_object meta) no_fields))

abbrev parsed : String → Fields → ParsedBridgeRequest
parsed type payload = record { msg_type = some type; payload = payload; request_uuid = some "u" }

abbrev from_theirs : Fields
from_theirs = meta_with "source" (object1 "desktopAgent" (json_text "theirs"))

abbrev mail : Fields
mail = field "appId" (json_text "mail") no_fields

abbrev open_payload : Fields
open_payload = field "app" (json_object mail) no_fields

-- A handler that opens the application.
abbrev opening : Fields → Agent → Agent × Outcome
opening m a = (
  a,
  bridge_response (
      field "type" (json_text "openResponse")
        (field "payload" (object1 "appIdentifier" (json_object mail)) no_fields)),
)

abbrev opened : Fields
opened = field "type" (json_text "openResponse") (
    field "payload"
      (object1 "appIdentifier" (
        json_object
          (field "appId" (json_text "mail") (field "desktopAgent" (json_text "ours") no_fields))))
      no_fields)

open_handled :
    (handle ours opening agent (message "openRequest" open_payload from_theirs)).1
    ≡ bridge_response opened
unfolding handle
open_handled = refl

abbrev a_list : Json → Json
a_list v = json_list (item v no_items)

-- The applications of an intent that are found by a context, without an agent.
abbrev unnamed_intents : Fields → Agent → Agent × Outcome
unnamed_intents m a = (
  a,
  bridge_response (
      field "type" (json_text "findIntentsByContextResponse") (
        field "payload" (object1 "appIntents" (a_list (object1 "apps" (a_list (json_object mail)))))
          no_fields)),
)

abbrev all_named : Outcome → Bool
all_named (bridge_response r) = answer_names r
all_named o = true

by_context_unnamed :
    all_named
      (handle ours unnamed_intents agent
        (message "findIntentsByContextRequest" no_fields from_theirs)).1
    ≡ false
unfolding handle answer_names intents_name
by_context_unnamed = refl

handle-types_example : get opened "type" ≡ some (json_text "openResponse")
unfolding get text_ends_with text_front
handle-types_example =
    handle-types ours opening agent (message "openRequest" open_payload from_theirs) opened
      (parsed "openRequest" open_payload) "openRequest" (unfold extract_fields in refl) refl refl
      open_handled

abbrev listening : Fields
listening = field "channelId" (json_text "private-1") no_fields

-- Another agent that starts to listen, and this agent's own message, which comes back.
handle-update_example :
    (listens
        (handle ours opening agent
          (message "privateChannelEventListenerAdded" listening from_theirs)).0.0.channel_manager
        "private-1"
        "theirs"
      ≡ true)
    × ((handle ours opening agent
          (message "privateChannelEventListenerAdded" listening from_theirs)).0.1
        ≡ [])
    × ((handle ours opening agent
          (message "privateChannelEventListenerAdded" listening from_theirs)).1
        ≡ no_response)
handle-update_example =
    handle-update ours opening agent
      (message "privateChannelEventListenerAdded" listening from_theirs)
      (parsed "privateChannelEventListenerAdded" listening) (unfold extract_fields in refl) refl
      true (field "desktopAgent" (json_text "theirs") no_fields) "private-1" "theirs" refl
      (unfold get in refl) (unfold get in refl) (unfold get in refl) refl refl "private-1" "theirs"

abbrev event : Fields
event =
    field "event"
      (json_object (
        field "type" (json_text "USER_CHANNEL_CHANGED")
          (field "details" (json_object mail) no_fields)))
      no_fields

abbrev to_mail : Fields
to_mail = meta_with "destination" (json_object mail)

handle-deliver_example :
    events_to "uuid-1" (handle ours opening agent (message "fdc3Event" event to_mail)).0.1
    ≡ mail ∷ []
unfolding values
handle-deliver_example =
    handle-deliver ours opening agent (message "fdc3Event" event to_mail) (parsed "fdc3Event" event)
      (unfold extract_fields in refl) refl (record { app_id = "mail"; instance_id = none }) mail
      refl (unfold event_meta in refl) (unfold event_payload in refl) "uuid-1"

-- The answer to a malformed request.
abbrev erroneous : Fields
erroneous =
    field "type" (json_text "findIntentsByContextResponse")
      (field "payload" (object1 "error" (json_text "Failed to parse message")) no_fields)

error_hidden_example :
    (r : Fields) × (transform_response_for_bridge ours erroneous (some by_context)
      ≡ bridge_response r)
    × (in_payload r "error" ≡ none)
    × (in_payload r "appIntents" ≡ some (json_list no_items))
error_hidden_example =
    error_hidden ours erroneous (field "error" (json_text "Failed to parse message") no_fields)
      (unfold get in refl) (unfold get in refl)
