-- ===== src/Bridge/Requests.antt =====
-- bridging/router.py: what is read from a message of the bridge, and the answers to malformed ones.
-- A pydantic model is read as the fields that the code takes from it; `none` is a validation error.
use py_fdc3_desktop_agent.Base.{
  String, Bool, true, false, Option, none, some, ◌==◌, ◌&&◌, if◌then◌else◌, is_some, opt_eq,
}
use py_fdc3_desktop_agent.Base.Json.{
  Json, json_null, json_text, json_list, json_object, no_items, Fields, no_fields, field, get,
  text_of, object_of, object_or_empty, text_ends_with, text_front, put,
}

-- `meta` is left out: nothing reads it.
pub record ParsedBridgeRequest : Type 0 where
  pub msg_type : Option String
  pub payload : Fields
  pub request_uuid : Option String

-- A field of type `str | None`.
abbrev pub optional_text : Option Json → Option (Option String)
optional_text none = some none
optional_text (some json_null) = some none
optional_text (some (json_text t)) = some (some t)
optional_text (some v) = none

-- `meta.requestUuid` of a `BridgeMessage` is what the dictionary has, so both ways to get the uuid
-- are one.
abbrev raw_uuid : Fields → Option Json
raw_uuid data_ = elim (object_or_empty (get data_ "meta")) [
  | none ↦ none
  | some meta ↦ get meta "requestUuid"
]

abbrev assemble :
    Option (Option String) → Option Fields → Option (Option String) → Option ParsedBridgeRequest
assemble (some msg_type) (some payload) (some request_uuid) =
    some (record { msg_type = msg_type; payload = payload; request_uuid = request_uuid })
assemble _ _ _ = none

-- `ParsedBridgeRequest.model_validate(msg)`
unfoldable pub extract_fields : Fields → Option ParsedBridgeRequest
unfolding get
extract_fields data_ =
    assemble (optional_text (get data_ "type")) (object_or_empty (get data_ "payload"))
      (optional_text (raw_uuid data_))

pub record Fdc3EventBridgeDestination : Type 0 where
  pub app_id : String
  pub instance_id : Option String

abbrev destination_of : Option Json → Option Fdc3EventBridgeDestination
destination_of v = elim (object_of v) [
  | none ↦ none
  | some d ↦ elim (text_of (get d "appId")) [
    | none ↦ none
    | some app_id ↦ elim (optional_text (get d "instanceId")) [
      | none ↦ none
      | some instance_id ↦ some (record { app_id = app_id; instance_id = instance_id })
    ]
  ]
]

-- `FDC3EventBridgeMeta.model_validate(meta)`, for its destination
unfoldable pub event_meta : Fields → Option Fdc3EventBridgeDestination
unfolding get
event_meta meta =
    if is_some (optional_text (get meta "requestUuid"))
    then destination_of (get meta "destination")
    else none

-- `FDC3EventBridgePayload.model_validate(payload)`, for the event's details: there is one type of
-- event.
unfoldable pub event_payload : Fields → Option Fields
unfolding get
event_payload payload = elim (object_of (get payload "event")) [
  | none ↦ none
  | some event ↦
      if opt_eq (text_of (get event "type")) "USER_CHANNEL_CHANGED"
      then object_of (get event "details")
      else none
]

-- `GetAppMetadataPayload` and `FindInstancesPayload`, and `FindIntentPayload`: whether they hold.
unfoldable pub app_payload : Fields → Bool
unfolding get
app_payload payload = elim (object_of (get payload "app")) [
  | none ↦ false
  | some app ↦ is_some (text_of (get app "appId"))
]

unfoldable pub find_intent_payload : Fields → Bool
unfolding get
find_intent_payload payload = is_some (text_of (get payload "intent"))

abbrev pub object1 : String → Json → Json
object1 k v = json_object (field k v no_fields)

abbrev pub malformed_answer : String → Json → String → Fields
malformed_answer type payload request_uuid = field "type" (json_text type) (
    field "payload" payload
      (field "meta" (object1 "requestUuid" (json_text request_uuid)) no_fields))

unfoldable pub prevalidate_bridge_request : Option String → Fields → String → Option Fields
unfolding app_payload find_intent_payload
prevalidate_bridge_request none payload request_uuid = none
prevalidate_bridge_request (some t) payload request_uuid =
    if t == "getAppMetadataRequest"
    then (if app_payload payload
        then none
        else some (
            malformed_answer "getAppMetadataResponse" (object1 "error" (json_text "AppNotFound"))
              request_uuid))
    else if t == "findIntentRequest"
    then (if find_intent_payload payload
        then none
        else some (
            malformed_answer "findIntentResponse" (object1 "error" (json_text "NoAppsFound"))
              request_uuid))
    else if t == "findInstancesRequest"
    then (if app_payload payload
        then none
        else some (
            malformed_answer "findInstancesResponse" (object1 "appIdentifiers" (json_list no_items))
              request_uuid))
    else none

unfoldable pub in_bridge_dacp_types : String → Bool
in_bridge_dacp_types t =
    if t == "open"
    then true
    else if t == "broadcast"
    then true
    else if t == "getAppMetadata"
    then true
    else if t == "findInstances"
    then true
    else if t == "findIntent"
    then true
    else if t == "findIntentsByContext"
    then true
    else t == "raiseIntent"

unfoldable pub build_dacp_message : Fields → Option String → Fields
unfolding put text_ends_with text_front in_bridge_dacp_types
build_dacp_message raw none = raw
build_dacp_message raw (some t) =
    if text_ends_with t "Request" && in_bridge_dacp_types (text_front t "Request")
    then put raw "type" (json_text (text_front t "Request"))
    else raw
