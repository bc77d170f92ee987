-- ===== src/Bridge/Delivery.antt =====
-- bridging/router.py: the instances that an fdc3Event of another agent reaches.
use py_fdc3_desktop_agent.Base.{
  ◌≡◌, refl, ap, ◌∙◌, String, Bool, true, false, not, ◌&&◌, ◌||◌, Option, none, some, List, [], ◌∷◌,
  map, arith, if◌then◌else◌, truthy, opt_truthy, ◌==◌, Bool-cases, inl, inr,
}
use py_fdc3_desktop_agent.Base.Lists.{filter}
use py_fdc3_desktop_agent.Base.Dict.{values}
use py_fdc3_desktop_agent.Base.Json.{Fields}
use py_fdc3_desktop_agent.Core.Apps.{AppInstance, get_connected_instances_for_app}
use py_fdc3_desktop_agent.Dacp.Agent.{Agent}
use py_fdc3_desktop_agent.Bridge.Requests.{
  ParsedBridgeRequest, Fdc3EventBridgeDestination, extract_fields, event_meta, event_payload,
}
use py_fdc3_desktop_agent.Bridge.Answers.{Outcome, no_response}
use py_fdc3_desktop_agent.Bridge.Events.{
  Forwarded, private_channel_event, fdc3_event, destinations, handle_fdc3_event,
}
use py_fdc3_desktop_agent.Bridge.Routing.{handle, handle_parsed, handle_request, meta_of}

-- The details of the events that the instance `i` is sent, in order.
unfoldable pub events_to : String → List Forwarded → List Fields
events_to i [] = []
events_to i (fdc3_event j details ∷ rest) =
    if j == i then details ∷ events_to i rest else events_to i rest
events_to i (private_channel_event j c t d ∷ rest) = events_to i rest

-- Whether the destination asks for the instance: by its name, or for any of the application.
abbrev pub asks_for : Option String → AppInstance → Bool
asks_for none inst = true
asks_for (some k) inst = not (truthy k) || inst.instance_id == k

-- Whether `inst` is the instance `i`, and the event is meant for it.
abbrev pub is_meant : Fdc3EventBridgeDestination → String → AppInstance → Bool
is_meant destination i inst =
    inst.instance_uuid == i
    && (inst.app_id == destination.app_id && inst.connected)
    && asks_for destination.instance_id inst

module _ (app_id i : String) (details : Fields) where
  send : AppInstance → Forwarded
  send inst = fdc3_event inst.instance_uuid details

  all-sent :
      (xs : List AppInstance)
      → events_to i (map send (filter (λ a. a.app_id == app_id && a.connected) xs))
        ≡ map
            (λ a. details)
            (filter (is_meant (record { app_id = app_id; instance_id = none }) i) xs)
  unfolding events_to send
  all-sent [] = refl
  all-sent (x ∷ xs) = ground (arith, all-sent xs)

  empty-sent :
      (k : String)
      → truthy k ≡ false
      → (xs : List AppInstance)
      → events_to i (map send (filter (λ a. a.app_id == app_id && a.connected) xs))
        ≡ map
            (λ a. details)
            (filter (is_meant (record { app_id = app_id; instance_id = some k }) i) xs)
  unfolding events_to send
  empty-sent k h [] = refl
  empty-sent k h (x ∷ xs) = ground (arith, h, empty-sent k h xs)

  one-sent :
      (k : String)
      → truthy k ≡ true
      → (xs : List AppInstance)
      → events_to i (
          map send
            (filter (λ a. a.instance_id == k) (filter (λ a. a.app_id == app_id && a.connected) xs)))
        ≡ map
            (λ a. details)
            (filter (is_meant (record { app_id = app_id; instance_id = some k }) i) xs)
  unfolding events_to send
  one-sent k h [] = refl
  one-sent k h (x ∷ xs) = ground (arith, h, one-sent k h xs)

destinations-sent :
    (a : Agent) (app_id : String) (instance_id : Option String) (i : String) (details : Fields)
    → events_to i (
        map
          (λ inst. fdc3_event inst.instance_uuid details)
          (destinations a (record { app_id = app_id; instance_id = instance_id })))
      ≡ map
          (λ inst. details)
          (filter
            (is_meant (record { app_id = app_id; instance_id = instance_id }) i)
            (values a.app_registry.instances))
unfolding destinations get_connected_instances_for_app send
destinations-sent a app_id none i details =
    all-sent app_id i details (values a.app_registry.instances)
destinations-sent a app_id (some k) i details = elim (Bool-cases (truthy k)) [
  | inl h ↦ ground (arith, h, one-sent app_id i details k h (values a.app_registry.instances))
  | inr h ↦ ground (arith, h, empty-sent app_id i details k h (values a.app_registry.instances))
]

module _ (local_name : Option String) (dacp : Fields → Agent → Agent × Outcome) (a : Agent)
    (msg : Fields) (req : ParsedBridgeRequest) (parsed : extract_fields msg ≡ some req)
    (asked : opt_truthy req.request_uuid ≡ true) where
  handle-event :
      req.msg_type ≡ some "fdc3Event"
      → handle local_name dacp a msg
        ≡ ((a, handle_fdc3_event a req.payload (meta_of msg)), no_response)
  unfolding handle handle_parsed handle_request
  handle-event t = ground (arith, parsed, asked, t)

  event-read :
      (destination : Fdc3EventBridgeDestination) (details : Fields)
      → event_meta (meta_of msg) ≡ some destination
      → event_payload req.payload ≡ some details
      → handle_fdc3_event a req.payload (meta_of msg)
        ≡ map (λ inst. fdc3_event inst.instance_uuid details) (destinations a destination)
  unfolding handle_fdc3_event
  event-read destination details m p = cc (m, p)

  -- The details of a valid event of another agent are sent to an instance exactly as often as the
  -- registry has it connected, for the application of the event's destination and, where the
  -- destination names an instance, with that name.
  pub handle-deliver :
      (destination : Fdc3EventBridgeDestination) (details : Fields)
      → req.msg_type ≡ some "fdc3Event"
      → event_meta (meta_of msg) ≡ some destination
      → event_payload req.payload ≡ some details
      → (i : String)
      → events_to i (handle local_name dacp a msg).0.1
        ≡ map (λ inst. details) (filter (is_meant destination i) (values a.app_registry.instances))
  handle-deliver destination details t m p i =
      ap (λ x. events_to i x.0.1) (handle-event t)
      ∙ (ap (events_to i) (event-read destination details m p)
          ∙ destinations-sent a destination.app_id destination.instance_id i details)
