-- ===== src/Bridge/Routing.antt =====
-- bridging/router.py: `BridgeRequestRouter.handle`.
use py_fdc3_desktop_agent.Base.{
  String, true, false, Option, none, some, List, [], if◌then◌else◌, opt_truthy, opt_eq, text_or,
}
use py_fdc3_desktop_agent.Base.Json.{Fields, no_fields, get, object_or_empty}
use py_fdc3_desktop_agent.Dacp.Agent.{Agent}
use py_fdc3_desktop_agent.Bridge.Requests.{
  ParsedBridgeRequest, extract_fields, prevalidate_bridge_request, build_dacp_message,
}
use py_fdc3_desktop_agent.Bridge.Answers.{
  Outcome, failed, no_response, bridge_response, transform_response_for_bridge,
}
use py_fdc3_desktop_agent.Bridge.Events.{
  Forwarded, Handled, handle_private_channel_event, handle_private_channel_listener_update,
  handle_fdc3_event,
}

-- Where an event leads.
abbrev pub settled : Agent → Handled → (Agent × List Forwarded) × Outcome
settled a none = ((a, []), failed)
settled a (some done) = (done, no_response)

-- `msg.get("meta") or {}`, a dict in every message that has a request uuid
abbrev pub meta_of : Fields → Fields
meta_of msg = elim (object_or_empty (get msg "meta")) [ none ↦ no_fields | some meta ↦ meta ]

-- `local_name` is the agent's name on the bridge. `dacp` is `DACPHandler.handle_message` for the
-- session "" with no sessions: the agent it leaves, and an exception, no response, or the dump of
-- the response that it sends last.
module _ (local_name : Option String) (dacp : Fields → Agent → Agent × Outcome) where
  abbrev pub transform : Option String → Outcome → Outcome
  transform msg_type failed = failed
  transform msg_type no_response = no_response
  transform msg_type (bridge_response resp) = transform_response_for_bridge local_name resp msg_type

  unfoldable pub dispatch : Agent → Fields → Option String → (Agent × List Forwarded) × Outcome
  unfolding build_dacp_message transform_response_for_bridge
  dispatch a msg msg_type =
      let (a', reply) = dacp (build_dacp_message msg msg_type) a in
      ((a', []), transform msg_type reply)

  unfoldable pub handle_request :
      Agent → Fields → ParsedBridgeRequest → (Agent × List Forwarded) × Outcome
  unfolding handle_private_channel_event handle_private_channel_listener_update handle_fdc3_event
      prevalidate_bridge_request dispatch
  handle_request a msg req =
      if opt_eq req.msg_type "privateChannelEvent"
      then settled a (handle_private_channel_event local_name a req.payload (meta_of msg))
      else if opt_eq req.msg_type "privateChannelEventListenerAdded"
      then settled a
          (handle_private_channel_listener_update local_name a req.payload (meta_of msg) true)
      else if opt_eq req.msg_type "privateChannelEventListenerRemoved"
      then settled a
          (handle_private_channel_listener_update local_name a req.payload (meta_of msg) false)
      else if opt_eq req.msg_type "fdc3Event"
      then ((a, handle_fdc3_event a req.payload (meta_of msg)), no_response)
      else elim (prevalidate_bridge_request req.msg_type req.payload
          (text_or req.request_uuid "")) [
            | some answer ↦ ((a, []), bridge_response answer)
            | none ↦ dispatch a msg req.msg_type
          ]

  unfoldable pub handle_parsed :
      Agent → Fields → Option ParsedBridgeRequest → (Agent × List Forwarded) × Outcome
  unfolding handle_request
  handle_parsed a msg none = ((a, []), failed)
  handle_parsed a msg (some req) =
      if opt_truthy req.request_uuid then handle_request a msg req else ((a, []), no_response)

  unfoldable pub handle : Agent → Fields → (Agent × List Forwarded) × Outcome
  unfolding extract_fields handle_parsed
  handle a msg = handle_parsed a msg (extract_fields msg)
