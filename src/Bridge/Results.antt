-- ===== src/Bridge/Results.antt =====
-- bridging/router.py: what `handle` returns, from what its steps return.
use mathlib.Core.Option.{some-injective}
use py_fdc3_desktop_agent.Base.{
  ◌≡◌, refl, String, Bool, true, false, Option, none, some, List, [], if◌then◌else◌, opt_truthy,
  opt_eq, text_or, subst,
}
use py_fdc3_desktop_agent.Base.Json.{Fields}
use py_fdc3_desktop_agent.Dacp.Agent.{Agent}
use py_fdc3_desktop_agent.Bridge.Requests.{
  ParsedBridgeRequest, extract_fields, prevalidate_bridge_request, build_dacp_message,
}
use py_fdc3_desktop_agent.Bridge.Answers.{
  Outcome, failed, no_response, bridge_response, transform_response_for_bridge,
}
use py_fdc3_desktop_agent.Bridge.Events.{
  Forwarded, Handled, handle_private_channel_event, handle_private_channel_listener_update,
  handle_fdc3_event,
}
use py_fdc3_desktop_agent.Bridge.Routing.{
  handle, handle_parsed, handle_request, dispatch, transform, settled, meta_of,
}

-- What holds of the answers to malformed requests and of the transformed responses holds of every
-- response.
module _ (local_name : Option String) (dacp : Fields → Agent → Agent × Outcome)
    (P : Option String → Fields → Type 0)
    (of_malformed : (t : Option String) (payload : Fields) (u : String) (r : Fields)
      → prevalidate_bridge_request t payload u ≡ some r
      → P t r)
    (of_response : (t : Option String) (resp r : Fields)
      → transform_response_for_bridge local_name resp t ≡ bridge_response r
      → P t r) where
  -- `x` leads to a response only if that has the property.
  abbrev Holds : Option String → (Agent × List Forwarded) × Outcome → Type 0
  Holds t x = (r : Fields) → x.1 ≡ bridge_response r → P t r

  choice :
      (t : Option String) (b : Bool) (x y : (Agent × List Forwarded) × Outcome)
      → Holds t x
      → Holds t y
      → Holds t (if b then x else y)
  choice t true x y f g = f
  choice t false x y f g = g

  settled-Holds : (t : Option String) (a : Agent) (h : Handled) → Holds t (settled a h)
  settled-Holds t a none r e = absurd (cc e)
  settled-Holds t a (some d) r e = absurd (cc e)

  sent-Holds : (t : Option String) (done : Agent × List Forwarded) → Holds t (done, no_response)
  sent-Holds t done r e = absurd (cc e)

  dispatched-Holds :
      (a : Agent) (t : Option String) (reply : Outcome)
      → Holds t ((a, []), transform local_name dacp t reply)
  dispatched-Holds a t failed r e = absurd (cc e)
  dispatched-Holds a t no_response r e = absurd (cc e)
  dispatched-Holds a t (bridge_response resp) r e = of_response t resp r e

  validated-Holds :
      (a : Agent) (msg : Fields) (req : ParsedBridgeRequest) (u : String) (o : Option Fields)
      → prevalidate_bridge_request req.msg_type req.payload u ≡ o
      → Holds req.msg_type (elim o [
        | some answer ↦ ((a, []), bridge_response answer)
        | none ↦ dispatch local_name dacp a msg req.msg_type
      ])
  unfolding dispatch
  validated-Holds a msg req u none e r f =
      let (a', reply) = dacp (build_dacp_message msg req.msg_type) a in
      dispatched-Holds a' req.msg_type reply r f
  validated-Holds a msg req u (some answer) e r f =
      of_malformed req.msg_type req.payload u r (cc (e, f))

  request-Holds :
      (a : Agent) (msg : Fields) (req : ParsedBridgeRequest)
      → Holds req.msg_type (handle_request local_name dacp a msg req)
  unfolding handle_request
  request-Holds a msg req =
      choice t (opt_eq t "privateChannelEvent") _ _
        (settled-Holds t a (handle_private_channel_event local_name a req.payload (meta_of msg)))
        (choice t (opt_eq t "privateChannelEventListenerAdded") _ _
          (settled-Holds t a
            (handle_private_channel_listener_update local_name a req.payload (meta_of msg) true))
          (choice t (opt_eq t "privateChannelEventListenerRemoved") _ _
            (settled-Holds t a
              (handle_private_channel_listener_update local_name a req.payload (meta_of msg) false))
            (choice t (opt_eq t "fdc3Event") _ _
              (sent-Holds t (a, handle_fdc3_event a req.payload (meta_of msg)))
              (validated-Holds a msg req u (prevalidate_bridge_request t req.payload u) refl))))
    where
      t : Option String
      t = req.msg_type

      u : String
      u = text_or req.request_uuid ""

  parsed-Holds :
      (a : Agent) (msg r : Fields) (req : ParsedBridgeRequest) (o : Option ParsedBridgeRequest)
      → o ≡ some req
      → (handle_parsed local_name dacp a msg o).1 ≡ bridge_response r
      → P req.msg_type r
  unfolding handle_parsed
  parsed-Holds a msg r req none f g = absurd (cc f)
  parsed-Holds a msg r req (some q) f g =
      subst (λ x. P x.msg_type r) (some-injective q req f)
        (choice q.msg_type (opt_truthy q.request_uuid) _ _ (request-Holds a msg q)
          (sent-Holds q.msg_type (a, [])) r g)

  pub handle-holds :
      (a : Agent) (msg r : Fields) (req : ParsedBridgeRequest)
      → extract_fields msg ≡ some req
      → (handle local_name dacp a msg).1 ≡ bridge_response r
      → P req.msg_type r
  unfolding handle
  handle-holds a msg r req = parsed-Holds a msg r req (extract_fields msg)
