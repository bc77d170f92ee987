-- ===== src/Dacp/Listening/Keeping.antt =====
-- handlers/dacp/event.py: the handlers and the invariants of the services.
use py_fdc3_desktop_agent.Base.{
  String, ◌≡◌, Bool, true, false, Option, none, some, List, arith, truthy, opt_truthy,
  if◌then◌else◌,
}
use py_fdc3_desktop_agent.Core.Apps.{AppRegistry}
use py_fdc3_desktop_agent.Core.Channels.State.{ChannelInstance, ChannelManager, Context, Effect}
use py_fdc3_desktop_agent.Core.Channels.Membership.{get_current_channel}
use py_fdc3_desktop_agent.Core.Channels.Steps.{Operation, broadcast, set_context, step}
use py_fdc3_desktop_agent.Core.Listeners.Index.{IsIndexed, IsFresh, add-IsIndexed}
use py_fdc3_desktop_agent.Core.Listeners.Removal.{remove-IsIndexed}
use py_fdc3_desktop_agent.Core.Routing.{
  ContextRouter, resolve_channel, remember, broadcast_on_channel, broadcast_context,
}
use py_fdc3_desktop_agent.Dacp.Agent.{Agent, Message, Call, caller}
use py_fdc3_desktop_agent.Dacp.Listening.{
  handle_add_event_listener, handle_remove_event_listener, broadcast_channel, forward_broadcast,
  router_of, routed, handle_broadcast, id_of,
}
use py_fdc3_desktop_agent.Dacp.Listening.Requests.{
  add_context_on, add_context_at, handle_add_context_listener, handle_add_intent_listener,
  handle_intent_listener_unsubscribe, handle_context_listener_unsubscribe,
  handle_heartbeat_acknowledgment, EventRequest, add_event_listener_request,
  remove_event_listener_request, broadcast_request, add_context_listener_request,
  add_intent_listener_request, intent_listener_unsubscribe_request,
  context_listener_unsubscribe_request, heartbeat_acknowledgment_request, handle_event,
}
use py_fdc3_desktop_agent.Dacp.Channels.Cases.{with_channel-cases, with_access-cases, if-cases}

-- `P` is what the calls of the channel manager keep; the registry is the one given.
module _ (P : ChannelManager → Type 0)
    (keep : (m : ChannelManager) (op : Operation) → P m → P (step m op)) (r : AppRegistry) where
  abbrev pub Holds : Agent → Type 0
  Holds a = IsIndexed a.listener_store × (a.app_registry ≡ r) × P a.channel_manager

  abbrev HoldsAfter : Agent × List Message → Type 0
  HoldsAfter out = Holds out.0

  remembered : (m : ChannelManager) (c : Option String) (x : Context) → P m → P (remember m c x)
  unfolding step
  remembered m none x h = h
  remembered m (some c) x h = ground (arith, h, keep m (set_context c x) h)

  on_channel :
      (m : ChannelManager) (c : Option String) (x : Context) (source : String)
      (targets : List String) (now : String)
      → P m
      → P (broadcast_on_channel m c x source targets now).0
  unfolding broadcast_on_channel step
  on_channel m none x source targets now h = h
  on_channel m (some c) x source targets now h =
      ground (arith, h, keep m (broadcast c x source now) h)

  abbrev AfterRoute : Option (ContextRouter × List String × List Effect) → Type 0
  AfterRoute none = Unit
  AfterRoute (some (router, targets, effects)) = P router.channel_manager

  if_typed :
      (b : Bool) (o : Option (ContextRouter × List String × List Effect))
      → AfterRoute o
      → AfterRoute (if b then o else none)
  if_typed true o h = h
  if_typed false o h = tt

  routes :
      (a : Agent) (x : Context) (source : String) (c : Option String) (now : String)
      → P a.channel_manager
      → AfterRoute (broadcast_context (router_of a) x source c now)
  unfolding broadcast_context
  routes a x source c now h =
      let resolved = resolve_channel a.channel_manager source c in
      if_typed (opt_truthy x.type) _ (
        on_channel (remember a.channel_manager resolved x) resolved x source _ now
          (remembered a.channel_manager resolved x h))

  routed-Holds :
      (a : Agent) (forwarded : List Message) (x : Context)
      (o : Option (ContextRouter × List String × List Effect))
      → Holds a
      → AfterRoute o
      → HoldsAfter (routed a forwarded x o).0
  unfolding routed
  routed-Holds a forwarded x none h g = h
  routed-Holds a forwarded x (some (router, targets, effects)) h g = (h.0, h.1, g)

  module _ (k : Call) where
    add_context-Holds :
        (a : Agent) (current : Option ChannelInstance) (target t : Option String)
        → IsFresh a.listener_store k.fresh_uuid
        → Holds a
        → HoldsAfter (add_context_on a k current target t)
    unfolding add_context_on
    add_context-Holds a current target t fresh h =
        ((add-IsIndexed a.listener_store k.fresh_uuid (caller k) "" t target fresh h.0).0, h.1, h.2)

    add_context_at-Holds :
        (a : Agent) (current : Option ChannelInstance) (t c : Option String)
        → IsFresh a.listener_store k.fresh_uuid
        → Holds a
        → HoldsAfter (add_context_at a k current t c)
    unfolding add_context_at
    add_context_at-Holds a current t none fresh h =
        add_context-Holds a current (id_of current) t fresh h
    add_context_at-Holds a current t (some requested) fresh h =
        if-cases HoldsAfter (truthy requested) _ _
          (with_channel-cases HoldsAfter _ _ _ _ h (λ ch e.
            with_access-cases HoldsAfter _ _ _ _ h
              (λ f. add_context-Holds a current (some requested) t fresh h)))
          (add_context-Holds a current (id_of current) t fresh h)

    -- A handler of these keeps the index of the listeners and what the calls of the channel manager
    -- keep, and changes no instance; a listener that it adds has the uuid that it draws.
    pub handle_event-Holds :
        (a : Agent) (q : EventRequest)
        → IsFresh a.listener_store k.fresh_uuid
        → Holds a
        → HoldsAfter (handle_event a k q).0
    unfolding handle_event
    handle_event-Holds a (add_event_listener_request t) fresh h =
        unfold handle_add_event_listener in
        (
          (add-IsIndexed a.listener_store k.fresh_uuid (caller k) "" (some t) none fresh h.0).2,
          h.1,
          h.2,
        )
    handle_event-Holds a (remove_event_listener_request key source) fresh h =
        unfold handle_remove_event_listener in (remove-IsIndexed a.listener_store key h.0, h.1, h.2)
    handle_event-Holds a (broadcast_request x c) fresh h =
        unfold handle_broadcast in
        routed-Holds a (forward_broadcast a k x (broadcast_channel a k c)) x _ h
          (routes a x (caller k) (broadcast_channel a k c) k.now h.2)
    handle_event-Holds a (add_context_listener_request t c) fresh h =
        unfold handle_add_context_listener in
        add_context_at-Holds a (get_current_channel a.channel_manager (caller k)) t c fresh h
    handle_event-Holds a (add_intent_listener_request intent) fresh h =
        unfold handle_add_intent_listener in
        (
          (add-IsIndexed a.listener_store k.fresh_uuid (caller k) intent none none fresh h.0).1,
          h.1,
          h.2,
        )
    handle_event-Holds a (intent_listener_unsubscribe_request key) fresh h =
        unfold handle_intent_listener_unsubscribe in
        (remove-IsIndexed a.listener_store key h.0, h.1, h.2)
    handle_event-Holds a (context_listener_unsubscribe_request key) fresh h =
        unfold handle_context_listener_unsubscribe in
        (remove-IsIndexed a.listener_store key h.0, h.1, h.2)
    handle_event-Holds a heartbeat_acknowledgment_request fresh h =
        unfold handle_heartbeat_acknowledgment in h
