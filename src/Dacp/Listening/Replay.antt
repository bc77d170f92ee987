-- ===== src/Dacp/Listening/Replay.antt =====
-- handlers/dacp/event.py: a listener that is added after a broadcast gets the context.
use py_fdc3_desktop_agent.Base.{
  String, ◌≡◌, refl, ap, ◌∙◌, Bool, true, false, Option, none, some, List, [], ◌∷◌, ◌++◌, map,
  arith, eq_refl, if◌then◌else◌, truthy, opt_truthy,
}
use py_fdc3_desktop_agent.Core.Channels.State.{ChannelInstance, ChannelManager, Context, Effect}
use py_fdc3_desktop_agent.Core.Channels.Contexts.{
  get_channel_context, set_channel_context, store_context,
}
use py_fdc3_desktop_agent.Core.Channels.Membership.{get_current_channel, broadcast_to_channel}
use py_fdc3_desktop_agent.Core.Channels.Recall.{asks_for, stored_type}
use py_fdc3_desktop_agent.Core.Listeners.{ContextListener, EventListener, get_event_listeners}
use py_fdc3_desktop_agent.Core.Routing.{
  ContextRouter, broadcast_context, broadcast_on_channel, remember, resolve_channel,
}
use py_fdc3_desktop_agent.Core.Routing.Targets.{recalled, broadcast_recall}
use py_fdc3_desktop_agent.Dacp.Agent.{
  Agent, Message, private_channel_event, bridge_event, Details, AppIdentifier, Call, caller,
}
use py_fdc3_desktop_agent.Dacp.Events.{
  emit_private_channel_event, bridge_private_channel_event, bridge_source_from_instance_uuid,
  source_uuid,
}
use py_fdc3_desktop_agent.Core.Channels.Remote.{get_remote_private_channel_listeners}
use py_fdc3_desktop_agent.Dacp.Listening.{
  broadcast_channel, forward_broadcast, router_of, routed, handle_broadcast,
}
use py_fdc3_desktop_agent.Dacp.Listening.Requests.{
  announce, replay, add_context_on, add_context_at, handle_add_context_listener, if_truthy,
  send_context,
}
use py_fdc3_desktop_agent.Dacp.Listening.Delivery.{contexts_to, contexts-append, resolved}

contexts-events :
    (i : String) (ls : List EventListener) (c t : String) (d : Details)
    → contexts_to i (map (λ l. private_channel_event l.instance_uuid c t d) ls) ≡ []
unfolding contexts_to
contexts-events i [] c t d = refl
contexts-events i (l ∷ ls) c t d = contexts-events i ls c t d

contexts-bridge_events :
    (i : String) (agents : List String) (c t : String) (d : Details) (s : AppIdentifier)
    → contexts_to i (map (λ g. bridge_event g c t d s) agents) ≡ []
unfolding contexts_to
contexts-bridge_events i [] c t d s = refl
contexts-bridge_events i (g ∷ gs) c t d s = contexts-bridge_events i gs c t d s

contexts-private_event :
    (i : String) (a : Agent) (c t : String) (d : Details)
    → contexts_to i (emit_private_channel_event a c t d) ≡ []
unfolding emit_private_channel_event bridge_private_channel_event contexts_to
contexts-private_event i a c t d = ground (
  arith,
  contexts-append i
      (map (λ l. private_channel_event l.instance_uuid c t d)
        (get_event_listeners a.listener_store t none (some c)))
      (bridge_private_channel_event a c t d),
  contexts-events i (get_event_listeners a.listener_store t none (some c)) c t d,
  contexts-bridge_events i (get_remote_private_channel_listeners a.channel_manager c) c t d
      (bridge_source_from_instance_uuid a.app_registry (source_uuid d)),
)

contexts-announce :
    (i : String) (a : Agent) (o : Option ChannelInstance) (l : ContextListener)
    → contexts_to i (announce a o l) ≡ []
unfolding announce contexts_to
contexts-announce i a none l = refl
contexts-announce i a (some ch) l = ground (
  arith,
  contexts-private_event i a ch.id "onAddContextListener" (record {
    listener_uuid = some l.listener_uuid;
    instance_uuid = some l.instance_uuid;
    initiator_instance_uuid = none;
    context_type = if_truthy l.context_type;
  }),
)

-- The instance `i` is on the channel that it was on.
abbrev Stays : ChannelManager → String → ChannelManager → Type 0
Stays m i m' = get_current_channel m' i ≡ get_current_channel m i

Stays-remember :
    (m : ChannelManager) (i : String) (c : Option String) (x : Context) → Stays m i (remember m c x)
unfolding get_current_channel set_channel_context store_context
Stays-remember m i none x = refl
Stays-remember m i (some c) x = ground arith

Stays-on_channel :
    (m : ChannelManager) (i : String) (c : Option String) (x : Context) (source : String)
    (targets : List String) (now : String)
    → Stays m i (broadcast_on_channel m c x source targets now).0
unfolding get_current_channel broadcast_on_channel broadcast_to_channel set_channel_context
    store_context
Stays-on_channel m i none x source targets now = refl
Stays-on_channel m i (some c) x source targets now = ground arith

abbrev StaysAfter : Agent → String → Option (ContextRouter × List String × List Effect) → Type 0
StaysAfter a i none = Unit
StaysAfter a i (some (r, targets, effects)) = Stays a.channel_manager i r.channel_manager

if_typed :
    (a : Agent) (i : String) (b : Bool) (o : Option (ContextRouter × List String × List Effect))
    → StaysAfter a i o
    → StaysAfter a i (if b then o else none)
if_typed a i true o h = h
if_typed a i false o h = tt

routes :
    (a : Agent) (i : String) (x : Context) (source : String) (c : Option String) (now : String)
    → StaysAfter a i (broadcast_context (router_of a) x source c now)
unfolding broadcast_context
routes a i x source c now =
    let resolved = resolve_channel a.channel_manager source c in
    if_typed a i (opt_truthy x.type) _ (
      Stays-on_channel (remember a.channel_manager resolved x) i resolved x source _ now
      ∙ Stays-remember a.channel_manager i resolved x)

Stays-routed :
    (a : Agent) (ms : List Message) (x : Context)
    (o : Option (ContextRouter × List String × List Effect)) (i : String)
    → StaysAfter a i o
    → Stays a.channel_manager i (routed a ms x o).0.0.channel_manager
unfolding routed
Stays-routed a ms x none i h = refl
Stays-routed a ms x (some (r, targets, effects)) i h = h

abbrev answered : Option Context → Option (Option Context) → Option Context
answered before none = before
answered before (some found) = found

context-routed :
    (a : Agent) (ms : List Message) (x : Context)
    (o : Option (ContextRouter × List String × List Effect)) (id : String) (q : Option String)
    → get_channel_context (routed a ms x o).0.0.channel_manager id q
      ≡ answered (get_channel_context a.channel_manager id q) (recalled o id q)
unfolding routed
context-routed a ms x none id q = refl
context-routed a ms x (some (r, targets, effects)) id q = refl

append-nothing : (xs : List Context) → xs ++ [] ≡ xs
append-nothing [] = refl
append-nothing (x ∷ xs) = ap (λ ys. x ∷ ys) (append-nothing xs)

contexts-middle :
    (i : String) (before ms after : List Message)
    → contexts_to i before ≡ []
    → contexts_to i after ≡ []
    → contexts_to i (before ++ (ms ++ after)) ≡ contexts_to i ms
contexts-middle i before ms after h g =
    rw (contexts-append i before (ms ++ after), h, contexts-append i ms after, g)
      (append-nothing (contexts_to i ms))

-- What an instance on the channel `ch` gets as it adds a listener without naming a channel.
contexts-add :
    (a : Agent) (k : Call) (ch : ChannelInstance) (q : Option String)
    → get_current_channel a.channel_manager (caller k) ≡ some ch
    → contexts_to (caller k) (handle_add_context_listener a k q none).1
      ≡ contexts_to
          (caller k)
          (send_context (caller k) (get_channel_context a.channel_manager ch.id q))
unfolding handle_add_context_listener add_context_at add_context_on replay
contexts-add a k ch q e = rw e (
    contexts-middle (caller k) _ (send_context (caller k) _) _
      (contexts-announce (caller k) _ (some ch) _) (unfold contexts_to in refl))

-- After a context of type `t`, which is not empty, is broadcast on a channel with a name, every
-- instance on that channel that adds a listener for the type, or for every type, without naming a
-- channel gets the context at once, and no other.
pub replay-broadcast :
    (a : Agent) (k k' : Call) (x : Context) (c q : Option String) (ch : ChannelInstance)
    (t : String)
    → stored_type x.type ≡ some t
    → get_current_channel a.channel_manager (caller k') ≡ some ch
    → broadcast_channel a k c ≡ some ch.id
    → truthy ch.id ≡ true
    → asks_for q t ≡ true
    → contexts_to
        (caller k')
        (handle_add_context_listener (handle_broadcast a k x c).0.0 k' q none).1
      ≡ x ∷ []
unfolding handle_broadcast
replay-broadcast a k k' x c q ch t h e on named asks =
    let o = broadcast_context (router_of a) x (caller k) (broadcast_channel a k c) k.now in
    let ms = forward_broadcast a k x (broadcast_channel a k c) in
    contexts-add (routed a ms x o).0.0 k' ch q
      (Stays-routed a ms x o (caller k') (routes a (caller k') x (caller k) _ k.now) ∙ e)
    ∙ rw
        (
          context-routed a ms x o ch.id q,
          broadcast_recall (router_of a) x (caller k) (broadcast_channel a k c) k.now t ch.id q h,
          resolved a k c,
          on,
          named,
          asks,
          eq_refl ch.id,
        )
        (unfold contexts_to in rw (eq_refl (caller k')) refl)
