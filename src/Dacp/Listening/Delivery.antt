-- ===== src/Dacp/Listening/Delivery.antt =====
-- handlers/dacp/event.py: which instances a broadcast reaches, and what a late listener gets.
use py_fdc3_desktop_agent.Base.{
  String, ◌≡◌, refl, ◌∙◌, Bool, true, false, not, ◌&&◌, Option, none, some, List, [], ◌∷◌, ◌++◌,
  map, arith, ◌==◌, if◌then◌else◌, opt_truthy,
}
use py_fdc3_desktop_agent.Base.Lists.{is_empty, contains}
use py_fdc3_desktop_agent.Core.Channels.State.{ChannelInstance, ChannelManager, Context, Effect}
use py_fdc3_desktop_agent.Core.Channels.Membership.{get_current_channel}
use py_fdc3_desktop_agent.Core.Routing.{ContextRouter, resolve_channel, broadcast_context}
use py_fdc3_desktop_agent.Core.Routing.Targets.{reached, meant_for, broadcast_targets}
use py_fdc3_desktop_agent.Dacp.Agent.{
  Agent, Message, told, response, user_channel_changed, private_channel_event, broadcast_event,
  bridge_event, bridge_broadcast, bridge_listener_update, Call, caller, tell,
}
use py_fdc3_desktop_agent.Dacp.Listening.{
  broadcast_channel, forward_broadcast, router_of, routed, handle_broadcast, id_of,
}

-- The contexts that are sent to the instance `i`, in order.
unfoldable pub contexts_to : String → List Message → List Context
contexts_to i [] = []
contexts_to i (broadcast_event j x ∷ rest) =
    if j == i then x ∷ contexts_to i rest else contexts_to i rest
contexts_to i (m ∷ rest) = contexts_to i rest

-- Whether the instance `i` is sent a context.
abbrev pub gets : String → List Message → Bool
gets i ms = not (is_empty (contexts_to i ms))

pub contexts-append :
    (i : String) (xs ys : List Message)
    → contexts_to i (xs ++ ys) ≡ contexts_to i xs ++ contexts_to i ys
unfolding contexts_to
contexts-append i [] ys = refl
contexts-append i (told e ∷ xs) ys = contexts-append i xs ys
contexts-append i (response t u p ∷ xs) ys = contexts-append i xs ys
contexts-append i (user_channel_changed j c ∷ xs) ys = contexts-append i xs ys
contexts-append i (private_channel_event j c e d ∷ xs) ys = contexts-append i xs ys
contexts-append i (broadcast_event j x ∷ xs) ys = ground (arith, contexts-append i xs ys)
contexts-append i (bridge_event g c e d s ∷ xs) ys = contexts-append i xs ys
contexts-append i (bridge_broadcast x c s ∷ xs) ys = contexts-append i xs ys
contexts-append i (bridge_listener_update c e s b ∷ xs) ys = contexts-append i xs ys

pub contexts-tell : (i : String) (es : List Effect) → contexts_to i (tell es) ≡ []
unfolding contexts_to
contexts-tell i [] = refl
contexts-tell i (e ∷ es) = contexts-tell i es

gets-sent :
    (i : String) (x : Context) (targets : List String)
    → gets i (map (λ j. broadcast_event j x) targets) ≡ contains i targets
unfolding contexts_to
gets-sent i x [] = refl
gets-sent i x (j ∷ targets) = ground (arith, gets-sent i x targets)

contexts-forward :
    (a : Agent) (k : Call) (x : Context) (c : Option String) (i : String)
    → contexts_to i (forward_broadcast a k x c) ≡ []
unfolding contexts_to forward_broadcast
contexts-forward a k x c i = ground arith

is_empty-append : (xs ys : List Context) → is_empty (xs ++ ys) ≡ (is_empty xs && is_empty ys)
is_empty-append [] ys = refl
is_empty-append (x ∷ xs) ys = refl

abbrev heard : Option Bool → Bool
heard none = false
heard (some b) = b

gets-routed :
    (a : Agent) (ms : List Message) (x : Context)
    (o : Option (ContextRouter × List String × List Effect)) (i : String)
    → contexts_to i ms ≡ []
    → gets i (routed a ms x o).0.1 ≡ heard (reached i o)
unfolding routed
gets-routed a ms x none i h = rw h refl
gets-routed a ms x (some (r, targets, effects)) i h =
    rw
      (
        contexts-append i ms (tell effects ++ map (λ j. broadcast_event j x) targets),
        h,
        contexts-append i (tell effects) (map (λ j. broadcast_event j x) targets),
        contexts-tell i effects,
      )
      (gets-sent i x targets)

abbrev missed : Option Bool → Bool
missed none = true
missed (some b) = false

raises-routed :
    (a : Agent) (ms : List Message) (x : Context)
    (o : Option (ContextRouter × List String × List Effect)) (i : String)
    → (routed a ms x o).1 ≡ missed (reached i o)
unfolding routed
raises-routed a ms x none i = refl
raises-routed a ms x (some (r, targets, effects)) i = refl

resolved_at :
    (m : ChannelManager) (i : String) (o : Option ChannelInstance)
    → get_current_channel m i ≡ o
    → resolve_channel m i (id_of o) ≡ id_of o
unfolding resolve_channel
resolved_at m i none e = rw e (ground arith)
resolved_at m i (some ch) e = refl

-- The router finds no other channel than the handler.
pub resolved :
    (a : Agent) (k : Call) (c : Option String)
    → resolve_channel a.channel_manager (caller k) (broadcast_channel a k c)
      ≡ broadcast_channel a k c
resolved a k (some c) = unfold resolve_channel in refl
resolved a k none = resolved_at a.channel_manager (caller k) _ refl

-- A broadcast request whose context has a type that is not empty is sent to exactly the instances
-- that it is meant for, and never to the sender. Its channel is that of the request, or else the one
-- that the sender is on. If there is a channel, it is meant for the instances with a listener for
-- the type, on that channel or on every channel, and for the channel's members; if there is none,
-- for the instances with any listener for the type, also one on some channel only. The handler
-- raises exactly if the type is absent or empty, and then nobody is
-- sent the context.
pub gets-broadcast :
    (a : Agent) (k : Call) (x : Context) (c : Option String) (i : String)
    → (gets i (handle_broadcast a k x c).0.1 ≡ (
        opt_truthy x.type
        && (not (i == caller k) && meant_for (router_of a) x.type (broadcast_channel a k c) i)))
      × ((handle_broadcast a k x c).1 ≡ not (opt_truthy x.type))
unfolding handle_broadcast
gets-broadcast a k x c i = (
  gets-routed a (forward_broadcast a k x (broadcast_channel a k c)) x
        (broadcast_context (router_of a) x (caller k) (broadcast_channel a k c) k.now) i
        (contexts-forward a k x (broadcast_channel a k c) i)
      ∙ rw
          (
            broadcast_targets (router_of a) x (caller k) (broadcast_channel a k c) k.now i,
            resolved a k c,
          )
          (ground arith),
  raises-routed a (forward_broadcast a k x (broadcast_channel a k c)) x
        (broadcast_context (router_of a) x (caller k) (broadcast_channel a k c) k.now) i
      ∙ rw (broadcast_targets (router_of a) x (caller k) (broadcast_channel a k c) k.now i)
          (ground arith),
)
