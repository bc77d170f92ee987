-- ===== src/Core/Routing/Targets.antt =====
-- core/context_router.py: the targets of a broadcast, and the context that it leaves behind.
use py_fdc3_desktop_agent.Base.{
  String, ◌≡◌, refl, ◌∙◌, Bool, true, false, not, ◌&&◌, ◌||◌, Option, none, some, List, [], ◌∷◌,
  map, arith, ◌==◌, eq_iff, if◌then◌else◌, truthy, opt_truthy, opt_eq,
}
use py_fdc3_desktop_agent.Base.Lists.{any, contains}
use py_fdc3_desktop_agent.Base.StrSet.{add, contains-add}
use py_fdc3_desktop_agent.Core.Listeners.{ContextListener, get_context_listeners_for_type}
use py_fdc3_desktop_agent.Core.Channels.State.{Context, Effect, ChannelManager}
use py_fdc3_desktop_agent.Core.Channels.Contexts.{
  store_context, set_channel_context, get_channel_context,
}
use py_fdc3_desktop_agent.Core.Channels.Membership.{get_channel_members}
use py_fdc3_desktop_agent.Core.Routing.{
  ContextRouter, resolve_channel, add_targets, broadcast_on_channel, remember, broadcast_context,
}
use py_fdc3_desktop_agent.Core.Channels.Recall.{
  asks_for, stored_type, get-set_channel_context, context-broadcast,
}

contains-add_targets :
    (targets : List String) (source : String) (is : List String) (i : String)
    → contains i (add_targets targets source is)
      ≡ (contains i targets || not (i == source) && contains i is)
unfolding add_targets
contains-add_targets targets source [] i = ground arith
contains-add_targets targets source (j ∷ is) i = ground (
  arith,
  contains-add_targets (if j == source then targets else add targets j) source is i,
  contains-add targets j i,
  eq_iff j i,
  eq_iff j source,
  eq_iff i source,
)

-- Storing a context does not change the members of a channel.
members-set_context :
    (m : ChannelManager) (c c' : String) (x : Context)
    → get_channel_members (set_channel_context m c x) c' ≡ get_channel_members m c'
unfolding set_channel_context store_context get_channel_members
members-set_context m c c' x = ground arith

-- The instances that a broadcast on `c` is meant for: those with a listener for the type that takes
-- the channel, which each does if there is no channel, and the members of the channel.
abbrev pub meant_for : ContextRouter → Option String → Option String → String → Bool
meant_for r type c i =
    any (λ l. l.instance_uuid == i) (get_context_listeners_for_type r.listener_store type c true)
    || (elim c [
      | none ↦ false
      | some id ↦ truthy id && contains i (get_channel_members r.channel_manager id)
    ])

contains-uuids :
    (ls : List ContextListener) (i : String)
    → contains i (map (λ l. l.instance_uuid) ls) ≡ any (λ l. l.instance_uuid == i) ls
contains-uuids [] i = refl
contains-uuids (l ∷ ls) i = ground (arith, contains-uuids ls i)

contains-broadcast_on_channel :
    (m : ChannelManager) (c : Option String) (x : Context) (source : String) (targets : List String)
    (now : String) (i : String)
    → contains i (broadcast_on_channel (remember m c x) c x source targets now).1 ≡ (
        contains i targets
        || not (i == source) && (elim c [
          | none ↦ false
          | some id ↦ truthy id && contains i (get_channel_members m id)
        ]))
unfolding broadcast_on_channel
contains-broadcast_on_channel m none x source targets now i = ground arith
contains-broadcast_on_channel m (some c) x source targets now i = ground (
  arith,
  contains-add_targets targets source (get_channel_members m c) i,
  members-set_context m c c x,
)

recall :
    (m : ChannelManager) (c : String) (x : Context) (t : String) (id : String) (q : Option String)
    → stored_type x.type ≡ some t
    → get_channel_context (set_channel_context m c x) id q
      ≡ (if c == id && asks_for q t then some x else get_channel_context m id q)
recall m c x t id q h = get-set_channel_context m c id x q ∙ rw h refl

typed : (o : Option String) (t : String) → stored_type o ≡ some t → opt_truthy o ≡ true
typed none t h = cc
typed (some u) t h = ground arith

recall-broadcast_on_channel :
    (m : ChannelManager) (c : Option String) (x : Context) (source : String) (targets : List String)
    (now : String) (t : String) (id : String) (q : Option String)
    → stored_type x.type ≡ some t
    → get_channel_context (broadcast_on_channel (remember m c x) c x source targets now).0 id q
      ≡ (if opt_eq c id && truthy id && asks_for q t then some x else get_channel_context m id q)
unfolding broadcast_on_channel
recall-broadcast_on_channel m none x source targets now t id q h = ground arith
recall-broadcast_on_channel m (some c) x source targets now t id q h = ground (
  arith,
  context-broadcast (set_channel_context m c x) c id x source now q,
  recall m c x t id q h,
  recall (set_channel_context m c x) c x t id q h,
  eq_iff c id,
)

-- Whether `i` is among the targets of a broadcast, and what a query returns after it.
abbrev pub reached : String → Option (ContextRouter × List String × List Effect) → Option Bool
reached i none = none
reached i (some (r', targets, effects)) = some (contains i targets)

abbrev pub recalled :
    Option (ContextRouter × List String × List Effect)
    → String
    → Option String
    → Option (Option Context)
recalled none id q = none
recalled (some (r', targets, effects)) id q = some (get_channel_context r'.channel_manager id q)

module _ (r : ContextRouter) (x : Context) (source : String) (channel_id : Option String)
    (now : String) where
  abbrev pub c : Option String
  c = resolve_channel r.channel_manager source channel_id

  -- A context with a type that is not empty reaches, never the source itself, but otherwise exactly:
  -- if the broadcast resolves to a channel, the instances with a listener for the type on that
  -- channel or on every channel, and the members of the channel; if it resolves to no channel, the
  -- instances with any listener for the type, also one that is on some channel only. Any other
  -- context is refused.
  pub broadcast_targets :
      (i : String)
      → reached i (broadcast_context r x source channel_id now)
        ≡ (if opt_truthy x.type then some (not (i == source) && meant_for r x.type c i) else none)
  unfolding broadcast_context
  broadcast_targets i = ground (
    arith,
    contains-broadcast_on_channel r.channel_manager c x source
        (add_targets [] source (
          map (λ l. l.instance_uuid)
            (get_context_listeners_for_type r.listener_store x.type c true)))
        now i,
    contains-add_targets [] source
        (map (λ l. l.instance_uuid) (get_context_listeners_for_type r.listener_store x.type c true))
        i,
    contains-uuids (get_context_listeners_for_type r.listener_store x.type c true) i,
  )

  -- After a broadcast of a context of type `t`, which is not empty, a query on the channel that it
  -- resolves to, if it has a name, for `t` or for the latest context returns the context; every
  -- other query is answered as before.
  pub broadcast_recall :
      (t : String) (id : String) (q : Option String)
      → stored_type x.type ≡ some t
      → recalled (broadcast_context r x source channel_id now) id q
        ≡ some (
            if opt_eq c id && truthy id && asks_for q t
            then some x
            else get_channel_context r.channel_manager id q)
  unfolding broadcast_context
  broadcast_recall t id q h = ground (
    arith,
    typed x.type t h,
    recall-broadcast_on_channel r.channel_manager c x source
        (add_targets [] source (
          map (λ l. l.instance_uuid)
            (get_context_listeners_for_type r.listener_store x.type c true)))
        now t id q h,
  )
