-- ===== src/Core/Routing.antt =====
-- core/context_router.py: who receives a broadcast context.
pub mod Targets
mod Tests
use py_fdc3_desktop_agent.Base.{
  ℕ, zero, suc, ◌+◌, ◌-◌, ◌≤◌, ◌<◌, String, ◌≡◌, refl, sym, ap, ◌∙◌, subst, ◌≢◌, ◌↔◌, ◌⊎◌, inl, inr,
  Bool, true, false, not, ◌&&◌, ◌||◌, Option, none, some, List, [], ◌∷◌, ◌++◌, map, arith, ◌==◌,
  eq_iff, eq_refl, if◌then◌else◌, ltb, leb, is_some, truthy, opt_truthy, opt_eq, opt_eq_iff,
  Bool-cases, Option-cases, concat,
}
use py_fdc3_desktop_agent.Base.Lists.{
  length, is_empty, filter, any, All, contains, count, erase, contains-count, count-contains,
  not_contains-count, count-append, count-erase, contains-append,
}
use py_fdc3_desktop_agent.Base.Dict.{
  Dict, get, put, remove, has, modify, values, keys, get-put, get-remove, get-modify, dict_laws,
}
use py_fdc3_desktop_agent.Base.StrSet.{add, discard, contains-add, contains-discard, set_laws}
use py_fdc3_desktop_agent.Core.Listeners.{
  ContextListener, IntentListener, EventListener, ListenerStore, empty_store, register_instance,
  add_context_listener, add_intent_listener, add_event_listener, Listener, context_listener,
  intent_listener, event_listener, find_listener, take_out, keep_set, unregister_key,
  remove_listener, takes_type, takes_channel, get_context_listeners, get_context_listeners_for_type,
  get_intent_listeners, takes_event, of_instance, on_channel, get_event_listeners, remove_each,
  remove_listeners_for_instance,
}
use py_fdc3_desktop_agent.Core.Channels.State.{
  DisplayMetadata, Context, ChannelInstance, ChannelEvent, EventSubscription, Effect, call,
  publish_task, ChannelManager, last_context_key, init, context_truthy,
}
use py_fdc3_desktop_agent.Core.Channels.Events.{
  emit_event, subscribe_to_events, unsubscribe_from_events, wants, call_all, publish_event,
}
use py_fdc3_desktop_agent.Core.Channels.Contexts.{
  dict_or_empty, set_channel_context, get_channel_context, clear_channel_context,
}
use py_fdc3_desktop_agent.Core.Channels.Membership.{
  get_channel, create_channel, remove_all, instances_on, delete_channel, drop_member, add_member,
  set_or_empty, leave_old, join_new, join_channel, drop_participant, leave_current_channel,
  get_current_channel, get_channel_members, list_channels, broadcast_to_channel, get_channel_info,
}
use py_fdc3_desktop_agent.Core.Channels.Private.{
  assigned_id, create_private_channel, private_of, create_private_channel_invite, refuses,
  consume_private_channel_invite, get_private_channel_state, get_private_channel_owner, dissociate,
  destroy_private_channel,
}
use py_fdc3_desktop_agent.Core.Channels.Remote.{
  add_remote_private_channel_listener, remove_remote_private_channel_listener,
  get_remote_private_channel_listeners,
}

-- The router holds references to the two services that it reads (the application registry is held
-- and never used).
pub record ContextRouter : Type 0 where
  pub listener_store : ListenerStore
  pub channel_manager : ChannelManager

-- `current_channel.id`, if there is a current channel
abbrev id_of : Option ChannelInstance → Option String
id_of none = none
id_of (some ch) = some ch.id

-- `resolved_channel_id`
unfoldable pub resolve_channel : ChannelManager → String → Option String → Option String
resolve_channel m source (some c) = some c
resolve_channel m source none = if truthy source then id_of (get_current_channel m source) else none

-- The two loops: every identifier but the source is added to the targets.
unfoldable pub add_targets : List String → String → List String → List String
unfolding add
add_targets targets source [] = targets
add_targets targets source (i ∷ rest) =
    add_targets (if i == source then targets else add targets i) source rest

-- "Also broadcast to channel members", with the event for the channel.
unfoldable pub broadcast_on_channel :
    ChannelManager
    → Option String
    → Context
    → String
    → List String
    → String
    → ChannelManager × List String × List Effect
broadcast_on_channel m none x source targets now = (m, targets, [])
broadcast_on_channel m (some c) x source targets now =
    if truthy c
    then (let (m', effects) = broadcast_to_channel m c x source now in
        (m', add_targets targets source (get_channel_members m c), effects))
    else (m, targets, [])

-- `if resolved_channel_id: self.channel_manager.set_channel_context(…)`
abbrev pub remember : ChannelManager → Option String → Context → ChannelManager
remember m none x = m
remember m (some c) x = if truthy c then set_channel_context m c x else m

-- `ValueError` is `none`. The targets are a set: their order means nothing.
unfoldable pub broadcast_context :
    ContextRouter
    → Context
    → String
    → Option String
    → String
    → Option (ContextRouter × List String × List Effect)
broadcast_context r x source channel_id now =
    if opt_truthy x.type
    then (let c = resolve_channel r.channel_manager source channel_id in
        let listeners = get_context_listeners_for_type r.listener_store x.type c true in
        let targets = add_targets [] source (map (λ l. l.instance_uuid) listeners) in
        let (m, all, effects) =
          broadcast_on_channel (remember r.channel_manager c x) c x source targets now in
        some (record r { channel_manager = m }, all, effects))
    else none
