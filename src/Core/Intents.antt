-- ===== src/Core/Intents.antt =====
-- core/intent_resolver.py: which instances an intent goes to.
pub mod Delivery
mod Tests
use py_fdc3_desktop_agent.Base.{
  ℕ, zero, suc, ◌+◌, ◌-◌, ◌≤◌, ◌<◌, String, ◌≡◌, refl, sym, ap, ◌∙◌, subst, ◌≢◌, ◌↔◌, ◌⊎◌, inl, inr,
  Bool, true, false, not, ◌&&◌, ◌||◌, Option, none, some, List, [], ◌∷◌, ◌++◌, map, arith, ◌==◌,
  eq_iff, eq_refl, if◌then◌else◌, ltb, leb, is_some, truthy, opt_truthy, opt_eq, opt_eq_iff,
  Bool-cases, Option-cases, concat,
}
use py_fdc3_desktop_agent.Base.Lists.{
  length, is_empty, filter, any, All, contains, count, erase, contains-count, count-contains,
  not_contains-count, count-append, count-erase, contains-append,
}
use py_fdc3_desktop_agent.Base.Dict.{
  Dict, get, put, remove, has, modify, values, keys, get-put, get-remove, get-modify, dict_laws,
}
use py_fdc3_desktop_agent.Base.StrSet.{add, discard, contains-add, contains-discard, set_laws}
use py_fdc3_desktop_agent.Core.Listeners.{
  ContextListener, IntentListener, EventListener, ListenerStore, empty_store, set_or_empty,
  register_instance, add_context_listener, add_intent_listener, add_event_listener, Listener,
  context_listener, intent_listener, event_listener, owner_of, find_listener, take_out, keep_set,
  unregister_key, remove_listener, takes_type, takes_channel, get_context_listeners,
  get_intent_listeners, takes_event, of_instance, on_channel, get_event_listeners, remove_each,
  remove_listeners_for_instance,
}
use py_fdc3_desktop_agent.Core.Apps.{
  AppInstance, AppRegistry, empty_registry, get_instance, unregister_instance,
  get_instances_for_app, get_connected_instances_for_app, list_instances,
}

pub record AppIdentifier : Type 0 where
  pub app_id : String
  pub instance_id : Option String

pub record IntentResolution : Type 0 where
  pub source : AppIdentifier
  pub intent : String

-- The resolver holds references to the two stores.
pub record IntentResolver : Type 0 where
  pub listener_store : ListenerStore
  pub app_registry : AppRegistry

abbrev pub instance_uuids : List IntentListener → List String
instance_uuids = map (λ l. l.instance_uuid)

unfoldable pub find_intent_listeners : IntentResolver → String → List String
find_intent_listeners r intent = instance_uuids (get_intent_listeners r.listener_store intent)

-- `listeners[0]`
abbrev pub first_listener : List IntentListener → Option IntentListener
first_listener [] = none
first_listener (l ∷ ls) = some l

-- The context and the target are not looked at.
unfoldable pub resolve_intent : IntentResolver → String → Option IntentResolution
resolve_intent r intent = elim (first_listener (get_intent_listeners r.listener_store intent)) [
  | none ↦ none
  | some l ↦ elim (get_instance r.app_registry l.instance_uuid) [
    | none ↦ none
    | some a ↦ some (record {
      source = record { app_id = a.app_id; instance_id = some a.instance_id };
      intent = intent;
    })
  ]
]

unfoldable pub deliver_intent_event : IntentResolver → String → List String
deliver_intent_event r intent = instance_uuids (get_intent_listeners r.listener_store intent)

-- `any(listener.instance_uuid == inst.instance_uuid for listener in listeners)`
abbrev pub listens : List IntentListener → String → Bool
listens ls i = any (λ l. l.instance_uuid == i) ls

-- The loop over the instances of the resolved application.
unfoldable pub resolved_instance :
    List AppInstance → String → List IntentListener → Option AppInstance
resolved_instance [] instance_id ls = none
resolved_instance (a ∷ rest) instance_id ls =
    let later = resolved_instance rest instance_id ls in
    if a.instance_id == instance_id && listens ls a.instance_uuid then some a else later

-- `if src and src.instanceId`, and the loop
unfoldable pub resolved_target :
    IntentResolver → String → Option IntentResolution → Option AppInstance
resolved_target r intent none = none
resolved_target r intent (some resolution) = elim resolution.source.instance_id [
  | none ↦ none
  | some instance_id ↦
      if truthy instance_id
      then resolved_instance (get_instances_for_app r.app_registry resolution.source.app_id)
          instance_id (get_intent_listeners r.listener_store intent)
      else none
]

unfoldable pub deliver_intent_event_with_resolution :
    IntentResolver → String → Option IntentResolution → List String
deliver_intent_event_with_resolution r intent resolution =
    elim (resolved_target r intent resolution) [
      | some a ↦ a.instance_uuid ∷ []
      | none ↦ deliver_intent_event r intent
    ]
