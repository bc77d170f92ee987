-- ===== src/Core/Listeners.antt =====
-- core/listener_store.py. A `ListenerUuid` is its root text. The frozen dataclasses are values.
pub mod Index
pub mod Removal
pub mod Lookup
pub mod History
mod Tests
use py_fdc3_desktop_agent.Base.{
  ℕ, zero, suc, ◌+◌, ◌-◌, ◌≤◌, ◌<◌, String, ◌≡◌, refl, sym, ap, ◌∙◌, subst, ◌≢◌, ◌↔◌, ◌⊎◌, inl, inr,
  Bool, true, false, not, ◌&&◌, ◌||◌, Option, none, some, List, [], ◌∷◌, ◌++◌, map, arith, ◌==◌,
  eq_iff, eq_refl, if◌then◌else◌, ltb, leb, is_some, truthy, opt_truthy, opt_eq, opt_eq_iff,
  Bool-cases, Option-cases, concat,
}
use py_fdc3_desktop_agent.Base.Lists.{
  length, is_empty, filter, any, All, contains, count, erase, contains-count, count-contains,
  not_contains-count, count-append, count-erase, contains-append,
}
use py_fdc3_desktop_agent.Base.Dict.{
  Dict, get, put, remove, has, modify, values, keys, get-put, get-remove, get-modify, dict_laws,
}
use py_fdc3_desktop_agent.Base.StrSet.{add, discard, contains-add, contains-discard, set_laws}

pub record ContextListener : Type 0 where
  pub listener_uuid : String
  pub instance_uuid : String
  pub context_type : Option String
  pub channel_id : Option String

pub record IntentListener : Type 0 where
  pub listener_uuid : String
  pub instance_uuid : String
  pub intent : String

pub record EventListener : Type 0 where
  pub listener_uuid : String
  pub instance_uuid : String
  pub event_type : Option String
  pub channel_id : Option String

pub record ListenerStore : Type 0 where
  pub context_listeners : Dict ContextListener
  pub intent_listeners : Dict IntentListener
  pub event_listeners : Dict EventListener
  pub listeners_by_instance : Dict (List String)

abbrev pub empty_store : ListenerStore
empty_store = record {
  context_listeners = [];
  intent_listeners = [];
  event_listeners = [];
  listeners_by_instance = [];
}

abbrev pub set_or_empty : Option (List String) → List String
set_or_empty none = []
set_or_empty (some s) = s

-- `self.listeners_by_instance.setdefault(instance_uuid, set()).add(key)`
unfoldable pub register_instance : ListenerStore → String → String → ListenerStore
register_instance s key i = record s {
  listeners_by_instance =
      put s.listeners_by_instance i (add (set_or_empty (get s.listeners_by_instance i)) key);
}

unfoldable pub add_context_listener :
    ListenerStore
    → String
    → String
    → Option String
    → Option String
    → ListenerStore × ContextListener
add_context_listener s key i context_type channel_id =
    let listener : ContextListener = record {
      listener_uuid = key;
      instance_uuid = i;
      context_type = context_type;
      channel_id = channel_id;
    } in
    let s' = register_instance s key i in
    (record s' { context_listeners = put s'.context_listeners key listener }, listener)

unfoldable pub add_intent_listener :
    ListenerStore → String → String → String → ListenerStore × IntentListener
add_intent_listener s key i intent =
    let listener : IntentListener = record {
      listener_uuid = key;
      instance_uuid = i;
      intent = intent;
    } in
    let s' = register_instance s key i in
    (record s' { intent_listeners = put s'.intent_listeners key listener }, listener)

unfoldable pub add_event_listener :
    ListenerStore → String → String → Option String → Option String → ListenerStore × EventListener
add_event_listener s key i event_type channel_id =
    let listener : EventListener = record {
      listener_uuid = key;
      instance_uuid = i;
      event_type = event_type;
      channel_id = channel_id;
    } in
    let s' = register_instance s key i in
    (record s' { event_listeners = put s'.event_listeners key listener }, listener)

pub data Listener : Type 0 where
  context_listener : ContextListener → Listener
  intent_listener : IntentListener → Listener
  event_listener : EventListener → Listener

abbrev pub owner_of : Listener → String
owner_of (context_listener l) = l.instance_uuid
owner_of (intent_listener l) = l.instance_uuid
owner_of (event_listener l) = l.instance_uuid

-- The first dictionary that has the key, in the order of the `if` chain.
unfoldable pub find_listener : ListenerStore → String → Option Listener
find_listener s key = elim (get s.context_listeners key) [
  | some l ↦ some (context_listener l)
  | none ↦ elim (get s.intent_listeners key) [
    | some l ↦ some (intent_listener l)
    | none ↦ elim (get s.event_listeners key) [ some l ↦ some (event_listener l) | none ↦ none ]
  ]
]

-- `pop(key)` from the dictionary where the listener was found
abbrev pub take_out : ListenerStore → String → Listener → ListenerStore
take_out s key (context_listener l) = record s {
  context_listeners = remove s.context_listeners key;
}
take_out s key (intent_listener l) = record s { intent_listeners = remove s.intent_listeners key }
take_out s key (event_listener l) = record s { event_listeners = remove s.event_listeners key }

-- An emptied set is dropped with its instance.
abbrev pub keep_set : Dict (List String) → String → List String → Dict (List String)
keep_set all i rest = if is_empty rest then remove all i else put all i rest

-- `if instance_uuid and instance_uuid in self.listeners_by_instance`
unfoldable pub unregister_key : ListenerStore → String → String → ListenerStore
unregister_key s key i = elim (get s.listeners_by_instance i) [
  | none ↦ s
  | some keys ↦
      if truthy i
      then record s {
        listeners_by_instance = keep_set s.listeners_by_instance i (discard keys key);
      }
      else s
]

unfoldable pub remove_listener : ListenerStore → String → ListenerStore × Option Listener
remove_listener s key = elim (find_listener s key) [
  | none ↦ (s, none)
  | some l ↦ (unregister_key (take_out s key l) key (owner_of l), some l)
]

-- `listener.context_type == context_type or listener.context_type is None`
abbrev pub takes_type : Option String → ContextListener → Bool
takes_type none l = true
takes_type (some t) l = elim l.context_type [ none ↦ true | some t' ↦ t' == t ]

-- the loop over `channel_id` and `include_global`
abbrev pub takes_channel : Option String → Bool → ContextListener → Bool
takes_channel none include_global l = true
takes_channel (some c) include_global l = elim l.channel_id [
  | none ↦ include_global
  | some c' ↦ c' == c
]

unfoldable pub get_context_listeners :
    ListenerStore → Option String → Option String → Bool → List ContextListener
unfolding values
get_context_listeners s context_type channel_id include_global =
    filter (takes_channel channel_id include_global)
      (filter (takes_type context_type) (values s.context_listeners))

unfoldable pub get_intent_listeners : ListenerStore → String → List IntentListener
unfolding values
get_intent_listeners s intent = filter (λ l. l.intent == intent) (values s.intent_listeners)

-- the three filters of `get_event_listeners`
abbrev pub takes_event : String → EventListener → Bool
takes_event event_type l = elim l.event_type [ none ↦ true | some t ↦ t == event_type ]

abbrev pub of_instance : Option String → EventListener → Bool
of_instance none l = true
of_instance (some i) l = l.instance_uuid == i

abbrev pub on_channel : Option String → EventListener → Bool
on_channel none l = true
on_channel (some c) l = opt_eq l.channel_id c

unfoldable pub get_event_listeners :
    ListenerStore → String → Option String → Option String → List EventListener
unfolding values
get_event_listeners s event_type instance_uuid channel_id = filter (on_channel channel_id) (
    filter (of_instance instance_uuid) (filter (takes_event event_type) (values s.event_listeners)))

-- `for listener_uuid in list(listener_uuids): self.remove_listener(listener_uuid)`
unfoldable pub remove_each : ListenerStore → List String → ListenerStore
remove_each s [] = s
remove_each s (key ∷ rest) = remove_each (remove_listener s key).0 rest

unfoldable pub remove_listeners_for_instance : ListenerStore → String → ListenerStore
remove_listeners_for_instance s i = elim (get s.listeners_by_instance i) [
  | none ↦ s
  | some keys ↦ if is_empty keys then s else remove_each s keys
]

unfoldable pub get_context_listeners_for_type :
    ListenerStore → Option String → Option String → Bool → List ContextListener
unfolding get_context_listeners
get_context_listeners_for_type s context_type channel_id include_global =
    get_context_listeners s context_type channel_id include_global

unfoldable pub get_intent_listeners_for_intent : ListenerStore → String → List IntentListener
unfolding get_intent_listeners
get_intent_listeners_for_intent s intent = get_intent_listeners s intent
