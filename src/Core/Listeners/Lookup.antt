-- ===== src/Core/Listeners/Lookup.antt =====
-- core/listener_store.py: what the queries return.
use py_fdc3_desktop_agent.Base.{
  ◌≤◌, String, ◌≡◌, refl, Bool, true, false, Option, some, List, [], ◌∷◌, arith, ◌==◌, eq_iff,
  eq_refl, truthy,
}
use py_fdc3_desktop_agent.Base.Lists.{filter, any}
use py_fdc3_desktop_agent.Base.Dict.{Dict, get, values}
use py_fdc3_desktop_agent.Base.Dict.{Distinct}
use py_fdc3_desktop_agent.Core.Listeners.{
  ContextListener, IntentListener, EventListener, ListenerStore, context_listener, intent_listener,
  event_listener, find_listener, takes_type, takes_channel, get_context_listeners,
  get_intent_listeners, takes_event, of_instance, on_channel, get_event_listeners,
  remove_listeners_for_instance,
}
use py_fdc3_desktop_agent.Core.Listeners.Index.{kinds, IsIndexed}
use py_fdc3_desktop_agent.Core.Listeners.Removal.{remove_instance-IsIndexed, find-remove_instance}

module _ {ℓ} {V : Type ℓ} (p : V → Bool) where
  -- A test that fails at every entry of a dictionary fails at all its values.
  any-values :
      (d : Dict V)
      → Distinct d
      → ((k : String) (v : V) → get d k ≡ some v → p v ≡ false)
      → any p (values d) ≡ false
  unfolding values get
  any-values [] h none_of = refl
  any-values ((k, v) ∷ d) h none_of = ground (
    arith,
    none_of k v (ground (arith, eq_refl k)),
    any-values d h.1 (λ k' v' e. none_of k' v' (ground (arith, h.0, e, eq_iff k k'))),
  )

  any-filter : (q : V → Bool) (xs : List V) → any p xs ≡ false → any p (filter q xs) ≡ false
  any-filter q [] h = refl
  any-filter q (x ∷ xs) h = ground (arith, any-filter q xs)

find_intent :
    (s : ListenerStore) (k : String) (l : IntentListener)
    → kinds s k ≤ 1
    → get s.intent_listeners k ≡ some l
    → find_listener s k ≡ some (intent_listener l)
unfolding find_listener
find_intent s k l one e = ground arith

find_context :
    (s : ListenerStore) (k : String) (l : ContextListener)
    → get s.context_listeners k ≡ some l
    → find_listener s k ≡ some (context_listener l)
unfolding find_listener
find_context s k l e = ground arith

find_event :
    (s : ListenerStore) (k : String) (l : EventListener)
    → kinds s k ≤ 1
    → get s.event_listeners k ≡ some l
    → find_listener s k ≡ some (event_listener l)
unfolding find_listener
find_event s k l one e = ground arith

module _ (s : ListenerStore) (i : String) (v : IsIndexed s) (h : truthy i ≡ true) where
  abbrev gone : ListenerStore
  gone = remove_listeners_for_instance s i

  left : IsIndexed gone
  left = remove_instance-IsIndexed s i v

  -- After the listeners of an instance are removed no query, whatever it asks for, returns a
  -- listener of that instance: neither for an intent, nor for a context, nor for an event.
  pub queries-remove_instance :
      (intent event_type : String) (context_type channel_id instance_uuid : Option String)
      (include_global : Bool)
      → (any (λ l. l.instance_uuid == i) (get_intent_listeners gone intent) ≡ false)
        × (any
              (λ l. l.instance_uuid == i)
              (get_context_listeners gone context_type channel_id include_global)
            ≡ false)
        × (any
              (λ l. l.instance_uuid == i)
              (get_event_listeners gone event_type instance_uuid channel_id)
            ≡ false)
  unfolding get_intent_listeners get_context_listeners get_event_listeners
  queries-remove_instance intent event_type context_type channel_id instance_uuid include_global = (
    any-filter of_i (λ l. l.intent == intent) (values gone.intent_listeners)
        (any-values of_i gone.intent_listeners left.intents λ k l e.
          ground (arith, find_intent gone k l (left.single k) e, find-remove_instance s i k v h)),
    any-filter of_c (takes_channel channel_id include_global)
        (filter (takes_type context_type) (values gone.context_listeners))
        (any-filter of_c (takes_type context_type) (values gone.context_listeners) (
          any-values of_c gone.context_listeners left.contexts
            λ k l e. ground (arith, find_context gone k l e, find-remove_instance s i k v h))),
    any-filter of_e (on_channel channel_id)
        (filter (of_instance instance_uuid)
          (filter (takes_event event_type) (values gone.event_listeners)))
        (any-filter of_e (of_instance instance_uuid)
          (filter (takes_event event_type) (values gone.event_listeners))
          (any-filter of_e (takes_event event_type) (values gone.event_listeners) (
            any-values of_e gone.event_listeners left.events λ k l e.
              ground
                (arith, find_event gone k l (left.single k) e, find-remove_instance s i k v h)))),
  )
    where
      of_i : IntentListener → Bool
      of_i l = l.instance_uuid == i

      of_c : ContextListener → Bool
      of_c l = l.instance_uuid == i

      of_e : EventListener → Bool
      of_e l = l.instance_uuid == i
