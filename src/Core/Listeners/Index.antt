-- ===== src/Core/Listeners/Index.antt =====
-- core/listener_store.py: the index of listeners by instance.
use mathlib.Core.Option
use py_fdc3_desktop_agent.Base.{
  ℕ, ◌+◌, ◌≤◌, String, ◌≡◌, Bool, true, false, ◌&&◌, Option, none, some, List, arith, ◌==◌, eq_iff,
  if◌then◌else◌, is_some, truthy, opt_eq,
}
use py_fdc3_desktop_agent.Base.Lists.{contains}
use py_fdc3_desktop_agent.Base.Dict.{get, get-put}
use py_fdc3_desktop_agent.Base.StrSet.{add, contains-add}
use py_fdc3_desktop_agent.Base.Dict.{Distinct, put-Distinct}
use py_fdc3_desktop_agent.Core.Listeners.{
  ContextListener, IntentListener, EventListener, ListenerStore, set_or_empty, register_instance,
  add_context_listener, add_intent_listener, add_event_listener, Listener, context_listener,
  intent_listener, event_listener, owner_of, find_listener,
}

-- The instance to which the listener with this key belongs.
abbrev pub owner : ListenerStore → String → Option String
owner s key = Option.map owner_of (find_listener s key)

-- The keys that are recorded under an instance.
abbrev pub keys_of : ListenerStore → String → List String
keys_of s i = set_or_empty (get s.listeners_by_instance i)

abbrev one_if : Bool → ℕ
one_if true = 1
one_if false = 0

-- How many of the three kinds have a listener with the key.
abbrev pub kinds : ListenerStore → String → ℕ
kinds s key =
    one_if (is_some (get s.context_listeners key))
    + one_if (is_some (get s.intent_listeners key))
    + one_if (is_some (get s.event_listeners key))

-- A key belongs to one listener, and is recorded under an instance exactly if its listener belongs
-- to the instance. (Of an instance with an empty name the code drops no key.)
pub record IsIndexed (s : ListenerStore) : Type 0 where
  pub single : (key : String) → kinds s key ≤ 1
  pub indexed :
      (i key : String) → truthy i ≡ true → contains key (keys_of s i) ≡ opt_eq (owner s key) i
  pub contexts : Distinct s.context_listeners
  pub intents : Distinct s.intent_listeners
  pub events : Distinct s.event_listeners

keys-register :
    (s : ListenerStore) (key i k j : String)
    → contains k (keys_of (register_instance s key i) j)
      ≡ (if i == j && key == k then true else contains k (keys_of s j))
unfolding register_instance
keys-register s key i k j = ground (
  arith,
  get-put s.listeners_by_instance i j (add (keys_of s i) key),
  contains-add (keys_of s i) key k,
  eq_iff i j,
)

-- A new key: the code draws it at random.
abbrev pub IsFresh : ListenerStore → String → Type 0
IsFresh s key = kinds s key ≡ 0

not_found : (s : ListenerStore) (key : String) → IsFresh s key → find_listener s key ≡ none
unfolding find_listener
not_found s key h = ground arith

-- `s'` has the listener `l` more than `s`, under the key `key`.
record Adds (s s' : ListenerStore) (key : String) (l : Listener) : Type 0 where
  found : (k : String) → find_listener s' k ≡ (if key == k then some l else find_listener s k)
  counted : (k : String) → kinds s' k ≡ (if key == k then 1 else kinds s k)
  recorded :
      (j k : String)
      → contains k (keys_of s' j)
        ≡ (if owner_of l == j && key == k then true else contains k (keys_of s j))
  contexts : Distinct s.context_listeners → Distinct s'.context_listeners
  intents : Distinct s.intent_listeners → Distinct s'.intent_listeners
  events : Distinct s.event_listeners → Distinct s'.event_listeners

Adds-IsIndexed :
    {s s' : ListenerStore} {key : String} {l : Listener}
    → IsFresh s key
    → Adds s s' key l
    → IsIndexed s
    → IsIndexed s'
Adds-IsIndexed {s} {s'} {key} {l} fresh a v = record {
  single = λ k. ground (arith, a.counted k, v.single k);
  indexed = λ j k h.
      ground
        (arith, a.recorded j k, a.found k, v.indexed j k h, not_found s key fresh, eq_iff key k);
  contexts = a.contexts v.contexts;
  intents = a.intents v.intents;
  events = a.events v.events;
}

module _ (s : ListenerStore) (key i : String) (fresh : IsFresh s key) where
  Adds-context :
      (t c : Option String)
      → Adds s
          (add_context_listener s key i t c).0
          key
          (context_listener (add_context_listener s key i t c).1)
  unfolding add_context_listener register_instance find_listener
  Adds-context t c = record {
    found = λ k. ground (arith, get-put s.context_listeners key k new, eq_iff key k);
    counted = λ k. ground (arith, get-put s.context_listeners key k new, eq_iff key k);
    recorded = λ j k. ground (
      arith,
      get-put s.listeners_by_instance i j (add (keys_of s i) key),
      contains-add (keys_of s i) key k,
      eq_iff i j,
    );
    contexts = put-Distinct s.context_listeners key new;
    intents = λ d. d;
    events = λ d. d;
  }
    where
      new : ContextListener
      new = record { listener_uuid = key; instance_uuid = i; context_type = t; channel_id = c }

  Adds-intent :
      (intent : String)
      → Adds s
          (add_intent_listener s key i intent).0
          key
          (intent_listener (add_intent_listener s key i intent).1)
  unfolding add_intent_listener register_instance find_listener
  Adds-intent intent = record {
    found = λ k. ground (arith, get-put s.intent_listeners key k new, eq_iff key k);
    counted = λ k. ground (arith, get-put s.intent_listeners key k new, eq_iff key k);
    recorded = λ j k. ground (
      arith,
      get-put s.listeners_by_instance i j (add (keys_of s i) key),
      contains-add (keys_of s i) key k,
      eq_iff i j,
    );
    contexts = λ d. d;
    intents = put-Distinct s.intent_listeners key new;
    events = λ d. d;
  }
    where
      new : IntentListener
      new = record { listener_uuid = key; instance_uuid = i; intent = intent }

  Adds-event :
      (t c : Option String)
      → Adds s
          (add_event_listener s key i t c).0
          key
          (event_listener (add_event_listener s key i t c).1)
  unfolding add_event_listener register_instance find_listener
  Adds-event t c = record {
    found = λ k. ground (arith, get-put s.event_listeners key k new, eq_iff key k);
    counted = λ k. ground (arith, get-put s.event_listeners key k new, eq_iff key k);
    recorded = λ j k. ground (
      arith,
      get-put s.listeners_by_instance i j (add (keys_of s i) key),
      contains-add (keys_of s i) key k,
      eq_iff i j,
    );
    contexts = λ d. d;
    intents = λ d. d;
    events = put-Distinct s.event_listeners key new;
  }
    where
      new : EventListener
      new = record { listener_uuid = key; instance_uuid = i; event_type = t; channel_id = c }

-- Adding a listener of any kind under a new key keeps the index.
pub add-IsIndexed :
    (s : ListenerStore) (key i intent : String) (t c : Option String)
    → IsFresh s key
    → IsIndexed s
    → IsIndexed (add_context_listener s key i t c).0
      × IsIndexed (add_intent_listener s key i intent).0
      × IsIndexed (add_event_listener s key i t c).0
add-IsIndexed s key i intent t c fresh v = (
  Adds-IsIndexed fresh (Adds-context s key i fresh t c) v,
  Adds-IsIndexed fresh (Adds-intent s key i fresh intent) v,
  Adds-IsIndexed fresh (Adds-event s key i fresh t c) v,
)
