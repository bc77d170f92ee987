-- ===== src/Core/Listeners/Removal.antt =====
-- core/listener_store.py: removing a listener, and all the listeners of an instance.
use py_fdc3_desktop_agent.Base.{
  ◌≤◌, String, ◌≡◌, refl, inl, inr, true, false, ◌&&◌, none, List, [], ◌∷◌, arith, ◌==◌, eq_iff,
  if◌then◌else◌, truthy, opt_eq, Option-cases,
}
use py_fdc3_desktop_agent.Base.Lists.{is_empty, contains}
use py_fdc3_desktop_agent.Base.Dict.{Dict, get, get-put, get-remove}
use py_fdc3_desktop_agent.Base.StrSet.{discard, contains-discard}
use py_fdc3_desktop_agent.Base.Dict.{Distinct, remove-Distinct}
use py_fdc3_desktop_agent.Core.Listeners.{
  ListenerStore, set_or_empty, Listener, context_listener, intent_listener, event_listener,
  owner_of, find_listener, take_out, keep_set, unregister_key, remove_listener, remove_each,
  remove_listeners_for_instance,
}
use py_fdc3_desktop_agent.Core.Listeners.Index.{owner, keys_of, kinds, IsIndexed}

contains-is_empty : (xs : List String) (b : String) → is_empty xs ≡ true → contains b xs ≡ false
contains-is_empty [] b h = refl
contains-is_empty (x ∷ xs) b h = cc

kept_keys :
    (all : Dict (List String)) (i : String) (rest : List String) (j k : String)
    → contains k (set_or_empty (get (keep_set all i rest) j))
      ≡ (if i == j then contains k rest else contains k (set_or_empty (get all j)))
kept_keys all i rest j k =
    ground (arith, get-put all i j rest, get-remove all i j, contains-is_empty rest k)

keys-unregister :
    (s : ListenerStore) (key i k j : String)
    → contains k (keys_of (unregister_key s key i) j)
      ≡ (if truthy i && i == j && key == k then false else contains k (keys_of s j))
unfolding unregister_key
keys-unregister s key i k j = ground (
  arith,
  kept_keys s.listeners_by_instance i (discard (keys_of s i) key) j k,
  contains-discard (keys_of s i) key k,
  eq_iff i j,
)

index-take_out :
    (s : ListenerStore) (key : String) (l : Listener)
    → (take_out s key l).listeners_by_instance ≡ s.listeners_by_instance
index-take_out s key (context_listener l) = refl
index-take_out s key (intent_listener l) = refl
index-take_out s key (event_listener l) = refl

module _ (s : ListenerStore) (key : String) (one : kinds s key ≤ 1) where
  find-remove :
      (k : String)
      → find_listener (remove_listener s key).0 k ≡ (if key == k then none else find_listener s k)
  unfolding remove_listener unregister_key find_listener
  find-remove k = ground (
    arith,
    get-remove s.context_listeners key k,
    get-remove s.intent_listeners key k,
    get-remove s.event_listeners key k,
    eq_iff key k,
  )

  kinds-remove :
      (k : String) → kinds (remove_listener s key).0 k ≡ (if key == k then 0 else kinds s k)
  unfolding remove_listener unregister_key find_listener
  kinds-remove k = ground (
    arith,
    get-remove s.context_listeners key k,
    get-remove s.intent_listeners key k,
    get-remove s.event_listeners key k,
    eq_iff key k,
  )

  Distinct-remove :
      Distinct s.context_listeners × Distinct s.intent_listeners × Distinct s.event_listeners
      → Distinct (remove_listener s key).0.context_listeners
        × Distinct (remove_listener s key).0.intent_listeners
        × Distinct (remove_listener s key).0.event_listeners
  unfolding remove_listener unregister_key
  Distinct-remove h = ground (
    arith,
    remove-Distinct s.context_listeners key h.0,
    remove-Distinct s.intent_listeners key h.1,
    remove-Distinct s.event_listeners key h.2,
  )

  keys-remove :
      (j k : String)
      → contains k (keys_of (remove_listener s key).0 j) ≡ (
          if truthy j && opt_eq (owner s key) j && key == k
          then false
          else contains k (keys_of s j))
  unfolding remove_listener
  keys-remove j k = elim (Option-cases (find_listener s key)) [
    | inl e ↦ rw (e, remove_listener) (ground arith)
    | inr (l, e) ↦
        rw (e, remove_listener)
          (ground (
            arith,
            keys-unregister (take_out s key l) key (owner_of l) k j,
            index-take_out s key l,
            eq_iff (owner_of l) j,
          ))
  ]

pub remove-IsIndexed :
    (s : ListenerStore) (key : String) → IsIndexed s → IsIndexed (remove_listener s key).0
remove-IsIndexed s key v = record {
  single = λ k. ground (arith, kinds-remove s key (v.single key) k, v.single k);
  indexed = λ j k h. ground (
    arith,
    keys-remove s key (v.single key) j k,
    find-remove s key (v.single key) k,
    v.indexed j k h,
    eq_iff key k,
  );
  contexts = (Distinct-remove s key (v.single key) (v.contexts, v.intents, v.events)).0;
  intents = (Distinct-remove s key (v.single key) (v.contexts, v.intents, v.events)).1;
  events = (Distinct-remove s key (v.single key) (v.contexts, v.intents, v.events)).2;
}

find-remove_each :
    (s : ListenerStore) (ks : List String) (k : String)
    → IsIndexed s
    → find_listener (remove_each s ks) k ≡ (if contains k ks then none else find_listener s k)
unfolding remove_each
find-remove_each s [] k v = refl
find-remove_each s (key ∷ ks) k v = ground (
  arith,
  find-remove_each (remove_listener s key).0 ks k (remove-IsIndexed s key v),
  find-remove s key (v.single key) k,
)

remove_each-IsIndexed :
    (s : ListenerStore) (ks : List String) → IsIndexed s → IsIndexed (remove_each s ks)
unfolding remove_each
remove_each-IsIndexed s [] v = v
remove_each-IsIndexed s (key ∷ ks) v =
    remove_each-IsIndexed (remove_listener s key).0 ks (remove-IsIndexed s key v)

pub remove_instance-IsIndexed :
    (s : ListenerStore) (i : String) → IsIndexed s → IsIndexed (remove_listeners_for_instance s i)
unfolding remove_listeners_for_instance
remove_instance-IsIndexed s i v = ground (arith, remove_each-IsIndexed s (keys_of s i) v)

-- Of an indexed store, removing the listeners of an instance takes away every listener that belongs
-- to the instance, of whatever kind, and keeps every other listener as it was.
pub find-remove_instance :
    (s : ListenerStore) (i k : String)
    → IsIndexed s
    → truthy i ≡ true
    → find_listener (remove_listeners_for_instance s i) k
      ≡ (if opt_eq (owner s k) i then none else find_listener s k)
unfolding remove_listeners_for_instance
find-remove_instance s i k v h = ground (
  arith,
  find-remove_each s (keys_of s i) k v,
  v.indexed i k h,
  contains-is_empty (keys_of s i) k,
)
