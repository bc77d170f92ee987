-- ===== src/Core/Listeners/History.antt =====
-- core/listener_store.py: the stores that the program can reach.
use py_fdc3_desktop_agent.Base.{String, refl, Option, none, arith}
use py_fdc3_desktop_agent.Base.Dict.{get}
use py_fdc3_desktop_agent.Core.Listeners.{
  ListenerStore, empty_store, add_context_listener, add_intent_listener, add_event_listener,
  find_listener, remove_listener, remove_listeners_for_instance,
}
use py_fdc3_desktop_agent.Core.Listeners.Index.{IsIndexed, IsFresh, add-IsIndexed}
use py_fdc3_desktop_agent.Core.Listeners.Removal.{remove-IsIndexed, remove_instance-IsIndexed}

-- One call on the store. A key that is added is one that `ListenerUuid()` has just drawn.
pub data Step (s : ListenerStore) : ListenerStore → Type 0 where
  add_context :
      (key i : String) (t c : Option String)
      → IsFresh s key
      → Step s (add_context_listener s key i t c).0
  add_intent :
      (key i intent : String) → IsFresh s key → Step s (add_intent_listener s key i intent).0
  add_event :
      (key i : String) (t c : Option String)
      → IsFresh s key
      → Step s (add_event_listener s key i t c).0
  remove_one : (key : String) → Step s (remove_listener s key).0
  remove_instance : (i : String) → Step s (remove_listeners_for_instance s i)

pub data Reach : ListenerStore → Type 0 where
  start : Reach empty_store
  next : {s s' : ListenerStore} → Reach s → Step s s' → Reach s'

pub Step-IsIndexed : {s s' : ListenerStore} → Step s s' → IsIndexed s → IsIndexed s'
Step-IsIndexed {s} (add_context key i t c fresh) v = (add-IsIndexed s key i "" t c fresh v).0
Step-IsIndexed {s} (add_intent key i intent fresh) v =
    (add-IsIndexed s key i intent none none fresh v).1
Step-IsIndexed {s} (add_event key i t c fresh) v = (add-IsIndexed s key i "" t c fresh v).2
Step-IsIndexed {s} (remove_one key) v = remove-IsIndexed s key v
Step-IsIndexed {s} (remove_instance i) v = remove_instance-IsIndexed s i v

-- In every store that is reached from the empty one by adding listeners under new keys and by
-- removing listeners, one by one or by instance: a key belongs to one listener, and is recorded
-- under an instance exactly if its listener belongs to that instance.
pub Reach-IsIndexed : {s : ListenerStore} → Reach s → IsIndexed s
unfolding get find_listener
Reach-IsIndexed start = record {
  single = λ key. omega arith;
  indexed = λ i key h. refl;
  contexts = tt;
  intents = tt;
  events = tt;
}
Reach-IsIndexed (next r st) = Step-IsIndexed st (Reach-IsIndexed r)
