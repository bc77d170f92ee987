-- ===== src/Core/Listeners/Tests.antt =====
-- Examples of listener_store.py: two instances with listeners, one of which disconnects.
use py_fdc3_desktop_agent.Base.{refl, some, none}
use py_fdc3_desktop_agent.Base.Dict.{get, put}
use py_fdc3_desktop_agent.Base.StrSet.{add}
use py_fdc3_desktop_agent.Core.Listeners.{
  ListenerStore, empty_store, register_instance, add_context_listener, add_intent_listener,
}
use py_fdc3_desktop_agent.Core.Listeners.History.{Reach, start, next, add_context, add_intent}

abbrev two : ListenerStore
two =
    (add_intent_listener
      (add_context_listener empty_store "k1" "ann" (some "fdc3.instrument") none).0 "k2" "bob"
      "ViewChart").0

reached : Reach two
unfolding add_context_listener add_intent_listener register_instance get put add
reached =
    next (next start (add_context "k1" "ann" (some "fdc3.instrument") none refl))
      (add_intent "k2" "bob" "ViewChart" refl)
