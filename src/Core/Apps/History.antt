-- ===== src/Core/Apps/History.antt =====
-- app_registry.py: the registries that calls lead to.
use py_fdc3_desktop_agent.Base.{String, ◌≡◌, refl, false}
use py_fdc3_desktop_agent.Base.Dict.{get}
use py_fdc3_desktop_agent.Core.Apps.{
  AppRegistry, empty_registry, register_pending_instance, register_instance, unregister_instance,
}
use py_fdc3_desktop_agent.Core.Apps.Connection.{
  IsTracked, connected, register_pending-IsTracked, register-IsTracked, unregister-IsTracked,
}

pub data Step (r : AppRegistry) : AppRegistry → Type 0 where
  launched :
      (app_id instance_id i : String)
      → connected r i ≡ false
      → Step r (register_pending_instance r app_id instance_id i).0
  arrived : (app_id instance_id i : String) → Step r (register_instance r app_id instance_id i).0
  gone : (i : String) → Step r (unregister_instance r i)

pub data Reach : AppRegistry → Type 0 where
  start : Reach empty_registry
  next : {r r' : AppRegistry} → Reach r → Step r r' → Reach r'

Step-IsTracked : {r r' : AppRegistry} → Step r r' → IsTracked r → IsTracked r'
Step-IsTracked {r} (launched a n i h) v = register_pending-IsTracked r a n i v h
Step-IsTracked {r} (arrived a n i) v = register-IsTracked r a n i v
Step-IsTracked {r} (gone i) v = unregister-IsTracked r i v

-- In every registry that is reached from the empty one by registering launched instances that are
-- not connected, registering instances that connect, and unregistering: the identifiers with an
-- event are those with an instance, and the event is set exactly if the instance is connected.
pub Reach-IsTracked : {r : AppRegistry} → Reach r → IsTracked r
unfolding get
Reach-IsTracked start = λ i. refl
Reach-IsTracked (next r st) = Step-IsTracked st (Reach-IsTracked r)
