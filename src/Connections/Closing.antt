-- ===== src/Connections/Closing.antt =====
-- handlers/connection_manager.py: what is left when a connection closes, or all of them.
use py_fdc3_desktop_agent.Base.{
  String, ◌≡◌, refl, ap, ◌∙◌, true, false, Option, none, some, List, [], ◌∷◌, if◌then◌else◌, ◌==◌,
  eq_iff, eq_refl, arith,
}
use py_fdc3_desktop_agent.Base.Lists.{any, contains}
use py_fdc3_desktop_agent.Base.Dict.{get, has, keys, get-remove}
use py_fdc3_desktop_agent.Core.External.{
  ExternalHandler, ExternalRegistry, unregister_by_instance, get_handlers_for_intent,
}
use py_fdc3_desktop_agent.Core.External.Record.{IsFiled}
use py_fdc3_desktop_agent.Core.External.Disconnect.{
  belongs, intents-unregister_by_instance, handlers-unregister_by_instance,
  unregister_by_instance-IsFiled,
}
use py_fdc3_desktop_agent.Connections.Instances.{
  Connections, remove_connection, unregister_all, close_all,
}

-- When the connection of an instance is removed, in an agent whose handlers are filed, the instance
-- is not connected, and no intent has a handler of it.
pub remove_connection_lem :
    (m : Connections) (i intent : String)
    → IsFiled m.external_registry
    → has m.connections i ≡ true
    → (has (remove_connection m i).connections i ≡ false)
      × (any
            (λ h. h.instance_uuid == i)
            (get_handlers_for_intent (remove_connection m i).external_registry intent)
          ≡ false)
unfolding remove_connection
remove_connection_lem m i intent v h = rw h (
  unfold has in ground (arith, get-remove m.connections i i, eq_refl i),
  (intents-unregister_by_instance m.external_registry i v intent).0,
)

-- A handler that is kept: none of the instances is its own.
abbrev pub kept : List String → Option ExternalHandler → Option ExternalHandler
kept is none = none
kept is (some h) = if contains h.instance_uuid is then none else some h

kept-nothing : (o : Option ExternalHandler) → o ≡ kept [] o
kept-nothing none = refl
kept-nothing (some h) = refl

kept-kept :
    (o : Option ExternalHandler) (i : String) (is : List String)
    → kept is (if belongs o i then none else o) ≡ kept (i ∷ is) o
kept-kept none i is = ground arith
kept-kept (some h) i is = ground (arith, eq_iff h.instance_uuid i, eq_iff i h.instance_uuid)

handlers-unregister_all :
    (r : ExternalRegistry) (is : List String) (u : String)
    → IsFiled r
    → get (unregister_all r is).handlers u ≡ kept is (get r.handlers u)
unfolding unregister_all
handlers-unregister_all r [] u v = kept-nothing (get r.handlers u)
handlers-unregister_all r (i ∷ is) u v =
    handlers-unregister_all (unregister_by_instance r i) is u (unregister_by_instance-IsFiled r i v)
    ∙ (ap (kept is) (handlers-unregister_by_instance r i v u) ∙ kept-kept (get r.handlers u) i is)

-- Closing all connections, in an agent whose handlers are filed, unregisters exactly the handlers of
-- the instances that are connected, and leaves no connection.
pub handlers-close_all :
    (m : Connections) (u : String)
    → IsFiled m.external_registry
    → ((close_all m).connections ≡ [])
      × (get (close_all m).external_registry.handlers u
          ≡ kept (keys m.connections) (get m.external_registry.handlers u))
unfolding close_all
handlers-close_all m u v =
    (refl, handlers-unregister_all m.external_registry (keys m.connections) u v)
