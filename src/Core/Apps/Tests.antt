-- ===== src/Core/Apps/Tests.antt =====
-- Examples of app_registry.py: an instance that is launched and then connects, and one that has gone.
use py_fdc3_desktop_agent.Base.{refl}
use py_fdc3_desktop_agent.Base.Dict.{get, put, has, modify}
use py_fdc3_desktop_agent.Core.Apps.{
  AppRegistry, empty_registry, register_pending_instance, register_instance,
  ensure_connection_event, set_connection_event,
}
use py_fdc3_desktop_agent.Core.Apps.History.{Reach, start, next, launched, arrived}

abbrev waiting : AppRegistry
waiting =
    (register_pending_instance (register_instance empty_registry "chart" "c1" "u1").0 "blotter" "b1"
      "u2").0

reached : Reach waiting
unfolding register_instance get put set_connection_event ensure_connection_event has modify
reached = next (next start (arrived "chart" "c1" "u1")) (launched "blotter" "b1" "u2" refl)
