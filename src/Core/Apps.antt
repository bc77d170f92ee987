-- ===== src/Core/Apps.antt =====
-- core/app_registry.py: the app instances and their connection events. An `asyncio.Event` is
-- whether it is set.
pub mod Connection
pub mod History
mod Tests
use py_fdc3_desktop_agent.Base.{
  ℕ, zero, suc, ◌+◌, ◌-◌, ◌≤◌, ◌<◌, String, ◌≡◌, refl, sym, ap, ◌∙◌, subst, ◌≢◌, ◌↔◌, ◌⊎◌, inl, inr,
  Bool, true, false, not, ◌&&◌, ◌||◌, Option, none, some, List, [], ◌∷◌, ◌++◌, map, arith, ◌==◌,
  eq_iff, eq_refl, if◌then◌else◌, ltb, leb, is_some, truthy, opt_truthy, opt_eq, opt_eq_iff,
  Bool-cases, Option-cases, concat,
}
use py_fdc3_desktop_agent.Base.Lists.{
  length, is_empty, filter, any, All, contains, count, erase, contains-count, count-contains,
  not_contains-count, count-append, count-erase, contains-append,
}
use py_fdc3_desktop_agent.Base.Dict.{
  Dict, get, put, remove, has, modify, values, keys, get-put, get-remove, get-modify, dict_laws,
}
use py_fdc3_desktop_agent.Base.StrSet.{add, discard, contains-add, contains-discard, set_laws}

-- `metadata` and `channels` are never assigned after the constructor, and are left out.
pub record AppInstance : Type 0 where
  pub app_id : String
  pub instance_id : String
  pub instance_uuid : String
  pub connected : Bool

pub record AppRegistry : Type 0 where
  pub instances : Dict AppInstance
  pub connection_events : Dict Bool

abbrev pub empty_registry : AppRegistry
empty_registry = record { instances = []; connection_events = [] }

unfoldable pub ensure_connection_event : AppRegistry → String → AppRegistry
unfolding has
ensure_connection_event r i =
    if has r.connection_events i
    then r
    else record r { connection_events = put r.connection_events i false }

unfoldable pub set_connection_event : AppRegistry → String → AppRegistry
unfolding ensure_connection_event
set_connection_event r i =
    let r' = ensure_connection_event r i in
    record r' { connection_events = put r'.connection_events i true }

unfoldable pub register_pending_instance :
    AppRegistry → String → String → String → AppRegistry × AppInstance
unfolding ensure_connection_event
register_pending_instance r app_id instance_id i =
    let instance_ : AppInstance = record {
      app_id = app_id;
      instance_id = instance_id;
      instance_uuid = i;
      connected = false;
    } in
    (ensure_connection_event (record r { instances = put r.instances i instance_ }) i, instance_)

-- `instance.connected = True`
abbrev pub connect : AppInstance → AppInstance
connect a = record a { connected = true }

unfoldable pub register_instance :
    AppRegistry → String → String → String → AppRegistry × AppInstance
register_instance r app_id instance_id i = elim (get r.instances i) [
  | some a ↦
      (set_connection_event (record r { instances = modify r.instances i connect }) i, connect a)
  | none ↦
      let instance_ : AppInstance = record {
        app_id = app_id;
        instance_id = instance_id;
        instance_uuid = i;
        connected = true;
      } in
      (set_connection_event (record r { instances = put r.instances i instance_ }) i, instance_)
]

unfoldable pub get_instance : AppRegistry → String → Option AppInstance
get_instance r i = get r.instances i

unfoldable pub unregister_instance : AppRegistry → String → AppRegistry
unregister_instance r i = record r {
  instances = if has r.instances i then remove r.instances i else r.instances;
  connection_events =
      if has r.connection_events i then remove r.connection_events i else r.connection_events;
}

unfoldable pub get_instances_for_app : AppRegistry → String → List AppInstance
unfolding values
get_instances_for_app r app_id = filter (λ a. a.app_id == app_id) (values r.instances)

unfoldable pub get_connected_instances_for_app : AppRegistry → String → List AppInstance
unfolding values
get_connected_instances_for_app r app_id =
    filter (λ a. a.app_id == app_id && a.connected) (values r.instances)

unfoldable pub list_instances : AppRegistry → List AppInstance
unfolding values
list_instances r = values r.instances

-- What `wait_for_instance_connection` does at once: it returns, or awaits the event.
pub data Waiting : Type 0 where
  returned : Bool → Waiting
  awaiting : Waiting

abbrev is_connected : Option AppInstance → Bool
is_connected none = false
is_connected (some a) = a.connected

-- An event that is set already does not suspend the caller.
unfoldable pub wait_for_instance_connection : AppRegistry → String → Waiting
wait_for_instance_connection r i = elim (get r.connection_events i) [
  | none ↦ returned false
  | some is_set ↦ if is_connected (get r.instances i) || is_set then returned true else awaiting
]
