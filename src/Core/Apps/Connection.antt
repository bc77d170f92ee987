-- ===== src/Core/Apps/Connection.antt =====
-- core/app_registry.py: the connection events beside the instances, and the waiting for one.
use mathlib.Core.Option
use py_fdc3_desktop_agent.Base.{
  String, ◌≡◌, inl, inr, Bool, true, false, none, some, arith, ◌==◌, eq_iff, eq_refl, if◌then◌else◌,
  Option-cases,
}
use py_fdc3_desktop_agent.Base.Dict.{get, put, has, modify, get-put, get-remove, get-modify}
use py_fdc3_desktop_agent.Core.Apps.{
  AppInstance, AppRegistry, set_connection_event, register_pending_instance, connect,
  register_instance, get_instance, unregister_instance, returned, awaiting,
  wait_for_instance_connection,
}

-- Every instance has a connection event, no other identifier has one, and the event is set exactly
-- if the instance is connected.
abbrev pub IsTracked : AppRegistry → Type 0
IsTracked r =
    (i : String) → get r.connection_events i ≡ Option.map (λ a. a.connected) (get r.instances i)

-- Whether the instance is there and connected.
abbrev pub connected : AppRegistry → String → Bool
connected r i = elim (get r.instances i) [ none ↦ false | some a ↦ a.connected ]

-- Registering a launched instance that is not connected yet.
pub register_pending-IsTracked :
    (r : AppRegistry) (app_id instance_id i : String)
    → IsTracked r
    → connected r i ≡ false
    → IsTracked (register_pending_instance r app_id instance_id i).0
unfolding register_pending_instance has
register_pending-IsTracked r app_id instance_id i v h k = ground (
  arith,
  v k,
  get-put r.connection_events i k false,
  get-put r.instances i k
      (record { app_id = app_id; instance_id = instance_id; instance_uuid = i; connected = false }),
  eq_iff i k,
)

events-set :
    (r : AppRegistry) (i k : String)
    → get (set_connection_event r i).connection_events k
      ≡ (if i == k then some true else get r.connection_events k)
unfolding set_connection_event has
events-set r i k = ground (
  arith,
  get-put r.connection_events i k true,
  get-put r.connection_events i k false,
  get-put (put r.connection_events i false) i k true,
  eq_iff i k,
)

instances-set : (r : AppRegistry) (i : String) → (set_connection_event r i).instances ≡ r.instances
unfolding set_connection_event
instances-set r i = ground arith

abbrev new : String → String → String → AppInstance
new app_id instance_id i = record {
  app_id = app_id;
  instance_id = instance_id;
  instance_uuid = i;
  connected = true;
}

-- Registering an instance that has connected, launched before or not.
pub register-IsTracked :
    (r : AppRegistry) (app_id instance_id i : String)
    → IsTracked r
    → IsTracked (register_instance r app_id instance_id i).0
unfolding register_instance
register-IsTracked r app_id instance_id i v k = elim (Option-cases (get r.instances i)) [
  | inl e ↦
      rw (e, register_instance)
        (ground (
          arith,
          v k,
          events-set (record r { instances = put r.instances i (new app_id instance_id i) }) i k,
          instances-set (record r { instances = put r.instances i (new app_id instance_id i) }) i,
          get-put r.instances i k (new app_id instance_id i),
        ))
  | inr (a, e) ↦
      rw (e, register_instance)
        (ground (
          arith,
          v k,
          events-set (record r { instances = modify r.instances i connect }) i k,
          instances-set (record r { instances = modify r.instances i connect }) i,
          get-modify r.instances i k connect,
          eq_iff i k,
        ))
]

pub unregister-IsTracked :
    (r : AppRegistry) (i : String) → IsTracked r → IsTracked (unregister_instance r i)
unfolding unregister_instance has
unregister-IsTracked r i v k =
    ground
      (arith, v k, v i, get-remove r.connection_events i k, get-remove r.instances i k, eq_iff i k)

-- In a tracked registry, waiting for an identifier that has no instance returns `False` at once,
-- for a connected instance `True` at once, and for a pending one it awaits the connection.
pub wait_lem :
    (r : AppRegistry) (i : String)
    → IsTracked r
    → wait_for_instance_connection r i ≡ elim (get_instance r i) [
      | none ↦ returned false
      | some a ↦ if a.connected then returned true else awaiting
    ]
unfolding wait_for_instance_connection get_instance
wait_lem r i v = ground (arith, v i)

-- An instance that was launched is kept, with its application, when it connects; one that was not
-- is made from the arguments.
pub register_instance_lem :
    (r : AppRegistry) (app_id instance_id i k : String)
    → get_instance (register_instance r app_id instance_id i).0 k ≡ (
        if i == k
        then some (elim (get_instance r i) [
          | some a ↦ connect a
          | none ↦ record {
            app_id = app_id;
            instance_id = instance_id;
            instance_uuid = i;
            connected = true;
          }
        ])
        else get_instance r k)
unfolding register_instance get_instance
register_instance_lem r app_id instance_id i k = elim (Option-cases (get r.instances i)) [
  | inl e ↦
      rw (e, register_instance)
        (ground (
          arith,
          instances-set (record r { instances = put r.instances i (new app_id instance_id i) }) i,
          get-put r.instances i k (new app_id instance_id i),
        ))
  | inr (a, e) ↦
      rw (e, register_instance)
        (ground (
          arith,
          instances-set (record r { instances = modify r.instances i connect }) i,
          get-modify r.instances i k connect,
          eq_iff i k,
        ))
]

-- Whoever waits for an instance, before or after, is told of its connection: once the instance is
-- registered its event is set, and waiting returns `True`.
pub wait-register :
    (r : AppRegistry) (app_id instance_id i : String)
    → IsTracked r
    → (get (register_instance r app_id instance_id i).0.connection_events i ≡ some true)
      × (wait_for_instance_connection (register_instance r app_id instance_id i).0 i
          ≡ returned true)
unfolding get_instance
wait-register r app_id instance_id i v = ground (
  arith,
  wait_lem (register_instance r app_id instance_id i).0 i
      (register-IsTracked r app_id instance_id i v),
  register-IsTracked r app_id instance_id i v i,
  register_instance_lem r app_id instance_id i i,
  eq_refl i,
)
