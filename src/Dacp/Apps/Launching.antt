-- ===== src/Dacp/Apps/Launching.antt =====
-- handlers/dacp/app.py with core/app_registry.py: what the registry has while a launched application
-- is waited for, and after the wait.
use py_fdc3_desktop_agent.Base.{
  String, ◌≡◌, refl, ap, ◌∙◌, Bool, true, false, Option, none, some, [], ◌∷◌, ◌++◌, arith, ◌==◌,
  eq_refl, if◌then◌else◌, truthy, is_some,
}
use py_fdc3_desktop_agent.Base.Lists.{filter}
use py_fdc3_desktop_agent.Base.Dict.{Dict, get, put, remove, has, values, get-put}
use py_fdc3_desktop_agent.Core.Apps.{
  AppInstance, AppRegistry, returned, awaiting, get_instance, get_instances_for_app,
  register_pending_instance, register_instance, ensure_connection_event, unregister_instance,
  wait_for_instance_connection,
}
use py_fdc3_desktop_agent.Core.Apps.Connection.{
  IsTracked, connected, register_pending-IsTracked, register-IsTracked, wait_lem,
  register_instance_lem,
}
use py_fdc3_desktop_agent.Dacp.Agent.{Call}
use py_fdc3_desktop_agent.Dacp.Apps.{Storage, StoredAppMetadata, AppTarget, found}
use py_fdc3_desktop_agent.Dacp.Apps.Opening.{
  OpenRequest, OpenBridge, LaunchResult, done, opened, handle_open, app_identity, target_agent,
  open_here, reusable, requested_instance_id,
}
use py_fdc3_desktop_agent.Dacp.Apps.Waiting.{Opening, after_connection, after_launch}

module _ {ℓ} {V : Type ℓ} (k : String) (v : V) where
  -- A new key comes last.
  filter-put :
      (p : V → Bool) (d : Dict V)
      → get d k ≡ none
      → filter p (values (put d k v)) ≡ filter p (values d) ++ (if p v then v ∷ [] else [])
  unfolding get put values
  filter-put p [] h = refl
  filter-put p ((j, w) ∷ d) h = ground (arith, h, filter-put p d)

  remove-put : (d : Dict V) → get d k ≡ none → remove (put d k v) k ≡ d
  unfolding get put remove
  remove-put [] h = ground (arith, eq_refl k)
  remove-put ((j, w) ∷ d) h = ground (arith, h, remove-put d)

abbrev launched : String → String → LaunchResult
launched instance_id instance_uuid = record {
  success = true;
  instance_id = some instance_id;
  instance_uuid = some instance_uuid;
}

module _ (r : AppRegistry) (app_id instance_id instance_uuid : String)
    (has_id : truthy instance_id ≡ true) (has_uuid : truthy instance_uuid ≡ true)
    (tracked : IsTracked r) (fresh : get r.instances instance_uuid ≡ none) where
  abbrev out : Opening
  out = after_launch r app_id (some (launched instance_id instance_uuid))

  abbrev registered : AppRegistry
  registered = (register_pending_instance r app_id instance_id instance_uuid).0

  abbrev inst : AppInstance
  inst = record {
    app_id = app_id;
    instance_id = instance_id;
    instance_uuid = instance_uuid;
    connected = false;
  }

  instances_lem : registered.instances ≡ put r.instances instance_uuid inst
  unfolding register_pending_instance ensure_connection_event
  instances_lem = ground arith

  registered-IsTracked : IsTracked registered
  registered-IsTracked =
      register_pending-IsTracked r app_id instance_id instance_uuid tracked (ground (arith, fresh))

  there : get_instance registered instance_uuid ≡ some inst
  unfolding get_instance
  there = ground (
    arith,
    instances_lem,
    get-put r.instances instance_uuid instance_uuid inst,
    eq_refl instance_uuid,
  )

  awaits : wait_for_instance_connection registered instance_uuid ≡ awaiting
  awaits = wait_lem registered instance_uuid registered-IsTracked ∙ ground (arith, there)

  out_lem : out ≡ record {
    registry = registered;
    waits_for = some (instance_id, instance_uuid);
    messages = [];
  }
  unfolding after_launch
  out_lem = ground (arith, has_id, has_uuid, awaits)

  -- A launched instance is registered as pending and waited for. When it connects, under whatever
  -- names, the wait is over, the request is answered with the instance that was launched, and the
  -- registry has that instance as connected, with the application that was asked for.
  pub open-connect :
      (named_app named_instance : String)
      → (let r' = (register_instance registered named_app named_instance instance_uuid).0 in
          (out.registry ≡ registered)
          × (out.waits_for ≡ some (instance_id, instance_uuid))
          × (wait_for_instance_connection r' instance_uuid ≡ returned true)
          × (after_connection r' app_id instance_id instance_uuid true
              ≡ (r', opened app_id instance_id))
          × (get_instance r' instance_uuid ≡ some (record inst { connected = true })))
  unfolding after_connection
  open-connect named_app named_instance =
      let r' = (register_instance registered named_app named_instance instance_uuid).0 in
      let lem : get_instance r' instance_uuid ≡ some (record inst { connected = true }) =
        register_instance_lem registered named_app named_instance instance_uuid instance_uuid
        ∙ ground (arith, there, eq_refl instance_uuid) in
      (
        ap (λ o. o.registry) out_lem,
        ap (λ o. o.waits_for) out_lem,
        wait_lem r' instance_uuid (
              register-IsTracked registered named_app named_instance instance_uuid
                registered-IsTracked)
            ∙ ground (arith, lem),
        refl,
        lem,
      )

  -- When the wait for a new instance ends without a connection, the registry has the instances that
  -- it had before the launch.
  pub timeout-restores :
      (after_connection registered app_id instance_id instance_uuid false).0.instances ≡ r.instances
  unfolding after_connection unregister_instance has
  timeout-restores = ground (
    arith,
    instances_lem,
    fresh,
    get-put r.instances instance_uuid instance_uuid inst,
    eq_refl instance_uuid,
    remove-put instance_uuid inst r.instances fresh,
  )

  only_one :
      get_instances_for_app r app_id ≡ [] → get_instances_for_app registered app_id ≡ inst ∷ []
  unfolding get_instances_for_app
  only_one h = ground (
    arith,
    h,
    eq_refl app_id,
    instances_lem,
    filter-put instance_uuid inst (λ a. a.app_id == app_id) r.instances fresh,
  )

  reuses :
      (storage : Storage) (meta : Option (Option StoredAppMetadata))
      → storage.get_app_metadata app_id ≡ meta
      → is_some (found meta) ≡ true
      → get_instances_for_app r app_id ≡ []
      → (t : AppTarget) → t.app_id ≡ app_id
      → open_here storage registered t none ≡ done (opened app_id instance_id)
  unfolding open_here reusable
  reuses storage none e listed h t app = cc
  reuses storage (some none) e listed h t app = cc
  reuses storage (some (some m)) e listed h t app = ground (arith, app, e, only_one h)

  -- A request for an application, without the identifier of an instance, that comes while the
  -- only instance is launched but has not connected is answered with that instance; if it does not
  -- connect in time, no instance of the application is left.
  pub reused_gone :
      (casefold : String → String) (storage : Storage) (bridge : OpenBridge) (k : Call)
      (q : OpenRequest) (t : AppTarget)
      → app_identity casefold storage q.app ≡ some t
      → t.app_id ≡ app_id
      → target_agent k t ≡ none
      → requested_instance_id q.app ≡ none
      → is_some (found (storage.get_app_metadata app_id)) ≡ true
      → get_instances_for_app r app_id ≡ []
      → (handle_open casefold storage bridge registered k q ≡ done (opened app_id instance_id))
        × (connected registered instance_uuid ≡ false)
        × (get_instances_for_app
              (after_connection registered app_id instance_id instance_uuid false).0
              app_id
            ≡ [])
  unfolding handle_open
  reused_gone casefold storage bridge k q t identity app here any_instance listed none_yet = (
    rw (identity, handle_open)
        (rw (here, any_instance)
          (reuses storage (storage.get_app_metadata app_id) refl listed none_yet t app)),
    ground (
      arith,
      instances_lem,
      get-put r.instances instance_uuid instance_uuid inst,
      eq_refl instance_uuid,
    ),
    unfold get_instances_for_app in
        ap (λ xs. filter (λ a. a.app_id == app_id) (values xs)) timeout-restores ∙ none_yet,
  )
