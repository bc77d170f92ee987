-- ===== src/Dacp/Apps/Reuse.antt =====
-- handlers/dacp/app.py: which instances keep an application from being launched.
use py_fdc3_desktop_agent.Base.{
  String, ◌≡◌, refl, subst, Bool, true, false, ◌&&◌, Option, none, some, List, [], ◌∷◌, arith, ◌==◌,
  truthy, Bool-cases, Option-cases, inl, inr, is_some,
}
use py_fdc3_desktop_agent.Base.Lists.{filter, any}
use py_fdc3_desktop_agent.Base.Dict.{values}
use py_fdc3_desktop_agent.Core.Apps.{AppInstance, AppRegistry, get_instances_for_app}
use py_fdc3_desktop_agent.Dacp.Agent.{Call}
use py_fdc3_desktop_agent.Dacp.Apps.{Storage, AppTarget, is_requested, found}
use py_fdc3_desktop_agent.Dacp.Apps.Opening.{
  OpenRequest, OpenBridge, launch, app_identity, requested_instance_id, instance_with,
  first_instance, reusable, configured, open_here, target_agent, handle_open,
}

-- Whether the instance could answer the request.
abbrev pub serves : String → Option String → AppInstance → Bool
serves app_id requested inst = inst.app_id == app_id && is_requested requested inst

none_with :
    (app_id i : String) (xs : List AppInstance)
    → truthy i ≡ true
    → instance_with i (filter (λ a. a.app_id == app_id) xs) ≡ none
    → any (serves app_id (some i)) xs ≡ false
unfolding instance_with
none_with app_id i [] t h = refl
none_with app_id i (x ∷ xs) t h = ground (arith, t, h, none_with app_id i xs t)

none_at_all :
    (app_id : String) (requested : Option String) (xs : List AppInstance)
    → filter (λ a. a.app_id == app_id) xs ≡ []
    → any (serves app_id requested) xs ≡ false
none_at_all app_id requested [] h = refl
none_at_all app_id requested (x ∷ xs) h = ground (arith, h, none_at_all app_id requested xs)

first_none : (xs : List AppInstance) → first_instance xs ≡ none → xs ≡ []
first_none [] h = refl
first_none (x ∷ xs) h = absurd (cc h)

none-reusable :
    (r : AppRegistry) (app_id : String) (requested : Option String)
    → reusable requested (get_instances_for_app r app_id) ≡ none
    → any (serves app_id requested) (values r.instances) ≡ false
unfolding reusable get_instances_for_app
none-reusable r app_id none h =
    none_at_all app_id none (values r.instances) (first_none (get_instances_for_app r app_id) h)
none-reusable r app_id (some i) h = elim (Bool-cases (truthy i)) [
  | inl t ↦ none_with app_id i (values r.instances) t (ground (arith, t, h))
  | inr t ↦
      none_at_all app_id (some i) (values r.instances)
        (first_none (get_instances_for_app r app_id) (ground (arith, t, h)))
]

Launches : Storage → AppRegistry → Option String → String → String → Type 0
Launches storage r requested app_id config =
    (any (serves app_id requested) (values r.instances) ≡ false)
    × (is_some (found (storage.get_app_metadata app_id)) ≡ true)
    × (storage.get_launch_config app_id ≡ some (some config))

configured-launch :
    (storage : Storage) (t : AppTarget) (app_id config : String) (app : AppTarget)
    → configured storage t ≡ launch app_id config app
    → (t.app_id ≡ app_id) × (storage.get_launch_config t.app_id ≡ some (some config))
unfolding configured
configured-launch storage t app_id config app h = ground (arith, h)

here-launch :
    (storage : Storage) (r : AppRegistry) (t : AppTarget) (requested : Option String)
    (app_id config : String) (app : AppTarget)
    → open_here storage r t requested ≡ launch app_id config app
    → Launches storage r requested app_id config
unfolding open_here Launches
here-launch storage r t requested app_id config app h =
    elim (Option-cases (storage.get_app_metadata t.app_id)) [
      | inl e ↦ absurd (ground (arith, e, h))
      | inr (meta, e) ↦ elim (Option-cases meta) [
        | inl f ↦ absurd (ground (arith, e, f, h))
        | inr (m, f) ↦ elim (Option-cases (reusable requested (get_instances_for_app r t.app_id))) [
          | inl u ↦
              let c = configured-launch storage t app_id config app (ground (arith, e, f, u, h)) in
              subst (λ x. Launches storage r requested x config) c.0
                (none-reusable r t.app_id requested u, ground (arith, e, f), c.1)
          | inr (i, u) ↦ absurd (ground (arith, e, f, u, h))
        ]
      ]
    ]

-- An application is launched only if it is in the directory with a launch configuration, the one
-- it is launched with, and no instance of it is registered: none with the identifier that the
-- request names, or none at all if it names none.
pub open-launch :
    (casefold : String → String) (storage : Storage) (bridge : OpenBridge) (r : AppRegistry)
    (k : Call) (q : OpenRequest) (app_id config : String) (app : AppTarget)
    → handle_open casefold storage bridge r k q ≡ launch app_id config app
    → (any (serves app_id (requested_instance_id q.app)) (values r.instances) ≡ false)
      × (is_some (found (storage.get_app_metadata app_id)) ≡ true)
      × (storage.get_launch_config app_id ≡ some (some config))
unfolding handle_open Launches
open-launch casefold storage bridge r k q app_id config app h =
    elim (Option-cases (app_identity casefold storage q.app)) [
      | inl e ↦ absurd (ground (arith, e, h))
      | inr (t, e) ↦ elim (Option-cases (target_agent k t)) [
        | inl f ↦
            here-launch storage r t (requested_instance_id q.app) app_id config app
              (ground (arith, e, f, h))
        | inr (d, f) ↦ absurd (ground (arith, e, f, h))
      ]
    ]
