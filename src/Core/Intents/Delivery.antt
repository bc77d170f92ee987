-- ===== src/Core/Intents/Delivery.antt =====
-- core/intent_resolver.py: who receives an intent, with and without a resolution.
use py_fdc3_desktop_agent.Base.{
  String, ◌≡◌, refl, sym, ap, ◌∙◌, subst, inl, inr, Bool, true, ◌&&◌, Option, none, some, List, [],
  ◌∷◌, arith, ◌==◌, eq_iff, eq_refl, is_some, truthy, Option-cases,
}
use py_fdc3_desktop_agent.Base.Lists.{filter, any, contains}
use py_fdc3_desktop_agent.Base.Dict.{Dict, get, values}
use py_fdc3_desktop_agent.Core.Listeners.{IntentListener, get_intent_listeners}
use py_fdc3_desktop_agent.Core.Apps.{AppInstance, AppRegistry, get_instance, get_instances_for_app}
use py_fdc3_desktop_agent.Core.Intents.{
  IntentResolution, IntentResolver, instance_uuids, first_listener, resolve_intent,
  deliver_intent_event, listens, resolved_instance, resolved_target,
  deliver_intent_event_with_resolution,
}

-- The test of the loop.
abbrev fits : String → List IntentListener → AppInstance → Bool
fits instance_id ls a = a.instance_id == instance_id && listens ls a.instance_uuid

resolved_instance_sound :
    (xs : List AppInstance) (app_id instance_id : String) (ls : List IntentListener)
    (a : AppInstance)
    → resolved_instance (filter (λ x. x.app_id == app_id) xs) instance_id ls ≡ some a
    → (a.app_id ≡ app_id) × (a.instance_id ≡ instance_id) × (listens ls a.instance_uuid ≡ true)
unfolding resolved_instance
resolved_instance_sound [] app_id instance_id ls a h = (cc, cc, cc)
resolved_instance_sound (x ∷ xs) app_id instance_id ls a h = ground (
  arith,
  resolved_instance_sound xs app_id instance_id ls a,
  eq_iff x.app_id app_id,
  eq_iff x.instance_id instance_id,
)

resolved_instance_found :
    (xs : List AppInstance) (app_id instance_id : String) (ls : List IntentListener)
    → is_some (resolved_instance (filter (λ x. x.app_id == app_id) xs) instance_id ls)
      ≡ any (λ x. x.app_id == app_id && fits instance_id ls x) xs
unfolding resolved_instance
resolved_instance_found [] app_id instance_id ls = refl
resolved_instance_found (x ∷ xs) app_id instance_id ls =
    ground (arith, resolved_instance_found xs app_id instance_id ls)

any-values_of_get :
    (p : AppInstance → Bool) (d : Dict AppInstance) (k : String) (a : AppInstance)
    → get d k ≡ some a
    → p a ≡ true
    → any p (values d) ≡ true
unfolding get values
any-values_of_get p [] k a e h = cc
any-values_of_get p ((j, x) ∷ d) k a e h = ground (arith, any-values_of_get p d k a)

contains-instance_uuids :
    (ls : List IntentListener) (i : String) → contains i (instance_uuids ls) ≡ listens ls i
contains-instance_uuids [] i = refl
contains-instance_uuids (l ∷ ls) i = ground (arith, contains-instance_uuids ls i)

abbrev or_empty : Option String → String
or_empty none = ""
or_empty (some s) = s

-- The instance that a resolution leads to has the resolution's application and instance
-- identifier, and listens for the intent.
pub resolved_target_sound :
    (r : IntentResolver) (intent : String) (resolution : IntentResolution) (a : AppInstance)
    → resolved_target r intent (some resolution) ≡ some a
    → (a.app_id ≡ resolution.source.app_id)
      × (resolution.source.instance_id ≡ some a.instance_id)
      × (listens (get_intent_listeners r.listener_store intent) a.instance_uuid ≡ true)
unfolding resolved_target get_instances_for_app
resolved_target_sound r intent resolution a h = ground (
  arith,
  resolved_instance_sound (values r.app_registry.instances) resolution.source.app_id
      (or_empty resolution.source.instance_id) (get_intent_listeners r.listener_store intent) a,
)

-- Whatever the resolution is, an instance receives the intent only if it listens for it; and where
-- the resolution leads to no instance, exactly those that listen receive it.
pub deliver_listens :
    (r : IntentResolver) (intent : String) (resolution : Option IntentResolution) (i : String)
    → contains i (deliver_intent_event_with_resolution r intent resolution) ≡ (
        elim (resolved_target r intent resolution) [ none ↦ true | some a ↦ a.instance_uuid == i ]
        && listens (get_intent_listeners r.listener_store intent) i)
unfolding deliver_intent_event_with_resolution deliver_intent_event
deliver_listens r intent none i =
    unfold resolved_target in
    contains-instance_uuids (get_intent_listeners r.listener_store intent) i
deliver_listens r intent (some resolution) i =
    elim (Option-cases (resolved_target r intent (some resolution))) [
      | inl e ↦
          rw (e, deliver_intent_event_with_resolution)
            (contains-instance_uuids (get_intent_listeners r.listener_store intent) i)
      | inr (a, e) ↦
          rw (e, deliver_intent_event_with_resolution)
            (ground
              (arith, resolved_target_sound r intent resolution a e, eq_iff a.instance_uuid i))
    ]

first_listens :
    (ls : List IntentListener) (l : IntentListener)
    → first_listener ls ≡ some l
    → listens ls l.instance_uuid ≡ true
first_listens [] l h = cc
first_listens (x ∷ ls) l h = ground (arith, eq_refl l.instance_uuid)

-- Every instance stands under its own identifier, and none has an empty instance identifier.
abbrev pub IsKeyed : AppRegistry → Type 0
IsKeyed apps =
    (i : String) (a : AppInstance)
    → get apps.instances i ≡ some a
    → (a.instance_uuid ≡ i) × (truthy a.instance_id ≡ true)

module _ (r : IntentResolver) (intent : String) (l : IntentListener) (a : AppInstance)
    (keyed : IsKeyed r.app_registry)
    (first : first_listener (get_intent_listeners r.listener_store intent) ≡ some l)
    (there : get_instance r.app_registry l.instance_uuid ≡ some a) where
  abbrev answer : IntentResolution
  answer = record {
    source = record { app_id = a.app_id; instance_id = some a.instance_id };
    intent = intent;
  }

  answer_lem : resolve_intent r intent ≡ some answer
  unfolding resolve_intent
  answer_lem = rw (first, resolve_intent, there)

  answer_found : is_some (resolved_target r intent (some answer)) ≡ true
  unfolding resolved_target get_instances_for_app get_instance
  answer_found = ground (
    arith,
    keyed l.instance_uuid a there,
    first_listens (get_intent_listeners r.listener_store intent) l first,
    resolved_instance_found (values r.app_registry.instances) a.app_id a.instance_id
        (get_intent_listeners r.listener_store intent),
    any-values_of_get wanted r.app_registry.instances l.instance_uuid a there,
    eq_refl a.app_id,
    eq_refl a.instance_id,
  )
    where
      wanted : AppInstance → Bool
      wanted x =
          x.app_id == a.app_id
          && fits a.instance_id (get_intent_listeners r.listener_store intent) x

resolved_target_found :
    (r : IntentResolver) (intent : String) (resolution : IntentResolution)
    → IsKeyed r.app_registry
    → resolve_intent r intent ≡ some resolution
    → is_some (resolved_target r intent (some resolution)) ≡ true
resolved_target_found r intent resolution keyed h =
    elim (Option-cases (first_listener (get_intent_listeners r.listener_store intent))) [
      | inl e ↦ unfold resolve_intent in absurd (ground (arith, h, e))
      | inr (l, e) ↦ elim (Option-cases (get_instance r.app_registry l.instance_uuid)) [
        | inl f ↦ unfold resolve_intent in absurd (ground (arith, h, e, f))
        | inr (a, f) ↦
            subst (λ o. is_some (resolved_target r intent o) ≡ true)
              (sym (answer_lem r intent l a keyed e f) ∙ h) (answer_found r intent l a keyed e f)
      ]
    ]

-- A resolution that was just made is honoured: the intent goes to one instance, which has the
-- application and the instance identifier of the resolution and listens for the intent. (Every
-- instance stands under its own identifier, and none has an empty instance identifier.)
pub resolve-deliver :
    (r : IntentResolver) (intent : String) (resolution : IntentResolution)
    → IsKeyed r.app_registry
    → resolve_intent r intent ≡ some resolution
    → (a : AppInstance) × (deliver_intent_event_with_resolution r intent (some resolution)
        ≡ a.instance_uuid ∷ [])
      × (a.app_id ≡ resolution.source.app_id)
      × (resolution.source.instance_id ≡ some a.instance_id)
      × (listens (get_intent_listeners r.listener_store intent) a.instance_uuid ≡ true)
unfolding deliver_intent_event_with_resolution
resolve-deliver r intent resolution keyed h =
    elim (Option-cases (resolved_target r intent (some resolution))) [
      | inl e ↦ absurd (cc (resolved_target_found r intent resolution keyed h, ap is_some e))
      | inr (a, e) ↦
          let (app, inst, on) = resolved_target_sound r intent resolution a e in
          (a, rw (e, deliver_intent_event_with_resolution), app, inst, on)
    ]
