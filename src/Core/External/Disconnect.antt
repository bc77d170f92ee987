-- ===== src/Core/External/Disconnect.antt =====
-- core/external_registry.py: what is left of an instance's handlers after it disconnects.
use py_fdc3_desktop_agent.Base.Int.{ℤ}
use py_fdc3_desktop_agent.Base.Dict.{Distinct}
use py_fdc3_desktop_agent.Base.{
  String, ◌≡◌, refl, Bool, false, Option, none, some, List, [], ◌∷◌, map, arith, ◌==◌, eq_iff,
  eq_refl, if◌then◌else◌,
}
use py_fdc3_desktop_agent.Base.Lists.{filter, any, contains}
use py_fdc3_desktop_agent.Base.Dict.{Dict, get, values}
use py_fdc3_desktop_agent.Core.External.{
  ExternalHandler, ExternalRegistry, no_handlers, register, unregister, get_handlers_for_intent,
  unregister_each, unregister_by_instance,
}
use py_fdc3_desktop_agent.Core.External.Filing.{listed}
use py_fdc3_desktop_agent.Core.External.Record.{
  IsFiled, any_of_All, handlers-unregister, register-IsFiled, unregister-IsFiled,
}

-- The identifiers that are unregistered when the instance `i` disconnects.
abbrev uuids_of : Dict ExternalHandler → String → List String
uuids_of d i = map (λ h. h.handler_uuid) (filter (λ h. h.instance_uuid == i) (values d))

-- Whether an optional handler is the instance's.
abbrev pub belongs : Option ExternalHandler → String → Bool
belongs none i = false
belongs (some h) i = h.instance_uuid == i

contains-uuids_of :
    (d : Dict ExternalHandler) (i u : String)
    → Distinct d
    → ((k : String) (h : ExternalHandler) → get d k ≡ some h → h.handler_uuid ≡ k)
    → contains u (uuids_of d i) ≡ belongs (get d u) i
unfolding values get
contains-uuids_of [] i u h keyed = refl
contains-uuids_of ((k, x) ∷ d) i u h keyed = ground (
  arith,
  keyed k x (ground (arith, eq_refl k)),
  contains-uuids_of d i u h.1 (λ j y e. keyed j y (ground (arith, h.0, e, eq_iff k j))),
  h.0,
  eq_iff k u,
  eq_iff x.handler_uuid u,
)

handlers-unregister_each :
    (r : ExternalRegistry) (us : List String) (k : String)
    → get (unregister_each r us).handlers k ≡ (if contains k us then none else get r.handlers k)
unfolding unregister_each
handlers-unregister_each r [] k = refl
handlers-unregister_each r (u ∷ us) k =
    ground (arith, handlers-unregister_each (unregister r u) us k, handlers-unregister r u k)

unregister_each-IsFiled :
    (r : ExternalRegistry) (us : List String) → IsFiled r → IsFiled (unregister_each r us)
unfolding unregister_each
unregister_each-IsFiled r [] v = v
unregister_each-IsFiled r (u ∷ us) v =
    unregister_each-IsFiled (unregister r u) us (unregister-IsFiled r u v)

module _ (r : ExternalRegistry) (i : String) (v : IsFiled r) where
  pub unregister_by_instance-IsFiled : IsFiled (unregister_by_instance r i)
  unfolding unregister_by_instance
  unregister_by_instance-IsFiled = unregister_each-IsFiled r (uuids_of r.handlers i) v

  -- Exactly the handlers of the instance are unregistered.
  pub handlers-unregister_by_instance :
      (u : String)
      → get (unregister_by_instance r i).handlers u
        ≡ (if belongs (get r.handlers u) i then none else get r.handlers u)
  unfolding unregister_by_instance
  handlers-unregister_by_instance u = ground (
    arith,
    handlers-unregister_each r (uuids_of r.handlers i) u,
    contains-uuids_of r.handlers i u v.distinct v.keyed,
  )

  -- In a registry whose indices agree, after an instance disconnects no intent has a handler of
  -- that instance; and every handler of another instance stands under exactly the intents that it
  -- stood under before.
  pub intents-unregister_by_instance :
      (intent : String)
      → (any
            (λ h. h.instance_uuid == i)
            (get_handlers_for_intent (unregister_by_instance r i) intent)
          ≡ false)
        × ((u : String)
            → any
                (λ h. h.handler_uuid == u)
                (get_handlers_for_intent (unregister_by_instance r i) intent)
              ≡ (if belongs (get r.handlers u) i
                  then false
                  else any (λ h. h.handler_uuid == u) (get_handlers_for_intent r intent)))
  unfolding get_handlers_for_intent
  intents-unregister_by_instance intent = (
    any_of_All (λ h. get (unregister_by_instance r i).handlers h.handler_uuid ≡ some h)
        (λ h. h.instance_uuid == i) (listed (unregister_by_instance r i).intent_map intent)
        (λ h e. ground (arith, handlers-unregister_by_instance h.handler_uuid, e))
        (unregister_by_instance-IsFiled.backed intent),
    λ u. ground (
      arith,
      unregister_by_instance-IsFiled.filed u intent,
      v.filed u intent,
      handlers-unregister_by_instance u,
    ),
  )

-- One call; the identifier of a registered handler has just been drawn.
pub data Step (r : ExternalRegistry) : ExternalRegistry → Type 0 where
  registered :
      (u i handler_id : String) (intents : List String) (priority : ℤ) (metadata : Option String)
      → get r.handlers u ≡ none
      → Step r (register r u i handler_id intents priority metadata).0
  unregistered : (u : String) → Step r (unregister r u)
  disconnected : (i : String) → Step r (unregister_by_instance r i)

pub data Reach : ExternalRegistry → Type 0 where
  start : Reach no_handlers
  next : {r r' : ExternalRegistry} → Reach r → Step r r' → Reach r'

pub Step-IsFiled : {r r' : ExternalRegistry} → Step r r' → IsFiled r → IsFiled r'
Step-IsFiled {r} (registered u i handler_id intents priority metadata fresh) v =
    register-IsFiled r u i handler_id intents priority metadata fresh v
Step-IsFiled {r} (unregistered u) v = unregister-IsFiled r u v
Step-IsFiled {r} (disconnected i) v = unregister_by_instance-IsFiled r i v

-- In every registry that is reached from the empty one by registering handlers under new
-- identifiers, unregistering them and disconnecting instances: the list of an intent holds
-- registered handlers only, by falling priority, and a handler stands in it exactly if it is
-- registered and the intent is among its own.
pub Reach-IsFiled : {r : ExternalRegistry} → Reach r → IsFiled r
unfolding get
Reach-IsFiled start = record {
  keyed = λ u h e. cc;
  distinct = tt;
  backed = λ i. tt;
  filed = λ u i. refl;
  sorted = λ i. tt;
}
Reach-IsFiled (next r st) = Step-IsFiled st (Reach-IsFiled r)
