-- ===== src/Core/External.antt =====
-- core/external_registry.py: the handlers of external processes, by their identifier and by intent.
pub mod Order
pub mod Filing
pub mod Record
pub mod Disconnect
mod Tests
use py_fdc3_desktop_agent.Base.Int.{ℤ, ltb_ℤ}
use py_fdc3_desktop_agent.Base.{
  ℕ, zero, suc, ◌+◌, ◌-◌, ◌≤◌, ◌<◌, String, ◌≡◌, refl, sym, ap, ◌∙◌, subst, ◌≢◌, ◌↔◌, ◌⊎◌, inl, inr,
  Bool, true, false, not, ◌&&◌, ◌||◌, Option, none, some, List, [], ◌∷◌, ◌++◌, map, arith, ◌==◌,
  eq_iff, eq_refl, if◌then◌else◌, ltb, leb, is_some, truthy, opt_truthy, opt_eq, opt_eq_iff,
  Bool-cases, Option-cases, concat,
}
use py_fdc3_desktop_agent.Base.Lists.{
  length, is_empty, filter, any, All, contains, count, erase, contains-count, count-contains,
  not_contains-count, count-append, count-erase, contains-append,
}
use py_fdc3_desktop_agent.Base.Dict.{
  Dict, get, put, remove, has, modify, values, keys, get-put, get-remove, get-modify, dict_laws,
}
use py_fdc3_desktop_agent.Base.StrSet.{add, discard, contains-add, contains-discard, set_laws}

-- `metadata` is any dict: it is stored and never read, and is represented by a text.
pub record ExternalHandler : Type 0 where
  pub handler_uuid : String
  pub instance_uuid : String
  pub handler_id : String
  pub intents : List String
  pub priority : ℤ
  pub metadata : Option String

pub record ExternalRegistry : Type 0 where
  pub handlers : Dict ExternalHandler
  pub intent_map : Dict (List ExternalHandler)

abbrev pub no_handlers : ExternalRegistry
no_handlers = record { handlers = []; intent_map = [] }

abbrev pub list_or_empty : Option (List ExternalHandler) → List ExternalHandler
list_or_empty none = []
list_or_empty (some hs) = hs

-- `sort(key=lambda h: h.priority, reverse=True)`: descending, and stable as Python's sort is.
abbrev pub place : ExternalHandler → List ExternalHandler → List ExternalHandler
place h [] = h ∷ []
place h (x ∷ xs) = if ltb_ℤ h.priority x.priority then x ∷ place h xs else h ∷ x ∷ xs

unfoldable pub sort : List ExternalHandler → List ExternalHandler
sort [] = []
sort (h ∷ hs) = place h (sort hs)

-- `for intent in handler.intents`, in `register`
unfoldable pub file_under :
    Dict (List ExternalHandler) → ExternalHandler → List String → Dict (List ExternalHandler)
file_under d h [] = d
file_under d h (intent ∷ rest) =
    file_under (put d intent (sort (list_or_empty (get d intent) ++ h ∷ []))) h rest

unfoldable pub register :
    ExternalRegistry
    → String
    → String
    → String
    → List String
    → ℤ
    → Option String
    → ExternalRegistry × String
register r handler_uuid i handler_id intents priority metadata =
    let handler : ExternalHandler = record {
      handler_uuid = handler_uuid;
      instance_uuid = i;
      handler_id = handler_id;
      intents = intents;
      priority = priority;
      metadata = metadata;
    } in
    (
      record {
        handlers = put r.handlers handler_uuid handler;
        intent_map = file_under r.intent_map handler intents;
      },
      handler_uuid,
    )

-- `[h for h in … if h.handler_uuid != handler_uuid]`
abbrev pub without : String → List ExternalHandler → List ExternalHandler
without u hs = filter (λ h. not (h.handler_uuid == u)) hs

-- An emptied list is dropped with its intent.
abbrev pub keep_list :
    Dict (List ExternalHandler) → String → List ExternalHandler → Dict (List ExternalHandler)
keep_list d intent hs = if is_empty hs then remove d intent else put d intent hs

-- `for intent in handler.intents`, in `unregister`
unfoldable pub unfile :
    Dict (List ExternalHandler) → String → List String → Dict (List ExternalHandler)
unfile d u [] = d
unfile d u (intent ∷ rest) =
    unfile (elim (get d intent) [ none ↦ d | some hs ↦ keep_list d intent (without u hs) ]) u rest

unfoldable pub unregister : ExternalRegistry → String → ExternalRegistry
unregister r u = elim (get r.handlers u) [
  | none ↦ r
  | some h ↦ record { handlers = remove r.handlers u; intent_map = unfile r.intent_map u h.intents }
]

unfoldable pub get_handlers_for_intent : ExternalRegistry → String → List ExternalHandler
get_handlers_for_intent r intent = list_or_empty (get r.intent_map intent)

-- `for hu in to_remove: self.unregister(hu)`
unfoldable pub unregister_each : ExternalRegistry → List String → ExternalRegistry
unregister_each r [] = r
unregister_each r (u ∷ us) = unregister_each (unregister r u) us

unfoldable pub unregister_by_instance : ExternalRegistry → String → ExternalRegistry
unfolding values
unregister_by_instance r i =
    unregister_each r
      (map (λ h. h.handler_uuid) (filter (λ h. h.instance_uuid == i) (values r.handlers)))

unfoldable pub list_handlers : ExternalRegistry → List ExternalHandler
unfolding values
list_handlers r = values r.handlers
