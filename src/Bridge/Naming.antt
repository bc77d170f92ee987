-- ===== src/Bridge/Naming.antt =====
-- bridging/router.py: the identifiers in a response name a desktop agent.
use py_fdc3_desktop_agent.Base.{
  ◌≡◌, refl, String, Bool, true, false, ◌&&◌, Option, none, some, arith, if◌then◌else◌, opt_truthy,
  eq_refl,
}
use py_fdc3_desktop_agent.Base.Json.{
  Json, json_null, json_bool, json_number, json_text, json_list, json_object, Items, no_items, item,
  Fields, no_fields, field, get, put, opt_holds, object_of, get-put,
}
use py_fdc3_desktop_agent.Bridge.Answers.{
  has_type, named, named_value, named_items, named_each, change, inject_desktop_agent, in_object,
  name_value, named_intent,
}

-- Whether the identifier names an agent, when it is one, and whether those of a list do.
abbrev pub names_agent : Json → Bool
names_agent (json_object d) = opt_holds (get d "desktopAgent")
names_agent v = true

unfoldable pub items_name : Items → Bool
unfolding get
items_name no_items = true
items_name (item v rest) = names_agent v && items_name rest

abbrev pub list_names : Json → Bool
list_names (json_list items) = items_name items
list_names v = true

-- What `test` says of the value under `k`, if there is one.
unfoldable pub under : Fields → String → (Json → Bool) → Bool
unfolding get
under d k test = elim (get d k) [ none ↦ true | some v ↦ test v ]

abbrev pub inside : (Fields → Bool) → Json → Bool
inside test (json_object d) = test d
inside test v = true

-- Whether the identifiers name an agent in the payload of a response of the five types that
-- `_inject_desktop_agent` knows.
unfoldable pub known_names : Fields → Fields → Bool
unfolding under items_name
known_names resp payload =
    if has_type resp "openResponse"
    then under payload "appIdentifier" names_agent
    else if has_type resp "getAppMetadataResponse"
    then under payload "appMetadata" names_agent
    else if has_type resp "raiseIntentResponse"
    then under payload "intentResolution" (inside (λ d. under d "source" names_agent))
    else if has_type resp "findIntentResponse"
    then under payload "appIntent" (inside (λ d. under d "apps" list_names))
    else if has_type resp "findInstancesResponse"
    then under payload "appIdentifiers" list_names
    else true

-- What holds of every changed value holds after the change.
pub under-change :
    (d : Fields) (k : String) (f : Json → Json) (test : Json → Bool)
    → ((v : Json) → test (f v) ≡ true)
    → under (change d k f) k test ≡ true
unfolding under change
under-change no_fields k f test h = refl
under-change (field j v d) k f test h = ground (arith, h v, under-change d k f test h)

filled :
    (d d' : Fields) (k : String) (f : Json → Json) (test : Json → Bool)
    → ((v : Json) → test (f v) ≡ true)
    → some (change d k f) ≡ some d'
    → under d' k test ≡ true
filled d d' k f test h e = cc (under-change d k f test h, e)

-- A test that goes with a choice.
pub either :
    (b : Bool) {x x' : Option Fields} {y y' : Bool} (d : Fields)
    → (x ≡ some d → y ≡ true)
    → (x' ≡ some d → y' ≡ true)
    → (if b then x else x') ≡ some d
    → (if b then y else y') ≡ true
either true d f g h = f h
either false d f g h = g h

under-no_object :
    (d : Fields) (k : String) (test : Fields → Bool)
    → object_of (get d k) ≡ none
    → under d k (inside test) ≡ true
unfolding under get
under-no_object no_fields k test h = refl
under-no_object (field j (json_object o) d) k test h = ground (arith, under-no_object d k test)
under-no_object (field j json_null d) k test h = ground (arith, under-no_object d k test)
under-no_object (field j (json_bool b) d) k test h = ground (arith, under-no_object d k test)
under-no_object (field j (json_number n) d) k test h = ground (arith, under-no_object d k test)
under-no_object (field j (json_text t) d) k test h = ground (arith, under-no_object d k test)
under-no_object (field j (json_list l) d) k test h = ground (arith, under-no_object d k test)

under-put :
    (d : Fields) (k : String) (v : Json) (test : Json → Bool)
    → test v ≡ true
    → under (put d k v) k test ≡ true
unfolding under put get
under-put no_fields k v test h = ground (arith, eq_refl k)
under-put (field j w d) k v test h = ground (arith, under-put d k v test h, eq_refl k)

module _ (local_name : Option String) (named_agent : opt_truthy local_name ≡ true) where
  names-named : (v : Json) → names_agent (named_value local_name v) ≡ true
  unfolding named
  names-named (json_object d) =
      ground (arith, named_agent, get-put d "desktopAgent" "desktopAgent" (name_value local_name))
  names-named json_null = refl
  names-named (json_bool b) = refl
  names-named (json_number n) = refl
  names-named (json_text t) = refl
  names-named (json_list items) = refl

  items_name-named : (items : Items) → items_name (named_items local_name items) ≡ true
  unfolding items_name named_items
  items_name-named no_items = refl
  items_name-named (item v rest) = ground (arith, names-named v, items_name-named rest)

  list_names-named : (v : Json) → list_names (named_each local_name v) ≡ true
  list_names-named json_null = refl
  list_names-named (json_bool b) = refl
  list_names-named (json_number n) = refl
  list_names-named (json_text t) = refl
  list_names-named (json_list items) = items_name-named items
  list_names-named (json_object d) = refl

  source_names :
      (v : Json)
      → inside
          (λ d. under d "source" names_agent)
          (in_object (λ d. change d "source" (named_value local_name)) v)
        ≡ true
  source_names (json_object d) =
      under-change d "source" (named_value local_name) names_agent names-named
  source_names json_null = refl
  source_names (json_bool b) = refl
  source_names (json_number n) = refl
  source_names (json_text t) = refl
  source_names (json_list items) = refl

  intent-names :
      (payload payload' : Fields) (o : Option Fields)
      → object_of (get payload "appIntent") ≡ o
      → named_intent local_name payload o ≡ some payload'
      → under payload' "appIntent" (inside (λ d. under d "apps" list_names)) ≡ true
  unfolding named_intent
  intent-names payload payload' none e h =
      ground (arith, h, under-no_object payload "appIntent" (λ d. under d "apps" list_names) e)
  intent-names payload payload' (some intent) e h = ground (
    arith,
    h,
    under-put payload "appIntent" (json_object (change intent "apps" (named_each local_name)))
        (inside (λ d. under d "apps" list_names))
        (under-change intent "apps" (named_each local_name) list_names list_names-named),
  )

  pub inject-names :
      (resp payload payload' : Fields)
      → inject_desktop_agent local_name resp payload ≡ some payload'
      → known_names resp payload' ≡ true
  unfolding inject_desktop_agent known_names
  inject-names resp payload payload' h =
      either (has_type resp "openResponse") payload'
        (filled payload payload' "appIdentifier" (named_value local_name) names_agent names-named)
        (either (has_type resp "getAppMetadataResponse") payload'
          (filled payload payload' "appMetadata" (named_value local_name) names_agent names-named)
          (either (has_type resp "raiseIntentResponse") payload'
            (filled payload payload' "intentResolution"
              (in_object (λ d. change d "source" (named_value local_name)))
              (inside (λ d. under d "source" names_agent)) source_names)
            (either (has_type resp "findIntentResponse") payload'
              (intent-names payload payload' (object_of (get payload "appIntent")) refl)
              (either (has_type resp "findInstancesResponse") payload'
                (λ e. ground (
                  arith,
                  e,
                  under-change payload "appIdentifiers" (named_each local_name) list_names
                      list_names-named,
                ))
                (λ e. refl)))))
        h
