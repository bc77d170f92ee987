-- ===== src/Bridge/Identifiers.antt =====
-- bridging/router.py: the identifiers in every response that `handle` returns.
use py_fdc3_desktop_agent.Base.{
  ◌&&◌, Bool, if◌then◌else◌, ◌≡◌, refl, arith, String, true, Option, none, some, arith, opt_truthy,
}
use py_fdc3_desktop_agent.Base.Json.{
  Json, json_list, Items, item, no_items, object_of, Fields, get, object_or_empty,
}
use py_fdc3_desktop_agent.Dacp.Agent.{Agent}
use py_fdc3_desktop_agent.Bridge.Answers.{
  has_type, failed, bridge_response, transform_response_for_bridge, written_back, transformed,
  normalize_errors, expect_type, inject_desktop_agent, apply_response_field_mappings,
}
use py_fdc3_desktop_agent.Bridge.Naming.{
  inside, list_names, inject-names, known_names, under, items_name, known_names,
}
use py_fdc3_desktop_agent.Bridge.Written.{answer_known, written-names}

-- Whether the applications of each intent of a list name an agent.
unfoldable pub intents_name : Items → Bool
unfolding under items_name
intents_name no_items = true
intents_name (item v rest) = inside (λ d. under d "apps" list_names) v && intents_name rest

abbrev pub intent_list_names : Json → Bool
intent_list_names (json_list items) = intents_name items
intent_list_names v = true

-- Whether all identifiers name an agent in the payload of a response to one of the seven requests of
-- the bridge. A broadcast's has none.
unfoldable pub payload_names : Fields → Fields → Bool
unfolding known_names under intents_name
payload_names resp payload =
    if has_type resp "findIntentsByContextResponse"
    then under payload "appIntents" intent_list_names
    else known_names resp payload

unfoldable pub answer_names : Fields → Bool
unfolding payload_names get
answer_names r = elim (object_of (get r "payload")) [
  | none ↦ true
  | some payload ↦ payload_names r payload
]

module _ (local_name : Option String) (named_agent : opt_truthy local_name ≡ true) where
  injected-names :
      (resp payload r : Fields) (o : Option Fields)
      → inject_desktop_agent local_name resp payload ≡ o
      → written_back resp o ≡ bridge_response r
      → answer_known r ≡ true
  injected-names resp payload r none e h = cc
  injected-names resp payload r (some payload') e h =
      written-names resp payload' r (inject-names local_name named_agent resp payload payload' e) h

  pub transform-names :
      (resp r : Fields) (msg_type : Option String)
      → transform_response_for_bridge local_name resp msg_type ≡ bridge_response r
      → answer_known r ≡ true
  unfolding transform_response_for_bridge
  transform-names resp r msg_type h =
      go (object_or_empty (get (expect_type msg_type resp) "payload")) h
    where
      go :
          (o : Option Fields)
          → (elim o [
            | none ↦ failed
            | some payload ↦
                transformed local_name
                  (normalize_errors (expect_type msg_type resp) payload msg_type)
          ])
            ≡ bridge_response r
          → answer_known r ≡ true
      go none e = cc
      go (some payload) e =
          let (resp', payload') = normalize_errors (expect_type msg_type resp) payload msg_type in
          injected-names resp' (apply_response_field_mappings resp' payload') r
            (inject_desktop_agent local_name resp' (apply_response_field_mappings resp' payload'))
            refl e
