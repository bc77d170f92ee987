-- ===== src/Bridge/Hiding.antt =====
-- bridging/router.py: what becomes of an error in the response to findIntentsByContextRequest.
use mathlib.Core.Option.{some-injective}
use py_fdc3_desktop_agent.Base.{◌≡◌, refl, ap, ◌∙◌, String, true, Option, none, some, arith}
use py_fdc3_desktop_agent.Base.Json.{
  Json, json_text, json_list, json_object, no_items, Fields, no_fields, field, get, put, remove,
  holds, opt_holds, object_of, object_or_empty, get-put, get-remove, text_ends_with, text_front,
}
use py_fdc3_desktop_agent.Bridge.Answers.{
  failed, bridge_response, transform_response_for_bridge, expect_type, normalize_errors,
  apply_response_field_mappings, inject_desktop_agent, written_back, transformed,
}
use py_fdc3_desktop_agent.Bridge.Typing.{response_type, expect-types}

abbrev pub by_context : String
by_context = "findIntentsByContextRequest"

-- `r["payload"].get(k)`, where the response `r` has a payload
abbrev pub in_payload : Fields → String → Option Json
in_payload r k = elim (object_of (get r "payload")) [ none ↦ none | some d ↦ get d k ]

expect-payload :
    (t : Option String) (resp : Fields) → get (expect_type t resp) "payload" ≡ get resp "payload"
unfolding expect_type
expect-payload none resp = refl
expect-payload (some t) resp =
    ground (arith, get-put resp "type" "payload" (json_text (response_type t)))

typed :
    (resp : Fields)
    → get (expect_type (some by_context) resp) "type"
      ≡ some (json_text "findIntentsByContextResponse")
unfolding text_ends_with text_front
typed resp = expect-types by_context resp refl

error-kept :
    (resp p : Fields)
    → opt_holds (get p "error") ≡ true
    → opt_holds (get (normalize_errors resp p (some by_context)).1 "error") ≡ true
unfolding normalize_errors
error-kept resp p h = ground (arith, h, get-put p "error" "error" (json_text "MalformedMessage"))

same-response : (resp p : Fields) → (normalize_errors resp p (some by_context)).0 ≡ resp
unfolding normalize_errors
same-response resp p = ground arith

-- The payload without its error.
abbrev hidden : Fields → Fields
hidden p = put (remove p "error") "appIntents" (json_list no_items)

mapped :
    (resp p : Fields)
    → get resp "type" ≡ some (json_text "findIntentsByContextResponse")
    → opt_holds (get p "error") ≡ true
    → apply_response_field_mappings resp p ≡ hidden p
unfolding apply_response_field_mappings
mapped resp p t h = ground (arith, t, h)

injected :
    (local_name : Option String) (resp p : Fields)
    → get resp "type" ≡ some (json_text "findIntentsByContextResponse")
    → inject_desktop_agent local_name resp p ≡ some p
unfolding inject_desktop_agent
injected local_name resp p t = ground (arith, t)

object-given :
    (p : Fields)
    → opt_holds (get p "error") ≡ true
    → (object_or_empty (some (json_object p)) ≡ some p) × (holds (json_object p) ≡ true)
unfolding get
object-given no_fields h = cc
object-given (field k v d) h = (refl, refl)

module _ (local_name : Option String) (resp p : Fields)
    (payload : get resp "payload" ≡ some (json_object p))
    (erroneous : opt_holds (get p "error") ≡ true) where
  abbrev retyped : Fields
  retyped = expect_type (some by_context) resp

  abbrev kept : Fields
  kept = (normalize_errors retyped p (some by_context)).1

  abbrev result : Fields
  result = put retyped "payload" (json_object (hidden kept))

  opened :
      (o : Option Fields)
      → o ≡ some p
      → (elim o [
        | none ↦ failed
        | some d ↦ transformed local_name (normalize_errors retyped d (some by_context))
      ])
        ≡ transformed local_name (normalize_errors retyped p (some by_context))
  opened none e = absurd (cc e)
  opened (some d) e =
      ap (λ x. transformed local_name (normalize_errors retyped x (some by_context)))
        (some-injective d p e)

  attached : get retyped "payload" ≡ some (json_object p)
  attached = expect-payload (some by_context) resp ∙ payload

  steps :
      inject_desktop_agent local_name
        (normalize_errors retyped p (some by_context)).0
        (apply_response_field_mappings (normalize_errors retyped p (some by_context)).0 kept)
      ≡ some (hidden kept)
  steps = cc (
    same-response retyped p,
    mapped retyped kept (typed resp) (error-kept retyped p erroneous),
    injected local_name retyped (hidden kept) (typed resp),
  )

  written :
      transformed local_name (normalize_errors retyped p (some by_context)) ≡ bridge_response result
  written =
      ap (written_back (normalize_errors retyped p (some by_context)).0) steps
      ∙ (ap (λ x. written_back x (some (hidden kept))) (same-response retyped p)
          ∙ ground (arith, attached, (object-given p erroneous).1))

  -- A response to findIntentsByContextRequest that has an error, whatever error it is, becomes one
  -- without an error and with an empty list of intents: also one for a malformed request.
  pub error_hidden :
      (r : Fields) × (transform_response_for_bridge local_name resp (some by_context)
        ≡ bridge_response r)
      × (in_payload r "error" ≡ none)
      × (in_payload r "appIntents" ≡ some (json_list no_items))
  unfolding transform_response_for_bridge
  error_hidden = (
    result,
    opened (object_or_empty (get retyped "payload"))
          (ap object_or_empty attached ∙ (object-given p erroneous).0)
        ∙ written,
    ground (
      arith,
      get-put retyped "payload" "payload" (json_object (hidden kept)),
      get-put (remove kept "error") "appIntents" "error" (json_list no_items),
      get-remove kept "error" "error",
    ),
    ground (
      arith,
      get-put retyped "payload" "payload" (json_object (hidden kept)),
      get-put (remove kept "error") "appIntents" "appIntents" (json_list no_items),
    ),
  )
