-- ===== src/Bridge/Typing.antt =====
-- bridging/router.py: the type of every response that `handle` returns.
use mathlib.Core.Option.{some-injective}
use py_fdc3_desktop_agent.Base.{
  sym, ap, ◌∙◌, truthy, ◌≡◌, refl, String, Bool, true, false, Option, none, some, arith,
  if◌then◌else◌, ◌==◌, concat, eq_iff, opt_eq, Bool-cases, inl, inr, subst,
}
use py_fdc3_desktop_agent.Base.Json.{
  Json, no_items, json_null, json_bool, json_number, json_list, json_text, json_object, Fields, get,
  object_or_empty, text_of, get-put, text_ends_with, text_front,
}
use py_fdc3_desktop_agent.Dacp.Agent.{Agent}
use py_fdc3_desktop_agent.Bridge.Requests.{
  ParsedBridgeRequest, malformed_answer, object1, app_payload, find_intent_payload, extract_fields,
  prevalidate_bridge_request,
}
use py_fdc3_desktop_agent.Bridge.Answers.{
  Outcome, failed, bridge_response, transform_response_for_bridge, written_back, transformed,
  normalize_errors, expect_type, inject_desktop_agent, apply_response_field_mappings, has_type,
}
use py_fdc3_desktop_agent.Bridge.Results.{handle-holds}
use py_fdc3_desktop_agent.Bridge.Routing.{handle}

-- The type of the response to a request of type `t`.
abbrev pub response_type : String → String
response_type t = concat (text_front t "Request") "Response"

text_of_iff : (v : Option Json) (t : String) → opt_eq (text_of v) t ≡ true → v ≡ some (json_text t)
text_of_iff none t h = cc
text_of_iff (some json_null) t h = cc
text_of_iff (some (json_bool b)) t h = cc
text_of_iff (some (json_number n)) t h = cc
text_of_iff (some (json_text u)) t h = ap (λ x. some (json_text x)) ((eq_iff u t).0 h)
text_of_iff (some (json_list l)) t h = cc
text_of_iff (some (json_object d)) t h = cc

-- A test, and what either side of it leads to.
choose :
    {Q : Type 0} (r : Fields) (b : Bool) (x y : Option Fields)
    → (b ≡ true → x ≡ some r → Q)
    → (y ≡ some r → Q)
    → (if b then x else y) ≡ some r
    → Q
choose r true x y f g h = f refl h
choose r false x y f g h = g h

refused-types :
    (t k : String) (payload : Json) (u : String) (r : Fields) (valid : Bool)
    → (t == k) ≡ true
    → (if valid then none else some (malformed_answer (response_type k) payload u)) ≡ some r
    → get r "type" ≡ some (json_text (response_type t))
unfolding get
refused-types t k payload u r true e h = absurd (cc h)
refused-types t k payload u r false e h =
    ap (λ d. get d "type") (sym (some-injective _ _ h))
    ∙ ap (λ x. some (json_text (response_type x))) (sym ((eq_iff t k).0 e))

malformed-types :
    (t : String) (payload : Fields) (u : String) (r : Fields)
    → prevalidate_bridge_request (some t) payload u ≡ some r
    → get r "type" ≡ some (json_text (response_type t))
unfolding prevalidate_bridge_request text_front
malformed-types t payload u r =
    choose r (t == "getAppMetadataRequest") _ _
      (refused-types t "getAppMetadataRequest" (object1 "error" (json_text "AppNotFound")) u r
        (app_payload payload))
      (choose r (t == "findIntentRequest") _ _
        (refused-types t "findIntentRequest" (object1 "error" (json_text "NoAppsFound")) u r
          (find_intent_payload payload))
        (choose r (t == "findInstancesRequest") _ _
          (refused-types t "findInstancesRequest" (object1 "appIdentifiers" (json_list no_items)) u
            r (app_payload payload))
          (λ h. absurd (cc h))))

pub expect-types :
    (t : String) (resp : Fields)
    → text_ends_with t "Request" ≡ true
    → get (expect_type (some t) resp) "type" ≡ some (json_text (response_type t))
unfolding expect_type
expect-types t resp h = elim (Bool-cases (has_type resp (response_type t))) [
  | inl e ↦ ground (arith, h, e, text_of_iff (get resp "type") (response_type t) e)
  | inr e ↦ ground (arith, h, e, get-put resp "type" "type" (json_text (response_type t)))
]

request_truthy : (t : String) → text_ends_with t "Request" ≡ true → truthy t ≡ true
unfolding text_ends_with
request_truthy t h = elim (Bool-cases (t == "")) [
  | inl e ↦ absurd (cc (h, ap (λ x. text_ends_with x "Request") ((eq_iff t "").0 e)))
  | inr e ↦ ground (arith, e)
]

normalize-types :
    (t : String) (resp payload : Fields)
    → text_ends_with t "Request" ≡ true
    → get (normalize_errors resp payload (some t)).0 "type" ≡ get resp "type"
unfolding normalize_errors
normalize-types t resp payload h = ground (arith, request_truthy t h)

written-types :
    (resp r : Fields) (o : Option Fields)
    → written_back resp o ≡ bridge_response r
    → get r "type" ≡ get resp "type"
written-types resp r none h = absurd (cc h)
written-types resp r (some payload) h =
    ground (arith, h, get-put resp "payload" "type" (json_object payload))

module _ (local_name : Option String) (dacp : Fields → Agent → Agent × Outcome) where
  transform-types :
      (t : String) (resp r : Fields)
      → text_ends_with t "Request" ≡ true
      → transform_response_for_bridge local_name resp (some t) ≡ bridge_response r
      → get r "type" ≡ some (json_text (response_type t))
  unfolding transform_response_for_bridge
  transform-types t resp r ends h =
      go (object_or_empty (get (expect_type (some t) resp) "payload")) h
    where
      go :
          (o : Option Fields)
          → (elim o [
            | none ↦ failed
            | some payload ↦
                transformed local_name
                  (normalize_errors (expect_type (some t) resp) payload (some t))
          ])
            ≡ bridge_response r
          → get r "type" ≡ some (json_text (response_type t))
      go none e = absurd (cc e)
      go (some payload) e =
          let (resp', payload') = normalize_errors (expect_type (some t) resp) payload (some t) in
          written-types resp' r
            (inject_desktop_agent local_name resp' (apply_response_field_mappings resp' payload')) e
          ∙ (normalize-types t (expect_type (some t) resp) payload ends ∙ expect-types t resp ends)

  -- Every response that `handle` returns to a request has the request's type with "Response" for
  -- "Request", whatever type the DACP handler gives it, and also for a malformed request.
  pub handle-types :
      (a : Agent) (msg r : Fields) (req : ParsedBridgeRequest) (t : String)
      → extract_fields msg ≡ some req
      → req.msg_type ≡ some t
      → text_ends_with t "Request" ≡ true
      → (handle local_name dacp a msg).1 ≡ bridge_response r
      → get r "type" ≡ some (json_text (response_type t))
  handle-types a msg r req t e type ends h =
      handle-holds local_name dacp
        (λ o r. o ≡ some t → get r "type" ≡ some (json_text (response_type t)))
        (λ o payload u r f g.
          malformed-types t payload u r
            (subst (λ x. prevalidate_bridge_request x payload u ≡ some r) g f))
        (λ o resp r f g.
          transform-types t resp r ends
            (subst (λ x. transform_response_for_bridge local_name resp x ≡ bridge_response r) g f))
        a msg r req e h type
