-- ===== src/Bridge/Answers.antt =====
-- bridging/router.py: how the response of the DACP handler becomes one for the bridge. A dictionary
-- that is changed in place is returned.
use py_fdc3_desktop_agent.Base.{
  String, Bool, true, false, not, ◌||◌, Option, none, some, ◌==◌, ◌&&◌, if◌then◌else◌, opt_truthy,
  opt_eq, concat,
}
use text.Mathlib.Text.{starts_with}
use py_fdc3_desktop_agent.Base.Json.{
  Json, json_null, json_bool, json_number, json_text, json_list, json_object, Items, no_items, item,
  Fields, no_fields, field, get, put, remove, has, holds, opt_holds, text_of, object_of,
  object_or_empty, in_text, text_ends_with, text_front,
}

-- What `handle` comes to: an exception, no response, or one.
pub data Outcome : Type 0 where
  failed : Outcome
  no_response : Outcome
  bridge_response : Fields → Outcome

-- `resp_dict.get("type") == t`
abbrev pub has_type : Fields → String → Bool
has_type resp t = opt_eq (text_of (get resp "type")) t

unfoldable pub expect_type : Option String → Fields → Fields
unfolding text_ends_with text_front get put
expect_type none resp = resp
expect_type (some t) resp =
    if text_ends_with t "Request"
      && not (has_type resp (concat (text_front t "Request") "Response"))
    then put resp "type" (json_text (concat (text_front t "Request") "Response"))
    else resp

abbrev pub is_parse_error : Option String → Bool
is_parse_error none = false
is_parse_error (some err) =
    in_text "Field required" err
    || starts_with err "Unknown message type"
    || starts_with err "payload."
    || in_text "Failed to parse" err

unfoldable pub normalize_errors : Fields → Fields → Option String → Fields × Fields
unfolding get put
normalize_errors resp payload msg_type =
    if not (opt_truthy msg_type)
    then (
      put resp "type" (json_text "unknownResponse"),
      put payload "error" (json_text "MalformedMessage"),
    )
    else if is_parse_error (text_of (get payload "error"))
    then (resp, put payload "error" (json_text "MalformedMessage"))
    else (resp, payload)

-- The lookup in the application registry, whose result is dropped, is left out.
unfoldable pub apply_response_field_mappings : Fields → Fields → Fields
unfolding get put remove has
apply_response_field_mappings resp payload =
    if has_type resp "findInstancesResponse"
    then (elim (get payload "instances") [
      | none ↦ payload
      | some instances ↦
          if has payload "appIdentifiers"
          then payload
          else put (remove payload "instances") "appIdentifiers" instances
    ])
    else if has_type resp "findIntentsByContextResponse"
    then (if opt_holds (get payload "error")
        then put (remove payload "error") "appIntents" (json_list no_items)
        else payload)
    else payload

abbrev pub name_value : Option String → Json
name_value none = json_null
name_value (some name) = json_text name

-- `d["desktopAgent"] = self._local_name`, for a dict that has no such name
unfoldable pub named : Option String → Fields → Fields
unfolding get put
named local_name d =
    if opt_holds (get d "desktopAgent") then d else put d "desktopAgent" (name_value local_name)

abbrev pub named_value : Option String → Json → Json
named_value local_name (json_object d) = json_object (named local_name d)
named_value local_name v = v

unfoldable pub named_items : Option String → Items → Items
unfolding named
named_items local_name no_items = no_items
named_items local_name (item v rest) = item (named_value local_name v) (named_items local_name rest)

-- What a loop over `v or []` leaves of `v`, and whether there can be such a loop.
abbrev pub named_each : Option String → Json → Json
named_each local_name (json_list items) = json_list (named_items local_name items)
named_each local_name v = v

abbrev pub iterable : Option Json → Bool
iterable (some (json_bool b)) = not b
iterable (some (json_number n)) = not (holds (json_number n))
iterable _ = true

-- `f` changes the value under `k`.
unfoldable pub change : Fields → String → (Json → Json) → Fields
change no_fields k f = no_fields
change (field j v d) k f = if j == k then field j (f v) d else field j v (change d k f)

abbrev pub in_object : (Fields → Fields) → Json → Json
in_object f (json_object d) = json_object (f d)
in_object f v = v

-- `none` is an exception.
unfoldable pub named_intent : Option String → Fields → Option Fields → Option Fields
unfolding get named_items change put
named_intent local_name payload none = some payload
named_intent local_name payload (some intent) =
    if iterable (get intent "apps")
    then some (put payload "appIntent" (json_object (change intent "apps" (named_each local_name))))
    else none

unfoldable pub inject_desktop_agent : Option String → Fields → Fields → Option Fields
unfolding get named_items change named_intent
inject_desktop_agent local_name resp payload =
    if has_type resp "openResponse"
    then some (change payload "appIdentifier" (named_value local_name))
    else if has_type resp "getAppMetadataResponse"
    then some (change payload "appMetadata" (named_value local_name))
    else if has_type resp "raiseIntentResponse"
    then some (
        change payload "intentResolution"
          (in_object (λ d. change d "source" (named_value local_name))))
    else if has_type resp "findIntentResponse"
    then named_intent local_name payload (object_of (get payload "appIntent"))
    else if has_type resp "findInstancesResponse"
    then (if iterable (get payload "appIdentifiers")
        then some (change payload "appIdentifiers" (named_each local_name))
        else none)
    else some payload

-- The payload's changes show in the response exactly if it is not the `{}` of `or {}`.
abbrev pub written_back : Fields → Option Fields → Outcome
written_back resp none = failed
written_back resp (some payload) =
    bridge_response
      (if opt_holds (get resp "payload") then put resp "payload" (json_object payload) else resp)

abbrev pub transformed : Option String → Fields × Fields → Outcome
transformed local_name (resp, payload) =
    written_back resp
      (inject_desktop_agent local_name resp (apply_response_field_mappings resp payload))

unfoldable pub transform_response_for_bridge : Option String → Fields → Option String → Outcome
unfolding expect_type normalize_errors apply_response_field_mappings inject_desktop_agent get put
transform_response_for_bridge local_name resp msg_type =
    let resp' = expect_type msg_type resp in
    elim (object_or_empty (get resp' "payload")) [
      | none ↦ failed
      | some payload ↦ transformed local_name (normalize_errors resp' payload msg_type)
    ]
