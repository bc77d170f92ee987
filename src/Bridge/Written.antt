-- ===== src/Bridge/Written.antt =====
-- bridging/router.py: the identifiers in a whole response.
use py_fdc3_desktop_agent.Base.{
  Bool-cases, inl, inr, ◌≡◌, refl, Bool, true, false, Option, none, some, arith,
}
use py_fdc3_desktop_agent.Base.Json.{
  Json, json_null, json_bool, json_number, json_text, json_list, json_object, Fields, no_fields,
  field, get, put, opt_holds, object_of, get-put,
}
use py_fdc3_desktop_agent.Bridge.Answers.{bridge_response, written_back}
use py_fdc3_desktop_agent.Bridge.Naming.{known_names, under}

-- The same of a whole response.
unfoldable pub answer_known : Fields → Bool
unfolding known_names get
answer_known r = elim (object_of (get r "payload")) [
  | none ↦ true
  | some payload ↦ known_names r payload
]

empty-names : (resp : Fields) → known_names resp no_fields ≡ true
unfolding known_names under get
empty-names resp = ground arith

-- A payload that is nothing has no identifier.
unwritten-names :
    (resp : Fields) (v : Option Json)
    → get resp "payload" ≡ v
    → opt_holds v ≡ false
    → answer_known resp ≡ true
unfolding answer_known
unwritten-names resp none e h = ground (arith, e)
unwritten-names resp (some json_null) e h = ground (arith, e)
unwritten-names resp (some (json_bool b)) e h = ground (arith, e)
unwritten-names resp (some (json_number n)) e h = ground (arith, e)
unwritten-names resp (some (json_text t)) e h = ground (arith, e)
unwritten-names resp (some (json_list l)) e h = ground (arith, e)
unwritten-names resp (some (json_object no_fields)) e h = ground (arith, e, empty-names resp)
unwritten-names resp (some (json_object (field k v d))) e h = cc

put-names :
    (resp payload : Fields)
    → known_names resp payload ≡ true
    → answer_known (put resp "payload" (json_object payload)) ≡ true
unfolding answer_known known_names
put-names resp payload h = ground (
  arith,
  h,
  get-put resp "payload" "payload" (json_object payload),
  get-put resp "payload" "type" (json_object payload),
)

pub written-names :
    (resp payload r : Fields)
    → known_names resp payload ≡ true
    → written_back resp (some payload) ≡ bridge_response r
    → answer_known r ≡ true
written-names resp payload r h e = elim (Bool-cases (opt_holds (get resp "payload"))) [
  | inl w ↦ cc (put-names resp payload h, e, w)
  | inr w ↦ cc (unwritten-names resp (get resp "payload") refl w, e, w)
]
