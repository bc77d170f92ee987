-- ===== src/Dacp/Finding/Typed.antt =====
-- handlers/dacp/intent.py: what findIntent finds when a result type is asked for.
use py_fdc3_desktop_agent.Base.{
  String, ◌≡◌, refl, ap, ◌∙◌, true, false, Option, none, some, List, [], ◌∷◌, arith, truthy,
  opt_truthy, Bool-cases, inl, inr,
}
use py_fdc3_desktop_agent.Base.Lists.{All}
use py_fdc3_desktop_agent.Base.Dict.{get}
use py_fdc3_desktop_agent.Core.Apps.{AppRegistry}
use py_fdc3_desktop_agent.Core.Listeners.{ListenerStore}
use py_fdc3_desktop_agent.Dacp.Apps.{StoredAppMetadata, Storage, found}
use py_fdc3_desktop_agent.Dacp.Finding.{
  FindIntent, Candidates, from_directory, listed_by, candidates, Narrowed, left, refused, narrow,
  sorted, result_type_of, matching, answer_left, handle_find_intent, matches_result_type,
}
use py_fdc3_desktop_agent.Dacp.Finding.Found.{finds}

typed_mismatch :
    (o x : Option String) → opt_truthy o ≡ true → x ≡ none → matches_result_type o x ≡ false
unfolding matches_result_type
typed_mismatch none x h e = absurd (cc h)
typed_mismatch (some t) none h e = ground (arith, h)
typed_mismatch (some t) (some y) h e = absurd (cc e)

-- What the storage's own class has: no result type.
abbrev pub WithoutType : Option StoredAppMetadata → Type 0
WithoutType meta = result_type_of meta ≡ none

module _ (storage : Storage) (s : ListenerStore) (r : AppRegistry) (q : FindIntent)
    (a_type : opt_truthy q.result_type ≡ true)
    (listed : All (λ meta. WithoutType (some meta)) (listed_by storage.list_apps))
    (stored : (a : String) → WithoutType (found (storage.get_app_metadata a))) where
  mismatch : (x : Option String) → x ≡ none → matches_result_type q.result_type x ≡ false
  mismatch x h = typed_mismatch q.result_type x a_type h

  none_declared :
      (ms : List StoredAppMetadata) (c : Candidates)
      → All (λ meta. WithoutType (some meta)) ms
      → from_directory q ms c ≡ c
  unfolding from_directory
  none_declared [] c h = refl
  none_declared (meta ∷ ms) c h =
      ground (arith, mismatch meta.result_type h.0, none_declared ms c h.1)

  none_matching : (app_ids : List String) → matching storage q [] app_ids ≡ []
  unfolding matching get
  none_matching [] = refl
  none_matching (a ∷ app_ids) = ground (
    arith,
    a_type,
    mismatch (result_type_of (found (storage.get_app_metadata a))) (stored a),
    none_matching app_ids,
  )

  none_found : (n : Narrowed) (a : String) → finds (answer_left storage q [] n) a ≡ false
  none_found (refused error) a = refl
  none_found (left app_ids) a = rw (none_matching (sorted app_ids)) refl

  no_metadata : (candidates storage s r q).app_meta_by_id ≡ []
  unfolding candidates
  no_metadata =
      ap (λ c. c.app_meta_by_id)
        (none_declared (listed_by storage.list_apps) (record { app_ids = []; app_meta_by_id = [] })
          listed)

  -- With a result type findIntent never finds an application, whatever the directory lists and
  -- whoever listens, when the metadata have no result type, as those of the storage's class.
  pub typed_never : (a : String) → finds (handle_find_intent storage s r q) a ≡ false
  unfolding handle_find_intent
  typed_never a = elim (Bool-cases (truthy q.intent)) [
    | inl h ↦
        let n = narrow storage r (candidates storage s r q).app_ids q.target in
        rw h (ap (λ m. finds (answer_left storage q m n) a) no_metadata ∙ none_found n a)
    | inr h ↦ rw h refl
  ]
