-- ===== src/Dacp/Finding/Found.antt =====
-- handlers/dacp/intent.py: which applications findIntent finds.
use py_fdc3_desktop_agent.Base.{
  String, ◌≡◌, refl, ap, ◌∙◌, Bool, true, false, ◌&&◌, ◌||◌, Option, none, some, List, [], ◌∷◌,
  arith, ◌==◌, truthy, opt_eq, Bool-cases, inl, inr,
}
use py_fdc3_desktop_agent.Base.Lists.{filter, contains, any}
use py_fdc3_desktop_agent.Base.Dict.{Dict, put, values}
use py_fdc3_desktop_agent.Base.StrSet.{add, contains-add}
use py_fdc3_desktop_agent.Core.Apps.{AppRegistry}
use py_fdc3_desktop_agent.Core.Listeners.{
  IntentListener, ListenerStore, get_intent_listeners_for_intent,
}
use py_fdc3_desktop_agent.Dacp.Apps.{StoredAppMetadata, Storage}
use py_fdc3_desktop_agent.Dacp.Finding.{
  FindIntent, FindAnswer, app_intent, find_error, Candidates, declares, from_directory,
  listening_app, add_app, from_listeners, listed_by, candidates, left, narrow, sorted, meta_for,
  result_type_of, matching, answer_with, answer_left, handle_find_intent, matches_result_type,
}
use py_fdc3_desktop_agent.Dacp.Finding.Sorting.{contains-sorted}

-- Whether the application is among those of the answer.
abbrev pub among : String → List (String × Option StoredAppMetadata) → Bool
among a [] = false
among a ((app_id, meta) ∷ apps) = app_id == a || among a apps

abbrev pub finds : FindAnswer → String → Bool
finds (app_intent apps) a = among a apps
finds (find_error error) a = false

directory-contains :
    (q : FindIntent) (listed : List StoredAppMetadata) (c : Candidates) (a : String)
    → contains a (from_directory q listed c).app_ids
      ≡ (contains a c.app_ids || any (λ meta. meta.app_id == a && declares q meta) listed)
unfolding from_directory
directory-contains q [] c a = ground arith
directory-contains q (meta ∷ listed) c a = elim (Bool-cases (declares q meta)) [
  | inl e ↦
      let c' : Candidates = record {
        app_ids = add c.app_ids meta.app_id;
        app_meta_by_id = put c.app_meta_by_id meta.app_id meta;
      } in
      rw e
        (ground (arith, e, directory-contains q listed c' a, contains-add c.app_ids meta.app_id a))
  | inr e ↦ rw e (ground (arith, e, directory-contains q listed c a))
]

contains-add_app :
    (app_ids : List String) (o : Option String) (a : String)
    → contains a (add_app app_ids o) ≡ (contains a app_ids || opt_eq o a)
contains-add_app app_ids none a = ground arith
contains-add_app app_ids (some app_id) a = ground (arith, contains-add app_ids app_id a)

listeners-contain :
    (r : AppRegistry) (ls : List IntentListener) (app_ids : List String) (a : String)
    → contains a (from_listeners r ls app_ids)
      ≡ (contains a app_ids || any (λ l. opt_eq (listening_app r l) a) ls)
unfolding from_listeners
listeners-contain r [] app_ids a = ground arith
listeners-contain r (l ∷ ls) app_ids a = ground (
  arith,
  contains-add_app app_ids (listening_app r l) a,
  listeners-contain r ls (add_app app_ids (listening_app r l)) a,
)

untyped : (o x : Option String) → o ≡ none → matches_result_type o x ≡ true
unfolding matches_result_type
untyped none x h = refl
untyped (some t) x h = absurd (cc h)

all-match :
    (storage : Storage) (q : FindIntent) (metas : Dict StoredAppMetadata) (a : String)
    (app_ids : List String)
    → q.result_type ≡ none
    → among a (matching storage q metas app_ids) ≡ contains a app_ids
unfolding matching
all-match storage q metas a [] h = refl
all-match storage q metas a (app_id ∷ app_ids) h =
    rw (untyped q.result_type (result_type_of (meta_for storage q metas app_id)) h)
      (ground (arith, all-match storage q metas a app_ids h))

finds-answer :
    (apps : List (String × Option StoredAppMetadata)) (a : String)
    → finds (answer_with apps) a ≡ among a apps
finds-answer [] a = refl
finds-answer (app ∷ apps) a = refl

any-filter :
    (p t : IntentListener → Bool) (xs : List IntentListener)
    → any p (filter t xs) ≡ any (λ x. t x && p x) xs
any-filter p t [] = refl
any-filter p t (x ∷ xs) = ground (arith, any-filter p t xs)

-- Whether the directory lists the application with the intent.
abbrev pub lists_intent : String → String → StoredAppMetadata → Bool
lists_intent intent a meta = meta.app_id == a && truthy meta.app_id && contains intent meta.intents

-- Whether the listener is one for the intent, of an instance of the application.
abbrev pub listens_for : AppRegistry → String → String → IntentListener → Bool
listens_for r intent a l = l.intent == intent && opt_eq (listening_app r l) a

-- Whether the application serves the intent: in the directory, or by a listener.
abbrev pub can_serve : Storage → ListenerStore → AppRegistry → String → String → Bool
can_serve storage s r intent a =
    any (lists_intent intent a) (listed_by storage.list_apps)
    || any (listens_for r intent a) (values s.intent_listeners)

module _ (storage : Storage) (s : ListenerStore) (r : AppRegistry) (q : FindIntent)
    (any_type : q.result_type ≡ none) (asked : truthy q.intent ≡ true) where
  declared :
      (a : String) (listed : List StoredAppMetadata)
      → any (λ meta. meta.app_id == a && declares q meta) listed
        ≡ any (lists_intent q.intent a) listed
  declared a [] = refl
  declared a (meta ∷ listed) =
      ground (arith, untyped q.result_type meta.result_type any_type, declared a listed)

  candidates-contain :
      (a : String)
      → contains a (candidates storage s r q).app_ids ≡ can_serve storage s r q.intent a
  unfolding candidates get_intent_listeners_for_intent
  candidates-contain a = ground (
    arith,
    listeners-contain r (filter (λ l. l.intent == q.intent) (values s.intent_listeners))
        (from_directory q (listed_by storage.list_apps) none_yet).app_ids a,
    directory-contains q (listed_by storage.list_apps) none_yet a,
    declared a (listed_by storage.list_apps),
    any-filter (λ l. opt_eq (listening_app r l) a) (λ l. l.intent == q.intent)
        (values s.intent_listeners),
  )
    where
      none_yet : Candidates
      none_yet = record { app_ids = []; app_meta_by_id = [] }

  handled :
      handle_find_intent storage s r q
      ≡ answer_left storage q
          (candidates storage s r q).app_meta_by_id
          (narrow storage r (candidates storage s r q).app_ids q.target)
  unfolding handle_find_intent
  handled = rw asked refl

  found_left :
      narrow storage r (candidates storage s r q).app_ids q.target
        ≡ left (candidates storage s r q).app_ids
      → (a : String) → finds (handle_find_intent storage s r q) a ≡ can_serve storage s r q.intent a
  found_left h a =
      let c = candidates storage s r q in
      let m = matching storage q c.app_meta_by_id (sorted c.app_ids) in
      ap (λ x. finds x a) (handled ∙ ap (answer_left storage q c.app_meta_by_id) h)
      ∙ (finds-answer m a
          ∙ (all-match storage q c.app_meta_by_id a (sorted c.app_ids) any_type
              ∙ (contains-sorted a c.app_ids ∙ candidates-contain a)))

  -- findIntent without a target and a result type finds exactly the applications that the directory
  -- lists with the intent, or of which a registered instance listens for it.
  pub find-all :
      q.target ≡ none
      → (a : String) → finds (handle_find_intent storage s r q) a ≡ can_serve storage s r q.intent a
  unfolding narrow
  find-all none_given =
      found_left (ap (narrow storage r (candidates storage s r q).app_ids) none_given)
