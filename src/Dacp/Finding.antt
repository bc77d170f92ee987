-- ===== src/Dacp/Finding.antt =====
-- handlers/dacp/intent.py: findIntent, which looks for the applications that serve an intent.
pub mod Sorting
pub mod Found
pub mod Typed
mod Tests
use Prim.Native.Nat.{Ordering}
use Prim.Native.String.{compare}
use py_fdc3_desktop_agent.AccessControl.Text.{Codes, codes, equals, starts_with, ends_with}
use py_fdc3_desktop_agent.Base.{
  ℕ, String, Bool, true, false, not, ◌&&◌, ◌||◌, Option, none, some, List, [], ◌∷◌, ◌==◌,
  if◌then◌else◌, truthy, opt_truthy, leb, same, is_some,
}
use py_fdc3_desktop_agent.Base.Lists.{contains, any, is_empty}
use py_fdc3_desktop_agent.Base.Dict.{Dict, get, put}
use py_fdc3_desktop_agent.Base.StrSet.{add}
use py_fdc3_desktop_agent.Core.Apps.{AppInstance, AppRegistry, get_instance, get_instances_for_app}
use py_fdc3_desktop_agent.Core.Listeners.{
  IntentListener, ListenerStore, get_intent_listeners_for_intent,
}
use py_fdc3_desktop_agent.Dacp.Apps.{StoredAppMetadata, Storage, AppTarget, found, normalize_app_id}

-- `str.isspace` of a character
abbrev is_space : ℕ → Bool
is_space c =
    (leb 9 c && leb c 13)
    || (leb 28 c && leb c 32)
    || same c 133
    || same c 160
    || same c 5760
    || (leb 8192 c && leb c 8202)
    || (leb 8232 c && leb c 8233)
    || same c 8239
    || same c 8287
    || same c 12288

-- `lstrip`, and `rstrip`
strip_left : Codes → Codes
strip_left [] = []
strip_left (c ∷ s) = let rest = strip_left s in if is_space c then rest else c ∷ s

strip_right : Codes → Codes
strip_right [] = []
strip_right (c ∷ s) =
    let rest = strip_right s in if is_empty rest && is_space c then [] else c ∷ rest

unfoldable strip : String → Codes
unfolding strip_left strip_right
strip s = strip_right (strip_left (codes s))

abbrev channel_of_type : Codes → Bool
channel_of_type s = starts_with s (codes "channel<") && ends_with s (codes ">")

abbrev matches_stripped : Codes → Codes → Bool
matches_stripped req app =
    if equals req app
    then true
    else if equals req (codes "channel") && channel_of_type app
    then true
    else if channel_of_type req
    then equals app req
    else false

unfoldable pub matches_result_type : Option String → Option String → Bool
unfolding strip equals starts_with ends_with
matches_result_type none app_result = true
matches_result_type (some requested) none = not (truthy requested)
matches_result_type (some requested) (some app_result) =
    if not (truthy requested)
    then true
    else if not (truthy app_result)
    then false
    else matches_stripped (strip requested) (strip app_result)

pub record FindIntent : Type 0 where
  pub intent : String
  pub result_type : Option String
  pub target : Option AppTarget

-- The applications of a response, each with the metadata that it is sent with, or an error.
pub data FindAnswer : Type 0 where
  app_intent : List (String × Option StoredAppMetadata) → FindAnswer
  find_error : String → FindAnswer

-- `app_ids` and `app_meta_by_id`
pub record Candidates : Type 0 where
  pub app_ids : List String
  pub app_meta_by_id : Dict StoredAppMetadata

abbrev pub declares : FindIntent → StoredAppMetadata → Bool
declares q meta =
    truthy meta.app_id
    && contains q.intent meta.intents
    && matches_result_type q.result_type meta.result_type

-- "From app directory"
unfoldable pub from_directory : FindIntent → List StoredAppMetadata → Candidates → Candidates
unfolding matches_result_type
from_directory q [] c = c
from_directory q (meta ∷ listed) c = from_directory q listed (
    if declares q meta
    then record {
      app_ids = add c.app_ids meta.app_id;
      app_meta_by_id = put c.app_meta_by_id meta.app_id meta;
    }
    else c)

-- The application of a listener, if there is one.
abbrev pub app_of : Option AppInstance → Option String
app_of none = none
app_of (some inst) = if truthy inst.app_id then some inst.app_id else none

abbrev pub listening_app : AppRegistry → IntentListener → Option String
listening_app r l = if truthy l.instance_uuid then app_of (get_instance r l.instance_uuid) else none

abbrev pub add_app : List String → Option String → List String
add_app app_ids none = app_ids
add_app app_ids (some app_id) = add app_ids app_id

-- "From runtime listeners"
unfoldable pub from_listeners : AppRegistry → List IntentListener → List String → List String
unfolding get_instance
from_listeners r [] app_ids = app_ids
from_listeners r (l ∷ ls) app_ids = from_listeners r ls (add_app app_ids (listening_app r l))

abbrev pub listed_by : Option (List StoredAppMetadata) → List StoredAppMetadata
listed_by none = []
listed_by (some listed) = listed

unfoldable pub candidates : Storage → ListenerStore → AppRegistry → FindIntent → Candidates
unfolding from_directory from_listeners get_intent_listeners_for_intent
candidates storage s r q =
    let c =
      from_directory q (listed_by storage.list_apps)
        (record { app_ids = []; app_meta_by_id = [] }) in
    record c { app_ids = from_listeners r (get_intent_listeners_for_intent s q.intent) c.app_ids }

-- The applications that are left for the target, or an error.
pub data Narrowed : Type 0 where
  left : List String → Narrowed
  refused : String → Narrowed

abbrev pub narrow_app : Storage → List String → String → Narrowed
narrow_app storage app_ids app_id =
    if contains app_id app_ids
    then left app_ids
    else if is_some (found (storage.get_app_metadata app_id))
    then left (app_id ∷ [])
    else refused "TargetAppUnavailable"

abbrev pub has_instance : AppRegistry → String → Option String → Bool
has_instance r app_id none = true
has_instance r app_id (some i) =
    not (truthy i) || any (λ inst. inst.instance_id == i) (get_instances_for_app r app_id)

unfoldable pub narrow : Storage → AppRegistry → List String → Option AppTarget → Narrowed
unfolding normalize_app_id get_instances_for_app
narrow storage r app_ids none = left app_ids
narrow storage r app_ids (some target) = elim (normalize_app_id target.app_id) [
  | none ↦ refused "TargetAppUnavailable"
  | some app_id ↦
      if has_instance r app_id target.instance_id
      then narrow_app storage app_ids app_id
      else refused "TargetInstanceUnavailable"
]

-- `sorted`, for the elements of a set
abbrev pub before : String → String → Bool
before s t = elim (compare s t) [ Ordering.gt ↦ false | _ ↦ true ]

unfoldable pub insert : String → List String → List String
insert s [] = s ∷ []
insert s (t ∷ ts) = let rest = insert s ts in if before s t then s ∷ t ∷ ts else t ∷ rest

unfoldable pub sorted : List String → List String
unfolding insert
sorted [] = []
sorted (s ∷ ss) = insert s (sorted ss)

-- `app_meta_by_id.get(app_id)`, or what the storage has if a result type is asked for
abbrev pub meta_for :
    Storage → FindIntent → Dict StoredAppMetadata → String → Option StoredAppMetadata
meta_for storage q metas app_id = elim (get metas app_id) [
  | some meta ↦ some meta
  | none ↦ if opt_truthy q.result_type then found (storage.get_app_metadata app_id) else none
]

abbrev pub result_type_of : Option StoredAppMetadata → Option String
result_type_of none = none
result_type_of (some meta) = meta.result_type

unfoldable pub matching :
    Storage
    → FindIntent
    → Dict StoredAppMetadata
    → List String
    → List (String × Option StoredAppMetadata)
unfolding matches_result_type get
matching storage q metas [] = []
matching storage q metas (app_id ∷ app_ids) =
    let meta = meta_for storage q metas app_id in
    let rest = matching storage q metas app_ids in
    if matches_result_type q.result_type (result_type_of meta) then (app_id, meta) ∷ rest else rest

abbrev pub answer_with : List (String × Option StoredAppMetadata) → FindAnswer
answer_with [] = find_error "NoAppsFound"
answer_with (app ∷ apps) = app_intent (app ∷ apps)

abbrev pub answer_left : Storage → FindIntent → Dict StoredAppMetadata → Narrowed → FindAnswer
answer_left storage q metas (refused error) = find_error error
answer_left storage q metas (left app_ids) = answer_with (matching storage q metas (sorted app_ids))

unfoldable pub handle_find_intent : Storage → ListenerStore → AppRegistry → FindIntent → FindAnswer
unfolding candidates narrow sorted matching
handle_find_intent storage s r q =
    if truthy q.intent
    then (let c = candidates storage s r q in
        answer_left storage q c.app_meta_by_id (narrow storage r c.app_ids q.target))
    else find_error "NoAppsFound"
