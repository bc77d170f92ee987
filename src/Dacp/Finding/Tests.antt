-- ===== src/Dacp/Finding/Tests.antt =====
-- Examples of findIntent: two applications, one of the directory and one that listens.
use py_fdc3_desktop_agent.Base.{
  ◌≡◌, refl, Bool, true, false, none, some, [], ◌∷◌, if◌then◌else◌, ◌==◌,
}
use py_fdc3_desktop_agent.Base.Dict.{values, get, put}
use py_fdc3_desktop_agent.Base.StrSet.{add}
use py_fdc3_desktop_agent.Core.Apps.{AppRegistry, get_instance}
use py_fdc3_desktop_agent.Core.Listeners.{ListenerStore, empty_store}
use py_fdc3_desktop_agent.Dacp.Apps.{Storage, StoredAppMetadata}
use py_fdc3_desktop_agent.Dacp.Apps.Opening.{named_target}
use py_fdc3_desktop_agent.Dacp.Finding.{
  FindIntent, app_intent, handle_find_intent, matches_result_type,
}
use py_fdc3_desktop_agent.Dacp.Finding.Found.{finds, find-all}
use py_fdc3_desktop_agent.Dacp.Finding.Typed.{WithoutType, typed_never}

abbrev charts : StoredAppMetadata
charts = record {
  app_id = "charts";
  name = "Charts";
  version = "1.0";
  description = "";
  icons = [];
  intents = "ViewChart" ∷ [];
  result_type = none;
}

abbrev directory : Storage
directory = record {
  get_app_metadata = λ i. some (if i == "charts" then some charts else none);
  list_apps = some (charts ∷ []);
  get_launch_config = λ i. some none;
}

abbrev registry : AppRegistry
registry = record {
  instances =
      (
        "u2",
        record { app_id = "blotter"; instance_id = "b1"; instance_uuid = "u2"; connected = true },
      )
      ∷ [];
  connection_events = ("u2", true) ∷ [];
}

abbrev store : ListenerStore
store = record empty_store {
  intent_listeners =
      ("l1", record { listener_uuid = "l1"; instance_uuid = "u2"; intent = "ViewChart" }) ∷ [];
}

abbrev asks : FindIntent
asks = record { intent = "ViewChart"; result_type = none; target = none }

abbrev asks_charts : FindIntent
asks_charts = record asks { target = some (named_target "charts") }

found_both :
    handle_find_intent directory store registry asks
    ≡ app_intent (("blotter", none) ∷ ("charts", some charts) ∷ [])
unfolding handle_find_intent add put
found_both = refl

any_channel : matches_result_type (some " channel ") (some "channel<fdc3.contact>") ≡ true
unfolding matches_result_type
any_channel = refl

one_channel : matches_result_type (some "channel<a>") (some "channel<b>") ≡ false
unfolding matches_result_type
one_channel = refl

find-all_example : finds (handle_find_intent directory store registry asks) "blotter" ≡ true
unfolding values get_instance get
find-all_example = find-all directory store registry asks refl refl refl "blotter"

none_typed : (b : Bool) → WithoutType (if b then some charts else none)
none_typed true = refl
none_typed false = refl

typed_never_example :
    finds
      (handle_find_intent directory store registry (record asks { result_type = some "channel" }))
      "charts"
    ≡ false
typed_never_example =
    typed_never directory store registry (record asks { result_type = some "channel" }) refl
      (refl, tt) (λ a. none_typed (a == "charts")) "charts"
