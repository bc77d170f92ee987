-- ===== src/Dacp/Apps/Tests.antt =====
-- Examples of handlers/dacp/app.py: an application of the directory that is launched.
use py_fdc3_desktop_agent.Base.{
  ◌≡◌, refl, String, true, false, none, some, [], ◌∷◌, is_some, ◌==◌, if◌then◌else◌,
}
use py_fdc3_desktop_agent.Base.Lists.{any}
use py_fdc3_desktop_agent.Base.Dict.{values, get, put}
use py_fdc3_desktop_agent.Core.Apps.{
  empty_registry, get_instance, get_instances_for_app, register_instance, register_pending_instance,
  set_connection_event, wait_for_instance_connection, returned,
}
use py_fdc3_desktop_agent.Core.Apps.Connection.{connected}
use py_fdc3_desktop_agent.Dacp.Agent.{Call}
use py_fdc3_desktop_agent.Dacp.Apps.{
  Storage, StoredAppMetadata, found, find_instances_response, handle_find_instances,
  normalize_app_id,
}
use py_fdc3_desktop_agent.Dacp.Apps.Opening.{
  by_name, by_identifier, OpenRequest, timed_out, OpenBridge, LaunchResult, done, launch, opened,
  named_target, app_identity, handle_open,
}
use py_fdc3_desktop_agent.Dacp.Apps.Waiting.{after_launch, after_connection}
use py_fdc3_desktop_agent.Dacp.Apps.Answers.{answers, settled_by, settled_after, answers-open}
use py_fdc3_desktop_agent.Dacp.Apps.Reuse.{serves, open-launch}
use py_fdc3_desktop_agent.Dacp.Apps.Launching.{open-connect, reused_gone}

abbrev charts : StoredAppMetadata
charts = record {
  app_id = "charts";
  name = "Charts";
  version = "1.0";
  description = "";
  icons = [];
  intents = "ViewChart" ∷ [];
  result_type = none;
}

abbrev directory : Storage
directory = record {
  get_app_metadata = λ i. if i == "charts" then some (some charts) else some none;
  list_apps = some (charts ∷ []);
  get_launch_config = λ i. if i == "charts" then some (some "run charts") else some none;
}

abbrev no_bridge : OpenBridge
no_bridge = record {
  is_connected = false;
  has_connected_agent = λ agent. false;
  send_agent_request = λ app context source. timed_out;
}

abbrev call : Call
call = record {
  wcp_sessions = [];
  session_id = "s";
  request_uuid = "r1";
  now = "t1";
  later = "t2";
  fresh_uuid = "f1";
}

abbrev same_case : String → String
same_case name = name

abbrev by_its_name : OpenRequest
by_its_name = record { app = by_name "Charts"; context = none }

abbrev at_home : OpenRequest
at_home = record { app = by_identifier (named_target "charts@home"); context = none }

normalized : normalize_app_id "charts@home" ≡ some "charts"
unfolding normalize_app_id
normalized = refl

nothing_before : normalize_app_id "@home" ≡ some "@home"
unfolding normalize_app_id
nothing_before = refl

listed :
    handle_find_instances
      (register_instance empty_registry "charts" "c1" "u1").0
      (named_target "charts@home")
    ≡ find_instances_response
        (record { app_id = "charts"; instance_id = some "c1"; desktop_agent = none } ∷ [])
      ∷ []
unfolding handle_find_instances register_instance get set_connection_event put
listed = refl

abbrev result : LaunchResult
result = record { success = true; instance_id = some "c1"; instance_uuid = some "u1" }

by_name_launched :
    handle_open same_case directory no_bridge empty_registry call by_its_name
    ≡ launch "charts" "run charts" (named_target "charts")
unfolding handle_open
by_name_launched = refl

answers-open_example :
    (settled_by (handle_open same_case directory no_bridge empty_registry call by_its_name) ≡ 1)
    × (settled_after (after_launch empty_registry "charts" (some result)) ≡ 1)
    × (answers (after_connection empty_registry "charts" "c1" "u1" false).1 ≡ 1)
answers-open_example =
    answers-open same_case directory no_bridge empty_registry empty_registry empty_registry call
      by_its_name "charts" "c1" "u1" (some result) false

open-launch_example :
    (any (serves "charts" none) (values empty_registry.instances) ≡ false)
    × (is_some (found (directory.get_app_metadata "charts")) ≡ true)
    × (directory.get_launch_config "charts" ≡ some (some "run charts"))
open-launch_example =
    open-launch same_case directory no_bridge empty_registry call by_its_name "charts" "run charts"
      (named_target "charts") by_name_launched

open-connect_example :
    (let r = (register_pending_instance empty_registry "charts" "c1" "u1").0 in
      let out = after_launch empty_registry "charts" (some result) in
      let r' = (register_instance r "unknown" "" "u1").0 in
      (out.registry ≡ r)
      × (out.waits_for ≡ some ("c1", "u1"))
      × (wait_for_instance_connection r' "u1" ≡ returned true)
      × (after_connection r' "charts" "c1" "u1" true ≡ (r', opened "charts" "c1"))
      × (get_instance r' "u1"
          ≡ some (record {
            app_id = "charts";
            instance_id = "c1";
            instance_uuid = "u1";
            connected = true;
          })))
unfolding get
open-connect_example =
    open-connect empty_registry "charts" "c1" "u1" refl refl (λ i. refl) refl "unknown" ""

reused_gone_example :
    (let r = (register_pending_instance empty_registry "charts" "c1" "u1").0 in
      (handle_open same_case directory no_bridge r call at_home ≡ done (opened "charts" "c1"))
      × (connected r "u1" ≡ false)
      × (get_instances_for_app (after_connection r "charts" "c1" "u1" false).0 "charts" ≡ []))
unfolding get get_instances_for_app normalize_app_id app_identity
reused_gone_example =
    reused_gone empty_registry "charts" "c1" "u1" refl refl (λ i. refl) refl same_case directory
      no_bridge call at_home (named_target "charts") refl refl refl refl refl refl
