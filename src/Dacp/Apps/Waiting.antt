-- ===== src/Dacp/Apps/Waiting.antt =====
-- handlers/dacp/app.py: a launched application, up to the wait for its connection and after it.
use py_fdc3_desktop_agent.Base.{
  String, Bool, true, false, ◌&&◌, Option, none, some, List, [], if◌then◌else◌, truthy,
}
use py_fdc3_desktop_agent.Core.Apps.{
  AppRegistry, Waiting, returned, awaiting, register_pending_instance, unregister_instance,
  wait_for_instance_connection,
}
use py_fdc3_desktop_agent.Dacp.Apps.{AppMessage}
use py_fdc3_desktop_agent.Dacp.Apps.Opening.{LaunchResult, fail, opened}

-- The wait for the connection of an instance, by its id and its uuid.
pub record Opening : Type 0 where
  pub registry : AppRegistry
  pub waits_for : Option (String × String)
  pub messages : List AppMessage

abbrev pub not_opened : AppRegistry → Opening
not_opened r = record { registry = r; waits_for = none; messages = fail "ErrorOnLaunch" }

-- "if connected": the end of a wait, with the registry of that time.
unfoldable pub after_connection :
    AppRegistry → String → String → String → Bool → AppRegistry × List AppMessage
after_connection r app_id instance_id instance_uuid true = (r, opened app_id instance_id)
after_connection r app_id instance_id instance_uuid false =
    (unregister_instance r instance_uuid, fail "AppTimeout")

abbrev pub awaited : AppRegistry → String → String → String → Waiting → Opening
awaited r app_id instance_id instance_uuid awaiting = record {
  registry = r;
  waits_for = some (instance_id, instance_uuid);
  messages = [];
}
awaited r app_id instance_id instance_uuid (returned connected) =
    let (r', messages) = after_connection r app_id instance_id instance_uuid connected in
    record { registry = r'; waits_for = none; messages = messages }

abbrev pub pending : AppRegistry → String → String → String → Opening
pending r app_id instance_id instance_uuid =
    let (r', inst) = register_pending_instance r app_id instance_id instance_uuid in
    awaited r' app_id instance_id instance_uuid (wait_for_instance_connection r' instance_uuid)

abbrev pub identified : AppRegistry → String → Option String → Option String → Opening
identified r app_id (some instance_id) (some instance_uuid) =
    if truthy instance_id && truthy instance_uuid
    then pending r app_id instance_id instance_uuid
    else not_opened r
identified r app_id _ _ = not_opened r

-- "if launch_result.success": what the launcher returned, or an exception.
unfoldable pub after_launch : AppRegistry → String → Option LaunchResult → Opening
unfolding register_pending_instance wait_for_instance_connection after_connection
after_launch r app_id none = not_opened r
after_launch r app_id (some result) =
    if result.success
    then identified r app_id result.instance_id result.instance_uuid
    else not_opened r
