-- ===== src/Dacp/Apps/Answers.antt =====
-- handlers/dacp/app.py: how often a request to open an application is answered.
use py_fdc3_desktop_agent.Base.{
  ℕ, suc, String, ◌≡◌, refl, Bool, true, false, ◌&&◌, Option, none, some, List, [], ◌∷◌, arith,
  truthy, Bool-cases, Option-cases, inl, inr,
}
use py_fdc3_desktop_agent.Core.Apps.{
  AppRegistry, Waiting, returned, awaiting, register_pending_instance, wait_for_instance_connection,
}
use py_fdc3_desktop_agent.Core.Channels.State.{Context}
use py_fdc3_desktop_agent.Dacp.Agent.{Call, get_session_identity}
use py_fdc3_desktop_agent.Dacp.Apps.{
  Storage, AppTarget, AppMessage, get_info_response, get_app_metadata_response,
  find_instances_response, open_response, app_error, bridged_open,
}
use py_fdc3_desktop_agent.Dacp.Apps.Opening.{
  OpenRequest, OpenAnswer, timed_out, not_connected, agent_disconnected, bridge_raised,
  bridge_error, bridge_opened, OpenBridge, LaunchResult, OpenStep, done, launch, app_identity,
  after_open_bridge, open_remotely, source_of, requested_instance_id, configured, open_here,
  target_agent, handle_open,
}
use py_fdc3_desktop_agent.Dacp.Apps.Waiting.{
  Opening, after_connection, awaited, identified, after_launch,
}

-- How many of the messages answer the request.
abbrev pub answers : List AppMessage → ℕ
answers [] = 0
answers (get_info_response info ∷ rest) = suc (answers rest)
answers (get_app_metadata_response app_id meta ∷ rest) = suc (answers rest)
answers (find_instances_response apps ∷ rest) = suc (answers rest)
answers (open_response app ∷ rest) = suc (answers rest)
answers (app_error type error ∷ rest) = suc (answers rest)
answers (bridged_open app context source ∷ rest) = answers rest

-- The answers before the launch, with the one that is due after it.
abbrev pub settled_by : OpenStep → ℕ
settled_by (done messages) = answers messages
settled_by (launch app_id config app) = 1

-- The answers after the launch, with the one that is due after the wait.
abbrev pub settled_after : Opening → ℕ
settled_after o = elim o.waits_for [ none ↦ answers o.messages | some w ↦ suc (answers o.messages) ]

bridge_once : (o : OpenAnswer) → answers (after_open_bridge o ∷ []) ≡ 1
unfolding after_open_bridge
bridge_once timed_out = refl
bridge_once not_connected = refl
bridge_once agent_disconnected = refl
bridge_once bridge_raised = refl
bridge_once (bridge_error error) = refl
bridge_once (bridge_opened app) = refl

remote_once :
    (bridge : OpenBridge) (k : Call) (app : AppTarget) (context : Option Context) (d : String)
    → answers (open_remotely bridge k app context d) ≡ 1
unfolding open_remotely
remote_once bridge k app context d = ground (
  arith,
  bridge_once (
      bridge.send_agent_request app context
        (source_of (get_session_identity k.wcp_sessions k.session_id))),
)

configured_once : (storage : Storage) (app : AppTarget) → settled_by (configured storage app) ≡ 1
unfolding configured
configured_once storage app = ground arith

here_once :
    (storage : Storage) (r : AppRegistry) (app : AppTarget) (requested : Option String)
    → settled_by (open_here storage r app requested) ≡ 1
unfolding open_here
here_once storage r app requested = ground (arith, configured_once storage app)

open_once :
    (casefold : String → String) (storage : Storage) (bridge : OpenBridge) (r : AppRegistry)
    (k : Call) (q : OpenRequest)
    → settled_by (handle_open casefold storage bridge r k q) ≡ 1
unfolding handle_open
open_once casefold storage bridge r k q =
    elim (Option-cases (app_identity casefold storage q.app)) [
      | inl e ↦ ground (arith, e)
      | inr (app, e) ↦ elim (Option-cases (target_agent k app)) [
        | inl f ↦ ground (arith, e, f, here_once storage r app (requested_instance_id q.app))
        | inr (d, f) ↦ ground (arith, e, f, remote_once bridge k app q.context d)
      ]
    ]

connection_once :
    (r : AppRegistry) (app_id instance_id instance_uuid : String) (connected : Bool)
    → answers (after_connection r app_id instance_id instance_uuid connected).1 ≡ 1
unfolding after_connection
connection_once r app_id instance_id instance_uuid true = refl
connection_once r app_id instance_id instance_uuid false = refl

awaited_once :
    (r : AppRegistry) (app_id instance_id instance_uuid : String) (w : Waiting)
    → settled_after (awaited r app_id instance_id instance_uuid w) ≡ 1
awaited_once r app_id instance_id instance_uuid awaiting = refl
awaited_once r app_id instance_id instance_uuid (returned b) =
    connection_once r app_id instance_id instance_uuid b

identified_once :
    (r : AppRegistry) (app_id : String) (instance_id instance_uuid : Option String)
    → settled_after (identified r app_id instance_id instance_uuid) ≡ 1
identified_once r app_id none instance_uuid = refl
identified_once r app_id (some i) none = refl
identified_once r app_id (some i) (some u) = elim (Bool-cases (truthy i && truthy u)) [
  | inl h ↦ ground (
    arith,
    h,
    awaited_once (register_pending_instance r app_id i u).0 app_id i u
        (wait_for_instance_connection (register_pending_instance r app_id i u).0 u),
  )
  | inr h ↦ ground (arith, h)
]

launch_once :
    (r : AppRegistry) (app_id : String) (result : Option LaunchResult)
    → settled_after (after_launch r app_id result) ≡ 1
unfolding after_launch
launch_once r app_id none = refl
launch_once r app_id (some result) =
    ground (arith, identified_once r app_id result.instance_id result.instance_uuid)

-- A request to open an application is answered exactly once, whatever the storage, the bridge and
-- the launcher do, and however the registry changes during the waits: at once, or after the launch,
-- or when the wait for the connection is over.
pub answers-open :
    (casefold : String → String) (storage : Storage) (bridge : OpenBridge) (r r' r'' : AppRegistry)
    (k : Call) (q : OpenRequest) (app_id instance_id instance_uuid : String)
    (result : Option LaunchResult) (connected : Bool)
    → (settled_by (handle_open casefold storage bridge r k q) ≡ 1)
      × (settled_after (after_launch r' app_id result) ≡ 1)
      × (answers (after_connection r'' app_id instance_id instance_uuid connected).1 ≡ 1)
answers-open casefold storage bridge r r' r'' k q app_id instance_id instance_uuid result
      connected =
    (
      open_once casefold storage bridge r k q,
      launch_once r' app_id result,
      connection_once r'' app_id instance_id instance_uuid connected,
    )
