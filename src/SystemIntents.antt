-- ===== src/SystemIntents.antt =====
-- handlers/system_intent.py: the intents that the agent itself serves.
use py_fdc3_desktop_agent.Base.{
  String, Bool, true, false, Option, none, some, [], ◌∷◌, if◌then◌else◌, concat, truthy,
}
use py_fdc3_desktop_agent.Base.Dict.{Dict, get, has}
use py_fdc3_desktop_agent.Core.Channels.State.{Context, context_truthy}

-- The handler methods, each `_handle_…` of the source.
pub data SystemMethod : Type 0 where
  open_app_directory_method : SystemMethod
  manage_apps_method : SystemMethod
  install_app_method : SystemMethod
  uninstall_app_method : SystemMethod
  system_settings_method : SystemMethod
  configure_channels_method : SystemMethod
  system_diagnostics_method : SystemMethod
  create_channel_method : SystemMethod
  delete_channel_method : SystemMethod
  manage_channel_method : SystemMethod
  resolve_intent_method : SystemMethod
  open_url_method : SystemMethod
  open_file_method : SystemMethod
  system_search_method : SystemMethod
  show_notification_method : SystemMethod
  system_alert_method : SystemMethod

unfoldable pub system_intents : Dict SystemMethod
system_intents =
    ("fdc3.openAppDirectory", open_app_directory_method)
    ∷ ("fdc3.manageApps", manage_apps_method)
    ∷ ("fdc3.installApp", install_app_method)
    ∷ ("fdc3.uninstallApp", uninstall_app_method)
    ∷ ("fdc3.systemSettings", system_settings_method)
    ∷ ("fdc3.configureChannels", configure_channels_method)
    ∷ ("fdc3.systemDiagnostics", system_diagnostics_method)
    ∷ ("fdc3.createChannel", create_channel_method)
    ∷ ("fdc3.deleteChannel", delete_channel_method)
    ∷ ("fdc3.manageChannel", manage_channel_method)
    ∷ ("fdc3.resolveIntent", resolve_intent_method)
    ∷ ("fdc3.openUrl", open_url_method)
    ∷ ("fdc3.openFile", open_file_method)
    ∷ ("fdc3.systemSearch", system_search_method)
    ∷ ("fdc3.showNotification", show_notification_method)
    ∷ ("fdc3.systemAlert", system_alert_method)
    ∷ []

unfoldable pub is_system_intent : String → Bool
unfolding system_intents
is_system_intent intent = has system_intents intent

-- The response: the agent is the source of the resolution, or the request failed.
pub data SystemResponse : Type 0 where
  resolved : String → SystemResponse
  handling_failed : SystemResponse

-- `context.get(key)` of a context that is there and not empty. The entries of a context are texts.
abbrev pub entry_of : Option Context → String → Option String
entry_of none key = none
entry_of (some context) key = if context_truthy context then get context.entries key else none

abbrev pub or_empty : Option String → String
or_empty none = ""
or_empty (some t) = t

-- The URL with the intent of the context as its query, if there is one that is not empty.
abbrev pub with_intent : String → Option String → String
with_intent url none = url
with_intent url (some intent) = if truthy intent then concat url (concat "?intent=" intent) else url

abbrev pub with_query : String → Option String → String
with_query url none = url
with_query url (some query) = concat url (concat "?q=" query)

abbrev pub with_message : String → Option Context → String
with_message url none = url
with_message url (some context) =
    if context_truthy context
    then concat url (concat "?message=" (or_empty (get context.entries "message")))
    else url

-- `launch url` is what the web launcher returns, or `none` if it raises; `open_path path` says
-- whether the system's opener runs. Both are outside the agent.
module _ (launch : String → Option Context → Option Bool) (open_path : String → Bool) where
  -- `return await self._launch_web_url(…)`, with an exception turned into `False`
  abbrev pub returned : Option Bool → Bool
  returned none = false
  returned (some success) = success

  unfoldable pub launch_web_url : String → Option Context → Bool
  launch_web_url url context = returned (launch url context)

  abbrev open_url_of : Option Context → Option String → Bool
  unfolding launch_web_url
  open_url_of context none = false
  open_url_of context (some url) = launch_web_url url context

  abbrev open_file_of : Option String → Bool
  open_file_of none = false
  open_file_of (some file_path) = open_path file_path

  -- The method of that name, by its result.
  unfoldable pub run_method : SystemMethod → Option Context → Bool
  unfolding launch_web_url open_url_of
  run_method open_app_directory_method context =
      launch_web_url "http://localhost:8000/app-directory" context
  run_method manage_apps_method context = launch_web_url "http://localhost:8000/manage-apps" context
  run_method install_app_method context =
      launch_web_url "http://localhost:8000/app-directory?mode=install" context
  run_method uninstall_app_method context =
      launch_web_url "http://localhost:8000/manage-apps?mode=uninstall" context
  run_method system_settings_method context =
      launch_web_url "http://localhost:8000/system-settings" context
  run_method configure_channels_method context =
      launch_web_url "http://localhost:8000/channels" context
  run_method system_diagnostics_method context =
      launch_web_url "http://localhost:8000/diagnostics" context
  run_method create_channel_method context =
      launch_web_url "http://localhost:8000/channels?mode=create" context
  run_method delete_channel_method context =
      launch_web_url "http://localhost:8000/channels?mode=delete" context
  run_method manage_channel_method context =
      launch_web_url "http://localhost:8000/channels?mode=manage" context
  run_method resolve_intent_method context =
      launch_web_url
        (with_intent "http://localhost:8000/resolve-intent" (entry_of context "intent")) context
  run_method open_url_method context = open_url_of context (entry_of context "url")
  run_method open_file_method context = open_file_of (entry_of context "filePath")
  run_method system_search_method context =
      launch_web_url (with_query "http://localhost:8000/search" (entry_of context "query")) context
  run_method show_notification_method context = true
  run_method system_alert_method context =
      launch_web_url (with_message "http://localhost:8000/alert" context) context

  abbrev respond : String → Bool → SystemResponse
  respond intent success = if success then resolved intent else handling_failed

  unfoldable pub handle_system_intent : String → Option Context → Option SystemResponse
  handle_system_intent intent context = elim (get system_intents intent) [
    | none ↦ none
    | some method ↦ some (respond intent (run_method method context))
  ]
