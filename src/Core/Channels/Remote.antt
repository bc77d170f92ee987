-- ===== src/Core/Channels/Remote.antt =====
-- core/channel_manager.py: the remote agents that listen to a private channel.
use py_fdc3_desktop_agent.Base.{String, not, ◌||◌, none, some, List, [], if◌then◌else◌, truthy}
use py_fdc3_desktop_agent.Base.Lists.{is_empty}
use py_fdc3_desktop_agent.Base.Dict.{Dict, get, put, remove}
use py_fdc3_desktop_agent.Base.StrSet.{add, discard}
use py_fdc3_desktop_agent.Core.Channels.State.{ChannelManager}
use py_fdc3_desktop_agent.Core.Channels.Membership.{set_or_empty}

unfoldable pub add_remote_private_channel_listener :
    ChannelManager → String → String → ChannelManager
unfolding add get put
add_remote_private_channel_listener m channel_id desktop_agent =
    if not (truthy channel_id) || not (truthy desktop_agent) then m else record m {
      remote_private_channel_listeners =
          put m.remote_private_channel_listeners channel_id
            (add (set_or_empty (get m.remote_private_channel_listeners channel_id)) desktop_agent);
    }

-- An emptied set is dropped with its key.
abbrev pub store_listeners : Dict (List String) → String → List String → Dict (List String)
store_listeners all channel_id rest =
    if is_empty rest then remove all channel_id else put all channel_id rest

unfoldable pub remove_remote_private_channel_listener :
    ChannelManager → String → String → ChannelManager
unfolding discard get
remove_remote_private_channel_listener m channel_id desktop_agent =
    if not (truthy channel_id) || not (truthy desktop_agent)
    then m
    else elim (get m.remote_private_channel_listeners channel_id) [
      | none ↦ m
      | some listeners ↦ if is_empty listeners then m else record m {
        remote_private_channel_listeners =
            store_listeners m.remote_private_channel_listeners channel_id
              (discard listeners desktop_agent);
      }
    ]

unfoldable pub get_remote_private_channel_listeners : ChannelManager → String → List String
unfolding get
get_remote_private_channel_listeners m channel_id =
    if truthy channel_id
    then set_or_empty (get m.remote_private_channel_listeners channel_id)
    else []
