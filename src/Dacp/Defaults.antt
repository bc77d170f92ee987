-- ===== src/Dacp/Defaults.antt =====
-- handlers/dacp/base.py: the default user channels.
use py_fdc3_desktop_agent.Base.{
  String, true, Option, none, some, List, [], ◌∷◌, ◌++◌, map, if◌then◌else◌, ◌==◌,
}
use py_fdc3_desktop_agent.Base.Lists.{filter, is_empty}
use py_fdc3_desktop_agent.Core.Channels.State.{ChannelManager, ChannelInstance, Effect}
use py_fdc3_desktop_agent.Core.Channels.Membership.{get_channel, create_channel, list_channels}
use py_fdc3_desktop_agent.Dacp.Agent.{Agent, WireChannel, wire_channel}

abbrev pub default_user_channels : List (String × String × String)
default_user_channels =
    ("user:red", "Red", "0xFF0000")
    ∷ ("user:orange", "Orange", "0xFFA500")
    ∷ ("user:yellow", "Yellow", "0xFFFF00")
    ∷ ("user:green", "Green", "0x00FF00")
    ∷ ("user:blue", "Blue", "0x0000FF")
    ∷ ("user:purple", "Purple", "0x800080")
    ∷ []

unfoldable pub user_channels : ChannelManager → List ChannelInstance
user_channels m = filter (λ c. c.type == "user") (list_channels m)

-- One turn of the loop over `DEFAULT_USER_CHANNELS`, on what `get_channel` finds.
abbrev pub create_default :
    ChannelManager
    → String × String × String
    → String
    → Option ChannelInstance
    → ChannelManager × List Effect
create_default m (channel_id, name, color) now (some existing) = (m, [])
create_default m (channel_id, name, color) now none =
    let (m', made, effects) =
      create_channel m channel_id "user"
        (some (record { name = some name; color = some color; glyph = none })) now in
    (m', effects)

unfoldable pub create_each :
    ChannelManager → List (String × String × String) → String → ChannelManager × List Effect
create_each m [] now = (m, [])
create_each m (d ∷ rest) now =
    let (m', effects) = create_default m d now (get_channel m d.0) in
    let (m'', more) = create_each m' rest now in (m'', effects ++ more)

unfoldable pub ensure_default_user_channels : Agent → String → Agent × List Effect
ensure_default_user_channels a now =
    if a.default_user_channels_ready
    then (a, [])
    else if is_empty (user_channels a.channel_manager)
    then (let (m, effects) = create_each a.channel_manager default_user_channels now in
        (record a { channel_manager = m; default_user_channels_ready = true }, effects))
    else (record a { default_user_channels_ready = true }, [])

unfoldable pub get_user_channels : Agent → String → Agent × List WireChannel × List Effect
get_user_channels a now =
    let (a', effects) = ensure_default_user_channels a now in
    (a', map wire_channel (user_channels a'.channel_manager), effects)
