-- ===== src/Dacp/UserChannels.antt =====
-- handlers/dacp/channel.py: the handlers for user channels and the current channel.
use py_fdc3_desktop_agent.Base.{
  String, not, Option, none, some, List, ◌++◌, if◌then◌else◌, is_some, truthy, concat, ◌==◌,
}
use text.Mathlib.Text.{find?}
use mathlib.Core.Option
use py_fdc3_desktop_agent.Core.Channels.State.{ChannelInstance, ChannelManager, Context}
use py_fdc3_desktop_agent.Core.Channels.Contexts.{get_channel_context}
use py_fdc3_desktop_agent.Core.Channels.Membership.{
  get_channel, get_current_channel, join_channel, leave_current_channel,
}
use py_fdc3_desktop_agent.Dacp.Agent.{
  Agent, wire_channel, channels, channel, context, nothing, Message, tell, Call, caller, answer,
  refuse,
}
use py_fdc3_desktop_agent.Dacp.Defaults.{get_user_channels, ensure_default_user_channels}
use py_fdc3_desktop_agent.Dacp.Events.{emit_user_channel_changed_event}
use py_fdc3_desktop_agent.Dacp.Guards.{with_channel, is_on}

unfoldable pub handle_get_user_channels : Agent → Call → Agent × List Message
handle_get_user_channels a k =
    let (a', found, effects) = get_user_channels a k.now in
    (a', tell effects ++ answer k "getUserChannelsResponse" (channels found))

unfoldable pub handle_get_system_channels : Agent → Call → Agent × List Message
handle_get_system_channels a k =
    let (a', found, effects) = get_user_channels a k.now in
    (a', tell effects ++ answer k "getSystemChannelsResponse" (channels found))

unfoldable pub handle_get_current_channel : Agent → Call → Agent × List Message
handle_get_current_channel a k = (
  a,
  answer k "getCurrentChannelResponse"
      (channel (Option.map wire_channel (get_current_channel a.channel_manager (caller k)))),
)

abbrev context_on : ChannelManager → Option ChannelInstance → Option String → Option Context
context_on m none context_type = none
context_on m (some ch) context_type = get_channel_context m ch.id context_type

unfoldable pub handle_get_current_context :
    Agent → Call → Option String → Option String → Agent × List Message
handle_get_current_context a k channel_id context_type =
    let m = a.channel_manager in
    let current = get_current_channel m (caller k) in
    elim channel_id [
      | none ↦
          (a, answer k "getCurrentContextResponse" (context (context_on m current context_type)))
      | some requested ↦
          if not (truthy requested)
          then (
            a,
            answer k "getCurrentContextResponse" (context (context_on m current context_type)),
          )
          else if not (is_some (get_channel m requested))
          then (a, refuse k "getCurrentContextResponse" "NoChannelFound")
          else if not (is_on current requested)
          then (a, refuse k "getCurrentContextResponse" "AccessDenied")
          else (
            a,
            answer k "getCurrentContextResponse"
                (context (get_channel_context m requested context_type)),
          )
    ]

-- `raw_id if ":" in raw_id else f"user:{raw_id}"`
unfoldable pub user_channel_id : String → String
user_channel_id raw_id = if is_some (find? raw_id ":") then raw_id else concat "user:" raw_id

-- `channel is None or channel.type != "user"`
abbrev pub user_of : Option ChannelInstance → Option ChannelInstance
user_of none = none
user_of (some ch) = if ch.type == "user" then some ch else none

-- The body that `_handle_join_user_channel` and `_handle_join_channel` share.
unfoldable pub join_user : Agent → Call → String → String → Agent × List Message
join_user a k type raw_id =
    let (a', effects) = ensure_default_user_channels a k.now in
    let channel_id = user_channel_id raw_id in
    with_channel a' (tell effects ++ refuse k type "NoChannelFound")
      (user_of (get_channel a'.channel_manager channel_id))
      (λ ch.
        let (m, joined) = join_channel a'.channel_manager (caller k) channel_id k.now k.later in
        let a'' : Agent = record a' { channel_manager = m } in
        (
          a'',
          tell effects
              ++ (tell joined
                  ++ (answer k type (channel (some (wire_channel ch)))
                      ++ emit_user_channel_changed_event a'' (caller k) (some channel_id))),
        ))

unfoldable pub handle_join_user_channel : Agent → Call → String → Agent × List Message
handle_join_user_channel a k channel_id = join_user a k "joinUserChannelResponse" channel_id

unfoldable pub handle_join_channel : Agent → Call → String → Agent × List Message
handle_join_channel a k channel_id = join_user a k "joinChannelResponse" channel_id

unfoldable pub handle_leave_current_channel : Agent → Call → Agent × List Message
handle_leave_current_channel a k =
    let (m, left) = leave_current_channel a.channel_manager (caller k) k.now in
    let a' : Agent = record a { channel_manager = m } in
    (
      a',
      tell left
          ++ (answer k "leaveCurrentChannelResponse" nothing
              ++ emit_user_channel_changed_event a' (caller k) none),
    )
