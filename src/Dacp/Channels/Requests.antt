-- ===== src/Dacp/Channels/Requests.antt =====
-- The requests that handlers/dacp/channel.py serves, and their dispatch.
use py_fdc3_desktop_agent.Base.{String, Option, List}
use py_fdc3_desktop_agent.Core.Channels.State.{DisplayMetadata}
use py_fdc3_desktop_agent.Dacp.Agent.{Agent, Call, Message}
use py_fdc3_desktop_agent.Dacp.UserChannels.{
  handle_get_user_channels, handle_get_system_channels, handle_get_current_channel,
  handle_get_current_context, handle_join_user_channel, handle_join_channel,
  handle_leave_current_channel,
}
use py_fdc3_desktop_agent.Dacp.PrivateChannels.{
  handle_join_private_channel, handle_leave_private_channel, handle_create_private_channel,
  handle_create_private_channel_invitation, handle_private_channel_disconnect,
  handle_private_channel_add_event_listener,
}

-- A request that has been parsed, with the fields of its payload.
pub data Request : Type 0 where
  get_user_channels_request : Request
  get_system_channels_request : Request
  get_current_channel_request : Request
  get_current_context_request : Option String → Option String → Request
  join_user_channel_request : String → Request
  join_channel_request : String → Request
  leave_current_channel_request : Request
  join_private_channel_request : String → Option String → Request
  leave_private_channel_request : String → Request
  create_private_channel_request : Option DisplayMetadata → Request
  create_private_channel_invitation_request : String → Option String → Request
  private_channel_disconnect_request : String → Request
  private_channel_add_event_listener_request : String → Option String → Request

unfoldable pub handle : Agent → Call → Request → Agent × List Message
handle a k get_user_channels_request = handle_get_user_channels a k
handle a k get_system_channels_request = handle_get_system_channels a k
handle a k get_current_channel_request = handle_get_current_channel a k
handle a k (get_current_context_request c t) = handle_get_current_context a k c t
handle a k (join_user_channel_request c) = handle_join_user_channel a k c
handle a k (join_channel_request c) = handle_join_channel a k c
handle a k leave_current_channel_request = handle_leave_current_channel a k
handle a k (join_private_channel_request c t) = handle_join_private_channel a k c t
handle a k (leave_private_channel_request c) = handle_leave_private_channel a k c
handle a k (create_private_channel_request dm) = handle_create_private_channel a k dm
handle a k (create_private_channel_invitation_request c i) =
    handle_create_private_channel_invitation a k c i
handle a k (private_channel_disconnect_request c) = handle_private_channel_disconnect a k c
handle a k (private_channel_add_event_listener_request c t) =
    handle_private_channel_add_event_listener a k c t
