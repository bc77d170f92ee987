-- ===== src/Dacp/Channels/Tests.antt =====
-- Examples of handlers/dacp/channel.py: an agent with a private channel and two sessions.
use py_fdc3_desktop_agent.Base.Dict.{has, get, put, modify}
use py_fdc3_desktop_agent.Base.StrSet.{add}
use py_fdc3_desktop_agent.Core.Channels.Steps.{step}
use py_fdc3_desktop_agent.Core.Channels.Membership.{get_channel, create_channel, add_member}
use py_fdc3_desktop_agent.Core.Channels.Private.{
  create_private_channel, create_private_channel_invite, assigned_id,
}
use py_fdc3_desktop_agent.Core.Channels.Remote.{add_remote_private_channel_listener}
use py_fdc3_desktop_agent.Dacp.Guards.{with_channel}
use py_fdc3_desktop_agent.Dacp.Channels.Errors.{refused}
use py_fdc3_desktop_agent.Dacp.Channels.Refusals.{handle-refused}
use py_fdc3_desktop_agent.Base.{
  String, ◌≡◌, refl, true, false, ◌&&◌, some, none, List, [], ◌∷◌, if◌then◌else◌, ◌==◌,
}
use py_fdc3_desktop_agent.Core.Apps.{empty_registry}
use py_fdc3_desktop_agent.Core.Channels.State.{init}
use py_fdc3_desktop_agent.Core.Channels.Steps.{Operation, run, create_private, invite, add_remote}
use py_fdc3_desktop_agent.Core.Channels.Views.{current, is_private}
use py_fdc3_desktop_agent.Core.Listeners.{empty_store, add_event_listener}
use py_fdc3_desktop_agent.Sessions.{identified}
use py_fdc3_desktop_agent.Dacp.Agent.{Agent, Call, caller}
use py_fdc3_desktop_agent.Dacp.UserChannels.{user_channel_id}
use py_fdc3_desktop_agent.Dacp.PrivateChannels.{
  handle_join_private_channel, handle_private_channel_disconnect,
}
use py_fdc3_desktop_agent.Dacp.Channels.Requests.{
  handle, join_private_channel_request, join_user_channel_request,
}
use py_fdc3_desktop_agent.Dacp.Channels.Responses.{replies}
use py_fdc3_desktop_agent.Dacp.Channels.Replies.{replies-handle}
use py_fdc3_desktop_agent.Dacp.Channels.Access.{current-join_private, may_enter}
use py_fdc3_desktop_agent.Dacp.Channels.Bridged.{bridged_events, bridged-disconnect}

raw_ids : (user_channel_id "red" ≡ "user:red") × (user_channel_id "user:red" ≡ "user:red")
unfolding user_channel_id
raw_ids = (refl, refl)

abbrev calls : List Operation
calls =
    create_private "bob" none none "p1" "t3"
    ∷ invite "private:p1" (some "cat") "token"
    ∷ add_remote "private:p1" "other-agent"
    ∷ []

abbrev desk : Agent
desk = record {
  channel_manager = run init calls;
  listener_store =
      (add_event_listener empty_store "l1" "bob" (some "onDisconnect") (some "private:p1")).0;
  app_registry = empty_registry;
  default_user_channels_ready = false;
  bridged = true;
}

abbrev from : String → Call
from i = record {
  wcp_sessions =
      (
        "s",
        identified (record { app_id = some "app"; instance_id = some "1"; instance_uuid = some i }),
      )
      ∷ [];
  session_id = "s";
  request_uuid = "r1";
  now = "t4";
  later = "t5";
  fresh_uuid = "u1";
}

replies-handle_example :
    replies (handle desk (from "cat") (join_user_channel_request "red")).1 ≡ "r1" ∷ []
replies-handle_example = replies-handle desk (from "cat") (join_user_channel_request "red")

current-join_private_example :
    current
      (handle_join_private_channel desk (from "cat") "private:p1" (some "token")).0.channel_manager
      "cat"
    ≡ (if is_private desk.channel_manager "private:p1"
          && may_enter desk.channel_manager "private:p1" (some "token") (caller (from "cat"))
          && caller (from "cat") == "cat"
        then some "private:p1"
        else current desk.channel_manager "cat")
current-join_private_example =
    current-join_private desk (from "cat") "private:p1" (some "token") "cat"

bridged-disconnect_example :
    bridged_events (handle_private_channel_disconnect desk (from "bob") "private:p1").1 ≡ 0
bridged-disconnect_example = bridged-disconnect desk (from "bob") "private:p1"

-- A caller without a token for a private channel that is not there.
handle-refused_example :
    (handle desk (from "dan") (join_private_channel_request "private:p2" none)).0 ≡ desk
unfolding handle handle_join_private_channel refused with_channel get_channel has get run step put
    create_private_channel create_private_channel_invite assigned_id modify create_channel
    add_member add_remote_private_channel_listener add
handle-refused_example =
    handle-refused desk (from "dan") (join_private_channel_request "private:p2" none) refl
