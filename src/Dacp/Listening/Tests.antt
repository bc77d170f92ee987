-- ===== src/Dacp/Listening/Tests.antt =====
-- Examples of handlers/dacp/event.py: two instances on a channel, one of which broadcasts.
use py_fdc3_desktop_agent.Base.{◌≡◌, refl, true, false, String, none, some, [], ◌∷◌}
use py_fdc3_desktop_agent.Base.Dict.{get, values}
use py_fdc3_desktop_agent.Sessions.{identified}
use py_fdc3_desktop_agent.Core.Apps.{empty_registry}
use py_fdc3_desktop_agent.Core.Channels.State.{init, Context, ChannelInstance}
use py_fdc3_desktop_agent.Core.Channels.Membership.{get_current_channel, get_channel_members}
use py_fdc3_desktop_agent.Core.Listeners.{
  empty_store, get_context_listeners, get_context_listeners_for_type,
}
use py_fdc3_desktop_agent.Dacp.Agent.{Agent, Call, caller, get_instance_uuid, get_session_identity}
use py_fdc3_desktop_agent.Dacp.Listening.{handle_broadcast}
use py_fdc3_desktop_agent.Dacp.Listening.Requests.{handle_add_context_listener}
use py_fdc3_desktop_agent.Dacp.Listening.Delivery.{gets, contexts_to, gets-broadcast}
use py_fdc3_desktop_agent.Dacp.Listening.Replay.{replay-broadcast}

abbrev red : ChannelInstance
red = record { id = "red"; type = "user"; display_metadata = none; members = "ann" ∷ "bob" ∷ [] }

abbrev desk : Agent
desk = record {
  channel_manager = record init {
    channels = ("red", red) ∷ [];
    instance_channels = ("ann", "red") ∷ ("bob", "red") ∷ [];
  };
  listener_store = empty_store;
  app_registry = empty_registry;
  default_user_channels_ready = true;
  bridged = false;
}

abbrev from : String → Call
from i = record {
  wcp_sessions =
      (
        "s",
        identified (record { app_id = some "app"; instance_id = some "1"; instance_uuid = some i }),
      )
      ∷ [];
  session_id = "s";
  request_uuid = "r1";
  now = "t4";
  later = "t5";
  fresh_uuid = "u1";
}

abbrev instrument : Context
instrument = record { type = some "fdc3.instrument"; entries = [] }

gets-broadcast_example :
    (gets "bob" (handle_broadcast desk (from "ann") instrument none).0.1 ≡ true)
    × ((handle_broadcast desk (from "ann") instrument none).1 ≡ false)
unfolding caller get_instance_uuid get_session_identity get get_current_channel get_channel_members
    get_context_listeners_for_type get_context_listeners values
gets-broadcast_example = gets-broadcast desk (from "ann") instrument none "bob"

replay-broadcast_example :
    contexts_to "bob"
      (handle_add_context_listener
        (handle_broadcast desk (from "ann") instrument none).0.0
        (from "bob")
        (some "fdc3.instrument")
        none).1
    ≡ instrument ∷ []
unfolding caller get_instance_uuid get_session_identity get get_current_channel
replay-broadcast_example =
    replay-broadcast desk (from "ann") (from "bob") instrument none (some "fdc3.instrument") red
      "fdc3.instrument" refl refl refl refl refl
