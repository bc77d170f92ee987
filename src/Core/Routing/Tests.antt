-- ===== src/Core/Routing/Tests.antt =====
-- Examples of context_router.py: a broadcast from one member of a channel.
use py_fdc3_desktop_agent.Base.{◌≡◌, not, ◌&&◌, ◌==◌, some, none, []}
use py_fdc3_desktop_agent.Core.Listeners.{empty_store, add_context_listener}
use py_fdc3_desktop_agent.Core.Channels.State.{Context, init}
use py_fdc3_desktop_agent.Core.Channels.Membership.{create_channel, join_channel}
use py_fdc3_desktop_agent.Core.Routing.{ContextRouter, resolve_channel, broadcast_context}
use py_fdc3_desktop_agent.Core.Routing.Targets.{reached, meant_for, broadcast_targets}

abbrev router : ContextRouter
router = record {
  listener_store = (add_context_listener empty_store "k1" "bob" (some "fdc3.instrument") none).0;
  channel_manager =
      (join_channel (create_channel init "red" "user" none "t0").0 "ann" "red" "t1" "t1").0;
}

abbrev instrument : Context
instrument = record { type = some "fdc3.instrument"; entries = [] }

broadcast_targets_example :
    reached "bob" (broadcast_context router instrument "ann" none "t2")
    ≡ some (
        not ("bob" == "ann")
        && meant_for router
            (some "fdc3.instrument")
            (resolve_channel router.channel_manager "ann" none)
            "bob")
broadcast_targets_example = broadcast_targets router instrument "ann" none "t2" "bob"
