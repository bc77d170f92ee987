-- ===== src/Core/Channels/Events.antt =====
-- core/channel_events.py, and the subscriptions of core/channel_manager.py. A callback, sync or
-- async, is called with the event, and no exception that it raises reaches the manager.
use py_fdc3_desktop_agent.Base.{
  ℕ, zero, suc, ◌+◌, ◌/◌, ◌%◌, String, Bool, true, not, ◌&&◌, Option, none, some, List, [], ◌∷◌,
  ◌++◌, ◌==◌, if◌then◌else◌, ltb, concat,
}
use py_fdc3_desktop_agent.Base.Dict.{put, remove, has, values}
use py_fdc3_desktop_agent.Core.Channels.State.{
  Context, ChannelEvent, EventSubscription, Effect, call, publish_task, ChannelManager,
  context_truthy,
}

-- the test on `channel_filter`
abbrev pub wants : String → EventSubscription → Bool
wants channel_id s = elim s.channel_filter [ none ↦ true | some f ↦ f == channel_id ]

-- The loop over the subscriptions.
unfoldable pub call_all : ChannelEvent → List EventSubscription → List Effect
call_all ev [] = []
call_all ev (s ∷ rest) =
    if wants ev.channel_id s then call s.callback ev ∷ call_all ev rest else call_all ev rest

-- `event_data`
abbrev pub event_data : String → String → Option String → Option Context → String → ChannelEvent
event_data event_type channel_id instance_uuid context now = record {
  event_type = event_type;
  channel_id = channel_id;
  instance_uuid = instance_uuid;
  context = elim context [ none ↦ none | some c ↦ if context_truthy c then some c else none ];
  timestamp = now;
}

-- `if not remote and manager.distributed_adapter is not None`
abbrev pub relay : Bool → Bool → ChannelEvent → List Effect
relay remote adapter ev = if not remote && adapter then publish_task ev ∷ [] else []

unfoldable pub emit_event :
    ChannelManager → String → String → Option String → Option Context → Bool → String → List Effect
unfolding values
emit_event m event_type channel_id instance_uuid context remote now =
    call_all (event_data event_type channel_id instance_uuid context now)
      (values m.event_subscriptions)
    ++ relay remote m.distributed_adapter
        (event_data event_type channel_id instance_uuid context now)

-- The scheduled task: what it hands to the adapter's topic "channel_events".
unfoldable pub publish_event : ChannelManager → ChannelEvent → List (String × ChannelEvent)
publish_event m ev = if m.distributed_adapter then ("channel_events", ev) ∷ [] else []

abbrev pub digit : ℕ → String
digit d =
    if ltb d 1
    then "0"
    else if ltb d 2
    then "1"
    else if ltb d 3
    then "2"
    else if ltb d 4
    then "3"
    else if ltb d 5
    then "4"
    else if ltb d 6
    then "5"
    else if ltb d 7
    then "6"
    else if ltb d 8
    then "7"
    else if ltb d 9
    then "8"
    else "9"

-- `str(n)`, for an `n` with at most `fuel + 1` digits
unfoldable pub decimal : ℕ → ℕ → String
decimal zero n = digit n
decimal (suc fuel) n =
    let more = concat (decimal fuel (n / 10)) (digit (n % 10)) in if ltb n 10 then digit n else more

-- f"sub_{n}"
unfoldable pub subscription_key : ℕ → String
unfolding decimal
subscription_key n = concat "sub_" (decimal n n)

unfoldable pub subscribe_to_events : ChannelManager → ℕ → Option String → ChannelManager × String
unfolding subscription_key
subscribe_to_events m callback channel_filter =
    let subscription_id = subscription_key m.next_subscription_id in
    (
      record m {
        next_subscription_id = m.next_subscription_id + 1;
        event_subscriptions =
            put m.event_subscriptions subscription_id
              (record { callback = callback; channel_filter = channel_filter });
      },
      subscription_id,
    )

unfoldable pub unsubscribe_from_events : ChannelManager → String → ChannelManager
unsubscribe_from_events m subscription_id =
    if has m.event_subscriptions subscription_id
    then record m { event_subscriptions = remove m.event_subscriptions subscription_id }
    else m
