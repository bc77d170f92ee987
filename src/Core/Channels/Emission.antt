-- ===== src/Core/Channels/Emission.antt =====
-- core/channel_events.py: who is told of an event.
use py_fdc3_desktop_agent.Base.{
  ℕ, suc, ◌+◌, String, ◌≡◌, refl, Bool, Option, List, [], ◌∷◌, ◌++◌, arith, if◌then◌else◌,
}
use py_fdc3_desktop_agent.Base.Lists.{length, filter}
use py_fdc3_desktop_agent.Base.Dict.{values}
use py_fdc3_desktop_agent.Core.Channels.State.{
  Context, ChannelEvent, EventSubscription, Effect, call, publish_task, ChannelManager,
}
use py_fdc3_desktop_agent.Core.Channels.Events.{emit_event, wants, event_data, relay, call_all}

-- How often a callback is called, and how many publications are scheduled.
abbrev pub count_calls : List Effect → ℕ
count_calls [] = 0
count_calls (call callback ev ∷ rest) = suc (count_calls rest)
count_calls (publish_task ev ∷ rest) = count_calls rest

abbrev pub count_published : List Effect → ℕ
count_published [] = 0
count_published (call callback ev ∷ rest) = count_published rest
count_published (publish_task ev ∷ rest) = suc (count_published rest)

count_calls-append :
    (xs ys : List Effect) → count_calls (xs ++ ys) ≡ count_calls xs + count_calls ys
count_calls-append [] ys = omega arith
count_calls-append (call callback ev ∷ rest) ys = omega (arith, count_calls-append rest ys)
count_calls-append (publish_task ev ∷ rest) ys = count_calls-append rest ys

count_published-append :
    (xs ys : List Effect) → count_published (xs ++ ys) ≡ count_published xs + count_published ys
count_published-append [] ys = omega arith
count_published-append (call callback ev ∷ rest) ys = count_published-append rest ys
count_published-append (publish_task ev ∷ rest) ys = omega (arith, count_published-append rest ys)

count_calls-call_all :
    (ev : ChannelEvent) (subs : List EventSubscription)
    → (count_calls (call_all ev subs) ≡ length (filter (wants ev.channel_id) subs))
      × (count_published (call_all ev subs) ≡ 0)
unfolding call_all
count_calls-call_all ev [] = (refl, refl)
count_calls-call_all ev (s ∷ subs) = ground (arith, count_calls-call_all ev subs)

module _ (m : ChannelManager) (t c : String) (i : Option String) (x : Option Context)
    (remote : Bool) (now : String) where
  abbrev ev : ChannelEvent
  ev = event_data t c i x now

  -- An event is handed once to every subscription whose filter is absent or names the event's
  -- channel; and it is published once if there is a distributed adapter and the event did not come
  -- from one, and otherwise not at all.
  pub emit_event_counts :
      (count_calls (emit_event m t c i x remote now)
        ≡ length (filter (wants c) (values m.event_subscriptions)))
      × (count_published (emit_event m t c i x remote now)
          ≡ (if remote then 0 else if m.distributed_adapter then 1 else 0))
  unfolding emit_event
  emit_event_counts = ground (
    arith,
    count_calls-append (call_all ev (values m.event_subscriptions))
        (relay remote m.distributed_adapter ev),
    count_published-append (call_all ev (values m.event_subscriptions))
        (relay remote m.distributed_adapter ev),
    count_calls-call_all ev (values m.event_subscriptions),
  )
