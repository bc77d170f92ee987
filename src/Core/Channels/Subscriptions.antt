-- ===== src/Core/Channels/Subscriptions.antt =====
-- core/channel_manager.py: no two subscriptions to the events have the same identifier.
use py_fdc3_desktop_agent.Base.{
  ℕ, ◌<◌, String, ◌≡◌, sym, ap, ◌∙◌, Option, none, some, List, arith, ◌==◌, eq_iff, if◌then◌else◌,
  Bool-cases, Option-cases, inl, inr,
}
use py_fdc3_desktop_agent.Base.Dict.{get, get-put, get-remove}
use py_fdc3_desktop_agent.Core.Channels.State.{ChannelManager, EventSubscription, init}
use py_fdc3_desktop_agent.Core.Channels.Events.{
  subscription_key, subscribe_to_events, unsubscribe_from_events,
}
use py_fdc3_desktop_agent.Core.Channels.Contexts.{
  store_context, set_channel_context, clear_channel_context,
}
use py_fdc3_desktop_agent.Core.Channels.Membership.{
  create_channel, delete_channel, leave_old, join_new, join_channel, drop_participant,
  leave_current_channel, broadcast_to_channel,
}
use py_fdc3_desktop_agent.Core.Channels.Private.{
  create_private_channel, create_private_channel_invite, consume_private_channel_invite,
  destroy_private_channel,
}
use py_fdc3_desktop_agent.Core.Channels.Remote.{
  add_remote_private_channel_listener, remove_remote_private_channel_listener,
}
use py_fdc3_desktop_agent.Core.Channels.Numbers.{subscription_key-injective}
use py_fdc3_desktop_agent.Core.Channels.Steps.{
  Operation, subscribe, unsubscribe, step, run, run_induction,
}

-- Every identifier in use has a number below the next one.
record IsNumbered (m : ChannelManager) : Type 0 where
  below :
      (k : String) (s : EventSubscription)
      → get m.event_subscriptions k ≡ some s
      → (n : ℕ) × (n < m.next_subscription_id) × (k ≡ subscription_key n)

-- What the other calls leave as it is.
Untouched : ChannelManager → ChannelManager → Type 0
Untouched m m' =
    (m'.event_subscriptions ≡ m.event_subscriptions)
    × (m'.next_subscription_id ≡ m.next_subscription_id)

Untouched-IsNumbered : (m m' : ChannelManager) → Untouched m m' → IsNumbered m → IsNumbered m'
unfolding Untouched
Untouched-IsNumbered m m' u v = record {
  below = λ k s e.
      let (n, b, f) = v.below k s (ap (λ d. get d k) (sym u.0) ∙ e) in
      (n, ground (arith, b, u.1), f);
}

join-Untouched : (m : ChannelManager) (i c l j : String) → Untouched m (join_channel m i c l j).0
unfolding Untouched join_channel leave_old join_new
join-Untouched m i c l j = (ground arith, ground arith)

leave-Untouched : (m : ChannelManager) (i l : String) → Untouched m (leave_current_channel m i l).0
unfolding Untouched leave_current_channel drop_participant
leave-Untouched m i l = (ground arith, ground arith)

step-Untouched :
    (m : ChannelManager) (op : Operation)
    → (step m op).event_subscriptions ≡ m.event_subscriptions
    → (step m op).next_subscription_id ≡ m.next_subscription_id
    → IsNumbered m
    → IsNumbered (step m op)
unfolding Untouched
step-Untouched m op s n v = Untouched-IsNumbered m (step m op) (s, n) v

subscribe-IsNumbered :
    (m : ChannelManager) (callback : ℕ) (f : Option String)
    → IsNumbered m
    → IsNumbered (subscribe_to_events m callback f).0
unfolding subscribe_to_events
subscribe-IsNumbered m callback f v = record {
  below = λ k s e.
      let key = subscription_key m.next_subscription_id in
      let added : EventSubscription = record { callback = callback; channel_filter = f } in
      elim (Bool-cases (key == k)) [
        | inl h ↦ (m.next_subscription_id, omega arith, sym ((eq_iff key k).0 h))
        | inr h ↦
            let (n, b, g) =
              v.below k s (ground (arith, h, e, get-put m.event_subscriptions key k added)) in
            (n, omega (arith, b), g)
      ];
}

unsubscribe-IsNumbered :
    (m : ChannelManager) (key : String) → IsNumbered m → IsNumbered (unsubscribe_from_events m key)
unfolding unsubscribe_from_events
unsubscribe-IsNumbered m key v = record {
  below = λ k s e.
      let (n, b, g) =
        v.below k s (ground (arith, e, get-remove m.event_subscriptions key k, eq_iff key k)) in
      (n, ground (arith, b), g);
}

step-IsNumbered : (m : ChannelManager) (op : Operation) → IsNumbered m → IsNumbered (step m op)
unfolding step create_channel delete_channel create_private_channel create_private_channel_invite
    consume_private_channel_invite destroy_private_channel join_channel leave_old join_new
    leave_current_channel broadcast_to_channel set_channel_context store_context
    clear_channel_context add_remote_private_channel_listener remove_remote_private_channel_listener
step-IsNumbered m (subscribe callback f) v = subscribe-IsNumbered m callback f v
step-IsNumbered m (unsubscribe key) v = unsubscribe-IsNumbered m key v
step-IsNumbered m op v = step-Untouched m op (ground arith) (ground arith) v

init-IsNumbered : IsNumbered init
unfolding get
init-IsNumbered = record { below = λ k s e. absurd (cc e) }

fresh :
    (m : ChannelManager)
    → IsNumbered m
    → get m.event_subscriptions (subscription_key m.next_subscription_id) ≡ none
fresh m v =
    elim (Option-cases (get m.event_subscriptions (subscription_key m.next_subscription_id))) [
      | inl e ↦ e
      | inr (s, e) ↦
          let (n, b, f) = v.below (subscription_key m.next_subscription_id) s e in
          absurd (ground (arith, b, subscription_key-injective m.next_subscription_id n f))
    ]

-- After any calls on a new manager, in any order, a new subscription gets an identifier that no
-- subscription has: it is added, with its callback and its filter, and every other subscription
-- stays as it was.
pub run-subscribe :
    (ops : List Operation) (callback : ℕ) (channel_filter : Option String)
    → (let m = run init ops in
        let (m', key) = subscribe_to_events m callback channel_filter in
        (get m.event_subscriptions key ≡ none)
        × ((k : String)
            → get m'.event_subscriptions k ≡ (
                if key == k
                then some (record { callback = callback; channel_filter = channel_filter })
                else get m.event_subscriptions k)))
unfolding subscribe_to_events
run-subscribe ops callback channel_filter = (
  fresh (run init ops) (run_induction IsNumbered step-IsNumbered init ops init-IsNumbered),
  λ k.
      get-put (run init ops).event_subscriptions
        (subscription_key (run init ops).next_subscription_id) k
        (record { callback = callback; channel_filter = channel_filter }),
)

-- After any calls on a new manager, the identifier of every subscription is "sub_" with a number
-- below the next one to be given.
pub run-numbered :
    (ops : List Operation) (k : String) (s : EventSubscription)
    → get (run init ops).event_subscriptions k ≡ some s
    → (n : ℕ) × (n < (run init ops).next_subscription_id) × (k ≡ subscription_key n)
run-numbered ops = (run_induction IsNumbered step-IsNumbered init ops init-IsNumbered).below
