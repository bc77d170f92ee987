-- ===== src/Core/Channels/Tests.antt =====
-- Examples of channel_manager.py: runs of the manager, and the theorems at those runs.
use py_fdc3_desktop_agent.Base.{
  ℕ, ◌<◌, String, ◌≡◌, refl, true, false, none, some, List, [], ◌∷◌, ◌==◌, if◌then◌else◌,
}
use py_fdc3_desktop_agent.Base.Lists.{count}
use py_fdc3_desktop_agent.Base.Dict.{get, put, has, remove, modify}
use py_fdc3_desktop_agent.Base.StrSet.{add}
use py_fdc3_desktop_agent.Core.Channels.State.{Context, ChannelManager, init}
use py_fdc3_desktop_agent.Core.Channels.Events.{subscription_key, decimal, subscribe_to_events}
use py_fdc3_desktop_agent.Core.Channels.Membership.{
  create_channel, delete_channel, get_channel, get_channel_members, join_channel,
  leave_current_channel, leave_old, join_new, add_member,
}
use py_fdc3_desktop_agent.Core.Channels.Private.{
  assigned_id, create_private_channel, create_private_channel_invite,
  consume_private_channel_invite, destroy_private_channel,
}
use py_fdc3_desktop_agent.Core.Channels.Steps.{
  Operation, create, create_private, invite, join, subscribe, step, run,
}
use py_fdc3_desktop_agent.Core.Channels.Views.{current}
use py_fdc3_desktop_agent.Core.Channels.Invariant.{IsConsistent, run-IsConsistent}
use py_fdc3_desktop_agent.Core.Channels.Removal.{SameAt, delete-destroy}
use py_fdc3_desktop_agent.Core.Channels.Invites.{consume_once}
use py_fdc3_desktop_agent.Core.Channels.Subscriptions.{run-subscribe, run-numbered}
use py_fdc3_desktop_agent.Core.Channels.Moving.{entered, owner_listed_twice}

key_17 : subscription_key 17 ≡ "sub_17"
unfolding subscription_key decimal
key_17 = refl

-- Two user channels, one of them with a member and a subscriber, and a private channel with an
-- invite for one instance.
abbrev calls : List Operation
calls =
    create "red" "user" none "t0"
    ∷ create "blue" "user" none "t1"
    ∷ subscribe 7 (some "red")
    ∷ join "ann" "red" "t2" "t2"
    ∷ create_private "bob" none none "p1" "t3"
    ∷ invite "private:p1" (some "cat") "token"
    ∷ []

abbrev office : ChannelManager
office = run init calls

abbrev instrument : Context
instrument = record { type = some "fdc3.instrument"; entries = [] }

has_red : has office.channels "red" ≡ true
unfolding has get run step create_channel put join_channel leave_old join_new add_member
    subscribe_to_events create_private_channel create_private_channel_invite assigned_id modify add
    remove get_channel
has_red = refl

run-IsConsistent_example : IsConsistent (run init calls)
run-IsConsistent_example = run-IsConsistent calls

delete-destroy_example :
    SameAt (delete_channel office "red" "t4").0 (destroy_private_channel office "red" "t4").0 "blue"
delete-destroy_example = delete-destroy office "red" "t4" (run-IsConsistent calls) has_red "blue"

accepted : (consume_private_channel_invite office "private:p1" "token" "cat").1 ≡ true
unfolding has get run step create_channel put join_channel leave_old join_new add_member
    subscribe_to_events create_private_channel create_private_channel_invite assigned_id modify add
    get_channel consume_private_channel_invite remove
accepted = refl

consume_once_example :
    (consume_private_channel_invite
      (consume_private_channel_invite office "private:p1" "token" "cat").0
      "private:p1"
      "token"
      "dan").1
    ≡ false
consume_once_example = consume_once office "private:p1" "token" "cat" "dan" accepted

owner_listed_twice_example :
    (count "bob"
        (get_channel_members (entered init "bob" none "p1" "t1" "t2" "t2" "t3") "private:p1")
      ≡ 2)
    × (count "bob" (
          get_channel_members
            (leave_current_channel (entered init "bob" none "p1" "t1" "t2" "t2" "t3") "bob" "t3").0
            "private:p1")
        ≡ 1)
    × (current
          (leave_current_channel (entered init "bob" none "p1" "t1" "t2" "t2" "t3") "bob" "t3").0
          "bob"
        ≡ none)
unfolding has get assigned_id
owner_listed_twice_example = owner_listed_twice init "bob" none "p1" "t1" "t2" "t2" "t3" refl refl

run-subscribe_example :
    (let m = run init calls in
      let (m', key) = subscribe_to_events m 8 none in
      (get m.event_subscriptions key ≡ none)
      × ((k : String)
          → get m'.event_subscriptions k ≡ (
              if key == k
              then some (record { callback = 8; channel_filter = none })
              else get m.event_subscriptions k)))
run-subscribe_example = run-subscribe calls 8 none

subscribed :
    get (run init calls).event_subscriptions "sub_1"
    ≡ some (record { callback = 7; channel_filter = some "red" })
unfolding has get run step create_channel put join_channel leave_old join_new add_member
    subscribe_to_events subscription_key decimal create_private_channel
    create_private_channel_invite assigned_id modify add get_channel remove
subscribed = refl

run-numbered_example :
    (n : ℕ) × (n < (run init calls).next_subscription_id) × ("sub_1" ≡ subscription_key n)
run-numbered_example =
    run-numbered calls "sub_1" (record { callback = 7; channel_filter = some "red" }) subscribed
