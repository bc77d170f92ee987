-- ===== src/Core/Channels/Invariant.antt =====
-- core/channel_manager.py: `instance_channels` and the member lists under all calls.
use py_fdc3_desktop_agent.Base.{
  ◌≤◌, String, ◌≡◌, false, Option, some, List, arith, eq_iff, eq_refl, if◌then◌else◌, opt_eq,
  opt_eq_iff,
}
use py_fdc3_desktop_agent.Base.Lists.{count, count-contains}
use py_fdc3_desktop_agent.Base.Dict.{get}
use py_fdc3_desktop_agent.Core.Channels.State.{DisplayMetadata, ChannelManager, init}
use py_fdc3_desktop_agent.Core.Channels.Events.{subscribe_to_events, unsubscribe_from_events}
use py_fdc3_desktop_agent.Core.Channels.Contexts.{
  store_context, set_channel_context, clear_channel_context,
}
use py_fdc3_desktop_agent.Core.Channels.Membership.{
  create_channel, delete_channel, join_channel, leave_current_channel, get_channel_members,
  broadcast_to_channel,
}
use py_fdc3_desktop_agent.Core.Channels.Private.{
  assigned_id, create_private_channel, create_private_channel_invite,
  consume_private_channel_invite, destroy_private_channel,
}
use py_fdc3_desktop_agent.Core.Channels.Remote.{
  add_remote_private_channel_listener, remove_remote_private_channel_listener,
}
use py_fdc3_desktop_agent.Core.Channels.Views.{
  is_private, current, current-leave_old, absent_members, count-join, current-join, is_private-join,
  count-leave, current-leave, is_private-leave, members-create, current-create, is_private-create,
  count-create_private, current-create_private, is_private-create_private,
}
use py_fdc3_desktop_agent.Core.Channels.Teardown.{
  members-delete, is_private-delete, current-delete, Distinct-delete, members-destroy,
  is_private-destroy, current-destroy, Distinct-destroy,
}
use py_fdc3_desktop_agent.Core.Channels.Steps.{
  Operation, create, delete, create_private, join, leave, destroy, step, run, run_induction,
  after_private,
}
use py_fdc3_desktop_agent.Base.Dict.{Distinct, put-Distinct, remove-Distinct}

-- The current channel of an instance lists it; and a channel that is not private lists an instance
-- once if it is the instance's current channel, and otherwise not at all.
pub record IsConsistent (m : ChannelManager) : Type 0 where
  pub distinct : Distinct m.instance_channels
  pub joined : (i c : String) → current m i ≡ some c → 1 ≤ count i (get_channel_members m c)
  pub membership :
      (i c : String)
      → is_private m c ≡ false
      → count i (get_channel_members m c) ≡ (if opt_eq (current m i) c then 1 else 0)

-- A step that changes neither the channels nor the current channels keeps the invariant.
same-IsConsistent :
    (m m' : ChannelManager)
    → m'.channels ≡ m.channels
    → m'.instance_channels ≡ m.instance_channels
    → IsConsistent m
    → IsConsistent m'
unfolding is_private get_channel_members
same-IsConsistent m m' e f v = record {
  distinct = rw f v.distinct;
  joined = λ i c. rw (e, f) (v.joined i c);
  membership = λ i c. rw (e, f) (v.membership i c);
}

Distinct-join :
    (m : ChannelManager) (i c l j : String)
    → Distinct m.instance_channels
    → Distinct (join_channel m i c l j).0.instance_channels
unfolding join_channel
Distinct-join m i c l j h =
    ground (arith, current-leave_old m i i c, put-Distinct m.instance_channels i c h)

Distinct-leave :
    (m : ChannelManager) (i l : String)
    → Distinct m.instance_channels
    → Distinct (leave_current_channel m i l).0.instance_channels
unfolding leave_current_channel
Distinct-leave m i l h = ground (arith, remove-Distinct m.instance_channels i h)

join-IsConsistent :
    (m : ChannelManager) (i c l j : String)
    → IsConsistent m
    → IsConsistent (join_channel m i c l j).0
join-IsConsistent m i c l j v = record {
  distinct = Distinct-join m i c l j v.distinct;
  joined = λ k c' h. ground (
    arith,
    count-join m i c l j k c',
    current-join m i c l j k c',
    v.joined k c',
    eq_iff i k,
    eq_iff c c',
  );
  membership = λ k c' h. ground (
    arith,
    count-join m i c l j k c',
    current-join m i c l j k c',
    is_private-join m i c l j k c',
    v.membership k c',
    eq_iff i k,
    eq_iff c c',
  );
}

leave-IsConsistent :
    (m : ChannelManager) (i l : String)
    → IsConsistent m
    → IsConsistent (leave_current_channel m i l).0
leave-IsConsistent m i l v = record {
  distinct = Distinct-leave m i l v.distinct;
  joined = λ k c h.
      ground (arith, count-leave m i l k c, current-leave m i l k c, v.joined k c, eq_iff i k);
  membership = λ k c h. ground (
    arith,
    count-leave m i l k c,
    current-leave m i l k c,
    is_private-leave m i l k c,
    v.membership k c,
    eq_iff i k,
  );
}

create-IsConsistent :
    (m : ChannelManager) (c t : String) (dm : Option DisplayMetadata) (now : String)
    → IsConsistent m
    → IsConsistent (create_channel m c t dm now).0
create-IsConsistent m c t dm now v = record {
  distinct = rw (current-create m c t dm now c c) v.distinct;
  joined = λ i c' h.
      ground
        (arith, members-create m c t dm now c c', current-create m c t dm now c c', v.joined i c');
  membership = λ i c' h. ground (
    arith,
    members-create m c t dm now c c',
    current-create m c t dm now c c',
    is_private-create m c t dm now c c',
    absent_members m c',
    opt_eq_iff (current m i) c',
    v.joined i c',
    v.membership i c',
    eq_iff c c',
  );
}

delete-IsConsistent :
    (m : ChannelManager) (c now : String) → IsConsistent m → IsConsistent (delete_channel m c now).0
delete-IsConsistent m c now v = record {
  distinct = Distinct-delete m c now c v.distinct;
  joined = λ i c' h. ground (
    arith,
    members-delete m c now c',
    current-delete m c now i v.distinct,
    absent_members m c,
    opt_eq_iff (current m i) c,
    v.joined i c',
    eq_iff c c',
    eq_refl c,
  );
  membership = λ i c' h. ground (
    arith,
    members-delete m c now c',
    current-delete m c now i v.distinct,
    is_private-delete m c now c',
    absent_members m c,
    opt_eq_iff (current m i) c,
    opt_eq_iff (current m i) c',
    v.joined i c',
    v.membership i c',
    eq_iff c c',
    eq_refl c,
  );
}

destroy-IsConsistent :
    (m : ChannelManager) (c now : String)
    → IsConsistent m
    → IsConsistent (destroy_private_channel m c now).0
destroy-IsConsistent m c now v = record {
  distinct = Distinct-destroy m c now c v.distinct;
  joined = λ i c' h. ground (
    arith,
    members-destroy m c now c',
    current-destroy m c now i,
    count-contains i (get_channel_members m c),
    v.joined i c',
    v.joined i c,
    eq_iff c c',
    opt_eq_iff (current m i) c,
  );
  membership = λ i c' h. ground (
    arith,
    members-destroy m c now c',
    current-destroy m c now i,
    is_private-destroy m c now c',
    count-contains i (get_channel_members m c),
    opt_eq_iff (current m i) c,
    opt_eq_iff (current m i) c',
    v.joined i c',
    v.membership i c',
    eq_iff c c',
    eq_refl c,
  );
}

create_private-IsConsistent :
    (m : ChannelManager) (o : String) (c : Option String) (dm : Option DisplayMetadata)
    (uuid now : String)
    → IsConsistent m
    → IsConsistent (after_private m (create_private_channel m o c dm uuid now))
create_private-IsConsistent m o c dm uuid now v = record {
  distinct = rw (current-create_private m o c dm uuid now o o) v.distinct;
  joined = λ i c' h. ground (
    arith,
    current-create_private m o c dm uuid now i c',
    count-create_private m o c dm uuid now i c',
    absent_members m c',
    v.joined i c',
    eq_iff (assigned_id c uuid) c',
  );
  membership = λ i c' h. ground (
    arith,
    current-create_private m o c dm uuid now i c',
    count-create_private m o c dm uuid now i c',
    is_private-create_private m o c dm uuid now i c',
    v.membership i c',
  );
}

pub step-IsConsistent :
    (m : ChannelManager) (op : Operation) → IsConsistent m → IsConsistent (step m op)
unfolding step create_private_channel_invite consume_private_channel_invite broadcast_to_channel
    set_channel_context store_context clear_channel_context add_remote_private_channel_listener
    remove_remote_private_channel_listener subscribe_to_events unsubscribe_from_events
step-IsConsistent m (create c t dm now) v = create-IsConsistent m c t dm now v
step-IsConsistent m (delete c now) v = delete-IsConsistent m c now v
step-IsConsistent m (create_private o c dm uuid now) v =
    create_private-IsConsistent m o c dm uuid now v
step-IsConsistent m (join i c l j) v = join-IsConsistent m i c l j v
step-IsConsistent m (leave i l) v = leave-IsConsistent m i l v
step-IsConsistent m (destroy c now) v = destroy-IsConsistent m c now v
step-IsConsistent m op v = same-IsConsistent m (step m op) (ground arith) (ground arith) v

-- After any calls on a new manager, whatever they are and in whatever order: an instance's current
-- channel exists and lists the instance, and a channel that is not private lists an instance once
-- if it is the instance's current channel, and not at all otherwise.
pub run-IsConsistent : (ops : List Operation) → IsConsistent (run init ops)
unfolding get get_channel_members
run-IsConsistent ops =
    run_induction IsConsistent step-IsConsistent init ops
      (record { distinct = tt; joined = λ i c h. ground arith; membership = λ i c h. ground arith })
