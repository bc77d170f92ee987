-- ===== src/Core/Channels/Guarded.antt =====
-- core/channel_manager.py: the records of owners, participants and invites under all calls.
use py_fdc3_desktop_agent.Base.{
  String, ◌≡◌, refl, true, false, ◌&&◌, Option, List, [], ◌∷◌, arith, ◌==◌, eq_iff, if◌then◌else◌,
  is_some,
}
use py_fdc3_desktop_agent.Base.Lists.{is_empty}
use py_fdc3_desktop_agent.Base.Dict.{Dict, get, put, remove, has, get-put, get-remove, get-modify}
use py_fdc3_desktop_agent.Base.StrSet.{add, discard}
use py_fdc3_desktop_agent.Core.Channels.State.{ChannelManager, init}
use py_fdc3_desktop_agent.Core.Channels.Events.{subscribe_to_events, unsubscribe_from_events}
use py_fdc3_desktop_agent.Core.Channels.Contexts.{
  dict_or_empty, store_context, set_channel_context, clear_channel_context,
}
use py_fdc3_desktop_agent.Core.Channels.Membership.{
  get_channel, set_or_empty, leave_old, join_new, join_channel, drop_participant,
  leave_current_channel, broadcast_to_channel,
}
use py_fdc3_desktop_agent.Core.Channels.Private.{
  create_private_channel_invite, consume_private_channel_invite,
}
use py_fdc3_desktop_agent.Core.Channels.Remote.{
  add_remote_private_channel_listener, remove_remote_private_channel_listener,
}
use py_fdc3_desktop_agent.Core.Channels.Views.{
  is_private, is_private-join, is_private-leave_old, is_private-leave,
}
use py_fdc3_desktop_agent.Core.Channels.Steps.{
  Operation, create, delete, create_private, invite, consume, join, leave, destroy, step, run,
  run_induction, after_invite,
}
use py_fdc3_desktop_agent.Core.Channels.Guarding.{
  IsGuarded, current_or_empty, same-IsGuarded, same-private, create-IsGuarded, delete-IsGuarded,
  destroy-IsGuarded, create_private-IsGuarded,
}

participants-join_new :
    (m : ChannelManager) (i c c' : String)
    → is_some (get (join_new m i c).private_channel_participants c') ≡ (
        if is_private m c && c == c' then true else is_some (get m.private_channel_participants c'))
unfolding join_new is_private
participants-join_new m i c c' = ground (
  arith,
  get-put m.private_channel_participants c c'
      (add (set_or_empty (get m.private_channel_participants c)) i),
  eq_iff c c',
)

participants-leave_old :
    (m : ChannelManager) (i : String)
    → (leave_old m i).0.private_channel_participants ≡ m.private_channel_participants
unfolding leave_old
participants-leave_old m i = ground arith

join-IsGuarded :
    (m : ChannelManager) (i c l j : String) → IsGuarded m → IsGuarded (join_channel m i c l j).0
join-IsGuarded m i c l j v = record {
  owned = λ c'.
      unfold join_channel join_new leave_old in
      ground (arith, is_private-join m i c l j c c', v.owned c');
  participating = λ c'.
      unfold join_channel in
      ground (
        arith,
        is_private-join m i c l j c c',
        v.participating c',
        participants-leave_old m i,
        participants-join_new (leave_old m i).0 i c c',
        is_private-leave_old m i c c,
        eq_iff c c',
      );
  invited = λ c' h.
      unfold join_channel join_new leave_old in
      ground (arith, is_private-join m i c l j c c', v.invited c', h);
}

leave-IsGuarded :
    (m : ChannelManager) (i l : String) → IsGuarded m → IsGuarded (leave_current_channel m i l).0
unfolding leave_current_channel has drop_participant
leave-IsGuarded m i l v = record {
  owned = λ c'. ground (arith, is_private-leave m i l c' c', v.owned c');
  participating = λ c'. ground (
    arith,
    is_private-leave m i l c' c',
    v.participating c',
    get-modify m.private_channel_participants (current_or_empty m i) c' (λ s. discard s i),
  );
  invited = λ c' h. ground (arith, is_private-leave m i l c' c', v.invited c', h);
}

put-nonempty :
    (d : Dict (Option String)) (k : String) (v : Option String) → is_empty (put d k v) ≡ false
unfolding put
put-nonempty [] k v = refl
put-nonempty ((j, w) ∷ d) k v = ground arith

invite-IsGuarded :
    (m : ChannelManager) (c : String) (i : Option String) (token : String)
    → IsGuarded m
    → IsGuarded (after_invite m (create_private_channel_invite m c i token))
unfolding create_private_channel_invite get_channel is_private
invite-IsGuarded m c i token v = record {
  owned = λ c'. ground (arith, v.owned c');
  participating = λ c'. ground (arith, v.participating c');
  invited = λ c' h. ground (
    arith,
    get-put m.private_channel_invites c c'
        (put (dict_or_empty (get m.private_channel_invites c)) token i),
    put-nonempty (dict_or_empty (get m.private_channel_invites c)) token i,
    v.invited c',
    eq_iff c c',
    h,
  );
}

consume-IsGuarded :
    (m : ChannelManager) (c token i : String)
    → IsGuarded m
    → IsGuarded (consume_private_channel_invite m c token i).0
unfolding consume_private_channel_invite is_private
consume-IsGuarded m c token i v = record {
  owned = λ c'. ground (arith, v.owned c');
  participating = λ c'. ground (arith, v.participating c');
  invited = λ c' h. ground (
    arith,
    get-put m.private_channel_invites c c'
        (remove (dict_or_empty (get m.private_channel_invites c)) token),
    get-remove m.private_channel_invites c c',
    v.invited c',
    v.invited c,
    eq_iff c c',
    h,
  );
}

pub step-IsGuarded : (m : ChannelManager) (op : Operation) → IsGuarded m → IsGuarded (step m op)
unfolding step broadcast_to_channel set_channel_context store_context clear_channel_context
    add_remote_private_channel_listener remove_remote_private_channel_listener subscribe_to_events
    unsubscribe_from_events
step-IsGuarded m (create c t dm now) v = create-IsGuarded m c t dm now v
step-IsGuarded m (delete c now) v = delete-IsGuarded m c now v
step-IsGuarded m (create_private o c dm uuid now) v = create_private-IsGuarded m o c dm uuid now v
step-IsGuarded m (invite c i token) v = invite-IsGuarded m c i token v
step-IsGuarded m (consume c token i) v = consume-IsGuarded m c token i v
step-IsGuarded m (join i c l j) v = join-IsGuarded m i c l j v
step-IsGuarded m (leave i l) v = leave-IsGuarded m i l v
step-IsGuarded m (destroy c now) v = destroy-IsGuarded m c now v
step-IsGuarded m op v =
    same-IsGuarded m (step m op) (λ c. same-private m (step m op) c (ground arith)) (ground arith)
      (ground arith) (ground arith) v

-- After any calls on a new manager only a private channel that is there has an owner, participants
-- or invites on record, and a channel's record of invites is never empty.
pub run-IsGuarded : (ops : List Operation) → IsGuarded (run init ops)
unfolding get
run-IsGuarded ops =
    run_induction IsGuarded step-IsGuarded init ops
      (record { owned = λ c h. cc; participating = λ c h. cc; invited = λ c h. (cc, cc) })
