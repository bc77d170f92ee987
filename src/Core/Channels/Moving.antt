-- ===== src/Core/Channels/Moving.antt =====
-- core/channel_manager.py: what `join_channel` and `leave_current_channel` tell the subscribers, and
-- the owner of a private channel who joins it.
use py_fdc3_desktop_agent.Base.{
  String, ◌≡◌, inl, inr, true, false, Option, none, some, List, [], ◌++◌, arith, eq_refl,
  if◌then◌else◌, Option-cases,
}
use py_fdc3_desktop_agent.Base.Lists.{count}
use py_fdc3_desktop_agent.Base.Dict.{has}
use py_fdc3_desktop_agent.Core.Channels.State.{DisplayMetadata, Effect, ChannelManager}
use py_fdc3_desktop_agent.Core.Channels.Events.{emit_event}
use py_fdc3_desktop_agent.Core.Channels.Membership.{
  leave_old, join_channel, leave_current_channel, get_channel_members,
}
use py_fdc3_desktop_agent.Core.Channels.Private.{assigned_id, create_private_channel}
use py_fdc3_desktop_agent.Core.Channels.Views.{
  current, absent_members, count-join, current-join, count-leave, current-leave,
  channels-create_private, count-create_private, current-create_private,
}
use py_fdc3_desktop_agent.Core.Channels.Steps.{after_private}
use py_fdc3_desktop_agent.Core.Channels.Invariant.{IsConsistent}

-- In a consistent manager a current channel exists.
current-has :
    (m : ChannelManager) (i c : String)
    → IsConsistent m
    → current m i ≡ some c
    → has m.channels c ≡ true
current-has m i c v e = ground (arith, absent_members m c, v.joined i c e)

abbrev pub left_event : ChannelManager → Option String → String → String → List Effect
left_event m none i now = []
left_event m (some old) i now = emit_event m "left" old (some i) none false now

-- In a consistent manager, joining a channel that is there tells the subscribers first that the
-- instance left its current channel, if it has one, and then that it joined; joining a channel that
-- is not there tells nothing.
pub join_effects :
    (m : ChannelManager) (i c left_at joined_at : String)
    → IsConsistent m
    → (join_channel m i c left_at joined_at).1 ≡ (
        if has m.channels c
        then left_event m (current m i) i left_at
          ++ emit_event m "joined" c (some i) none false joined_at
        else [])
unfolding join_channel
join_effects m i c l j v = elim (Option-cases (current m i)) [
  | inl e ↦ rw (e, join_channel, leave_old) (ground arith)
  | inr (old, e) ↦ rw (e, join_channel, leave_old, current-has m i old v e) (ground arith)
]

-- In a consistent manager, leaving tells the subscribers that the instance left its current
-- channel, once, and tells nothing if it has none.
pub leave_effects :
    (m : ChannelManager) (i now : String)
    → IsConsistent m
    → (leave_current_channel m i now).1 ≡ left_event m (current m i) i now
unfolding leave_current_channel
leave_effects m i now v = elim (Option-cases (current m i)) [
  | inl e ↦ rw (e, leave_current_channel)
  | inr (old, e) ↦ rw (e, leave_current_channel, current-has m i old v e)
]

module _ (m : ChannelManager) (o : String) (dm : Option DisplayMetadata)
    (uuid now left_at joined_at later : String) where
  abbrev pub id : String
  id = assigned_id none uuid

  abbrev pub made : ChannelManager
  made = after_private m (create_private_channel m o none dm uuid now)

  abbrev pub entered : ChannelManager
  entered = (join_channel made o id left_at joined_at).0

  has-made : has m.channels id ≡ false → has made.channels id ≡ true
  unfolding has
  has-made h = ground (arith, channels-create_private m o none dm uuid now o id, eq_refl id)

  -- An instance with no current channel that creates a private channel and then joins it stands
  -- twice in the channel's members; and after it has left, it still stands there once, though it
  -- has no current channel.
  pub owner_listed_twice :
      has m.channels id ≡ false
      → current m o ≡ none
      → (count o (get_channel_members entered id) ≡ 2)
        × (count o (get_channel_members (leave_current_channel entered o later).0 id) ≡ 1)
        × (current (leave_current_channel entered o later).0 o ≡ none)
  owner_listed_twice h e = (
    ground (
      arith,
      has-made h,
      count-join made o id left_at joined_at o id,
      count-create_private m o none dm uuid now o id,
      current-create_private m o none dm uuid now o id,
      eq_refl o,
      eq_refl id,
    ),
    ground (
      arith,
      has-made h,
      count-leave entered o later o id,
      count-join made o id left_at joined_at o id,
      current-join made o id left_at joined_at o id,
      count-create_private m o none dm uuid now o id,
      current-create_private m o none dm uuid now o id,
      eq_refl o,
      eq_refl id,
    ),
    ground (arith, current-leave entered o later o id, eq_refl o),
  )
