-- ===== src/Core/Channels/Views.antt =====
-- core/channel_manager.py: how each method changes what can be seen of a channel: its members,
-- whether it is private, and the current channel of an instance. One equation for each.
use py_fdc3_desktop_agent.Base.{
  ◌+◌, ◌-◌, String, ◌≡◌, inl, inr, Bool, true, false, not, ◌&&◌, Option, none, some, List, [], ◌∷◌,
  arith, ◌==◌, eq_iff, if◌then◌else◌, is_some, opt_eq, Option-cases,
}
use mathlib.Core.Option
use py_fdc3_desktop_agent.Base.Lists.{count, not_contains-count, count-append, count-erase}
use py_fdc3_desktop_agent.Base.Dict.{get, has, get-put, get-remove, get-modify}
use py_fdc3_desktop_agent.Core.Channels.State.{DisplayMetadata, ChannelInstance, ChannelManager}
use py_fdc3_desktop_agent.Core.Channels.Membership.{
  create_channel, drop_member, add_member, leave_old, join_new, join_channel, leave_current_channel,
  get_channel_members,
}
use py_fdc3_desktop_agent.Core.Channels.Private.{assigned_id, create_private_channel}
use py_fdc3_desktop_agent.Core.Channels.Steps.{after_private}

unfoldable pub is_private : ChannelManager → String → Bool
is_private m c = elim (get m.channels c) [ none ↦ false | some ch ↦ ch.type == "private" ]

abbrev pub current : ChannelManager → String → Option String
current m i = get m.instance_channels i

abbrev get_or : Option String → String → String
get_or none d = d
get_or (some s) d = s

-- The members of an optional channel.
abbrev members_of : Option ChannelInstance → List String
members_of none = []
members_of (some ch) = ch.members

members_of_lem :
    (m : ChannelManager) (c : String) → get_channel_members m c ≡ members_of (get m.channels c)
unfolding get_channel_members
members_of_lem m c = ground arith

pub absent_members :
    (m : ChannelManager) (c : String) → has m.channels c ≡ false → get_channel_members m c ≡ []
unfolding has get_channel_members
absent_members m c h = ground arith

pub private_has :
    (m : ChannelManager) (c : String) → is_private m c ≡ true → has m.channels c ≡ true
unfolding has is_private
private_has m c h = ground arith

count-drop_member :
    (i k : String) (o : Option ChannelInstance)
    → count k (members_of (Option.map (drop_member i) o))
      ≡ (if i == k then count k (members_of o) - 1 else count k (members_of o))
unfolding drop_member
count-drop_member i k none = ground arith
count-drop_member i k (some ch) =
    ground (arith, count-erase i k ch.members, not_contains-count i ch.members, eq_iff i k)

count-add_member :
    (i k : String) (o : Option ChannelInstance)
    → count k (members_of (Option.map (add_member i) o))
      ≡ (if is_some o && i == k then count k (members_of o) + 1 else count k (members_of o))
unfolding add_member
count-add_member i k none = ground arith
count-add_member i k (some ch) = ground (arith, count-append k ch.members (i ∷ []))

module _ (m : ChannelManager) (i k c : String) where
  pub count-leave_old : count k (get_channel_members (leave_old m i).0 c) ≡ (
      if opt_eq (current m i) c && i == k
      then count k (get_channel_members m c) - 1
      else count k (get_channel_members m c))
  unfolding leave_old get_channel_members
  count-leave_old = elim (Option-cases (get m.instance_channels i)) [
    | inl e ↦ rw (e, leave_old)
    | inr (old, e) ↦
        rw (e, leave_old)
          (ground (
            arith,
            get-modify m.channels old c (drop_member i),
            count-drop_member i k (get m.channels c),
            eq_iff old c,
          ))
  ]

  pub has-leave_old : has (leave_old m i).0.channels c ≡ has m.channels c
  unfolding leave_old
  has-leave_old = ground (arith, get-modify m.channels (get_or (current m i) "") c (drop_member i))

  pub current-leave_old : (leave_old m i).0.instance_channels ≡ m.instance_channels
  unfolding leave_old
  current-leave_old = ground arith

  pub is_private-leave_old : is_private (leave_old m i).0 c ≡ is_private m c
  unfolding leave_old is_private drop_member
  is_private-leave_old =
      ground (arith, get-modify m.channels (get_or (current m i) "") c (drop_member i))

module _ (m : ChannelManager) (i k c c' : String) where
  count-join_new : count k (get_channel_members (join_new m i c) c') ≡ (
      if has m.channels c && c == c' && i == k
      then count k (get_channel_members m c') + 1
      else count k (get_channel_members m c'))
  unfolding join_new get_channel_members has
  count-join_new = ground (
    arith,
    get-modify m.channels c c' (add_member i),
    count-add_member i k (get m.channels c'),
    eq_iff c c',
  )

  is_private-join_new : is_private (join_new m i c) c' ≡ is_private m c'
  unfolding join_new is_private add_member
  is_private-join_new = ground (arith, get-modify m.channels c c' (add_member i))

  has-join_new : has (join_new m i c).channels c' ≡ has m.channels c'
  unfolding join_new has
  has-join_new = ground (arith, get-modify m.channels c c' (add_member i))

module _ (m : ChannelManager) (i c l j k c' : String) where
  -- If the channel `c` is there, joining it takes one entry of the instance out of the channel
  -- that was its current one, and then adds one entry to `c`; nothing else changes in the members of
  -- any channel. If `c` is not there no members change.
  pub count-join : count k (get_channel_members (join_channel m i c l j).0 c') ≡ (
      if has m.channels c && i == k
      then (if opt_eq (current m i) c'
          then count k (get_channel_members m c') - 1
          else count k (get_channel_members m c'))
        + (if c == c' then 1 else 0)
      else count k (get_channel_members m c'))
  unfolding join_channel
  count-join = ground (
    arith,
    count-join_new (leave_old m i).0 i k c c',
    has-leave_old m i k c,
    count-leave_old m i k c',
  )

  pub current-join :
      current (join_channel m i c l j).0 k
      ≡ (if has m.channels c && i == k then some c else current m k)
  unfolding join_channel join_new
  current-join = ground (arith, current-leave_old m i k c, get-put m.instance_channels i k c)

  pub is_private-join : is_private (join_channel m i c l j).0 c' ≡ is_private m c'
  unfolding join_channel
  is_private-join =
      ground (arith, is_private-join_new (leave_old m i).0 i k c c', is_private-leave_old m i k c')

  pub has-join : has (join_channel m i c l j).0.channels c' ≡ has m.channels c'
  unfolding join_channel
  has-join = ground (arith, has-join_new (leave_old m i).0 i k c c', has-leave_old m i k c')

module _ (m : ChannelManager) (i l k c : String) where
  pub count-leave : count k (get_channel_members (leave_current_channel m i l).0 c) ≡ (
      if opt_eq (current m i) c && i == k
      then count k (get_channel_members m c) - 1
      else count k (get_channel_members m c))
  unfolding leave_current_channel get_channel_members
  count-leave = elim (Option-cases (get m.instance_channels i)) [
    | inl e ↦ rw (e, leave_current_channel)
    | inr (old, e) ↦
        rw (e, leave_current_channel)
          (ground (
            arith,
            get-modify m.channels old c (drop_member i),
            count-drop_member i k (get m.channels c),
            eq_iff old c,
          ))
  ]

  pub current-leave :
      current (leave_current_channel m i l).0 k ≡ (if i == k then none else current m k)
  unfolding leave_current_channel
  current-leave = ground (arith, get-remove m.instance_channels i k, eq_iff i k)

  pub is_private-leave : is_private (leave_current_channel m i l).0 c ≡ is_private m c
  unfolding leave_current_channel is_private drop_member
  is_private-leave =
      ground (arith, get-modify m.channels (get_or (current m i) "") c (drop_member i))

module _ (m : ChannelManager) (c t : String) (dm : Option DisplayMetadata) (now k c' : String) where
  pub members-create :
      get_channel_members (create_channel m c t dm now).0 c' ≡ get_channel_members m c'
  unfolding create_channel get_channel_members
  members-create = ground (
    arith,
    get-put m.channels c c' (record { id = c; type = t; display_metadata = dm; members = [] }),
    eq_iff c c',
  )

  pub current-create : (create_channel m c t dm now).0.instance_channels ≡ m.instance_channels
  unfolding create_channel
  current-create = ground arith

  pub is_private-create :
      is_private (create_channel m c t dm now).0 c'
      ≡ (if not (has m.channels c) && c == c' then t == "private" else is_private m c')
  unfolding create_channel is_private has
  is_private-create = ground (
    arith,
    get-put m.channels c c' (record { id = c; type = t; display_metadata = dm; members = [] }),
    eq_iff c c',
  )

module _ (m : ChannelManager) (o : String) (c : Option String) (dm : Option DisplayMetadata)
    (uuid now k c' : String) where
  abbrev made : String → ChannelInstance
  made a = record { id = a; type = "private"; display_metadata = dm; members = o ∷ [] }

  pub channels-create_private :
      get (after_private m (create_private_channel m o c dm uuid now)).channels c' ≡ (
        if not (has m.channels (assigned_id c uuid)) && assigned_id c uuid == c'
        then some (made (assigned_id c uuid))
        else get m.channels c')
  unfolding create_private_channel has add_member create_channel
  channels-create_private = elim (Option-cases (get m.channels (assigned_id c uuid))) [
    | inl e ↦
        rw (e, create_private_channel, has, create_channel)
          (rw
            (
              get-modify _ (assigned_id c uuid) c' (add_member o),
              get-put m.channels (assigned_id c uuid) c',
            )
            (ground arith))
    | inr (x, e) ↦ rw (e, create_private_channel, has, create_channel)
  ]

  pub count-create_private :
      count k (get_channel_members (after_private m (create_private_channel m o c dm uuid now)) c')
      ≡ (if not (has m.channels (assigned_id c uuid)) && assigned_id c uuid == c'
          then (if o == k then 1 else 0)
          else count k (get_channel_members m c'))
  unfolding get_channel_members
  count-create_private = ground (arith, channels-create_private)

  pub current-create_private :
      (after_private m (create_private_channel m o c dm uuid now)).instance_channels
      ≡ m.instance_channels
  unfolding create_private_channel create_channel
  current-create_private = ground arith

  pub is_private-create_private :
      is_private (after_private m (create_private_channel m o c dm uuid now)) c' ≡ (
        if not (has m.channels (assigned_id c uuid)) && assigned_id c uuid == c'
        then true
        else is_private m c')
  unfolding is_private
  is_private-create_private = ground (arith, channels-create_private)
