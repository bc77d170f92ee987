-- ===== src/Core/Channels/Removal.antt =====
-- core/channel_manager.py: what is left after `delete_channel` and `destroy_private_channel`.
use py_fdc3_desktop_agent.Base.{
  String, ◌≡◌, ◌≢◌, true, Option, none, some, [], arith, eq_iff, eq_refl, opt_eq, opt_eq_iff,
}
use py_fdc3_desktop_agent.Base.Lists.{count-contains}
use py_fdc3_desktop_agent.Base.Dict.{get, has, get-remove}
use py_fdc3_desktop_agent.Core.Channels.State.{ChannelManager}
use py_fdc3_desktop_agent.Core.Channels.Contexts.{get_channel_context}
use py_fdc3_desktop_agent.Core.Channels.Membership.{
  get_channel, delete_channel, get_channel_members,
}
use py_fdc3_desktop_agent.Core.Channels.Private.{get_private_channel_owner, destroy_private_channel}
use py_fdc3_desktop_agent.Core.Channels.Remote.{get_remote_private_channel_listeners}
use py_fdc3_desktop_agent.Core.Channels.Views.{current}
use py_fdc3_desktop_agent.Core.Channels.Teardown.{members-delete, current-delete, current-destroy}
use py_fdc3_desktop_agent.Core.Channels.Invariant.{IsConsistent}

-- Nothing in the state speaks of the channel.
pub record IsForgotten (m : ChannelManager) (c : String) : Type 0 where
  pub channel : get_channel m c ≡ none
  pub members : get_channel_members m c ≡ []
  pub nobody : (i : String) → current m i ≢ some c
  pub owner : get_private_channel_owner m c ≡ none
  pub participants : get m.private_channel_participants c ≡ none
  pub invites : get m.private_channel_invites c ≡ none
  pub context : (t : Option String) → get_channel_context m c t ≡ none
  pub listeners : get_remote_private_channel_listeners m c ≡ []

-- What can be asked of the channel `c` and of the current channels has one answer in both states.
pub record SameAt (m m' : ChannelManager) (c : String) : Type 0 where
  pub channel : get_channel m c ≡ get_channel m' c
  pub occupants : (i : String) → current m i ≡ current m' i
  pub owner : get_private_channel_owner m c ≡ get_private_channel_owner m' c
  pub participants : get m.private_channel_participants c ≡ get m'.private_channel_participants c
  pub invites : get m.private_channel_invites c ≡ get m'.private_channel_invites c
  pub context : (t : Option String) → get_channel_context m c t ≡ get_channel_context m' c t
  pub listeners :
      get_remote_private_channel_listeners m c ≡ get_remote_private_channel_listeners m' c

module _ (m : ChannelManager) (c now : String) where
  -- Deleting a channel that is there returns `true` and forgets the channel: it has no members, is
  -- nobody's current channel, and has no owner, invites, contexts or remote listeners.
  pub delete-IsForgotten :
      IsConsistent m
      → has m.channels c ≡ true
      → ((delete_channel m c now).1 ≡ true) × IsForgotten (delete_channel m c now).0 c
  unfolding delete_channel get_channel get_private_channel_owner get_channel_context
      get_remote_private_channel_listeners
  delete-IsForgotten v h = (
    rw h,
    record {
      channel = rw (h, get-remove, eq_refl);
      members = rw (members-delete m c now c, eq_refl);
      nobody = λ i e.
          ground (
            arith,
            current-delete m c now i v.distinct,
            eq_refl c,
            h,
            opt_eq_iff (current m i) c,
            e,
          );
      owner = rw (h, get-remove, eq_refl);
      participants = rw (h, get-remove, eq_refl);
      invites = rw (h, get-remove, eq_refl);
      context = λ t. rw (h, get-remove, eq_refl);
      listeners = ground (arith, get-remove m.remote_private_channel_listeners c c, eq_refl c);
    },
  )

  -- Of a consistent manager, for a channel that is there, `delete_channel` and
  -- `destroy_private_channel` leave states in which every question about any channel, and about
  -- the current channel of any instance, has the same answer.
  pub delete-destroy :
      IsConsistent m
      → has m.channels c ≡ true
      → (c' : String) → SameAt (delete_channel m c now).0 (destroy_private_channel m c now).0 c'
  unfolding delete_channel destroy_private_channel get_channel get_private_channel_owner
      get_channel_context get_remote_private_channel_listeners has
  delete-destroy v h c' = record {
    channel = ground arith;
    occupants = λ i. ground (
      arith,
      current-delete m c now i v.distinct,
      current-destroy m c now i,
      opt_eq_iff (current m i) c,
      v.joined i c,
      count-contains i (get_channel_members m c),
    );
    owner = ground arith;
    participants = ground arith;
    invites = ground arith;
    context = λ t. ground arith;
    listeners = ground arith;
  }

  -- Deleting a channel leaves every other channel, its members and its contexts as they were, and
  -- the instances that are on the other channel are the same as before.
  pub delete_elsewhere :
      IsConsistent m
      → (c' : String) → c ≢ c'
      → (get_channel (delete_channel m c now).0 c' ≡ get_channel m c')
        × (get_channel_members (delete_channel m c now).0 c' ≡ get_channel_members m c')
        × ((t : Option String)
            → get_channel_context (delete_channel m c now).0 c' t ≡ get_channel_context m c' t)
        × ((i : String)
            → opt_eq (current (delete_channel m c now).0 i) c' ≡ opt_eq (current m i) c')
  unfolding delete_channel get_channel get_channel_context
  delete_elsewhere v c' n = (
    ground (arith, get-remove m.channels c c', eq_iff c c'),
    ground (arith, members-delete m c now c', eq_iff c c'),
    (λ t. ground (arith, get-remove m.channel_contexts c c', eq_iff c c')),
    λ i.
        ground
          (arith, current-delete m c now i v.distinct, eq_iff c c', opt_eq_iff (current m i) c),
  )
