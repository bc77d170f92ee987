-- ===== src/Core/Channels/Guarding.antt =====
-- core/channel_manager.py: the records about private channels under the calls that make and
-- delete channels.
use py_fdc3_desktop_agent.Base.{
  String, ◌≡◌, true, false, Option, none, some, [], ◌∷◌, arith, eq_iff, is_some,
}
use py_fdc3_desktop_agent.Base.Lists.{is_empty}
use py_fdc3_desktop_agent.Base.Dict.{get, has, get-put, get-remove}
use py_fdc3_desktop_agent.Core.Channels.State.{DisplayMetadata, ChannelManager}
use py_fdc3_desktop_agent.Core.Channels.Contexts.{dict_or_empty}
use py_fdc3_desktop_agent.Core.Channels.Membership.{create_channel, delete_channel}
use py_fdc3_desktop_agent.Core.Channels.Private.{
  assigned_id, create_private_channel, destroy_private_channel,
}
use py_fdc3_desktop_agent.Core.Channels.Views.{
  is_private, current, private_has, is_private-create, is_private-create_private,
}
use py_fdc3_desktop_agent.Core.Channels.Teardown.{is_private-delete, is_private-destroy}
use py_fdc3_desktop_agent.Core.Channels.Steps.{after_private}

-- Only a private channel that is there has an owner, participants or invites on record, and a
-- channel's record of invites is never empty.
pub record IsGuarded (m : ChannelManager) : Type 0 where
  pub owned : (c : String) → is_some (get m.private_channel_owners c) ≡ true → is_private m c ≡ true
  pub participating :
      (c : String) → is_some (get m.private_channel_participants c) ≡ true → is_private m c ≡ true
  pub invited :
      (c : String)
      → is_some (get m.private_channel_invites c) ≡ true
      → (is_private m c ≡ true)
        × (is_empty (dict_or_empty (get m.private_channel_invites c)) ≡ false)

abbrev pub current_or_empty : ChannelManager → String → String
current_or_empty m i = elim (current m i) [ none ↦ "" | some c ↦ c ]

pub same-IsGuarded :
    (m m' : ChannelManager)
    → ((c : String) → is_private m c ≡ true → is_private m' c ≡ true)
    → m'.private_channel_owners ≡ m.private_channel_owners
    → m'.private_channel_participants ≡ m.private_channel_participants
    → m'.private_channel_invites ≡ m.private_channel_invites
    → IsGuarded m
    → IsGuarded m'
unfolding is_private
same-IsGuarded m m' p e f g v = record {
  owned = λ c. rw e (λ h. p c (v.owned c h));
  participating = λ c. rw f (λ h. p c (v.participating c h));
  invited = λ c. rw g (λ h. (p c (v.invited c h).0, (v.invited c h).1));
}

pub same-private :
    (m m' : ChannelManager) (c : String)
    → m'.channels ≡ m.channels
    → is_private m c ≡ true
    → is_private m' c ≡ true
unfolding is_private
same-private m m' c e h = rw e h

pub create-IsGuarded :
    (m : ChannelManager) (c t : String) (dm : Option DisplayMetadata) (now : String)
    → IsGuarded m
    → IsGuarded (create_channel m c t dm now).0
unfolding create_channel
create-IsGuarded m c t dm now v =
    same-IsGuarded m (create_channel m c t dm now).0
      (λ c' h. ground (arith, is_private-create m c t dm now c c', private_has m c', eq_iff c c'))
      (ground arith) (ground arith) (ground arith) v

pub delete-IsGuarded :
    (m : ChannelManager) (c now : String) → IsGuarded m → IsGuarded (delete_channel m c now).0
unfolding delete_channel
delete-IsGuarded m c now v = record {
  owned = λ c'. ground (
    arith,
    is_private-delete m c now c',
    get-remove m.private_channel_owners c c',
    v.owned c',
    private_has m c',
    eq_iff c c',
  );
  participating = λ c'. ground (
    arith,
    is_private-delete m c now c',
    get-remove m.private_channel_participants c c',
    v.participating c',
    private_has m c',
    eq_iff c c',
  );
  invited = λ c' h. ground (
    arith,
    is_private-delete m c now c',
    get-remove m.private_channel_invites c c',
    v.invited c',
    private_has m c',
    eq_iff c c',
    h,
  );
}

pub destroy-IsGuarded :
    (m : ChannelManager) (c now : String)
    → IsGuarded m
    → IsGuarded (destroy_private_channel m c now).0
unfolding destroy_private_channel has
destroy-IsGuarded m c now v = record {
  owned = λ c'. ground (
    arith,
    is_private-destroy m c now c',
    get-remove m.private_channel_owners c c',
    v.owned c',
    private_has m c',
    eq_iff c c',
  );
  participating = λ c'. ground (
    arith,
    is_private-destroy m c now c',
    get-remove m.private_channel_participants c c',
    v.participating c',
    private_has m c',
    eq_iff c c',
  );
  invited = λ c' h. ground (
    arith,
    is_private-destroy m c now c',
    get-remove m.private_channel_invites c c',
    v.invited c',
    private_has m c',
    eq_iff c c',
    h,
  );
}

pub create_private-IsGuarded :
    (m : ChannelManager) (o : String) (c : Option String) (dm : Option DisplayMetadata)
    (uuid now : String)
    → IsGuarded m
    → IsGuarded (after_private m (create_private_channel m o c dm uuid now))
unfolding create_private_channel create_channel has
create_private-IsGuarded m o c dm uuid now v = record {
  owned = λ c'. ground (
    arith,
    is_private-create_private m o c dm uuid now o c',
    get-put m.private_channel_owners (assigned_id c uuid) c' o,
    v.owned c',
  );
  participating = λ c'. ground (
    arith,
    is_private-create_private m o c dm uuid now o c',
    get-put m.private_channel_participants (assigned_id c uuid) c' (o ∷ []),
    v.participating c',
  );
  invited = λ c' h. ground (
    arith,
    is_private-create_private m o c dm uuid now o c',
    get-remove m.private_channel_invites (assigned_id c uuid) c',
    v.invited c',
    h,
  );
}
