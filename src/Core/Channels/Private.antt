-- ===== src/Core/Channels/Private.antt =====
-- core/channel_manager.py: private channels, their owner and their invites. A `ValueError` is
-- `none`, and leaves the state as it was; random identifiers are arguments.
use py_fdc3_desktop_agent.Base.{
  String, Bool, true, false, not, Option, none, some, List, [], ◌∷◌, ◌==◌, if◌then◌else◌, truthy,
  opt_eq, concat,
}
use py_fdc3_desktop_agent.Base.Lists.{is_empty}
use py_fdc3_desktop_agent.Base.Dict.{Dict, get, put, remove, has, modify}
use py_fdc3_desktop_agent.Core.Channels.State.{
  DisplayMetadata, ChannelInstance, Effect, ChannelManager,
}
use py_fdc3_desktop_agent.Core.Channels.Events.{emit_event}
use py_fdc3_desktop_agent.Core.Channels.Contexts.{dict_or_empty}
use py_fdc3_desktop_agent.Core.Channels.Membership.{get_channel, create_channel, add_member}

-- `channel_id or f"private:{uuid.uuid4()}"`
unfoldable pub assigned_id : Option String → String → String
assigned_id none uuid = concat "private:" uuid
assigned_id (some c) uuid = if truthy c then c else concat "private:" uuid

unfoldable pub create_private_channel :
    ChannelManager
    → String
    → Option String
    → Option DisplayMetadata
    → String
    → String
    → Option (ChannelManager × ChannelInstance × List Effect)
create_private_channel m owner channel_id display_metadata uuid now =
    let assigned = assigned_id channel_id uuid in
    if has m.channels assigned
    then none
    else (let (m', channel, effects) = create_channel m assigned "private" display_metadata now in
        some (
          record m' {
            channels = modify m'.channels assigned (add_member owner);
            private_channel_owners = put m'.private_channel_owners assigned owner;
            private_channel_participants =
                put m'.private_channel_participants assigned (owner ∷ []);
            private_channel_invites = remove m'.private_channel_invites assigned;
          },
          add_member owner channel,
          effects,
        ))

-- A channel that is there, and private.
abbrev pub private_of : Option ChannelInstance → Option ChannelInstance
private_of none = none
private_of (some ch) = if ch.type == "private" then some ch else none

unfoldable pub create_private_channel_invite :
    ChannelManager → String → Option String → String → Option (ChannelManager × String)
unfolding get_channel
create_private_channel_invite m channel_id instance_uuid token =
    elim (private_of (get_channel m channel_id)) [
      | none ↦ none
      | some ch ↦
          let invites = dict_or_empty (get m.private_channel_invites channel_id) in
          some (
            record m {
              private_channel_invites =
                  put m.private_channel_invites channel_id (put invites token instance_uuid);
            },
            token,
          )
    ]

-- `allowed_instance is not None and allowed_instance != instance_uuid`
abbrev pub refuses : Option String → String → Bool
refuses none i = false
refuses (some allowed) i = not (allowed == i)

-- `if not invites: self.private_channel_invites.pop(channel_id, None)`
abbrev pub store_invites :
    Dict (Dict (Option String)) → String → Dict (Option String) → Dict (Dict (Option String))
store_invites all channel_id rest =
    if is_empty rest then remove all channel_id else put all channel_id rest

unfoldable pub consume_private_channel_invite :
    ChannelManager → String → String → String → ChannelManager × Bool
unfolding get
consume_private_channel_invite m channel_id token i =
    let invites = dict_or_empty (get m.private_channel_invites channel_id) in
    elim (get invites token) [
      | none ↦ (m, false)
      | some allowed ↦ if refuses allowed i then (m, false) else (
        record m {
          private_channel_invites =
              store_invites m.private_channel_invites channel_id (remove invites token);
        },
        true,
      )
    ]

pub record PrivateChannelState : Type 0 where
  pub id : String
  pub owner : Option String
  pub members : List String
  pub invites : Dict (Option String)

unfoldable pub get_private_channel_state : ChannelManager → String → Option PrivateChannelState
unfolding get_channel
get_private_channel_state m channel_id = elim (private_of (get_channel m channel_id)) [
  | none ↦ none
  | some ch ↦ some (record {
    id = ch.id;
    owner = get m.private_channel_owners channel_id;
    members = ch.members;
    invites = dict_or_empty (get m.private_channel_invites channel_id);
  })
]

unfoldable pub get_private_channel_owner : ChannelManager → String → Option String
unfolding get
get_private_channel_owner m channel_id = get m.private_channel_owners channel_id

-- `for instance_uuid in list(channel.members)`: those whose current channel it is are dissociated.
unfoldable pub dissociate : Dict String → List String → String → Dict String
dissociate d [] channel_id = d
dissociate d (i ∷ rest) channel_id =
    dissociate (if opt_eq (get d i) channel_id then remove d i else d) rest channel_id

unfoldable pub destroy_private_channel :
    ChannelManager → String → String → ChannelManager × List Effect
unfolding get
destroy_private_channel m channel_id now = elim (get m.channels channel_id) [
  | none ↦ (m, [])
  | some channel ↦ (
    record m {
      channels = remove m.channels channel_id;
      private_channel_owners = remove m.private_channel_owners channel_id;
      private_channel_participants = remove m.private_channel_participants channel_id;
      private_channel_invites = remove m.private_channel_invites channel_id;
      channel_contexts = remove m.channel_contexts channel_id;
      remote_private_channel_listeners = remove m.remote_private_channel_listeners channel_id;
      instance_channels = dissociate m.instance_channels channel.members channel_id;
    },
    emit_event m "destroyed" channel_id none none false now,
  )
]
