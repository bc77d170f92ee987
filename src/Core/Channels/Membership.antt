-- ===== src/Core/Channels/Membership.antt =====
-- core/channel_manager.py: creating, deleting, joining, leaving and reading channels. A method
-- returns the new state, its result and its effects; the timestamps are those of its emissions.
use py_fdc3_desktop_agent.Base.{
  ℕ, String, Bool, true, false, Option, none, some, List, [], ◌∷◌, ◌++◌, ◌==◌, if◌then◌else◌,
  truthy,
}
use py_fdc3_desktop_agent.Base.Lists.{length, contains, erase}
use py_fdc3_desktop_agent.Base.Dict.{Dict, get, put, remove, has, modify, values}
use py_fdc3_desktop_agent.Base.StrSet.{add, discard}
use py_fdc3_desktop_agent.Core.Channels.State.{
  DisplayMetadata, Context, ChannelInstance, Effect, ChannelManager,
}
use py_fdc3_desktop_agent.Core.Channels.Events.{emit_event}
use py_fdc3_desktop_agent.Core.Channels.Contexts.{set_channel_context}

unfoldable pub get_channel : ChannelManager → String → Option ChannelInstance
unfolding get
get_channel m channel_id = get m.channels channel_id

unfoldable pub create_channel :
    ChannelManager
    → String
    → String
    → Option DisplayMetadata
    → String
    → ChannelManager × ChannelInstance × List Effect
unfolding get put
create_channel m channel_id channel_type display_metadata now =
    let channel : ChannelInstance = record {
      id = channel_id;
      type = channel_type;
      display_metadata = display_metadata;
      members = [];
    } in
    elim (get m.channels channel_id) [
      | some existing ↦ (m, existing, [])
      | none ↦ (
        record m { channels = put m.channels channel_id channel },
        channel,
        emit_event m "created" channel_id none none false now,
      )
    ]

-- `for inst_uuid in …: del self.instance_channels[inst_uuid]`
unfoldable pub remove_all {ℓ} : {V : Type ℓ} → Dict V → List String → Dict V
remove_all d [] = d
remove_all d (k ∷ ks) = remove_all (remove d k) ks

-- the keys of the instances whose current channel is `channel_id`
unfoldable pub instances_on : Dict String → String → List String
instances_on [] channel_id = []
instances_on ((inst_uuid, ch_id) ∷ rest) channel_id =
    if ch_id == channel_id
    then inst_uuid ∷ instances_on rest channel_id
    else instances_on rest channel_id

unfoldable pub delete_channel :
    ChannelManager → String → String → ChannelManager × Bool × List Effect
unfolding has
delete_channel m channel_id now =
    if has m.channels channel_id
    then (
      record m {
        channels = remove m.channels channel_id;
        channel_contexts = remove m.channel_contexts channel_id;
        instance_channels =
            remove_all m.instance_channels (instances_on m.instance_channels channel_id);
        private_channel_owners = remove m.private_channel_owners channel_id;
        private_channel_participants = remove m.private_channel_participants channel_id;
        private_channel_invites = remove m.private_channel_invites channel_id;
        remote_private_channel_listeners = remove m.remote_private_channel_listeners channel_id;
      },
      true,
      emit_event m "deleted" channel_id none none false now,
    )
    else (m, false, [])

-- `if instance_uuid in members: members.remove(instance_uuid)`
unfoldable pub drop_member : String → ChannelInstance → ChannelInstance
drop_member i ch = record ch {
  members = if contains i ch.members then erase i ch.members else ch.members;
}

-- `members.append(instance_uuid)`
unfoldable pub add_member : String → ChannelInstance → ChannelInstance
add_member i ch = record ch { members = ch.members ++ i ∷ [] }

abbrev pub set_or_empty : Option (List String) → List String
set_or_empty none = []
set_or_empty (some s) = s

-- "Leave current channel", with the channel that was left.
unfoldable pub leave_old : ChannelManager → String → ChannelManager × Option String
unfolding has
leave_old m i = elim (get m.instance_channels i) [
  | none ↦ (m, none)
  | some old ↦
      if has m.channels old
      then (record m { channels = modify m.channels old (drop_member i) }, some old)
      else (m, none)
]

-- "Join new channel".
unfoldable pub join_new : ChannelManager → String → String → ChannelManager
join_new m i channel_id = record m {
  channels = modify m.channels channel_id (add_member i);
  instance_channels = put m.instance_channels i channel_id;
  private_channel_participants = elim (get m.channels channel_id) [
    | none ↦ m.private_channel_participants
    | some ch ↦
        if ch.type == "private"
        then put m.private_channel_participants channel_id
            (add (set_or_empty (get m.private_channel_participants channel_id)) i)
        else m.private_channel_participants
  ];
}

abbrev left_effects : ChannelManager → Option String → String → String → List Effect
left_effects m none i now = []
left_effects m (some old) i now = emit_event m "left" old (some i) none false now

unfoldable pub join_channel :
    ChannelManager → String → String → String → String → ChannelManager × List Effect
unfolding leave_old join_new has
join_channel m i channel_id left_at joined_at =
    if has m.channels channel_id
    then (let (m', left) = leave_old m i in
        (
          join_new m' i channel_id,
          left_effects m left i left_at
              ++ emit_event m "joined" channel_id (some i) none false joined_at,
        ))
    else (m, [])

-- `participants.discard(instance_uuid)`, of a private channel whose set is there and not empty
unfoldable pub drop_participant :
    Dict (List String) → Option ChannelInstance → String → String → Dict (List String)
drop_participant ps none channel_id i = ps
drop_participant ps (some ch) channel_id i =
    if ch.type == "private" then modify ps channel_id (λ s. discard s i) else ps

unfoldable pub leave_current_channel :
    ChannelManager → String → String → ChannelManager × List Effect
unfolding has drop_participant
leave_current_channel m i now = elim (get m.instance_channels i) [
  | none ↦ (m, [])
  | some channel_id ↦
      if has m.channels channel_id
      then (
        record m {
          channels = modify m.channels channel_id (drop_member i);
          private_channel_participants =
              drop_participant m.private_channel_participants (get m.channels channel_id) channel_id
                i;
          instance_channels = remove m.instance_channels i;
        },
        emit_event m "left" channel_id (some i) none false now,
      )
      else (record m { instance_channels = remove m.instance_channels i }, [])
]

unfoldable pub get_current_channel : ChannelManager → String → Option ChannelInstance
unfolding get
get_current_channel m i = elim (get m.instance_channels i) [
  | none ↦ none
  | some channel_id ↦ if truthy channel_id then get m.channels channel_id else none
]

unfoldable pub get_channel_members : ChannelManager → String → List String
unfolding get
get_channel_members m channel_id = elim (get m.channels channel_id) [
  | none ↦ []
  | some ch ↦ ch.members
]

unfoldable pub list_channels : ChannelManager → List ChannelInstance
unfolding values
list_channels m = values m.channels

unfoldable pub broadcast_to_channel :
    ChannelManager → String → Context → String → String → ChannelManager × List Effect
unfolding has
broadcast_to_channel m channel_id context source now =
    if has m.channels channel_id
    then (
      set_channel_context m channel_id context,
      emit_event m "broadcast" channel_id (some source) (some context) false now,
    )
    else (m, [])

pub record ChannelInfo : Type 0 where
  pub id : String
  pub type : String
  pub display_name : Option String
  pub color : Option String
  pub member_count : ℕ

unfoldable pub get_channel_info : ChannelManager → String → Option ChannelInfo
unfolding get_channel
get_channel_info m channel_id = elim (get_channel m channel_id) [
  | none ↦ none
  | some ch ↦ some (record {
    id = ch.id;
    type = ch.type;
    display_name = elim ch.display_metadata [ none ↦ none | some d ↦ d.name ];
    color = elim ch.display_metadata [ none ↦ none | some d ↦ d.color ];
    member_count = length ch.members;
  })
]
