-- ===== src/Core/Channels/State.antt =====
-- The state of `ChannelManager` (core/channel_manager.py) with the types of core/channel_types.py.
-- Every method runs under the manager's re-entrant lock, so a method is one step on this state.
use py_fdc3_desktop_agent.Base.{ℕ, String, Bool, false, not, ◌||◌, Option, List, [], is_some}
use py_fdc3_desktop_agent.Base.Lists.{is_empty}
use py_fdc3_desktop_agent.Base.Dict.{Dict}

pub record DisplayMetadata : Type 0 where
  pub name : Option String
  pub color : Option String
  pub glyph : Option String

-- A context is a `TypedDict`: its `type`, which may be absent, and the other entries.
pub record Context : Type 0 where
  pub type : Option String
  pub entries : Dict String

pub record ChannelInstance : Type 0 where
  pub id : String
  pub type : String
  pub display_metadata : Option DisplayMetadata
  pub members : List String

-- `json.dumps(context)` is carried as the context that it encodes.
pub record ChannelEvent : Type 0 where
  pub event_type : String
  pub channel_id : String
  pub instance_uuid : Option String
  pub context : Option Context
  pub timestamp : String

-- A callback is code of the subscriber: here a reference to it.
pub record EventSubscription : Type 0 where
  pub callback : ℕ
  pub channel_filter : Option String

-- What a method does outside the manager: it calls a subscriber, or schedules a publication.
pub data Effect : Type 0 where
  call : ℕ → ChannelEvent → Effect
  publish_task : ChannelEvent → Effect

pub record ChannelManager : Type 0 where
  pub channels : Dict ChannelInstance
  pub instance_channels : Dict String
  pub event_subscriptions : Dict EventSubscription
  pub private_channel_owners : Dict String
  pub private_channel_participants : Dict (List String)
  pub private_channel_invites : Dict (Dict (Option String))
  pub remote_private_channel_listeners : Dict (List String)
  pub next_subscription_id : ℕ
  pub channel_contexts : Dict (Dict Context)
  pub distributed_adapter : Bool

abbrev pub last_context_key : String
last_context_key = "__last__"

abbrev pub init : ChannelManager
init = record {
  channels = [];
  instance_channels = [];
  event_subscriptions = [];
  private_channel_owners = [];
  private_channel_participants = [];
  private_channel_invites = [];
  remote_private_channel_listeners = [];
  next_subscription_id = 1;
  channel_contexts = [];
  distributed_adapter = false;
}

-- `context` as a condition: a dict is false when it is empty
abbrev pub context_truthy : Context → Bool
context_truthy c = is_some c.type || not (is_empty c.entries)
