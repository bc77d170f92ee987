-- ===== src/Core/Channels/Contexts.antt =====
-- core/channel_context.py: the latest context of a channel, by type and overall. The stored copy is
-- deep, and the values of the model are immutable.
use py_fdc3_desktop_agent.Base.{String, Option, none, some, [], if◌then◌else◌, truthy}
use py_fdc3_desktop_agent.Base.Lists.{is_empty}
use py_fdc3_desktop_agent.Base.Dict.{Dict, get, put, remove}
use py_fdc3_desktop_agent.Core.Channels.State.{
  Context, ChannelManager, last_context_key, context_truthy,
}

-- `d.setdefault(k, {})`, read
abbrev pub dict_or_empty {ℓ} : {V : Type ℓ} → Option (Dict V) → Dict V
dict_or_empty none = []
dict_or_empty (some d) = d

unfoldable pub store_context : ChannelManager → String → Option String → Context → ChannelManager
unfolding get put
store_context m channel_id none c = m
store_context m channel_id (some t) c =
    if truthy t
    then record m {
      channel_contexts =
          put m.channel_contexts channel_id
            (put (put (dict_or_empty (get m.channel_contexts channel_id)) t c) last_context_key c);
    }
    else m

unfoldable pub set_channel_context : ChannelManager → String → Context → ChannelManager
set_channel_context m channel_id c =
    if context_truthy c then store_context m channel_id c.type c else m

unfoldable pub get_channel_context : ChannelManager → String → Option String → Option Context
unfolding get
get_channel_context m channel_id context_type =
    let contexts = dict_or_empty (get m.channel_contexts channel_id) in
    if is_empty contexts
    then none
    else elim context_type [ some t ↦ get contexts t | none ↦ get contexts last_context_key ]

unfoldable pub clear_channel_context : ChannelManager → String → ChannelManager
clear_channel_context m channel_id = record m {
  channel_contexts = remove m.channel_contexts channel_id;
}
