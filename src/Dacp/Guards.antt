-- ===== src/Dacp/Guards.antt =====
-- handlers/dacp/channel.py: the guards that its handlers share.
use py_fdc3_desktop_agent.Base.{String, Bool, true, false, Option, none, some, List, ◌==◌}
use py_fdc3_desktop_agent.Core.Channels.State.{ChannelInstance}
use py_fdc3_desktop_agent.Dacp.Agent.{Agent, Message}

-- `current_channel is None or current_channel.id != channel_id`, and what is read of the channel.
abbrev pub is_on : Option ChannelInstance → String → Bool
is_on none channel_id = false
is_on (some ch) channel_id = ch.id == channel_id

-- The guard of the handlers for one channel: an error if there is no such channel.
unfoldable pub with_channel :
    Agent
    → List Message
    → Option ChannelInstance
    → (ChannelInstance → Agent × List Message)
    → Agent × List Message
with_channel a refusal none body = (a, refusal)
with_channel a refusal (some ch) body = body ch

-- The guard on who calls: an error if the test fails.
unfoldable pub with_access :
    Agent → List Message → Bool → Agent × List Message → Agent × List Message
with_access a refusal true out = out
with_access a refusal false out = (a, refusal)
