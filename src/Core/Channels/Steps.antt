-- ===== src/Core/Channels/Steps.antt =====
-- core/channel_manager.py: the calls that change a manager, in any order.
use py_fdc3_desktop_agent.Base.{ℕ, String, Option, none, some, List, [], ◌∷◌}
use py_fdc3_desktop_agent.Core.Channels.State.{
  DisplayMetadata, Context, ChannelInstance, Effect, ChannelManager,
}
use py_fdc3_desktop_agent.Core.Channels.Events.{subscribe_to_events, unsubscribe_from_events}
use py_fdc3_desktop_agent.Core.Channels.Contexts.{set_channel_context, clear_channel_context}
use py_fdc3_desktop_agent.Core.Channels.Membership.{
  create_channel, delete_channel, join_channel, leave_current_channel, broadcast_to_channel,
}
use py_fdc3_desktop_agent.Core.Channels.Private.{
  create_private_channel, create_private_channel_invite, consume_private_channel_invite,
  destroy_private_channel,
}
use py_fdc3_desktop_agent.Core.Channels.Remote.{
  add_remote_private_channel_listener, remove_remote_private_channel_listener,
}

-- One constructor for each method that changes the state, with the method's arguments.
pub data Operation : Type 0 where
  create : String → String → Option DisplayMetadata → String → Operation
  delete : String → String → Operation
  create_private : String → Option String → Option DisplayMetadata → String → String → Operation
  invite : String → Option String → String → Operation
  consume : String → String → String → Operation
  join : String → String → String → String → Operation
  leave : String → String → Operation
  destroy : String → String → Operation
  broadcast : String → Context → String → String → Operation
  set_context : String → Context → Operation
  clear_context : String → Operation
  add_remote : String → String → Operation
  remove_remote : String → String → Operation
  subscribe : ℕ → Option String → Operation
  unsubscribe : String → Operation

-- A `ValueError` leaves the state as it was.
abbrev pub after_private :
    ChannelManager → Option (ChannelManager × ChannelInstance × List Effect) → ChannelManager
after_private m none = m
after_private m (some (m', ch, effects)) = m'

abbrev pub after_invite : ChannelManager → Option (ChannelManager × String) → ChannelManager
after_invite m none = m
after_invite m (some (m', token)) = m'

unfoldable pub step : ChannelManager → Operation → ChannelManager
step m (create c t dm now) = (create_channel m c t dm now).0
step m (delete c now) = (delete_channel m c now).0
step m (create_private o c dm uuid now) = after_private m (create_private_channel m o c dm uuid now)
step m (invite c i token) = after_invite m (create_private_channel_invite m c i token)
step m (consume c token i) = (consume_private_channel_invite m c token i).0
step m (join i c left_at joined_at) = (join_channel m i c left_at joined_at).0
step m (leave i now) = (leave_current_channel m i now).0
step m (destroy c now) = (destroy_private_channel m c now).0
step m (broadcast c context source now) = (broadcast_to_channel m c context source now).0
step m (set_context c context) = set_channel_context m c context
step m (clear_context c) = clear_channel_context m c
step m (add_remote c agent) = add_remote_private_channel_listener m c agent
step m (remove_remote c agent) = remove_remote_private_channel_listener m c agent
step m (subscribe callback f) = (subscribe_to_events m callback f).0
step m (unsubscribe key) = unsubscribe_from_events m key

unfoldable pub run : ChannelManager → List Operation → ChannelManager
run m [] = m
run m (op ∷ ops) = run (step m op) ops

-- What holds at first and is kept by every call holds after any calls.
module _ (P : ChannelManager → Type 0)
    (keep : (m : ChannelManager) (op : Operation) → P m → P (step m op)) where
  pub run_induction : (m : ChannelManager) (ops : List Operation) → P m → P (run m ops)
  unfolding run
  run_induction m [] h = h
  run_induction m (op ∷ ops) h = run_induction (step m op) ops (keep m op h)
