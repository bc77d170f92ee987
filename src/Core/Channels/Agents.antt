-- ===== src/Core/Channels/Agents.antt =====
-- core/channel_manager.py: the remote agents that are told of a private channel.
use py_fdc3_desktop_agent.Base.{
  String, ◌≡◌, refl, true, false, ◌&&◌, List, [], ◌∷◌, arith, ◌==◌, eq_iff, if◌then◌else◌, truthy,
}
use py_fdc3_desktop_agent.Base.Lists.{is_empty, contains}
use py_fdc3_desktop_agent.Base.Dict.{get, get-put, get-remove}
use py_fdc3_desktop_agent.Base.StrSet.{add, discard, contains-add, contains-discard}
use py_fdc3_desktop_agent.Core.Channels.State.{ChannelManager}
use py_fdc3_desktop_agent.Core.Channels.Membership.{set_or_empty}
use py_fdc3_desktop_agent.Core.Channels.Remote.{
  add_remote_private_channel_listener, remove_remote_private_channel_listener,
  get_remote_private_channel_listeners,
}

contains-is_empty : (xs : List String) (b : String) → is_empty xs ≡ true → contains b xs ≡ false
contains-is_empty [] b h = refl
contains-is_empty (x ∷ xs) b h = cc

module _ (m : ChannelManager) (c agent c' b : String) where
  -- Adding an agent adds it to its channel and to nothing else; an empty name changes nothing.
  pub contains-add_remote :
      contains b
        (get_remote_private_channel_listeners (add_remote_private_channel_listener m c agent) c')
      ≡ (if truthy c && truthy agent && c == c' && agent == b
          then true
          else contains b (get_remote_private_channel_listeners m c'))
  unfolding add_remote_private_channel_listener get_remote_private_channel_listeners
  contains-add_remote = ground (
    arith,
    get-put m.remote_private_channel_listeners c c'
        (add (set_or_empty (get m.remote_private_channel_listeners c)) agent),
    contains-add (set_or_empty (get m.remote_private_channel_listeners c)) agent b,
    eq_iff c c',
  )

  abbrev listeners : List String
  listeners = set_or_empty (get m.remote_private_channel_listeners c)

  -- Removing an agent removes it from its channel and from nothing else.
  pub contains-remove_remote :
      contains b
        (get_remote_private_channel_listeners (remove_remote_private_channel_listener m c agent) c')
      ≡ (if truthy c && truthy agent && c == c' && agent == b
          then false
          else contains b (get_remote_private_channel_listeners m c'))
  unfolding remove_remote_private_channel_listener get_remote_private_channel_listeners
  contains-remove_remote = ground (
    arith,
    get-put m.remote_private_channel_listeners c c' (discard listeners agent),
    get-remove m.remote_private_channel_listeners c c',
    contains-discard listeners agent b,
    contains-is_empty (discard listeners agent) b,
    contains-is_empty listeners b,
    eq_iff c c',
  )
