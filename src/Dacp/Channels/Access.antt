-- ===== src/Dacp/Channels/Access.antt =====
-- handlers/dacp/channel.py: who gets into a private channel.
use py_fdc3_desktop_agent.Base.{
  String, ◌≡◌, refl, ◌∙◌, inl, inr, Bool, true, false, ◌&&◌, ◌||◌, not, opt_eq, truthy, Option,
  none, some, List, arith, ◌==◌, if◌then◌else◌, Option-cases,
}
use py_fdc3_desktop_agent.Base.Dict.{get, has}
use py_fdc3_desktop_agent.Core.Channels.State.{ChannelInstance, ChannelManager}
use py_fdc3_desktop_agent.Core.Channels.Membership.{get_channel}
use py_fdc3_desktop_agent.Core.Channels.Private.{
  get_private_channel_owner, refuses, private_of, consume_private_channel_invite,
}
use py_fdc3_desktop_agent.Dacp.Agent.{Agent, Message, Call, caller}
use py_fdc3_desktop_agent.Dacp.Guards.{with_channel, with_access}
use py_fdc3_desktop_agent.Dacp.PrivateChannels.{admit, handle_join_private_channel}
use py_fdc3_desktop_agent.Core.Channels.Views.{current, is_private, current-join}
use py_fdc3_desktop_agent.Core.Channels.Invites.{invites_of, consume_accepts}

-- Consuming an invite moves nobody.
current-admit :
    (m : ChannelManager) (c : String) (t : Option String) (i j : String)
    → current (admit m c t i).0 j ≡ current m j
unfolding admit consume_private_channel_invite
current-admit m c none i j = ground arith
current-admit m c (some t) i j = ground arith

channels-admit :
    (m : ChannelManager) (c : String) (t : Option String) (i c' : String)
    → has (admit m c t i).0.channels c' ≡ has m.channels c'
unfolding admit consume_private_channel_invite
channels-admit m c none i c' = ground arith
channels-admit m c (some t) i c' = ground arith

current-with_access :
    (a : Agent) (refusal : List Message) (b : Bool) (out : Agent × List Message) (j : String)
    → current (with_access a refusal b out).0.channel_manager j
      ≡ (if b then current out.0.channel_manager j else current a.channel_manager j)
unfolding with_access
current-with_access a refusal true out j = refl
current-with_access a refusal false out j = refl

current-with_channel :
    (a : Agent) (refusal : List Message) (o : Option ChannelInstance)
    (body : ChannelInstance → Agent × List Message) (j : String)
    → current (with_channel a refusal o body).0.channel_manager j ≡ elim o [
      | none ↦ current a.channel_manager j
      | some ch ↦ current (body ch).0.channel_manager j
    ]
unfolding with_channel
current-with_channel a refusal none body j = refl
current-with_channel a refusal (some ch) body j = refl

-- Whom a private channel lets in: its owner, and who shows a token of the channel that is open to
-- all or made out to the one who shows it.
abbrev pub may_enter : ChannelManager → String → Option String → String → Bool
may_enter m c none i = opt_eq (get m.private_channel_owners c) i
may_enter m c (some t) i =
    opt_eq (get m.private_channel_owners c) i
    || truthy t
      && (elim (get (invites_of m c) t) [ none ↦ false | some allowed ↦ not (refuses allowed i) ])

admit_lem :
    (m : ChannelManager) (c : String) (t : Option String) (i : String)
    → (admit m c t i).1 ≡ may_enter m c t i
unfolding admit get_private_channel_owner
admit_lem m c none i = ground arith
admit_lem m c (some t) i = ground (arith, consume_accepts m c t i)

-- A request to join a private channel moves the caller to the channel if the channel is there and
-- private and the caller is its owner, or shows a token of the channel, not empty, that is open to
-- all or made out to the caller; otherwise it moves nobody.
pub current-join_private :
    (a : Agent) (k : Call) (c : String) (t : Option String) (j : String)
    → current (handle_join_private_channel a k c t).0.channel_manager j ≡ (
        if is_private a.channel_manager c
          && may_enter a.channel_manager c t (caller k)
          && caller k == j
        then some c
        else current a.channel_manager j)
unfolding handle_join_private_channel is_private get_channel has
current-join_private a k c t j =
    current-with_channel a _ (private_of (get_channel a.channel_manager c)) _ j
    ∙ elim (Option-cases (private_of (get_channel a.channel_manager c))) [
      | inl e ↦ rw e (ground (arith, e))
      | inr (ch, e) ↦ rw e (
          current-with_access _ _ _ _ j
          ∙ ground (
            arith,
            e,
            admit_lem a.channel_manager c t (caller k),
            current-admit a.channel_manager c t (caller k) j,
            channels-admit a.channel_manager c t (caller k) c,
            current-join (admit a.channel_manager c t (caller k)).0 (caller k) c k.now k.later j c,
          ))
    ]
