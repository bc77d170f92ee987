-- ===== src/Core/Channels/Invites.antt =====
-- core/channel_manager.py: who can use an invite to a private channel, and how often.
use py_fdc3_desktop_agent.Base.{
  String, ◌≡◌, refl, ◌≢◌, true, false, not, ◌&&◌, Option, none, some, [], ◌∷◌, arith, ◌==◌, eq_iff,
  eq_refl, if◌then◌else◌,
}
use py_fdc3_desktop_agent.Base.Lists.{is_empty}
use py_fdc3_desktop_agent.Base.Dict.{Dict, get, put, remove, get-put, get-remove}
use py_fdc3_desktop_agent.Core.Channels.State.{ChannelManager}
use py_fdc3_desktop_agent.Core.Channels.Contexts.{dict_or_empty}
use py_fdc3_desktop_agent.Core.Channels.Membership.{get_channel}
use py_fdc3_desktop_agent.Core.Channels.Private.{
  store_invites, create_private_channel_invite, refuses, consume_private_channel_invite,
}
use py_fdc3_desktop_agent.Core.Channels.Views.{is_private}
use py_fdc3_desktop_agent.Core.Channels.Steps.{after_invite}

-- The invites of a channel, as `get_private_channel_state` lists them.
abbrev pub invites_of : ChannelManager → String → Dict (Option String)
invites_of m c = dict_or_empty (get m.private_channel_invites c)

get-empty {ℓ} : {V : Type ℓ} (d : Dict V) (k : String) → is_empty d ≡ true → get d k ≡ none
unfolding get
get-empty [] k h = refl
get-empty ((j, v) ∷ d) k h = cc

stored_invites :
    (all : Dict (Dict (Option String))) (c : String) (rest : Dict (Option String)) (c' t : String)
    → get (dict_or_empty (get (store_invites all c rest) c')) t
      ≡ (if c == c' then get rest t else get (dict_or_empty (get all c')) t)
unfolding get
stored_invites all c rest c' t =
    ground (arith, get-remove all c c', get-put all c c' rest, get-empty rest t)

module _ (m : ChannelManager) (c token i : String) where
  -- A token is accepted exactly if the channel has it, and it is open to all or made out to the
  -- instance that shows it.
  pub consume_accepts :
      (consume_private_channel_invite m c token i).1
      ≡ elim (get (invites_of m c) token) [ none ↦ false | some allowed ↦ not (refuses allowed i) ]
  unfolding consume_private_channel_invite
  consume_accepts = ground arith

  -- Consuming takes an accepted token away, keeps every other token of the channel, and changes
  -- nothing if the token is refused.
  pub consume_tokens :
      (t : String)
      → get (invites_of (consume_private_channel_invite m c token i).0 c) t ≡ (
          if (consume_private_channel_invite m c token i).1 && token == t
          then none
          else get (invites_of m c) t)
  unfolding consume_private_channel_invite
  consume_tokens t = ground (
    arith,
    stored_invites m.private_channel_invites c (remove (invites_of m c) token) c t,
    get-remove (invites_of m c) token t,
    eq_refl c,
  )

  -- Consuming a token of one channel leaves the invites of another channel alone.
  pub consume_elsewhere :
      (c' t : String)
      → c ≢ c'
      → get (invites_of (consume_private_channel_invite m c token i).0 c') t
        ≡ get (invites_of m c') t
  unfolding consume_private_channel_invite
  consume_elsewhere c' t n = ground (
    arith,
    stored_invites m.private_channel_invites c (remove (invites_of m c) token) c' t,
    eq_iff c c',
  )

-- A token works once: after it is accepted no instance can use it on that channel.
pub consume_once :
    (m : ChannelManager) (c token i i' : String)
    → (consume_private_channel_invite m c token i).1 ≡ true
    → (consume_private_channel_invite (consume_private_channel_invite m c token i).0 c token i').1
      ≡ false
consume_once m c token i i' h = ground (
  arith,
  consume_accepts (consume_private_channel_invite m c token i).0 c token i',
  consume_tokens m c token i token,
  eq_refl token,
)

-- An invite made for a private channel is accepted from the instance that it names, or from any if
-- it names none, and is refused from the others. Where the channel is not there or not private,
-- no invite is made: the token is accepted exactly if it was accepted before.
pub invite-consume :
    (m : ChannelManager) (c : String) (allowed : Option String) (token i : String)
    → (consume_private_channel_invite
        (after_invite m (create_private_channel_invite m c allowed token))
        c
        token
        i).1
      ≡ (if is_private m c
          then not (refuses allowed i)
          else (consume_private_channel_invite m c token i).1)
unfolding create_private_channel_invite get_channel is_private
invite-consume m c allowed token i = ground (
  arith,
  consume_accepts (after_invite m (create_private_channel_invite m c allowed token)) c token i,
  get-put m.private_channel_invites c c (put (invites_of m c) token allowed),
  get-put (invites_of m c) token token allowed,
  eq_refl token,
  eq_refl c,
)
