-- ===== src/Bridge/Updates.antt =====
-- bridging/router.py: what the events of other agents do, and that this agent's own do nothing.
use py_fdc3_desktop_agent.Base.{
  ◌≡◌, refl, sym, subst, ◌∙◌, String, Bool, true, false, not, ◌&&◌, ◌||◌, Option, none, some, List,
  [], ◌∷◌, arith, if◌then◌else◌, truthy, opt_truthy, opt_eq, ◌==◌, eq_iff, Option-cases, inl, inr,
}
use py_fdc3_desktop_agent.Base.Lists.{contains, is_empty}
use py_fdc3_desktop_agent.Base.Dict
use py_fdc3_desktop_agent.Base.Dict.{Dict, dict_laws, get-put, get-remove}
use py_fdc3_desktop_agent.Base.StrSet.{add, discard, contains-add, contains-discard}
use py_fdc3_desktop_agent.Base.Json.{Fields, get, text_of}
use py_fdc3_desktop_agent.Core.Channels.State.{ChannelManager}
use py_fdc3_desktop_agent.Core.Channels.Membership.{set_or_empty}
use py_fdc3_desktop_agent.Core.Channels.Remote.{
  add_remote_private_channel_listener, remove_remote_private_channel_listener,
  get_remote_private_channel_listeners,
}
use py_fdc3_desktop_agent.Dacp.Agent.{Agent}
use py_fdc3_desktop_agent.Bridge.Requests.{ParsedBridgeRequest, extract_fields}
use py_fdc3_desktop_agent.Bridge.Answers.{Outcome, no_response}
use py_fdc3_desktop_agent.Bridge.Events.{
  source_of, agent_of, is_local, update_from, handle_private_channel_listener_update,
}
use py_fdc3_desktop_agent.Bridge.Routing.{handle, handle_parsed, handle_request, settled, meta_of}

-- Whether `desktop_agent` is known to listen to the private channel.
abbrev pub listens : ChannelManager → String → String → Bool
listens m channel_id desktop_agent =
    contains desktop_agent (get_remote_private_channel_listeners m channel_id)

listens-add :
    (m : ChannelManager) (c d c' d' : String)
    → truthy c ≡ true
    → truthy d ≡ true
    → listens (add_remote_private_channel_listener m c d) c' d'
      ≡ ((c == c' && d == d') || listens m c' d')
unfolding add_remote_private_channel_listener get_remote_private_channel_listeners
listens-add m c d c' d' h k = ground (
  arith,
  h,
  k,
  eq_iff c c',
  get-put m.remote_private_channel_listeners c c'
      (add (set_or_empty (Dict.get m.remote_private_channel_listeners c)) d),
  contains-add (set_or_empty (Dict.get m.remote_private_channel_listeners c)) d d',
)

empty-contains : (xs : List String) (d : String) → is_empty xs ≡ true → contains d xs ≡ false
empty-contains [] d h = refl
empty-contains (x ∷ xs) d h = cc

listens-remove :
    (m : ChannelManager) (c d c' d' : String)
    → truthy c ≡ true
    → truthy d ≡ true
    → listens (remove_remote_private_channel_listener m c d) c' d'
      ≡ (if c == c' && d == d' then false else listens m c' d')
unfolding remove_remote_private_channel_listener get_remote_private_channel_listeners
listens-remove m c d c' d' h k = elim (Option-cases (Dict.get all c)) [
  | inl e ↦ ground (arith, h, k, e, eq_iff c c')
  | inr (xs, e) ↦ ground (
    arith,
    h,
    k,
    e,
    eq_iff c c',
    get-put all c c' (discard xs d),
    get-remove all c c',
    contains-discard xs d d',
    empty-contains xs d',
    empty-contains (discard xs d) d',
  )
]
  where
    all : Dict (List String)
    all = m.remote_private_channel_listeners

abbrev pub update_type : Bool → String
update_type true = "privateChannelEventListenerAdded"
update_type false = "privateChannelEventListenerRemoved"

opt_eq-truthy :
    (o : Option String) (t : String) → truthy t ≡ true → opt_eq o t ≡ true → opt_truthy o ≡ true
opt_eq-truthy none t h e = cc
opt_eq-truthy (some s) t h e = subst (λ x. truthy x ≡ true) (sym ((eq_iff s t).0 e)) h

listens-update :
    (local_name : Option String) (a : Agent) (c d c' d' : String) (added : Bool)
    → truthy c ≡ true
    → truthy d ≡ true
    → listens (update_from local_name a (some c) (some d) added).channel_manager c' d' ≡ (
        if (c == c' && d == d') && not (is_local local_name (some d))
        then added
        else listens a.channel_manager c' d')
listens-update local_name a c d c' d' true h k =
    ground (arith, h, k, listens-add a.channel_manager c d c' d' h k, opt_eq-truthy local_name d k)
listens-update local_name a c d c' d' false h k =
    ground
      (arith, h, k, listens-remove a.channel_manager c d c' d' h k, opt_eq-truthy local_name d k)

module _ (local_name : Option String) (dacp : Fields → Agent → Agent × Outcome) (a : Agent)
    (msg : Fields) (req : ParsedBridgeRequest) (parsed : extract_fields msg ≡ some req)
    (asked : opt_truthy req.request_uuid ≡ true) where
  handle-updates :
      (added : Bool)
      → req.msg_type ≡ some (update_type added)
      → handle local_name dacp a msg
        ≡ settled a
            (handle_private_channel_listener_update local_name a req.payload (meta_of msg) added)
  unfolding handle handle_parsed handle_request
  handle-updates true t = ground (arith, parsed, asked, t)
  handle-updates false t = ground (arith, parsed, asked, t)

  update-read :
      (added : Bool) (source : Fields) (c d : String)
      → text_of (get req.payload "channelId") ≡ some c
      → source_of (meta_of msg) ≡ some source
      → agent_of source ≡ some d
      → settled a
          (handle_private_channel_listener_update local_name a req.payload (meta_of msg) added)
        ≡ ((update_from local_name a (some c) (some d) added, []), no_response)
  unfolding handle_private_channel_listener_update
  update-read added source c d channel from agent = ground (arith, from, channel, agent)

  -- When another agent says that it listens to a private channel, or no longer does, that is what
  -- the channel manager knows of it afterwards, and nothing changes for any other channel or agent.
  -- When the message names this agent nothing changes at all. There is no response and no send.
  pub handle-update :
      (added : Bool) (source : Fields) (c d : String)
      → req.msg_type ≡ some (update_type added)
      → text_of (get req.payload "channelId") ≡ some c
      → source_of (meta_of msg) ≡ some source
      → agent_of source ≡ some d
      → truthy c ≡ true
      → truthy d ≡ true
      → (c' d' : String)
      → (listens (handle local_name dacp a msg).0.0.channel_manager c' d' ≡ (
          if (c == c' && d == d') && not (is_local local_name (some d))
          then added
          else listens a.channel_manager c' d'))
        × ((handle local_name dacp a msg).0.1 ≡ [])
        × ((handle local_name dacp a msg).1 ≡ no_response)
  handle-update added source c d t channel from agent h k c' d' =
      subst
        (λ x.
          (listens x.0.0.channel_manager c' d' ≡ (
            if (c == c' && d == d') && not (is_local local_name (some d))
            then added
            else listens a.channel_manager c' d'))
          × (x.0.1 ≡ [])
          × (x.1 ≡ no_response))
        (sym (handle-updates added t ∙ update-read added source c d channel from agent))
        (listens-update local_name a c d c' d' added h k, refl, refl)
