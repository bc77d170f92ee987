-- ===== src/Core/Channels/Recall.antt =====
-- core/channel_context.py: what `get_channel_context` returns after contexts are stored and cleared.
use py_fdc3_desktop_agent.Base.{
  String, ◌≡◌, refl, inl, inr, Bool, true, ◌&&◌, ◌||◌, Option, none, some, [], ◌∷◌, arith, ◌==◌,
  eq_iff, if◌then◌else◌, truthy, Bool-cases,
}
use py_fdc3_desktop_agent.Base.Lists.{is_empty}
use py_fdc3_desktop_agent.Base.Dict.{Dict, get, put, has, get-put, get-remove}
use py_fdc3_desktop_agent.Core.Channels.State.{Context, ChannelManager}
use py_fdc3_desktop_agent.Core.Channels.Contexts.{
  dict_or_empty, store_context, set_channel_context, get_channel_context, clear_channel_context,
}
use py_fdc3_desktop_agent.Core.Channels.Membership.{broadcast_to_channel}

-- The type under which a context is stored, if it is stored at all.
abbrev pub stored_type : Option String → Option String
stored_type none = none
stored_type (some t) = if truthy t then some t else none

-- Whether a query for `q` asks for what is stored under the type `t`: the latest context of any
-- type, or that of one type.
abbrev pub asks_for : Option String → String → Bool
asks_for none t = true
asks_for (some q) t = t == q || "__last__" == q

contexts_of : ChannelManager → String → Dict Context
contexts_of m c = dict_or_empty (get m.channel_contexts c)

get-empty : (d : Dict Context) (k : String) → is_empty d ≡ true → get d k ≡ none
unfolding get
get-empty [] k h = refl
get-empty ((j, v) ∷ d) k h = cc

abbrev key_of : Option String → String
key_of none = "__last__"
key_of (some t) = t

-- An empty inner dictionary answers every query by `None`, so the test for it adds nothing.
get_channel_context_lem :
    (m : ChannelManager) (c : String) (q : Option String)
    → get_channel_context m c q ≡ get (contexts_of m c) (key_of q)
unfolding get_channel_context contexts_of
get_channel_context_lem m c q = ground (arith, get-empty (contexts_of m c) (key_of q))

get-store_context :
    (m : ChannelManager) (c c' : String) (o : Option String) (x : Context) (k : String)
    → get (contexts_of (store_context m c o x) c') k ≡ elim o [
      | none ↦ get (contexts_of m c') k
      | some t ↦
          if truthy t && c == c' && (t == k || "__last__" == k)
          then some x
          else get (contexts_of m c') k
    ]
unfolding store_context contexts_of
get-store_context m c c' none x k = refl
get-store_context m c c' (some t) x k = ground (
  arith,
  get-put m.channel_contexts c c' (put (put (contexts_of m c) t x) "__last__" x),
  get-put (put (contexts_of m c) t x) "__last__" k x,
  get-put (contexts_of m c) t k x,
  eq_iff c c',
)

-- An empty context has no type, so the test for it adds nothing.
set_channel_context_lem :
    (m : ChannelManager) (c : String) (x : Context)
    → set_channel_context m c x ≡ store_context m c x.type x
unfolding set_channel_context store_context
set_channel_context_lem m c x = ground arith

recall-store_context :
    (m : ChannelManager) (c c' : String) (o : Option String) (x : Context) (q : Option String)
    → get_channel_context (store_context m c o x) c' q ≡ elim (stored_type o) [
      | none ↦ get_channel_context m c' q
      | some t ↦ if c == c' && asks_for q t then some x else get_channel_context m c' q
    ]
recall-store_context m c c' none x q = unfold store_context in refl
recall-store_context m c c' (some t) x none = elim (Bool-cases (truthy t)) [
  | inl e ↦ rw e (
      ground (
        arith,
        get_channel_context_lem (store_context m c (some t) x) c' none,
        get_channel_context_lem m c' none,
        get-store_context m c c' (some t) x "__last__",
      ))
  | inr e ↦ rw e (unfold store_context in rw e)
]
recall-store_context m c c' (some t) x (some q) = elim (Bool-cases (truthy t)) [
  | inl e ↦ rw e (
      ground (
        arith,
        get_channel_context_lem (store_context m c (some t) x) c' (some q),
        get_channel_context_lem m c' (some q),
        get-store_context m c c' (some t) x q,
      ))
  | inr e ↦ rw e (unfold store_context in rw e)
]

-- After a context with a type is stored for `c`, a query on `c` for its type, or for the latest
-- (with no type, or with the key of the latest as the type), returns it; every other query, of any
-- channel, is answered as before. A context without a type, or with an empty one, changes no answer.
pub get-set_channel_context :
    (m : ChannelManager) (c c' : String) (x : Context) (q : Option String)
    → get_channel_context (set_channel_context m c x) c' q ≡ elim (stored_type x.type) [
      | none ↦ get_channel_context m c' q
      | some t ↦ if c == c' && asks_for q t then some x else get_channel_context m c' q
    ]
get-set_channel_context m c c' x q =
    rw set_channel_context_lem (recall-store_context m c c' x.type x q)

-- A broadcast on a channel that is there is stored as its context; on any other it changes nothing.
pub context-broadcast :
    (m : ChannelManager) (c c' : String) (x : Context) (source now : String) (q : Option String)
    → get_channel_context (broadcast_to_channel m c x source now).0 c' q ≡ (
        if has m.channels c
        then get_channel_context (set_channel_context m c x) c' q
        else get_channel_context m c' q)
unfolding broadcast_to_channel
context-broadcast m c c' x source now q = ground arith

-- Clearing a channel's contexts makes every query on it fail, and leaves the other channels.
pub context-clear :
    (m : ChannelManager) (c c' : String) (q : Option String)
    → get_channel_context (clear_channel_context m c) c' q
      ≡ (if c == c' then none else get_channel_context m c' q)
unfolding clear_channel_context get_channel_context
context-clear m c c' q = ground (arith, get-remove m.channel_contexts c c', eq_iff c c')
