-- ===== src/Core/Channels/Teardown.antt =====
-- core/channel_manager.py: how deleting and destroying a channel change what can be seen of the
-- other parts.
use py_fdc3_desktop_agent.Base.{
  String, ◌≡◌, refl, inl, inr, false, ◌&&◌, none, List, [], ◌∷◌, arith, ◌==◌, eq_iff, if◌then◌else◌,
  opt_eq, Bool-cases,
}
use py_fdc3_desktop_agent.Base.Lists.{contains}
use py_fdc3_desktop_agent.Base.Dict.{Dict, get, remove, has, get-remove}
use py_fdc3_desktop_agent.Core.Channels.State.{ChannelManager}
use py_fdc3_desktop_agent.Core.Channels.Membership.{
  remove_all, instances_on, delete_channel, get_channel_members,
}
use py_fdc3_desktop_agent.Core.Channels.Private.{dissociate, destroy_private_channel}
use py_fdc3_desktop_agent.Core.Channels.Views.{is_private, current}
use py_fdc3_desktop_agent.Base.Dict.{Distinct, remove-Distinct}

get-remove_all :
    (d : Dict String) (ks : List String) (j : String)
    → get (remove_all d ks) j ≡ (if contains j ks then none else get d j)
unfolding remove_all
get-remove_all d [] j = refl
get-remove_all d (k ∷ ks) j =
    ground (arith, get-remove_all (remove d k) ks j, get-remove d k j, eq_iff k j)

remove_all-Distinct : (d : Dict String) (ks : List String) → Distinct d → Distinct (remove_all d ks)
unfolding remove_all
remove_all-Distinct d [] h = h
remove_all-Distinct d (k ∷ ks) h = remove_all-Distinct (remove d k) ks (remove-Distinct d k h)

not_on : (d : Dict String) (c j : String) → get d j ≡ none → contains j (instances_on d c) ≡ false
unfolding instances_on get
not_on [] c j h = refl
not_on ((i, ch) ∷ d) c j h = ground (arith, not_on d c j, eq_iff i j)

contains-instances_on :
    (d : Dict String) (c j : String)
    → Distinct d
    → contains j (instances_on d c) ≡ opt_eq (get d j) c
unfolding instances_on get
contains-instances_on [] c j h = refl
contains-instances_on ((i, ch) ∷ d) c j h =
    ground (arith, contains-instances_on d c j h.1, not_on d c j, eq_iff i j)

get-dissociate :
    (d : Dict String) (ms : List String) (c j : String)
    → get (dissociate d ms c) j ≡ (if contains j ms && opt_eq (get d j) c then none else get d j)
unfolding dissociate
get-dissociate d [] c j = ground arith
get-dissociate d (i ∷ ms) c j = elim (Bool-cases (opt_eq (get d i) c)) [
  | inl e ↦ rw e (ground (arith, get-dissociate (remove d i) ms c j, get-remove d i j, eq_iff i j))
  | inr e ↦ rw e (ground (arith, get-dissociate d ms c j, eq_iff i j))
]

dissociate-Distinct :
    (d : Dict String) (ms : List String) (c : String) → Distinct d → Distinct (dissociate d ms c)
unfolding dissociate
dissociate-Distinct d [] c h = h
dissociate-Distinct d (i ∷ ms) c h = elim (Bool-cases (opt_eq (get d i) c)) [
  | inl e ↦ rw e (dissociate-Distinct (remove d i) ms c (remove-Distinct d i h))
  | inr e ↦ rw e (dissociate-Distinct d ms c h)
]

module _ (m : ChannelManager) (c now c' : String) where
  pub members-delete :
      get_channel_members (delete_channel m c now).0 c'
      ≡ (if c == c' then [] else get_channel_members m c')
  unfolding delete_channel get_channel_members has
  members-delete = ground (arith, get-remove m.channels c c', eq_iff c c')

  pub is_private-delete :
      is_private (delete_channel m c now).0 c' ≡ (if c == c' then false else is_private m c')
  unfolding delete_channel is_private has
  is_private-delete = ground (arith, get-remove m.channels c c', eq_iff c c')

  pub current-delete :
      Distinct m.instance_channels
      → current (delete_channel m c now).0 c'
        ≡ (if has m.channels c && opt_eq (current m c') c then none else current m c')
  unfolding delete_channel
  current-delete h = ground (
    arith,
    get-remove_all m.instance_channels (instances_on m.instance_channels c) c',
    contains-instances_on m.instance_channels c c' h,
  )

  pub Distinct-delete :
      Distinct m.instance_channels → Distinct (delete_channel m c now).0.instance_channels
  unfolding delete_channel
  Distinct-delete h =
      ground (arith, remove_all-Distinct m.instance_channels (instances_on m.instance_channels c) h)

  pub members-destroy :
      get_channel_members (destroy_private_channel m c now).0 c'
      ≡ (if c == c' then [] else get_channel_members m c')
  unfolding destroy_private_channel get_channel_members
  members-destroy = ground (arith, get-remove m.channels c c', eq_iff c c')

  pub is_private-destroy :
      is_private (destroy_private_channel m c now).0 c'
      ≡ (if c == c' then false else is_private m c')
  unfolding destroy_private_channel is_private
  is_private-destroy = ground (arith, get-remove m.channels c c', eq_iff c c')

  pub current-destroy : current (destroy_private_channel m c now).0 c' ≡ (
      if contains c' (get_channel_members m c) && opt_eq (current m c') c
      then none
      else current m c')
  unfolding destroy_private_channel get_channel_members
  current-destroy =
      ground (arith, get-dissociate m.instance_channels (get_channel_members m c) c c')

  pub Distinct-destroy :
      Distinct m.instance_channels → Distinct (destroy_private_channel m c now).0.instance_channels
  unfolding destroy_private_channel get_channel_members
  Distinct-destroy h =
      ground (arith, dissociate-Distinct m.instance_channels (get_channel_members m c) c h)
