-- ===== src/Connections/Reconnecting.antt =====
-- server/connection_manager.py: agent clients that come back on a new socket.
use py_fdc3_desktop_agent.Base.{
  String, ◌≡◌, Bool, true, false, not, ◌&&◌, ◌||◌, none, some, List, [], ◌∷◌, if◌then◌else◌, ◌==◌,
  eq_iff, eq_refl, arith, truthy,
}
use py_fdc3_desktop_agent.Base.Lists.{contains, filter}
use py_fdc3_desktop_agent.Base.Dict.{get, put, has, get-put, get-remove}
use py_fdc3_desktop_agent.Base.StrSet.{add, discard, contains-add, contains-discard}
use py_fdc3_desktop_agent.Connections.Clients.{
  Clients, discard_all, broadcast_agent_event, connect, disconnect, drop_instance,
}

contains-filter :
    (p : String → Bool) (ws : List String) (w : String)
    → contains w (filter p ws) ≡ (contains w ws && p w)
contains-filter p [] w = ground arith
contains-filter p (x ∷ ws) w = ground (arith, contains-filter p ws w, eq_iff x w)

module _ (delivers : String → Bool) where
  contains-discard_all :
      (active ws : List String) (w : String)
      → contains w (discard_all delivers active ws) ≡ (contains w active && not (contains w ws))
  unfolding discard_all
  contains-discard_all active [] w = ground arith
  contains-discard_all active (x ∷ ws) w = ground (
    arith,
    contains-discard_all (discard active x) ws w,
    contains-discard active x w,
    eq_iff x w,
    eq_iff w x,
  )

  -- After an event is broadcast the active sockets are those that it was delivered to.
  pub contains-broadcast :
      (m : Clients) (event_type i w : String)
      → contains w (broadcast_agent_event delivers m event_type i).0.active_connections
        ≡ (contains w m.active_connections && delivers w)
  unfolding broadcast_agent_event
  contains-broadcast m event_type i w = ground (
    arith,
    contains-discard_all m.active_connections (filter (λ w. not (delivers w)) m.active_connections)
        w,
    contains-filter (λ w. not (delivers w)) m.active_connections w,
  )

  connections-connect :
      (m : Clients) (w i j : String)
      → get (connect delivers m w i).0.connections j
        ≡ (if i == j then some w else get m.connections j)
  unfolding connect broadcast_agent_event
  connections-connect m w i j = get-put m.connections i j w

  connections-disconnect :
      (m : Clients) (w i : String)
      → truthy i ≡ true
      → get (disconnect delivers m w (some i)).0.connections i ≡ none
  unfolding disconnect broadcast_agent_event has
  connections-disconnect m w i t = ground (arith, get-remove m.connections i i, eq_refl i)

  active-connect :
      (m : Clients) (w i v : String)
      → contains v (connect delivers m w i).0.active_connections
        ≡ ((w == v || contains v m.active_connections) && delivers v)
  unfolding connect
  active-connect m w i v = ground (
    arith,
    contains-broadcast
        (record {
          connections = put m.connections i w;
          active_connections = add m.active_connections w;
        })
        "connected" i v,
    contains-add m.active_connections w v,
  )

  active-disconnect :
      (m : Clients) (w i v : String)
      → truthy i ≡ true
      → contains v (disconnect delivers m w (some i)).0.active_connections
        ≡ (not (w == v) && contains v m.active_connections && delivers v)
  unfolding disconnect
  active-disconnect m w i v t = ground (
    arith,
    t,
    contains-broadcast
        (record {
          connections = drop_instance delivers m i;
          active_connections = discard m.active_connections w;
        })
        "disconnected" i v,
    contains-discard m.active_connections w v,
  )

  -- A client that connects again on another socket, which delivers, before the end of its first
  -- socket is noticed, is lost by the disconnect of the first: its socket is active, but the instance
  -- is no longer connected.
  pub reconnect_lost :
      (m : Clients) (first second i : String)
      → truthy i ≡ true
      → (first == second) ≡ false
      → delivers second ≡ true
      → (get
            (disconnect delivers
              (connect delivers (connect delivers m first i).0 second i).0
              first
              (some i)).0.connections
            i
          ≡ none)
        × (contains second
              (disconnect delivers
                (connect delivers (connect delivers m first i).0 second i).0
                first
                (some i)).0.active_connections
            ≡ true)
  reconnect_lost m first second i t n d =
      let once = (connect delivers m first i).0 in
      (
        connections-disconnect (connect delivers once second i).0 first i t,
        ground (
          arith,
          active-disconnect (connect delivers once second i).0 first i second t,
          active-connect once second i second,
          eq_refl second,
        ),
      )
