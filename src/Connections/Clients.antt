-- ===== src/Connections/Clients.antt =====
-- server/connection_manager.py: `AgentClientConnectionManager`, the connections of agent clients.
use py_fdc3_desktop_agent.Base.{
  ℕ, String, Bool, true, false, not, ◌&&◌, Option, none, some, List, [], ◌∷◌, if◌then◌else◌, truthy,
}
use py_fdc3_desktop_agent.Base.Lists.{length, filter}
use py_fdc3_desktop_agent.Base.Dict.{Dict, get, put, remove, has}
use py_fdc3_desktop_agent.Base.StrSet.{add, discard}

-- `active_connections` is a set of sockets.
pub record Clients : Type 0 where
  pub connections : Dict String
  pub active_connections : List String

-- An event that is sent to a socket.
pub record Sent : Type 0 where
  pub websocket : String
  pub event_type : String
  pub instance_uuid : String

abbrev pub no_clients : Clients
no_clients = record { connections = []; active_connections = [] }

-- `delivers` says whether `send_text` succeeds on a socket.
module _ (delivers : String → Bool) where
  -- The second loop: `for ws in disconnected`.
  unfoldable pub discard_all : List String → List String → List String
  discard_all active [] = active
  discard_all active (w ∷ rest) = discard_all (discard active w) rest

  abbrev pub sent_to : String → String → List String → List Sent
  sent_to event_type i [] = []
  sent_to event_type i (w ∷ rest) =
      record { websocket = w; event_type = event_type; instance_uuid = i }
      ∷ sent_to event_type i rest

  unfoldable pub broadcast_agent_event : Clients → String → String → Clients × List Sent
  broadcast_agent_event m event_type i = (
    record m {
      active_connections =
          discard_all m.active_connections (filter (λ w. not (delivers w)) m.active_connections);
    },
    sent_to event_type i (filter delivers m.active_connections),
  )

  unfoldable pub connect : Clients → String → String → Clients × List Sent
  connect m websocket i =
      broadcast_agent_event
        (record {
          connections = put m.connections i websocket;
          active_connections = add m.active_connections websocket;
        })
        "connected" i

  abbrev pub drop_instance : Clients → String → Dict String
  drop_instance m i =
      if truthy i && has m.connections i then remove m.connections i else m.connections

  unfoldable pub disconnect : Clients → String → Option String → Clients × List Sent
  disconnect m websocket none =
      (record m { active_connections = discard m.active_connections websocket }, [])
  disconnect m websocket (some i) =
      let m' : Clients = record {
        connections = drop_instance m i;
        active_connections = discard m.active_connections websocket;
      } in
      if truthy i then broadcast_agent_event m' "disconnected" i else (m', [])

  -- Whether the text is sent, and the clients after it.
  unfoldable pub send_to_client : Clients → String → Clients × Bool
  send_to_client m i = elim (get m.connections i) [
    | none ↦ (m, false)
    | some websocket ↦
        if delivers websocket then (m, true) else ((disconnect m websocket (some i)).0, false)
  ]

unfoldable pub close_all_clients : Clients → Clients
close_all_clients m = record { connections = []; active_connections = [] }

unfoldable pub get_active_connection_count : Clients → ℕ
get_active_connection_count m = length m.active_connections
