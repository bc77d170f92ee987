-- ===== src/Connections/Instances.antt =====
-- handlers/connection_manager.py: `WebSocketConnectionManager`, with the registry of external
-- handlers that it clears. A socket is an object, known by a name.
use py_fdc3_desktop_agent.Base.{ℕ, String, Bool, none, some, List, [], ◌∷◌, if◌then◌else◌}
use py_fdc3_desktop_agent.Base.Lists.{length}
use py_fdc3_desktop_agent.Base.Dict.{Dict, get, put, remove, has, keys}
use py_fdc3_desktop_agent.Core.External.{ExternalRegistry, unregister_by_instance}

pub record Connections : Type 0 where
  pub connections : Dict String
  pub external_registry : ExternalRegistry

unfoldable pub add_connection : Connections → String → String → Connections
add_connection m i websocket = record m { connections = put m.connections i websocket }

unfoldable pub remove_connection : Connections → String → Connections
remove_connection m i =
    if has m.connections i
    then record {
      connections = remove m.connections i;
      external_registry = unregister_by_instance m.external_registry i;
    }
    else m

-- `delivers` says whether `send_text` succeeds on a socket. The text is what is sent.
unfoldable pub send_to_instance :
    (String → Bool) → Connections → String → String → Connections × List (String × String)
send_to_instance delivers m i message = elim (get m.connections i) [
  | none ↦ (m, [])
  | some websocket ↦
      if delivers websocket then (m, (websocket, message) ∷ []) else (remove_connection m i, [])
]

unfoldable pub get_connected_instances : Connections → List String
get_connected_instances m = keys m.connections

unfoldable pub get_connection_count : Connections → ℕ
get_connection_count m = length m.connections

-- The second loop of `close_all`.
unfoldable pub unregister_all : ExternalRegistry → List String → ExternalRegistry
unregister_all r [] = r
unregister_all r (i ∷ rest) = unregister_all (unregister_by_instance r i) rest

unfoldable pub close_all : Connections → Connections
close_all m = record {
  connections = [];
  external_registry = unregister_all m.external_registry (keys m.connections);
}
