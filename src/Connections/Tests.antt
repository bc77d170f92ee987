-- ===== src/Connections/Tests.antt =====
-- Examples of the connection managers: a handler's instance that closes, a client that comes back.
use py_fdc3_desktop_agent.Base.{String, ◌≡◌, refl, Bool, true, some, none, [], ◌∷◌, ◌==◌}
use py_fdc3_desktop_agent.Base.Int.{pos}
use py_fdc3_desktop_agent.Base.Lists.{contains}
use py_fdc3_desktop_agent.Base.Dict.{get}
use py_fdc3_desktop_agent.Core.External.{no_handlers, register}
use py_fdc3_desktop_agent.Core.External.Record.{IsFiled}
use py_fdc3_desktop_agent.Core.External.Disconnect.{start, next, registered, Reach-IsFiled}
use py_fdc3_desktop_agent.Connections.Instances.{Connections}
use py_fdc3_desktop_agent.Connections.Clients.{no_clients, connect, disconnect}
use py_fdc3_desktop_agent.Connections.Reconnecting.{reconnect_lost}

abbrev one : Connections
one = record {
  connections = ("ann", "w1") ∷ [];
  external_registry = (register no_handlers "h1" "ann" "charts" ("ViewChart" ∷ []) (pos 1) none).0;
}

filed : IsFiled one.external_registry
unfolding get
filed =
    Reach-IsFiled (next start (registered "h1" "ann" "charts" ("ViewChart" ∷ []) (pos 1) none refl))

abbrev delivers : String → Bool
delivers w = w == "w2"

reconnect_lost_example :
    (get
        (disconnect delivers
          (connect delivers (connect delivers no_clients "w1" "ann").0 "w2" "ann").0
          "w1"
          (some "ann")).0.connections
        "ann"
      ≡ none)
    × (contains "w2"
          (disconnect delivers
            (connect delivers (connect delivers no_clients "w1" "ann").0 "w2" "ann").0
            "w1"
            (some "ann")).0.active_connections
        ≡ true)
reconnect_lost_example = reconnect_lost delivers no_clients "w1" "w2" "ann" refl refl refl
